-- ===== src/Prelude/Text.antt =====
-- Text as a list of character codes.
use Prim.Native.Char.{code}
use Prim.Native.String.{String}
use Prim.Native.Nat.{ℕ, zero, suc, ◌+◌, ◌/◌, ◌%◌, ◌≤◌}
use mathlib.Core.List.{List, [], ◌∷◌}
use native.Mathlib.Omega.{arith}
use cybou_db.Prelude.Tests.{◌==◌, if◌then◌else◌}
use cybou_db.Prelude.Arrays.{length}

-- `String` has its own `[]` and `∷`.
abbrev pub codes : String → List ℕ
codes String.[] = []
codes (String.◌∷◌ c s) = code c ∷ codes s

-- The digits of `n` in front of `rest`, `fuel` of them at most.
unfoldable pub digits_onto : ℕ → ℕ → List ℕ → List ℕ
digits_onto zero n rest = rest
digits_onto (suc fuel) n rest =
    let more = digits_onto fuel (n / 10) ((48 + n % 10) ∷ rest) in
    if n / 10 == 0 then (48 + n % 10) ∷ rest else more

-- `%llu`: a 64-bit number has twenty digits at most.
unfoldable pub decimal : ℕ → List ℕ
decimal n = digits_onto 20 n []

length-digits_onto :
    (fuel n : ℕ) (rest : List ℕ) → length (digits_onto fuel n rest) ≤ fuel + length rest
unfolding digits_onto
length-digits_onto zero n rest = omega arith
length-digits_onto (suc fuel) n rest =
    ground (arith, length-digits_onto fuel (n / 10) ((48 + n % 10) ∷ rest))

pub length-decimal : (n : ℕ) → length (decimal n) ≤ 20
unfolding decimal
length-decimal n = omega (arith, length-digits_onto 20 n [])

-- `%s` prints up to the first zero byte.
unfoldable pub c_string : List ℕ → List ℕ
c_string [] = []
c_string (c ∷ s) = if c == 0 then [] else c ∷ c_string s

pub length-c_string : (s : List ℕ) → length (c_string s) ≤ length s
unfolding c_string
length-c_string [] = omega arith
length-c_string (c ∷ s) = ground (arith, length-c_string s)
