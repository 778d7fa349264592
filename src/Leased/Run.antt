-- ===== src/Leased/Run.antt =====
-- Commands over a state that may end the program early: `none` stands for `return 1`.
use cybou_db.Prelude.{Option, none, some}

abbrev pub Cmd : Type 0 → Type 0 → Type 0
Cmd S A = S → Option (A × S)

abbrev pub pure : {S A : Type 0} → A → Cmd S A
pure a = λ s. some (a, s)

module _ {S A B : Type 0} where
  abbrev pub and_then : Option (A × S) → (A → Cmd S B) → Option (B × S)
  and_then none k = none
  and_then (some (a, s)) k = k a s

  infixl 5 ◌>>=◌ ◌>>◌
  abbrev pub ◌>>=◌ : Cmd S A → (A → Cmd S B) → Cmd S B
  m >>= k = λ s. and_then (m s) k

  abbrev pub ◌>>◌ : Cmd S A → Cmd S B → Cmd S B
  m >> n = m >>= λ _. n

-- The command has gone on with what `P` says, or it has ended the program and `Why` says the reason.
pub data Goes {S A : Type 0} (Why : Type 0) (P : A → S → Type 0) : Option (A × S) → Type 0 where
  goes : {a : A} {s : S} → P a s → Goes Why P (some (a, s))
  ended : Why → Goes Why P none

module _ {S A B : Type 0} {Why : Type 0} {P : A → S → Type 0} {Q : B → S → Type 0} where
  pub Goes-and_then :
      {r : Option (A × S)} {k : A → Cmd S B}
      → Goes Why P r
      → ((a : A) (s : S) → P a s → Goes Why Q (k a s))
      → Goes Why Q (and_then r k)
  Goes-and_then (goes p) h = h _ _ p
  Goes-and_then (ended w) h = ended w

module _ {S A : Type 0} {Why : Type 0} {P Q : A → S → Type 0} where
  pub Goes-map :
      {r : Option (A × S)} → Goes Why P r → ((a : A) (s : S) → P a s → Q a s) → Goes Why Q r
  Goes-map (goes p) h = goes (h _ _ p)
  Goes-map (ended w) h = ended w
