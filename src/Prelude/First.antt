-- ===== src/Prelude/First.antt =====
-- The first index of a range with a property: what a search that goes upwards has to answer.
use Prim.Native.Nat.{ℕ, ◌+◌, ◌≤◌, ◌<◌}
use mathlib.Core.Path.{◌≡◌, refl, ap, subst}
use mathlib.Core.Logic.{◌⊎◌, inl, inr}
use mathlib.Core.Option.{Option, none, some}
use native.Mathlib.Omega.{arith}

module _ (P : ℕ → Type 0) where
  -- No index of `[lo, hi)` below the answer has the property, and the answer has it.
  abbrev pub FirstIn : ℕ → ℕ → Option ℕ → Type 0
  FirstIn lo hi none = (i : ℕ) → lo ≤ i → i < hi → ¬ P i
  FirstIn lo hi (some j) = (lo ≤ j) × (j < hi) × P j × ((i : ℕ) → lo ≤ i → i < j → ¬ P i)

pub trichotomy : (a b : ℕ) → (a < b) ⊎ (a ≡ b) ⊎ (b < a)
trichotomy a b = ground arith

pub split_at : (i b : ℕ) → (i < b) ⊎ (b ≤ i)
split_at i b = omega arith

pub FirstIn-unique :
    (P : ℕ → Type 0) (lo hi : ℕ) (a b : Option ℕ) → FirstIn P lo hi a → FirstIn P lo hi b → a ≡ b
FirstIn-unique P lo hi none none f g = refl
FirstIn-unique P lo hi none (some j) f g = absurd (f j g.0 g.1 g.2)
FirstIn-unique P lo hi (some i) none f g = absurd (g i f.0 f.1 f.2)
FirstIn-unique P lo hi (some i) (some j) f g = elim (trichotomy i j) [
  | inl h ↦ absurd (g.3 i f.0 h f.2)
  | inr (inl e) ↦ ap some e
  | inr (inr h) ↦ absurd (f.3 j g.0 h g.2)
]

-- A range with nothing in it may be put in front.
pub FirstIn-append :
    (P : ℕ → Type 0) (a b c : ℕ) (o : Option ℕ)
    → a ≤ b
    → FirstIn P a b none
    → FirstIn P b c o
    → FirstIn P a c o
FirstIn-append P a b c none le f g =
    λ i p q. elim (split_at i b) [ inl h ↦ f i p h | inr h ↦ g i h q ]
FirstIn-append P a b c (some j) le f g =
    (omega arith, g.1, g.2, λ i p q. elim (split_at i b) [ inl h ↦ f i p h | inr h ↦ g.3 i h q ])

pub FirstIn-widen :
    (P : ℕ → Type 0) (a b c j : ℕ) → b ≤ c → FirstIn P a b (some j) → FirstIn P a c (some j)
FirstIn-widen P a b c j le f = (f.0, omega arith, f.2, f.3)

pub FirstIn-here : (P : ℕ → Type 0) (a c : ℕ) → a < c → P a → FirstIn P a c (some a)
FirstIn-here P a c h p = (omega arith, h, p, λ i q r. absurd (omega arith))

pub FirstIn-next :
    (P : ℕ → Type 0) (a c : ℕ) (o : Option ℕ) → ¬ P a → FirstIn P (a + 1) c o → FirstIn P a c o
FirstIn-next P a c o np f = FirstIn-append P a (a + 1) c o (omega arith) only f
  where
    only : FirstIn P a (a + 1) none
    only i p q = let e : i ≡ a = omega arith in λ pi. np (subst P e pi)

pub FirstIn-nothing : (P : ℕ → Type 0) (a c : ℕ) → c ≤ a → FirstIn P a c none
FirstIn-nothing P a c h = λ i p q. absurd (omega arith)
