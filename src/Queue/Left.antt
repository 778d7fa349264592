-- ===== src/Queue/Left.antt =====
-- How many messages of a queue are left to finish, by their positions.
use cybou_db.Prelude.{
  ℕ, zero, suc, ◌+◌, ◌-◌, ◌≤◌, ◌<◌, ◌≡◌, inl, inr, refl, subst, true, ltb, arith, Bool-cases,
  and_true, ltb→lt, ltb→le,
}
use cybou_db.Leased.Tickets.{Held, free, claimed, finished, Slot}
use cybou_db.Queue.View.{values}
use cybou_db.Queue.Turns.{workable, one_left, unfinished, all_workable}

pub values-workable :
    (n start now : ℕ) (f : ℕ → Slot)
    → ((j : ℕ) → start ≤ j → j < start + n → workable now (f j) ≡ true)
    → all_workable now (values n start f) ≡ true
unfolding values all_workable
values-workable zero start now f h = refl
values-workable (suc n) start now f h =
    rw
      (
        h start (omega arith) (omega arith),
        values-workable n (suc start) now f (λ j a b. h j (omega arith) (omega arith)),
      )
      refl

pub workable-values :
    (n start now : ℕ) (f : ℕ → Slot) (j : ℕ)
    → all_workable now (values n start f) ≡ true
    → start ≤ j
    → j < start + n
    → workable now (f j) ≡ true
unfolding values all_workable
workable-values zero start now f j h a b = absurd (omega arith)
workable-values (suc n) start now f j h a b =
    let (x, y) = and_true (workable now (f start)) (all_workable now (values n (suc start) f)) h in
    elim (Bool-cases (ltb start j)) [
      | inl e ↦ workable-values n (suc start) now f j y (ltb→lt start j e) (omega arith)
      | inr e ↦
          let same : start ≡ j = omega (arith, a, ltb→le start j e) in
          subst (λ (i : ℕ). workable now (f i) ≡ true) same x
    ]

one_left-le : (s : Held) → one_left s ≤ 1
one_left-le free = omega arith
one_left-le claimed = omega arith
one_left-le finished = omega arith

unfinished-le : (n start : ℕ) (f : ℕ → Slot) → unfinished (values n start f) ≤ n
unfolding values unfinished
unfinished-le zero start f = omega arith
unfinished-le (suc n) start f =
    omega (arith, one_left-le (f start).state, unfinished-le n (suc start) f)

-- Only the messages from the head on can be left.
pub unfinished-values :
    (n start head : ℕ) (f : ℕ → Slot)
    → start ≤ head
    → ((j : ℕ) → j < head → (f j).state ≡ finished)
    → unfinished (values n start f) ≤ start + n - head
unfolding values unfinished
unfinished-values zero start head f a h = omega arith
unfinished-values (suc n) start head f a h = elim (Bool-cases (ltb start head)) [
  | inl e ↦
      let lt = ltb→lt start head e in
      rw (h start lt) (omega (arith, unfinished-values n (suc start) head f lt h))
  | inr e ↦ omega (arith, a, ltb→le start head e, unfinished-le (suc n) start f)
]

one_left-none : (s : Held) → one_left s ≡ 0 → s ≡ finished
one_left-none free e = absurd (omega (arith, e))
one_left-none claimed e = absurd (omega (arith, e))
one_left-none finished e = refl

pub unfinished-none :
    (n start : ℕ) (f : ℕ → Slot) (j : ℕ)
    → unfinished (values n start f) ≡ 0
    → start ≤ j
    → j < start + n
    → (f j).state ≡ finished
unfolding values unfinished
unfinished-none zero start f j e a b = absurd (omega arith)
unfinished-none (suc n) start f j e a b = elim (Bool-cases (ltb start j)) [
  | inl h ↦ unfinished-none n (suc start) f j (omega (arith, e)) (ltb→lt start j h) (omega arith)
  | inr h ↦
      let same : start ≡ j = omega (arith, a, ltb→le start j h) in
      subst (λ (i : ℕ). (f i).state ≡ finished) same
        (one_left-none (f start).state (omega (arith, e)))
]
