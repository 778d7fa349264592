-- ===== src/Lease/Summary.antt =====
-- What the two walks over a range of slots answer.
use cybou_db.Prelude.{
  ℕ, zero, suc, ◌+◌, ◌≤◌, ◌<◌, ◌≡◌, ◌⊎◌, inl, inr, refl, sym, ap, subst, Option, none, some, true,
  false, arith, ◌==◌, Bool-cases, Option-cases, FirstIn, FirstIn-here, FirstIn-next,
  FirstIn-nothing, trichotomy,
}
use Prim.Native.Nat.{min}
use cybou_db.Lease.Slots.{Slot, claimable, Claims, state_held}
use cybou_db.Lease.Walk.{least_deadline, ready_walk, claim_walk}

least_deadline-min : (s : Slot) (a b : ℕ) → least_deadline s (min a b) ≡ min a (least_deadline s b)
unfolding least_deadline
least_deadline-min s a b = ground arith

least_deadline-le : (s : Slot) (best : ℕ) → least_deadline s best ≤ best
unfolding least_deadline
least_deadline-le s best = ground arith

-- A slot that is not held and lowers the best to `now` is claimable then, and the other way round.
least_deadline_sound :
    (s : Slot) (best now : ℕ)
    → (s.state == state_held) ≡ false
    → least_deadline s best ≤ now
    → (best ≤ now) ⊎ (claimable now s ≡ true)
unfolding least_deadline claimable
least_deadline_sound s best now h l = ground arith

least_deadline_lower :
    (s : Slot) (best now : ℕ)
    → (s.state == state_held) ≡ false
    → claimable now s ≡ true
    → least_deadline s best ≤ now
unfolding least_deadline claimable
least_deadline_lower s best now h c = ground arith

pub held_claimable : (s : Slot) (now : ℕ) → (s.state == state_held) ≡ true → claimable now s ≡ true
unfolding claimable
held_claimable s now h = ground arith

module _ (slot : ℕ → Option Slot) where
  not-Claims-none : (now p : ℕ) → slot p ≡ none → ¬ Claims slot now p
  not-Claims-none now p e (s, f, c) = cc

  not-Claims-some :
      (now p : ℕ) (s : Slot) → slot p ≡ some s → claimable now s ≡ false → ¬ Claims slot now p
  not-Claims-some now p s e c (t, f, d) = cc

  -- The walk finds the first claimable position of its range.
  pub claim_walk-FirstIn :
      (now n p hi read : ℕ)
      → p + n ≡ hi
      → FirstIn (Claims slot now) p hi (claim_walk slot now n p read).0
  unfolding claim_walk
  claim_walk-FirstIn now zero p hi read e = FirstIn-nothing _ p hi (omega arith)
  claim_walk-FirstIn now (suc n) p hi read e = elim (Option-cases (slot p)) [
    | inl f ↦
        rw (f, claim_walk)
          (FirstIn-next _ p hi _ (not-Claims-none now p f)
            (claim_walk-FirstIn now n (p + 1) hi read (omega arith)))
    | inr (s, f) ↦ elim (Bool-cases (claimable now s)) [
      | inl c ↦ rw (f, c, claim_walk) (FirstIn-here (Claims slot now) p hi (omega arith) (s, f, c))
      | inr c ↦
          rw (f, c, claim_walk)
            (FirstIn-next _ p hi _ (not-Claims-some now p s f c)
              (claim_walk-FirstIn now n (p + 1) hi (read + 1) (omega arith)))
    ]
  ]

  pub ready_none :
      (n p best : ℕ)
      → slot p ≡ none
      → ready_walk slot (suc n) p best ≡ ready_walk slot n (p + 1) best
  unfolding ready_walk
  ready_none n p best e = rw (e, ready_walk)

  pub ready_held :
      (n p best : ℕ) (s : Slot)
      → slot p ≡ some s
      → (s.state == state_held) ≡ true
      → ready_walk slot (suc n) p best ≡ 0
  unfolding ready_walk
  ready_held n p best s e h = rw (e, h, ready_walk)

  pub ready_other :
      (n p best : ℕ) (s : Slot)
      → slot p ≡ some s
      → (s.state == state_held) ≡ false
      → ready_walk slot (suc n) p best ≡ ready_walk slot n (p + 1) (least_deadline s best)
  unfolding ready_walk
  ready_other n p best s e h = rw (e, h, ready_walk)

  -- What the walk can meet at one position.
  abbrev pub Met : ℕ → Type 0
  Met p =
      (slot p ≡ none)
      ⊎ ((s : Slot) × (slot p ≡ some s) × ((s.state == state_held) ≡ true))
      ⊎ ((s : Slot) × (slot p ≡ some s) × ((s.state == state_held) ≡ false))

  pub met : (p : ℕ) → Met p
  met p = elim (Option-cases (slot p)) [
    | inl e ↦ inl e
    | inr (s, e) ↦ elim (Bool-cases (s.state == state_held)) [
      | inl h ↦ inr (inl (s, e, h))
      | inr h ↦ inr (inr (s, e, h))
    ]
  ]

  ready_walk-le : (n p best : ℕ) → ready_walk slot n p best ≤ best
  unfolding ready_walk
  ready_walk-le zero p best = omega arith
  ready_walk-le (suc n) p best = elim (met p) [
    | inl e ↦ omega (arith, ready_none n p best e, ready_walk-le n (p + 1) best)
    | inr (inl (s, e, h)) ↦ omega (arith, ready_held n p best s e h)
    | inr (inr (s, e, h)) ↦ omega (
      arith,
      ready_other n p best s e h,
      ready_walk-le n (p + 1) (least_deadline s best),
      least_deadline-le s best,
    )
  ]

  -- The summary is never later than the time at which a position of the range can be claimed.
  pub ready_walk_lower :
      (now n p j best : ℕ) → p ≤ j → j < p + n → Claims slot now j → ready_walk slot n p best ≤ now
  ready_walk_lower now zero p j best a b c = absurd (omega arith)
  ready_walk_lower now (suc n) p j best a b c = elim (trichotomy p j) [
    | inl lt ↦ elim (met p) [
      | inl e ↦ omega (
        arith,
        ready_none n p best e,
        ready_walk_lower now n (p + 1) j best (omega arith) (omega arith) c,
      )
      | inr (inl (s, e, h)) ↦ omega (arith, ready_held n p best s e h)
      | inr (inr (s, e, h)) ↦ omega (
        arith,
        ready_other n p best s e h,
        ready_walk_lower now n (p + 1) j (least_deadline s best) (omega arith) (omega arith) c,
      )
    ]
    | inr (inl e) ↦ first_claims now n p best (subst (Claims slot now) (sym e) c)
    | inr (inr gt) ↦ absurd (omega arith)
  ]
    where
      first_claims : (now n p best : ℕ) → Claims slot now p → ready_walk slot (suc n) p best ≤ now
      first_claims now n p best (s, e, c) = elim (Bool-cases (s.state == state_held)) [
        | inl h ↦ omega (arith, ready_held n p best s e h)
        | inr h ↦ omega (
          arith,
          ready_other n p best s e h,
          ready_walk-le n (p + 1) (least_deadline s best),
          least_deadline_lower s best now h c,
        )
      ]

  -- Nor is it earlier: a summary in the past is a claimable message.
  pub ready_walk_sound :
      (now n p hi best : ℕ)
      → p + n ≡ hi
      → ready_walk slot n p best ≤ now
      → (best ≤ now) ⊎ ((j : ℕ) × (p ≤ j) × (j < hi) × Claims slot now j)
  unfolding ready_walk
  ready_walk_sound now zero p hi best e h = inl h
  ready_walk_sound now (suc n) p hi best e h = elim (met p) [
    | inl f ↦ later (
        ready_walk_sound now n (p + 1) hi best (omega arith) (omega (arith, ready_none n p best f)))
    | inr (inl (s, f, g)) ↦ inr (p, omega arith, omega arith, (s, f, held_claimable s now g))
    | inr (inr (s, f, g)) ↦
        elim (ready_walk_sound now n (p + 1) hi (least_deadline s best) (omega arith)
          (omega (arith, ready_other n p best s f g))) [
            | inl l ↦ elim (least_deadline_sound s best now g l) [
              | inl b ↦ inl b
              | inr c ↦ inr (p, omega arith, omega arith, (s, f, c))
            ]
            | inr (j, a, b, c) ↦ inr (j, omega arith, b, c)
          ]
  ]
    where
      later :
          (best ≤ now) ⊎ ((j : ℕ) × (p + 1 ≤ j) × (j < hi) × Claims slot now j)
          → (best ≤ now) ⊎ ((j : ℕ) × (p ≤ j) × (j < hi) × Claims slot now j)
      later (inl b) = inl b
      later (inr (j, a, b, c)) = inr (j, omega arith, b, c)

  -- The best so far comes out by a minimum.
  pub ready_walk-min : (n p a b : ℕ) → ready_walk slot n p (min a b) ≡ min a (ready_walk slot n p b)
  unfolding ready_walk
  ready_walk-min zero p a b = refl
  ready_walk-min (suc n) p a b = elim (met p) [
    | inl e ↦
        omega (arith, ready_none n p (min a b) e, ready_none n p b e, ready_walk-min n (p + 1) a b)
    | inr (inl (s, e, h)) ↦ omega (arith, ready_held n p (min a b) s e h, ready_held n p b s e h)
    | inr (inr (s, e, h)) ↦ omega (
      arith,
      ready_other n p (min a b) s e h,
      ready_other n p b s e h,
      ap (ready_walk slot n (p + 1)) (least_deadline-min s a b),
      ready_walk-min n (p + 1) a (least_deadline s b),
    )
  ]
