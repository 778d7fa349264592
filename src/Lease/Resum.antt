-- ===== src/Lease/Resum.antt =====
-- What a change of one slot does to the summaries of the segments.
use cybou_db.Prelude.{
  ℕ, zero, suc, ◌+◌, ◌-◌, ◌/◌, ◌≤◌, ◌<◌, ◌≡◌, ◌≢◌, inl, inr, refl, sym, ap, ◌∙◌, Option, some,
  arith, u64_max, trichotomy, eq→==,
}
use Prim.Native.Nat.{min}
use cybou_db.Lease.Slots.{Slot, seg_slots, state_held, state_claimed, state_acked}
use cybou_db.Lease.Walk.{least_deadline, ready_walk, segment_ready_at}
use cybou_db.Lease.Summary.{
  ready_walk_lower, ready_walk-min, ready_none, ready_held, ready_other, Met, met, held_claimable,
}
use cybou_db.Lease.Matches.{IsQueue}
use cybou_db.Lease.Ring.{seg_low_lem, seg_high_lem}

-- The walk reads its own range alone.
ready_walk_ext :
    (slot slot' : ℕ → Option Slot) (n p best : ℕ)
    → ((j : ℕ) → p ≤ j → j < p + n → slot' j ≡ slot j)
    → ready_walk slot' n p best ≡ ready_walk slot n p best
unfolding ready_walk
ready_walk_ext slot slot' zero p best h = refl
ready_walk_ext slot slot' (suc n) p best h =
    let rest =
      λ (b : ℕ). ready_walk_ext slot slot' n (p + 1) b (λ j c d. h j (omega arith) (omega arith)) in
    elim (met slot p) [
      | inl e ↦
          rw
            (
              ready_none slot n p best e,
              ready_none slot' n p best (h p (omega arith) (omega arith) ∙ e),
            )
            (rest best)
      | inr (inl (s, e, g)) ↦ rw (
        ready_held slot n p best s e g,
        ready_held slot' n p best s (h p (omega arith) (omega arith) ∙ e) g,
      )
      | inr (inr (s, e, g)) ↦
          rw
            (
              ready_other slot n p best s e g,
              ready_other slot' n p best s (h p (omega arith) (omega arith) ∙ e) g,
            )
            (rest (least_deadline s best))
    ]

module _ (slot slot' : ℕ → Option Slot) (pos : ℕ) (s s' : Slot) (was : slot pos ≡ some s)
    (now : slot' pos ≡ some s') (claimed : s.state ≡ state_claimed)
    (acked : s'.state ≡ state_acked) where
  -- A claim that does not hold the earliest deadline may end: the summary stays.
  ready_walk_ack :
      (n p best : ℕ)
      → p ≤ pos
      → pos < p + n
      → ((j : ℕ) → p ≤ j → j < p + n → j ≢ pos → slot' j ≡ slot j)
      → ready_walk slot n p best ≢ s.lease_until
      → ready_walk slot' n p best ≡ ready_walk slot n p best
  ready_walk_ack zero p best a b h ne = absurd (omega arith)
  ready_walk_ack (suc n) p best a b h ne = elim (trichotomy p pos) [
    | inl lt ↦
        earlier lt
          (λ best'.
            ready_walk_ack n (p + 1) best' (omega arith) (omega arith)
              (λ j c d f. h j (omega arith) (omega arith) f))
          (met slot p)
    | inr (inl e) ↦
        let f : slot p ≡ some s = ap slot e ∙ was in
        let f' : slot' p ≡ some s' = ap slot' e ∙ now in
        omega (
          arith,
          ne,
          ready_other slot n p best s f (ground arith),
          ready_other slot' n p best s' f' (ground arith),
          ap (ready_walk slot n (p + 1)) (claimed_least best),
          ap (ready_walk slot' n (p + 1)) (acked_least best),
          ready_walk-min slot n (p + 1) s.lease_until best,
          ready_walk_ext slot slot' n (p + 1) best
              (λ j c d. h j (omega arith) (omega arith) (omega arith)),
        )
    | inr (inr gt) ↦ absurd (omega arith)
  ]
    where
      claimed_least : (best : ℕ) → least_deadline s best ≡ min s.lease_until best
      claimed_least best = unfold least_deadline in ground arith

      acked_least : (best : ℕ) → least_deadline s' best ≡ best
      acked_least best = unfold least_deadline in ground arith

      earlier :
          p < pos
          → ((b : ℕ)
              → ready_walk slot n (p + 1) b ≢ s.lease_until
              → ready_walk slot' n (p + 1) b ≡ ready_walk slot n (p + 1) b)
          → Met slot p
          → ready_walk slot' (suc n) p best ≡ ready_walk slot (suc n) p best
      earlier lt rest (inl e) =
          let eq = h p (omega arith) (omega arith) (omega arith) in
          rw (ready_none slot n p best e, ready_none slot' n p best (eq ∙ e))
            (rest best (λ q. ne (ready_none slot n p best e ∙ q)))
      earlier lt rest (inr (inl (t, e, g))) =
          let eq = h p (omega arith) (omega arith) (omega arith) in
          ready_held slot' n p best t (eq ∙ e) g ∙ sym (ready_held slot n p best t e g)
      earlier lt rest (inr (inr (t, e, g))) =
          let eq = h p (omega arith) (omega arith) (omega arith) in
          rw (ready_other slot n p best t e g, ready_other slot' n p best t (eq ∙ e) g)
            (rest (least_deadline t best) (λ q. ne (ready_other slot n p best t e g ∙ q)))

-- The walk finds a message that nobody holds, and then the summary is zero.
ready_walk_held :
    (slot : ℕ → Option Slot) (n p j best : ℕ) (s : Slot)
    → p ≤ j
    → j < p + n
    → slot j ≡ some s
    → s.state ≡ state_held
    → ready_walk slot n p best ≡ 0
ready_walk_held slot n p j best s a b e h = omega (
  arith,
  ready_walk_lower slot 0 n p j best a b (s, e, held_claimable s 0 (eq→== s.state state_held h)),
)

-- Where the slots of a queue differ at `pos` alone.
module _ (slot slot' : ℕ → Option Slot) (head tail pos : ℕ) (v : IsQueue head tail)
    (low : head ≤ pos) (high : pos < tail)
    (same : (j : ℕ) → head ≤ j → j < tail → j ≢ pos → slot' j ≡ slot j) where
  pub segment_ready_at-other :
      (seg : ℕ)
      → head / seg_slots ≤ seg
      → seg ≤ (tail - 1) / seg_slots
      → seg ≢ pos / seg_slots
      → segment_ready_at slot' seg head tail ≡ segment_ready_at slot seg head tail
  unfolding segment_ready_at
  segment_ready_at-other seg a b ne =
      let l = seg_low_lem seg head (omega (arith, v.room)) in
      let u = seg_high_lem seg tail (omega (arith, v.room)) in
      ready_walk_ext slot slot' _ _ u64_max
        (λ j c d. same j (omega arith) (omega arith) (omega arith))

  pub segment_ready_at-held :
      (s : Slot)
      → slot' pos ≡ some s
      → s.state ≡ state_held
      → segment_ready_at slot' (pos / seg_slots) head tail ≡ 0
  unfolding segment_ready_at
  segment_ready_at-held s e h =
      let l = seg_low_lem (pos / seg_slots) head (omega (arith, v.room)) in
      let u = seg_high_lem (pos / seg_slots) tail (omega (arith, v.room)) in
      ready_walk_held slot' _ _ pos u64_max s (omega arith) (omega arith) e h

  pub segment_ready_at-ack :
      (s s' : Slot)
      → slot pos ≡ some s
      → slot' pos ≡ some s'
      → s.state ≡ state_claimed
      → s'.state ≡ state_acked
      → segment_ready_at slot (pos / seg_slots) head tail ≢ s.lease_until
      → segment_ready_at slot' (pos / seg_slots) head tail
        ≡ segment_ready_at slot (pos / seg_slots) head tail
  unfolding segment_ready_at
  segment_ready_at-ack s s' e e' h h' ne =
      let l = seg_low_lem (pos / seg_slots) head (omega (arith, v.room)) in
      let u = seg_high_lem (pos / seg_slots) tail (omega (arith, v.room)) in
      ready_walk_ack slot slot' pos s s' e e' h h' _ _ u64_max (omega arith) (omega arith)
        (λ j c d. same j (omega arith) (omega arith)) ne
