-- ===== src/Lease/Walk.antt =====
-- The two loops over the slots of a range of positions: the summary of a segment, and the search
-- for the first message that a claim may take.
use cybou_db.Prelude.{
  ℕ, zero, suc, ◌+◌, ◌-◌, ◌*◌, Option, none, some, true, false, if◌then◌else◌, ltb, ◌==◌, u64,
  u64_max,
}
use cybou_db.Lease.Slots.{Slot, claimable, state_held, state_claimed, seg_slots}

-- `if (lo < head) lo = head;` and `if (hi > tail) hi = tail;`
unfoldable pub seg_low : ℕ → ℕ → ℕ
seg_low seg head = let lo = u64 (seg * seg_slots) in if ltb lo head then head else lo

unfoldable pub seg_high : ℕ → ℕ → ℕ
seg_high seg tail =
    let hi = u64 (u64 (seg * seg_slots) + seg_slots) in if ltb tail hi then tail else hi

-- What one slot that is not held does to the least deadline so far.
unfoldable pub least_deadline : Slot → ℕ → ℕ
least_deadline s best =
    if s.state == state_claimed
    then if ltb s.lease_until best then s.lease_until else best
    else best

module _ (slot : ℕ → Option Slot) where
  -- `n` positions from `p` on; a slot that is held ends the walk, since nothing is below zero.
  unfoldable pub ready_walk : ℕ → ℕ → ℕ → ℕ
  ready_walk zero p best = best
  ready_walk (suc n) p best = elim (slot p) [
    | none ↦ ready_walk n (p + 1) best
    | some s ↦ elim (s.state == state_held) [
      | true ↦ 0
      | false ↦ ready_walk n (p + 1) (least_deadline s best)
    ]
  ]

  unfoldable pub segment_ready_at : ℕ → ℕ → ℕ → ℕ
  segment_ready_at seg head tail =
      ready_walk (seg_high seg tail - seg_low seg head) (seg_low seg head) u64_max

  -- The first claimable position among `n` from `p` on, with the slots read so far.
  unfoldable pub claim_walk : ℕ → ℕ → ℕ → ℕ → Option ℕ × ℕ
  claim_walk now zero p read = (none, read)
  claim_walk now (suc n) p read = elim (slot p) [
    | none ↦ claim_walk now n (p + 1) read
    | some s ↦ elim (claimable now s) [
      | true ↦ (some p, read + 1)
      | false ↦ claim_walk now n (p + 1) (read + 1)
    ]
  ]
