-- ===== src/Lease/Found.antt =====
-- `tree_scan` answers the first message of the queue that can be claimed.
use cybou_db.Prelude.{
  ℕ, ◌+◌, ◌-◌, ◌/◌, ◌≤◌, ◌<◌, ◌≡◌, ◌⊎◌, inl, inr, refl, Option, none, some, arith, ◌==◌, u64_max,
  Bool-cases, FirstIn, FirstIn-append, FirstIn-widen, FirstIn-nothing, le→ltb, ==→eq, ==→ne,
  FirstIn-unique,
}
use cybou_db.Lease.Slots.{Slot, Queue, slot_at, seg_slots, Claims}
use cybou_db.Lease.Walk.{seg_low, seg_high, segment_ready_at, claim_walk}
use cybou_db.Lease.Summary.{claim_walk-FirstIn, ready_walk_lower, ready_walk_sound}
use cybou_db.Lease.Tree.{Tree, Counts, last_seg}
use cybou_db.Lease.Matches.{IsQueue, Matches, IsSummary→IsBelow, ring_leaf_lem, last_seg_lem}
use cybou_db.Lease.Scan.{leaf_segment, scan_segment, scan_found, tree_scan}
use cybou_db.Lease.Ring.{
  leaf_segment_lem, seg_low_lem, seg_high_lem, SegReady, RingAnswer, search_ring-answer,
}

module _ (slot : ℕ → Option Slot) (head tail now : ℕ) (v : IsQueue head tail)
    (more : head < tail) where
  -- A segment that is not ready holds nothing to claim.
  not_ready_nothing :
      (s : ℕ)
      → head / seg_slots ≤ s
      → s ≤ (tail - 1) / seg_slots
      → ¬ SegReady slot head tail now s
      → (j : ℕ) → head ≤ j
      → j < tail
      → j / seg_slots ≡ s
      → ¬ Claims slot now j
  unfolding segment_ready_at
  not_ready_nothing s p q nr j a b e claims = nr (
      ready_walk_lower slot now (seg_high s tail - seg_low s head) (seg_low s head) j u64_max
        (omega (arith, seg_low_lem s head (omega (arith, v.room)), e))
        (omega (
          arith,
          v.room,
          seg_high_lem s tail (omega (arith, v.room)),
          seg_low_lem s head (omega (arith, v.room)),
          e,
        ))
        claims)

  scan_segment-FirstIn :
      (s : ℕ) (c : Counts)
      → now < u64_max
      → head / seg_slots ≤ s
      → s ≤ (tail - 1) / seg_slots
      → SegReady slot head tail now s
      → ((r : ℕ) → head / seg_slots ≤ r → r < s → ¬ SegReady slot head tail now r)
      → FirstIn (Claims slot now) head tail (scan_segment slot head tail now s c).0
  unfolding scan_segment segment_ready_at
  scan_segment-FirstIn s c early p q ready before =
      let low = seg_low_lem s head (omega (arith, v.room)) in
      let high = seg_high_lem s tail (omega (arith, v.room)) in
      let n = seg_high s tail - seg_low s head in
      let end : seg_low s head + n ≡ seg_high s tail = omega arith in
      FirstIn-append (Claims slot now) head (seg_low s head) tail _ (omega arith)
        (λ j a b.
          not_ready_nothing (j / seg_slots) (omega arith) (omega arith)
            (before (j / seg_slots) (omega arith) (omega arith)) j a (omega arith) refl)
        (found _ (omega arith)
          (claim_walk-FirstIn slot now n (seg_low s head) (seg_high s tail) c.slots end)
          (ready_walk_sound slot now n (seg_low s head) (seg_high s tail) u64_max end ready))
    where
      found :
          (o : Option ℕ)
          → seg_high s tail ≤ tail
          → FirstIn (Claims slot now) (seg_low s head) (seg_high s tail) o
          → (u64_max ≤ now)
            ⊎ ((j : ℕ) × (seg_low s head ≤ j) × (j < seg_high s tail) × Claims slot now j)
          → FirstIn (Claims slot now) (seg_low s head) tail o
      found o le f (inl h) = absurd (omega arith)
      found none le f (inr (j, a, b, claims)) = absurd (f j a b claims)
      found (some x) le f (inr h) =
          FirstIn-widen (Claims slot now) (seg_low s head) (seg_high s tail) tail x le f

  scan_found-FirstIn :
      (r : Option ℕ × Counts)
      → now < u64_max
      → RingAnswer slot head tail now r.0
      → FirstIn (Claims slot now) head tail (scan_found slot head tail now r).0
  unfolding scan_found
  scan_found-FirstIn (none, c) early a = λ j p q.
      not_ready_nothing (j / seg_slots) (omega arith) (omega arith)
        (a (j / seg_slots) (omega arith) (omega arith)) j p q refl
  scan_found-FirstIn (some x, c) early (s, p, q, e, ready, before) =
      let same : leaf_segment (head / seg_slots) x ≡ s = omega (
        arith,
        v.room,
        v.directory,
        leaf_segment_lem (head / seg_slots) x (omega (arith, v.room)) (omega arith),
      ) in
      let l : last_seg tail ≡ (tail - 1) / seg_slots =
        last_seg_lem tail (omega arith) (omega (arith, v.room)) in
      rw (same, l, le→ltb ((tail - 1) / seg_slots) s q)
        (scan_segment-FirstIn s c early p q ready before)

-- Over a valid queue and a tree that stands for it, the search through the tree answers the first
-- position of `[head, tail)` that can be claimed at `now`, and answers none exactly when no
-- position can. The time is below UINT64_MAX, which stands for "never" in the tree.
pub tree_scan-FirstIn :
    (q : Queue) (t : Tree) (now : ℕ) (c : Counts)
    → IsQueue q.head q.tail
    → Matches q t
    → now < u64_max
    → FirstIn (Claims (slot_at q) now) q.head q.tail (tree_scan q t now c).0
unfolding tree_scan
tree_scan-FirstIn q t now c v m early = elim (Bool-cases (q.head == q.tail)) [
  | inl e ↦ rw e (
      FirstIn-nothing (Claims (slot_at q) now) q.head q.tail (omega (arith, ==→eq q.head q.tail e)))
  | inr e ↦
      let more : q.head < q.tail = omega (arith, ==→ne q.head q.tail e, v.ordered) in
      rw
        (
          e,
          ring_leaf_lem (q.head / seg_slots),
          last_seg_lem q.tail (omega arith) (omega (arith, v.room)),
          ring_leaf_lem ((q.tail - 1) / seg_slots),
        )
        (scan_found-FirstIn (slot_at q) q.head q.tail now v more _ early (
          search_ring-answer (slot_at q) q.head q.tail now t v more (m.leaves more)
            (IsSummary→IsBelow m.summary) c))
]

-- So it agrees with the plain walk over every slot from the head.
pub tree_scan-claim_walk :
    (q : Queue) (t : Tree) (now : ℕ) (c : Counts) (read : ℕ)
    → IsQueue q.head q.tail
    → Matches q t
    → now < u64_max
    → (tree_scan q t now c).0 ≡ (claim_walk (slot_at q) now (q.tail - q.head) q.head read).0
tree_scan-claim_walk q t now c read v m early =
    FirstIn-unique (Claims (slot_at q) now) q.head q.tail _ _
      (tree_scan-FirstIn q t now c v m early)
      (claim_walk-FirstIn (slot_at q) now (q.tail - q.head) q.head q.tail read
        (omega (arith, v.ordered)))
