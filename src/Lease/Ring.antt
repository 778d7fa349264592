-- ===== src/Lease/Ring.antt =====
-- Which leaves of the ring are live, and that the search of the ring answers the first ready one.
use cybou_db.Prelude.{
  ℕ, ◌+◌, ◌-◌, ◌*◌, ◌/◌, ◌%◌, ◌^◌, ◌≤◌, ◌<◌, ◌≡◌, ◌⊎◌, inl, inr, sym, ap, ◌∙◌, Option, none, some,
  arith, leb, u64, bit_and_mask, Bool-cases, FirstIn, split_at,
}
use cybou_db.Lease.Slots.{Slot, seg_slots}
use cybou_db.Lease.Walk.{seg_low, seg_high, segment_ready_at}
use cybou_db.Lease.Tree.{Tree, Counts, tree_leaves, ring_leaf, or_else, node_search}
use cybou_db.Lease.Search.{IsBelow, node_search-FirstIn}
use cybou_db.Lease.Matches.{IsQueue, LeavesMatch, ring_leaf_lem}
use cybou_db.Lease.Scan.{search_ring, leaf_segment}

pub leaf_segment_lem :
    (first leaf : ℕ)
    → first + 512 ≤ 2 ^ 64
    → leaf < 512
    → leaf_segment first leaf ≡ first + (leaf + 512 - first % 512) % 512
unfolding leaf_segment
leaf_segment_lem first leaf h k =
    omega (arith, ring_leaf_lem first, bit_and_mask 9 (u64 (leaf + 2 ^ 64 - ring_leaf first)))

-- The bounds of a segment's live range, where nothing wraps.
pub seg_low_lem :
    (s head : ℕ)
    → s * seg_slots < 2 ^ 64
    → (s * seg_slots ≤ seg_low s head)
      × (head ≤ seg_low s head)
      × ((seg_low s head ≡ head) ⊎ (seg_low s head ≡ s * seg_slots))
unfolding seg_low
seg_low_lem s head h = ground arith

pub seg_high_lem :
    (s tail : ℕ)
    → s * seg_slots + seg_slots < 2 ^ 64
    → (seg_high s tail ≤ s * seg_slots + seg_slots)
      × (seg_high s tail ≤ tail)
      × ((seg_high s tail ≡ tail) ⊎ (seg_high s tail ≡ s * seg_slots + seg_slots))
unfolding seg_high
seg_high_lem s tail h = ground arith

-- A live segment has something to claim at `now`, as its summary says.
abbrev pub SegReady : (ℕ → Option Slot) → ℕ → ℕ → ℕ → ℕ → Type 0
SegReady slot head tail now s = segment_ready_at slot s head tail ≤ now

-- What a search of the ring has to answer: the leaf of the first ready segment.
abbrev pub RingAnswer : (ℕ → Option Slot) → ℕ → ℕ → ℕ → Option ℕ → Type 0
RingAnswer slot head tail now none =
    (s : ℕ) → head / seg_slots ≤ s → s ≤ (tail - 1) / seg_slots → ¬ SegReady slot head tail now s
RingAnswer slot head tail now (some x) =
    (s : ℕ) × (head / seg_slots ≤ s)
    × (s ≤ (tail - 1) / seg_slots)
    × (x ≡ s % 512)
    × SegReady slot head tail now s
    × ((r : ℕ) → head / seg_slots ≤ r → r < s → ¬ SegReady slot head tail now r)

module _ (slot : ℕ → Option Slot) (head tail now : ℕ) (t : Tree) (v : IsQueue head tail)
    (more : head < tail) (match : LeavesMatch slot head tail t.leaf) where
  leaf_at :
      (s : ℕ)
      → head / seg_slots ≤ s
      → s ≤ (tail - 1) / seg_slots
      → t.leaf (s % 512) ≡ segment_ready_at slot s head tail
  leaf_at s p q = ap t.leaf (sym (ring_leaf_lem s)) ∙ match s p q

  -- One contiguous range of leaves.
  straight :
      (o : Option ℕ)
      → head / seg_slots % 512 ≤ (tail - 1) / seg_slots % 512
      → FirstIn
          (λ j.
            (head / seg_slots % 512 ≤ j) × (j ≤ (tail - 1) / seg_slots % 512) × (t.leaf j ≤ now))
          0
          512
          o
      → RingAnswer slot head tail now o
  straight none le f = λ s p q ready.
      f (s % 512) (omega arith) (omega arith)
        (omega (arith, v.directory), omega (arith, v.directory), omega (arith, leaf_at s p q))
  straight (some x) le f =
      let a = head / seg_slots in
      let s = a + (x - a % 512) in
      let e : s % 512 ≡ x = omega (arith, v.directory, f) in
      let p : head / seg_slots ≤ s = omega arith in
      let q : s ≤ (tail - 1) / seg_slots = omega (arith, v.directory, f) in
      (
        s,
        p,
        q,
        sym e,
        omega (arith, leaf_at s p q, ap t.leaf e, f),
        λ r b c ready. f.3 (r % 512) (omega arith) (omega (arith, v.directory, f)) (
          omega (arith, v.directory),
          omega (arith, v.directory, f),
          omega (arith, v.directory, f, leaf_at r b (omega arith)),
        ),
      )

  -- The ring wraps: from `first` up to leaf 511.
  upper :
      (x : ℕ)
      → (tail - 1) / seg_slots % 512 < head / seg_slots % 512
      → FirstIn (λ j. (head / seg_slots % 512 ≤ j) × (j ≤ 511) × (t.leaf j ≤ now)) 0 512 (some x)
      → RingAnswer slot head tail now (some x)
  upper x lt f =
      let a = head / seg_slots in
      let s = a + (x - a % 512) in
      let e : s % 512 ≡ x = omega (arith, v.directory, f) in
      let p : head / seg_slots ≤ s = omega arith in
      let q : s ≤ (tail - 1) / seg_slots = omega (arith, v.directory, f) in
      (
        s,
        p,
        q,
        sym e,
        omega (arith, leaf_at s p q, ap t.leaf e, f),
        λ r b c ready. f.3 (r % 512) (omega arith) (omega (arith, v.directory, f)) (
          omega (arith, v.directory, f),
          omega arith,
          omega (arith, v.directory, f, leaf_at r b (omega arith)),
        ),
      )

  -- Then from leaf 0.
  lower :
      (o : Option ℕ)
      → (tail - 1) / seg_slots % 512 < head / seg_slots % 512
      → FirstIn (λ j. (head / seg_slots % 512 ≤ j) × (j ≤ 511) × (t.leaf j ≤ now)) 0 512 none
      → FirstIn (λ j. (0 ≤ j) × (j ≤ (tail - 1) / seg_slots % 512) × (t.leaf j ≤ now)) 0 512 o
      → RingAnswer slot head tail now o
  lower none lt f g = λ s p q ready. elim (split_at (s % 512) (head / seg_slots % 512)) [
    | inl h ↦
        g (s % 512) (omega arith) (omega arith)
          (omega arith, omega (arith, v.directory), omega (arith, leaf_at s p q))
    | inr h ↦ f (s % 512) (omega arith) (omega arith) (h, omega arith, omega (arith, leaf_at s p q))
  ]
  lower (some x) lt f g =
      let a = head / seg_slots in
      let s = a + (x + 512 - a % 512) in
      let e : s % 512 ≡ x = omega (arith, v.directory, g) in
      let p : head / seg_slots ≤ s = omega arith in
      let q : s ≤ (tail - 1) / seg_slots = omega (arith, v.directory, g) in
      (
        s,
        p,
        q,
        sym e,
        omega (arith, leaf_at s p q, ap t.leaf e, g),
        λ r b c ready. elim (split_at (r % 512) (head / seg_slots % 512)) [
          | inl h ↦ g.3 (r % 512) (omega arith) (omega (arith, v.directory, g)) (
            omega arith,
            omega (arith, v.directory, g),
            omega (arith, v.directory, g, leaf_at r b (omega arith)),
          )
          | inr h ↦
              f (r % 512) (omega arith) (omega arith)
                (h, omega arith, omega (arith, leaf_at r b (omega arith)))
        ],
      )

  pub search_ring-answer :
      (b : IsBelow t) (c : Counts)
      → RingAnswer slot head tail now
          (search_ring t (head / seg_slots % 512) ((tail - 1) / seg_slots % 512) now c).0
  unfolding search_ring
  search_ring-answer b c =
      elim (Bool-cases (leb (head / seg_slots % 512) ((tail - 1) / seg_slots % 512))) [
        | inl e ↦ rw e (
            straight _ (ground arith) (
              node_search-FirstIn t b (head / seg_slots % 512) ((tail - 1) / seg_slots % 512) now 3
                0 c (omega arith) (omega arith)))
        | inr e ↦ rw e (
            two (node_search t (head / seg_slots % 512) (tree_leaves - 1) now 3 0 c) (ground arith)
              (node_search-FirstIn t b (head / seg_slots % 512) 511 now 3 0 c (omega arith)
                (omega arith)))
      ]
    where
      two :
          (r : Option ℕ × Counts)
          → (tail - 1) / seg_slots % 512 < head / seg_slots % 512
          → FirstIn (λ j. (head / seg_slots % 512 ≤ j) × (j ≤ 511) × (t.leaf j ≤ now)) 0 512 r.0
          → RingAnswer slot head tail now
              (or_else r (λ d. node_search t 0 ((tail - 1) / seg_slots % 512) now 3 0 d)).0
      two (none, d) lt f =
          unfold or_else in
          lower _ lt f (
            node_search-FirstIn t b 0 ((tail - 1) / seg_slots % 512) now 3 0 d (omega arith)
              (omega arith))
      two (some x, d) lt f = unfold or_else in upper x lt f
