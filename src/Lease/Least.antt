-- ===== src/Lease/Least.antt =====
-- benchmarks/lease_probe.c: what `tree_build` leaves in each node, said of the messages and of the
-- children, without the loops that make it.
use cybou_db.Prelude.{
  ℕ, zero, suc, ◌+◌, ◌-◌, ◌*◌, ◌/◌, ◌≤◌, ◌<◌, ◌≡◌, ◌≢◌, ◌⊎◌, inl, inr, refl, sym, ap, ◌∙◌, Option,
  arith, u64_max, ltb, trichotomy, Bool-cases, ◌==◌, ==→ne,
}
use cybou_db.Lease.Slots.{Slot, Queue, slot_at, seg_slots, Claims}
use cybou_db.Lease.Walk.{seg_low, seg_high, segment_ready_at}
use cybou_db.Lease.Summary.{ready_walk_lower, ready_walk_sound}
use cybou_db.Lease.Tree.{
  Tree, ring_leaf, min_of, least_child, last_seg, build_leaves, summarise, tree_build,
}
use cybou_db.Lease.Matches.{
  IsQueue, min_of-le, min_of-le_elem, last_seg_lem, fill_keeps, tree_build-Matches,
}
use cybou_db.Lease.Ring.{seg_low_lem, seg_high_lem}

-- A message of segment `s` between the head and the tail that can be claimed at `now`.
abbrev pub HasReady : (ℕ → Option Slot) → ℕ → ℕ → ℕ → ℕ → Type 0
HasReady slot head tail s now =
    (p : ℕ) × (head ≤ p) × (p < tail) × (p / seg_slots ≡ s) × Claims slot now p

-- `n` is the least of the children `8 * i` to `8 * i + 7` of `below`, or UINT64_MAX where that is
-- less than each of them.
pub record IsLeast (below : ℕ → ℕ) (i n : ℕ) : Type 0 where
  pub bound : (j : ℕ) → j / 8 ≡ i → n ≤ below j
  pub capped : n ≤ u64_max
  pub reached : (n ≡ u64_max) ⊎ ((j : ℕ) × (j / 8 ≡ i) × (n ≡ below j))

-- What each node of the tree says of the queue.
pub record IsTrue (q : Queue) (t : Tree) : Type 0 where
  pub leaf_ready :
      (p now : ℕ)
      → q.head ≤ p
      → p < q.tail
      → Claims (slot_at q) now p
      → t.leaf (ring_leaf (p / seg_slots)) ≤ now
  pub leaf_due :
      (p now : ℕ)
      → q.head ≤ p
      → p < q.tail
      → now < u64_max
      → t.leaf (ring_leaf (p / seg_slots)) ≤ now
      → HasReady (slot_at q) q.head q.tail (p / seg_slots) now
  pub unused :
      (i : ℕ)
      → ((p : ℕ) → q.head ≤ p → p < q.tail → ring_leaf (p / seg_slots) ≢ i)
      → t.leaf i ≡ u64_max
  pub l2_least : (i : ℕ) → IsLeast t.leaf i (t.l2 i)
  pub l1_least : (i : ℕ) → IsLeast t.l2 i (t.l1 i)
  pub l0_least : IsLeast t.l1 0 t.l0

min_of-reached :
    (a : ℕ → ℕ) (n i m : ℕ)
    → (min_of a n i m ≡ m) ⊎ ((j : ℕ) × (i ≤ j) × (j < i + n) × (min_of a n i m ≡ a j))
unfolding min_of
min_of-reached a zero i m = inl refl
min_of-reached a (suc n) i m = elim (Bool-cases (ltb (a i) m)) [
  | inl e ↦ rw (e) (elim (min_of-reached a n (i + 1) (a i)) [
    | inl f ↦ inr (i, omega arith, omega arith, f)
    | inr (j, p, q, f) ↦ inr (j, omega arith, omega arith, f)
  ])
  | inr e ↦ rw (e) (elim (min_of-reached a n (i + 1) m) [
    | inl f ↦ inl f
    | inr (j, p, q, f) ↦ inr (j, omega arith, omega arith, f)
  ])
]

least_child-IsLeast : (a : ℕ → ℕ) (i : ℕ) → IsLeast a i (least_child a i)
unfolding least_child
least_child-IsLeast a i = record {
  bound = λ j e. min_of-le_elem a 8 (i * 8) j u64_max (omega arith) (omega arith);
  capped = min_of-le a 8 (i * 8) u64_max;
  reached = elim (min_of-reached a 8 (i * 8) u64_max) [
    | inl e ↦ inl e
    | inr (j, p, q, e) ↦ inr (j, omega arith, e)
  ];
}

module _ (slot : ℕ → Option Slot) (head tail : ℕ) (v : IsQueue head tail) where
  ready_at-ready :
      (p now : ℕ)
      → head ≤ p
      → p < tail
      → Claims slot now p
      → segment_ready_at slot (p / seg_slots) head tail ≤ now
  unfolding segment_ready_at
  ready_at-ready p now a b c =
      let s = p / seg_slots in
      let low = seg_low_lem s head (omega (arith, v.room)) in
      let high = seg_high_lem s tail (omega (arith, v.room)) in
      ready_walk_lower slot now (seg_high s tail - seg_low s head) (seg_low s head) p u64_max
        (omega arith) (omega arith) c

  ready_at-due :
      (p now : ℕ)
      → head ≤ p
      → p < tail
      → now < u64_max
      → segment_ready_at slot (p / seg_slots) head tail ≤ now
      → HasReady slot head tail (p / seg_slots) now
  unfolding segment_ready_at
  ready_at-due p now a b early le =
      let s = p / seg_slots in
      let low = seg_low_lem s head (omega (arith, v.room)) in
      let high = seg_high_lem s tail (omega (arith, v.room)) in
      elim (ready_walk_sound slot now (seg_high s tail - seg_low s head) (seg_low s head)
        (seg_high s tail) u64_max (omega arith) le) [
          | inl h ↦ absurd (omega arith)
          | inr (j, x, y, c) ↦ (j, omega arith, omega arith, omega arith, c)
        ]

  build_leaves-unused :
      (i : ℕ)
      → ((p : ℕ) → head ≤ p → p < tail → ring_leaf (p / seg_slots) ≢ i)
      → build_leaves slot head tail i ≡ u64_max
  unfolding build_leaves
  build_leaves-unused i h = elim (Bool-cases (head == tail)) [
    | inl e ↦ rw (e) refl
    | inr e ↦
        let ne = ==→ne head tail e in
        let last = last_seg_lem tail (omega (arith, v.ordered)) (omega (arith, v.room)) in
        rw (e) (fill_keeps slot head tail _ (head / seg_slots) i (λ _. u64_max) (away ne last))
  ]
    where
      away :
          head ≢ tail
          → last_seg tail ≡ (tail - 1) / seg_slots
          → (x : ℕ) → head / seg_slots ≤ x
          → x < head / seg_slots + (last_seg tail + 1 - head / seg_slots)
          → i ≢ ring_leaf x
      away ne last x a b f = elim (trichotomy head (x * seg_slots)) [
        | inl l ↦
            h (x * seg_slots) (omega arith) (omega (arith, v.ordered))
              (ap ring_leaf (omega arith) ∙ sym f)
        | inr (inl e) ↦
            h head (omega arith) (omega (arith, v.ordered)) (ap ring_leaf (omega arith) ∙ sym f)
        | inr (inr l) ↦
            h head (omega arith) (omega (arith, v.ordered)) (ap ring_leaf (omega arith) ∙ sym f)
      ]

tree_build-leaf :
    (q : Queue) (p : ℕ)
    → IsQueue q.head q.tail
    → q.head ≤ p
    → p < q.tail
    → build_leaves (slot_at q) q.head q.tail (ring_leaf (p / seg_slots))
      ≡ segment_ready_at (slot_at q) (p / seg_slots) q.head q.tail
unfolding tree_build summarise
tree_build-leaf q p v a b =
    (tree_build-Matches q v).leaves (omega arith) (p / seg_slots) (omega arith) (omega arith)

-- In the tree that `tree_build` makes of a valid queue, each node of the three upper levels is the
-- least of its eight children, or UINT64_MAX where that is less. The leaf of a live message's
-- segment is at or before a time below UINT64_MAX exactly when a live message of that segment can
-- be claimed then, and a leaf that no live segment has is UINT64_MAX.
pub tree_build-IsTrue : (q : Queue) → IsQueue q.head q.tail → IsTrue q (tree_build q)
unfolding tree_build summarise
tree_build-IsTrue q v = record {
  leaf_ready = λ p now a b c.
      omega
        (arith, tree_build-leaf q p v a b, ready_at-ready (slot_at q) q.head q.tail v p now a b c);
  leaf_due = λ p now a b early le.
      ready_at-due (slot_at q) q.head q.tail v p now a b early
        (omega (arith, tree_build-leaf q p v a b));
  unused = build_leaves-unused (slot_at q) q.head q.tail v;
  l2_least = λ i. least_child-IsLeast _ i;
  l1_least = λ i. least_child-IsLeast _ i;
  l0_least = least_child-IsLeast _ 0;
}
