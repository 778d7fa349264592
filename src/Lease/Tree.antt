-- ===== src/Lease/Tree.antt =====
-- The ready-at tree of benchmarks/lease_probe.c: how it is built, and how it is searched.
use cybou_db.Prelude.{
  ℕ, zero, suc, ◌+◌, ◌-◌, ◌*◌, ◌/◌, ◌^◌, Option, none, some, ◌||◌, if◌then◌else◌, ltb, ◌==◌, u64,
  u64_max, update, bit_and,
}
use cybou_db.Lease.Slots.{Slot, Queue, slot_at, seg_slots}
use cybou_db.Lease.Walk.{segment_ready_at}

-- `TREE_LEAVES`
abbrev pub tree_leaves : ℕ
tree_leaves = 512

-- `t_leaf`, `t_l2`, `t_l1` and `t_l0`.
pub record Tree : Type 0 where
  pub leaf : ℕ → ℕ
  pub l2 : ℕ → ℕ
  pub l1 : ℕ → ℕ
  pub l0 : ℕ

-- `summary_nodes_inspected`, `tree_segments_inspected` and `tree_slots_inspected`.
pub record Counts : Type 0 where
  pub nodes : ℕ
  pub segments : ℕ
  pub slots : ℕ

-- The leaf of a segment: `(int)(seg & (TREE_LEAVES - 1))`.
unfoldable pub ring_leaf : ℕ → ℕ
ring_leaf seg = bit_and seg (tree_leaves - 1)

-- `if (a[i] < m) m = a[i];` for `n` indices from `i` on.
unfoldable pub min_of : (ℕ → ℕ) → ℕ → ℕ → ℕ → ℕ
min_of a zero i m = m
min_of a (suc n) i m = min_of a n (i + 1) (if ltb (a i) m then a i else m)

-- The least of the eight children of node `i`.
unfoldable pub least_child : (ℕ → ℕ) → ℕ → ℕ
least_child a i = min_of a 8 (i * 8) u64_max

-- `n` segments from `s` on take their leaves.
unfoldable pub fill_leaves : (ℕ → Option Slot) → ℕ → ℕ → ℕ → ℕ → (ℕ → ℕ) → ℕ → ℕ
fill_leaves slot head tail zero s leaf = leaf
fill_leaves slot head tail (suc n) s leaf =
    fill_leaves slot head tail n (s + 1)
      (update leaf (ring_leaf s) (segment_ready_at slot s head tail))

-- `(tail - 1) / QUEUE_SEG_SLOTS`
unfoldable pub last_seg : ℕ → ℕ
last_seg tail = u64 (tail + 2 ^ 64 - 1) / seg_slots

-- The leaves as `tree_build` leaves them.
unfoldable pub build_leaves : (ℕ → Option Slot) → ℕ → ℕ → ℕ → ℕ
build_leaves slot head tail =
    if head == tail
    then (λ _. u64_max)
    else fill_leaves slot head tail (last_seg tail + 1 - head / seg_slots) (head / seg_slots)
        (λ _. u64_max)

-- The levels over the leaves.
unfoldable pub summarise : (ℕ → ℕ) → Tree
summarise leaf =
    let l2 = least_child leaf in
    let l1 = least_child l2 in record { leaf = leaf; l2 = l2; l1 = l1; l0 = least_child l1 0 }

unfoldable pub tree_build : Queue → Tree
tree_build q = summarise (build_leaves (slot_at q) q.head q.tail)

-- Level 0 is the root, 1 is `t_l1`, 2 is `t_l2` and 3 the leaves.
unfoldable pub node_value : Tree → ℕ → ℕ → ℕ
node_value t zero idx = t.l0
node_value t (suc zero) idx = t.l1 idx
node_value t (suc (suc zero)) idx = t.l2 idx
node_value t (suc (suc (suc level))) idx = t.leaf idx

-- The first answer, or that of what is tried next.
unfoldable pub or_else : Option ℕ × Counts → (Counts → Option ℕ × Counts) → Option ℕ × Counts
or_else (none, c) next = next c
or_else (some x, c) next = (some x, c)

-- The children from `k` on are tried in order, and the first answer is returned.
unfoldable pub search_children :
    (ℕ → Counts → Option ℕ × Counts) → ℕ → ℕ → Counts → Option ℕ × Counts
search_children visit zero k c = (none, c)
search_children visit (suc n) k c = or_else (visit k c) (λ d. search_children visit n (k + 1) d)

module _ (t : Tree) (lo hi now : ℕ) where
  -- `node_search` at level `3 - h`: the recursion is on the levels below. `none` is -1.
  unfoldable pub node_search : ℕ → ℕ → Counts → Option ℕ × Counts
  node_search zero idx c =
      if ltb hi idx || ltb idx lo
      then (none, c)
      else if ltb now (node_value t 3 idx)
      then (none, record c { segments = c.segments + 1 })
      else (some idx, record c { segments = c.segments + 1 })
  node_search (suc h) idx c =
      let span = 2 ^ (3 * suc h) in
      let base = idx * span in
      let c' = record c { nodes = c.nodes + 1 } in
      let below = search_children (node_search h) 8 (idx * 8) c' in
      if ltb hi base || ltb (base + span - 1) lo
      then (none, c)
      else if ltb now (node_value t (3 - suc h) idx)
      then (none, c')
      else below
