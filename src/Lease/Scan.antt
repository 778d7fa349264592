-- ===== src/Lease/Scan.antt =====
-- `tree_scan`: the first message that can be claimed, found through the tree.
use cybou_db.Prelude.{
  ℕ, ◌+◌, ◌-◌, ◌/◌, ◌^◌, Option, none, some, if◌then◌else◌, ltb, leb, ◌==◌, u64, bit_and,
}
use cybou_db.Lease.Slots.{Slot, Queue, slot_at, seg_slots}
use cybou_db.Lease.Walk.{seg_low, seg_high, claim_walk}
use cybou_db.Lease.Tree.{Tree, Counts, tree_leaves, ring_leaf, last_seg, or_else, node_search}

-- The live leaves `a` to `b`: one range, or two where the ring wraps.
unfoldable pub search_ring : Tree → ℕ → ℕ → ℕ → Counts → Option ℕ × Counts
search_ring t a b now c =
    if leb a b
    then node_search t a b now 3 0 c
    else or_else (node_search t a (tree_leaves - 1) now 3 0 c) (λ d. node_search t 0 b now 3 0 d)

-- The segment that a live leaf stands for.
unfoldable pub leaf_segment : ℕ → ℕ → ℕ
leaf_segment first leaf =
    u64 (first + bit_and (u64 (leaf + 2 ^ 64 - ring_leaf first)) (tree_leaves - 1))

-- The slots of the chosen segment.
unfoldable pub scan_segment : (ℕ → Option Slot) → ℕ → ℕ → ℕ → ℕ → Counts → Option ℕ × Counts
scan_segment slot head tail now seg c =
    let (r, read) =
      claim_walk slot now (seg_high seg tail - seg_low seg head) (seg_low seg head) c.slots in
    (r, record c { slots = read })

unfoldable pub scan_found : (ℕ → Option Slot) → ℕ → ℕ → ℕ → Option ℕ × Counts → Option ℕ × Counts
scan_found slot head tail now (none, c) = (none, c)
scan_found slot head tail now (some leaf, c) =
    let seg = leaf_segment (head / seg_slots) leaf in
    if ltb (last_seg tail) seg then (none, c) else scan_segment slot head tail now seg c

unfoldable pub tree_scan : Queue → Tree → ℕ → Counts → Option ℕ × Counts
tree_scan q t now c =
    if q.head == q.tail
    then (none, c)
    else scan_found (slot_at q) q.head q.tail now
        (search_ring t (ring_leaf (q.head / seg_slots)) (ring_leaf (last_seg q.tail)) now c)
