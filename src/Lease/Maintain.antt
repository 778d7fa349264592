-- ===== src/Lease/Maintain.antt =====
-- What benchmarks/lease_probe.c does to keep the tree: the climb from a leaf to the root, and the
-- four queue operations with the upkeep that each one pays.
use cybou_db.Prelude.{
  ℕ, zero, suc, ◌+◌, ◌-◌, ◌*◌, ◌/◌, Option, none, some, Bool, true, false, if◌then◌else◌, ltb, leb,
  ◌==◌, u64, u64_max, update,
}
use cybou_db.Lease.Slots.{
  Slot, Queue, slot_at, set_state, seg_slots, state_held, state_claimed, state_acked,
}
use cybou_db.Lease.Walk.{seg_low, seg_high, least_deadline}
use cybou_db.Lease.Tree.{Tree, ring_leaf, min_of, least_child}

-- `maint_slots`, `maint_nodes`, `maint_leaf_pages`, `maint_ops` and the two maxima.
pub record Cost : Type 0 where
  pub slots : ℕ
  pub nodes : ℕ
  pub leaf_pages : ℕ
  pub ops : ℕ
  pub slots_max : ℕ
  pub nodes_max : ℕ

-- The root takes the least of the first level, if that moved.
unfoldable pub climb_root : Tree → Cost → Tree × Cost
climb_root t m =
    let least = min_of t.l1 8 0 u64_max in
    if least == t.l0 then (t, m) else (record t { l0 = least }, record m { nodes = m.nodes + 1 })

unfoldable pub climb_l1 : Tree → Cost → ℕ → Tree × Cost
climb_l1 t m i1 =
    let least = least_child t.l2 i1 in
    if least == t.l1 i1
    then (t, m)
    else climb_root (record t { l1 = update t.l1 i1 least }) (record m { nodes = m.nodes + 1 })

unfoldable pub climb_l2 : Tree → Cost → ℕ → ℕ → Tree × Cost
climb_l2 t m i2 value =
    climb_l1 (record t { l2 = update t.l2 i2 value }) (record m { nodes = m.nodes + 1 }) (i2 / 8)

-- The eight sibling leaves: their least value, and how many of them stand for a segment page.
unfoldable pub sibling_walk : (ℕ → ℕ) → ℕ → ℕ → ℕ → ℕ → ℕ × ℕ
sibling_walk a zero i m pages = (m, pages)
sibling_walk a (suc n) i m pages =
    sibling_walk a n (i + 1) (if ltb (a i) m then a i else m)
      (if a i == u64_max then pages else pages + 1)

-- A value that rose may have been the least, and only its siblings can say.
unfoldable pub propagate_rise : Tree → Cost → ℕ → Tree × Cost
propagate_rise t m i2 =
    let (least, pages) = sibling_walk t.leaf 8 (i2 * 8) u64_max m.leaf_pages in
    let m' = record m { leaf_pages = pages } in
    if least == t.l2 i2 then (t, m') else climb_l2 t m' i2 least

-- A value that fell can only lower what is above it.
unfoldable pub propagate_fall : Tree → Cost → ℕ → ℕ → Tree × Cost
propagate_fall t m leaf i2 =
    if leb (t.l2 i2) (t.leaf leaf) then (t, m) else climb_l2 t m i2 (t.leaf leaf)

unfoldable pub tree_propagate : Tree → Cost → ℕ → Bool → Tree × Cost
tree_propagate t m leaf rose =
    if rose then propagate_rise t m (leaf / 8) else propagate_fall t m leaf (leaf / 8)

unfoldable pub tree_lower : Tree → Cost → ℕ → ℕ → Tree × Cost
tree_lower t m seg value =
    let leaf = ring_leaf seg in
    if leb (t.leaf leaf) value
    then (t, m)
    else tree_propagate (record t { leaf = update t.leaf leaf value }) m leaf false

-- The segment is read again; the walk ends at a message that nobody holds.
unfoldable pub rescan_walk : (ℕ → Option Slot) → ℕ → ℕ → ℕ → ℕ → ℕ × ℕ
rescan_walk slot zero p best read = (best, read)
rescan_walk slot (suc n) p best read = elim (slot p) [
  | none ↦ rescan_walk slot n (p + 1) best read
  | some s ↦ elim (s.state == state_held) [
    | true ↦ (0, read + 1)
    | false ↦ rescan_walk slot n (p + 1) (least_deadline s best) (read + 1)
  ]
]

unfoldable pub store_leaf : Tree → Cost → ℕ → ℕ → Tree × Cost
store_leaf t m leaf best =
    if best == t.leaf leaf
    then (t, m)
    else tree_propagate (record t { leaf = update t.leaf leaf best }) m leaf
        (ltb (t.leaf leaf) best)

unfoldable pub tree_rescan : (ℕ → Option Slot) → Tree → Cost → ℕ → ℕ → ℕ → Tree × Cost
tree_rescan slot t m seg head tail =
    let (best, read) =
      rescan_walk slot (seg_high seg tail - seg_low seg head) (seg_low seg head) u64_max m.slots in
    store_leaf t (record m { slots = read }) (ring_leaf seg) best

-- The queue, its tree and the measured cost.
pub record Probe : Type 0 where
  pub queue : Queue
  pub tree : Tree
  pub cost : Cost

unfoldable pub maint_begin : Cost → Cost
maint_begin m = record m { slots = 0; nodes = 0; leaf_pages = 0 }

unfoldable pub maint_end : Cost → Cost
maint_end m = record m {
  ops = m.ops + 1;
  slots_max = if ltb m.slots_max m.slots then m.slots else m.slots_max;
  nodes_max = if ltb m.nodes_max m.nodes then m.nodes else m.nodes_max;
}

-- What an operation leaves: the queue that it wrote, and the tree with its cost.
unfoldable pub finish_op : Queue → Tree × Cost → Probe
finish_op q (t, m) = record { queue = q; tree = t; cost = maint_end m }

-- The time that the probe calls the future.
abbrev pub future : ℕ
future = 1700000060000

unfoldable pub op_enqueue_like : Probe → ℕ → Probe
op_enqueue_like p pos =
    finish_op (set_state p.queue pos state_held 0 0)
      (tree_lower p.tree (maint_begin p.cost) (pos / seg_slots) 0)

unfoldable pub op_nack : Probe → ℕ → Probe
op_nack p pos =
    finish_op (set_state p.queue pos state_held 0 9)
      (tree_lower p.tree (maint_begin p.cost) (pos / seg_slots) 0)

unfoldable pub op_claim : Probe → ℕ → Probe
op_claim p pos =
    let q = set_state p.queue pos state_claimed (u64 (future + pos)) 5 in
    finish_op q (
      tree_rescan (slot_at q) p.tree (maint_begin p.cost) (pos / seg_slots) p.queue.head
        p.queue.tail)

-- `s ? u64(s, QMSG_LEASE_UNTIL_OFF) : 0`
unfoldable pub until_or_zero : Option Slot → ℕ
until_or_zero none = 0
until_or_zero (some s) = s.lease_until

-- Only the claim that held the earliest deadline can raise the summary.
unfoldable pub op_ack : Probe → ℕ → Probe
op_ack p pos =
    let was = until_or_zero (slot_at p.queue pos) in
    let q = set_state p.queue pos state_acked 0 6 in
    let m = maint_begin p.cost in
    finish_op q (
      if was == p.tree.leaf (ring_leaf (pos / seg_slots))
      then tree_rescan (slot_at q) p.tree m (pos / seg_slots) p.queue.head p.queue.tail
      else (p.tree, m))

-- The cycle that a worker runs on one message: take it, hand it back, take it again, finish it.
unfoldable pub worker_round : Probe → ℕ → Probe
worker_round p n = op_ack (op_claim (op_nack (op_claim (op_enqueue_like p n) n) n) n) n

-- `n` messages from position `i` on.
unfoldable pub worker_rounds : ℕ → ℕ → Probe → Probe
worker_rounds zero i p = p
worker_rounds (suc n) i p = worker_rounds n (i + 1) (worker_round p i)
