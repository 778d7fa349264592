-- ===== src/Lease/Cost.antt =====
-- What the upkeep of one operation costs at most.
use cybou_db.Prelude.{
  ℕ, ◌-◌, ◌/◌, ◌≤◌, ◌≡◌, refl, arith, ◌==◌, Bool-cases, inl, inr, Option, u64_max,
}
use cybou_db.Lease.Slots.{Slot, Queue, slot_at, seg_slots}
use cybou_db.Lease.Walk.{seg_low, seg_high}
use cybou_db.Lease.Tree.{Tree, ring_leaf}
use cybou_db.Lease.Maintain.{
  Cost, Probe, maint_begin, maint_end, finish_op, tree_lower, tree_rescan, rescan_walk,
  until_or_zero, op_enqueue_like, op_nack, op_claim, op_ack,
}
use cybou_db.Lease.Leaves.{rescan_walk_lem, tree_lower-Within, store_leaf-Within}

-- At most one segment of slots read again, eight sibling pages, and three nodes written.
abbrev pub Bounded : Cost → Type 0
Bounded m = (m.slots ≤ seg_slots) × (m.leaf_pages ≤ 8) × (m.nodes ≤ 3)

-- No slot and no sibling read, and three nodes written.
abbrev pub Free : Cost → Type 0
Free m = (m.slots ≡ 0) × (m.leaf_pages ≡ 0) × (m.nodes ≤ 3)

range-le : (seg head tail : ℕ) → seg_high seg tail - seg_low seg head ≤ seg_slots
unfolding seg_low seg_high
range-le seg head tail = ground arith

finish_op-cost : (q : Queue) (r : Tree × Cost) → (finish_op q r).cost ≡ maint_end r.1
unfolding finish_op
finish_op-cost q (t, m) = refl

tree_rescan-Bounded :
    (slot : ℕ → Option Slot) (t : Tree) (m : Cost) (seg head tail : ℕ)
    → Bounded (maint_end (tree_rescan slot t (maint_begin m) seg head tail).1)
unfolding tree_rescan maint_begin maint_end
tree_rescan-Bounded slot t m seg head tail =
    let m0 = maint_begin m in
    let n = seg_high seg tail - seg_low seg head in
    let w = rescan_walk slot n (seg_low seg head) u64_max 0 in
    omega (
      arith,
      range-le seg head tail,
      (rescan_walk_lem slot n (seg_low seg head) u64_max 0).1,
      store_leaf-Within t (record m0 { slots = w.1 }) (ring_leaf seg) w.0,
    )

tree_lower-Free :
    (t : Tree) (m : Cost) (seg : ℕ) → Free (maint_end (tree_lower t (maint_begin m) seg 0).1)
unfolding maint_begin maint_end
tree_lower-Free t m seg = omega (arith, tree_lower-Within t (maint_begin m) seg 0)

untouched-Bounded : (m : Cost) → Bounded (maint_end (maint_begin m))
unfolding maint_begin maint_end
untouched-Bounded m = omega arith

op_ack-Bounded : (p : Probe) (pos : ℕ) → Bounded (op_ack p pos).cost
unfolding op_ack
op_ack-Bounded p pos =
    rw finish_op-cost
      (elim (Bool-cases
        (until_or_zero (slot_at p.queue pos) == p.tree.leaf (ring_leaf (pos / seg_slots)))) [
          | inl e ↦
              rw e (tree_rescan-Bounded _ p.tree p.cost (pos / seg_slots) p.queue.head p.queue.tail)
          | inr e ↦ rw e (untouched-Bounded p.cost)
        ])

-- Freeing a message (putting one there, handing one back) reads no slot and no sibling leaf and
-- writes three nodes at most. Claiming one and acknowledging one read at most 62 slots and eight
-- sibling leaves and write three nodes at most.
pub upkeep-Bounded :
    (p : Probe) (pos : ℕ)
    → Free (op_enqueue_like p pos).cost
      × Free (op_nack p pos).cost
      × Bounded (op_claim p pos).cost
      × Bounded (op_ack p pos).cost
unfolding op_enqueue_like op_nack op_claim
upkeep-Bounded p pos = (
  rw finish_op-cost (tree_lower-Free p.tree p.cost (pos / seg_slots)),
  rw finish_op-cost (tree_lower-Free p.tree p.cost (pos / seg_slots)),
  rw finish_op-cost
      (tree_rescan-Bounded _ p.tree p.cost (pos / seg_slots) p.queue.head p.queue.tail),
  op_ack-Bounded p pos,
)
