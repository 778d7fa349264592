-- ===== src/Lease/Upkeep.antt =====
-- The four operations keep the tree standing for the queue, at a bounded cost.
use cybou_db.Prelude.{
  ℕ, ◌+◌, ◌-◌, ◌/◌, ◌≤◌, ◌<◌, ◌≡◌, ◌≢◌, inl, inr, refl, sym, ap, ◌∙◌, Option, some, arith, ◌==◌,
  u64, u64_max, update, update_self, update_ne, Bool-cases, ==→eq, ==→ne,
}
use cybou_db.Lease.Slots.{
  Slot, Queue, slot_at, set_state, seg_slots, state_held, state_claimed, state_acked,
}
use cybou_db.Lease.Walk.{seg_low, seg_high, segment_ready_at}
use cybou_db.Lease.Tree.{Tree, ring_leaf}
use cybou_db.Lease.Matches.{IsQueue, IsSummary, LeavesMatch, Matches, ring_leaf_lem}
use cybou_db.Lease.Maintain.{
  Cost, Probe, maint_begin, finish_op, tree_lower, tree_rescan, store_leaf, rescan_walk,
  until_or_zero, future, op_enqueue_like, op_nack, op_claim, op_ack,
}
use cybou_db.Lease.Climb.{store_leaf-IsSummary, tree_lower-IsSummary}
use cybou_db.Lease.Leaves.{leaf-store_leaf, leaf-tree_lower, rescan_walk_lem}
use cybou_db.Lease.Changed.{
  IsMapped, slot_at-set_state_self, slot_at-set_state_ne, set_state-IsMapped, set_state-bounds,
}
use cybou_db.Lease.Resum.{segment_ready_at-other, segment_ready_at-held, segment_ready_at-ack}

-- Two live segments with one leaf are one segment.
ring_leaf_same :
    (head tail s r : ℕ)
    → IsQueue head tail
    → head / seg_slots ≤ s
    → s ≤ (tail - 1) / seg_slots
    → head / seg_slots ≤ r
    → r ≤ (tail - 1) / seg_slots
    → s ≢ r
    → ring_leaf s ≢ ring_leaf r
ring_leaf_same head tail s r v a b c d ne =
    omega (arith, ring_leaf_lem s, ring_leaf_lem r, v.directory)

-- The leaves after one of them has been put right.
LeavesMatch-update :
    (slot slot' : ℕ → Option Slot) (head tail pos x : ℕ) (leaf leaf' : ℕ → ℕ)
    → IsQueue head tail
    → head ≤ pos
    → pos < tail
    → ((j : ℕ) → head ≤ j → j < tail → j ≢ pos → slot' j ≡ slot j)
    → LeavesMatch slot head tail leaf
    → ((j : ℕ) → leaf' j ≡ update leaf (ring_leaf (pos / seg_slots)) x j)
    → x ≡ segment_ready_at slot' (pos / seg_slots) head tail
    → LeavesMatch slot' head tail leaf'
LeavesMatch-update slot slot' head tail pos x leaf leaf' v a b same match upd e s p q =
    elim (Bool-cases (s == pos / seg_slots)) [
      | inl h ↦
          let g = ==→eq s (pos / seg_slots) h in
          rw g (
            upd (ring_leaf (pos / seg_slots))
            ∙ update_self leaf (ring_leaf (pos / seg_slots)) x
            ∙ e)
      | inr h ↦
          let g = ==→ne s (pos / seg_slots) h in
          upd (ring_leaf s)
          ∙ update_ne leaf (ring_leaf (pos / seg_slots)) (ring_leaf s) x
              (ring_leaf_same head tail s (pos / seg_slots) v p q (omega arith) (omega arith) g)
          ∙ match s p q
          ∙ sym (segment_ready_at-other slot slot' head tail pos v a b same s p q g)
    ]

update_same : (f : ℕ → ℕ) (i j : ℕ) → f j ≡ update f i (f i) j
update_same f i j = elim (Bool-cases (j == i)) [ inl h ↦ rw h (ap f (==→eq j i h)) | inr h ↦ rw h ]

-- The probe's state between two operations.
pub record IsKept (p : Probe) : Type 0 where
  pub valid : IsQueue p.queue.head p.queue.tail
  pub mapped : IsMapped p.queue
  pub matches : Matches p.queue p.tree

-- `q'` is the queue after one slot was written, and `t'` the tree after its upkeep.
module _ (p : Probe) (pos state deadline token : ℕ) (k : IsKept p) (a : p.queue.head ≤ pos)
    (b : pos < p.queue.tail) where
  abbrev after : Queue
  after = set_state p.queue pos state deadline token

  -- What the tree must have become: a tree of least children, with one leaf put right.
  IsKept-by :
      (r : Tree × Cost) (x : ℕ)
      → IsSummary r.0
      → ((j : ℕ) → r.0.leaf j ≡ update p.tree.leaf (ring_leaf (pos / seg_slots)) x j)
      → x ≡ segment_ready_at (slot_at after) (pos / seg_slots) p.queue.head p.queue.tail
      → IsKept (finish_op after r)
  unfolding finish_op set_state
  IsKept-by (t, m) x s upd e =
      let (eh, et) = set_state-bounds p.queue pos state deadline token k.mapped a b in
      record {
        valid = rw (eh, et) k.valid;
        mapped = set_state-IsMapped p.queue pos state deadline token k.mapped a b;
        matches = record {
          summary = s;
          leaves =
              rw (eh, et)
                (λ more.
                  LeavesMatch-update (slot_at p.queue) (slot_at after) p.queue.head p.queue.tail pos
                    x p.tree.leaf t.leaf k.valid a b
                    (slot_at-set_state_ne p.queue pos state deadline token k.mapped a b)
                    (k.matches.leaves more) upd e);
        };
      }

  -- The segment was read again.
  rescan-IsKept :
      (m : Cost)
      → IsKept (
          finish_op after
            (tree_rescan (slot_at after) p.tree m (pos / seg_slots) p.queue.head p.queue.tail))
  unfolding tree_rescan
  rescan-IsKept m =
      let n = seg_high (pos / seg_slots) p.queue.tail - seg_low (pos / seg_slots) p.queue.head in
      let low = seg_low (pos / seg_slots) p.queue.head in
      let (best, read) = rescan_walk (slot_at after) n low u64_max m.slots in
      IsKept-by (store_leaf p.tree (record m { slots = read }) (ring_leaf (pos / seg_slots)) best)
        best
        (store_leaf-IsSummary p.tree (record m { slots = read }) (ring_leaf (pos / seg_slots)) best
          k.matches.summary)
        (leaf-store_leaf p.tree (record m { slots = read }) (ring_leaf (pos / seg_slots)) best)
        (unfold segment_ready_at in (rescan_walk_lem (slot_at after) n low u64_max m.slots).0)

  -- A message was freed: the summary falls to zero, the least there is.
  lower-IsKept :
      (m : Cost)
      → state ≡ state_held
      → IsKept (finish_op after (tree_lower p.tree m (pos / seg_slots) 0))
  lower-IsKept m h =
      IsKept-by (tree_lower p.tree m (pos / seg_slots) 0) 0
        (tree_lower-IsSummary p.tree m (pos / seg_slots) 0 k.matches.summary)
        (λ j. leaf-tree_lower p.tree m (pos / seg_slots) 0 j (omega arith))
        (sym (
          segment_ready_at-held (slot_at p.queue) (slot_at after) p.queue.head p.queue.tail pos
            k.valid a b (slot_at-set_state_ne p.queue pos state deadline token k.mapped a b) _
            (slot_at-set_state_self p.queue pos state deadline token k.mapped a b) h))

pub op_enqueue_like-IsKept :
    (p : Probe) (pos : ℕ)
    → IsKept p
    → p.queue.head ≤ pos
    → pos < p.queue.tail
    → IsKept (op_enqueue_like p pos)
unfolding op_enqueue_like
op_enqueue_like-IsKept p pos k a b =
    lower-IsKept p pos state_held 0 0 k a b (maint_begin p.cost) refl

pub op_nack-IsKept :
    (p : Probe) (pos : ℕ)
    → IsKept p
    → p.queue.head ≤ pos
    → pos < p.queue.tail
    → IsKept (op_nack p pos)
unfolding op_nack
op_nack-IsKept p pos k a b = lower-IsKept p pos state_held 0 9 k a b (maint_begin p.cost) refl

pub op_claim-IsKept :
    (p : Probe) (pos : ℕ)
    → IsKept p
    → p.queue.head ≤ pos
    → pos < p.queue.tail
    → IsKept (op_claim p pos)
unfolding op_claim
op_claim-IsKept p pos k a b =
    rescan-IsKept p pos state_claimed (u64 (future + pos)) 5 k a b (maint_begin p.cost)

-- At a live position, putting a message there, handing one back and claiming one each keep the
-- queue valid and mapped, and the tree standing for it: every node the least of its children, and
-- the leaf of each live segment its summary.
pub ops-IsKept :
    (p : Probe) (pos : ℕ)
    → IsKept p
    → p.queue.head ≤ pos
    → pos < p.queue.tail
    → IsKept (op_enqueue_like p pos) × IsKept (op_nack p pos) × IsKept (op_claim p pos)
ops-IsKept p pos k a b =
    (op_enqueue_like-IsKept p pos k a b, op_nack-IsKept p pos k a b, op_claim-IsKept p pos k a b)

-- Acknowledging a live message that is claimed keeps the same, although the segment is read again
-- only where the ended claim held the deadline that its leaf shows.
pub op_ack-IsKept :
    (p : Probe) (pos : ℕ) (s : Slot)
    → IsKept p
    → p.queue.head ≤ pos
    → pos < p.queue.tail
    → slot_at p.queue pos ≡ some s
    → s.state ≡ state_claimed
    → IsKept (op_ack p pos)
unfolding op_ack until_or_zero
op_ack-IsKept p pos s k a b e c =
    let leaf = p.tree.leaf (ring_leaf (pos / seg_slots)) in
    elim (Bool-cases (s.lease_until == leaf)) [
      | inl h ↦
          rw (e, h, until_or_zero) (rescan-IsKept p pos state_acked 0 6 k a b (maint_begin p.cost))
      | inr h ↦
          rw (e, h, until_or_zero)
            (IsKept-by p pos state_acked 0 6 k a b (p.tree, maint_begin p.cost) leaf
              k.matches.summary (update_same p.tree.leaf (ring_leaf (pos / seg_slots)))
              (summary
                ∙ sym (
                    segment_ready_at-ack (slot_at p.queue) _ p.queue.head p.queue.tail pos k.valid a
                      b (slot_at-set_state_ne p.queue pos state_acked 0 6 k.mapped a b) s _ e
                      (slot_at-set_state_self p.queue pos state_acked 0 6 k.mapped a b) c refl
                      (λ f. ==→ne s.lease_until leaf h (sym f ∙ sym summary)))))
    ]
  where
    summary :
        p.tree.leaf (ring_leaf (pos / seg_slots))
        ≡ segment_ready_at (slot_at p.queue) (pos / seg_slots) p.queue.head p.queue.tail
    summary = k.matches.leaves (omega arith) (pos / seg_slots) (omega arith) (omega arith)
