-- ===== src/Lease/Cycle.antt =====
-- The worker's cycle over a whole queue: at its end every message is acknowledged, the tree still
-- stands for the queue, and a search through it finds nothing to claim.
use cybou_db.Prelude.{
  ℕ, zero, suc, ◌+◌, ◌-◌, ◌≤◌, ◌<◌, ◌≡◌, ◌≢◌, inl, inr, refl, ap, ◌∙◌, Option, none, some, false,
  arith, u64, u64_max, FirstIn-unique, trichotomy,
}
use cybou_db.Lease.Slots.{
  Slot, Queue, slot_at, set_state, claimable, Claims, state_held, state_claimed, state_acked,
}
use cybou_db.Lease.Tree.{Tree, Counts}
use cybou_db.Lease.Scan.{tree_scan}
use cybou_db.Lease.Found.{tree_scan-FirstIn}
use cybou_db.Lease.Maintain.{
  Cost, Probe, finish_op, future, op_enqueue_like, op_nack, op_claim, op_ack, worker_round,
  worker_rounds,
}
use cybou_db.Lease.Changed.{
  IsMapped, slot_at-set_state_self, slot_at-set_state_ne, set_state-bounds,
}
use cybou_db.Lease.Upkeep.{
  IsKept, op_enqueue_like-IsKept, op_nack-IsKept, op_claim-IsKept, op_ack-IsKept,
}

finish_op-queue : (q : Queue) (r : Tree × Cost) → (finish_op q r).queue ≡ q
unfolding finish_op
finish_op-queue q (t, m) = refl

-- What one operation on position `pos` leaves of a queue: the same bounds, the slot written, and
-- every other live slot as it was.
record Wrote (q : Queue) (pos : ℕ) (s : Slot) (q' : Queue) : Type 0 where
  head_same : q'.head ≡ q.head
  tail_same : q'.tail ≡ q.tail
  self : slot_at q' pos ≡ some s
  others : (j : ℕ) → q.head ≤ j → j < q.tail → j ≢ pos → slot_at q' j ≡ slot_at q j

abbrev slot_of : ℕ → ℕ → ℕ → Slot
slot_of state deadline token = record { state = state; lease_until = deadline; lease_token = token }

set_state-Wrote :
    (q : Queue) (pos state deadline token : ℕ)
    → IsMapped q
    → q.head ≤ pos
    → pos < q.tail
    → Wrote q pos (slot_of state deadline token) (set_state q pos state deadline token)
set_state-Wrote q pos state deadline token m a b =
    let (h, t) = set_state-bounds q pos state deadline token m a b in
    record {
      head_same = h;
      tail_same = t;
      self = slot_at-set_state_self q pos state deadline token m a b;
      others = slot_at-set_state_ne q pos state deadline token m a b;
    }

Wrote-trans :
    (q q' q'' : Queue) (pos : ℕ) (s s' : Slot)
    → Wrote q pos s q'
    → Wrote q' pos s' q''
    → Wrote q pos s' q''
Wrote-trans q q' q'' pos s s' w w' = record {
  head_same = w'.head_same ∙ w.head_same;
  tail_same = w'.tail_same ∙ w.tail_same;
  self = w'.self;
  others = λ j a b ne.
      w'.others j (omega (arith, w.head_same)) (omega (arith, w.tail_same)) ne ∙ w.others j a b ne;
}

-- What one operation leaves of the probe.
abbrev Did : Probe → ℕ → ℕ → ℕ → ℕ → Probe → Type 0
Did p pos state deadline token p' =
    IsKept p' × Wrote p.queue pos (slot_of state deadline token) p'.queue

module _ (p : Probe) (pos : ℕ) (k : IsKept p) (a : p.queue.head ≤ pos)
    (b : pos < p.queue.tail) where
  op_enqueue_like-Did : Did p pos state_held 0 0 (op_enqueue_like p pos)
  unfolding op_enqueue_like
  op_enqueue_like-Did = (
    op_enqueue_like-IsKept p pos k a b,
    rw finish_op-queue (set_state-Wrote p.queue pos state_held 0 0 k.mapped a b),
  )

  op_nack-Did : Did p pos state_held 0 9 (op_nack p pos)
  unfolding op_nack
  op_nack-Did = (
    op_nack-IsKept p pos k a b,
    rw finish_op-queue (set_state-Wrote p.queue pos state_held 0 9 k.mapped a b),
  )

  op_claim-Did : Did p pos state_claimed (u64 (future + pos)) 5 (op_claim p pos)
  unfolding op_claim
  op_claim-Did = (
    op_claim-IsKept p pos k a b,
    rw finish_op-queue
        (set_state-Wrote p.queue pos state_claimed (u64 (future + pos)) 5 k.mapped a b),
  )

  op_ack-Did :
      (s : Slot)
      → slot_at p.queue pos ≡ some s
      → s.state ≡ state_claimed
      → Did p pos state_acked 0 6 (op_ack p pos)
  unfolding op_ack
  op_ack-Did s e c = (
    op_ack-IsKept p pos s k a b e c,
    rw finish_op-queue (set_state-Wrote p.queue pos state_acked 0 6 k.mapped a b),
  )

-- One round acknowledges its message and touches no other.
worker_round-Did :
    (p : Probe) (n : ℕ)
    → IsKept p
    → p.queue.head ≤ n
    → n < p.queue.tail
    → Did p n state_acked 0 6 (worker_round p n)
unfolding worker_round
worker_round-Did p n k a b =
    let p1 = op_enqueue_like p n in
    let (k1, w1) = op_enqueue_like-Did p n k a b in
    let p2 = op_claim p1 n in
    let (k2, w2) =
      op_claim-Did p1 n k1 (omega (arith, w1.head_same)) (omega (arith, w1.tail_same)) in
    let v2 = Wrote-trans p.queue p1.queue p2.queue n _ _ w1 w2 in
    let p3 = op_nack p2 n in
    let (k3, w3) =
      op_nack-Did p2 n k2 (omega (arith, v2.head_same)) (omega (arith, v2.tail_same)) in
    let v3 = Wrote-trans p.queue p2.queue p3.queue n _ _ v2 w3 in
    let p4 = op_claim p3 n in
    let (k4, w4) =
      op_claim-Did p3 n k3 (omega (arith, v3.head_same)) (omega (arith, v3.tail_same)) in
    let v4 = Wrote-trans p.queue p3.queue p4.queue n _ _ v3 w4 in
    let (k5, w5) =
      op_ack-Did p4 n k4 (omega (arith, v4.head_same)) (omega (arith, v4.tail_same)) _ w4.self
        refl in
    (k5, Wrote-trans p.queue p4.queue (op_ack p4 n).queue n _ _ v4 w5)

-- Every live position below `i` is acknowledged.
abbrev AckedBelow : Queue → ℕ → Type 0
AckedBelow q i =
    (j : ℕ) → q.head ≤ j → j < i → j < q.tail → slot_at q j ≡ some (slot_of state_acked 0 6)

worker_rounds-keeps :
    (n i : ℕ) (p : Probe)
    → IsKept p
    → p.queue.head ≤ i
    → i + n ≡ p.queue.tail
    → AckedBelow p.queue i
    → IsKept (worker_rounds n i p)
      × AckedBelow (worker_rounds n i p).queue (worker_rounds n i p).queue.tail
unfolding worker_rounds
worker_rounds-keeps zero i p k a e acked = (k, λ j c d f. acked j c (omega arith) f)
worker_rounds-keeps (suc n) i p k a e acked =
    let (k', w) = worker_round-Did p i k a (omega arith) in
    worker_rounds-keeps n (i + 1) (worker_round p i) k' (omega (arith, w.head_same))
      (omega (arith, w.tail_same))
      (λ j c d f. elim (trichotomy j i) [
        | inl lt ↦
            w.others j (omega (arith, w.head_same)) (omega (arith, w.tail_same)) (omega arith)
            ∙ acked j (omega (arith, w.head_same)) lt (omega (arith, w.tail_same))
        | inr (inl h) ↦ ap (slot_at (worker_round p i).queue) h ∙ w.self
        | inr (inr gt) ↦ absurd (omega arith)
      ])

acked_not_claimable : (now : ℕ) → claimable now (slot_of state_acked 0 6) ≡ false
unfolding claimable
acked_not_claimable now = refl

-- After the cycle has run over every live message of a probe whose tree stands for its queue, the
-- tree still does, and a search through it finds no message to claim at any time before UINT64_MAX.
pub worker_rounds_drain :
    (p : Probe) (now : ℕ) (c : Counts)
    → IsKept p
    → now < u64_max
    → let p' = worker_rounds (p.queue.tail - p.queue.head) p.queue.head p in
      IsKept p' × ((tree_scan p'.queue p'.tree now c).0 ≡ none)
worker_rounds_drain p now c k early =
    let p' = worker_rounds (p.queue.tail - p.queue.head) p.queue.head p in
    let (k', acked) =
      worker_rounds-keeps (p.queue.tail - p.queue.head) p.queue.head p k (omega arith)
        (omega (arith, k.valid.ordered)) (λ j a b d. absurd (omega arith)) in
    (
      k',
      FirstIn-unique (Claims (slot_at p'.queue) now) p'.queue.head p'.queue.tail _ none
          (tree_scan-FirstIn p'.queue p'.tree now c k'.valid k'.matches early)
          (λ j a b claims. not_claimed (slot_at p'.queue) j (acked j a b b) claims),
    )
  where
    not_claimed :
        (slot : ℕ → Option Slot) (j : ℕ)
        → slot j ≡ some (slot_of state_acked 0 6)
        → ¬ Claims slot now j
    not_claimed slot j e (s, f, g) = cc (acked_not_claimable now)
