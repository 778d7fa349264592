-- ===== src/Lease/Tests.antt =====
-- Runs of the ready-at tree on a small queue.
use cybou_db.Prelude.{ℕ, ◌+◌, ◌≡◌, refl, none, some, arith, if◌then◌else◌, ◌==◌, FirstIn}
use cybou_db.Lease.Slots.{Slot, Queue, slot_at, claimable, Claims, page_at}
use cybou_db.Lease.Walk.{
  seg_low, seg_high, least_deadline, ready_walk, segment_ready_at, claim_walk,
}
use cybou_db.Lease.Tree.{
  Counts, ring_leaf, min_of, least_child, fill_leaves, last_seg, build_leaves, summarise,
  tree_build, node_value, or_else, search_children, node_search,
}
use cybou_db.Lease.Scan.{search_ring, leaf_segment, scan_segment, scan_found, tree_scan}
use cybou_db.Lease.Least.{IsTrue, tree_build-IsTrue}
use cybou_db.Lease.Matches.{IsQueue, tree_build-Matches}
use cybou_db.Lease.Found.{tree_scan-FirstIn}
use cybou_db.Lease.Maintain.{Cost, Probe, op_enqueue_like, op_nack, op_claim, op_ack, worker_rounds}
use cybou_db.Lease.Changed.{IsMapped}
use cybou_db.Lease.Upkeep.{IsKept, ops-IsKept, op_ack-IsKept}
use cybou_db.Lease.Cost.{Free, Bounded, upkeep-Bounded}
use cybou_db.Lease.Cycle.{worker_rounds_drain}

abbrev slot_for : ℕ → Slot
slot_for i =
    if i == 1
    then record { state = 1; lease_until = 50; lease_token = 1 }
    else if i == 2
    then record { state = 2; lease_until = 0; lease_token = 2 }
    else record { state = 0; lease_until = 0; lease_token = 0 }

-- Message 1 is claimed until 50, message 2 is acknowledged, message 3 is free.
abbrev three : Queue
three = record {
  head = 1;
  tail = 4;
  claim = 3;
  first_seg = 0;
  entries = λ i. i + 10;
  page = λ i. if i == 10 then some (record { ready_at = 0; slots = slot_for }) else none;
}

abbrev start : Counts
start = record { nodes = 0; segments = 0; slots = 0 }

abbrev no_cost : Cost
no_cost = record { slots = 0; nodes = 0; leaf_pages = 0; ops = 0; slots_max = 0; nodes_max = 0 }

abbrev probe : Probe
probe = record { queue = three; tree = tree_build three; cost = no_cost }

three-IsQueue : IsQueue three.head three.tail
three-IsQueue = omega arith

three-IsMapped : IsMapped three
unfolding page_at
three-IsMapped = record {
  mapped = λ j a b. (record { ready_at = 0; slots = slot_for }, ground arith);
  distinct = λ i j a b c d e. omega arith;
}

probe-IsKept : IsKept probe
probe-IsKept = record {
  valid = three-IsQueue;
  mapped = three-IsMapped;
  matches = tree_build-Matches three three-IsQueue;
}

tree_build-IsTrue_example : IsTrue three (tree_build three)
tree_build-IsTrue_example = tree_build-IsTrue three three-IsQueue

tree_scan-FirstIn_example :
    FirstIn (Claims (slot_at three) 20) 1 4 (tree_scan three (tree_build three) 20 start).0
tree_scan-FirstIn_example =
    tree_scan-FirstIn three (tree_build three) 20 start three-IsQueue
      (tree_build-Matches three three-IsQueue) (omega arith)

ops-IsKept_example :
    IsKept (op_enqueue_like probe 2) × IsKept (op_nack probe 2) × IsKept (op_claim probe 2)
ops-IsKept_example = ops-IsKept probe 2 probe-IsKept (omega arith) (omega arith)

op_ack-IsKept_example : IsKept (op_ack probe 1)
unfolding slot_at page_at
op_ack-IsKept_example =
    op_ack-IsKept probe 1 (record { state = 1; lease_until = 50; lease_token = 1 }) probe-IsKept
      (omega arith) (omega arith) refl refl

upkeep-Bounded_example :
    Free (op_enqueue_like probe 2).cost
    × Free (op_nack probe 2).cost
    × Bounded (op_claim probe 2).cost
    × Bounded (op_ack probe 2).cost
upkeep-Bounded_example = upkeep-Bounded probe 2

worker_rounds_drain_example :
    IsKept (worker_rounds 3 1 probe)
    × ((tree_scan (worker_rounds 3 1 probe).queue (worker_rounds 3 1 probe).tree 20 start).0 ≡ none)
worker_rounds_drain_example = worker_rounds_drain probe 20 start probe-IsKept (omega arith)

-- At 20 the claim on message 1 still runs, and message 3 is the first; at 50 it has lapsed.
scan_runs :
    ((tree_scan three (tree_build three) 20 start).0 ≡ some 3)
    × ((tree_scan three (tree_build three) 50 start).0 ≡ some 1)
unfolding tree_scan tree_build scan_found search_ring scan_segment leaf_segment summarise
    build_leaves fill_leaves least_child min_of ring_leaf last_seg node_search node_value
    search_children or_else segment_ready_at seg_low seg_high ready_walk least_deadline claim_walk
    claimable slot_at page_at
scan_runs = (refl, refl)
