-- ===== src/Queue/FenceTests.antt =====
-- src/core/queue.asm: calls between a token that was good and the one who shows it again, and two claims in
-- turn.
use cybou_db.Prelude.{ℕ, ◌+◌, ◌<◌, ◌≡◌, ◌≢◌, refl, some, arith, List, [], ◌∷◌}
use cybou_db.Queue.Page.{
  QueuePage, lease_now, db_queue_scan_claimable, scan_from, lease_find_slot, lease_edit_slot,
  lease_seg_refresh, segment_ready, least_ready,
}
use cybou_db.Queue.Calls.{claim_found, claim_slot, lease_slot, db_queue_claim}
use cybou_db.Queue.After.{Call, pushes, claims, pops}
use cybou_db.Queue.Once.{db_queue_claim-apart}
use cybou_db.Queue.Tests.{file, two}

abbrev between : List Call
between = pushes file (9 ∷ []) ∷ claims file 60 5 ∷ pops file ∷ []

-- At 20 the claim on the first message has lapsed, and it is handed out again.
abbrev outbid : QueuePage
outbid = (db_queue_claim file two 20 30).1

outbid_again : db_queue_claim file two 20 30 ≡ (0, outbid, some (0, 2))
unfolding db_queue_claim lease_now claim_found db_queue_scan_claimable scan_from claim_slot
    lease_find_slot lease_edit_slot lease_slot
outbid_again = refl

second : db_queue_claim file outbid 25 30 ≡ (0, (db_queue_claim file outbid 25 30).1, some (1, 1))
unfolding db_queue_claim lease_now claim_found db_queue_scan_claimable scan_from claim_slot
    lease_find_slot lease_edit_slot lease_slot lease_seg_refresh segment_ready least_ready
second = refl

outbid_runs : (lease_now file outbid 25).1 < (lease_now file two 20).1 + 30
unfolding db_queue_claim lease_now claim_found db_queue_scan_claimable scan_from claim_slot
    lease_find_slot lease_edit_slot lease_slot lease_seg_refresh segment_ready least_ready
outbid_runs = omega arith

db_queue_claim-apart_example : ◌≢◌ {A = ℕ} 1 0
db_queue_claim-apart_example =
    db_queue_claim-apart file file two outbid (db_queue_claim file outbid 25 30).1 20 30 25 30 0 2 1
      1 outbid_again second outbid_runs
