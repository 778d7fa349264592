-- ===== src/Queue/Tests.antt =====
-- The queue on small queues, and what the theorems say of them.
use cybou_db.Prelude.{
  ℕ, ◌≤◌, ◌<◌, ◌≡◌, ◌↔◌, refl, none, some, true, false, if◌then◌else◌, ◌==◌, arith, Bool-cases,
  ==→eq, inl, inr, List, [], ◌∷◌, leb→le,
}
use cybou_db.Leased.Tickets.{
  finished, claimed, Slot, queued, claimable, take_first, ack, nack, renew,
}
use cybou_db.Queue.Page.{
  QueuePage, Context, e_notfound, e_lease, lease_now, db_queue_scan_claimable, scan_from,
  lease_find_slot, lease_edit_slot, lease_summaries_valid, cursor_valid,
}
use cybou_db.Queue.Calls.{
  claim_found, claim_slot, lease_slot, push_slot, db_queue_claim, db_queue_ack, db_queue_nack,
  db_queue_renew, db_queue_push, db_queue_pop, db_queue_peek,
}
use cybou_db.Queue.View.{view}
use cybou_db.Queue.Valid.{Live, Trusted, IsQueue}
use cybou_db.Queue.Ready.{IsQueue-Named, lease_summaries_valid-iff-Trusted}
use cybou_db.Queue.Answer.{Serving, Answer}
use cybou_db.Queue.Settled.{Nacked, Renewed, ack-nack-renew-Answer}
use cybou_db.Queue.Claimed.{Handed, db_queue_claim-Handed}
use cybou_db.Queue.Ends.{waiting}
use cybou_db.Queue.Fifo.{Pushed, Popped, db_queue_push-Pushed, db_queue_pop-Popped}
use cybou_db.Queue.Drain.{worker_loop, worker_loop-finishes}
use cybou_db.Queue.Cursor.{IsCursor}
use cybou_db.Queue.Accepted.{Accepted, lease_calls-Accepted}
use cybou_db.Queue.Stale.{db_queue_push-hides, db_queue_ack-db_queue_push}

abbrev pub file : Context
file = record {
  queues = true;
  leases = true;
  page_copied = 0;
  segment_copied = 0;
  message_copied = 0;
}

file-Serving : Serving file
file-Serving = record {
  opened = record { queues_on = refl; page_can = refl; segment_can = refl; message_can = refl };
  leases_on = refl;
}

abbrev taken : List ℕ → Slot
taken m = record { payload = m; state = claimed; until = 10; token = 1 }

-- Two messages, the first of them claimed until 10.
abbrev pub two : QueuePage
two = record {
  head = 0;
  tail = 2;
  claim = 1;
  time_floor = 5;
  first_seg = 0;
  segments = 1;
  ready_at = λ segment. 0;
  slot = λ position. if position == 0 then taken (7 ∷ []) else queued (8 ∷ []);
}

two-IsQueue : IsQueue two
two-IsQueue = record {
  ordered = omega arith;
  bounded = omega arith;
  based = λ lt. refl;
  covered = λ lt. refl;
  drained = λ e. absurd (omega (arith, e));
  trusted = λ j now live g. omega arith;
  cleared =
      λ j live. elim (Bool-cases (j == 0)) [ inl e ↦ rw e (λ f. cc f) | inr e ↦ rw e (λ f. refl) ];
}

-- One message, claimed until 10, and the summary of its segment says so.
abbrev one : QueuePage
one = record {
  head = 0;
  tail = 1;
  claim = 1;
  time_floor = 0;
  first_seg = 0;
  segments = 1;
  ready_at = λ segment. 10;
  slot = λ position. taken (7 ∷ []);
}

one-IsQueue : IsQueue one
one-IsQueue = record {
  ordered = omega arith;
  bounded = omega arith;
  based = λ lt. refl;
  covered = λ lt. refl;
  drained = λ e. absurd (omega (arith, e));
  trusted = λ j now live g. leb→le 10 now g;
  cleared = λ j live f. cc f;
}

two_tokens : (position : ℕ) → Live two position → (two.slot position).token ≤ 18446744073709551615
two_tokens j live = elim (Bool-cases (j == 0)) [
  | inl e ↦ rw e (omega arith)
  | inr e ↦ rw e (omega arith)
]

claim_two : (db_queue_claim file two 3 30).2 ≡ some (1, 1)
unfolding db_queue_claim lease_now claim_found db_queue_scan_claimable scan_from claim_slot
    lease_find_slot lease_edit_slot lease_slot
claim_two = refl

db_queue_claim-Handed_example :
    Handed two
      (lease_now file two 3).1
      30
      (take_first (lease_now file two 3).1 30 (view two))
      (db_queue_claim file two 3 30)
db_queue_claim-Handed_example =
    db_queue_claim-Handed file two 3 30 file-Serving two-IsQueue two_tokens (omega arith)

ack-nack-renew-Answer_example :
    Answer e_lease two (ack 0 1 (view two)) (db_queue_ack file two 0 1)
    × Nacked two 0 (nack 0 1 (view two)) (db_queue_nack file two 0 1)
    × Renewed two 0 1
        (lease_now file two 3).1
        30
        (renew (lease_now file two 3).1 30 0 1 (view two))
        (db_queue_renew file two 0 1 3 30)
ack-nack-renew-Answer_example = ack-nack-renew-Answer file two 0 1 3 30 file-Serving two-IsQueue

db_queue_push-Pushed_example : Pushed two (9 ∷ []) (db_queue_push file two (9 ∷ []))
db_queue_push-Pushed_example =
    db_queue_push-Pushed file two (9 ∷ []) file-Serving.opened two-IsQueue (omega arith)
      (omega arith) (λ e. refl)

db_queue_pop-Popped_example :
    Popped two (waiting two) (db_queue_peek file two) (db_queue_pop file two)
db_queue_pop-Popped_example = db_queue_pop-Popped file two file-Serving.opened two-IsQueue

lease_summaries_valid-iff-Trusted_example : (lease_summaries_valid file two ≡ true) ↔ Trusted two
lease_summaries_valid-iff-Trusted_example =
    lease_summaries_valid-iff-Trusted file two refl (IsQueue-Named two two-IsQueue)
      (λ segment. omega arith)

one_late : (lease_now file one 3).1 < 10
unfolding lease_now
one_late = omega arith

one_none : claimable (lease_now file one 3).1 (one.slot 0) ≡ false
unfolding lease_now
one_none = refl

db_queue_push-hides_example :
    let r = db_queue_push file one (9 ∷ []) in
    (r.0 ≡ 0)
    × (claimable (lease_now file one 3).1 (r.1.slot 1) ≡ true)
    × (db_queue_claim file r.1 3 5 ≡ (e_notfound, r.1, none))
    × (lease_summaries_valid file r.1 ≡ false)
db_queue_push-hides_example =
    db_queue_push-hides file one (9 ∷ []) 3 5 file-Serving one-IsQueue (λ segment. omega arith)
      (λ j live. one_none) refl one_late (omega arith) (omega arith)

two_pushed : (db_queue_push file two (9 ∷ [])).0 ≡ 0
unfolding db_queue_push push_slot
two_pushed = refl

db_queue_ack-db_queue_push_example :
    let r = db_queue_ack file (db_queue_push file two (9 ∷ [])).1 0 1 in
    (r.0 ≡ 0) × (r.1.claim < r.1.head) × (cursor_valid file r.1 ≡ false)
db_queue_ack-db_queue_push_example =
    db_queue_ack-db_queue_push file two (9 ∷ []) 1 file-Serving two-IsQueue (omega arith)
      (λ e. refl) (omega arith) (omega arith) refl two_pushed

worker_loop-finishes_example :
    let r = worker_loop 1 file 20 5 one in
    IsQueue r × ((j : ℕ) → Live r j → (r.slot j).state ≡ finished)
worker_loop-finishes_example =
    worker_loop-finishes file one 20 5 1 file-Serving one-IsQueue (λ j. omega arith)
      (λ j live. refl) (omega arith) (omega arith) (omega arith) (omega arith)

two-IsCursor : IsCursor two
two-IsCursor = record {
  from_head = omega arith;
  to_tail = omega arith;
  past_taken = λ j live taken. elim (Bool-cases (j == 0)) [
    | inl e ↦ omega (arith, ==→eq j 0 e)
    | inr e ↦ absurd (taken (rw e refl))
  ];
}

lease_calls-Accepted_example :
    Accepted file (db_queue_claim file two 3 30).1
    × Accepted file (db_queue_ack file two 0 1).1
    × Accepted file (db_queue_nack file two 0 1).1
    × Accepted file (db_queue_renew file two 0 1 3 30).1
lease_calls-Accepted_example =
    lease_calls-Accepted file two 0 1 3 30 file-Serving two-IsQueue two-IsCursor
