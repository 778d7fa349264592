-- ===== src/Queue/Stale.antt =====
-- What a push leaves behind in a queue with leases: a summary that it does not lower, and a claim cursor
-- that it takes back to the head.
use cybou_db.Prelude.{
  ℕ, suc, ◌+◌, ◌^◌, ◌≤◌, ◌<◌, ◌≡◌, inl, inr, refl, sym, subst, none, true, false, arith, ne→==,
  eq→==, List, length, lt→leb,
}
use cybou_db.Leased.Tickets.{Slot, claimable, holds, finish}
use cybou_db.Queue.Page.{
  QueuePage, Context, e_notfound, queue_seg_slots, max_word, segment_of, in_directory, lease_now,
  lease_summaries_valid, cursor_valid, lease_advance_head,
}
use cybou_db.Queue.Calls.{db_queue_push, db_queue_claim, db_queue_ack}
use cybou_db.Queue.Valid.{Live, IsQueue, in_directory-Live, not_true}
use cybou_db.Queue.Ready.{Named, lease_summaries_valid-iff-Trusted}
use cybou_db.Queue.Settle.{settled, lease_seg_refresh-settled}
use cybou_db.Queue.Advance.{lease_advance_head-past}
use cybou_db.Queue.Answer.{Serving, lease_hold-held}
use cybou_db.Queue.Ends.{pushed, pushed-IsQueue, pushed-based, pushed-covered}
use cybou_db.Queue.Hidden.{IsHidden, db_queue_claim-hidden}
use cybou_db.Queue.Fifo.{db_queue_push-cases}

pushed-IsHidden :
    (q : QueuePage) (m : List ℕ) (now : ℕ)
    → ((j : ℕ) → Live q j → claimable now (q.slot j) ≡ false)
    → in_directory q q.tail ≡ true
    → now < q.ready_at (segment_of q.tail)
    → IsHidden (pushed q m) q.tail now
pushed-IsHidden q m now h d late = record {
  ends = refl;
  none_before = λ j a b. rw (ne→== j q.tail (λ e. omega (arith, e, b))) (h j (a, b));
  ahead = rw d late;
}

pushed-Named : (q : QueuePage) (m : List ℕ) → IsQueue q → Named (pushed q m)
pushed-Named q m v j (a, b) =
    let f = pushed-based q m v in
    let c = pushed-covered q m v in (omega (arith, f), omega (arith, f, c))

-- The summaries are refused, since the message that the tail's summary hides can be claimed.
pushed-refused :
    (c : Context) (q : QueuePage) (m : List ℕ) (now : ℕ)
    → Serving c
    → IsQueue q
    → ((segment : ℕ) → q.ready_at segment ≤ max_word)
    → in_directory q q.tail ≡ true
    → now < q.ready_at (segment_of q.tail)
    → lease_summaries_valid c (pushed q m) ≡ false
pushed-refused c q m now s v words d late = not_true _ (λ e.
    let words' : (segment : ℕ) → (pushed q m).ready_at segment ≤ max_word = λ i. rw d (words i) in
    let t =
      (lease_summaries_valid-iff-Trusted c (pushed q m) s.leases_on (pushed-Named q m v) words').0
        e in
    let low = t q.tail now (v.ordered, omega arith) (rw (eq→== q.tail q.tail refl) refl) in
    let same : (pushed q m).ready_at (segment_of q.tail) ≡ q.ready_at (segment_of q.tail) =
      rw d refl in
    omega (arith, late, low, same))

lease_now-pushed :
    (c : Context) (q : QueuePage) (m : List ℕ) (now : ℕ)
    → lease_now c (pushed q m) now ≡ lease_now c q now
unfolding lease_now
lease_now-pushed c q m now = refl

-- In a file with queues and leases whose pages can be copied, over a valid queue whose summaries are 64-bit
-- words and which has nothing to claim at a time, where the directory has the tail's segment and its summary
-- is ahead of that time: pushing a message shorter than 4 GiB answers 0, the message can be claimed at that time, and yet
-- db_queue_claim answers CybouDB_E_NOTFOUND to a lease of some time, and lease_summaries_valid refuses the queue.
pub db_queue_push-hides :
    (c : Context) (q : QueuePage) (message : List ℕ) (now ms : ℕ)
    → Serving c
    → IsQueue q
    → ((segment : ℕ) → q.ready_at segment ≤ max_word)
    → ((j : ℕ) → Live q j → claimable (lease_now c q now).1 (q.slot j) ≡ false)
    → in_directory q q.tail ≡ true
    → (lease_now c q now).1 < q.ready_at (segment_of q.tail)
    → length message < 2 ^ 32
    → 0 < ms
    → let r = db_queue_push c q message in
      (r.0 ≡ 0)
      × (claimable (lease_now c q now).1 (r.1.slot q.tail) ≡ true)
      × (db_queue_claim c r.1 now ms ≡ (e_notfound, r.1, none))
      × (lease_summaries_valid c r.1 ≡ false)
db_queue_push-hides c q m now ms s v words h d late short some_time =
    elim (db_queue_push-cases c q m s.opened v short) [
      | inl (lacks, wide, e) ↦ cc (d, lacks)
      | inr e ↦
          let hidden = pushed-IsHidden q m (lease_now c q now).1 h d late in
          rw e (
            refl,
            rw (eq→== q.tail q.tail refl) refl,
            db_queue_claim-hidden c (pushed q m) q.tail now ms s some_time
                (rw (lease_now-pushed c q m now) hidden),
            pushed-refused c q m (lease_now c q now).1 s v words d late,
          )
    ]

cursor_valid-behind :
    (c : Context) (q : QueuePage) → c.leases ≡ true → q.claim < q.head → cursor_valid c q ≡ false
unfolding cursor_valid
cursor_valid-behind c q l lt = rw (l, lt→leb q.head q.claim lt) refl

db_queue_ack-pushed :
    (c : Context) (q : QueuePage) (m : List ℕ) (token : ℕ)
    → Serving c
    → IsQueue (pushed q m)
    → q.head < q.tail
    → holds token (q.slot q.head) ≡ true
    → let r = db_queue_ack c (pushed q m) q.head token in
      (r.0 ≡ 0) × (r.1.claim < r.1.head) × (cursor_valid c r.1 ≡ false)
unfolding db_queue_ack
db_queue_ack-pushed c q m token s v lt h =
    let x = pushed q m in
    let same : x.slot q.head ≡ q.slot q.head =
      rw (ne→== q.head q.tail (λ e. omega (arith, e, lt))) refl in
    let live : Live x q.head = (omega arith, omega (arith, lt)) in
    let h' = subst (λ (y : Slot). holds token y ≡ true) (sym same) h in
    let y = settled x q.head (finish (x.slot q.head)) in
    let (past, kept) =
      lease_advance_head-past y (omega (arith, lt)) (in_directory-Live x q.head v live)
        (rw (eq→== q.head q.head refl) refl) in
    let behind : (lease_advance_head y).claim < (lease_advance_head y).head =
      omega (arith, past, kept) in
    rw
      (
        lease_hold-held c x q.head token s v live h',
        lease_seg_refresh-settled c x q.head (finish (x.slot q.head)) s.leases_on,
      )
      (refl, behind, cursor_valid-behind c (lease_advance_head y) s.leases_on behind)

-- In a file with queues and leases whose pages can be copied, over a valid queue with room left in 64 bits
-- whose head's message is held under a token, where the summary of the tail's segment is 0 if the directory
-- has that segment, and for a push that answers 0 to a message shorter than 4 GiB: acknowledging the head's message
-- after the push answers 0, and leaves the claim cursor behind the head, which cursor_valid refuses.
pub db_queue_ack-db_queue_push :
    (c : Context) (q : QueuePage) (message : List ℕ) (token : ℕ)
    → Serving c
    → IsQueue q
    → suc q.tail + queue_seg_slots < 2 ^ 64
    → (in_directory q q.tail ≡ true → q.ready_at (segment_of q.tail) ≡ 0)
    → length message < 2 ^ 32
    → q.head < q.tail
    → holds token (q.slot q.head) ≡ true
    → (db_queue_push c q message).0 ≡ 0
    → let r = db_queue_ack c (db_queue_push c q message).1 q.head token in
      (r.0 ≡ 0) × (r.1.claim < r.1.head) × (cursor_valid c r.1 ≡ false)
db_queue_ack-db_queue_push c q m token s v room ready short lt h answered =
    elim (db_queue_push-cases c q m s.opened v short) [
      | inl (lacks, wide, e) ↦ cc (e, answered)
      | inr e ↦ rw e (db_queue_ack-pushed c q m token s (pushed-IsQueue q m v room ready) lt h)
    ]
