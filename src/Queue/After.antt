-- ===== src/Queue/After.antt =====
-- Calls of src/core/queue.asm one after another: none undoes what another did.
use cybou_db.Prelude.{
  ℕ, ◌+◌, ◌^◌, ◌≤◌, ◌<◌, ◌≡◌, inl, inr, true, ◌&&◌, ◌==◌, leb, ltb, arith, Bool-cases, Option-cases,
  ==→eq, List, [], ◌∷◌, length,
}
use cybou_db.Leased.Tickets.{Slot, queued, holds, finish, hand_back, extend}
use cybou_db.Queue.Page.{
  QueuePage, Context, max_word, q_max_segments, segment_of, entry_of, in_directory, lease_find_slot,
  lease_now, lease_seg_refresh, move_head,
}
use cybou_db.Queue.Calls.{
  Claim, with_slot, db_queue_claim, lease_hold, db_queue_ack, nack_slot, db_queue_nack,
  db_queue_renew, push_slot, first_for_push, db_queue_push, db_queue_pop,
}
use cybou_db.Queue.Kept.{
  IsKept, same, IsKept-trans, with_slot-IsKept, lease_seg_refresh-IsKept, lease_advance_head-IsKept,
  holds-finished,
}
use cybou_db.Queue.Given.{
  Hold, his, not_his, lease_hold-Hold, Given, nothing, handed_out, db_queue_claim-Given,
}

-- A call on the queue, in a file as it stands then.
pub data Call : Type 0 where
  claims : Context → (now ms : ℕ) → Call
  acks nacks : Context → (position token : ℕ) → Call
  renews : Context → (position token now ms : ℕ) → Call
  pushes : Context → List ℕ → Call
  pops : Context → Call

-- The queue after it, whatever it answers.
unfoldable pub after : Call → QueuePage → QueuePage
after (claims c now ms) q = (db_queue_claim c q now ms).1
after (acks c position token) q = (db_queue_ack c q position token).1
after (nacks c position token) q = (db_queue_nack c q position token).1
after (renews c position token now ms) q = (db_queue_renew c q position token now ms).1
after (pushes c message) q = (db_queue_push c q message).1
after (pops c) q = (db_queue_pop c q).1

unfoldable pub after_all : List Call → QueuePage → QueuePage
after_all [] q = q
after_all (x ∷ xs) q = after_all xs (after x q)

-- A held slot is changed to one with no lower token, and the summary of its segment read again.
held-IsKept :
    (c : Context) (q : QueuePage) (position token : ℕ) (x : Slot)
    → holds token (q.slot position) ≡ true
    → (q.slot position).token ≤ x.token
    → IsKept q (lease_seg_refresh c (with_slot q position x) position)
held-IsKept c q p token x h up =
    IsKept-trans (with_slot-IsKept q p x (λ l. (holds-finished token (q.slot p) h, up)))
      (lease_seg_refresh-IsKept c (with_slot q p x) p)

claim-IsKept : (q : QueuePage) (now ms : ℕ) (r : Claim) → Given q now ms r → IsKept q r.1
claim-IsKept q n ms _ (nothing status q' k) = k
claim-IsKept q n ms _ (handed_out q' p u k lt g e t) = k

-- Where the answer of `lease_hold` is 0, the call has been made by the holder.
pub holder :
    {q : QueuePage} {position token h : ℕ}
    → Hold q position token h
    → (h == 0) ≡ true
    → (q.head ≤ position) × (position < q.tail) × (holds token (q.slot position) ≡ true)
holder (his le lt e h) z = (le, lt, e)
holder (not_his h ne) z = absurd (ne (==→eq h 0 z))

ack-IsKept : (c : Context) (q : QueuePage) (p token : ℕ) → IsKept q (db_queue_ack c q p token).1
unfolding db_queue_ack
ack-IsKept c q p token = elim (Bool-cases (lease_hold c q p token == 0)) [
  | inl e ↦
      let (le, lt, h) = holder (lease_hold-Hold c q p token) e in
      rw e (
        IsKept-trans (held-IsKept c q p token (finish (q.slot p)) h (omega arith))
          (lease_advance_head-IsKept _))
  | inr e ↦ rw e (same q)
]

nack-IsKept : (c : Context) (q : QueuePage) (p token : ℕ) → IsKept q (db_queue_nack c q p token).1
unfolding db_queue_nack nack_slot
nack-IsKept c q p token = elim (Option-cases (lease_find_slot q p)) [
  | inl f ↦ rw f (same q)
  | inr (x, f) ↦ elim (Bool-cases (x.token == max_word)) [
    | inl g ↦ rw (f, g) (same q)
    | inr g ↦ elim (Bool-cases (lease_hold c q p token == 0)) [
      | inl e ↦
          let (le, lt, h) = holder (lease_hold-Hold c q p token) e in
          rw (f, g, e) (held-IsKept c q p token (hand_back (q.slot p)) h (omega arith))
      | inr e ↦ rw (f, g, e) (same q)
    ]
  ]
]

renew-IsKept :
    (c : Context) (q : QueuePage) (p token now ms : ℕ)
    → IsKept q (db_queue_renew c q p token now ms).1
unfolding db_queue_renew
renew-IsKept c q p token now ms =
    let n = (lease_now c q now).1 in
    elim (Bool-cases (ms == 0)) [
      | inl a ↦ rw a (same q)
      | inr a ↦ elim (Bool-cases ((lease_now c q now).0 == 0)) [
        | inr b ↦ rw (a, b) (same q)
        | inl b ↦ elim (Bool-cases (lease_hold c q p token == 0)) [
          | inr d ↦ rw (a, b, d) (same q)
          | inl d ↦ elim (Bool-cases (ltb (n + ms) (2 ^ 64))) [
            | inr e ↦ rw (a, b, d, e) (same q)
            | inl e ↦
                let (le, lt, h) = holder (lease_hold-Hold c q p token) d in
                let k = held-IsKept c q p token (extend n ms (q.slot p)) h (omega arith) in
                rw (a, b, d, e)
                  (record {
                    head_on = k.head_on;
                    tail_on = k.tail_on;
                    ended = k.ended;
                    raised = k.raised;
                  })
          ]
        ]
      ]
    ]

push_slot-IsKept :
    (c : Context) (q : QueuePage) (first : ℕ) (m : List ℕ) → IsKept q (push_slot c q first m).1
unfolding push_slot
push_slot-IsKept c q first m = elim (Bool-cases (c.page_copied == 0)) [
  | inr a ↦ rw a (same q)
  | inl a ↦ elim (Bool-cases (c.segment_copied == 0)) [
    | inr b ↦ rw (a, b) (same q)
    | inl b ↦ elim (Bool-cases (c.message_copied == 0)) [
      | inr d ↦ rw (a, b, d) (same q)
      | inl d ↦
          let k = with_slot-IsKept q q.tail (queued m) (λ lt. absurd (omega arith)) in
          rw (a, b, d)
            (record {
              head_on = omega arith;
              tail_on = omega arith;
              ended = k.ended;
              raised = k.raised;
            })
    ]
  ]
]

push-IsKept : (c : Context) (q : QueuePage) (m : List ℕ) → IsKept q (db_queue_push c q m).1
unfolding db_queue_push
push-IsKept c q m =
    let entry = entry_of (first_for_push q) (segment_of q.tail) in
    elim (Bool-cases c.queues) [
      | inr a ↦ rw a (same q)
      | inl a ↦ elim (Bool-cases (leb (2 ^ 32) (length m))) [
        | inl b ↦ rw (a, b) (same q)
        | inr b ↦ elim (Bool-cases (leb q.segments entry && leb q_max_segments entry)) [
          | inl d ↦ rw (a, b, d) (same q)
          | inr d ↦ rw (a, b, d) (push_slot-IsKept _ q (first_for_push q) m)
        ]
      ]
    ]

pop-IsKept : (c : Context) (q : QueuePage) → IsKept q (db_queue_pop c q).1
unfolding db_queue_pop move_head
pop-IsKept c q = elim (Bool-cases c.queues) [
  | inr a ↦ rw a (same q)
  | inl a ↦ elim (Bool-cases (q.head == q.tail)) [
    | inl b ↦ rw (a, b) (same q)
    | inr b ↦ elim (Bool-cases (in_directory q q.head)) [
      | inr d ↦ rw (a, b, d) (same q)
      | inl d ↦ elim (Bool-cases (c.message_copied == 0)) [
        | inr e ↦ rw (a, b, d, e) (same q)
        | inl e ↦ elim (Bool-cases (c.page_copied == 0)) [
          | inr f ↦ rw (a, b, d, e, f) (same q)
          | inl f ↦
              rw (a, b, d, e, f)
                (record {
                  head_on = omega arith;
                  tail_on = omega arith;
                  ended = λ j lt s. s;
                  raised = λ j lt. omega arith;
                })
        ]
      ]
    ]
  ]
]

after-IsKept : (x : Call) (q : QueuePage) → IsKept q (after x q)
unfolding after
after-IsKept (claims c now ms) q =
    claim-IsKept q (lease_now c q now).1 ms _ (db_queue_claim-Given c q now ms)
after-IsKept (acks c p token) q = ack-IsKept c q p token
after-IsKept (nacks c p token) q = nack-IsKept c q p token
after-IsKept (renews c p token now ms) q = renew-IsKept c q p token now ms
after-IsKept (pushes c m) q = push-IsKept c q m
after-IsKept (pops c) q = pop-IsKept c q

pub after_all-IsKept : (xs : List Call) (q : QueuePage) → IsKept q (after_all xs q)
unfolding after_all
after_all-IsKept [] q = same q
after_all-IsKept (x ∷ xs) q = IsKept-trans (after-IsKept x q) (after_all-IsKept xs (after x q))
