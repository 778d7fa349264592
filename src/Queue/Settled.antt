-- ===== src/Queue/Settled.antt =====
-- ACK, NACK and RENEW: the calls of src/core/queue.asm do to the list of the messages what
-- include/cyboudb.h says.
use cybou_db.Prelude.{
  ℕ, ◌+◌, ◌^◌, ◌≤◌, ◌<◌, ◌≡◌, ◌≢◌, inl, inr, refl, Option, true, false, ◌==◌, ltb, arith,
  Bool-cases, ==→eq, ==→ne, ne→==, and_true, List, lt→ltb, ltb→lt, ltb→le,
}
use cybou_db.Leased.Tickets.{
  Held, free, claimed, finished, Slot, is_claimed, finish, hand_back, extend, holds, change, ack,
  nack, renew,
}
use cybou_db.Queue.Page.{QueuePage, Context, e_lease, e_value, max_word, lease_now}
use cybou_db.Queue.Calls.{db_queue_ack, nack_slot, db_queue_nack, db_queue_renew}
use cybou_db.Queue.View.{view}
use cybou_db.Queue.Valid.{Live, IsQueue}
use cybou_db.Queue.Settle.{settled, lease_seg_refresh-settled, settled-IsQueue}
use cybou_db.Queue.Advance.{lease_advance_head-IsQueue, view-lease_advance_head}
use cybou_db.Queue.Answer.{
  Serving, Answer, refused, done, held, lost, Shown-cases, lease_find_slot-Live,
  lease_find_slot-cases, lease_find_slot-none, in_range-cases, lease_now-Serving, lease_hold-held,
  lease_hold-lost, change-view, change-view-none,
}

-- The claim cursor and the clock play no part in what makes a queue valid.
pub marked-IsQueue :
    (q : QueuePage) (cursor now : ℕ)
    → IsQueue q
    → IsQueue (record q { claim = cursor; time_floor = now })
marked-IsQueue q cursor now v = record {
  ordered = v.ordered;
  bounded = v.bounded;
  based = v.based;
  covered = v.covered;
  drained = v.drained;
  trusted = v.trusted;
  cleared = v.cleared;
}

-- What the three share: the slot is changed and the summary of its segment read again.
change-Answer :
    (g : Slot → Slot) (q : QueuePage) (position token : ℕ)
    → Live q position
    → holds token (q.slot position) ≡ true
    → (q' : QueuePage) → view q' ≡ view (settled q position (g (q.slot position)))
    → IsQueue q'
    → Answer e_lease q (change g position token (view q)) (0, q')
change-Answer g q p token live h q' e v =
    rw (change-view g q p token live h) (done (view (settled q p (g (q.slot p)))) q' e v)

refused-Answer :
    (g : Slot → Slot) (q : QueuePage) (position token : ℕ)
    → (Live q position → holds token (q.slot position) ≡ false)
    → Answer e_lease q (change g position token (view q)) (e_lease, q)
refused-Answer g q p token h = rw (change-view-none g q p token h) refused

is_claimed-eq : (s : Held) → is_claimed s ≡ true → s ≡ claimed
is_claimed-eq free e = cc e
is_claimed-eq claimed e = refl
is_claimed-eq finished e = cc e

pub holds-claimed : (token : ℕ) (x : Slot) → holds token x ≡ true → x.state ≡ claimed
holds-claimed token x h =
    is_claimed-eq x.state (and_true (is_claimed x.state) (x.token == token) h).0

-- ACK
pub db_queue_ack-Answer :
    (c : Context) (q : QueuePage) (position token : ℕ)
    → Serving c
    → IsQueue q
    → Answer e_lease q (ack position token (view q)) (db_queue_ack c q position token)
unfolding db_queue_ack
db_queue_ack-Answer c q p token s v = elim (Shown-cases q p token) [
  | held live h ↦
      let w = settled-IsQueue q p (finish (q.slot p)) v (λ e. refl) in
      rw
        (
          lease_hold-held c q p token s v live h,
          lease_seg_refresh-settled c q p (finish (q.slot p)) s.leases_on,
        )
        (change-Answer finish q p token live h _ (view-lease_advance_head _ w)
          (lease_advance_head-IsQueue _ w))
  | lost h ↦ rw (lease_hold-lost c q p token s v h) (refused-Answer finish q p token h)
]

-- NACK
pub db_queue_nack-Answer :
    (c : Context) (q : QueuePage) (position token : ℕ)
    → Serving c
    → IsQueue q
    → (q.slot position).token ≢ max_word
    → Answer e_lease q (nack position token (view q)) (db_queue_nack c q position token)
unfolding db_queue_nack nack_slot
db_queue_nack-Answer c q p token s v fits =
    let more = ne→== (q.slot p).token max_word fits in
    elim (Shown-cases q p token) [
      | held live h ↦
          let w = settled-IsQueue q p (hand_back (q.slot p)) v (λ e. refl) in
          rw
            (
              lease_find_slot-Live q p v live,
              more,
              lease_hold-held c q p token s v live h,
              lease_seg_refresh-settled c q p (hand_back (q.slot p)) s.leases_on,
            )
            (change-Answer hand_back q p token live h _ refl w)
      | lost h ↦ elim (lease_find_slot-cases q p v) [
        | inl e ↦ rw e (refused-Answer hand_back q p token h)
        | inr e ↦
            rw (e, more, lease_hold-lost c q p token s v h) (refused-Answer hand_back q p token h)
      ]
    ]

-- RENEW
pub db_queue_renew-Answer :
    (c : Context) (q : QueuePage) (position token now ms : ℕ)
    → Serving c
    → IsQueue q
    → 0 < ms
    → (lease_now c q now).1 + ms < 2 ^ 64
    → Answer e_lease q
        (renew (lease_now c q now).1 ms position token (view q))
        (db_queue_renew c q position token now ms)
unfolding db_queue_renew
db_queue_renew-Answer c q p token now ms s v some_time fits =
    let n = (lease_now c q now).1 in
    let lasting = ne→== ms 0 (λ e. omega (arith, e, some_time)) in
    elim (Shown-cases q p token) [
      | held live h ↦
          let w =
            settled-IsQueue q p (extend n ms (q.slot p)) v
              (λ e. cc (e, holds-claimed token (q.slot p) h)) in
          rw
            (
              lasting,
              lease_now-Serving c q now s,
              lease_hold-held c q p token s v live h,
              lt→ltb (n + ms) (2 ^ 64) fits,
              lease_seg_refresh-settled c q p (extend n ms (q.slot p)) s.leases_on,
            )
            (change-Answer (extend n ms) q p token live h _ refl (marked-IsQueue _ q.claim n w))
      | lost h ↦
          rw (lasting, lease_now-Serving c q now s, lease_hold-lost c q p token s v h)
            (refused-Answer (extend n ms) q p token h)
    ]

-- What a NACK answers: the last token of a message in the queue cannot be raised, whoever asks.
pub data Nacked (q : QueuePage) (position : ℕ) (o : Option (List Slot))
    : ℕ × QueuePage → Type 0 where
  worn_out : Live q position → (q.slot position).token ≡ max_word → Nacked q position o (e_value, q)
  raisable :
      (r : ℕ × QueuePage)
      → (Live q position → (q.slot position).token ≢ max_word)
      → Answer e_lease q o r
      → Nacked q position o r

-- What a RENEW answers at a time: a lease of no time, or one of a holder that would end past 64 bits.
pub data Renewed (q : QueuePage) (position token now ms : ℕ) (o : Option (List Slot))
    : ℕ × QueuePage → Type 0 where
  no_time : ms ≡ 0 → Renewed q position token now ms o (e_value, q)
  past_end :
      0 < ms
      → 2 ^ 64 ≤ now + ms
      → Live q position
      → holds token (q.slot position) ≡ true
      → Renewed q position token now ms o (e_value, q)
  not_held :
      0 < ms
      → 2 ^ 64 ≤ now + ms
      → (Live q position → holds token (q.slot position) ≡ false)
      → Renewed q position token now ms o (e_lease, q)
  in_time :
      (r : ℕ × QueuePage)
      → 0 < ms
      → now + ms < 2 ^ 64
      → Answer e_lease q o r
      → Renewed q position token now ms o r

db_queue_nack-Nacked :
    (c : Context) (q : QueuePage) (position token : ℕ)
    → Serving c
    → IsQueue q
    → Nacked q position (nack position token (view q)) (db_queue_nack c q position token)
unfolding db_queue_nack nack_slot
db_queue_nack-Nacked c q p token s v = elim (Bool-cases ((q.slot p).token == max_word)) [
  | inl e ↦ elim (in_range-cases q p) [
    | inl live ↦
        rw (lease_find_slot-Live q p v live, e) (worn_out live (==→eq (q.slot p).token max_word e))
    | inr dead ↦ rw (lease_find_slot-none q p dead) (
        raisable _ (λ live. absurd (dead live))
          (refused-Answer hand_back q p token (λ live. absurd (dead live))))
  ]
  | inr e ↦
      let more = ==→ne (q.slot p).token max_word e in
      raisable _ (λ live. more) (db_queue_nack-Answer c q p token s v more)
]

db_queue_renew-Renewed :
    (c : Context) (q : QueuePage) (position token now ms : ℕ)
    → Serving c
    → IsQueue q
    → Renewed q position token
        (lease_now c q now).1
        ms
        (renew (lease_now c q now).1 ms position token (view q))
        (db_queue_renew c q position token now ms)
unfolding db_queue_renew
db_queue_renew-Renewed c q p token now ms s v =
    let n = (lease_now c q now).1 in
    elim (Bool-cases (ms == 0)) [
      | inl z ↦ rw z (no_time (==→eq ms 0 z))
      | inr z ↦
          let some_time : 0 < ms = omega (arith, ==→ne ms 0 z) in
          elim (Bool-cases (ltb (n + ms) (2 ^ 64))) [
            | inl e ↦
                let fits = ltb→lt (n + ms) (2 ^ 64) e in
                in_time _ some_time fits
                  (db_queue_renew-Answer c q p token now ms s v some_time fits)
            | inr e ↦
                let late = ltb→le (n + ms) (2 ^ 64) e in
                elim (Shown-cases q p token) [
                  | held live h ↦
                      rw (z, lease_now-Serving c q now s, lease_hold-held c q p token s v live h, e)
                        (past_end some_time late live h)
                  | lost h ↦
                      rw (z, lease_now-Serving c q now s, lease_hold-lost c q p token s v h)
                        (not_held some_time late h)
                ]
          ]
    ]

-- In a file with queues and leases whose pages can be copied, over a valid queue, for the one who shows
-- a token at a position. db_queue_ack answers as ack on the list of the messages does. So does db_queue_nack as
-- nack, unless a message is in the queue there with the last token of 64 bits: then it answers CybouDB_E_VALUE
-- and keeps the queue. So does db_queue_renew as renew where a lease of some time ends within 64 bits; it answers
-- CybouDB_E_VALUE and keeps the queue for no time, and for a holder whose lease would end past them, and
-- CybouDB_E_LEASE for one who does not hold the message. Where the list refuses, the call answers CybouDB_E_LEASE
-- and keeps the queue; where it changes, the call answers 0 and its queue is valid and holds the changed list.
pub ack-nack-renew-Answer :
    (c : Context) (q : QueuePage) (position token now ms : ℕ)
    → Serving c
    → IsQueue q
    → Answer e_lease q (ack position token (view q)) (db_queue_ack c q position token)
      × Nacked q position (nack position token (view q)) (db_queue_nack c q position token)
      × Renewed q position token
          (lease_now c q now).1
          ms
          (renew (lease_now c q now).1 ms position token (view q))
          (db_queue_renew c q position token now ms)
ack-nack-renew-Answer c q p token now ms s v = (
  db_queue_ack-Answer c q p token s v,
  db_queue_nack-Nacked c q p token s v,
  db_queue_renew-Renewed c q p token now ms s v,
)
