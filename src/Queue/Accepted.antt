-- ===== src/Queue/Accepted.antt =====
-- Every call on a lease leaves a page whose cursor a commit accepts.
use cybou_db.Prelude.{ℕ, ◌+◌, ◌^◌, ◌<◌, ◌≡◌, inl, inr, refl, true, ◌==◌, ltb, Bool-cases}
use cybou_db.Leased.Tickets.{holds, finish, hand_back, extend}
use cybou_db.Queue.Page.{QueuePage, Context, max_word, lease_now, cursor_valid}
use cybou_db.Queue.Calls.{db_queue_claim, db_queue_ack, nack_slot, db_queue_nack, db_queue_renew}
use cybou_db.Queue.Valid.{Live, IsQueue}
use cybou_db.Queue.Settle.{lease_seg_refresh-settled}
use cybou_db.Queue.Answer.{
  Serving, held, lost, Shown-cases, lease_find_slot-Live, lease_find_slot-cases, lease_hold-held,
  lease_hold-lost, lease_now-Serving,
}
use cybou_db.Queue.Settled.{holds-claimed}
use cybou_db.Queue.Settle.{settled-IsQueue}
use cybou_db.Queue.Cursor.{
  IsCursor, cursor_valid-IsCursor, settled-IsCursor, lease_advance_head-IsCursor,
  db_queue_claim-IsCursor,
}

-- Whoever holds a message finds it below the cursor.
held-below :
    (q : QueuePage) (position token : ℕ)
    → IsCursor q
    → Live q position
    → holds token (q.slot position) ≡ true
    → position < q.claim
held-below q p token v live h = v.past_taken p live (λ f. cc (holds-claimed token (q.slot p) h, f))

db_queue_ack-IsCursor :
    (c : Context) (q : QueuePage) (position token : ℕ)
    → Serving c
    → IsQueue q
    → IsCursor q
    → IsCursor (db_queue_ack c q position token).1
unfolding db_queue_ack
db_queue_ack-IsCursor c q p token s v w = elim (Shown-cases q p token) [
  | held live h ↦
      rw
        (
          lease_hold-held c q p token s v live h,
          lease_seg_refresh-settled c q p (finish (q.slot p)) s.leases_on,
        )
        (lease_advance_head-IsCursor _ (settled-IsQueue q p (finish (q.slot p)) v (λ e. refl)) (
          settled-IsCursor q p (finish (q.slot p)) q.time_floor w
            (λ f. held-below q p token w live h)))
  | lost h ↦ rw (lease_hold-lost c q p token s v h) w
]

db_queue_nack-IsCursor :
    (c : Context) (q : QueuePage) (position token : ℕ)
    → Serving c
    → IsQueue q
    → IsCursor q
    → IsCursor (db_queue_nack c q position token).1
unfolding db_queue_nack nack_slot
db_queue_nack-IsCursor c q p token s v w = elim (Shown-cases q p token) [
  | held live h ↦ elim (Bool-cases ((q.slot p).token == max_word)) [
    | inl e ↦ rw (lease_find_slot-Live q p v live, e) w
    | inr e ↦
        rw
          (
            lease_find_slot-Live q p v live,
            e,
            lease_hold-held c q p token s v live h,
            lease_seg_refresh-settled c q p (hand_back (q.slot p)) s.leases_on,
          )
          (settled-IsCursor q p (hand_back (q.slot p)) q.time_floor w
            (λ f. held-below q p token w live h))
  ]
  | lost h ↦ elim (lease_find_slot-cases q p v) [
    | inl e ↦ rw e w
    | inr e ↦ elim (Bool-cases ((q.slot p).token == max_word)) [
      | inl g ↦ rw (e, g) w
      | inr g ↦ rw (e, g, lease_hold-lost c q p token s v h) w
    ]
  ]
]

db_queue_renew-IsCursor :
    (c : Context) (q : QueuePage) (position token now ms : ℕ)
    → Serving c
    → IsQueue q
    → IsCursor q
    → IsCursor (db_queue_renew c q position token now ms).1
unfolding db_queue_renew
db_queue_renew-IsCursor c q p token now ms s v w =
    let n = (lease_now c q now).1 in
    elim (Bool-cases (ms == 0)) [
      | inl z ↦ rw z w
      | inr z ↦ elim (Shown-cases q p token) [
        | held live h ↦ elim (Bool-cases (ltb (n + ms) (2 ^ 64))) [
          | inl e ↦
              rw
                (
                  z,
                  lease_now-Serving c q now s,
                  lease_hold-held c q p token s v live h,
                  e,
                  lease_seg_refresh-settled c q p (extend n ms (q.slot p)) s.leases_on,
                )
                (settled-IsCursor q p (extend n ms (q.slot p)) n w
                  (λ f. held-below q p token w live h))
          | inr e ↦ rw (z, lease_now-Serving c q now s, lease_hold-held c q p token s v live h, e) w
        ]
        | lost h ↦ rw (z, lease_now-Serving c q now s, lease_hold-lost c q p token s v h) w
      ]
    ]

-- The cursor is in place and the check of a commit accepts it.
abbrev pub Accepted : Context → QueuePage → Type 0
Accepted c q = IsCursor q × (cursor_valid c q ≡ true)

IsCursor-Accepted : (c : Context) (q : QueuePage) → Serving c → IsCursor q → Accepted c q
IsCursor-Accepted c q s v = (v, cursor_valid-IsCursor c q s.leases_on v)

-- In a file with queues and leases whose pages can be copied, over a valid queue whose claim cursor is between
-- the head and the tail and past every live message that is claimed or finished: db_queue_claim, db_queue_ack,
-- db_queue_nack and db_queue_renew, whatever they answer, leave a cursor of that kind, which cursor_valid accepts.
pub lease_calls-Accepted :
    (c : Context) (q : QueuePage) (position token now ms : ℕ)
    → Serving c
    → IsQueue q
    → IsCursor q
    → Accepted c (db_queue_claim c q now ms).1
      × Accepted c (db_queue_ack c q position token).1
      × Accepted c (db_queue_nack c q position token).1
      × Accepted c (db_queue_renew c q position token now ms).1
lease_calls-Accepted c q p token now ms s v w = (
  IsCursor-Accepted c _ s (db_queue_claim-IsCursor c q now ms s v w),
  IsCursor-Accepted c _ s (db_queue_ack-IsCursor c q p token s v w),
  IsCursor-Accepted c _ s (db_queue_nack-IsCursor c q p token s v w),
  IsCursor-Accepted c _ s (db_queue_renew-IsCursor c q p token now ms s v w),
)
