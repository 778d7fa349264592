-- ===== src/Queue/Clock.antt =====
-- The clock of a queue: an acknowledgement leaves it, and a time that is not behind it is used as it is.
use cybou_db.Prelude.{ℕ, ◌-◌, ◌≤◌, ◌≡◌, inl, inr, refl, ◌∙◌, ◌==◌, Bool-cases, le→leb}
use cybou_db.Leased.Tickets.{finish}
use cybou_db.Queue.Page.{
  QueuePage, Context, lease_now, lease_seg_refresh, run_end, move_head, lease_advance_head,
}
use cybou_db.Queue.Calls.{with_slot, lease_hold, db_queue_ack}
use cybou_db.Queue.Answer.{Serving}

lease_advance_head-time_floor : (q : QueuePage) → (lease_advance_head q).time_floor ≡ q.time_floor
unfolding lease_advance_head move_head
lease_advance_head-time_floor q = elim (Bool-cases (run_end (q.tail - q.head) q q.head == q.head)) [
  | inl e ↦ rw e refl
  | inr e ↦ rw e refl
]

lease_seg_refresh-time_floor :
    (c : Context) (q : QueuePage) (position : ℕ)
    → (lease_seg_refresh c q position).time_floor ≡ q.time_floor
unfolding lease_seg_refresh
lease_seg_refresh-time_floor c q p = elim (Bool-cases c.leases) [
  | inl e ↦ rw e refl
  | inr e ↦ rw e refl
]

pub db_queue_ack-time_floor :
    (c : Context) (q : QueuePage) (position token : ℕ)
    → (db_queue_ack c q position token).1.time_floor ≡ q.time_floor
unfolding db_queue_ack
db_queue_ack-time_floor c q p token =
    let w = with_slot q p (finish (q.slot p)) in
    elim (Bool-cases (lease_hold c q p token == 0)) [
      | inl e ↦ rw e (
          lease_advance_head-time_floor (lease_seg_refresh c w p)
          ∙ lease_seg_refresh-time_floor c w p)
      | inr e ↦ rw e refl
    ]

pub lease_now-in_time :
    (c : Context) (q : QueuePage) (now : ℕ)
    → Serving c
    → q.time_floor ≤ now
    → (lease_now c q now).1 ≡ now
unfolding lease_now
lease_now-in_time c q now s h = rw (s.leases_on, le→leb q.time_floor now h) refl
