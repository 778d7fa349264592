-- ===== src/Queue/Fence.antt =====
-- The fence of the leases of src/core/queue.asm: a token that has been overtaken, or whose message is
-- finished, changes nothing, whatever is called in between.
use cybou_db.Prelude.{ℕ, ◌<◌, ◌≡◌, ◌≢◌, ◌⊎◌}
use cybou_db.Leased.Tickets.{finished}
use cybou_db.Queue.Page.{QueuePage, Context}
use cybou_db.Queue.Calls.{db_queue_ack, db_queue_nack, db_queue_renew}
use cybou_db.Queue.Given.{Given}

-- The message at the position is in the queue no more, or finished, or has a higher token than this.
abbrev pub Stale : QueuePage → ℕ → ℕ → Type 0
Stale q position token =
    (position < q.tail)
    × ((position < q.head)
        ⊎ ((q.slot position).state ≡ finished)
        ⊎ (token < (q.slot position).token))

-- No call that shows the token answers 0, and none changes the queue.
pub record IsFenced (q : QueuePage) (position token : ℕ) : Type 0 where
  pub acked :
      (c : Context)
      → ((db_queue_ack c q position token).0 ≢ 0) × ((db_queue_ack c q position token).1 ≡ q)
  pub nacked :
      (c : Context)
      → ((db_queue_nack c q position token).0 ≢ 0) × ((db_queue_nack c q position token).1 ≡ q)
  pub renewed :
      (c : Context) (now ms : ℕ)
      → ((db_queue_renew c q position token now ms).0 ≢ 0)
        × ((db_queue_renew c q position token now ms).1 ≡ q)
