-- ===== src/Queue/Once.antt =====
-- src/core/queue.asm: a message that db_queue_claim has handed out is not handed out by the next claim while
-- its lease runs.
use cybou_db.Prelude.{ℕ, ◌+◌, ◌≤◌, ◌<◌, ◌≡◌, ◌≢◌, subst, some, true, leb→le, arith}
use cybou_db.Leased.Tickets.{Slot, claimable, lease}
use cybou_db.Queue.Page.{QueuePage, Context, lease_now}
use cybou_db.Queue.Calls.{db_queue_claim}
use cybou_db.Queue.Given.{Given, handed_out, db_queue_claim-Given}

claimable-lease :
    (now ms later : ℕ) (x : Slot) → claimable later (lease now ms x) ≡ true → now + ms ≤ later
claimable-lease now ms later x h = leb→le (now + ms) later h

Given-lease :
    {q q' : QueuePage} {now ms p u : ℕ}
    → Given q now ms (0, q', some (p, u))
    → q'.slot p ≡ lease now ms (q.slot p)
Given-lease (handed_out q' p u k lt g e t) = e

Given-claimable :
    {q q' : QueuePage} {now ms p u : ℕ}
    → Given q now ms (0, q', some (p, u))
    → claimable now (q.slot p) ≡ true
Given-claimable (handed_out q' p u k lt g e t) = g

-- Where db_queue_claim has handed out a message, and the next claim of the queue comes, by the clock of
-- the queue, before the lease of the first has ended and hands out a message too, it hands out another.
pub db_queue_claim-apart :
    (c c' : Context) (q q' q'' : QueuePage) (now ms now' ms' position token position' token' : ℕ)
    → db_queue_claim c q now ms ≡ (0, q', some (position, token))
    → db_queue_claim c' q' now' ms' ≡ (0, q'', some (position', token'))
    → (lease_now c' q' now').1 < (lease_now c q now).1 + ms
    → position' ≢ position
db_queue_claim-apart c c' q q' q'' now ms now' ms' p u p' u' e e' early f =
    let n = (lease_now c q now).1 in
    let n' = (lease_now c' q' now').1 in
    let first = subst (Given q n ms) e (db_queue_claim-Given c q now ms) in
    let second = subst (Given q' n' ms') e' (db_queue_claim-Given c' q' now' ms') in
    let again : claimable n' (q'.slot p) ≡ true =
      subst (λ (i : ℕ). claimable n' (q'.slot i) ≡ true) f (Given-claimable second) in
    let leased : claimable n' (lease n ms (q.slot p)) ≡ true =
      subst (λ (x : Slot). claimable n' x ≡ true) (Given-lease first) again in
    omega (arith, early, claimable-lease n ms n' (q.slot p) leased)
