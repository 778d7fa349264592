-- ===== src/Queue/Calls.antt =====
-- The calls of src/core/queue.asm on a queue: the status, the queue afterwards, and what is handed out.
use cybou_db.Prelude.{
  ℕ, suc, ◌+◌, ◌^◌, Option, none, some, not, ◌&&◌, if◌then◌else◌, ◌==◌, leb, ltb, update, List,
  length,
}
use cybou_db.Leased.Tickets.{Slot, is_claimed, queued, lease, finish, hand_back, extend}
use cybou_db.Queue.Page.{
  QueuePage, Context, e_full, e_state, e_notfound, e_value, e_lease, q_max_segments, max_word,
  segment_of, entry_of, in_directory, lease_find_slot, lease_edit_slot, lease_now,
  db_queue_scan_claimable, lease_seg_refresh, move_head, lease_advance_head,
}

abbrev pub with_slot : QueuePage → ℕ → Slot → QueuePage
with_slot q position x = record q { slot = update q.slot position x }

-- The status, the queue, and the position and the token, which are written on success only.
abbrev pub Claim : Type 0
Claim = ℕ × QueuePage × Option (ℕ × ℕ)

-- The token has been raised before the deadline is added up.
unfoldable pub lease_slot : Context → QueuePage → ℕ → ℕ → ℕ → Slot → Claim
lease_slot c q now ms position x =
    if ltb (now + ms) (2 ^ 64)
    then (
      0,
      record (lease_seg_refresh c (with_slot q position (lease now ms x)) position) {
        claim = if leb (suc position) q.claim then q.claim else suc position;
        time_floor = now;
      },
      some (position, suc x.token),
    )
    else (e_value, with_slot q position (record x { token = suc x.token }), none)

unfoldable pub claim_slot : Context → QueuePage → ℕ → ℕ → ℕ → Option Slot → Claim
claim_slot c q now ms position none = (e_value, q, none)
claim_slot c q now ms position (some x) =
    if x.token == max_word
    then (e_value, q, none)
    else if lease_edit_slot c q position == 0
    then lease_slot c q now ms position x
    else (lease_edit_slot c q position, q, none)

unfoldable pub claim_found : Context → QueuePage → ℕ → ℕ → Option ℕ → Claim
claim_found c q now ms none = (e_notfound, q, none)
claim_found c q now ms (some position) = claim_slot c q now ms position (lease_find_slot q position)

unfoldable pub db_queue_claim : Context → QueuePage → ℕ → ℕ → Claim
db_queue_claim c q now ms =
    let n = lease_now c q now in
    if ms == 0
    then (e_value, q, none)
    else if n.0 == 0
    then claim_found c q n.1 ms (db_queue_scan_claimable c q n.1)
    else (n.0, q, none)

-- `lease_hold`: what it answers to one who shows a token.
unfoldable pub lease_hold : Context → QueuePage → ℕ → ℕ → ℕ
lease_hold c q position token =
    if c.leases
    then elim (lease_find_slot q position) [
      | none ↦ e_lease
      | some x ↦
          if is_claimed x.state && (x.token == token) then lease_edit_slot c q position else e_lease
    ]
    else e_state

unfoldable pub db_queue_ack : Context → QueuePage → ℕ → ℕ → ℕ × QueuePage
db_queue_ack c q position token =
    let h = lease_hold c q position token in
    if h == 0
    then (
      0,
      lease_advance_head
          (lease_seg_refresh c (with_slot q position (finish (q.slot position))) position),
    )
    else (h, q)

unfoldable pub nack_slot : Context → QueuePage → ℕ → ℕ → Option Slot → ℕ × QueuePage
nack_slot c q position token none = (e_lease, q)
nack_slot c q position token (some x) =
    let h = lease_hold c q position token in
    if x.token == max_word
    then (e_value, q)
    else if h == 0
    then (0, lease_seg_refresh c (with_slot q position (hand_back (q.slot position))) position)
    else (h, q)

unfoldable pub db_queue_nack : Context → QueuePage → ℕ → ℕ → ℕ × QueuePage
db_queue_nack c q position token = nack_slot c q position token (lease_find_slot q position)

unfoldable pub db_queue_renew : Context → QueuePage → ℕ → ℕ → ℕ → ℕ → ℕ × QueuePage
db_queue_renew c q position token now ms =
    let n = lease_now c q now in
    let h = lease_hold c q position token in
    if ms == 0
    then (e_value, q)
    else if not (n.0 == 0)
    then (n.0, q)
    else if not (h == 0)
    then (h, q)
    else if ltb (n.1 + ms) (2 ^ 64)
    then (
      0,
      record (lease_seg_refresh c (with_slot q position (extend n.1 ms (q.slot position)))
          position) { time_floor = n.1 },
    )
    else (e_value, q)

-- `queue_push_common` for a queue that has a segment for the tail, or room for one more.
unfoldable pub push_slot : Context → QueuePage → ℕ → List ℕ → ℕ × QueuePage
push_slot c q first message =
    let segment = segment_of q.tail in
    let old = ltb (entry_of first segment) q.segments in
    if not (c.page_copied == 0)
    then (c.page_copied, q)
    else if not (c.segment_copied == 0)
    then (c.segment_copied, q)
    else if not (c.message_copied == 0)
    then (c.message_copied, q)
    else (
      0,
      record q {
        slot = update q.slot q.tail (queued message);
        ready_at = if old then q.ready_at else update q.ready_at segment 0;
        claim = q.head;
        tail = suc q.tail;
        segments = if old then q.segments else suc q.segments;
        first_seg = first;
      },
    )

-- An empty queue starts where its tail is.
abbrev pub first_for_push : QueuePage → ℕ
first_for_push q = if q.segments == 0 then segment_of q.tail else q.first_seg

unfoldable pub db_queue_push : Context → QueuePage → List ℕ → ℕ × QueuePage
db_queue_push c q message =
    let entry = entry_of (first_for_push q) (segment_of q.tail) in
    if not c.queues
    then (e_state, q)
    else if leb (2 ^ 32) (length message)
    then (e_value, q)
    else if leb q.segments entry && leb q_max_segments entry
    then (e_full, q)
    else push_slot c q (first_for_push q) message

unfoldable pub db_queue_pop : Context → QueuePage → ℕ × QueuePage × Option (List ℕ)
db_queue_pop c q =
    if not c.queues
    then (e_state, q, none)
    else if q.head == q.tail
    then (e_notfound, q, none)
    else if not (in_directory q q.head)
    then (e_state, q, none)
    else if not (c.message_copied == 0)
    then (c.message_copied, q, none)
    else if not (c.page_copied == 0)
    then (c.page_copied, q, none)
    else (0, record (move_head q (suc q.head)) { claim = suc q.head }, some (q.slot q.head).payload)

-- The length of the message at the head.
unfoldable pub db_queue_peek : Context → QueuePage → ℕ × Option ℕ
db_queue_peek c q =
    if not c.queues
    then (e_state, none)
    else if q.head == q.tail
    then (e_notfound, none)
    else (0, some (length (q.slot q.head).payload))
