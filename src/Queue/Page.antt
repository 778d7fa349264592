-- ===== src/Queue/Page.antt =====
-- The page of a queue with its segments, and the routines of src/core/queue.asm that its calls share. A
-- slot belongs to a position and a summary to a segment number: the directory names one page for each
-- segment from `first_seg` on. A message is its bytes, wherever they are kept.
use cybou_db.Prelude.{
  ℕ, zero, suc, ◌+◌, ◌-◌, ◌*◌, ◌/◌, ◌%◌, ◌^◌, Option, none, some, Bool, true, false, not, ◌&&◌,
  ◌||◌, if◌then◌else◌, ◌==◌, leb, ltb, update,
}
use cybou_db.Leased.Tickets.{Held, Slot, claimable}

-- `free`, `claimed` and `finished` are QMSG_STATE_HELD, QMSG_STATE_CLAIMED and QMSG_STATE_ACKED.
pub record QueuePage : Type 0 where
  pub head : ℕ
  pub tail : ℕ
  pub claim : ℕ
  pub time_floor : ℕ
  pub first_seg : ℕ
  pub segments : ℕ
  pub ready_at : ℕ → ℕ
  pub slot : ℕ → Slot

-- The features of the file, and what the copies of the queue page, of a segment and of a message answer.
pub record Context : Type 0 where
  pub queues : Bool
  pub leases : Bool
  pub page_copied : ℕ
  pub segment_copied : ℕ
  pub message_copied : ℕ

abbrev pub e_full : ℕ
e_full = 15

abbrev pub e_state : ℕ
e_state = 22

abbrev pub e_notfound : ℕ
e_notfound = 28

abbrev pub e_value : ℕ
e_value = 32

abbrev pub e_lease : ℕ
e_lease = 37

abbrev pub queue_seg_slots : ℕ
queue_seg_slots = 62

abbrev pub q_max_segments : ℕ
q_max_segments = 495

abbrev pub max_word : ℕ
max_word = 18446744073709551615

abbrev pub segment_of : ℕ → ℕ
segment_of position = position / queue_seg_slots

-- The place of a segment in the directory; a borrow leaves a number above every count.
abbrev pub entry_of : ℕ → ℕ → ℕ
entry_of first segment = (segment + 2 ^ 64 - first) % 2 ^ 64

abbrev pub in_directory : QueuePage → ℕ → Bool
in_directory q position = ltb (entry_of q.first_seg (segment_of position)) q.segments

abbrev pub in_range : QueuePage → ℕ → Bool
in_range q position = leb q.head position && ltb position q.tail

-- `lease_find_slot`
unfoldable pub lease_find_slot : QueuePage → ℕ → Option Slot
lease_find_slot q position =
    if in_range q position && in_directory q position then some (q.slot position) else none

-- `lease_edit_slot`: what it answers. The copy holds what the page and the segment held.
unfoldable pub lease_edit_slot : Context → QueuePage → ℕ → ℕ
lease_edit_slot c q position =
    if not (c.page_copied == 0)
    then c.page_copied
    else if in_range q position && in_directory q position
    then c.segment_copied
    else e_value

-- `lease_now`: the status, and the time that the queue uses.
unfoldable pub lease_now : Context → QueuePage → ℕ → ℕ × ℕ
lease_now c q now =
    if c.leases then (0, if leb q.time_floor now then now else q.time_floor) else (e_state, 0)

abbrev pub in_hand : Option ℕ → ℕ → Bool
in_hand none position = false
in_hand (some segment) position = segment == segment_of position

-- The loop of `db_queue_scan_claimable`, with the segment whose page is in hand. Each round moves on by one
-- position at least.
unfoldable pub scan_from : ℕ → QueuePage → ℕ → ℕ → Option ℕ → Option ℕ
scan_from zero q now position hand = none
scan_from (suc fuel) q now position hand =
    let step = scan_from fuel q now (position + 1) (some (segment_of position)) in
    let skip =
      scan_from fuel q now ((segment_of position + 1) * queue_seg_slots)
        (some (segment_of position)) in
    if leb q.tail position
    then none
    else if in_hand hand position || leb (q.ready_at (segment_of position)) now
    then (if claimable now (q.slot position) then some position else step)
    else skip

unfoldable pub db_queue_scan_claimable : Context → QueuePage → ℕ → Option ℕ
db_queue_scan_claimable c q now =
    if c.leases then scan_from (q.tail - q.head + 1) q now q.head none else none

-- The part of [head, tail) that a segment holds.
abbrev pub segment_low : QueuePage → ℕ → ℕ
segment_low q segment =
    if leb q.head (segment * queue_seg_slots) then segment * queue_seg_slots else q.head

abbrev pub segment_high : QueuePage → ℕ → ℕ
segment_high q segment =
    if leb (segment * queue_seg_slots + queue_seg_slots) q.tail
    then segment * queue_seg_slots + queue_seg_slots
    else q.tail

-- One slot of the walk of `lease_seg_refresh` and of `lease_summaries_valid`, with the least deadline so far
-- and the rest of the walk, which a free message ends.
abbrev pub ready_step : Held → ℕ → ℕ → (ℕ → ℕ) → ℕ
ready_step Held.free until best rest = 0
ready_step Held.claimed until best rest = rest (if ltb until best then until else best)
ready_step Held.finished until best rest = rest best

-- The walk, over the positions that are left.
unfoldable pub least_ready : ℕ → ℕ → ℕ → (ℕ → Slot) → ℕ
least_ready zero position best slot = best
least_ready (suc n) position best slot =
    ready_step (slot position).state (slot position).until best
      (λ b. least_ready n (suc position) b slot)

unfoldable pub segment_ready : QueuePage → ℕ → ℕ
segment_ready q segment =
    least_ready (segment_high q segment - segment_low q segment) (segment_low q segment) max_word
      q.slot

-- `lease_seg_refresh`
unfoldable pub lease_seg_refresh : Context → QueuePage → ℕ → QueuePage
lease_seg_refresh c q position =
    if c.leases
    then record q {
      ready_at = update q.ready_at (segment_of position) (segment_ready q (segment_of position));
    }
    else q

-- `lease_summaries_valid`, over the directory entries that are left.
unfoldable pub entries_valid : ℕ → ℕ → QueuePage → Bool
entries_valid zero segment q = true
entries_valid (suc n) segment q =
    leb (q.ready_at segment) (segment_ready q segment) && entries_valid n (suc segment) q

unfoldable pub lease_summaries_valid : Context → QueuePage → Bool
lease_summaries_valid c q = if c.leases then entries_valid q.segments q.first_seg q else true

-- The rule of `queue_page_valid` on the cursor.
unfoldable pub cursor_valid : Context → QueuePage → Bool
cursor_valid c q =
    if c.leases
    then leb q.head q.claim && leb q.claim q.tail
    else (q.time_floor == 0) && (q.head == q.claim)

abbrev pub is_finished : Held → Bool
is_finished Held.finished = true
is_finished _ = false

-- The end of the run of finished messages that `lease_advance_head` walks.
unfoldable pub run_end : ℕ → QueuePage → ℕ → ℕ
run_end zero q position = position
run_end (suc n) q position =
    let rest = run_end n q (suc position) in
    if leb q.tail position
    then position
    else if in_directory q position && is_finished (q.slot position).state
    then rest
    else position

-- The head moves, and the entries that it leaves behind go; a queue that has run dry names none.
unfoldable pub move_head : QueuePage → ℕ → QueuePage
move_head q position = record q {
  head = position;
  segments = if position == q.tail then 0 else q.segments - (segment_of position - q.first_seg);
  first_seg = segment_of position;
}

unfoldable pub lease_advance_head : QueuePage → QueuePage
lease_advance_head q =
    let position = run_end (q.tail - q.head) q q.head in
    if position == q.head then q else move_head q position
