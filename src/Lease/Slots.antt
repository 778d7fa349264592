-- ===== src/Lease/Slots.antt =====
-- The queue page, the segment pages and the message slots of benchmarks/lease_probe.c.
use cybou_db.Prelude.{
  ℕ, ◌+◌, ◌-◌, ◌/◌, ◌%◌, ◌^◌, Option, none, some, Bool, ◌&&◌, ◌||◌, leb, ◌==◌, u64, update, ◌≡◌,
  true,
}

-- What the probe reads of a message slot: its state, its deadline and its token.
pub record Slot : Type 0 where
  pub state : ℕ
  pub lease_until : ℕ
  pub lease_token : ℕ

abbrev pub state_held : ℕ
state_held = 0

abbrev pub state_claimed : ℕ
state_claimed = 1

abbrev pub state_acked : ℕ
state_acked = 2

-- `QUEUE_SEG_SLOTS`
abbrev pub seg_slots : ℕ
seg_slots = 62

-- A segment page: its summary word and its slots.
pub record Segment : Type 0 where
  pub ready_at : ℕ
  pub slots : ℕ → Slot

-- The queue page's fields, its directory of segment pages, and the pages that the engine has
-- mapped (`none` where `db_queue_seg_addr` answers NULL).
pub record Queue : Type 0 where
  pub head : ℕ
  pub tail : ℕ
  pub claim : ℕ
  pub first_seg : ℕ
  pub entries : ℕ → ℕ
  pub page : ℕ → Option Segment

-- The page that the directory names for a position's segment. The index is `uint64_t`.
unfoldable pub page_at : (ℕ → ℕ) → ℕ → ℕ → ℕ
page_at entries first_seg pos = entries (u64 (pos / seg_slots + 2 ^ 64 - first_seg))

abbrev pub page_of : Queue → ℕ → ℕ
page_of q pos = page_at q.entries q.first_seg pos

unfoldable pub slot_in : Option Segment → ℕ → Option Slot
slot_in none idx = none
slot_in (some g) idx = some (g.slots idx)

unfoldable pub slot_at : Queue → ℕ → Option Slot
unfolding slot_in
slot_at q pos = slot_in (q.page (page_of q pos)) (pos % seg_slots)

unfoldable pub store_slot : Segment → ℕ → Slot → Segment
store_slot g idx s = record g { slots = update g.slots idx s }

unfoldable pub set_state : Queue → ℕ → ℕ → ℕ → ℕ → Queue
unfolding store_slot
set_state q pos state deadline token = elim (q.page (page_of q pos)) [
  | none ↦ q
  | some g ↦ record q {
    page = update q.page (page_of q pos) (
        some (
          store_slot g (pos % seg_slots)
            (record { state = state; lease_until = deadline; lease_token = token })));
  }
]

-- A claim may take a message that is held by nobody, or whose lease has run out.
unfoldable pub claimable : ℕ → Slot → Bool
claimable now s = s.state == state_held || (s.state == state_claimed && leb s.lease_until now)

-- The slot at position `j` can be claimed at the time `now`.
abbrev pub Claims : (ℕ → Option Slot) → ℕ → ℕ → Type 0
Claims slot now j = (s : Slot) × (slot j ≡ some s) × (claimable now s ≡ true)
