-- ===== src/Lease/Changed.antt =====
-- One slot of the queue is rewritten: what that does to the summaries.
use cybou_db.Prelude.{
  ℕ, ◌/◌, ◌%◌, ◌≤◌, ◌<◌, ◌≡◌, ◌≢◌, inl, inr, refl, some, arith, ◌==◌, update, Bool-cases, ==→eq,
  ne→==,
}
use cybou_db.Lease.Slots.{Slot, Segment, Queue, page_of, slot_at, store_slot, set_state, seg_slots}

-- The directory names a mapped page for each live segment, and no page twice.
pub record IsMapped (q : Queue) : Type 0 where
  pub mapped : (j : ℕ) → q.head ≤ j → j < q.tail → (g : Segment) × (q.page (page_of q j) ≡ some g)
  pub distinct :
      (i j : ℕ)
      → q.head ≤ i
      → i < q.tail
      → q.head ≤ j
      → j < q.tail
      → page_of q i ≡ page_of q j
      → i / seg_slots ≡ j / seg_slots

abbrev slot_of : ℕ → ℕ → ℕ → Slot
slot_of state deadline token = record { state = state; lease_until = deadline; lease_token = token }

-- The queue with a known page for `pos`, after the write.
abbrev written : Queue → ℕ → Segment → Slot → Queue
written q pos g s = record q {
  page = update q.page (page_of q pos) (some (store_slot g (pos % seg_slots) s));
}

set_state_lem :
    (q : Queue) (pos state deadline token : ℕ) (g : Segment)
    → q.page (page_of q pos) ≡ some g
    → set_state q pos state deadline token ≡ written q pos g (slot_of state deadline token)
unfolding set_state
set_state_lem q pos state deadline token g e = rw (e, set_state)

slot_at-written_self :
    (q : Queue) (pos : ℕ) (g : Segment) (s : Slot) → slot_at (written q pos g s) pos ≡ some s
unfolding slot_at store_slot
slot_at-written_self q pos g s = ground arith

slot_at-written_ne :
    (q : Queue) (pos j : ℕ) (g : Segment) (s : Slot)
    → IsMapped q
    → q.head ≤ pos
    → pos < q.tail
    → q.head ≤ j
    → j < q.tail
    → q.page (page_of q pos) ≡ some g
    → j ≢ pos
    → slot_at (written q pos g s) j ≡ slot_at q j
unfolding slot_at store_slot
slot_at-written_ne q pos j g s m a b c d e ne = elim (Bool-cases (page_of q j == page_of q pos)) [
  | inl h ↦
      let same = ==→eq (page_of q j) (page_of q pos) h in
      let seg = m.distinct j pos c d a b same in
      let idx : j % seg_slots ≢ pos % seg_slots = omega arith in rw (h, same, e, ne→== _ _ idx)
  | inr h ↦ rw h
]

module _ (q : Queue) (pos state deadline token : ℕ) (m : IsMapped q) (a : q.head ≤ pos)
    (b : pos < q.tail) where
  -- The written position holds the new slot.
  pub slot_at-set_state_self :
      slot_at (set_state q pos state deadline token) pos ≡ some (slot_of state deadline token)
  slot_at-set_state_self =
      let (g, e) = m.mapped pos a b in
      rw (set_state_lem q pos state deadline token g e) (slot_at-written_self q pos g _)

  -- Every other live position keeps its slot.
  pub slot_at-set_state_ne :
      (j : ℕ)
      → q.head ≤ j
      → j < q.tail
      → j ≢ pos
      → slot_at (set_state q pos state deadline token) j ≡ slot_at q j
  slot_at-set_state_ne j c d ne =
      let (g, e) = m.mapped pos a b in
      rw (set_state_lem q pos state deadline token g e)
        (slot_at-written_ne q pos j g _ m a b c d e ne)

  pub set_state-IsMapped : IsMapped (set_state q pos state deadline token)
  set_state-IsMapped =
      let (g, e) = m.mapped pos a b in
      rw (set_state_lem q pos state deadline token g e) (record {
        mapped = λ j c d. elim (Bool-cases (page_of q j == page_of q pos)) [
          | inl h ↦ (store_slot g (pos % seg_slots) (slot_of state deadline token), rw h)
          | inr h ↦ let (k, f) = m.mapped j c d in (k, rw h f)
        ];
        distinct = m.distinct;
      })

  pub set_state-bounds :
      ((set_state q pos state deadline token).head ≡ q.head)
      × ((set_state q pos state deadline token).tail ≡ q.tail)
  set_state-bounds =
      let (g, e) = m.mapped pos a b in
      rw (set_state_lem q pos state deadline token g e) (refl, refl)
