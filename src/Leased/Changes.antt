-- ===== src/Leased/Changes.antt =====
-- What a CLAIM does to the messages, as a relation, and that two in turn do not take the same one.
use cybou_db.Prelude.{
  ℕ, suc, ◌≡◌, ◌⊎◌, inl, inr, refl, sym, ap, ◌∙◌, subst, Option, none, some, true, false, List, [],
  ◌∷◌, get_elem?, Bool-cases,
}
use cybou_db.Leased.Tickets.{Slot, Ticket, claimable, lease, take_first}

-- What a CLAIM does: the messages before the one it takes are not claimable.
pub data Taken (now ms : ℕ) : ℕ → ℕ → List ℕ → List Slot → List Slot → Type 0 where
  first :
      (x : Slot) (xs : List Slot)
      → claimable now x ≡ true
      → Taken now ms 0 (suc x.token) x.payload (x ∷ xs) (lease now ms x ∷ xs)
  next :
      {position token : ℕ} {m : List ℕ} (x : Slot) {xs ys : List Slot}
      → claimable now x ≡ false
      → Taken now ms position token m xs ys
      → Taken now ms (suc position) token m (x ∷ xs) (x ∷ ys)

abbrev Taking : Type 0
Taking = Option (Ticket × List Slot)

ticket_or : Ticket → Taking → Ticket
ticket_or t none = t
ticket_or t (some (u, l)) = u

slots_or : Taking → List Slot
slots_or none = []
slots_or (some (u, l)) = l

take_first-cases :
    (now ms : ℕ) (l : List Slot)
    → (take_first now ms l ≡ none)
      ⊎ ((t : Ticket) × (l' : List Slot) × (take_first now ms l ≡ some (t, l'))
          × Taken now ms t.position t.token t.payload l l')
unfolding take_first
take_first-cases now ms [] = inl refl
take_first-cases now ms (x ∷ xs) = elim (Bool-cases (claimable now x)) [
  | inl h ↦ rw h (inr (_, _, refl, first x xs h))
  | inr h ↦ elim (take_first-cases now ms xs) [
    | inl e ↦ rw (h, e) (inl refl)
    | inr (t, l', e, g) ↦ rw (h, e) (inr (_, _, refl, next x h g))
  ]
]

pub take_first-Taken :
    (now ms : ℕ) (t : Ticket) (l l' : List Slot)
    → take_first now ms l ≡ some (t, l')
    → Taken now ms t.position t.token t.payload l l'
unfolding ticket_or slots_or
take_first-Taken now ms t l l' e = elim (take_first-cases now ms l) [
  | inl h ↦ cc (e, h)
  | inr (u, r, h, g) ↦
      let ticket : u ≡ t = sym (ap (ticket_or t) h) ∙ ap (ticket_or t) e in
      let slots : r ≡ l' = sym (ap slots_or h) ∙ ap slots_or e in
      subst (λ (v : Ticket). Taken now ms v.position v.token v.payload l l') ticket
        (subst (λ (y : List Slot). Taken now ms u.position u.token u.payload l y) slots g)
]

slot_or : Slot → Option Slot → Slot
slot_or x none = x
slot_or x (some y) = y

-- The message that stands at the position of the ticket, and what the ticket says of it.
pub record Chosen (now : ℕ) (p u : ℕ) (m : List ℕ) (l : List Slot) : Type 0 where
  pub slot : Slot
  pub stands : get_elem? l p ≡ some slot
  pub was_claimable : claimable now slot ≡ true
  pub raised : u ≡ suc slot.token
  pub its_payload : m ≡ slot.payload
