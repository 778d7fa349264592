-- ===== src/Queue/Answer.antt =====
-- What a call that shows a token answers, next to what Leased.Tickets says of it.
use cybou_db.Prelude.{
  ℕ, ◌≤◌, ◌≡◌, ◌⊎◌, inl, inr, refl, sym, ap, ◌∙◌, subst, Option, none, some, true, false, leb, ltb,
  arith, Bool-cases, and_true, List, le→ltb, ltb→lt, ltb→le, leb→le,
}
use cybou_db.Leased.Tickets.{Slot, claimable, holds, change}
use cybou_db.Queue.Page.{
  QueuePage, Context, e_lease, in_range, lease_find_slot, lease_edit_slot, lease_now,
}
use cybou_db.Queue.Calls.{lease_hold}
use cybou_db.Queue.View.{seen, view, change-values, change-values-none}
use cybou_db.Queue.Valid.{Live, IsQueue, in_directory-Live, in_range-Live}
use cybou_db.Queue.Settle.{settled, view-settled}

-- The file has queues, and its pages can be copied.
pub record Open (c : Context) : Type 0 where
  pub queues_on : c.queues ≡ true
  pub page_can : c.page_copied ≡ 0
  pub segment_can : c.segment_copied ≡ 0
  pub message_can : c.message_copied ≡ 0

-- Its queues have leases besides.
pub record Serving (c : Context) : Type 0 where
  pub opened : Open c
  pub leases_on : c.leases ≡ true

-- A call is refused and the queue kept where the list refuses; where the list changes, the call answers 0
-- and its queue is valid and stands for that list.
pub data Answer (refusal : ℕ) (q : QueuePage) : Option (List Slot) → ℕ × QueuePage → Type 0 where
  refused : Answer refusal q none (refusal, q)
  done :
      (l : List Slot) (q' : QueuePage)
      → view q' ≡ l
      → IsQueue q'
      → Answer refusal q (some l) (0, q')

-- Whoever shows the token holds the message at the position, or does not.
pub data Shown (q : QueuePage) (position token : ℕ) : Type 0 where
  held : Live q position → holds token (q.slot position) ≡ true → Shown q position token
  lost : (Live q position → holds token (q.slot position) ≡ false) → Shown q position token

in_range-Live' : (q : QueuePage) (position : ℕ) → in_range q position ≡ true → Live q position
in_range-Live' q p e =
    let (a, b) = and_true (leb q.head p) (ltb p q.tail) e in (leb→le q.head p a, ltb→lt p q.tail b)

pub Shown-cases : (q : QueuePage) (position token : ℕ) → Shown q position token
Shown-cases q p token = elim (Bool-cases (in_range q p)) [
  | inl e ↦ elim (Bool-cases (holds token (q.slot p))) [
    | inl h ↦ held (in_range-Live' q p e) h
    | inr h ↦ lost (λ live. h)
  ]
  | inr e ↦ lost (λ live. cc (e, in_range-Live q p live))
]

pub lease_find_slot-Live :
    (q : QueuePage) (position : ℕ)
    → IsQueue q
    → Live q position
    → lease_find_slot q position ≡ some (q.slot position)
unfolding lease_find_slot
lease_find_slot-Live q p v live = rw (in_range-Live q p live, in_directory-Live q p v live) refl

pub lease_edit_slot-Live :
    (c : Context) (q : QueuePage) (position : ℕ)
    → Serving c
    → IsQueue q
    → Live q position
    → lease_edit_slot c q position ≡ 0
unfolding lease_edit_slot
lease_edit_slot-Live c q p s v live =
    rw (s.opened.page_can, in_range-Live q p live, in_directory-Live q p v live)
      s.opened.segment_can

pub lease_hold-held :
    (c : Context) (q : QueuePage) (position token : ℕ)
    → Serving c
    → IsQueue q
    → Live q position
    → holds token (q.slot position) ≡ true
    → lease_hold c q position token ≡ 0
unfolding lease_hold
lease_hold-held c q p token s v live h =
    rw (s.leases_on, lease_find_slot-Live q p v live, h) (lease_edit_slot-Live c q p s v live)

pub lease_hold-lost :
    (c : Context) (q : QueuePage) (position token : ℕ)
    → Serving c
    → IsQueue q
    → (Live q position → holds token (q.slot position) ≡ false)
    → lease_hold c q position token ≡ e_lease
unfolding lease_hold lease_find_slot
lease_hold-lost c q p token s v h = elim (Bool-cases (in_range q p)) [
  | inl e ↦
      let live = in_range-Live' q p e in
      rw (s.leases_on, e, in_directory-Live q p v live, h live) refl
  | inr e ↦ rw (s.leases_on, e) refl
]

pub lease_find_slot-cases :
    (q : QueuePage) (position : ℕ)
    → IsQueue q
    → (lease_find_slot q position ≡ none) ⊎ (lease_find_slot q position ≡ some (q.slot position))
unfolding lease_find_slot
lease_find_slot-cases q p v = elim (Bool-cases (in_range q p)) [
  | inl e ↦ inr (rw (e, in_directory-Live q p v (in_range-Live' q p e)) refl)
  | inr e ↦ inl (rw e refl)
]

pub in_range-cases : (q : QueuePage) (position : ℕ) → Live q position ⊎ ¬ Live q position
in_range-cases q p = elim (Bool-cases (in_range q p)) [
  | inl e ↦ inl (in_range-Live' q p e)
  | inr e ↦ inr (λ live. cc (e, in_range-Live q p live))
]

pub lease_find_slot-none :
    (q : QueuePage) (position : ℕ) → ¬ Live q position → lease_find_slot q position ≡ none
unfolding lease_find_slot
lease_find_slot-none q p dead = elim (Bool-cases (in_range q p)) [
  | inl e ↦ absurd (dead (in_range-Live' q p e))
  | inr e ↦ rw e refl
]

pub lease_now-Serving :
    (c : Context) (q : QueuePage) (now : ℕ) → Serving c → (lease_now c q now).0 ≡ 0
unfolding lease_now
lease_now-Serving c q now s = rw s.leases_on refl

pub seen-Live : (q : QueuePage) (position : ℕ) → Live q position → seen q position ≡ q.slot position
seen-Live q p (a, b) = rw (le→ltb p q.head a) refl

-- What the head has passed is never claimable.
pub claimable-seen :
    (q : QueuePage) (now position : ℕ)
    → (q.head ≤ position → claimable now (q.slot position) ≡ false)
    → claimable now (seen q position) ≡ false
claimable-seen q now p h = elim (Bool-cases (ltb p q.head)) [
  | inl e ↦ rw e refl
  | inr e ↦ rw e (h (ltb→le p q.head e))
]

pub change-view :
    (g : Slot → Slot) (q : QueuePage) (position token : ℕ)
    → Live q position
    → holds token (q.slot position) ≡ true
    → change g position token (view q) ≡ some (view (settled q position (g (q.slot position))))
change-view g q p token live h =
    let e = seen-Live q p live in
    change-values g token q.tail 0 p p (seen q) live.1 (omega arith)
      (subst (λ (x : Slot). holds token x ≡ true) (sym e) h)
    ∙ ap some (rw e (sym (view-settled q p (g (q.slot p)) live)))

pub change-view-none :
    (g : Slot → Slot) (q : QueuePage) (position token : ℕ)
    → (Live q position → holds token (q.slot position) ≡ false)
    → change g position token (view q) ≡ none
change-view-none g q p token h =
    change-values-none g token q.tail 0 p p (seen q) (omega arith) (λ lt.
      elim (Bool-cases (ltb p q.head)) [
        | inl e ↦ rw e refl
        | inr e ↦ rw e (h (ltb→le p q.head e, lt))
      ])
