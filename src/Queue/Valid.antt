-- ===== src/Queue/Valid.antt =====
-- A valid queue, and that the search over its summaries finds what a walk over every slot would.
use cybou_db.Prelude.{
  ℕ, zero, suc, ◌+◌, ◌-◌, ◌*◌, ◌^◌, ◌≤◌, ◌<◌, ◌≡◌, inl, inr, refl, ap, subst, Option, none, some,
  Bool, true, false, ◌||◌, leb, ltb, arith, Bool-cases, lt→ltb, le→leb, leb→lt, leb→le, ltb→lt,
  ltb→le, or_false,
}
use cybou_db.Leased.Tickets.{Held, claimable}
use cybou_db.Queue.Page.{
  QueuePage, Context, queue_seg_slots, segment_of, in_directory, in_range, in_hand, scan_from,
  db_queue_scan_claimable,
}

-- A position of the queue holds a message.
abbrev pub Live : QueuePage → ℕ → Type 0
Live q position = (q.head ≤ position) × (position < q.tail)

-- No summary is above the time at which a message of its segment can be claimed.
abbrev pub Trusted : QueuePage → Type 0
Trusted q =
    (position now : ℕ)
    → Live q position
    → claimable now (q.slot position) ≡ true
    → q.ready_at (segment_of position) ≤ now

pub record IsQueue (q : QueuePage) : Type 0 where
  pub ordered : q.head ≤ q.tail
  pub bounded : q.tail + queue_seg_slots < 2 ^ 64
  pub based : q.head < q.tail → q.first_seg ≡ segment_of q.head
  pub covered : q.head < q.tail → q.first_seg + q.segments ≡ suc (segment_of (q.tail - 1))
  pub drained : q.head ≡ q.tail → q.segments ≡ 0
  pub trusted : Trusted q
  pub cleared :
      (position : ℕ)
      → Live q position
      → (q.slot position).state ≡ Held.finished
      → (q.slot position).until ≡ 0

pub in_directory-Live :
    (q : QueuePage) (position : ℕ) → IsQueue q → Live q position → in_directory q position ≡ true
in_directory-Live q position v (a, b) =
    let f = v.based (omega arith) in
    let c = v.covered (omega arith) in lt→ltb _ _ (omega (arith, v.bounded))

pub in_range-Live : (q : QueuePage) (position : ℕ) → Live q position → in_range q position ≡ true
in_range-Live q position (a, b) = rw (le→leb _ _ a, lt→ltb _ _ b) refl

-- What a search answers: the first live message that is claimable, or that there is none.
pub data Found (q : QueuePage) (now : ℕ) : Option ℕ → Type 0 where
  found :
      (position : ℕ)
      → Live q position
      → claimable now (q.slot position) ≡ true
      → ((j : ℕ) → q.head ≤ j → j < position → claimable now (q.slot j) ≡ false)
      → Found q now (some position)
  nothing : ((j : ℕ) → Live q j → claimable now (q.slot j) ≡ false) → Found q now none

pub not_true : (b : Bool) → ¬ (b ≡ true) → b ≡ false
not_true true h = absurd (h refl)
not_true false h = refl

-- Nothing below the position can be claimed.
abbrev NoneBefore : QueuePage → ℕ → ℕ → Type 0
NoneBefore q now position = (j : ℕ) → Live q j → j < position → claimable now (q.slot j) ≡ false

NoneBefore-step :
    (q : QueuePage) (now position : ℕ)
    → claimable now (q.slot position) ≡ false
    → NoneBefore q now position
    → NoneBefore q now (position + 1)
NoneBefore-step q now position g before j l y = elim (Bool-cases (ltb j position)) [
  | inl e ↦ before j l (ltb→lt j position e)
  | inr e ↦
      let same : position ≡ j = omega (arith, ltb→le j position e) in
      subst (λ (x : ℕ). claimable now (q.slot x) ≡ false) same g
]

-- A segment whose summary is ahead of the time holds nothing to claim.
NoneBefore-skip :
    (q : QueuePage) (now position : ℕ)
    → Trusted q
    → now < q.ready_at (segment_of position)
    → NoneBefore q now position
    → NoneBefore q now ((segment_of position + 1) * queue_seg_slots)
NoneBefore-skip q now position t h before j l y = elim (Bool-cases (ltb j position)) [
  | inl e ↦ before j l (ltb→lt j position e)
  | inr e ↦
      let same : segment_of j ≡ segment_of position = omega (arith, ltb→le j position e) in
      not_true _ (λ g. omega (arith, t j now l g, ap q.ready_at same, h))
]

scan_from-Found :
    (fuel : ℕ) (q : QueuePage) (now position : ℕ) (hand : Option ℕ)
    → Trusted q
    → q.head ≤ position
    → q.tail < position + fuel
    → NoneBefore q now position
    → Found q now (scan_from fuel q now position hand)
unfolding scan_from
scan_from-Found zero q now position hand t a b before =
    nothing (λ j l. before j l (omega (arith, l.1)))
scan_from-Found (suc fuel) q now position hand t a b before =
    elim (Bool-cases (leb q.tail position)) [
      | inl e ↦ rw e (nothing (λ j l. before j l (omega (arith, l.1, leb→le q.tail position e))))
      | inr e ↦
          let lt = leb→lt q.tail position e in
          elim (Bool-cases (in_hand hand position || leb (q.ready_at (segment_of position)) now)) [
            | inl r ↦ elim (Bool-cases (claimable now (q.slot position))) [
              | inl g ↦
                  rw (e, r, g) (found position (a, lt) g (λ j x y. before j (x, omega arith) y))
              | inr g ↦
                  rw (e, r, g)
                    (scan_from-Found fuel q now (position + 1) (some (segment_of position)) t
                      (omega arith) (omega arith) (NoneBefore-step q now position g before))
            ]
            | inr r ↦
                let ahead : now < q.ready_at (segment_of position) =
                  leb→lt (q.ready_at (segment_of position)) now
                    (or_false (in_hand hand position) (leb (q.ready_at (segment_of position)) now)
                      r).1 in
                rw (e, r)
                  (scan_from-Found fuel q now ((segment_of position + 1) * queue_seg_slots)
                    (some (segment_of position)) t (omega arith) (omega arith)
                    (NoneBefore-skip q now position t ahead before))
          ]
    ]

-- The search finds the first claimable message, within the fuel that it is given.
pub db_queue_scan_claimable-Found :
    (c : Context) (q : QueuePage) (now : ℕ)
    → c.leases ≡ true
    → IsQueue q
    → Found q now (db_queue_scan_claimable c q now)
unfolding db_queue_scan_claimable
db_queue_scan_claimable-Found c q now l v = rw l (
    scan_from-Found (q.tail - q.head + 1) q now q.head none v.trusted (omega arith)
      (omega (arith, v.ordered)) (λ j l y. absurd (omega (arith, l.0))))
