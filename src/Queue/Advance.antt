-- ===== src/Queue/Advance.antt =====
-- The head moves: what it passes is finished in the list of the messages, and the queue stays valid.
use cybou_db.Prelude.{
  ℕ, zero, suc, ◌-◌, ◌≤◌, ◌<◌, ◌≡◌, inl, inr, refl, sym, ap₂, subst, true, ◌&&◌, ◌==◌, leb, ltb,
  arith, Bool-cases, eq→==, ne→==, lt→ltb, ltb→lt, ltb→le, leb→lt, lt→leb, and_true,
}
use cybou_db.Leased.Tickets.{Held, free, claimed, finished, Slot, finish}
use cybou_db.Queue.Page.{
  QueuePage, in_directory, is_finished, run_end, move_head, lease_advance_head,
}
use cybou_db.Queue.View.{values-same, seen, view}
use cybou_db.Queue.Valid.{IsQueue}

pub move_head-IsQueue :
    (q : QueuePage) (h : ℕ) → IsQueue q → q.head ≤ h → h ≤ q.tail → IsQueue (move_head q h)
unfolding move_head
move_head-IsQueue q h v a b = record {
  ordered = b;
  bounded = v.bounded;
  based = λ lt. refl;
  covered = λ lt.
      let f = v.based (omega (arith, lt)) in
      let c = v.covered (omega (arith, lt)) in
      rw (ne→== h q.tail (λ e. omega (arith, e, lt))) (omega (arith, lt));
  drained = λ e. rw (eq→== h q.tail e) refl;
  trusted = λ j now live g. v.trusted j now (omega (arith, live.0), live.1) g;
  cleared = λ j live e. v.cleared j (omega (arith, live.0), live.1) e;
}

finish_finished : (x : Slot) → x.state ≡ finished → x.until ≡ 0 → finish x ≡ x
finish_finished x s u =
    ap₂ (λ (s : Held) (u : ℕ). record x { state = s; until = u }) (sym s) (sym u)

is_finished-eq : (s : Held) → is_finished s ≡ true → s ≡ finished
is_finished-eq free e = cc e
is_finished-eq claimed e = cc e
is_finished-eq finished e = refl

-- Where a run ends, and what it has passed.
abbrev pub Run : QueuePage → ℕ → ℕ → Type 0
Run q start stop =
    (start ≤ stop)
    × (stop ≤ q.tail)
    × ((j : ℕ) → start ≤ j → j < stop → (q.slot j).state ≡ finished)

pub run_end-Run :
    (n : ℕ) (q : QueuePage) (position : ℕ)
    → position ≤ q.tail
    → Run q position (run_end n q position)
unfolding run_end
run_end-Run zero q p h = (omega arith, h, λ j a b. absurd (omega arith))
run_end-Run (suc n) q p h = elim (Bool-cases (leb q.tail p)) [
  | inl e ↦ rw e (omega arith, h, λ j a b. absurd (omega arith))
  | inr e ↦ elim (Bool-cases (in_directory q p && is_finished (q.slot p).state)) [
    | inl g ↦
        let done =
          is_finished-eq (q.slot p).state
            (and_true (in_directory q p) (is_finished (q.slot p).state) g).1 in
        let (x, y, z) = run_end-Run n q (suc p) (omega (arith, leb→lt q.tail p e)) in
        rw (e, g)
          (
            omega arith,
            y,
            λ j a b. elim (Bool-cases (ltb p j)) [
              | inl h ↦ z j (ltb→lt p j h) b
              | inr h ↦
                  let same : p ≡ j = omega (arith, ltb→le p j h) in
                  subst (λ (i : ℕ). (q.slot i).state ≡ finished) same done
            ],
          )
    | inr g ↦ rw (e, g) (omega arith, h, λ j a b. absurd (omega arith))
  ]
]

pub lease_advance_head-IsQueue : (q : QueuePage) → IsQueue q → IsQueue (lease_advance_head q)
unfolding lease_advance_head
lease_advance_head-IsQueue q v =
    let (a, b, c) = run_end-Run (q.tail - q.head) q q.head v.ordered in
    elim (Bool-cases (run_end (q.tail - q.head) q q.head == q.head)) [
      | inl e ↦ rw e v
      | inr e ↦ rw e (move_head-IsQueue q _ v a b)
    ]

seen-move_head :
    (q : QueuePage) (h j : ℕ)
    → IsQueue q
    → Run q q.head h
    → j < q.tail
    → seen (move_head q h) j ≡ seen q j
unfolding move_head
seen-move_head q h j v (a, b, c) lt = elim (Bool-cases (ltb j q.head)) [
  | inl e ↦ rw (e, lt→ltb j h (omega (arith, ltb→lt j q.head e))) refl
  | inr e ↦ elim (Bool-cases (ltb j h)) [
    | inl g ↦
        let s = c j (ltb→le j q.head e) (ltb→lt j h g) in
        rw (e, g) (finish_finished (q.slot j) s (v.cleared j (ltb→le j q.head e, lt) s))
    | inr g ↦ rw (e, g) refl
  ]
]

-- The head passes finished messages only, so the list stays.
pub view-lease_advance_head : (q : QueuePage) → IsQueue q → view (lease_advance_head q) ≡ view q
unfolding lease_advance_head move_head
view-lease_advance_head q v =
    let r = run_end-Run (q.tail - q.head) q q.head v.ordered in
    elim (Bool-cases (run_end (q.tail - q.head) q q.head == q.head)) [
      | inl e ↦ rw e refl
      | inr e ↦ rw e (values-same q.tail 0 _ _ (λ j a b. seen-move_head q _ j v r (omega arith)))
    ]

run_end-past :
    (n : ℕ) (q : QueuePage) (position : ℕ)
    → 0 < n
    → position < q.tail
    → in_directory q position ≡ true
    → (q.slot position).state ≡ finished
    → position < run_end n q position
unfolding run_end
run_end-past zero q p a lt d s = absurd (omega arith)
run_end-past (suc n) q p a lt d s =
    let (x, y, z) = run_end-Run n q (suc p) (omega arith) in
    rw (lt→leb q.tail p lt, d, s) (omega arith)

-- A finished message at the head is passed, and the claim cursor stays where it was.
pub lease_advance_head-past :
    (q : QueuePage)
    → q.head < q.tail
    → in_directory q q.head ≡ true
    → (q.slot q.head).state ≡ finished
    → (q.head < (lease_advance_head q).head) × ((lease_advance_head q).claim ≡ q.claim)
unfolding lease_advance_head move_head
lease_advance_head-past q lt d s =
    let r = run_end-past (q.tail - q.head) q q.head (omega arith) lt d s in
    rw (ne→== (run_end (q.tail - q.head) q q.head) q.head (λ e. omega (arith, e, r))) (r, refl)
