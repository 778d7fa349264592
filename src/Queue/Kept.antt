-- ===== src/Queue/Kept.antt =====
-- What no call of src/core/queue.asm undoes: the head and the tail never move back, a finished message stays
-- finished, and no token falls.
use cybou_db.Prelude.{
  ℕ, zero, suc, ◌-◌, ◌≤◌, ◌<◌, ◌≡◌, ◌≢◌, inl, inr, sym, subst, some, true, false, ◌&&◌, ◌==◌, leb,
  ltb, arith, Bool-cases, ==→eq, and_true, ltb→lt, leb→le,
}
use cybou_db.Leased.Tickets.{Held, finished, Slot, is_claimed, claimable, holds}
use cybou_db.Queue.Page.{
  QueuePage, Context, in_range, in_directory, is_finished, lease_find_slot, lease_seg_refresh,
  run_end, move_head, lease_advance_head,
}
use cybou_db.Queue.Calls.{with_slot}

pub record IsKept (q q' : QueuePage) : Type 0 where
  pub head_on : q.head ≤ q'.head
  pub tail_on : q.tail ≤ q'.tail
  pub ended : (j : ℕ) → j < q.tail → (q.slot j).state ≡ finished → (q'.slot j).state ≡ finished
  pub raised : (j : ℕ) → j < q.tail → (q.slot j).token ≤ (q'.slot j).token

pub same : (q : QueuePage) → IsKept q q
same q = record {
  head_on = omega arith;
  tail_on = omega arith;
  ended = λ j a b. b;
  raised = λ j a. omega arith;
}

pub IsKept-trans : {q q' q'' : QueuePage} → IsKept q q' → IsKept q' q'' → IsKept q q''
IsKept-trans k l = record {
  head_on = omega (arith, k.head_on, l.head_on);
  tail_on = omega (arith, k.tail_on, l.tail_on);
  ended = λ j a b. l.ended j (omega (arith, a, k.tail_on)) (k.ended j a b);
  raised = λ j a. omega (arith, k.raised j a, l.raised j (omega (arith, a, k.tail_on)));
}

-- A slot is rewritten that is not finished, or that lies at the tail.
pub with_slot-IsKept :
    (q : QueuePage) (position : ℕ) (x : Slot)
    → (position < q.tail
        → ((q.slot position).state ≢ finished) × ((q.slot position).token ≤ x.token))
    → IsKept q (with_slot q position x)
with_slot-IsKept q p x h = record {
  head_on = omega arith;
  tail_on = omega arith;
  ended = λ j a b. elim (Bool-cases (j == p)) [
    | inl e ↦
        let s : j ≡ p = ==→eq j p e in
        absurd ((h (omega (arith, s, a))).0 (subst (λ (i : ℕ). (q.slot i).state ≡ finished) s b))
    | inr e ↦ rw e b
  ];
  raised = λ j a. elim (Bool-cases (j == p)) [
    | inl e ↦
        let s : j ≡ p = ==→eq j p e in
        rw e (subst (λ (i : ℕ). (q.slot i).token ≤ x.token) (sym s) (h (omega (arith, s, a))).1)
    | inr e ↦ rw e (omega arith)
  ];
}

pub lease_seg_refresh-IsKept :
    (c : Context) (q : QueuePage) (position : ℕ) → IsKept q (lease_seg_refresh c q position)
unfolding lease_seg_refresh
lease_seg_refresh-IsKept c q p = elim (Bool-cases c.leases) [
  | inl e ↦ rw e (record {
    head_on = omega arith;
    tail_on = omega arith;
    ended = λ j a b. b;
    raised = λ j a. omega arith;
  })
  | inr e ↦ rw e (same q)
]

-- The cursor and the clock play no part.
pub marked-IsKept :
    {q q' : QueuePage} (cursor now : ℕ)
    → IsKept q q'
    → IsKept q (record q' { claim = cursor; time_floor = now })
marked-IsKept cursor now k = record {
  head_on = k.head_on;
  tail_on = k.tail_on;
  ended = k.ended;
  raised = k.raised;
}

run_end-le : (n : ℕ) (q : QueuePage) (position : ℕ) → position ≤ run_end n q position
unfolding run_end
run_end-le zero q p = omega arith
run_end-le (suc n) q p = elim (Bool-cases (leb q.tail p)) [
  | inl e ↦ rw e (omega arith)
  | inr e ↦ elim (Bool-cases (in_directory q p && is_finished (q.slot p).state)) [
    | inl g ↦ rw (e, g) (omega (arith, run_end-le n q (suc p)))
    | inr g ↦ rw (e, g) (omega arith)
  ]
]

pub lease_advance_head-IsKept : (q : QueuePage) → IsKept q (lease_advance_head q)
unfolding lease_advance_head move_head
lease_advance_head-IsKept q = elim (Bool-cases (run_end (q.tail - q.head) q q.head == q.head)) [
  | inl e ↦ rw e (same q)
  | inr e ↦ rw e (record {
    head_on = run_end-le (q.tail - q.head) q q.head;
    tail_on = omega arith;
    ended = λ j a b. b;
    raised = λ j a. omega arith;
  })
]

-- A finished message is held by nobody, and is not claimable.
pub holds-finished : (token : ℕ) (x : Slot) → holds token x ≡ true → x.state ≢ finished
holds-finished token x h e =
    let g : false ≡ true = subst (λ (y : Held). (is_claimed y && (x.token == token)) ≡ true) e h in
    cc g

pub claimable-finished : (now : ℕ) (x : Slot) → claimable now x ≡ true → x.state ≢ finished
claimable-finished now x h e =
    let g : false ≡ true =
      subst
        (λ (y : Held).
          elim y [ Held.free ↦ true | Held.claimed ↦ leb x.until now | Held.finished ↦ false ]
          ≡ true)
        e h in
    cc g

pub lease_find_slot-some :
    (q : QueuePage) (position : ℕ) (x : Slot)
    → lease_find_slot q position ≡ some x
    → (q.head ≤ position) × (position < q.tail) × (q.slot position ≡ x)
unfolding lease_find_slot
lease_find_slot-some q p x e = elim (Bool-cases (in_range q p && in_directory q p)) [
  | inl g ↦
      let r = (and_true (in_range q p) (in_directory q p) g).0 in
      let (a, b) = and_true (leb q.head p) (ltb p q.tail) r in
      (leb→le q.head p a, ltb→lt p q.tail b, cc (e, g))
  | inr g ↦ absurd (cc (e, g))
]

pub holds-token : (token : ℕ) (x : Slot) → holds token x ≡ true → x.token ≡ token
holds-token token x h = ==→eq x.token token (and_true (is_claimed x.state) (x.token == token) h).1
