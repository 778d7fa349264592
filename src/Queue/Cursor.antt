-- ===== src/Queue/Cursor.antt =====
-- The claim cursor: the calls on leases keep it between the head and the tail, past every message that has
-- been handed out and is not back.
use cybou_db.Prelude.{
  ℕ, suc, ◌+◌, ◌-◌, ◌^◌, ◌≤◌, ◌<◌, ◌≡◌, ◌≢◌, inl, inr, refl, Option, true, if◌then◌else◌, ◌==◌, leb,
  ltb, arith, Bool-cases, ==→eq, ==→ne, le→leb,
}
use cybou_db.Leased.Tickets.{free, Slot, lease}
use cybou_db.Queue.Page.{
  QueuePage, Context, max_word, run_end, lease_now, lease_advance_head, move_head, cursor_valid,
}
use cybou_db.Queue.Calls.{with_slot, lease_slot, claim_slot, claim_found, db_queue_claim}
use cybou_db.Queue.Valid.{Live, IsQueue, Found, found, nothing, db_queue_scan_claimable-Found}
use cybou_db.Queue.Settle.{settled, lease_seg_refresh-settled}
use cybou_db.Queue.Advance.{run_end-Run}
use cybou_db.Queue.Answer.{Serving, lease_find_slot-Live, lease_now-Serving, lease_edit_slot-Live}

-- A message that is claimed or finished has been handed out.
pub record IsCursor (q : QueuePage) : Type 0 where
  pub from_head : q.head ≤ q.claim
  pub to_tail : q.claim ≤ q.tail
  pub past_taken : (j : ℕ) → Live q j → (q.slot j).state ≢ free → j < q.claim

pub cursor_valid-IsCursor :
    (c : Context) (q : QueuePage) → c.leases ≡ true → IsCursor q → cursor_valid c q ≡ true
unfolding cursor_valid
cursor_valid-IsCursor c q l v =
    rw (l, le→leb q.head q.claim v.from_head, le→leb q.claim q.tail v.to_tail) refl

-- A slot is written, and the cursor and the clock are set.
written-IsCursor :
    (q : QueuePage) (position : ℕ) (x : Slot) (cursor : ℕ)
    → IsCursor q
    → q.claim ≤ cursor
    → cursor ≤ q.tail
    → (x.state ≢ free → position < cursor)
    → IsCursor (record (with_slot q position x) { claim = cursor })
written-IsCursor q p x cursor v a b h = record {
  from_head = omega (arith, v.from_head, a);
  to_tail = b;
  past_taken = λ j live taken. elim (Bool-cases (j == p)) [
    | inl e ↦ omega (arith, h (λ f. taken (rw e f)), ==→eq j p e)
    | inr e ↦ omega (arith, v.past_taken j live (λ f. taken (rw e f)), a)
  ];
}

-- The summaries and the clock play no part.
marked-IsCursor :
    (q : QueuePage) (ready : ℕ → ℕ) (now : ℕ)
    → IsCursor q
    → IsCursor (record q { ready_at = ready; time_floor = now })
marked-IsCursor q ready now v = record {
  from_head = v.from_head;
  to_tail = v.to_tail;
  past_taken = v.past_taken;
}

-- A live slot is written under a cursor that stays.
pub settled-IsCursor :
    (q : QueuePage) (position : ℕ) (x : Slot) (now : ℕ)
    → IsCursor q
    → (x.state ≢ free → position < q.claim)
    → IsCursor (record (settled q position x) { time_floor = now })
settled-IsCursor q p x now v h =
    marked-IsCursor _ _ now (written-IsCursor q p x q.claim v (omega arith) v.to_tail h)

pub lease_advance_head-IsCursor :
    (q : QueuePage) → IsQueue q → IsCursor q → IsCursor (lease_advance_head q)
unfolding lease_advance_head move_head
lease_advance_head-IsCursor q v w =
    let h = run_end (q.tail - q.head) q q.head in
    let (a, b, d) = run_end-Run (q.tail - q.head) q q.head v.ordered in
    elim (Bool-cases (h == q.head)) [
      | inl e ↦ rw e w
      | inr e ↦
          let apart = ==→ne h q.head e in
          let last = d (h - 1) (omega (arith, a, apart)) (omega (arith, a, apart)) in
          let past =
            w.past_taken (h - 1) (omega (arith, a, apart), omega (arith, a, b, apart))
              (λ f. cc (last, f)) in
          rw e (record {
            from_head = omega (arith, past);
            to_tail = w.to_tail;
            past_taken = λ j live taken. w.past_taken j (omega (arith, a, live.0), live.1) taken;
          })
    ]

lease_slot-IsCursor :
    (c : Context) (q : QueuePage) (now ms position : ℕ)
    → Serving c
    → IsCursor q
    → Live q position
    → IsCursor (lease_slot c q now ms position (q.slot position)).1
unfolding lease_slot
lease_slot-IsCursor c q now ms p s v live = elim (Bool-cases (ltb (now + ms) (2 ^ 64))) [
  | inl e ↦
      let cursor = if leb (suc p) q.claim then q.claim else suc p in
      rw (e, lease_seg_refresh-settled c q p (lease now ms (q.slot p)) s.leases_on)
        (marked-IsCursor _ _ now (
          written-IsCursor q p (lease now ms (q.slot p)) cursor v (ground arith)
            (ground (arith, v.to_tail, live.1)) (λ f. ground arith)))
  | inr e ↦ rw e (
      written-IsCursor q p (record (q.slot p) { token = suc (q.slot p).token }) q.claim v
        (omega arith) v.to_tail (λ taken. v.past_taken p live taken))
]

claim_found-IsCursor :
    (c : Context) (q : QueuePage) (now ms : ℕ) (o : Option ℕ)
    → Serving c
    → IsQueue q
    → IsCursor q
    → Found q now o
    → IsCursor (claim_found c q now ms o).1
unfolding claim_found claim_slot
claim_found-IsCursor c q now ms o s v w (found p live g before) =
    elim (Bool-cases ((q.slot p).token == max_word)) [
      | inl e ↦ rw (lease_find_slot-Live q p v live, e) w
      | inr e ↦
          rw (lease_find_slot-Live q p v live, e, lease_edit_slot-Live c q p s v live)
            (lease_slot-IsCursor c q now ms p s w live)
    ]
claim_found-IsCursor c q now ms o s v w (nothing h) = w

pub db_queue_claim-IsCursor :
    (c : Context) (q : QueuePage) (now ms : ℕ)
    → Serving c
    → IsQueue q
    → IsCursor q
    → IsCursor (db_queue_claim c q now ms).1
unfolding db_queue_claim
db_queue_claim-IsCursor c q now ms s v w = elim (Bool-cases (ms == 0)) [
  | inl e ↦ rw e w
  | inr e ↦
      let n = (lease_now c q now).1 in
      rw (e, lease_now-Serving c q now s)
        (claim_found-IsCursor c q n ms _ s v w (db_queue_scan_claimable-Found c q n s.leases_on v))
]
