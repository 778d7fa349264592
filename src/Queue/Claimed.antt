-- ===== src/Queue/Claimed.antt =====
-- CLAIM: the call of src/core/queue.asm takes the message that include/cyboudb.h says.
use cybou_db.Prelude.{
  ℕ, suc, ◌+◌, ◌^◌, ◌≤◌, ◌<◌, ◌≡◌, inl, inr, refl, sym, ◌∙◌, subst, Option, none, some, true, false,
  ◌==◌, ltb, arith, Bool-cases, ==→eq, ==→ne, ne→==, List, ltb→lt, ltb→le,
}
use cybou_db.Leased.Tickets.{Slot, Ticket, claimable, lease, take_first}
use cybou_db.Queue.Page.{
  QueuePage, Context, e_notfound, e_value, max_word, lease_now, db_queue_scan_claimable,
}
use cybou_db.Queue.Calls.{with_slot, Claim, lease_slot, claim_slot, claim_found, db_queue_claim}
use cybou_db.Queue.View.{seen, view, take_first-values, take_first-values-none}
use cybou_db.Queue.Valid.{Live, IsQueue, Found, found, nothing, db_queue_scan_claimable-Found}
use cybou_db.Queue.Settle.{settled, lease_seg_refresh-settled, settled-IsQueue, view-settled}
use cybou_db.Queue.Settled.{marked-IsQueue}
use cybou_db.Queue.Answer.{
  Serving, lease_find_slot-Live, lease_edit_slot-Live, lease_now-Serving, seen-Live, claimable-seen,
}

-- The queue, but for one more token at a position.
abbrev pub raised : QueuePage → ℕ → ℕ → QueuePage
raised q position token = with_slot q position (record (q.slot position) { token = token })

-- What a claim answers at a time, for so many milliseconds, by what the first claimable message is. A
-- token that cannot be raised refuses before anything is written; a deadline past the end of the clock
-- refuses after the token has been raised.
pub data Handed (q : QueuePage) (now ms : ℕ) : Option (Ticket × List Slot) → Claim → Type 0 where
  empty : Handed q now ms none (e_notfound, q, none)
  worn_out :
      (t : Ticket) (l : List Slot)
      → t.token ≡ 2 ^ 64
      → Handed q now ms (some (t, l)) (e_value, q, none)
  past_end :
      (t : Ticket) (l : List Slot)
      → t.token < 2 ^ 64
      → 2 ^ 64 ≤ now + ms
      → Handed q now ms (some (t, l)) (e_value, raised q t.position t.token, none)
  handed :
      (t : Ticket) (l : List Slot) (q' : QueuePage)
      → t.token < 2 ^ 64
      → now + ms < 2 ^ 64
      → view q' ≡ l
      → IsQueue q'
      → q'.time_floor ≡ now
      → Handed q now ms (some (t, l)) (0, q', some (t.position, t.token))

take_first-view :
    (q : QueuePage) (now ms position : ℕ)
    → Live q position
    → claimable now (q.slot position) ≡ true
    → ((j : ℕ) → q.head ≤ j → j < position → claimable now (q.slot j) ≡ false)
    → take_first now ms (view q)
      ≡ some (
        record {
          position = position;
          token = suc (q.slot position).token;
          payload = (q.slot position).payload;
        },
        view (settled q position (lease now ms (q.slot position))),
      )
take_first-view q now ms p live g before =
    let e = seen-Live q p live in
    take_first-values now ms q.tail 0 p p (seen q) live.1 (omega arith)
      (subst (λ (x : Slot). claimable now x ≡ true) (sym e) g)
      (λ j a b. claimable-seen q now j (λ h. before j h b))
    ∙ rw (e, sym (view-settled q p (lease now ms (q.slot p)) live)) refl

take_first-view-none :
    (q : QueuePage) (now ms : ℕ)
    → ((j : ℕ) → Live q j → claimable now (q.slot j) ≡ false)
    → take_first now ms (view q) ≡ none
take_first-view-none q now ms h =
    take_first-values-none now ms q.tail 0 (seen q)
      (λ j a b. claimable-seen q now j (λ x. h j (x, omega arith)))

-- The lease of a message that the search has found.
lease_slot-Handed :
    (c : Context) (q : QueuePage) (now ms position : ℕ)
    → Serving c
    → IsQueue q
    → (q.slot position).token < max_word
    → Handed q now ms
        (some (
          record {
            position = position;
            token = suc (q.slot position).token;
            payload = (q.slot position).payload;
          },
          view (settled q position (lease now ms (q.slot position))),
        ))
        (lease_slot c q now ms position (q.slot position))
unfolding lease_slot
lease_slot-Handed c q now ms p s v fits = elim (Bool-cases (ltb (now + ms) (2 ^ 64))) [
  | inl e ↦
      let w = settled-IsQueue q p (lease now ms (q.slot p)) v (λ h. cc h) in
      rw (e, lease_seg_refresh-settled c q p (lease now ms (q.slot p)) s.leases_on)
        (handed _ _ _ (omega (arith, fits)) (ltb→lt (now + ms) (2 ^ 64) e) refl
          (marked-IsQueue _ _ now w) refl)
  | inr e ↦ rw e (past_end _ _ (omega (arith, fits)) (ltb→le (now + ms) (2 ^ 64) e))
]

claim_slot-Handed :
    (c : Context) (q : QueuePage) (now ms position : ℕ)
    → Serving c
    → IsQueue q
    → (q.slot position).token ≤ max_word
    → Live q position
    → claimable now (q.slot position) ≡ true
    → ((j : ℕ) → q.head ≤ j → j < position → claimable now (q.slot j) ≡ false)
    → Handed q now ms (take_first now ms (view q)) (claim_found c q now ms (some position))
unfolding claim_found claim_slot
claim_slot-Handed c q now ms p s v word live g before =
    elim (Bool-cases ((q.slot p).token == max_word)) [
      | inl e ↦
          rw (take_first-view q now ms p live g before, lease_find_slot-Live q p v live, e)
            (worn_out _ _ (omega (arith, ==→eq (q.slot p).token max_word e)))
      | inr e ↦
          rw
            (
              take_first-view q now ms p live g before,
              lease_find_slot-Live q p v live,
              e,
              lease_edit_slot-Live c q p s v live,
            )
            (lease_slot-Handed c q now ms p s v
              (omega (arith, word, ==→ne (q.slot p).token max_word e)))
    ]

claim_found-Handed :
    (c : Context) (q : QueuePage) (now ms : ℕ) (o : Option ℕ)
    → Serving c
    → IsQueue q
    → ((position : ℕ) → Live q position → (q.slot position).token ≤ max_word)
    → Found q now o
    → Handed q now ms (take_first now ms (view q)) (claim_found c q now ms o)
unfolding claim_found
claim_found-Handed c q now ms o s v words (found p live g before) =
    claim_slot-Handed c q now ms p s v (words p live) live g before
claim_found-Handed c q now ms o s v words (nothing h) = rw (take_first-view-none q now ms h) empty

-- In a file with queues and leases whose pages can be copied, over a valid queue whose tokens are 64-bit
-- words, and for a lease of some time, db_queue_claim answers as take_first does on the list of the messages at the
-- later of the time given and the queue's own. Where nothing can be claimed it answers CybouDB_E_NOTFOUND
-- and keeps the queue. Where the first claimable message's token is the last one, it answers CybouDB_E_VALUE
-- and keeps the queue; where the deadline does not fit 64 bits, it answers CybouDB_E_VALUE with the token raised.
-- Otherwise it answers 0 with that message's position and raised token, and its queue is valid, holds
-- the list that take_first leaves, and has that time as its floor.
pub db_queue_claim-Handed :
    (c : Context) (q : QueuePage) (now ms : ℕ)
    → Serving c
    → IsQueue q
    → ((position : ℕ) → Live q position → (q.slot position).token ≤ max_word)
    → 0 < ms
    → Handed q
        (lease_now c q now).1
        ms
        (take_first (lease_now c q now).1 ms (view q))
        (db_queue_claim c q now ms)
unfolding db_queue_claim
db_queue_claim-Handed c q now ms s v words some_time =
    let n = (lease_now c q now).1 in
    rw (ne→== ms 0 (λ e. omega (arith, e, some_time)), lease_now-Serving c q now s)
      (claim_found-Handed c q n ms (db_queue_scan_claimable c q n) s v words
        (db_queue_scan_claimable-Found c q n s.leases_on v))
