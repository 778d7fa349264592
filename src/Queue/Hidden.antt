-- ===== src/Queue/Hidden.antt =====
-- A message that the summary of its segment hides from the search.
use cybou_db.Prelude.{
  ℕ, zero, suc, ◌+◌, ◌-◌, ◌*◌, ◌≤◌, ◌<◌, ◌≡◌, ◌≢◌, ◌⊎◌, inl, inr, refl, sym, subst, Option, none,
  some, true, false, ◌||◌, ◌==◌, leb, arith, Bool-cases, ==→eq, ne→==, le→leb, leb→lt, lt→leb,
}
use cybou_db.Leased.Tickets.{claimable}
use cybou_db.Queue.Page.{
  QueuePage, Context, e_notfound, queue_seg_slots, segment_of, in_hand, scan_from,
  db_queue_scan_claimable, lease_now,
}
use cybou_db.Queue.Calls.{claim_found, db_queue_claim}
use cybou_db.Queue.Answer.{Serving, lease_now-Serving}  -- Nothing but the last message can be claimed, and the summary of its segment is ahead of the time.

pub record IsHidden (q : QueuePage) (last now : ℕ) : Type 0 where
  pub ends : q.tail ≡ suc last
  pub none_before : (j : ℕ) → q.head ≤ j → j < last → claimable now (q.slot j) ≡ false
  pub ahead : now < q.ready_at (segment_of last)

-- The search is past the last message, or has another segment in hand.
abbrev Away : ℕ → ℕ → Option ℕ → Type 0
Away last position hand = (last < position) ⊎ (in_hand hand last ≡ false)

-- A segment that is read is not the last message's.
read-apart :
    (q : QueuePage) (last now position : ℕ) (hand : Option ℕ)
    → IsHidden q last now
    → in_hand hand last ≡ false
    → (in_hand hand position || leb (q.ready_at (segment_of position)) now) ≡ true
    → segment_of position ≢ segment_of last
read-apart q last now p none h out r same = cc (
  r,
  lt→leb (q.ready_at (segment_of p)) now (subst (λ (s : ℕ). now < q.ready_at s) (sym same) h.ahead),
)
read-apart q last now p (some s) h out r same =
    let shut =
      lt→leb (q.ready_at (segment_of p)) now
        (subst (λ (s : ℕ). now < q.ready_at s) (sym same) h.ahead) in
    let other : (s == segment_of p) ≡ false = subst (λ (x : ℕ). (s == x) ≡ false) (sym same) out in
    cc (r, shut, other)

Away-skip :
    (last position : ℕ)
    → Away last ((segment_of position + 1) * queue_seg_slots) (some (segment_of position))
Away-skip last p = elim (Bool-cases (segment_of p == segment_of last)) [
  | inl e ↦ inl (omega (arith, ==→eq (segment_of p) (segment_of last) e))
  | inr e ↦ inr e
]

-- So it never finds the last message.
scan_from-hidden :
    (fuel : ℕ) (q : QueuePage) (last now position : ℕ) (hand : Option ℕ)
    → IsHidden q last now
    → q.head ≤ position
    → Away last position hand
    → scan_from fuel q now position hand ≡ none
unfolding scan_from
scan_from-hidden zero q last now p hand h a away = refl
scan_from-hidden (suc fuel) q last now p hand h a (inl past) =
    rw (le→leb q.tail p (omega (arith, h.ends, past))) refl
scan_from-hidden (suc fuel) q last now p hand h a (inr out) = elim (Bool-cases (leb q.tail p)) [
  | inl e ↦ rw e refl
  | inr e ↦
      let lt = leb→lt q.tail p e in
      elim (Bool-cases (in_hand hand p || leb (q.ready_at (segment_of p)) now)) [
        | inl r ↦
            let other = read-apart q last now p hand h out r in
            let before : p < last = omega (arith, lt, h.ends, other) in
            rw (e, r, h.none_before p a before)
              (scan_from-hidden fuel q last now (p + 1) (some (segment_of p)) h (omega arith)
                (inr (ne→== (segment_of p) (segment_of last) other)))
        | inr r ↦
            rw (e, r)
              (scan_from-hidden fuel q last now ((segment_of p + 1) * queue_seg_slots)
                (some (segment_of p)) h (omega arith) (Away-skip last p))
      ]
]

db_queue_scan_claimable-hidden :
    (c : Context) (q : QueuePage) (last now : ℕ)
    → c.leases ≡ true
    → IsHidden q last now
    → db_queue_scan_claimable c q now ≡ none
unfolding db_queue_scan_claimable
db_queue_scan_claimable-hidden c q last now l h =
    rw l (scan_from-hidden (q.tail - q.head + 1) q last now q.head none h (omega arith) (inr refl))

pub db_queue_claim-hidden :
    (c : Context) (q : QueuePage) (last now ms : ℕ)
    → Serving c
    → 0 < ms
    → IsHidden q last (lease_now c q now).1
    → db_queue_claim c q now ms ≡ (e_notfound, q, none)
unfolding db_queue_claim claim_found
db_queue_claim-hidden c q last now ms s some_time h =
    rw
      (
        ne→== ms 0 (λ e. omega (arith, e, some_time)),
        lease_now-Serving c q now s,
        db_queue_scan_claimable-hidden c q last (lease_now c q now).1 s.leases_on h,
      )
      refl
