-- ===== src/Queue/Given.antt =====
-- What a claim of src/core/queue.asm keeps and hands out, and what one who shows a token can change.
use cybou_db.Prelude.{
  ℕ, zero, suc, ◌+◌, ◌-◌, ◌*◌, ◌^◌, ◌≤◌, ◌<◌, ◌≡◌, ◌≢◌, inl, inr, refl, sym, ap, ◌∙◌, subst, Option,
  none, some, true, ◌||◌, ◌==◌, leb, ltb, arith, Bool-cases, Option-cases, update_self,
}
use cybou_db.Leased.Tickets.{finished, Slot, claimable, lease, holds}
use cybou_db.Queue.Page.{
  QueuePage, Context, e_lease, e_state, e_value, e_notfound, max_word, queue_seg_slots, segment_of,
  in_hand, lease_find_slot, lease_edit_slot, lease_now, scan_from, db_queue_scan_claimable,
  lease_seg_refresh,
}
use cybou_db.Queue.Calls.{
  Claim, with_slot, lease_slot, claim_slot, claim_found, db_queue_claim, lease_hold,
}
use cybou_db.Queue.Kept.{
  IsKept, same, IsKept-trans, with_slot-IsKept, lease_seg_refresh-IsKept, marked-IsKept,
  claimable-finished, lease_find_slot-some,
}

some-eq : {A : Type 0} {a b : A} → some a ≡ some b → a ≡ b
some-eq {a = a} e = ap (λ o. elim o [ none ↦ a | some x ↦ x ]) e

-- What the search answers can be claimed.
scan_from-claimable :
    (fuel : ℕ) (q : QueuePage) (now position : ℕ) (hand : Option ℕ) (p : ℕ)
    → scan_from fuel q now position hand ≡ some p
    → claimable now (q.slot p) ≡ true
unfolding scan_from
scan_from-claimable zero q now i hand p e = absurd (cc e)
scan_from-claimable (suc fuel) q now i hand p e = elim (Bool-cases (leb q.tail i)) [
  | inl f ↦ absurd (cc (e, f))
  | inr f ↦ elim (Bool-cases (in_hand hand i || leb (q.ready_at (segment_of i)) now)) [
    | inl g ↦ elim (Bool-cases (claimable now (q.slot i))) [
      | inl h ↦
          let s : i ≡ p = some-eq (cc (e, f, g, h)) in
          subst (λ (j : ℕ). claimable now (q.slot j) ≡ true) s h
      | inr h ↦ scan_from-claimable fuel q now (i + 1) (some (segment_of i)) p (cc (e, f, g, h))
    ]
    | inr g ↦
        scan_from-claimable fuel q now ((segment_of i + 1) * queue_seg_slots) (some (segment_of i))
          p (cc (e, f, g))
  ]
]

-- What one who shows a token can change, he holds.
pub data Hold (q : QueuePage) (position token : ℕ) : ℕ → Type 0 where
  his :
      q.head ≤ position
      → position < q.tail
      → holds token (q.slot position) ≡ true
      → (h : ℕ) → Hold q position token h
  not_his : (h : ℕ) → h ≢ 0 → Hold q position token h

pub lease_hold-Hold :
    (c : Context) (q : QueuePage) (position token : ℕ)
    → Hold q position token (lease_hold c q position token)
unfolding lease_hold
lease_hold-Hold c q p token = elim (Bool-cases c.leases) [
  | inr e ↦ rw e (not_his e_state (omega arith))
  | inl e ↦ elim (Option-cases (lease_find_slot q p)) [
    | inl f ↦ rw (e, f) (not_his e_lease (omega arith))
    | inr (x, f) ↦
        let (a, b, s) = lease_find_slot-some q p x f in
        elim (Bool-cases (holds token x)) [
          | inl h ↦ his a b (subst (λ (y : Slot). holds token y ≡ true) (sym s) h) _
          | inr h ↦ rw (e, f, h) (not_his e_lease (omega arith))
        ]
  ]
]

pub lease_seg_refresh-slot :
    (c : Context) (q : QueuePage) (position : ℕ) → (lease_seg_refresh c q position).slot ≡ q.slot
unfolding lease_seg_refresh
lease_seg_refresh-slot c q p = elim (Bool-cases c.leases) [ inl e ↦ rw e refl | inr e ↦ rw e refl ]

-- A claim undoes nothing, and hands out a message that can be claimed, whose slot it leases.
pub data Given (q : QueuePage) (now ms : ℕ) : Claim → Type 0 where
  nothing : (status : ℕ) (q' : QueuePage) → IsKept q q' → Given q now ms (status, q', none)
  handed_out :
      (q' : QueuePage) (position token : ℕ)
      → IsKept q q'
      → position < q.tail
      → claimable now (q.slot position) ≡ true
      → q'.slot position ≡ lease now ms (q.slot position)
      → token ≡ suc (q.slot position).token
      → Given q now ms (0, q', some (position, token))

lease_slot-Given :
    (c : Context) (q : QueuePage) (now ms position : ℕ) (x : Slot)
    → position < q.tail
    → q.slot position ≡ x
    → claimable now x ≡ true
    → Given q now ms (lease_slot c q now ms position x)
unfolding lease_slot
lease_slot-Given c q now ms p x lt s h =
    let unfinished : x.state ≢ finished = claimable-finished now x h in
    let rise : (y : Slot) → y.token ≡ suc x.token → IsKept q (with_slot q p y) = λ y up.
      with_slot-IsKept q p y (λ l. (
        subst (λ (z : Slot). z.state ≢ finished) (sym s) unfinished,
        omega (arith, up, ap (λ (z : Slot). z.token) s),
      )) in
    elim (Bool-cases (ltb (now + ms) (2 ^ 64))) [
      | inr e ↦ rw e (nothing e_value _ (rise (record x { token = suc x.token }) refl))
      | inl e ↦
          let y : Slot = lease now ms x in
          let w : QueuePage = with_slot q p y in
          rw e (
            handed_out _ p (suc x.token)
              (marked-IsKept _ now (IsKept-trans (rise y refl) (lease_seg_refresh-IsKept c w p))) lt
              (subst (λ (z : Slot). claimable now z ≡ true) (sym s) h)
              (ap (λ (f : ℕ → Slot). f p) (lease_seg_refresh-slot c w p)
                ∙ update_self q.slot p y
                ∙ ap (lease now ms) (sym s))
              (ap (λ (z : Slot). suc z.token) (sym s)))
    ]

claim_found-Given :
    (c : Context) (q : QueuePage) (now ms : ℕ) (o : Option ℕ)
    → ((p : ℕ) → o ≡ some p → claimable now (q.slot p) ≡ true)
    → Given q now ms (claim_found c q now ms o)
unfolding claim_found claim_slot
claim_found-Given c q now ms none h = nothing e_notfound q (same q)
claim_found-Given c q now ms (some p) h = elim (Option-cases (lease_find_slot q p)) [
  | inl f ↦ rw f (nothing e_value q (same q))
  | inr (x, f) ↦
      let (a, b, s) = lease_find_slot-some q p x f in
      elim (Bool-cases (x.token == max_word)) [
        | inl e ↦ rw (f, e) (nothing e_value q (same q))
        | inr e ↦ elim (Bool-cases (lease_edit_slot c q p == 0)) [
          | inl g ↦
              rw (f, e, g)
                (lease_slot-Given c q now ms p x b s
                  (subst (λ (y : Slot). claimable now y ≡ true) s (h p refl)))
          | inr g ↦ rw (f, e, g) (nothing (lease_edit_slot c q p) q (same q))
        ]
      ]
]

db_queue_scan_claimable-claimable :
    (c : Context) (q : QueuePage) (now p : ℕ)
    → db_queue_scan_claimable c q now ≡ some p
    → claimable now (q.slot p) ≡ true
unfolding db_queue_scan_claimable
db_queue_scan_claimable-claimable c q now p h = elim (Bool-cases c.leases) [
  | inl g ↦ scan_from-claimable (q.tail - q.head + 1) q now q.head none p (cc (h, g))
  | inr g ↦ absurd (cc (h, g))
]

pub db_queue_claim-Given :
    (c : Context) (q : QueuePage) (now ms : ℕ)
    → Given q (lease_now c q now).1 ms (db_queue_claim c q now ms)
unfolding db_queue_claim
db_queue_claim-Given c q now ms =
    let n = (lease_now c q now).1 in
    elim (Bool-cases (ms == 0)) [
      | inl e ↦ rw e (nothing e_value q (same q))
      | inr e ↦ elim (Bool-cases ((lease_now c q now).0 == 0)) [
        | inr f ↦ rw (e, f) (nothing (lease_now c q now).0 q (same q))
        | inl f ↦
            rw (e, f)
              (claim_found-Given c q n ms (db_queue_scan_claimable c q n)
                (db_queue_scan_claimable-claimable c q n))
      ]
    ]
