-- ===== src/Queue/Settle.antt =====
-- A live slot is rewritten and the summary of its segment read again: the queue stays valid, and the list
-- of its messages has that one changed.
use cybou_db.Prelude.{
  ℕ, ◌≤◌, ◌≡◌, inl, inr, refl, ap, subst, true, ◌==◌, arith, Bool-cases, update, update_ne,
  update_all, ==→eq, ==→ne, le→ltb,
}
use cybou_db.Leased.Tickets.{Held, Slot, claimable}
use cybou_db.Queue.Page.{QueuePage, Context, segment_of, segment_ready, lease_seg_refresh}
use cybou_db.Queue.Calls.{with_slot}
use cybou_db.Queue.View.{values, values-same, seen, view}
use cybou_db.Queue.Valid.{Live, Trusted, IsQueue}
use cybou_db.Queue.Ready.{segment_ready-le}

-- The queue after both.
abbrev pub settled : QueuePage → ℕ → Slot → QueuePage
settled q position x =
    let q' = with_slot q position x in
    record q' {
      ready_at = update q.ready_at (segment_of position) (segment_ready q' (segment_of position));
    }

pub lease_seg_refresh-settled :
    (c : Context) (q : QueuePage) (position : ℕ) (x : Slot)
    → c.leases ≡ true
    → lease_seg_refresh c (with_slot q position x) position ≡ settled q position x
unfolding lease_seg_refresh
lease_seg_refresh-settled c q position x l = rw l refl

settled-Trusted :
    (q : QueuePage) (position : ℕ) (x : Slot) → Trusted q → Trusted (settled q position x)
settled-Trusted q position x t j now live g =
    elim (Bool-cases (segment_of j == segment_of position)) [
      | inl e ↦
          let same = ==→eq (segment_of j) (segment_of position) e in
          rw e (
            subst (λ (s : ℕ). segment_ready (with_slot q position x) s ≤ now) same
              (segment_ready-le (with_slot q position x) j now live g))
      | inr e ↦
          let other = ==→ne (segment_of j) (segment_of position) e in
          rw e (
            t j now live (
              subst (λ (y : Slot). claimable now y ≡ true)
                (update_ne q.slot position j x (λ p. other (ap segment_of p))) g))
    ]

pub settled-IsQueue :
    (q : QueuePage) (position : ℕ) (x : Slot)
    → IsQueue q
    → (x.state ≡ Held.finished → x.until ≡ 0)
    → IsQueue (settled q position x)
settled-IsQueue q position x v clear = record {
  ordered = v.ordered;
  bounded = v.bounded;
  based = v.based;
  covered = v.covered;
  drained = v.drained;
  trusted = settled-Trusted q position x v.trusted;
  cleared = λ j live.
      update_all (λ (y : Slot). y.state ≡ Held.finished → y.until ≡ 0) q.slot position x j clear
        (v.cleared j live);
}

seen-settled :
    (q : QueuePage) (position : ℕ) (x : Slot) (j : ℕ)
    → Live q position
    → seen (settled q position x) j ≡ update (seen q) position x j
seen-settled q position x j (a, b) = elim (Bool-cases (j == position)) [
  | inl e ↦ rw (e, le→ltb j q.head (omega (arith, ==→eq j position e))) refl
  | inr e ↦ rw e refl
]

pub view-settled :
    (q : QueuePage) (position : ℕ) (x : Slot)
    → Live q position
    → view (settled q position x) ≡ values q.tail 0 (update (seen q) position x)
view-settled q position x live =
    values-same q.tail 0 _ _ (λ j a b. seen-settled q position x j live)
