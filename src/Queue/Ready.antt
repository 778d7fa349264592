-- ===== src/Queue/Ready.antt =====
-- The summary of a segment is the least time at which one of its live messages can be claimed.
use cybou_db.Prelude.{
  ℕ, zero, suc, ◌+◌, ◌≤◌, ◌<◌, ◌≡◌, inl, inr, ◌↔◌, refl, ap, subst, Bool, true, false,
  if◌then◌else◌, leb, ltb, arith, Bool-cases, le→leb, leb→le, ltb→lt, ltb→le, and_true,
}
use cybou_db.Leased.Tickets.{Held, free, claimed, finished, Slot, claimable}
use cybou_db.Queue.Page.{
  QueuePage, Context, max_word, segment_of, segment_low, segment_high, ready_step, least_ready,
  segment_ready, entries_valid, lease_summaries_valid,
}
use cybou_db.Queue.Valid.{Live, Trusted, IsQueue}

-- A message in this state, with this deadline, can be claimed.
abbrev pub can_claim : Held → ℕ → ℕ → Bool
can_claim s until now = elim s [ free ↦ true | claimed ↦ leb until now | finished ↦ false ]

ready_step-le-best :
    (s : Held) (until best : ℕ) (rest : ℕ → ℕ)
    → ((b : ℕ) → rest b ≤ b)
    → ready_step s until best rest ≤ best
ready_step-le-best free until best rest h = omega arith
ready_step-le-best claimed until best rest h =
    ground (arith, h (if ltb until best then until else best))
ready_step-le-best finished until best rest h = h best

ready_step-le-now :
    (s : Held) (until best now : ℕ) (rest : ℕ → ℕ)
    → ((b : ℕ) → rest b ≤ b)
    → can_claim s until now ≡ true
    → ready_step s until best rest ≤ now
ready_step-le-now free until best now rest h e = omega arith
ready_step-le-now claimed until best now rest h e =
    ground (arith, h (if ltb until best then until else best))
ready_step-le-now finished until best now rest h e = cc e

ready_step-le-rest :
    (s : Held) (until best now : ℕ) (rest : ℕ → ℕ)
    → ((b : ℕ) → rest b ≤ now)
    → ready_step s until best rest ≤ now
ready_step-le-rest free until best now rest h = omega arith
ready_step-le-rest claimed until best now rest h = h _
ready_step-le-rest finished until best now rest h = h best

le-ready_step :
    (s : Held) (until best k : ℕ) (rest : ℕ → ℕ)
    → k ≤ best
    → ((now : ℕ) → can_claim s until now ≡ true → k ≤ now)
    → ((b : ℕ) → k ≤ b → k ≤ rest b)
    → k ≤ ready_step s until best rest
le-ready_step free until best k rest h g r = g 0 refl
le-ready_step claimed until best k rest h g r =
    r _ (ground (arith, g until (le→leb until until (omega arith))))
le-ready_step finished until best k rest h g r = r best h

least_ready-le-best : (n start best : ℕ) (f : ℕ → Slot) → least_ready n start best f ≤ best
unfolding least_ready
least_ready-le-best zero start best f = omega arith
least_ready-le-best (suc n) start best f =
    ready_step-le-best (f start).state (f start).until best _
      (λ b. least_ready-le-best n (suc start) b f)

-- The walk is at most the time at which a message that it passes can be claimed.
least_ready-le :
    (n start best position now : ℕ) (f : ℕ → Slot)
    → start ≤ position
    → position < start + n
    → claimable now (f position) ≡ true
    → least_ready n start best f ≤ now
unfolding least_ready
least_ready-le zero start best position now f a b g = absurd (omega arith)
least_ready-le (suc n) start best position now f a b g = elim (Bool-cases (ltb start position)) [
  | inl e ↦ ready_step-le-rest (f start).state (f start).until best now _ (λ best'.
      least_ready-le n (suc start) best' position now f (ltb→lt start position e) (omega arith) g)
  | inr e ↦
      let same : position ≡ start = omega (arith, ltb→le start position e) in
      ready_step-le-now (f start).state (f start).until best now _
        (λ best'. least_ready-le-best n (suc start) best' f)
        (subst (λ (x : ℕ). claimable now (f x) ≡ true) same g)
]

-- And it is the greatest such bound that `best` allows.
le-least_ready :
    (n start best k : ℕ) (f : ℕ → Slot)
    → k ≤ best
    → ((position now : ℕ)
        → start ≤ position
        → position < start + n
        → claimable now (f position) ≡ true
        → k ≤ now)
    → k ≤ least_ready n start best f
unfolding least_ready
le-least_ready zero start best k f h g = h
le-least_ready (suc n) start best k f h g =
    le-ready_step (f start).state (f start).until best k _ h
      (λ now e. g start now (omega arith) (omega arith) e)
      (λ b r.
        le-least_ready n (suc start) b k f r (λ p now x y e. g p now (omega arith) (omega arith) e))

pub segment_ready-le :
    (q : QueuePage) (position now : ℕ)
    → Live q position
    → claimable now (q.slot position) ≡ true
    → segment_ready q (segment_of position) ≤ now
unfolding segment_ready
segment_ready-le q position now (a, b) g =
    let low : segment_low q (segment_of position) ≤ position = ground arith in
    let high : position < segment_high q (segment_of position) = ground arith in
    least_ready-le _ _ max_word position now q.slot low (omega arith) g

le-segment_ready :
    (q : QueuePage) (segment k : ℕ)
    → k ≤ max_word
    → ((position now : ℕ)
        → Live q position
        → segment_of position ≡ segment
        → claimable now (q.slot position) ≡ true
        → k ≤ now)
    → k ≤ segment_ready q segment
unfolding segment_ready
le-segment_ready q segment k h g =
    le-least_ready _ _ max_word k q.slot h
      (λ p now x y e. g p now (ground arith, ground arith) (ground arith) e)

entries_valid-le :
    (n segment i : ℕ) (q : QueuePage)
    → entries_valid n segment q ≡ true
    → segment ≤ i
    → i < segment + n
    → q.ready_at i ≤ segment_ready q i
unfolding entries_valid
entries_valid-le zero segment i q e a b = absurd (omega arith)
entries_valid-le (suc n) segment i q e a b =
    let (x, y) =
      and_true (leb (q.ready_at segment) (segment_ready q segment))
        (entries_valid n (suc segment) q) e in
    elim (Bool-cases (ltb segment i)) [
      | inl h ↦ entries_valid-le n (suc segment) i q y (ltb→lt segment i h) (omega arith)
      | inr h ↦
          let same : segment ≡ i = omega (arith, ltb→le segment i h) in
          subst (λ (s : ℕ). q.ready_at s ≤ segment_ready q s) same
            (leb→le (q.ready_at segment) (segment_ready q segment) x)
    ]

le-entries_valid :
    (n segment : ℕ) (q : QueuePage)
    → ((i : ℕ) → q.ready_at i ≤ segment_ready q i)
    → entries_valid n segment q ≡ true
unfolding entries_valid
le-entries_valid zero segment q h = refl
le-entries_valid (suc n) segment q h =
    rw
      (
        le→leb (q.ready_at segment) (segment_ready q segment) (h segment),
        le-entries_valid n (suc segment) q h,
      )
      refl

-- The directory names the segment of every live message.
abbrev pub Named : QueuePage → Type 0
Named q =
    (position : ℕ)
    → Live q position
    → (q.first_seg ≤ segment_of position) × (segment_of position < q.first_seg + q.segments)

pub IsQueue-Named : (q : QueuePage) → IsQueue q → Named q
IsQueue-Named q v p (a, b) =
    let f = v.based (omega arith) in let c = v.covered (omega arith) in (omega arith, omega arith)

-- In a file with leases, where the directory names every segment that holds a live message and a
-- summary is a 64-bit word, lease_summaries_valid accepts the summaries exactly when none is above the
-- time at which a live message of its segment can be claimed. A summary below that time is accepted too.
pub lease_summaries_valid-iff-Trusted :
    (c : Context) (q : QueuePage)
    → c.leases ≡ true
    → Named q
    → ((segment : ℕ) → q.ready_at segment ≤ max_word)
    → (lease_summaries_valid c q ≡ true) ↔ Trusted q
unfolding lease_summaries_valid
lease_summaries_valid-iff-Trusted c q l named words = rw l (
  λ e p now live g.
      let (a, b) = named p live in
      omega (
        arith,
        entries_valid-le q.segments q.first_seg (segment_of p) q e a b,
        segment_ready-le q p now live g,
      ),
  λ t. le-entries_valid q.segments q.first_seg q (λ i.
      le-segment_ready q i (q.ready_at i) (words i)
        (λ p now live same g. omega (arith, t p now live g, ap q.ready_at same))),
)
