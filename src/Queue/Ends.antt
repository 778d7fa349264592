-- ===== src/Queue/Ends.antt =====
-- ENQUEUE and DEQUEUE: the ends of the queue.
use cybou_db.Prelude.{
  ℕ, suc, ◌+◌, ◌-◌, ◌^◌, ◌<◌, ◌≡◌, ◌≢◌, inl, inr, refl, ap, ◌∙◌, subst, true, false, if◌then◌else◌,
  ◌==◌, ltb, arith, Bool-cases, ==→eq, ==→ne, ne→==, List, lt→ltb, le→ltb, update, update_self,
  update_ne,
}
use cybou_db.Leased.Tickets.{Slot, queued, claimable}
use cybou_db.Queue.Page.{QueuePage, queue_seg_slots, segment_of, entry_of, in_directory}
use cybou_db.Queue.Calls.{first_for_push}
use cybou_db.Queue.View.{values}
use cybou_db.Queue.Valid.{Trusted, IsQueue}

-- The messages from the head on, which are what a queue without leases holds.
abbrev pub waiting : QueuePage → List (List ℕ)
waiting q = values (q.tail - q.head) q.head (λ position. (q.slot position).payload)

-- What a push leaves, by whether the directory has the segment of the tail.
abbrev pub pushed : QueuePage → List ℕ → QueuePage
pushed q message =
    let segment = segment_of q.tail in
    record q {
      slot = update q.slot q.tail (queued message);
      ready_at = if in_directory q q.tail then q.ready_at else update q.ready_at segment 0;
      claim = q.head;
      tail = suc q.tail;
      segments = if in_directory q q.tail then q.segments else suc q.segments;
      first_seg = first_for_push q;
    }

-- The directory of a valid queue and its tail: the queue is empty, the last segment has room, or it has none.
pub data Tail (q : QueuePage) : Type 0 where
  drained :
      q.head ≡ q.tail
      → q.segments ≡ 0
      → first_for_push q ≡ segment_of q.tail
      → in_directory q q.tail ≡ false
      → Tail q
  roomy :
      q.head < q.tail
      → segment_of q.tail ≡ segment_of (q.tail - 1)
      → q.first_seg + q.segments ≡ suc (segment_of q.tail)
      → first_for_push q ≡ q.first_seg
      → in_directory q q.tail ≡ true
      → Tail q
  filled :
      q.head < q.tail
      → segment_of q.tail ≡ suc (segment_of (q.tail - 1))
      → q.first_seg + q.segments ≡ segment_of q.tail
      → first_for_push q ≡ q.first_seg
      → in_directory q q.tail ≡ false
      → Tail q

first_for_push-named : (q : QueuePage) → 0 < q.segments → first_for_push q ≡ q.first_seg
first_for_push-named q lt = rw (ne→== q.segments 0 (λ e. omega (arith, e, lt))) refl

pub Tail-cases : (q : QueuePage) → IsQueue q → Tail q
Tail-cases q v = elim (Bool-cases (q.head == q.tail)) [
  | inl e ↦
      let h = ==→eq q.head q.tail e in
      let z = v.drained h in drained h z (rw z refl) (rw z (le→ltb _ 0 (omega arith)))
  | inr e ↦
      let lt : q.head < q.tail = omega (arith, v.ordered, ==→ne q.head q.tail e) in
      let b = v.based lt in
      let c = v.covered lt in
      let f = first_for_push-named q (omega (arith, b, c, lt)) in
      elim (Bool-cases (segment_of q.tail == segment_of (q.tail - 1))) [
        | inl s ↦
            let t = ==→eq (segment_of q.tail) (segment_of (q.tail - 1)) s in
            roomy lt t (omega (arith, c, t)) f (lt→ltb _ _ (omega (arith, b, c, t, v.bounded)))
        | inr s ↦
            let t : segment_of q.tail ≡ suc (segment_of (q.tail - 1)) =
              omega (arith, lt, ==→ne (segment_of q.tail) (segment_of (q.tail - 1)) s) in
            filled lt t (omega (arith, c, t)) f (le→ltb _ _ (omega (arith, b, c, t, v.bounded)))
      ]
]

-- The entry that the tail wants, and whether the directory has it.
pub entry_of-tail :
    (q : QueuePage)
    → IsQueue q
    → (entry_of (first_for_push q) (segment_of q.tail) ≡ segment_of q.tail - segment_of q.head)
      × (ltb (entry_of (first_for_push q) (segment_of q.tail)) q.segments ≡ in_directory q q.tail)
entry_of-tail q v = elim (Tail-cases q v) [
  | drained h z f d ↦ (omega (arith, f, h, v.bounded), rw d (le→ltb _ _ (omega (arith, z))))
  | roomy lt t c f d ↦ (omega (arith, f, v.based lt, v.bounded), rw f refl)
  | filled lt t c f d ↦ (omega (arith, f, v.based lt, v.bounded), rw f refl)
]

pub pushed-based : (q : QueuePage) (m : List ℕ) → IsQueue q → first_for_push q ≡ segment_of q.head
pushed-based q m v = elim (Tail-cases q v) [
  | drained h z f d ↦ omega (arith, f, h)
  | roomy lt t c f d ↦ f ∙ v.based lt
  | filled lt t c f d ↦ f ∙ v.based lt
]

pub pushed-covered :
    (q : QueuePage) (m : List ℕ)
    → IsQueue q
    → (pushed q m).first_seg + (pushed q m).segments ≡ suc (segment_of q.tail)
pushed-covered q m v = elim (Tail-cases q v) [
  | drained h z f d ↦ rw (d, z) (omega (arith, f))
  | roomy lt t c f d ↦ rw d (omega (arith, f, c))
  | filled lt t c f d ↦ rw d (omega (arith, f, c))
]

-- The summary of the tail's segment is 0 after a push, where it was 0 or the segment is new.
pushed-ready :
    (q : QueuePage) (m : List ℕ)
    → (in_directory q q.tail ≡ true → q.ready_at (segment_of q.tail) ≡ 0)
    → (pushed q m).ready_at (segment_of q.tail) ≡ 0
pushed-ready q m h = elim (Bool-cases (in_directory q q.tail)) [
  | inl e ↦ rw e (h e)
  | inr e ↦ rw (e, update_self q.ready_at (segment_of q.tail) 0) refl
]

pushed-Trusted :
    (q : QueuePage) (m : List ℕ)
    → Trusted q
    → (pushed q m).ready_at (segment_of q.tail) ≡ 0
    → Trusted (pushed q m)
pushed-Trusted q m t z j now (a, b) g = elim (Bool-cases (segment_of j == segment_of q.tail)) [
  | inl e ↦
      let same = ==→eq (segment_of j) (segment_of q.tail) e in
      let r : (pushed q m).ready_at (segment_of j) ≡ 0 =
        ap (λ (s : ℕ). (pushed q m).ready_at s) same ∙ z in
      omega (arith, r)
  | inr e ↦
      let other = ==→ne (segment_of j) (segment_of q.tail) e in
      let apart : j ≢ q.tail = λ p. other (ap segment_of p) in
      let old =
        t j now (a, omega (arith, b, apart))
          (subst (λ (y : Slot). claimable now y ≡ true) (update_ne q.slot q.tail j (queued m) apart)
            g) in
      elim (Bool-cases (in_directory q q.tail)) [ inl d ↦ rw d old | inr d ↦ rw (d, e) old ]
]

pub pushed-IsQueue :
    (q : QueuePage) (m : List ℕ)
    → IsQueue q
    → suc q.tail + queue_seg_slots < 2 ^ 64
    → (in_directory q q.tail ≡ true → q.ready_at (segment_of q.tail) ≡ 0)
    → IsQueue (pushed q m)
pushed-IsQueue q m v room h = record {
  ordered = omega (arith, v.ordered);
  bounded = room;
  based = λ lt. pushed-based q m v;
  covered = λ lt. pushed-covered q m v ∙ omega arith;
  drained = λ e. absurd (omega (arith, e, v.ordered));
  trusted = pushed-Trusted q m v.trusted (pushed-ready q m h);
  cleared = λ j live. elim (Bool-cases (j == q.tail)) [
    | inl e ↦ rw e (λ f. refl)
    | inr e ↦
        let apart = ==→ne j q.tail e in rw e (v.cleared j (live.0, omega (arith, live.1, apart)))
  ];
}
