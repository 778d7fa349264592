-- ===== src/Queue/Fifo.antt =====
-- ENQUEUE and DEQUEUE keep the messages in their order.
use cybou_db.Prelude.{
  ℕ, suc, ◌+◌, ◌-◌, ◌^◌, ◌≤◌, ◌<◌, ◌≡◌, ◌⊎◌, inl, inr, refl, sym, ap, ap₂, ◌∙◌, Option, none, some,
  true, false, ◌&&◌, ◌==◌, leb, arith, Bool-cases, ==→eq, ==→ne, ne→==, eq→==, List, [], ◌∷◌, ◌++◌,
  length, le→ltb, leb→le, lt→leb, and_true,
}
use cybou_db.Leased.Tickets.{Slot, queued}
use cybou_db.Queue.Page.{
  QueuePage, Context, e_full, e_notfound, queue_seg_slots, q_max_segments, segment_of, entry_of,
  in_directory, move_head,
}
use cybou_db.Queue.Calls.{push_slot, first_for_push, db_queue_push, db_queue_pop, db_queue_peek}
use cybou_db.Queue.View.{values, values-same, values-suc, seen, view}
use cybou_db.Queue.Valid.{IsQueue, in_directory-Live}
use cybou_db.Queue.Advance.{move_head-IsQueue}
use cybou_db.Queue.Settled.{marked-IsQueue}
use cybou_db.Queue.Answer.{Open}
use cybou_db.Queue.Ends.{waiting, pushed, pushed-IsQueue, entry_of-tail}

-- What a push answers: the directory has no room for one more segment, or the message stands at the end.
pub data Pushed (q : QueuePage) (message : List ℕ) : ℕ × QueuePage → Type 0 where
  full :
      in_directory q q.tail ≡ false
      → q_max_segments ≤ segment_of q.tail - segment_of q.head
      → Pushed q message (e_full, q)
  joined :
      (q' : QueuePage)
      → view q' ≡ view q ++ (queued message ∷ [])
      → waiting q' ≡ waiting q ++ (message ∷ [])
      → IsQueue q'
      → Pushed q message (0, q')

view-pushed :
    (q : QueuePage) (m : List ℕ) → IsQueue q → view (pushed q m) ≡ view q ++ (queued m ∷ [])
view-pushed q m v =
    let none_added : 0 + q.tail ≡ q.tail = omega arith in
    values-suc q.tail 0 (seen (pushed q m))
    ∙ ap₂ (λ (l : List Slot) (x : Slot). l ++ (x ∷ []))
        (values-same q.tail 0 _ _ (λ j a b. rw (ne→== j q.tail (λ e. omega (arith, e, b))) refl))
        (ap (seen (pushed q m)) none_added
          ∙ rw (le→ltb q.tail q.head v.ordered, eq→== q.tail q.tail refl) refl)

waiting-pushed :
    (q : QueuePage) (m : List ℕ) → IsQueue q → waiting (pushed q m) ≡ waiting q ++ (m ∷ [])
waiting-pushed q m v =
    let f : ℕ → List ℕ = λ position. ((pushed q m).slot position).payload in
    let n : suc q.tail - q.head ≡ suc (q.tail - q.head) = omega (arith, v.ordered) in
    let e : q.head + (q.tail - q.head) ≡ q.tail = omega (arith, v.ordered) in
    ap (λ (k : ℕ). values k q.head f) n
    ∙ values-suc (q.tail - q.head) q.head f
    ∙ ap₂ (λ (l : List (List ℕ)) (x : List ℕ). l ++ (x ∷ []))
        (values-same (q.tail - q.head) q.head _ _
          (λ j a b. rw (ne→== j q.tail (λ p. omega (arith, p, b))) refl))
        (rw (eq→== (q.head + (q.tail - q.head)) q.tail e) refl)

push_slot-pushed :
    (c : Context) (q : QueuePage) (m : List ℕ)
    → Open c
    → IsQueue q
    → push_slot c q (first_for_push q) m ≡ (0, pushed q m)
unfolding push_slot
push_slot-pushed c q m o v =
    rw (o.page_can, o.segment_can, o.message_can, (entry_of-tail q v).1) refl

-- Full, or pushed.
pub db_queue_push-cases :
    (c : Context) (q : QueuePage) (message : List ℕ)
    → Open c
    → IsQueue q
    → length message < 2 ^ 32
    → ((in_directory q q.tail ≡ false)
        × (q_max_segments ≤ segment_of q.tail - segment_of q.head)
        × (db_queue_push c q message ≡ (e_full, q)))
      ⊎ (db_queue_push c q message ≡ (0, pushed q message))
unfolding db_queue_push
db_queue_push-cases c q m o v short =
    let entry = entry_of (first_for_push q) (segment_of q.tail) in
    let small = lt→leb (2 ^ 32) (length m) short in
    elim (Bool-cases (leb q.segments entry && leb q_max_segments entry)) [
      | inl e ↦
          let (a, b) = and_true (leb q.segments entry) (leb q_max_segments entry) e in
          let lacks =
            sym (entry_of-tail q v).1 ∙ le→ltb entry q.segments (leb→le q.segments entry a) in
          inl (
            lacks,
            omega (arith, leb→le q_max_segments entry b, (entry_of-tail q v).0),
            rw (o.queues_on, small, e) refl,
          )
      | inr e ↦ inr (rw (push_slot-pushed c q m o v, o.queues_on, small, e) refl)
    ]

-- In a file with queues whose pages can be copied, over a valid queue with room left in 64 bits, for a
-- message shorter than 4 GiB, and where the summary of the tail's segment is 0 if the directory has
-- that segment: db_queue_push answers CybouDB_E_FULL and keeps the queue only when the directory lacks the
-- tail's segment and spans its 495 already; otherwise it answers 0 and the queue is valid, with the message
-- added at the end of the list of its messages and of those that wait.
pub db_queue_push-Pushed :
    (c : Context) (q : QueuePage) (message : List ℕ)
    → Open c
    → IsQueue q
    → suc q.tail + queue_seg_slots < 2 ^ 64
    → length message < 2 ^ 32
    → (in_directory q q.tail ≡ true → q.ready_at (segment_of q.tail) ≡ 0)
    → Pushed q message (db_queue_push c q message)
db_queue_push-Pushed c q m o v room short ready = elim (db_queue_push-cases c q m o v short) [
  | inl (lacks, wide, e) ↦ rw e (full lacks wide)
  | inr e ↦ rw e (
      joined (pushed q m) (view-pushed q m v) (waiting-pushed q m v)
        (pushed-IsQueue q m v room ready))
]

-- What a peek and a pop answer, by the messages that wait.
pub data Popped (q : QueuePage)
    : List (List ℕ) → ℕ × Option ℕ → ℕ × QueuePage × Option (List ℕ) → Type 0 where
  empty : Popped q [] (e_notfound, none) (e_notfound, q, none)
  popped :
      (m : List ℕ) (l : List (List ℕ)) (q' : QueuePage)
      → waiting q' ≡ l
      → IsQueue q'
      → q'.claim ≡ q'.head
      → Popped q (m ∷ l) (0, some (length m)) (0, q', some m)

-- In a file with queues whose pages can be copied, over a valid queue, db_queue_peek and db_queue_pop
-- answer CybouDB_E_NOTFOUND and keep the queue when no message waits; otherwise they answer 0, the one with the
-- length of the first message that waits and the other with that message, and the pop's queue is valid,
-- holds the others in their order, and has its claim cursor at its head.
pub db_queue_pop-Popped :
    (c : Context) (q : QueuePage)
    → Open c
    → IsQueue q
    → Popped q (waiting q) (db_queue_peek c q) (db_queue_pop c q)
unfolding db_queue_peek db_queue_pop move_head values
db_queue_pop-Popped c q o v = elim (Bool-cases (q.head == q.tail)) [
  | inl e ↦
      let n : q.tail - q.head ≡ 0 = omega (arith, ==→eq q.head q.tail e) in
      rw (o.queues_on, e, n) empty
  | inr e ↦
      let lt : q.head < q.tail = omega (arith, v.ordered, ==→ne q.head q.tail e) in
      let n : q.tail - q.head ≡ suc (q.tail - suc q.head) = omega (arith, lt) in
      let w = move_head-IsQueue q (suc q.head) v (omega arith) lt in
      rw
        (
          o.queues_on,
          e,
          in_directory-Live q q.head v (omega arith, lt),
          o.message_can,
          o.page_can,
          n,
        )
        (popped (q.slot q.head).payload _ _ refl (marked-IsQueue _ (suc q.head) q.time_floor w)
          refl)
]
