-- ===== src/Queue/Drain.antt =====
-- A worker that claims a message and acknowledges it, round by round.
use cybou_db.Prelude.{
  ℕ, zero, suc, ◌+◌, ◌-◌, ◌^◌, ◌≤◌, ◌<◌, ◌≡◌, inl, inr, refl, ap, ◌∙◌, subst, Option, none, some,
  true, ◌&&◌, ◌||◌, leb, ltb, arith, Bool-cases, and_true, List, lt→ltb, le→leb, ltb→le, leb→le,
}
use cybou_db.Leased.Tickets.{finished, Slot, Ticket, take_first, ack}
use cybou_db.Queue.Page.{QueuePage, Context, e_lease, max_word, is_finished}
use cybou_db.Queue.Calls.{Claim, db_queue_claim, db_queue_ack}
use cybou_db.Queue.View.{seen, view}
use cybou_db.Queue.Valid.{Live, IsQueue}
use cybou_db.Queue.Answer.{Serving, Answer, refused, done, seen-Live}
use cybou_db.Queue.Settled.{db_queue_ack-Answer}
use cybou_db.Queue.Claimed.{Handed, empty, worn_out, past_end, handed, db_queue_claim-Handed}
use cybou_db.Queue.Clock.{db_queue_ack-time_floor, lease_now-in_time}
use cybou_db.Queue.Left.{values-workable, workable-values, unfinished-values, unfinished-none}
use cybou_db.Queue.Turns.{workable, unfinished, all_workable, idle, turned, Turn-cases}

-- What was handed out is acknowledged.
unfoldable pub acknowledged : Context → QueuePage → Option (ℕ × ℕ) → QueuePage
acknowledged c q none = q
acknowledged c q (some t) = (db_queue_ack c q t.0 t.1).1

unfoldable pub worker_loop : ℕ → Context → ℕ → ℕ → QueuePage → QueuePage
worker_loop zero c now ms q = q
worker_loop (suc rounds) c now ms q =
    let r = db_queue_claim c q now ms in worker_loop rounds c now ms (acknowledged c r.1 r.2)

-- A valid queue whose clock is not ahead and whose messages are workable.
record IsServed (now : ℕ) (q : QueuePage) : Type 0 where
  valid : IsQueue q
  in_time : q.time_floor ≤ now
  workable_all : all_workable now (view q) ≡ true

some-eq : {A : Type 0} (a b : A) → some a ≡ some b → a ≡ b
some-eq {A} a b e = ap (λ (o : Option A). elim o [ none ↦ a | some x ↦ x ]) e

-- The queue that an answer holds, where the list is known.
done-Answer :
    (q : QueuePage) (o : Option (List Slot)) (r : ℕ × QueuePage) (l : List Slot)
    → Answer e_lease q o r
    → o ≡ some l
    → (view r.1 ≡ l) × IsQueue r.1
done-Answer q o r l refused e = cc e
done-Answer q o r l (done l' q' w v) e = (w ∙ some-eq l' l e, v)

-- What a round leaves, by the turn that the list takes.
abbrev Round : ℕ → QueuePage → QueuePage → Type 0
Round now q q' = IsServed now q' × (unfinished (view q') ≡ unfinished (view q) - 1)

idle-Round :
    (c : Context) (q : QueuePage) (now ms : ℕ) (o : Option (Ticket × List Slot)) (r : Claim)
    → Handed q now ms o r
    → o ≡ none
    → IsServed now q
    → unfinished (view q) ≡ 0
    → Round now q (acknowledged c r.1 r.2)
unfolding acknowledged
idle-Round c q now ms o r empty e v u = (v, omega (arith, u))
idle-Round c q now ms o r (worn_out t l w) e v u = cc e
idle-Round c q now ms o r (past_end t l k w) e v u = cc e
idle-Round c q now ms o r (handed t l q' k w a b f) e v u = cc e

turned-Round :
    (c : Context) (q : QueuePage) (now ms : ℕ) (o : Option (Ticket × List Slot)) (r : Claim)
    → Serving c
    → now + ms < 2 ^ 64
    → Handed q now ms o r
    → (t : Ticket) (l' l'' : List Slot) → o ≡ some (t, l')
    → t.token < 2 ^ 64
    → ack t.position t.token l' ≡ some l''
    → unfinished (view q) ≡ suc (unfinished l'')
    → all_workable now l'' ≡ true
    → Round now q (acknowledged c r.1 r.2)
unfolding acknowledged
turned-Round c q now ms o r s fits empty t l' l'' e k f u w = cc e
turned-Round c q now ms o r s fits (worn_out t' l n) t l' l'' e k f u w =
    let same = some-eq (t', l) (t, l') e in
    absurd (omega (arith, k, n, ap (λ (p : Ticket × List Slot). p.0.token) same))
turned-Round c q now ms o r s fits (past_end t' l n late) t l' l'' e k f u w =
    absurd (omega (arith, fits, late))
turned-Round c q now ms o r s fits (handed t' l q' n m a b floor) t l' l'' e k f u w =
    let same = some-eq (t', l) (t, l') e in
    let acked : ack t'.position t'.token (view q') ≡ some l'' =
      ap (λ (x : List Slot). ack t'.position t'.token x) a
      ∙ ap (λ (p : Ticket × List Slot). ack p.0.position p.0.token p.1) same
      ∙ f in
    let (x, y) = done-Answer q' _ _ l'' (db_queue_ack-Answer c q' t'.position t'.token s b) acked in
    (
      record {
        valid = y;
        in_time = omega (arith, db_queue_ack-time_floor c q' t'.position t'.token, floor);
        workable_all = ap (λ (z : List Slot). all_workable now z) x ∙ w;
      },
      omega (arith, u, ap (λ (z : List Slot). unfinished z) x),
    )

workable-token : (now : ℕ) (x : Slot) → workable now x ≡ true → x.token ≤ max_word
workable-token now x h =
    leb→le x.token max_word
      (and_true (leb x.token max_word)
        (is_finished x.state || (leb x.until now && ltb x.token max_word)) h).0

workable-seen :
    (q : QueuePage) (now j : ℕ)
    → ((i : ℕ) → (q.slot i).token ≤ max_word)
    → ((i : ℕ) → Live q i → workable now (q.slot i) ≡ true)
    → j < q.tail
    → workable now (seen q j) ≡ true
workable-seen q now j words ready lt = elim (Bool-cases (ltb j q.head)) [
  | inl e ↦ rw (e, le→leb (q.slot j).token max_word (words j)) refl
  | inr e ↦ rw e (ready j (ltb→le j q.head e, lt))
]

-- A round of the worker, where its clock is not behind the queue's.
worker-Round :
    (c : Context) (q : QueuePage) (now ms : ℕ)
    → Serving c
    → 0 < ms
    → now + ms < 2 ^ 64
    → IsServed now q
    → let r = db_queue_claim c q now ms in Round now q (acknowledged c r.1 r.2)
worker-Round c q now ms s some_time fits v =
    let n = lease_now-in_time c q now s v.in_time in
    let words : (j : ℕ) → Live q j → (q.slot j).token ≤ max_word = λ j live.
      workable-token now (q.slot j) (
        subst (λ (x : Slot). workable now x ≡ true) (seen-Live q j live)
          (workable-values q.tail 0 now (seen q) j v.workable_all (omega arith)
            (omega (arith, live.1)))) in
    let h =
      subst (λ (k : ℕ). Handed q k ms (take_first k ms (view q)) (db_queue_claim c q now ms)) n
        (db_queue_claim-Handed c q now ms s v.valid words some_time) in
    elim (Turn-cases now ms (view q) v.workable_all) [
      | idle e u ↦ idle-Round c q now ms _ _ h e v u
      | turned t l' l'' e k f u w ↦ turned-Round c q now ms _ _ s fits h t l' l'' e k f u w
    ]

worker_loop-IsServed :
    (rounds : ℕ) (c : Context) (q : QueuePage) (now ms : ℕ)
    → Serving c
    → 0 < ms
    → now + ms < 2 ^ 64
    → IsServed now q
    → let r = worker_loop rounds c now ms q in
      IsServed now r × (unfinished (view r) ≡ unfinished (view q) - rounds)
unfolding worker_loop
worker_loop-IsServed zero c q now ms s some_time fits v = (v, omega arith)
worker_loop-IsServed (suc rounds) c q now ms s some_time fits v =
    let r = db_queue_claim c q now ms in
    let (w, u) = worker-Round c q now ms s some_time fits v in
    let (x, y) = worker_loop-IsServed rounds c (acknowledged c r.1 r.2) now ms s some_time fits w in
    (x, omega (arith, y, u))

-- In a file with queues and leases whose pages can be copied, over a valid queue whose tokens are 64-bit words
-- and whose clock is not past a time, where each live message is finished or else not leased past that time
-- with a token that can be raised: a worker that claims at that time for some milliseconds, which end within 64 bits, and
-- acknowledges what it was handed, has after as many rounds as there are positions between the head and
-- the tail left every live message finished, in a valid queue.
pub worker_loop-finishes :
    (c : Context) (q : QueuePage) (now ms rounds : ℕ)
    → Serving c
    → IsQueue q
    → ((j : ℕ) → (q.slot j).token ≤ max_word)
    → ((j : ℕ) → Live q j → workable now (q.slot j) ≡ true)
    → q.time_floor ≤ now
    → 0 < ms
    → now + ms < 2 ^ 64
    → q.tail - q.head ≤ rounds
    → let r = worker_loop rounds c now ms q in
      IsQueue r × ((j : ℕ) → Live r j → (r.slot j).state ≡ finished)
worker_loop-finishes c q now ms rounds s v words ready in_time some_time fits enough =
    let r = worker_loop rounds c now ms q in
    let served : IsServed now q = record {
      valid = v;
      in_time = in_time;
      workable_all =
          values-workable q.tail 0 now (seen q)
            (λ j a b. workable-seen q now j words ready (omega arith));
    } in
    let (w, u) = worker_loop-IsServed rounds c q now ms s some_time fits served in
    let few =
      unfinished-values q.tail 0 q.head (seen q) (omega arith)
        (λ j a. rw (lt→ltb j q.head a) refl) in
    (
      w.valid,
      λ j live.
          subst (λ (x : Slot). x.state ≡ finished) (seen-Live r j live)
            (unfinished-none r.tail 0 (seen r) j (omega (arith, u, few, enough)) (omega arith)
              (omega (arith, live.1))),
    )
