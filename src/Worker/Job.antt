-- ===== src/Worker/Job.antt =====
-- One round of the worker: a job is done whole, or nothing has changed.
use cybou_db.Prelude.{
  ℕ, suc, ◌≤◌, ◌<◌, ◌≡◌, inl, inr, refl, sym, ap, ◌∙◌, ◌++◌, none, some, true, false, arith,
  if◌then◌else◌, ◌==◌, List, [], ◌∷◌, length, codes, c_string, Bool-cases, ==→eq, ==→ne, ne→==,
  split_at,
}
use cybou_db.Api.Codes.{ok_code, row_code, done_code}
use cybou_db.Api.Sql.{Sql, begin, commit, rollback, dequeue, insert_result, append_done, message_of}
use cybou_db.Api.View.{View, current, write, Unsaved}
use cybou_db.Api.Database.{
  Store, apply, IsData, insert_data, append_data, Quoteless, Database, Contract, Reliable,
}
use cybou_db.Worker.Loop.{
  Answer, fail, roll_back, commit_job, audit_job, record_job, read_job, step_job, prepare_job,
  process_one,
}

-- The store after the job `m`, which stood before `rest`, has been done.
abbrev pub with_job : Store → List ℕ → List (List ℕ) → Store
with_job t m rest = record t {
  inbox = rest;
  results = t.results ++ ((length m, c_string m) ∷ []);
  audit = t.audit ++ ((codes "done: " ++ c_string m) ∷ []);
}

pub Quoteless-c_string : (s : List ℕ) → Quoteless s → Quoteless (c_string s)
unfolding c_string
Quoteless-c_string [] q = q
Quoteless-c_string (c ∷ s) q = elim (Bool-cases (c == 0)) [
  | inl h ↦ rw h tt
  | inr h ↦ rw h (q.0, Quoteless-c_string s q.1)
]

-- The first message does not fit the worker's buffer.
abbrev pub TooLong : Store → Type 0
TooLong t = (m : List ℕ) × (rest : List (List ℕ)) × (t.inbox ≡ m ∷ rest) × (255 < length m)

module _ (d : Database) (k : Contract d) where
  -- What a round may answer, when `before` had been saved and `n` statements were alive.
  pub data Outcome (before : Store) (n : ℕ) (r : Answer d) : Type 0 where
    worked :
        (m : List ℕ) (rest : List (List ℕ))
        → r.0 ≡ 0
        → r.1 ≡ true
        → before.inbox ≡ m ∷ rest
        → length m ≤ 255
        → k.view r.2 ≡ record { saved = with_job before m rest; staged = none; live = n }
        → Outcome before n r
    idle :
        r.0 ≡ 0
        → r.1 ≡ false
        → before.inbox ≡ []
        → (k.view r.2).saved ≡ before
        → current (k.view r.2) ≡ before
        → (k.view r.2).live ≡ n
        → Outcome before n r
    failed :
        r.0 ≡ 1
        → r.1 ≡ false
        → (k.view r.2).saved ≡ before
        → (k.view r.2).live ≡ n
        → (Reliable d k → TooLong before)
        → Outcome before n r
    unsure :
        (m : List ℕ) (rest : List (List ℕ))
        → r.0 ≡ 1
        → r.1 ≡ false
        → before.inbox ≡ m ∷ rest
        → length m ≤ 255
        → (k.view r.2).saved ≡ with_job before m rest
        → (k.view r.2).live ≡ n
        → ¬ Reliable d k
        → Outcome before n r

  -- The transaction is open and has made `t` of what was saved.
  abbrev pub Open : Store → Store → ℕ → d.State → Type 0
  Open before t n s = k.view s ≡ record { saved = before; staged = some t; live = n }

  -- Whatever the transaction has made.
  abbrev pub Safe : Store → ℕ → d.State → Type 0
  Safe before n s = ((k.view s).saved ≡ before) × ((k.view s).live ≡ n)

  Open-Safe : (before t : Store) (n : ℕ) (s : d.State) → Open before t n s → Safe before n s
  Open-Safe before t n s e = (ap (λ (v : View Store). v.saved) e, ap (λ (v : View Store). v.live) e)

  Safe-Unsaved :
      (before : Store) (n : ℕ) (s s' : d.State)
      → Safe before n s
      → Unsaved (k.view s) (k.view s')
      → Safe before n s'
  Safe-Unsaved before n s s' h u = (u.saved_same ∙ h.0, u.live_same ∙ h.1)

  module _ (before : Store) (n : ℕ) where
    abbrev Why : Type 0
    Why = Reliable d k → TooLong before

    fail-Outcome : (s : d.State) → Why → Safe before n s → Outcome before n (fail d s)
    unfolding fail
    fail-Outcome s why h = failed refl refl h.0 h.1 why

    roll_back-Safe : (s : d.State) → Safe before n s → Safe before n (d.exec s rollback).1
    roll_back-Safe s h = elim (k.exec_rollback s) [
      | inl e ↦ (ap (λ (v : View Store). v.saved) e ∙ h.0, ap (λ (v : View Store). v.live) e ∙ h.1)
      | inr e ↦ (ap (λ (v : View Store). v.saved) e ∙ h.0, ap (λ (v : View Store). v.live) e ∙ h.1)
    ]

    roll_back-Outcome : (s : d.State) → Why → Safe before n s → Outcome before n (roll_back d 1 s)
    unfolding roll_back
    roll_back-Outcome s why h = let u = roll_back-Safe s h in failed refl refl u.0 u.1 why

    roll_back_idle :
        (s : d.State)
        → Open before before n s
        → before.inbox ≡ []
        → Outcome before n (roll_back d 0 s)
    unfolding roll_back
    roll_back_idle s o e =
        let u = roll_back-Safe s (Open-Safe before before n s o) in
        idle refl refl e u.0
          (elim (k.exec_rollback s) [
            | inl f ↦ ap current (f ∙ o)
            | inr f ↦ ap current (f ∙ ap (λ (v : View Store). record v { staged = none }) o)
          ])
          u.1

    fail_done :
        (m : List ℕ) (rest : List (List ℕ)) (s : d.State)
        → before.inbox ≡ m ∷ rest
        → length m ≤ 255
        → ¬ Reliable d k
        → (k.view s).saved ≡ with_job before m rest
        → (k.view s).live ≡ n
        → Outcome before n (fail d s)
    unfolding fail
    fail_done m rest s e l why v live = unsure m rest refl refl e l v live why

    commit_job-Outcome :
        (m : List ℕ) (rest : List (List ℕ)) (s : d.State)
        → before.inbox ≡ m ∷ rest
        → length m ≤ 255
        → Open before (with_job before m rest) n s
        → Outcome before n (commit_job d s)
    unfolding commit_job
    commit_job-Outcome m rest s e l o = elim (Bool-cases ((d.exec s commit).0 == ok_code)) [
      | inl h ↦ rw h (
          worked m rest refl refl e l (
            k.exec_commit s _ (ap (λ (v : View Store). v.staged) o) (==→eq _ ok_code h)
            ∙ ap (λ (v : View Store). record v { saved = with_job before m rest; staged = none })
                o))
      | inr h ↦
          let staged = ap (λ (v : View Store). v.staged) o in
          let why : ¬ Reliable d k = λ r. ==→ne _ ok_code h (r.commit_ok s _ staged) in
          let (either, live) = k.exec_commit_failed s _ staged (==→ne _ ok_code h) in
          let safe = Open-Safe before _ n s o in
          rw h (elim either [
            | inl kept ↦ fail-Outcome _ (λ r. absurd (why r)) (kept ∙ safe.0, live ∙ safe.1)
            | inr done ↦ fail_done m rest _ e l why done (live ∙ safe.1)
          ])
    ]

    -- A statement of the transaction that fails is rolled back; one that does not has its effect.
    data_step :
        (q : Sql) (t t' : Store) (s : d.State) (next : d.State → Answer d)
        → IsData q
        → Quoteless (message_of q)
        → Open before t n s
        → apply q t ≡ t'
        → ((s' : d.State) → Open before t' n s' → Outcome before n (next s'))
        → Outcome before n
            (let r = d.exec s q in if r.0 == ok_code then next r.1 else roll_back d 1 r.1)
    data_step q t t' s next i ql o e go = elim (Bool-cases ((d.exec s q).0 == ok_code)) [
      | inl h ↦ rw h (
          go _ (
            k.exec_data s q i ql (==→eq _ ok_code h)
            ∙ ap (λ (v : View Store). write v (apply q (current v))) o
            ∙ ap (λ (u : Store). record { saved = before; staged = some u; live = n }) e))
      | inr h ↦ rw h (
          roll_back-Outcome _ (λ r. absurd (==→ne _ ok_code h (r.data_ok s q i ql)))
            (Safe-Unsaved before n s _ (Open-Safe before t n s o) (
              k.exec_data_failed s q t i (ap (λ (v : View Store). v.staged) o)
                (==→ne _ ok_code h))))
    ]

    audit_job-Outcome :
        (m : List ℕ) (rest : List (List ℕ)) (s : d.State)
        → before.inbox ≡ m ∷ rest
        → length m ≤ 255
        → Quoteless m
        → Open before
            (record before {
              inbox = rest;
              results = before.results ++ ((length m, c_string m) ∷ []);
            })
            n
            s
        → Outcome before n (audit_job d m s)
    unfolding audit_job apply message_of
    audit_job-Outcome m rest s e l q o =
        data_step (append_done (c_string m)) _ (with_job before m rest) s (commit_job d)
          (append_data _) (Quoteless-c_string m q) o refl (λ s'. commit_job-Outcome m rest s' e l)

    record_job-Outcome :
        (m : List ℕ) (rest : List (List ℕ)) (s : d.State)
        → before.inbox ≡ m ∷ rest
        → length m ≤ 255
        → Quoteless m
        → Open before (record before { inbox = rest }) n s
        → Outcome before n (record_job d m s)
    unfolding record_job apply message_of
    record_job-Outcome m rest s e l q o =
        data_step (insert_result (length m) (c_string m)) _ _ s (audit_job d m) (insert_data _ _)
          (Quoteless-c_string m q) o refl (λ s'. audit_job-Outcome m rest s' e l q)

    -- A statement that is destroyed leaves the store.
    finalize-Safe :
        (s : d.State) (st : d.Stmt) (q : Sql)
        → k.Prepared s st q
        → Safe before (suc n) s
        → Safe before n (d.finalize s st)
    finalize-Safe s st q p h =
        let e = k.finalized s st q n p h.1 in
        (ap (λ (v : View Store). v.saved) e ∙ h.0, ap (λ (v : View Store). v.live) e)

    read_job-Outcome :
        (m : List ℕ) (rest : List (List ℕ)) (take : d.Stmt) (s : d.State)
        → before.inbox ≡ m ∷ rest
        → Quoteless m
        → k.Prepared s take dequeue
        → k.Took s take m
        → Open before (record before { inbox = rest }) (suc n) s
        → Outcome before n (read_job d take s)
    unfolding read_job
    read_job-Outcome m rest take s e q p took o = elim (split_at (length m) 256) [
      | inl short ↦ rw (k.message_fits s take m 255 took (omega arith)) (
          record_job-Outcome m rest _ e (omega arith) q (
            k.finalized s take dequeue n p (ap (λ (v : View Store). v.live) o)
            ∙ ap (λ (v : View Store). record v { live = n }) o))
      | inr long ↦ rw (ne→== _ ok_code (k.message_too_long s take m 255 took (omega arith))) (
          roll_back-Outcome _ (λ r. (m, rest, e, omega arith))
            (finalize-Safe s take dequeue p (Open-Safe before _ (suc n) s o)))
    ]

    abbrev Quiet : Type 0
    Quiet = (m : List ℕ) (rest : List (List ℕ)) → before.inbox ≡ m ∷ rest → Quoteless m

    step_job-Outcome :
        (take : d.Stmt) (s : d.State)
        → Quiet
        → k.Prepared s take dequeue
        → Open before before (suc n) s
        → Outcome before n (step_job d take s)
    unfolding step_job
    step_job-Outcome take s quiet p o = elim (Bool-cases ((d.step s take).0 == done_code)) [
      | inl h ↦ rw h (
          let r = k.dequeue_empty s take p (==→eq _ done_code h) in
          roll_back_idle _
            (k.finalized _ take dequeue n (k.stepped s take dequeue p)
                (ap (λ (v : View Store). v.live) (r.1 ∙ o))
              ∙ ap (λ (v : View Store). record v { live = n }) (r.1 ∙ o))
            (sym (ap (λ (v : View Store). (current v).inbox) o) ∙ r.0))
      | inr h ↦ rw h (elim (Bool-cases ((d.step s take).0 == row_code)) [
        | inl g ↦ rw g (
            let (m, rest, e, v, took) = k.dequeued s take p (==→eq _ row_code g) in
            let inbox = sym (ap (λ (v : View Store). (current v).inbox) o) ∙ e in
            read_job-Outcome m rest take _ inbox (quiet m rest inbox) (k.stepped s take dequeue p)
              took (v ∙ ap (λ (w : View Store). write w (record (current w) { inbox = rest })) o))
        | inr g ↦ rw g (
            roll_back-Outcome _
              (λ r. elim (r.dequeue_answers s take p) [
                | inl f ↦ absurd (==→ne _ row_code g f)
                | inr f ↦ absurd (==→ne _ done_code h f)
              ])
              (finalize-Safe _ take dequeue (k.stepped s take dequeue p) (
                Safe-Unsaved before (suc n) s _ (Open-Safe before before (suc n) s o) (
                  k.dequeue_failed s take before p (ap (λ (v : View Store). v.staged) o)
                    (==→ne _ row_code g)))))
      ])
    ]

    prepare_job-Outcome :
        (s : d.State) → Quiet → Open before before n s → Outcome before n (prepare_job d s)
    unfolding prepare_job
    prepare_job-Outcome s quiet o = elim (Bool-cases ((d.prepare s dequeue).0 == ok_code)) [
      | inl h ↦ rw h (
          let r = k.prepared s dequeue (==→eq _ ok_code h) in
          step_job-Outcome _ _ quiet r.0
            (r.1 ∙ ap (λ (v : View Store). record v { live = suc v.live }) o))
      | inr h ↦ rw h (
          roll_back-Outcome _ (λ r. absurd (==→ne _ ok_code h (r.prepare_ok s dequeue)))
            (Open-Safe before before n _ (k.prepare_failed s dequeue (==→ne _ ok_code h) ∙ o)))
    ]

    -- A round that starts outside a transaction, over messages with no quote, does one of four things.
    -- It takes the first message, of 255 bytes at most, and its row and its record are saved with that;
    -- or it finds the queue empty and leaves what was saved; or it answers 1 and leaves what was saved,
    -- which happens only on a machine that fails some call or where the message is longer; or it answers 1 and
    -- the first message, of 255 bytes at most, is gone with its row and its record saved, which happens only
    -- on a machine that fails some call, where a COMMIT that failed has reached the disk. It leaves no
    -- statement alive.
    pub process_one-Outcome :
        (s : d.State)
        → ((m : List ℕ) (rest : List (List ℕ)) → before.inbox ≡ m ∷ rest → Quoteless m)
        → k.view s ≡ record { saved = before; staged = none; live = n }
        → Outcome before n (process_one d s)
    unfolding process_one
    process_one-Outcome s quiet o = elim (Bool-cases ((d.exec s begin).0 == ok_code)) [
      | inl h ↦ rw h (
          prepare_job-Outcome _ quiet (
            k.exec_begin s (==→eq _ ok_code h)
            ∙ ap (λ (v : View Store). record v { staged = some v.saved }) o))
      | inr h ↦ rw h (
          let e = k.exec_begin_failed s (==→ne _ ok_code h) ∙ o in
          fail-Outcome _
            (λ r. absurd (==→ne _ ok_code h (r.begin_ok s (ap (λ (v : View Store). v.staged) o))))
            (ap (λ (v : View Store). v.saved) e, ap (λ (v : View Store). v.live) e))
    ]
