-- ===== src/Worker/Main.antt =====
-- The whole of examples/worker.c: each of the three jobs is done once, or the program answers 1.
use cybou_db.Prelude.{
  ℕ, zero, suc, ◌≡◌, ◌⊎◌, inl, inr, refl, ap, ◌∙◌, ◌++◌, none, arith, ◌==◌, List, [], ◌∷◌, codes,
  c_string, Bool-cases, ==→eq, ==→ne,
}
use cybou_db.Api.Codes.{ok_code}
use cybou_db.Api.Sql.{Sql, read_audit, message_of}
use cybou_db.Api.View.{View, current, write}
use cybou_db.Api.Database.{
  Store, empty_store, apply, IsData, enqueue_data, results_data, inbox_data, audit_data,
  reporting_data, Quoteless, Database, Contract, Reliable,
}
use cybou_db.Worker.Loop.{
  exec_all, schema, jobs, Exit, finish, reported, worked, queued, scheduled, main,
}
use cybou_db.Worker.Drain.{with_jobs, Drained, all_done, stopped, work-Drained}
use cybou_db.Worker.Report.{Jobs, jobs_of, Reported, report-Reported}

-- What the three jobs leave: a row and a record for each, in the order of the queue.
abbrev pub three_jobs : Jobs
three_jobs = record {
  inbox = [];
  results = (5, codes "alpha") ∷ (4, codes "beta") ∷ (5, codes "gamma") ∷ [];
  audit = codes "done: alpha" ∷ codes "done: beta" ∷ codes "done: gamma" ∷ [];
}

abbrev AllData : List Sql → Type 0
AllData [] = Unit
AllData (q ∷ qs) = IsData q × Quoteless (message_of q) × AllData qs

abbrev apply_all : List Sql → Store → Store
apply_all [] t = t
apply_all (q ∷ qs) t = apply_all qs (apply q t)

module _ (d : Database) (k : Contract d) where
  -- The program has answered 0 and the three jobs are saved, each once; what it printed is the front
  -- of the stream, and all of it on a machine that fails no call. Or it has answered 1, on a machine that
  -- fails some call.
  pub data Ends (r : Exit d) : Type 0 where
    ends :
        (unread : List (List ℕ))
        → r.0 ≡ 0
        → jobs_of (k.view r.2).saved ≡ three_jobs
        → r.1 ++ unread ≡ three_jobs.audit
        → (Reliable d k → unread ≡ [])
        → Ends r
    fails : r.0 ≡ 1 → ¬ Reliable d k → Ends r

  exec_all_lem :
      (qs : List Sql) (t : Store) (n : ℕ) (s : d.State)
      → AllData qs
      → k.view s ≡ record { saved = t; staged = none; live = n }
      → (((exec_all d qs s).0 ≡ 0)
          × (k.view (exec_all d qs s).1
              ≡ record { saved = apply_all qs t; staged = none; live = n }))
        ⊎ (((exec_all d qs s).0 ≡ 1) × ¬ Reliable d k)
  unfolding exec_all
  exec_all_lem [] t n s a o = inl (refl, o)
  exec_all_lem (q ∷ qs) t n s a o = elim (Bool-cases ((d.exec s q).0 == ok_code)) [
    | inl h ↦ rw h (
        exec_all_lem qs (apply q t) n _ a.2 (
          k.exec_data s q a.0 a.1 (==→eq _ ok_code h)
          ∙ ap (λ (v : View Store). write v (apply q (current v))) o))
    | inr h ↦ rw h (inr (refl, λ r. ==→ne _ ok_code h (r.data_ok s q a.0 a.1)))
  ]

  finish-Ends :
      (s : d.State) (seen unread : List (List ℕ))
      → jobs_of (k.view s).saved ≡ three_jobs
      → (k.view s).live ≡ 0
      → seen ++ unread ≡ three_jobs.audit
      → (Reliable d k → unread ≡ [])
      → Ends (finish d 3 seen s)
  unfolding finish
  finish-Ends s seen unread j l o whole = elim (Bool-cases ((d.close s).0 == ok_code)) [
    | inl h ↦ rw h (ends unread refl (ap jobs_of (k.closed s (==→eq _ ok_code h)) ∙ j) o whole)
    | inr h ↦ rw h (fails refl (λ r. ==→ne _ ok_code h (r.close_ok s l)))
  ]

  reported-Ends :
      (st : d.Stmt) (r : ℕ × List (List ℕ) × d.State)
      → Reported d k three_jobs 1 st r
      → Ends (reported d 3 st r)
  unfolding reported
  reported-Ends st (zero, seen, s) p =
      let f = k.finalized s st read_audit 0 p.prepared p.live_same in
      finish-Ends _ seen p.unread (ap (λ (v : View Store). jobs_of v.saved) f ∙ p.jobs_same)
        (ap (λ (v : View Store). v.live) f) p.in_order p.all_read
  reported-Ends st (suc n, seen, s) p = absurd (omega (arith, p.answers))

  worked-Ends :
      (t : Store) (r : ℕ × ℕ × d.State)
      → jobs_of t ≡ three_jobs
      → t.cursor ≡ 0
      → Drained d k t 0 3 r
      → Ends (worked d 4 r)
  unfolding worked
  worked-Ends t (suc n, p, s) j c (all_done a b v w l) = absurd (omega (arith, a))
  worked-Ends t (zero, p, s) j c (all_done a b v w l) =
      elim (Bool-cases ((d.prepare s read_audit).0 == ok_code)) [
        | inl h ↦
            let (r, e) = k.prepared s read_audit (==→eq _ ok_code h) in
            rw (h, b)
              (reported-Ends _ _ (
                report-Reported d k three_jobs 1 _ three_jobs.audit 4 [] _ (omega arith)
                  (omega arith)
                  (
                    r,
                    ap (λ (x : View Store). jobs_of x.saved) e ∙ ap jobs_of v ∙ j,
                    ap (λ (x : View Store). jobs_of (current x)) e ∙ ap jobs_of w ∙ j,
                    ap (λ (x : View Store). (current x).cursor) e
                        ∙ ap (λ (x : Store). x.cursor) w
                        ∙ c,
                    ap (λ (x : View Store). x.live) e ∙ ap suc l,
                    refl,
                  )))
        | inr h ↦ rw h (fails refl (λ r. ==→ne _ ok_code h (r.prepare_ok s read_audit)))
      ]
  worked-Ends t (zero, p, s) j c (stopped a why) = absurd (omega (arith, a))
  worked-Ends t (suc n, p, s) j c (stopped a why) = fails refl why

  abbrev three_queued : Store
  three_queued = record empty_store { inbox = codes "alpha" ∷ codes "beta" ∷ codes "gamma" ∷ [] }

  queued-Ends :
      (r : ℕ × d.State)
      → ((r.0 ≡ 0) × (k.view r.1 ≡ record { saved = three_queued; staged = none; live = 0 }))
        ⊎ ((r.0 ≡ 1) × ¬ Reliable d k)
      → Ends (queued d 4 r)
  unfolding queued with_jobs c_string
  queued-Ends (zero, s) (inl (a, o)) =
      worked-Ends (with_jobs three_queued.inbox three_queued) _ refl refl (
        work-Drained d k three_queued.inbox 4 0 3 0 three_queued s refl (omega arith) (omega arith)
          (omega arith) o)
  queued-Ends (suc n, s) (inl (a, o)) = absurd (omega (arith, a))
  queued-Ends (zero, s) (inr (a, why)) = absurd (omega (arith, a))
  queued-Ends (suc n, s) (inr (a, why)) = fails refl why

  scheduled-Ends :
      (r : ℕ × d.State)
      → ((r.0 ≡ 0) × (k.view r.1 ≡ record { saved = empty_store; staged = none; live = 0 }))
        ⊎ ((r.0 ≡ 1) × ¬ Reliable d k)
      → Ends (scheduled d 4 r)
  unfolding scheduled apply message_of
  scheduled-Ends (zero, s) (inl (a, o)) = queued-Ends _ (
      exec_all_lem jobs empty_store 0 s
        (
          enqueue_data _,
          omega arith,
          (enqueue_data _, omega arith, (enqueue_data _, omega arith, tt)),
        )
        o)
  scheduled-Ends (suc n, s) (inl (a, o)) = absurd (omega (arith, a))
  scheduled-Ends (zero, s) (inr (a, why)) = absurd (omega (arith, a))
  scheduled-Ends (suc n, s) (inr (a, why)) = fails refl why

  -- The program answers 0 and has done each of its three jobs once: the queue is empty, a row and a
  -- record of each are saved in the order of the queue, and it printed the front of the stream, all of
  -- it on a machine that fails no call. Or it answers 1, and that only on a machine that fails some call.
  -- Four rounds of each loop are enough.
  pub main-Ends : Ends (main d 4)
  unfolding main apply message_of
  main-Ends = elim (Bool-cases (d.create.0 == ok_code)) [
    | inl h ↦ rw h (
        scheduled-Ends _ (
          exec_all_lem schema empty_store 0 d.create.1
            (results_data, tt, (inbox_data, tt, (audit_data, tt, (reporting_data, tt, tt))))
            (k.created (==→eq _ ok_code h))))
    | inr h ↦ rw h (fails refl (λ r. ==→ne _ ok_code h r.create_ok))
  ]
