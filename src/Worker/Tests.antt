-- ===== src/Worker/Tests.antt =====
-- The worker over a database that fails no call.
use cybou_db.Prelude.{ℕ, ◌≡◌, refl, subst, arith, c_string, none, List, [], ◌∷◌, codes}
use cybou_db.Api.Sql.{read_audit}
use cybou_db.Api.Database.{Quoteless, apply}
use cybou_db.Worker.Loop.{
  process_one, work, report, main, exec_all, scheduled, queued, worked, reported, finish,
  prepare_job, step_job, read_job, record_job, audit_job, commit_job, roll_back,
}
use cybou_db.Worker.Job.{Outcome, process_one-Outcome}
use cybou_db.Worker.Drain.{Drained, with_jobs, work-Drained}
use cybou_db.Worker.Report.{jobs_of, Reported, report-Reported}
use cybou_db.Worker.Main.{Ends, main-Ends}
use cybou_db.Api.Plain.{begun, committed, rolled}
use cybou_db.Worker.Plain.{Plain, plain, plain_contract, run, step_plain, pop, next, pred}

-- Two jobs wait, and one record is in the stream.
abbrev two_waiting : Plain
two_waiting = record {
  shown = record {
    saved = record {
      inbox = codes "alpha" ∷ codes "beta" ∷ [];
      results = [];
      audit = codes "done" ∷ [];
      cursor = 0;
    };
    staged = none;
    live = 0;
  };
  taken = [];
}

Quoteless-alpha : Quoteless (codes "alpha")
Quoteless-alpha = (omega arith, (omega arith, (omega arith, (omega arith, (omega arith, tt)))))

Quoteless-beta : Quoteless (codes "beta")
Quoteless-beta = (omega arith, (omega arith, (omega arith, (omega arith, tt))))

quiet : (m : List ℕ) (rest : List (List ℕ)) → two_waiting.shown.saved.inbox ≡ m ∷ rest → Quoteless m
quiet m rest e = let same : codes "alpha" ≡ m = cc e in subst Quoteless same Quoteless-alpha

process_one-Outcome_example :
    Outcome plain plain_contract two_waiting.shown.saved 0 (process_one plain two_waiting)
unfolding plain_contract
process_one-Outcome_example =
    process_one-Outcome plain plain_contract two_waiting.shown.saved 0 two_waiting quiet refl

work-Drained_example :
    Drained plain plain_contract
      (with_jobs two_waiting.shown.saved.inbox two_waiting.shown.saved)
      0
      2
      (work plain 3 0 two_waiting)
unfolding plain_contract
work-Drained_example =
    work-Drained plain plain_contract two_waiting.shown.saved.inbox 3 0 2 0 two_waiting.shown.saved
      two_waiting refl (Quoteless-alpha, omega arith, (Quoteless-beta, omega arith, tt))
      (omega arith) refl refl

report-Reported_example :
    Reported plain plain_contract
      (jobs_of two_waiting.shown.saved)
      0
      read_audit
      (report plain 2 read_audit [] two_waiting)
unfolding plain_contract
report-Reported_example =
    report-Reported plain plain_contract (jobs_of two_waiting.shown.saved) 0 read_audit
      (codes "done" ∷ []) 2 [] two_waiting (omega arith) (omega arith, tt)
      (refl, refl, refl, refl, refl, refl)

main-Ends_example : Ends plain plain_contract (main plain 4)
main-Ends_example = main-Ends plain plain_contract

-- What the run leaves and prints.
main_run : (main plain 4).1 ≡ codes "done: alpha" ∷ codes "done: beta" ∷ codes "done: gamma" ∷ []
unfolding main exec_all scheduled queued worked work report reported finish process_one prepare_job
    step_job read_job record_job audit_job commit_job run step_plain begun committed rolled pop next
    apply pred c_string roll_back
main_run = refl
