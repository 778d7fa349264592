-- ===== src/Worker/Loop.antt =====
-- `process_one` and `main` of examples/worker.c, over the calls of the library. What is printed is
-- the list of records that the reader was given.
use cybou_db.Prelude.{
  ℕ, zero, suc, ◌+◌, ◌++◌, Bool, true, false, if◌then◌else◌, ◌==◌, List, [], ◌∷◌, length, codes,
  c_string,
}
use cybou_db.Api.Codes.{ok_code, row_code, done_code}
use cybou_db.Api.Sql.{
  Sql, begin, commit, rollback, create_results, create_inbox, create_audit, create_reporting,
  enqueue, dequeue, insert_result, append_done, read_audit,
}
use cybou_db.Api.Database.{Database}

abbrev pub schema : List Sql
schema = create_results ∷ create_inbox ∷ create_audit ∷ create_reporting ∷ []

abbrev pub jobs : List Sql
jobs = enqueue (codes "alpha") ∷ enqueue (codes "beta") ∷ enqueue (codes "gamma") ∷ []

module _ (d : Database) where
  -- `process_one` returns 0 or 1, and says through `did_work` whether it took a job.
  abbrev pub Answer : Type 0
  Answer = ℕ × Bool × d.State

  -- `fail` prints, and its value is the answer.
  unfoldable pub fail : d.State → Answer
  fail s = (1, false, s)

  unfoldable pub roll_back : ℕ → d.State → Answer
  roll_back rc s = (rc, false, (d.exec s rollback).1)

  unfoldable pub commit_job : d.State → Answer
  commit_job s = let r = d.exec s commit in if r.0 == ok_code then (0, true, r.1) else fail r.1

  unfoldable pub audit_job : List ℕ → d.State → Answer
  audit_job payload s =
      let r = d.exec s (append_done (c_string payload)) in
      if r.0 == ok_code then commit_job r.1 else roll_back 1 r.1

  unfoldable pub record_job : List ℕ → d.State → Answer
  record_job payload s =
      let r = d.exec s (insert_result (length payload) (c_string payload)) in
      if r.0 == ok_code then audit_job payload r.1 else roll_back 1 r.1

  -- `payload[256]`, with a byte kept for the zero.
  unfoldable pub read_job : d.Stmt → d.State → Answer
  read_job take s =
      let r = d.message s take 255 in
      if r.0 == ok_code then record_job r.1 (d.finalize s take) else roll_back 1 (d.finalize s take)

  unfoldable pub step_job : d.Stmt → d.State → Answer
  step_job take s =
      let r = d.step s take in
      if r.0 == done_code
      then roll_back 0 (d.finalize r.1 take)
      else if r.0 == row_code
      then read_job take r.1
      else roll_back 1 (d.finalize r.1 take)

  unfoldable pub prepare_job : d.State → Answer
  prepare_job s =
      let r = d.prepare s dequeue in if r.0 == ok_code then step_job r.1 r.2 else roll_back 1 r.2

  unfoldable pub process_one : d.State → Answer
  process_one s = let r = d.exec s begin in if r.0 == ok_code then prepare_job r.1 else fail r.1

  -- The `for (;;)` of `main`, with the jobs processed so far; a round that worked took a message
  -- from the queue, so one round more than there are messages is enough.
  unfoldable pub work : ℕ → ℕ → d.State → ℕ × ℕ × d.State
  work zero processed s = (1, processed, s)
  work (suc fuel) processed s =
      let r = process_one s in
      let more = work fuel (processed + 1) r.2 in
      if r.0 == 0 then (if r.1 then more else (0, processed, r.2)) else (1, processed, r.2)

  -- `while (cyboudb_step(st) == CybouDB_ROW)`, with the records read so far. A round moves the cursor by
  -- one record, so one round more than there are records is enough.
  unfoldable pub report : ℕ → d.Stmt → List (List ℕ) → d.State → ℕ × List (List ℕ) × d.State
  report zero st seen s = (1, seen, s)
  report (suc fuel) st seen s =
      let r = d.step s st in
      let m = d.message r.1 st 255 in
      let more = report fuel st (seen ++ (m.1 ∷ [])) r.1 in
      if r.0 == row_code then (if m.0 == ok_code then more else (1, seen, r.1)) else (0, seen, r.1)

  -- The statements of a list in turn, up to the first that fails.
  unfoldable pub exec_all : List Sql → d.State → ℕ × d.State
  exec_all [] s = (0, s)
  exec_all (q ∷ qs) s = let r = d.exec s q in if r.0 == ok_code then exec_all qs r.1 else (1, r.1)

  -- The rest of `main`, from a call that has answered on: the exit status, what was printed of the
  -- stream, and the state.
  abbrev pub Exit : Type 0
  Exit = ℕ × List (List ℕ) × d.State

  unfoldable pub finish : ℕ → List (List ℕ) → d.State → Exit
  finish processed seen s =
      let r = d.close s in
      if r.0 == ok_code
      then (if processed == 3 then (0, seen, r.1) else (1, seen, r.1))
      else (1, seen, r.1)

  unfoldable pub reported : ℕ → d.Stmt → ℕ × List (List ℕ) × d.State → Exit
  reported processed st (zero, seen, s) = finish processed seen (d.finalize s st)
  reported processed st (suc n, seen, s) = (1, seen, s)

  unfoldable pub worked : ℕ → ℕ × ℕ × d.State → Exit
  worked fuel (zero, processed, s) =
      let r = d.prepare s read_audit in
      if r.0 == ok_code then reported processed r.1 (report fuel r.1 [] r.2) else (1, [], r.2)
  worked fuel (suc n, processed, s) = (1, [], s)

  unfoldable pub queued : ℕ → ℕ × d.State → Exit
  queued fuel (zero, s) = worked fuel (work fuel 0 s)
  queued fuel (suc n, s) = (1, [], s)

  unfoldable pub scheduled : ℕ → ℕ × d.State → Exit
  scheduled fuel (zero, s) = queued fuel (exec_all jobs s)
  scheduled fuel (suc n, s) = (1, [], s)

  unfoldable pub main : ℕ → Exit
  main fuel =
      if d.create.0 == ok_code
      then scheduled fuel (exec_all schema d.create.1)
      else (1, [], d.create.1)
