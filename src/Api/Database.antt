-- ===== src/Api/Database.antt =====
-- The calls of include/cyboudb.h that examples/worker.c makes, and what the header and the documents
-- beside it say of them.
use cybou_db.Prelude.{
  ℕ, suc, ◌≤◌, ◌<◌, ◌≡◌, ◌≢◌, ◌⊎◌, none, some, List, [], ◌∷◌, ◌++◌, length, get_elem?, codes,
}
use cybou_db.Api.Codes.{ok_code, row_code, done_code}
use cybou_db.Api.View.{View, current, write, Unsaved}
use cybou_db.Api.Sql.{
  Sql, enqueue, insert_result, append_done, dequeue, read_audit, create_results, create_inbox,
  create_audit, create_reporting, begin, commit, rollback, message_of,
}

-- What the file holds: the messages of the queue from its head on, the rows of the table, the
-- records of the stream, and how many of them the reader has been given.
pub record Store : Type 0 where
  pub inbox : List (List ℕ)
  pub results : List (ℕ × List ℕ)
  pub audit : List (List ℕ)
  pub cursor : ℕ

abbrev pub empty_store : Store
empty_store = record { inbox = []; results = []; audit = []; cursor = 0 }

-- What a statement that answers nothing does to the store.
unfoldable pub apply : Sql → Store → Store
apply (enqueue m) t = record t { inbox = t.inbox ++ (m ∷ []) }
apply (insert_result len s) t = record t { results = t.results ++ ((len, s) ∷ []) }
apply (append_done s) t = record t { audit = t.audit ++ ((codes "done: " ++ s) ∷ []) }
apply _ t = t

-- The statements that change what is stored, and answer nothing.
pub data IsData : Sql → Type 0 where
  enqueue_data : (m : List ℕ) → IsData (enqueue m)
  insert_data : (len : ℕ) (s : List ℕ) → IsData (insert_result len s)
  append_data : (s : List ℕ) → IsData (append_done s)
  results_data : IsData create_results
  inbox_data : IsData create_inbox
  audit_data : IsData create_audit
  reporting_data : IsData create_reporting

-- No character of the text ends a literal.
abbrev pub Quoteless : List ℕ → Type 0
Quoteless [] = Unit
Quoteless (c ∷ s) = (c ≢ 39) × Quoteless s

-- The library's functions. A state stands for the connection with its file, and `finalize` is
-- called on a live statement only.
pub record Database : Type 1 where
  pub State : Type 0
  pub Stmt : Type 0
  pub create : ℕ × State
  pub exec : State → Sql → ℕ × State
  pub prepare : State → Sql → ℕ × Stmt × State
  pub step : State → Stmt → ℕ × State
  pub message : State → Stmt → ℕ → ℕ × List ℕ
  pub finalize : State → Stmt → State
  pub close : State → ℕ × State

-- What the header promises.
pub record Contract (d : Database) : Type 1 where
  pub view : d.State → View Store
  -- The statement is alive, and was prepared from this text.
  pub Prepared : d.State → d.Stmt → Sql → Type 0
  -- The last step of the statement took this message.
  pub Took : d.State → d.Stmt → List ℕ → Type 0
  pub created :
      d.create.0 ≡ ok_code
      → view d.create.1 ≡ record { saved = empty_store; staged = none; live = 0 }
  pub exec_data :
      (s : d.State) (q : Sql)
      → IsData q
      → Quoteless (message_of q)
      → (d.exec s q).0 ≡ ok_code
      → view (d.exec s q).1 ≡ write (view s) (apply q (current (view s)))
  -- In a transaction, a statement that fails changes nothing that has been saved.
  pub exec_data_failed :
      (s : d.State) (q : Sql) (t : Store)
      → IsData q
      → (view s).staged ≡ some t
      → (d.exec s q).0 ≢ ok_code
      → Unsaved (view s) (view (d.exec s q).1)
  pub exec_begin :
      (s : d.State)
      → (d.exec s begin).0 ≡ ok_code
      → view (d.exec s begin).1 ≡ record (view s) { staged = some (view s).saved }
  pub exec_begin_failed :
      (s : d.State) → (d.exec s begin).0 ≢ ok_code → view (d.exec s begin).1 ≡ view s
  pub exec_commit :
      (s : d.State) (t : Store)
      → (view s).staged ≡ some t
      → (d.exec s commit).0 ≡ ok_code
      → view (d.exec s commit).1 ≡ record (view s) { saved = t; staged = none }
  -- A COMMIT that fails has published nothing, or, where a flush did not reach the disk, may have.
  pub exec_commit_failed :
      (s : d.State) (t : Store)
      → (view s).staged ≡ some t
      → (d.exec s commit).0 ≢ ok_code
      → (((view (d.exec s commit).1).saved ≡ (view s).saved)
          ⊎ ((view (d.exec s commit).1).saved ≡ t))
        × ((view (d.exec s commit).1).live ≡ (view s).live)
  -- A ROLLBACK ends the transaction, unless it could not be prepared.
  pub exec_rollback :
      (s : d.State)
      → (view (d.exec s rollback).1 ≡ view s)
        ⊎ (view (d.exec s rollback).1 ≡ record (view s) { staged = none })
  pub prepared :
      (s : d.State) (q : Sql)
      → (d.prepare s q).0 ≡ ok_code
      → Prepared (d.prepare s q).2 (d.prepare s q).1 q
        × (view (d.prepare s q).2 ≡ record (view s) { live = suc (view s).live })
  pub prepare_failed :
      (s : d.State) (q : Sql) → (d.prepare s q).0 ≢ ok_code → view (d.prepare s q).2 ≡ view s
  pub finalized :
      (s : d.State) (st : d.Stmt) (q : Sql) (n : ℕ)
      → Prepared s st q
      → (view s).live ≡ suc n
      → view (d.finalize s st) ≡ record (view s) { live = n }
  pub stepped :
      (s : d.State) (st : d.Stmt) (q : Sql) → Prepared s st q → Prepared (d.step s st).1 st q
  pub dequeued :
      (s : d.State) (st : d.Stmt)
      → Prepared s st dequeue
      → (d.step s st).0 ≡ row_code
      → (m : List ℕ) × (rest : List (List ℕ)) × ((current (view s)).inbox ≡ m ∷ rest)
        × (view (d.step s st).1 ≡ write (view s) (record (current (view s)) { inbox = rest }))
        × Took (d.step s st).1 st m
  pub dequeue_empty :
      (s : d.State) (st : d.Stmt)
      → Prepared s st dequeue
      → (d.step s st).0 ≡ done_code
      → ((current (view s)).inbox ≡ []) × (view (d.step s st).1 ≡ view s)
  pub dequeue_failed :
      (s : d.State) (st : d.Stmt) (t : Store)
      → Prepared s st dequeue
      → (view s).staged ≡ some t
      → (d.step s st).0 ≢ row_code
      → Unsaved (view s) (view (d.step s st).1)
  pub read :
      (s : d.State) (st : d.Stmt)
      → Prepared s st read_audit
      → (d.step s st).0 ≡ row_code
      → (m : List ℕ) × (get_elem? (current (view s)).audit (current (view s)).cursor ≡ some m)
        × (view (d.step s st).1
            ≡ write (view s) (record (current (view s)) { cursor = suc (current (view s)).cursor }))
        × Took (d.step s st).1 st m
  pub read_done :
      (s : d.State) (st : d.Stmt)
      → Prepared s st read_audit
      → (d.step s st).0 ≡ done_code
      → (get_elem? (current (view s)).audit (current (view s)).cursor ≡ none)
        × (view (d.step s st).1 ≡ view s)
  -- Outside a transaction the cursor is saved by a commit, which may have been published though it failed.
  pub read_failed :
      (s : d.State) (st : d.Stmt)
      → Prepared s st read_audit
      → (d.step s st).0 ≢ row_code
      → (((view (d.step s st).1).saved ≡ (view s).saved)
          ⊎ ((view (d.step s st).1).saved
              ≡ record (current (view s)) { cursor = suc (current (view s)).cursor }))
        × ((view (d.step s st).1).live ≡ (view s).live)
  pub message_fits :
      (s : d.State) (st : d.Stmt) (m : List ℕ) (cap : ℕ)
      → Took s st m
      → length m ≤ cap
      → d.message s st cap ≡ (ok_code, m)
  pub message_too_long :
      (s : d.State) (st : d.Stmt) (m : List ℕ) (cap : ℕ)
      → Took s st m
      → cap < length m
      → (d.message s st cap).0 ≢ ok_code
  pub closed : (s : d.State) → (d.close s).0 ≡ ok_code → (view (d.close s).1).saved ≡ (view s).saved

-- A machine that fails no call, whatever it is asked: there is memory, there is space in the file, what is
-- written arrives, and no statement is refused; so one that refuses to make a table twice is not `Reliable`.
-- That a machine is not `Reliable` says that it fails some call, not that it has failed one in this run.
pub record Reliable (d : Database) (k : Contract d) : Type 0 where
  pub create_ok : d.create.0 ≡ ok_code
  pub data_ok :
      (s : d.State) (q : Sql) → IsData q → Quoteless (message_of q) → (d.exec s q).0 ≡ ok_code
  pub begin_ok : (s : d.State) → (k.view s).staged ≡ none → (d.exec s begin).0 ≡ ok_code
  pub commit_ok :
      (s : d.State) (t : Store) → (k.view s).staged ≡ some t → (d.exec s commit).0 ≡ ok_code
  pub prepare_ok : (s : d.State) (q : Sql) → (d.prepare s q).0 ≡ ok_code
  pub dequeue_answers :
      (s : d.State) (st : d.Stmt)
      → k.Prepared s st dequeue
      → ((d.step s st).0 ≡ row_code) ⊎ ((d.step s st).0 ≡ done_code)
  pub read_answers :
      (s : d.State) (st : d.Stmt)
      → k.Prepared s st read_audit
      → ((d.step s st).0 ≡ row_code) ⊎ ((d.step s st).0 ≡ done_code)
  pub close_ok : (s : d.State) → (k.view s).live ≡ 0 → (d.close s).0 ≡ ok_code
