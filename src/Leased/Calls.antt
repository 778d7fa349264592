-- ===== src/Leased/Calls.antt =====
-- The calls of include/cyboudb.h that examples/leased_worker.c makes beside those of examples/worker.c,
-- and what the header says of them.
use cybou_db.Prelude.{ℕ, suc, ◌+◌, ◌≤◌, ◌≡◌, ◌≢◌, ◌⊎◌, none, some, List, [], ◌∷◌, ◌++◌, length}
use cybou_db.Api.Codes.{ok_code, row_code, done_code}
use cybou_db.Api.Sql.{
  Sql, enqueue, insert_note, create_notes, create_inbox, begin, commit, message_of,
}
use cybou_db.Api.View.{View, current, write}
use cybou_db.Api.Database.{Database, Quoteless}
use cybou_db.Leased.Tickets.{Slot, Ticket, queued, take_first, change, finish, hand_back, extend}

pub record CreateOptions : Type 0 where
  pub struct_size : ℕ
  pub flags : ℕ

abbrev pub create_queue_leases : ℕ
create_queue_leases = 1

-- What the file holds: the messages of the queue by their positions, and the rows of the table.
pub record LeasedStore : Type 0 where
  pub slots : List Slot
  pub rows : List (List ℕ)

-- `spin` stands for the loop over `clock()`, with its time in milliseconds.
pub record LeaseCalls (d : Database) : Type 0 where
  pub create_with_options : CreateOptions → ℕ × d.State
  pub claim_ticket : d.State → d.Stmt → ℕ × ℕ × ℕ
  pub spin : ℕ → d.State → d.State

unfoldable pub apply : Sql → LeasedStore → LeasedStore
apply (enqueue m) t = record t { slots = t.slots ++ (queued m ∷ []) }
apply (insert_note s) t = record t { rows = t.rows ++ (s ∷ []) }
apply _ t = t

pub data IsData : Sql → Type 0 where
  enqueue_data : (m : List ℕ) → IsData (enqueue m)
  insert_data : (s : List ℕ) → IsData (insert_note s)
  notes_data : IsData create_notes
  inbox_data : IsData create_inbox

-- What the header promises of these calls.
pub record LeaseContract (d : Database) (c : LeaseCalls d) : Type 1 where
  pub view : d.State → View LeasedStore
  -- The largest time that a call on the queue has read.
  pub clock : d.State → ℕ
  pub Prepared : d.State → d.Stmt → Sql → Type 0
  pub Took : d.State → d.Stmt → Ticket → Type 0
  pub created :
      (o : CreateOptions)
      → 8 ≤ o.struct_size
      → o.flags ≡ create_queue_leases
      → (c.create_with_options o).0 ≡ ok_code
      → view (c.create_with_options o).1
        ≡ record { saved = record { slots = []; rows = [] }; staged = none; live = 0 }
  pub exec_data :
      (s : d.State) (q : Sql)
      → IsData q
      → Quoteless (message_of q)
      → (d.exec s q).0 ≡ ok_code
      → view (d.exec s q).1 ≡ write (view s) (apply q (current (view s)))
  pub exec_begin :
      (s : d.State)
      → (d.exec s begin).0 ≡ ok_code
      → view (d.exec s begin).1 ≡ record (view s) { staged = some (view s).saved }
  pub exec_commit :
      (s : d.State) (t : LeasedStore)
      → (view s).staged ≡ some t
      → (d.exec s commit).0 ≡ ok_code
      → view (d.exec s commit).1 ≡ record (view s) { saved = t; staged = none }
  -- Done, for the one who holds the message.
  pub exec_ack :
      (s : d.State) (position token : ℕ)
      → (d.exec s (Sql.ack position token)).0 ≡ ok_code
      → (l : List Slot) × (change finish position token (current (view s)).slots ≡ some l)
        × (view (d.exec s (Sql.ack position token)).1
            ≡ write (view s) (record (current (view s)) { slots = l }))
  -- A refusal outside a transaction changes nothing.
  pub exec_ack_failed :
      (s : d.State) (position token : ℕ)
      → (view s).staged ≡ none
      → (d.exec s (Sql.ack position token)).0 ≢ ok_code
      → view (d.exec s (Sql.ack position token)).1 ≡ view s
  pub exec_nack :
      (s : d.State) (position token : ℕ)
      → (d.exec s (Sql.nack position token)).0 ≡ ok_code
      → (l : List Slot) × (change hand_back position token (current (view s)).slots ≡ some l)
        × (view (d.exec s (Sql.nack position token)).1
            ≡ write (view s) (record (current (view s)) { slots = l }))
  pub exec_renew :
      (s : d.State) (position token ms : ℕ)
      → (d.exec s (Sql.renew position token ms)).0 ≡ ok_code
      → (l : List Slot) × (change
            (extend (clock (d.exec s (Sql.renew position token ms)).1) ms)
            position
            token
            (current (view s)).slots
          ≡ some l)
        × (view (d.exec s (Sql.renew position token ms)).1
            ≡ write (view s) (record (current (view s)) { slots = l }))
  pub prepared :
      (s : d.State) (q : Sql)
      → (d.prepare s q).0 ≡ ok_code
      → Prepared (d.prepare s q).2 (d.prepare s q).1 q
        × (view (d.prepare s q).2 ≡ record (view s) { live = suc (view s).live })
  pub finalized :
      (s : d.State) (st : d.Stmt) (q : Sql) (n : ℕ)
      → Prepared s st q
      → (view s).live ≡ suc n
      → view (d.finalize s st) ≡ record (view s) { live = n }
  pub stepped :
      (s : d.State) (st : d.Stmt) (q : Sql) → Prepared s st q → Prepared (d.step s st).1 st q
  -- A step of a CLAIM takes the first message that is claimable at the time it reads.
  pub claimed :
      (s : d.State) (st : d.Stmt) (ms : ℕ)
      → Prepared s st (Sql.claim ms)
      → (d.step s st).0 ≡ row_code
      → (t : Ticket) × (l : List Slot) × (take_first
            (clock (d.step s st).1)
            ms
            (current (view s)).slots
          ≡ some (t, l))
        × (view (d.step s st).1 ≡ write (view s) (record (current (view s)) { slots = l }))
        × Took (d.step s st).1 st t
  pub message_fits :
      (s : d.State) (st : d.Stmt) (t : Ticket) (cap : ℕ)
      → Took s st t
      → length t.payload ≤ cap
      → d.message s st cap ≡ (ok_code, t.payload)
  pub ticket_given :
      (s : d.State) (st : d.Stmt) (t : Ticket)
      → Took s st t
      → c.claim_ticket s st ≡ (ok_code, t.position, t.token)
  pub spun : (s : d.State) (ms : ℕ) → view (c.spin ms s) ≡ view s
  pub closed : (s : d.State) → (d.close s).0 ≡ ok_code → (view (d.close s).1).saved ≡ (view s).saved

-- A machine that fails no call, whatever it is asked, misses no claimable message in a CLAIM, and whose clock
-- never steps back and passes at least as fast as the processor's. That a machine is not `LeaseReliable`
-- says that one of these does not hold of it, not that a call has failed in this run.
pub record LeaseReliable (d : Database) (c : LeaseCalls d) (k : LeaseContract d c) : Type 0 where
  pub create_ok :
      (o : CreateOptions)
      → 8 ≤ o.struct_size
      → o.flags ≡ create_queue_leases
      → (c.create_with_options o).0 ≡ ok_code
  pub data_ok :
      (s : d.State) (q : Sql) → IsData q → Quoteless (message_of q) → (d.exec s q).0 ≡ ok_code
  pub begin_ok : (s : d.State) → (k.view s).staged ≡ none → (d.exec s begin).0 ≡ ok_code
  pub commit_ok :
      (s : d.State) (t : LeasedStore) → (k.view s).staged ≡ some t → (d.exec s commit).0 ≡ ok_code
  pub ack_ok :
      (s : d.State) (position token : ℕ) (l : List Slot)
      → change finish position token (current (k.view s)).slots ≡ some l
      → (d.exec s (Sql.ack position token)).0 ≡ ok_code
  pub nack_ok :
      (s : d.State) (position token : ℕ) (l : List Slot)
      → change hand_back position token (current (k.view s)).slots ≡ some l
      → (d.exec s (Sql.nack position token)).0 ≡ ok_code
  pub renew_ok :
      (s : d.State) (position token ms : ℕ) (l : List Slot)
      → change
          (extend (k.clock (d.exec s (Sql.renew position token ms)).1) ms)
          position
          token
          (current (k.view s)).slots
        ≡ some l
      → (d.exec s (Sql.renew position token ms)).0 ≡ ok_code
  pub prepare_ok : (s : d.State) (q : Sql) → (d.prepare s q).0 ≡ ok_code
  pub claim_answers :
      (s : d.State) (st : d.Stmt) (ms : ℕ)
      → k.Prepared s st (Sql.claim ms)
      → ((d.step s st).0 ≡ row_code) ⊎ ((d.step s st).0 ≡ done_code)
  -- A CLAIM that answers that there is nothing has not missed a claimable message.
  pub nothing_claimable :
      (s : d.State) (st : d.Stmt) (ms : ℕ)
      → k.Prepared s st (Sql.claim ms)
      → (d.step s st).0 ≡ done_code
      → take_first (k.clock (d.step s st).1) ms (current (k.view s)).slots ≡ none
  pub close_ok : (s : d.State) → (k.view s).live ≡ 0 → (d.close s).0 ≡ ok_code
  pub clock_exec : (s : d.State) (q : Sql) → k.clock s ≤ k.clock (d.exec s q).1
  pub clock_prepare : (s : d.State) (q : Sql) → k.clock s ≤ k.clock (d.prepare s q).2
  pub clock_step : (s : d.State) (st : d.Stmt) → k.clock s ≤ k.clock (d.step s st).1
  pub clock_finalize : (s : d.State) (st : d.Stmt) → k.clock s ≤ k.clock (d.finalize s st)
  pub clock_spin : (s : d.State) (ms : ℕ) → k.clock s + ms ≤ k.clock (c.spin ms s)
