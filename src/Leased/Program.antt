-- ===== src/Leased/Program.antt =====
-- `claim_one` and `main` of examples/leased_worker.c, over the calls of the library.
use cybou_db.Prelude.{ℕ, zero, suc, Option, none, some, if◌then◌else◌, ◌==◌, codes, c_string}
use cybou_db.Api.Codes.{ok_code, row_code, done_code}
use cybou_db.Api.Sql.{Sql, begin, commit, create_notes, create_inbox, enqueue, insert_note}
use cybou_db.Api.Database.{Database}
use cybou_db.Leased.Tickets.{Ticket}
use cybou_db.Leased.Run.{Cmd, pure, ◌>>=◌, ◌>>◌}
use cybou_db.Leased.Calls.{CreateOptions, create_queue_leases, LeaseCalls}

-- `memset`, then the two fields: the struct has 8 bytes.
abbrev pub options : CreateOptions
options = record { struct_size = 8; flags = create_queue_leases }

module _ (d : Database) (c : LeaseCalls d) where
  -- What `claim_one` returns, and what it took, if `took` is set.
  abbrev pub Claim : Type 0
  Claim = ℕ × Option Ticket × d.State

  unfoldable pub refuse_claim : d.Stmt → d.State → Claim
  refuse_claim st s = (1, none, d.finalize s st)

  -- `payload[256]`, with a byte kept for the zero.
  unfoldable pub read_claim : d.Stmt → d.State → Claim
  read_claim st s =
      let m = d.message s st 255 in
      let t = c.claim_ticket s st in
      if m.0 == ok_code
      then (if t.0 == ok_code
          then (0, some (record { position = t.1; token = t.2; payload = m.1 }), d.finalize s st)
          else refuse_claim st s)
      else refuse_claim st s

  unfoldable pub step_claim : d.Stmt → d.State → Claim
  step_claim st s =
      let r = d.step s st in
      if r.0 == done_code
      then (0, none, d.finalize r.1 st)
      else if r.0 == row_code
      then read_claim st r.1
      else refuse_claim st r.1

  unfoldable pub claim_one : ℕ → d.State → Claim
  claim_one ms s =
      let r = d.prepare s (Sql.claim ms) in
      if r.0 == ok_code then step_claim r.1 r.2 else (1, none, r.2)

  -- `if (claim_one(...) != 0) return 1; if (!took) return fail(...)`
  unfoldable pub took : Claim → Option (Ticket × d.State)
  took (zero, some t, s) = some (t, s)
  took (zero, none, s) = none
  took (suc n, t, s) = none

  abbrev pub claimed : ℕ → Cmd d.State Ticket
  claimed ms s = took (claim_one ms s)

  -- `if (cyboudb_exec(db, sql) != CybouDB_OK) return fail(...)`
  unfoldable pub accepted : Sql → Cmd d.State (Unit {0})
  accepted q s = let r = d.exec s q in if r.0 == ok_code then some (tt, r.1) else none

  -- `if (cyboudb_exec(db, sql) == CybouDB_OK) return fail(...)`
  unfoldable pub refused : Sql → Cmd d.State (Unit {0})
  refused q s = let r = d.exec s q in if r.0 == ok_code then none else some (tt, r.1)

  abbrev pub spin : ℕ → Cmd d.State (Unit {0})
  spin ms s = some (tt, c.spin ms s)

  -- The schema and the three messages.
  unfoldable pub queue_three : Cmd d.State (Unit {0})
  queue_three = do
    accepted create_notes
    accepted create_inbox
    accepted (enqueue (codes "alpha"))
    accepted (enqueue (codes "beta"))
    accepted (enqueue (codes "gamma"))

  -- 1. The ordinary path: the result and the acknowledgement commit together.
  unfoldable pub ordinary : ℕ → Cmd d.State ℕ
  ordinary done = do
    t ← claimed 30000
    spin 50
    accepted begin
    accepted (insert_note (c_string t.payload))
    accepted (Sql.ack t.position t.token)
    accepted commit
    pure (suc done)

  -- 2. Work that cannot be done is handed back, and its old ticket is refused.
  unfoldable pub handed_back : Cmd d.State (Unit {0})
  handed_back = do
    t ← claimed 30000
    accepted (Sql.nack t.position t.token)
    refused (Sql.ack t.position t.token)

  -- 3. A lease that lapses and that nobody took is acknowledged late.
  unfoldable pub late : ℕ → Cmd d.State ℕ
  late done = do t ← claimed 30; spin 200; accepted (Sql.ack t.position t.token); pure (suc done)

  -- `if (stolen_position != position) return fail(...)`
  unfoldable pub same_position : Ticket → Ticket → Cmd d.State (Unit {0})
  same_position t u s = if u.position == t.position then some (tt, s) else none

  -- One that lapses and is taken by a second worker is finished by that one only.
  unfoldable pub stolen : ℕ → Cmd d.State ℕ
  stolen done = do
    t ← claimed 30
    spin 200
    u ← claimed 30000
    same_position t u
    refused (Sql.ack t.position t.token)
    accepted (Sql.renew u.position u.token 30000)
    accepted (Sql.ack u.position u.token)
    pure (suc done)

  -- The exit status.
  unfoldable pub close_all : ℕ → Cmd d.State ℕ
  close_all done s =
      let r = d.close s in
      if r.0 == ok_code then (if done == 3 then some (0, r.1) else some (1, r.1)) else none

  unfoldable pub work : Cmd d.State ℕ
  work = do queue_three; n ← ordinary 0; handed_back; n ← late n; n ← stolen n; close_all n

  unfoldable pub main : Option (ℕ × d.State)
  main = let r = c.create_with_options options in if r.0 == ok_code then work r.1 else none
