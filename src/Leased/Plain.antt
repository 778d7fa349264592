-- ===== src/Leased/Plain.antt =====
-- A database that fails no call, with a clock that only `spin` moves: the contract can be met.
use cybou_db.Prelude.{
  ℕ, zero, suc, ◌+◌, ◌≤◌, ◌≡◌, ◌≢◌, ◌⊎◌, inl, inr, refl, sym, ap, Option, none, some, List, [],
  length, arith, if◌then◌else◌, ◌==◌, ltb, le→ltb, Bool-cases,
}
use cybou_db.Api.Codes.{ok_code, row_code, done_code, error_code, busy_code, misuse_code}
use cybou_db.Api.Sql.{Sql, begin, commit, rollback}
use cybou_db.Api.View.{View, current, write}
use cybou_db.Api.Plain.{begun, committed, rolled, begun_ok, begun-none, committed_ok}
use cybou_db.Api.Database.{Database}
use cybou_db.Leased.Tickets.{Slot, Ticket, take_first, change, finish, hand_back, extend}
use cybou_db.Leased.Calls.{
  LeasedStore, LeaseCalls, apply, IsData, enqueue_data, insert_data, notes_data, inbox_data,
  LeaseContract, LeaseReliable,
}

-- A statement is its text; the last ticket is kept beside the file.
pub record Plain : Type 0 where
  pub shown : View LeasedStore
  pub taken : Ticket
  pub time : ℕ

abbrev pub with_slots : View LeasedStore → List Slot → View LeasedStore
with_slots v l = write v (record (current v) { slots = l })

unfoldable pub changed_to : Option (List Slot) → View LeasedStore → ℕ × View LeasedStore
changed_to none v = (error_code, v)
changed_to (some l) v = (ok_code, with_slots v l)

unfoldable pub run : ℕ → View LeasedStore → Sql → ℕ × View LeasedStore
run n v begin = begun v.staged v
run n v commit = committed v.staged v
run n v rollback = rolled v.staged v
run n v (Sql.ack p u) = changed_to (change finish p u (current v).slots) v
run n v (Sql.nack p u) = changed_to (change hand_back p u (current v).slots) v
run n v (Sql.renew p u ms) = changed_to (change (extend n ms) p u (current v).slots) v
run n v q = (ok_code, write v (apply q (current v)))

unfoldable pub given : Option (Ticket × List Slot) → Plain → ℕ × Plain
given none s = (done_code, s)
given (some (t, l)) s = (row_code, record s { shown = with_slots s.shown l; taken = t })

unfoldable pub step_plain : Plain → Sql → ℕ × Plain
step_plain s (Sql.claim ms) = given (take_first s.time ms (current s.shown).slots) s
step_plain s q = (error_code, s)

unfoldable pub pred : ℕ → ℕ
pred zero = zero
pred (suc n) = n

abbrev pub new_plain : Plain
new_plain = record {
  shown = record { saved = record { slots = []; rows = [] }; staged = none; live = 0 };
  taken = record { position = 0; token = 0; payload = [] };
  time = 0;
}

abbrev pub plain : Database
plain = record {
  State = Plain;
  Stmt = Sql;
  create = (ok_code, new_plain);
  exec = λ s q. let r = run s.time s.shown q in (r.0, record s { shown = r.1 });
  prepare = λ s q. (ok_code, q, record s { shown = record s.shown { live = suc s.shown.live } });
  step = step_plain;
  message = λ s st cap.
      if ltb cap (length s.taken.payload) then (misuse_code, []) else (ok_code, s.taken.payload);
  finalize = λ s st. record s { shown = record s.shown { live = pred s.shown.live } };
  close = λ s. if s.shown.live == 0 then (ok_code, s) else (busy_code, s);
}

abbrev pub plain_leases : LeaseCalls plain
plain_leases = record {
  create_with_options = λ o. (ok_code, new_plain);
  claim_ticket = λ s st. (ok_code, s.taken.position, s.taken.token);
  spin = λ ms s. record s { time = s.time + ms };
}

pub run_data :
    (n : ℕ) (v : View LeasedStore) (q : Sql)
    → IsData q
    → run n v q ≡ (ok_code, write v (apply q (current v)))
unfolding run
run_data n v _ (enqueue_data m) = refl
run_data n v _ (insert_data s) = refl
run_data n v _ notes_data = refl
run_data n v _ inbox_data = refl

pub changed_ok :
    (o : Option (List Slot)) (v : View LeasedStore)
    → (changed_to o v).0 ≡ ok_code
    → (l : List Slot) × (o ≡ some l) × ((changed_to o v).1 ≡ with_slots v l)
unfolding changed_to
changed_ok none v e = absurd (omega (arith, e))
changed_ok (some l) v e = (l, refl, refl)

pub changed_failed :
    (o : Option (List Slot)) (v : View LeasedStore)
    → (changed_to o v).0 ≢ ok_code
    → (changed_to o v).1 ≡ v
unfolding changed_to
changed_failed none v e = refl
changed_failed (some l) v e = absurd (e refl)

changed_some :
    (o : Option (List Slot)) (v : View LeasedStore) (l : List Slot)
    → o ≡ some l
    → (changed_to o v).0 ≡ ok_code
unfolding changed_to
changed_some none v l e = cc e
changed_some (some r) v l e = refl

pub given_row :
    (o : Option (Ticket × List Slot)) (s : Plain)
    → (given o s).0 ≡ row_code
    → (t : Ticket) × (l : List Slot) × (o ≡ some (t, l))
      × ((given o s).1.shown ≡ with_slots s.shown l)
      × ((given o s).1.taken ≡ t)
unfolding given
given_row none s e = absurd (omega (arith, e))
given_row (some (t, l)) s e = (t, l, refl, refl, refl)

pub given_time : (o : Option (Ticket × List Slot)) (s : Plain) → (given o s).1.time ≡ s.time
unfolding given
given_time none s = refl
given_time (some (t, l)) s = refl

pub given_done :
    (o : Option (Ticket × List Slot)) (s : Plain) → (given o s).0 ≡ done_code → o ≡ none
unfolding given
given_done none s e = refl
given_done (some (t, l)) s e = absurd (omega (arith, e))

step_time : (s : Plain) (st : Sql) → s.time ≤ (step_plain s st).1.time
unfolding step_plain
step_time s (Sql.claim ms) =
    omega (arith, given_time (take_first s.time ms (current s.shown).slots) s)
step_time s _ = omega arith

given_answers :
    (o : Option (Ticket × List Slot)) (s : Plain)
    → ((given o s).0 ≡ row_code) ⊎ ((given o s).0 ≡ done_code)
unfolding given
given_answers none s = inr refl
given_answers (some (t, l)) s = inl refl

pub message_lem :
    (s : Plain) (st : Sql) (cap : ℕ)
    → length s.taken.payload ≤ cap
    → plain.message s st cap ≡ (ok_code, s.taken.payload)
message_lem s st cap h = rw (le→ltb cap (length s.taken.payload) h) refl

pub closed_lem : (s : Plain) → (plain.close s).1.shown.saved ≡ s.shown.saved
closed_lem s = elim (Bool-cases (s.shown.live == 0)) [ inl h ↦ rw h refl | inr h ↦ rw h refl ]

unfoldable pub plain_contract : LeaseContract plain plain_leases
unfolding run step_plain pred
plain_contract = record {
  view = λ s. s.shown;
  clock = λ s. s.time;
  Prepared = λ s st q. st ≡ q;
  Took = λ s st t. s.taken ≡ t;
  created = λ o h f e. refl;
  exec_data = λ s q a l e. ap (λ (r : ℕ × View LeasedStore). r.1) (run_data s.time s.shown q a);
  exec_begin = λ s e. begun_ok s.shown.staged s.shown e;
  exec_commit =
      λ s t o e. ap (λ (r : ℕ × View LeasedStore). r.1) (committed_ok s.shown.staged s.shown t o);
  exec_ack = λ s p u e. changed_ok (change finish p u (current s.shown).slots) s.shown e;
  exec_ack_failed =
      λ s p u o e. changed_failed (change finish p u (current s.shown).slots) s.shown e;
  exec_nack = λ s p u e. changed_ok (change hand_back p u (current s.shown).slots) s.shown e;
  exec_renew =
      λ s p u ms e. changed_ok (change (extend s.time ms) p u (current s.shown).slots) s.shown e;
  prepared = λ s q e. (refl, refl);
  finalized = λ s st q n p l. ap (λ (x : ℕ). record s.shown { live = pred x }) l;
  stepped = λ s st q p. p;
  claimed = λ s st ms p.
      rw (p, given_time (take_first s.time ms (current s.shown).slots) s)
        (given_row (take_first s.time ms (current s.shown).slots) s);
  message_fits = λ s st t cap p. rw (sym p) (message_lem s st cap);
  ticket_given = λ s st t p. rw (sym p) refl;
  spun = λ s ms. refl;
  closed = λ s e. closed_lem s;
}

pub plain_reliable : LeaseReliable plain plain_leases plain_contract
unfolding run step_plain plain_contract
plain_reliable = record {
  create_ok = λ o h f. refl;
  data_ok = λ s q a l. ap (λ (r : ℕ × View LeasedStore). r.0) (run_data s.time s.shown q a);
  begin_ok = λ s o. begun-none s.shown.staged s.shown o;
  commit_ok =
      λ s t o. ap (λ (r : ℕ × View LeasedStore). r.0) (committed_ok s.shown.staged s.shown t o);
  ack_ok = λ s p u l e. changed_some _ s.shown l e;
  nack_ok = λ s p u l e. changed_some _ s.shown l e;
  renew_ok = λ s p u ms l e. changed_some _ s.shown l e;
  prepare_ok = λ s q. refl;
  claim_answers =
      λ s st ms p. rw p (given_answers (take_first s.time ms (current s.shown).slots) s);
  nothing_claimable = λ s st ms p.
      rw (p, given_time (take_first s.time ms (current s.shown).slots) s)
        (given_done (take_first s.time ms (current s.shown).slots) s);
  close_ok = λ s l. rw l refl;
  clock_exec = λ s q. omega arith;
  clock_prepare = λ s q. omega arith;
  clock_step = λ s st. step_time s st;
  clock_finalize = λ s st. omega arith;
  clock_spin = λ s ms. omega arith;
}
