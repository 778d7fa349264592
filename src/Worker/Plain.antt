-- ===== src/Worker/Plain.antt =====
-- A database that fails no call: the contract of the worker can be met, and its premises hold.
use cybou_db.Prelude.{
  ℕ, zero, suc, ◌≤◌, ◌<◌, ◌≡◌, ◌≢◌, ◌⊎◌, inl, inr, refl, sym, ap, Option, none, some, List, [], ◌∷◌,
  length, get_elem?, arith, if◌then◌else◌, ◌==◌, ltb, lt→ltb, le→ltb, Bool-cases,
}
use cybou_db.Api.Codes.{ok_code, row_code, done_code, error_code, busy_code, misuse_code}
use cybou_db.Api.Sql.{Sql, begin, commit, rollback, dequeue, read_audit}
use cybou_db.Api.View.{View, current, write, Unsaved}
use cybou_db.Api.Plain.{
  begun, committed, rolled, begun_ok, begun_failed, begun-none, committed_ok, committed_failed,
  rolled_lem,
}
use cybou_db.Api.Database.{
  Store, empty_store, apply, IsData, enqueue_data, insert_data, append_data, results_data,
  inbox_data, audit_data, reporting_data, Database, Contract, Reliable,
}

-- A statement is its text; the last message that a step has taken is kept beside the file.
pub record Plain : Type 0 where
  pub shown : View Store
  pub taken : List ℕ

unfoldable pub run : View Store → Sql → ℕ × View Store
run v begin = begun v.staged v
run v commit = committed v.staged v
run v rollback = rolled v.staged v
run v q = (ok_code, write v (apply q (current v)))

unfoldable pub pop : List (List ℕ) → Plain → ℕ × Plain
pop [] s = (done_code, s)
pop (m ∷ rest) s = (
  row_code,
  record { shown = write s.shown (record (current s.shown) { inbox = rest }); taken = m },
)

unfoldable pub next : Option (List ℕ) → Plain → ℕ × Plain
next none s = (done_code, s)
next (some m) s = (
  row_code,
  record {
    shown = write s.shown (record (current s.shown) { cursor = suc (current s.shown).cursor });
    taken = m;
  },
)

unfoldable pub step_plain : Plain → Sql → ℕ × Plain
step_plain s dequeue = pop (current s.shown).inbox s
step_plain s read_audit = next (get_elem? (current s.shown).audit (current s.shown).cursor) s
step_plain s q = (error_code, s)

unfoldable pub pred : ℕ → ℕ
pred zero = zero
pred (suc n) = n

abbrev pub plain : Database
plain = record {
  State = Plain;
  Stmt = Sql;
  create = (
    ok_code,
    record { shown = record { saved = empty_store; staged = none; live = 0 }; taken = [] },
  );
  exec = λ s q. let r = run s.shown q in (r.0, record s { shown = r.1 });
  prepare = λ s q. (ok_code, q, record s { shown = record s.shown { live = suc s.shown.live } });
  step = step_plain;
  message = λ s st cap. if ltb cap (length s.taken) then (misuse_code, []) else (ok_code, s.taken);
  finalize = λ s st. record s { shown = record s.shown { live = pred s.shown.live } };
  close = λ s. if s.shown.live == 0 then (ok_code, s) else (busy_code, s);
}

pub run_data :
    (v : View Store) (q : Sql) → IsData q → run v q ≡ (ok_code, write v (apply q (current v)))
unfolding run
run_data v _ (enqueue_data m) = refl
run_data v _ (insert_data len s) = refl
run_data v _ (append_data s) = refl
run_data v _ results_data = refl
run_data v _ inbox_data = refl
run_data v _ audit_data = refl
run_data v _ reporting_data = refl

pub popped :
    (l : List (List ℕ)) (s : Plain)
    → (pop l s).0 ≡ row_code
    → (m : List ℕ) × (rest : List (List ℕ)) × (l ≡ m ∷ rest)
      × ((pop l s).1.shown ≡ write s.shown (record (current s.shown) { inbox = rest }))
      × ((pop l s).1.taken ≡ m)
unfolding pop
popped [] s e = absurd (omega (arith, e))
popped (m ∷ rest) s e = (m, rest, refl, refl, refl)

pub pop_empty :
    (l : List (List ℕ)) (s : Plain)
    → (pop l s).0 ≡ done_code
    → (l ≡ []) × ((pop l s).1.shown ≡ s.shown)
unfolding pop
pop_empty [] s e = (refl, refl)
pop_empty (m ∷ rest) s e = absurd (omega (arith, e))

pub pop_failed :
    (l : List (List ℕ)) (s : Plain) → (pop l s).0 ≢ row_code → Unsaved s.shown (pop l s).1.shown
unfolding pop
pop_failed [] s e = record { saved_same = refl; live_same = refl; none_begun = λ p. p }
pop_failed (m ∷ rest) s e = absurd (e refl)

pop_answers : (l : List (List ℕ)) (s : Plain) → ((pop l s).0 ≡ row_code) ⊎ ((pop l s).0 ≡ done_code)
unfolding pop
pop_answers [] s = inr refl
pop_answers (m ∷ rest) s = inl refl

pub next_given :
    (o : Option (List ℕ)) (s : Plain)
    → (next o s).0 ≡ row_code
    → (m : List ℕ) × (o ≡ some m)
      × ((next o s).1.shown
          ≡ write s.shown (record (current s.shown) { cursor = suc (current s.shown).cursor }))
      × ((next o s).1.taken ≡ m)
unfolding next
next_given none s e = absurd (omega (arith, e))
next_given (some m) s e = (m, refl, refl, refl)

pub next_done :
    (o : Option (List ℕ)) (s : Plain)
    → (next o s).0 ≡ done_code
    → (o ≡ none) × ((next o s).1.shown ≡ s.shown)
unfolding next
next_done none s e = (refl, refl)
next_done (some m) s e = absurd (omega (arith, e))

pub next_failed :
    (o : Option (List ℕ)) (s : Plain) → (next o s).0 ≢ row_code → Unsaved s.shown (next o s).1.shown
unfolding next
next_failed none s e = record { saved_same = refl; live_same = refl; none_begun = λ p. p }
next_failed (some m) s e = absurd (e refl)

next_answers :
    (o : Option (List ℕ)) (s : Plain) → ((next o s).0 ≡ row_code) ⊎ ((next o s).0 ≡ done_code)
unfolding next
next_answers none s = inr refl
next_answers (some m) s = inl refl

pub length_fits :
    (s : Plain) (cap : ℕ) → length s.taken ≤ cap → plain.message s dequeue cap ≡ (ok_code, s.taken)
length_fits s cap h = rw (le→ltb cap (length s.taken) h) refl

pub length_exceeds :
    (s : Plain) (cap : ℕ) → cap < length s.taken → (plain.message s dequeue cap).0 ≡ misuse_code
length_exceeds s cap h = rw (lt→ltb cap (length s.taken) h) refl

pub misuse_lem : misuse_code ≢ ok_code
misuse_lem e = omega (arith, e)

pub closed_lem : (s : Plain) → (plain.close s).1.shown.saved ≡ s.shown.saved
closed_lem s = elim (Bool-cases (s.shown.live == 0)) [ inl h ↦ rw h refl | inr h ↦ rw h refl ]

unfoldable pub plain_contract : Contract plain
unfolding run step_plain pred
plain_contract = record {
  view = λ s. s.shown;
  Prepared = λ s st q. st ≡ q;
  Took = λ s st m. s.taken ≡ m;
  created = λ e. refl;
  exec_data = λ s q a l e. ap (λ (r : ℕ × View Store). r.1) (run_data s.shown q a);
  exec_data_failed =
      λ s q t a o e. absurd (e (ap (λ (r : ℕ × View Store). r.0) (run_data s.shown q a)));
  exec_begin = λ s e. begun_ok s.shown.staged s.shown e;
  exec_begin_failed = λ s e. begun_failed s.shown.staged s.shown e;
  exec_commit =
      λ s t o e. ap (λ (r : ℕ × View Store). r.1) (committed_ok s.shown.staged s.shown t o);
  exec_commit_failed = λ s t o e.
      let u = committed_failed s.shown.staged s.shown e in (inl u.saved_same, u.live_same);
  exec_rollback = λ s. rolled_lem s.shown.staged s.shown;
  prepared = λ s q e. (refl, refl);
  prepare_failed = λ s q e. absurd (e refl);
  finalized = λ s st q n p l. ap (λ (x : ℕ). record s.shown { live = pred x }) l;
  stepped = λ s st q p. p;
  dequeued = λ s st p. rw p (popped (current s.shown).inbox s);
  dequeue_empty = λ s st p. rw p (pop_empty (current s.shown).inbox s);
  dequeue_failed = λ s st t p o. rw p (pop_failed (current s.shown).inbox s);
  read = λ s st p. rw p (next_given (get_elem? (current s.shown).audit (current s.shown).cursor) s);
  read_done =
      λ s st p. rw p (next_done (get_elem? (current s.shown).audit (current s.shown).cursor) s);
  read_failed = λ s st p. rw p (λ e.
      let u = next_failed (get_elem? (current s.shown).audit (current s.shown).cursor) s e in
      (inl u.saved_same, u.live_same));
  message_fits = λ s st m cap p. rw (sym p) (length_fits s cap);
  message_too_long =
      λ s st m cap p. rw (sym p) (λ h e. misuse_lem (cc (length_exceeds s cap h, e)));
  closed = λ s e. closed_lem s;
}

pub plain_reliable : Reliable plain plain_contract
unfolding run step_plain plain_contract
plain_reliable = record {
  create_ok = refl;
  data_ok = λ s q a l. ap (λ (r : ℕ × View Store). r.0) (run_data s.shown q a);
  begin_ok = λ s o. begun-none s.shown.staged s.shown o;
  commit_ok = λ s t o. ap (λ (r : ℕ × View Store). r.0) (committed_ok s.shown.staged s.shown t o);
  prepare_ok = λ s q. refl;
  dequeue_answers = λ s st p. rw p (pop_answers (current s.shown).inbox s);
  read_answers =
      λ s st p. rw p (next_answers (get_elem? (current s.shown).audit (current s.shown).cursor) s);
  close_ok = λ s l. rw l refl;
}
