-- ===== src/Leased/Steps.antt =====
-- What each call of the leased worker does: it goes on with the store changed as the header says, or
-- the program has ended, on a machine that is not LeaseReliable.
use cybou_db.Prelude.{
  ℕ, ◌≤◌, ◌≡◌, inl, inr, sym, ap, ◌∙◌, Option, none, some, ◌==◌, List, [], arith, Bool-cases, ==→eq,
  ==→ne,
}
use cybou_db.Api.Codes.{ok_code}
use cybou_db.Api.Sql.{Sql, begin, commit, message_of}
use cybou_db.Api.View.{View, current, write}
use cybou_db.Api.Database.{Database, Quoteless}
use cybou_db.Leased.Tickets.{Slot, change, finish, hand_back, extend}
use cybou_db.Leased.Run.{Goes, goes, ended}
use cybou_db.Leased.Calls.{LeasedStore, LeaseCalls, apply, IsData, LeaseContract, LeaseReliable}
use cybou_db.Leased.Program.{accepted}

module _ (d : Database) (c : LeaseCalls d) (k : LeaseContract d c) where
  -- The state shows this, and on a LeaseReliable machine the clock stands at `t` or later.
  abbrev pub Since : ℕ → View LeasedStore → d.State → Type 0
  Since t v s = (k.view s ≡ v) × (LeaseReliable d c k → t ≤ k.clock s)

  abbrev pub GoesOn : {A : Type 0} → (A → d.State → Type 0) → Option (A × d.State) → Type 0
  GoesOn P r = Goes (¬ LeaseReliable d c k) P r

  abbrev pub quiet : LeasedStore → View LeasedStore
  quiet x = record { saved = x; staged = none; live = 0 }

  accepted_lem :
      (q : Sql) (t : ℕ) (v v' : View LeasedStore) (s : d.State)
      → Since t v s
      → ((d.exec s q).0 ≡ ok_code → k.view (d.exec s q).1 ≡ v')
      → (LeaseReliable d c k → (d.exec s q).0 ≡ ok_code)
      → GoesOn (λ _ s'. Since t v' s') (accepted d c q s)
  unfolding accepted
  accepted_lem q t v v' s o law sure = elim (Bool-cases ((d.exec s q).0 == ok_code)) [
    | inl h ↦ rw h (goes (law (==→eq _ ok_code h), λ r. omega (arith, o.1 r, r.clock_exec s q)))
    | inr h ↦ rw h (ended (λ r. ==→ne _ ok_code h (sure r)))
  ]

  pub accepted-data :
      (q : Sql) (t : ℕ) (v : View LeasedStore) (s : d.State)
      → IsData q
      → Quoteless (message_of q)
      → Since t v s
      → GoesOn (λ _ s'. Since t (write v (apply q (current v))) s') (accepted d c q s)
  accepted-data q t v s a l o =
      accepted_lem q t v _ s o
        (λ e.
          k.exec_data s q a l e ∙ ap (λ (w : View LeasedStore). write w (apply q (current w))) o.0)
        (λ r. r.data_ok s q a l)

  pub accepted-begin :
      (t : ℕ) (x : LeasedStore) (n : ℕ) (s : d.State)
      → Since t (record { saved = x; staged = none; live = n }) s
      → GoesOn
          (λ _ s'. Since t (record { saved = x; staged = some x; live = n }) s')
          (accepted d c begin s)
  accepted-begin t x n s o =
      accepted_lem begin t _ _ s o
        (λ e.
          k.exec_begin s e ∙ ap (λ (w : View LeasedStore). record w { staged = some w.saved }) o.0)
        (λ r. r.begin_ok s (ap (λ (w : View LeasedStore). w.staged) o.0))

  pub accepted-commit :
      (t : ℕ) (x y : LeasedStore) (n : ℕ) (s : d.State)
      → Since t (record { saved = x; staged = some y; live = n }) s
      → GoesOn
          (λ _ s'. Since t (record { saved = y; staged = none; live = n }) s')
          (accepted d c commit s)
  accepted-commit t x y n s o =
      let e = ap (λ (w : View LeasedStore). w.staged) o.0 in
      accepted_lem commit t _ _ s o
        (λ h.
          k.exec_commit s y e h
          ∙ ap (λ (w : View LeasedStore). record w { saved = y; staged = none }) o.0)
        (λ r. r.commit_ok s y e)

  or_empty : Option (List Slot) → List Slot
  or_empty none = []
  or_empty (some l) = l

  changed :
      (v w : View LeasedStore) (g : Option (List Slot)) (l l' : List Slot) (u : View LeasedStore)
      → w ≡ v
      → g ≡ some l
      → g ≡ some l'
      → u ≡ write w (record (current w) { slots = l })
      → u ≡ write v (record (current v) { slots = l' })
  unfolding or_empty
  changed v w g l l' u e a b h =
      let same : l ≡ l' = sym (ap or_empty a) ∙ ap or_empty b in
      h
      ∙ ap (λ (x : View LeasedStore). write x (record (current x) { slots = l })) e
      ∙ ap (λ (x : List Slot). write v (record (current v) { slots = x })) same

  slots_of : (v w : View LeasedStore) → w ≡ v → (current w).slots ≡ (current v).slots
  slots_of v w e = ap (λ (x : View LeasedStore). (current x).slots) e

  pub accepted-ack :
      (position token t : ℕ) (v : View LeasedStore) (l : List Slot) (s : d.State)
      → change finish position token (current v).slots ≡ some l
      → Since t v s
      → GoesOn
          (λ _ s'. Since t (write v (record (current v) { slots = l })) s')
          (accepted d c (Sql.ack position token) s)
  accepted-ack position token t v l s e o =
      let e' = ap (change finish position token) (slots_of v _ o.0) ∙ e in
      accepted_lem _ t v _ s o
        (λ h. let (l', g, w) = k.exec_ack s position token h in changed v _ _ l' l _ o.0 g e' w)
        (λ r. r.ack_ok s position token l e')

  pub accepted-nack :
      (position token t : ℕ) (v : View LeasedStore) (l : List Slot) (s : d.State)
      → change hand_back position token (current v).slots ≡ some l
      → Since t v s
      → GoesOn
          (λ _ s'. Since t (write v (record (current v) { slots = l })) s')
          (accepted d c (Sql.nack position token) s)
  accepted-nack position token t v l s e o =
      let e' = ap (change hand_back position token) (slots_of v _ o.0) ∙ e in
      accepted_lem _ t v _ s o
        (λ h. let (l', g, w) = k.exec_nack s position token h in changed v _ _ l' l _ o.0 g e' w)
        (λ r. r.nack_ok s position token l e')

  -- The new deadline is counted from the time `n` that the call reads.
  pub accepted-renew :
      (position token ms t : ℕ) (v : View LeasedStore) (f : ℕ → List Slot) (s : d.State)
      → ((n : ℕ) → change (extend n ms) position token (current v).slots ≡ some (f n))
      → Since t v s
      → GoesOn
          (λ _ s'. (n : ℕ) × Since t (write v (record (current v) { slots = f n })) s')
          (accepted d c (Sql.renew position token ms) s)
  accepted-renew position token ms t v f s e o =
      let n = k.clock (d.exec s (Sql.renew position token ms)).1 in
      let e' = ap (change (extend n ms) position token) (slots_of v _ o.0) ∙ e n in
      then_some n (
        accepted_lem _ t v _ s o
          (λ h.
            let (l', g, w) = k.exec_renew s position token ms h in
            changed v _ _ l' (f n) _ o.0 g e' w)
          (λ r. r.renew_ok s position token ms (f n) e'))
    where
      then_some :
          {P : ℕ → Unit {0} → d.State → Type 0} {r : Option (Unit {0} × d.State)} (n : ℕ)
          → GoesOn (P n) r
          → GoesOn (λ a s'. (n : ℕ) × P n a s') r
      then_some n (goes p) = goes (n, p)
      then_some n (ended w) = ended w
