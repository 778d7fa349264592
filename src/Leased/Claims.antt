-- ===== src/Leased/Claims.antt =====
-- `claim_one`, a refused ACK and `close`: the program goes on with what the header says, or a call has
-- failed and the program has ended.
use cybou_db.Prelude.{
  ℕ, suc, ◌+◌, ◌≤◌, ◌≡◌, ◌≢◌, ◌⊎◌, inl, inr, refl, sym, ap, ◌∙◌, subst, Option, none, some, ◌==◌,
  List, [], length, arith, Bool-cases, ==→eq, ==→ne,
}
use cybou_db.Api.Codes.{ok_code, row_code, done_code}
use cybou_db.Api.Sql.{Sql}
use cybou_db.Api.View.{View, current, write}
use cybou_db.Api.Database.{Database}
use cybou_db.Leased.Tickets.{Slot, Ticket, take_first, change, finish}
use cybou_db.Leased.Run.{Cmd, and_then, goes, ended, Goes-and_then}
use cybou_db.Leased.Calls.{LeasedStore, LeaseCalls, LeaseContract, LeaseReliable}
use cybou_db.Leased.Program.{
  Claim, refuse_claim, read_claim, step_claim, claim_one, took, claimed, refused, close_all,
}
use cybou_db.Leased.Steps.{Since, GoesOn, quiet}

some-ne-none : {A : Type 0} {o : Option A} {a : A} → o ≡ some a → o ≢ none
some-ne-none e f = cc (e, f)

abbrev Taking : Type 0
Taking = Option (Ticket × List Slot)

ticket_or : Ticket → Taking → Ticket
ticket_or t none = t
ticket_or t (some (u, l)) = u

slots_or : Taking → List Slot
slots_or none = []
slots_or (some (u, l)) = l

neither : {P Q : Type 0} → ¬ P → ¬ Q → ¬ (Q ⊎ P)
neither p q (inl h) = q h
neither p q (inr h) = p h

module _ (d : Database) (c : LeaseCalls d) (k : LeaseContract d c) where
  pub refused-ack :
      (position token t : ℕ) (x : LeasedStore) (n : ℕ) (s : d.State)
      → change finish position token x.slots ≡ none
      → Since d c k t (record { saved = x; staged = none; live = n }) s
      → GoesOn d c k
          (λ _ s'. Since d c k t (record { saved = x; staged = none; live = n }) s')
          (refused d c (Sql.ack position token) s)
  unfolding refused
  refused-ack position token t x n s e o =
      let q = Sql.ack position token in
      elim (Bool-cases ((d.exec s q).0 == ok_code)) [
        | inl h ↦
            let (l, g, w) = k.exec_ack s position token (==→eq _ ok_code h) in
            absurd (
              some-ne-none g (
                ap (λ (v : View LeasedStore). change finish position token (current v).slots) o.0
                ∙ e))
        | inr h ↦ rw h (
            goes (
              k.exec_ack_failed s position token (ap (λ (v : View LeasedStore). v.staged) o.0)
                    (==→ne _ ok_code h)
                  ∙ o.0,
              λ r. omega (arith, o.1 r, r.clock_exec s q),
            ))
      ]

  -- The clock passes, and the store stays.
  pub spun-Since :
      (ms t : ℕ) (v : View LeasedStore) (s : d.State)
      → Since d c k t v s
      → Since d c k (t + ms) v (c.spin ms s)
  spun-Since ms t v s o = (k.spun s ms ∙ o.0, λ r. omega (arith, o.1 r, r.clock_spin s ms))

  pub close_all-Goes :
      (t : ℕ) (x : LeasedStore) (s : d.State)
      → Since d c k t (quiet d c k x) s
      → GoesOn d c k (λ status s'. (status ≡ 0) × ((k.view s').saved ≡ x)) (close_all d c 3 s)
  unfolding close_all
  close_all-Goes t x s o = elim (Bool-cases ((d.close s).0 == ok_code)) [
    | inl h ↦
        rw h
          (goes (refl, k.closed s (==→eq _ ok_code h) ∙ ap (λ (v : View LeasedStore). v.saved) o.0))
    | inr h ↦
        rw h (
          ended (λ r. ==→ne _ ok_code h (r.close_ok s (ap (λ (v : View LeasedStore). v.live) o.0))))
  ]

  module _ (ms t : ℕ) (x : LeasedStore) (tk : Ticket) (f : ℕ → List Slot) where
    -- The ticket is `tk`, and was made at a time `n` of the clock.
    abbrev pub Given : Ticket → d.State → Type 0
    Given u s = (u ≡ tk) × (n : ℕ) × Since d c k n (quiet d c k (record x { slots = f n })) s

    abbrev Stopped : Claim d c → Type 0
    Stopped r = GoesOn d c k Given (took d c r)

    refuse-Stopped :
        (st : d.Stmt) (s : d.State) → ¬ LeaseReliable d c k → Stopped (refuse_claim d c st s)
    unfolding refuse_claim took
    refuse-Stopped st s why = ended why

    read_claim-Given :
        (st : d.Stmt) (s : d.State) (n : ℕ)
        → length tk.payload ≤ 255
        → k.Prepared s st (Sql.claim ms)
        → k.Took s st tk
        → Since d c k n (record { saved = record x { slots = f n }; staged = none; live = 1 }) s
        → Stopped (read_claim d c st s)
    unfolding read_claim took
    read_claim-Given st s n h p u o =
        rw (k.message_fits s st tk 255 u h, k.ticket_given s st tk u)
          (goes (
            refl,
            n,
            (
              k.finalized s st (Sql.claim ms) 0 p (ap (λ (v : View LeasedStore). v.live) o.0)
                  ∙ ap (λ (v : View LeasedStore). record v { live = 0 }) o.0,
              λ r. omega (arith, o.1 r, r.clock_finalize s st),
            ),
          ))

    -- Whenever it is called from `t` on, a CLAIM finds that message.
    abbrev pub Finds : Type 0
    Finds =
        (n : ℕ)
        → (take_first n ms x.slots ≡ some (tk, f n))
          ⊎ ((take_first n ms x.slots ≡ none) × (t ≤ n → ¬ LeaseReliable d c k))

    module _ (short : length tk.payload ≤ 255) (finds : Finds) where
      -- What a CLAIM finds in the store that the state shows.
      found :
          (s : d.State) (n m : ℕ)
          → k.view s ≡ record { saved = x; staged = none; live = m }
          → (take_first n ms (current (k.view s)).slots ≡ some (tk, f n))
            ⊎ ((take_first n ms (current (k.view s)).slots ≡ none)
                × (t ≤ n → ¬ LeaseReliable d c k))
      found s n m e = rw e (finds n)

      row_claimed :
          (st : d.Stmt) (s : d.State)
          → k.Prepared s st (Sql.claim ms)
          → Since d c k t (record { saved = x; staged = none; live = 1 }) s
          → (d.step s st).0 ≡ row_code
          → Stopped (read_claim d c st (d.step s st).1)
      unfolding ticket_or slots_or
      row_claimed st s p o h =
          let (u, l, e, w, g) = k.claimed s st ms p h in
          elim (found s (k.clock (d.step s st).1) 1 o.0) [
            | inl a ↦
                let ticket : u ≡ tk = sym (ap (ticket_or tk) e) ∙ ap (ticket_or tk) a in
                let slots : l ≡ f (k.clock (d.step s st).1) = sym (ap slots_or e) ∙ ap slots_or a in
                read_claim-Given st _ (k.clock (d.step s st).1) short (k.stepped s st _ p)
                  (subst (k.Took (d.step s st).1 st) ticket g)
                  (
                    w
                        ∙ ap (λ (v : View LeasedStore). write v (record (current v) { slots = l }))
                            o.0
                        ∙ ap
                            (λ (y : List Slot). record {
                              saved = record x { slots = y };
                              staged = none;
                              live = 1;
                            })
                            slots,
                    λ r. omega arith,
                  )
            | inr a ↦ absurd (some-ne-none e a.0)
          ]

      step_claim-Given :
          (st : d.Stmt) (s : d.State)
          → k.Prepared s st (Sql.claim ms)
          → Since d c k t (record { saved = x; staged = none; live = 1 }) s
          → Stopped (step_claim d c st s)
      unfolding step_claim took
      step_claim-Given st s p o = elim (Bool-cases ((d.step s st).0 == done_code)) [
        | inl h ↦ rw h (elim (found s (k.clock (d.step s st).1) 1 o.0) [
          | inl a ↦
              ended (λ r. some-ne-none a (r.nothing_claimable s st ms p (==→eq _ done_code h)))
          | inr a ↦ ended (λ r. a.1 (omega (arith, o.1 r, r.clock_step s st)) r)
        ])
        | inr h ↦ elim (Bool-cases ((d.step s st).0 == row_code)) [
          | inl g ↦ rw (h, g) (row_claimed st s p o (==→eq _ row_code g))
          | inr g ↦
              rw (h, g)
                (refuse-Stopped st _ (λ r.
                  neither (==→ne _ done_code h) (==→ne _ row_code g) (r.claim_answers s st ms p)))
        ]
      ]

      pub claimed-Given :
          (s : d.State) → Since d c k t (quiet d c k x) s → GoesOn d c k Given (claimed d c ms s)
      unfolding claim_one took
      claimed-Given s o = elim (Bool-cases ((d.prepare s (Sql.claim ms)).0 == ok_code)) [
        | inl h ↦
            let (p, v) = k.prepared s (Sql.claim ms) (==→eq _ ok_code h) in
            rw h (
              step_claim-Given _ _ p (
                v ∙ ap (λ (w : View LeasedStore). record w { live = suc w.live }) o.0,
                λ r. omega (arith, o.1 r, r.clock_prepare s (Sql.claim ms)),
              ))
        | inr h ↦ rw h (ended (λ r. ==→ne _ ok_code h (r.prepare_ok s (Sql.claim ms))))
      ]

      -- A program goes on from a CLAIM with the ticket that it found.
      pub with_ticket :
          {B : Type 0} {Q : B → d.State → Type 0} (rest : Ticket → Cmd d.State B) (s : d.State)
          → Since d c k t (quiet d c k x) s
          → ((n : ℕ) (s' : d.State)
              → Since d c k n (quiet d c k (record x { slots = f n })) s'
              → GoesOn d c k Q (rest tk s'))
          → GoesOn d c k Q (and_then (claimed d c ms s) rest)
      with_ticket {Q = Q} rest s o h =
          Goes-and_then (claimed-Given s o)
            (λ u s' g. subst (λ (v : Ticket). GoesOn d c k Q (rest v s')) (sym g.0) (h g.1 s' g.2))
