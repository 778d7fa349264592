-- ===== src/Leased/Main.antt =====
-- The whole of examples/leased_worker.c: each message is finished by the worker that holds it, or the
-- program answers 1.
use cybou_db.Prelude.{ℕ, List, [], ◌∷◌, codes}
use cybou_db.Api.Database.{Database}
use cybou_db.Leased.Tickets.{Held, finished, Slot, Ticket, queued, lease}
use cybou_db.Leased.Calls.{LeasedStore, LeaseCalls, LeaseContract}
use cybou_db.Leased.Steps.{Since, quiet}

-- A message that nobody holds and that has been handed out so many times.
abbrev pub waits : List ℕ → ℕ → Slot
waits m n = record (queued m) { token = n }

abbrev pub is_done : List ℕ → ℕ → Slot
is_done m n = record { payload = m; state = finished; until = 0; token = n }

abbrev pub one_row : List (List ℕ)
one_row = codes "alpha" ∷ []

abbrev pub store : List Slot → List (List ℕ) → LeasedStore
store l rows = record { slots = l; rows = rows }

abbrev ticket : ℕ → ℕ → List ℕ → Ticket
ticket p n m = record { position = p; token = n; payload = m }

abbrev started : List Slot
started = waits (codes "alpha") 0 ∷ waits (codes "beta") 0 ∷ waits (codes "gamma") 0 ∷ []

abbrev after_first : List Slot
after_first = is_done (codes "alpha") 1 ∷ waits (codes "beta") 0 ∷ waits (codes "gamma") 0 ∷ []

abbrev after_second : List Slot
after_second = is_done (codes "alpha") 1 ∷ waits (codes "beta") 2 ∷ waits (codes "gamma") 0 ∷ []

abbrev after_third : List Slot
after_third = is_done (codes "alpha") 1 ∷ is_done (codes "beta") 3 ∷ waits (codes "gamma") 0 ∷ []

-- Each message is finished, with the token of the one who finished it.
abbrev pub all_done : List Slot
all_done = is_done (codes "alpha") 1 ∷ is_done (codes "beta") 3 ∷ is_done (codes "gamma") 2 ∷ []

module _ (d : Database) (c : LeaseCalls d) (k : LeaseContract d c) where
  -- What a part of the program leaves, at some time of the clock.
  abbrev pub Leaves : List Slot → List (List ℕ) → d.State → Type 0
  Leaves l rows s = (t : ℕ) × Since d c k t (quiet d c k (store l rows)) s

  -- The last message, held by the first worker until `m + 30`.
  abbrev first_held : ℕ → List Slot
  first_held m =
      is_done (codes "alpha") 1
      ∷ is_done (codes "beta") 3
      ∷ lease m 30 (waits (codes "gamma") 0)
      ∷ []

  -- And by the second, who asked at `n`, until `m`.
  abbrev second_held : ℕ → List Slot
  second_held m =
      is_done (codes "alpha") 1
      ∷ is_done (codes "beta") 3
      ∷ record (waits (codes "gamma") 2) { state = Held.claimed; until = m }
      ∷ []
