-- ===== src/Worker/Drain.antt =====
-- The loop of `main` drains the queue, on a machine that fails no call.
use cybou_db.Prelude.{
  ℕ, zero, suc, ◌+◌, ◌≤◌, ◌<◌, ◌≡◌, refl, sym, ap, ap₂, ◌∙◌, subst, none, arith, List, [], ◌∷◌,
  length,
}
use cybou_db.Api.View.{current}
use cybou_db.Api.Database.{Store, Quoteless, Database, Contract, Reliable}
use cybou_db.Worker.Loop.{work}
use cybou_db.Worker.Job.{with_job, TooLong, worked, idle, failed, unsure, process_one-Outcome}

-- Every message fits the worker's buffer, and none ends a literal.
abbrev pub Fine : List (List ℕ) → Type 0
Fine [] = Unit
Fine (m ∷ rest) = Quoteless m × (length m ≤ 255) × Fine rest

-- The store after all of these jobs have been done in turn.
unfoldable pub with_jobs : List (List ℕ) → Store → Store
with_jobs [] t = t
with_jobs (m ∷ rest) t = with_jobs rest (with_job t m rest)

module _ (d : Database) (k : Contract d) where
  -- What the loop answers: everything is done, or the machine fails some call.
  pub data Drained (t : Store) (n processed : ℕ) (r : ℕ × ℕ × d.State) : Type 0 where
    all_done :
        r.0 ≡ 0
        → r.1 ≡ processed
        → (k.view r.2).saved ≡ t
        → current (k.view r.2) ≡ t
        → (k.view r.2).live ≡ n
        → Drained t n processed r
    stopped : r.0 ≡ 1 → ¬ Reliable d k → Drained t n processed r

  quiet_head :
      (t : Store) (l : List (List ℕ))
      → t.inbox ≡ l
      → Fine l
      → (m : List ℕ) (rest : List (List ℕ)) → t.inbox ≡ m ∷ rest
      → Quoteless m
  quiet_head t [] e f m rest g = absurd (ground (arith))
  quiet_head t (a ∷ l) e f m rest g = subst Quoteless (ground arith) f.0

  not-TooLong : (t : Store) (l : List (List ℕ)) → t.inbox ≡ l → Fine l → ¬ TooLong t
  not-TooLong t [] e f (m, rest, g, h) = absurd (ground arith)
  not-TooLong t (a ∷ l) e f (m, rest, g, h) =
      let same : a ≡ m = ground arith in absurd (omega (arith, f.1, ap length same))

  -- Outside a transaction, over messages of 255 bytes at most with no quote, the loop of `main` with more rounds
  -- than there are messages ends with every job done in turn and counted, or answers 1, and that only on a
  -- machine that fails some call.
  pub work-Drained :
      (l : List (List ℕ)) (fuel processed sum n : ℕ) (t : Store) (s : d.State)
      → t.inbox ≡ l
      → Fine l
      → length l < fuel
      → processed + length l ≡ sum
      → k.view s ≡ record { saved = t; staged = none; live = n }
      → Drained (with_jobs l t) n sum (work d fuel processed s)
  unfolding work with_jobs
  work-Drained l zero processed sum n t s e f h g o = absurd (omega arith)
  work-Drained [] (suc fuel) processed sum n t s e f h g o =
      elim (process_one-Outcome d k t n s (quiet_head t [] e f) o) [
        | worked m rest a b c l v ↦ absurd (ground arith)
        | idle a b c v w x ↦ rw (a, b) (all_done refl (omega arith) v w x)
        | failed a b v x why ↦ rw a (stopped refl (λ r. not-TooLong t [] e f (why r)))
        | unsure m rest a b c l v x why ↦ rw a (stopped refl why)
      ]
  work-Drained (m' ∷ l) (suc fuel) processed sum n t s e f h g o =
      elim (process_one-Outcome d k t n s (quiet_head t (m' ∷ l) e f) o) [
        | worked m rest a b c short v ↦
            let same : m' ≡ m = ground arith in
            let tail : l ≡ rest = ground arith in
            rw (a, b)
              (work-Drained l fuel (processed + 1) sum n (with_job t m' l) _ refl f.2 (omega arith)
                (omega arith)
                (v
                  ∙ ap₂
                      (λ (x : List ℕ) (y : List (List ℕ)). record {
                        saved = with_job t x y;
                        staged = none;
                        live = n;
                      })
                      (sym same) (sym tail)))
        | idle a b c v w x ↦ absurd (ground arith)
        | failed a b v x why ↦ rw a (stopped refl (λ r. not-TooLong t (m' ∷ l) e f (why r)))
        | unsure m rest a b c l v x why ↦ rw a (stopped refl why)
      ]
