-- ===== src/Api/Plain.antt =====
-- Transactions of a database that fails no call.
use cybou_db.Prelude.{ℕ, ◌≡◌, ◌≢◌, ◌⊎◌, inl, inr, refl, ap, Option, none, some, arith}
use cybou_db.Api.Codes.{ok_code, error_code}
use cybou_db.Api.View.{View, or_saved, Unsaved}

unfoldable pub begun : {T : Type 0} → Option T → View T → ℕ × View T
begun none v = (ok_code, record v { staged = some v.saved })
begun (some t) v = (error_code, v)

unfoldable pub committed : {T : Type 0} → Option T → View T → ℕ × View T
committed none v = (error_code, v)
committed (some t) v = (ok_code, record v { saved = t; staged = none })

unfoldable pub rolled : {T : Type 0} → Option T → View T → ℕ × View T
rolled none v = (error_code, v)
rolled (some t) v = (ok_code, record v { staged = none })

pub begun_ok :
    {T : Type 0} (o : Option T) (v : View T)
    → (begun o v).0 ≡ ok_code
    → (begun o v).1 ≡ record v { staged = some v.saved }
unfolding begun
begun_ok none v e = refl
begun_ok (some t) v e = absurd (omega (arith, e))

pub begun-none : {T : Type 0} (o : Option T) (v : View T) → o ≡ none → (begun o v).0 ≡ ok_code
unfolding begun
begun-none none v e = refl
begun-none (some t) v e = cc e

pub begun_failed :
    {T : Type 0} (o : Option T) (v : View T) → (begun o v).0 ≢ ok_code → (begun o v).1 ≡ v
unfolding begun
begun_failed none v e = absurd (e refl)
begun_failed (some t) v e = refl

pub committed_ok :
    {T : Type 0} (o : Option T) (v : View T) (t : T)
    → o ≡ some t
    → committed o v ≡ (ok_code, record v { saved = t; staged = none })
unfolding committed
committed_ok none v t e = cc e
committed_ok {T = T} (some u) v t e =
    ap (λ (o : Option T). (ok_code, record v { saved = or_saved o u; staged = none })) e

pub committed_failed :
    {T : Type 0} (o : Option T) (v : View T)
    → (committed o v).0 ≢ ok_code
    → Unsaved v (committed o v).1
unfolding committed
committed_failed none v e = record { saved_same = refl; live_same = refl; none_begun = λ p. p }
committed_failed (some u) v e = absurd (e refl)

pub rolled_lem :
    {T : Type 0} (o : Option T) (v : View T)
    → ((rolled o v).1 ≡ v) ⊎ ((rolled o v).1 ≡ record v { staged = none })
unfolding rolled
rolled_lem none v = inl refl
rolled_lem (some t) v = inr refl
