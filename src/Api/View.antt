-- ===== src/Api/View.antt =====
-- What a connection shows of its file and of its transaction, for any store.
use cybou_db.Prelude.{ℕ, ◌≡◌, Option, none, some}

-- What a connection shows: what has been committed, what the open transaction has made of it, and
-- how many statements are alive.
pub record View (T : Type 0) : Type 0 where
  pub saved : T
  pub staged : Option T
  pub live : ℕ

abbrev pub or_saved : {T : Type 0} → Option T → T → T
or_saved none t = t
or_saved (some u) t = u

-- What a statement reads.
abbrev pub current : {T : Type 0} → View T → T
current v = or_saved v.staged v.saved

-- Without a transaction each statement commits on its own.
abbrev pub write_to : {T : Type 0} → Option T → T → View T → View T
write_to none t v = record v { saved = t }
write_to (some u) t v = record v { staged = some t }

abbrev pub write : {T : Type 0} → View T → T → View T
write v t = write_to v.staged t v

-- What a failed call leaves: nothing has been committed, and no transaction has begun.
pub record Unsaved {T : Type 0} (v v' : View T) : Type 0 where
  pub saved_same : v'.saved ≡ v.saved
  pub live_same : v'.live ≡ v.live
  pub none_begun : v.staged ≡ none → v'.staged ≡ none
