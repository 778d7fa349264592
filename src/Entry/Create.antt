-- ===== src/Entry/Create.antt =====
-- cyboudb_open, cyboudb_create_with_options and cyboudb_create. What they call of the engine and of the
-- machine is a record, over a state that holds the files and the memory. A pointer is none where it is NULL;
-- `out` is the handle that *out_db holds, 0 for NULL.
use cybou_db.Prelude.{ℕ, ◌/◌, ◌%◌, Option, none, some, Bool, if◌then◌else◌, ◌==◌, ltb, List}
use cybou_db.Api.Codes.{ok_code, error_code, busy_code, misuse_code, nomem_code}
use cybou_db.Leased.Calls.{CreateOptions, create_queue_leases}

abbrev pub open_readwrite : ℕ
open_readwrite = 2

abbrev pub e_busy : ℕ
e_busy = 33

-- `zeroed` clears a new handle and stores its flags, `mark_open` sets its mark. A creator is told not to
-- replace a file.
pub record Engine : Type 1 where
  pub State : Type 0
  pub mem_alloc : State → Option ℕ × State
  pub mem_free : ℕ → State → State
  pub zeroed : ℕ → ℕ → State → State
  pub mark_open : ℕ → State → State
  pub db_open : List ℕ → ℕ → Bool → State → ℕ × State
  pub db_create_default : List ℕ → ℕ → State → ℕ × State
  pub db_create_leases : List ℕ → ℕ → State → ℕ × State

-- The status, what *out_db holds, and the state.
abbrev pub Opened : Engine → Type 0
Opened e = ℕ × Option ℕ × e.State

-- What db_open has answered.
unfoldable pub opened_as : (e : Engine) → ℕ → ℕ × e.State → Opened e
opened_as e handle r =
    if r.0 == 0
    then (ok_code, some handle, e.mark_open handle r.1)
    else (if r.0 == e_busy then busy_code else error_code, some 0, e.mem_free handle r.1)

unfoldable pub open_handle : (e : Engine) → List ℕ → ℕ → Option ℕ → e.State → Opened e
open_handle e path flags none s = (nomem_code, some 0, s)
open_handle e path flags (some handle) s =
    opened_as e handle
      (e.db_open path handle (flags / open_readwrite % 2 == 1) (e.zeroed handle flags s))

unfoldable pub cyboudb_open : (e : Engine) → Option (List ℕ) → ℕ → Option ℕ → e.State → Opened e
cyboudb_open e none flags out s = (misuse_code, out, s)
cyboudb_open e (some path) flags none s = (misuse_code, none, s)
cyboudb_open e (some path) flags (some out) s =
    let r = e.mem_alloc s in open_handle e path flags r.0 r.1

-- The flags that are asked for, or none where the options are refused.
unfoldable pub asked : Option CreateOptions → Option ℕ
asked none = some 0
asked (some o) =
    if ltb o.struct_size 8 then none else if o.flags / 2 == 0 then some o.flags else none

unfoldable pub made : (e : Engine) → List ℕ → ℕ × e.State → Opened e
made e path r =
    if r.0 == 0
    then cyboudb_open e (some path) open_readwrite (some 0) r.1
    else (error_code, some 0, r.1)

unfoldable pub make : (e : Engine) → List ℕ → ℕ → Option ℕ → e.State → Opened e
make e path pages none s = (misuse_code, some 0, s)
make e path pages (some flags) s =
    if flags % 2 == create_queue_leases
    then made e path (e.db_create_leases path pages s)
    else made e path (e.db_create_default path pages s)

unfoldable pub cyboudb_create_with_options :
    (e : Engine) → Option (List ℕ) → ℕ → Option CreateOptions → Option ℕ → e.State → Opened e
cyboudb_create_with_options e none pages o out s = (misuse_code, out, s)
cyboudb_create_with_options e (some path) pages o none s = (misuse_code, none, s)
cyboudb_create_with_options e (some path) pages o (some out) s = make e path pages (asked o) s

unfoldable pub cyboudb_create : (e : Engine) → Option (List ℕ) → ℕ → Option ℕ → e.State → Opened e
cyboudb_create e path pages out s = cyboudb_create_with_options e path pages none out s
