-- ===== src/Entry/Made.antt =====
-- src/api/cyboudb_c.asm: what making a file answers, by what the options ask for and what the engine
-- answers. include/cyboudb.h names fewer statuses than the code gives.
use cybou_db.Prelude.{
  ℕ, ◌/◌, ◌%◌, ◌≤◌, ◌<◌, ◌≡◌, ◌≢◌, inl, inr, refl, ap, ◌∙◌, Option, none, some, Bool, true, false,
  if◌then◌else◌, ◌==◌, ltb, List, arith, Bool-cases, ==→eq, ==→ne, ltb→lt, ltb→le,
}
use cybou_db.Api.Codes.{ok_code, error_code, busy_code, misuse_code, nomem_code}
use cybou_db.Leased.Calls.{CreateOptions, create_queue_leases}
use cybou_db.Entry.Create.{
  Engine, Opened, open_readwrite, e_busy, opened_as, open_handle, cyboudb_open, asked, made, make,
  cyboudb_create_with_options, cyboudb_create,
}

-- What the options ask for: a file with leases or without, or something that this build does not make.
pub data Wants : Option CreateOptions → Bool → Type 0 where
  default : Wants none false
  plain : (o : CreateOptions) → 8 ≤ o.struct_size → o.flags ≡ 0 → Wants (some o) false
  leased :
      (o : CreateOptions) → 8 ≤ o.struct_size → o.flags ≡ create_queue_leases → Wants (some o) true

pub data Refuses : Option CreateOptions → Type 0 where
  short : (o : CreateOptions) → o.struct_size < 8 → Refuses (some o)
  unknown : (o : CreateOptions) → 2 ≤ o.flags → Refuses (some o)

-- The creator that a wish names.
abbrev pub creator : (e : Engine) → Bool → List ℕ → ℕ → e.State → ℕ × e.State
creator e leases = if leases then e.db_create_leases else e.db_create_default

-- What opening a file for reading and writing answers: no memory, a file that cannot be opened, with BUSY for
-- one that another writer has, and the memory given back, or the handle.
pub data Opens (e : Engine) (path : List ℕ) (s : e.State) : Opened e → Type 0 where
  no_memory : (e.mem_alloc s).0 ≡ none → Opens e path s (nomem_code, some 0, (e.mem_alloc s).1)
  not_opened :
      (handle code : ℕ) (s' : e.State)
      → (e.mem_alloc s).0 ≡ some handle
      → e.db_open path handle true (e.zeroed handle open_readwrite (e.mem_alloc s).1) ≡ (code, s')
      → code ≢ 0
      → Opens e path s
          (if code == e_busy then busy_code else error_code, some 0, e.mem_free handle s')
  opened :
      (handle : ℕ) (s' : e.State)
      → (e.mem_alloc s).0 ≡ some handle
      → e.db_open path handle true (e.zeroed handle open_readwrite (e.mem_alloc s).1) ≡ (0, s')
      → Opens e path s (ok_code, some handle, e.mark_open handle s')

-- What making one answers.
pub data Makes (e : Engine) (path : List ℕ) (pages : ℕ) (o : Option CreateOptions) (s : e.State)
    : Opened e → Type 0 where
  refused : Refuses o → Makes e path pages o s (misuse_code, some 0, s)
  not_made :
      (leases : Bool)
      → Wants o leases
      → (creator e leases path pages s).0 ≢ 0
      → Makes e path pages o s (error_code, some 0, (creator e leases path pages s).1)
  made_and :
      (leases : Bool) (r : Opened e)
      → Wants o leases
      → (creator e leases path pages s).0 ≡ 0
      → Opens e path (creator e leases path pages s).1 r
      → Makes e path pages o s r

opened_as-Opens :
    (e : Engine) (path : List ℕ) (s : e.State) (handle : ℕ) (r : ℕ × e.State)
    → (e.mem_alloc s).0 ≡ some handle
    → e.db_open path handle true (e.zeroed handle open_readwrite (e.mem_alloc s).1) ≡ r
    → Opens e path s (opened_as e handle r)
unfolding opened_as
opened_as-Opens e path s handle (code, s') m r = elim (Bool-cases (code == 0)) [
  | inl z ↦ rw z (opened handle s' m (r ∙ ap (λ (n : ℕ). (n, s')) (==→eq code 0 z)))
  | inr z ↦ rw z (not_opened handle code s' m r (==→ne code 0 z))
]

cyboudb_open-Opens :
    (e : Engine) (path : List ℕ) (s : e.State) (o : Option ℕ)
    → (e.mem_alloc s).0 ≡ o
    → Opens e path s (open_handle e path open_readwrite o (e.mem_alloc s).1)
unfolding open_handle
cyboudb_open-Opens e path s none m = no_memory m
cyboudb_open-Opens e path s (some handle) m = opened_as-Opens e path s handle _ m refl

made-Makes :
    (e : Engine) (path : List ℕ) (pages : ℕ) (o : Option CreateOptions) (s : e.State)
    (leases : Bool)
    → Wants o leases
    → Makes e path pages o s (made e path (creator e leases path pages s))
unfolding made cyboudb_open
made-Makes e path pages o s leases w = elim (Bool-cases ((creator e leases path pages s).0 == 0)) [
  | inl z ↦ rw z (
      made_and leases _ w (==→eq (creator e leases path pages s).0 0 z)
        (cyboudb_open-Opens e path (creator e leases path pages s).1 _ refl))
  | inr z ↦ rw z (not_made leases w (==→ne (creator e leases path pages s).0 0 z))
]

cyboudb_create_with_options-Makes :
    (e : Engine) (path : List ℕ) (pages : ℕ) (o : Option CreateOptions) (out : ℕ) (s : e.State)
    → Makes e path pages o s (cyboudb_create_with_options e (some path) pages o (some out) s)
unfolding cyboudb_create_with_options asked make
cyboudb_create_with_options-Makes e path pages none out s =
    made-Makes e path pages none s false default
cyboudb_create_with_options-Makes e path pages (some o) out s =
    elim (Bool-cases (ltb o.struct_size 8)) [
      | inl z ↦ rw z (refused (short o (ltb→lt o.struct_size 8 z)))
      | inr z ↦ elim (Bool-cases (o.flags / 2 == 0)) [
        | inl f ↦ elim (Bool-cases (o.flags % 2 == create_queue_leases)) [
          | inl g ↦
              let w = leased o (ltb→le o.struct_size 8 z) (
                omega
                  (arith, ==→eq (o.flags / 2) 0 f, ==→eq (o.flags % 2) create_queue_leases g)) in
              rw (z, f, g) (made-Makes e path pages (some o) s true w)
          | inr g ↦
              let w = plain o (ltb→le o.struct_size 8 z) (
                omega
                  (arith, ==→eq (o.flags / 2) 0 f, ==→ne (o.flags % 2) create_queue_leases g)) in
              rw (z, f, g) (made-Makes e path pages (some o) s false w)
        ]
        | inr f ↦ rw (z, f) (refused (unknown o (omega (arith, ==→ne (o.flags / 2) 0 f))))
      ]
    ]

-- For a path and an out_db that are not NULL, cyboudb_create_with_options answers MISUSE exactly where the
-- structure is shorter than 8 bytes or has a flag other than the leases, and then makes nothing; otherwise it
-- makes a file with leases where the flag asks for them and without where it does not or the options are
-- NULL, answers ERROR if that fails, and else answers what opening the file for reading and writing answers:
-- NOMEM without memory, BUSY for a file that another writer has or else ERROR with the memory given
-- back, and OK with the handle. In every case but the last the handle is NULL. cyboudb_create answers what NULL
-- options do. Where the path is NULL both answer MISUSE and leave *out_db as it was.
pub create-Makes :
    (e : Engine) (path : List ℕ) (pages : ℕ) (o : Option CreateOptions) (out : ℕ) (s : e.State)
    → Makes e path pages o s (cyboudb_create_with_options e (some path) pages o (some out) s)
      × Makes e path pages none s (cyboudb_create e (some path) pages (some out) s)
      × (cyboudb_create_with_options e none pages o (some out) s ≡ (misuse_code, some out, s))
      × (cyboudb_create e none pages (some out) s ≡ (misuse_code, some out, s))
unfolding cyboudb_create cyboudb_create_with_options
create-Makes e path pages o out s = (
  cyboudb_create_with_options-Makes e path pages o out s,
  cyboudb_create_with_options-Makes e path pages none out s,
  refl,
  refl,
)
