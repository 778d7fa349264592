-- ===== src/Entry/Tests.antt =====
-- Making a file on a machine whose state is the number of its files.
use cybou_db.Prelude.{ℕ, suc, ◌≡◌, none, some, if◌then◌else◌, ◌==◌, [], ◌∷◌}
use cybou_db.Api.Codes.{misuse_code}
use cybou_db.Leased.Calls.{CreateOptions, create_queue_leases}
use cybou_db.Entry.Create.{Engine, cyboudb_create_with_options, cyboudb_create}
use cybou_db.Entry.Made.{Makes, create-Makes}

abbrev counting : Engine
counting = record {
  State = ℕ;
  mem_alloc = λ s. (some 64, s);
  mem_free = λ handle s. s;
  zeroed = λ handle flags s. s;
  mark_open = λ handle s. s;
  db_open = λ path handle writable s. (if s == 0 then 5 else 0, s);
  db_create_default = λ path pages s. (0, suc s);
  db_create_leases = λ path pages s. (0, suc s);
}

abbrev with_leases : CreateOptions
with_leases = record { struct_size = 8; flags = create_queue_leases }

create-Makes_example :
    Makes counting
      (46 ∷ [])
      16
      (some with_leases)
      0
      (cyboudb_create_with_options counting (some (46 ∷ [])) 16 (some with_leases) (some 7) 0)
    × Makes counting (46 ∷ []) 16 none 0 (cyboudb_create counting (some (46 ∷ [])) 16 (some 7) 0)
    × (cyboudb_create_with_options counting none 16 (some with_leases) (some 7) 0
        ≡ (misuse_code, some 7, 0))
    × (cyboudb_create counting none 16 (some 7) 0 ≡ (misuse_code, some 7, 0))
create-Makes_example = create-Makes counting (46 ∷ []) 16 (some with_leases) 7 0
