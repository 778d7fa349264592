-- ===== src/Vector/Arena.antt =====
-- The vector arena of src/core/vector_arena.asm, which include/cyboudb.h declares. Memory is a function
-- from an address to the 32-bit float that begins there; an address is a number below 2 ^ 64, and
-- every address that is read or written begins a float. The identifier that an append writes stands
-- outside the floats.
use cybou_db.Prelude.{
  ℕ, zero, suc, ◌+◌, ◌-◌, ◌*◌, ◌^◌, Option, none, some, Bool, true, not, ◌&&◌, ◌||◌, if◌then◌else◌,
  ◌==◌, leb, ltb, update, bit_and,
}

pub record Arena : Type 0 where
  pub struct_size : ℕ
  pub abi_version : ℕ
  pub base : ℕ
  pub capacity : ℕ
  pub used : ℕ
  pub dimensions : ℕ
  pub stride : ℕ
  pub count : ℕ

abbrev pub Mem : Type 0
Mem = ℕ → ℕ

abbrev pub vector_ok : ℕ
vector_ok = 0

abbrev pub vector_invalid : ℕ
vector_invalid = 2 ^ 32 - 1

abbrev pub vector_nonfinite : ℕ
vector_nonfinite = 2 ^ 32 - 2

abbrev pub vector_full : ℕ
vector_full = 2 ^ 32 - 3

-- sizeof(cyboudb_vector_arena)
abbrev pub arena_size : ℕ
arena_size = 56

abbrev pub vector_abi_version : ℕ
vector_abi_version = 2

abbrev pub max_dimensions : ℕ
max_dimensions = 4611686018427387903

-- No carry out of 64 bits.
abbrev pub in_word : ℕ → Bool
in_word n = ltb n (2 ^ 64)

-- The tests of `vector_arena_init` on what its arguments say of the memory.
unfoldable pub space_refused : ℕ → ℕ → ℕ → Bool
space_refused base capacity dimensions =
    (base == 0)
    || ((dimensions == 0)
        || (ltb max_dimensions dimensions
            || (ltb capacity (dimensions * 4) || not (in_word (base + capacity)))))

-- The fields that `vector_arena_init` stores.
abbrev pub new_arena : ℕ → ℕ → ℕ → Arena
new_arena base capacity dimensions = record {
  struct_size = arena_size;
  abi_version = vector_abi_version;
  base = base;
  capacity = capacity;
  used = 0;
  dimensions = dimensions;
  stride = dimensions * 4;
  count = 0;
}

-- `cyboudb_vector_arena_init`; the second part is what stands at the arena's pointer afterwards, which
-- is `none` where that pointer is NULL.
unfoldable pub arena_init : Option Arena → ℕ → ℕ → ℕ → ℕ × Option Arena
arena_init none base capacity dimensions = (vector_invalid, none)
arena_init (some a) base capacity dimensions =
    if space_refused base capacity dimensions
    then (vector_invalid, some a)
    else (vector_ok, some (new_arena base capacity dimensions))

-- VARENA_VALIDATE_APPEND, for an arena that is not NULL.
unfoldable pub validate_append : Arena → ℕ → ℕ → Bool
validate_append a input out =
    (a.struct_size == arena_size)
    && ((a.abi_version == vector_abi_version)
        && (not (input == 0)
            && (not (out == 0)
                && (in_word (out + 8)
                    && (not (a.dimensions == 0)
                        && (leb a.dimensions max_dimensions
                            && ((a.dimensions * 4 == a.stride)
                                && (not (a.base == 0)
                                    && (in_word (a.base + a.capacity)
                                        && (in_word (input + a.dimensions * 4)
                                            && (in_word (a.count * a.stride)
                                                && ((a.count * a.stride == a.used)
                                                    && leb a.used a.capacity))))))))))))

-- The exponent is all ones: an infinity or a NaN.
abbrev exponent_mask : ℕ
exponent_mask = 2139095040

abbrev pub is_finite : ℕ → Bool
is_finite w = not (bit_and w exponent_mask == exponent_mask)

-- `.raw_check_loop`, over the floats that are left.
unfoldable pub all_finite : ℕ → ℕ → Mem → Bool
all_finite zero address m = true
all_finite (suc n) address m = is_finite (m address) && all_finite n (address + 4) m

-- `.raw_copy_loop`, over the floats that are left.
unfoldable pub copy_floats : ℕ → ℕ → ℕ → Mem → Mem
copy_floats zero from to m = m
copy_floats (suc n) from to m = copy_floats n (from + 4) (to + 4) (update m to (m from))

-- What an append leaves: the status, the arena, the memory, and what has been written to `out_id`.
abbrev pub Appended : Type 0
Appended = ℕ × Option Arena × Mem × Option ℕ

abbrev pub one_more : Arena → Arena
one_more a = record a { count = suc a.count; used = a.used + a.stride }

abbrev pub has_room : Arena → Bool
has_room a = in_word (a.used + a.stride) && leb (a.used + a.stride) a.capacity

-- `cyboudb_vector_arena_append_raw`
unfoldable pub append_raw : Option Arena → ℕ → ℕ → Mem → Appended
append_raw none input out m = (vector_invalid, none, m, none)
append_raw (some a) input out m =
    if validate_append a input out
    then (if has_room a
        then (if all_finite a.dimensions input m
            then (
              vector_ok,
              some (one_more a),
              copy_floats a.dimensions input (a.base + a.used) m,
              some a.count,
            )
            else (vector_nonfinite, some a, m, none))
        else (vector_full, some a, m, none))
    else (vector_invalid, some a, m, none)

-- A normalizer reads the floats at one address, writes those at another, and answers a status.
abbrev pub Normalizer : Type 0
Normalizer = ℕ → ℕ → ℕ → Mem → ℕ × Mem

-- `cyboudb_vector_arena_append_normalized`
unfoldable pub append_normalized : Normalizer → Option Arena → ℕ → ℕ → Mem → Appended
append_normalized normalize none input out m = (vector_invalid, none, m, none)
append_normalized normalize (some a) input out m =
    let r = normalize input (a.base + a.used) a.dimensions m in
    if validate_append a input out
    then (if has_room a
        then (if r.0 == 0
            then (vector_ok, some (one_more a), r.1, some a.count)
            else (r.0, some a, r.1, none))
        else (vector_full, some a, m, none))
    else (vector_invalid, some a, m, none)

-- The tests of `vector_arena_get` that do not depend on the identifier.
unfoldable pub validate_get : Arena → Bool
validate_get a =
    (a.struct_size == arena_size)
    && ((a.abi_version == vector_abi_version)
        && (in_word (a.count * a.stride)
            && ((a.count * a.stride == a.used)
                && (leb a.used a.capacity
                    && (not (a.base == 0) && in_word (a.base + a.capacity))))))

-- `cyboudb_vector_arena_get`: an address, or zero.
unfoldable pub arena_get : Option Arena → ℕ → ℕ
arena_get none id = 0
arena_get (some a) id =
    if validate_get a
      && (ltb id a.count
          && (in_word (id * a.stride)
              && (in_word (id * a.stride + a.stride)
                  && (leb (id * a.stride + a.stride) a.capacity
                      && in_word (id * a.stride + a.base)))))
    then id * a.stride + a.base
    else 0
