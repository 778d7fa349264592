-- ===== src/Vector/Valid.antt =====
-- A valid arena: `cyboudb_vector_arena_init` makes one, and its vectors are a list.
use cybou_db.Prelude.{
  ℕ, suc, ◌+◌, ◌*◌, ◌^◌, ◌≤◌, ◌<◌, ◌≡◌, ◌⊎◌, inl, inr, refl, sym, some, Bool, true, false, not,
  ◌&&◌, ◌==◌, ltb, [], arith, Bool-cases, ltb→lt, ltb→le, lt→ltb, le→leb, eq→==, ne→==,
}
use native.Mathlib.Nat.{mul-le-mul_right, suc-mul}
use cybou_db.Vector.Arena.{
  Arena, Mem, vector_ok, vector_invalid, arena_size, vector_abi_version, max_dimensions, in_word,
  new_arena, space_refused, arena_init, validate_append, validate_get, arena_get,
}
use cybou_db.Vector.Floats.{first_vectors, vectors}

pub record IsArena (a : Arena) : Type 0 where
  pub sized : a.struct_size ≡ arena_size
  pub versioned : a.abi_version ≡ vector_abi_version
  pub some_dimensions : 1 ≤ a.dimensions
  pub few_dimensions : a.dimensions ≤ max_dimensions
  pub strides : a.stride ≡ a.dimensions * 4
  pub based : 1 ≤ a.base
  pub reach : a.base + a.capacity < 2 ^ 64
  pub filled : a.used ≡ a.count * a.stride
  pub fits : a.used ≤ a.capacity

-- The two pointers of an append are not NULL, and what they point to ends below 2 ^ 64.
pub record IsCall (a : Arena) (input out : ℕ) : Type 0 where
  pub input_given : 1 ≤ input
  pub out_given : 1 ≤ out
  pub input_ends : input + a.dimensions * 4 < 2 ^ 64
  pub out_ends : out + 8 < 2 ^ 64

-- What `init` asks of its arguments.
pub record IsSpace (base capacity dimensions : ℕ) : Type 0 where
  pub has_base : 1 ≤ base
  pub has_dimensions : 1 ≤ dimensions
  pub few : dimensions ≤ max_dimensions
  pub one_fits : dimensions * 4 ≤ capacity
  pub ends : base + capacity < 2 ^ 64

space_refused-IsSpace :
    (base capacity dimensions : ℕ)
    → space_refused base capacity dimensions ≡ false
    → IsSpace base capacity dimensions
unfolding space_refused
space_refused-IsSpace base capacity dimensions h = record {
  has_base = ground arith;
  has_dimensions = ground arith;
  few = ground arith;
  one_fits = ground arith;
  ends = ground arith;
}

IsSpace-space_refused :
    (base capacity dimensions : ℕ)
    → IsSpace base capacity dimensions
    → space_refused base capacity dimensions ≡ false
unfolding space_refused
IsSpace-space_refused base capacity dimensions s =
    let a = s.has_base in
    let b = s.has_dimensions in
    let c = s.few in let d = s.one_fits in let e = s.ends in ground arith

-- Where the arguments are in order, `init` answers OK and leaves a valid arena with no vector;
-- otherwise it answers INVALID and leaves the arena as it was.
pub arena_init-IsArena :
    (a : Arena) (base capacity dimensions : ℕ)
    → ((arena_init (some a) base capacity dimensions
          ≡ (vector_ok, some (new_arena base capacity dimensions)))
        × IsSpace base capacity dimensions
        × IsArena (new_arena base capacity dimensions)
        × ((m : Mem) → vectors (new_arena base capacity dimensions) m ≡ []))
      ⊎ ((arena_init (some a) base capacity dimensions ≡ (vector_invalid, some a))
          × ¬ IsSpace base capacity dimensions)
unfolding arena_init first_vectors
arena_init-IsArena a base capacity dimensions =
    elim (Bool-cases (space_refused base capacity dimensions)) [
      | inl h ↦ rw h (inr (refl, λ s. cc (h, IsSpace-space_refused base capacity dimensions s)))
      | inr h ↦
          let s = space_refused-IsSpace base capacity dimensions h in
          rw h (
            inl (
              refl,
              s,
              record {
                sized = refl;
                versioned = refl;
                some_dimensions = s.has_dimensions;
                few_dimensions = s.few;
                strides = refl;
                based = s.has_base;
                reach = s.ends;
                filled = omega arith;
                fits = omega arith;
              },
              λ m. refl,
            ))
    ]

both : {a b : Bool} → a ≡ true → b ≡ true → (a && b) ≡ true
both e f = rw (e, f) refl

not_zero : (n : ℕ) → 1 ≤ n → not (n == 0) ≡ true
not_zero n h = rw (ne→== n 0 (λ e. omega (arith, e))) refl

in_word_lem : (n : ℕ) → n < 2 ^ 64 → in_word n ≡ true
in_word_lem n h = lt→ltb n (2 ^ 64) h

pub validate_append-IsArena :
    (a : Arena) (input out : ℕ)
    → IsArena a
    → IsCall a input out
    → validate_append a input out ≡ true
unfolding validate_append
validate_append-IsArena a input out v c = both (eq→== _ _ v.sized) (
    both (eq→== _ _ v.versioned) (
      both (not_zero input c.input_given) (
        both (not_zero out c.out_given) (
          both (in_word_lem _ c.out_ends) (
            both (not_zero a.dimensions v.some_dimensions) (
              both (le→leb _ _ v.few_dimensions) (
                both (eq→== _ _ (sym v.strides)) (
                  both (not_zero a.base v.based) (
                    both (in_word_lem _ v.reach) (
                      both (in_word_lem _ c.input_ends) (
                        both (in_word_lem _ (omega arith))
                          (both (eq→== _ _ (sym v.filled)) (le→leb _ _ v.fits)))))))))))))

-- An append that passes the checks of its arguments is a call with its two pointers in order.
pub validate_append-IsCall :
    (a : Arena) (input out : ℕ) → validate_append a input out ≡ true → IsCall a input out
unfolding validate_append
validate_append-IsCall a input out h = record {
  input_given = ground arith;
  out_given = ground arith;
  input_ends = ground arith;
  out_ends = ground arith;
}

pub validate_get-IsArena : (a : Arena) → IsArena a → validate_get a ≡ true
unfolding validate_get
validate_get-IsArena a v = both (eq→== _ _ v.sized) (
    both (eq→== _ _ v.versioned) (
      both (in_word_lem _ (omega arith)) (
        both (eq→== _ _ (sym v.filled))
          (both (le→leb _ _ v.fits) (both (not_zero a.base v.based) (in_word_lem _ v.reach))))))

-- The vector before the last one ends where it begins.
slot_ends : (id count stride : ℕ) → id < count → id * stride + stride ≤ count * stride
slot_ends id count stride h =
    omega (arith, mul-le-mul_right {m = suc id} {n = count} stride h, suc-mul id stride)

-- Over a valid arena `get` gives the address of each vector, which is not NULL, and NULL for every
-- other identifier.
pub arena_get-IsArena :
    (a : Arena) (id : ℕ)
    → IsArena a
    → ((id < a.count)
        × (arena_get (some a) id ≡ a.base + id * a.stride)
        × (1 ≤ arena_get (some a) id))
      ⊎ ((a.count ≤ id) × (arena_get (some a) id ≡ 0))
unfolding arena_get
arena_get-IsArena a id v = elim (Bool-cases (ltb id a.count)) [
  | inl h ↦
      let e = slot_ends id a.count a.stride (ltb→lt id a.count h) in
      let found = both (validate_get-IsArena a v) (
        both h (
          both (in_word_lem (id * a.stride) (omega arith)) (
            both (in_word_lem (id * a.stride + a.stride) (omega arith)) (
              both (le→leb (id * a.stride + a.stride) a.capacity (omega arith))
                (in_word_lem (id * a.stride + a.base) (omega arith)))))) in
      inl (ltb→lt id a.count h, rw found (omega arith), rw found (omega arith))
  | inr h ↦ inr (ltb→le id a.count h, rw (validate_get-IsArena a v, h) refl)
]
