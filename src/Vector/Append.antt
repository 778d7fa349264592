-- ===== src/Vector/Append.antt =====
-- Appending a vector: the list of the arena's vectors grows by it, or nothing changes.
use cybou_db.Prelude.{
  ℕ, zero, suc, ◌+◌, ◌*◌, ◌^◌, ◌≤◌, ◌<◌, ◌≡◌, ◌≢◌, ◌⊎◌, inl, inr, refl, sym, ap, ap₂, ◌∙◌, none,
  some, true, false, ◌==◌, List, [], ◌∷◌, ◌++◌, arith, Bool-cases, ==→eq, ==→ne, lt→ltb, le→leb,
}
use native.Mathlib.Nat.{suc-mul}
use cybou_db.Vector.Arena.{
  Arena, Mem, Appended, Normalizer, vector_ok, has_room, one_more, all_finite, validate_append,
  append_raw, append_normalized,
}
use cybou_db.Vector.Floats.{
  floats_at, first_vectors, vectors, Apart, floats_at-same, copy_floats-outside,
  floats_at-copy_floats,
}
use cybou_db.Vector.Valid.{IsArena, IsCall, validate_append-IsArena, validate_append-IsCall}

-- The place of the next vector.
abbrev pub next_slot : Arena → ℕ
next_slot a = a.base + a.used

-- What an append answers: the vector is stored where it is `Ready` to be, and only there.
pub data Outcome (Ready : Type 0) (a : Arena) (m : Mem) (vector : List ℕ) (r : Appended)
    : Type 0 where
  stored :
      Ready
      → r.0 ≡ vector_ok
      → r.1 ≡ some (one_more a)
      → r.3 ≡ some a.count
      → IsArena (one_more a)
      → vectors (one_more a) r.2 ≡ vectors a m ++ (vector ∷ [])
      → Outcome Ready a m vector r
  refused :
      ¬ Ready
      → r.0 ≢ vector_ok
      → r.1 ≡ some a
      → r.3 ≡ none
      → vectors a r.2 ≡ vectors a m
      → Outcome Ready a m vector r

-- One more vector ends within the capacity.
abbrev pub Fits : Arena → Type 0
Fits a = a.used + a.stride ≤ a.capacity

has_room-Fits : (a : Arena) → has_room a ≡ true → Fits a
has_room-Fits a h = ground arith

has_room-not_Fits : (a : Arena) → IsArena a → has_room a ≡ false → ¬ Fits a
has_room-not_Fits a v h f =
    let e : has_room a ≡ true =
      rw
        (lt→ltb (a.used + a.stride) (2 ^ 64) (omega arith), le→leb (a.used + a.stride) a.capacity f)
        refl in
    cc (e, h)

one_more-IsArena : (a : Arena) → IsArena a → a.used + a.stride ≤ a.capacity → IsArena (one_more a)
one_more-IsArena a v h = record {
  sized = v.sized;
  versioned = v.versioned;
  some_dimensions = v.some_dimensions;
  few_dimensions = v.few_dimensions;
  strides = v.strides;
  based = v.based;
  reach = v.reach;
  filled = omega (arith, suc-mul a.count a.stride);
  fits = h;
}

first_vectors-one_more :
    (n : ℕ) (a : Arena) (m : Mem) → first_vectors n (one_more a) m ≡ first_vectors n a m
unfolding first_vectors
first_vectors-one_more zero a m = refl
first_vectors-one_more (suc n) a m =
    ap (λ (l : List (List ℕ)). l ++ (floats_at a.dimensions (a.base + n * a.stride) m ∷ []))
      (first_vectors-one_more n a m)

-- A memory that differs in no vector of the arena.
abbrev pub SameBelow : Arena → Mem → Mem → Type 0
SameBelow a m m' = (x : ℕ) → x < next_slot a → m x ≡ m' x

first_vectors-same :
    (n : ℕ) (a : Arena) (m m' : Mem)
    → IsArena a
    → n * a.stride ≤ a.used
    → SameBelow a m m'
    → first_vectors n a m ≡ first_vectors n a m'
unfolding first_vectors
first_vectors-same zero a m m' v h same = refl
first_vectors-same (suc n) a m m' v h same =
    ap₂ (λ (l : List (List ℕ)) (x : List ℕ). l ++ (x ∷ []))
      (first_vectors-same n a m m' v (omega (arith, suc-mul n a.stride)) same)
      (floats_at-same a.dimensions (a.base + n * a.stride) m m'
        (λ x p q. same x (omega (arith, suc-mul n a.stride))))

-- The arena with one vector more, over a memory that differs in no earlier one.
vectors-one_more :
    (a : Arena) (m m' : Mem) (vector : List ℕ)
    → IsArena a
    → SameBelow a m m'
    → floats_at a.dimensions (next_slot a) m' ≡ vector
    → vectors (one_more a) m' ≡ vectors a m ++ (vector ∷ [])
unfolding first_vectors
vectors-one_more a m m' vector v same e =
    ap₂ (λ (l : List (List ℕ)) (x : List ℕ). l ++ (x ∷ []))
      (first_vectors-one_more a.count a m'
        ∙ sym (first_vectors-same a.count a m m' v (omega arith) same))
      (ap (λ (x : ℕ). floats_at a.dimensions (a.base + x) m') (sym v.filled) ∙ e)

-- Over a valid arena, `append_raw` answers OK, gives the number of vectors as the identifier and adds
-- the input's floats to the list, leaving a valid arena, where neither pointer is NULL and what they point to
-- ends below 2 ^ 64, one more vector fits and every float is finite; otherwise it answers another status and
-- changes neither the arena nor its vectors. The input must not meet the place of the next vector.
pub append_raw-Outcome :
    (a : Arena) (input out : ℕ) (m : Mem)
    → IsArena a
    → Apart a.dimensions input (next_slot a)
    → Outcome
        (IsCall a input out × Fits a × (all_finite a.dimensions input m ≡ true))
        a
        m
        (floats_at a.dimensions input m)
        (append_raw (some a) input out m)
unfolding append_raw
append_raw-Outcome a input out m v apart = elim (Bool-cases (validate_append a input out)) [
  | inl c ↦ elim (Bool-cases (has_room a)) [
    | inl h ↦ elim (Bool-cases (all_finite a.dimensions input m)) [
      | inl f ↦
          rw (c, h, f)
            (stored (validate_append-IsCall a input out c, has_room-Fits a h, refl) refl refl refl
              (one_more-IsArena a v (has_room-Fits a h))
              (vectors-one_more a m _ _ v
                (λ x p. sym (copy_floats-outside a.dimensions input (next_slot a) x m (inl p)))
                (floats_at-copy_floats a.dimensions input (next_slot a) m apart)))
      | inr f ↦ rw (c, h, f) (refused (λ r. cc r.2) (λ e. omega (arith, e)) refl refl refl)
    ]
    | inr h ↦
        rw (c, h)
          (refused (λ r. has_room-not_Fits a v h r.1) (λ e. omega (arith, e)) refl refl refl)
  ]
  | inr c ↦ rw c (
      refused (λ r. cc (c, validate_append-IsArena a input out v r.0)) (λ e. omega (arith, e)) refl
        refl refl)
]

-- A normalizer writes at its output only, and what it writes depends on the call.
abbrev pub Writes : Normalizer → Type 0
Writes normalize =
    (input output dimensions x : ℕ) (m : Mem)
    → (x < output) ⊎ (output + 4 * dimensions ≤ x)
    → m x ≡ (normalize input output dimensions m).1 x

-- What a normalizer that writes at its output only leaves outside the place of the next vector.
pub append_normalized-outside :
    (normalize : Normalizer) (a : Arena) (input out x : ℕ) (m : Mem)
    → Writes normalize
    → (x < next_slot a) ⊎ (next_slot a + 4 * a.dimensions ≤ x)
    → (append_normalized normalize (some a) input out m).2 x ≡ m x
unfolding append_normalized
append_normalized-outside normalize a input out x m w o =
    let e = sym (w input (next_slot a) a.dimensions x m o) in
    let r = normalize input (next_slot a) a.dimensions m in
    elim (Bool-cases (validate_append a input out)) [
      | inl c ↦ elim (Bool-cases (has_room a)) [
        | inl h ↦ elim (Bool-cases (r.0 == 0)) [ inl f ↦ rw (c, h, f) e | inr f ↦ rw (c, h, f) e ]
        | inr h ↦ rw (c, h) refl
      ]
      | inr c ↦ rw c refl
    ]

-- Over a valid arena and a normalizer that writes at its output only, `append_normalized` answers OK where
-- neither pointer is NULL and what they point to ends below 2 ^ 64, one more vector fits and the normalizer
-- answers OK, and then what the normalizer has written is the new vector; otherwise the arena and its
-- vectors stay.
pub append_normalized-Outcome :
    (normalize : Normalizer) (a : Arena) (input out : ℕ) (m : Mem)
    → Writes normalize
    → IsArena a
    → Outcome
        (IsCall a input out
          × Fits a
          × ((normalize input (next_slot a) a.dimensions m).0 ≡ vector_ok))
        a
        m
        (floats_at a.dimensions (next_slot a) (normalize input (next_slot a) a.dimensions m).1)
        (append_normalized normalize (some a) input out m)
unfolding append_normalized
append_normalized-Outcome normalize a input out m w v =
    elim (Bool-cases (validate_append a input out)) [
      | inl c ↦ elim (Bool-cases (has_room a)) [
        | inl h ↦
            let r = normalize input (next_slot a) a.dimensions m in
            let same : SameBelow a m r.1 = λ x p. w input (next_slot a) a.dimensions x m (inl p) in
            elim (Bool-cases (r.0 == 0)) [
              | inl f ↦
                  rw (c, h, f)
                    (stored (validate_append-IsCall a input out c, has_room-Fits a h, ==→eq r.0 0 f)
                      refl refl refl (one_more-IsArena a v (has_room-Fits a h))
                      (vectors-one_more a m _ _ v same refl))
              | inr f ↦
                  rw (c, h, f)
                    (refused (λ q. ==→ne r.0 0 f q.2) (==→ne r.0 0 f) refl refl
                      (sym (first_vectors-same a.count a m _ v (omega arith) same)))
            ]
        | inr h ↦
            rw (c, h)
              (refused (λ q. has_room-not_Fits a v h q.1) (λ e. omega (arith, e)) refl refl refl)
      ]
      | inr c ↦ rw c (
          refused (λ q. cc (c, validate_append-IsArena a input out v q.0)) (λ e. omega (arith, e))
            refl refl refl)
    ]
