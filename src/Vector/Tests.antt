-- ===== src/Vector/Tests.antt =====
-- The arena on two floats a vector, and the search example with a normalizer that copies.
use cybou_db.Prelude.{
  ℕ, zero, suc, ◌∙◌, List, if◌then◌else◌, ◌==◌, ◌||◌, ◌+◌, ◌*◌, ◌≤◌, ◌<◌, ◌≡◌, ◌⊎◌, inl, refl, sym,
  some, true, [], arith,
}
use cybou_db.Vector.Arena.{
  Arena, Mem, Normalizer, vector_ok, vector_invalid, new_arena, arena_init, all_finite, arena_get,
  append_raw, append_normalized, copy_floats,
}
use cybou_db.Vector.Floats.{floats_at, floats_at-copy_floats, copy_floats-outside, vectors}
use cybou_db.Vector.Valid.{IsArena, IsCall, IsSpace, arena_init-IsArena, arena_get-IsArena}
use cybou_db.Vector.Append.{
  Outcome, Fits, next_slot, Writes, append_raw-Outcome, append_normalized-Outcome,
}
use cybou_db.Vector.Search.{Searcher, Frame, input_row}
use cybou_db.Vector.Example.{IsFrame, HasRows, Accepts, Searched, main-verdict}

-- Room for three vectors of two floats.
abbrev fresh : Arena
fresh = new_arena 64 24 2

zeros : Mem
zeros x = 0

fresh-IsArena : IsArena fresh
fresh-IsArena = record {
  sized = refl;
  versioned = refl;
  some_dimensions = omega arith;
  few_dimensions = omega arith;
  strides = refl;
  based = omega arith;
  reach = omega arith;
  filled = refl;
  fits = omega arith;
}

arena_init-IsArena_example :
    ((arena_init (some fresh) 64 24 2 ≡ (vector_ok, some fresh))
      × IsSpace 64 24 2
      × IsArena fresh
      × ((m : Mem) → vectors fresh m ≡ []))
    ⊎ ((arena_init (some fresh) 64 24 2 ≡ (vector_invalid, some fresh)) × ¬ IsSpace 64 24 2)
arena_init-IsArena_example = arena_init-IsArena fresh 64 24 2

arena_get-IsArena_example :
    ((0 < 0) × (arena_get (some fresh) 0 ≡ 64 + 0 * 8) × (1 ≤ arena_get (some fresh) 0))
    ⊎ ((0 ≤ 0) × (arena_get (some fresh) 0 ≡ 0))
arena_get-IsArena_example = arena_get-IsArena fresh 0 fresh-IsArena

append_raw-Outcome_example :
    Outcome
      (IsCall fresh 16 8 × Fits fresh × (all_finite 2 16 zeros ≡ true))
      fresh
      zeros
      (floats_at 2 16 zeros)
      (append_raw (some fresh) 16 8 zeros)
append_raw-Outcome_example = append_raw-Outcome fresh 16 8 zeros fresh-IsArena (inl (omega arith))

copies : Normalizer
copies input output dimensions m = (vector_ok, copy_floats dimensions input output m)

copies-Writes : Writes copies
unfolding copies
copies-Writes input output dimensions x m h =
    sym (copy_floats-outside dimensions input output x m h)

append_normalized-Outcome_example :
    Outcome
      (IsCall fresh 16 8 × Fits fresh × ((copies 16 (next_slot fresh) 2 zeros).0 ≡ vector_ok))
      fresh
      zeros
      (floats_at 2 (next_slot fresh) (copies 16 (next_slot fresh) 2 zeros).1)
      (append_normalized copies (some fresh) 16 8 zeros)
append_normalized-Outcome_example =
    append_normalized-Outcome copies fresh 16 8 zeros copies-Writes fresh-IsArena

-- A search that answers what the example expects.
finds : Searcher
finds s m = (vector_ok, record s { out_count = 3; evaluated_count = 5 }, λ i. i * 2)

abbrev frame : Frame
frame = record {
  input = 100;
  storage = 200;
  raw_query = 300;
  query = 320;
  id = 340;
  ids = 360;
  scores = 400;
  candidates = 420;
  arena = fresh;
}

frame-IsFrame : IsFrame frame
frame-IsFrame = record {
  input_given = omega arith;
  input_ends = omega arith;
  storage_given = omega arith;
  storage_ends = omega arith;
  id_given = omega arith;
  id_ends = omega arith;
  apart = inl (omega arith);
}

abbrev same_floats : List ℕ → List ℕ
same_floats l = l

copies-Accepts : Accepts copies finds frame frame-IsFrame copies-Writes same_floats
unfolding copies
copies-Accepts i m lt e =
    (refl, floats_at-copy_floats 3 (100 + i * 12) (200 + i * 12) m (inl (omega (arith, lt))) ∙ e)

-- The floats of `input`, and zeros.
abbrev loaded : Mem
loaded x =
    if (x == 100)
      || (x == 116)
      || (x == 124)
      || (x == 128)
      || (x == 148)
      || (x == 156)
      || (x == 168)
    then 1065353216
    else if x == 136
    then 3212836864
    else 0

loaded-HasRows : HasRows frame loaded
unfolding floats_at input_row
loaded-HasRows zero lt = refl
loaded-HasRows (suc zero) lt = refl
loaded-HasRows (suc (suc zero)) lt = refl
loaded-HasRows (suc (suc (suc zero))) lt = refl
loaded-HasRows (suc (suc (suc (suc zero)))) lt = refl
loaded-HasRows (suc (suc (suc (suc (suc zero))))) lt = refl
loaded-HasRows (suc (suc (suc (suc (suc (suc n)))))) lt = absurd (omega (arith, lt))

main-verdict_example :
    Searched copies finds frame frame-IsFrame copies-Writes same_floats copies-Accepts 0 loaded
main-verdict_example =
    main-verdict copies finds frame frame-IsFrame copies-Writes same_floats copies-Accepts 0 loaded
      loaded-HasRows
