-- ===== src/Vector/Search.antt =====
-- `main` of examples/vector_search.c, over a normalizer and a search that are parameters. The arrays of
-- the function have addresses; the identifiers that the search writes are a function of their place.
use cybou_db.Prelude.{
  ℕ, zero, suc, ◌+◌, ◌*◌, Option, none, some, Bool, true, false, ◌&&◌, if◌then◌else◌, ◌==◌, List,
  [], ◌∷◌,
}
use cybou_db.Vector.Arena.{
  Arena, Mem, Normalizer, vector_ok, vector_abi_version, arena_init, append_normalized,
}

pub record TopK : Type 0 where
  pub struct_size : ℕ
  pub abi_version : ℕ
  pub query : ℕ
  pub vectors : ℕ
  pub count : ℕ
  pub dimensions : ℕ
  pub k : ℕ
  pub stride : ℕ
  pub out_ids : ℕ
  pub out_scores : ℕ
  pub out_count : ℕ
  pub candidates : ℕ
  pub evaluated_count : ℕ
  pub reverse : ℕ

abbrev pub topk_size : ℕ
topk_size = 104

-- `cyboudb_vector_topk_init`, at a pointer that is not NULL.
unfoldable pub topk_init : ℕ × TopK
topk_init = (
  vector_ok,
  record {
    struct_size = topk_size;
    abi_version = vector_abi_version;
    query = 0;
    vectors = 0;
    count = 0;
    dimensions = 0;
    k = 0;
    stride = 0;
    out_ids = 0;
    out_scores = 0;
    out_count = 0;
    candidates = 0;
    evaluated_count = 0;
    reverse = 0;
  },
)

-- `cyboudb_vector_topk_cosine_f32`: the status, the search afterwards, and what stands at `ids`.
abbrev pub Searcher : Type 0
Searcher = TopK → Mem → ℕ × TopK × (ℕ → ℕ)

-- Where the arrays and the variables of `main` stand, and what its uninitialised arena holds.
pub record Frame : Type 0 where
  pub input : ℕ
  pub storage : ℕ
  pub raw_query : ℕ
  pub query : ℕ
  pub id : ℕ
  pub ids : ℕ
  pub scores : ℕ
  pub candidates : ℕ
  pub arena : Arena

-- The floats of the rows of `input`: 0, 1 and -1 by their bits.
unfoldable pub input_row : ℕ → List ℕ
input_row zero = 1065353216 ∷ 0 ∷ 0 ∷ []
input_row (suc zero) = 0 ∷ 1065353216 ∷ 0 ∷ []
input_row (suc (suc zero)) = 1065353216 ∷ 1065353216 ∷ 0 ∷ []
input_row (suc (suc (suc zero))) = 3212836864 ∷ 0 ∷ 0 ∷ []
input_row (suc (suc (suc (suc zero)))) = 1065353216 ∷ 0 ∷ 1065353216 ∷ []
input_row _ = 0 ∷ 0 ∷ 1065353216 ∷ []

-- `*out_id` after an append: what it was, if nothing is written.
abbrev pub written : ℕ → Option ℕ → ℕ
written old none = old
written old (some id) = id

module _ (normalize : Normalizer) (topk_cosine : Searcher) (f : Frame) where
  -- The `for` over the six inputs, with the rows that are left and the row that is next: whether it ran
  -- to its end, the arena and the memory. `old` is what the uninitialised `id` holds.
  unfoldable pub append_rows : ℕ → ℕ → ℕ → Option Arena → Mem → Bool × Option Arena × Mem
  append_rows zero i old a m = (true, a, m)
  append_rows (suc left) i old a m =
      let r = append_normalized normalize a (f.input + i * 12) f.id m in
      let rest = append_rows left (suc i) (written old r.3) r.1 r.2 in
      if (r.0 == vector_ok) && (written old r.3 == i) then rest else (false, r.1, r.2)

  -- The fields that `main` sets before the search.
  abbrev pub descriptor : Arena → TopK → TopK
  descriptor a s = record s {
    query = f.query;
    vectors = f.storage;
    count = a.count;
    dimensions = a.dimensions;
    k = 3;
    stride = a.stride;
    out_ids = f.ids;
    out_scores = f.scores;
    candidates = f.candidates;
  }

  -- The exit status that the last line gives.
  abbrev pub verdict : ℕ × TopK × (ℕ → ℕ) → ℕ
  verdict (status, s, ids) =
      if status == vector_ok
      then (if (s.out_count == 3)
            && ((s.evaluated_count == 5) && ((ids 0 == 0) && ((ids 1 == 2) && (ids 2 == 4))))
          then 0
          else 1)
      else 1

  unfoldable pub search_arena : Option Arena → Mem → ℕ
  search_arena none m = 1
  search_arena (some a) m =
      let q = normalize f.raw_query f.query 3 m in
      let s = topk_init in
      if q.0 == vector_ok
      then (if s.0 == vector_ok then verdict (topk_cosine (descriptor a s.1) q.1) else 1)
      else 1

  unfoldable pub main : ℕ → Mem → ℕ
  main old m =
      let r = arena_init (some f.arena) f.storage 72 3 in
      let all = append_rows 6 0 old r.1 m in
      if r.0 == vector_ok then (if all.0 then search_arena all.1 all.2 else 1) else 1
