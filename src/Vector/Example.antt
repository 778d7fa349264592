-- ===== src/Vector/Example.antt =====
-- The run of examples/vector_search.c up to the search.
use cybou_db.Prelude.{
  ℕ, zero, suc, ◌+◌, ◌*◌, ◌^◌, ◌≤◌, ◌<◌, ◌≡◌, inl, inr, refl, sym, ap, ap₂, ◌∙◌, ◌⊎◌, List, [], ◌∷◌,
  ◌++◌, some, true, if◌then◌else◌, ◌==◌, arith, eq→==, subst,
}
use cybou_db.Vector.Arena.{
  Arena, Mem, Normalizer, Appended, vector_ok, new_arena, one_more, append_normalized,
}
use cybou_db.Vector.Floats.{floats_at, floats_at-same, vectors}
use cybou_db.Vector.Valid.{IsArena, IsCall, arena_init-IsArena}
use cybou_db.Vector.Append.{
  stored, refused, Writes, append_normalized-outside, next_slot, append_normalized-Outcome,
}
use cybou_db.Vector.Search.{
  Searcher, Frame, input_row, topk_init, append_rows, verdict, search_arena, main,
}

-- The arrays of `main` have addresses, and end below 2 ^ 64.
pub record IsFrame (f : Frame) : Type 0 where
  pub input_given : 1 ≤ f.input
  pub input_ends : f.input + 72 < 2 ^ 64
  pub storage_given : 1 ≤ f.storage
  pub storage_ends : f.storage + 72 < 2 ^ 64
  pub id_given : 1 ≤ f.id
  pub id_ends : f.id + 8 < 2 ^ 64
  pub apart : (f.input + 72 ≤ f.storage) ⊎ (f.storage + 72 ≤ f.input)

-- So many rows of `input`, each as `unit` makes it.
unfoldable pub units : (List ℕ → List ℕ) → ℕ → List (List ℕ)
units unit zero = []
units unit (suc n) = units unit n ++ (unit (input_row n) ∷ [])

-- The six rows stand at `input`.
abbrev pub HasRows : Frame → Mem → Type 0
HasRows f m = (i : ℕ) → i < 6 → floats_at 3 (f.input + i * 12) m ≡ input_row i

-- An arena over `storage` with so many of the six rows.
pub record Holds (f : Frame) (unit : List ℕ → List ℕ) (n : ℕ) (a : Arena) (m : Mem) : Type 0 where
  pub valid : IsArena a
  pub at_storage : a.base ≡ f.storage
  pub whole : a.capacity ≡ 72
  pub three : a.dimensions ≡ 3
  pub counted : a.count ≡ n
  pub listed : vectors a m ≡ units unit n
  pub rows : HasRows f m

module _ (normalize : Normalizer) (topk_cosine : Searcher) (f : Frame) (w : IsFrame f)
    (writes : Writes normalize) (unit : List ℕ → List ℕ) where
  -- The normalizer accepts the six rows of `input` where they stand, for the place that each has in
  -- `storage`, and writes `unit` of the row there.
  abbrev pub Accepts : Type 0
  Accepts =
      (i : ℕ) (m : Mem)
      → i < 6
      → floats_at 3 (f.input + i * 12) m ≡ input_row i
      → ((normalize (f.input + i * 12) (f.storage + i * 12) 3 m).0 ≡ vector_ok)
        × (floats_at 3 (f.storage + i * 12)
              (normalize (f.input + i * 12) (f.storage + i * 12) 3 m).1
            ≡ unit (input_row i))

  module _ (accepts : Accepts) where
    twelve :
        (n : ℕ) (a : Arena) (m : Mem) → Holds f unit n a m → (a.stride ≡ 12) × (a.used ≡ n * 12)
    twelve n a m h =
        let e : a.stride ≡ 12 = omega (arith, h.valid.strides, h.three) in
        (e, h.valid.filled ∙ ap (λ (x : ℕ). x * a.stride) h.counted ∙ ap (λ (x : ℕ). n * x) e)

    next_slot-Holds :
        (n : ℕ) (a : Arena) (m : Mem) → Holds f unit n a m → next_slot a ≡ f.storage + n * 12
    next_slot-Holds n a m h = ap₂ (λ (x y : ℕ). x + y) h.at_storage (twelve n a m h).1

    abbrev Row : ℕ → Arena → Mem → Appended → Type 0
    Row i a m r =
        (r.0 ≡ vector_ok)
        × (r.1 ≡ some (one_more a))
        × (r.3 ≡ some i)
        × Holds f unit (suc i) (one_more a) r.2

    -- An append leaves the rows.
    kept_rows :
        (i : ℕ) (a : Arena) (m : Mem)
        → i < 6
        → Holds f unit i a m
        → HasRows f (append_normalized normalize (some a) (f.input + i * 12) f.id m).2
    kept_rows i a m lt h j lj =
        let e = next_slot-Holds i a m h in
        let three = h.three in
        floats_at-same 3 (f.input + j * 12) _ m (λ x p q.
          append_normalized-outside normalize a (f.input + i * 12) f.id x m writes
            (ground (arith, w.apart, e, three)))
        ∙ h.rows j lj

    -- What the normalizer does at the next place.
    accepted :
        (i : ℕ) (a : Arena) (m : Mem)
        → i < 6
        → Holds f unit i a m
        → let r = normalize (f.input + i * 12) (next_slot a) a.dimensions m in
          (r.0 ≡ vector_ok) × (floats_at a.dimensions (next_slot a) r.1 ≡ unit (input_row i))
    accepted i a m lt h =
        subst
          (λ (x : ℕ).
            let r = normalize (f.input + i * 12) x a.dimensions m in
            (r.0 ≡ vector_ok) × (floats_at a.dimensions x r.1 ≡ unit (input_row i)))
          (sym (next_slot-Holds i a m h))
          (subst
            (λ (d : ℕ).
              let r = normalize (f.input + i * 12) (f.storage + i * 12) d m in
              (r.0 ≡ vector_ok) × (floats_at d (f.storage + i * 12) r.1 ≡ unit (input_row i)))
            (sym h.three) (accepts i m lt (h.rows i lt)))

    one_row :
        (i : ℕ) (a : Arena) (m : Mem)
        → i < 6
        → Holds f unit i a m
        → Row i a m (append_normalized normalize (some a) (f.input + i * 12) f.id m)
    unfolding units
    one_row i a m lt h =
        let (e, u) = twelve i a m h in
        let ok = accepted i a m lt h in
        let call : IsCall a (f.input + i * 12) f.id = record {
          input_given = omega (arith, w.input_given);
          out_given = w.id_given;
          input_ends = omega (arith, w.input_ends, h.three, lt);
          out_ends = w.id_ends;
        } in
        elim (append_normalized-Outcome normalize a (f.input + i * 12) f.id m writes h.valid) [
          | stored r x y z v l ↦ (
            x,
            y,
            z ∙ ap some h.counted,
            record {
              valid = v;
              at_storage = h.at_storage;
              whole = h.whole;
              three = h.three;
              counted = ap suc h.counted;
              listed = l ∙ ap₂ (λ (l : List (List ℕ)) (x : List ℕ). l ++ (x ∷ [])) h.listed ok.1;
              rows = kept_rows i a m lt h;
            },
          )
          | refused n x y z v ↦ absurd (n (call, omega (arith, e, u, h.whole, lt), ok.0))
        ]

    append_rows-Holds :
        (left i old : ℕ) (a : Arena) (m : Mem)
        → i + left ≡ 6
        → Holds f unit i a m
        → (a' : Arena) × (m' : Mem) × (append_rows normalize topk_cosine f left i old (some a) m
            ≡ (true, some a', m'))
          × Holds f unit 6 a' m'
    unfolding append_rows
    append_rows-Holds zero i old a m e h =
        (a, m, refl, subst (λ (n : ℕ). Holds f unit n a m) (omega (arith, e)) h)
    append_rows-Holds (suc left) i old a m e h =
        let (x, y, z, t) = one_row i a m (omega (arith, e)) h in
        let (a', m', g, t') =
          append_rows-Holds left (suc i) i (one_more a) _ (omega (arith, e)) t in
        (a', m', rw (x, y, z, eq→== i i refl) g, t')

    -- The search over six vectors of three floats, and the exit status that follows.
    abbrev pub Searched : ℕ → Mem → Type 0
    Searched old m =
        (a : Arena) × (m' : Mem) × Holds f unit 6 a m'
        × (main normalize topk_cosine f old m ≡ (
            if (normalize f.raw_query f.query 3 m').0 == vector_ok
            then verdict normalize topk_cosine f (
                topk_cosine
                  (record topk_init.1 {
                    query = f.query;
                    vectors = f.storage;
                    count = 6;
                    dimensions = 3;
                    k = 3;
                    stride = 12;
                    out_ids = f.ids;
                    out_scores = f.scores;
                    candidates = f.candidates;
                  })
                  (normalize f.raw_query f.query 3 m').1)
            else 1))

    -- Where the arrays have addresses, `input` and `storage` do not meet, the six rows stand at `input`, and
    -- the normalizer writes at its output only and makes `unit` of each row at its place in `storage`, `main`
    -- fills the arena with `unit` of the six rows in their order and runs the search over all six; its status is then the
    -- verdict on what the search answers, or 1 where the normalizer refuses the query. The search gets
    -- three dimensions, a stride of twelve bytes and k = 3.
    pub main-verdict : (old : ℕ) (m : Mem) → HasRows f m → Searched old m
    unfolding main search_arena topk_init units
    main-verdict old m rows = elim (arena_init-IsArena f.arena f.storage 72 3) [
      | inl (e, s, v, l) ↦
          let (a, m', g, t) = append_rows-Holds 6 0 old (new_arena f.storage 72 3) m refl (record {
            valid = v;
            at_storage = refl;
            whole = refl;
            three = refl;
            counted = refl;
            listed = l m;
            rows = rows;
          }) in
          (a, m', t, rw (e, g, t.counted, t.three, (twelve 6 a m' t).0) refl)
      | inr (e, n) ↦ absurd (
          n (record {
            has_base = w.storage_given;
            has_dimensions = omega arith;
            few = omega arith;
            one_fits = omega arith;
            ends = w.storage_ends;
          }))
    ]
