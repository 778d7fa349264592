-- ===== src/Vector/Floats.antt =====
-- The vectors that an arena holds, as lists of floats, and what copying does to them.
use cybou_db.Prelude.{
  ℕ, zero, suc, ◌+◌, ◌*◌, ◌≤◌, ◌<◌, ◌≡◌, ◌⊎◌, inl, refl, ap₂, ◌∙◌, List, [], ◌∷◌, ◌++◌, update,
  update_self, update_ne, arith,
}
use cybou_db.Vector.Arena.{Arena, Mem, copy_floats}

-- So many floats from an address on.
unfoldable pub floats_at : ℕ → ℕ → Mem → List ℕ
floats_at zero address m = []
floats_at (suc n) address m = m address ∷ floats_at n (address + 4) m

-- The first so many vectors of the arena.
unfoldable pub first_vectors : ℕ → Arena → Mem → List (List ℕ)
first_vectors zero a m = []
first_vectors (suc n) a m =
    first_vectors n a m ++ (floats_at a.dimensions (a.base + n * a.stride) m ∷ [])

abbrev pub vectors : Arena → Mem → List (List ℕ)
vectors a m = first_vectors a.count a m

-- Two ranges of so many floats do not meet.
abbrev pub Apart : ℕ → ℕ → ℕ → Type 0
Apart n a b = (a + 4 * n ≤ b) ⊎ (b + 4 * n ≤ a)

pub copy_floats-outside :
    (n from to x : ℕ) (m : Mem) → (x < to) ⊎ (to + 4 * n ≤ x) → copy_floats n from to m x ≡ m x
unfolding copy_floats
copy_floats-outside zero from to x m h = refl
copy_floats-outside (suc n) from to x m h =
    copy_floats-outside n (from + 4) (to + 4) x (update m to (m from)) (ground arith)
    ∙ update_ne m to x (m from) (ground arith)

pub floats_at-same :
    (n address : ℕ) (m m' : Mem)
    → ((x : ℕ) → address ≤ x → x < address + 4 * n → m x ≡ m' x)
    → floats_at n address m ≡ floats_at n address m'
unfolding floats_at
floats_at-same zero address m m' h = refl
floats_at-same (suc n) address m m' h =
    ap₂ (λ (x : ℕ) (l : List ℕ). x ∷ l) (h address (omega arith) (omega arith))
      (floats_at-same n (address + 4) m m' (λ x a b. h x (omega arith) (omega arith)))

-- What lies before the copy stays.
pub floats_at-below :
    (k address n from to : ℕ) (m : Mem)
    → address + 4 * k ≤ to
    → floats_at k address (copy_floats n from to m) ≡ floats_at k address m
floats_at-below k address n from to m h =
    floats_at-same k address _ _ (λ x a b. copy_floats-outside n from to x m (inl (omega arith)))

-- The copy reads as the floats that were copied.
pub floats_at-copy_floats :
    (n from to : ℕ) (m : Mem)
    → Apart n from to
    → floats_at n to (copy_floats n from to m) ≡ floats_at n from m
unfolding floats_at copy_floats
floats_at-copy_floats zero from to m h = refl
floats_at-copy_floats (suc n) from to m h =
    ap₂ (λ (x : ℕ) (l : List ℕ). x ∷ l)
      (copy_floats-outside n (from + 4) (to + 4) to (update m to (m from)) (inl (omega arith))
        ∙ update_self m to (m from))
      (floats_at-copy_floats n (from + 4) (to + 4) (update m to (m from)) (ground arith)
        ∙ floats_at-same n (from + 4) _ _ (λ x a b. update_ne m to x (m from) (ground arith)))
