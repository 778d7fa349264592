-- ===== src/Lease/Climb.antt =====
-- The climb restores the tree, and writes at most three nodes.
use cybou_db.Prelude.{
  ℕ, zero, suc, ◌+◌, ◌*◌, ◌/◌, ◌≤◌, ◌<◌, ◌≡◌, ◌≢◌, inl, inr, refl, sym, ap, ◌∙◌, true, arith,
  if◌then◌else◌, ltb, leb, ◌==◌, u64_max, update, update_self, update_ne, Bool-cases, trichotomy,
  ==→eq, ==→ne, ltb→le, subst,
}
use Prim.Native.Nat.{min}
use cybou_db.Lease.Tree.{Tree, ring_leaf, min_of, least_child}
use cybou_db.Lease.Matches.{IsSummary}
use cybou_db.Lease.Maintain.{
  Cost, climb_root, climb_l1, climb_l2, sibling_walk, propagate_rise, propagate_fall,
  tree_propagate, tree_lower, store_leaf,
}

-- A least value reads its own range alone.
min_of_ext :
    (a b : ℕ → ℕ) (n i m : ℕ)
    → ((j : ℕ) → i ≤ j → j < i + n → a j ≡ b j)
    → min_of a n i m ≡ min_of b n i m
unfolding min_of
min_of_ext a b zero i m h = refl
min_of_ext a b (suc n) i m h = rw (h i (omega arith) (omega arith)) (
    min_of_ext a b n (i + 1) (if ltb (b i) m then b i else m)
      (λ j p q. h j (omega arith) (omega arith)))

min_of-min : (a : ℕ → ℕ) (n i x m : ℕ) → min_of a n i (min x m) ≡ min x (min_of a n i m)
unfolding min_of
min_of-min a zero i x m = refl
min_of-min a (suc n) i x m =
    ap (min_of a n (i + 1)) (step (a i)) ∙ min_of-min a n (i + 1) x (if ltb (a i) m then a i else m)
  where
    step : (y : ℕ) → (if ltb y (min x m) then y else min x m) ≡ min x (if ltb y m then y else m)
    step y = ground arith

min_of_fall_here :
    (a : ℕ → ℕ) (n i v m : ℕ)
    → v ≤ a i
    → min_of (update a i v) (suc n) i m ≡ min v (min_of a (suc n) i m)
unfolding min_of
min_of_fall_here a n i v m le =
    ap (min_of (update a i v) n (i + 1)) first
    ∙ min_of_ext (update a i v) a n (i + 1) _ (λ j p q. update_ne a i j v (omega arith))
    ∙ min_of-min a n (i + 1) v (if ltb (a i) m then a i else m)
  where
    first :
        (if ltb (update a i v i) m then update a i v i else m)
        ≡ min v (if ltb (a i) m then a i else m)
    first = ground arith

-- One entry of the range that falls lowers the least value to itself.
min_of_fall :
    (a : ℕ → ℕ) (n i j v m : ℕ)
    → i ≤ j
    → j < i + n
    → v ≤ a j
    → min_of (update a j v) n i m ≡ min v (min_of a n i m)
unfolding min_of
min_of_fall a zero i j v m p q le = absurd (omega arith)
min_of_fall a (suc n) i j v m p q le = elim (trichotomy i j) [
  | inl h ↦
      rw (update_ne a j i v (omega arith)) (
        min_of_fall a n (i + 1) j v (if ltb (a i) m then a i else m) (omega arith) (omega arith) le)
  | inr (inl e) ↦
      subst (λ k. v ≤ a k → min_of (update a k v) (suc n) i m ≡ min v (min_of a (suc n) i m)) e
        (min_of_fall_here a n i v m) le
  | inr (inr h) ↦ absurd (omega arith)
]

sibling_walk_lem : (a : ℕ → ℕ) (n i m pages : ℕ) → (sibling_walk a n i m pages).0 ≡ min_of a n i m
unfolding sibling_walk min_of
sibling_walk_lem a zero i m pages = refl
sibling_walk_lem a (suc n) i m pages = sibling_walk_lem a n (i + 1) _ _

-- Every level but the first and the root is in order.
record NearlySummary (t : Tree) (i1 : ℕ) : Type 0 where
  l2_eq : (i : ℕ) → t.l2 i ≡ least_child t.leaf i
  l1_eq : (i : ℕ) → i ≢ i1 → t.l1 i ≡ least_child t.l2 i
  l0_eq : t.l0 ≡ least_child t.l1 0

climb_root-IsSummary :
    (t : Tree) (m : Cost)
    → ((i : ℕ) → t.l2 i ≡ least_child t.leaf i)
    → ((i : ℕ) → t.l1 i ≡ least_child t.l2 i)
    → IsSummary (climb_root t m).0
unfolding climb_root least_child
climb_root-IsSummary t m l2 l1 = elim (Bool-cases (min_of t.l1 8 0 u64_max == t.l0)) [
  | inl e ↦ rw (e, climb_root) (record { l2_eq = l2; l1_eq = l1; l0_eq = sym (==→eq _ t.l0 e) })
  | inr e ↦ rw (e, climb_root) (record { l2_eq = l2; l1_eq = l1; l0_eq = refl })
]

climb_l1-IsSummary :
    (t : Tree) (m : Cost) (i1 : ℕ) → NearlySummary t i1 → IsSummary (climb_l1 t m i1).0
unfolding climb_l1
climb_l1-IsSummary t m i1 s = elim (Bool-cases (least_child t.l2 i1 == t.l1 i1)) [
  | inl e ↦ rw (e, climb_l1) (record { l2_eq = s.l2_eq; l1_eq = kept e; l0_eq = s.l0_eq })
  | inr e ↦ rw (e, climb_l1) (climb_root-IsSummary _ _ s.l2_eq written)
]
  where
    kept : (least_child t.l2 i1 == t.l1 i1) ≡ true → (i : ℕ) → t.l1 i ≡ least_child t.l2 i
    kept e i = elim (Bool-cases (i == i1)) [
      | inl h ↦
          let g = ==→eq i i1 h in
          ap t.l1 g ∙ sym (==→eq _ (t.l1 i1) e) ∙ ap (least_child t.l2) (sym g)
      | inr h ↦ s.l1_eq i (==→ne i i1 h)
    ]

    written : (i : ℕ) → update t.l1 i1 (least_child t.l2 i1) i ≡ least_child t.l2 i
    written i = elim (Bool-cases (i == i1)) [
      | inl h ↦ rw h (ap (least_child t.l2) (sym (==→eq i i1 h)))
      | inr h ↦ rw h (s.l1_eq i (==→ne i i1 h))
    ]

-- One leaf of the tree `t` has got the value `v`, and nothing above it has changed.
abbrev put_leaf : Tree → ℕ → ℕ → Tree
put_leaf t leaf v = record t { leaf = update t.leaf leaf v }

least_child_ne :
    (a : ℕ → ℕ) (i j v : ℕ) → j ≢ i / 8 → least_child (update a i v) j ≡ least_child a j
unfolding least_child
least_child_ne a i j v h =
    min_of_ext (update a i v) a 8 (j * 8) u64_max (λ k p q. update_ne a i k v (omega arith))

climb_l2-IsSummary :
    (t : Tree) (m : Cost) (leaf v x : ℕ)
    → IsSummary t
    → x ≡ least_child (update t.leaf leaf v) (leaf / 8)
    → IsSummary (climb_l2 (put_leaf t leaf v) m (leaf / 8) x).0
unfolding climb_l2
climb_l2-IsSummary t m leaf v x s e = climb_l1-IsSummary _ _ (leaf / 8 / 8) (record {
  l2_eq = λ i. elim (Bool-cases (i == leaf / 8)) [
    | inl h ↦ rw h (e ∙ ap (least_child (update t.leaf leaf v)) (sym (==→eq i (leaf / 8) h)))
    | inr h ↦ rw h (s.l2_eq i ∙ sym (least_child_ne t.leaf leaf i v (==→ne i (leaf / 8) h)))
  ];
  l1_eq = λ i h. s.l1_eq i ∙ sym (least_child_ne t.l2 (leaf / 8) i x h);
  l0_eq = s.l0_eq;
})

-- Nothing to do above a leaf whose parent is right already.
unmoved :
    (t : Tree) (leaf v : ℕ)
    → IsSummary t
    → t.l2 (leaf / 8) ≡ least_child (update t.leaf leaf v) (leaf / 8)
    → IsSummary (put_leaf t leaf v)
unmoved t leaf v s e = record {
  l2_eq = λ i. elim (Bool-cases (i == leaf / 8)) [
    | inl h ↦
        let g = ==→eq i (leaf / 8) h in
        ap t.l2 g ∙ e ∙ ap (least_child (update t.leaf leaf v)) (sym g)
    | inr h ↦ s.l2_eq i ∙ sym (least_child_ne t.leaf leaf i v (==→ne i (leaf / 8) h))
  ];
  l1_eq = s.l1_eq;
  l0_eq = s.l0_eq;
}

propagate_rise-IsSummary :
    (t : Tree) (m : Cost) (leaf v : ℕ)
    → IsSummary t
    → IsSummary (propagate_rise (put_leaf t leaf v) m (leaf / 8)).0
unfolding propagate_rise
propagate_rise-IsSummary t m leaf v s =
    let walk = sibling_walk (update t.leaf leaf v) 8 (leaf / 8 * 8) u64_max m.leaf_pages in
    let w = sibling_walk_lem (update t.leaf leaf v) 8 (leaf / 8 * 8) u64_max m.leaf_pages in
    elim (Bool-cases (walk.0 == t.l2 (leaf / 8))) [
      | inl e ↦ rw e (unmoved t leaf v s (sym (==→eq _ _ e) ∙ unfold least_child in w))
      | inr e ↦ rw e (climb_l2-IsSummary t _ leaf v walk.0 s (unfold least_child in w))
    ]

fall_least :
    (t : Tree) (leaf v : ℕ)
    → IsSummary t
    → v ≤ t.leaf leaf
    → least_child (update t.leaf leaf v) (leaf / 8) ≡ min v (t.l2 (leaf / 8))
unfolding least_child
fall_least t leaf v s le =
    min_of_fall t.leaf 8 (leaf / 8 * 8) leaf v u64_max (omega arith) (omega arith) le
    ∙ ap (min v) (sym (s.l2_eq (leaf / 8)))

propagate_fall-IsSummary :
    (t : Tree) (m : Cost) (leaf v : ℕ)
    → IsSummary t
    → v ≤ t.leaf leaf
    → IsSummary (propagate_fall (put_leaf t leaf v) m leaf (leaf / 8)).0
unfolding propagate_fall
propagate_fall-IsSummary t m leaf v s le =
    let same = update_self t.leaf leaf v in
    elim (Bool-cases (leb (t.l2 (leaf / 8)) (update t.leaf leaf v leaf))) [
      | inl e ↦ rw e (unmoved t leaf v s (ground (arith, fall_least t leaf v s le)))
      | inr e ↦ rw e (climb_l2-IsSummary t _ leaf v _ s (ground (arith, fall_least t leaf v s le)))
    ]

-- Storing a leaf, by either road, keeps every node the least of its children.
pub store_leaf-IsSummary :
    (t : Tree) (m : Cost) (leaf v : ℕ) → IsSummary t → IsSummary (store_leaf t m leaf v).0
unfolding store_leaf tree_propagate
store_leaf-IsSummary t m leaf v s = elim (Bool-cases (v == t.leaf leaf)) [
  | inl e ↦ rw e s
  | inr e ↦ elim (Bool-cases (ltb (t.leaf leaf) v)) [
    | inl f ↦ rw (e, f) (propagate_rise-IsSummary t m leaf v s)
    | inr f ↦ rw (e, f) (propagate_fall-IsSummary t m leaf v s (ltb→le _ _ f))
  ]
]

pub tree_lower-IsSummary :
    (t : Tree) (m : Cost) (seg v : ℕ) → IsSummary t → IsSummary (tree_lower t m seg v).0
unfolding tree_lower tree_propagate
tree_lower-IsSummary t m seg v s = elim (Bool-cases (leb (t.leaf (ring_leaf seg)) v)) [
  | inl e ↦ rw e s
  | inr e ↦ rw e (propagate_fall-IsSummary t m (ring_leaf seg) v s (ground arith))
]
