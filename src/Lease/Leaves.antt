-- ===== src/Lease/Leaves.antt =====
-- The climb leaves the leaves alone, and what one operation of the upkeep costs.
use cybou_db.Prelude.{
  ℕ, zero, suc, ◌+◌, ◌*◌, ◌/◌, ◌≤◌, ◌≡◌, inl, inr, refl, sym, ap, ◌∙◌, Option, arith, if◌then◌else◌,
  ltb, leb, ◌==◌, u64_max, update, Bool-cases, Option-cases, ==→eq,
}
use cybou_db.Lease.Slots.{Slot, state_held}
use cybou_db.Lease.Walk.{least_deadline, ready_walk}
use cybou_db.Lease.Tree.{Tree, ring_leaf, min_of, least_child}
use cybou_db.Lease.Maintain.{
  Cost, climb_root, climb_l1, climb_l2, sibling_walk, propagate_rise, propagate_fall,
  tree_propagate, tree_lower, store_leaf, rescan_walk,
}

leaf-climb_root : (t : Tree) (m : Cost) → (climb_root t m).0.leaf ≡ t.leaf
unfolding climb_root
leaf-climb_root t m = elim (Bool-cases (min_of t.l1 8 0 u64_max == t.l0)) [
  | inl e ↦ rw (e, climb_root)
  | inr e ↦ rw (e, climb_root)
]

leaf-climb_l1 : (t : Tree) (m : Cost) (i1 : ℕ) → (climb_l1 t m i1).0.leaf ≡ t.leaf
unfolding climb_l1
leaf-climb_l1 t m i1 = elim (Bool-cases (least_child t.l2 i1 == t.l1 i1)) [
  | inl e ↦ rw (e, climb_l1)
  | inr e ↦ rw (e, climb_l1) (leaf-climb_root _ _)
]

leaf-climb_l2 : (t : Tree) (m : Cost) (i2 v : ℕ) → (climb_l2 t m i2 v).0.leaf ≡ t.leaf
unfolding climb_l2
leaf-climb_l2 t m i2 v = leaf-climb_l1 _ _ (i2 / 8)

leaf-propagate_rise : (t : Tree) (m : Cost) (i2 : ℕ) → (propagate_rise t m i2).0.leaf ≡ t.leaf
unfolding propagate_rise
leaf-propagate_rise t m i2 =
    let walk = sibling_walk t.leaf 8 (i2 * 8) u64_max m.leaf_pages in
    elim (Bool-cases (walk.0 == t.l2 i2)) [
      | inl e ↦ rw e
      | inr e ↦ rw e (leaf-climb_l2 t _ i2 walk.0)
    ]

leaf-propagate_fall :
    (t : Tree) (m : Cost) (leaf i2 : ℕ) → (propagate_fall t m leaf i2).0.leaf ≡ t.leaf
unfolding propagate_fall
leaf-propagate_fall t m leaf i2 = elim (Bool-cases (leb (t.l2 i2) (t.leaf leaf))) [
  | inl e ↦ rw e
  | inr e ↦ rw e (leaf-climb_l2 t _ i2 _)
]

-- A leaf that is stored has its value, and every other leaf keeps its own.
pub leaf-store_leaf :
    (t : Tree) (m : Cost) (leaf v j : ℕ) → (store_leaf t m leaf v).0.leaf j ≡ update t.leaf leaf v j
unfolding store_leaf tree_propagate
leaf-store_leaf t m leaf v j = elim (Bool-cases (v == t.leaf leaf)) [
  | inl e ↦ rw e (same (==→eq v _ e))
  | inr e ↦ elim (Bool-cases (ltb (t.leaf leaf) v)) [
    | inl f ↦ rw (e, f) (ap (λ (g : ℕ → ℕ). g j) (leaf-propagate_rise _ m (leaf / 8)))
    | inr f ↦ rw (e, f) (ap (λ (g : ℕ → ℕ). g j) (leaf-propagate_fall _ m leaf (leaf / 8)))
  ]
]
  where
    same : v ≡ t.leaf leaf → t.leaf j ≡ update t.leaf leaf v j
    same e = elim (Bool-cases (j == leaf)) [
      | inl h ↦ rw h (ap t.leaf (==→eq j leaf h) ∙ sym e)
      | inr h ↦ rw h
    ]

pub leaf-tree_lower :
    (t : Tree) (m : Cost) (seg v j : ℕ)
    → v ≤ t.leaf (ring_leaf seg)
    → (tree_lower t m seg v).0.leaf j ≡ update t.leaf (ring_leaf seg) v j
unfolding tree_lower tree_propagate
leaf-tree_lower t m seg v j le = elim (Bool-cases (leb (t.leaf (ring_leaf seg)) v)) [
  | inl e ↦ rw e (same (ground arith))
  | inr e ↦
      rw e (ap (λ (g : ℕ → ℕ). g j) (leaf-propagate_fall _ m (ring_leaf seg) (ring_leaf seg / 8)))
]
  where
    same : v ≡ t.leaf (ring_leaf seg) → t.leaf j ≡ update t.leaf (ring_leaf seg) v j
    same e = elim (Bool-cases (j == ring_leaf seg)) [
      | inl h ↦ rw h (ap t.leaf (==→eq j (ring_leaf seg) h) ∙ sym e)
      | inr h ↦ rw h
    ]

-- Reading a segment again computes its summary, and reads each slot at most once.
pub rescan_walk_lem :
    (slot : ℕ → Option Slot) (n p best read : ℕ)
    → ((rescan_walk slot n p best read).0 ≡ ready_walk slot n p best)
      × ((rescan_walk slot n p best read).1 ≤ read + n)
unfolding rescan_walk ready_walk
rescan_walk_lem slot zero p best read = (refl, omega arith)
rescan_walk_lem slot (suc n) p best read = elim (Option-cases (slot p)) [
  | inl e ↦
      let ih = rescan_walk_lem slot n (p + 1) best read in
      rw (e, rescan_walk, ready_walk) (ih.0, omega (arith, ih.1))
  | inr (s, e) ↦ elim (Bool-cases (s.state == state_held)) [
    | inl h ↦ rw (e, h, rescan_walk, ready_walk) (refl, omega arith)
    | inr h ↦
        let ih = rescan_walk_lem slot n (p + 1) (least_deadline s best) (read + 1) in
        rw (e, h, rescan_walk, ready_walk) (ih.0, omega (arith, ih.1))
  ]
]

-- What a part of the upkeep may cost: so many nodes written and sibling pages read, and no slot.
abbrev pub Within : Cost → ℕ → ℕ → Cost → Type 0
Within m nodes pages m' =
    (m'.nodes ≤ m.nodes + nodes) × (m'.leaf_pages ≤ m.leaf_pages + pages) × (m'.slots ≡ m.slots)

climb_root-Within : (t : Tree) (m : Cost) → Within m 1 0 (climb_root t m).1
unfolding climb_root
climb_root-Within t m = ground arith

climb_l1-Within : (t : Tree) (m : Cost) (i1 : ℕ) → Within m 2 0 (climb_l1 t m i1).1
unfolding climb_l1
climb_l1-Within t m i1 = ground (
  arith,
  climb_root-Within (record t { l1 = update t.l1 i1 (least_child t.l2 i1) })
      (record m { nodes = m.nodes + 1 }),
)

climb_l2-Within : (t : Tree) (m : Cost) (i2 v : ℕ) → Within m 3 0 (climb_l2 t m i2 v).1
unfolding climb_l2
climb_l2-Within t m i2 v = omega (
  arith,
  climb_l1-Within (record t { l2 = update t.l2 i2 v }) (record m { nodes = m.nodes + 1 }) (i2 / 8),
)

sibling_walk-le : (a : ℕ → ℕ) (n i m pages : ℕ) → (sibling_walk a n i m pages).1 ≤ pages + n
unfolding sibling_walk
sibling_walk-le a zero i m pages = omega arith
sibling_walk-le a (suc n) i m pages = ground (
  arith,
  sibling_walk-le a n (i + 1) (if ltb (a i) m then a i else m)
      (if a i == u64_max then pages else pages + 1),
)

propagate_rise-Within : (t : Tree) (m : Cost) (i2 : ℕ) → Within m 3 8 (propagate_rise t m i2).1
unfolding propagate_rise
propagate_rise-Within t m i2 =
    let walk = sibling_walk t.leaf 8 (i2 * 8) u64_max m.leaf_pages in
    ground (
      arith,
      sibling_walk-le t.leaf 8 (i2 * 8) u64_max m.leaf_pages,
      climb_l2-Within t (record m { leaf_pages = walk.1 }) i2 walk.0,
    )

propagate_fall-Within :
    (t : Tree) (m : Cost) (leaf i2 : ℕ) → Within m 3 0 (propagate_fall t m leaf i2).1
unfolding propagate_fall
propagate_fall-Within t m leaf i2 = ground (arith, climb_l2-Within t m i2 (t.leaf leaf))

pub tree_lower-Within : (t : Tree) (m : Cost) (seg v : ℕ) → Within m 3 0 (tree_lower t m seg v).1
unfolding tree_lower tree_propagate
tree_lower-Within t m seg v =
    let leaf = ring_leaf seg in
    ground
      (arith, propagate_fall-Within (record t { leaf = update t.leaf leaf v }) m leaf (leaf / 8))

pub store_leaf-Within : (t : Tree) (m : Cost) (leaf v : ℕ) → Within m 3 8 (store_leaf t m leaf v).1
unfolding store_leaf tree_propagate
store_leaf-Within t m leaf v = ground (
  arith,
  propagate_fall-Within (record t { leaf = update t.leaf leaf v }) m leaf (leaf / 8),
  propagate_rise-Within (record t { leaf = update t.leaf leaf v }) m (leaf / 8),
)
