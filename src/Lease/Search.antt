-- ===== src/Lease/Search.antt =====
-- The descent of the tree answers the leftmost leaf of its range that is ready.
use cybou_db.Prelude.{
  ℕ, zero, suc, ◌+◌, ◌-◌, ◌*◌, ◌/◌, ◌^◌, ◌≤◌, ◌<◌, ◌≡◌, inl, inr, refl, ap, Option, none, some,
  true, ◌||◌, arith, ltb, Bool-cases, FirstIn, FirstIn-append, FirstIn-nothing, FirstIn-widen,
  ltb→lt, ltb→le, or_true, or_false, subst,
}
use native.Mathlib.Nat.{pow-suc, le_trans, mul-le-mul_right}
use cybou_db.Lease.Tree.{Tree, Counts, node_value, or_else, search_children, node_search}

-- A node is never later than what stands below it.
pub record IsBelow (t : Tree) : Type 0 where
  pub l2_le : (i : ℕ) → t.l2 (i / 8) ≤ t.leaf i
  pub l1_le : (i : ℕ) → t.l1 (i / 8) ≤ t.l2 i
  pub l0_le : (i : ℕ) → i < 8 → t.l0 ≤ t.l1 i

-- Down from a node at height `h` to each leaf under it.
node_value_le :
    (t : Tree)
    → IsBelow t
    → (h idx j : ℕ) → h < 4
    → idx * 2 ^ (3 * h) ≤ j
    → j < (idx + 1) * 2 ^ (3 * h)
    → j < 512
    → node_value t (3 - h) idx ≤ t.leaf j
unfolding node_value
node_value_le t b zero idx j h p q r = let e : idx ≡ j = omega arith in omega (arith, ap t.leaf e)
node_value_le t b (suc zero) idx j h p q r =
    let e : idx ≡ j / 8 = omega arith in omega (arith, ap t.l2 e, b.l2_le j)
node_value_le t b (suc (suc zero)) idx j h p q r =
    let e : idx ≡ j / 8 / 8 = omega arith in omega (arith, ap t.l1 e, b.l2_le j, b.l1_le (j / 8))
node_value_le t b (suc (suc (suc zero))) idx j h p q r =
    omega (arith, b.l2_le j, b.l1_le (j / 8), b.l0_le (j / 8 / 8) (omega arith))
node_value_le t b (suc (suc (suc (suc h)))) idx j p q r s = absurd (omega arith)

suc_le_of_lt : (i n : ℕ) → i < n → i + 1 ≤ n
suc_le_of_lt i n h = omega arith

-- Eight children side by side take the place of their parent.
eight_spans :
    (idx small big : ℕ)
    → big ≡ 8 * small
    → (idx * 8 * small ≡ idx * big) × ((idx * 8 + 8) * small ≡ (idx + 1) * big)
eight_spans idx small big w =
    (omega (arith, ap (λ (n : ℕ). idx * n) w), omega (arith, w, ap (λ (n : ℕ). idx * n) w))

-- Children whose ranges follow one another.
or_else-FirstIn :
    (P : ℕ → Type 0) (a b hi : ℕ) (r : Option ℕ × Counts) (next : Counts → Option ℕ × Counts)
    → a ≤ b
    → b ≤ hi
    → FirstIn P a b r.0
    → ((c : Counts) → FirstIn P b hi (next c).0)
    → FirstIn P a hi (or_else r next).0
unfolding or_else
or_else-FirstIn P a b hi (none, c) next le le' f g = FirstIn-append P a b hi _ le f (g c)
or_else-FirstIn P a b hi (some x, c) next le le' f g = FirstIn-widen P a b hi x le' f

search_children-FirstIn :
    (P : ℕ → Type 0) (visit : ℕ → Counts → Option ℕ × Counts) (span n k lo hi : ℕ) (c : Counts)
    → ((i : ℕ) (d : Counts)
        → k ≤ i
        → i < k + n
        → FirstIn P (i * span) ((i + 1) * span) (visit i d).0)
    → k * span ≡ lo
    → (k + n) * span ≡ hi
    → FirstIn P lo hi (search_children visit n k c).0
unfolding search_children
search_children-FirstIn P visit span zero k lo hi c each s e = FirstIn-nothing P _ _ (omega arith)
search_children-FirstIn P visit span (suc n) k lo hi c each s e =
    or_else-FirstIn P lo ((k + 1) * span) hi (visit k c) _ (omega arith) (omega arith)
      (subst (λ m. FirstIn P m ((k + 1) * span) (visit k c).0) s
        (each k c (omega arith) (omega arith)))
      (λ d.
        search_children-FirstIn P visit span n (k + 1) ((k + 1) * span) hi d
          (λ i d' p q. each i d' (omega arith) (omega arith)) refl (omega arith))

module _ (t : Tree) (b : IsBelow t) (lo hi now : ℕ) where
  -- A leaf of the searched range whose time has come.
  abbrev pub Ready : ℕ → Type 0
  Ready j = (lo ≤ j) × (j ≤ hi) × (t.leaf j ≤ now)

  -- The range of a node that lies outside the searched range holds nothing ready.
  outside_nothing :
      (base end i : ℕ)
      → (ltb hi base || ltb (base + end - 1) lo) ≡ true
      → base ≤ i
      → i < base + end
      → ¬ Ready i
  outside_nothing base end i e p q (l, r, _) =
      elim (or_true (ltb hi base) (ltb (base + end - 1) lo) e) [
        | inl x ↦ absurd (omega (arith, ltb→lt hi base x, p))
        | inr x ↦ absurd (omega (arith, ltb→lt (base + end - 1) lo x))
      ]

  pow_eight : (k : ℕ) → 2 ^ (3 * suc k) ≡ 8 * 2 ^ (3 * k)
  pow_eight k =
      let e : 3 * suc k ≡ suc (suc (suc (3 * k))) = omega arith in
      omega (
        arith,
        ap (λ (n : ℕ). 2 ^ n) e,
        pow-suc 2 (suc (suc (3 * k))),
        pow-suc 2 (suc (3 * k)),
        pow-suc 2 (3 * k),
      )

  pub node_search-FirstIn :
      (h idx : ℕ) (c : Counts)
      → h < 4
      → (idx + 1) * 2 ^ (3 * h) ≤ 512
      → FirstIn Ready
          (idx * 2 ^ (3 * h))
          ((idx + 1) * 2 ^ (3 * h))
          (node_search t lo hi now h idx c).0
  unfolding node_search
  node_search-FirstIn zero idx c h fits = elim (Bool-cases (ltb hi idx || ltb idx lo)) [
    | inl e ↦ rw e (λ i p q r.
        let g : idx ≡ i = omega arith in
        elim (or_true (ltb hi idx) (ltb idx lo) e) [
          | inl x ↦ omega (arith, ltb→lt hi idx x, r.1)
          | inr x ↦ omega (arith, ltb→lt idx lo x, r.0)
        ])
    | inr e ↦ elim (Bool-cases (ltb now (node_value t 3 idx))) [
      | inl f ↦
          rw (e, f)
            (λ i p q r. omega (
              arith,
              ltb→lt now _ f,
              node_value_le t b 0 idx i (omega arith) (omega arith) (omega arith) (omega arith),
              r.2,
            ))
      | inr f ↦
          let o = or_false (ltb hi idx) (ltb idx lo) e in
          rw (e, f)
            (
              omega arith,
              omega arith,
              (ltb→le idx lo o.1, ltb→le hi idx o.0, unfold node_value in ltb→le now _ f),
              λ i p q r. omega arith,
            )
    ]
  ]
  node_search-FirstIn (suc k) idx c h fits =
      let span = 2 ^ (3 * suc k) in
      elim (Bool-cases (ltb hi (idx * span) || ltb (idx * span + span - 1) lo)) [
        | inl e ↦ rw e (λ i p q. outside_nothing (idx * span) span i e p (omega arith))
        | inr e ↦ elim (Bool-cases (ltb now (node_value t (3 - suc k) idx))) [
          | inl f ↦
              rw (e, f)
                (λ i p q r.
                  omega (
                    arith,
                    ltb→lt now _ f,
                    node_value_le t b (suc k) idx i h p q (omega arith),
                    r.2,
                  ))
          | inr f ↦
              rw (e, f)
                (search_children-FirstIn Ready (λ i d. node_search t lo hi now k i d) (2 ^ (3 * k))
                  8 (idx * 8) (idx * span) ((idx + 1) * span) (record c { nodes = c.nodes + 1 })
                  (λ i d p q. node_search-FirstIn k i d (omega arith) (
                    le_trans (mul-le-mul_right (2 ^ (3 * k)) (suc_le_of_lt i _ q))
                      (omega (arith, (eight_spans idx _ _ (pow_eight k)).1))))
                  (eight_spans idx _ _ (pow_eight k)).0 (eight_spans idx _ _ (pow_eight k)).1)
        ]
      ]
