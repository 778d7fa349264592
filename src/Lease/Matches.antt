-- ===== src/Lease/Matches.antt =====
-- When a ready-at tree stands for a queue, and that `tree_build` builds such a tree.
use cybou_db.Prelude.{
  ℕ, zero, suc, ◌+◌, ◌-◌, ◌*◌, ◌/◌, ◌%◌, ◌^◌, ◌≤◌, ◌<◌, ◌≡◌, ◌≢◌, inl, inr, refl, sym, ap, ◌∙◌,
  Option, arith, u64_max, update_self, update_ne, bit_and_mask, trichotomy, ne→==, ltb,
  if◌then◌else◌,
}
use cybou_db.Lease.Slots.{Slot, Queue, slot_at, seg_slots}
use cybou_db.Lease.Walk.{segment_ready_at}
use cybou_db.Lease.Tree.{
  Tree, ring_leaf, min_of, least_child, fill_leaves, last_seg, build_leaves, summarise, tree_build,
}
use cybou_db.Lease.Search.{IsBelow}

-- What the validator lets a queue page say: positions in order, no more segments than the
-- directory has entries, and no position near the end of the 64-bit range.
pub record IsQueue (head tail : ℕ) : Type 0 where
  pub ordered : head ≤ tail
  pub room : tail + seg_slots ≤ 2 ^ 64
  pub directory : (tail - 1) / seg_slots < head / seg_slots + 495

-- Every node holds the least of its children.
pub record IsSummary (t : Tree) : Type 0 where
  pub l2_eq : (i : ℕ) → t.l2 i ≡ least_child t.leaf i
  pub l1_eq : (i : ℕ) → t.l1 i ≡ least_child t.l2 i
  pub l0_eq : t.l0 ≡ least_child t.l1 0

-- The leaf of each live segment is its summary.
abbrev pub LeavesMatch : (ℕ → Option Slot) → ℕ → ℕ → (ℕ → ℕ) → Type 0
LeavesMatch slot head tail leaf =
    (s : ℕ)
    → head / seg_slots ≤ s
    → s ≤ (tail - 1) / seg_slots
    → leaf (ring_leaf s) ≡ segment_ready_at slot s head tail

-- The tree stands for the queue.
pub record Matches (q : Queue) (t : Tree) : Type 0 where
  pub summary : IsSummary t
  pub leaves : q.head < q.tail → LeavesMatch (slot_at q) q.head q.tail t.leaf

pub ring_leaf_lem : (s : ℕ) → ring_leaf s ≡ s % 512
unfolding ring_leaf
ring_leaf_lem s = bit_and_mask 9 s

pub last_seg_lem : (tail : ℕ) → 0 < tail → tail ≤ 2 ^ 64 → last_seg tail ≡ (tail - 1) / seg_slots
unfolding last_seg
last_seg_lem tail h k = omega arith

pub min_of-le : (a : ℕ → ℕ) (n i m : ℕ) → min_of a n i m ≤ m
unfolding min_of
min_of-le a zero i m = omega arith
min_of-le a (suc n) i m = ground (arith, min_of-le a n (i + 1) (if ltb (a i) m then a i else m))

pub min_of-le_elem : (a : ℕ → ℕ) (n i j m : ℕ) → i ≤ j → j < i + n → min_of a n i m ≤ a j
unfolding min_of
min_of-le_elem a zero i j m p q = absurd (omega arith)
min_of-le_elem a (suc n) i j m p q = elim (trichotomy i j) [
  | inl h ↦
      min_of-le_elem a n (i + 1) j (if ltb (a i) m then a i else m) (omega arith) (omega arith)
  | inr (inl e) ↦ ground (arith, ap a e, min_of-le a n (i + 1) (if ltb (a i) m then a i else m))
  | inr (inr h) ↦ absurd (omega arith)
]

least_child-le : (a : ℕ → ℕ) (i : ℕ) → least_child a (i / 8) ≤ a i
unfolding least_child
least_child-le a i = min_of-le_elem a 8 (i / 8 * 8) i u64_max (omega arith) (omega arith)

-- A tree of least children is one that the search may trust.
pub IsSummary→IsBelow : {t : Tree} → IsSummary t → IsBelow t
unfolding least_child
IsSummary→IsBelow {t} s = record {
  l2_le = λ i. omega (arith, s.l2_eq (i / 8), least_child-le t.leaf i);
  l1_le = λ i. omega (arith, s.l1_eq (i / 8), least_child-le t.l2 i);
  l0_le =
      λ i h. omega (arith, s.l0_eq, min_of-le_elem t.l1 8 0 i u64_max (omega arith) (omega arith));
}

pub summarise-IsSummary : (leaf : ℕ → ℕ) → IsSummary (summarise leaf)
unfolding summarise
summarise-IsSummary leaf = record { l2_eq = λ i. refl; l1_eq = λ i. refl; l0_eq = refl }

-- Segments fewer than 512 apart have different leaves.
pub ring_leaf_ne : (s x : ℕ) → s < x → x < s + 512 → ring_leaf x ≢ ring_leaf s
ring_leaf_ne s x h k = omega (arith, ring_leaf_lem s, ring_leaf_lem x)

module _ (slot : ℕ → Option Slot) (head tail : ℕ) where
  pub fill_keeps :
      (n s j : ℕ) (leaf : ℕ → ℕ)
      → ((x : ℕ) → s ≤ x → x < s + n → j ≢ ring_leaf x)
      → fill_leaves slot head tail n s leaf j ≡ leaf j
  unfolding fill_leaves
  fill_keeps zero s j leaf h = refl
  fill_keeps (suc n) s j leaf h =
      fill_keeps n (s + 1) j _ (λ x p q. h x (omega arith) (omega arith))
      ∙ update_ne leaf (ring_leaf s) j _ (h s (omega arith) (omega arith))

  fill_leaves_lem :
      (n s x : ℕ) (leaf : ℕ → ℕ)
      → n ≤ 512
      → s ≤ x
      → x < s + n
      → fill_leaves slot head tail n s leaf (ring_leaf x) ≡ segment_ready_at slot x head tail
  unfolding fill_leaves
  fill_leaves_lem zero s x leaf f p q = absurd (omega arith)
  fill_leaves_lem (suc n) s x leaf f p q = elim (trichotomy s x) [
    | inl h ↦ fill_leaves_lem n (s + 1) x _ (omega arith) (omega arith) (omega arith)
    | inr (inl e) ↦ rw (← e) (
        fill_keeps n (s + 1) (ring_leaf s) _
          (λ y a b. λ g. ring_leaf_ne s y (omega arith) (omega arith) (sym g))
        ∙ update_self leaf (ring_leaf s) _)
    | inr (inr h) ↦ absurd (omega arith)
  ]

  build_leaves_lem :
      IsQueue head tail → head < tail → LeavesMatch slot head tail (build_leaves slot head tail)
  unfolding build_leaves
  build_leaves_lem q h s p r =
      rw (ne→== head tail (omega arith), build_leaves)
        (fill_leaves_lem _ (head / seg_slots) s (λ _. u64_max)
          (omega (arith, last_seg_lem tail (omega arith) (omega (arith, q.room)), q.directory)) p
          (omega (arith, last_seg_lem tail (omega arith) (omega (arith, q.room)))))

-- The tree that `tree_build` makes of a valid queue stands for it: every node holds the least of its
-- children, and the leaf of each live segment its summary.
pub tree_build-Matches : (q : Queue) → IsQueue q.head q.tail → Matches q (tree_build q)
unfolding tree_build summarise
tree_build-Matches q v = record {
  summary = summarise-IsSummary (build_leaves (slot_at q) q.head q.tail);
  leaves = λ h. build_leaves_lem (slot_at q) q.head q.tail v h;
}
