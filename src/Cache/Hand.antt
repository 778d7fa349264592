-- ===== src/Cache/Hand.antt =====
-- The clock hand stops within one turn, at a slot that was not touched since the last one.
use cybou_db.Prelude.{
  ℕ, zero, suc, ◌+◌, ◌%◌, ◌≤◌, ◌<◌, ◌≡◌, inl, inr, refl, sym, ap, ◌∙◌, true, false, arith, u32,
  if◌then◌else◌, ◌==◌, update, update_self, update_ne, Bool-cases, trichotomy, ==→eq,
}
use native.Mathlib.Nat.{mod-lt}
use cybou_db.Cache.Table.{Slot}
use cybou_db.Cache.Get.{clock_walk}

weight : Slot → ℕ
weight s = if s.referenced then 1 else 0

-- How many of the first `n` ways have been referenced.
count_referenced : (ℕ → Slot) → ℕ → ℕ → ℕ
count_referenced slots base zero = 0
count_referenced slots base (suc n) = weight (slots (base + n)) + count_referenced slots base n

count_referenced-le : (slots : ℕ → Slot) (base n : ℕ) → count_referenced slots base n ≤ n
unfolding count_referenced weight
count_referenced-le slots base zero = omega arith
count_referenced-le slots base (suc n) = ground (arith, count_referenced-le slots base n)

abbrev clear : Slot → Slot
clear s = record s { referenced = false }

abbrev cleared : (ℕ → Slot) → ℕ → ℕ → ℕ → Slot
cleared slots base v = update slots (base + v) (clear (slots (base + v)))

count_outside :
    (slots : ℕ → Slot) (base n v : ℕ)
    → n ≤ v
    → count_referenced (cleared slots base v) base n ≡ count_referenced slots base n
unfolding count_referenced
count_outside slots base zero v h = refl
count_outside slots base (suc n) v h =
    rw (update_ne slots (base + v) (base + n) (clear (slots (base + v))) (omega arith))
      (ap (λ (t : ℕ). weight (slots (base + n)) + t) (count_outside slots base n v (omega arith)))

count_cleared :
    (slots : ℕ → Slot) (base n v : ℕ)
    → v < n
    → (slots (base + v)).referenced ≡ true
    → count_referenced (cleared slots base v) base n + 1 ≡ count_referenced slots base n
unfolding count_referenced
count_cleared slots base zero v h r = absurd (omega arith)
count_cleared slots base (suc n) v h r = elim (trichotomy v n) [
  | inl lt ↦ omega (
    arith,
    count_cleared slots base n v lt r,
    ap weight (update_ne slots (base + v) (base + n) (clear (slots (base + v))) (omega arith)),
  )
  | inr (inl e) ↦ omega (
    arith,
    count_outside slots base n v (omega arith),
    ap weight (
        ap (cleared slots base v) (ap (λ (t : ℕ). base + t) (sym e))
        ∙ update_self slots (base + v) (clear (slots (base + v)))),
    ap (λ (t : ℕ). weight (slots (base + t))) (sym e),
    light (clear (slots (base + v))) refl,
    heavy (slots (base + v)) r,
  )
  | inr (inr gt) ↦ absurd (omega arith)
]
  where
    light : (s : Slot) → s.referenced ≡ false → weight s ≡ 0
    light s e = unfold weight in rw e

    heavy : (s : Slot) → s.referenced ≡ true → weight s ≡ 1
    heavy s e = unfold weight in rw e

-- What the hand leaves of a slot.
pub record Kept (s s' : Slot) : Type 0 where
  pub page_same : s'.page ≡ s.page
  pub stamp_same : s'.stamp ≡ s.stamp
  pub resident_same : s'.resident ≡ s.resident

Kept-clear : (slots : ℕ → Slot) (k j : ℕ) → Kept (slots j) (update slots k (clear (slots k)) j)
Kept-clear slots k j = elim (Bool-cases (j == k)) [
  | inl h ↦
      let e = ==→eq j k h in
      rw (h, e) (record { page_same = refl; stamp_same = refl; resident_same = refl })
  | inr h ↦ rw h (record { page_same = refl; stamp_same = refl; resident_same = refl })
]

pub record Stopped (slots : ℕ → Slot) (ways base : ℕ) (r : (ℕ → Slot) × ℕ) : Type 0 where
  pub in_set : r.1 < ways
  pub untouched : (r.0 (base + r.1)).referenced ≡ false
  pub kept : (j : ℕ) → Kept (slots j) (r.0 j)

clock_walk-Stopped :
    (fuel ways base : ℕ) (slots : ℕ → Slot) (v : ℕ)
    → v < ways
    → count_referenced slots base ways < fuel
    → Stopped slots ways base (clock_walk fuel ways base slots v)
unfolding clock_walk
clock_walk-Stopped zero ways base slots v h f = absurd (omega arith)
clock_walk-Stopped (suc fuel) ways base slots v h f =
    elim (Bool-cases (slots (base + v)).referenced) [
      | inl e ↦
          rw (e, clock_walk)
            (further (
              clock_walk-Stopped fuel ways base (cleared slots base v) (u32 (v + 1) % ways)
                (mod-lt (u32 (v + 1)) (omega arith))
                (omega (arith, count_cleared slots base ways v h e))))
      | inr e ↦
          rw (e, clock_walk)
            (record {
              in_set = h;
              untouched = e;
              kept = λ j. record { page_same = refl; stamp_same = refl; resident_same = refl };
            })
    ]
  where
    further :
        {r : (ℕ → Slot) × ℕ}
        → Stopped (cleared slots base v) ways base r
        → Stopped slots ways base r
    further s = record {
      in_set = s.in_set;
      untouched = s.untouched;
      kept = λ j.
          let a = Kept-clear slots (base + v) j in
          let b = s.kept j in
          record {
            page_same = b.page_same ∙ a.page_same;
            stamp_same = b.stamp_same ∙ a.stamp_same;
            resident_same = b.resident_same ∙ a.resident_same;
          };
    }

-- `ways + 1` rounds always reach an untouched slot.
pub clock_walk_stops :
    (ways base : ℕ) (slots : ℕ → Slot) (v : ℕ)
    → v < ways
    → Stopped slots ways base (clock_walk (ways + 1) ways base slots v)
clock_walk_stops ways base slots v h =
    clock_walk-Stopped (ways + 1) ways base slots v h
      (omega (arith, count_referenced-le slots base ways))
