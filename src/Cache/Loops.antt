-- ===== src/Cache/Loops.antt =====
-- What the loops of `cache_get` over the ways of a set answer.
use cybou_db.Prelude.{
  ℕ, zero, suc, ◌+◌, ◌≤◌, ◌<◌, ◌≡◌, ◌⊎◌, inl, inr, refl, Option, some, Bool, true, false, ◌&&◌,
  arith, ltb, ◌==◌, Bool-cases, trichotomy, ==→eq, ==→ne, ltb→lt, subst, FirstIn, FirstIn-here,
  FirstIn-next, FirstIn-nothing, and_true,
}
use cybou_db.Cache.Table.{Slot}
use cybou_db.Cache.Get.{find_page, oldest_way}

-- The way `i` of the set at `base` holds `page`.
abbrev pub Holds : (ℕ → Slot) → ℕ → ℕ → ℕ → Type 0
Holds slots base page i = (slots (base + i)).page ≡ page

pub find_page-FirstIn :
    (slots : ℕ → Slot) (base page n i hi : ℕ)
    → i + n ≡ hi
    → FirstIn (Holds slots base page) i hi (find_page slots base page n i)
unfolding find_page
find_page-FirstIn slots base page zero i hi e = FirstIn-nothing _ i hi (omega arith)
find_page-FirstIn slots base page (suc n) i hi e =
    elim (Bool-cases ((slots (base + i)).page == page)) [
      | inl h ↦ rw h (FirstIn-here (Holds slots base page) i hi (omega arith) (==→eq _ page h))
      | inr h ↦ rw h (
          FirstIn-next (Holds slots base page) i hi _ (==→ne _ page h)
            (find_page-FirstIn slots base page n (i + 1) hi (omega arith)))
    ]

module _ (chosen : Slot → Bool) (slots : ℕ → Slot) (base : ℕ) where
  -- Either no way beats what there was, or the answer is a chosen way with the least stamp.
  abbrev pub Oldest : ℕ → ℕ → ℕ → Option ℕ → Option ℕ → Type 0
  Oldest n i oldest victim r =
      ((r ≡ victim)
        × ((j : ℕ)
            → i ≤ j
            → j < i + n
            → chosen (slots (base + j)) ≡ true
            → oldest ≤ (slots (base + j)).stamp))
      ⊎ ((v : ℕ) × (r ≡ some v)
          × (i ≤ v)
          × (v < i + n)
          × (chosen (slots (base + v)) ≡ true)
          × ((slots (base + v)).stamp < oldest)
          × ((j : ℕ)
              → i ≤ j
              → j < i + n
              → chosen (slots (base + j)) ≡ true
              → (slots (base + v)).stamp ≤ (slots (base + j)).stamp))

  pub oldest_way-Oldest :
      (n i oldest : ℕ) (victim : Option ℕ)
      → Oldest n i oldest victim (oldest_way chosen slots base n i oldest victim)
  unfolding oldest_way
  oldest_way-Oldest zero i oldest victim = inl (refl, λ j p q. absurd (omega arith))
  oldest_way-Oldest (suc n) i oldest victim =
      elim (Bool-cases (chosen (slots (base + i)) && ltb (slots (base + i)).stamp oldest)) [
        | inl h ↦
            let (c, l) = and_true _ _ h in
            rw h (
              beats c (ltb→lt _ oldest l)
                (oldest_way-Oldest n (i + 1) (slots (base + i)).stamp (some i)))
        | inr h ↦ rw h (loses h (oldest_way-Oldest n (i + 1) oldest victim))
      ]
    where
      at_first :
          (P : ℕ → Type 0)
          → P i
          → ((j : ℕ) → i + 1 ≤ j → j < i + 1 + n → P j)
          → (j : ℕ) → i ≤ j
          → j < i + suc n
          → P j
      at_first P here later j p q = elim (trichotomy i j) [
        | inl lt ↦ later j (omega arith) (omega arith)
        | inr (inl e) ↦ subst P e here
        | inr (inr gt) ↦ absurd (omega arith)
      ]

      beats :
          {r : Option ℕ}
          → chosen (slots (base + i)) ≡ true
          → (slots (base + i)).stamp < oldest
          → Oldest n (i + 1) (slots (base + i)).stamp (some i) r
          → Oldest (suc n) i oldest victim r
      beats c l (inl (e, all)) = inr (
        i,
        e,
        omega arith,
        omega arith,
        c,
        l,
        at_first
            (λ j.
              chosen (slots (base + j)) ≡ true
              → (slots (base + i)).stamp ≤ (slots (base + j)).stamp)
            (λ _. omega arith) all,
      )
      beats c l (inr (v, e, p, q, cv, s, all)) = inr (
        v,
        e,
        omega arith,
        omega arith,
        cv,
        omega arith,
        at_first
            (λ j.
              chosen (slots (base + j)) ≡ true
              → (slots (base + v)).stamp ≤ (slots (base + j)).stamp)
            (λ _. omega arith) all,
      )

      loses :
          {r : Option ℕ}
          → (chosen (slots (base + i)) && ltb (slots (base + i)).stamp oldest) ≡ false
          → Oldest n (i + 1) oldest victim r
          → Oldest (suc n) i oldest victim r
      loses h (inl (e, all)) = inl (
        e,
        at_first (λ j. chosen (slots (base + j)) ≡ true → oldest ≤ (slots (base + j)).stamp)
            (λ c. ground arith) all,
      )
      loses h (inr (v, e, p, q, cv, s, all)) = inr (
        v,
        e,
        omega arith,
        omega arith,
        cv,
        omega arith,
        at_first
            (λ j.
              chosen (slots (base + j)) ≡ true
              → (slots (base + v)).stamp ≤ (slots (base + j)).stamp)
            (λ c. ground arith) all,
      )
