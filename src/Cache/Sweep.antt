-- ===== src/Cache/Sweep.antt =====
-- The probation policy: pages that are touched once push out each other, and not the working set.
use cybou_db.Prelude.{
  ℕ, suc, ◌+◌, ◌*◌, ◌≤◌, ◌<◌, ◌≡◌, ◌≢◌, ◌⊎◌, inl, inr, refl, sym, ap, ◌∙◌, subst, Option, none,
  some, true, false, arith, u64, u64_max, ◌==◌, Bool-cases, ==→eq, FirstIn,
}
use mathlib.Core.List.{List, [], ◌∷◌}
use cybou_db.Cache.Table.{Slot, Cache, Policy, policy_probation, empty}
use cybou_db.Cache.Get.{
  probationary, lru_victim, probation_victim, evict, make_room, place, miss, answer, cache_get,
}
use cybou_db.Cache.Loops.{Holds, find_page-FirstIn, Oldest, oldest_way-Oldest}
use cybou_db.Cache.Valid.{home}
use cybou_db.Cache.Answers.{tick}

-- The cache after a sequence of lookups.
unfoldable pub sweep : Cache → List ℕ → Cache
sweep c [] = c
sweep c (page ∷ pages) = sweep (cache_get c page).1 pages

-- Each lookup of the sequence is a miss, and none asks for the mark of an empty slot.
unfoldable pub AllMiss : Cache → List ℕ → Type 0
AllMiss c [] = Unit
AllMiss c (page ∷ pages) =
    (page ≢ empty) × ((cache_get c page).0 ≡ false) × AllMiss (cache_get c page).1 pages

unfoldable pub lookups : List ℕ → ℕ
lookups [] = 0
lookups (page ∷ pages) = suc (lookups pages)

-- Every set has a way in probation, and `n` lookups do not bring the clock to its last value.
pub record Spared (n : ℕ) (c : Cache) : Type 0 where
  pub probation : c.policy ≡ policy_probation
  pub spare : (set : ℕ) → (i : ℕ) × (i < c.ways) × ((c.slots (set * c.ways + i)).resident ≡ false)
  pub blank : (j : ℕ) → (c.slots j).page ≡ empty → (c.slots j).resident ≡ false
  pub stamped : (j : ℕ) → (c.slots j).stamp ≤ c.clock
  pub early : c.clock + n < u64_max

-- The way that is given up is in probation.
abbrev GivesUp : Cache → ℕ → Cache × ℕ → Type 0
GivesUp c base r = (v : ℕ) × (r ≡ (c, v)) × ((c.slots (base + v)).resident ≡ false)

in_probation : (s : Slot) → probationary s ≡ true → s.resident ≡ false
in_probation s h = elim (Bool-cases s.resident) [ inl e ↦ absurd (ground arith) | inr e ↦ e ]

probation_gives :
    (c : Cache) (base j m : ℕ) {o : Option ℕ}
    → Oldest probationary c.slots base c.ways 0 m none o
    → j < c.ways
    → (c.slots (base + j)).resident ≡ false
    → (c.slots (base + j)).stamp < m
    → (c.slots (base + probation_victim o (lru_victim c base))).resident ≡ false
unfolding probation_victim
probation_gives c base j m (inl (e, all)) b r s =
    absurd (omega (arith, all j (omega arith) (omega arith) (rw r refl)))
probation_gives c base j m (inr (v, e, p, q, cv, s, all)) b r t =
    rw e (in_probation (c.slots (base + v)) cv)

room_gives :
    (c : Cache) (set base j : ℕ) (o : Option ℕ)
    → c.policy ≡ policy_probation
    → FirstIn (Holds c.slots base empty) 0 c.ways o
    → ((k : ℕ) → (c.slots k).page ≡ empty → (c.slots k).resident ≡ false)
    → j < c.ways
    → (c.slots (base + j)).resident ≡ false
    → (c.slots (base + j)).stamp < u64_max
    → GivesUp c base (make_room c set base o)
unfolding make_room evict
room_gives c set base j none pol f blank b r s =
    subst (λ (p : Policy). GivesUp c base (evict p c set base)) (sym pol)
      (
        _,
        refl,
        probation_gives c base j u64_max
            (oldest_way-Oldest probationary c.slots base c.ways 0 u64_max none) b r s,
      )
room_gives c set base j (some i) pol f blank b r s = (i, refl, blank (base + i) f.2)

-- A slot is as it was, or it was in probation and is so again.
abbrev pub Spares : Cache → Cache → Type 0
Spares c d =
    (j : ℕ)
    → (d.slots j ≡ c.slots j)
      ⊎ (((c.slots j).resident ≡ false)
          × ((d.slots j).resident ≡ false)
          × ((d.slots j).stamp ≡ c.clock)
          × ((d.slots j).page ≢ empty))

-- What a miss leaves of the cache.
pub record Missed (c d : Cache) : Type 0 where
  pub spares : Spares c d
  pub policy_same : d.policy ≡ c.policy
  pub ways_same : d.ways ≡ c.ways
  pub clock_same : d.clock ≡ c.clock

place-Missed :
    (c : Cache) (base page : ℕ) (r : Cache × ℕ)
    → page ≢ empty
    → GivesUp c base r
    → Missed c (place base page r)
unfolding place
place-Missed c base page r ne (v, e, gone) = rw e (record {
  spares = λ j. elim (Bool-cases (j == base + v)) [
    | inl h ↦ let same = ==→eq j (base + v) h in inr (rw (h, same) (gone, refl, refl, ne))
    | inr h ↦ inl (rw h refl)
  ];
  policy_same = refl;
  ways_same = refl;
  clock_same = refl;
})

answer-Missed :
    (n : ℕ) (c : Cache) (page : ℕ) (o : Option ℕ)
    → Spared n c
    → page ≢ empty
    → (answer c (home c page) (home c page * c.ways) page o).0 ≡ false
    → Missed c (answer c (home c page) (home c page * c.ways) page o).1
unfolding answer miss
answer-Missed n c page none k ne e =
    let (j, b, r) = k.spare (home c page) in
    let base = home c page * c.ways in
    let m = record c { misses = u64 (c.misses + 1) } in
    let d = place-Missed m base page _ ne (
      room_gives m (home c page) base j _ k.probation
        (find_page-FirstIn c.slots base empty c.ways 0 c.ways (omega arith)) k.blank b r
        (omega (arith, k.stamped (base + j), k.early))) in
    record {
      spares = d.spares;
      policy_same = d.policy_same;
      ways_same = d.ways_same;
      clock_same = d.clock_same;
    }
answer-Missed n c page (some i) k ne e = absurd (ground arith)

u64_next : (a : ℕ) → a < u64_max → u64 (a + 1) ≡ a + 1
u64_next a h = omega arith

tick-Spared : (n : ℕ) (c : Cache) → Spared (suc n) c → Spared n (tick c)
tick-Spared n c k =
    let next = u64_next c.clock (omega (arith, k.early)) in
    record {
      probation = k.probation;
      spare = k.spare;
      blank = k.blank;
      stamped = λ j. omega (arith, next, k.stamped j);
      early = omega (arith, next, k.early);
    }

Missed-Spared : (n : ℕ) (c d : Cache) → Spared n c → Missed c d → Spared n d
Missed-Spared n c d k m = record {
  probation = m.policy_same ∙ k.probation;
  spare = λ set.
      let (i, b, r) = k.spare set in
      (
        i,
        omega (arith, m.ways_same),
        ap (λ (w : ℕ). (d.slots (set * w + i)).resident) m.ways_same ∙ stays (set * c.ways + i) r,
      );
  blank = λ j e. elim (m.spares j) [
    | inl s ↦ ap (λ (x : Slot). x.resident) s ∙ k.blank j (sym (ap (λ (x : Slot). x.page) s) ∙ e)
    | inr (a, r, t, ne) ↦ r
  ];
  stamped = λ j. elim (m.spares j) [
    | inl s ↦ omega (arith, ap (λ (x : Slot). x.stamp) s, k.stamped j, m.clock_same)
    | inr (a, r, t, ne) ↦ omega (arith, t, m.clock_same)
  ];
  early = omega (arith, m.clock_same, k.early);
}
  where
    stays : (j : ℕ) → (c.slots j).resident ≡ false → (d.slots j).resident ≡ false
    stays j r = elim (m.spares j) [
      | inl s ↦ ap (λ (x : Slot). x.resident) s ∙ r
      | inr (a, b, t, ne) ↦ b
    ]

cache_get-Missed :
    (n : ℕ) (c : Cache) (page : ℕ)
    → Spared (suc n) c
    → page ≢ empty
    → (cache_get c page).0 ≡ false
    → Missed (tick c) (cache_get c page).1
unfolding cache_get
cache_get-Missed n c page k ne e = answer-Missed n (tick c) page _ (tick-Spared n c k) ne e

-- Under the probation policy, a sequence of lookups that are all misses leaves every resident slot as
-- it was, provided that at the start each set has a way in probation, empty slots are in probation,
-- no stamp is above the clock and the clock stays below UINT64_MAX.
pub sweep_spares_residents :
    (c : Cache) (pages : List ℕ)
    → Spared (lookups pages) c
    → AllMiss c pages
    → (j : ℕ) → (c.slots j).resident ≡ true
    → (sweep c pages).slots j ≡ c.slots j
unfolding sweep AllMiss lookups
sweep_spares_residents c [] k all j r = refl
sweep_spares_residents c (page ∷ pages) k (ne, e, all) j r =
    let m = cache_get-Missed (lookups pages) c page k ne e in
    elim (m.spares j) [
      | inl s ↦
          sweep_spares_residents (cache_get c page).1 pages
            (Missed-Spared (lookups pages) (tick c) _ (tick-Spared (lookups pages) c k) m) all j
            (ap (λ (x : Slot). x.resident) s ∙ r)
          ∙ s
      | inr (a, b, t, f) ↦ absurd (ground arith)
    ]
