-- ===== src/Cache/Valid.antt =====
-- The page cache stays well formed: each page lies in its own set, and in one way of it.
use cybou_db.Prelude.{
  ℕ, ◌+◌, ◌-◌, ◌*◌, ◌%◌, ◌^◌, ◌<◌, ◌≡◌, ◌≢◌, ◌⊎◌, inl, inr, refl, sym, ap, ◌∙◌, Option, none, some,
  Bool, true, false, arith, ◌==◌, u32, u64_max, bit_and, bit_and_mask, update, Bool-cases,
  trichotomy, ==→eq, FirstIn,
}
use native.Mathlib.Nat.{mod-lt, mul-le-mul_right, one-le-pow}
use cybou_db.Cache.Table.{
  Hash, hash_low, hash_mix, Policy, policy_clock, policy_lru, policy_probation, Slot, Cache, empty,
  index_of,
}
use cybou_db.Cache.Get.{
  or_first, any_slot, probationary, lru_victim, probation_victim, evict, place, make_room, touch,
}
use cybou_db.Cache.Loops.{Holds, Oldest, oldest_way-Oldest}
use cybou_db.Cache.Hand.{clock_walk_stops}

abbrev pub page_in : Cache → ℕ → ℕ → ℕ
page_in c set i = (c.slots (set * c.ways + i)).page

abbrev pub home : Cache → ℕ → ℕ
home c page = index_of c.hash page c.sets

pub record IsCache (c : Cache) : Type 0 where
  pub width : ℕ
  pub sets_pow : c.sets ≡ 2 ^ width
  pub ways_pos : 0 < c.ways
  pub hand_lt : (set : ℕ) → c.hand set < c.ways
  pub own :
      (set i : ℕ)
      → set < c.sets
      → i < c.ways
      → page_in c set i ≢ empty
      → home c (page_in c set i) ≡ set
  pub once :
      (set i j : ℕ)
      → set < c.sets
      → i < c.ways
      → j < c.ways
      → page_in c set i ≢ empty
      → page_in c set i ≡ page_in c set j
      → i ≡ j

masked : (a sets k : ℕ) → sets ≡ 2 ^ k → bit_and a (sets - 1) < sets
masked a sets k e = rw (e, bit_and_mask) (mod-lt a (one-le-pow k 2 (omega arith)))

-- Both index functions stay below a number of sets that is a power of two.
pub index_of-lt : (h : Hash) (page sets k : ℕ) → sets ≡ 2 ^ k → index_of h page sets < sets
unfolding index_of
index_of-lt hash_low page sets k e = omega (arith, e, masked page sets k e)
index_of-lt hash_mix page sets k e = masked _ sets k e

-- Slots of two sets, or of two ways, are two slots.
flat_apart : (w s t i j : ℕ) → i < w → j < w → s * w + i ≡ t * w + j → (s ≡ t) × (i ≡ j)
flat_apart w s t i j p q e = elim (trichotomy s t) [
  | inl lt ↦ absurd (omega (arith, mul-le-mul_right {m = s + 1} {n = t} w (omega arith)))
  | inr (inl same) ↦ (same, omega (arith, ap (λ (n : ℕ). n * w) same))
  | inr (inr gt) ↦ absurd (omega (arith, mul-le-mul_right {m = t + 1} {n = s} w (omega arith)))
]

-- Only the pages of the slots matter to the invariant.
pub IsCache-same :
    (c : Cache) (slots : ℕ → Slot) (hand : ℕ → ℕ) (clock hits misses : ℕ)
    → IsCache c
    → ((j : ℕ) → (slots j).page ≡ (c.slots j).page)
    → ((set : ℕ) → hand set < c.ways)
    → IsCache (record c { slots = slots; hand = hand; clock = clock; hits = hits; misses = misses })
IsCache-same c slots hand clock hits misses v same hands = record {
  width = v.width;
  sets_pow = v.sets_pow;
  ways_pos = v.ways_pos;
  hand_lt = hands;
  own = λ set i a b ne.
      let e = same (set * c.ways + i) in ap (home c) e ∙ v.own set i a b (λ f. ne (e ∙ f));
  once = λ set i j a b d ne f.
      v.once set i j a b d (λ g. ne (same (set * c.ways + i) ∙ g))
        (sym (same (set * c.ways + i)) ∙ f ∙ same (set * c.ways + j));
}

pub place-page :
    (c : Cache) (base v page j : ℕ)
    → ((place base page (c, v)).slots j).page ≡ update (λ k. (c.slots k).page) (base + v) page j
unfolding place
place-page c base v page j = elim (Bool-cases (j == base + v)) [ inl h ↦ rw h | inr h ↦ rw h ]

-- A page that its set does not hold may take any way of it.
pub place-IsCache :
    (c : Cache) (v page : ℕ)
    → IsCache c
    → v < c.ways
    → page ≢ empty
    → ((i : ℕ) → i < c.ways → page_in c (home c page) i ≢ page)
    → IsCache (place (home c page * c.ways) page (c, v))
unfolding place
place-IsCache c v page k vw ne absent = record {
  width = k.width;
  sets_pow = k.sets_pow;
  ways_pos = k.ways_pos;
  hand_lt = k.hand_lt;
  own = λ set i a b full. elim (new_or_old set i b) [
    | inl (s, e, p) ↦ ap (home c) p ∙ sym s
    | inr p ↦ ap (home c) p ∙ k.own set i a b (λ f. full (p ∙ f))
  ];
  once = λ set i j a b d full same. elim (new_or_old set i b) [
    | inl (s, e, p) ↦ elim (new_or_old set j d) [
      | inl (s', e', p') ↦ e ∙ sym e'
      | inr p' ↦ absurd (absent j d (ap (λ (t : ℕ). page_in c t j) (sym s) ∙ sym p' ∙ sym same ∙ p))
    ]
    | inr p ↦ elim (new_or_old set j d) [
      | inl (s', e', p') ↦
          absurd (absent i b (ap (λ (t : ℕ). page_in c t i) (sym s') ∙ sym p ∙ same ∙ p'))
      | inr p' ↦ k.once set i j a b d (λ f. full (p ∙ f)) (sym p ∙ same ∙ p')
    ]
  ];
}
  where
    chosen : (f : ℕ → ℕ) (k j x : ℕ) → (j == k) ≡ true → update f k x j ≡ x
    chosen f k j x h = rw h

    other : (f : ℕ → ℕ) (k j x : ℕ) → (j == k) ≡ false → update f k x j ≡ f j
    other f k j x h = rw h

    -- A way holds the new page, or what it held before.
    new_or_old :
        (set i : ℕ)
        → i < c.ways
        → ((set ≡ home c page)
            × (i ≡ v)
            × (page_in (place (home c page * c.ways) page (c, v)) set i ≡ page))
          ⊎ (page_in (place (home c page * c.ways) page (c, v)) set i ≡ page_in c set i)
    new_or_old set i b =
        let q = place-page c (home c page * c.ways) v page (set * c.ways + i) in
        elim (Bool-cases (set * c.ways + i == home c page * c.ways + v)) [
          | inl h ↦
              let (s, e) = flat_apart c.ways set (home c page) i v b vw (==→eq _ _ h) in
              inl (s, e, q ∙ chosen (λ k. (c.slots k).page) _ _ page h)
          | inr h ↦ inr (q ∙ other (λ k. (c.slots k).page) _ _ page h)
        ]

-- What the choice of a way leaves: the same pages, in a cache of the same shape.
pub record Room (c : Cache) (r : Cache × ℕ) : Type 0 where
  pub valid : IsCache r.0
  pub in_set : r.1 < r.0.ways
  pub ways_same : r.0.ways ≡ c.ways
  pub pages_same : (set i : ℕ) → page_in r.0 set i ≡ page_in c set i
  pub home_same : (page : ℕ) → home r.0 page ≡ home c page

Room-same : (c : Cache) (v : ℕ) → IsCache c → v < c.ways → Room c (c, v)
Room-same c v k h = record {
  valid = k;
  in_set = h;
  ways_same = refl;
  pages_same = λ set i. refl;
  home_same = λ page. refl;
}

or_first-lt :
    (chosen : Slot → Bool) (slots : ℕ → Slot) (base w m : ℕ) {r : Option ℕ}
    → 0 < w
    → Oldest chosen slots base w 0 m none r
    → or_first r < w
unfolding or_first
or_first-lt chosen slots base w m p (inl (e, all)) = rw e p
or_first-lt chosen slots base w m p (inr (v, e, a, b, cv, s, all)) = rw e (omega arith)

lru_victim-lt : (c : Cache) (base : ℕ) → IsCache c → lru_victim c base < c.ways
unfolding lru_victim
lru_victim-lt c base k =
    or_first-lt any_slot c.slots base c.ways u64_max k.ways_pos
      (oldest_way-Oldest any_slot c.slots base c.ways 0 u64_max none)

probation_victim-lt :
    (c : Cache) (base m : ℕ) {r : Option ℕ}
    → IsCache c
    → Oldest probationary c.slots base c.ways 0 m none r
    → probation_victim r (lru_victim c base) < c.ways
unfolding probation_victim
probation_victim-lt c base m k (inl (e, all)) = rw e (lru_victim-lt c base k)
probation_victim-lt c base m k (inr (v, e, a, b, cv, s, all)) = rw e (omega arith)

hand_after :
    (c : Cache) (set v s : ℕ) → IsCache c → update c.hand set (u32 (v + 1) % c.ways) s < c.ways
hand_after c set v s k = elim (Bool-cases (s == set)) [
  | inl h ↦ rw h (mod-lt (u32 (v + 1)) k.ways_pos)
  | inr h ↦ rw h (k.hand_lt s)
]

evict-Room : (p : Policy) (c : Cache) (set base : ℕ) → IsCache c → Room c (evict p c set base)
unfolding evict
evict-Room policy_lru c set base k = Room-same c _ k (lru_victim-lt c base k)
evict-Room policy_probation c set base k = Room-same c _ k (
    probation_victim-lt c base u64_max k
      (oldest_way-Oldest probationary c.slots base c.ways 0 u64_max none))
evict-Room policy_clock c set base k =
    let s = clock_walk_stops c.ways base c.slots (c.hand set) (k.hand_lt set) in
    record {
      valid =
          IsCache-same c _ _ c.clock c.hits c.misses k (λ j. (s.kept j).page_same)
            (λ t. hand_after c set _ t k);
      in_set = s.in_set;
      ways_same = refl;
      pages_same = λ t i. (s.kept (t * c.ways + i)).page_same;
      home_same = λ page. refl;
    }

pub make_room-Room :
    (c : Cache) (set base : ℕ) (o : Option ℕ)
    → IsCache c
    → FirstIn (Holds c.slots base empty) 0 c.ways o
    → Room c (make_room c set base o)
unfolding make_room
make_room-Room c set base none k f = evict-Room c.policy c set base k
make_room-Room c set base (some i) k f = Room-same c i k (omega (arith, f))

-- The page of a slot that is touched stays.
pub touch-page : (c : Cache) (base i j : ℕ) → ((touch c base i).slots j).page ≡ (c.slots j).page
unfolding touch
touch-page c base i j = elim (Bool-cases (j == base + i)) [
  | inl h ↦ let e = ==→eq j (base + i) h in rw (h, e)
  | inr h ↦ rw h
]
