-- ===== src/Cache/Answers.antt =====
-- What `cache_get` answers, and which pages the cache holds after it.
use cybou_db.Prelude.{
  ℕ, ◌+◌, ◌*◌, ◌<◌, ◌≡◌, ◌≢◌, ◌⊎◌, ◌↔◌, inl, inr, refl, sym, ap, ◌∙◌, subst, Option, none, some,
  true, false, arith, u64, ◌==◌, update_self, ◌/◌, ◌^◌, Bool-cases, FirstIn,
}
use cybou_db.Cache.Table.{Hash, Policy, Cache, empty, capacity, cache_init}
use cybou_db.Cache.Get.{find_page, make_room, place, touch, miss, answer, cache_get}
use cybou_db.Cache.Loops.{Holds, find_page-FirstIn}
use cybou_db.Cache.Valid.{
  page_in, home, IsCache, Room, make_room-Room, place-IsCache, place-page, touch-page, IsCache-same,
}

-- `page` lies in a way of its own set.
abbrev pub Present : Cache → ℕ → Type 0
Present c page = (i : ℕ) × (i < c.ways) × (page_in c (home c page) i ≡ page)

abbrev pub tick : Cache → Cache
tick c = record c { clock = u64 (c.clock + 1) }

tick-IsCache : (c : Cache) → IsCache c → IsCache (tick c)
tick-IsCache c k = IsCache-same c c.slots c.hand _ c.hits c.misses k (λ j. refl) k.hand_lt

Room-placed :
    (c : Cache) (page : ℕ) (r : Cache × ℕ)
    → Room c r
    → page ≢ empty
    → ((i : ℕ) → i < c.ways → page_in c (home c page) i ≢ page)
    → IsCache (place (home c page * c.ways) page r)
Room-placed c page (d, v) m ne absent =
    subst (λ (b : ℕ). IsCache (place b page (d, v)))
      (ap (λ (t : ℕ). t * d.ways) (m.home_same page) ∙ ap (λ (w : ℕ). home c page * w) m.ways_same)
      (place-IsCache d v page m.valid m.in_set ne (λ i b e. absent i (omega (arith, m.ways_same)) (
        sym (m.pages_same (home c page) i)
        ∙ ap (λ (t : ℕ). page_in d t i) (sym (m.home_same page))
        ∙ e)))

abbrev counted : Cache → Cache
counted c = record c { misses = u64 (c.misses + 1) }

miss-Room :
    (c : Cache) (page : ℕ)
    → IsCache c
    → Room (counted c) (
        make_room
          (counted c)
          (home c page)
          (home c page * c.ways)
          (find_page c.slots (home c page * c.ways) empty c.ways 0))
miss-Room c page k =
    make_room-Room (counted c) (home c page) (home c page * c.ways) _
      (IsCache-same c c.slots c.hand c.clock c.hits _ k (λ j. refl) k.hand_lt)
      (find_page-FirstIn c.slots (home c page * c.ways) empty c.ways 0 c.ways (omega arith))

answer-IsCache :
    (c : Cache) (page : ℕ) (o : Option ℕ)
    → IsCache c
    → page ≢ empty
    → FirstIn (Holds c.slots (home c page * c.ways) page) 0 c.ways o
    → IsCache (answer c (home c page) (home c page * c.ways) page o).1
unfolding answer miss touch
answer-IsCache c page none k ne f =
    Room-placed (counted c) page _ (miss-Room c page k) ne (λ i b. f i (omega arith) b)
answer-IsCache c page (some i) k ne f =
    IsCache-same c _ c.hand c.clock (u64 (c.hits + 1)) c.misses k
      (touch-page c (home c page * c.ways) i) k.hand_lt

found :
    (c : Cache) (page : ℕ)
    → FirstIn
        (Holds c.slots (home c page * c.ways) page)
        0
        c.ways
        (find_page c.slots (home c page * c.ways) page c.ways 0)
found c page = find_page-FirstIn c.slots (home c page * c.ways) page c.ways 0 c.ways (omega arith)

-- A lookup of a page number other than the mark of an empty slot keeps the cache well formed.
pub cache_get-IsCache :
    (c : Cache) (page : ℕ) → IsCache c → page ≢ empty → IsCache (cache_get c page).1
unfolding cache_get
cache_get-IsCache c page k ne =
    answer-IsCache (tick c) page _ (tick-IsCache c k) ne (found (tick c) page)

answer_hit :
    (c : Cache) (page : ℕ) (o : Option ℕ)
    → FirstIn (Holds c.slots (home c page * c.ways) page) 0 c.ways o
    → ((answer c (home c page) (home c page * c.ways) page o).0 ≡ true) ↔ Present c page
unfolding answer
answer_hit c page none f =
    (λ (e : false ≡ true). absurd (ground arith), λ (i, b, h). absurd (f i (omega arith) b h))
answer_hit c page (some i) f = (λ e. (i, f.1, f.2), λ p. refl)

-- A lookup is a hit exactly when the page lies in its own set.
pub cache_get_hit_iff : (c : Cache) (page : ℕ) → ((cache_get c page).0 ≡ true) ↔ Present c page
unfolding cache_get
cache_get_hit_iff c page = answer_hit (tick c) page _ (found (tick c) page)

-- One way of the page's own set changes at most, and it takes the page.
place_pages :
    (c : Cache) (base page : ℕ) (r : Cache × ℕ) (j : ℕ)
    → (((place base page r).slots j).page ≡ (r.0.slots j).page)
      ⊎ (((place base page r).slots j).page ≡ page)
place_pages c base page (d, v) j = elim (Bool-cases (j == base + v)) [
  | inl h ↦ inr (place-page d base v page j ∙ rw h refl)
  | inr h ↦ inl (place-page d base v page j ∙ rw h refl)
]

abbrev pub FromOrNew : Cache → ℕ → Cache → Type 0
FromOrNew c page d = (set i : ℕ) → (page_in d set i ≡ page_in c set i) ⊎ (page_in d set i ≡ page)

answer_pages :
    (c : Cache) (page : ℕ) (o : Option ℕ)
    → IsCache c
    → FirstIn (Holds c.slots (home c page * c.ways) page) 0 c.ways o
    → Present (answer c (home c page) (home c page * c.ways) page o).1 page
      × FromOrNew c page (answer c (home c page) (home c page * c.ways) page o).1
unfolding answer miss touch place
answer_pages c page (some i) k f = (
  (i, f.1, touch-page c (home c page * c.ways) i (home c page * c.ways + i) ∙ f.2),
  λ set j. inl (touch-page c (home c page * c.ways) i (set * c.ways + j)),
)
answer_pages c page none k f = placed _ (miss-Room c page k)
  where
    placed :
        (r : Cache × ℕ)
        → Room (counted c) r
        → Present (place (home c page * c.ways) page r) page
          × FromOrNew c page (place (home c page * c.ways) page r)
    placed (d, v) m =
        let base = home c page * c.ways in
        (
          (
            v,
            m.in_set,
            ap (λ (b : ℕ). ((place base page (d, v)).slots (b + v)).page)
                  (ap (λ (t : ℕ). t * d.ways) (m.home_same page)
                    ∙ ap (λ (w : ℕ). home c page * w) m.ways_same)
                ∙ place-page d base v page (base + v)
                ∙ update_self (λ (n : ℕ). (d.slots n).page) (base + v) page,
          ),
          λ set i. elim (place_pages c base page (d, v) (set * d.ways + i)) [
            | inl e ↦ inl (e ∙ m.pages_same set i)
            | inr e ↦ inr e
          ],
        )

-- After a lookup the page lies in its own set, and no slot holds a page other than the one it held
-- or the one that was asked for.
pub cache_get_pages :
    (c : Cache) (page : ℕ)
    → IsCache c
    → Present (cache_get c page).1 page × FromOrNew c page (cache_get c page).1
unfolding cache_get
cache_get_pages c page k = answer_pages (tick c) page _ (tick-IsCache c k) (found (tick c) page)

-- The empty cache of 2 ^ k sets is well formed.
pub cache_init-IsCache :
    (ways k : ℕ) (hash : Hash) (policy : Policy)
    → 0 < ways
    → capacity / ways ≡ 2 ^ k
    → IsCache (cache_init ways hash policy)
unfolding cache_init
cache_init-IsCache ways k hash policy p e = record {
  width = k;
  sets_pow = e;
  ways_pos = p;
  hand_lt = λ set. p;
  own = λ set i a b ne. absurd (ne refl);
  once = λ set i j a b d ne f. absurd (ne refl);
}
