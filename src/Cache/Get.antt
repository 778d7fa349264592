-- ===== src/Cache/Get.antt =====
-- `cache_get`: the lookup, the choice of a victim under each policy, and the placement.
use cybou_db.Prelude.{
  ℕ, zero, suc, ◌+◌, ◌*◌, ◌%◌, Option, none, some, Bool, true, false, not, ◌&&◌, if◌then◌else◌, ltb,
  ◌==◌, u32, u64, u64_max, update,
}
use cybou_db.Cache.Table.{
  Slot, Cache, Policy, policy_clock, policy_lru, policy_probation, empty, index_of,
}

-- The first of `n` ways from `i` on whose slot holds `page`.
unfoldable pub find_page : (ℕ → Slot) → ℕ → ℕ → ℕ → ℕ → Option ℕ
find_page slots base page zero i = none
find_page slots base page (suc n) i =
    let rest = find_page slots base page n (i + 1) in
    if (slots (base + i)).page == page then some i else rest

-- The oldest of the ways that `chosen` admits: `if (chosen && stamp < oldest)`.
unfoldable pub oldest_way : (Slot → Bool) → (ℕ → Slot) → ℕ → ℕ → ℕ → ℕ → Option ℕ → Option ℕ
oldest_way chosen slots base zero i oldest victim = victim
oldest_way chosen slots base (suc n) i oldest victim =
    let s = slots (base + i) in
    let better = chosen s && ltb s.stamp oldest in
    oldest_way chosen slots base n (i + 1) (if better then s.stamp else oldest)
      (if better then some i else victim)

-- The clock hand: a referenced slot gets a second chance. `ways + 1` rounds are enough.
unfoldable pub clock_walk : ℕ → ℕ → ℕ → (ℕ → Slot) → ℕ → (ℕ → Slot) × ℕ
clock_walk zero ways base slots victim = (slots, victim)
clock_walk (suc fuel) ways base slots victim = elim (slots (base + victim)).referenced [
  | false ↦ (slots, victim)
  | true ↦
      clock_walk fuel ways base
        (update slots (base + victim) (record (slots (base + victim)) { referenced = false }))
        (u32 (victim + 1) % ways)
]

-- `victim = 0` stands where no way was chosen.
unfoldable pub or_first : Option ℕ → ℕ
or_first none = 0
or_first (some i) = i

abbrev pub any_slot : Slot → Bool
any_slot s = true

abbrev pub probationary : Slot → Bool
probationary s = not s.resident

unfoldable pub lru_victim : Cache → ℕ → ℕ
lru_victim c base = or_first (oldest_way any_slot c.slots base c.ways 0 u64_max none)

-- A page that was touched once is the first to go; without one, the oldest goes.
unfoldable pub probation_victim : Option ℕ → ℕ → ℕ
probation_victim none oldest = oldest
probation_victim (some i) oldest = i

-- The cache after the policy has chosen, and the way that it chose.
unfoldable pub evict : Policy → Cache → ℕ → ℕ → Cache × ℕ
evict policy_lru c set base = (c, lru_victim c base)
evict policy_clock c set base =
    let (slots, victim) = clock_walk (c.ways + 1) c.ways base c.slots (c.hand set) in
    (record c { slots = slots; hand = update c.hand set (u32 (victim + 1) % c.ways) }, victim)
evict policy_probation c set base = (
  c,
  probation_victim (oldest_way probationary c.slots base c.ways 0 u64_max none) (lru_victim c base),
)

-- The new page is probationary until it is touched again.
unfoldable pub place : ℕ → ℕ → Cache × ℕ → Cache
place base page (c, victim) = record c {
  slots =
      update c.slots (base + victim)
        (record { page = page; stamp = c.clock; referenced = false; resident = false });
}

-- An empty way first, whatever the policy.
unfoldable pub make_room : Cache → ℕ → ℕ → Option ℕ → Cache × ℕ
make_room c set base none = evict c.policy c set base
make_room c set base (some i) = (c, i)

-- A second touch promotes the page.
unfoldable pub touch : Cache → ℕ → ℕ → Cache
touch c base i = record c {
  slots =
      update c.slots (base + i)
        (record (c.slots (base + i)) { stamp = c.clock; referenced = true; resident = true });
  hits = u64 (c.hits + 1);
}

unfoldable pub miss : Cache → ℕ → ℕ → ℕ → Cache
miss c set base page =
    let m = record c { misses = u64 (c.misses + 1) } in
    place base page (make_room m set base (find_page m.slots base empty m.ways 0))

unfoldable pub answer : Cache → ℕ → ℕ → ℕ → Option ℕ → Bool × Cache
answer c set base page none = (false, miss c set base page)
answer c set base page (some i) = (true, touch c base i)

-- True on a hit. The scan hint of the source is not read.
unfoldable pub cache_get : Cache → ℕ → Bool × Cache
cache_get c page =
    let set = index_of c.hash page c.sets in
    let base = set * c.ways in
    let ticked = record c { clock = u64 (c.clock + 1) } in
    answer ticked set base page (find_page ticked.slots base page ticked.ways 0)
