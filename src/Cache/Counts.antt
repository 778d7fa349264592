-- ===== src/Cache/Counts.antt =====
-- Every lookup of a workload is counted, and none asks for a page outside of the database.
use cybou_db.Prelude.{
  ℕ, zero, suc, ◌+◌, ◌%◌, ◌^◌, ◌≤◌, ◌<◌, ◌≡◌, inl, inr, refl, subst, Option, none, some, Bool, true,
  false, arith, u64, ◌==◌, Bool-cases,
}
use native.Mathlib.Nat.{mod-lt}
use cybou_db.Cache.Table.{Cache, Policy, policy_clock, policy_lru, policy_probation, empty}
use cybou_db.Cache.Get.{evict, place, make_room, touch, miss, answer, find_page, cache_get}
use cybou_db.Cache.Valid.{IsCache, IsCache-same}
use cybou_db.Cache.Answers.{cache_get-IsCache}
use cybou_db.Cache.Workload.{
  pages, Source, hot_page, uniform_page, run_page, Workload, w_uniform, w_hot, w_runs, w_scan_storm,
  next_page, Driver, point_query, count_point, lookup, run_lookups, start_workload,
}

next_page-lt : (w : Workload) (i : ℕ) (s : Source) → (next_page w i s).1 < pages
unfolding next_page point_query hot_page uniform_page run_page
next_page-lt w_uniform i s = mod-lt _ (omega arith)
next_page-lt w_hot i s = mod-lt _ (omega arith)
next_page-lt w_runs i s = mod-lt _ (omega arith)
next_page-lt w_scan_storm i s = elim (Bool-cases (i % 10 == 0)) [
  | inl h ↦ rw h (mod-lt _ (omega arith))
  | inr h ↦ rw h (mod-lt _ (omega arith))
]

-- The two counts of a cache, which the choice of a victim leaves.
abbrev SameCounts : Cache → Cache → Type 0
SameCounts c d = (d.hits ≡ c.hits) × (d.misses ≡ c.misses)

evict-SameCounts : (p : Policy) (c : Cache) (set base : ℕ) → SameCounts c (evict p c set base).0
unfolding evict
evict-SameCounts policy_clock c set base = (refl, refl)
evict-SameCounts policy_lru c set base = (refl, refl)
evict-SameCounts policy_probation c set base = (refl, refl)

make_room-SameCounts :
    (c : Cache) (set base : ℕ) (o : Option ℕ) → SameCounts c (make_room c set base o).0
unfolding make_room
make_room-SameCounts c set base none = evict-SameCounts c.policy c set base
make_room-SameCounts c set base (some i) = (refl, refl)

answer_counts :
    (c : Cache) (set base page : ℕ) (o : Option ℕ)
    → c.hits + c.misses + 1 < 2 ^ 64
    → let d = (answer c set base page o).1 in d.hits + d.misses ≡ c.hits + c.misses + 1
unfolding answer miss touch place
answer_counts c set base page none h =
    let m = record c { misses = u64 (c.misses + 1) } in
    omega (arith, make_room-SameCounts m set base (find_page c.slots base empty c.ways 0))
answer_counts c set base page (some i) h = omega arith

cache_get_counts :
    (c : Cache) (page : ℕ)
    → c.hits + c.misses + 1 < 2 ^ 64
    → let d = (cache_get c page).1 in d.hits + d.misses ≡ c.hits + c.misses + 1
unfolding cache_get
cache_get_counts c page h = answer_counts _ _ _ page _ h

-- The driver after `total` lookups.
pub record Counted (total : ℕ) (d : Driver) : Type 0 where
  pub valid : IsCache d.cache
  pub counted : d.cache.hits + d.cache.misses ≡ total
  pub points_le : d.point_hits ≤ d.point_total
  pub points_total : d.point_total ≤ total

count_point-Counted :
    (total : ℕ) (counts hit : Bool) (d : Driver)
    → total + 1 < 2 ^ 64
    → IsCache d.cache
    → d.cache.hits + d.cache.misses ≡ total + 1
    → d.point_hits ≤ d.point_total
    → d.point_total ≤ total
    → Counted (total + 1) (count_point counts hit d)
unfolding count_point
count_point-Counted total false hit d r k c a b = record {
  valid = k;
  counted = c;
  points_le = a;
  points_total = omega arith;
}
count_point-Counted total true false d r k c a b = record {
  valid = k;
  counted = c;
  points_le = omega arith;
  points_total = omega arith;
}
count_point-Counted total true true d r k c a b = record {
  valid = k;
  counted = c;
  points_le = omega arith;
  points_total = omega arith;
}

lookup-Counted :
    (total i : ℕ) (d : Driver) (is_scan : Bool) (page : ℕ) (s : Source)
    → total + 1 < 2 ^ 64
    → page < pages
    → Counted total d
    → Counted (total + 1) (lookup d i (is_scan, page, s))
unfolding lookup
lookup-Counted total i d is_scan page s r p k =
    count_point-Counted total _ _ _ r (cache_get-IsCache d.cache page k.valid (omega arith))
      (omega (arith, cache_get_counts d.cache page (omega (arith, k.counted)), k.counted))
      k.points_le k.points_total

run_lookups-Counted :
    (w : Workload) (n i total sum : ℕ) (d : Driver)
    → total + n ≡ sum
    → sum < 2 ^ 64
    → Counted total d
    → Counted sum (run_lookups w n i d)
unfolding run_lookups
run_lookups-Counted w zero i total sum d e r k = subst (λ (t : ℕ). Counted t d) (omega arith) k
run_lookups-Counted w (suc n) i total sum d e r k =
    run_lookups-Counted w n (i + 1) (total + 1) sum _ (omega arith) r
      (lookup-Counted total i d _ _ _ (omega arith) (next_page-lt w i d.source) k)

-- After fewer than 2 ^ 64 lookups of any workload over a well-formed cache, the cache is well formed,
-- its hits and misses add up to the number of lookups, and the counted point queries are no more
-- than the lookups and their hits no more than the point queries.
pub workload-Counted :
    (w : Workload) (c : Cache) (seed n : ℕ)
    → IsCache c
    → n < 2 ^ 64
    → Counted n (run_lookups w n 0 (start_workload c seed))
unfolding start_workload
workload-Counted w c seed n k h = run_lookups-Counted w n 0 0 n _ (omega arith) h (record {
  valid = IsCache-same c c.slots c.hand c.clock 0 0 k (λ j. refl) k.hand_lt;
  counted = omega arith;
  points_le = omega arith;
  points_total = omega arith;
})
