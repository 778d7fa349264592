-- ===== src/Cache/Tests.antt =====
-- Lookups in small tables of 2048 sets of 4 ways.
use cybou_db.Prelude.{◌+◌, ℕ, ◌≡◌, ◌↔◌, refl, true, false, arith, if◌then◌else◌, ◌==◌}
use mathlib.Core.List.{List, [], ◌∷◌}
use cybou_db.Cache.Table.{
  Slot, Cache, hash_low, hash_mix, policy_clock, policy_probation, empty, index_of, cache_init,
}
use cybou_db.Cache.Get.{
  clock_walk, find_page, make_room, evict, oldest_way, probation_victim, lru_victim, or_first,
  place, miss, answer, cache_get,
}
use cybou_db.Cache.Hand.{Stopped, clock_walk_stops}
use cybou_db.Cache.Valid.{IsCache}
use cybou_db.Cache.Answers.{
  Present, FromOrNew, cache_get-IsCache, cache_get_hit_iff, cache_get_pages, cache_init-IsCache,
}
use cybou_db.Cache.Workload.{w_scan_storm, run_lookups, start_workload}
use cybou_db.Cache.Counts.{Counted, workload-Counted}
use cybou_db.Cache.Sweep.{sweep, AllMiss, lookups, Spared, sweep_spares_residents}

abbrev blank_table : Cache
blank_table = cache_init 4 hash_mix policy_clock

blank_table-IsCache : IsCache blank_table
blank_table-IsCache = cache_init-IsCache 4 11 hash_mix policy_clock (omega arith) refl

cache_get-IsCache_example : IsCache (cache_get blank_table 7).1
cache_get-IsCache_example = cache_get-IsCache blank_table 7 blank_table-IsCache (omega arith)

cache_get_pages_example :
    Present (cache_get blank_table 7).1 7 × FromOrNew blank_table 7 (cache_get blank_table 7).1
cache_get_pages_example = cache_get_pages blank_table 7 blank_table-IsCache

cache_get_hit_iff_example :
    ((cache_get (cache_get blank_table 7).1 7).0 ≡ true) ↔ Present (cache_get blank_table 7).1 7
cache_get_hit_iff_example = cache_get_hit_iff (cache_get blank_table 7).1 7

-- Page 5 has been touched twice: it is resident in the first way of set 5.
abbrev warm_slots : ℕ → Slot
warm_slots j =
    if j == 20
    then record { page = 5; stamp = 2; referenced = true; resident = true }
    else record { page = empty; stamp = 0; referenced = false; resident = false }

abbrev warm : Cache
warm = record (cache_init 4 hash_low policy_probation) { slots = warm_slots; clock = 2 }

-- Six pages of the same set.
abbrev cold : List ℕ
cold = 2053 ∷ 4101 ∷ 6149 ∷ 8197 ∷ 10245 ∷ 12293 ∷ []

warm-Spared : Spared 6 warm
unfolding cache_init
warm-Spared = record {
  probation = refl;
  spare = λ set. (1, omega arith, ground arith);
  blank = λ j e. ground arith;
  stamped = λ j. ground arith;
  early = omega arith;
}

cold-AllMiss : AllMiss warm cold
unfolding AllMiss cache_init cache_get index_of find_page answer miss make_room evict place
    oldest_way probation_victim lru_victim or_first
cold-AllMiss = (
  omega arith,
  refl,
  (
    omega arith,
    refl,
    (omega arith, refl, (omega arith, refl, (omega arith, refl, (omega arith, refl, tt)))),
  ),
)

sweep_spares_residents_example : (sweep warm cold).slots 20 ≡ warm.slots 20
unfolding lookups
sweep_spares_residents_example = sweep_spares_residents warm cold warm-Spared cold-AllMiss 20 refl

clock_walk_stops_example : Stopped warm_slots 4 20 (clock_walk (4 + 1) 4 20 warm_slots 0)
clock_walk_stops_example = clock_walk_stops 4 20 warm_slots 0 (omega arith)

workload-Counted_example : Counted 30 (run_lookups w_scan_storm 30 0 (start_workload blank_table 7))
workload-Counted_example =
    workload-Counted w_scan_storm blank_table 7 30 blank_table-IsCache (omega arith)
