-- ===== src/Cache/Workload.antt =====
-- The workloads of benchmarks/cache_probe.c: which page each lookup asks for, and the counts.
use cybou_db.Prelude.{
  ℕ, zero, suc, ◌+◌, ◌-◌, ◌*◌, ◌/◌, ◌%◌, ◌^◌, Bool, true, false, not, ◌&&◌, if◌then◌else◌, leb,
  ◌==◌, u64, bit_and, bit_xor,
}
use cybou_db.Cache.Table.{Cache, capacity}
use cybou_db.Cache.Get.{cache_get}

-- `PAGES`
abbrev pub pages : ℕ
pages = 60000

abbrev pub warm_lookups : ℕ
warm_lookups = 200000

abbrev pub hot_base : ℕ
hot_base = 21737

-- `next_random`: the generator's state is also its answer.
unfoldable pub next_random : ℕ → ℕ
next_random s =
    let a = bit_xor s (u64 (s * 2 ^ 13)) in
    let b = bit_xor a (a / 2 ^ 7) in bit_xor b (u64 (b * 2 ^ 17))

unfoldable pub reseed : ℕ → ℕ
reseed s = if s == 0 then 1 else s

-- The generator, the run that is going on, and how far the sweep is.
pub record Source : Type 0 where
  pub rng : ℕ
  pub cursor : ℕ
  pub left : ℕ
  pub scan_at : ℕ

unfoldable pub hot_span : ℕ → ℕ
hot_span r = let span = pages / 2 ^ (bit_and r 7 + 1) in if span == 0 then 1 else span

unfoldable pub hot_page : Source → ℕ × Source
hot_page s =
    let r = next_random s.rng in
    let q = next_random r in (u64 (hot_base + q % hot_span r) % pages, record s { rng = q })

unfoldable pub uniform_page : Source → ℕ × Source
uniform_page s = let r = next_random s.rng in (r % pages, record s { rng = r })

-- A new run starts where the last one is used up: `if (*left == 0)`.
unfoldable pub start_run : Source → Source
start_run s =
    let r = next_random s.rng in
    let q = next_random r in
    if s.left == 0
    then record s {
      rng = q;
      cursor = u64 (hot_base + r % (capacity / 8) * 8) % pages;
      left = 4 + q % 12;
    }
    else s

unfoldable pub run_page : Source → ℕ × Source
run_page s =
    let t = start_run s in
    (t.cursor % pages, record t { left = t.left - 1; cursor = u64 (t.cursor + 1) })

pub data Workload : Type 0 where
  w_uniform w_hot w_runs w_scan_storm : Workload

unfoldable pub point_query : ℕ × Source → Bool × ℕ × Source
point_query r = (false, r.0, r.1)

-- The page of lookup `i`, and whether the sweep asks for it: one of ten does in a scan storm.
unfoldable pub next_page : Workload → ℕ → Source → Bool × ℕ × Source
next_page w_uniform i s = point_query (uniform_page s)
next_page w_hot i s = point_query (hot_page s)
next_page w_runs i s = point_query (run_page s)
next_page w_scan_storm i s =
    if i % 10 == 0
    then (true, s.scan_at % pages, record s { scan_at = u64 (s.scan_at + 1) })
    else point_query (hot_page s)

pub record Driver : Type 0 where
  pub cache : Cache
  pub source : Source
  pub point_hits : ℕ
  pub point_total : ℕ

-- `if (i >= WARM && !is_scan)`
unfoldable pub count_point : Bool → Bool → Driver → Driver
count_point counts hit d =
    if counts
    then record d {
      point_total = u64 (d.point_total + 1);
      point_hits = if hit then u64 (d.point_hits + 1) else d.point_hits;
    }
    else d

unfoldable pub lookup : Driver → ℕ → Bool × ℕ × Source → Driver
lookup d i (is_scan, page, s) =
    let r = cache_get d.cache page in
    count_point (leb warm_lookups i && not is_scan) r.0 (record d { cache = r.1; source = s })

-- `n` lookups from lookup `i` on.
unfoldable pub run_lookups : Workload → ℕ → ℕ → Driver → Driver
run_lookups w zero i d = d
run_lookups w (suc n) i d = run_lookups w n (i + 1) (lookup d i (next_page w i d.source))

-- `run_workload` before its first lookup.
unfoldable pub start_workload : Cache → ℕ → Driver
start_workload c seed = record {
  cache = record c { hits = 0; misses = 0 };
  source = record { rng = reseed seed; cursor = 0; left = 0; scan_at = 0 };
  point_hits = 0;
  point_total = 0;
}
