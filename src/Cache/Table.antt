-- ===== src/Cache/Table.antt =====
-- The table of benchmarks/cache_probe.c: its slots, its index functions and its initial state.
use cybou_db.Prelude.{ℕ, ◌-◌, ◌*◌, ◌/◌, ◌^◌, Bool, false, u32, u64, u64_max, bit_and}

-- `HASH_LOW` and `HASH_MIX`
pub data Hash : Type 0 where
  hash_low hash_mix : Hash

pub data Policy : Type 0 where
  policy_clock policy_lru policy_probation : Policy

pub record Slot : Type 0 where
  pub page : ℕ
  pub stamp : ℕ
  pub referenced : Bool
  pub resident : Bool

-- `EMPTY` is UINT64_MAX.
abbrev pub empty : ℕ
empty = u64_max

-- `slots` is one array: set `s` is `slots[s * ways .. s * ways + ways)`.
pub record Cache : Type 0 where
  pub slots : ℕ → Slot
  pub sets : ℕ
  pub ways : ℕ
  pub hand : ℕ → ℕ
  pub hash : Hash
  pub policy : Policy
  pub clock : ℕ
  pub hits : ℕ
  pub misses : ℕ

abbrev pub capacity : ℕ
capacity = 8192

unfoldable pub index_of : Hash → ℕ → ℕ → ℕ
index_of hash_low page sets = u32 (bit_and page (sets - 1))
index_of hash_mix page sets = bit_and (u32 (u64 (page * 0x9E3779B97F4A7C15) / 2 ^ 40)) (sets - 1)

unfoldable pub cache_init : ℕ → Hash → Policy → Cache
cache_init ways hash policy = record {
  slots = λ i. record { page = empty; stamp = 0; referenced = false; resident = false };
  sets = capacity / ways;
  ways = ways;
  hand = λ i. 0;
  hash = hash;
  policy = policy;
  clock = 0;
  hits = 0;
  misses = 0;
}
