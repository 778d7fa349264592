-- ===== src/Cache.antt =====
-- benchmarks/cache_probe.c: the shape of the plaintext page cache, with its two index functions and
-- its three policies.
pub mod Table
pub mod Get
pub mod Loops
pub mod Hand
pub mod Valid
pub mod Answers
pub mod Sweep
pub mod Workload
pub mod Counts
pub mod Tests
