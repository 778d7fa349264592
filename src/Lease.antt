-- ===== src/Lease.antt =====
-- benchmarks/lease_probe.c: the queue whose messages are leased, and the ready-at tree that
-- finds the next claimable one.
pub mod Slots
pub mod Walk
pub mod Summary
pub mod Tree
pub mod Search
pub mod Matches
pub mod Scan
pub mod Ring
pub mod Least
pub mod Found
pub mod Maintain
pub mod Climb
pub mod Leaves
pub mod Changed
pub mod Resum
pub mod Upkeep
pub mod Cost
pub mod Cycle
mod Tests
