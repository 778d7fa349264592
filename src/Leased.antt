-- ===== src/Leased.antt =====
-- Leases as include/cyboudb.h promises them, and the program of examples/leased_worker.c over them.
pub mod Tickets
pub mod Changes
pub mod Run
pub mod Calls
pub mod Program
pub mod Steps
pub mod Claims
pub mod Main
pub mod Plain
mod Tests
