-- ===== src/Worker.antt =====
-- examples/worker.c: a worker that takes a job and records its result in one commit.
pub mod Loop
pub mod Job
pub mod Drain
pub mod Report
pub mod Main
pub mod Plain
mod Tests
