-- ===== src/Vector.antt =====
-- The arena of FLOAT32 vectors and the search example.
pub mod Arena
pub mod Floats
pub mod Valid
pub mod Append
pub mod Search
pub mod Example
mod Tests
