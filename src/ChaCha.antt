-- ===== src/ChaCha.antt =====
-- benchmarks/crypto_probe.c: five ways to encrypt with ChaCha20, and that they are one function.
pub mod Words
pub mod Stream
pub mod Wide
pub mod Rounds
pub mod Xored
pub mod Lanes
pub mod Same
mod Tests
