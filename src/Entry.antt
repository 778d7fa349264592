-- ===== src/Entry.antt =====
-- The calls of src/api/cyboudb_c.asm that make and open a file, as built for Linux.
pub mod Create
pub mod Made
mod Tests
