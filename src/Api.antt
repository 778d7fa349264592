-- ===== src/Api.antt =====
-- include/cyboudb.h: the interface of the library, as its callers see it.
pub mod Codes
pub mod Sql
pub mod View
pub mod Plain
pub mod Database
