-- ===== src/Entries.antt =====
-- sds_core/: what is stored and searched.
pub mod Entry
pub mod SimHash
pub mod Db
