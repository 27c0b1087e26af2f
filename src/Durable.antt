-- ===== src/Durable.antt =====
-- The durability record (internal/durability) and the checksums that it combines (internal/crc32util).
pub mod Crc
pub mod Runs
pub mod Commit
