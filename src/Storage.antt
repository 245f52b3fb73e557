-- ===== src/Storage.antt =====
-- cpp/core/storage: the append-only log, its segments and their checksum.
pub mod Bytes
pub mod Crc32
pub mod Segment
pub mod Log
