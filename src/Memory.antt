-- ===== src/Memory.antt =====
-- cpp/core/memory: memory allocation.
pub mod MemoryPool
