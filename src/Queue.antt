-- ===== src/Queue.antt =====
-- Queues between threads: cpp/core/queue.
pub mod Spsc
pub mod Mpmc
