-- ===== src/Broker.antt =====
-- The broker: cpp/core/broker.
pub mod OffsetStore
pub mod Partition
pub mod Topic
pub mod Consumer
pub mod HashRing
pub mod Topics
