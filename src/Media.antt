-- ===== src/Media.antt =====
-- The media path: cpp/core/media.
pub mod JitterBuffer
pub mod AudioPacket
pub mod SendQueue
pub mod Session
pub mod NetworkEstimator
pub mod BitrateController
pub mod AdaptiveSender
