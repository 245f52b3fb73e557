-- ===== src/Timer.antt =====
-- Timers: cpp/core/timer, and the connection supervision of cpp/core/net that stands on them.
pub mod Wheel
pub mod Connections
