-- ===== src/Net.antt =====
-- cpp/core/net: message framing over a byte stream, and the limit of a rate.
pub mod Framing
pub mod RateLimiter
pub mod TcpServer
