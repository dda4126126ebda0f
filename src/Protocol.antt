-- ===== src/Protocol.antt =====
-- Protocols of the platform (src/main/scala/neko/protocol).
pub mod Message
pub mod Fifo
pub mod LogicalClock
pub mod LamportClock
pub mod VectorClock
pub mod Safra
pub mod RoundBased
pub mod ArbitraryTopology
