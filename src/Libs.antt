-- ===== src/Libs.antt =====
-- The libraries of libs/ that the transport and the client share.
pub mod Pacer
pub mod MemPool
