-- ===== src/Client.antt =====
-- The client SDK of client_sdk/.
pub mod Deduplicator
