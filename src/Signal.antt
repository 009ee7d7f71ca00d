-- ===== src/Signal.antt =====
-- common/sfu_protocol: the signalling between clients and the SFU server.
pub mod Header
pub mod CtrlType
pub mod Subscribe
pub mod P2p
pub mod Stun
