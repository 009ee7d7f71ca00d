-- ===== src/Fec/Sender.antt =====
-- The sender of media frames, libs/frame_protoc/src/sender.cpp.
pub mod State
pub mod Cache
pub mod Retransmit
pub mod Packets
pub mod Control
pub mod Split
pub mod Frames
pub mod Cached
pub mod Resent
pub mod Answers
pub mod Blocks
pub mod Layout
pub mod Sending
pub mod Groups
pub mod Grouping
pub mod Framing
pub mod Delivers
pub mod FrameSent
pub mod Kept
