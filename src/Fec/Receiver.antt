-- ===== src/Fec/Receiver.antt =====
-- The receiver of media frames, libs/frame_protoc/src/receiver.cpp.
pub mod State
pub mod Group
pub mod Nacks
pub mod Deliver
pub mod Packets
pub mod Time
pub mod Batch
pub mod Asking
pub mod InOrder
pub mod Slots
pub mod Recovers
pub mod Unasked
pub mod Decoded
pub mod Arrivals
pub mod Assembled
pub mod Stalled
