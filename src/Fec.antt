-- ===== src/Fec.antt =====
-- libs/frame_protoc: the packet format and the sequence numbers of the FEC transport.
pub mod Seq
pub mod Header
pub mod Payload
pub mod Bitrate
pub mod Sender
pub mod Receiver
pub mod Transfer
