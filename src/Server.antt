-- ===== src/Server.antt =====
-- The server of server/sfu_server: what it receives, what it sends and what it remembers.
pub mod TcpRecv
pub mod UdpRecv
pub mod SendQueue
pub mod ConnManager
pub mod KvStore
