-- ===== src/Lib.antt =====
-- tj_rtc: the protocol, the transport and the server of a real-time streaming system.
--
-- A publisher sends media frames as numbered packets (libs/frame_protoc), paced by a token bucket
-- (libs/pacer) and held in blocks of a pool (libs/mem_pool). Clients (client_sdk) talk to the server
-- (server/sfu_server) in the messages of common/sfu_protocol, over UDP or over TCP in frames with a
-- length; two clients may also find each other by STUN and exchange packets on a direct link.
--
-- Which file models which part:
--   Prelude, Bytes: what the others share. Prelude/Table.antt is a map as the list of its pairs, under
--     the interface `Key` of a test of equal keys. Bytes has the cursor in which the parsers are
--     written: `need` is an early return on a short buffer, `fault` stands for a read past the end.
--   Fec: libs/frame_protoc/src/protocol.cpp. Seq has computeSeqLen, seqMask, seqCompare and seqAdd,
--     Header the two headers, Payload the NACK and TLV payloads; Bitrate is bitrate_controller.cpp.
--   Fec/Sender: sender.cpp. State is FrameSender::Impl, Cache its map of sent blocks, Retransmit the
--     handling of a NACK, Control the other control packets and tick, Split and Frames sendFrame.
--   Fec/Receiver: receiver.cpp. State is FrameReceiver::Impl with its frames and groups, Group addBlock
--     and tryDecode, Nacks the gaps and what is asked for, Deliver the delivery in order, Packets
--     handleData, Time the PING, the statistics, the timeouts and tick.
--   Fec/Transfer: the two together, from the packets of a frame to the frame that is handed over.
--   Signal: common/sfu_protocol. Header, CtrlType and Subscribe are SfuProtocol.h and
--     SfuSubscribeProtocol.h, P2p and Stun the two halves of SfuP2PProtocol.h; Stun also has
--     StunService::HandlePacket of server/sfu_server/StunService.cpp.
--   Server: server/sfu_server. TcpRecv is TcpRecvCb, CloseTcpConn and DispatchMessage of
--     SfuServerBase.cpp, UdpRecv its UdpRecvCb; SendQueue is Send and the loops over the send queue of
--     SfuConnManager.cpp, and ConnManager its two maps; KvStore is the store of SfuKvStore.cpp.
--   Libs: libs/pacer/Pacer.cpp and libs/mem_pool/MemPool.cpp.
--   Client: P2PDeduplicator of client_sdk/rtc_client_sdk/include/P2PDeduplicator.h.
--   Tests: the theorems at concrete inputs.
-- A child named for what it proves (RoundTrip, Bounds, Order, Safety, and so on) holds the proofs.
--
-- How the code is written here. A function of the source is one definition in snake_case. A byte, a word
-- or a size is a natural number, with the wrap of its type written out where the code can reach it; a
-- string and a buffer are lists of bytes. An operation takes the state of its object and returns the
-- next one. What the system decides is an argument: the clock (`now`), the memory that `operator new[]`
-- returns (`chunk`), and the behaviour of `recv` and `send` in each call (`Answer`, `SendAnswer`), so
-- that a theorem over a list of answers covers every way in which a stream is cut into pieces.
-- htonl is that of a little-endian host. `float` is a parameter, the record `FloatOps` of
-- Fec/Bitrate.antt, with what the sender adds in `MathOps`. The erasure code of cm256cc is a
-- parameter, an `Encoder` and a `Decoder`; what its documentation says of it is a hypothesis,
-- `EncoderWorks` or `CodecWorks`. An unordered_map is a list of pairs, latest first. A callback is set or
-- not, and what it is called with is kept in a list of the state. Where the receiver would read a block
-- past its end, the model reads zeros and sets `overread`.
--
-- Fuel and bounds. The loop over the TLV items and the one over the STUN attributes run on the length of
-- the buffer, each round takes a byte at least, and a round without fuel would be a `fault`, which the
-- theorems exclude. The loop of delivery runs on one round more than there are frames in the table; each
-- round but the last takes one away, and it is proved that the loop has then come to its end. The loop
-- of computeSeqLen recurses on the number itself, that of the send queue on the queue, those of sendFrame
-- and deliverFrame on the number of groups and of blocks. Frames on TCP have 1 to 1048576 bytes, as
-- IsValidTcpFrameLen says. The tokens of the pacer are integers without the bounds of int64_t, and the
-- sequence numbers of a sender and a receiver do not come to 2 ^ 64.
--
-- Not modelled: threads and locks, sockets and the event loop, logging, the copy of the cm256cc library,
-- the demos, and so far the proxy receiver of a forwarding node, the session table of SfuServer.cpp, the
-- session manager and the connection states of the client.
pub mod Prelude
pub mod Bytes
pub mod Fec
pub mod Signal
pub mod Server
pub mod Libs
pub mod Client
mod Tests
