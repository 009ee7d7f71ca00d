-- ===== src/Server/UdpRecv.antt =====
-- UdpRecvCb of server/sfu_server/SfuServerBase.cpp, with a handler registered and on a little-endian
-- host. A datagram is its list of bytes, cut by `recvfrom` to the size of the buffer.
pub mod Keepalive
use tj_rtc.Prelude.{
  ℕ, ◌+◌, ◌*◌, ◌^◌, ◌==◌, ◌&&◌, ◌||◌, leb, Bool, List, [], ◌∷◌, ◌++◌, length, take, if◌then◌else◌,
}
use tj_rtc.Signal.Header.{protocol_version, cmd_type, get_header_version, get_header_msg_type}
use tj_rtc.Server.TcpRecv.{Event, dispatch_message}

-- MAX_UDP_PACKET
abbrev pub max_udp_packet : ℕ
max_udp_packet = 4096

-- OnUdpPacketReceived with its session, a call of the handler by DispatchMessage, and
-- HandleUdpFragment.
pub data UdpEvent : Type 0 where
  packet_received : ℕ → UdpEvent
  dispatched : List Event → UdpEvent
  fragment : List ℕ → UdpEvent

-- `memcpy(&sessionId, buf + 2, 4)`
abbrev pub host_order : ℕ → ℕ → ℕ → ℕ → ℕ
host_order a b c d = a + b * 2 ^ 8 + c * 2 ^ 16 + d * 2 ^ 24

-- The session that stream or forward data names, if the packet is such data.
unfoldable pub touched : List ℕ → List UdpEvent
touched (header ∷ (ctrl ∷ (a ∷ (b ∷ (c ∷ (d ∷ rest)))))) =
    if get_header_msg_type header == cmd_type && (ctrl == 0x13 || ctrl == 0x14)
    then packet_received (host_order a b c d) ∷ []
    else []
touched _ = []

abbrev pub udp_received : List ℕ → List UdpEvent
udp_received [] = []
udp_received (header ∷ payload) =
    if get_header_version header == protocol_version
    then touched (header ∷ payload)
      ++ (dispatched (dispatch_message (get_header_msg_type header) payload) ∷ [])
    else fragment (header ∷ payload) ∷ []

unfoldable pub udp_recv_cb : List ℕ → List UdpEvent
unfolding touched
udp_recv_cb datagram = udp_received (take max_udp_packet datagram)
