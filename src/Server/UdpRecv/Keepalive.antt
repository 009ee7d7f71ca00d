-- ===== src/Server/UdpRecv/Keepalive.antt =====
-- The session that a datagram of stream data keeps alive.
use tj_rtc.Prelude.{
  ℕ, zero, suc, ◌+◌, ◌*◌, ◌/◌, ◌%◌, ◌^◌, ◌≤◌, ◌≡◌, refl, ap, ◌∙◌, List, [], ◌∷◌, arith, length,
  take, drop,
}
use tj_rtc.Bytes.{write_be32}
use tj_rtc.Signal.Header.{make_header, get_header_version, get_header_msg_type}
use tj_rtc.Signal.Stun.{htonl}
use tj_rtc.Signal.Subscribe.{SessionData, serialize_stream_data}
use tj_rtc.Server.TcpRecv.{on_cmd, dispatch_message}
use tj_rtc.Server.UdpRecv.{
  packet_received, udp_received, dispatched, touched, udp_recv_cb, max_udp_packet,
}

take_all : (n : ℕ) (xs : List ℕ) → length xs ≤ n → take n xs ≡ xs
take_all zero [] h = refl
take_all zero (x ∷ xs) h = absurd (omega (arith, h))
take_all (suc n) [] h = refl
take_all (suc n) (x ∷ xs) h = ap (λ ys. x ∷ ys) (take_all n xs (omega (arith, h)))

whole_datagram :
    (datagram : List ℕ)
    → length datagram ≤ max_udp_packet
    → udp_recv_cb datagram ≡ udp_received datagram
unfolding udp_recv_cb
whole_datagram datagram fits = ap udp_received (take_all max_udp_packet datagram fits)

stream_data_received :
    (d : SessionData)
    → udp_received (serialize_stream_data d)
      ≡ packet_received (htonl d.session_id)
        ∷ (dispatched (on_cmd (drop 1 (serialize_stream_data d)) ∷ []) ∷ [])
unfolding touched serialize_stream_data write_be32 dispatch_message make_header get_header_version
    get_header_msg_type
stream_data_received d =
    let id = d.session_id in
    let swapped : id / 2 ^ 24 % 256
          + id / 2 ^ 16 % 256 * 2 ^ 8
          + id / 2 ^ 8 % 256 * 2 ^ 16
          + id % 256 * 2 ^ 24
        ≡ htonl id =
      omega arith in
    ap
      (λ (n : ℕ).
        packet_received n ∷ (dispatched (on_cmd (drop 1 (serialize_stream_data d)) ∷ []) ∷ []))
      swapped

-- Stream data that fits a datagram is dispatched as a command; the session that the server is told of
-- is not the one in the data but the number with its four bytes reversed.
pub udp_recv_cb-serialize_stream_data :
    (d : SessionData)
    → length (serialize_stream_data d) ≤ max_udp_packet
    → udp_recv_cb (serialize_stream_data d)
      ≡ packet_received (htonl d.session_id)
        ∷ (dispatched (on_cmd (drop 1 (serialize_stream_data d)) ∷ []) ∷ [])
udp_recv_cb-serialize_stream_data d fits =
    whole_datagram (serialize_stream_data d) fits ∙ stream_data_received d
