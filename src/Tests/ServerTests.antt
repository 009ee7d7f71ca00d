-- ===== src/Tests/ServerTests.antt =====
-- server/sfu_server at concrete inputs.
use tj_rtc.Prelude.{
  ℕ, zero, suc, ◌+◌, ◌%◌, ◌^◌, ◌≡◌, refl, true, false, none, some, List, [], ◌∷◌, ◌++◌, arith,
  if◌then◌else◌, length, replicate, All,
}
use tj_rtc.Prelude.{find, erase, put}
use tj_rtc.Bytes.{write_be32}
use tj_rtc.Signal.Header.{get_header_version, get_header_msg_type}
use tj_rtc.Prelude.{drop}
use tj_rtc.Signal.Stun.{htonl}
use tj_rtc.Signal.Subscribe.{SessionData, serialize_stream_data}
use tj_rtc.Server.UdpRecv.{udp_recv_cb, packet_received, max_udp_packet}
use tj_rtc.Server.UdpRecv as UdpRecv
use tj_rtc.Server.UdpRecv.Keepalive.{udp_recv_cb-serialize_stream_data}
use tj_rtc.Server.TcpRecv.{
  frame_events, dispatch_message, Answer, got, again, on_cmd, on_heartbeat, TcpConn, run, accepted,
  tcp_recv_cb,
}
use tj_rtc.Server.TcpRecv.Frames.{wire, all_events}
use tj_rtc.Server.TcpRecv.Reassembly.{AllLive, run-wire_whole}
use tj_rtc.Server.TcpRecv.Safety.{Keeps, tcp_recv_cb-IsBounded}
use tj_rtc.Server.SendQueue.{
  send, drain, enable_write_watcher, tcp_buffer, SendAnswer, would_block, SendBufItem, ConnSession,
  write_cb, is_empty,
}
use tj_rtc.Server.SendQueue as SendQueue
use tj_rtc.Server.SendQueue.Order.{unsent, IsWaiting, write_cb-order}
use tj_rtc.Server.SendQueue.Delivery.{Message, send_all, dispatched, send-delivery}
use tj_rtc.Server.ConnManager.{
  create_session, get_session, get_session_by_addr, remove_session, new_session,
}
use tj_rtc.Server.ConnManager.Invariant.{
  IsConsistent, Call, create, remove, apply, apply_all, no_sessions, apply-IsConsistent,
  apply_all-IsConsistent,
}
use tj_rtc.Server.ConnManager.Lookup.{no_sessions-IsConsistent, get_session_by_addr_sound}
use tj_rtc.Server.KvStore.{KvStore, KvEntry, get, cleanup_expired, size}
use tj_rtc.Server.KvStore.Expiry.{IsUnique, get-cleanup_expired}

-- A command and a heartbeat, each behind the header byte of version 1.
abbrev two_frames : List (List ℕ)
two_frames = (0x15 ∷ 16 ∷ []) ∷ ((0x13 ∷ []) ∷ [])

abbrev one_byte : Answer × Answer
one_byte = (got 0, got 0)

all_live : (n : ℕ) → AllLive (replicate n one_byte)
all_live zero = tt
all_live (suc n) = ((tt, tt), all_live n)

abbrev bytewise : List (Answer × Answer)
bytewise = replicate 11 one_byte

run-wire_whole_example :
    ((run bytewise (some accepted) (wire two_frames)).events ≡ all_events two_frames)
    × ((run bytewise (some accepted) (wire two_frames)).stream ≡ [])
    × ((c : TcpConn) × ((run bytewise (some accepted) (wire two_frames)).conn ≡ some c)
        × (c.msgs_recv ≡ length two_frames)
        × (c.length_prefix ≡ [])
        × (c.recv_buf ≡ none))
run-wire_whole_example =
    run-wire_whole two_frames bytewise (omega arith) (all_live 11)
      (unfold wire write_be32 in omega arith)

-- The two frames reach the handler in this order.
two_events : all_events two_frames ≡ on_cmd (16 ∷ []) ∷ (on_heartbeat [] ∷ [])
unfolding all_events frame_events dispatch_message get_header_version get_header_msg_type
two_events = refl

abbrev half_way : TcpConn
half_way = record {
  session = true;
  length_prefix = 0 ∷ 0 ∷ 0 ∷ 2 ∷ [];
  recv_buf = some (0x15 ∷ []);
  all_len = 2;
  msgs_recv = 4;
}

tcp_recv_cb-IsBounded_example : Keeps (tcp_recv_cb (got 5) again half_way (9 ∷ 0 ∷ 0 ∷ []))
tcp_recv_cb-IsBounded_example =
    tcp_recv_cb-IsBounded (got 5) again half_way (9 ∷ 0 ∷ 0 ∷ [])
      (omega arith, omega arith, omega arith)

abbrev rubbish : List ℕ
rubbish = 128 ∷ 0 ∷ 0 ∷ 1 ∷ 9 ∷ []

abbrev connection : ConnSession
connection = record {
  is_tcp = true;
  is_open = true;
  send_queue = [];
  has_write_watcher = false;
  send_bytes = 0;
}

abbrev half_sent : ConnSession
half_sent = record connection {
  send_queue =
      record { content = 1 ∷ 2 ∷ 3 ∷ []; sent_bytes = 1 }
      ∷ (record { content = 4 ∷ []; sent_bytes = 0 } ∷ []);
  has_write_watcher = true;
}

abbrev two_writes : List SendAnswer
two_writes = SendQueue.accepted 9 ∷ (would_block ∷ [])

write_cb-order_example :
    (lost : List ℕ) × ((write_cb two_writes half_sent).wire
        ++ (unsent (write_cb two_writes half_sent).session.send_queue ++ lost)
      ≡ unsent half_sent.send_queue)
    × All IsWaiting (write_cb two_writes half_sent).session.send_queue
    × ((write_cb two_writes half_sent).disconnected ≡ false → lost ≡ [])
    × ((write_cb two_writes half_sent).session.send_bytes
        ≡ (half_sent.send_bytes + length (write_cb two_writes half_sent).wire) % 2 ^ 64)
    × ((write_cb two_writes half_sent).disconnected ≡ false
        → (write_cb two_writes half_sent).session.has_write_watcher ≡ (
            if is_empty (write_cb two_writes half_sent).session.send_queue
            then false
            else half_sent.has_write_watcher))
write_cb-order_example = write_cb-order two_writes half_sent (omega arith, (omega arith, tt))

abbrev commands : List Message
commands = (5, 16 ∷ 7 ∷ []) ∷ ((3, 1 ∷ []) ∷ [])

abbrev all_writes : List SendAnswer
all_writes = SendQueue.accepted 99 ∷ (SendQueue.accepted 99 ∷ [])

emptied :
    ((write_cb all_writes (send_all connection commands)).disconnected ≡ false)
    × ((write_cb all_writes (send_all connection commands)).session.send_queue ≡ [])
    × (length (write_cb all_writes (send_all connection commands)).wire ≡ 13)
unfolding write_cb send_all send drain enable_write_watcher tcp_buffer write_be32
emptied = (refl, refl, refl)

send-delivery_example :
    (run
      (replicate 13 one_byte)
      (some accepted)
      (write_cb all_writes (send_all connection commands)).wire).events
    ≡ dispatched commands
send-delivery_example =
    let (up, none_queued, size) = emptied in
    send-delivery connection commands all_writes (replicate 13 one_byte) refl refl (omega arith) up
      none_queued (all_live 13) (omega (arith, size))

abbrev lan : List ℕ
lan = 49 ∷ 58 ∷ 50 ∷ []

abbrev calls : List Call
calls = create 7 true lan ∷ (create 8 false (51 ∷ []) ∷ (remove 8 ∷ []))

two_clients-IsConsistent : IsConsistent (apply_all calls no_sessions)
two_clients-IsConsistent = apply_all-IsConsistent calls no_sessions no_sessions-IsConsistent

apply-IsConsistent_example : IsConsistent (apply (remove 7) (apply_all calls no_sessions))
apply-IsConsistent_example =
    apply-IsConsistent (remove 7) (apply_all calls no_sessions) two_clients-IsConsistent

found_by_addr :
    get_session_by_addr (apply_all calls no_sessions) lan ≡ some (new_session 7 true lan)
unfolding get_session_by_addr apply_all apply create_session remove_session find erase put
found_by_addr = refl

get_session_by_addr_sound_example :
    ((new_session 7 true lan).remote_addr ≡ lan)
    × (get_session (apply_all calls no_sessions) 7 ≡ some (new_session 7 true lan))
get_session_by_addr_sound_example =
    get_session_by_addr_sound calls lan (new_session 7 true lan) found_by_addr

abbrev kept_value : KvEntry
kept_value = record { value = 1 ∷ []; created_at = 100; ttl = some 60 }

abbrev one_key : KvStore
one_key = (lan, kept_value) ∷ []

one_key-IsUnique : IsUnique one_key
unfolding find
one_key-IsUnique = (refl, tt)

get-cleanup_expired_example :
    (get (cleanup_expired one_key 161).0 170 lan ≡ get one_key 170 lan)
    × (size (cleanup_expired one_key 161).0 + (cleanup_expired one_key 161).1 ≡ size one_key)
get-cleanup_expired_example = get-cleanup_expired one_key 161 170 lan one_key-IsUnique (omega arith)

-- A heartbeat of session 1000: the server is told of session 3892510720.
abbrev heartbeat : SessionData
heartbeat = record { session_id = 1000; payload = [] }

udp_recv_cb-serialize_stream_data_example :
    udp_recv_cb (serialize_stream_data heartbeat)
    ≡ packet_received (htonl 1000)
      ∷ (UdpRecv.dispatched (on_cmd (drop 1 (serialize_stream_data heartbeat)) ∷ []) ∷ [])
udp_recv_cb-serialize_stream_data_example =
    udp_recv_cb-serialize_stream_data heartbeat
      (unfold serialize_stream_data write_be32 in omega arith)

reversed_id : htonl 1000 ≡ 3892510720
reversed_id = refl
