-- ===== src/Server/TcpRecv.antt =====
-- The TCP receiver of server/sfu_server/SfuServerBase.cpp: TcpRecvCb, CloseTcpConn and DispatchMessage.
-- A socket is the list of the bytes that the peer sends, and one callback makes at most two calls of
-- `recv`; an `Answer` says what the kernel does in each.
pub mod Frames
pub mod Callback
pub mod Reassembly
pub mod Safety
use tj_rtc.Prelude.{
  ℕ, zero, suc, ◌+◌, ◌-◌, ◌*◌, ◌/◌, ◌%◌, ◌^◌, ◌≤◌, ◌<◌, min, max, bit_and, bit_or, bit_xor, ◌≡◌,
  refl, sym, ap, subst, ◌∙◌, fun_ext, ◌≢◌, ◌↔◌, ◌⊎◌, inl, inr, Bool, true, false, not, ◌&&◌, ◌||◌,
  Option, none, some, List, [], ◌∷◌, ◌++◌, map, append-nil, append_assoc, arith, dec_lt, dec_le,
  ℕ_discrete, ltb, leb, ◌==◌, if◌then◌else◌, ltb→lt, lt→ltb, leb→le, ==_iff, tests, Bool-cases,
  Option-cases, length, get_elem?, set, take, drop, replicate, All, length-append, length-take,
  length-drop, take-append-drop, take-length_append, drop-length_append, ◌<<<◌, ◌>>>◌, shift_or,
  low_mask, disjoint_or, lt_wf,
}
use tj_rtc.Bytes.{write_be32}
use tj_rtc.Signal.Header.{
  protocol_version, get_header_version, get_header_msg_type, read_tcp_frame_len,
  is_valid_tcp_frame_len,
}

-- `got k`: at most `k + 1` bytes are ready. `again` is EAGAIN, `closed` is 0, `failed` another errno.
pub data Answer : Type 0 where
  got : ℕ → Answer
  again : Answer
  closed : Answer
  failed : Answer

-- What `recv` took and what is left on the socket; nothing yet; or the connection is gone.
pub data Received : Type 0 where
  bytes : List ℕ → List ℕ → Received
  nothing : List ℕ → Received
  gone : List ℕ → Received

unfoldable pub recv : ℕ → Answer → List ℕ → Received
recv want (got k) [] = nothing []
recv want (got k) (b ∷ stream) =
    bytes (take (min want (k + 1)) (b ∷ stream)) (drop (min want (k + 1)) (b ∷ stream))
recv want again stream = nothing stream
recv want closed stream = gone stream
recv want failed stream = gone stream

-- The calls of the handler, each with the bytes behind the header byte. `disconnect` is the OnDisconnect
-- of CloseTcpConn, without data.
pub data Event : Type 0 where
  on_connect : List ℕ → Event
  on_data : List ℕ → Event
  on_heartbeat : List ℕ → Event
  on_cmd : List ℕ → Event
  on_disconnect : List ℕ → Event
  on_stream : List ℕ → Event
  on_stream_ctrl : List ℕ → Event
  on_room_ctrl : List ℕ → Event
  disconnect : Event

-- DispatchMessage, with a handler registered.
unfoldable pub dispatch_message : ℕ → List ℕ → List Event
dispatch_message msg_type payload =
    if msg_type == 0x02
    then on_connect payload ∷ []
    else if msg_type == 0x01
    then on_data payload ∷ []
    else if msg_type == 0x03
    then on_heartbeat payload ∷ []
    else if msg_type == 0x05
    then on_cmd payload ∷ []
    else if msg_type == 0x04
    then on_disconnect payload ∷ []
    else if msg_type == 0x08
    then on_stream payload ∷ []
    else if msg_type == 0x09
    then on_stream_ctrl payload ∷ []
    else if msg_type == 0x0a
    then on_room_ctrl payload ∷ []
    else []

-- The receiving part of ServerSocketInfo. `length_prefix` holds the `prefixBytesRecv` bytes received
-- of the prefix, `recv_buf` the `recvLen` bytes received of the frame. `session` says whether the
-- ConnManager has a session of this socket.
pub record TcpConn : Type 0 where
  pub session : Bool
  pub length_prefix : List ℕ
  pub recv_buf : Option (List ℕ)
  pub all_len : ℕ
  pub msgs_recv : ℕ

-- What a callback leaves: the connection, `none` once it is closed and deleted, the calls of the
-- handler, and the bytes that are still on the socket.
pub record Turn : Type 0 where
  pub conn : Option TcpConn
  pub events : List Event
  pub stream : List ℕ

abbrev pub turn : TcpConn → List Event → List ℕ → Turn
turn c events stream = record { conn = some c; events = events; stream = stream }

abbrev pub close_tcp_conn : List ℕ → Turn
close_tcp_conn stream = record { conn = none; events = disconnect ∷ []; stream = stream }

-- A whole frame: the header byte and the payload behind it.
unfoldable pub frame_events : List ℕ → List Event
frame_events [] = []
frame_events (header ∷ payload) =
    if get_header_version header == protocol_version
    then dispatch_message (get_header_msg_type header) payload
    else []

abbrev pub next_message : TcpConn → TcpConn
next_message c = record {
  session = c.session;
  length_prefix = [];
  recv_buf = none;
  all_len = 0;
  msgs_recv = c.msgs_recv + 1;
}

abbrev pub payload_arrived : TcpConn → List ℕ → List ℕ → Turn
payload_arrived c buf stream =
    if length buf == c.all_len
    then turn (next_message c) (frame_events buf) stream
    else turn (record c { recv_buf = some buf }) [] stream

abbrev pub payload_received : TcpConn → List ℕ → Received → Turn
payload_received c buf (bytes taken rest) = payload_arrived c (buf ++ taken) rest
payload_received c buf (nothing rest) = turn c [] rest
payload_received c buf (gone rest) = close_tcp_conn rest

-- `if (recvBuf && recvLen < allLen)`
abbrev pub recv_payload : Answer → TcpConn → Option (List ℕ) → List ℕ → Turn
recv_payload answer c none stream = turn c [] stream
recv_payload answer c (some buf) stream =
    if ltb (length buf) c.all_len
    then payload_received c buf (recv (c.all_len - length buf) answer stream)
    else turn c [] stream

-- The length in a prefix of four bytes.
unfoldable pub frame_len : List ℕ → ℕ
frame_len (a ∷ (b ∷ (c ∷ (d ∷ [])))) = read_tcp_frame_len a b c d
frame_len _ = 0

abbrev pub prefix_arrived : Answer → TcpConn → List ℕ → List ℕ → Turn
prefix_arrived second c prefix stream =
    if length prefix == 4
    then if is_valid_tcp_frame_len (frame_len prefix)
      then recv_payload second
          (record c { length_prefix = prefix; recv_buf = some []; all_len = frame_len prefix })
          (some []) stream
      else close_tcp_conn stream
    else recv_payload second (record c { length_prefix = prefix }) c.recv_buf stream

abbrev pub prefix_received : Answer → TcpConn → Received → Turn
prefix_received second c (bytes taken rest) =
    prefix_arrived second c (c.length_prefix ++ taken) rest
prefix_received second c (nothing rest) = turn c [] rest
prefix_received second c (gone rest) = close_tcp_conn rest

abbrev pub recv_prefix : Answer → Answer → TcpConn → List ℕ → Turn
recv_prefix first second c stream =
    if ltb (length c.length_prefix) 4
    then prefix_received second c (recv (4 - length c.length_prefix) first stream)
    else recv_payload first c c.recv_buf stream

-- TcpRecvCb. The ConnManager gets its session at the first one.
unfoldable pub tcp_recv_cb : Answer → Answer → TcpConn → List ℕ → Turn
tcp_recv_cb first second c stream = recv_prefix first second (record c { session = true }) stream

-- Callbacks one after the other, until the connection is closed.
abbrev pub more_events : List Event → Turn → Turn
more_events events t = record t { events = events ++ t.events }

unfoldable pub run : List (Answer × Answer) → Option TcpConn → List ℕ → Turn
run answers none stream = record { conn = none; events = []; stream = stream }
run [] (some c) stream = turn c [] stream
run ((first, second) ∷ answers) (some c) stream =
    let t = tcp_recv_cb first second c stream in more_events t.events (run answers t.conn t.stream)

-- A connection as TcpAcceptCb makes it.
abbrev pub accepted : TcpConn
accepted = record {
  session = false;
  length_prefix = [];
  recv_buf = none;
  all_len = 0;
  msgs_recv = 0;
}
