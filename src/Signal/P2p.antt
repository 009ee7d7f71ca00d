-- ===== src/Signal/P2p.antt =====
-- common/sfu_protocol/SfuP2PProtocol.h, without its STUN part: the packets of a direct link, and
-- the signalling that sets it up. A parser that skips its first byte skips the header byte on the
-- client, and the type byte on the server, whose parsers get the bytes behind the header.
pub mod Reports
pub mod RoundTrip
pub mod Bounds
use tj_rtc.Prelude.{
  ℕ, zero, suc, ◌+◌, ◌-◌, ◌*◌, ◌/◌, ◌%◌, ◌^◌, ◌≤◌, ◌<◌, min, max, bit_and, bit_or, bit_xor, ◌≡◌,
  refl, sym, ap, subst, ◌∙◌, fun_ext, ◌≢◌, ◌↔◌, ◌⊎◌, inl, inr, Bool, true, false, not, ◌&&◌, ◌||◌,
  Option, none, some, List, [], ◌∷◌, ◌++◌, map, append-nil, append_assoc, arith, dec_lt, dec_le,
  ℕ_discrete, ltb, leb, ◌==◌, if◌then◌else◌, ltb→lt, lt→ltb, leb→le, ==_iff, tests, Bool-cases,
  Option-cases, length, get_elem?, set, take, drop, replicate, All, length-append, length-take,
  length-drop, take-append-drop, take-length_append, drop-length_append, ◌<<<◌, ◌>>>◌, shift_or,
  low_mask, disjoint_or, lt_wf,
}
use tj_rtc.Bytes.{
  Outcome, ok, reject, fault, Cursor, ◌>>=◌, ◌>>◌, return, need, check, read_u8, read_bytes,
  read_rest, result, push, IsByte, write_be16, write_be32, write_be64, join16, join32, join64,
  read_be16, read_be32, read_be64, write_seq_num, read_seq_num, read_seq_loop, join16-sum,
  join32-sum, read_be16-write_be16, read_be32-write_be32, read_be64-write_be64, read_bytes-append,
  read_bytes-split, length-write_be16, length-write_be32, length-write_be64, length-write_seq_num,
  read_seq_num-write_seq_num, Leaves, Reads, bind-Reads, return-Reads, next_u8, next_need,
  next_check, next_bytes, next_rest, next_be16, next_be32, next_be64, next_seq_num, result-ne-fault,
  need-enough, check-passed, step_need, step_check, step_be16, step_be32, step_be64, step_bytes,
  step_seq_num, pack_nibbles, high_nibble, low_nibble, pack_nibbles-sum, high_nibble-pack_nibbles,
  low_nibble-pack_nibbles, bit_one, bit_two, or_flags,
}
use tj_rtc.Signal.CtrlType
use tj_rtc.Signal.Subscribe.{cmd_header, write_string}

abbrev pub p2p_version : ℕ
p2p_version = 0x02

-- P2PPacketType::kData, kProbe and kHeartbeat
abbrev pub data_packet : ℕ
data_packet = 0x01

abbrev pub probe_packet : ℕ
probe_packet = 0x02

abbrev pub heartbeat_packet : ℕ
heartbeat_packet = 0x03

pub record Packet : Type 0 where
  pub kind : ℕ
  pub payload : List ℕ

unfoldable pub serialize_data_packet : List ℕ → List ℕ
serialize_data_packet payload = p2p_version ∷ (data_packet ∷ payload)

unfoldable pub serialize_probe : List ℕ → List ℕ
serialize_probe payload = p2p_version ∷ (probe_packet ∷ payload)

unfoldable pub serialize_heartbeat : List ℕ
serialize_heartbeat = p2p_version ∷ (heartbeat_packet ∷ [])

unfoldable pub parse_packet : Cursor Packet
parse_packet = do
  need 2
  version ← read_u8
  check (version == p2p_version)
  kind ← read_u8
  payload ← read_rest
  return (record { kind = kind; payload = payload })

pub record Request : Type 0 where
  pub target_stream_id : List ℕ
  pub flags : ℕ

unfoldable pub serialize_request : Request → List ℕ
serialize_request r =
    cmd_header ∷ (CtrlType.p2p_request ∷ (write_string r.target_stream_id ++ (r.flags ∷ [])))

unfoldable pub parse_request : Cursor Request
parse_request = do
  need 5
  ctrl ← read_u8
  check (ctrl == CtrlType.p2p_request)
  id_len ← read_be32
  need (id_len + 1)
  id ← read_bytes id_len
  flags ← read_u8
  return (record { target_stream_id = id; flags = flags })

pub record Address : Type 0 where
  pub ip : List ℕ
  pub port : ℕ

pub record Response : Type 0 where
  pub status : ℕ
  pub peer_session_id : ℕ
  pub peer_addr : Address
  pub your_addr : Address
  pub nat_type : ℕ
  pub subscriber_count : ℕ

unfoldable pub write_addr : Address → List ℕ
write_addr a = write_string a.ip ++ write_be16 a.port

unfoldable pub serialize_response : Response → List ℕ
serialize_response r =
    cmd_header
    ∷ (CtrlType.p2p_response
        ∷ (r.status
            ∷ (write_be32 r.peer_session_id
                ++ (write_addr r.peer_addr
                    ++ (write_addr r.your_addr ++ (r.nat_type ∷ (r.subscriber_count ∷ [])))))))

unfoldable pub read_addr : Cursor Address
read_addr = do
  need 4
  ip_len ← read_be32
  need (ip_len + 2)
  ip ← read_bytes ip_len
  port ← read_be16
  return (record { ip = ip; port = port })

unfoldable pub parse_response : Cursor Response
parse_response = do
  need 1
  skipped ← read_u8
  need 5
  status ← read_u8
  peer ← read_be32
  peer_addr ← read_addr
  your_addr ← read_addr
  need 2
  nat ← read_u8
  count ← read_u8
  return (record {
    status = status;
    peer_session_id = peer;
    peer_addr = peer_addr;
    your_addr = your_addr;
    nat_type = nat;
    subscriber_count = count;
  })

pub record Candidate : Type 0 where
  pub target_session_id : ℕ
  pub ip : List ℕ
  pub port : ℕ
  pub candidate_type : ℕ
  pub priority : ℕ

unfoldable pub serialize_candidate : Candidate → List ℕ
serialize_candidate c =
    cmd_header
    ∷ (CtrlType.p2p_candidate
        ∷ (write_be32 c.target_session_id
            ++ (write_string c.ip
                ++ (write_be16 c.port ++ (c.candidate_type ∷ write_be32 c.priority)))))

unfoldable pub parse_candidate : Cursor Candidate
parse_candidate = do
  need 1
  skipped ← read_u8
  need 4
  target ← read_be32
  need 4
  ip_len ← read_be32
  need (ip_len + 2 + 1 + 4)
  ip ← read_bytes ip_len
  port ← read_be16
  kind ← read_u8
  priority ← read_be32
  return (record {
    target_session_id = target;
    ip = ip;
    port = port;
    candidate_type = kind;
    priority = priority;
  })
