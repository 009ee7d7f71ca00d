-- ===== src/Signal/Subscribe.antt =====
-- common/sfu_protocol/SfuSubscribeProtocol.h. The server's parsers get the bytes behind the header
-- byte, the client's the whole message. A string is the list of its bytes. A parser's struct with
-- `valid == false` is `reject`: its callers read no other field of it.
pub mod RoundTrip
pub mod Bounds
use tj_rtc.Prelude.{
  ℕ, zero, suc, ◌+◌, ◌-◌, ◌*◌, ◌/◌, ◌%◌, ◌^◌, ◌≤◌, ◌<◌, min, max, bit_and, bit_or, bit_xor, ◌≡◌,
  refl, sym, ap, subst, ◌∙◌, fun_ext, ◌≢◌, ◌↔◌, ◌⊎◌, inl, inr, Bool, true, false, not, ◌&&◌, ◌||◌,
  Option, none, some, List, [], ◌∷◌, ◌++◌, map, append-nil, append_assoc, arith, dec_lt, dec_le,
  ℕ_discrete, ltb, leb, ◌==◌, if◌then◌else◌, ltb→lt, lt→ltb, leb→le, ==_iff, tests, Bool-cases,
  Option-cases, length, get_elem?, set, take, drop, replicate, All, length-append, length-take,
  length-drop, take-append-drop, take-length_append, drop-length_append, ◌<<<◌, ◌>>>◌, shift_or,
  low_mask, disjoint_or, lt_wf,
}
use tj_rtc.Bytes.{
  Outcome, ok, reject, fault, Cursor, ◌>>=◌, ◌>>◌, return, need, check, read_u8, read_bytes,
  read_rest, result, push, IsByte, write_be16, write_be32, write_be64, join16, join32, join64,
  read_be16, read_be32, read_be64, write_seq_num, read_seq_num, read_seq_loop, join16-sum,
  join32-sum, read_be16-write_be16, read_be32-write_be32, read_be64-write_be64, read_bytes-append,
  read_bytes-split, length-write_be16, length-write_be32, length-write_be64, length-write_seq_num,
  read_seq_num-write_seq_num, Leaves, Reads, bind-Reads, return-Reads, next_u8, next_need,
  next_check, next_bytes, next_rest, next_be16, next_be32, next_be64, next_seq_num, result-ne-fault,
  need-enough, check-passed, step_need, step_check, step_be16, step_be32, step_be64, step_bytes,
  step_seq_num, pack_nibbles, high_nibble, low_nibble, pack_nibbles-sum, high_nibble-pack_nibbles,
  low_nibble-pack_nibbles, bit_one, bit_two, or_flags,
}
use tj_rtc.Signal.CtrlType.{subscribe_req, subscribe_resp, stream_data, forward_data}
use tj_rtc.Signal.Header.{protocol_version, cmd_type, make_header}

abbrev pub cmd_header : ℕ
cmd_header = make_header protocol_version cmd_type

pub record SubscribeFlags : Type 0 where
  pub audio : Bool
  pub video : Bool
  pub messages : Bool
  pub reserved : ℕ

abbrev pub bit : Bool → ℕ → ℕ
bit b weight = if b then weight else 0

unfoldable pub encode_flags : SubscribeFlags → ℕ
encode_flags f =
    bit_or (bit_or (bit_or (bit f.audio 1) (bit f.video 2)) (bit f.messages 4)) (f.reserved <<< 3)
    % 256

-- A bit-field of type bool takes whether the number is not 0.
unfoldable pub decode_flags : ℕ → SubscribeFlags
decode_flags flags = record {
  audio = not (bit_and flags 1 == 0);
  video = not (bit_and flags 2 == 0);
  messages = not (bit_and flags 4 == 0);
  reserved = (flags >>> 3) % 32;
}

-- A length in four bytes, and the string.
unfoldable pub write_string : List ℕ → List ℕ
write_string s = write_be32 (length s % 2 ^ 32) ++ s

pub record SubscribeReq : Type 0 where
  pub role : ℕ
  pub stream_id : List ℕ
  pub user_id : List ℕ
  pub flags : SubscribeFlags

unfoldable pub serialize_subscribe_req : SubscribeReq → List ℕ
serialize_subscribe_req r =
    cmd_header
    ∷ (subscribe_req
        ∷ (r.role
            ∷ (write_string r.stream_id
                ++ (write_string r.user_id ++ (encode_flags r.flags ∷ [])))))

unfoldable pub parse_subscribe_req : Cursor SubscribeReq
parse_subscribe_req = do
  need 7
  ctrl ← read_u8
  check (ctrl == subscribe_req)
  role ← read_u8
  stream_len ← read_be32
  need stream_len
  stream ← read_bytes stream_len
  need 4
  user_len ← read_be32
  need user_len
  user ← read_bytes user_len
  need 1
  flags ← read_u8
  return (record { role = role; stream_id = stream; user_id = user; flags = decode_flags flags })

pub record SubscribeResp : Type 0 where
  pub session_id : ℕ
  pub status : ℕ
  pub reason : List ℕ

unfoldable pub serialize_subscribe_resp : SubscribeResp → List ℕ
serialize_subscribe_resp r =
    cmd_header ∷ (subscribe_resp ∷ (write_be32 r.session_id ++ (r.status ∷ write_string r.reason)))

-- `len < 1 + 1 + 4 + 1` of the whole message is 6 bytes behind the header.
unfoldable pub parse_subscribe_resp : Cursor SubscribeResp
parse_subscribe_resp = do
  need 1
  header ← read_u8
  need 6
  ctrl ← read_u8
  check (ctrl == subscribe_resp)
  session ← read_be32
  status ← read_u8
  need 4
  reason_len ← read_be32
  need reason_len
  reason ← read_bytes reason_len
  return (record { session_id = session; status = status; reason = reason })

-- StreamData and ForwardData: a payload under a session's number.
pub record SessionData : Type 0 where
  pub session_id : ℕ
  pub payload : List ℕ

unfoldable pub session_bytes : ℕ → SessionData → List ℕ
session_bytes ctrl d = cmd_header ∷ (ctrl ∷ (write_be32 d.session_id ++ d.payload))

unfoldable pub serialize_stream_data : SessionData → List ℕ
unfolding session_bytes
serialize_stream_data d = session_bytes stream_data d

unfoldable pub serialize_forward_data : SessionData → List ℕ
unfolding session_bytes
serialize_forward_data d = session_bytes forward_data d

-- Written byte by byte into the caller's buffer: `none` where the code returns 0.
unfoldable pub write_session : ℕ → ℕ → SessionData → Option (List ℕ)
write_session ctrl buf_size d =
    let id = d.session_id in
    if ltb buf_size (6 + length d.payload)
    then none
    else some (
        cmd_header
        ∷ (ctrl
            ∷ (((id >>> 24) % 256)
                ∷ (((id >>> 16) % 256) ∷ (((id >>> 8) % 256) ∷ ((id % 256) ∷ d.payload))))))

unfoldable pub serialize_stream_data_to : ℕ → SessionData → Option (List ℕ)
unfolding write_session
serialize_stream_data_to buf_size d = write_session stream_data buf_size d

unfoldable pub serialize_forward_data_to : ℕ → SessionData → Option (List ℕ)
unfolding write_session
serialize_forward_data_to buf_size d = write_session forward_data buf_size d

unfoldable pub parse_session : ℕ → Cursor SessionData
parse_session expected = do
  need 6
  ctrl ← read_u8
  check (ctrl == expected)
  session ← read_be32
  payload ← read_rest
  return (record { session_id = session; payload = payload })

unfoldable pub parse_stream_data : Cursor SessionData
unfolding parse_session
parse_stream_data = parse_session stream_data

unfoldable pub parse_forward_data : Cursor SessionData
unfolding parse_session
parse_forward_data = parse_session forward_data
