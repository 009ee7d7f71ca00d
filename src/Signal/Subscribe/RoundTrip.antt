-- ===== src/Signal/Subscribe/RoundTrip.antt =====
-- The messages of SfuSubscribeProtocol.h are read back as they were written.
use tj_rtc.Prelude.{
  ℕ, ◌+◌, ◌*◌, ◌^◌, ◌<◌, ◌≡◌, refl, Bool, none, some, List, [], ◌∷◌, ◌++◌, append_assoc, arith, ltb,
  if◌then◌else◌, length, drop, length-append, low_mask,
}
use tj_rtc.Bytes.{
  Outcome, ok, reject, Cursor, ◌>>=◌, ◌>>◌, need, read_u8, read_bytes, read_rest, write_be32,
  read_be32, step_need, step_check, step_be32, step_bytes, bit_one, bit_two, or_flags,
}
use native.Mathlib.Nat.{mod-eq_of_lt}
use tj_rtc.Signal.CtrlType.{stream_data, forward_data}
use tj_rtc.Signal.Subscribe.{
  SubscribeFlags, SubscribeReq, SubscribeResp, SessionData, encode_flags, decode_flags,
  write_string, serialize_subscribe_req, parse_subscribe_req, serialize_subscribe_resp,
  parse_subscribe_resp, session_bytes, serialize_stream_data, serialize_forward_data, write_session,
  serialize_stream_data_to, serialize_forward_data_to, parse_session, parse_stream_data,
  parse_forward_data,
}

abbrev bit01 : Bool → ℕ
bit01 b = if b then 1 else 0

encode_flags-sum :
    (a v d : Bool) (r : ℕ)
    → r < 32
    → encode_flags (record { audio = a; video = v; messages = d; reserved = r })
      ≡ bit01 a + bit01 v * 2 + bit01 d * 4 + r * 8
unfolding encode_flags
encode_flags-sum a v d r h = ground (arith, or_flags (bit01 a) (bit01 v) (bit01 d) r)

decode_flags-encode_flags :
    (f : SubscribeFlags) → f.reserved < 32 → decode_flags (encode_flags f) ≡ f
unfolding decode_flags
decode_flags-encode_flags f h =
    let e = encode_flags f in
    ground (
      arith,
      encode_flags-sum f.audio f.video f.messages f.reserved,
      low_mask 1 e,
      bit_one e,
      bit_two e,
    )

abbrev pub IsString : List ℕ → Type 0
IsString s = length s < 2 ^ 32

-- One string out of a message.
pub step_string {ℓ} :
    {B : Type ℓ} (s rest : List ℕ) (f : List ℕ → Cursor B) {o : Outcome (B × List ℕ)}
    → IsString s
    → f s rest ≡ o
    → (read_be32 >>= λ n. need n >> (read_bytes n >>= f)) (write_string s ++ rest) ≡ o
unfolding write_string
step_string s rest f h e =
    rw (mod-eq_of_lt h, append_assoc)
      (step_be32 _ _ _ h
        (step_need _ _ _ (omega (arith, length-append {0} s rest)) (step_bytes s rest _ _ refl e)))

pub length-write_string : (s : List ℕ) → length (write_string s) ≡ 4 + length s
unfolding write_string write_be32
length-write_string s = omega arith

-- What the server reads of a request, behind the header byte, is the request.
pub parse_subscribe_req-serialize :
    (r : SubscribeReq) (rest : List ℕ)
    → IsString r.stream_id
    → IsString r.user_id
    → r.flags.reserved < 32
    → parse_subscribe_req (drop 1 (serialize_subscribe_req r) ++ rest) ≡ ok (r, rest)
unfolding serialize_subscribe_req parse_subscribe_req read_u8
parse_subscribe_req-serialize r rest stream user flags =
    let stream_len = length-write_string r.stream_id in
    let user_len = length-write_string r.user_id in
    let tail : List ℕ = encode_flags r.flags ∷ rest in
    let user_size = length-append {0} (write_string r.user_id) tail in
    let stream_size =
      length-append {0} (write_string r.stream_id) (write_string r.user_id ++ tail) in
    simp append_assoc (
      step_need 7 _ _ (omega arith) (
        step_check _ _ _ refl (
          step_string r.stream_id _ _ stream (
            step_need 4 _ _ (omega arith) (
              step_string r.user_id _ _ user
                (step_need 1 _ _ (omega arith) (rw (decode_flags-encode_flags r.flags flags))))))))

-- What a client reads of a response, the whole message, is the response.
parse_subscribe_resp-serialize :
    (r : SubscribeResp) (rest : List ℕ)
    → r.session_id < 2 ^ 32
    → IsString r.reason
    → parse_subscribe_resp (serialize_subscribe_resp r ++ rest) ≡ ok (r, rest)
unfolding serialize_subscribe_resp parse_subscribe_resp read_u8
parse_subscribe_resp-serialize r rest session reason =
    let size = length-append {0} (write_string r.reason) rest in
    simp append_assoc (
      step_need 1 _ _ (omega arith) (
        step_need 6 _ _ (unfold write_be32 in omega arith) (
          step_check _ _ _ refl (
            step_be32 _ _ _ session (
              step_need 4 _ _ (omega (arith, length-write_string r.reason))
                (step_string r.reason _ _ reason refl))))))

parse_session-bytes :
    (ctrl : ℕ) (d : SessionData)
    → d.session_id < 2 ^ 32
    → 0 < length d.payload
    → parse_session ctrl (drop 1 (session_bytes ctrl d)) ≡ ok (d, [])
unfolding session_bytes parse_session read_u8 read_rest
parse_session-bytes ctrl d session some_bytes =
    step_need 6 _ _ (unfold write_be32 in omega arith)
      (step_check _ _ _ (ground arith) (step_be32 _ _ _ session refl))

-- What is read of stream and forward data behind the header byte is the message, if its payload
-- has a byte at least.
pub parse_session-serialize :
    (d : SessionData)
    → d.session_id < 2 ^ 32
    → 0 < length d.payload
    → (parse_stream_data (drop 1 (serialize_stream_data d)) ≡ ok (d, []))
      × (parse_forward_data (drop 1 (serialize_forward_data d)) ≡ ok (d, []))
unfolding serialize_stream_data serialize_forward_data parse_stream_data parse_forward_data
parse_session-serialize d session some_bytes = (
  parse_session-bytes stream_data d session some_bytes,
  parse_session-bytes forward_data d session some_bytes,
)

-- The parsers ask for one byte more than the fields take: data with an empty payload is written,
-- and rejected by the reader.
parse_session_empty :
    (id : ℕ)
    → let d : SessionData = record { session_id = id; payload = [] } in
      (parse_stream_data (drop 1 (serialize_stream_data d)) ≡ reject)
      × (parse_forward_data (drop 1 (serialize_forward_data d)) ≡ reject)
unfolding serialize_stream_data serialize_forward_data parse_stream_data parse_forward_data need
    write_be32
parse_session_empty id = (refl, refl)

write_session-bytes :
    (ctrl buf_size : ℕ) (d : SessionData)
    → write_session ctrl buf_size d
      ≡ (if ltb buf_size (length (session_bytes ctrl d)) then none else some (session_bytes ctrl d))
unfolding write_session session_bytes write_be32
write_session-bytes ctrl buf_size d = ground arith

-- The functions that write into the caller's buffer write what the others return, and fail exactly
-- where the buffer is too small for it.
serialize_to :
    (buf_size : ℕ) (d : SessionData)
    → (serialize_stream_data_to buf_size d ≡ (
        if ltb buf_size (length (serialize_stream_data d))
        then none
        else some (serialize_stream_data d)))
      × (serialize_forward_data_to buf_size d ≡ (
          if ltb buf_size (length (serialize_forward_data d))
          then none
          else some (serialize_forward_data d)))
unfolding serialize_stream_data_to serialize_forward_data_to serialize_stream_data
    serialize_forward_data
serialize_to buf_size d =
    (write_session-bytes stream_data buf_size d, write_session-bytes forward_data buf_size d)
