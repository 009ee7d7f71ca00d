-- ===== src/Signal/Stun.antt =====
-- The STUN messages of common/sfu_protocol/SfuP2PProtocol.h, and server/sfu_server/StunService.cpp.
-- An IPv4 address is the `s_addr` that `inet_addr` returns, a uint32_t as the host reads it; the
-- host is little-endian, so `htonl` reverses the four bytes.
pub mod RoundTrip
pub mod Bounds
use tj_rtc.Prelude.{
  ℕ, zero, suc, ◌+◌, ◌-◌, ◌*◌, ◌/◌, ◌%◌, ◌^◌, ◌≤◌, ◌<◌, min, max, bit_and, bit_or, bit_xor, ◌≡◌,
  refl, sym, ap, subst, ◌∙◌, fun_ext, ◌≢◌, ◌↔◌, ◌⊎◌, inl, inr, Bool, true, false, not, ◌&&◌, ◌||◌,
  Option, none, some, List, [], ◌∷◌, ◌++◌, map, append-nil, append_assoc, arith, dec_lt, dec_le,
  ℕ_discrete, ltb, leb, ◌==◌, if◌then◌else◌, ltb→lt, lt→ltb, leb→le, ==_iff, tests, Bool-cases,
  Option-cases, length, get_elem?, set, take, drop, replicate, All, length-append, length-take,
  length-drop, take-append-drop, take-length_append, drop-length_append, ◌<<<◌, ◌>>>◌, shift_or,
  low_mask, disjoint_or, lt_wf,
}
use tj_rtc.Bytes.{
  Outcome, ok, reject, fault, Cursor, ◌>>=◌, ◌>>◌, return, need, check, read_u8, read_bytes,
  read_rest, result, push, IsByte, write_be16, write_be32, write_be64, join16, join32, join64,
  read_be16, read_be32, read_be64, write_seq_num, read_seq_num, read_seq_loop, join16-sum,
  join32-sum, read_be16-write_be16, read_be32-write_be32, read_be64-write_be64, read_bytes-append,
  read_bytes-split, length-write_be16, length-write_be32, length-write_be64, length-write_seq_num,
  read_seq_num-write_seq_num, Leaves, Reads, bind-Reads, return-Reads, next_u8, next_need,
  next_check, next_bytes, next_rest, next_be16, next_be32, next_be64, next_seq_num, result-ne-fault,
  need-enough, check-passed, step_need, step_check, step_be16, step_be32, step_be64, step_bytes,
  step_seq_num, pack_nibbles, high_nibble, low_nibble, pack_nibbles-sum, high_nibble-pack_nibbles,
  low_nibble-pack_nibbles, bit_one, bit_two, or_flags,
}

abbrev pub magic_cookie : ℕ
magic_cookie = 0x2112_a442

abbrev pub binding_request : ℕ
binding_request = 0x0001

abbrev pub binding_response : ℕ
binding_response = 0x0101

abbrev pub xor_mapped_address : ℕ
xor_mapped_address = 0x0020

abbrev pub htonl : ℕ → ℕ
htonl x = x % 256 * 2 ^ 24 + x / 2 ^ 8 % 256 * 2 ^ 16 + x / 2 ^ 16 % 256 * 2 ^ 8 + x / 2 ^ 24 % 256

-- A transaction is a list of 12 bytes.
unfoldable pub build_request : List ℕ → List ℕ
build_request transaction =
    write_be16 binding_request ++ (write_be16 0 ++ (write_be32 magic_cookie ++ transaction))

-- The type and length of the one attribute, and the address in it.
unfoldable pub mapped_attribute : ℕ → ℕ → List ℕ
mapped_attribute s_addr port =
    write_be16 xor_mapped_address
    ++ (write_be16 8
        ++ (0
            ∷ (0x01
                ∷ (write_be16 (bit_xor port (magic_cookie >>> 16))
                    ++ write_be32 (bit_xor s_addr (htonl magic_cookie))))))

unfoldable pub build_response : List ℕ → ℕ → ℕ → List ℕ
unfolding mapped_attribute
build_response transaction s_addr port =
    write_be16 binding_response
    ++ (write_be16 12 ++ (write_be32 magic_cookie ++ (transaction ++ mapped_attribute s_addr port)))

pub record StunHeader : Type 0 where
  pub message_type : ℕ
  pub message_length : ℕ
  pub transaction_id : List ℕ

unfoldable pub parse_header : Cursor StunHeader
parse_header = do
  need 20
  type ← read_be16
  len ← read_be16
  cookie ← read_be32
  check (cookie == magic_cookie)
  transaction ← read_bytes 12
  return (record { message_type = type; message_length = len; transaction_id = transaction })

pub record MappedAddress : Type 0 where
  pub s_addr : ℕ
  pub port : ℕ

-- What one round of the loop over the attributes does: the address, or the length to skip.
pub data Attribute : Type 0 where
  mapped : MappedAddress → Attribute
  other : ℕ → Attribute

-- The value of an attribute is read from the bytes behind its head. They are not consumed here.
unfoldable pub read_mapped : Cursor MappedAddress
read_mapped = do
  reserved ← read_u8
  family ← read_u8
  port ← read_be16
  ip ← read_be32
  return (record {
    s_addr = bit_xor ip (htonl magic_cookie);
    port = bit_xor port (magic_cookie >>> 16);
  })

-- `(attrLen + 3) & ~3`
abbrev pub padded : ℕ → ℕ
padded len = (len + 3) / 4 * 4

unfoldable pub attribute_value : Bool → ℕ → Cursor Attribute
attribute_value true len = do a ← read_mapped; return (mapped a)
attribute_value false len = return (other len)

unfoldable pub read_attribute : Cursor Attribute
read_attribute = do
  need 4
  type ← read_be16
  len ← read_be16
  need len
  attribute_value (type == xor_mapped_address && leb 8 len) len

-- The address ends the loop; another attribute is skipped, and `rest` is run on what is behind it.
abbrev pub attribute_round :
    Outcome (Attribute × List ℕ) → Cursor MappedAddress → Outcome (MappedAddress × List ℕ)
attribute_round (ok (mapped a, bytes)) rest = ok (a, bytes)
attribute_round (ok (other len, bytes)) rest = rest (drop (padded len) bytes)
attribute_round reject rest = reject
attribute_round fault rest = fault

-- `while (off + 4 <= len)`. Each round takes 4 bytes at least, so `length bytes + 1` rounds are
-- enough; a round without fuel is a `fault`, and there is none. A `break` leaves `valid == false`.
unfoldable pub attribute_loop : ℕ → Cursor MappedAddress
attribute_loop zero bytes = fault
attribute_loop (suc fuel) bytes = attribute_round (read_attribute bytes) (attribute_loop fuel)

-- The attributes start at offset 20.
unfoldable pub parse_mapped_address : List ℕ → Outcome MappedAddress
parse_mapped_address bytes = result (attribute_loop (length bytes + 1) (drop 20 bytes))

pub record StunService : Type 0 where
  pub request_count : ℕ
  pub response_count : ℕ

abbrev pub answer : StunService → List ℕ → ℕ → StunService × Option (List ℕ)
answer s response capacity =
    if ltb capacity (length response)
    then (s, none)
    else (record s { response_count = s.response_count + 1 }, some response)

-- HandlePacket behind its parser; `s` has counted the packet.
abbrev pub handle_header :
    StunService → Outcome (StunHeader × List ℕ) → ℕ → ℕ → ℕ → StunService × Option (List ℕ)
handle_header s (ok (h, rest)) s_addr port capacity =
    if h.message_type == binding_request
    then answer s (build_response h.transaction_id s_addr port) capacity
    else (s, none)
handle_header s reject s_addr port capacity = (s, none)
handle_header s fault s_addr port capacity = (s, none)

-- HandlePacket, without its log line. `s_addr` and `port` are the sender's. `none` where it returns 0.
unfoldable pub handle_packet : StunService → List ℕ → ℕ → ℕ → ℕ → StunService × Option (List ℕ)
handle_packet s bytes s_addr port capacity =
    handle_header (record s { request_count = s.request_count + 1 }) (parse_header bytes) s_addr
      port capacity
