-- ===== src/Fec/Sender/Packets.antt =====
-- The packets of data blocks as they go over the wire, and what a retransmission changes in them.
use tj_rtc.Prelude.{
  ℕ, suc, ◌+◌, ◌*◌, ◌^◌, ◌<◌, bit_and, bit_or, ◌≡◌, refl, ap, ◌∙◌, Bool, true, List, [], ◌∷◌, ◌++◌,
  arith, ltb, if◌then◌else◌, lt→ltb, length, length-append, ◌<<<◌, ◌>>>◌, shift_or, low_mask,
  bit_or_comm,
}
use tj_rtc.Bytes.{
  ok, write_be16, write_be32, length-write_seq_num, pack_nibbles, low_nibble,
  low_nibble-pack_nibbles,
}
use tj_rtc.Fec.Header.{CommonHeader, DataHeader, data_bytes, deserialize_common, deserialize_data}
use tj_rtc.Fec.Header.RoundTrip.{
  IsCommon, on_wire, deserialize_common-bytes, deserialize_data-bytes, common_bytes,
}
use tj_rtc.Fec.Sender.Retransmit.{patch_high, patch_retry_count}

-- A packet: its two headers and its payload.
pub record BlockPacket : Type 0 where
  pub common : CommonHeader
  pub header : DataHeader
  pub payload : List ℕ

abbrev pub packet_bytes : BlockPacket → List ℕ
packet_bytes p = common_bytes p.common ++ (data_bytes p.header ++ p.payload)

abbrev pub with_retry : BlockPacket → ℕ → BlockPacket
with_retry p n = record p { header = record p.header { retry_count = n } }

-- What a sender may keep: headers that the wire holds, and the payload that the header announces.
pub record IsPacket (p : BlockPacket) : Type 0 where
  pub common_fits : IsCommon p.common
  pub frame_id_fits : p.header.frame_id < 2 ^ 16
  pub frame_size_fits : p.header.frame_size < 2 ^ 32
  pub payload_fits : p.header.payload_length < 4096
  pub retry_fits : p.header.retry_count < 256
  pub payload_whole : length p.payload ≡ p.header.payload_length

patch_high-append :
    (front back : List ℕ) (offset retry : ℕ)
    → patch_high (front ++ back) (length front + offset) retry
      ≡ front ++ patch_high back offset retry
unfolding patch_high
patch_high-append [] back offset retry =
    let e : 0 + offset ≡ offset = omega arith in ap (λ n. patch_high back n retry) e
patch_high-append (b ∷ front) back offset retry =
    let e : suc (length front) + offset ≡ suc (length front + offset) = omega arith in
    ap (λ n. patch_high (b ∷ (front ++ back)) n retry) e
    ∙ ap (λ t. b ∷ t) (patch_high-append front back offset retry)

patched_byte :
    (old retry low : ℕ)
    → bit_or (bit_and (pack_nibbles old low) 0x0f) (bit_and retry 0x0f <<< 4)
      ≡ pack_nibbles retry low
patched_byte old retry low = omega (
  arith,
  low_nibble-pack_nibbles old low,
  bit_or_comm (bit_and (pack_nibbles old low) 0x0f) (bit_and retry 0x0f * 16),
  low_mask 4 low,
  low_mask 4 retry,
  shift_or 4 (bit_and retry 0x0f) (bit_and (pack_nibbles old low) 0x0f)
      (omega (arith, low_nibble-pack_nibbles old low)),
  shift_or 4 (bit_and retry 0x0f) (bit_and low 0x0f) (omega (arith, low_mask 4 low)),
)

patch_high-data_bytes :
    (h : DataHeader) (rest : List ℕ) (retry : ℕ)
    → patch_high (data_bytes h ++ rest) 12 retry
      ≡ data_bytes (record h { retry_count = retry }) ++ rest
unfolding patch_high data_bytes write_be16 write_be32
patch_high-data_bytes h rest retry =
    rw (patched_byte h.retry_count retry (h.payload_length >>> 8)) refl

length-data_bytes : (h : DataHeader) → length (data_bytes h) ≡ 14
unfolding data_bytes write_be16 write_be32
length-data_bytes h = refl

-- The byte that retransmitBlock changes is the one of the retry count: the packet gets the new
-- count, and all else of it stays.
pub patch_retry_count-packet_bytes :
    (p : BlockPacket) (n : ℕ)
    → IsPacket p
    → patch_retry_count (packet_bytes p) n ≡ packet_bytes (with_retry p n)
unfolding patch_retry_count
patch_retry_count-packet_bytes p n v =
    let front = common_bytes p.common in
    let back = data_bytes p.header ++ p.payload in
    let seq_len = p.common.seq_len in
    let low : low_nibble (pack_nibbles p.common.version seq_len) ≡ seq_len =
      omega (arith, low_nibble-pack_nibbles p.common.version seq_len, v.common_fits.seq_len_max) in
    let size : length front ≡ 2 + seq_len =
      omega (arith, length-write_seq_num p.common.seq_num seq_len) in
    let whole : length (front ++ back) ≡ 2 + seq_len + (14 + length p.payload) = omega (
      arith,
      length-append {0} front back,
      length-append {0} (data_bytes p.header) p.payload,
      length-data_bytes p.header,
    ) in
    let long : ltb (2 + seq_len + 12) (length (front ++ back)) ≡ true = lt→ltb _ _ (omega arith) in
    let at : 2 + low_nibble (pack_nibbles p.common.version seq_len) + 12 ≡ length front + 12 =
      omega arith in
    ap
      (λ k.
        if ltb k (length (front ++ back)) then patch_high (front ++ back) k n else (front ++ back))
      at
    ∙ ap
        (λ (t : Bool).
          if t then patch_high (front ++ back) (length front + 12) n else (front ++ back))
        (lt→ltb (length front + 12) (length (front ++ back)) (omega arith))
    ∙ patch_high-append front back 12 n
    ∙ ap (λ t. front ++ t) (patch_high-data_bytes p.header p.payload n)

-- What the receiver reads of a packet.
pub read_packet :
    (p : BlockPacket)
    → IsPacket p
    → (deserialize_common (packet_bytes p) ≡ ok (p.common, data_bytes p.header ++ p.payload))
      × (deserialize_data (data_bytes p.header ++ p.payload) ≡ ok (on_wire p.header, p.payload))
read_packet p v = (
  deserialize_common-bytes p.common (data_bytes p.header ++ p.payload) v.common_fits,
  deserialize_data-bytes p.header p.payload v.frame_id_fits v.frame_size_fits,
)

pub length-packet_bytes :
    (p : BlockPacket) → length (packet_bytes p) ≡ 2 + p.common.seq_len + 14 + length p.payload
length-packet_bytes p = omega (
  arith,
  length-append {0} (common_bytes p.common) (data_bytes p.header ++ p.payload),
  length-append {0} (data_bytes p.header) p.payload,
  length-data_bytes p.header,
  length-write_seq_num p.common.seq_num p.common.seq_len,
)
