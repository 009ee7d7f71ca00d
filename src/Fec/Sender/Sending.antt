-- ===== src/Fec/Sender/Sending.antt =====
-- What sendFrame puts on the wire: the loop over the blocks of a group.
use tj_rtc.Prelude.{
  ℕ, suc, ◌+◌, ◌-◌, ◌*◌, ◌%◌, ◌^◌, ◌≤◌, ◌<◌, ◌≡◌, refl, sym, ap, subst, ◌∙◌, true, false, List, [],
  ◌∷◌, ◌++◌, map, append-nil, append_assoc, arith, ◌==◌, length, take, All, length-append,
  take-length_append,
}
use tj_rtc.Fec.Seq.{compute_seq_len}
use tj_rtc.Fec.Seq.Length.{compute_seq_len_least}
use tj_rtc.Fec.Header.{CommonHeader, DataHeader, serialize_common, serialize_data, data_bytes}
use tj_rtc.Fec.Header.RoundTrip.{common_bytes}
use tj_rtc.Fec.Sender.State.{FrameSender}
use tj_rtc.Fec.Sender.Control.{msg_data, written}
use tj_rtc.Fec.Sender.Split.{data_packet_header_size}
use tj_rtc.Fec.Sender.Frames.{at_least_one, GroupInfo, block_header, block_packet}
use tj_rtc.Fec.Sender.Packets.{BlockPacket, packet_bytes, IsPacket}
use tj_rtc.Fec.Sender.Resent.{IsSender}
use tj_rtc.Prelude.{All-append}

abbrev pub packet_of : GroupInfo → ℕ → ℕ → List ℕ → BlockPacket
packet_of g seq index payload = record {
  common = record {
    version = 1;
    seq_len = at_least_one (compute_seq_len seq);
    msg_type = msg_data;
    seq_num = seq;
  };
  header = block_header g index;
  payload = payload;
}

-- The ranges of the fields of a group.
pub record GroupFits (g : GroupInfo) : Type 0 where
  pub frame_id_fits : g.frame_id < 2 ^ 16
  pub frame_size_fits : g.frame_size < 2 ^ 32
  pub bytes_fit : g.block_bytes < 4096

abbrev pub IsSeq : ℕ → Type 0
IsSeq seq = (0 < seq) × (seq < 2 ^ 64)

pub seq_len_lem :
    (seq : ℕ)
    → IsSeq seq
    → let n = at_least_one (compute_seq_len seq) in
      (1 ≤ n) × (n ≤ 8) × (seq < 256 ^ n) × (256 ^ n ≤ 256 * seq)
seq_len_lem seq (some_seq, word) =
    let (low, high, fits, least) = compute_seq_len_least seq some_seq word in
    let n = compute_seq_len seq in
    let positive : (n == 0) ≡ false = ground arith in rw positive (low, high, fits, least)

pub packet_of-IsPacket :
    (g : GroupInfo) (seq index : ℕ) (payload : List ℕ)
    → GroupFits g
    → IsSeq seq
    → length payload ≡ g.block_bytes
    → IsPacket (packet_of g seq index payload)
unfolding block_header
packet_of-IsPacket g seq index payload v k e =
    let (low, high, fits, least) = seq_len_lem seq k in
    record {
      common_fits = record {
        version_fits = omega arith;
        seq_len_min = low;
        seq_len_max = high;
        seq_num_fits = fits;
        seq_num_word = k.1;
      };
      frame_id_fits = v.frame_id_fits;
      frame_size_fits = v.frame_size_fits;
      payload_fits = omega (arith, v.bytes_fit);
      retry_fits = omega arith;
      payload_whole = omega (arith, v.bytes_fit);
    }

pub serialize_common_fits :
    (h : CommonHeader) (size : ℕ)
    → 2 + h.seq_len ≤ size
    → written (serialize_common h size) ≡ common_bytes h
unfolding serialize_common
serialize_common_fits h size le = ground arith

serialize_data_fits :
    (h : DataHeader) (size : ℕ) → 14 ≤ size → written (serialize_data h size) ≡ data_bytes h
unfolding serialize_data
serialize_data_fits h size le = ground arith

take_whole : (xs : List ℕ) (n : ℕ) → n ≡ length xs → take n xs ≡ xs
take_whole xs n e =
    ap (λ k. take k xs) e
    ∙ ap (λ t. take (length xs) t) (sym (append-nil xs))
    ∙ take-length_append xs []

pub block_packet-packet_bytes :
    (g : GroupInfo) (seq index : ℕ) (payload : List ℕ)
    → GroupFits g
    → length payload ≡ g.block_bytes
    → block_packet g seq index payload ≡ packet_bytes (packet_of g seq index payload)
unfolding block_packet
block_packet-packet_bytes g seq index payload v e =
    let seq_len = at_least_one (compute_seq_len seq) in
    let size = data_packet_header_size seq_len + g.block_bytes % 2 ^ 16 in
    let p = packet_of g seq index payload in
    rw (
      serialize_common_fits p.common size (omega arith),
      serialize_data_fits p.header (size - (2 + seq_len)) (omega arith),
      take_whole payload (g.block_bytes % 2 ^ 16) (omega (arith, v.bytes_fit)),
    )

-- The packets of a list of blocks, from the block `index` on.
abbrev pub packets_of : GroupInfo → ℕ → ℕ → List (List ℕ) → List BlockPacket
packets_of g seq index [] = []
packets_of g seq index (payload ∷ payloads) =
    packet_of g (seq + 1) index payload ∷ packets_of g (seq + 1) (index + 1) payloads

-- The frame that the packets belong to.
pub record FrameInfo : Type 0 where
  pub frame_id : ℕ
  pub frame_type : ℕ
  pub frame_size : ℕ
  pub block_bytes : ℕ

abbrev pub info_of : GroupInfo → FrameInfo
info_of g = record {
  frame_id = g.frame_id;
  frame_type = g.frame_type;
  frame_size = g.frame_size;
  block_bytes = g.block_bytes;
}

-- A packet of the frame, one the sender may keep.
pub record Belongs (f : FrameInfo) (p : BlockPacket) : Type 0 where
  pub fits : IsPacket p
  pub same_frame : p.header.frame_id ≡ f.frame_id
  pub same_type : p.header.frame_type ≡ f.frame_type
  pub same_size : p.header.frame_size ≡ f.frame_size
  pub same_bytes : p.header.payload_length ≡ f.block_bytes
  pub seq_len_least : 256 ^ p.common.seq_len ≤ 256 * p.common.seq_num

-- The sequence numbers follow on `seq`, without a gap.
abbrev pub Numbered : ℕ → List BlockPacket → Type 0
Numbered seq [] = Unit {0}
Numbered seq (p ∷ packets) = (p.common.seq_num ≡ seq + 1) × Numbered (seq + 1) packets

pub Numbered-append :
    (seq : ℕ) (a b : List BlockPacket)
    → Numbered seq a
    → Numbered (seq + length a) b
    → Numbered seq (a ++ b)
Numbered-append seq [] b h k = let e : seq + 0 ≡ seq = omega arith in (rw e at k)
Numbered-append seq (p ∷ a) b (first, h) k =
    let e : seq + suc (length a) ≡ seq + 1 + length a = omega arith in
    (first, Numbered-append (seq + 1) a b h (rw e at k))

-- What a sender has sent between two states.
pub record Sends {F : Type 0} (f : FrameInfo) (s t : FrameSender F) (packets : List BlockPacket)
    : Type 0 where
  pub out : t.sent ≡ s.sent ++ map packet_bytes packets
  pub counted : t.data_seq ≡ s.data_seq + length packets
  pub numbered : Numbered s.data_seq packets
  pub belong : All (Belongs f) packets
  pub valid : IsSender t
  pub still_on : t.send_cb ≡ true
  pub same_id : t.frame_id ≡ s.frame_id

map-append :
    (a b : List BlockPacket) → map packet_bytes (a ++ b) ≡ map packet_bytes a ++ map packet_bytes b
map-append [] b = refl
map-append (p ∷ a) b = ap (λ t. packet_bytes p ∷ t) (map-append a b)

pub Sends-append :
    {F : Type 0} (f : FrameInfo) {s t u : FrameSender F} (a b : List BlockPacket)
    → Sends f s t a
    → Sends f t u b
    → Sends f s u (a ++ b)
Sends-append f {s} a b h k = record {
  out =
      k.out
      ∙ ap (λ x. x ++ map packet_bytes b) h.out
      ∙ append_assoc s.sent (map packet_bytes a) (map packet_bytes b)
      ∙ ap (λ x. s.sent ++ x) (sym (map-append a b));
  counted = omega (arith, h.counted, k.counted, length-append {0} a b);
  numbered =
      Numbered-append s.data_seq a b h.numbered (subst (λ n. Numbered n b) h.counted k.numbered);
  belong = All-append (Belongs f) a b h.belong k.belong;
  valid = k.valid;
  still_on = k.still_on;
  same_id = k.same_id ∙ h.same_id;
}
