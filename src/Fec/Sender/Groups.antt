-- ===== src/Fec/Sender/Groups.antt =====
-- What the loop over the groups of a frame sends (libs/frame_protoc/src/sender.cpp).
use tj_rtc.Prelude.{
  ℕ, suc, ◌+◌, ◌^◌, ◌≤◌, ◌<◌, ◌≡◌, refl, sym, ap, subst, ◌∙◌, true, false, List, [], ◌∷◌, ◌++◌,
  append-nil, arith, ltb, lt→ltb, length, All,
}
use tj_rtc.Fec.Sender.State.{CachedBlock, FrameSender, send_block_packet, send_packet}
use tj_rtc.Fec.Sender.Cache.{store_block}
use tj_rtc.Fec.Sender.Frames.{GroupInfo, block_header, block_packet, send_block, send_blocks}
use tj_rtc.Fec.Sender.Packets.{IsPacket}
use tj_rtc.Fec.Sender.Cached.{store_block-IsCached}
use tj_rtc.Fec.Sender.Resent.{IsSender, send_block_packet_lem, send_block_packet-sent}
use tj_rtc.Fec.Sender.Blocks.{concat, data_of, data_of-append}
use tj_rtc.Fec.Sender.Sending.{
  packet_of, GroupFits, IsSeq, seq_len_lem, packet_of-IsPacket, block_packet-packet_bytes,
  packets_of, FrameInfo, info_of, Belongs, Sends, Sends-append,
}

module _ {F : Type 0} where
  send_block-Sends :
      (s : FrameSender F) (g : GroupInfo) (now index : ℕ) (payload : List ℕ)
      → IsSender s
      → s.send_cb ≡ true
      → GroupFits g
      → length payload ≡ g.block_bytes
      → s.data_seq + 1 < 2 ^ 64
      → Sends
          (info_of g)
          s
          (send_block s g now index payload)
          (packet_of g (s.data_seq + 1) index payload ∷ [])
  unfolding send_block
  send_block-Sends s g now index payload (id, v) on gv size word =
      let seq = s.data_seq + 1 in
      let packet = block_packet g seq index payload in
      let wire = packet_of g seq index payload in
      let written = block_packet-packet_bytes g seq index payload gv size in
      let is_seq : IsSeq seq = (omega arith, word) in
      let fits = packet_of-IsPacket g seq index payload gv is_seq size in
      let cached : CachedBlock = record {
        packet = packet;
        send_time_us = now;
        last_retransmit_us = 0;
        retry_count = 0;
      } in
      let next = record s { data_seq = seq; cache = store_block s.cache seq cached } in
      let (cache, frame, data_seq, count) = send_block_packet_lem next packet in
      record {
        out = send_block_packet-sent next packet on ∙ ap (λ p. s.sent ++ (p ∷ [])) written;
        counted = data_seq;
        numbered = (refl, tt);
        belong = (belongs g seq index payload fits is_seq gv, tt);
        valid = (
          omega (arith, frame),
          rw cache (
              store_block-IsCached s.cache seq cached v (record {
                wire = wire;
                fits = fits;
                numbered = refl;
                kept = written;
                counted = header_retry g index;
              })),
        );
        still_on = still next packet ∙ on;
        same_id = frame;
      }
    where
      still :
          (s : FrameSender F) (packet : List ℕ) → (send_block_packet s packet).send_cb ≡ s.send_cb
      still s packet = unfold send_block_packet send_packet in ground arith

      header_retry : (g : GroupInfo) (index : ℕ) → (block_header g index).retry_count ≡ 0
      header_retry g index = unfold block_header in refl

      belongs :
          (g : GroupInfo) (seq index : ℕ) (payload : List ℕ)
          → IsPacket (packet_of g seq index payload)
          → IsSeq seq
          → GroupFits g
          → Belongs (info_of g) (packet_of g seq index payload)
      belongs g seq index payload fits is_seq gv =
          let (low, high, holds, least) = seq_len_lem seq is_seq in
          unfold block_header in
          record {
            fits = fits;
            same_frame = refl;
            same_type = refl;
            same_size = refl;
            same_bytes = omega (arith, gv.bytes_fit);
            seq_len_least = least;
          }

  pub nothing-Sends :
      (f : FrameInfo) (s : FrameSender F) → IsSender s → s.send_cb ≡ true → Sends f s s []
  nothing-Sends f s v on = record {
    out = sym (append-nil s.sent);
    counted = omega arith;
    numbered = tt;
    belong = tt;
    valid = v;
    still_on = on;
    same_id = refl;
  }

  pub send_blocks-Sends :
      (s : FrameSender F) (g : GroupInfo) (now index : ℕ) (payloads : List (List ℕ))
      → IsSender s
      → s.send_cb ≡ true
      → GroupFits g
      → All (λ b. length b ≡ g.block_bytes) payloads
      → s.data_seq + length payloads < 2 ^ 64
      → Sends
          (info_of g)
          s
          (send_blocks s g now index payloads)
          (packets_of g s.data_seq index payloads)
  unfolding send_blocks
  send_blocks-Sends s g now index [] v on gv sizes word = nothing-Sends (info_of g) s v on
  send_blocks-Sends s g now index (payload ∷ payloads) v on gv (size, sizes) word =
      let t = send_block s g now index payload in
      let first = send_block-Sends s g now index payload v on gv size (omega arith) in
      let seq : t.data_seq ≡ s.data_seq + 1 = first.counted in
      let rest =
        send_blocks-Sends t g now (index + 1) payloads first.valid first.still_on gv sizes
          (omega (arith, seq)) in
      Sends-append (info_of g) (packet_of g (s.data_seq + 1) index payload ∷ [])
        (packets_of g (s.data_seq + 1) (index + 1) payloads) first
        (subst
          (λ n.
            Sends (info_of g) t (send_blocks t g now (index + 1) payloads)
              (packets_of g n (index + 1) payloads))
          seq rest)

-- The payloads of data blocks, and of recovery blocks.
data_of_originals :
    (g : GroupInfo) (seq index : ℕ) (payloads : List (List ℕ))
    → index + length payloads ≤ g.data_block_count
    → data_of (packets_of g seq index payloads) ≡ concat payloads
unfolding block_header
data_of_originals g seq index [] h = refl
data_of_originals g seq index (payload ∷ payloads) h =
    rw (lt→ltb index g.data_block_count (omega arith))
      (ap (λ t. payload ++ t) (data_of_originals g (seq + 1) (index + 1) payloads (omega arith)))

data_of_recovery :
    (g : GroupInfo) (seq index : ℕ) (payloads : List (List ℕ))
    → g.data_block_count ≤ index
    → data_of (packets_of g seq index payloads) ≡ []
unfolding block_header
data_of_recovery g seq index [] h = refl
data_of_recovery g seq index (payload ∷ payloads) h =
    let past : ltb index g.data_block_count ≡ false = ground arith in
    rw past (data_of_recovery g (seq + 1) (index + 1) payloads (omega arith))

packets_of-append :
    (g : GroupInfo) (seq index : ℕ) (a b : List (List ℕ))
    → packets_of g seq index (a ++ b)
      ≡ packets_of g seq index a ++ packets_of g (seq + length a) (index + length a) b
packets_of-append g seq index [] b =
    let here : seq ≡ seq + 0 = omega arith in
    let there : index ≡ index + 0 = omega arith in
    ap (λ n. packets_of g n index b) here ∙ ap (λ n. packets_of g (seq + 0) n b) there
packets_of-append g seq index (x ∷ a) b =
    let here : seq + 1 + length a ≡ seq + suc (length a) = omega arith in
    let there : index + 1 + length a ≡ index + suc (length a) = omega arith in
    ap (λ t. packet_of g (seq + 1) index x ∷ t)
      (packets_of-append g (seq + 1) (index + 1) a b
        ∙ ap (λ n. packets_of g (seq + 1) (index + 1) a ++ packets_of g n (index + 1 + length a) b)
            here
        ∙ ap (λ n. packets_of g (seq + 1) (index + 1) a ++ packets_of g (seq + suc (length a)) n b)
            there)

pub data_of_group :
    (g : GroupInfo) (seq : ℕ) (blocks recovery : List (List ℕ))
    → length blocks ≡ g.data_block_count
    → data_of (packets_of g seq 0 (blocks ++ recovery)) ≡ concat blocks
data_of_group g seq blocks recovery e =
    let later = packets_of g (seq + length blocks) (0 + length blocks) recovery in
    ap data_of (packets_of-append g seq 0 blocks recovery)
    ∙ data_of-append (packets_of g seq 0 blocks) later
    ∙ ap (λ t. t ++ data_of later) (data_of_originals g seq 0 blocks (omega arith))
    ∙ ap (λ t. concat blocks ++ t)
        (data_of_recovery g (seq + length blocks) (0 + length blocks) recovery (omega arith))
    ∙ append-nil (concat blocks)

pub length-packets_of :
    (g : GroupInfo) (seq index : ℕ) (payloads : List (List ℕ))
    → length (packets_of g seq index payloads) ≡ length payloads
length-packets_of g seq index [] = refl
length-packets_of g seq index (payload ∷ payloads) =
    ap suc (length-packets_of g (seq + 1) (index + 1) payloads)
