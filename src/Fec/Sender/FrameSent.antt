-- ===== src/Fec/Sender/FrameSent.antt =====
-- sendFrame sends a frame that a receiver can put together (libs/frame_protoc/src/sender.cpp).
use tj_rtc.Prelude.{
  ℕ, ◌+◌, ◌-◌, ◌*◌, ◌/◌, ◌%◌, ◌^◌, ◌≤◌, ◌<◌, ◌≡◌, refl, sym, ap, subst, inl, inr, true, false, some,
  List, [], ◌∷◌, ◌++◌, map, arith, leb, ◌==◌, Bool-cases, length, take, All,
}
use native.Mathlib.Nat.{mod-eq_of_lt, mul-le-mul_left, div-mul-le_self}
use tj_rtc.Fec.Sender.State.{MathOps, Encoder, SenderConfig, FrameSender}
use tj_rtc.Fec.Sender.Split.{
  max_payload_per_block, Layout, block_layout, group_count, max_group_size,
}
use tj_rtc.Fec.Sender.Layout.{group_count_holds, ceil_least, max_group_size_bounds}
use tj_rtc.Fec.Sender.Frames.{
  frame_plan, plan_layout, send_groups, finish_frame, send_planned, send_frame,
}
use tj_rtc.Fec.Sender.Packets.{BlockPacket, packet_bytes, length-packet_bytes}
use tj_rtc.Fec.Sender.Resent.{IsSender}
use tj_rtc.Fec.Sender.Blocks.{data_of, take-Extends}
use tj_rtc.Fec.Sender.Sending.{FrameInfo, Belongs, Numbered}
use tj_rtc.Fec.Sender.Grouping.{IsSplit, GroupsSent-IsSplit}
use tj_rtc.Fec.Sender.Framing.{EncoderWorks, Ahead, plan_info, send_groups_lem}
use tj_rtc.Fec.Sender.Delivers.{short_seq, planned_blocks-le, plan_layout-PlanFits}

few_blocks :
    (len payload k : ℕ)
    → 0 < payload
    → 0 < k
    → len ≤ k * payload
    → (block_layout len payload).total_data_blocks ≤ k
unfolding block_layout
few_blocks len payload k h some_k le = elim (Bool-cases (leb len payload)) [
  | inl one ↦ rw one (omega arith)
  | inr many ↦ rw many (ceil_least len payload k h le)
]

-- A longer header leaves less room.
less_room :
    (mtu seq_len : ℕ)
    → seq_len ≤ 8
    → max_payload_per_block mtu 8 ≤ max_payload_per_block mtu seq_len
unfolding max_payload_per_block
less_room mtu seq_len h = ground arith

room_le :
    (mtu seq_len : ℕ)
    → 0 < max_payload_per_block mtu seq_len
    → max_payload_per_block mtu seq_len + 16 + seq_len ≤ mtu
unfolding max_payload_per_block
room_le mtu seq_len h = ground arith

payload_small : (mtu seq_len : ℕ) → max_payload_per_block mtu seq_len ≤ 1450
unfolding max_payload_per_block
payload_small mtu seq_len = ground arith

-- No more groups than the blocks need.
group_count_needed :
    (total size : ℕ)
    → 0 < size
    → 0 < total
    → total ≤ 255 * size
    → group_count total size * size < total + size
unfolding group_count
group_count_needed total size h k few =
    let count = (total + size - 1) / size in
    let least : count ≤ 255 = ceil_least total size 255 h few in
    let small : count % 256 ≡ count = omega arith in
    let below = div-mul-le_self (total + size - 1) size in
    rw small (elim (Bool-cases (count == 0)) [
      | inl none_needed ↦ rw none_needed (omega arith)
      | inr needed ↦ rw needed (omega arith)
    ])

group_count_byte : (total size : ℕ) → group_count total size ≤ 255
unfolding group_count
group_count_byte total size = ground arith

-- A packet that fits the MTU.
abbrev pub FitsMtu : ℕ → BlockPacket → Type 0
FitsMtu mtu p = length (packet_bytes p) ≤ mtu

Belongs-FitsMtu :
    (mtu seq_len last : ℕ) (f : FrameInfo) (p : BlockPacket)
    → Belongs f p
    → f.block_bytes + 16 + seq_len ≤ mtu
    → p.common.seq_num ≤ last
    → last < 256 ^ seq_len
    → FitsMtu mtu p
Belongs-FitsMtu mtu seq_len last f p b room low fits =
    let short = short_seq seq_len p.common.seq_len p.common.seq_num b.seq_len_least (omega arith) in
    omega (arith, length-packet_bytes p, b.fits.payload_whole, b.same_bytes)

belong-FitsMtu :
    (mtu seq_len seq last : ℕ) (f : FrameInfo) (packets : List BlockPacket)
    → All (Belongs f) packets
    → Numbered seq packets
    → f.block_bytes + 16 + seq_len ≤ mtu
    → seq + length packets ≤ last
    → last < 256 ^ seq_len
    → All (FitsMtu mtu) packets
belong-FitsMtu mtu seq_len seq last f [] h n room low fits = tt
belong-FitsMtu mtu seq_len seq last f (p ∷ packets) (first, h) (number, n) room low fits = (
  Belongs-FitsMtu mtu seq_len last f p first room (omega arith) fits,
  belong-FitsMtu mtu seq_len (seq + 1) last f packets h n room (omega arith) fits,
)

-- What is said of the packets of a frame.
pub record FrameSent {F : Type 0} (codec : Encoder) (mtu : ℕ) (s t : FrameSender F) (frame : List ℕ)
    (frame_type : ℕ) (packets : List BlockPacket) : Type 0 where
  pub info : FrameInfo
  pub out : t.sent ≡ s.sent ++ map packet_bytes packets
  pub numbered : Numbered s.data_seq packets
  pub belong : All (Belongs info) packets
  pub same_id : info.frame_id ≡ (s.frame_id + 1) % 2 ^ 16
  pub same_type : info.frame_type ≡ frame_type
  pub same_size : info.frame_size ≡ length frame
  pub small : All (FitsMtu mtu) packets
  pub whole : take (length frame) (data_of packets) ≡ frame
  pub split : IsSplit codec info frame packets
  pub valid : IsSender t

module _ {F : Type 0} (ops : MathOps F) (codec : Encoder) where
  send_frame_step :
      (cfg : SenderConfig F) (s : FrameSender F) (frame : List ℕ) (frame_type now : ℕ)
      (layout : Layout) (t : FrameSender F)
      → (length frame == 0) ≡ false
      → codec.initialized ≡ true
      → plan_layout ops cfg.mtu s.data_seq s.current_fec_ratio (length frame) ≡ some layout
      → let next = record s { frame_id = (s.frame_id + 1) % 2 ^ 16 } in
        let plan = frame_plan ops next layout frame_type (length frame) now in
        send_groups ops codec plan plan.groups 0 frame next ≡ (t, true)
        → send_frame ops codec cfg s frame frame_type now
          ≡ (record t { stats = record t.stats { frames_sent = t.stats.frames_sent + 1 } }, true)
  unfolding send_frame send_planned frame_plan
  send_frame_step cfg s frame frame_type now layout t not_empty ready planned done =
      rw (not_empty, ready, planned, send_planned) (ap finish_frame done)

  -- With an encoder that does what is documented, a callback for packets, an MTU of 25 at least and
  -- sequence numbers that stay below 2 ^ 64, a frame of 1 to 2 ^ 32 - 1 bytes that at most 255 groups of
  -- blocks hold is sent whole, in packets of its number, type and size with consecutive sequence
  -- numbers, none of which is larger than the MTU: what the data blocks hold, cut at the frame's size, is
  -- the frame. The packets are those of groups, each of some data blocks and of what the erasure code
  -- makes of them.
  pub send_frame-FrameSent :
      (cfg : SenderConfig F) (s : FrameSender F) (frame : List ℕ) (frame_type now : ℕ)
      → EncoderWorks codec
      → IsSender s
      → s.send_cb ≡ true
      → 25 ≤ cfg.mtu
      → 0 < length frame
      → length frame < 2 ^ 32
      → length frame
        ≤ 255 * max_group_size ops s.current_fec_ratio * max_payload_per_block cfg.mtu 8
      → s.data_seq + 65025 < 2 ^ 64
      → (t : FrameSender F) × (packets : List BlockPacket) × (send_frame ops codec cfg s frame
            frame_type now
          ≡ (t, true))
        × FrameSent codec cfg.mtu s t frame frame_type packets
  unfolding send_frame send_planned frame_plan
  send_frame-FrameSent cfg s frame frame_type now works v on room some_len size_word few word =
      let ratio = s.current_fec_ratio in
      let size = max_group_size ops ratio in
      let (size_pos, size_byte) = max_group_size_bounds ops ratio in
      let next = record s { frame_id = (s.frame_id + 1) % 2 ^ 16 } in
      let (layout, planned, p) =
        plan_layout-PlanFits ops cfg.mtu s.data_seq ratio (length frame) room some_len word
          size_word in
      let payload = max_payload_per_block cfg.mtu p.seq_len in
      let holds = p.holds in
      let payload_pos : 0 < payload = omega (arith, holds.room, holds.some_bytes) in
      let groups_room : length frame ≤ 255 * size * payload =
        omega (arith, mul-le-mul_left (255 * size) (less_room cfg.mtu p.seq_len p.seq_len_max)) in
      let made : layout ≡ block_layout (length frame) payload = p.made in
      let total_few : layout.total_data_blocks ≤ 255 * size =
        subst (λ (l : Layout). l.total_data_blocks ≤ 255 * size) (sym made)
          (few_blocks (length frame) payload (255 * size) payload_pos (omega arith) groups_room) in
      let groups = group_count layout.total_data_blocks size in
      let plan = frame_plan ops next layout frame_type (length frame) now in
      let none_done : layout.total_data_blocks - 0 * size ≡ layout.total_data_blocks =
        omega arith in
      let not_empty : (length frame == 0) ≡ false = ground arith in
      let ahead : Ahead plan groups 0 frame next = record {
        size_pos = size_pos;
        size_byte = size_byte;
        bytes_pos = holds.some_bytes;
        bytes_fit = omega (arith, holds.room, payload_small cfg.mtu p.seq_len);
        total_word = omega arith;
        enough = omega (arith, group_count_holds layout.total_data_blocks size size_pos total_few);
        needed = omega (
          arith,
          group_count_needed layout.total_data_blocks size size_pos holds.some_blocks total_few,
        );
        held = subst (λ n. length frame ≤ n * layout.block_bytes) (sym none_done) holds.whole;
        seq_word = omega (arith, group_count_byte layout.total_data_blocks size);
      } in
      let (t, packets, done, sends, split, whole, count) =
        send_groups_lem ops codec works plan groups 0 frame next (omega arith, v.1) on ahead in
      let room_enough = room_le cfg.mtu p.seq_len payload_pos in
      let blocks_le = planned_blocks-le ops ratio layout in
      (
        record t { stats = record t.stats { frames_sent = t.stats.frames_sent + 1 } },
        packets,
        send_frame_step cfg s frame frame_type now layout t not_empty works.ready planned done,
        record {
          info = plan_info plan next.frame_id;
          out = sends.out;
          numbered = sends.numbered;
          belong = sends.belong;
          same_id = refl;
          same_type = refl;
          same_size = mod-eq_of_lt size_word;
          small =
              belong-FitsMtu cfg.mtu p.seq_len s.data_seq (s.data_seq + length packets)
                (plan_info plan next.frame_id) packets sends.belong sends.numbered
                (omega (arith, holds.room)) (omega arith) (omega (arith, p.below, count));
          whole = take-Extends frame (data_of packets) whole;
          split =
              GroupsSent-IsSplit codec (plan_info plan next.frame_id) groups frame packets split
                whole;
          valid = (sends.valid.0, sends.valid.1);
        },
      )
