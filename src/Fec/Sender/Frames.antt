-- ===== src/Fec/Sender/Frames.antt =====
-- sendFrame of libs/frame_protoc/src/sender.cpp.
use tj_rtc.Prelude.{
  ℕ, zero, suc, ◌+◌, ◌-◌, ◌%◌, ◌^◌, Bool, true, false, not, Option, none, some, List, [], ◌∷◌, ◌++◌,
  ltb, ◌==◌, if◌then◌else◌, length, take,
}
use tj_rtc.Fec.Seq.{compute_seq_len}
use tj_rtc.Fec.Header.{DataHeader, serialize_common, serialize_data}
use tj_rtc.Fec.Sender.State.{
  MathOps, Encoder, SenderConfig, CachedBlock, FrameSender, send_block_packet,
}
use tj_rtc.Fec.Sender.Cache.{store_block}
use tj_rtc.Fec.Sender.Control.{msg_data, written}
use tj_rtc.Fec.Sender.Split.{
  data_packet_header_size, max_payload_per_block, Layout, block_layout, group_count,
  group_data_blocks, cut_blocks, max_group_size, fec_block_count, estimate_blocks,
}

abbrev pub at_least_one : ℕ → ℕ
at_least_one n = if n == 0 then 1 else n

-- What is the same in every packet of a group.
pub record GroupInfo : Type 0 where
  pub frame_id : ℕ
  pub data_block_count : ℕ
  pub fec_block_count : ℕ
  pub fec_group_index : ℕ
  pub fec_group_count : ℕ
  pub frame_type : ℕ
  pub frame_size : ℕ
  pub block_bytes : ℕ

unfoldable pub block_header : GroupInfo → ℕ → DataHeader
block_header g index = record {
  frame_id = g.frame_id;
  data_block_count = g.data_block_count;
  fec_block_count = g.fec_block_count;
  block_index = index;
  fec_group_index = g.fec_group_index;
  fec_group_count = g.fec_group_count;
  frame_type = g.frame_type;
  frame_size = g.frame_size;
  retry_count = 0;
  payload_length = g.block_bytes % 2 ^ 16;
}

-- The packet of block `index` under the sequence number `seq`.
unfoldable pub block_packet : GroupInfo → ℕ → ℕ → List ℕ → List ℕ
unfolding block_header
block_packet g seq index payload =
    let seq_len = at_least_one (compute_seq_len seq) in
    let packet_size = data_packet_header_size seq_len + g.block_bytes % 2 ^ 16 in
    written (
      serialize_common
        (record { version = 1; seq_len = seq_len; msg_type = msg_data; seq_num = seq }) packet_size)
    ++ (written (serialize_data (block_header g index) (packet_size - (2 + seq_len)))
        ++ take (g.block_bytes % 2 ^ 16) payload)

module _ {F : Type 0} where
  -- One round of the loop over the blocks of a group: the packet goes into the cache and out.
  unfoldable pub send_block : FrameSender F → GroupInfo → ℕ → ℕ → List ℕ → FrameSender F
  unfolding send_block_packet block_packet store_block
  send_block s g now_us index payload =
      let seq = s.data_seq + 1 in
      let packet = block_packet g seq index payload in
      let cached : CachedBlock = record {
        packet = packet;
        send_time_us = now_us;
        last_retransmit_us = 0;
        retry_count = 0;
      } in
      send_block_packet (record s { data_seq = seq; cache = store_block s.cache seq cached }) packet

  unfoldable pub send_blocks : FrameSender F → GroupInfo → ℕ → ℕ → List (List ℕ) → FrameSender F
  unfolding send_block
  send_blocks s g now_us index [] = s
  send_blocks s g now_us index (payload ∷ payloads) =
      send_blocks (send_block s g now_us index payload) g now_us (index + 1) payloads

  abbrev pub finish_frame : FrameSender F × Bool → FrameSender F × Bool
  finish_frame (s, true) =
      (record s { stats = record s.stats { frames_sent = s.stats.frames_sent + 1 } }, true)
  finish_frame (s, false) = (s, false)

-- What sendFrame has fixed before its loop over the groups.
pub record FramePlan (F : Type 0) : Type 0 where
  pub ratio : F
  pub layout : Layout
  pub group_size : ℕ
  pub groups : ℕ
  pub frame_type : ℕ
  pub len : ℕ
  pub now_us : ℕ

-- `recovery_buf`: empty where no recovery block is asked for.
unfoldable pub recovery_blocks : Encoder → GroupInfo → List (List ℕ) → Option (List (List ℕ))
recovery_blocks codec g blocks =
    if ltb 0 g.fec_block_count
    then codec.encode g.data_block_count g.fec_block_count g.block_bytes blocks
    else some []

module _ {F : Type 0} (ops : MathOps F) where
  unfoldable pub group_info : FrameSender F → FramePlan F → ℕ → GroupInfo
  group_info s plan index =
      let blocks = group_data_blocks plan.layout.total_data_blocks plan.group_size index in
      record {
        frame_id = s.frame_id;
        data_block_count = blocks;
        fec_block_count = fec_block_count ops plan.ratio blocks;
        fec_group_index = index;
        fec_group_count = plan.groups;
        frame_type = plan.frame_type;
        frame_size = plan.len % 2 ^ 32;
        block_bytes = plan.layout.block_bytes;
      }

  -- The layout: estimated for the next sequence number, and made again for the last one where
  -- that takes more bytes. `none` where the headers leave no room for a payload.
  unfoldable pub plan_layout : ℕ → ℕ → F → ℕ → Option Layout
  plan_layout mtu data_seq ratio len =
      let size = max_group_size ops ratio in
      let est_seq_len = at_least_one (compute_seq_len (data_seq + 1)) in
      let est_payload = max_payload_per_block mtu est_seq_len in
      let est = block_layout len est_payload in
      let est_groups = group_count est.total_data_blocks size in
      let max_seq = data_seq + estimate_blocks ops ratio est.total_data_blocks size est_groups 0 in
      let seq_len = at_least_one (compute_seq_len max_seq) in
      let payload = max_payload_per_block mtu seq_len in
      if est_payload == 0
      then none
      else if seq_len == est_seq_len
      then some est
      else if payload == 0
      then none
      else some (block_layout len payload)

  unfoldable pub frame_plan : FrameSender F → Layout → ℕ → ℕ → ℕ → FramePlan F
  frame_plan s layout frame_type len now_us =
      let size = max_group_size ops s.current_fec_ratio in
      record {
        ratio = s.current_fec_ratio;
        layout = layout;
        group_size = size;
        groups = group_count layout.total_data_blocks size;
        frame_type = frame_type;
        len = len;
        now_us = if now_us == 0 then s.last_ping_time_us else now_us;
      }

module _ {F : Type 0} (ops : MathOps F) (codec : Encoder) where
  -- The loop over the groups, from `index` on, with what is left of the frame.
  unfoldable pub send_groups : FramePlan F → ℕ → ℕ → List ℕ → FrameSender F → FrameSender F × Bool
  unfolding group_info recovery_blocks send_blocks
  send_groups plan zero index rest s = (s, true)
  send_groups plan (suc rounds) index rest s =
      let g = group_info ops s plan index in
      let (blocks, left) = cut_blocks g.data_block_count g.block_bytes rest in
      elim (recovery_blocks codec g blocks) [
        | none ↦ (s, false)
        | some recovery ↦
            send_groups plan rounds (index + 1) left
              (send_blocks s g plan.now_us 0 (blocks ++ recovery))
      ]

  unfoldable pub send_planned :
      FrameSender F → Option Layout → List ℕ → ℕ → ℕ → FrameSender F × Bool
  send_planned s none frame frame_type now_us = (s, false)
  send_planned s (some layout) frame frame_type now_us =
      let plan = frame_plan ops s layout frame_type (length frame) now_us in
      finish_frame (send_groups plan plan.groups 0 frame s)

  -- FrameSender::sendFrame, with what it returns. A null pointer is an empty frame.
  unfoldable pub send_frame : SenderConfig F → FrameSender F → List ℕ → ℕ → ℕ → FrameSender F × Bool
  send_frame cfg s frame frame_type now_us =
      let t = record s { frame_id = (s.frame_id + 1) % 2 ^ 16 } in
      if length frame == 0
      then (s, false)
      else if not codec.initialized
      then (s, false)
      else send_planned t (plan_layout ops cfg.mtu t.data_seq t.current_fec_ratio (length frame))
          frame frame_type now_us
