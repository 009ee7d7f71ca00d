-- ===== src/Fec/Receiver/Packets.antt =====
-- Packets of data: handleData and findOrCreateFrame of libs/frame_protoc/src/receiver.cpp, and
-- maybeSendPli, sendPliPacket.
use tj_rtc.Prelude.{
  ℕ, zero, suc, ◌+◌, ◌-◌, ◌*◌, ◌%◌, ◌^◌, Bool, true, false, not, ◌&&◌, ◌||◌, Option, none, some,
  List, [], ◌∷◌, ◌++◌, ltb, leb, ◌==◌, if◌then◌else◌, length, get_elem?, set, take, replicate,
}
use tj_rtc.Bytes.{ok, reject, fault}
use tj_rtc.Prelude.{Assoc, find, put, erase, number_key}
use tj_rtc.Fec.Seq.{compute_seq_len}
use tj_rtc.Fec.Header.{DataHeader, deserialize_data}
use tj_rtc.Fec.Sender.State.{sub_word}
use tj_rtc.Fec.Sender.Control.{control_packet, msg_pli}
use tj_rtc.Fec.Sender.Frames.{at_least_one}
use tj_rtc.Fec.Receiver.State.{
  Decoder, ReceiverConfig, FecGroup, new_group, PendingFrame, GroupLayout, FrameReceiver,
  send_from_receiver, frame_before, group_key,
}
use tj_rtc.Fec.Receiver.Group.{init_group, add_block, can_decode, Decoding, try_decode}
use tj_rtc.Fec.Receiver.Nacks.{is_tracked, erase_range, detect_gaps, track_missing}
use tj_rtc.Fec.Receiver.Deliver.{try_deliver_in_order}

-- frame_type::VIDEO, VIDEO_IDR and VIDEO_PARAMS
abbrev pub is_video : ℕ → Bool
is_video type = type == 2 || (type == 3 || type == 4)

-- The frame that waits longest: of two with the same time the one that the walk meets first.
unfoldable pub oldest_of : ℕ × PendingFrame → Assoc ℕ PendingFrame → ℕ × PendingFrame
oldest_of best [] = best
oldest_of best (e ∷ frames) =
    oldest_of (if ltb e.1.first_block_time_us best.1.first_block_time_us then e else best) frames

unfoldable pub drop_discarded : Assoc ℕ PendingFrame → Assoc ℕ PendingFrame
drop_discarded [] = []
drop_discarded ((id, f) ∷ frames) =
    let rest = drop_discarded frames in if f.discarded then rest else ((id, f) ∷ rest)

-- Whether the frame of a header is there and still takes blocks.
abbrev pub takes_blocks : Option PendingFrame → Bool
takes_blocks none = false
takes_blocks (some f) = not f.complete && not f.discarded

-- `emplace`: an entry that is there stays.
abbrev pub emplace :
    Option PendingFrame → Assoc ℕ PendingFrame → ℕ → PendingFrame → Assoc ℕ PendingFrame
emplace none frames id f = (id, f) ∷ frames
emplace (some old) frames id f = frames

unfoldable pub new_frame : DataHeader → ℕ → ℕ → PendingFrame
new_frame h seq now_us = record {
  frame_id = h.frame_id;
  frame_type = h.frame_type;
  frame_size = h.frame_size;
  fec_group_count = h.fec_group_count;
  block_bytes = 0;
  groups = replicate h.fec_group_count new_group;
  first_block_time_us = now_us;
  last_block_time_us = now_us;
  first_seq = seq;
  complete = false;
  discarded = false;
}

-- `groups.resize(n)` to more groups.
abbrev pub grow_groups : List FecGroup → ℕ → List FecGroup
grow_groups groups n = groups ++ replicate (n - length groups) new_group

-- The sum of the blocks of the groups before `rounds`, where all of them are known.
unfoldable pub prefix_blocks : Assoc ℕ GroupLayout → ℕ → ℕ → Option ℕ
prefix_blocks layouts id zero = some 0
prefix_blocks layouts id (suc g) = elim (prefix_blocks layouts id g) [
  | none ↦ none
  | some sum ↦ elim (find number_key layouts (group_key id g)) [
    | none ↦ none
    | some l ↦ some (sum + l.total_count)
  ]
]

abbrev pub earlier_seq : Option ℕ → ℕ → ℕ → ℕ → ℕ
earlier_seq none first seq index = first
earlier_seq (some before) first seq index =
    let true_first = sub_word seq (index + before) in
    if ltb true_first first then true_first else first

module _ {F : Type 0} where
  unfoldable pub send_pli_packet : FrameReceiver F → FrameReceiver F
  unfolding compute_seq_len control_packet send_from_receiver
  send_pli_packet r =
      let seq = r.cmd_seq + 1 in
      send_from_receiver (record r { cmd_seq = seq })
        (control_packet msg_pli seq (at_least_one (compute_seq_len seq)) (0 ∷ (0 ∷ [])))

  unfoldable pub maybe_send_pli : ReceiverConfig → FrameReceiver F → ℕ → ℕ → FrameReceiver F
  unfolding send_pli_packet
  maybe_send_pli cfg r now_us type =
      let too_soon =
        not (r.last_pli_sent_us == 0)
        && ltb (sub_word now_us r.last_pli_sent_us) (cfg.pli_min_interval_ms * 1000) in
      if not (is_video type) || too_soon
      then r
      else send_pli_packet (record r { last_pli_sent_us = now_us })

  -- `frame_dropped_cb`, the count, and the request of a key frame.
  unfoldable pub report_dropped :
      ReceiverConfig → FrameReceiver F → PendingFrame → ℕ → FrameReceiver F
  unfolding maybe_send_pli
  report_dropped cfg r f now_us =
      let told =
        if r.frame_dropped_cb
        then (record r { dropped = r.dropped ++ ((f.frame_type, f.frame_size) ∷ []) })
        else r in
      maybe_send_pli cfg
        (record told {
          counters = record told.counters { frames_dropped = told.counters.frames_dropped + 1 };
        })
        now_us f.frame_type

  abbrev pub evict : ReceiverConfig → FrameReceiver F → Assoc ℕ PendingFrame → ℕ → FrameReceiver F
  evict cfg r [] now_us = r
  evict cfg r (e ∷ frames) now_us =
      let (id, f) = oldest_of e frames in
      let t = report_dropped cfg r f now_us in
      record t { pending_frames = erase number_key t.pending_frames id }

  unfoldable pub make_room : ReceiverConfig → FrameReceiver F → ℕ → FrameReceiver F
  unfolding drop_discarded
  make_room cfg r now_us =
      let full = leb cfg.max_pending_frames (length r.pending_frames) in
      let kept = if full then drop_discarded r.pending_frames else r.pending_frames in
      let swept = record r { pending_frames = kept } in
      if leb cfg.max_pending_frames (length kept) then evict cfg swept kept now_us else swept

  -- findOrCreateFrame; the frame is the entry of the header's number.
  unfoldable pub find_or_create_frame :
      ReceiverConfig → FrameReceiver F → ℕ → DataHeader → ℕ → FrameReceiver F
  unfolding make_room new_frame try_deliver_in_order
  find_or_create_frame cfg r seq h now_us =
      let room = make_room cfg r now_us in
      let added = record room {
        pending_frames =
            emplace (find number_key room.pending_frames h.frame_id) room.pending_frames h.frame_id
              (new_frame h seq now_us);
      } in
      if takes_blocks (find number_key r.pending_frames h.frame_id)
      then r
      else if added.has_delivery_cursor
      then added
      else try_deliver_in_order
          (record added { has_delivery_cursor = true; next_deliver_frame_id = h.frame_id })

  -- The layout of the block's group, once per group, with whether it is new.
  unfoldable pub note_layout : FrameReceiver F → ℕ → DataHeader → FrameReceiver F × Bool
  note_layout r start h =
      let key = group_key h.frame_id h.fec_group_index in
      elim (find number_key r.group_layouts key) [
        | some l ↦ (r, false)
        | none ↦ (
          record r {
            group_layouts = put number_key r.group_layouts key (record {
              start_seq = start;
              data_count = h.data_block_count;
              total_count = (h.data_block_count + h.fec_block_count) % 256;
            });
          },
          true,
        )
      ]

  -- The start of a group whose first packet is not its first block is missing too.
  unfoldable pub track_group_start : FrameReceiver F → ℕ → DataHeader → Bool → ℕ → FrameReceiver F
  unfolding track_missing
  track_group_start r start h first_of_group now_us =
      if first_of_group
        && (ltb 0 h.block_index && (r.expected_data_seq == 0 || leb r.expected_data_seq start))
      then (record (track_missing r start now_us) { expected_data_seq = (start + 1) % 2 ^ 64 })
      else r

  -- The packet is no longer missing.
  unfoldable pub arrived : FrameReceiver F → ℕ → FrameReceiver F
  arrived r seq =
      if is_tracked (find number_key r.nack_states seq)
      then (record r {
        nack_states = erase number_key r.nack_states seq;
        counters = record r.counters {
          blocks_recovered_nack = r.counters.blocks_recovered_nack + 1;
          window_blocks_recovered_nack = r.counters.window_blocks_recovered_nack + 1;
        };
      })
      else r

  abbrev pub erase_nacks : FrameReceiver F → Option GroupLayout → FrameReceiver F
  erase_nacks r none = r
  erase_nacks r (some l) = record r {
    nack_states = erase_range r.nack_states l.start_seq (l.start_seq + l.total_count);
  }

  -- eraseGroupNacks
  unfoldable pub erase_group_nacks : FrameReceiver F → ℕ → ℕ → FrameReceiver F
  erase_group_nacks r id group =
      erase_nacks r (find number_key r.group_layouts (group_key id group))

abbrev pub all_decoded : List FecGroup → Bool
all_decoded [] = true
all_decoded (g ∷ groups) = let rest = all_decoded groups in if g.decoded then rest else false

-- allGroupsDecoded
unfoldable pub all_groups_decoded : PendingFrame → Bool
all_groups_decoded f = length f.groups == f.fec_group_count && all_decoded f.groups

-- The group with the block in it, before the decoding.
unfoldable pub receive_block : FecGroup → DataHeader → List ℕ → FecGroup
unfolding init_group add_block
receive_block g h payload =
    let known = if g.params_known then g else init_group g h.data_block_count h.fec_block_count in
    add_block known h.block_index payload

unfoldable pub decode_ready : Decoder → FecGroup → ℕ → Decoding
unfolding can_decode try_decode
decode_ready codec g bytes =
    if can_decode g
    then try_decode codec g bytes
    else record { group = g; recovered = 0; finished = false }

-- `block_bytes` is that of the first block, and the groups are there.
abbrev pub sized_frame : PendingFrame → DataHeader → PendingFrame
sized_frame f h = record f {
  block_bytes = if f.block_bytes == 0 then h.payload_length else f.block_bytes;
  groups = grow_groups f.groups f.fec_group_count;
}

module _ {F : Type 0} (codec : Decoder) (cfg : ReceiverConfig) where
  -- The block's own group is found: block, decoding, and delivery.
  unfoldable pub into_group :
      FrameReceiver F → PendingFrame → FecGroup → ℕ → DataHeader → List ℕ → ℕ → FrameReceiver F
  unfolding receive_block decode_ready prefix_blocks erase_group_nacks all_groups_decoded
      try_deliver_in_order
  into_group r f g seq h payload now_us =
      let decoding = decode_ready codec (receive_block g h payload) h.payload_length in
      let first =
        earlier_seq (prefix_blocks r.group_layouts h.frame_id h.fec_group_index) f.first_seq seq
          h.block_index in
      let filled = record f {
        groups = set f.groups h.fec_group_index decoding.group;
        first_seq = first;
        last_block_time_us = now_us;
      } in
      let done = all_groups_decoded filled && not filled.discarded in
      let final = record filled { complete = if done then true else filled.complete } in
      let stored = record r {
        pending_frames = put number_key r.pending_frames h.frame_id final;
        counters = record r.counters {
          blocks_recovered_fec = r.counters.blocks_recovered_fec + decoding.recovered;
          window_blocks_recovered_fec = r.counters.window_blocks_recovered_fec + decoding.recovered;
        };
      } in
      try_deliver_in_order (
        if decoding.finished then erase_group_nacks stored h.frame_id h.fec_group_index else stored)

  -- The frame, its bytes per block and its groups; a group that it does not have is ignored.
  unfoldable pub into_frame :
      FrameReceiver F → Option PendingFrame → ℕ → DataHeader → List ℕ → ℕ → FrameReceiver F
  into_frame r none seq h payload now_us = r
  into_frame r (some f) seq h payload now_us =
      let sized = sized_frame f h in
      elim (get_elem? sized.groups h.fec_group_index) [
        | none ↦ record r { pending_frames = put number_key r.pending_frames h.frame_id sized }
        | some g ↦ into_group r sized g seq h payload now_us
      ]

  -- handleData from the point where the packet is counted.
  unfoldable pub accept_block : FrameReceiver F → ℕ → DataHeader → List ℕ → ℕ → FrameReceiver F
  accept_block r seq h payload now_us =
      let counted = record r {
        counters = record r.counters {
          total_blocks_received = r.counters.total_blocks_received + 1;
          window_blocks_received = r.counters.window_blocks_received + 1;
          window_packets = r.counters.window_packets + 1;
        };
      } in
      let start = sub_word seq h.block_index in
      let (noted, first_of_group) = note_layout counted start h in
      let tracked = track_group_start noted start h first_of_group now_us in
      let gaps = detect_gaps tracked seq now_us in
      let found = find_or_create_frame cfg (arrived gaps seq) seq h now_us in
      into_frame found (find number_key found.pending_frames h.frame_id) seq h payload now_us

  unfoldable pub handle_data : FrameReceiver F → ℕ → List ℕ → ℕ → FrameReceiver F
  handle_data r seq payload now_us = elim (deserialize_data payload) [
    | reject ↦ r
    | fault ↦ r
    | ok (h, rest) ↦
        if r.has_delivery_cursor && frame_before h.frame_id r.next_deliver_frame_id
        then r
        else if ltb (length rest) h.payload_length
        then r
        else accept_block r seq h (take h.payload_length rest) now_us
  ]
