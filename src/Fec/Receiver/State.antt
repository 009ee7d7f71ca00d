-- ===== src/Fec/Receiver/State.antt =====
-- The state of a FrameReceiver (Impl of libs/frame_protoc/src/receiver.cpp), of a frame that is put
-- together and of its groups. An unordered_map is the list of its pairs, latest first.
use tj_rtc.Prelude.{
  ℕ, ◌+◌, ◌-◌, ◌%◌, bit_or, Bool, false, Option, List, [], ◌∷◌, ◌++◌, leb, if◌then◌else◌, ◌<<<◌,
}
use tj_rtc.Prelude.{Assoc}
use tj_rtc.Fec.Bitrate.{FloatOps}

-- cm256_decode of the library: from the counts, the bytes of a block, and as many blocks with their
-- indices as there are originals, these blocks with what it recovered, or `none` on an error.
pub record Decoder : Type 0 where
  pub decode : ℕ → ℕ → ℕ → List (List ℕ × ℕ) → Option (List (List ℕ × ℕ))

pub record ReceiverConfig : Type 0 where
  pub frame_timeout_ms : ℕ
  pub nack_delay_ms : ℕ
  pub nack_interval_ms : ℕ
  pub max_nack_retries : ℕ
  pub stats_interval_ms : ℕ
  pub max_pending_frames : ℕ
  pub pli_min_interval_ms : ℕ

-- FecGroupState. `slot_by_index` has the slots that are not -1, `received_mask` the indices that are
-- set. `overread` is set where the code would read a stored block past its end.
pub record FecGroup : Type 0 where
  pub data_block_count : ℕ
  pub fec_block_count : ℕ
  pub params_known : Bool
  pub decoded : Bool
  pub block_storage : List (List ℕ)
  pub block_indices : List ℕ
  pub slot_by_index : Assoc ℕ ℕ
  pub received_count : ℕ
  pub received_mask : List ℕ
  pub overread : Bool

abbrev pub new_group : FecGroup
new_group = record {
  data_block_count = 0;
  fec_block_count = 0;
  params_known = false;
  decoded = false;
  block_storage = [];
  block_indices = [];
  slot_by_index = [];
  received_count = 0;
  received_mask = [];
  overread = false;
}

pub record PendingFrame : Type 0 where
  pub frame_id : ℕ
  pub frame_type : ℕ
  pub frame_size : ℕ
  pub fec_group_count : ℕ
  pub block_bytes : ℕ
  pub groups : List FecGroup
  pub first_block_time_us : ℕ
  pub last_block_time_us : ℕ
  pub first_seq : ℕ
  pub complete : Bool
  pub discarded : Bool

pub record NackState : Type 0 where
  pub first_detected_us : ℕ
  pub last_nack_sent_us : ℕ
  pub nack_count : ℕ

pub record GroupLayout : Type 0 where
  pub start_seq : ℕ
  pub data_count : ℕ
  pub total_count : ℕ

-- What `frame_ready_cb` gets. `overread` says whether the copy read past the end of a block.
pub record Frame : Type 0 where
  pub type : ℕ
  pub size : ℕ
  pub bytes : List ℕ
  pub overread : Bool

-- The counters of `stats` that are numbers, and those of the window.
pub record Counters : Type 0 where
  pub frames_completed : ℕ
  pub frames_dropped : ℕ
  pub blocks_lost : ℕ
  pub blocks_recovered_fec : ℕ
  pub blocks_recovered_nack : ℕ
  pub total_blocks_received : ℕ
  pub window_blocks_received : ℕ
  pub window_blocks_lost : ℕ
  pub window_blocks_recovered_fec : ℕ
  pub window_blocks_recovered_nack : ℕ
  pub window_packets : ℕ
  pub goodput_window_bytes : ℕ

-- The three rates of `stats`, its goodput, and the packets of its last window.
pub record Rates (F : Type 0) : Type 0 where
  pub loss_rate : F
  pub fec_recovery_rate : F
  pub nack_recovery_rate : F
  pub goodput_bps : ℕ
  pub stats_window_packets : ℕ

-- The callbacks are set or not; `delivered`, `dropped` and `sent` have what they are called with.
pub record FrameReceiver (F : Type 0) : Type 0 where
  pub frame_ready_cb : Bool
  pub send_cb : Bool
  pub frame_dropped_cb : Bool
  pub rates : Rates F
  pub counters : Counters
  pub cmd_seq : ℕ
  pub last_pli_sent_us : ℕ
  pub pending_frames : Assoc ℕ PendingFrame
  pub next_deliver_frame_id : ℕ
  pub has_delivery_cursor : Bool
  pub expected_data_seq : ℕ
  pub completed_seq : ℕ
  pub nack_states : Assoc ℕ NackState
  pub rtt_ms : ℕ
  pub last_stats_time_us : ℕ
  pub next_stats_send_us : ℕ
  pub last_stats_send_us : ℕ
  pub group_layouts : Assoc ℕ GroupLayout
  pub delivered : List Frame
  pub dropped : List (ℕ × ℕ)
  pub sent : List (List ℕ)

abbrev pub no_counters : Counters
no_counters = record {
  frames_completed = 0;
  frames_dropped = 0;
  blocks_lost = 0;
  blocks_recovered_fec = 0;
  blocks_recovered_nack = 0;
  total_blocks_received = 0;
  window_blocks_received = 0;
  window_blocks_lost = 0;
  window_blocks_recovered_fec = 0;
  window_blocks_recovered_nack = 0;
  window_packets = 0;
  goodput_window_bytes = 0;
}

module _ {F : Type 0} where
  unfoldable pub new_receiver : FloatOps F → FrameReceiver F
  new_receiver float = record {
    frame_ready_cb = false;
    send_cb = false;
    frame_dropped_cb = false;
    rates = record {
      loss_rate = float.of_uint 0;
      fec_recovery_rate = float.of_uint 0;
      nack_recovery_rate = float.of_uint 0;
      goodput_bps = 0;
      stats_window_packets = 0;
    };
    counters = no_counters;
    cmd_seq = 0;
    last_pli_sent_us = 0;
    pending_frames = [];
    next_deliver_frame_id = 0;
    has_delivery_cursor = false;
    expected_data_seq = 0;
    completed_seq = 0;
    nack_states = [];
    rtt_ms = 0;
    last_stats_time_us = 0;
    next_stats_send_us = 0;
    last_stats_send_us = 0;
    group_layouts = [];
    delivered = [];
    dropped = [];
    sent = [];
  }

  unfoldable pub send_from_receiver : FrameReceiver F → List ℕ → FrameReceiver F
  send_from_receiver r packet =
      if r.send_cb then (record r { sent = r.sent ++ (packet ∷ []) }) else r

-- `static_cast<int16_t>(a - b) < 0` on frame numbers.
abbrev pub frame_before : ℕ → ℕ → Bool
frame_before a b = leb 32768 ((a + 65536 - b) % 65536)

-- The key of a group layout.
abbrev pub group_key : ℕ → ℕ → ℕ
group_key frame_id group_index = bit_or (frame_id <<< 8) group_index
