-- ===== src/Fec/Sender/State.antt =====
-- The state of a FrameSender (Impl of libs/frame_protoc/src/sender.cpp), its configuration and its
-- statistics, and the sending of a packet. `float` and the erasure code are parameters.
use tj_rtc.Prelude.{
  ℕ, ◌+◌, ◌-◌, ◌%◌, ◌^◌, Bool, false, not, ◌&&◌, Option, none, List, [], ◌∷◌, ◌++◌, ◌==◌,
  if◌then◌else◌,
}
use tj_rtc.Prelude.Int.{ℤ}
use tj_rtc.Fec.Bitrate.{FloatOps}

-- `ceil` is std::ceil, `to_word` the cast to uint64_t, `max_step` the constant kMaxStep (0.02f) and
-- `minus_one` the -1.0f that stands for no new ratio.
pub record MathOps (F : Type 0) : Type 0 where
  pub float : FloatOps F
  pub ceil : F → F
  pub to_word : F → ℕ
  pub max_step : F
  pub minus_one : F

-- cm256_encode of the library: from the number of original and of recovery blocks, the bytes of a
-- block and the original blocks, the recovery blocks, or `none` where it returns an error.
pub record Encoder : Type 0 where
  pub initialized : Bool
  pub encode : ℕ → ℕ → ℕ → List (List ℕ) → Option (List (List ℕ))

pub record SenderConfig (F : Type 0) : Type 0 where
  pub mtu : ℕ
  pub fec_ratio : F
  pub fec_ratio_min : F
  pub fec_ratio_max : F
  pub fec_loss_factor : F
  pub cache_timeout_ms : ℕ
  pub ping_interval_ms : ℕ
  pub nack_rtt_factor : F
  pub max_nack_retransmit : ℤ
  pub max_block_retransmit : ℤ

pub record ProtocolStats (F : Type 0) : Type 0 where
  pub rtt_ms : ℕ
  pub loss_rate : F
  pub fec_recovery_rate : F
  pub nack_recovery_rate : F
  pub bandwidth_bps : ℕ
  pub goodput_bps : ℕ
  pub frames_sent : ℕ
  pub blocks_sent : ℕ

pub record CachedBlock : Type 0 where
  pub packet : List ℕ
  pub send_time_us : ℕ
  pub last_retransmit_us : ℕ
  pub retry_count : ℕ

-- The callbacks are set or not; what they are called with is kept, the packets in `sent`, the calls
-- of the others in `reported` and `key_frames`. The one that adjusts the ratio is a function.
pub record FrameSender (F : Type 0) : Type 0 where
  pub send_cb : Bool
  pub stats_cb : Bool
  pub key_frame_request_cb : Bool
  pub fec_adjust_cb : Option (ProtocolStats F → F)
  pub stats : ProtocolStats F
  pub data_seq : ℕ
  pub cmd_seq : ℕ
  pub frame_id : ℕ
  pub current_fec_ratio : F
  pub fec_adaptive_active : Bool
  pub last_fec_adjust_us : ℕ
  pub cache : List (ℕ × CachedBlock)
  pub last_ping_time_us : ℕ
  pub last_ping_timestamp : ℕ
  pub last_pong_time_us : ℕ
  pub peer_completed_seq : ℕ
  pub sent : List (List ℕ)
  pub reported : List (ProtocolStats F)
  pub key_frames : ℕ

-- `a - b` on uint64_t.
abbrev pub sub_word : ℕ → ℕ → ℕ
sub_word a b = (a + 2 ^ 64 - b) % 2 ^ 64

module _ {F : Type 0} where
  unfoldable pub new_sender : FloatOps F → SenderConfig F → FrameSender F
  new_sender ops cfg = record {
    send_cb = false;
    stats_cb = false;
    key_frame_request_cb = false;
    fec_adjust_cb = none;
    stats = record {
      rtt_ms = 0;
      loss_rate = ops.of_uint 0;
      fec_recovery_rate = ops.of_uint 0;
      nack_recovery_rate = ops.of_uint 0;
      bandwidth_bps = 0;
      goodput_bps = 0;
      frames_sent = 0;
      blocks_sent = 0;
    };
    data_seq = 0;
    cmd_seq = 0;
    frame_id = 0;
    current_fec_ratio = cfg.fec_ratio;
    fec_adaptive_active = false;
    last_fec_adjust_us = 0;
    cache = [];
    last_ping_time_us = 0;
    last_ping_timestamp = 0;
    last_pong_time_us = 0;
    peer_completed_seq = 0;
    sent = [];
    reported = [];
    key_frames = 0;
  }

  unfoldable pub send_packet : FrameSender F → List ℕ → FrameSender F
  send_packet s packet = if s.send_cb then (record s { sent = s.sent ++ (packet ∷ []) }) else s

  -- A packet out, counted in `blocks_sent`.
  unfoldable pub send_block_packet : FrameSender F → List ℕ → FrameSender F
  unfolding send_packet
  send_block_packet s packet =
      let t = send_packet s packet in
      record t { stats = record t.stats { blocks_sent = t.stats.blocks_sent + 1 } }

  unfoldable pub set_fec_ratio : FloatOps F → FrameSender F → F → FrameSender F
  set_fec_ratio ops s ratio =
      if ops.at_most (ops.of_uint 0) ratio && ops.at_most ratio (ops.of_uint 1)
      then (record s { current_fec_ratio = ratio })
      else s

  unfoldable pub has_received_pong : FrameSender F → Bool
  has_received_pong s = not (s.last_pong_time_us == 0)
