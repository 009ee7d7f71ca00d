-- ===== src/Tests/SenderTests.antt =====
-- libs/frame_protoc/src/sender.cpp at concrete inputs.
use tj_rtc.Prelude.{
  length-replicate, ℕ, zero, suc, ◌+◌, ◌*◌, ◌/◌, ◌≡◌, refl, true, some, List, [], ◌∷◌, arith,
  length, replicate, All,
}
use tj_rtc.Bytes.{ok, need, read_be16, read_u8, check, read_be64, read_be32}
use tj_rtc.Prelude.Int.{pos}
use tj_rtc.Fec.Payload.{NackEntry, deserialize_nack, read_entries}
use tj_rtc.Fec.Sender.State.{MathOps, Encoder, SenderConfig, CachedBlock, FrameSender, new_sender}
use tj_rtc.Fec.Sender.Split.{max_group_size, max_payload_per_block}
use tj_rtc.Fec.Sender.Frames.{send_frame}
use tj_rtc.Fec.Sender.Retransmit.{handle_nack, requested_seqs}
use tj_rtc.Fec.Sender.Packets.{BlockPacket, packet_bytes}
use tj_rtc.Fec.Sender.Resent.{IsSender}
use tj_rtc.Fec.Sender.Answers.{Answers, handle_nack-Answers}
use tj_rtc.Fec.Sender.Framing.{EncoderWorks}
use tj_rtc.Fec.Sender.FrameSent.{FrameSent, send_frame-FrameSent}
use tj_rtc.Tests.FecTests.{thousandths}

-- Ratios in thousandths.
abbrev pub ratios : MathOps ℕ
ratios = record {
  float = thousandths;
  ceil = λ x. (x + 999) / 1000 * 1000;
  to_word = λ x. x / 1000;
  max_step = 20;
  minus_one = 1000000;
}

abbrev pub sender_config : SenderConfig ℕ
sender_config = record {
  mtu = 100;
  fec_ratio = 300;
  fec_ratio_min = 50;
  fec_ratio_max = 500;
  fec_loss_factor = 1500;
  cache_timeout_ms = 2000;
  ping_interval_ms = 1000;
  nack_rtt_factor = 1000;
  max_nack_retransmit = pos 64;
  max_block_retransmit = pos 5;
}

-- Recovery blocks of zeros.
abbrev zero_code : Encoder
zero_code = record {
  initialized = true;
  encode = λ k r n blocks. some (replicate r (replicate n 0));
}

replicate-All : (r n : ℕ) → All (λ (b : List ℕ). length b ≡ n) (replicate r (replicate {A = ℕ} n 0))
replicate-All zero n = tt
replicate-All (suc r) n = (length-replicate n 0, replicate-All r n)

zero_code-EncoderWorks : EncoderWorks zero_code
zero_code-EncoderWorks = record {
  ready = refl;
  encodes = λ k r n blocks some_k some_r some_n few count sizes.
      (replicate r (replicate n 0), refl, length-replicate r (replicate n 0), replicate-All r n);
}

abbrev first_sender : FrameSender ℕ
first_sender = record (new_sender thousandths sender_config) { send_cb = true }

first_sender-IsSender : IsSender first_sender
unfolding new_sender
first_sender-IsSender = (omega arith, tt)

abbrev short_frame : List ℕ
short_frame = 1 ∷ 2 ∷ 3 ∷ 4 ∷ 5 ∷ []

send_frame-FrameSent_example :
    (t : FrameSender ℕ) × (packets : List BlockPacket) × (send_frame ratios zero_code sender_config
        first_sender short_frame 2 7
      ≡ (t, true))
    × FrameSent zero_code 100 first_sender t short_frame 2 packets
unfolding new_sender max_group_size max_payload_per_block
send_frame-FrameSent_example =
    send_frame-FrameSent ratios zero_code sender_config first_sender short_frame 2 7
      zero_code-EncoderWorks first_sender-IsSender refl (omega arith) (omega arith) (omega arith)
      (omega arith) (omega arith)

-- A block that has been sent under number 9.
abbrev ninth : BlockPacket
ninth = record {
  common = record { version = 1; seq_len = 1; msg_type = 1; seq_num = 9 };
  header = record {
    frame_id = 3;
    data_block_count = 1;
    fec_block_count = 1;
    block_index = 0;
    fec_group_index = 0;
    fec_group_count = 1;
    frame_type = 2;
    frame_size = 2;
    retry_count = 0;
    payload_length = 2;
  };
  payload = 50 ∷ 60 ∷ [];
}

abbrev ninth_block : CachedBlock
ninth_block = record {
  packet = packet_bytes ninth;
  send_time_us = 0;
  last_retransmit_us = 0;
  retry_count = 0;
}

abbrev sender_of_ninth : FrameSender ℕ
sender_of_ninth = record first_sender { cache = (9, ninth_block) ∷ [] }

sender_of_ninth-IsSender : IsSender sender_of_ninth
unfolding new_sender
sender_of_ninth-IsSender = (
  omega arith,
  (
    record {
      wire = ninth;
      fits = record {
        common_fits = record {
          version_fits = omega arith;
          seq_len_min = omega arith;
          seq_len_max = omega arith;
          seq_num_fits = omega arith;
          seq_num_word = omega arith;
        };
        frame_id_fits = omega arith;
        frame_size_fits = omega arith;
        payload_fits = omega arith;
        retry_fits = omega arith;
        payload_whole = refl;
      };
      numbered = refl;
      kept = refl;
      counted = refl;
    },
    tt,
  ),
)

abbrev asks_ninth : List ℕ
asks_ninth = 0 ∷ 12 ∷ 0 ∷ 0 ∷ 0 ∷ 0 ∷ 0 ∷ 0 ∷ 0 ∷ 9 ∷ 0 ∷ 0 ∷ 0 ∷ 0 ∷ []

abbrev lost_ninth : List NackEntry
lost_ninth = record { lost_start_seq = 9; bitmask = 0 } ∷ []

asks_ninth_read : deserialize_nack asks_ninth ≡ ok (lost_ninth, [])
unfolding deserialize_nack need read_be16 read_u8 check read_entries read_be64 read_be32
asks_ninth_read = refl

handle_nack-Answers_example :
    Answers sender_of_ninth
      (handle_nack ratios sender_config sender_of_ninth asks_ninth 5000000)
      (requested_seqs lost_ninth)
      (pos 64)
handle_nack-Answers_example =
    handle_nack-Answers ratios sender_config sender_of_ninth lost_ninth asks_ninth [] 5000000
      sender_of_ninth-IsSender refl asks_ninth_read
