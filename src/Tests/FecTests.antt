-- ===== src/Tests/FecTests.antt =====
-- libs/frame_protoc: sequence numbers, headers and payloads at concrete inputs.
use tj_rtc.Prelude.{
  ℕ, ◌+◌, ◌*◌, ◌^◌, ◌≤◌, ◌<◌, ◌≡◌, refl, ◌≢◌, some, List, [], ◌∷◌, ◌++◌, arith, length,
}
use tj_rtc.Bytes.{ok, fault, result, write_be16, write_be32}
use tj_rtc.Prelude.Int.{pos, negsuc}
use tj_rtc.Fec.Bitrate.{
  FloatOps, BitrateConfig, BitrateController, new_controller, on_feedback, adapt, smooth, on_loss,
  decrease, emit_advice, clamp_bitrate,
}
use tj_rtc.Prelude.{◌-◌, ◌/◌, ltb, leb, ◌==◌}
use tj_rtc.Fec.Seq.{compute_seq_len, seq_compare, seq_add}
use tj_rtc.Fec.Seq.Length.{compute_seq_len_least}
use tj_rtc.Fec.Seq.Compare.{seq_compare-seq_add}
use tj_rtc.Fec.Header.{
  CommonHeader, DataHeader, serialize_common, deserialize_common, serialize_data, deserialize_data,
  common_size, data_size,
}
use tj_rtc.Fec.Header.RoundTrip.{
  deserialize_common-serialize_common, deserialize_data-serialize_data, on_wire,
}
use tj_rtc.Fec.Payload.{
  NackEntry, TlvItem, serialize_nack, deserialize_nack, serialize_tlv, deserialize_tlv, tlv_size,
}
use tj_rtc.Fec.Payload.RoundTrip.{deserialize_nack-serialize_nack, deserialize_tlv-serialize_tlv}
use tj_rtc.Fec.Payload.Bounds.{deserialize_payload-ne-fault}

compute_seq_len_least_example :
    let n = compute_seq_len 65536 in (1 ≤ n) × (n ≤ 8) × (65536 < 256 ^ n) × (256 ^ n ≤ 256 * 65536)
compute_seq_len_least_example = compute_seq_len_least 65536 (omega arith) (omega arith)

-- 3 comes five steps behind 254 on one byte.
seq_compare-seq_add_example :
    (seq_compare (seq_add 254 5 1) 254 1 ≡ pos 1) × (seq_compare 254 (seq_add 254 5 1) 1 ≡ negsuc 0)
seq_compare-seq_add_example =
    seq_compare-seq_add 1 254 5 (omega arith) (omega arith) (omega arith) (omega arith)
      (omega arith)

abbrev nack_header : CommonHeader
nack_header = record { version = 1; seq_len = 2; msg_type = 2; seq_num = 300 }

deserialize_common-serialize_common_example :
    (bytes : List ℕ) × (serialize_common nack_header 10 ≡ some bytes)
    × (length bytes ≡ common_size nack_header)
    × (deserialize_common (bytes ++ (7 ∷ [])) ≡ ok (nack_header, 7 ∷ []))
deserialize_common-serialize_common_example =
    deserialize_common-serialize_common nack_header 10 (7 ∷ []) (omega arith)
      (unfold common_size in omega arith)

abbrev first_block : DataHeader
first_block = record {
  frame_id = 258;
  data_block_count = 3;
  fec_block_count = 1;
  block_index = 0;
  fec_group_index = 0;
  fec_group_count = 1;
  frame_type = 2;
  frame_size = 4000;
  retry_count = 1;
  payload_length = 1334;
}

deserialize_data-serialize_data_example :
    (bytes : List ℕ) × (serialize_data first_block 14 ≡ some bytes)
    × (length bytes ≡ data_size)
    × (deserialize_data (bytes ++ (9 ∷ [])) ≡ ok (on_wire first_block, 9 ∷ []))
deserialize_data-serialize_data_example =
    deserialize_data-serialize_data first_block 14 (9 ∷ []) (omega arith) (omega arith)
      (omega arith)

-- A length of one byte too many for 12 bits is cut to 0.
length_wraps :
    serialize_data (record first_block { payload_length = 4096 }) 14
    ≡ serialize_data (record first_block { payload_length = 0 }) 14
unfolding serialize_data write_be16 write_be32
length_wraps = refl

abbrev lost : List NackEntry
lost = record { lost_start_seq = 70000; bitmask = 5 } ∷ []

deserialize_nack-serialize_nack_example :
    (bytes : List ℕ) × (serialize_nack lost 20 ≡ some bytes)
    × (length bytes ≡ 2 + 1 * 12)
    × (deserialize_nack (bytes ++ []) ≡ ok (lost, []))
deserialize_nack-serialize_nack_example =
    deserialize_nack-serialize_nack lost 20 [] (omega arith) (omega arith) (omega arith)

abbrev report : List TlvItem
report =
    record { kind = 2; value = 13 ∷ [] }
    ∷ (record { kind = 0x12; value = 0 ∷ 45 ∷ 198 ∷ 192 ∷ [] } ∷ [])

deserialize_tlv-serialize_tlv_example :
    (bytes : List ℕ) × (serialize_tlv report 64 ≡ some bytes)
    × (length bytes ≡ 2 + tlv_size report)
    × (deserialize_tlv (bytes ++ []) ≡ ok (report, []))
deserialize_tlv-serialize_tlv_example =
    deserialize_tlv-serialize_tlv report 64 [] (omega arith) (unfold tlv_size in omega arith)
      (unfold tlv_size in omega arith)

deserialize_payload-ne-fault_example :
    (result (deserialize_nack (0 ∷ 24 ∷ 1 ∷ [])) ≢ fault)
    × (result (deserialize_tlv (0 ∷ 24 ∷ 1 ∷ [])) ≢ fault)
deserialize_payload-ne-fault_example = deserialize_payload-ne-fault (0 ∷ 24 ∷ 1 ∷ [])

-- `float` in thousandths, rounded down.
abbrev pub thousandths : FloatOps ℕ
thousandths = record {
  of_uint = λ n. n * 1000;
  to_uint = λ x. x / 1000;
  add = λ x y. x + y;
  sub = λ x y. x - y;
  mul = λ x y. x * y / 1000;
  div = λ x y. x * 1000 / y;
  fabs = λ x. x;
  less = ltb;
  at_most = leb;
  equal = λ x y. x == y;
}

abbrev slow_link : BitrateConfig ℕ
slow_link = record {
  initial_bitrate_bps = 3000000;
  min_bitrate_bps = 200000;
  max_bitrate_bps = 50000000;
  loss_down_threshold = 20;
  loss_up_threshold = 10;
  increase_factor = 1200;
  decrease_factor = 800;
  fec_initial = 250;
  fec_min = 50;
  fec_max = 300;
  fec_loss_factor = 1500;
  fec_dead_band = 20;
  cooldown_windows = 3;
  max_loss_rounds = 3;
  hold_ms = 1000;
  ewma_alpha = 300;
  advice_change_min = 50;
  loss_confirm_windows = 2;
}

abbrev started : BitrateController ℕ
started = new_controller thousandths slow_link

-- A second window of 10% loss, where 2500000 bit/s arrive.
abbrev once_lossy : BitrateController ℕ
once_lossy = (on_feedback thousandths slow_link started 300000 2500000 100).0

-- The first window does not lower the target, the second does, to what arrives.
lowered :
    (once_lossy.target_bps ≡ 3000000)
    × ((on_feedback thousandths slow_link once_lossy 600000 2500000 100).0.target_bps ≡ 2500000)
unfolding on_feedback adapt smooth on_loss decrease emit_advice new_controller clamp_bitrate
lowered = (refl, refl)
