-- ===== src/Tests/ReceiverTests.antt =====
-- libs/frame_protoc/src/receiver.cpp at concrete inputs.
use tj_rtc.Prelude.{
  ℕ, zero, suc, ◌<◌, ◌≡◌, refl, sym, ap, subst, ◌∙◌, true, false, Option, some, none, List, [], ◌∷◌,
  ◌++◌, arith, length, replicate, All, get_elem?, ◌==◌, if◌then◌else◌,
}
use tj_rtc.Prelude.{find, erase}
use tj_rtc.Fec.Header.{DataHeader}
use tj_rtc.Fec.Sender.State.{Encoder, FrameSender}
use tj_rtc.Fec.Sender.Retransmit.{retransmit_loop}
use tj_rtc.Fec.Sender.Control.{on_control_packet}
use tj_rtc.Fec.Receiver.State.{
  Decoder, ReceiverConfig, FecGroup, new_group, PendingFrame, FrameReceiver, new_receiver,
}
use tj_rtc.Fec.Receiver.Group.{is_set}
use tj_rtc.Fec.Receiver.Nacks.{batch, send_nack_packets}
use tj_rtc.Fec.Receiver.Deliver.{
  assemble, block_at, try_deliver_in_order, deliver_loop, deliver_frame, advance, drop_stale,
  update_completed_seq, copy_groups, copy_blocks, total_blocks,
}
use tj_rtc.Fec.Receiver.Slots.{FromWord, indices_of}
use tj_rtc.Fec.Receiver.Recovers.{CodecWorks, IsRecovered}
use tj_rtc.Fec.Receiver.Arrivals.{Arrivals, receive_all, receive_all-IsRecovered}
use tj_rtc.Fec.Receiver.Asking.{on_control_packet-batch}
use tj_rtc.Fec.Receiver.InOrder.{Delivery, waiting, try_deliver_in_order-Delivery}
use tj_rtc.Fec.Receiver.Stalled.{IsStalled, run_ticks, run_ticks-IsStalled}
use tj_rtc.Tests.FecTests.{thousandths}
use tj_rtc.Tests.SenderTests.{ratios, sender_config}

-- The code of a group of one block: its recovery blocks are copies of it.
abbrev pub copy_encode : ℕ → ℕ → ℕ → List (List ℕ) → Option (List (List ℕ))
copy_encode k r bytes [] = none
copy_encode k r bytes (block ∷ []) = some (replicate r block)
copy_encode k r bytes (block ∷ (second ∷ blocks)) = none

abbrev pub copy_decode : ℕ → ℕ → ℕ → List (List ℕ × ℕ) → Option (List (List ℕ × ℕ))
copy_decode k r bytes [] = none
copy_decode k r bytes ((block, i) ∷ received) = some ((block, 0) ∷ [])

abbrev pub copies : Encoder
copies = record { initialized = true; encode = copy_encode }

abbrev pub copies_back : Decoder
copies_back = record { decode = copy_decode }

get_elem?-replicate :
    (r i : ℕ) (block found : List ℕ) → get_elem? (replicate r block) i ≡ some found → found ≡ block
get_elem?-replicate zero i block found e = absurd (cc)
get_elem?-replicate (suc r) zero block found e = cc
get_elem?-replicate (suc r) (suc i) block found e = get_elem?-replicate r i block found e

copies_recover :
    (k r bytes : ℕ) (blocks recovery : List (List ℕ)) (received : List (List ℕ × ℕ))
    → copy_encode k r bytes blocks ≡ some recovery
    → length blocks ≡ k
    → length received ≡ k
    → All (FromWord (blocks ++ recovery)) received
    → (out : List (List ℕ × ℕ)) × (copy_decode k r bytes received ≡ some out)
      × All (FromWord blocks) out
      × ((i : ℕ) → i < k → is_set (indices_of out) i ≡ true)
copies_recover k r bytes [] recovery received e count many from = absurd (cc)
copies_recover k r bytes (block ∷ (second ∷ blocks)) recovery received e count many from =
    absurd (cc)
copies_recover k r bytes (block ∷ []) recovery [] e count many from = absurd (omega arith)
copies_recover k r bytes (block ∷ []) recovery ((got, i) ∷ received) e count many (first, from) =
    let made : recovery ≡ replicate r block = cc in
    let inside : get_elem? (replicate (suc r) block) i ≡ some got =
      ap (λ t. get_elem? (block ∷ t) i) (sym made) ∙ first in
    let same : got ≡ block = get_elem?-replicate (suc r) i block got inside in
    (
      (got, 0) ∷ [],
      refl,
      (ap some (sym same), tt),
      λ j h. (let start : 0 ≡ j = omega arith in subst (λ n. is_set (0 ∷ []) n ≡ true) start refl),
    )

pub copies-CodecWorks : CodecWorks copies copies_back
copies-CodecWorks = record {
  recovers = λ k r bytes blocks recovery received e count many from distinct missing.
      copies_recover k r bytes blocks recovery received e count many from;
}

-- The second recovery block, after the data block was lost.
abbrev third_block : DataHeader
third_block = record {
  frame_id = 3;
  data_block_count = 1;
  fec_block_count = 2;
  block_index = 2;
  fec_group_index = 0;
  fec_group_count = 1;
  frame_type = 2;
  frame_size = 2;
  retry_count = 0;
  payload_length = 2;
}

abbrev one_arrival : Arrivals
one_arrival = (third_block, 7 ∷ 8 ∷ []) ∷ []

receive_all-IsRecovered_example :
    IsRecovered ((7 ∷ 8 ∷ []) ∷ []) (receive_all copies_back 2 new_group one_arrival)
receive_all-IsRecovered_example =
    receive_all-IsRecovered copies copies_back copies-CodecWorks 1 2 2 ((7 ∷ 8 ∷ []) ∷ [])
      ((7 ∷ 8 ∷ []) ∷ ((7 ∷ 8 ∷ []) ∷ [])) refl refl one_arrival (2 ∷ []) (omega arith)
      (omega arith) ((refl, refl, refl), tt) (refl, tt) (omega arith) (λ i e. e)

-- A group whose only block has come.
abbrev whole_group : FecGroup
whole_group = record new_group {
  data_block_count = 1;
  fec_block_count = 2;
  params_known = true;
  decoded = true;
  block_storage = (7 ∷ 8 ∷ []) ∷ [];
  block_indices = 0 ∷ [];
  slot_by_index = (0, 0) ∷ [];
  received_count = 1;
  received_mask = 0 ∷ [];
}

-- A frame of one byte, whose block is filled up to two.
abbrev whole_frame : PendingFrame
whole_frame = record {
  frame_id = 3;
  frame_type = 2;
  frame_size = 1;
  fec_group_count = 1;
  block_bytes = 2;
  groups = whole_group ∷ [];
  first_block_time_us = 5;
  last_block_time_us = 5;
  first_seq = 9;
  complete = true;
  discarded = false;
}

-- The frame has noted blocks of 9 bytes, and its size of 5 from another packet.
abbrev mixed_frame : PendingFrame
mixed_frame = record whole_frame { frame_size = 5; block_bytes = 9 }

abbrev receiver_at_3 : FrameReceiver ℕ
receiver_at_3 = record (new_receiver thousandths) {
  frame_ready_cb = true;
  send_cb = true;
  pending_frames = (3, whole_frame) ∷ [];
  next_deliver_frame_id = 3;
  has_delivery_cursor = true;
}

try_deliver_in_order-Delivery_example :
    Delivery (waiting receiver_at_3) 3 receiver_at_3.delivered (try_deliver_in_order receiver_at_3)
try_deliver_in_order-Delivery_example = try_deliver_in_order-Delivery receiver_at_3 refl refl

-- The frame is handed over without its filling, and the cursor moves on.
handed_over :
    ((try_deliver_in_order receiver_at_3).delivered
      ≡ record { type = 2; size = 1; bytes = 7 ∷ []; overread = false } ∷ [])
    × ((try_deliver_in_order receiver_at_3).next_deliver_frame_id ≡ 4)
unfolding try_deliver_in_order deliver_loop find new_receiver deliver_frame advance assemble
    drop_stale update_completed_seq copy_groups copy_blocks block_at erase total_blocks
handed_over = (refl, refl)

-- Frame 2 has not come, frame 3 is complete and waits for it.
abbrev receiver_at_2 : FrameReceiver ℕ
receiver_at_2 = record receiver_at_3 { next_deliver_frame_id = 2 }

abbrev receiver_config : ReceiverConfig
receiver_config = record {
  frame_timeout_ms = 100;
  nack_delay_ms = 5;
  nack_interval_ms = 20;
  max_nack_retries = 10;
  stats_interval_ms = 100;
  max_pending_frames = 64;
  pli_min_interval_ms = 500;
}

run_ticks-IsStalled_example :
    let t = run_ticks thousandths receiver_config receiver_at_2 (1000000 ∷ 9000000 ∷ []) in
    IsStalled t
    × (t.delivered ≡ receiver_at_2.delivered)
    × (t.next_deliver_frame_id ≡ receiver_at_2.next_deliver_frame_id)
unfolding find
run_ticks-IsStalled_example =
    run_ticks-IsStalled thousandths receiver_config receiver_at_2 (1000000 ∷ 9000000 ∷ []) refl

abbrev three_lost : List ℕ
three_lost = 5 ∷ 6 ∷ 90 ∷ []

on_control_packet-batch_example :
    (packet : List ℕ) × ((send_nack_packets
        (length (batch three_lost))
        receiver_at_3
        (batch three_lost)).sent
      ≡ receiver_at_3.sent ++ (packet ∷ []))
    × ((s : FrameSender ℕ) (now : ℕ)
        → on_control_packet ratios sender_config s packet now
          ≡ retransmit_loop ratios sender_config sender_config.max_nack_retransmit three_lost s
              (if now == 0 then s.last_ping_time_us else now))
unfolding new_receiver
on_control_packet-batch_example =
    on_control_packet-batch ratios sender_config receiver_at_3 three_lost
      ((omega arith, omega arith, (omega arith, omega arith, (omega arith, omega arith, tt))))
      (omega arith) (omega arith) refl (omega arith)
