-- ===== src/Tests/TransferTests.antt =====
-- sender.cpp and receiver.cpp of libs/frame_protoc together, at a concrete input.
use tj_rtc.Prelude.{◌≡◌, refl, false, List, [], ◌∷◌, arith}
use tj_rtc.Fec.Sender.Frames.{GroupInfo, block_header, recovery_blocks}
use tj_rtc.Fec.Sender.Packets.{BlockPacket}
use tj_rtc.Fec.Sender.Sending.{packet_of, FrameInfo}
use tj_rtc.Fec.Sender.Grouping.{SentGroup, all_packets, IsSplit}
use tj_rtc.Fec.Receiver.Deliver.{assemble}
use tj_rtc.Fec.Transfer.{put_together, assemble-IsSplit}
use tj_rtc.Tests.ReceiverTests.{copies, copies_back, copies-CodecWorks}

-- One data block with two copies.
abbrev only_info : GroupInfo
only_info = record {
  frame_id = 3;
  data_block_count = 1;
  fec_block_count = 2;
  fec_group_index = 0;
  fec_group_count = 1;
  frame_type = 2;
  frame_size = 1;
  block_bytes = 2;
}

abbrev only_group : SentGroup
only_group = record {
  info = only_info;
  seq = 8;
  blocks = (7 ∷ 0 ∷ []) ∷ [];
  recovery = (7 ∷ 0 ∷ []) ∷ ((7 ∷ 0 ∷ []) ∷ []);
}

abbrev frame_info : FrameInfo
frame_info = record { frame_id = 3; frame_type = 2; frame_size = 1; block_bytes = 2 }

abbrev sent_packets : List BlockPacket
sent_packets = all_packets (only_group ∷ [])

only_group-IsSplit : IsSplit copies frame_info (7 ∷ []) sent_packets
unfolding recovery_blocks
only_group-IsSplit = record {
  groups = only_group ∷ [];
  grouped = refl;
  are = (
    record {
      encoded = refl;
      blocks_whole = refl;
      recovery_whole = refl;
      some_blocks = omega arith;
      few = omega arith;
      indexed = refl;
      told = refl;
      same_bytes = refl;
      sizes = (refl, tt);
    },
    tt,
  );
  holds = (0 ∷ [], refl);
}

-- Only the last packet arrives.
abbrev last_packet : BlockPacket
last_packet = packet_of only_info 11 2 (7 ∷ 0 ∷ [])

assemble-IsSplit_example :
    assemble (put_together copies_back frame_info 1 (last_packet ∷ []))
    ≡ record { type = 2; size = 1; bytes = 7 ∷ []; overread = false }
unfolding block_header only_group-IsSplit
assemble-IsSplit_example =
    assemble-IsSplit copies copies_back frame_info (7 ∷ []) sent_packets (last_packet ∷ [])
      copies-CodecWorks refl only_group-IsSplit ((2, refl), tt)
      (record { chosen = 2 ∷ []; distinct = (refl, tt); many = omega arith; arrive = λ i e. e }, tt)
