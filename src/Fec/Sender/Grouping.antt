-- ===== src/Fec/Sender/Grouping.antt =====
-- The groups that a frame is split into, as they are sent (libs/frame_protoc/src/sender.cpp).
use tj_rtc.Prelude.{
  ℕ, ◌+◌, ◌≤◌, ◌<◌, ◌≡◌, refl, sym, ap, subst, ◌∙◌, some, List, [], ◌∷◌, ◌++◌, length, All,
}
use tj_rtc.Fec.Sender.State.{Encoder}
use tj_rtc.Fec.Sender.Frames.{GroupInfo, recovery_blocks}
use tj_rtc.Fec.Sender.Packets.{BlockPacket}
use tj_rtc.Fec.Sender.Blocks.{concat, concat_all, data_of, data_of-append, Extends}
use tj_rtc.Fec.Sender.Sending.{packets_of, FrameInfo}
use tj_rtc.Fec.Sender.Groups.{data_of_group}

-- A group: what its headers say, the number before its first packet, its data blocks and its recovery
-- blocks.
pub record SentGroup : Type 0 where
  pub info : GroupInfo
  pub seq : ℕ
  pub blocks : List (List ℕ)
  pub recovery : List (List ℕ)

abbrev pub group_packets : SentGroup → List BlockPacket
group_packets x = packets_of x.info x.seq 0 (x.blocks ++ x.recovery)

abbrev pub all_packets : List SentGroup → List BlockPacket
all_packets [] = []
all_packets (x ∷ groups) = group_packets x ++ all_packets groups

-- The group `index` of `count`, with blocks of `bytes` bytes.
pub record IsGroup (codec : Encoder) (bytes count index : ℕ) (x : SentGroup) : Type 0 where
  pub encoded : recovery_blocks codec x.info x.blocks ≡ some x.recovery
  pub blocks_whole : length x.blocks ≡ x.info.data_block_count
  pub recovery_whole : length x.recovery ≡ x.info.fec_block_count
  pub some_blocks : 0 < x.info.data_block_count
  pub few : x.info.data_block_count + x.info.fec_block_count ≤ 255
  pub indexed : x.info.fec_group_index ≡ index
  pub told : x.info.fec_group_count ≡ count
  pub same_bytes : x.info.block_bytes ≡ bytes
  pub sizes : All (λ b. length b ≡ bytes) x.blocks

abbrev pub AreGroups : Encoder → ℕ → ℕ → ℕ → List SentGroup → Type 0
AreGroups codec bytes count index [] = Unit {0}
AreGroups codec bytes count index (x ∷ groups) =
    IsGroup codec bytes count index x × AreGroups codec bytes count (index + 1) groups

-- The data blocks of the groups.
abbrev pub words_of : List SentGroup → List (List (List ℕ))
words_of [] = []
words_of (x ∷ groups) = x.blocks ∷ words_of groups

-- The packets are those of groups whose data blocks begin with the frame.
pub record IsSplit (codec : Encoder) (info : FrameInfo) (frame : List ℕ)
    (packets : List BlockPacket) : Type 0 where
  pub groups : List SentGroup
  pub grouped : packets ≡ all_packets groups
  pub are : AreGroups codec info.block_bytes (length groups) 0 groups
  pub holds : Extends frame (concat_all (words_of groups))

pub data_of-all_packets :
    (codec : Encoder) (bytes count index : ℕ) (groups : List SentGroup)
    → AreGroups codec bytes count index groups
    → data_of (all_packets groups) ≡ concat_all (words_of groups)
data_of-all_packets codec bytes count index [] v = refl
data_of-all_packets codec bytes count index (x ∷ groups) (v, more) =
    data_of-append (group_packets x) (all_packets groups)
    ∙ ap (λ t. t ++ data_of (all_packets groups))
        (data_of_group x.info x.seq x.blocks x.recovery v.blocks_whole)
    ∙ ap (λ t. concat x.blocks ++ t) (data_of-all_packets codec bytes count (index + 1) groups more)

-- What the loop has sent from group `index` of `count` on.
pub record GroupsSent (codec : Encoder) (bytes count index rounds : ℕ) (packets : List BlockPacket)
    : Type 0 where
  pub groups : List SentGroup
  pub grouped : packets ≡ all_packets groups
  pub are : AreGroups codec bytes count index groups
  pub length_groups : length groups ≡ rounds

pub GroupsSent-IsSplit :
    (codec : Encoder) (info : FrameInfo) (count : ℕ) (frame : List ℕ) (packets : List BlockPacket)
    → GroupsSent codec info.block_bytes count 0 count packets
    → Extends frame (data_of packets)
    → IsSplit codec info frame packets
GroupsSent-IsSplit codec info count frame packets v (filling, e) = record {
  groups = v.groups;
  grouped = v.grouped;
  are = subst (λ n. AreGroups codec info.block_bytes n 0 v.groups) (sym v.length_groups) v.are;
  holds = (
    filling,
    sym (data_of-all_packets codec info.block_bytes count 0 v.groups v.are)
        ∙ ap data_of (sym v.grouped)
        ∙ e,
  );
}
