-- ===== src/Fec/Transfer.antt =====
-- A frame from a sender to a receiver: sender.cpp and receiver.cpp of libs/frame_protoc together.
use tj_rtc.Prelude.{
  ℕ, zero, suc, ◌+◌, ◌≤◌, ◌≡◌, refl, sym, ap, subst, ◌∙◌, ◌⊎◌, inl, inr, true, false, some, List,
  [], ◌∷◌, ◌++◌, arith, ◌==◌, if◌then◌else◌, ==_iff, Bool-cases, length, get_elem?, All,
}
use tj_rtc.Fec.Header.RoundTrip.{on_wire}
use tj_rtc.Fec.Sender.State.{Encoder}
use tj_rtc.Fec.Sender.Frames.{GroupInfo, block_header, recovery_blocks}
use tj_rtc.Fec.Sender.Packets.{BlockPacket}
use tj_rtc.Fec.Sender.Sending.{packet_of, packets_of, FrameInfo}
use tj_rtc.Fec.Sender.Grouping.{
  SentGroup, group_packets, all_packets, IsGroup, AreGroups, words_of, IsSplit,
}
use tj_rtc.Fec.Receiver.State.{Decoder, FecGroup, new_group, PendingFrame}
use tj_rtc.Fec.Receiver.Group.{is_set}
use tj_rtc.Fec.Receiver.Deliver.{assemble}
use tj_rtc.Fec.Receiver.Slots.{IsDistinct}
use tj_rtc.Fec.Receiver.Recovers.{CodecWorks, IsRecovered}
use tj_rtc.Fec.Receiver.Unasked.{asked, asked-CodecWorks}
use tj_rtc.Fec.Receiver.Arrivals.{
  Arrivals, arrived_indices, OfGroup, receive_all, receive_all-IsRecovered,
}
use tj_rtc.Fec.Receiver.Assembled.{AllRecovered, assemble-IsRecovered}

-- The packet is one of those that were sent.
abbrev pub StandsIn : List BlockPacket → BlockPacket → Type 0
StandsIn packets p = (n : ℕ) × (get_elem? packets n ≡ some p)

-- Of the packets that arrive, those of a group: the header as it is read, and the payload.
abbrev pub arrivals_of : ℕ → List BlockPacket → Arrivals
arrivals_of index [] = []
arrivals_of index (p ∷ packets) =
    let rest = arrivals_of index packets in
    if p.header.fec_group_index == index then ((on_wire p.header, p.payload) ∷ rest) else rest

-- The `rounds` groups from `index` on, after the packets have arrived.
abbrev pub received_groups : Decoder → ℕ → List BlockPacket → ℕ → ℕ → List FecGroup
received_groups dec bytes packets zero index = []
received_groups dec bytes packets (suc rounds) index =
    receive_all dec bytes new_group (arrivals_of index packets)
    ∷ received_groups dec bytes packets rounds (index + 1)

-- The frame with these groups.
abbrev pub put_together : Decoder → FrameInfo → ℕ → List BlockPacket → PendingFrame
put_together dec info count packets = record {
  frame_id = info.frame_id;
  frame_type = info.frame_type;
  frame_size = info.frame_size;
  fec_group_count = count;
  block_bytes = info.block_bytes;
  groups = received_groups dec info.block_bytes packets count 0;
  first_block_time_us = 0;
  last_block_time_us = 0;
  first_seq = 0;
  complete = true;
  discarded = false;
}

-- Distinct blocks of a group, as many as its data blocks, that have arrived.
pub record Enough (needed index : ℕ) (packets : List BlockPacket) : Type 0 where
  pub chosen : List ℕ
  pub distinct : IsDistinct chosen
  pub many : needed ≤ length chosen
  pub arrive :
      (i : ℕ)
      → is_set chosen i ≡ true
      → is_set (arrived_indices (arrivals_of index packets)) i ≡ true

-- Enough of every group has arrived.
abbrev pub AllEnough : ℕ → List SentGroup → List BlockPacket → Type 0
AllEnough index [] packets = Unit {0}
AllEnough index (x ∷ groups) packets =
    Enough x.info.data_block_count index packets × AllEnough (index + 1) groups packets

StandsIn-append :
    (a b : List BlockPacket) (p : BlockPacket) → StandsIn (a ++ b) p → StandsIn a p ⊎ StandsIn b p
StandsIn-append [] b p h = inr h
StandsIn-append (x ∷ a) b p (zero, e) = inl (zero, e)
StandsIn-append (x ∷ a) b p (suc n, e) = elim (StandsIn-append a b p (n, e)) [
  | inl (m, d) ↦ inl (suc m, d)
  | inr later ↦ inr later
]

get_elem?-packets_of :
    (g : GroupInfo) (seq index : ℕ) (payloads : List (List ℕ)) (n : ℕ) (p : BlockPacket)
    → get_elem? (packets_of g seq index payloads) n ≡ some p
    → (p.header ≡ block_header g (index + n)) × (get_elem? payloads n ≡ some p.payload)
get_elem?-packets_of g seq index [] n p e = absurd (cc)
get_elem?-packets_of g seq index (payload ∷ payloads) zero p e =
    let same : packet_of g (seq + 1) index payload ≡ p = cc in
    let here : index ≡ index + 0 = omega arith in
    (
      ap (λ (q : BlockPacket). q.header) (sym same) ∙ ap (block_header g) here,
      ap (λ (q : BlockPacket). some q.payload) same,
    )
get_elem?-packets_of g seq index (payload ∷ payloads) (suc n) p e =
    let (header, at) = get_elem?-packets_of g (seq + 1) (index + 1) payloads n p e in
    let there : index + 1 + n ≡ index + suc n = omega arith in
    (header ∙ ap (block_header g) there, at)

-- A packet of a group.
group_packets-index :
    (x : SentGroup) (p : BlockPacket)
    → StandsIn (group_packets x) p
    → p.header.fec_group_index ≡ x.info.fec_group_index
group_packets-index x p (n, e) =
    let (header, at) = get_elem?-packets_of x.info x.seq 0 (x.blocks ++ x.recovery) n p e in
    unfold block_header in rw header refl

later_index :
    (codec : Encoder) (bytes count index : ℕ) (groups : List SentGroup) (p : BlockPacket)
    → AreGroups codec bytes count index groups
    → StandsIn (all_packets groups) p
    → index ≤ p.header.fec_group_index
later_index codec bytes count index [] p v (n, e) = absurd (cc)
later_index codec bytes count index (x ∷ groups) p (v, more) h =
    elim (StandsIn-append (group_packets x) (all_packets groups) p h) [
      | inl here ↦ omega (arith, group_packets-index x p here, v.indexed)
      | inr later ↦
          let after = later_index codec bytes count (index + 1) groups p more later in omega arith
    ]

group_packets-OfGroup :
    (x : SentGroup) (p : BlockPacket)
    → StandsIn (group_packets x) p
    → OfGroup
        (x.blocks ++ x.recovery)
        x.info.data_block_count
        x.info.fec_block_count
        (on_wire p.header, p.payload)
group_packets-OfGroup x p (n, e) =
    let (header, at) = get_elem?-packets_of x.info x.seq 0 (x.blocks ++ x.recovery) n p e in
    let index : p.header.block_index ≡ n = unfold block_header in rw header (omega arith) in
    (
      unfold block_header in rw header refl,
      unfold block_header in rw header refl,
      ap (get_elem? (x.blocks ++ x.recovery)) index ∙ at,
    )

-- The packets of the groups that are still to come.
abbrev FromGroups : ℕ → List SentGroup → BlockPacket → Type 0
FromGroups index groups p = index ≤ p.header.fec_group_index → StandsIn (all_packets groups) p

stands_here :
    (codec : Encoder) (bytes count index : ℕ) (x : SentGroup) (groups : List SentGroup)
    (p : BlockPacket)
    → AreGroups codec bytes count index (x ∷ groups)
    → FromGroups index (x ∷ groups) p
    → p.header.fec_group_index ≡ index
    → StandsIn (group_packets x) p
stands_here codec bytes count index x groups p v from here =
    elim (StandsIn-append (group_packets x) (all_packets groups) p (from (omega arith))) [
      | inl stands ↦ stands
      | inr later ↦
          let after = later_index codec bytes count (index + 1) groups p v.1 later in
          absurd (omega arith)
    ]

arrivals_of-OfGroup :
    (codec : Encoder) (bytes count index : ℕ) (x : SentGroup) (groups : List SentGroup)
    (packets : List BlockPacket)
    → AreGroups codec bytes count index (x ∷ groups)
    → All (FromGroups index (x ∷ groups)) packets
    → All
        (OfGroup (x.blocks ++ x.recovery) x.info.data_block_count x.info.fec_block_count)
        (arrivals_of index packets)
arrivals_of-OfGroup codec bytes count index x groups [] v from = tt
arrivals_of-OfGroup codec bytes count index x groups (p ∷ packets) v (first, from) =
    let rest = arrivals_of-OfGroup codec bytes count index x groups packets v from in
    let (eq, test) = ==_iff p.header.fec_group_index index in
    elim (Bool-cases (p.header.fec_group_index == index)) [
      | inr other ↦ rw other rest
      | inl same ↦
          let here : p.header.fec_group_index ≡ index = eq same in
          let stands = stands_here codec bytes count index x groups p v first here in
          rw same (group_packets-OfGroup x p stands, rest)
    ]

from_later :
    (codec : Encoder) (bytes count index : ℕ) (x : SentGroup) (groups : List SentGroup)
    (packets : List BlockPacket)
    → IsGroup codec bytes count index x
    → All (FromGroups index (x ∷ groups)) packets
    → All (FromGroups (index + 1) groups) packets
from_later codec bytes count index x groups [] v from = tt
from_later codec bytes count index x groups (p ∷ packets) v (first, from) = (
  λ le. elim (StandsIn-append (group_packets x) (all_packets groups) p (first (omega arith))) [
    | inl here ↦ absurd (omega (arith, group_packets-index x p here, v.indexed))
    | inr later ↦ later
  ],
  from_later codec bytes count index x groups packets v from,
)

receive_all-IsRecovered_group :
    (codec : Encoder) (dec : Decoder) (bytes count index : ℕ) (x : SentGroup)
    (packets : List BlockPacket)
    → CodecWorks codec dec
    → IsGroup codec bytes count index x
    → All
        (OfGroup (x.blocks ++ x.recovery) x.info.data_block_count x.info.fec_block_count)
        (arrivals_of index packets)
    → Enough x.info.data_block_count index packets
    → IsRecovered x.blocks (receive_all dec bytes new_group (arrivals_of index packets))
unfolding recovery_blocks
receive_all-IsRecovered_group codec dec bytes count index x packets works v of enough =
    subst (λ n. IsRecovered x.blocks (receive_all dec n new_group (arrivals_of index packets)))
      v.same_bytes
      (receive_all-IsRecovered (asked codec) dec (asked-CodecWorks codec dec works)
        x.info.data_block_count x.info.fec_block_count x.info.block_bytes x.blocks x.recovery
        v.encoded v.blocks_whole (arrivals_of index packets) enough.chosen v.some_blocks
        (omega (arith, v.few)) of enough.distinct enough.many enough.arrive)

received_groups-AllRecovered :
    (codec : Encoder) (dec : Decoder) (bytes count index : ℕ) (groups : List SentGroup)
    (packets : List BlockPacket)
    → CodecWorks codec dec
    → AreGroups codec bytes count index groups
    → All (FromGroups index groups) packets
    → AllEnough index groups packets
    → AllRecovered bytes (words_of groups) (received_groups dec bytes packets (length groups) index)
received_groups-AllRecovered codec dec bytes count index [] packets works v from enough = tt
received_groups-AllRecovered codec dec bytes count index (x ∷ groups) packets works (v, more) from
      (enough, later) =
    (
      receive_all-IsRecovered_group codec dec bytes count index x packets works v
          (arrivals_of-OfGroup codec bytes count index x groups packets (v, more) from) enough,
      v.sizes,
      received_groups-AllRecovered codec dec bytes count (index + 1) groups packets works more
          (from_later codec bytes count index x groups packets v from) later,
    )

length-received_groups :
    (dec : Decoder) (bytes : ℕ) (packets : List BlockPacket) (rounds index : ℕ)
    → length (received_groups dec bytes packets rounds index) ≡ rounds
length-received_groups dec bytes packets zero index = refl
length-received_groups dec bytes packets (suc rounds) index =
    ap suc (length-received_groups dec bytes packets rounds (index + 1))

from_first :
    (sent : List BlockPacket) (groups : List SentGroup) (packets : List BlockPacket)
    → sent ≡ all_packets groups
    → All (StandsIn sent) packets
    → All (FromGroups 0 groups) packets
from_first sent groups [] e h = tt
from_first sent groups (p ∷ packets) e (first, h) =
    (λ le. subst (λ ps. StandsIn ps p) e first, from_first sent groups packets e h)

-- With an erasure code that recovers what is documented, of the packets in which a frame has been sent
-- any that arrive, in any order, with losses and repetitions, give the frame back unchanged, without a
-- read past the end of a block, as soon as there are, for each group, as many distinct blocks among them
-- as the group has data blocks.
pub assemble-IsSplit :
    (codec : Encoder) (dec : Decoder) (info : FrameInfo) (frame : List ℕ)
    (sent packets : List BlockPacket)
    → CodecWorks codec dec
    → info.frame_size ≡ length frame
    → (split : IsSplit codec info frame sent) → All (StandsIn sent) packets
    → AllEnough 0 split.groups packets
    → assemble (put_together dec info (length split.groups) packets)
      ≡ record { type = info.frame_type; size = length frame; bytes = frame; overread = false }
assemble-IsSplit codec dec info frame sent packets works size split arrived enough =
    let count = length split.groups in
    assemble-IsRecovered (put_together dec info count packets) (words_of split.groups) frame
      (received_groups-AllRecovered codec dec info.block_bytes count 0 split.groups packets works
        split.are (from_first sent split.groups packets split.grouped arrived) enough)
      (sym (length-received_groups dec info.block_bytes packets count 0)) size split.holds
