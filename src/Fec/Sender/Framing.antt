-- ===== src/Fec/Sender/Framing.antt =====
-- sendFrame sends all of a frame (libs/frame_protoc/src/sender.cpp).
use tj_rtc.Prelude.{
  ℕ, zero, suc, ◌+◌, ◌-◌, ◌*◌, ◌%◌, ◌^◌, ◌≤◌, ◌<◌, min, ◌≡◌, refl, sym, ap, subst, ◌∙◌, inl, inr,
  true, false, Option, none, some, List, [], ◌∷◌, ◌++◌, arith, ltb, ltb→lt, Bool-cases, length, All,
  length-append,
}
use tj_rtc.Prelude.{All-append}
use native.Mathlib.Nat.{add-mul, suc-mul}
use tj_rtc.Fec.Sender.State.{MathOps, Encoder, FrameSender}
use tj_rtc.Fec.Sender.Split.{group_data_blocks, cut_blocks, estimate_blocks}
use tj_rtc.Fec.Sender.Layout.{group_data_blocks_lem, fec_block_count-le}
use tj_rtc.Fec.Sender.Frames.{
  GroupInfo, send_blocks, FramePlan, group_info, recovery_blocks, send_groups,
}
use tj_rtc.Fec.Sender.Packets.{BlockPacket}
use tj_rtc.Fec.Sender.Resent.{IsSender}
use tj_rtc.Fec.Sender.Blocks.{
  concat, data_of, data_of-append, Extends, cut_blocks-Extends, length-cut_blocks,
}
use tj_rtc.Fec.Sender.Sending.{GroupFits, packets_of, FrameInfo, Sends, Sends-append}
use tj_rtc.Fec.Sender.Grouping.{GroupsSent}
use tj_rtc.Fec.Sender.Groups.{nothing-Sends, send_blocks-Sends, data_of_group, length-packets_of}

-- What cm256_encode is documented to do: it succeeds where the counts are above 0 and at most 256
-- together, and gives as many recovery blocks as it is asked for, each of the size of a block.
pub record EncoderWorks (codec : Encoder) : Type 0 where
  pub ready : codec.initialized ≡ true
  pub encodes :
      (k r n : ℕ) (blocks : List (List ℕ))
      → 0 < k
      → 0 < r
      → 0 < n
      → k + r ≤ 256
      → length blocks ≡ k
      → All (λ b. length b ≡ n) blocks
      → (out : List (List ℕ)) × (codec.encode k r n blocks ≡ some out)
        × (length out ≡ r)
        × All (λ b. length b ≡ n) out

recovery_blocks_lem :
    (codec : Encoder) (g : GroupInfo) (blocks : List (List ℕ))
    → EncoderWorks codec
    → 0 < g.data_block_count
    → 0 < g.block_bytes
    → g.data_block_count + g.fec_block_count ≤ 255
    → length blocks ≡ g.data_block_count
    → All (λ b. length b ≡ g.block_bytes) blocks
    → (out : List (List ℕ)) × (recovery_blocks codec g blocks ≡ some out)
      × (length out ≡ g.fec_block_count)
      × All (λ b. length b ≡ g.block_bytes) out
unfolding recovery_blocks
recovery_blocks_lem codec g blocks w k n few count sizes =
    elim (Bool-cases (ltb 0 g.fec_block_count)) [
      | inl wanted ↦
          let some_recovery : 0 < g.fec_block_count = ltb→lt 0 g.fec_block_count wanted in
          rw wanted (
            w.encodes g.data_block_count g.fec_block_count g.block_bytes blocks k some_recovery n
              (omega arith) count sizes)
      | inr none_wanted ↦
          let zero_fec : g.fec_block_count ≡ 0 = ground arith in
          rw none_wanted ([], refl, sym zero_fec, tt)
    ]

-- The loop over the groups stands before group `index`, with `rounds` to go.
pub record Ahead {F : Type 0} (plan : FramePlan F) (rounds index : ℕ) (rest : List ℕ)
    (s : FrameSender F) : Type 0 where
  pub size_pos : 0 < plan.group_size
  pub size_byte : plan.group_size < 256
  pub bytes_pos : 0 < plan.layout.block_bytes
  pub bytes_fit : plan.layout.block_bytes < 4096
  pub total_word : plan.layout.total_data_blocks < 2 ^ 64
  pub enough : plan.layout.total_data_blocks ≤ index * plan.group_size + rounds * plan.group_size
  pub needed :
      index * plan.group_size + rounds * plan.group_size
      < plan.layout.total_data_blocks + plan.group_size
  pub held :
      length rest
      ≤ (plan.layout.total_data_blocks - index * plan.group_size) * plan.layout.block_bytes
  pub seq_word : s.data_seq + 255 * rounds < 2 ^ 64

abbrev pub plan_info : {F : Type 0} → FramePlan F → ℕ → FrameInfo
plan_info plan id = record {
  frame_id = id;
  frame_type = plan.frame_type;
  frame_size = plan.len % 2 ^ 32;
  block_bytes = plan.layout.block_bytes;
}

-- The bytes that are left after the blocks of a group.
left_held :
    (total done size bytes rest left : ℕ)
    → rest ≤ (total - done) * bytes
    → left ≡ rest - min size (total - done) * bytes
    → left ≤ (total - (done + size)) * bytes
left_held total done size bytes rest left h e =
    let part : min size (total - done) + (total - (done + size)) ≡ total - done = omega arith in
    omega (
      arith,
      add-mul (min size (total - done)) (total - (done + size)) bytes,
      ap (λ (n : ℕ). n * bytes) part,
    )

module _ {F : Type 0} (ops : MathOps F) (codec : Encoder) (works : EncoderWorks codec) where
  -- What a group of blocks is, and what is ahead after it.
  abbrev SentGroups : FramePlan F → ℕ → ℕ → List ℕ → FrameSender F → Type 0
  SentGroups plan rounds index rest s =
      (t : FrameSender F) × (packets : List BlockPacket) × (send_groups ops codec plan rounds index
          rest s
        ≡ (t, true))
      × Sends (plan_info plan s.frame_id) s t packets
      × GroupsSent codec plan.layout.block_bytes plan.groups index rounds packets
      × Extends rest (data_of packets)
      × (length packets
          ≡ estimate_blocks ops plan.ratio plan.layout.total_data_blocks plan.group_size rounds
              index)

  no_groups_left :
      (plan : FramePlan F) (index : ℕ) (rest : List ℕ) (s : FrameSender F)
      → Ahead plan 0 index rest s
      → rest ≡ []
  no_groups_left plan index [] s a = refl
  no_groups_left plan index (b ∷ rest) s a =
      let nothing : plan.layout.total_data_blocks - index * plan.group_size ≡ 0 =
        omega (arith, a.enough) in
      let none_held : suc (length rest) ≤ 0 * plan.layout.block_bytes =
        subst (λ n. suc (length rest) ≤ n * plan.layout.block_bytes) nothing a.held in
      absurd (omega arith)

  group_data :
      (plan : FramePlan F) (rounds index : ℕ) (rest : List ℕ) (s : FrameSender F)
      → Ahead plan (suc rounds) index rest s
      → group_data_blocks plan.layout.total_data_blocks plan.group_size index
        ≡ min plan.group_size (plan.layout.total_data_blocks - index * plan.group_size)
  group_data plan rounds index rest s a =
      group_data_blocks_lem plan.layout.total_data_blocks plan.group_size index a.size_byte
        (omega (arith, a.needed, suc-mul rounds plan.group_size)) a.total_word

  next_Ahead :
      (plan : FramePlan F) (rounds index : ℕ) (rest left : List ℕ) (s t : FrameSender F)
      → Ahead plan (suc rounds) index rest s
      → length left
        ≡ length rest
          - group_data_blocks plan.layout.total_data_blocks plan.group_size index
            * plan.layout.block_bytes
      → t.data_seq ≤ s.data_seq + 255
      → Ahead plan rounds (index + 1) left t
  next_Ahead plan rounds index rest left s t a e seq =
      let size = plan.group_size in
      let total = plan.layout.total_data_blocks in
      let step : (index + 1) * size ≡ index * size + size = omega (arith, add-mul index 1 size) in
      let round : suc rounds * size ≡ rounds * size + size = suc-mul rounds size in
      let shorter : length left
          ≡ length rest - min size (total - index * size) * plan.layout.block_bytes =
        e
        ∙ ap (λ n. length rest - n * plan.layout.block_bytes)
            (group_data plan rounds index rest s a) in
      record {
        size_pos = a.size_pos;
        size_byte = a.size_byte;
        bytes_pos = a.bytes_pos;
        bytes_fit = a.bytes_fit;
        total_word = a.total_word;
        enough = omega (arith, a.enough);
        needed = omega (arith, a.needed);
        held =
            subst (λ n. length left ≤ (total - n) * plan.layout.block_bytes) (sym step)
              (left_held total (index * size) size plan.layout.block_bytes (length rest)
                (length left) a.held shorter);
        seq_word = omega (arith, a.seq_word);
      }

  send_groups_step :
      (plan : FramePlan F) (rounds index : ℕ) (rest : List ℕ) (s : FrameSender F)
      (recovery : List (List ℕ))
      → let g = group_info ops s plan index in
        let cut = cut_blocks g.data_block_count g.block_bytes rest in
        recovery_blocks codec g cut.0 ≡ some recovery
        → send_groups ops codec plan (suc rounds) index rest s
          ≡ send_groups ops codec plan rounds
              (index + 1)
              cut.1
              (send_blocks s g plan.now_us 0 (cut.0 ++ recovery))
  unfolding send_groups
  send_groups_step plan rounds index rest s recovery e =
      let g = group_info ops s plan index in
      let cut = cut_blocks g.data_block_count g.block_bytes rest in
      ap
        (λ (found : Option (List (List ℕ))). elim found [
          | none ↦ (s, false)
          | some recovery ↦
              send_groups ops codec plan rounds (index + 1) cut.1
                (send_blocks s g plan.now_us 0 (cut.0 ++ recovery))
        ])
        e

  pub send_groups_lem :
      (plan : FramePlan F) (rounds index : ℕ) (rest : List ℕ) (s : FrameSender F)
      → IsSender s
      → s.send_cb ≡ true
      → Ahead plan rounds index rest s
      → SentGroups plan rounds index rest s
  unfolding send_groups estimate_blocks
  send_groups_lem plan zero index rest s v on a = (
    s,
    [],
    refl,
    nothing-Sends (plan_info plan s.frame_id) s v on,
    record { groups = []; grouped = refl; are = tt; length_groups = refl },
    ([], rw (no_groups_left plan index rest s a) refl),
    refl,
  )
  send_groups_lem plan (suc rounds) index rest s v on a =
      let g = group_info ops s plan index in
      let bb = plan.layout.block_bytes in
      let size = plan.group_size in
      let total = plan.layout.total_data_blocks in
      let blocks = (cut_blocks g.data_block_count bb rest).0 in
      let left = (cut_blocks g.data_block_count bb rest).1 in
      let (count, shorter, sizes) = length-cut_blocks g.data_block_count bb rest in
      let data_count = group_data plan rounds index rest s a in
      let round : suc rounds * size ≡ rounds * size + size = suc-mul rounds size in
      let positive : 0 < min size (total - index * size) = omega (arith, a.needed, a.size_pos) in
      let few =
        fec_block_count-le ops plan.ratio (group_data_blocks total size index)
          (omega (arith, data_count, a.size_byte)) in
      let (recovery, encoded, made, same_size) =
        recovery_blocks_lem codec g blocks works (omega (arith, data_count)) a.bytes_pos few count
          sizes in
      let payloads = blocks ++ recovery in
      let sum = length-append {0} blocks recovery in
      let t = send_blocks s g plan.now_us 0 payloads in
      let fits : GroupFits g = record {
        frame_id_fits = v.0;
        frame_size_fits = omega arith;
        bytes_fit = a.bytes_fit;
      } in
      let sends =
        send_blocks-Sends s g plan.now_us 0 payloads v on fits
          (All-append (λ b. length b ≡ bb) blocks recovery sizes same_size)
          (omega (arith, a.seq_word)) in
      let here = packets_of g s.data_seq 0 payloads in
      let here_count = length-packets_of g s.data_seq 0 payloads in
      let ahead =
        next_Ahead plan rounds index rest left s t a shorter (omega (arith, sends.counted)) in
      let (u, later, done, more, split, whole, later_count) =
        send_groups_lem plan rounds (index + 1) left t sends.valid sends.still_on ahead in
      let together : data_of (here ++ later) ≡ concat blocks ++ data_of later =
        data_of-append here later
        ∙ ap (λ x. x ++ data_of later) (data_of_group g s.data_seq blocks recovery count) in
      (
        u,
        here ++ later,
        send_groups_step plan rounds index rest s recovery encoded ∙ done,
        Sends-append (plan_info plan s.frame_id) here later sends
            (subst (λ n. Sends (plan_info plan n) t u later) sends.same_id more),
        record {
          groups =
              record { info = g; seq = s.data_seq; blocks = blocks; recovery = recovery }
              ∷ split.groups;
          grouped = ap (λ x. here ++ x) split.grouped;
          are = (
            record {
              encoded = encoded;
              blocks_whole = count;
              recovery_whole = made;
              some_blocks = omega (arith, data_count);
              few = few;
              indexed = refl;
              told = refl;
              same_bytes = refl;
              sizes = sizes;
            },
            split.are,
          );
          length_groups = ap suc split.length_groups;
        },
        (let (filling, e) = cut_blocks-Extends g.data_block_count bb rest (data_of later) whole in
            (filling, together ∙ e)),
        omega (arith, length-append {0} here later),
      )
