-- ===== src/Fec/Sender/Delivers.antt =====
-- sendFrame as a whole: the packets of a frame hold it, and each fits the MTU
-- (libs/frame_protoc/src/sender.cpp).
use tj_rtc.Prelude.{
  ℕ, zero, suc, ◌+◌, ◌*◌, ◌^◌, ◌≤◌, ◌<◌, ◌≡◌, refl, subst, ◌≢◌, inl, inr, false, some, arith,
  dec_lt, leb, ◌==◌, ==_iff, Bool-cases,
}
use native.Mathlib.Nat.{pow-le-pow_right, pow-suc, mul-le-mul_left, one-le-pow}
use tj_rtc.Fec.Seq.{compute_seq_len}
use tj_rtc.Fec.Sender.State.{MathOps}
use tj_rtc.Fec.Sender.Split.{
  max_payload_per_block, Layout, block_layout, group_count, max_group_size, estimate_blocks,
  group_data_blocks,
}
use tj_rtc.Fec.Sender.Layout.{
  HoldsFrame, block_layout-HoldsFrame, ceil_least, max_group_size_bounds, estimate_blocks-le,
}
use tj_rtc.Fec.Sender.Frames.{at_least_one, plan_layout}
use tj_rtc.Fec.Sender.Sending.{seq_len_lem}

-- A number that `n` bytes hold has a length of at most `n`.
pub short_seq : (n len seq : ℕ) → 256 ^ len ≤ 256 * seq → seq < 256 ^ n → len ≤ n
short_seq n len seq least fits = elim (dec_lt n len) [
  | no within ↦ omega arith
  | yes longer ↦
      let more : 256 ^ suc n ≤ 256 ^ len = pow-le-pow_right (omega arith) longer in
      absurd (omega (arith, pow-suc 256 n))
]

-- A length of `n` bytes holds 65025 numbers more in one byte more.
one_byte_more : (n seq : ℕ) → 1 ≤ n → seq < 256 ^ n → seq + 65024 < 256 ^ suc n
one_byte_more zero seq h k = absurd (omega arith)
one_byte_more (suc n) seq h k =
    omega (arith, pow-suc 256 (suc n), pow-suc 256 n, one-le-pow n 256 (omega arith))

differs : (a b : ℕ) → (a == b) ≡ false → a ≢ b
differs a b h e = ground arith

-- No more blocks than bytes.
block_layout-le :
    (len payload : ℕ) → 0 < len → 0 < payload → (block_layout len payload).total_data_blocks ≤ len
unfolding block_layout
block_layout-le len payload h k = elim (Bool-cases (leb len payload)) [
  | inl one ↦ rw one (omega arith)
  | inr many ↦
      let enough : len ≤ len * payload = omega (arith, mul-le-mul_left len k) in
      rw many (ceil_least len payload len k enough)
]

-- What plan_layout finds: a layout for the bytes that a header of `seq_len` leaves, and numbers of
-- which none takes more.
pub record PlanFits (mtu data_seq len blocks : ℕ) (layout : Layout) : Type 0 where
  pub seq_len : ℕ
  pub seq_len_max : seq_len ≤ 8
  pub made : layout ≡ block_layout len (max_payload_per_block mtu seq_len)
  pub holds : HoldsFrame len (max_payload_per_block mtu seq_len) layout
  pub below : data_seq + blocks < 256 ^ seq_len

module _ {F : Type 0} (ops : MathOps F) where
  abbrev pub planned_blocks : F → Layout → ℕ
  planned_blocks ratio layout =
      let size = max_group_size ops ratio in
      estimate_blocks ops ratio layout.total_data_blocks size
        (group_count layout.total_data_blocks size) 0

  pub planned_blocks-le : (ratio : F) (layout : Layout) → planned_blocks ratio layout ≤ 65025
  planned_blocks-le ratio layout =
      let size = max_group_size ops ratio in
      let groups = group_count layout.total_data_blocks size in
      let byte : groups ≤ 255 = unfold group_count in ground arith in
      omega (arith, estimate_blocks-le ops ratio layout.total_data_blocks size groups 0)

  estimate_pos :
      (ratio : F) (total size rounds : ℕ)
      → 0 < total
      → total < 2 ^ 64
      → 0 < size
      → size < 256
      → 0 < rounds
      → 0 < estimate_blocks ops ratio total size rounds 0
  unfolding estimate_blocks group_data_blocks
  estimate_pos ratio total size zero h k p q r = absurd (omega arith)
  estimate_pos ratio total size (suc rounds) h k p q r = omega arith

  planned_blocks_pos :
      (ratio : F) (layout : Layout)
      → 0 < layout.total_data_blocks
      → layout.total_data_blocks < 2 ^ 64
      → 0 < planned_blocks ratio layout
  planned_blocks_pos ratio layout h k =
      let (size_pos, size_byte) = max_group_size_bounds ops ratio in
      let size = max_group_size ops ratio in
      let some_groups : 0 < group_count layout.total_data_blocks size =
        unfold group_count in ground arith in
      estimate_pos ratio layout.total_data_blocks size (group_count layout.total_data_blocks size) h
        k size_pos size_byte some_groups

  room_left : (mtu seq_len : ℕ) → 25 ≤ mtu → seq_len ≤ 8 → 0 < max_payload_per_block mtu seq_len
  room_left mtu seq_len h k = unfold max_payload_per_block in ground arith

  pub plan_layout-PlanFits :
      (mtu data_seq : ℕ) (ratio : F) (len : ℕ)
      → 25 ≤ mtu
      → 0 < len
      → data_seq + 65025 < 2 ^ 64
      → len < 2 ^ 32
      → (layout : Layout) × (plan_layout ops mtu data_seq ratio len ≡ some layout)
        × PlanFits mtu data_seq len (planned_blocks ratio layout) layout
  unfolding plan_layout
  plan_layout-PlanFits mtu data_seq ratio len room some_len word size_word =
      let size = max_group_size ops ratio in
      let est_len = at_least_one (compute_seq_len (data_seq + 1)) in
      let est_payload = max_payload_per_block mtu est_len in
      let est = block_layout len est_payload in
      let (low, high, fits, least) = seq_len_lem (data_seq + 1) (omega arith, omega arith) in
      let est_room = room_left mtu est_len room high in
      let est_holds = block_layout-HoldsFrame len est_payload some_len est_room in
      let blocks = planned_blocks ratio est in
      let few = planned_blocks-le ratio est in
      let max_seq = data_seq + blocks in
      let seq_len = at_least_one (compute_seq_len max_seq) in
      let layout = block_layout len (max_payload_per_block mtu seq_len) in
      let more = planned_blocks-le ratio layout in
      let not_zero : (est_payload == 0) ≡ false = ground arith in
      let some_blocks =
        planned_blocks_pos ratio est est_holds.some_blocks
          (omega (arith, block_layout-le len est_payload some_len est_room)) in
      let (low2, high2, fits2, least2) = seq_len_lem max_seq (omega arith, omega arith) in
      let room2 = room_left mtu seq_len room high2 in
      let not_zero2 : (max_payload_per_block mtu seq_len == 0) ≡ false = ground arith in
      elim (Bool-cases (seq_len == est_len)) [
        | inl same ↦
            let (eq, test) = ==_iff seq_len est_len in
            (
              est,
              rw (not_zero, same) refl,
              record {
                seq_len = est_len;
                seq_len_max = high;
                made = refl;
                holds = est_holds;
                below = subst (λ n. max_seq < 256 ^ n) (eq same) fits2;
              },
            )
        | inr longer ↦
            let at_most : est_len ≤ seq_len =
              short_seq seq_len est_len (data_seq + 1) least (omega arith) in
            let more_bytes : 256 ^ suc est_len ≤ 256 ^ seq_len =
              pow-le-pow_right (omega arith) (omega (arith, differs seq_len est_len longer)) in
            (
              layout,
              rw (not_zero, longer, not_zero2) refl,
              record {
                seq_len = seq_len;
                seq_len_max = high2;
                made = refl;
                holds =
                    block_layout-HoldsFrame len (max_payload_per_block mtu seq_len) some_len room2;
                below = omega (arith, one_byte_more est_len (data_seq + 1) low fits);
              },
            )
      ]
