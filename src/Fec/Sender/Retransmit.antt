-- ===== src/Fec/Sender/Retransmit.antt =====
-- Retransmission on a NACK: retransmitBlock and handleNack of libs/frame_protoc/src/sender.cpp.
use tj_rtc.Prelude.{
  ℕ, zero, suc, ◌+◌, ◌-◌, ◌*◌, ◌%◌, ◌^◌, bit_and, bit_or, Bool, true, false, not, ◌&&◌, Option,
  none, some, List, [], ◌∷◌, ◌++◌, ltb, leb, ◌==◌, if◌then◌else◌, length, ◌<<<◌,
}
use tj_rtc.Bytes.{ok, reject, fault, low_nibble}
use tj_rtc.Prelude.Int.{ℤ, pos, negsuc}
use tj_rtc.Fec.Payload.{NackEntry, deserialize_nack}
use tj_rtc.Fec.Sender.State.{
  MathOps, SenderConfig, ProtocolStats, CachedBlock, FrameSender, sub_word, send_block_packet,
}
use tj_rtc.Fec.Sender.Cache.{find_block, store_block}

-- `block.retry_count >= static_cast<uint8_t>(config.max_block_retransmit)`, where it is set.
unfoldable pub retries_used : ℤ → ℕ → Bool
retries_used (pos limit) retry_count = leb (limit % 256) retry_count
retries_used (negsuc n) retry_count = false

-- The byte at `offset` gets a new high half.
unfoldable pub patch_high : List ℕ → ℕ → ℕ → List ℕ
patch_high [] offset retry = []
patch_high (b ∷ bytes) zero retry = bit_or (bit_and b 0x0f) (bit_and retry 0x0f <<< 4) ∷ bytes
patch_high (b ∷ bytes) (suc offset) retry = b ∷ patch_high bytes offset retry

abbrev pub first_byte : List ℕ → ℕ
first_byte [] = 0
first_byte (b ∷ bytes) = b

-- The retry count lies 12 bytes into the data header.
unfoldable pub patch_retry_count : List ℕ → ℕ → List ℕ
unfolding patch_high
patch_retry_count packet retry =
    let retry_offset = 2 + low_nibble (first_byte packet) + 12 in
    if ltb retry_offset (length packet) then patch_high packet retry_offset retry else packet

abbrev pub last_send_us : CachedBlock → ℕ
last_send_us b = if ltb 0 b.last_retransmit_us then b.last_retransmit_us else b.send_time_us

unfoldable pub retried_block : CachedBlock → ℕ → CachedBlock
unfolding patch_retry_count
retried_block b now_us =
    let count = (b.retry_count + 1) % 256 in
    record b {
      packet = patch_retry_count b.packet count;
      last_retransmit_us = now_us;
      retry_count = count;
    }

-- The sequence numbers of the bits of a mask, from bit `bit` on.
unfoldable pub masked_seqs : ℕ → ℕ → ℕ → ℕ → List ℕ
masked_seqs zero bit start mask = []
masked_seqs (suc rounds) bit start mask =
    let rest = masked_seqs rounds (bit + 1) start mask in
    if bit_and mask (1 <<< bit) == 0 then rest else ((start + 1 + bit) % 2 ^ 64 ∷ rest)

-- What an entry asks for: its start, then the bits of its mask.
unfoldable pub entry_seqs : NackEntry → List ℕ
unfolding masked_seqs
entry_seqs e = e.lost_start_seq ∷ masked_seqs 32 0 e.lost_start_seq e.bitmask

unfoldable pub requested_seqs : List NackEntry → List ℕ
unfolding entry_seqs
requested_seqs [] = []
requested_seqs (e ∷ entries) = entry_seqs e ++ requested_seqs entries

-- `retransmit_budget--` on a budget that is above 0; -1 is no limit.
abbrev pub spend : ℤ → Bool → ℤ
spend (pos n) true = pos (n - 1)
spend (pos n) false = pos n
spend (negsuc n) sent = negsuc n

abbrev pub exhausted : ℤ → Bool
exhausted (pos n) = n == 0
exhausted (negsuc n) = false

module _ {F : Type 0} (ops : MathOps F) (cfg : SenderConfig F) where
  unfoldable pub min_interval_us : ProtocolStats F → ℕ
  min_interval_us stats =
      ops.to_word (ops.float.mul (ops.float.of_uint (stats.rtt_ms * 1000)) cfg.nack_rtt_factor)

  -- Whether the block may go out again: its own limit, and the throttle.
  unfoldable pub may_retransmit : ProtocolStats F → CachedBlock → ℕ → Bool
  unfolding min_interval_us retries_used
  may_retransmit stats b now_us =
      not (retries_used cfg.max_block_retransmit b.retry_count)
      && not (ltb (sub_word now_us (last_send_us b)) (min_interval_us stats))

  unfoldable pub retransmit_found :
      FrameSender F → ℕ → ℕ → Option CachedBlock → FrameSender F × Bool
  retransmit_found s seq now_us none = (s, false)
  retransmit_found s seq now_us (some b) =
      if may_retransmit s.stats b now_us
      then (
        send_block_packet (record s { cache = store_block s.cache seq (retried_block b now_us) })
            (retried_block b now_us).packet,
        true,
      )
      else (s, false)

  -- retransmitBlock, with whether a packet went out.
  unfoldable pub retransmit_block : FrameSender F → ℕ → ℕ → FrameSender F × Bool
  retransmit_block s seq now_us = retransmit_found s seq now_us (find_block s.cache seq)

  -- The two loops of handleNack over what the entries ask for; both end when the budget is 0.
  unfoldable pub retransmit_loop : ℤ → List ℕ → FrameSender F → ℕ → FrameSender F
  retransmit_loop budget [] s now_us = s
  retransmit_loop budget (seq ∷ seqs) s now_us =
      let next = retransmit_block s seq now_us in
      let rest = retransmit_loop (spend budget next.1) seqs next.0 now_us in
      if exhausted budget then s else rest

  unfoldable pub handle_nack : FrameSender F → List ℕ → ℕ → FrameSender F
  handle_nack s payload now_us = elim (deserialize_nack payload) [
    | ok (entries, rest) ↦ retransmit_loop cfg.max_nack_retransmit (requested_seqs entries) s now_us
    | reject ↦ s
    | fault ↦ s
  ]
