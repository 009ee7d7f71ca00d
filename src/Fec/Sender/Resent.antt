-- ===== src/Fec/Sender/Resent.antt =====
-- What a retransmission puts on the wire.
use tj_rtc.Prelude.{
  ℕ, ◌+◌, ◌%◌, ◌^◌, ◌<◌, ◌≡◌, refl, sym, subst, ◌⊎◌, inl, inr, true, false, Option, none, some,
  List, [], ◌∷◌, ◌++◌, arith, Bool-cases, Option-cases, All,
}
use tj_rtc.Bytes.{ok}
use tj_rtc.Fec.Header.{CommonHeader, DataHeader, data_bytes, deserialize_common, deserialize_data}
use tj_rtc.Fec.Header.RoundTrip.{on_wire}
use tj_rtc.Fec.Sender.State.{
  MathOps, SenderConfig, CachedBlock, FrameSender, send_packet, send_block_packet,
}
use tj_rtc.Fec.Sender.Cache.{find_block, store_block}
use tj_rtc.Fec.Sender.Retransmit.{may_retransmit, retried_block, retransmit_found, retransmit_block}
use tj_rtc.Fec.Sender.Packets.{
  BlockPacket, packet_bytes, with_retry, IsPacket, patch_retry_count-packet_bytes, read_packet,
}
use tj_rtc.Fec.Sender.Cached.{IsCached, store_block-IsCached, find_block-IsCached}

-- The wire form of an entry that is sent once more.
pub retried_block-IsCached :
    (seq : ℕ) (b : CachedBlock) (now : ℕ) → IsCached (seq, b) → IsCached (seq, retried_block b now)
unfolding retried_block
retried_block-IsCached seq b now v =
    let count = (b.retry_count + 1) % 256 in
    record {
      wire = with_retry v.wire count;
      fits = record {
        common_fits = v.fits.common_fits;
        frame_id_fits = v.fits.frame_id_fits;
        frame_size_fits = v.fits.frame_size_fits;
        payload_fits = v.fits.payload_fits;
        retry_fits = omega arith;
        payload_whole = v.fits.payload_whole;
      };
      numbered = v.numbered;
      kept = rw v.kept (patch_retry_count-packet_bytes v.wire count v.fits);
      counted = refl;
    }

-- What the receiver finds in a packet: the headers, and the payload behind them.
pub record ReadsAs (packet : List ℕ) (common : CommonHeader) (header : DataHeader)
    (payload : List ℕ) : Type 0 where
  pub after_common : List ℕ
  pub common_read : deserialize_common packet ≡ ok (common, after_common)
  pub header_read : deserialize_data after_common ≡ ok (header, payload)

abbrev pub read_again : CachedBlock → DataHeader → DataHeader
read_again b h = on_wire (record h { retry_count = (b.retry_count + 1) % 256 })

packet_bytes-ReadsAs :
    (p : BlockPacket) → IsPacket p → ReadsAs (packet_bytes p) p.common (on_wire p.header) p.payload
packet_bytes-ReadsAs p v =
    let (first, second) = read_packet p v in
    record {
      after_common = data_bytes p.header ++ p.payload;
      common_read = first;
      header_read = second;
    }

retried-ReadsAs :
    {seq : ℕ} (b : CachedBlock) (now : ℕ) (v : IsCached (seq, b))
    → ReadsAs (retried_block b now).packet v.wire.common (read_again b v.wire.header) v.wire.payload
unfolding retried_block
retried-ReadsAs {seq} b now v =
    let count = (b.retry_count + 1) % 256 in
    rw (v.kept, patch_retry_count-packet_bytes v.wire count v.fits)
      (packet_bytes-ReadsAs (with_retry v.wire count) record {
        common_fits = v.fits.common_fits;
        frame_id_fits = v.fits.frame_id_fits;
        frame_size_fits = v.fits.frame_size_fits;
        payload_fits = v.fits.payload_fits;
        retry_fits = omega arith;
        payload_whole = v.fits.payload_whole;
      })

-- What holds of a sender between two calls.
module _ {F : Type 0} where
  abbrev pub IsSender : FrameSender F → Type 0
  IsSender s = (s.frame_id < 2 ^ 16) × All IsCached s.cache

  pub send_block_packet_lem :
      (s : FrameSender F) (packet : List ℕ)
      → ((send_block_packet s packet).cache ≡ s.cache)
        × ((send_block_packet s packet).frame_id ≡ s.frame_id)
        × ((send_block_packet s packet).data_seq ≡ s.data_seq)
        × ((send_block_packet s packet).stats.blocks_sent ≡ s.stats.blocks_sent + 1)
  unfolding send_block_packet send_packet
  send_block_packet_lem s packet = elim (Bool-cases s.send_cb) [
    | inl set_up ↦ rw set_up (refl, refl, refl, refl)
    | inr alone ↦ rw alone (refl, refl, refl, refl)
  ]

  pub send_block_packet-sent :
      (s : FrameSender F) (packet : List ℕ)
      → s.send_cb ≡ true
      → (send_block_packet s packet).sent ≡ s.sent ++ (packet ∷ [])
  unfolding send_block_packet send_packet
  send_block_packet-sent s packet h = rw h refl

-- A block that is in the cache as it was sent, and goes out once more.
pub record IsResent {F : Type 0} (s t : FrameSender F) (seq : ℕ) (b : CachedBlock) : Type 0 where
  pub common : CommonHeader
  pub header : DataHeader
  pub payload : List ℕ
  pub packet : List ℕ
  pub numbered : common.seq_num ≡ seq
  pub counted : header.retry_count ≡ b.retry_count
  pub was_sent : ReadsAs b.packet common (on_wire header) payload
  pub out : t.sent ≡ s.sent ++ (packet ∷ [])
  pub read_back : ReadsAs packet common (read_again b header) payload

module _ {F : Type 0} (ops : MathOps F) (cfg : SenderConfig F) where
  retransmit_found-IsSender :
      (s : FrameSender F) (seq now : ℕ) (found : Option CachedBlock)
      → IsSender s
      → find_block s.cache seq ≡ found
      → IsSender (retransmit_found ops cfg s seq now found).0
  unfolding retransmit_found
  retransmit_found-IsSender s seq now none v e = v
  retransmit_found-IsSender s seq now (some b) (id, v) e =
      elim (Bool-cases (may_retransmit ops cfg s.stats b now)) [
        | inl may ↦
            let next = record s { cache = store_block s.cache seq (retried_block b now) } in
            let (cache, frame, seq_kept, count) =
              send_block_packet_lem next (retried_block b now).packet in
            rw may (
              omega (arith, frame),
              rw cache (
                  store_block-IsCached s.cache seq (retried_block b now) v
                    (retried_block-IsCached seq b now (find_block-IsCached s.cache seq b v e))),
            )
        | inr throttled ↦ rw throttled (id, v)
      ]

  pub retransmit_block-IsSender :
      (s : FrameSender F) (seq now : ℕ)
      → IsSender s
      → IsSender (retransmit_block ops cfg s seq now).0
  unfolding retransmit_block
  retransmit_block-IsSender s seq now v =
      retransmit_found-IsSender s seq now (find_block s.cache seq) v refl

  retransmit_found-IsResent :
      (s : FrameSender F) (seq now : ℕ) (b : CachedBlock)
      → IsSender s
      → s.send_cb ≡ true
      → find_block s.cache seq ≡ some b
      → may_retransmit ops cfg s.stats b now ≡ true
      → IsResent s (retransmit_found ops cfg s seq now (some b)).0 seq b
  unfolding retransmit_found
  retransmit_found-IsResent s seq now b (id, v) on e may =
      let old = find_block-IsCached s.cache seq b v e in
      let new = retried_block-IsCached seq b now old in
      let count = (b.retry_count + 1) % 256 in
      let next = record s { cache = store_block s.cache seq (retried_block b now) } in
      record {
        common = old.wire.common;
        header = old.wire.header;
        payload = old.wire.payload;
        packet = (retried_block b now).packet;
        numbered = old.numbered;
        counted = old.counted;
        was_sent =
            subst (λ p. ReadsAs p old.wire.common (on_wire old.wire.header) old.wire.payload)
              (sym old.kept) (packet_bytes-ReadsAs old.wire old.fits);
        out = rw may (send_block_packet-sent next (retried_block b now).packet on);
        read_back = retried-ReadsAs b now old;
      }

  pub retransmit_block-IsResent :
      (s : FrameSender F) (seq now : ℕ)
      → IsSender s
      → s.send_cb ≡ true
      → let (t, resent) = retransmit_block ops cfg s seq now in
        ((resent ≡ false) × (t ≡ s))
        ⊎ ((resent ≡ true)
            × ((b : CachedBlock) × (find_block s.cache seq ≡ some b) × IsResent s t seq b))
  unfolding retransmit_block retransmit_found
  retransmit_block-IsResent s seq now v on = elim (Option-cases (find_block s.cache seq)) [
    | inl missing ↦ rw missing (inl (refl, refl))
    | inr (b, found) ↦ elim (Bool-cases (may_retransmit ops cfg s.stats b now)) [
      | inl may ↦
          let resent = retransmit_found-IsResent s seq now b v on found may in
          rw found (rw may (inr (refl, (b, refl, (rw may at resent)))))
      | inr throttled ↦ rw found (rw throttled (inl (refl, refl)))
    ]
  ]
