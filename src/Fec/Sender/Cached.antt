-- ===== src/Fec/Sender/Cached.antt =====
-- What the retransmission cache of a sender holds.
use tj_rtc.Prelude.{ℕ, ◌≡◌, subst, inl, inr, some, [], ◌∷◌, ltb, leb, ◌==◌, ==_iff, Bool-cases, All}
use tj_rtc.Fec.Sender.State.{CachedBlock, sub_word}
use tj_rtc.Prelude.{some_injective}
use tj_rtc.Fec.Sender.Cache.{Cache, find_block, store_block, cleanup_cache, cleanup_expired_cache}
use tj_rtc.Fec.Sender.Packets.{BlockPacket, packet_bytes, IsPacket}

-- An entry is the packet of its sequence number, with the retry count that the entry has.
pub record IsCached (e : ℕ × CachedBlock) : Type 0 where
  pub wire : BlockPacket
  pub fits : IsPacket wire
  pub numbered : wire.common.seq_num ≡ e.0
  pub kept : e.1.packet ≡ packet_bytes wire
  pub counted : wire.header.retry_count ≡ e.1.retry_count

pub store_block-IsCached :
    (c : Cache) (seq : ℕ) (b : CachedBlock)
    → All IsCached c
    → IsCached (seq, b)
    → All IsCached (store_block c seq b)
unfolding store_block
store_block-IsCached [] seq b h k = (k, tt)
store_block-IsCached ((j, old) ∷ c) seq b (first, h) k = elim (Bool-cases (j == seq)) [
  | inl here ↦ rw here (k, h)
  | inr other ↦ elim (Bool-cases (ltb seq j)) [
    | inl before ↦ rw (other, before) (k, (first, h))
    | inr after ↦ rw (other, after) (first, store_block-IsCached c seq b h k)
  ]
]

pub cleanup_cache-IsCached :
    (c : Cache) (up_to : ℕ) → All IsCached c → All IsCached (cleanup_cache c up_to)
unfolding cleanup_cache
cleanup_cache-IsCached [] up_to h = h
cleanup_cache-IsCached ((j, b) ∷ c) up_to (first, h) = elim (Bool-cases (leb j up_to)) [
  | inl old ↦ rw old (cleanup_cache-IsCached c up_to h)
  | inr new ↦ rw new (first, h)
]

pub cleanup_expired_cache-IsCached :
    (c : Cache) (now timeout : ℕ)
    → All IsCached c
    → All IsCached (cleanup_expired_cache c now timeout)
unfolding cleanup_expired_cache
cleanup_expired_cache-IsCached [] now timeout h = h
cleanup_expired_cache-IsCached ((j, b) ∷ c) now timeout (first, h) =
    elim (Bool-cases (leb (sub_word now b.send_time_us) timeout)) [
      | inl fresh ↦ rw fresh (first, h)
      | inr expired ↦ rw expired (cleanup_expired_cache-IsCached c now timeout h)
    ]

pub find_block-IsCached :
    (c : Cache) (seq : ℕ) (b : CachedBlock)
    → All IsCached c
    → find_block c seq ≡ some b
    → IsCached (seq, b)
unfolding find_block
find_block-IsCached [] seq b h e = absurd (cc)
find_block-IsCached ((j, old) ∷ c) seq b (first, h) e = elim (Bool-cases (j == seq)) [
  | inl here ↦
      let (eq, test) = ==_iff j seq in
      let found : some old ≡ some b = (rw here at e) in
      subst (λ k. IsCached (k, b)) (eq here)
        (subst (λ v. IsCached (j, v)) (some_injective found) first)
  | inr other ↦ find_block-IsCached c seq b h (rw other at e)
]
