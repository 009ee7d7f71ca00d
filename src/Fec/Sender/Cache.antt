-- ===== src/Fec/Sender/Cache.antt =====
-- The retransmission cache of libs/frame_protoc/src/sender.cpp, a std::map from sequence numbers to
-- blocks: the list of its pairs in the order of the keys.
use tj_rtc.Prelude.{ℕ, Option, none, some, List, [], ◌∷◌, ltb, leb, ◌==◌, if◌then◌else◌}
use tj_rtc.Fec.Sender.State.{CachedBlock, sub_word}

abbrev pub Cache : Type 0
Cache = List (ℕ × CachedBlock)

-- `cache.find`.
unfoldable pub find_block : Cache → ℕ → Option CachedBlock
find_block [] seq = none
find_block ((j, b) ∷ c) seq = let rest = find_block c seq in if j == seq then some b else rest

-- `cache[seq] = block`.
unfoldable pub store_block : Cache → ℕ → CachedBlock → Cache
store_block [] seq b = (seq, b) ∷ []
store_block ((j, old) ∷ c) seq b =
    let rest = store_block c seq b in
    if j == seq
    then (seq, b) ∷ c
    else if ltb seq j
    then (seq, b) ∷ ((j, old) ∷ c)
    else ((j, old) ∷ rest)

-- cleanupCache: `cache.erase(cache.begin(), cache.upper_bound(up_to_seq))`.
unfoldable pub cleanup_cache : Cache → ℕ → Cache
cleanup_cache [] up_to = []
cleanup_cache ((j, b) ∷ c) up_to =
    let rest = cleanup_cache c up_to in if leb j up_to then rest else ((j, b) ∷ c)

-- cleanupExpiredCache: from the front, up to the first block that has not expired.
unfoldable pub cleanup_expired_cache : Cache → ℕ → ℕ → Cache
cleanup_expired_cache [] now_us timeout_us = []
cleanup_expired_cache ((j, b) ∷ c) now_us timeout_us =
    let rest = cleanup_expired_cache c now_us timeout_us in
    if leb (sub_word now_us b.send_time_us) timeout_us then ((j, b) ∷ c) else rest
