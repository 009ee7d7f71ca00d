-- ===== src/Client/Deduplicator.antt =====
-- P2PDeduplicator of client_sdk/rtc_client_sdk/include/P2PDeduplicator.h.
pub mod Window
pub mod Recent
use tj_rtc.Prelude.{ℕ, ◌==◌, Bool, true, false, List, [], ◌∷◌, ◌++◌, if◌then◌else◌, ltb, length}

-- The set is the list of its numbers; the front of the queue is the head of its list.
pub record P2pDeduplicator : Type 0 where
  pub max_entries : ℕ
  pub seen_set : List ℕ
  pub seen_queue : List ℕ

abbrev pub has : ℕ → List ℕ → Bool
has x [] = false
has x (y ∷ ys) = let rest = has x ys in if x == y then true else rest

abbrev pub erased : ℕ → List ℕ → List ℕ
erased x [] = []
erased x (y ∷ ys) = let rest = erased x ys in if x == y then rest else (y ∷ rest)

-- The number is behind the others now; the front goes when they are too many.
abbrev pub drop_front : P2pDeduplicator → List ℕ → P2pDeduplicator
drop_front d [] = d
drop_front d (front ∷ queue) =
    if ltb d.max_entries (length (front ∷ queue))
    then (record d { seen_set = erased front d.seen_set; seen_queue = queue })
    else d

abbrev pub pushed : P2pDeduplicator → ℕ → P2pDeduplicator
pushed d seq_num = record d {
  seen_set = seq_num ∷ d.seen_set;
  seen_queue = d.seen_queue ++ (seq_num ∷ []);
}

-- seen, with what it returns.
unfoldable pub seen : P2pDeduplicator → ℕ → P2pDeduplicator × Bool
seen d seq_num =
    if has seq_num d.seen_set
    then (d, true)
    else (drop_front (pushed d seq_num) (pushed d seq_num).seen_queue, false)

unfoldable pub reset_seen : P2pDeduplicator → P2pDeduplicator
reset_seen d = record d { seen_set = []; seen_queue = [] }

-- size
unfoldable pub seen_size : P2pDeduplicator → ℕ
seen_size d = length d.seen_set
