-- ===== src/Tests/LibsTests.antt =====
-- libs/pacer, libs/mem_pool and the client's deduplicator at concrete inputs.
use tj_rtc.Prelude.{◌≤◌, ◌≡◌, refl, true, List, [], ◌∷◌, arith}
use tj_rtc.Prelude.Int.{pos}
use tj_rtc.Libs.Pacer.{Pacer}
use tj_rtc.Libs.Pacer.Budget.{Op, before, try_take}
use tj_rtc.Libs.MemPool.{FixedMemoryPool, new_pool}
use tj_rtc.Libs.MemPool.Exclusive.{IsPool, new_pool-IsPool}
use tj_rtc.Client.Deduplicator.{P2pDeduplicator, has, seen, seen_size, reset_seen}
use tj_rtc.Client.Deduplicator.Window.{IsWindow, seen-IsWindow}
use tj_rtc.Client.Deduplicator.Recent.{seen_all, seen-known}

-- 8 Mbit/s, a bucket of 2000 bytes.
abbrev small_bucket : Pacer
small_bucket = record {
  bandwidth_bps = 8000000;
  bandwidth_bytes_per_sec = 1000000;
  bucket_size_bytes = 2000;
  current_tokens = pos 500;
  last_refill_time = 100;
  total_bytes_sent = 0;
  total_wait_count = 0;
  total_wait_us = 0;
}

abbrev ops : List Op
ops = before 10 1500 ∷ (try_take 20 1000 ∷ (before 30 1500 ∷ []))

abbrev pool : FixedMemoryPool
pool = new_pool 2 1 1500

pool-IsPool : IsPool pool []
pool-IsPool = let (kept, size) = new_pool-IsPool 2 1 1500 (omega arith) in kept

-- A pool whose one block is given out; the next chunk is at 9000.
abbrev used_up : FixedMemoryPool
used_up = record {
  free_list = [];
  chunks = 1500 ∷ [];
  grow_blocks = 2;
  total_blocks = 1;
  free_blocks = 0;
}

abbrev window : P2pDeduplicator
window = record { max_entries = 2; seen_set = 5 ∷ (4 ∷ []); seen_queue = 4 ∷ (5 ∷ []) }

window-IsWindow : IsWindow window
window-IsWindow = record {
  same = λ x. ground arith;
  set_apart = (refl, (refl, tt));
  queue_apart = (refl, (refl, tt));
  same_size = omega arith;
  few = omega arith;
}

seen-IsWindow_example :
    IsWindow (seen window 6).0
    × IsWindow (reset_seen window)
    × ((seen window 6).1 ≡ has 6 window.seen_queue)
    × (seen_size (seen window 6).0 ≤ window.max_entries)
seen-IsWindow_example = seen-IsWindow window 6 window-IsWindow

seen-known_example : (seen (seen_all (seen window 6).0 (7 ∷ [])) 6).1 ≡ true
seen-known_example =
    seen-known window 6 (7 ∷ []) window-IsWindow (omega arith) (unfold seen in refl)
