-- ===== src/Client/Deduplicator/Recent.antt =====
-- A number that was new is known for the next `max_entries - 1` calls.
use tj_rtc.Prelude.{
  ℕ, suc, ◌+◌, ◌≤◌, ◌<◌, ◌≡◌, refl, ap, ◌∙◌, inl, inr, Bool, true, false, List, [], ◌∷◌, ◌++◌,
  append_assoc, arith, ltb, ◌==◌, if◌then◌else◌, Bool-cases, length, drop, length-append,
}
use tj_rtc.Client.Deduplicator.{P2pDeduplicator, has, drop_front, pushed, seen}
use tj_rtc.Client.Deduplicator.Window.{IsWindow, seen-IsWindow, has-front, same_limit}

-- `n` has at most `k` numbers behind it in the queue.
record IsNear (n k : ℕ) (queue : List ℕ) : Type 0 where
  pub older : List ℕ
  pub newer : List ℕ
  pub parts : queue ≡ older ++ (n ∷ newer)
  pub close : length newer ≤ k

if_same : (b : Bool) → (if b then true else true) ≡ true
if_same true = refl
if_same false = refl

has-behind : (n : ℕ) (older newer : List ℕ) → has n (older ++ (n ∷ newer)) ≡ true
has-behind n [] newer = has-front n newer
has-behind n (x ∷ older) newer = rw (has-behind n older newer) (if_same (n == x))

-- A front that is dropped is not `n` where there is room for it.
drop_front-IsNear :
    (d : P2pDeduplicator) (n k : ℕ) (older newer queue : List ℕ)
    → d.seen_queue ≡ queue
    → queue ≡ older ++ (n ∷ newer)
    → length newer ≤ k
    → k < d.max_entries
    → IsNear n k (drop_front d queue).seen_queue
drop_front-IsNear d n k older newer [] same e close room =
    absurd (omega (arith, ap (length {A = ℕ}) e, length-append {0} older (n ∷ newer)))
drop_front-IsNear d n k [] newer (front ∷ queue) same e close room =
    let size = ap (length {A = ℕ}) e in
    let fits : ltb d.max_entries (length (front ∷ queue)) ≡ false =
      ground (arith, size, close, room) in
    rw fits (record { older = []; newer = newer; parts = same ∙ e; close = close })
drop_front-IsNear d n k (o ∷ older) newer (front ∷ queue) same e close room =
    elim (Bool-cases (ltb d.max_entries (length (front ∷ queue)))) [
      | inl many ↦
          rw many (record { older = older; newer = newer; parts = ap (drop 1) e; close = close })
      | inr fits ↦
          rw fits (record { older = o ∷ older; newer = newer; parts = same ∙ e; close = close })
    ]

seen-IsNear :
    (d : P2pDeduplicator) (n m k : ℕ)
    → suc k < d.max_entries
    → IsNear n k d.seen_queue
    → IsNear n (suc k) (seen d m).0.seen_queue
unfolding seen
seen-IsNear d n m k room h = elim (Bool-cases (has m d.seen_set)) [
  | inl old ↦
      rw old (record {
        older = h.older;
        newer = h.newer;
        parts = h.parts;
        close = omega (arith, h.close);
      })
  | inr new ↦
      let parts : (pushed d m).seen_queue ≡ h.older ++ (n ∷ (h.newer ++ (m ∷ []))) =
        ap (λ q. q ++ (m ∷ [])) h.parts ∙ append_assoc h.older (n ∷ h.newer) (m ∷ []) in
      rw new (
        drop_front-IsNear (pushed d m) n (suc k) h.older (h.newer ++ (m ∷ []))
          (pushed d m).seen_queue refl parts
          (omega (arith, h.close, length-append {0} h.newer (m ∷ []))) room)
]

seen-limit : (d : P2pDeduplicator) (m : ℕ) → (seen d m).0.max_entries ≡ d.max_entries
unfolding seen
seen-limit d m = elim (Bool-cases (has m d.seen_set)) [
  | inl old ↦ rw old refl
  | inr new ↦ rw new (same_limit (pushed d m) (pushed d m).seen_queue)
]

unfoldable pub seen_all : P2pDeduplicator → List ℕ → P2pDeduplicator
unfolding seen
seen_all d [] = d
seen_all d (m ∷ ms) = seen_all (seen d m).0 ms

still_known :
    (d : P2pDeduplicator) (n k : ℕ) (ms : List ℕ)
    → IsWindow d
    → IsNear n k d.seen_queue
    → k + length ms < d.max_entries
    → (seen (seen_all d ms) n).1 ≡ true
unfolding seen_all
still_known d n k [] h near room =
    let (kept, cleared, found, few) = seen-IsWindow d n h in
    found ∙ (ap (has n) near.parts ∙ has-behind n near.older near.newer)
still_known d n k (m ∷ ms) h near room =
    let (kept, cleared, found, few) = seen-IsWindow d m h in
    still_known (seen d m).0 n (suc k) ms kept (seen-IsNear d n m k (omega (arith, room)) near)
      (omega (arith, room, seen-limit d m))

first-IsNear :
    (d : P2pDeduplicator) (n : ℕ)
    → 0 < d.max_entries
    → (seen d n).1 ≡ false
    → IsNear n 0 (seen d n).0.seen_queue
unfolding seen
first-IsNear d n room h = elim (Bool-cases (has n d.seen_set)) [
  | inl old ↦ absurd (let wrong : true ≡ false = (rw old at h) in cc)
  | inr new ↦ rw new (
      drop_front-IsNear (pushed d n) n 0 d.seen_queue [] (pushed d n).seen_queue refl refl
        (omega arith) room)
]

-- A number that `seen` reports as new is reported as known after any further calls that are fewer
-- than `max_entries`, in every state whose set and queue agree.
pub seen-known :
    (d : P2pDeduplicator) (n : ℕ) (ms : List ℕ)
    → IsWindow d
    → length ms < d.max_entries
    → (seen d n).1 ≡ false
    → (seen (seen_all (seen d n).0 ms) n).1 ≡ true
seen-known d n ms h room new =
    let (kept, cleared, found, few) = seen-IsWindow d n h in
    still_known (seen d n).0 n 0 ms kept (first-IsNear d n (omega (arith, room)) new)
      (omega (arith, room, seen-limit d n))
