-- ===== src/Server/SendQueue/Order.antt =====
-- The loop over the send queue keeps the order of the bytes, and loses none unless `send` fails.
use tj_rtc.Prelude.{
  ℕ, zero, suc, ◌+◌, ◌-◌, ◌%◌, ◌^◌, ◌<◌, min, ◌≡◌, refl, sym, ap, subst, ◌∙◌, inl, inr, false, List,
  [], ◌∷◌, ◌++◌, append-nil, append_assoc, arith, ◌==◌, if◌then◌else◌, ==_iff, Bool-cases, length,
  drop, All, take-append-drop, drop-length_append,
}
use tj_rtc.Server.SendQueue.{
  SendAnswer, accepted, would_block, error, SendBufItem, ConnSession, Drained, sent_part, advance,
  drain, write_cb, is_empty,
}

-- The bytes of the queue that are still to go out.
abbrev pub unsent_item : SendBufItem → List ℕ
unsent_item item = drop item.sent_bytes item.content

unfoldable pub unsent : List SendBufItem → List ℕ
unsent [] = []
unsent (item ∷ queue) = unsent_item item ++ unsent queue

-- No item of a queue is sent to its end.
abbrev pub IsWaiting : SendBufItem → Type 0
IsWaiting item = item.sent_bytes < length item.content

-- `lost` is what the loop threw away.
pub record Keeps (queue : List SendBufItem) (d : Drained) : Type 0 where
  pub lost : List ℕ
  pub in_order : d.wire ++ (unsent d.queue ++ lost) ≡ unsent queue
  pub waiting : All IsWaiting d.queue
  pub lossless : d.failed ≡ false → lost ≡ []

drop_empty : (n : ℕ) → drop {A = ℕ} n [] ≡ []
drop_empty zero = refl
drop_empty (suc n) = refl

drop-min : (k : ℕ) (xs : List ℕ) → drop (min k (length xs)) xs ≡ drop k xs
drop-min k [] = drop_empty (min k 0) ∙ sym (drop_empty k)
drop-min zero (x ∷ xs) =
    let count : min 0 (suc (length xs)) ≡ 0 = omega arith in ap (λ n. drop n (x ∷ xs)) count
drop-min (suc k) (x ∷ xs) =
    let count : suc (min k (length xs)) ≡ min (suc k) (suc (length xs)) = omega arith in
    subst (λ n. drop n (x ∷ xs) ≡ drop k xs) count (drop-min k xs)

drop_past : (n k : ℕ) (xs : List ℕ) → drop (n + min k (length xs - n)) xs ≡ drop k (drop n xs)
drop_past zero k xs =
    let count : min k (length xs) ≡ 0 + min k (length xs - 0) = omega arith in
    subst (λ m. drop m xs ≡ drop k xs) count (drop-min k xs)
drop_past (suc n) k [] = drop_empty (suc n + min k (0 - suc n)) ∙ sym (drop_empty k)
drop_past (suc n) k (x ∷ xs) =
    let count : suc (n + min k (length xs - n)) ≡ suc n + min k (suc (length xs) - suc n) =
      omega arith in
    subst (λ m. drop m (x ∷ xs) ≡ drop k (drop n xs)) count (drop_past n k xs)

sent_and_unsent :
    (k : ℕ) (item : SendBufItem)
    → sent_part k item ++ unsent_item (advance k item) ≡ unsent_item item
sent_and_unsent k item =
    rw (drop_past item.sent_bytes k item.content) (take-append-drop k (unsent_item item))

drop_all : (n : ℕ) (xs : List ℕ) → n ≡ length xs → drop n xs ≡ []
drop_all n xs e =
    rw (e) (ap (λ ys. drop (length xs) ys) (sym (append-nil xs)) ∙ drop-length_append xs [])

drain-Keeps :
    (answers : List SendAnswer) (queue : List SendBufItem)
    → All IsWaiting queue
    → Keeps queue (drain answers queue)
unfolding drain unsent
drain-Keeps answers [] all = record {
  lost = [];
  in_order = refl;
  waiting = tt;
  lossless = λ h. refl;
}
drain-Keeps [] (item ∷ queue) all = record {
  lost = [];
  in_order = append-nil (unsent (item ∷ queue));
  waiting = all;
  lossless = λ h. refl;
}
drain-Keeps (would_block ∷ answers) (item ∷ queue) all = record {
  lost = [];
  in_order = append-nil (unsent (item ∷ queue));
  waiting = all;
  lossless = λ h. refl;
}
drain-Keeps (error ∷ answers) (item ∷ queue) all = record {
  lost = unsent (item ∷ queue);
  in_order = refl;
  waiting = tt;
  lossless = λ h. absurd (cc);
}
drain-Keeps (accepted k ∷ answers) (item ∷ queue) (first, all) =
    let rest = drain-Keeps answers queue all in
    let cut = sent_and_unsent k item in
    elim (Bool-cases ((advance k item).sent_bytes == length item.content)) [
      | inl whole ↦
          let (is_eq, is_test) = ==_iff (advance k item).sent_bytes (length item.content) in
          let gone : unsent_item (advance k item) ≡ [] =
            drop_all (advance k item).sent_bytes item.content (is_eq whole) in
          let sent_whole : sent_part k item ≡ unsent_item item =
            sym (append-nil (sent_part k item))
            ∙ subst (λ z. sent_part k item ++ z ≡ unsent_item item) gone cut in
          rw whole (record {
            lost = rest.lost;
            in_order = rw (append_assoc, rest.in_order) (ap (λ z. z ++ unsent queue) sent_whole);
            waiting = rest.waiting;
            lossless = rest.lossless;
          })
      | inr part ↦ rw part (record {
        lost = [];
        in_order =
            rw
              (
                append-nil (sent_part k item),
                append-nil (unsent_item (advance k item) ++ unsent queue),
                sym (append_assoc (sent_part k item) (unsent_item (advance k item)) (unsent queue)),
                cut,
              )
              refl;
        waiting = (ground (arith, part), all);
        lossless = λ h. refl;
      })
    ]

-- Where the queue holds no sent item, WriteCb sends the bytes of the queue in order: what went out,
-- what is still queued and what was thrown away make up the bytes that were queued. Nothing is
-- thrown away unless the session is removed, the count of bytes is theirs, and an open session has
-- its write watcher off when the queue is empty and as before otherwise.
pub write_cb-order :
    (answers : List SendAnswer) (s : ConnSession)
    → All IsWaiting s.send_queue
    → (lost : List ℕ) × ((write_cb answers s).wire
          ++ (unsent (write_cb answers s).session.send_queue ++ lost)
        ≡ unsent s.send_queue)
      × All IsWaiting (write_cb answers s).session.send_queue
      × ((write_cb answers s).disconnected ≡ false → lost ≡ [])
      × ((write_cb answers s).session.send_bytes
          ≡ (s.send_bytes + length (write_cb answers s).wire) % 2 ^ 64)
      × ((write_cb answers s).disconnected ≡ false
          → (write_cb answers s).session.has_write_watcher ≡ (
              if is_empty (write_cb answers s).session.send_queue
              then false
              else s.has_write_watcher))
unfolding write_cb
write_cb-order answers s all =
    let d = drain answers s.send_queue in
    let kept = drain-Keeps answers s.send_queue all in
    elim (Bool-cases d.failed) [
      | inl failed ↦ rw failed (kept.lost, kept.in_order, kept.waiting, λ h. (cc), refl, λ h. (cc))
      | inr going ↦ elim (Bool-cases (is_empty d.queue)) [
        | inl empty ↦
            rw (going, empty)
              (
                kept.lost,
                kept.in_order,
                kept.waiting,
                λ h. kept.lossless going,
                refl,
                λ h. rw empty refl,
              )
        | inr full ↦
            rw (going, full)
              (
                kept.lost,
                kept.in_order,
                kept.waiting,
                λ h. kept.lossless going,
                refl,
                λ h. rw full refl,
              )
      ]
    ]
