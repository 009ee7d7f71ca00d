-- ===== src/Fec/Receiver/Arrivals.antt =====
-- The packets of a group as they come in (libs/frame_protoc/src/receiver.cpp).
use tj_rtc.Prelude.{
  or_true, ℕ, ◌≤◌, ◌<◌, ◌≡◌, refl, sym, ap, subst, ◌∙◌, inl, inr, Bool, true, false, ◌||◌, some,
  List, [], ◌∷◌, ◌++◌, map, arith, ◌==◌, if◌then◌else◌, length, get_elem?, All,
}
use tj_rtc.Fec.Header.{DataHeader}
use tj_rtc.Fec.Sender.State.{Encoder}
use tj_rtc.Fec.Receiver.State.{Decoder, FecGroup, new_group}
use tj_rtc.Fec.Receiver.Group.{is_set, init_group, add_block}
use tj_rtc.Fec.Receiver.Packets.{receive_block, decode_ready}
use tj_rtc.Fec.Receiver.Slots.{IsDistinct, pigeonhole}
use tj_rtc.Fec.Receiver.Recovers.{CodecWorks, IsRecovered, IsWaiting, started, started-IsWaiting}
use tj_rtc.Fec.Receiver.Decoded.{step_group, step_group-IsRecovered, waiting-step_group}

-- Packets of a group, as they come in: headers and payloads.
abbrev pub Arrivals : Type 0
Arrivals = List (DataHeader × List ℕ)

abbrev pub arrived_indices : Arrivals → List ℕ
arrived_indices arrivals = map (λ a. a.0.block_index) arrivals

-- Each packet has the counts of the group and the block of its index.
abbrev pub OfGroup : List (List ℕ) → ℕ → ℕ → DataHeader × List ℕ → Type 0
OfGroup word k r (h, payload) =
    (h.data_block_count ≡ k)
    × (h.fec_block_count ≡ r)
    × (get_elem? word h.block_index ≡ some payload)

abbrev pub receive_all : Decoder → ℕ → FecGroup → Arrivals → FecGroup
receive_all dec bytes g [] = g
receive_all dec bytes g ((h, payload) ∷ arrivals) =
    receive_all dec bytes (decode_ready dec (receive_block g h payload) bytes).group arrivals

module _ (enc : Encoder) (dec : Decoder) (works : CodecWorks enc dec) (k r bytes : ℕ)
    (blocks recovery : List (List ℕ)) (encoded : enc.encode k r bytes blocks ≡ some recovery)
    (whole : length blocks ≡ k) where
  abbrev group_word : List (List ℕ)
  group_word = blocks ++ recovery

  receive_all-IsRecovered_stays :
      (g : FecGroup) (arrivals : Arrivals)
      → IsRecovered blocks g
      → IsRecovered blocks (receive_all dec bytes g arrivals)
  receive_all-IsRecovered_stays g [] v = v
  receive_all-IsRecovered_stays g ((h, payload) ∷ arrivals) v =
      receive_all-IsRecovered_stays
        (step_group enc dec works k r bytes blocks recovery encoded whole g h payload) arrivals
        (step_group-IsRecovered enc dec works k r bytes blocks recovery encoded whole g h payload v)

  enough_arrive :
      (g : FecGroup) (arrivals : Arrivals) (chosen : List ℕ)
      → IsWaiting group_word k r g
      → length g.block_indices < k
      → k ≤ 255
      → All (OfGroup group_word k r) arrivals
      → IsDistinct chosen
      → k ≤ length chosen
      → ((i : ℕ)
          → is_set chosen i ≡ true
          → (is_set g.block_indices i || is_set (arrived_indices arrivals) i) ≡ true)
      → IsRecovered blocks (receive_all dec bytes g arrivals)
  enough_arrive g [] chosen v few small of distinct many inside =
      let le =
        pigeonhole chosen g.block_indices distinct
          λ i member. drop_false (is_set g.block_indices i) (inside i member) in
      absurd (omega arith)
    where
      drop_false : (b : Bool) → (b || false) ≡ true → b ≡ true
      drop_false true h = refl
      drop_false false h = h
  enough_arrive g ((h, payload) ∷ arrivals) chosen v few small ((data_count, fec_count, e), of)
        distinct many inside =
      let next = step_group enc dec works k r bytes blocks recovery encoded whole g h payload in
      elim (waiting-step_group enc dec works k r bytes blocks recovery encoded whole g h payload v
        few small e) [
          | inl done ↦ receive_all-IsRecovered_stays next arrivals done
          | inr (waits, less, kept) ↦
              enough_arrive next arrivals chosen waits less small of distinct many λ i member.
                move (is_set g.block_indices i) (h.block_index == i)
                  (is_set (arrived_indices arrivals) i) (is_set next.block_indices i) (kept i)
                  (inside i member)
        ]
    where
      move :
          (old hit later now : Bool)
          → ((if hit then true else old) ≡ true → now ≡ true)
          → (old || (if hit then true else later)) ≡ true
          → (now || later) ≡ true
      move old true later now kept e = rw (kept refl) refl
      move true false later now kept e = rw (kept refl) refl
      move false false true now kept e = or_true now
      move false false false now kept e = absurd (let wrong : false ≡ true = e in cc)

  -- With an erasure code that recovers what is documented, from packets of a group of 1 to 255 data
  -- blocks, in any order, with losses and repetitions, the group is recovered as soon as as many distinct
  -- blocks have come as it has data blocks: each of its data blocks stands in its slot.
  pub receive_all-IsRecovered :
      (arrivals : Arrivals) (chosen : List ℕ)
      → 0 < k
      → k ≤ 255
      → All (OfGroup group_word k r) arrivals
      → IsDistinct chosen
      → k ≤ length chosen
      → ((i : ℕ) → is_set chosen i ≡ true → is_set (arrived_indices arrivals) i ≡ true)
      → IsRecovered blocks (receive_all dec bytes new_group arrivals)
  unfolding receive_block init_group
  receive_all-IsRecovered [] chosen some_block small of distinct many inside =
      let le = pigeonhole chosen [] distinct inside in absurd (omega arith)
  receive_all-IsRecovered ((h, payload) ∷ arrivals) chosen some_block small
        ((data_count, fec_count, e), of) distinct many inside =
      let start = started k r in
      let waits = started-IsWaiting group_word k r in
      let found =
        enough_arrive start ((h, payload) ∷ arrivals) chosen waits some_block small
          ((data_count, fec_count, e), of) distinct many inside in
      let same : init_group new_group h.data_block_count h.fec_block_count ≡ start =
        ap (λ n. started n h.fec_block_count) data_count ∙ ap (started k) fec_count in
      subst
        (λ x. IsRecovered blocks (
          receive_all dec bytes (decode_ready dec (add_block x h.block_index payload) bytes).group
            arrivals))
        (sym same) found
