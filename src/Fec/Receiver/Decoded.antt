-- ===== src/Fec/Receiver/Decoded.antt =====
-- The decoding of a group that has as many blocks as originals (libs/frame_protoc/src/receiver.cpp).
use tj_rtc.Prelude.{
  ℕ, zero, suc, ◌+◌, ◌≤◌, ◌<◌, ◌≡◌, refl, sym, ap, subst, ◌∙◌, ◌⊎◌, inl, inr, Bool, true, false,
  not, ◌&&◌, ◌||◌, some, List, [], ◌∷◌, ◌++◌, map, arith, dec_lt, ltb, leb, ◌==◌, ==_iff,
  Bool-cases, true_branch, false_branch, length, get_elem?, drop, All, length-append,
}
use tj_rtc.Fec.Header.{DataHeader}
use tj_rtc.Fec.Sender.State.{Encoder}
use tj_rtc.Fec.Receiver.State.{Decoder, FecGroup}
use tj_rtc.Fec.Receiver.Group.{
  is_set, init_group, add_block, can_decode, have_all, descriptors, any_short, store_decoded,
  Decoding, decode_group, try_decode,
}
use tj_rtc.Fec.Receiver.Deliver.{slot_block, block_at}
use tj_rtc.Fec.Receiver.Packets.{receive_block, decode_ready}
use tj_rtc.Fec.Receiver.Slots.{
  IsDistinct, is_set-append, FromWord, indices_of, get_elem?-append, point_slots_lem,
}
use tj_rtc.Fec.Receiver.Recovers.{
  CodecWorks, IsRecovered, IsWaiting, indices_of-descriptors, length-descriptors, with_block,
  with_block-IsWaiting, have_all_lem, have_all-missing,
}

-- A group with as many blocks as originals: the decoding recovers it.
module _ (enc : Encoder) (dec : Decoder) (works : CodecWorks enc dec) (k r bytes : ℕ)
    (blocks recovery : List (List ℕ)) (encoded : enc.encode k r bytes blocks ≡ some recovery)
    (whole : length blocks ≡ k) where
  get_elem?-front :
      (xs ys : List (List ℕ)) (i : ℕ) (b : List ℕ)
      → i < length xs
      → get_elem? (xs ++ ys) i ≡ some b
      → get_elem? xs i ≡ some b
  get_elem?-front [] ys i b h e = absurd (omega arith)
  get_elem?-front (x ∷ xs) ys zero b h e = e
  get_elem?-front (x ∷ xs) ys (suc i) b h e = get_elem?-front xs ys i b (omega arith) e

  abbrev word : List (List ℕ)
  word = blocks ++ recovery

  all_there :
      (g : FecGroup)
      → IsWaiting word k r g
      → have_all k 0 g.received_mask ≡ true
      → IsRecovered blocks (record g { decoded = true })
  all_there g v all = record {
    known = v.known;
    decoded = refl;
    counted = v.data_count ∙ sym whole;
    at = λ i small.
        let member : is_set g.received_mask i ≡ true =
          have_all_lem k 0 g.received_mask i all (omega arith) (omega (arith, whole)) in
        let (block, found, inside) = v.slots i (sym (v.mask i) ∙ member) in
        (block, unfold block_at in found, get_elem?-front blocks recovery i block small inside);
  }

  decoded_group :
      (g : FecGroup) (out : List (List ℕ × ℕ)) (over : Bool)
      → IsWaiting word k r g
      → All (FromWord blocks) out
      → ((i : ℕ) → i < k → is_set (indices_of out) i ≡ true)
      → IsRecovered blocks (store_decoded (record g { overread = over }) out)
  unfolding store_decoded
  decoded_group g out over v from covers = record {
    known = v.known;
    decoded = refl;
    counted = v.data_count ∙ sym whole;
    at = λ i small.
        let member = covers i (omega (arith, whole)) in
        let (slot, block, found, stored, inside) =
          point_slots_lem g.slot_by_index 0 out blocks i from member in
        let here : 0 + slot ≡ slot = omega arith in
        (
          block,
          unfold block_at in
              ap (slot_block (store_decoded (record g { overread = over }) out))
                (found ∙ ap some here)
              ∙ get_elem?-append (map (λ b. b.0) out) (drop (length out) g.block_storage) slot block
                  stored,
          inside,
        );
  }

  decodes :
      (g : FecGroup)
      → IsWaiting word k r g
      → length g.block_indices ≡ k
      → have_all g.data_block_count 0 g.received_mask ≡ false
      → (out : List (List ℕ × ℕ)) × (dec.decode g.data_block_count g.fec_block_count bytes
            (descriptors g.data_block_count g.block_storage g.block_indices)
          ≡ some out)
        × All (FromWord blocks) out
        × ((i : ℕ) → i < k → is_set (indices_of out) i ≡ true)
  decodes g v full f =
      let all = descriptors (length g.block_indices) g.block_storage g.block_indices in
      let first = descriptors g.data_block_count g.block_storage g.block_indices in
      let same : first ≡ all =
        ap (λ n. descriptors n g.block_storage g.block_indices) (v.data_count ∙ sym full) in
      let indices = indices_of-descriptors g.block_storage g.block_indices v.stored in
      let (j, below, missing) = have_all-missing g.data_block_count 0 g.received_mask f in
      let (out, e, from, covers) =
        works.recovers k r bytes blocks recovery all encoded whole
          (length-descriptors g.block_storage g.block_indices v.stored ∙ full) v.from_word
          (subst IsDistinct (sym indices) v.distinct)
          (
            j,
            omega (arith, v.data_count),
            ap (λ is. is_set is j) indices ∙ sym (v.mask j) ∙ missing,
          ) in
      (
        out,
        ap (λ n. dec.decode n g.fec_block_count bytes first) v.data_count
            ∙ ap (λ n. dec.decode k n bytes first) v.fec_count
            ∙ ap (dec.decode k r bytes) same
            ∙ e,
        from,
        covers,
      )

  full_group :
      (g : FecGroup)
      → IsWaiting word k r g
      → length g.block_indices ≡ k
      → IsRecovered blocks (try_decode dec g bytes).group
  unfolding try_decode
  full_group g v full =
      let P : Decoding → Type 0 = λ d. IsRecovered blocks d.group in
      let first = descriptors g.data_block_count g.block_storage g.block_indices in
      let enough : ltb g.received_count g.data_block_count ≡ false =
        not_less g.received_count g.data_block_count (v.count ∙ full ∙ sym v.data_count) in
      false_branch P g.decoded _ _ v.not_yet
        (elim (Bool-cases (have_all g.data_block_count 0 g.received_mask)) [
          | inl t ↦
              true_branch P (have_all g.data_block_count 0 g.received_mask) _ _ t
                (all_there g v (ap (λ n. have_all n 0 g.received_mask) (sym v.data_count) ∙ t))
          | inr f ↦
              let (out, found, from, covers) = decodes g v full f in
              false_branch P (have_all g.data_block_count 0 g.received_mask) _ _ f (
                false_branch P (ltb g.received_count g.data_block_count) _ _ enough (
                  subst (λ o. P (decode_group g bytes first o)) (sym found)
                    (decoded_group g out (g.overread || any_short bytes first) v from covers)))
        ])
    where
      not_less : (a b : ℕ) → a ≡ b → ltb a b ≡ false
      not_less a b e = ground arith

  -- One packet of the group.
  abbrev pub step_group : FecGroup → DataHeader → List ℕ → FecGroup
  step_group g h payload = (decode_ready dec (receive_block g h payload) bytes).group

  pub step_group-IsRecovered :
      (g : FecGroup) (h : DataHeader) (payload : List ℕ)
      → IsRecovered blocks g
      → IsRecovered blocks (step_group g h payload)
  unfolding decode_ready receive_block add_block can_decode
  step_group-IsRecovered g h payload v =
      let same : receive_block g h payload ≡ g =
        true_branch (λ known. add_block known h.block_index payload ≡ g) g.params_known g
          (init_group g h.data_block_count h.fec_block_count) v.known
          (true_branch (λ x. x ≡ g) g.decoded g _ v.decoded refl) in
      let idle : can_decode g ≡ false = no_decoding g.params_known g.decoded _ v.decoded in
      subst (λ x. IsRecovered blocks (decode_ready dec x bytes).group) (sym same)
        (false_branch (λ (d : Decoding). IsRecovered blocks d.group) (can_decode g) _ _ idle v)
    where
      no_decoding : (a b c : Bool) → b ≡ true → (a && (not b && c)) ≡ false
      no_decoding true b c e = rw e refl
      no_decoding false b c e = refl

  -- A group after a packet: recovered, or still waiting, with the block among those that it has.
  abbrev pub Next : List ℕ → FecGroup → Type 0
  Next prior next =
      IsRecovered blocks next
      ⊎ (IsWaiting word k r next
          × (length next.block_indices < k)
          × ((i : ℕ) → is_set prior i ≡ true → is_set next.block_indices i ≡ true))

  ready-Next :
      (prior : List ℕ) (g : FecGroup)
      → IsWaiting word k r g
      → length g.block_indices ≤ k
      → ((i : ℕ) → is_set prior i ≡ true → is_set g.block_indices i ≡ true)
      → Next prior (decode_ready dec g bytes).group
  unfolding decode_ready can_decode
  ready-Next prior g v few inside =
      let P : Decoding → Type 0 = λ d. Next prior d.group in
      let test =
        can g.params_known g.decoded (leb g.data_block_count g.received_count) v.known v.not_yet in
      elim (dec_lt (length g.block_indices) k) [
        | yes less ↦
            false_branch P (can_decode g) _ _
              (test
                ∙ below g.data_block_count g.received_count (omega (arith, v.count, v.data_count)))
              (inr (v, less, inside))
        | no full ↦
            true_branch P (can_decode g) _ _
              (test
                ∙ enough g.data_block_count g.received_count (omega (arith, v.count, v.data_count)))
              (inl (full_group g v (omega arith)))
      ]
    where
      can : (a b c : Bool) → a ≡ true → b ≡ false → (a && (not b && c)) ≡ c
      can true false c e d = refl
      can true true c e d = absurd (let wrong : true ≡ false = d in cc)
      can false b c e d = absurd (let wrong : false ≡ true = e in cc)

      below : (a b : ℕ) → b < a → leb a b ≡ false
      below a b h = ground arith

      enough : (a b : ℕ) → a ≤ b → leb a b ≡ true
      enough a b h = ground arith

  pub waiting-step_group :
      (g : FecGroup) (h : DataHeader) (payload : List ℕ)
      → IsWaiting word k r g
      → length g.block_indices < k
      → k ≤ 255
      → get_elem? word h.block_index ≡ some payload
      → Next (h.block_index ∷ g.block_indices) (step_group g h payload)
  unfolding receive_block add_block
  waiting-step_group g h payload v few small e =
      let index = h.block_index in
      let P : FecGroup → Type 0 =
        λ x. Next (index ∷ g.block_indices) (decode_ready dec x bytes).group in
      true_branch (λ known. P (add_block known index payload)) g.params_known g
        (init_group g h.data_block_count h.fec_block_count) v.known
        (false_branch P g.decoded g _ v.not_yet (elim (Bool-cases (is_set g.received_mask index)) [
          | inl again ↦ true_branch P (is_set g.received_mask index) g _ again (
              ready-Next (index ∷ g.block_indices) g v (omega arith)
                λ i member. has_old g.block_indices index i (sym (v.mask index) ∙ again) member)
          | inr fresh ↦ false_branch P (is_set g.received_mask index) g _ fresh (
              ready-Next (index ∷ g.block_indices) (with_block g index payload)
                (with_block-IsWaiting word k r g index payload v (omega arith) e
                  (sym (v.mask index) ∙ fresh))
                (omega (arith, length-append {0} g.block_indices (index ∷ [])))
                λ i member. has_new g.block_indices index i member)
        ]))
    where
      any_true : (b : Bool) → (b || true) ≡ true
      any_true true = refl
      any_true false = refl

      has_old :
          (xs : List ℕ) (index i : ℕ)
          → is_set xs index ≡ true
          → is_set (index ∷ xs) i ≡ true
          → is_set xs i ≡ true
      has_old xs index i there member = elim (Bool-cases (index == i)) [
        | inl hit ↦ let (eq, test) = ==_iff index i in ap (is_set xs) (sym (eq hit)) ∙ there
        | inr miss ↦ (rw miss at member)
      ]

      has_new :
          (xs : List ℕ) (index i : ℕ)
          → is_set (index ∷ xs) i ≡ true
          → is_set (xs ++ (index ∷ [])) i ≡ true
      has_new xs index i member = elim (Bool-cases (index == i)) [
        | inl hit ↦ is_set-append xs (index ∷ []) i ∙ rw hit (any_true (is_set xs i))
        | inr miss ↦
            let old : is_set xs i ≡ true = (rw miss at member) in
            is_set-append xs (index ∷ []) i ∙ rw old refl
      ]
