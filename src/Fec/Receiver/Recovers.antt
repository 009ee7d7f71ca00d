-- ===== src/Fec/Receiver/Recovers.antt =====
-- A group is recovered from any blocks of it that are as many as its data blocks
-- (libs/frame_protoc/src/receiver.cpp).
use tj_rtc.Prelude.{
  or_true, or_false, ℕ, zero, suc, ◌+◌, ◌%◌, ◌≤◌, ◌<◌, ◌≡◌, refl, sym, ap, subst, ◌∙◌, inl, inr,
  Bool, true, false, ◌||◌, Option, none, some, List, [], ◌∷◌, ◌++◌, arith, dec_lt, ◌==◌, ==_iff,
  Bool-cases, length, get_elem?, All, length-append, All-append,
}
use tj_rtc.Prelude.{find, put, number_key, find-put_same, find-put_other}
use tj_rtc.Fec.Sender.State.{Encoder}
use tj_rtc.Fec.Receiver.State.{Decoder, FecGroup, new_group}
use tj_rtc.Fec.Receiver.Group.{is_set, have_all, descriptors}
use tj_rtc.Fec.Receiver.Deliver.{slot_block, block_at}
use tj_rtc.Fec.Receiver.Slots.{
  IsDistinct, is_set-append, IsDistinct-snoc, FromWord, indices_of, get_elem?-append,
  get_elem?-last,
}

-- What cm256 is documented to do: from as many blocks as there are originals, with distinct indices,
-- each the block of its index among the originals and their recovery blocks, but not all of the
-- originals, the decoder gives the originals, each with its index, none left out.
pub record CodecWorks (enc : Encoder) (dec : Decoder) : Type 0 where
  pub recovers :
      (k r bytes : ℕ) (blocks recovery : List (List ℕ)) (received : List (List ℕ × ℕ))
      → enc.encode k r bytes blocks ≡ some recovery
      → length blocks ≡ k
      → length received ≡ k
      → All (FromWord (blocks ++ recovery)) received
      → IsDistinct (indices_of received)
      → (i : ℕ) × (i < k) × (is_set (indices_of received) i ≡ false)
      → (out : List (List ℕ × ℕ)) × (dec.decode k r bytes received ≡ some out)
        × All (FromWord blocks) out
        × ((i : ℕ) → i < k → is_set (indices_of out) i ≡ true)

-- The group has each of its originals in the slot of its index.
pub record IsRecovered (blocks : List (List ℕ)) (g : FecGroup) : Type 0 where
  pub known : g.params_known ≡ true
  pub decoded : g.decoded ≡ true
  pub counted : g.data_block_count ≡ length blocks
  pub at :
      (i : ℕ)
      → i < length blocks
      → (block : List ℕ) × (block_at g i ≡ some block) × (get_elem? blocks i ≡ some block)

-- The group waits: it has fewer blocks than originals, each from the word, at distinct indices.
pub record IsWaiting (word : List (List ℕ)) (k r : ℕ) (g : FecGroup) : Type 0 where
  pub known : g.params_known ≡ true
  pub not_yet : g.decoded ≡ false
  pub data_count : g.data_block_count ≡ k
  pub fec_count : g.fec_block_count ≡ r
  pub count : g.received_count ≡ length g.block_indices
  pub stored : length g.block_storage ≡ length g.block_indices
  pub mask : (i : ℕ) → is_set g.received_mask i ≡ is_set g.block_indices i
  pub distinct : IsDistinct g.block_indices
  pub from_word :
      All (FromWord word) (descriptors (length g.block_indices) g.block_storage g.block_indices)
  pub slots :
      (i : ℕ)
      → is_set g.block_indices i ≡ true
      → (block : List ℕ) × (block_at g i ≡ some block) × (get_elem? word i ≡ some block)

descriptors-snoc :
    (storage : List (List ℕ)) (indices : List ℕ) (p : List ℕ) (i : ℕ)
    → length storage ≡ length indices
    → descriptors (length (indices ++ (i ∷ []))) (storage ++ (p ∷ [])) (indices ++ (i ∷ []))
      ≡ descriptors (length indices) storage indices ++ ((p, i) ∷ [])
unfolding descriptors
descriptors-snoc [] [] p i e = refl
descriptors-snoc [] (j ∷ indices) p i e = absurd (omega arith)
descriptors-snoc (b ∷ storage) [] p i e = absurd (omega arith)
descriptors-snoc (b ∷ storage) (j ∷ indices) p i e =
    ap (λ t. (b, j) ∷ t) (descriptors-snoc storage indices p i (omega arith))

pub indices_of-descriptors :
    (storage : List (List ℕ)) (indices : List ℕ)
    → length storage ≡ length indices
    → indices_of (descriptors (length indices) storage indices) ≡ indices
unfolding descriptors
indices_of-descriptors [] [] e = refl
indices_of-descriptors [] (j ∷ indices) e = absurd (omega arith)
indices_of-descriptors (b ∷ storage) [] e = absurd (omega arith)
indices_of-descriptors (b ∷ storage) (j ∷ indices) e =
    ap (λ t. j ∷ t) (indices_of-descriptors storage indices (omega arith))

pub length-descriptors :
    (storage : List (List ℕ)) (indices : List ℕ)
    → length storage ≡ length indices
    → length (descriptors (length indices) storage indices) ≡ length indices
unfolding descriptors
length-descriptors [] [] e = refl
length-descriptors [] (j ∷ indices) e = absurd (omega arith)
length-descriptors (b ∷ storage) [] e = absurd (omega arith)
length-descriptors (b ∷ storage) (j ∷ indices) e =
    ap suc (length-descriptors storage indices (omega arith))

-- The group before the first packet.
abbrev pub started : ℕ → ℕ → FecGroup
started k r = record new_group { data_block_count = k; fec_block_count = r; params_known = true }

pub started-IsWaiting : (word : List (List ℕ)) (k r : ℕ) → IsWaiting word k r (started k r)
unfolding descriptors
started-IsWaiting word k r = record {
  known = refl;
  not_yet = refl;
  data_count = refl;
  fec_count = refl;
  count = refl;
  stored = refl;
  mask = λ i. refl;
  distinct = tt;
  from_word = tt;
  slots = λ i e. absurd (cc);
}

-- A block that is new.
abbrev pub with_block : FecGroup → ℕ → List ℕ → FecGroup
with_block g index payload = record g {
  received_mask = index ∷ g.received_mask;
  slot_by_index = put number_key g.slot_by_index index (length g.block_storage);
  received_count = (g.received_count + 1) % 256;
  block_storage = g.block_storage ++ (payload ∷ []);
  block_indices = g.block_indices ++ (index ∷ []);
}

with_block-slots :
    (word : List (List ℕ)) (k r : ℕ) (g : FecGroup) (index : ℕ) (payload : List ℕ)
    → IsWaiting word k r g
    → get_elem? word index ≡ some payload
    → (i : ℕ) → is_set (g.block_indices ++ (index ∷ [])) i ≡ true
    → (block : List ℕ) × (block_at (with_block g index payload) i ≡ some block)
      × (get_elem? word i ≡ some block)
unfolding block_at
with_block-slots word k r g index payload v e i member = elim (Bool-cases (index == i)) [
  | inl hit ↦
      let (eq, test) = ==_iff index i in
      (
        payload,
        ap (slot_block (with_block g index payload)) (
              ap (find number_key (with_block g index payload).slot_by_index) (sym (eq hit))
              ∙ find-put_same number_key g.slot_by_index index (length g.block_storage))
            ∙ get_elem?-last g.block_storage payload,
        ap (get_elem? word) (sym (eq hit)) ∙ e,
      )
  | inr miss ↦
      let before : is_set g.block_indices i ≡ true =
        either (is_set g.block_indices i)
          (sym (is_set-append g.block_indices (index ∷ []) i) ∙ member) (rw miss refl) in
      let (block, found, inside) = v.slots i before in
      (
        block,
        ap (slot_block (with_block g index payload))
              (find-put_other number_key g.slot_by_index index i (length g.block_storage) miss)
            ∙ kept g payload (find number_key g.slot_by_index i) block found,
        inside,
      )
]
  where
    either : (a : Bool) {b : Bool} → (a || b) ≡ true → b ≡ false → a ≡ true
    either true h k = refl
    either false h k = absurd (let wrong : false ≡ true = sym k ∙ h in cc)

    kept :
        (g : FecGroup) (payload : List ℕ) (slot : Option ℕ) (block : List ℕ)
        → slot_block g slot ≡ some block
        → slot_block (record g { block_storage = g.block_storage ++ (payload ∷ []) }) slot
          ≡ some block
    kept g payload none block h = absurd (cc)
    kept g payload (some s) block h = get_elem?-append g.block_storage (payload ∷ []) s block h

pub with_block-IsWaiting :
    (word : List (List ℕ)) (k r : ℕ) (g : FecGroup) (index : ℕ) (payload : List ℕ)
    → IsWaiting word k r g
    → length g.block_indices < 255
    → get_elem? word index ≡ some payload
    → is_set g.block_indices index ≡ false
    → IsWaiting word k r (with_block g index payload)
with_block-IsWaiting word k r g index payload v few e fresh = record {
  known = v.known;
  not_yet = v.not_yet;
  data_count = v.data_count;
  fec_count = v.fec_count;
  count = omega (arith, v.count, length-append {0} g.block_indices (index ∷ []));
  stored = omega (
    arith,
    v.stored,
    length-append {0} g.block_indices (index ∷ []),
    length-append {0} g.block_storage (payload ∷ []),
  );
  mask = λ i. more_mask g.received_mask g.block_indices index i (v.mask i);
  distinct = IsDistinct-snoc g.block_indices index v.distinct fresh;
  from_word =
      subst (All (FromWord word))
        (sym (descriptors-snoc g.block_storage g.block_indices payload index v.stored))
        (All-append (FromWord word)
          (descriptors (length g.block_indices) g.block_storage g.block_indices)
          ((payload, index) ∷ []) v.from_word (e, tt));
  slots = with_block-slots word k r g index payload v e;
}
  where
    more_mask :
        (mask indices : List ℕ) (index i : ℕ)
        → is_set mask i ≡ is_set indices i
        → is_set (index ∷ mask) i ≡ is_set (indices ++ (index ∷ [])) i
    more_mask mask indices index i e = elim (Bool-cases (index == i)) [
      | inl hit ↦
          let right : is_set (indices ++ (index ∷ [])) i ≡ true =
            is_set-append indices (index ∷ []) i ∙ rw hit (or_true (is_set indices i)) in
          rw hit (sym right)
      | inr miss ↦
          let right : is_set (indices ++ (index ∷ [])) i ≡ is_set indices i =
            is_set-append indices (index ∷ []) i ∙ rw miss (or_false (is_set indices i)) in
          rw miss (e ∙ sym right)
    ]

-- All originals are there.
pub have_all_lem :
    (rounds i : ℕ) (mask : List ℕ) (j : ℕ)
    → have_all rounds i mask ≡ true
    → i ≤ j
    → j < i + rounds
    → is_set mask j ≡ true
unfolding have_all
have_all_lem zero i mask j e h k = absurd (omega arith)
have_all_lem (suc rounds) i mask j e h k = elim (Bool-cases (is_set mask i)) [
  | inr missing ↦ absurd (let wrong : false ≡ true = (rw missing at e) in cc)
  | inl here ↦ elim (dec_lt i j) [
    | yes later ↦ have_all_lem rounds (i + 1) mask j (rw here at e) (omega arith) (omega arith)
    | no first ↦ let same : i ≡ j = omega arith in ap (is_set mask) (sym same) ∙ here
  ]
]

-- One of the originals is missing.
pub have_all-missing :
    (rounds i : ℕ) (mask : List ℕ)
    → have_all rounds i mask ≡ false
    → (j : ℕ) × (j < i + rounds) × (is_set mask j ≡ false)
unfolding have_all
have_all-missing zero i mask e = absurd (cc)
have_all-missing (suc rounds) i mask e = elim (Bool-cases (is_set mask i)) [
  | inr missing ↦ (i, omega arith, missing)
  | inl here ↦
      let (j, below, missing) = have_all-missing rounds (i + 1) mask (rw here at e) in
      (j, omega arith, missing)
]
