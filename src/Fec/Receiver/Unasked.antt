-- ===== src/Fec/Receiver/Unasked.antt =====
-- A group without recovery blocks, for which sendFrame does not call the encoder.
use tj_rtc.Prelude.{
  ℕ, zero, suc, ◌<◌, ◌≡◌, refl, sym, ap, subst, ◌∙◌, inl, inr, true, false, some, List, [], ◌∷◌,
  ◌++◌, append-nil, arith, ltb, ◌==◌, ==_iff, if◌then◌else◌, Bool-cases, length, get_elem?, All,
}
use tj_rtc.Fec.Sender.State.{Encoder}
use tj_rtc.Fec.Receiver.State.{Decoder}
use tj_rtc.Fec.Receiver.Group.{is_set}
use tj_rtc.Fec.Receiver.Slots.{IsDistinct, FromWord, indices_of, pigeonhole}
use tj_rtc.Fec.Receiver.Recovers.{CodecWorks}

-- The numbers below `n`.
abbrev numbers : ℕ → List ℕ
numbers zero = []
numbers (suc n) = n ∷ numbers n

length-numbers : (n : ℕ) → length (numbers n) ≡ n
length-numbers zero = refl
length-numbers (suc n) = ap suc (length-numbers n)

is_set-numbers : (n i : ℕ) → i < n → is_set (numbers n) i ≡ true
is_set-numbers zero i h = absurd (omega arith)
is_set-numbers (suc n) i h = elim (Bool-cases (n == i)) [
  | inl hit ↦ rw hit refl
  | inr miss ↦ rw miss (is_set-numbers n i (ground arith))
]

get_elem?_below :
    (blocks : List (List ℕ)) (i : ℕ) (b : List ℕ) → get_elem? blocks i ≡ some b → i < length blocks
get_elem?_below [] i b e = absurd (cc)
get_elem?_below (x ∷ blocks) zero b e = omega arith
get_elem?_below (x ∷ blocks) (suc i) b e = let rest = get_elem?_below blocks i b e in omega arith

indices_below :
    (blocks : List (List ℕ)) (received : List (List ℕ × ℕ)) (i : ℕ)
    → All (FromWord blocks) received
    → is_set (indices_of received) i ≡ true
    → i < length blocks
indices_below blocks [] i from e = absurd (cc)
indices_below blocks ((b, j) ∷ received) i (first, from) e = elim (Bool-cases (j == i)) [
  | inl hit ↦
      let (eq, test) = ==_iff j i in
      let below = get_elem?_below blocks j b first in let same : j ≡ i = eq hit in omega arith
  | inr miss ↦ indices_below blocks received i from (rw miss at e)
]

length-indices_of : (received : List (List ℕ × ℕ)) → length (indices_of received) ≡ length received
length-indices_of [] = refl
length-indices_of (b ∷ received) = ap suc (length-indices_of received)

-- As many distinct originals as there are leave none out.
none_left_out :
    (blocks : List (List ℕ)) (received : List (List ℕ × ℕ)) (i : ℕ)
    → length received ≡ length blocks
    → All (FromWord blocks) received
    → IsDistinct (indices_of received)
    → i < length blocks
    → is_set (indices_of received) i ≡ false
    → ⊥
none_left_out blocks received i many from distinct small missing =
    let few =
      pigeonhole (i ∷ indices_of received) (numbers (length blocks)) (missing, distinct) inside in
    absurd (omega (arith, length-numbers (length blocks), length-indices_of received))
  where
    inside :
        (j : ℕ)
        → is_set (i ∷ indices_of received) j ≡ true
        → is_set (numbers (length blocks)) j ≡ true
    inside j member = elim (Bool-cases (i == j)) [
      | inl hit ↦
          let (eq, test) = ==_iff i j in
          let same : i ≡ j = eq hit in is_set-numbers (length blocks) j (omega arith)
      | inr miss ↦
          is_set-numbers (length blocks) j
            (indices_below blocks received j from (rw miss at member))
    ]

-- What sendFrame asks of the encoder: nothing where it wants no recovery block.
abbrev pub asked : Encoder → Encoder
asked codec = record {
  initialized = codec.initialized;
  encode = λ k r bytes blocks. if ltb 0 r then codec.encode k r bytes blocks else some [];
}

pub asked-CodecWorks :
    (codec : Encoder) (dec : Decoder) → CodecWorks codec dec → CodecWorks (asked codec) dec
asked-CodecWorks codec dec works = record {
  recovers = λ k r bytes blocks recovery received e count many from distinct missing.
      elim (Bool-cases (ltb 0 r)) [
        | inl wanted ↦
            works.recovers k r bytes blocks recovery received (rw wanted at e) count many from
              distinct missing
        | inr none_wanted ↦
            let nothing : some [] ≡ some recovery = (rw none_wanted at e) in
            let empty : recovery ≡ [] = cc in
            let originals : All (FromWord blocks) received =
              subst (λ w. All (FromWord w) received)
                (ap (λ w. blocks ++ w) empty ∙ append-nil blocks) from in
            let (i, small, left_out) = missing in
            absurd (
              none_left_out blocks received i (many ∙ sym count) originals distinct
                (omega (arith, count)) left_out)
      ];
}
