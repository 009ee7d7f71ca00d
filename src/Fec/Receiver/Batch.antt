-- ===== src/Fec/Receiver/Batch.antt =====
-- The entries of a NACK ask for the numbers that they were made of: generateNacks of
-- libs/frame_protoc/src/receiver.cpp against the reading of handleNack of sender.cpp.
use tj_rtc.Prelude.{
  ℕ, zero, suc, ◌+◌, ◌-◌, ◌*◌, ◌/◌, ◌%◌, ◌^◌, ◌≤◌, ◌<◌, bit_and, bit_or, ◌≡◌, refl, sym, ap, ◌∙◌,
  inl, inr, true, false, List, [], ◌∷◌, ◌++◌, append_assoc, arith, ltb, ◌==◌, if◌then◌else◌, ==_iff,
  Bool-cases, ◌<<<◌, bit_test, or_high_bit,
}
use native.Mathlib.Nat.{pow-suc, one-le-pow, div-div-eq-div-mul, pow-le-pow_right, mod-eq_of_lt}
use tj_rtc.Fec.Payload.{NackEntry}
use tj_rtc.Fec.Sender.Retransmit.{masked_seqs, entry_seqs, requested_seqs}
use tj_rtc.Fec.Receiver.Nacks.{batch_from, batch}

-- The distances that the bits of a mask stand for, from bit `bit` on.
abbrev offsets : ℕ → ℕ → ℕ → List ℕ
offsets zero bit m = []
offsets (suc rounds) bit m =
    let rest = offsets rounds (bit + 1) (m / 2) in if m % 2 == 0 then rest else ((bit + 1) ∷ rest)

offsets-zero : (rounds bit m : ℕ) → m ≡ 0 → offsets rounds bit m ≡ []
offsets-zero zero bit m e = refl
offsets-zero (suc rounds) bit m e =
    let even : (m % 2 == 0) ≡ true = ground arith in
    rw even (offsets-zero rounds (bit + 1) (m / 2) (omega arith))

-- A bit above all of a mask comes last.
offsets-high :
    (rounds bit m j : ℕ)
    → m < 2 ^ j
    → j < rounds
    → offsets rounds bit (m + 2 ^ j) ≡ offsets rounds bit m ++ ((bit + 1 + j) ∷ [])
offsets-high zero bit m j h k = absurd (omega arith)
offsets-high (suc rounds) bit m zero h k =
    let odd : ((m + 2 ^ 0) % 2 == 0) ≡ false = ground arith in
    let even : (m % 2 == 0) ≡ true = ground arith in
    let at : bit + 1 + 0 ≡ bit + 1 = omega arith in
    rw (odd, even, at)
      (rw
        (
          offsets-zero rounds (bit + 1) ((m + 2 ^ 0) / 2) (omega arith),
          offsets-zero rounds (bit + 1) (m / 2) (omega arith),
        )
        refl)
offsets-high (suc rounds) bit m (suc j) h k =
    let parity : (m + 2 ^ suc j) % 2 ≡ m % 2 = omega (arith, pow-suc 2 j) in
    let halves : (m + 2 ^ suc j) / 2 ≡ m / 2 + 2 ^ j = omega (arith, pow-suc 2 j) in
    let at : bit + 1 + 1 + j ≡ bit + 1 + suc j = omega arith in
    let rest : offsets rounds (bit + 1) (m / 2 + 2 ^ j)
        ≡ offsets rounds (bit + 1) (m / 2) ++ ((bit + 1 + suc j) ∷ []) =
      offsets-high rounds (bit + 1) (m / 2) j (omega (arith, pow-suc 2 j)) (omega arith)
      ∙ ap (λ n. offsets rounds (bit + 1) (m / 2) ++ (n ∷ [])) at in
    elim (Bool-cases (m % 2 == 0)) [
      | inl even ↦ rw (parity, halves, even) rest
      | inr odd ↦ rw (parity, halves, odd) (ap (λ t. (bit + 1) ∷ t) rest)
    ]

abbrev place : ℕ → List ℕ → List ℕ
place start [] = []
place start (o ∷ offs) = (start + o) % 2 ^ 64 ∷ place start offs

place-append : (start : ℕ) (a b : List ℕ) → place start (a ++ b) ≡ place start a ++ place start b
place-append start [] b = refl
place-append start (o ∷ a) b = ap (λ t. (start + o) % 2 ^ 64 ∷ t) (place-append start a b)

-- The sender's walk over the bits.
masked_seqs-offsets :
    (rounds bit start mask m : ℕ)
    → mask / 2 ^ bit ≡ m
    → masked_seqs rounds bit start mask ≡ place start (offsets rounds bit m)
unfolding masked_seqs
masked_seqs-offsets zero bit start mask m e = refl
masked_seqs-offsets (suc rounds) bit start mask m e =
    let test = bit_test bit mask in
    let digit : mask / 2 ^ bit % 2 ≡ m % 2 = ap (λ (n : ℕ). n % 2) e in
    let power = one-le-pow bit 2 (omega arith) in
    let next : mask / 2 ^ (bit + 1) ≡ m / 2 =
      ap (λ (n : ℕ). mask / n) (power_next bit)
      ∙ sym (div-div-eq-div-mul mask (2 ^ bit) 2)
      ∙ ap (λ (n : ℕ). n / 2) e in
    let rest = masked_seqs-offsets rounds (bit + 1) start mask (m / 2) next in
    let at : start + 1 + bit ≡ start + (bit + 1) = omega arith in
    elim (Bool-cases (m % 2 == 0)) [
      | inl even ↦
          let (eq, other) = ==_iff (m % 2) 0 in
          let none_set : (bit_and mask (1 <<< bit) == 0) ≡ true =
            zero_test (bit_and mask (1 <<< bit)) (2 ^ bit)
              (test ∙ ap (λ (d : ℕ). d * 2 ^ bit) (digit ∙ eq even)) in
          rw (none_set, even) rest
      | inr odd ↦
          let one : m % 2 ≡ 1 = ground arith in
          let some_set : (bit_and mask (1 <<< bit) == 0) ≡ false =
            positive_test (bit_and mask (1 <<< bit)) (2 ^ bit)
              (test ∙ ap (λ (d : ℕ). d * 2 ^ bit) (digit ∙ one)) power in
          rw (some_set, odd, at) (ap (λ t. (start + (bit + 1)) % 2 ^ 64 ∷ t) rest)
    ]
  where
    power_next : (bit : ℕ) → 2 ^ (bit + 1) ≡ 2 ^ bit * 2
    power_next bit =
        let e : bit + 1 ≡ suc bit = omega arith in ap (λ (n : ℕ). 2 ^ n) e ∙ pow-suc 2 bit

    zero_test : (n p : ℕ) → n ≡ 0 * p → (n == 0) ≡ true
    zero_test n p e = ground arith

    positive_test : (n p : ℕ) → n ≡ 1 * p → 1 ≤ p → (n == 0) ≡ false
    positive_test n p e h = ground arith

-- A list of numbers that ascend from above `low`, none past the words.
abbrev pub Ascends : ℕ → List ℕ → Type 0
Ascends low [] = Unit {0}
Ascends low (seq ∷ due) = (low < seq) × (seq < 2 ^ 64) × Ascends seq due

entry : ℕ → ℕ → NackEntry
entry start mask = record { lost_start_seq = start; bitmask = mask }

entry_seqs-offsets :
    (start mask : ℕ) → entry_seqs (entry start mask) ≡ start ∷ place start (offsets 32 0 mask)
unfolding entry_seqs entry
entry_seqs-offsets start mask =
    let whole : mask / 2 ^ 0 ≡ mask = omega arith in
    ap (λ t. start ∷ t) (masked_seqs-offsets 32 0 start mask mask whole)

-- An entry with no bit, and an entry with one bit more.
entry_seqs_alone : (start : ℕ) → entry_seqs (entry start 0) ≡ start ∷ []
entry_seqs_alone start =
    entry_seqs-offsets start 0 ∙ ap (λ t. start ∷ place start t) (offsets-zero 32 0 0 refl)

entry_seqs_more :
    (start mask k seq : ℕ)
    → mask < 2 ^ k
    → k < 32
    → start + k + 1 ≡ seq
    → seq < 2 ^ 64
    → entry_seqs (entry start (bit_or mask (1 <<< k))) ≡ entry_seqs (entry start mask) ++ (seq ∷ [])
entry_seqs_more start mask k seq below few e word =
    let sum = or_high_bit k mask below in
    let at : (start + (0 + 1 + k)) % 2 ^ 64 ≡ seq =
      let back : start + (0 + 1 + k) ≡ seq = omega arith in
      ap (λ (n : ℕ). n % 2 ^ 64) back ∙ mod-eq_of_lt word in
    entry_seqs-offsets start (bit_or mask (1 <<< k))
    ∙ ap (λ m. start ∷ place start (offsets 32 0 m)) sum
    ∙ ap (λ t. start ∷ place start t) (offsets-high 32 0 mask k below few)
    ∙ ap (λ t. start ∷ t) (place-append start (offsets 32 0 mask) ((0 + 1 + k) ∷ []))
    ∙ ap (λ n. start ∷ (place start (offsets 32 0 mask) ++ (n ∷ []))) at
    ∙ ap (λ t. t ++ (seq ∷ [])) (sym (entry_seqs-offsets start mask))

requested_seqs-batch_from :
    (start mask j : ℕ) (due : List ℕ)
    → mask < 2 ^ j
    → Ascends (start + j) due
    → requested_seqs (batch_from start mask due) ≡ entry_seqs (entry start mask) ++ due
unfolding requested_seqs batch_from entry
requested_seqs-batch_from start mask j [] below up = refl
requested_seqs-batch_from start mask j (seq ∷ due) below (low, word, up) =
    elim (Bool-cases (ltb 32 (seq - start))) [
      | inl far ↦
          let zero_start : seq + 0 ≡ seq = omega arith in
          let up_from : Ascends (seq + 0) due = (rw zero_start up) in
          let rest = requested_seqs-batch_from seq 0 0 due (omega arith) up_from in
          rw (far, batch_from)
            (ap (λ t. entry_seqs (entry start mask) ++ t)
              (rest ∙ ap (λ t. t ++ due) (entry_seqs_alone seq)))
      | inr near ↦
          let k = seq - start - 1 in
          let above : 2 ^ j ≤ 2 ^ k = pow-le-pow_right (omega arith) (omega arith) in
          let next : start + suc k ≡ seq = omega arith in
          let few : k < 32 = ground arith in
          let fits : mask < 2 ^ k = omega arith in
          let sum = or_high_bit k mask fits in
          let up_from : Ascends (start + suc k) due = (rw next up) in
          let rest =
            requested_seqs-batch_from start (bit_or mask (1 <<< k)) (suc k) due
              (omega (arith, pow-suc 2 k)) up_from in
          let more = entry_seqs_more start mask k seq fits few (omega arith) word in
          rw (near, batch_from)
            (rest
              ∙ ap (λ t. t ++ due) more
              ∙ append_assoc (entry_seqs (entry start mask)) (seq ∷ []) due)
    ]

-- The sender reads out of the entries exactly the numbers that they were made of, in order.
pub requested_seqs-batch :
    (low : ℕ) (due : List ℕ) → Ascends low due → requested_seqs (batch due) ≡ due
unfolding batch requested_seqs
requested_seqs-batch low [] up = refl
requested_seqs-batch low (seq ∷ due) (above, word, up) =
    let zero_start : seq + 0 ≡ seq = omega arith in
    let up_from : Ascends (seq + 0) due = (rw zero_start up) in
    requested_seqs-batch_from seq 0 0 due (omega arith) up_from
    ∙ ap (λ t. t ++ due) (entry_seqs_alone seq)
