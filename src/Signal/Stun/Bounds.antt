-- ===== src/Signal/Stun/Bounds.antt =====
-- The STUN parsers read no byte past the end of a packet, and the loop over the attributes ends.
use tj_rtc.Prelude.{
  ℕ, zero, suc, ◌+◌, ◌-◌, ◌≤◌, ◌<◌, ◌≡◌, ◌≢◌, inl, inr, ◌&&◌, List, [], ◌∷◌, arith, leb, ◌==◌,
  Bool-cases, length, drop, length-drop,
}
use tj_rtc.Bytes.{
  need-cases, continue, Outcome, continue, Leaves, return, join16, Outcome, ok, reject, fault,
  return, read_u8, result, join16, read_be16, Leaves, Reads, return-Reads, next_u8, next_need,
  next_check, next_bytes, next_be16, next_be32, result-ne-fault, need-enough,
}
use tj_rtc.Signal.Stun.{
  parse_header, MappedAddress, Attribute, mapped, other, read_mapped, attribute_value,
  read_attribute, attribute_loop, attribute_round, parse_mapped_address, padded, xor_mapped_address,
}

parse_header-Reads : Reads 0 0 parse_header
unfolding parse_header
parse_header-Reads = next_need 0 0 20 _ λ _. next_be16 20 0 _ (omega arith) λ type.
    next_be16 18 0 _ (omega arith) λ len. next_be32 16 0 _ (omega arith) λ cookie.
      next_check 12 0 _ _
        λ _. next_bytes 12 0 12 _ (omega arith) λ transaction. return-Reads 0 0 (omega arith)

read_mapped-Reads : (k : ℕ) → 8 ≤ k → Reads k 0 read_mapped
unfolding read_mapped
read_mapped-Reads k h = next_u8 k 0 _ (omega arith) λ reserved.
    next_u8 (k - 1) 0 _ (omega arith) λ family. next_be16 (k - 1 - 1) 0 _ (omega arith) λ port.
      next_be32 (k - 1 - 1 - 2) 0 _ (omega arith)
        λ ip. return-Reads (k - 1 - 1 - 2 - 4) 0 (omega arith)

-- A round that goes on has taken a byte, and none reads past the end.
abbrev Progress : ℕ → Outcome (Attribute × List ℕ) → Type 0
Progress n (ok (mapped a, rest)) = Unit
Progress n (ok (other len, rest)) = length rest < n
Progress n reject = Unit
Progress n fault = ⊥

mapped-Progress :
    (n : ℕ) (o : Outcome (MappedAddress × List ℕ))
    → Leaves 0 o
    → Progress n (continue (λ a. return (mapped a)) o)
mapped-Progress n (ok (a, rest)) h = tt
mapped-Progress n reject h = tt
mapped-Progress n fault h = h

attribute_value-Progress :
    (type len : ℕ) (rest : List ℕ) (n : ℕ)
    → len ≤ length rest
    → length rest < n
    → Progress n (attribute_value (type == xor_mapped_address && leb 8 len) len rest)
unfolding attribute_value
attribute_value-Progress type len rest n h shorter =
    elim (Bool-cases (type == xor_mapped_address && leb 8 len)) [
      | inl e ↦
          rw e (mapped-Progress n (read_mapped rest) (read_mapped-Reads len (ground arith) rest h))
      | inr e ↦ rw e shorter
    ]

read_attribute_short : (bytes : List ℕ) → length bytes < 4 → read_attribute bytes ≡ reject
unfolding read_attribute
read_attribute_short bytes h = elim (need-cases 4 bytes) [
  | inl (e, short) ↦ rw e
  | inr (e, enough) ↦ absurd (omega arith)
]

read_attribute-Progress : (bytes : List ℕ) → Progress (length bytes) (read_attribute bytes)
unfolding read_attribute read_be16 read_u8
read_attribute-Progress [] = rw (read_attribute_short [] (omega arith)) tt
read_attribute-Progress (a ∷ []) = rw (read_attribute_short (a ∷ []) (omega arith)) tt
read_attribute-Progress (a ∷ b ∷ []) = rw (read_attribute_short (a ∷ b ∷ []) (omega arith)) tt
read_attribute-Progress (a ∷ b ∷ c ∷ []) =
    rw (read_attribute_short (a ∷ b ∷ c ∷ []) (omega arith)) tt
read_attribute-Progress (a ∷ b ∷ c ∷ d ∷ rest) =
    rw (need-enough 4 (a ∷ b ∷ c ∷ d ∷ rest) (omega arith)) (elim (need-cases (join16 c d) rest) [
      | inl (e, short) ↦ rw e tt
      | inr (e, enough) ↦
          rw e (attribute_value-Progress (join16 a b) (join16 c d) rest _ enough (omega arith))
    ])

attribute_loop-ne-fault :
    (fuel : ℕ) (bytes : List ℕ) → length bytes < fuel → result (attribute_loop fuel bytes) ≢ fault
unfolding attribute_loop
attribute_loop-ne-fault zero bytes h = absurd (omega arith)
attribute_loop-ne-fault (suc fuel) bytes h =
    elim (read_attribute bytes)
        as (λ o.
          Progress (length bytes) o → result (attribute_round o (attribute_loop fuel)) ≢ fault) [
            | ok (mapped a, rest) ↦ λ p e. cc
            | ok (other len, rest) ↦ λ p.
                attribute_loop-ne-fault fuel (drop (padded len) rest)
                  (omega (arith, length-drop {0} (padded len) rest))
            | reject ↦ λ p e. cc
            | fault ↦ λ p. absurd p
          ]
      (read_attribute-Progress bytes)

-- On every packet, well formed or not, neither STUN parser reads past the end, and the search for
-- the address ends.
pub parse_stun-ne-fault :
    (bytes : List ℕ) → (result (parse_header bytes) ≢ fault) × (parse_mapped_address bytes ≢ fault)
unfolding parse_mapped_address
parse_stun-ne-fault bytes = (
  result-ne-fault parse_header parse_header-Reads bytes,
  attribute_loop-ne-fault (length bytes + 1) (drop 20 bytes)
      (omega (arith, length-drop {0} 20 bytes)),
)
