-- ===== src/Fec/Sender/Blocks.antt =====
-- The blocks of a frame, put together again.
use tj_rtc.Prelude.{
  length-replicate, ℕ, zero, suc, ◌-◌, ◌*◌, ◌≡◌, refl, sym, ap, ◌∙◌, inl, inr, List, [], ◌∷◌, ◌++◌,
  append_assoc, arith, ltb, if◌then◌else◌, Bool-cases, length, take, drop, replicate, All,
  length-append, length-take, length-drop, take-length_append,
}
use tj_rtc.Fec.Sender.Split.{pad_block, cut_blocks}
use tj_rtc.Fec.Sender.Packets.{BlockPacket}

abbrev pub concat : List (List ℕ) → List ℕ
concat [] = []
concat (b ∷ blocks) = b ++ concat blocks

abbrev pub concat_all : List (List (List ℕ)) → List ℕ
concat_all [] = []
concat_all (blocks ∷ words) = concat blocks ++ concat_all words

-- The bytes begin with `front`; what follows is filling.
abbrev pub Extends : List ℕ → List ℕ → Type 0
Extends front bytes = (filling : List ℕ) × (bytes ≡ front ++ filling)

pub take-Extends : (front bytes : List ℕ) → Extends front bytes → take (length front) bytes ≡ front
take-Extends front bytes (filling, e) = rw e (take-length_append front filling)

-- A block in front of what extends the rest.
pad_block-Extends :
    (bb : ℕ) (rest bytes : List ℕ)
    → Extends (drop bb rest) bytes
    → Extends rest (pad_block bb (take bb rest) ++ bytes)
unfolding pad_block
pad_block-Extends bb rest bytes (filling, e) = short bb rest bytes filling e
  where
    short :
        (bb : ℕ) (rest bytes filling : List ℕ)
        → bytes ≡ drop bb rest ++ filling
        → Extends rest ((take bb rest ++ replicate (bb - length (take bb rest)) 0) ++ bytes)
    short zero rest bytes filling e = (filling, e)
    short (suc bb) [] bytes filling e = (replicate (suc bb - 0) 0 ++ bytes, refl)
    short (suc bb) (x ∷ rest) bytes filling e =
        let (more, eq) = short bb rest bytes filling e in
        let less : suc bb - suc (length (take bb rest)) ≡ bb - length (take bb rest) =
          omega arith in
        (more, ap (λ k. (x ∷ (take bb rest ++ replicate k 0)) ++ bytes) less ∙ ap (λ t. x ∷ t) eq)

pub length-pad_block : (bb : ℕ) (rest : List ℕ) → length (pad_block bb (take bb rest)) ≡ bb
unfolding pad_block
length-pad_block bb rest =
    let some_len = length-take bb rest in
    omega (
      arith,
      length-append {0} (take bb rest) (replicate (bb - length (take bb rest)) 0),
      length-replicate {A = ℕ} (bb - length (take bb rest)) 0,
    )

pub cut_blocks-Extends :
    (n bb : ℕ) (rest bytes : List ℕ)
    → Extends (cut_blocks n bb rest).1 bytes
    → Extends rest (concat (cut_blocks n bb rest).0 ++ bytes)
unfolding cut_blocks
cut_blocks-Extends zero bb rest bytes h = h
cut_blocks-Extends (suc n) bb rest bytes h =
    let block = pad_block bb (take bb rest) in
    let blocks = (cut_blocks n bb (drop bb rest)).0 in
    let (filling, e) =
      pad_block-Extends bb rest (concat blocks ++ bytes)
        (cut_blocks-Extends n bb (drop bb rest) bytes h) in
    (filling, append_assoc block (concat blocks) bytes ∙ e)

pub length-cut_blocks :
    (n bb : ℕ) (rest : List ℕ)
    → (length (cut_blocks n bb rest).0 ≡ n)
      × (length (cut_blocks n bb rest).1 ≡ length rest - n * bb)
      × All (λ b. length b ≡ bb) (cut_blocks n bb rest).0
unfolding cut_blocks
length-cut_blocks zero bb rest = (refl, omega arith, tt)
length-cut_blocks (suc n) bb rest =
    let (count, left, sizes) = length-cut_blocks n bb (drop bb rest) in
    (ap suc count, omega (arith, length-drop bb rest), (length-pad_block bb rest, sizes))

-- What a receiver makes of packets that arrive in the order in which they were sent: the payloads of
-- the data blocks, those whose index is below the group's number of data blocks.
abbrev pub data_of : List BlockPacket → List ℕ
data_of [] = []
data_of (p ∷ packets) =
    let rest = data_of packets in
    if ltb p.header.block_index p.header.data_block_count then p.payload ++ rest else rest

pub data_of-append : (a b : List BlockPacket) → data_of (a ++ b) ≡ data_of a ++ data_of b
data_of-append [] b = refl
data_of-append (p ∷ a) b = elim (Bool-cases (ltb p.header.block_index p.header.data_block_count)) [
  | inl original ↦ rw original (
      ap (λ t. p.payload ++ t) (data_of-append a b)
      ∙ sym (append_assoc p.payload (data_of a) (data_of b)))
  | inr recovery ↦ rw recovery (data_of-append a b)
]
