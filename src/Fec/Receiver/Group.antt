-- ===== src/Fec/Receiver/Group.antt =====
-- One FEC group of a frame: addBlock, canDecode and tryDecode of libs/frame_protoc/src/receiver.cpp.
use tj_rtc.Prelude.{
  ℕ, zero, suc, ◌+◌, ◌-◌, ◌%◌, Bool, true, false, not, ◌&&◌, ◌||◌, Option, none, some, List, [],
  ◌∷◌, ◌++◌, map, ltb, leb, ◌==◌, if◌then◌else◌, length, drop,
}
use tj_rtc.Prelude.{Assoc, put, number_key}
use tj_rtc.Fec.Receiver.State.{Decoder, FecGroup}

abbrev pub is_set : List ℕ → ℕ → Bool
is_set [] i = false
is_set (x ∷ xs) i = let rest = is_set xs i in if x == i then true else rest

unfoldable pub init_group : FecGroup → ℕ → ℕ → FecGroup
init_group g data_count fec_count = record g {
  data_block_count = data_count;
  fec_block_count = fec_count;
  params_known = true;
  slot_by_index = [];
}

-- addBlock, without its result, which the receiver does not use.
unfoldable pub add_block : FecGroup → ℕ → List ℕ → FecGroup
add_block g index payload =
    if g.decoded then g else if is_set g.received_mask index then g else record g {
      received_mask = index ∷ g.received_mask;
      slot_by_index = put number_key g.slot_by_index index (length g.block_storage);
      received_count = (g.received_count + 1) % 256;
      block_storage = g.block_storage ++ (payload ∷ []);
      block_indices = g.block_indices ++ (index ∷ []);
    }

unfoldable pub can_decode : FecGroup → Bool
can_decode g = g.params_known && (not g.decoded && leb g.data_block_count g.received_count)

-- `received_mask.test(i)` for the `rounds` indices from `i` on.
unfoldable pub have_all : ℕ → ℕ → List ℕ → Bool
have_all zero i mask = true
have_all (suc rounds) i mask =
    let rest = have_all rounds (i + 1) mask in if is_set mask i then rest else false

-- countOriginalBlocks: among the first blocks, those with the index of an original.
unfoldable pub count_originals : ℕ → ℕ → List ℕ → ℕ
count_originals data_count zero indices = 0
count_originals data_count (suc rounds) [] = 0
count_originals data_count (suc rounds) (i ∷ indices) =
    count_originals data_count rounds indices + (if ltb i data_count then 1 else 0)

-- The descriptors of the first blocks: what is stored, with its index.
unfoldable pub descriptors : ℕ → List (List ℕ) → List ℕ → List (List ℕ × ℕ)
descriptors zero storage indices = []
descriptors (suc n) [] indices = []
descriptors (suc n) (block ∷ storage) [] = []
descriptors (suc n) (block ∷ storage) (i ∷ indices) = (block, i) ∷ descriptors n storage indices

-- The loop after the decoding: `slot_by_index[blocks[i].Index] = i`.
unfoldable pub point_slots : Assoc ℕ ℕ → ℕ → List (List ℕ × ℕ) → Assoc ℕ ℕ
point_slots slots i [] = slots
point_slots slots i ((block, index) ∷ blocks) =
    point_slots (put number_key slots index i) (i + 1) blocks

-- Whether a block is shorter than the decoder is told.
abbrev pub any_short : ℕ → List (List ℕ × ℕ) → Bool
any_short n [] = false
any_short n ((block, i) ∷ blocks) =
    let rest = any_short n blocks in if ltb (length block) n then true else rest

unfoldable pub store_decoded : FecGroup → List (List ℕ × ℕ) → FecGroup
unfolding point_slots
store_decoded g blocks = record g {
  decoded = true;
  block_storage = map (λ b. b.0) blocks ++ drop (length blocks) g.block_storage;
  block_indices = map (λ b. b.1) blocks ++ drop (length blocks) g.block_indices;
  slot_by_index = point_slots g.slot_by_index 0 blocks;
}

-- What tryDecode has done: the group, the blocks that it counts as recovered, and whether the
-- requests of the group are to be erased.
pub record Decoding : Type 0 where
  pub group : FecGroup
  pub recovered : ℕ
  pub finished : Bool

abbrev pub decode_group : FecGroup → ℕ → List (List ℕ × ℕ) → Option (List (List ℕ × ℕ)) → Decoding
decode_group g bytes blocks none = record {
  group = record g { overread = g.overread || any_short bytes blocks };
  recovered = 0;
  finished = false;
}
decode_group g bytes blocks (some decoded) = record {
  group = store_decoded (record g { overread = g.overread || any_short bytes blocks }) decoded;
  recovered =
      g.data_block_count - count_originals g.data_block_count g.data_block_count g.block_indices;
  finished = true;
}

unfoldable pub try_decode : Decoder → FecGroup → ℕ → Decoding
try_decode codec g bytes =
    let blocks = descriptors g.data_block_count g.block_storage g.block_indices in
    if g.decoded
    then record { group = g; recovered = 0; finished = false }
    else if have_all g.data_block_count 0 g.received_mask
    then record { group = record g { decoded = true }; recovered = 0; finished = true }
    else if ltb g.received_count g.data_block_count
    then record { group = g; recovered = 0; finished = false }
    else decode_group g bytes blocks
        (codec.decode g.data_block_count g.fec_block_count bytes blocks)
