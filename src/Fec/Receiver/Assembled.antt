-- ===== src/Fec/Receiver/Assembled.antt =====
-- The frame that is handed over is the frame that was sent (libs/frame_protoc/src/receiver.cpp).
use tj_rtc.Prelude.{
  ℕ, zero, suc, ◌+◌, ◌-◌, ◌*◌, ◌≤◌, ◌<◌, min, ◌≡◌, refl, sym, ap, ◌∙◌, Bool, false, ◌||◌, some,
  List, [], ◌∷◌, ◌++◌, append-nil, arith, ltb, ◌==◌, if◌then◌else◌, length, get_elem?, take,
  replicate, All, length-append,
}
use tj_rtc.Fec.Receiver.State.{FecGroup, PendingFrame}
use native.Mathlib.Nat.{suc-mul}
use tj_rtc.Fec.Receiver.Deliver.{
  Copied, copy_block, copy_found, nothing_copied, block_at, copy_blocks, copy_groups, assemble,
}
use tj_rtc.Fec.Receiver.Recovers.{IsRecovered}
use tj_rtc.Fec.Sender.Blocks.{concat, concat_all, Extends, take-Extends}

take-append_at :
    (n m : ℕ) (xs ys : List ℕ)
    → m ≡ min n (length xs)
    → take n (xs ++ ys) ≡ take m xs ++ take (n - m) ys
take-append_at zero zero xs ys e = refl
take-append_at zero (suc m) xs ys e = absurd (omega arith)
take-append_at (suc n) zero [] ys e =
    let same : suc n ≡ suc n - 0 = omega arith in ap (λ k. take k ys) same
take-append_at (suc n) (suc m) [] ys e = absurd (omega arith)
take-append_at (suc n) zero (x ∷ xs) ys e = absurd (omega arith)
take-append_at (suc n) (suc m) (x ∷ xs) ys e =
    let same : n - m ≡ suc n - suc m = omega arith in
    ap (λ t. x ∷ t) (take-append_at n m xs ys (omega arith) ∙ ap (λ k. take m xs ++ take k ys) same)

copy_block_inside : (n : ℕ) (src : List ℕ) → n ≤ length src → copy_block n src ≡ take n src
copy_block_inside n src h =
    let none_past : n - length src ≡ 0 = omega arith in
    ap (λ k. take n src ++ replicate k 0) none_past ∙ append-nil (take n src)

take-nil : (n : ℕ) → take {A = ℕ} n [] ≡ []
take-nil zero = refl
take-nil (suc n) = refl

abbrev copied : List ℕ → ℕ → Copied
copied bytes remaining = record { bytes = bytes; remaining = remaining; overread = false }

copied_eq : {a b : List ℕ} (m n : ℕ) → a ≡ b → m ≡ n → copied a m ≡ copied b n
copied_eq {a} {b} m n e f = ap (λ x. copied x m) e ∙ ap (copied b) f

not_past : (a b : ℕ) → a ≤ b → ltb b a ≡ false
not_past a b h = ground arith

-- What the loop over the blocks of a group copies.
copy_blocks_lem :
    (g : FecGroup) (bb blk remaining : ℕ) (blocks : List (List ℕ))
    → ((i : ℕ)
        → i < length blocks
        → (b : List ℕ) × (block_at g (blk + i) ≡ some b) × (get_elem? blocks i ≡ some b))
    → All (λ b. length b ≡ bb) blocks
    → copy_blocks g bb (length blocks) blk remaining
      ≡ copied (take remaining (concat blocks)) (remaining - length blocks * bb)
unfolding copy_blocks
copy_blocks_lem g bb blk remaining [] at sizes =
    copied_eq remaining (remaining - 0 * bb) (sym (take-nil remaining)) (omega arith)
copy_blocks_lem g bb blk zero (b ∷ blocks) at (size, sizes) =
    copied_eq 0 (0 - suc (length blocks) * bb) refl (omega arith)
copy_blocks_lem g bb blk (suc left) (b ∷ blocks) at (size, sizes) =
    let n = min (suc left) bb in
    let rest_left = suc left - n in
    let (c, found, first) = at 0 (omega arith) in
    let here : block_at g blk ≡ some b =
      let start : blk ≡ blk + 0 = omega arith in ap (block_at g) start ∙ found ∙ sym first in
    let ih = copy_blocks_lem g bb (blk + 1) rest_left blocks (shifted g blk b blocks at) sizes in
    let inside : n ≤ length b = omega arith in
    let rest_count : rest_left - length blocks * bb ≡ suc left - suc (length blocks) * bb =
      omega (arith, suc-mul (length blocks) bb) in
    let bytes : copy_block n b ++ take rest_left (concat blocks)
        ≡ take (suc left) (b ++ concat blocks) =
      ap (λ t. t ++ take rest_left (concat blocks)) (copy_block_inside n b inside)
      ∙ sym (take-append_at (suc left) n b (concat blocks) (omega arith)) in
    let some_left : (suc left == 0) ≡ false = ground arith in
    ap
      (λ (t : Bool).
        if t
        then nothing_copied (suc left)
        else copy_found n (suc left) (copy_blocks g bb (length blocks) (blk + 1) rest_left)
            (block_at g blk))
      some_left
    ∙ ap (copy_found n (suc left) (copy_blocks g bb (length blocks) (blk + 1) rest_left)) here
    ∙ ap (λ r. copy_found n (suc left) r (some b)) ih
    ∙ ap
        (λ over. record {
          bytes = copy_block n b ++ take rest_left (concat blocks);
          remaining = rest_left - length blocks * bb;
          overread = over || false;
        })
        (not_past n (length b) inside)
    ∙ copied_eq (rest_left - length blocks * bb) (suc left - suc (length blocks) * bb) bytes
        rest_count
  where
    shifted :
        (g : FecGroup) (blk : ℕ) (b : List ℕ) (blocks : List (List ℕ))
        → ((i : ℕ)
            → i < suc (length blocks)
            → (c : List ℕ) × (block_at g (blk + i) ≡ some c) × (get_elem? (b ∷ blocks) i ≡ some c))
        → (i : ℕ) → i < length blocks
        → (c : List ℕ) × (block_at g (blk + 1 + i) ≡ some c) × (get_elem? blocks i ≡ some c)
    shifted g blk b blocks at i h =
        let (c, found, inside) = at (suc i) (omega arith) in
        let sum : blk + 1 + i ≡ blk + suc i = omega arith in
        (c, ap (block_at g) sum ∙ found, inside)

-- Groups that are recovered, with the blocks of each.
abbrev pub AllRecovered : ℕ → List (List (List ℕ)) → List FecGroup → Type 0
AllRecovered bb [] [] = Unit {0}
AllRecovered bb [] (g ∷ groups) = ⊥
AllRecovered bb (blocks ∷ words) [] = ⊥
AllRecovered bb (blocks ∷ words) (g ∷ groups) =
    IsRecovered blocks g × All (λ b. length b ≡ bb) blocks × AllRecovered bb words groups

length-concat :
    (bb : ℕ) (blocks : List (List ℕ))
    → All (λ b. length b ≡ bb) blocks
    → length (concat blocks) ≡ length blocks * bb
length-concat bb [] h = omega arith
length-concat bb (b ∷ blocks) (size, sizes) = omega (
  arith,
  length-append {0} b (concat blocks),
  length-concat bb blocks sizes,
  suc-mul (length blocks) bb,
)

take-append : (n : ℕ) (xs ys : List ℕ) → take n (xs ++ ys) ≡ take n xs ++ take (n - length xs) ys
take-append zero xs ys =
    let none_left : 0 - length xs ≡ 0 = omega arith in sym (ap (λ k. take k ys) none_left)
take-append (suc n) [] ys = let all : suc n ≡ suc n - 0 = omega arith in ap (λ k. take k ys) all
take-append (suc n) (x ∷ xs) ys =
    let same : n - length xs ≡ suc n - suc (length xs) = omega arith in
    ap (λ t. x ∷ t) (take-append n xs ys ∙ ap (λ k. take n xs ++ take k ys) same)

abbrev join : Copied → Copied → Copied
join a b = record {
  bytes = a.bytes ++ b.bytes;
  remaining = b.remaining;
  overread = a.overread || b.overread;
}

copy_groups_lem :
    (bb remaining : ℕ) (words : List (List (List ℕ))) (groups : List FecGroup)
    → AllRecovered bb words groups
    → copy_groups groups bb (length groups) remaining
      ≡ copied (take remaining (concat_all words)) (remaining - length (concat_all words))
unfolding copy_groups
copy_groups_lem bb remaining [] [] v =
    copied_eq remaining (remaining - 0) (sym (take-nil remaining)) (omega arith)
copy_groups_lem bb remaining [] (g ∷ groups) v = elim v [ ]
copy_groups_lem bb remaining (blocks ∷ words) [] v = elim v [ ]
copy_groups_lem bb zero (blocks ∷ words) (g ∷ groups) v =
    copied_eq 0 (0 - length (concat_all (blocks ∷ words))) refl (omega arith)
copy_groups_lem bb (suc left) (blocks ∷ words) (g ∷ groups) (v, sizes, more) =
    let some_left : (suc left == 0) ≡ false = ground arith in
    let next = suc left - length blocks * bb in
    let here : copy_blocks g bb g.data_block_count 0 (suc left)
        ≡ copied (take (suc left) (concat blocks)) next =
      ap (λ n. copy_blocks g bb n 0 (suc left)) v.counted
      ∙ copy_blocks_lem g bb 0 (suc left) blocks (from_zero g blocks v) sizes in
    let ih = copy_groups_lem bb next words groups more in
    let long = length-concat bb blocks sizes in
    let bytes : take (suc left) (concat blocks) ++ take next (concat_all words)
        ≡ take (suc left) (concat blocks ++ concat_all words) =
      ap (λ n. take (suc left) (concat blocks) ++ take (suc left - n) (concat_all words)) (sym long)
      ∙ sym (take-append (suc left) (concat blocks) (concat_all words)) in
    let count : next - length (concat_all words)
        ≡ suc left - length (concat blocks ++ concat_all words) =
      omega (arith, length-append {0} (concat blocks) (concat_all words)) in
    let whole = copy_blocks g bb g.data_block_count 0 (suc left) in
    ap
      (λ (t : Bool).
        if t
        then nothing_copied (suc left)
        else join whole (copy_groups groups bb (length groups) whole.remaining))
      some_left
    ∙ ap (λ h. join h (copy_groups groups bb (length groups) h.remaining)) here
    ∙ ap (join (copied (take (suc left) (concat blocks)) next)) ih
    ∙ copied_eq (next - length (concat_all words))
        (suc left - length (concat blocks ++ concat_all words)) bytes count
  where
    from_zero :
        (g : FecGroup) (blocks : List (List ℕ))
        → IsRecovered blocks g
        → (i : ℕ) → i < length blocks
        → (c : List ℕ) × (block_at g (0 + i) ≡ some c) × (get_elem? blocks i ≡ some c)
    from_zero g blocks v i h =
        let (c, found, inside) = v.at i h in
        let start : 0 + i ≡ i = omega arith in (c, ap (block_at g) start ∙ found, inside)

-- A frame whose groups have all been recovered is handed over as it was, and without reading past the
-- end of a block, where its blocks, all of the size that the frame has noted, begin with the frame.
pub assemble-IsRecovered :
    (f : PendingFrame) (words : List (List (List ℕ))) (frame : List ℕ)
    → AllRecovered f.block_bytes words f.groups
    → f.fec_group_count ≡ length f.groups
    → f.frame_size ≡ length frame
    → Extends frame (concat_all words)
    → assemble f
      ≡ record { type = f.frame_type; size = length frame; bytes = frame; overread = false }
unfolding assemble
assemble-IsRecovered f words frame v groups size (filling, e) =
    let done : copy_groups f.groups f.block_bytes f.fec_group_count f.frame_size
        ≡ copied (take f.frame_size (concat_all words)) (f.frame_size - length (concat_all words)) =
      ap (λ n. copy_groups f.groups f.block_bytes n f.frame_size) groups
      ∙ copy_groups_lem f.block_bytes f.frame_size words f.groups v in
    let none_left : f.frame_size - length (concat_all words) ≡ 0 =
      omega (arith, size, ap length e, length-append {0} frame filling) in
    let bytes : take f.frame_size (concat_all words)
          ++ replicate (f.frame_size - length (concat_all words)) 0
        ≡ frame =
      ap (λ n. take f.frame_size (concat_all words) ++ replicate n 0) none_left
      ∙ append-nil (take f.frame_size (concat_all words))
      ∙ ap (λ n. take n (concat_all words)) size
      ∙ take-Extends frame (concat_all words) (filling, e) in
    ap
      (λ (c : Copied). record {
        type = f.frame_type;
        size = f.frame_size;
        bytes = c.bytes ++ replicate c.remaining 0;
        overread = c.overread;
      })
      done
    ∙ ap (λ b. record { type = f.frame_type; size = f.frame_size; bytes = b; overread = false })
        bytes
    ∙ ap (λ n. record { type = f.frame_type; size = n; bytes = frame; overread = false }) size
