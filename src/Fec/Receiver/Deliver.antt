-- ===== src/Fec/Receiver/Deliver.antt =====
-- Delivery in order: deliverFrame, updateCompletedSeq and tryDeliverInOrder of
-- libs/frame_protoc/src/receiver.cpp.
use tj_rtc.Prelude.{
  ℕ, zero, suc, ◌+◌, ◌-◌, ◌%◌, ◌^◌, min, Bool, true, false, ◌||◌, Option, none, some, List, [], ◌∷◌,
  ◌++◌, ltb, leb, ◌==◌, if◌then◌else◌, length, get_elem?, take, replicate,
}
use tj_rtc.Prelude.{Assoc, find, erase, number_key}
use tj_rtc.Fec.Receiver.State.{FecGroup, PendingFrame, Frame, FrameReceiver, frame_before}

-- What has been copied into the output, what remains, and whether a copy read past its block.
pub record Copied : Type 0 where
  pub bytes : List ℕ
  pub remaining : ℕ
  pub overread : Bool

-- `memcpy` of `n` bytes from a block; what lies behind its end is not known, zeros stand for it.
abbrev pub copy_block : ℕ → List ℕ → List ℕ
copy_block n src = take n src ++ replicate (n - length src) 0

-- The block that `slot_by_index` points to, if there is one.
abbrev pub slot_block : FecGroup → Option ℕ → Option (List ℕ)
slot_block g none = none
slot_block g (some slot) = get_elem? g.block_storage slot

unfoldable pub block_at : FecGroup → ℕ → Option (List ℕ)
block_at g blk = slot_block g (find number_key g.slot_by_index blk)

abbrev pub nothing_copied : ℕ → Copied
nothing_copied remaining = record { bytes = []; remaining = remaining; overread = false }

-- `n` bytes of the block that has been found, before the rest; without a block the loop ends.
abbrev pub copy_found : ℕ → ℕ → Copied → Option (List ℕ) → Copied
copy_found n remaining rest none = nothing_copied remaining
copy_found n remaining rest (some src) = record {
  bytes = copy_block n src ++ rest.bytes;
  remaining = rest.remaining;
  overread = ltb (length src) n || rest.overread;
}

-- The inner loop of deliverFrame, for the `rounds` blocks from `blk` on.
unfoldable pub copy_blocks : FecGroup → ℕ → ℕ → ℕ → ℕ → Copied
copy_blocks g block_bytes zero blk remaining = nothing_copied remaining
copy_blocks g block_bytes (suc rounds) blk remaining =
    let n = min remaining block_bytes in
    let rest = copy_blocks g block_bytes rounds (blk + 1) (remaining - n) in
    if remaining == 0
    then nothing_copied remaining
    else copy_found n remaining rest (block_at g blk)

-- The outer loop, over the groups.
unfoldable pub copy_groups : List FecGroup → ℕ → ℕ → ℕ → Copied
copy_groups [] block_bytes groups remaining = record {
  bytes = [];
  remaining = remaining;
  overread = false;
}
copy_groups (g ∷ rest_groups) block_bytes zero remaining = record {
  bytes = [];
  remaining = remaining;
  overread = false;
}
copy_groups (g ∷ rest_groups) block_bytes (suc groups) remaining =
    let here = copy_blocks g block_bytes g.data_block_count 0 remaining in
    let rest = copy_groups rest_groups block_bytes groups here.remaining in
    if remaining == 0 then nothing_copied remaining else record {
      bytes = here.bytes ++ rest.bytes;
      remaining = rest.remaining;
      overread = here.overread || rest.overread;
    }

-- `output`, whose buffer has been filled with zeros.
unfoldable pub assemble : PendingFrame → Frame
assemble f =
    let copied = copy_groups f.groups f.block_bytes f.fec_group_count f.frame_size in
    record {
      type = f.frame_type;
      size = f.frame_size;
      bytes = copied.bytes ++ replicate copied.remaining 0;
      overread = copied.overread;
    }

unfoldable pub total_blocks : List FecGroup → ℕ
total_blocks [] = 0
total_blocks (g ∷ groups) = g.data_block_count + g.fec_block_count + total_blocks groups

-- The frames that wait for blocks hold back the acknowledgement.
unfoldable pub hold_back : Assoc ℕ PendingFrame → ℕ → ℕ
hold_back [] last = last
hold_back ((k, f) ∷ frames) last = hold_back frames (
    if (f.complete || f.discarded) || f.first_seq == 0
    then last
    else if leb f.first_seq last
    then f.first_seq - 1
    else last)

-- The frames before the cursor are dropped from the table.
unfoldable pub drop_stale : Assoc ℕ PendingFrame → ℕ → Assoc ℕ PendingFrame
drop_stale [] cursor = []
drop_stale ((id, f) ∷ frames) cursor =
    let rest = drop_stale frames cursor in if frame_before id cursor then rest else ((id, f) ∷ rest)

module _ {F : Type 0} where
  unfoldable pub update_completed_seq : FrameReceiver F → PendingFrame → FrameReceiver F
  unfolding total_blocks hold_back
  update_completed_seq r f =
      let last =
        hold_back r.pending_frames
          ((f.first_seq + total_blocks f.groups % 2 ^ 32 + 2 ^ 64 - 1) % 2 ^ 64) in
      if ltb r.completed_seq last then (record r { completed_seq = last }) else r

  unfoldable pub deliver_frame : FrameReceiver F → PendingFrame → FrameReceiver F
  unfolding update_completed_seq assemble
  deliver_frame r f =
      let counted = record r {
        counters = record r.counters {
          frames_completed = r.counters.frames_completed + 1;
          goodput_window_bytes = r.counters.goodput_window_bytes + f.frame_size;
        };
      } in
      let acknowledged = update_completed_seq counted f in
      if acknowledged.frame_ready_cb
      then (record acknowledged { delivered = acknowledged.delivered ++ (assemble f ∷ []) })
      else acknowledged

  -- The cursor's frame is left behind.
  unfoldable pub advance : FrameReceiver F → FrameReceiver F
  advance r = record r {
    pending_frames = erase number_key r.pending_frames r.next_deliver_frame_id;
    next_deliver_frame_id = (r.next_deliver_frame_id + 1) % 2 ^ 16;
  }

  -- The loop of tryDeliverInOrder. Each round but the last takes a frame out of the table.
  unfoldable pub deliver_loop : ℕ → FrameReceiver F → FrameReceiver F
  unfolding advance deliver_frame
  deliver_loop zero r = r
  deliver_loop (suc fuel) r = elim (find number_key r.pending_frames r.next_deliver_frame_id) [
    | none ↦ r
    | some f ↦ elim f.discarded [
      | true ↦ deliver_loop fuel (advance r)
      | false ↦ elim f.complete [
        | true ↦ deliver_loop fuel (advance (deliver_frame r f))
        | false ↦ r
      ]
    ]
  ]

  unfoldable pub try_deliver_in_order : FrameReceiver F → FrameReceiver F
  unfolding drop_stale deliver_loop
  try_deliver_in_order r =
      let fresh = record r {
        pending_frames = drop_stale r.pending_frames r.next_deliver_frame_id;
      } in
      if r.has_delivery_cursor then deliver_loop (length fresh.pending_frames + 1) fresh else r
