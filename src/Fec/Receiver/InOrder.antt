-- ===== src/Fec/Receiver/InOrder.antt =====
-- Frames are delivered in the order of their numbers (libs/frame_protoc/src/receiver.cpp).
use tj_rtc.Prelude.{
  ℕ, zero, suc, ◌+◌, ◌<◌, ◌≡◌, refl, sym, ap, subst, ◌∙◌, ◌⊎◌, inl, inr, true, false, Option, none,
  some, List, [], ◌∷◌, ◌++◌, append-nil, append_assoc, arith, if◌then◌else◌, Bool-cases,
  both_branches, true_branch, Option-cases, length,
}
use tj_rtc.Prelude.{
  Assoc, find, erase, number_key, length-erase_lt, find-erase_same, find-erase_other, ◌%◌, ◌-◌, ltb,
  ◌==◌, ==_iff,
}
use tj_rtc.Fec.Receiver.State.{PendingFrame, Frame, FrameReceiver, frame_before}
use tj_rtc.Fec.Receiver.Deliver.{
  assemble, update_completed_seq, deliver_frame, drop_stale, advance, deliver_loop,
  try_deliver_in_order,
}

module _ {F : Type 0} where
  -- The frame under the cursor.
  abbrev pub at_cursor : FrameReceiver F → Option PendingFrame
  at_cursor r = find number_key r.pending_frames r.next_deliver_frame_id

-- A table of frames by their number.
abbrev pub Table : Type 0
Table = ℕ → Option PendingFrame

-- The table of a receiver, without the frames whose numbers lie in the half of the 65536 numbers before
-- the cursor.
abbrev pub waiting : {F : Type 0} → FrameReceiver F → Table
waiting r id =
    if ltb ((id + 65536 - r.next_deliver_frame_id) % 65536) 32768
    then find number_key r.pending_frames id
    else none

abbrev pub without : Table → ℕ → Table
without table n id = if n == id then none else table id

abbrev pub next_number : ℕ → ℕ
next_number n = (n + 1) % 65536

-- What delivery is to do with a table, from number `n` on: frames that have been given up are passed,
-- complete ones are handed over, one number after the other, each of them out of the table then, up to
-- number `m`, whose frame is not there or waits for blocks.
pub data Delivers : Table → ℕ → List Frame → Table → ℕ → Type 0 where
  missing : (table : Table) (n : ℕ) → table n ≡ none → Delivers table n [] table n
  incomplete :
      (table : Table) (n : ℕ) (f : PendingFrame)
      → table n ≡ some f
      → f.discarded ≡ false
      → f.complete ≡ false
      → Delivers table n [] table n
  pass :
      (table left : Table) (n m : ℕ) (frames : List Frame) (f : PendingFrame)
      → table n ≡ some f
      → f.discarded ≡ true
      → Delivers (without table n) (next_number n) frames left m
      → Delivers table n frames left m
  hand :
      (table left : Table) (n m : ℕ) (frames : List Frame) (f : PendingFrame)
      → table n ≡ some f
      → f.discarded ≡ false
      → f.complete ≡ true
      → Delivers (without table n) (next_number n) frames left m
      → Delivers table n (assemble f ∷ frames) left m

-- What a call has done, from a table and a number on: the frames that the callback has got, the cursor
-- and the table that are left.
pub record Delivery {F : Type 0} (table : Table) (n : ℕ) (before : List Frame) (t : FrameReceiver F)
    : Type 0 where
  pub frames : List Frame
  pub left : Table
  pub steps : Delivers table n frames left t.next_deliver_frame_id
  pub out : t.delivered ≡ before ++ frames
  pub table_left : (id : ℕ) → find number_key t.pending_frames id ≡ left id

find-without :
    (frames : Assoc ℕ PendingFrame) (table : Table) (n id : ℕ)
    → find number_key frames id ≡ table id
    → find number_key (erase number_key frames n) id ≡ without table n id
find-without frames table n id e = elim (Bool-cases (n == id)) [
  | inl here ↦
      let (eq, test) = ==_iff n id in
      rw here (
        ap (λ k. find number_key (erase number_key frames n) k) (sym (eq here))
        ∙ find-erase_same number_key frames n)
  | inr other ↦ rw other (find-erase_other number_key frames n id other ∙ e)
]

find-drop_stale :
    (frames : Assoc ℕ PendingFrame) (cursor id : ℕ)
    → find number_key (drop_stale frames cursor) id
      ≡ (if frame_before id cursor then none else find number_key frames id)
unfolding find drop_stale
find-drop_stale [] cursor id = elim (Bool-cases (frame_before id cursor)) [
  | inl stale ↦ rw stale refl
  | inr fresh ↦ rw fresh refl
]
find-drop_stale ((k, f) ∷ frames) cursor id =
    let rest = find-drop_stale frames cursor id in
    elim (Bool-cases (k == id)) [
      | inl hit ↦
          let (eq, test) = ==_iff k id in
          let same : frame_before k cursor ≡ frame_before id cursor =
            ap (λ j. frame_before j cursor) (eq hit) in
          elim (Bool-cases (frame_before id cursor)) [
            | inl stale ↦
                let gone : frame_before k cursor ≡ true = same ∙ stale in
                rw gone (rest ∙ rw stale refl)
            | inr fresh ↦
                let kept : frame_before k cursor ≡ false = same ∙ fresh in
                rw (kept, hit, fresh) refl
          ]
      | inr miss ↦ elim (Bool-cases (frame_before k cursor)) [
        | inl stale ↦ rw (stale, miss) rest
        | inr fresh ↦ rw (fresh, miss) rest
      ]
    ]

find-waiting :
    {F : Type 0} (r : FrameReceiver F) (id : ℕ)
    → find number_key (drop_stale r.pending_frames r.next_deliver_frame_id) id ≡ waiting r id
find-waiting r id =
    let dist = (id + 65536 - r.next_deliver_frame_id) % 65536 in
    find-drop_stale r.pending_frames r.next_deliver_frame_id id
    ∙ elim (Bool-cases (ltb dist 32768)) [
      | inl ahead ↦
          let kept : frame_before id r.next_deliver_frame_id ≡ false = ground arith in
          rw (kept, ahead) refl
      | inr behind ↦
          let gone : frame_before id r.next_deliver_frame_id ≡ true = ground arith in
          rw (gone, behind) refl
    ]

module _ {F : Type 0} where
  -- What a delivery leaves alone.
  abbrev KeepsTable : FrameReceiver F → FrameReceiver F → Type 0
  KeepsTable r t =
      (t.pending_frames ≡ r.pending_frames)
      × (t.next_deliver_frame_id ≡ r.next_deliver_frame_id)
      × (t.frame_ready_cb ≡ r.frame_ready_cb)

  update_completed_seq-KeepsTable :
      (r : FrameReceiver F) (f : PendingFrame)
      → KeepsTable r (update_completed_seq r f)
        × ((update_completed_seq r f).delivered ≡ r.delivered)
  unfolding update_completed_seq
  update_completed_seq-KeepsTable r f =
      both_branches (λ t. KeepsTable r t × (t.delivered ≡ r.delivered)) _ ((refl, refl, refl), refl)
        ((refl, refl, refl), refl)

  hand_over :
      (t : FrameReceiver F) (frame : Frame)
      → t.frame_ready_cb ≡ true
      → let u =
          if t.frame_ready_cb then (record t { delivered = t.delivered ++ (frame ∷ []) }) else t in
        KeepsTable t u × (u.delivered ≡ t.delivered ++ (frame ∷ []))
  hand_over t frame on =
      true_branch (λ u. KeepsTable t u × (u.delivered ≡ t.delivered ++ (frame ∷ [])))
        t.frame_ready_cb (record t { delivered = t.delivered ++ (frame ∷ []) }) t on
        ((refl, refl, refl), refl)

  deliver_frame_lem :
      (r : FrameReceiver F) (f : PendingFrame)
      → r.frame_ready_cb ≡ true
      → KeepsTable r (deliver_frame r f)
        × ((deliver_frame r f).delivered ≡ r.delivered ++ (assemble f ∷ []))
  unfolding deliver_frame
  deliver_frame_lem r f on =
      let counted = record r {
        counters = record r.counters {
          frames_completed = r.counters.frames_completed + 1;
          goodput_window_bytes = r.counters.goodput_window_bytes + f.frame_size;
        };
      } in
      let t = update_completed_seq counted f in
      let ((pending, next, ready), same) = update_completed_seq-KeepsTable counted f in
      let ((pending2, next2, ready2), more) = hand_over t (assemble f) (ready ∙ on) in
      (
        (pending2 ∙ pending, next2 ∙ next, ready2 ∙ ready),
        more ∙ ap (λ d. d ++ (assemble f ∷ [])) same,
      )

  -- Fuel of more than the frames in the table is enough.
  deliver_loop_lem :
      (fuel : ℕ) (r : FrameReceiver F) (table : Table)
      → ((id : ℕ) → find number_key r.pending_frames id ≡ table id)
      → length r.pending_frames < fuel
      → r.frame_ready_cb ≡ true
      → Delivery table r.next_deliver_frame_id r.delivered (deliver_loop fuel r)
  unfolding deliver_loop advance
  deliver_loop_lem zero r table same h on = absurd (omega arith)
  deliver_loop_lem (suc fuel) r table same h on = elim (Option-cases (at_cursor r)) [
    | inl none_there ↦
        rw (none_there, deliver_loop)
          record {
            frames = [];
            left = table;
            steps =
                Delivers.missing table r.next_deliver_frame_id
                  (sym (same r.next_deliver_frame_id) ∙ none_there);
            out = sym (append-nil r.delivered);
            table_left = same;
          }
    | inr (f, found) ↦
        let n = r.next_deliver_frame_id in
        let at : table n ≡ some f = sym (same n) ∙ found in
        let shorter = length-erase_lt number_key r.pending_frames n f found in
        let erased : (id : ℕ)
            → find number_key (erase number_key r.pending_frames n) id ≡ without table n id =
          λ id. find-without r.pending_frames table n id (same id) in
        rw (found, deliver_loop)
          (elim (Bool-cases f.discarded) [
            | inl given_up ↦
                let d =
                  deliver_loop_lem fuel (advance r) (without table n) erased (omega arith) on in
                rw given_up record {
                  frames = d.frames;
                  left = d.left;
                  steps =
                      Delivers.pass table d.left n
                        (deliver_loop fuel (advance r)).next_deliver_frame_id d.frames f at given_up
                        d.steps;
                  out = d.out;
                  table_left = d.table_left;
                }
            | inr kept ↦ elim (Bool-cases f.complete) [
              | inl done ↦
                  let t = deliver_frame r f in
                  let ((pending, next, ready), more) = deliver_frame_lem r f on in
                  let smaller : (advance t).pending_frames ≡ erase number_key r.pending_frames n =
                    ap (λ p. erase number_key p t.next_deliver_frame_id) pending
                    ∙ ap (λ k. erase number_key r.pending_frames k) next in
                  let count : length (advance t).pending_frames < fuel =
                    omega (arith, ap (λ (p : Assoc ℕ PendingFrame). length p) smaller) in
                  let found_left : (id : ℕ)
                      → find number_key (advance t).pending_frames id ≡ without table n id =
                    λ id. ap (λ p. find number_key p id) smaller ∙ erased id in
                  let d =
                    deliver_loop_lem fuel (advance t) (without table n) found_left count
                      (ready ∙ on) in
                  rw kept (
                    rw done record {
                      frames = assemble f ∷ d.frames;
                      left = d.left;
                      steps =
                          Delivers.hand table d.left n
                            (deliver_loop fuel (advance t)).next_deliver_frame_id d.frames f at kept
                            done
                            (subst
                              (λ k.
                                Delivers (without table n) (next_number k) d.frames d.left
                                  (deliver_loop fuel (advance t)).next_deliver_frame_id)
                              next d.steps);
                      out =
                          d.out
                          ∙ ap (λ x. x ++ d.frames) more
                          ∙ append_assoc r.delivered (assemble f ∷ []) d.frames;
                      table_left = d.table_left;
                    })
              | inr waits ↦ rw kept (
                  rw waits record {
                    frames = [];
                    left = table;
                    steps = Delivers.incomplete table n f at kept waits;
                    out = sym (append-nil r.delivered);
                    table_left = same;
                  })
            ]
          ])
  ]

  -- With a cursor and a callback for frames, every complete frame from the cursor on is handed over, in
  -- the order of the numbers and each once, where frames that have been given up are passed, up to the
  -- first that has not come or waits for blocks; the cursor then stands at its number, and the table has
  -- the frames that are neither handed over, nor passed, nor before the cursor.
  pub try_deliver_in_order-Delivery :
      (r : FrameReceiver F)
      → r.has_delivery_cursor ≡ true
      → r.frame_ready_cb ≡ true
      → Delivery (waiting r) r.next_deliver_frame_id r.delivered (try_deliver_in_order r)
  unfolding try_deliver_in_order
  try_deliver_in_order-Delivery r cursor on =
      let start = record r {
        pending_frames = drop_stale r.pending_frames r.next_deliver_frame_id;
      } in
      let fuel = length start.pending_frames + 1 in
      true_branch (Delivery (waiting r) r.next_deliver_frame_id r.delivered) r.has_delivery_cursor
        (deliver_loop fuel start) r cursor
        (deliver_loop_lem fuel start (waiting r) (find-waiting r) (omega arith) on)
