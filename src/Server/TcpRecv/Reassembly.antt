-- ===== src/Server/TcpRecv/Reassembly.antt =====
-- Frames are taken whole and in order from the stream, whatever pieces `recv` returns.
use tj_rtc.Prelude.{
  ℕ, ◌+◌, ◌≤◌, min, ◌≡◌, refl, sym, ap, subst, ◌∙◌, none, some, List, [], ◌∷◌, ◌++◌, append-nil,
  append_assoc, arith, length, All, length-append,
}
use tj_rtc.Server.TcpRecv.{
  Answer, got, again, closed, failed, TcpConn, turn, frame_events, tcp_recv_cb, run, accepted,
}
use tj_rtc.Bytes.{write_be32, length-write_be32}
use tj_rtc.Server.TcpRecv.Frames.{
  IsFrame, wire, all_events, Owes, in_prefix, in_payload, Serves, IsLive, bite, idle,
}
use tj_rtc.Server.TcpRecv.Callback.{tcp_recv_cb-Serves}

abbrev pub AllLive : List (Answer × Answer) → Type 0
AllLive [] = Unit
AllLive ((first, second) ∷ answers) = (IsLive first × IsLive second) × AllLive answers

-- The callbacks whose first `recv` finds bytes where there are any.
abbrev is_got : Answer → ℕ
is_got (got k) = 1
is_got again = 0
is_got closed = 0
is_got failed = 0

abbrev pub gots : List (Answer × Answer) → ℕ
gots [] = 0
gots ((first, second) ∷ answers) = is_got first + gots answers

bite-min :
    (answer : Answer) (stream : List ℕ) → bite answer stream ≡ min (is_got answer) (length stream)
bite-min (got k) [] = omega arith
bite-min (got k) (b ∷ stream) = omega arith
bite-min again stream = omega arith
bite-min closed stream = omega arith
bite-min failed stream = omega arith

all_events-append : (xs ys : List (List ℕ)) → all_events (xs ++ ys) ≡ all_events xs ++ all_events ys
unfolding all_events
all_events-append [] ys = refl
all_events-append (f ∷ xs) ys =
    rw (all_events-append xs ys)
      (sym (append_assoc (frame_events f) (all_events xs) (all_events ys)))

run-Serves :
    (answers : List (Answer × Answer)) (c : TcpConn) (stream : List ℕ) (frames : List (List ℕ))
    → AllLive answers
    → Owes c stream frames
    → Serves c stream frames (min (gots answers) (length stream)) (run answers (some c) stream)
unfolding run
run-Serves [] c stream frames live owed =
    subst (λ n. Serves c stream frames n (turn c [] stream)) (omega arith)
      (idle c stream frames owed)
run-Serves ((first, second) ∷ answers) c stream frames ((live, live_2), lives) owed =
    let s = tcp_recv_cb-Serves first second c stream frames live live_2 owed in
    let t =
      run-Serves answers s.next (tcp_recv_cb first second c stream).stream s.rest lives s.owed in
    rw s.conn_next (record {
      done = s.done ++ t.done;
      rest = t.rest;
      next = t.next;
      frames_split =
          s.frames_split
          ∙ (ap (λ r. s.done ++ r) t.frames_split ∙ sym (append_assoc s.done t.done t.rest));
      conn_next = t.conn_next;
      events_done = rw (s.events_done, t.events_done, all_events-append s.done t.done) refl;
      owed = t.owed;
      counted = omega (arith, s.counted, t.counted, length-append {0} s.done t.done);
      shorter = omega (arith, s.shorter, t.shorter, bite-min first stream);
    })

length-zero : (xs : List ℕ) → length xs ≡ 0 → xs ≡ []
length-zero [] h = refl
length-zero (x ∷ xs) h = absurd (omega (arith, h))

-- No frame is owed, and none is begun, where the socket is empty and none of the prefix was taken.
owed_empty :
    (c : TcpConn) (frames : List (List ℕ))
    → Owes c [] frames
    → (frames ≡ []) × (c.length_prefix ≡ []) × (c.recv_buf ≡ none)
unfolding wire
owed_empty c _ (in_prefix [] all b short e) = (refl, sym (append-nil c.length_prefix) ∙ e, b)
owed_empty c _ (in_prefix (f ∷ frames) all b short e) = absurd (
    omega (
      arith,
      ap (length {A = ℕ}) e,
      length-append {0} c.length_prefix [],
      length-append {0} (write_be32 (length f)) (f ++ wire frames),
      length-write_be32 (length f),
    ))
owed_empty c _ (in_payload f frames buf all b p len short e) = absurd (
    omega
      (arith, ap (length {A = ℕ}) e, length-append {0} buf [], length-append {0} f (wire frames)))

accepted-Owes : (frames : List (List ℕ)) → All IsFrame frames → Owes accepted (wire frames) frames
accepted-Owes frames all = in_prefix frames all refl (omega arith) refl

-- Of the frames that a peer sends, each of 1 to 1048576 bytes, the handler has seen a first part, in
-- order and each frame once, after any callbacks whose `recv` meets neither the end nor an error,
-- however the bytes are cut into pieces; and the connection is open.
run-wire :
    (frames : List (List ℕ)) (answers : List (Answer × Answer))
    → All IsFrame frames
    → AllLive answers
    → (done : List (List ℕ)) × (rest : List (List ℕ)) × (c : TcpConn) × (frames ≡ done ++ rest)
      × ((run answers (some accepted) (wire frames)).events ≡ all_events done)
      × ((run answers (some accepted) (wire frames)).conn ≡ some c)
      × (c.msgs_recv ≡ length done)
run-wire frames answers all live =
    let s = run-Serves answers accepted (wire frames) frames live (accepted-Owes frames all) in
    (s.done, s.rest, s.next, s.frames_split, s.events_done, s.conn_next, omega (arith, s.counted))

-- All frames, each of 1 to 1048576 bytes, reach the handler, in order and each once, and no byte is
-- left over, once as many callbacks have found bytes as the frames have on the wire, and no `recv` has
-- met the end or an error; the connection is open and waits for the next prefix.
pub run-wire_whole :
    (frames : List (List ℕ)) (answers : List (Answer × Answer))
    → All IsFrame frames
    → AllLive answers
    → length (wire frames) ≤ gots answers
    → ((run answers (some accepted) (wire frames)).events ≡ all_events frames)
      × ((run answers (some accepted) (wire frames)).stream ≡ [])
      × ((c : TcpConn) × ((run answers (some accepted) (wire frames)).conn ≡ some c)
          × (c.msgs_recv ≡ length frames)
          × (c.length_prefix ≡ [])
          × (c.recv_buf ≡ none))
run-wire_whole frames answers all live enough =
    let t = run answers (some accepted) (wire frames) in
    let s = run-Serves answers accepted (wire frames) frames live (accepted-Owes frames all) in
    let empty : t.stream ≡ [] = length-zero t.stream (omega (arith, s.shorter)) in
    let (none_left, prefix, buf) =
      owed_empty s.next s.rest (subst (λ z. Owes s.next z s.rest) empty s.owed) in
    let whole : s.done ≡ frames =
      sym (append-nil s.done) ∙ (ap (λ r. s.done ++ r) (sym none_left) ∙ sym s.frames_split) in
    (
      s.events_done ∙ ap all_events whole,
      empty,
      (s.next, s.conn_next, omega (arith, s.counted, ap (length {A = List ℕ}) whole), prefix, buf),
    )
