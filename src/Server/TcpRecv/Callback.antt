-- ===== src/Server/TcpRecv/Callback.antt =====
-- One callback takes the next piece of the stream and serves a frame when it is whole.
use tj_rtc.Prelude.{
  ℕ, ◌+◌, ◌-◌, ◌≤◌, ◌<◌, min, ◌≡◌, refl, sym, ap, subst, ◌∙◌, inl, inr, true, false, ◌&&◌, none,
  some, List, [], ◌∷◌, ◌++◌, arith, ltb, leb, ◌==◌, if◌then◌else◌, lt→ltb, ==_iff, Bool-cases,
  length, take, drop, All, length-append, length-take, length-drop,
}
use tj_rtc.Bytes.{write_be32, length-write_be32}
use tj_rtc.Signal.Header.{is_valid_tcp_frame_len, max_tcp_frame_bytes}
use tj_rtc.Server.TcpRecv.{
  close_tcp_conn, Answer, got, again, closed, failed, recv, TcpConn, Turn, turn, recv_payload,
  frame_len, recv_prefix, tcp_recv_cb,
}
use tj_rtc.Server.TcpRecv.Frames.{
  IsFrame, wire, all_events, Owes, in_prefix, in_payload, Serves, IsLive, bite,
  frame_len-write_be32, append_cut, append_take, idle, after_frame,
}

part_Serves :
    (c : TcpConn) (f : List ℕ) (frames : List (List ℕ)) (buf before stream : List ℕ) (taken : ℕ)
    → All IsFrame (f ∷ frames)
    → length c.length_prefix ≡ 4
    → c.all_len ≡ length f
    → length buf < length f
    → buf ++ stream ≡ f ++ wire frames
    → length stream + taken ≤ length before
    → Serves c before (f ∷ frames) taken (turn (record c { recv_buf = some buf }) [] stream)
unfolding all_events
part_Serves c f frames buf before stream taken all p len short e le = record {
  done = [];
  rest = f ∷ frames;
  next = record c { recv_buf = some buf };
  frames_split = refl;
  conn_next = refl;
  events_done = refl;
  owed = in_payload f frames buf all refl p len short e;
  counted = omega arith;
  shorter = le;
}

-- `recv` on a frame whose prefix is known.
payload_Serves :
    (answer : Answer) (c : TcpConn) (f : List ℕ) (frames : List (List ℕ)) (buf stream : List ℕ)
    → IsLive answer
    → All IsFrame (f ∷ frames)
    → c.recv_buf ≡ some buf
    → length c.length_prefix ≡ 4
    → c.all_len ≡ length f
    → length buf < length f
    → buf ++ stream ≡ f ++ wire frames
    → Serves c stream (f ∷ frames) (bite answer stream) (recv_payload answer c (some buf) stream)
unfolding recv
payload_Serves closed c f frames buf stream live all b p len short e = elim live [ ]
payload_Serves failed c f frames buf stream live all b p len short e = elim live [ ]
payload_Serves again c f frames buf stream live all b p len short e =
    rw (lt→ltb (length buf) c.all_len (omega arith))
      (idle c stream (f ∷ frames) (in_payload f frames buf all b p len short e))
payload_Serves (got k) c f frames buf [] live all b p len short e =
    rw (lt→ltb (length buf) c.all_len (omega arith))
      (idle c [] (f ∷ frames) (in_payload f frames buf all b p len short e))
payload_Serves (got k) c f frames buf (x ∷ xs) live all b p len short e =
    let stream : List ℕ = x ∷ xs in
    let n : ℕ = min (c.all_len - length buf) (k + 1) in
    let more : List ℕ = take n stream in
    let now : (buf ++ more) ++ drop n stream ≡ f ++ wire frames =
      append_take n buf stream (f ++ wire frames) e in
    let size : length (buf ++ more) ≡ length buf + min n (length stream) =
      omega (arith, length-append {0} buf more, length-take n stream) in
    let left : length (drop n stream) ≡ length stream - n = length-drop n stream in
    rw (lt→ltb (length buf) c.all_len (omega arith))
      (elim (Bool-cases (length (buf ++ more) == c.all_len)) [
        | inl whole ↦
            let (is_eq, is_test) = ==_iff (length (buf ++ more)) c.all_len in
            let (is_frame, next) =
              append_cut (buf ++ more) (drop n stream) f (wire frames) now (is_eq whole ∙ len) in
            let (first, others) = all in
            rw (whole, is_frame)
              (after_frame c f frames (drop n stream) (length stream) 1 others next (omega arith)
                stream refl)
        | inr part ↦ rw part (
            part_Serves c f frames (buf ++ more) stream (drop n stream) 1 all p len
              (ground (arith, part)) now (omega arith))
      ])

-- The second `recv` of a callback goes on where the first one stopped.
go_on :
    (c now : TcpConn) (before stream : List ℕ) (frames : List (List ℕ)) (taken more : ℕ) (t : Turn)
    → now.msgs_recv ≡ c.msgs_recv
    → length stream + taken ≤ length before + more
    → Serves now stream frames more t
    → Serves c before frames taken t
go_on c now before stream frames taken more t same le s = record {
  done = s.done;
  rest = s.rest;
  next = s.next;
  frames_split = s.frames_split;
  conn_next = s.conn_next;
  events_done = s.events_done;
  owed = s.owed;
  counted = omega (arith, s.counted, same);
  shorter = omega (arith, s.shorter, le);
}

-- A whole prefix is the length of the next frame, which is valid.
whole_prefix :
    (second : Answer) (c : TcpConn) (frames : List (List ℕ)) (prefix before stream : List ℕ)
    → IsLive second
    → All IsFrame frames
    → length prefix ≡ 4
    → prefix ++ stream ≡ wire frames
    → length stream + 1 ≤ length before
    → Serves c before frames 1 (
        if is_valid_tcp_frame_len (frame_len prefix)
        then recv_payload second
            (record c { length_prefix = prefix; recv_buf = some []; all_len = frame_len prefix })
            (some [])
            stream
        else close_tcp_conn stream)
unfolding wire is_valid_tcp_frame_len
whole_prefix second c [] prefix before stream live all four e le =
    absurd (omega (arith, length-append {0} prefix stream, ap (length {A = ℕ}) e))
whole_prefix second c (f ∷ frames) prefix before stream live all four e le =
    let ((low, high), others) = all in
    let (is_len, next) =
      append_cut prefix stream (write_be32 (length f)) (f ++ wire frames) e
        (four ∙ sym (length-write_be32 (length f))) in
    let len : frame_len prefix ≡ length f =
      rw is_len (frame_len-write_be32 (length f) (omega arith)) in
    let valid : (leb 1 (frame_len prefix) && leb (frame_len prefix) max_tcp_frame_bytes) ≡ true =
      ground arith in
    let now : TcpConn = record c {
      length_prefix = prefix;
      recv_buf = some [];
      all_len = frame_len prefix;
    } in
    rw valid (
      go_on c now before stream (f ∷ frames) 1 (bite second stream)
        (recv_payload second now (some []) stream) refl (omega arith)
        (payload_Serves second now f frames [] stream live all refl four len (omega arith) next))

more_prefix :
    (second : Answer) (c : TcpConn) (frames : List (List ℕ)) (prefix before stream : List ℕ)
    (taken : ℕ)
    → All IsFrame frames
    → c.recv_buf ≡ none
    → length prefix < 4
    → prefix ++ stream ≡ wire frames
    → length stream + taken ≤ length before
    → Serves c before frames taken
        (recv_payload second (record c { length_prefix = prefix }) c.recv_buf stream)
unfolding all_events
more_prefix second c frames prefix before stream taken all b short e le =
    let now : TcpConn = record c { length_prefix = prefix } in
    subst (λ o. Serves c before frames taken (recv_payload second now o stream)) (sym b)
      (record {
        done = [];
        rest = frames;
        next = now;
        frames_split = refl;
        conn_next = refl;
        events_done = refl;
        owed = in_prefix frames all b short e;
        counted = omega arith;
        shorter = le;
      })

prefix_Serves :
    (first second : Answer) (c : TcpConn) (frames : List (List ℕ)) (stream : List ℕ)
    → IsLive first
    → IsLive second
    → All IsFrame frames
    → c.recv_buf ≡ none
    → length c.length_prefix < 4
    → c.length_prefix ++ stream ≡ wire frames
    → Serves c stream frames (bite first stream) (recv_prefix first second c stream)
unfolding recv
prefix_Serves closed second c frames stream live live_2 all b short e = elim live [ ]
prefix_Serves failed second c frames stream live live_2 all b short e = elim live [ ]
prefix_Serves again second c frames stream live live_2 all b short e =
    rw (lt→ltb (length c.length_prefix) 4 short)
      (idle c stream frames (in_prefix frames all b short e))
prefix_Serves (got k) second c frames [] live live_2 all b short e =
    rw (lt→ltb (length c.length_prefix) 4 short) (idle c [] frames (in_prefix frames all b short e))
prefix_Serves (got k) second c frames (x ∷ xs) live live_2 all b short e =
    let stream : List ℕ = x ∷ xs in
    let n : ℕ = min (4 - length c.length_prefix) (k + 1) in
    let prefix : List ℕ = c.length_prefix ++ take n stream in
    let now : prefix ++ drop n stream ≡ wire frames =
      append_take n c.length_prefix stream (wire frames) e in
    let size : length prefix ≡ length c.length_prefix + min n (length stream) =
      omega (arith, length-append {0} c.length_prefix (take n stream), length-take n stream) in
    let left : length (drop n stream) ≡ length stream - n = length-drop n stream in
    rw (lt→ltb (length c.length_prefix) 4 short) (elim (Bool-cases (length prefix == 4)) [
      | inl whole ↦
          let (is_eq, is_test) = ==_iff (length prefix) 4 in
          rw whole (
            whole_prefix second c frames prefix stream (drop n stream) live_2 all (is_eq whole) now
              (omega arith))
      | inr part ↦ rw part (
          more_prefix second c frames prefix stream (drop n stream) 1 all b (ground (arith, part))
            now (omega arith))
    ])

-- One callback of an open connection on which `recv` meets neither the end nor an error.
pub tcp_recv_cb-Serves :
    (first second : Answer) (c : TcpConn) (stream : List ℕ) (frames : List (List ℕ))
    → IsLive first
    → IsLive second
    → Owes c stream frames
    → Serves c stream frames (bite first stream) (tcp_recv_cb first second c stream)
unfolding tcp_recv_cb
tcp_recv_cb-Serves first second c stream frames live live_2 (in_prefix _ all b short e) =
    let now : TcpConn = record c { session = true } in
    go_on c now stream stream frames (bite first stream) (bite first stream) _ refl (omega arith)
      (prefix_Serves first second now frames stream live live_2 all b short e)
tcp_recv_cb-Serves first second c stream _ live live_2
      (in_payload f frames buf all b p len short e) =
    let now : TcpConn = record c { session = true } in
    let four : ltb (length c.length_prefix) 4 ≡ false = ground (arith, p) in
    let served = payload_Serves first now f frames buf stream live all b p len short e in
    rw four (
      go_on c now stream stream (f ∷ frames) (bite first stream) (bite first stream)
        (recv_payload first now c.recv_buf stream) refl (omega arith)
        (subst
          (λ o.
            Serves now stream (f ∷ frames) (bite first stream) (recv_payload first now o stream))
          (sym b) served))
