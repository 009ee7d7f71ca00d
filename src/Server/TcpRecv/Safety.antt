-- ===== src/Server/TcpRecv/Safety.antt =====
-- What holds of a connection whatever its peer sends: the length prefix bounds every buffer.
use tj_rtc.Prelude.{
  ℕ, ◌+◌, ◌-◌, ◌≤◌, ◌<◌, min, ◌≡◌, refl, sym, subst, inl, inr, true, false, ◌&&◌, Option, none,
  some, List, [], ◌∷◌, ◌++◌, arith, ltb, leb, ◌==◌, lt→ltb, ==_iff, Bool-cases, length, take, drop,
  length-append, length-take,
}
use tj_rtc.Signal.Header.{is_valid_tcp_frame_len, max_tcp_frame_bytes}
use tj_rtc.Server.TcpRecv.{
  Answer, got, again, closed, failed, recv, Event, disconnect, TcpConn, Turn, recv_payload,
  frame_len, recv_prefix, tcp_recv_cb, run, accepted,
}

-- Without a buffer the prefix is not whole. With one it is, and the frame is not, and the buffer
-- has no more than 1048576 bytes.
abbrev pub Bounded : List ℕ → Option (List ℕ) → ℕ → Type 0
Bounded prefix none all_len = length prefix < 4
Bounded prefix (some buf) all_len =
    (length prefix ≡ 4) × (length buf < all_len) × (all_len ≤ max_tcp_frame_bytes)

abbrev pub IsBounded : TcpConn → Type 0
IsBounded c = Bounded c.length_prefix c.recv_buf c.all_len

abbrev pub Kept : Option TcpConn → List Event → Type 0
Kept none events = events ≡ disconnect ∷ []
Kept (some c) events = IsBounded c

abbrev pub Keeps : Turn → Type 0
Keeps t = Kept t.conn t.events

payload_Keeps :
    (answer : Answer) (c : TcpConn) (buf stream : List ℕ)
    → length c.length_prefix ≡ 4
    → length buf < c.all_len
    → c.all_len ≤ max_tcp_frame_bytes
    → Bounded c.length_prefix c.recv_buf c.all_len
    → Keeps (recv_payload answer c (some buf) stream)
unfolding recv
payload_Keeps closed c buf stream p short le safe = rw (lt→ltb (length buf) c.all_len short) refl
payload_Keeps failed c buf stream p short le safe = rw (lt→ltb (length buf) c.all_len short) refl
payload_Keeps again c buf stream p short le safe = rw (lt→ltb (length buf) c.all_len short) safe
payload_Keeps (got k) c buf [] p short le safe = rw (lt→ltb (length buf) c.all_len short) safe
payload_Keeps (got k) c buf (x ∷ xs) p short le safe =
    let n : ℕ = min (c.all_len - length buf) (k + 1) in
    let more : List ℕ = take n (x ∷ xs) in
    let size : length (buf ++ more) ≡ length buf + min n (length (x ∷ xs)) =
      omega (arith, length-append {0} buf more, length-take n (x ∷ xs)) in
    rw (lt→ltb (length buf) c.all_len short)
      (elim (Bool-cases (length (buf ++ more) == c.all_len)) [
        | inl whole ↦ rw whole (omega arith)
        | inr part ↦ rw part (p, ground (arith, part), le)
      ])

prefix_Keeps :
    (first second : Answer) (c : TcpConn) (stream : List ℕ)
    → c.recv_buf ≡ none
    → length c.length_prefix < 4
    → Keeps (recv_prefix first second c stream)
unfolding recv is_valid_tcp_frame_len
prefix_Keeps closed second c stream b short = rw (lt→ltb (length c.length_prefix) 4 short) refl
prefix_Keeps failed second c stream b short = rw (lt→ltb (length c.length_prefix) 4 short) refl
prefix_Keeps again second c stream b short = rw (lt→ltb (length c.length_prefix) 4 short, b) short
prefix_Keeps (got k) second c [] b short = rw (lt→ltb (length c.length_prefix) 4 short, b) short
prefix_Keeps (got k) second c (x ∷ xs) b short =
    let n : ℕ = min (4 - length c.length_prefix) (k + 1) in
    let prefix : List ℕ = c.length_prefix ++ take n (x ∷ xs) in
    let size : length prefix ≡ length c.length_prefix + min n (length (x ∷ xs)) =
      omega (arith, length-append {0} c.length_prefix (take n (x ∷ xs)), length-take n (x ∷ xs)) in
    rw (lt→ltb (length c.length_prefix) 4 short) (elim (Bool-cases (length prefix == 4)) [
      | inl whole ↦
          let (is_eq, is_test) = ==_iff (length prefix) 4 in
          rw whole
            (elim (Bool-cases
              (leb 1 (frame_len prefix) && leb (frame_len prefix) max_tcp_frame_bytes)) [
                | inl valid ↦ rw valid (
                    payload_Keeps second
                      (record c {
                        length_prefix = prefix;
                        recv_buf = some [];
                        all_len = frame_len prefix;
                      })
                      [] (drop n (x ∷ xs)) (is_eq whole) (ground (arith, valid))
                      (ground (arith, valid))
                      (is_eq whole, ground (arith, valid), ground (arith, valid)))
                | inr invalid ↦ rw invalid refl
              ])
      | inr part ↦ rw (part, b) (ground (arith, part))
    ])

recv_prefix-Keeps :
    (first second : Answer) (c : TcpConn) (prefix : List ℕ) (buf : Option (List ℕ)) (all_len : ℕ)
    (stream : List ℕ)
    → c.length_prefix ≡ prefix
    → c.recv_buf ≡ buf
    → c.all_len ≡ all_len
    → Bounded prefix buf all_len
    → Keeps (recv_prefix first second c stream)
recv_prefix-Keeps first second c prefix none all_len stream p b l h =
    prefix_Keeps first second c stream b (rw p h)
recv_prefix-Keeps first second c prefix (some buf) all_len stream p b l (four, short, le) =
    let long : ltb (length c.length_prefix) 4 ≡ false = rw p (ground (arith, four)) in
    let size : length c.length_prefix ≡ 4 = rw p four in
    let kept =
      payload_Keeps first c buf stream size (rw l short) (rw l le)
        (rw b (size, rw l short, rw l le)) in
    rw long (subst (λ o. Keeps (recv_payload first c o stream)) (sym b) kept)

-- A callback keeps the buffer of an open connection below its length, which is at most 1048576, or
-- it closes the connection with one `disconnect` and no message; for every stream and every answer.
pub tcp_recv_cb-IsBounded :
    (first second : Answer) (c : TcpConn) (stream : List ℕ)
    → IsBounded c
    → Keeps (tcp_recv_cb first second c stream)
unfolding tcp_recv_cb
tcp_recv_cb-IsBounded first second c stream h =
    recv_prefix-Keeps first second (record c { session = true }) c.length_prefix c.recv_buf
      c.all_len stream refl refl refl h

-- The connection that a run leaves open is bounded.
abbrev pub OpenBounded : Option TcpConn → Type 0
OpenBounded none = Unit
OpenBounded (some c) = IsBounded c

run-step :
    (answers : List (Answer × Answer)) (o : Option TcpConn) (events : List Event) (stream : List ℕ)
    → ((c : TcpConn) (s : List ℕ) → IsBounded c → OpenBounded (run answers (some c) s).conn)
    → Kept o events
    → OpenBounded (run answers o stream).conn
unfolding run
run-step answers none events stream further kept = tt
run-step answers (some c) events stream further kept = further c stream kept

run-IsBounded_from :
    (answers : List (Answer × Answer)) (c : TcpConn) (stream : List ℕ)
    → IsBounded c
    → OpenBounded (run answers (some c) stream).conn
unfolding run
run-IsBounded_from [] c stream h = h
run-IsBounded_from ((first, second) ∷ answers) c stream h =
    let t = tcp_recv_cb first second c stream in
    run-step answers t.conn t.events t.stream (run-IsBounded_from answers)
      (tcp_recv_cb-IsBounded first second c stream h)

-- Whatever bytes a peer sends and however they arrive, an accepted connection that is still open has
-- a bounded buffer.
pub run-IsBounded :
    (answers : List (Answer × Answer)) (stream : List ℕ)
    → OpenBounded (run answers (some accepted) stream).conn
run-IsBounded answers stream = run-IsBounded_from answers accepted stream (omega arith)
