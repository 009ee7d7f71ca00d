-- ===== src/Server/TcpRecv/Frames.antt =====
-- The frames of a TCP stream, and what a connection that has taken a part of them still owes.
use tj_rtc.Prelude.{
  ℕ, ◌+◌, ◌/◌, ◌%◌, ◌^◌, ◌≤◌, ◌<◌, ◌≡◌, refl, sym, ◌∙◌, none, some, List, [], ◌∷◌, ◌++◌, append-nil,
  append_assoc, arith, length, take, drop, All, take-append-drop, take-length_append,
  drop-length_append,
}
use tj_rtc.Bytes.{write_be32, join32-sum}
use tj_rtc.Signal.Header.{read_tcp_frame_len, max_tcp_frame_bytes}
use tj_rtc.Server.TcpRecv.{
  Answer, got, again, closed, failed, Event, TcpConn, Turn, turn, frame_events, next_message,
  frame_len,
}

abbrev pub IsFrame : List ℕ → Type 0
IsFrame f = (1 ≤ length f) × (length f ≤ max_tcp_frame_bytes)

-- The frames on the wire: a length and as many bytes for each.
unfoldable pub wire : List (List ℕ) → List ℕ
wire [] = []
wire (f ∷ frames) = write_be32 (length f) ++ (f ++ wire frames)

-- What the handler is to see of the frames.
unfoldable pub all_events : List (List ℕ) → List Event
all_events [] = []
all_events (f ∷ frames) = frame_events f ++ all_events frames

-- The connection has taken a part of the prefix, or the prefix and a part of the frame, and `frames`
-- are still to come: the part and the bytes on the socket make them up.
pub data Owes (c : TcpConn) (stream : List ℕ) : List (List ℕ) → Type 0 where
  in_prefix :
      (frames : List (List ℕ))
      → All IsFrame frames
      → c.recv_buf ≡ none
      → length c.length_prefix < 4
      → c.length_prefix ++ stream ≡ wire frames
      → Owes c stream frames
  in_payload :
      (f : List ℕ) (frames : List (List ℕ)) (buf : List ℕ)
      → All IsFrame (f ∷ frames)
      → c.recv_buf ≡ some buf
      → length c.length_prefix ≡ 4
      → c.all_len ≡ length f
      → length buf < length f
      → buf ++ stream ≡ f ++ wire frames
      → Owes c stream (f ∷ frames)

-- A callback has served the frames `done`, has taken `taken` bytes at least, and owes the rest.
pub record Serves (c : TcpConn) (stream : List ℕ) (frames : List (List ℕ)) (taken : ℕ) (t : Turn)
    : Type 0 where
  pub done : List (List ℕ)
  pub rest : List (List ℕ)
  pub next : TcpConn
  pub frames_split : frames ≡ done ++ rest
  pub conn_next : t.conn ≡ some next
  pub events_done : t.events ≡ all_events done
  pub owed : Owes next t.stream rest
  pub counted : next.msgs_recv ≡ c.msgs_recv + length done
  pub shorter : length t.stream + taken ≤ length stream

abbrev pub IsLive : Answer → Type 0
IsLive (got k) = Unit
IsLive again = Unit
IsLive closed = ⊥
IsLive failed = ⊥

abbrev pub bite : Answer → List ℕ → ℕ
bite (got k) [] = 0
bite (got k) (b ∷ stream) = 1
bite again stream = 0
bite closed stream = 0
bite failed stream = 0

pub frame_len-write_be32 : (n : ℕ) → n < 2 ^ 32 → frame_len (write_be32 n) ≡ n
unfolding frame_len write_be32 read_tcp_frame_len
frame_len-write_be32 n h = omega (
  arith,
  join32-sum (n / 2 ^ 24 % 256) (n / 2 ^ 16 % 256) (n / 256 % 256) (n % 256) (omega arith)
      (omega arith) (omega arith),
)

-- Two equal sequences, cut at the same length.
pub append_cut :
    (xs ys us vs : List ℕ) → xs ++ ys ≡ us ++ vs → length xs ≡ length us → (xs ≡ us) × (ys ≡ vs)
append_cut xs ys us vs e h = (
  sym (take-length_append xs ys) ∙ rw (h, e) (take-length_append us vs),
  sym (drop-length_append xs ys) ∙ rw (h, e) (drop-length_append us vs),
)

pub append_take :
    (n : ℕ) (xs stream ys : List ℕ)
    → xs ++ stream ≡ ys
    → (xs ++ take n stream) ++ drop n stream ≡ ys
append_take n xs stream ys e = rw (append_assoc, take-append-drop n stream) e

pub idle :
    (c : TcpConn) (stream : List ℕ) (frames : List (List ℕ))
    → Owes c stream frames
    → Serves c stream frames 0 (turn c [] stream)
unfolding all_events
idle c stream frames owed = record {
  done = [];
  rest = frames;
  next = c;
  frames_split = refl;
  conn_next = refl;
  events_done = refl;
  owed = owed;
  counted = omega arith;
  shorter = omega arith;
}

-- Nothing is owed where a connection waits for a prefix.
pub after_frame :
    (c : TcpConn) (f : List ℕ) (frames : List (List ℕ)) (stream : List ℕ) (n taken : ℕ)
    → All IsFrame frames
    → stream ≡ wire frames
    → length stream + taken ≤ n
    → (before : List ℕ) → length before ≡ n
    → Serves c before (f ∷ frames) taken (turn (next_message c) (frame_events f) stream)
unfolding all_events
after_frame c f frames stream n taken all e le before size = record {
  done = f ∷ [];
  rest = frames;
  next = next_message c;
  frames_split = refl;
  conn_next = refl;
  events_done = sym (append-nil (frame_events f));
  owed = in_prefix frames all refl (omega arith) e;
  counted = omega arith;
  shorter = omega arith;
}
