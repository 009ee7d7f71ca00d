-- ===== src/Server/SendQueue/Delivery.antt =====
-- What is queued by Send and goes out by WriteCb is what the receiver of a TCP frame dispatches.
use tj_rtc.Prelude.{
  ℕ, suc, ◌+◌, ◌%◌, ◌^◌, ◌≤◌, ◌<◌, ◌≡◌, refl, sym, ap, subst, ◌∙◌, inl, inr, true, false, some,
  List, [], ◌∷◌, ◌++◌, map, append-nil, append_assoc, arith, ◌==◌, Bool-cases, length, drop, All,
  length-append,
}
use tj_rtc.Bytes.{write_be32}
use native.Mathlib.Nat.{mod-eq_of_lt}
use tj_rtc.Signal.Header.{protocol_version, make_header, header_fields, max_tcp_frame_bytes}
use tj_rtc.Server.SendQueue.{
  SendAnswer, would_block, SendBufItem, ConnSession, tcp_buffer, enqueue, enable_write_watcher,
  send, write_cb,
}
use tj_rtc.Server.SendQueue.Order.{unsent, IsWaiting, write_cb-order}
use tj_rtc.Server.TcpRecv.{Answer, Event, dispatch_message, frame_events, run}
use tj_rtc.Server.TcpRecv as TcpRecv
use tj_rtc.Server.TcpRecv.Frames.{IsFrame, wire, all_events}
use tj_rtc.Server.TcpRecv.Reassembly.{AllLive, gots, run-wire_whole}

-- A message: its type and its payload, which is not empty and fits a frame.
abbrev pub Message : Type 0
Message = ℕ × List ℕ

abbrev pub IsMessage : Message → Type 0
IsMessage (msg_type, payload) =
    (msg_type < 16) × (1 ≤ length payload) × (1 + length payload ≤ max_tcp_frame_bytes)

-- Queued sends, one after the other.
unfoldable pub send_all : ConnSession → List Message → ConnSession
send_all s [] = s
send_all s ((msg_type, payload) ∷ messages) =
    send_all (send s payload msg_type protocol_version true would_block).session messages

abbrev pub frame_of : Message → List ℕ
frame_of (msg_type, payload) = make_header protocol_version msg_type ∷ payload

unfoldable pub dispatched : List Message → List Event
dispatched [] = []
dispatched ((msg_type, payload) ∷ messages) =
    dispatch_message msg_type payload ++ dispatched messages

unsent-append : (xs ys : List SendBufItem) → unsent (xs ++ ys) ≡ unsent xs ++ unsent ys
unfolding unsent
unsent-append [] ys = refl
unsent-append (x ∷ xs) ys =
    rw (unsent-append xs ys)
      (sym (append_assoc (drop x.sent_bytes x.content) (unsent xs) (unsent ys)))

IsWaiting-append :
    (xs ys : List SendBufItem) → All IsWaiting xs → All IsWaiting ys → All IsWaiting (xs ++ ys)
IsWaiting-append [] ys h k = k
IsWaiting-append (x ∷ xs) ys (h, hs) k = (h, IsWaiting-append xs ys hs k)

abbrev pub item_of : Message → SendBufItem
item_of m = record { content = write_be32 (length (frame_of m)) ++ frame_of m; sent_bytes = 0 }

enable-fields :
    (s : ConnSession)
    → ((enable_write_watcher s).send_queue ≡ s.send_queue)
      × ((enable_write_watcher s).is_tcp ≡ s.is_tcp)
unfolding enable_write_watcher
enable-fields s = elim (Bool-cases s.has_write_watcher) [
  | inl on ↦ rw on (refl, refl)
  | inr off ↦ rw off (refl, refl)
]

send-session :
    (s : ConnSession) (msg_type : ℕ) (payload : List ℕ)
    → s.is_tcp ≡ true
    → 1 ≤ length payload
    → (send s payload msg_type protocol_version true would_block).session
      ≡ enable_write_watcher (enqueue s (tcp_buffer protocol_version msg_type payload))
unfolding send
send-session s msg_type payload tcp full =
    let nonempty : (length payload == 0) ≡ false = ground arith in simp (nonempty, tcp) refl

-- The session after one queued send.
send-queue :
    (s : ConnSession) (msg_type : ℕ) (payload : List ℕ)
    → s.is_tcp ≡ true
    → IsMessage (msg_type, payload)
    → let next = (send s payload msg_type protocol_version true would_block).session in
      (next.send_queue ≡ s.send_queue ++ (item_of (msg_type, payload) ∷ [])) × (next.is_tcp ≡ true)
unfolding tcp_buffer
send-queue s msg_type payload tcp (small, full, fits) =
    let len : (1 + length payload) % 2 ^ 32 ≡ suc (length payload) = omega arith in
    let buf = tcp_buffer protocol_version msg_type payload in
    let (queue, same) = enable-fields (enqueue s buf) in
    let session = send-session s msg_type payload tcp full in
    (
      ap (λ t. t.send_queue) session
          ∙ (queue
              ∙ ap
                  (λ n.
                    s.send_queue
                    ++ (record {
                      content = write_be32 n ++ frame_of (msg_type, payload);
                      sent_bytes = 0;
                    }
                        ∷ []))
                  len),
      ap (λ t. t.is_tcp) session ∙ (same ∙ tcp),
    )

-- Messages are queued as frames, each behind the ones before it.
pub send_all-wire :
    (s : ConnSession) (messages : List Message)
    → s.is_tcp ≡ true
    → All IsWaiting s.send_queue
    → All IsMessage messages
    → (unsent (send_all s messages).send_queue
        ≡ unsent s.send_queue ++ wire (map frame_of messages))
      × All IsWaiting (send_all s messages).send_queue
unfolding send_all wire unsent
send_all-wire s [] tcp waiting all = (sym (append-nil (unsent s.send_queue)), waiting)
send_all-wire s ((msg_type, payload) ∷ messages) tcp waiting (first, all) =
    let m : Message = (msg_type, payload) in
    let next = (send s payload msg_type protocol_version true would_block).session in
    let (queue, still) = send-queue s msg_type payload tcp first in
    let size = length-append {0} (write_be32 (length (frame_of m))) (frame_of m) in
    let now : All IsWaiting next.send_queue =
      rw queue (IsWaiting-append s.send_queue (item_of m ∷ []) waiting (omega arith, tt)) in
    let (rest, later) = send_all-wire next messages still now all in
    (
      rest
          ∙ (ap (λ q. unsent q ++ wire (map frame_of messages)) queue
              ∙ simp (unsent-append, append_assoc) refl),
      later,
    )

frames_of-IsFrame :
    (messages : List Message) → All IsMessage messages → All IsFrame (map frame_of messages)
frames_of-IsFrame [] all = tt
frames_of-IsFrame ((msg_type, payload) ∷ messages) ((small, full, fits), all) =
    ((omega arith, omega arith), frames_of-IsFrame messages all)

frame_events-frame_of :
    (msg_type : ℕ) (payload : List ℕ)
    → msg_type < 16
    → frame_events (frame_of (msg_type, payload)) ≡ dispatch_message msg_type payload
unfolding frame_events
frame_events-frame_of msg_type payload small =
    let (version, kind, byte) = header_fields protocol_version msg_type in
    rw (version, kind, mod-eq_of_lt small) refl

all_events-frames_of :
    (messages : List Message)
    → All IsMessage messages
    → all_events (map frame_of messages) ≡ dispatched messages
unfolding all_events dispatched
all_events-frames_of [] all = refl
all_events-frames_of ((msg_type, payload) ∷ messages) ((small, full, fits), all) =
    rw (frame_events-frame_of msg_type payload small, all_events-frames_of messages all) refl

-- Messages that Send queues on an idle TCP session, of a type below 16 and with 1 to 1048575 bytes,
-- reach the handler of the receiver, each once, unchanged and in order, if a WriteCb has emptied the
-- queue without an error and as many callbacks of the receiver have found bytes as were sent, none of
-- them meeting the end or an error, however `recv` cuts the bytes.
pub send-delivery :
    (s : ConnSession) (messages : List Message) (writes : List SendAnswer)
    (answers : List (Answer × Answer))
    → s.is_tcp ≡ true
    → s.send_queue ≡ []
    → All IsMessage messages
    → (write_cb writes (send_all s messages)).disconnected ≡ false
    → (write_cb writes (send_all s messages)).session.send_queue ≡ []
    → AllLive answers
    → length (write_cb writes (send_all s messages)).wire ≤ gots answers
    → (run answers (some TcpRecv.accepted) (write_cb writes (send_all s messages)).wire).events
      ≡ dispatched messages
unfolding unsent
send-delivery s messages writes answers tcp idle all up drained live enough =
    let frames = map frame_of messages in
    let w = write_cb writes (send_all s messages) in
    let (queued, waiting) =
      send_all-wire s messages tcp (subst (All IsWaiting) (sym idle) tt) all in
    let (lost, order, later, lossless, count, watcher) =
      write_cb-order writes (send_all s messages) waiting in
    let nothing_left : unsent w.session.send_queue ++ lost ≡ [] = rw (drained, lossless up) refl in
    let sent : w.wire ≡ wire frames =
      sym (append-nil w.wire)
      ∙ (subst (λ z. w.wire ++ z ≡ unsent (send_all s messages).send_queue) nothing_left order
          ∙ (queued ∙ ap (λ q. unsent q ++ wire frames) idle)) in
    let (events, stream, conn) =
      run-wire_whole frames answers (frames_of-IsFrame messages all) live
        (subst (λ b. length b ≤ gots answers) sent enough) in
    subst (λ b. (run answers (some TcpRecv.accepted) b).events ≡ dispatched messages) (sym sent)
      (events ∙ all_events-frames_of messages all)
