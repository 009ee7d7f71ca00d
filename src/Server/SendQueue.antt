-- ===== src/Server/SendQueue.antt =====
-- The sender of server/sfu_server/SfuConnManager.cpp: Send, SendQuick, the write watcher, and the loop
-- over the queue that WriteCb and DrainSendQueue share. The bytes that a call of `send` takes are the
-- `wire` of its result; a `SendAnswer` says what the kernel does in one call.
pub mod Order
pub mod Delivery
use tj_rtc.Prelude.{
  ℕ, zero, suc, ◌+◌, ◌-◌, ◌*◌, ◌/◌, ◌%◌, ◌^◌, ◌≤◌, ◌<◌, min, max, bit_and, bit_or, bit_xor, ◌≡◌,
  refl, sym, ap, subst, ◌∙◌, fun_ext, ◌≢◌, ◌↔◌, ◌⊎◌, inl, inr, Bool, true, false, not, ◌&&◌, ◌||◌,
  Option, none, some, List, [], ◌∷◌, ◌++◌, map, append-nil, append_assoc, arith, dec_lt, dec_le,
  ℕ_discrete, ltb, leb, ◌==◌, if◌then◌else◌, ltb→lt, lt→ltb, leb→le, ==_iff, tests, Bool-cases,
  Option-cases, length, get_elem?, set, take, drop, replicate, All, length-append, length-take,
  length-drop, take-append-drop, take-length_append, drop-length_append, ◌<<<◌, ◌>>>◌, shift_or,
  low_mask, disjoint_or, lt_wf,
}
use tj_rtc.Bytes.{write_be32}
use tj_rtc.Signal.Header.{make_header}

-- `accepted k`: `send` returns the least of `k` and the length. `would_block` is EAGAIN, `error`
-- another errno.
pub data SendAnswer : Type 0 where
  accepted : ℕ → SendAnswer
  would_block : SendAnswer
  error : SendAnswer

-- SendBufItem; `len` is the length of `content`.
pub record SendBufItem : Type 0 where
  pub content : List ℕ
  pub sent_bytes : ℕ

-- The sending part of ConnSession, with a loop. `is_open` is `fd >= 0`.
pub record ConnSession : Type 0 where
  pub is_tcp : Bool
  pub is_open : Bool
  pub send_queue : List SendBufItem
  pub has_write_watcher : Bool
  pub send_bytes : ℕ

-- uint64_t
abbrev pub add_bytes : ConnSession → ℕ → ConnSession
add_bytes s n = record s { send_bytes = (s.send_bytes + n) % 2 ^ 64 }

unfoldable pub enable_write_watcher : ConnSession → ConnSession
enable_write_watcher s = if s.has_write_watcher then s else (record s { has_write_watcher = true })

unfoldable pub disable_write_watcher : ConnSession → ConnSession
disable_write_watcher s =
    if s.has_write_watcher then (record s { has_write_watcher = false }) else s

-- What a call of Send leaves: the session, the bytes that went out, and whether it returns 0.
pub record Sent : Type 0 where
  pub session : ConnSession
  pub wire : List ℕ
  pub succeeded : Bool

-- The buffer of a TCP frame: the length is a uint32_t.
unfoldable pub tcp_buffer : ℕ → ℕ → List ℕ → List ℕ
tcp_buffer version msg_type payload =
    write_be32 ((1 + length payload) % 2 ^ 32) ++ (make_header version msg_type ∷ payload)

-- `::send` or `::sendto` of a whole buffer, whose result is only tested for an error.
abbrev pub send_now : ConnSession → SendAnswer → List ℕ → Sent
send_now s (accepted k) buf = record {
  session = add_bytes s (min k (length buf));
  wire = take k buf;
  succeeded = true;
}
send_now s would_block buf = record { session = s; wire = []; succeeded = false }
send_now s error buf = record { session = s; wire = []; succeeded = false }

abbrev pub enqueue : ConnSession → List ℕ → ConnSession
enqueue s buf = record s {
  send_queue = s.send_queue ++ (record { content = buf; sent_bytes = 0 } ∷ []);
}

-- Send, with the arguments in the order of the source; the answer is the kernel's, if it is asked.
unfoldable pub send : ConnSession → List ℕ → ℕ → ℕ → Bool → SendAnswer → Sent
unfolding tcp_buffer enable_write_watcher
send s payload msg_type version queued answer =
    if length payload == 0
    then (record { session = s; wire = []; succeeded = false })
    else if s.is_tcp
    then if queued
      then (record {
        session = enable_write_watcher (enqueue s (tcp_buffer version msg_type payload));
        wire = [];
        succeeded = true;
      })
      else send_now s answer (tcp_buffer version msg_type payload)
    else send_now s answer (make_header version msg_type ∷ payload)

unfoldable pub send_quick : ConnSession → List ℕ → ℕ → ℕ → SendAnswer → Sent
unfolding send
send_quick s payload msg_type version answer = send s payload msg_type version false answer

-- What the loop over the queue leaves: the queue, the bytes that went out, and whether `send` failed.
pub record Drained : Type 0 where
  pub queue : List SendBufItem
  pub wire : List ℕ
  pub failed : Bool

abbrev pub stop : List SendBufItem → Drained
stop queue = record { queue = queue; wire = []; failed = false }

abbrev pub after : List ℕ → Drained → Drained
after wire d = record d { wire = wire ++ d.wire }

-- The bytes of an item that `send` takes, and the item without them.
abbrev pub sent_part : ℕ → SendBufItem → List ℕ
sent_part k item = take k (drop item.sent_bytes item.content)

abbrev pub advance : ℕ → SendBufItem → SendBufItem
advance k item = record item {
  sent_bytes = item.sent_bytes + min k (length item.content - item.sent_bytes);
}

-- `while (!sendQueue.empty())`, one answer for each `send`. A list that ends stands for EAGAIN.
unfoldable pub drain : List SendAnswer → List SendBufItem → Drained
drain answers [] = stop []
drain [] (item ∷ queue) = stop (item ∷ queue)
drain (would_block ∷ answers) (item ∷ queue) = stop (item ∷ queue)
drain (error ∷ answers) (item ∷ queue) = record { queue = []; wire = []; failed = true }
drain (accepted k ∷ answers) (item ∷ queue) =
    let rest = drain answers queue in
    if (advance k item).sent_bytes == length item.content
    then after (sent_part k item) rest
    else after (sent_part k item) (stop (advance k item ∷ queue))

-- What a callback leaves. `disconnected`: OnDisconnect was called, and the session removed and freed.
pub record Written : Type 0 where
  pub session : ConnSession
  pub wire : List ℕ
  pub disconnected : Bool

abbrev pub is_empty : List SendBufItem → Bool
is_empty [] = true
is_empty (item ∷ queue) = false

abbrev pub drained : ConnSession → Drained → ConnSession
drained s d = add_bytes (record s { send_queue = d.queue }) (length d.wire)

-- WriteCb, for EV_WRITE.
unfoldable pub write_cb : List SendAnswer → ConnSession → Written
write_cb answers s =
    let d = drain answers s.send_queue in
    let next = drained s d in
    if d.failed
    then (record { session = record next { is_open = false }; wire = d.wire; disconnected = true })
    else (record {
      session = if is_empty d.queue then (record next { has_write_watcher = false }) else next;
      wire = d.wire;
      disconnected = false;
    })

-- DrainSendQueue leaves the session to ReadCb when `send` fails.
unfoldable pub drain_send_queue : List SendAnswer → ConnSession → Written
unfolding disable_write_watcher
drain_send_queue answers s =
    let d = drain answers s.send_queue in
    let next = drained s d in
    if d.failed
    then (record { session = record next { is_open = false }; wire = d.wire; disconnected = false })
    else (record {
      session = if is_empty d.queue then disable_write_watcher next else next;
      wire = d.wire;
      disconnected = false;
    })
