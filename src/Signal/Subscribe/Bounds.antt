-- ===== src/Signal/Subscribe/Bounds.antt =====
-- The parsers of SfuSubscribeProtocol.h read no byte past the end of the message.
use tj_rtc.Prelude.{ℕ, ◌-◌, ◌≢◌, List, arith}
use tj_rtc.Bytes.{
  fault, result, Reads, return-Reads, next_u8, next_need, next_check, next_bytes, next_rest,
  next_be32, result-ne-fault,
}
use tj_rtc.Signal.Subscribe.{
  parse_subscribe_req, parse_subscribe_resp, parse_session, parse_stream_data, parse_forward_data,
}

parse_subscribe_req-Reads : Reads 0 0 parse_subscribe_req
unfolding parse_subscribe_req
parse_subscribe_req-Reads = next_need 0 0 7 _ λ _. next_u8 7 0 _ (omega arith) λ ctrl.
    next_check 6 0 _ _ λ _. next_u8 6 0 _ (omega arith) λ role. next_be32 5 0 _ (omega arith) λ n.
      next_need 1 0 n _ λ _. next_bytes n 0 n _ (omega arith) λ stream. next_need (n - n) 0 4 _ λ _.
        next_be32 4 0 _ (omega arith) λ m. next_need 0 0 m _ λ _.
          next_bytes m 0 m _ (omega arith) λ user.
            next_need (m - m) 0 1 _
              λ _. next_u8 1 0 _ (omega arith) λ flags. return-Reads 0 0 (omega arith)

parse_subscribe_resp-Reads : Reads 0 0 parse_subscribe_resp
unfolding parse_subscribe_resp
parse_subscribe_resp-Reads = next_need 0 0 1 _ λ _. next_u8 1 0 _ (omega arith) λ header.
    next_need 0 0 6 _ λ _. next_u8 6 0 _ (omega arith) λ ctrl. next_check 5 0 _ _ λ _.
      next_be32 5 0 _ (omega arith) λ session. next_u8 1 0 _ (omega arith) λ status.
        next_need 0 0 4 _ λ _. next_be32 4 0 _ (omega arith) λ n.
          next_need 0 0 n _
            λ _. next_bytes n 0 n _ (omega arith) λ reason. return-Reads (n - n) 0 (omega arith)

parse_session-Reads : (expected : ℕ) → Reads 0 0 (parse_session expected)
unfolding parse_session
parse_session-Reads expected = next_need 0 0 6 _ λ _. next_u8 6 0 _ (omega arith) λ ctrl.
    next_check 5 0 _ _ λ _.
      next_be32 5 0 _ (omega arith)
        λ session. next_rest 1 0 _ λ payload. return-Reads 0 0 (omega arith)

-- On every input, well formed or not, none of the four parsers reads past the end of the message.
pub parse_subscribe-ne-fault :
    (bytes : List ℕ)
    → (result (parse_subscribe_req bytes) ≢ fault)
      × (result (parse_subscribe_resp bytes) ≢ fault)
      × (result (parse_stream_data bytes) ≢ fault)
      × (result (parse_forward_data bytes) ≢ fault)
unfolding parse_stream_data parse_forward_data
parse_subscribe-ne-fault bytes = (
  result-ne-fault parse_subscribe_req parse_subscribe_req-Reads bytes,
  result-ne-fault parse_subscribe_resp parse_subscribe_resp-Reads bytes,
  result-ne-fault (parse_session _) (parse_session-Reads _) bytes,
  result-ne-fault (parse_session _) (parse_session-Reads _) bytes,
)
