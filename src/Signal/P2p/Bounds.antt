-- ===== src/Signal/P2p/Bounds.antt =====
-- The parsers of SfuP2PProtocol.h read no byte past the end of the message.
use tj_rtc.Prelude.{ℕ, ◌+◌, ◌-◌, ◌≢◌, List, arith}
use tj_rtc.Bytes.{
  fault, result, Reads, bind-Reads, return-Reads, next_u8, next_need, next_check, next_bytes,
  next_rest, next_be16, next_be32, result-ne-fault,
}
use tj_rtc.Signal.P2p.{parse_packet, parse_request, read_addr, parse_response, parse_candidate}
use tj_rtc.Signal.P2p.Reports.{parse_fallback, parse_connect_check, parse_status}

parse_packet-Reads : Reads 0 0 parse_packet
unfolding parse_packet
parse_packet-Reads = next_need 0 0 2 _ λ _. next_u8 2 0 _ (omega arith) λ version.
    next_check 1 0 _ _ λ _.
      next_u8 1 0 _ (omega arith) λ kind. next_rest 0 0 _ λ payload. return-Reads 0 0 (omega arith)

parse_request-Reads : Reads 0 0 parse_request
unfolding parse_request
parse_request-Reads = next_need 0 0 5 _ λ _. next_u8 5 0 _ (omega arith) λ ctrl.
    next_check 4 0 _ _ λ _. next_be32 4 0 _ (omega arith) λ n. next_need 0 0 (n + 1) _ λ _.
      next_bytes (n + 1) 0 n _ (omega arith) λ id.
        next_u8 (n + 1 - n) 0 _ (omega arith) λ flags. return-Reads (n + 1 - n - 1) 0 (omega arith)

read_addr-Reads : Reads 0 0 read_addr
unfolding read_addr
read_addr-Reads = next_need 0 0 4 _ λ _. next_be32 4 0 _ (omega arith) λ n.
    next_need 0 0 (n + 2) _ λ _. next_bytes (n + 2) 0 n _ (omega arith) λ ip.
      next_be16 (n + 2 - n) 0 _ (omega arith) λ port. return-Reads (n + 2 - n - 2) 0 (omega arith)

parse_response-Reads : Reads 0 0 parse_response
unfolding parse_response
parse_response-Reads = next_need 0 0 1 _ λ _. next_u8 1 0 _ (omega arith) λ skipped.
    next_need 0 0 5 _ λ _. next_u8 5 0 _ (omega arith) λ status.
      next_be32 4 0 _ (omega arith) λ peer. bind-Reads 0 0 0 read_addr _ read_addr-Reads λ a.
        bind-Reads 0 0 0 read_addr _ read_addr-Reads λ b. next_need 0 0 2 _ λ _.
          next_u8 2 0 _ (omega arith)
            λ nat. next_u8 1 0 _ (omega arith) λ count. return-Reads 0 0 (omega arith)

parse_candidate-Reads : Reads 0 0 parse_candidate
unfolding parse_candidate
parse_candidate-Reads = next_need 0 0 1 _ λ _. next_u8 1 0 _ (omega arith) λ skipped.
    next_need 0 0 4 _ λ _. next_be32 4 0 _ (omega arith) λ target. next_need 0 0 4 _ λ _.
      next_be32 4 0 _ (omega arith) λ n. next_need 0 0 (n + 2 + 1 + 4) _ λ _.
        next_bytes (n + 2 + 1 + 4) 0 n _ (omega arith) λ ip.
          next_be16 (n + 2 + 1 + 4 - n) 0 _ (omega arith) λ port.
            next_u8 (n + 2 + 1 + 4 - n - 2) 0 _ (omega arith) λ kind.
              next_be32 (n + 2 + 1 + 4 - n - 2 - 1) 0 _ (omega arith)
                λ priority. return-Reads _ 0 (omega arith)

parse_fallback-Reads : Reads 0 0 parse_fallback
unfolding parse_fallback
parse_fallback-Reads = next_need 0 0 1 _ λ _. next_u8 1 0 _ (omega arith) λ skipped.
    next_need 0 0 5 _ λ _.
      next_u8 5 0 _ (omega arith)
        λ reason. next_be32 4 0 _ (omega arith) λ publisher. return-Reads 0 0 (omega arith)

parse_connect_check-Reads : Reads 0 0 parse_connect_check
unfolding parse_connect_check
parse_connect_check-Reads = next_need 0 0 1 _ λ _. next_u8 1 0 _ (omega arith) λ skipped.
    next_need 0 0 7 _ λ _. next_be32 7 0 _ (omega arith) λ peer.
      next_u8 3 0 _ (omega arith)
        λ success. next_be16 2 0 _ (omega arith) λ rtt. return-Reads 0 0 (omega arith)

parse_status-Reads : Reads 0 0 parse_status
unfolding parse_status
parse_status-Reads = next_need 0 0 1 _ λ _. next_u8 1 0 _ (omega arith) λ skipped.
    next_need 0 0 9 _ λ _. next_be32 9 0 _ (omega arith) λ peer.
      next_u8 5 0 _ (omega arith) λ phase. next_u8 4 0 _ (omega arith) λ loss.
        next_be16 3 0 _ (omega arith)
          λ rtt. next_u8 1 0 _ (omega arith) λ score. return-Reads 0 0 (omega arith)

-- On every input, well formed or not, none of the seven parsers reads past the end of the message.
pub parse_p2p-ne-fault :
    (bytes : List ℕ)
    → (result (parse_packet bytes) ≢ fault)
      × (result (parse_request bytes) ≢ fault)
      × (result (parse_response bytes) ≢ fault)
      × (result (parse_candidate bytes) ≢ fault)
      × (result (parse_fallback bytes) ≢ fault)
      × (result (parse_connect_check bytes) ≢ fault)
      × (result (parse_status bytes) ≢ fault)
parse_p2p-ne-fault bytes = (
  result-ne-fault _ parse_packet-Reads bytes,
  result-ne-fault _ parse_request-Reads bytes,
  result-ne-fault _ parse_response-Reads bytes,
  result-ne-fault _ parse_candidate-Reads bytes,
  result-ne-fault _ parse_fallback-Reads bytes,
  result-ne-fault _ parse_connect_check-Reads bytes,
  result-ne-fault _ parse_status-Reads bytes,
)
