-- ===== src/Signal/P2p/RoundTrip.antt =====
-- The messages of SfuP2PProtocol.h are read back as they were written.
use tj_rtc.Prelude.{
  ℕ, ◌+◌, ◌^◌, ◌≤◌, ◌<◌, ◌≡◌, refl, List, [], ◌∷◌, ◌++◌, append_assoc, arith, length, drop,
  length-append,
}
use tj_rtc.Bytes.{
  Outcome, ok, Cursor, ◌>>=◌, ◌>>◌, need, check, read_u8, read_bytes, read_rest, write_be16,
  write_be32, read_be32, step_need, step_check, step_be16, step_be32, step_bytes,
}
use tj_rtc.Signal.Subscribe.{write_string}
use tj_rtc.Signal.Subscribe.RoundTrip.{IsString, length-write_string}
use native.Mathlib.Nat.{mod-eq_of_lt}
use tj_rtc.Signal.P2p.{
  serialize_data_packet, serialize_probe, serialize_heartbeat, parse_packet, Request,
  serialize_request, parse_request, Address, Response, write_addr, serialize_response, read_addr,
  parse_response, Candidate, serialize_candidate, parse_candidate, data_packet, probe_packet,
  heartbeat_packet,
}
use tj_rtc.Signal.P2p.Reports.{
  Fallback, serialize_fallback, parse_fallback, ConnectCheck, serialize_connect_check,
  parse_connect_check, StatusReport, serialize_status, parse_status,
}

-- A packet of the direct link is read as the kind and the payload that it was written from.
pub parse_packet-serialize :
    (payload : List ℕ)
    → (parse_packet (serialize_data_packet payload)
        ≡ ok (record { kind = data_packet; payload = payload }, []))
      × (parse_packet (serialize_probe payload)
          ≡ ok (record { kind = probe_packet; payload = payload }, []))
      × (parse_packet serialize_heartbeat
          ≡ ok (record { kind = heartbeat_packet; payload = [] }, []))
unfolding parse_packet serialize_data_packet serialize_probe serialize_heartbeat read_u8 read_rest
    need check
parse_packet-serialize payload = (ground arith, ground arith, ground arith)

-- A string whose test also asks for the bytes behind it.
step_string_and {ℓ} :
    {B : Type ℓ} (s rest : List ℕ) (g : ℕ → ℕ) (f : List ℕ → Cursor B) {o : Outcome (B × List ℕ)}
    → IsString s
    → g (length s) ≤ length s + length rest
    → f s rest ≡ o
    → (read_be32 >>= λ n. need (g n) >> (read_bytes n >>= f)) (write_string s ++ rest) ≡ o
unfolding write_string
step_string_and s rest g f h le e =
    rw (mod-eq_of_lt h, append_assoc)
      (step_be32 _ _ _ h
        (step_need _ _ _ (omega (arith, length-append {0} s rest)) (step_bytes s rest _ _ refl e)))

parse_request-serialize :
    (r : Request) (rest : List ℕ)
    → IsString r.target_stream_id
    → parse_request (drop 1 (serialize_request r) ++ rest) ≡ ok (r, rest)
unfolding serialize_request parse_request read_u8
parse_request-serialize r rest id =
    let len = length-write_string r.target_stream_id in
    let size = length-append {0} (write_string r.target_stream_id) (r.flags ∷ rest) in
    simp append_assoc (
      step_need 5 _ _ (omega arith) (
        step_check _ _ _ refl
          (step_string_and r.target_stream_id _ (λ n. n + 1) _ id (omega arith) refl)))

abbrev pub IsAddress : Address → Type 0
IsAddress a = IsString a.ip × (a.port < 2 ^ 16)

read_addr-write_addr :
    (a : Address) (rest : List ℕ) → IsAddress a → read_addr (write_addr a ++ rest) ≡ ok (a, rest)
unfolding write_addr read_addr
read_addr-write_addr a rest (ip, port) =
    let len = length-write_string a.ip in
    let size = length-append {0} (write_string a.ip) (write_be16 a.port ++ rest) in
    simp append_assoc (
      step_need 4 _ _ (omega arith) (
        step_string_and a.ip _ (λ n. n + 2) _ ip (unfold write_be16 in omega arith)
          (step_be16 _ _ _ port refl)))

parse_response-serialize :
    (r : Response) (rest : List ℕ)
    → r.peer_session_id < 2 ^ 32
    → IsAddress r.peer_addr
    → IsAddress r.your_addr
    → parse_response (drop 1 (serialize_response r) ++ rest) ≡ ok (r, rest)
unfolding serialize_response parse_response read_u8
parse_response-serialize r rest id peer your =
    let tail : List ℕ = r.nat_type ∷ (r.subscriber_count ∷ rest) in
    simp append_assoc (
      step_need 1 _ _ (omega arith) (
        step_need 5 _ _ (unfold write_be32 in omega arith) (
          step_be32 _ _ _ id (
            rw (read_addr-write_addr r.peer_addr (write_addr r.your_addr ++ tail) peer) (
              rw (read_addr-write_addr r.your_addr tail your)
                (step_need 2 _ _ (omega arith) refl))))))

parse_candidate-serialize :
    (c : Candidate) (rest : List ℕ)
    → c.target_session_id < 2 ^ 32
    → IsString c.ip
    → c.port < 2 ^ 16
    → c.priority < 2 ^ 32
    → parse_candidate (drop 1 (serialize_candidate c) ++ rest) ≡ ok (c, rest)
unfolding serialize_candidate parse_candidate read_u8
parse_candidate-serialize c rest id ip port priority =
    let tail : List ℕ = write_be16 c.port ++ (c.candidate_type ∷ (write_be32 c.priority ++ rest)) in
    let len = length-write_string c.ip in
    let size = length-append {0} (write_string c.ip) tail in
    simp append_assoc (
      step_need 1 _ _ (omega arith) (
        step_need 4 _ _ (unfold write_be32 in omega arith) (
          step_be32 _ _ _ id (
            step_need 4 _ _ (omega arith) (
              step_string_and c.ip tail (λ n. n + 2 + 1 + 4) _ ip
                (unfold write_be16 write_be32 in omega arith)
                (step_be16 _ _ _ port (step_be32 _ _ _ priority refl)))))))

parse_fallback-serialize :
    (f : Fallback) (rest : List ℕ)
    → f.publisher_session_id < 2 ^ 32
    → parse_fallback (drop 1 (serialize_fallback f) ++ rest) ≡ ok (f, rest)
unfolding serialize_fallback parse_fallback read_u8
parse_fallback-serialize f rest id =
    step_need 1 _ _ (omega arith)
      (step_need 5 _ _ (unfold write_be32 in omega arith) (step_be32 _ _ _ id refl))

parse_connect_check-serialize :
    (c : ConnectCheck) (rest : List ℕ)
    → c.peer_session_id < 2 ^ 32
    → c.rtt_ms < 2 ^ 16
    → parse_connect_check (drop 1 (serialize_connect_check c) ++ rest) ≡ ok (c, rest)
unfolding serialize_connect_check parse_connect_check read_u8
parse_connect_check-serialize c rest id rtt = simp append_assoc (
    step_need 1 _ _ (omega arith) (
      step_need 7 _ _ (unfold write_be16 write_be32 in omega arith)
        (step_be32 _ _ _ id (step_be16 _ _ _ rtt (ground arith)))))

parse_status-serialize :
    (r : StatusReport) (rest : List ℕ)
    → r.peer_session_id < 2 ^ 32
    → r.rtt_ms < 2 ^ 16
    → parse_status (drop 1 (serialize_status r) ++ rest) ≡ ok (r, rest)
unfolding serialize_status parse_status read_u8
parse_status-serialize r rest id rtt = simp append_assoc (
    step_need 1 _ _ (omega arith) (
      step_need 9 _ _ (unfold write_be16 write_be32 in omega arith)
        (step_be32 _ _ _ id (step_be16 _ _ _ rtt refl))))

-- Numbers fit their fields, and strings the 32 bits of their length.
pub record IsExchange (q : Request) (r : Response) (c : Candidate) : Type 0 where
  pub target : IsString q.target_stream_id
  pub peer : r.peer_session_id < 2 ^ 32
  pub peer_addr : IsAddress r.peer_addr
  pub your_addr : IsAddress r.your_addr
  pub candidate_target : c.target_session_id < 2 ^ 32
  pub candidate_ip : IsString c.ip
  pub candidate_port : c.port < 2 ^ 16
  pub candidate_priority : c.priority < 2 ^ 32

-- The messages that set up a direct link, behind their header byte, are read as what they were
-- written from, whatever follows them.
pub parse_exchange-serialize :
    (q : Request) (r : Response) (c : Candidate) (rest : List ℕ)
    → IsExchange q r c
    → (parse_request (drop 1 (serialize_request q) ++ rest) ≡ ok (q, rest))
      × (parse_response (drop 1 (serialize_response r) ++ rest) ≡ ok (r, rest))
      × (parse_candidate (drop 1 (serialize_candidate c) ++ rest) ≡ ok (c, rest))
parse_exchange-serialize q r c rest v = (
  parse_request-serialize q rest v.target,
  parse_response-serialize r rest v.peer v.peer_addr v.your_addr,
  parse_candidate-serialize c rest v.candidate_target v.candidate_ip v.candidate_port
      v.candidate_priority,
)

-- So are the reports on a link, if their numbers fit the fields.
parse_report-serialize :
    (f : Fallback) (c : ConnectCheck) (r : StatusReport) (rest : List ℕ)
    → f.publisher_session_id < 2 ^ 32
    → (c.peer_session_id < 2 ^ 32) × (c.rtt_ms < 2 ^ 16)
    → (r.peer_session_id < 2 ^ 32) × (r.rtt_ms < 2 ^ 16)
    → (parse_fallback (drop 1 (serialize_fallback f) ++ rest) ≡ ok (f, rest))
      × (parse_connect_check (drop 1 (serialize_connect_check c) ++ rest) ≡ ok (c, rest))
      × (parse_status (drop 1 (serialize_status r) ++ rest) ≡ ok (r, rest))
parse_report-serialize f c r rest hf hc hr = (
  parse_fallback-serialize f rest hf,
  parse_connect_check-serialize c rest hc.0 hc.1,
  parse_status-serialize r rest hr.0 hr.1,
)
