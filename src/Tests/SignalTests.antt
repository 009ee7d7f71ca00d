-- ===== src/Tests/SignalTests.antt =====
-- common/sfu_protocol and the STUN service at concrete inputs.
use tj_rtc.Prelude.{ℕ, ◌+◌, ◌%◌, ◌^◌, ◌≡◌, ◌≢◌, true, false, some, List, [], ◌∷◌, ◌++◌, arith, drop}
use tj_rtc.Bytes.{ok, fault, result}
use tj_rtc.Signal.Header.{compute_checksum, compute_checksum-sum, sum}
use tj_rtc.Signal.Subscribe.{
  SubscribeReq, SessionData, serialize_subscribe_req, parse_subscribe_req, parse_subscribe_resp,
  serialize_stream_data, serialize_forward_data, parse_stream_data, parse_forward_data,
}
use tj_rtc.Signal.Subscribe.RoundTrip.{parse_subscribe_req-serialize, parse_session-serialize}
use tj_rtc.Signal.Subscribe.Bounds.{parse_subscribe-ne-fault}
use tj_rtc.Signal.P2p.{
  parse_packet, Request, serialize_request, parse_request, Address, Response, serialize_response,
  parse_response, Candidate, serialize_candidate, parse_candidate,
}
use tj_rtc.Signal.P2p.Reports.{parse_fallback, parse_connect_check, parse_status}
use tj_rtc.Signal.P2p.RoundTrip.{parse_exchange-serialize}
use tj_rtc.Signal.P2p.Bounds.{parse_p2p-ne-fault}
use tj_rtc.Signal.Stun.{
  build_request, build_response, parse_header, parse_mapped_address, handle_packet, StunService,
  mapped_attribute, binding_response,
}
use tj_rtc.Signal.Stun.RoundTrip.{handle_packet-build_request}
use tj_rtc.Signal.Stun.Bounds.{parse_stun-ne-fault}

compute_checksum-sum_example : compute_checksum (255 ∷ 1 ∷ []) ≡ sum (255 ∷ 1 ∷ []) % 2 ^ 16
compute_checksum-sum_example = compute_checksum-sum (255 ∷ 1 ∷ [])

abbrev viewer : SubscribeReq
viewer = record {
  role = 1;
  stream_id = 99 ∷ 97 ∷ 109 ∷ [];
  user_id = 117 ∷ [];
  flags = record { audio = true; video = false; messages = true; reserved = 9 };
}

parse_subscribe_req-serialize_example :
    parse_subscribe_req (drop 1 (serialize_subscribe_req viewer) ++ (7 ∷ [])) ≡ ok (viewer, 7 ∷ [])
parse_subscribe_req-serialize_example =
    parse_subscribe_req-serialize viewer (7 ∷ []) (omega arith) (omega arith) (omega arith)

abbrev media : SessionData
media = record { session_id = 1001; payload = 1 ∷ 2 ∷ [] }

parse_session-serialize_example :
    (parse_stream_data (drop 1 (serialize_stream_data media)) ≡ ok (media, []))
    × (parse_forward_data (drop 1 (serialize_forward_data media)) ≡ ok (media, []))
parse_session-serialize_example = parse_session-serialize media (omega arith) (omega arith)

abbrev noise : List ℕ
noise = 0x10 ∷ 1 ∷ 0 ∷ 0 ∷ 0 ∷ 9 ∷ []

parse_subscribe-ne-fault_example :
    (result (parse_subscribe_req noise) ≢ fault)
    × (result (parse_subscribe_resp noise) ≢ fault)
    × (result (parse_stream_data noise) ≢ fault)
    × (result (parse_forward_data noise) ≢ fault)
parse_subscribe-ne-fault_example = parse_subscribe-ne-fault noise

abbrev home : Address
home = record { ip = 49 ∷ 46 ∷ 50 ∷ []; port = 5000 }

abbrev ask : Request
ask = record { target_stream_id = 99 ∷ []; flags = 3 }

abbrev reply : Response
reply = record {
  status = 1;
  peer_session_id = 1002;
  peer_addr = home;
  your_addr = home;
  nat_type = 2;
  subscriber_count = 1;
}

abbrev offer : Candidate
offer = record {
  target_session_id = 1001;
  ip = 49 ∷ [];
  port = 6000;
  candidate_type = 1;
  priority = 100;
}

parse_exchange-serialize_example :
    (parse_request (drop 1 (serialize_request ask) ++ []) ≡ ok (ask, []))
    × (parse_response (drop 1 (serialize_response reply) ++ []) ≡ ok (reply, []))
    × (parse_candidate (drop 1 (serialize_candidate offer) ++ []) ≡ ok (offer, []))
parse_exchange-serialize_example = parse_exchange-serialize ask reply offer [] (record {
  target = omega arith;
  peer = omega arith;
  peer_addr = omega arith;
  your_addr = omega arith;
  candidate_target = omega arith;
  candidate_ip = omega arith;
  candidate_port = omega arith;
  candidate_priority = omega arith;
})

parse_p2p-ne-fault_example :
    (result (parse_packet noise) ≢ fault)
    × (result (parse_request noise) ≢ fault)
    × (result (parse_response noise) ≢ fault)
    × (result (parse_candidate noise) ≢ fault)
    × (result (parse_fallback noise) ≢ fault)
    × (result (parse_connect_check noise) ≢ fault)
    × (result (parse_status noise) ≢ fault)
parse_p2p-ne-fault_example = parse_p2p-ne-fault noise

abbrev transaction : List ℕ
transaction = 1 ∷ 2 ∷ 3 ∷ 4 ∷ 5 ∷ 6 ∷ 7 ∷ 8 ∷ 9 ∷ 10 ∷ 11 ∷ 12 ∷ []

abbrev idle_service : StunService
idle_service = record { request_count = 0; response_count = 0 }

handle_packet-build_request_example :
    (handle_packet idle_service (build_request transaction) 16777343 5000 1024 ≡ (
      record { request_count = 0 + 1; response_count = 0 + 1 },
      some (build_response transaction 16777343 5000),
    ))
    × (parse_header (build_response transaction 16777343 5000)
        ≡ ok (
          record {
            message_type = binding_response;
            message_length = 12;
            transaction_id = transaction;
          },
          mapped_attribute 16777343 5000,
        ))
    × (parse_mapped_address (build_response transaction 16777343 5000)
        ≡ ok (record { s_addr = 16777343; port = 5000 }))
handle_packet-build_request_example =
    handle_packet-build_request idle_service transaction 16777343 5000 1024 (omega arith)
      (omega arith) (omega arith) (omega arith)

parse_stun-ne-fault_example :
    (result (parse_header noise) ≢ fault) × (parse_mapped_address noise ≢ fault)
parse_stun-ne-fault_example = parse_stun-ne-fault noise
