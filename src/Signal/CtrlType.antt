-- ===== src/Signal/CtrlType.antt =====
-- SfuCtrlType of common/sfu_protocol/SfuSubscribeProtocol.h, each by its byte.
use tj_rtc.Prelude.{ℕ}

abbrev pub subscribe_req : ℕ
subscribe_req = 0x10

abbrev pub subscribe_resp : ℕ
subscribe_resp = 0x11

abbrev pub unsubscribe : ℕ
unsubscribe = 0x12

abbrev pub stream_data : ℕ
stream_data = 0x13

abbrev pub forward_data : ℕ
forward_data = 0x14

abbrev pub p2p_request : ℕ
p2p_request = 0x17

abbrev pub p2p_response : ℕ
p2p_response = 0x18

abbrev pub p2p_candidate : ℕ
p2p_candidate = 0x19

abbrev pub p2p_connect_check : ℕ
p2p_connect_check = 0x1a

abbrev pub p2p_fallback : ℕ
p2p_fallback = 0x1b

abbrev pub p2p_status : ℕ
p2p_status = 0x1c
