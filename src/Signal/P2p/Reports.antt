-- ===== src/Signal/P2p/Reports.antt =====
-- The reports on a direct link of common/sfu_protocol/SfuP2PProtocol.h: fallback, check and status.
use tj_rtc.Prelude.{ℕ, Bool, not, List, [], ◌∷◌, ◌++◌, ◌==◌, if◌then◌else◌}
use tj_rtc.Bytes.{
  Cursor, ◌>>=◌, ◌>>◌, return, need, read_u8, write_be16, write_be32, read_be16, read_be32,
}
use tj_rtc.Signal.CtrlType
use tj_rtc.Signal.Subscribe.{cmd_header}

pub record Fallback : Type 0 where
  pub reason : ℕ
  pub publisher_session_id : ℕ

unfoldable pub serialize_fallback : Fallback → List ℕ
serialize_fallback f =
    cmd_header ∷ (CtrlType.p2p_fallback ∷ (f.reason ∷ write_be32 f.publisher_session_id))

unfoldable pub parse_fallback : Cursor Fallback
parse_fallback = do
  need 1
  skipped ← read_u8
  need 5
  reason ← read_u8
  publisher ← read_be32
  return (record { reason = reason; publisher_session_id = publisher })

pub record ConnectCheck : Type 0 where
  pub peer_session_id : ℕ
  pub success : Bool
  pub rtt_ms : ℕ

unfoldable pub serialize_connect_check : ConnectCheck → List ℕ
serialize_connect_check c =
    cmd_header
    ∷ (CtrlType.p2p_connect_check
        ∷ (write_be32 c.peer_session_id ++ ((if c.success then 1 else 0) ∷ write_be16 c.rtt_ms)))

unfoldable pub parse_connect_check : Cursor ConnectCheck
parse_connect_check = do
  need 1
  skipped ← read_u8
  need 7
  peer ← read_be32
  success ← read_u8
  rtt ← read_be16
  return (record { peer_session_id = peer; success = not (success == 0); rtt_ms = rtt })

pub record StatusReport : Type 0 where
  pub peer_session_id : ℕ
  pub phase : ℕ
  pub loss_rate : ℕ
  pub rtt_ms : ℕ
  pub quality_score : ℕ

unfoldable pub serialize_status : StatusReport → List ℕ
serialize_status r =
    cmd_header
    ∷ (CtrlType.p2p_status
        ∷ (write_be32 r.peer_session_id
            ++ (r.phase ∷ (r.loss_rate ∷ (write_be16 r.rtt_ms ++ (r.quality_score ∷ []))))))

unfoldable pub parse_status : Cursor StatusReport
parse_status = do
  need 1
  skipped ← read_u8
  need 9
  peer ← read_be32
  phase ← read_u8
  loss ← read_u8
  rtt ← read_be16
  score ← read_u8
  return (record {
    peer_session_id = peer;
    phase = phase;
    loss_rate = loss;
    rtt_ms = rtt;
    quality_score = score;
  })
