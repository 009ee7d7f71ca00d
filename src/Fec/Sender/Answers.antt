-- ===== src/Fec/Sender/Answers.antt =====
-- How a sender answers a NACK (libs/frame_protoc/src/sender.cpp).
use tj_rtc.Prelude.{
  ℕ, zero, suc, ◌≤◌, ◌≡◌, sym, ap, subst, ◌∙◌, inl, inr, true, false, List, [], ◌∷◌, ◌++◌,
  append-nil, append_assoc, arith, Bool-cases, length, All,
}
use tj_rtc.Bytes.{ok}
use tj_rtc.Prelude.Int.{ℤ, pos, negsuc}
use mathlib.Core.List.{Mem, mem-cons_of_mem, mem-cons_self}
use tj_rtc.Fec.Header.{CommonHeader, DataHeader}
use tj_rtc.Fec.Payload.{NackEntry, deserialize_nack}
use tj_rtc.Fec.Sender.State.{
  MathOps, SenderConfig, CachedBlock, FrameSender, send_packet, send_block_packet,
}
use tj_rtc.Fec.Sender.Retransmit.{
  retransmit_found, retransmit_block, spend, exhausted, retransmit_loop, handle_nack,
  requested_seqs,
}
use tj_rtc.Fec.Sender.Resent.{
  ReadsAs, read_again, IsSender, IsResent, retransmit_block-IsSender, retransmit_block-IsResent,
}

-- A packet that carries one of the sequence numbers.
pub record Carries (seqs : List ℕ) (packet : List ℕ) : Type 0 where
  pub common : CommonHeader
  pub header : DataHeader
  pub payload : List ℕ
  pub read : ReadsAs packet common header payload
  pub asked : Mem common.seq_num seqs

-- What a budget allows; -1 is no limit.
abbrev pub Within : ℤ → ℕ → Type 0
Within (pos n) k = k ≤ n
Within (negsuc n) k = Unit {0}

-- The packets by which a sender has answered a request.
pub record Answers {F : Type 0} (s t : FrameSender F) (seqs : List ℕ) (budget : ℤ) : Type 0 where
  pub extra : List (List ℕ)
  pub out : t.sent ≡ s.sent ++ extra
  pub carried : All (Carries seqs) extra
  pub within : Within budget (length extra)
  pub valid : IsSender t
  pub still_on : t.send_cb ≡ true

Carries-weaken :
    (seq : ℕ) (seqs packet : List ℕ) → Carries seqs packet → Carries (seq ∷ seqs) packet
Carries-weaken seq seqs packet c = record {
  common = c.common;
  header = c.header;
  payload = c.payload;
  read = c.read;
  asked = mem-cons_of_mem seq c.asked;
}

All-Carries_weaken :
    (seq : ℕ) (seqs : List ℕ) (packets : List (List ℕ))
    → All (Carries seqs) packets
    → All (Carries (seq ∷ seqs)) packets
All-Carries_weaken seq seqs [] h = tt
All-Carries_weaken seq seqs (p ∷ packets) (first, h) =
    (Carries-weaken seq seqs p first, All-Carries_weaken seq seqs packets h)

spend_one :
    (budget : ℤ) (k : ℕ)
    → exhausted budget ≡ false
    → Within (spend budget true) k
    → Within budget (suc k)
spend_one (pos zero) k e h = absurd (cc)
spend_one (pos (suc n)) k e h = omega arith
spend_one (negsuc n) k e h = tt

spend_none : (budget : ℤ) (k : ℕ) → Within (spend budget false) k → Within budget k
spend_none (pos n) k h = h
spend_none (negsuc n) k h = h

Within-least : (budget : ℤ) → Within budget 0
Within-least (pos n) = omega arith
Within-least (negsuc n) = tt

module _ {F : Type 0} (ops : MathOps F) (cfg : SenderConfig F) where
  nothing_sent :
      (budget : ℤ) (seqs : List ℕ) (s : FrameSender F)
      → IsSender s
      → s.send_cb ≡ true
      → Answers s s seqs budget
  nothing_sent budget seqs s v on = record {
    extra = [];
    out = sym (append-nil s.sent);
    carried = tt;
    within = Within-least budget;
    valid = v;
    still_on = on;
  }

  retransmit_block-on :
      (s : FrameSender F) (seq now : ℕ) → (retransmit_block ops cfg s seq now).0.send_cb ≡ s.send_cb
  unfolding retransmit_block retransmit_found send_block_packet send_packet
  retransmit_block-on s seq now = ground arith

  resent-Carries :
      {s t : FrameSender F} {seq : ℕ} {b : CachedBlock} (seqs : List ℕ) (r : IsResent s t seq b)
      → Carries (seq ∷ seqs) r.packet
  resent-Carries {seq = seq} {b = b} seqs r = record {
    common = r.common;
    header = read_again b r.header;
    payload = r.payload;
    read = r.read_back;
    asked = subst (λ k. Mem k (seq ∷ seqs)) (sym r.numbered) mem-cons_self;
  }

  -- What the loop over the requested numbers sends.
  retransmit_loop-Answers :
      (budget : ℤ) (seqs : List ℕ) (s : FrameSender F) (now : ℕ)
      → IsSender s
      → s.send_cb ≡ true
      → Answers s (retransmit_loop ops cfg budget seqs s now) seqs budget
  unfolding retransmit_loop
  retransmit_loop-Answers budget [] s now v on = nothing_sent budget [] s v on
  retransmit_loop-Answers budget (seq ∷ seqs) s now v on = elim (Bool-cases (exhausted budget)) [
    | inl over ↦ rw over (nothing_sent budget (seq ∷ seqs) s v on)
    | inr left ↦
        let next = retransmit_block ops cfg s seq now in
        let rest =
          retransmit_loop-Answers (spend budget next.1) seqs next.0 now
            (retransmit_block-IsSender ops cfg s seq now v) (retransmit_block-on s seq now ∙ on) in
        rw left (elim (retransmit_block-IsResent ops cfg s seq now v on) [
          | inl (quiet, same) ↦ record {
            extra = rest.extra;
            out = rest.out ∙ ap (λ (t : FrameSender F). t.sent ++ rest.extra) same;
            carried = All-Carries_weaken seq seqs rest.extra rest.carried;
            within =
                spend_none budget (length rest.extra)
                  (subst (λ b. Within (spend budget b) (length rest.extra)) quiet rest.within);
            valid = rest.valid;
            still_on = rest.still_on;
          }
          | inr (resent, (b, found, r)) ↦ record {
            extra = r.packet ∷ rest.extra;
            out =
                rest.out
                ∙ ap (λ t. t ++ rest.extra) r.out
                ∙ append_assoc s.sent (r.packet ∷ []) rest.extra;
            carried = (resent-Carries seqs r, All-Carries_weaken seq seqs rest.extra rest.carried);
            within =
                spend_one budget (length rest.extra) left
                  (subst (λ b. Within (spend budget b) (length rest.extra)) resent rest.within);
            valid = rest.valid;
            still_on = rest.still_on;
          }
        ])
  ]

  -- With a callback for packets and a cache of packets as they were sent, a NACK that can be read is
  -- answered with packets of numbers that it asks for only, and with no more than its budget allows, where
  -- that is not below 0; the cache stays one of packets as they were sent.
  pub handle_nack-Answers :
      (s : FrameSender F) (entries : List NackEntry) (payload rest : List ℕ) (now : ℕ)
      → IsSender s
      → s.send_cb ≡ true
      → deserialize_nack payload ≡ ok (entries, rest)
      → Answers s
          (handle_nack ops cfg s payload now)
          (requested_seqs entries)
          cfg.max_nack_retransmit
  unfolding handle_nack
  handle_nack-Answers s entries payload rest now v on e =
      rw (e, handle_nack)
        (retransmit_loop-Answers cfg.max_nack_retransmit (requested_seqs entries) s now v on)
