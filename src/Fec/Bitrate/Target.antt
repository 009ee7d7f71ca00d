-- ===== src/Fec/Bitrate/Target.antt =====
-- When the target of a bitrate controller rises, falls and stays, and that it stays in its range.
use tj_rtc.Prelude.{ℕ, ◌≤◌, ◌≡◌, ◌⊎◌, Bool, true, false}
use tj_rtc.Fec.Bitrate.{FloatOps, BitrateConfig, BitrateController}

module _ {F : Type 0} (ops : FloatOps F) (cfg : BitrateConfig F) where
  abbrev pub InRange : BitrateController F → Type 0
  InRange c = (cfg.min_bitrate_bps ≤ c.target_bps) × (c.target_bps ≤ cfg.max_bitrate_bps)

  abbrev Between : ℕ → Type 0
  Between bps = (cfg.min_bitrate_bps ≤ bps) × (bps ≤ cfg.max_bitrate_bps)

  -- A confirmed loss lowers the target: in the normal state, and after `max_loss_rounds` windows.
  abbrev pub Lowers : Bool → ℕ → Type 0
  Lowers observing rounds = (observing ≡ false) ⊎ (cfg.max_loss_rounds ≤ rounds)

  -- A rise is due.
  abbrev pub IsDue : BitrateController F → ℕ → F → Type 0
  IsDue c now loss_rate =
      (c.cooldown_remaining ≡ 0)
      × (ops.at_most loss_rate cfg.loss_up_threshold ≡ true)
      × (c.next_increase_us ≤ now)
