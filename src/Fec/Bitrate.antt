-- ===== src/Fec/Bitrate.antt =====
-- The bitrate controller of libs/frame_protoc/src/bitrate_controller.cpp. `float` is a parameter: a
-- type and the operations on it that the code uses; `at_most` is `<=`, and `>=` the other way round.
pub mod Target
use tj_rtc.Prelude.{
  ℕ, ◌+◌, ◌-◌, ◌*◌, ◌%◌, ◌^◌, Bool, true, false, not, ◌&&◌, ◌||◌, ltb, leb, ◌==◌, if◌then◌else◌,
}

-- `of_uint` and `to_uint` are the casts from and to uint32_t.
pub record FloatOps (F : Type 0) : Type 0 where
  pub of_uint : ℕ → F
  pub to_uint : F → ℕ
  pub add : F → F → F
  pub sub : F → F → F
  pub mul : F → F → F
  pub div : F → F → F
  pub fabs : F → F
  pub less : F → F → Bool
  pub at_most : F → F → Bool
  pub equal : F → F → Bool

pub record BitrateConfig (F : Type 0) : Type 0 where
  pub initial_bitrate_bps : ℕ
  pub min_bitrate_bps : ℕ
  pub max_bitrate_bps : ℕ
  pub loss_down_threshold : F
  pub loss_up_threshold : F
  pub increase_factor : F
  pub decrease_factor : F
  pub fec_initial : F
  pub fec_min : F
  pub fec_max : F
  pub fec_loss_factor : F
  pub fec_dead_band : F
  pub cooldown_windows : ℕ
  pub max_loss_rounds : ℕ
  pub hold_ms : ℕ
  pub ewma_alpha : F
  pub advice_change_min : F
  pub loss_confirm_windows : ℕ

pub record BitrateAdvice (F : Type 0) : Type 0 where
  pub target_bitrate_bps : ℕ
  pub fec_ratio : F
  pub measured_goodput_bps : ℕ
  pub loss_rate : F
  pub rate_decreased : Bool

-- `loss_observe` is State::LOSS_OBSERVE, the other state is NORMAL.
pub record BitrateController (F : Type 0) : Type 0 where
  pub loss_observe : Bool
  pub target_bps : ℕ
  pub fec : F
  pub ewma_goodput_bps : F
  pub has_goodput : Bool
  pub cooldown_remaining : ℕ
  pub loss_rounds : ℕ
  pub loss_streak : ℕ
  pub good_windows : ℕ
  pub next_increase_us : ℕ
  pub last_advice : BitrateAdvice F
  pub has_advice : Bool

module _ {F : Type 0} (ops : FloatOps F) (cfg : BitrateConfig F) where
  unfoldable pub clamp_bitrate : ℕ → ℕ
  clamp_bitrate bps =
      if ltb bps cfg.min_bitrate_bps
      then cfg.min_bitrate_bps
      else if ltb cfg.max_bitrate_bps bps
      then cfg.max_bitrate_bps
      else bps

  unfoldable pub clamp_fec : F → F
  clamp_fec v =
      if ops.less v cfg.fec_min
      then cfg.fec_min
      else if ops.less cfg.fec_max v
      then cfg.fec_max
      else v

  unfoldable pub apply_adaptive_fec : F → F → F
  unfolding clamp_fec
  apply_adaptive_fec fec loss_rate =
      let target = clamp_fec (ops.mul loss_rate cfg.fec_loss_factor) in
      if ops.less (ops.fabs (ops.sub target fec)) cfg.fec_dead_band then fec else target

  unfoldable pub new_controller : BitrateController F
  unfolding clamp_fec
  new_controller = record {
    loss_observe = false;
    target_bps = cfg.initial_bitrate_bps;
    fec = clamp_fec cfg.fec_initial;
    ewma_goodput_bps = ops.of_uint 0;
    has_goodput = false;
    cooldown_remaining = 0;
    loss_rounds = 0;
    loss_streak = 0;
    good_windows = 0;
    next_increase_us = 0;
    last_advice = record {
      target_bitrate_bps = 0;
      fec_ratio = cfg.fec_initial;
      measured_goodput_bps = 0;
      loss_rate = ops.of_uint 0;
      rate_decreased = false;
    };
    has_advice = false;
  }

  -- reset: `loss_streak` and the last advice stay.
  unfoldable pub reset_controller : BitrateController F → BitrateController F
  unfolding new_controller
  reset_controller c = record new_controller {
    loss_streak = c.loss_streak;
    last_advice = c.last_advice;
  }

  -- Whether the target has changed enough since the last advice.
  abbrev pub changed_enough : ℕ → ℕ → Bool
  changed_enough target prev =
      if ltb 0 prev
      then ops.at_most cfg.advice_change_min (
          ops.div (ops.of_uint (if ltb prev target then target - prev else prev - target))
            (ops.of_uint prev))
      else not (target == prev)

  -- emitAdvice, with whether to notify.
  unfoldable pub emit_advice : BitrateController F → ℕ → F → BitrateController F × Bool
  emit_advice c smoothed loss_rate =
      let last = c.last_advice in
      let decreased = c.has_advice && ltb c.target_bps last.target_bitrate_bps in
      let advice : BitrateAdvice F = record {
        target_bitrate_bps = c.target_bps;
        fec_ratio = c.fec;
        measured_goodput_bps = smoothed;
        loss_rate = loss_rate;
        rate_decreased = decreased;
      } in
      (
        record c { last_advice = advice; has_advice = true },
        not c.has_advice
            || (decreased
                || (not (ops.equal c.fec last.fec_ratio)
                    || changed_enough c.target_bps last.target_bitrate_bps)),
      )

  abbrev pub later : ℕ → ℕ
  later now_us = (now_us + cfg.hold_ms * 1000) % 2 ^ 64

  unfoldable pub smooth : BitrateController F → ℕ → ℕ → BitrateController F
  smooth c now_us goodput_bps =
      if c.has_goodput
      then (record c {
        ewma_goodput_bps =
            ops.add (ops.mul cfg.ewma_alpha (ops.of_uint goodput_bps))
              (ops.mul (ops.sub (ops.of_uint 1) cfg.ewma_alpha) c.ewma_goodput_bps);
      })
      else (record c {
        ewma_goodput_bps = ops.of_uint goodput_bps;
        has_goodput = true;
        next_increase_us = if c.next_increase_us == 0 then later now_us else c.next_increase_us;
      })

  abbrev pub decreased_target : ℕ → ℕ
  unfolding clamp_bitrate
  decreased_target target =
      clamp_bitrate (ops.to_uint (ops.mul (ops.of_uint target) cfg.decrease_factor))

  -- The target and the state where the loss is confirmed.
  unfoldable pub decrease : BitrateController F → ℕ → BitrateController F
  unfolding clamp_bitrate
  decrease c smoothed =
      if not c.loss_observe
      then (record c {
        loss_observe = true;
        target_bps =
            if ltb 0 smoothed && ltb smoothed c.target_bps
            then clamp_bitrate smoothed
            else decreased_target c.target_bps;
        loss_rounds = 1;
        cooldown_remaining = cfg.cooldown_windows;
      })
      else if leb cfg.max_loss_rounds c.loss_rounds
      then (record c {
        target_bps = decreased_target c.target_bps;
        loss_rounds = 0;
        cooldown_remaining = cfg.cooldown_windows;
      })
      else c

  unfoldable pub on_loss : BitrateController F → ℕ → F → BitrateController F
  unfolding decrease apply_adaptive_fec
  on_loss c smoothed loss_rate =
      let counted = record c {
        good_windows = 0;
        loss_streak = (c.loss_streak + 1) % 2 ^ 32;
        loss_rounds = (c.loss_rounds + 1) % 2 ^ 32;
      } in
      let next =
        if ltb counted.loss_streak cfg.loss_confirm_windows
        then counted
        else decrease counted smoothed in
      record next { fec = apply_adaptive_fec next.fec loss_rate }

  -- The next target where a rise is due.
  unfoldable pub increase : BitrateController F → ℕ → BitrateController F
  unfolding clamp_bitrate
  increase c now_us =
      let next =
        clamp_bitrate (ops.to_uint (ops.mul (ops.of_uint c.target_bps) cfg.increase_factor)) in
      if ltb c.target_bps next
      then (record c { target_bps = next; next_increase_us = later now_us })
      else c

  unfoldable pub on_recovery : BitrateController F → ℕ → F → BitrateController F
  unfolding increase apply_adaptive_fec
  on_recovery c now_us loss_rate =
      let calm = record c {
        loss_streak = 0;
        loss_observe = false;
        good_windows = (c.good_windows + 1) % 2 ^ 32;
        fec = apply_adaptive_fec c.fec loss_rate;
      } in
      if calm.cooldown_remaining == 0
        && (ops.at_most loss_rate cfg.loss_up_threshold && leb calm.next_increase_us now_us)
      then increase calm now_us
      else calm

  abbrev pub cool : BitrateController F → BitrateController F
  cool c = record c { cooldown_remaining = c.cooldown_remaining - 1 }

  -- onFeedback up to the advice.
  unfoldable pub adapt : BitrateController F → ℕ → ℕ → F → BitrateController F
  unfolding smooth on_loss on_recovery
  adapt c now_us goodput_bps loss_rate =
      let s = cool (smooth c now_us goodput_bps) in
      if ops.less cfg.loss_down_threshold loss_rate
      then on_loss s (ops.to_uint s.ewma_goodput_bps) loss_rate
      else on_recovery s now_us loss_rate

  unfoldable pub on_feedback : BitrateController F → ℕ → ℕ → F → BitrateController F × Bool
  unfolding adapt emit_advice
  on_feedback c now_us goodput_bps loss_rate =
      let next = adapt c now_us goodput_bps loss_rate in
      emit_advice next (ops.to_uint next.ewma_goodput_bps) loss_rate
