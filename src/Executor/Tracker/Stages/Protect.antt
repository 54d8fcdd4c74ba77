-- ===== src/Executor/Tracker/Stages/Protect.antt =====
-- The stages of `OnTick` in internal/executor/tracker.go that protect a gain: the profit locker, the
-- break-even and the trailing stop.
use scalp_bot_os.Base.{
  ℕ, Bool, true, false, not, ◌&&◌, ltb, if◌then◌else◌, List, [], ◌∷◌, Float, ◌+F◌, ◌-F◌, ◌*F◌, ◌/F◌,
  ◌<F◌, ◌>F◌, ◌≥F◌, dec, lit,
}
use scalp_bot_os.Model.Types.{Tick}
use scalp_bot_os.Executor.Tracker.{
  TrackedPosition, TrackerConfig, ModifyEvent, PositionState, TrailingMode,
}
use scalp_bot_os.Executor.Tracker.Stages.{
  by_side, is_gold, modify_event, nearer_stop, should_lock, should_trail, stop_at,
}

abbrev is_atr : TrailingMode → Bool
is_atr TrailingMode.trailing_atr = true
is_atr TrailingMode.trailing_fixed = false

module _ {F : Type 0} ⦃f : Float F⦄ where
  -- 3. The profit locker, for gold, or the break-even.
  abbrev pub at_least : F → F → F
  at_least low x = if x <F low then low else x

  unfoldable pub lock : TrackedPosition F → F → F → ℕ → TrackedPosition F × List (ModifyEvent F)
  lock p gain margin stage =
      if should_lock p (stop_at p gain) margin
      then (let q = record p {
        stop_loss = stop_at p gain;
        profit_stage = stage;
        break_even_triggered = true;
        state = PositionState.pos_modified;
      } in
          (q, modify_event q ∷ []))
      else (p, [])

  unfoldable pub locker_stage :
      TrackerConfig F → TrackedPosition F → F → F → F → TrackedPosition F × List (ModifyEvent F)
  locker_stage cfg p gain atr pip_mult =
      if (gain ≥F f.max (atr *F cfg.stage3_atr_mult) (dec 850 2)) && ltb p.profit_stage 3
      then lock p (at_least (dec 750 2) (gain *F dec 75 2)) (dec 25 2) 3
      else if (gain ≥F f.max (atr *F cfg.stage2_atr_mult) (dec 600 2)) && ltb p.profit_stage 2
      then lock p (at_least (dec 350 2) (gain *F dec 50 2)) (dec 25 2) 2
      else if (gain ≥F f.max (atr *F cfg.stage1_atr_mult) (dec 300 2)) && ltb p.profit_stage 1
      then lock p (f.max (cfg.break_even_buff_pips /F pip_mult) (dec 20 2)) (dec 15 2) 1
      else (p, [])

  abbrev pub break_even_pips : TrackerConfig F → TrackedPosition F → F → F
  break_even_pips cfg p atr =
      if is_gold p
      then at_least (f.max ((atr *F lit 100) *F dec 15 1) (lit 500)) cfg.break_even_pips
      else cfg.break_even_pips

  unfoldable pub break_even_stage :
      TrackerConfig F → TrackedPosition F → F → F → F → TrackedPosition F × List (ModifyEvent F)
  break_even_stage cfg p pips atr pip_mult =
      let buffer = cfg.break_even_buff_pips /F pip_mult in
      if pips ≥F break_even_pips cfg p atr
      then (let q = record p {
        stop_loss =
            nearer_stop p (stop_at p (if is_gold p then f.max buffer (dec 15 2) else buffer));
        break_even_triggered = true;
        profit_stage = 1;
        state = PositionState.pos_modified;
      } in
          (q, modify_event q ∷ []))
      else (p, [])

  unfoldable pub protect_stage :
      TrackerConfig F → TrackedPosition F → F → F → F → F → TrackedPosition F × List (ModifyEvent F)
  protect_stage cfg p gain pips atr pip_mult =
      if cfg.enable_profit_locker && is_gold p
      then locker_stage cfg p gain atr pip_mult
      else if cfg.enable_break_even && not p.break_even_triggered
      then break_even_stage cfg p pips atr pip_mult
      else (p, [])

  -- 4. The trailing stop.
  abbrev pub trail_distance : TrackerConfig F → TrackedPosition F → F → F → F
  trail_distance cfg p atr pip_mult =
      let wanted =
        if is_atr cfg.trailing_mode && (atr >F lit 0)
        then atr *F cfg.trailing_atr_mult
        else cfg.trailing_stop_pips /F pip_mult in
      if is_gold p then at_least (f.max (atr *F dec 12 1) (dec 150 2)) wanted else wanted

  unfoldable pub trail_stop : TrackerConfig F → TrackedPosition F → Tick F → F → F → F
  trail_stop cfg p tick atr pip_mult =
      let dist = trail_distance cfg p atr pip_mult in
      by_side p.side (tick.bid -F dist) (tick.ask +F dist)

  abbrev pub trail_step : TrackedPosition F → F → F
  trail_step p pip_mult = if is_gold p then dec 25 2 else lit 5 /F pip_mult

  unfoldable pub trailing_stage :
      TrackerConfig F
      → TrackedPosition F
      → Tick F
      → F
      → F
      → F
      → TrackedPosition F × List (ModifyEvent F)
  trailing_stage cfg p tick pips atr pip_mult =
      if cfg.enable_trailing && (pips >F p.high_water_mark)
      then (let q = record p { high_water_mark = pips } in
          let stop = trail_stop cfg q tick atr pip_mult in
          if should_trail q stop (trail_step q pip_mult)
          then (let r = record q { stop_loss = stop; state = PositionState.pos_modified } in
              (r, modify_event r ∷ []))
          else (q, []))
      else (p, [])
