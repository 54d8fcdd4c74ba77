-- ===== src/Strategy/Momentum/Crossover.antt =====
-- internal/strategy/momentum.go, `evaluateCrossover`: the conditions of a signal. A part of the
-- function gives the signal it returns, or nothing where it goes on to the next part.
use scalp_bot_os.Base.{
  ◌+◌, ◌-◌, ◌%◌, Bool, true, false, ◌&&◌, ◌||◌, leb, if◌then◌else◌, Option, none, some, get_or,
  Text, bytes, ◌++◌, Float, ◌+F◌, ◌-F◌, ◌*F◌, ◌<F◌, ◌≤F◌, ◌>F◌, ◌≥F◌, lit, dec,
}
use scalp_bot_os.Model.Types.{SignalType, Signal, Candle}
use scalp_bot_os.Strategy.{silent}
use scalp_bot_os.Strategy.Momentum.{
  MomentumScalper, Readings, recent_swing_high, recent_swing_low, compute_structure_sltp,
  compute_strength,
}

module _ {F : Type 0} ⦃f : Float F⦄ where
  -- Less than the least ratio to the baseline, where the baseline is known.
  abbrev pub is_dormant : MomentumScalper F → Bool
  is_dormant m =
      (m.cfg.min_vol_ratio >F lit 0)
      && (m.atr_sma.ready && (m.last_vol_ratio <F m.cfg.min_vol_ratio))

  abbrev pub fast_slope : MomentumScalper F → F → F
  fast_slope m fast =
      if leb 3 m.fast_hist_len
      then fast -F get_or m.fast_history ((m.fast_hist_idx + 6 - 3) % 6) (lit 0)
      else if leb 2 m.fast_hist_len
      then fast -F get_or m.fast_history ((m.fast_hist_idx + 6 - 2) % 6) (lit 0)
      else lit 0

  -- A signal at an entry, with the stops around a swing.
  abbrev pub signal_at : Candle F → SignalType → Bool → F → F → F → F → Text → Signal F
  signal_at c type is_buy entry atr swing strength id =
      let (sl, tp) = compute_structure_sltp c.symbol entry atr swing is_buy in
      record {
        type = type;
        symbol = c.symbol;
        price = entry;
        strength = strength;
        stop_loss = sl;
        take_profit = tp;
        timestamp_ns = c.timestamp_ns;
        strategy_id = id;
      }

  abbrev pub has_discount : MomentumScalper F → Bool
  has_discount m = m.cfg.enable_limit_pullback && (m.cfg.pullback_discount_atr >F lit 0)

  abbrev pub buy_entry : MomentumScalper F → Readings F → Candle F → F
  buy_entry m r c =
      let discount = c.closed -F (m.cfg.pullback_discount_atr *F r.atr_val) in
      if has_discount m then (if discount >F r.fast_val then discount else r.fast_val) else c.closed

  abbrev pub sell_entry : MomentumScalper F → Readings F → Candle F → F
  sell_entry m r c =
      let discount = c.closed +F (m.cfg.pullback_discount_atr *F r.atr_val) in
      if has_discount m then (if discount <F r.fast_val then discount else r.fast_val) else c.closed

  abbrev pub buy_at : MomentumScalper F → Readings F → Candle F → F → F → Text → Signal F
  buy_at m r c entry strength id =
      signal_at c SignalType.buy true entry r.atr_val (recent_swing_low m 5) strength id

  abbrev pub sell_at : MomentumScalper F → Readings F → Candle F → F → F → Text → Signal F
  sell_at m r c entry strength id =
      signal_at c SignalType.sell false entry r.atr_val (recent_swing_high m 5) strength id

  abbrev pub strength_of : Readings F → F
  strength_of r = compute_strength r.fast_val r.slow_val r.rsi_val

  abbrev pub crosses_above : MomentumScalper F → Readings F → Bool
  crosses_above m r = (m.prev_fast ≤F m.prev_slow) && (r.fast_val >F r.slow_val)

  abbrev pub crosses_below : MomentumScalper F → Readings F → Bool
  crosses_below m r = (m.prev_fast ≥F m.prev_slow) && (r.fast_val <F r.slow_val)

  -- The slope guard, where it is known, and the guard against a close far from the average.
  abbrev pub is_not_rising : MomentumScalper F → Readings F → Bool
  is_not_rising m r = leb 2 m.fast_hist_len && (fast_slope m r.fast_val ≤F lit 0)

  abbrev pub is_not_falling : MomentumScalper F → Readings F → Bool
  is_not_falling m r = leb 2 m.fast_hist_len && (fast_slope m r.fast_val ≥F lit 0)

  abbrev pub is_extended_up : Readings F → Candle F → Bool
  is_extended_up r c = (c.closed -F r.fast_val) >F (r.atr_val *F dec 40 2)

  abbrev pub is_extended_down : Readings F → Candle F → Bool
  is_extended_down r c = (r.fast_val -F c.closed) >F (r.atr_val *F dec 40 2)

  unfoldable pub bullish_crossover : MomentumScalper F → Readings F → Candle F → Option (Signal F)
  bullish_crossover m r c =
      if crosses_above m r
      then (if is_not_rising m r
          then some silent
          else if r.rsi_val <F m.cfg.rsi_overbought
          then (if is_extended_up r c
              then some silent
              else some (buy_at m r c (buy_entry m r c) (strength_of r) m.id))
          else none)
      else none

  unfoldable pub bearish_crossover : MomentumScalper F → Readings F → Candle F → Option (Signal F)
  bearish_crossover m r c =
      if crosses_below m r
      then (if is_not_falling m r
          then some silent
          else if r.rsi_val >F m.cfg.rsi_oversold
          then (if is_extended_down r c
              then some silent
              else some (sell_at m r c (sell_entry m r c) (strength_of r) m.id))
          else none)
      else none

  -- The range of the candle, a cent where there is none.
  abbrev pub candle_range : Candle F → F
  candle_range c = if (c.high -F c.low) ≤F lit 0 then dec 1 2 else c.high -F c.low

  abbrev pub is_buy_pullback : Readings F → Candle F → Bool
  is_buy_pullback r c =
      let lower_wick = f.min c.opened c.closed -F c.low in
      let rejection =
        (lower_wick ≥F (dec 20 2 *F candle_range c))
        || ((c.closed >F c.opened) && (c.closed ≥F (r.fast_val -F (r.atr_val *F dec 20 2)))) in
      (c.low ≤F (r.fast_val +F (r.atr_val *F dec 15 2)))
      && (((c.closed -F r.fast_val) ≤F (r.atr_val *F dec 40 2)) && rejection)

  abbrev pub is_sell_pullback : Readings F → Candle F → Bool
  is_sell_pullback r c =
      let upper_wick = c.high -F f.max c.opened c.closed in
      let rejection =
        (upper_wick ≥F (dec 20 2 *F candle_range c))
        || ((c.closed <F c.opened) && (c.closed ≤F (r.fast_val +F (r.atr_val *F dec 20 2)))) in
      (c.high ≥F (r.fast_val -F (r.atr_val *F dec 15 2)))
      && (((r.fast_val -F c.closed) ≤F (r.atr_val *F dec 40 2)) && rejection)

  abbrev pub is_uptrend : MomentumScalper F → Readings F → Bool
  is_uptrend m r = (r.fast_val >F r.slow_val) && (m.prev_fast >F m.prev_slow)

  abbrev pub is_downtrend : MomentumScalper F → Readings F → Bool
  is_downtrend m r = (r.fast_val <F r.slow_val) && (m.prev_fast <F m.prev_slow)

  abbrev pub in_buy_band : Readings F → Bool
  in_buy_band r = (r.rsi_val ≥F lit 40) && (r.rsi_val ≤F lit 68)

  abbrev pub in_sell_band : Readings F → Bool
  in_sell_band r = (r.rsi_val ≤F lit 60) && (r.rsi_val ≥F lit 32)

  unfoldable pub pullback : MomentumScalper F → Readings F → Candle F → Signal F
  pullback m r c =
      let id = m.id ++ bytes "-pullback" in
      if is_uptrend m r
      then (if is_buy_pullback r c && in_buy_band r
          then buy_at m r c c.closed (dec 85 2) id
          else silent)
      else if is_downtrend m r
      then (if is_sell_pullback r c && in_sell_band r
          then sell_at m r c c.closed (dec 85 2) id
          else silent)
      else silent

  abbrev pub or_else : Option (Signal F) → Signal F → Signal F
  or_else (some s) next = s
  or_else none next = next

  unfoldable pub evaluate_crossover : MomentumScalper F → Readings F → Candle F → Signal F
  evaluate_crossover m r c =
      if r.atr_val <F m.cfg.atr_minimum
      then silent
      else if is_dormant m
      then silent
      else or_else (bullish_crossover m r c) (or_else (bearish_crossover m r c) (pullback m r c))
