-- ===== src/Tests/Strategy.antt =====
-- Runs of the strategies.
use scalp_bot_os.Base.{
  ℕ, ◌≡◌, refl, ◌⊎◌, ◌==◌, if◌then◌else◌, pos, List, [], ◌∷◌, map, length, bytes, lit, dec, arith,
}
use scalp_bot_os.Indicator.Ema as Ema
use scalp_bot_os.Indicator.Atr as Atr
use scalp_bot_os.Strategy.Momentum.Crossover.{bullish_crossover, evaluate_crossover}
use scalp_bot_os.Indicator.Sma.{new_sma, sma_update}
use scalp_bot_os.Base.Fixed.{Fixed, fixed_float, Fixed-IsOrdered, root}
use scalp_bot_os.Model.Types.{Candle, Signal, SignalType, zero_candle}
use scalp_bot_os.Indicator.Ema.{fresh_ema}
use scalp_bot_os.Indicator.Rsi.{fresh_rsi, rsi_update, rsi_change, compute_rsi}
use scalp_bot_os.Indicator.Atr.{fresh_atr, true_range}
use scalp_bot_os.Indicator.Bollinger.{new_bollinger, bollinger_update, variance_sum, bands}
use scalp_bot_os.Strategy.Momentum.{
  MomentumScalper, default_momentum_config, momentum_with, beaten, recent_swing_high,
  recent_swing_low,
}
use scalp_bot_os.Strategy.Momentum.Candles.{readings, judging, on_candle, keep_candle}
use scalp_bot_os.Strategy.Momentum.Guards.{Guarded, on_candle-Guarded}
use scalp_bot_os.Strategy.Momentum.Swings.{
  run_candles, warm_candles, highest, lowest, newest, recent_swing-newest,
}
use scalp_bot_os.Strategy.Range.{RangeScalper, default_range_config, range_on_candle}
use scalp_bot_os.Strategy.Range.Signals.{range_on_candle_once}
use scalp_bot_os.Tests.Inputs.{gold}

abbrev candle : ℕ → ℕ → ℕ → ℕ → ℕ → Candle Fixed
candle opened high low closed time = record (zero_candle) {
  symbol = gold;
  opened = lit opened;
  high = lit high;
  low = lit low;
  closed = lit closed;
  timestamp_ns = time;
}

-- Short periods, so that few candles warm the indicators.
abbrev start : MomentumScalper Fixed
start =
    momentum_with (bytes "m") default_momentum_config (fresh_ema 1) (fresh_ema 2) (fresh_rsi 2)
      (fresh_atr 2)

abbrev falling : List (Candle Fixed)
falling =
    candle 2010 2011 2005 2006 1
    ∷ candle 2006 2007 2002 2003 2
    ∷ candle 2003 2004 2000 2001 3
    ∷ candle 2001 2002 1999 2000 4
    ∷ []

abbrev turn : Candle Fixed
turn = candle 2000 2004 2000 2003 5

abbrev bought : Signal Fixed
bought = (on_candle (run_candles start falling) turn).1

-- The fast average crosses the slow one from below: the scalper buys at the close.
buys : (bought.type ≡ SignalType.buy) × (bought.price ≡ lit 2003)
unfolding on_candle run_candles Ema.update Atr.update rsi_update rsi_change true_range compute_rsi
    keep_candle evaluate_crossover default_momentum_config sma_update new_sma bullish_crossover
buys = (refl, refl)

on_candle-Guarded_example :
    let m = run_candles start falling in
    Guarded (judging m turn) (readings m turn) turn (on_candle m turn).1
on_candle-Guarded_example = on_candle-Guarded Fixed-IsOrdered (run_candles start falling) turn

recent_swing-newest_example :
    let m = run_candles start falling in
    let seen = warm_candles start falling in
    let high = fixed_float.neg fixed_float.max_float64 in
    let low = fixed_float.max_float64 in
    (recent_swing_high m 2 ≡ (
      if length seen == 0
      then lit 0
      else beaten high (highest high (newest 2 (map (λ c. c.high) seen)))))
    × (recent_swing_low m 2 ≡ (
        if length seen == 0
        then lit 0
        else beaten low (lowest low (newest 2 (map (λ c. c.low) seen)))))
recent_swing-newest_example =
    recent_swing-newest (bytes "m") default_momentum_config (fresh_ema 1) (fresh_ema 2)
      (fresh_rsi 2) (fresh_atr 2) falling 2 (omega arith)

-- Two candles found the indicators warm, and their lowest low is that of the last one.
low_of_two : recent_swing_low (run_candles start falling) 2 ≡ lit 1999
unfolding recent_swing_low run_candles on_candle Ema.update Atr.update rsi_update rsi_change
    true_range compute_rsi keep_candle
low_of_two = refl

abbrev ranging : RangeScalper Fixed
ranging = record {
  id = bytes "range";
  cfg = record default_range_config { bandwidth_max = lit 0 };
  bb = new_bollinger (pos 2) (dec 18 1);
  rsi = fresh_rsi 1;
  atr = fresh_atr 1;
  last_signal_type = SignalType.no_signal;
  last_signal_time = 0;
}

abbrev dropped : RangeScalper Fixed
dropped = (range_on_candle 0 ranging (candle 2010 2011 2009 2010 1)).0

abbrev dip : Candle Fixed
dip = candle 2010 2010 1990 2000 2

-- The low is below the lower band, and the relative strength is down.
bounces : (range_on_candle 0 dropped dip).1.type ≡ SignalType.buy
unfolding range_on_candle bollinger_update new_bollinger bands rsi_update rsi_change Atr.update
    variance_sum root compute_rsi default_range_config
bounces = refl

range_on_candle_once_example :
    ((range_on_candle 0 dropped dip).1.type ≡ SignalType.no_signal)
    ⊎ ((range_on_candle 0 (range_on_candle 0 dropped dip).0 dip).1.type ≡ SignalType.no_signal)
range_on_candle_once_example = range_on_candle_once 0 0 dropped dip dip refl
