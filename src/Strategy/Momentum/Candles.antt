-- ===== src/Strategy/Momentum/Candles.antt =====
-- internal/strategy/momentum.go, `OnCandle`: the indicators, the arrays of the last candles, and the
-- signal; with what the accessors report.
use scalp_bot_os.Base.{
  ℕ, ◌+◌, ◌%◌, Bool, true, not, ◌&&◌, ◌||◌, ltb, if◌then◌else◌, set, Float, ◌/F◌, ◌>F◌, lit, is_nan,
}
use scalp_bot_os.Model.Types.{Signal, Candle}
use scalp_bot_os.Indicator.Ema as Ema
use scalp_bot_os.Indicator.Rsi.{rsi_update, rsi_value}
use scalp_bot_os.Indicator.Atr as Atr
use scalp_bot_os.Indicator.Sma.{sma_update}
use scalp_bot_os.Strategy.{silent}
use scalp_bot_os.Strategy.Momentum.{MomentumScalper, Readings}
use scalp_bot_os.Strategy.Momentum.Crossover.{evaluate_crossover}

abbrev pub next_count : ℕ → ℕ → ℕ
next_count most n = if ltb n most then n + 1 else n

module _ {F : Type 0} ⦃f : Float F⦄ where
  abbrev pub readings : MomentumScalper F → Candle F → Readings F
  readings m c = record {
    fast_val = (Ema.update m.fast c.closed).0;
    slow_val = (Ema.update m.slow c.closed).0;
    rsi_val = (rsi_update m.rsi c.closed).1;
    atr_val = (Atr.update m.atr c).0;
  }

  abbrev pub with_indicators : MomentumScalper F → Candle F → MomentumScalper F
  with_indicators m c = record m {
    fast = (Ema.update m.fast c.closed).1;
    slow = (Ema.update m.slow c.closed).1;
    rsi = (rsi_update m.rsi c.closed).0;
    atr = (Atr.update m.atr c).1;
  }

  -- The baseline of the range, and its ratio to it.
  abbrev pub with_baseline : MomentumScalper F → F → MomentumScalper F
  with_baseline m atr_val =
      let (sma, avg) = sma_update m.atr_sma atr_val in
      if not (is_nan atr_val) && (atr_val >F lit 0)
      then record m {
        atr_sma = sma;
        last_vol_ratio = if avg >F lit 0 then atr_val /F avg else m.last_vol_ratio;
      }
      else m

  abbrev pub is_cold : Readings F → Bool
  is_cold r = is_nan r.fast_val || (is_nan r.slow_val || (is_nan r.rsi_val || is_nan r.atr_val))

  -- The arrays with one average and one candle more.
  unfoldable pub keep_candle : MomentumScalper F → F → Candle F → MomentumScalper F
  keep_candle m fast_val c = record m {
    fast_history = set m.fast_history m.fast_hist_idx fast_val;
    fast_hist_idx = (m.fast_hist_idx + 1) % 6;
    fast_hist_len = next_count 6 m.fast_hist_len;
    high_history = set m.high_history m.candle_idx c.high;
    low_history = set m.low_history m.candle_idx c.low;
    candle_idx = (m.candle_idx + 1) % 10;
    candle_count = next_count 10 m.candle_count;
  }

  abbrev pub with_previous : MomentumScalper F → Readings F → Bool → MomentumScalper F
  with_previous m r known = record m {
    prev_fast = r.fast_val;
    prev_slow = r.slow_val;
    has_prev = known;
  }

  -- The scalper that judges the crossover of a candle whose indicators are all warm.
  abbrev pub judging : MomentumScalper F → Candle F → MomentumScalper F
  judging m c =
      let r = readings m c in
      keep_candle (with_baseline (with_indicators m c) r.atr_val) r.fast_val c

  unfoldable pub on_candle : MomentumScalper F → Candle F → MomentumScalper F × Signal F
  on_candle m c =
      let r = readings m c in
      if is_cold r
      then (
        with_previous (with_baseline (with_indicators m c) r.atr_val) r
            (not (is_nan r.fast_val) && not (is_nan r.slow_val)),
        silent,
      )
      else if not m.has_prev
      then (with_previous (judging m c) r true, silent)
      else (with_previous (judging m c) r m.has_prev, evaluate_crossover (judging m c) r c)

  unfoldable pub fast_ema : MomentumScalper F → F
  fast_ema m = Ema.value_of m.fast

  unfoldable pub slow_ema : MomentumScalper F → F
  slow_ema m = Ema.value_of m.slow

  unfoldable pub rsi_of : MomentumScalper F → F
  rsi_of m = rsi_value m.rsi

  unfoldable pub atr_of : MomentumScalper F → F
  atr_of m = Atr.value_of m.atr
