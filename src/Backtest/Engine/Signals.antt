-- ===== src/Backtest/Engine/Signals.antt =====
-- internal/backtest/engine.go, `Run`: the trends of the greater timeframes, the signal of a closed
-- candle, and the gates that it passes to an order.
use scalp_bot_os.Base.{
  ℕ, ◌+◌, Bool, true, false, not, ◌&&◌, if◌then◌else◌, Option, none, some, Float, ◌*F◌, ◌<F◌, ◌>F◌,
  ◌≤F◌, lit, dec, is_nan,
}
use scalp_bot_os.Model.Types.{Signal, SignalType, Tick, Candle, OrderRequest, is_actionable}
use scalp_bot_os.MarketData.Aggregator as Aggregator
use scalp_bot_os.Indicator.Ema as Ema
use scalp_bot_os.Strategy.{silent}
use scalp_bot_os.Strategy.Momentum.{MomentumScalper}
use scalp_bot_os.Strategy.Momentum.Candles.{on_candle, fast_ema, slow_ema, rsi_of, atr_of}
use scalp_bot_os.Strategy.Range.{RangeScalper, range_on_candle}
use scalp_bot_os.Risk.Manager.Evaluate.{Outcome, evaluate_with_confidence}
use scalp_bot_os.Ai.Hmm.{MarketState}
use scalp_bot_os.Ai.Features.{Inputs}
use scalp_bot_os.Ai.Filter.{update_hmm, evaluate_signal}
use scalp_bot_os.Backtest.Engine.{EngineConfig, Simulation, Macro, Trend}
use scalp_bot_os.Backtest.Engine.Fills.{fill_order}

-- The hour comes before the quarter.
abbrev pub effective_trend : Trend → Trend → Trend
effective_trend Trend.neutral m15 = m15
effective_trend Trend.bullish m15 = Trend.bullish
effective_trend Trend.bearish m15 = Trend.bearish

abbrev pub is_against : Trend → SignalType → Bool
is_against Trend.bearish SignalType.buy = true
is_against Trend.bearish SignalType.sell = false
is_against Trend.bearish SignalType.no_signal = false
is_against Trend.bullish SignalType.sell = true
is_against Trend.bullish SignalType.buy = false
is_against Trend.bullish SignalType.no_signal = false
is_against Trend.neutral type = false

module _ {F : Type 0} ⦃f : Float F⦄ where
  abbrev pub trend_of : Trend → F → F → Trend
  trend_of before fast slow =
      if not (is_nan fast) && not (is_nan slow)
      then (if fast >F (slow *F dec 10001 4)
          then Trend.bullish
          else if fast <F (slow *F dec 9999 4)
          then Trend.bearish
          else Trend.neutral)
      else before

  abbrev pub macro_candle : Macro F → Candle F → Macro F
  macro_candle m c = record m {
    fast = (Ema.update m.fast c.closed).1;
    slow = (Ema.update m.slow c.closed).1;
    trend = trend_of m.trend (Ema.update m.fast c.closed).0 (Ema.update m.slow c.closed).0;
  }

  unfoldable pub macro_on_tick : Macro F → Tick F → Macro F
  macro_on_tick m tick =
      let (candle, closed, aggregator) = Aggregator.on_tick m.aggregator tick in
      let next = record m { aggregator = aggregator } in
      if closed then macro_candle next candle else next

  abbrev pub greater_zero : F → F → F
  greater_zero x otherwise = if x >F lit 0 then x else otherwise

  -- The state after the model has seen a closed candle.
  abbrev pub candle_seen : Simulation F → Candle F → Simulation F
  candle_seen s c =
      let atr = greater_zero (atr_of s.strat) s.atr_val in
      record s {
        last_closed_candle = c;
        atr_val = atr;
        ai_filter = (update_hmm s.ai_filter c atr).0;
        funnel = record s.funnel { candles_closed = s.funnel.candles_closed + 1 };
      }

  abbrev pub generated : Simulation F → Simulation F
  generated s = record s {
    funnel = record s.funnel { signals_generated = s.funnel.signals_generated + 1 };
  }

  abbrev pub count_signal : Simulation F → Signal F → Simulation F × Signal F
  count_signal s sig = if is_actionable sig then (generated s, sig) else (s, silent)

  -- The range scalper is asked in noise only.
  abbrev pub range_signal :
      ℕ → Simulation F → Candle F → MarketState → RangeScalper F → Simulation F × Signal F
  range_signal clock s c MarketState.state_noise r =
      let (r', sig) = range_on_candle clock r c in
      count_signal (record s { range_strat = some r' }) sig
  range_signal clock s c MarketState.state_bull r = (s, silent)
  range_signal clock s c MarketState.state_bear r = (s, silent)

  abbrev pub second_signal :
      Bool → ℕ → Simulation F → Candle F → Option (RangeScalper F) → Simulation F × Signal F
  second_signal true clock s c (some r) = range_signal clock s c s.ai_filter.last_hmm_state r
  second_signal true clock s c none = (s, silent)
  second_signal false clock s c o = (s, silent)

  abbrev pub with_strat : Simulation F → MomentumScalper F → Simulation F
  with_strat s strat = record s { strat = strat }

  unfoldable pub candle_signal :
      EngineConfig F → ℕ → Simulation F → Candle F → Simulation F × Signal F
  candle_signal cfg clock s₀ c =
      let s = candle_seen s₀ c in
      let (strat, sig) = on_candle s.strat c in
      let next = with_strat s strat in
      if is_actionable sig
      then (generated next, sig)
      else second_signal cfg.enable_dual_mode clock next c next.range_strat

  unfoldable pub tick_signal : EngineConfig F → ℕ → Simulation F → Tick F → Simulation F × Signal F
  unfolding candle_signal
  tick_signal cfg clock s tick =
      let (candle, closed, aggregator) = Aggregator.on_tick s.aggregator tick in
      let next = record s { aggregator = aggregator } in
      if closed then candle_signal cfg clock next candle else (next, silent)

  abbrev pub inputs_of : Simulation F → Inputs F
  inputs_of s =
      let atr = atr_of s.strat in
      record {
        fast_ema = fast_ema s.strat;
        slow_ema = slow_ema s.strat;
        rsi = rsi_of s.strat;
        atr = if atr ≤F lit 0 then s.atr_val else atr;
        tps = dec 50 1;
      }

  abbrev pub macro_rejected : Simulation F → Simulation F
  macro_rejected s = record s {
    funnel = record s.funnel { macro_rejections = s.funnel.macro_rejections + 1 };
  }

  abbrev pub ai_rejected : Simulation F → Simulation F
  ai_rejected s = record s {
    funnel = record s.funnel { ai_rejections = s.funnel.ai_rejections + 1 };
  }

  abbrev pub risk_rejected : Simulation F → Simulation F
  risk_rejected s = record s {
    funnel = record s.funnel { risk_rejections = s.funnel.risk_rejections + 1 };
  }

  -- The answer of the risk manager; with whether the round goes on to the equity curve.
  abbrev pub ordered :
      EngineConfig F
      → ℕ
      → Tick F
      → Signal F
      → Simulation F
      → Outcome (OrderRequest F)
      → Simulation F × Bool
  ordered cfg clock tick sig s (Outcome.rejected e) = (risk_rejected s, false)
  ordered cfg clock tick sig s (Outcome.approved order) =
      (fill_order cfg clock tick sig s order, true)

  abbrev pub risk_gate :
      EngineConfig F → ℕ → Tick F → Signal F → Simulation F → F → Simulation F × Bool
  risk_gate cfg clock tick sig s confidence =
      let (m, outcome) = evaluate_with_confidence s.risk_mgr sig tick s.atr_val confidence clock in
      ordered cfg clock tick sig (record s { risk_mgr = m }) outcome

  -- The gates of an actionable signal, in their order.
  unfoldable pub decide :
      EngineConfig F → ℕ → Tick F → Signal F → Simulation F → Simulation F × Bool
  decide cfg clock tick sig s =
      let (ai, j) = evaluate_signal s.ai_filter sig tick (inputs_of s) s.last_closed_candle in
      let judged = record s { ai_filter = ai } in
      if is_against (effective_trend s.h1.trend s.m15.trend) sig.type
      then (macro_rejected s, false)
      else if not j.allowed
      then (ai_rejected judged, false)
      else risk_gate cfg clock tick sig judged j.confidence
