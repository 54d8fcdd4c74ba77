-- ===== src/Backtest/Engine/Loop.antt =====
-- internal/backtest/engine.go, `Run`: a round of the loop over the ticks, and the whole run.
use scalp_bot_os.Base.{
  ℕ, ◌+◌, ◌%◌, ◌==◌, Bool, true, false, ◌||◌, if◌then◌else◌, List, [], ◌∷◌, ◌++◌, map, length,
  Option, none, some, bytes, Float, ◌+F◌, lit,
}
use scalp_bot_os.Model.Types.{Tick, Signal, is_actionable}
use scalp_bot_os.Strategy.Momentum.{MomentumScalper, new_momentum_scalper}
use scalp_bot_os.Strategy.Range.{RangeScalper, new_range_scalper}
use scalp_bot_os.Executor.Tracker.{active_positions}
use scalp_bot_os.Executor.Tracker.OnTick as OnTick
use scalp_bot_os.Ai.Filter.{filter_on_tick}
use scalp_bot_os.Backtest.Metrics.{TradeRecord, PerformanceReport, calculate_metrics, sum_of}
use scalp_bot_os.Backtest.Engine.{EngineConfig, Simulation, start_simulation}
use scalp_bot_os.Backtest.Engine.Fills.{pip_mult, settle_all}
use scalp_bot_os.Backtest.Engine.Signals.{macro_on_tick, tick_signal, decide}

-- A run needs ticks, and strategies that can be made: with a period of zero the source panics on
-- the first candle.
pub data RunResult (F : Type 0) : Type 0 where
  empty_ticks broken_strategy : RunResult F
  finished : PerformanceReport F → List (TradeRecord F) → RunResult F

module _ {F : Type 0} ⦃f : Float F⦄ where
  -- The closes of the tick, then the trends.
  unfoldable pub track_tick : EngineConfig F → ℕ → Simulation F → Tick F → Simulation F
  unfolding settle_all
  track_tick cfg clock s tick =
      let (closes, tracker) = OnTick.on_tick s.tracker tick s.atr_val (pip_mult cfg) clock in
      let seen = record s { ai_filter = filter_on_tick s.ai_filter tick; tracker = tracker } in
      let settled = settle_all cfg tick seen closes in
      record settled { m15 = macro_on_tick settled.m15 tick; h1 = macro_on_tick settled.h1 tick }

  abbrev pub floating_pnl : Simulation F → F
  floating_pnl s = sum_of (lit 0) (map (λ p. p.current_pnl) (active_positions s.tracker))

  abbrev pub with_point : Simulation F → Tick F → Simulation F
  with_point s tick = record s {
    equity_curve =
        s.equity_curve
        ++ (record {
          timestamp_ns = tick.timestamp_ns;
          equity = s.current_balance +F floating_pnl s;
          drawdown_pct = lit 0;
        }
            ∷ []);
  }

  -- Every 500 ticks, and on the last one, whose index is `last`.
  abbrev pub sample : ℕ → ℕ → Tick F → Simulation F → Simulation F
  sample i last tick s = if ((i % 500) == 0) || (i == last) then with_point s tick else s

  -- A round whose signal is turned away does not come to the sample.
  abbrev pub sampled : ℕ → ℕ → Tick F → Simulation F × Bool → Simulation F
  sampled i last tick (s, true) = sample i last tick s
  sampled i last tick (s, false) = s

  abbrev pub act : EngineConfig F → ℕ → Tick F → Simulation F × Signal F → Simulation F × Bool
  act cfg clock tick (s, sig) = if is_actionable sig then decide cfg clock tick sig s else (s, true)

  unfoldable pub round : EngineConfig F → (ℕ → ℕ) → ℕ → ℕ → Simulation F → Tick F → Simulation F
  unfolding track_tick tick_signal decide
  round cfg clock last i s tick =
      sampled i last tick
        (act cfg (clock i) tick (tick_signal cfg (clock i) (track_tick cfg (clock i) s tick) tick))

  unfoldable pub rounds_over :
      EngineConfig F → (ℕ → ℕ) → ℕ → ℕ → Simulation F → List (Tick F) → Simulation F
  unfolding round
  rounds_over cfg clock last i s [] = s
  rounds_over cfg clock last i s (tick ∷ ticks) =
      rounds_over cfg clock last (i + 1) (round cfg clock last i s tick) ticks

  abbrev pub range_strategy_of : EngineConfig F → Option (Option (RangeScalper F))
  range_strategy_of cfg =
      if cfg.enable_dual_mode
      then elim (new_range_scalper (bytes "range_scalper") cfg.range_config) [
        | some r ↦ some (some r)
        | none ↦ none
      ]
      else some none

  abbrev pub run_with :
      EngineConfig F
      → F
      → (ℕ → ℕ)
      → MomentumScalper F
      → Option (RangeScalper F)
      → Tick F
      → List (Tick F)
      → RunResult F
  run_with cfg two_pi clock strat range_strat first ticks =
      let start = start_simulation cfg two_pi strat range_strat first.timestamp_ns in
      let s = rounds_over cfg clock (length ticks) 0 start (first ∷ ticks) in
      RunResult.finished (calculate_metrics cfg.initial_balance s.trades s.equity_curve) s.trades

  unfoldable pub run : EngineConfig F → F → (ℕ → ℕ) → List (Tick F) → RunResult F
  run cfg two_pi clock [] = RunResult.empty_ticks
  run cfg two_pi clock (tick ∷ ticks) =
      elim (new_momentum_scalper (bytes "scalper") cfg.strategy_config) [
        | none ↦ RunResult.broken_strategy
        | some strat ↦ elim (range_strategy_of cfg) [
          | none ↦ RunResult.broken_strategy
          | some range_strat ↦ run_with cfg two_pi clock strat range_strat tick ticks
        ]
      ]
