-- ===== src/Tests/Backtest.antt =====
-- Runs of the backtest.
use scalp_bot_os.Base.{◌≡◌, false, List, [], ◌∷◌, length, none, bytes, lit, dec}
use scalp_bot_os.Base.Fixed.{Fixed, fixed_float, Fixed-IsOrdered}
use scalp_bot_os.Model.Types.{Tick, OrderSide}
use scalp_bot_os.Indicator.Ema.{fresh_ema}
use scalp_bot_os.Indicator.Rsi.{fresh_rsi}
use scalp_bot_os.Indicator.Atr.{fresh_atr}
use scalp_bot_os.Strategy.Momentum.{MomentumScalper, default_momentum_config, momentum_with}
use scalp_bot_os.Strategy.Range.{default_range_config}
use scalp_bot_os.Risk.Manager.{default_manager_config}
use scalp_bot_os.Executor.Tracker.{default_tracker_config}
use scalp_bot_os.Ai.Filter.{default_filter_config}
use scalp_bot_os.Backtest.Metrics.{TradeRecord, count_at, calculate_metrics, sum_of}
use scalp_bot_os.Backtest.Metrics.Counts.{
  trades_with, is_win, is_loss, has_reason, calculate_metrics_counts,
}
use scalp_bot_os.Backtest.Engine.{EngineConfig, Simulation, start_simulation}
use scalp_bot_os.Backtest.Engine.Loop.{rounds_over}
use scalp_bot_os.Backtest.Engine.Accounts.{handled, profits}
use scalp_bot_os.Backtest.Engine.Ledger.{rounds_over-balance}
use scalp_bot_os.Tests.Inputs.{gold, tick_at}

abbrev trade : Fixed → TradeRecord Fixed
trade pnl = record {
  trade_id = bytes "BT-1";
  symbol = gold;
  side = OrderSide.side_buy;
  lots = dec 1 2;
  entry_price = lit 2000;
  exit_price = lit 2001;
  entry_time_ns = 1;
  exit_time_ns = 2;
  pnl = pnl;
  pnl_pips = lit 100;
  commission = lit 0;
  reason = bytes "SL_HIT";
  is_partial = false;
}

abbrev trades : List (TradeRecord Fixed)
trades = trade (lit 5) ∷ trade (fixed_float.neg (lit 2)) ∷ trade (lit 0) ∷ []

calculate_metrics_counts_example :
    let report = calculate_metrics (lit 1000) trades [] in
    (report.total_trades ≡ length trades)
    × (report.winning_trades ≡ trades_with is_win trades)
    × (report.losing_trades ≡ trades_with is_loss trades)
    × (count_at (bytes "SL_HIT") report.close_reasons
        ≡ trades_with (has_reason (bytes "SL_HIT")) trades)
calculate_metrics_counts_example =
    calculate_metrics_counts Fixed-IsOrdered (lit 1000) trades [] (bytes "SL_HIT")

abbrev config : EngineConfig Fixed
config = record {
  initial_balance = lit 1000;
  symbol = gold;
  candle_period = 60;
  slippage_pips = lit 1;
  commission_per_lot = dec 35 1;
  strategy_config = record default_momentum_config { min_vol_ratio = lit 0 };
  range_config = default_range_config;
  enable_dual_mode = false;
  risk_config = record default_manager_config { max_spread_pips = lit 60 };
  tracker_config = default_tracker_config;
  ai_config = record default_filter_config { enable_ml_filter = false };
  session_filter = none;
}

abbrev scalper : MomentumScalper Fixed
scalper =
    momentum_with (bytes "m") (record default_momentum_config { min_vol_ratio = lit 0 })
      (fresh_ema 1) (fresh_ema 2) (fresh_rsi 2) (fresh_atr 2)

-- One candle for each tick: the price falls, turns, and falls again.
abbrev ticks : List (Tick Fixed)
ticks =
    tick_at 2006 60
    ∷ tick_at 2003 120
    ∷ tick_at 2001 180
    ∷ tick_at 2000 240
    ∷ tick_at 2003 300
    ∷ tick_at 2003 360
    ∷ tick_at 1990 420
    ∷ []

abbrev simulated : Simulation Fixed
simulated =
    rounds_over config (λ i. 0) 6 0 (start_simulation config (dec 6283185 6) scalper none 60) ticks

rounds_over-balance_example :
    (simulated.current_balance ≡ sum_of (lit 1000) (profits simulated.trades))
    × (simulated.funnel.signals_generated ≡ handled simulated)
rounds_over-balance_example =
    rounds_over-balance config (dec 6283185 6) scalper none (λ i. 0) 60 6 ticks
