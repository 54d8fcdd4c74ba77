-- ===== src/Backtest/Engine.antt =====
-- internal/backtest/engine.go: the engine's configuration, and the state that `Run` carries from tick
-- to tick. `clock` is the reading of the clock in a round of the loop.
pub mod Fills
pub mod Signals
pub mod Loop
pub mod Accounts
pub mod Ledger
use scalp_bot_os.Base.{
  ℕ, zero, suc, ◌+◌, ◌/◌, ◌%◌, ◌==◌, Bool, true, false, if◌then◌else◌, List, [], ◌∷◌, ◌++◌, Option,
  none, some, Text, bytes, Float, lit, dec, pos,
}
use scalp_bot_os.Base.Digits.{digits}
use scalp_bot_os.Model.Types.{Candle, Position, zero_candle}
use scalp_bot_os.MarketData.Aggregator.{Aggregator, new_aggregator}
use scalp_bot_os.Indicator.Ema.{Ema, fresh_ema}
use scalp_bot_os.Strategy.Momentum.{MomentumScalper, MomentumScalperConfig}
use scalp_bot_os.Strategy.Range.{RangeScalper, RangeScalperConfig}
use scalp_bot_os.Risk.Manager.{Manager, ManagerConfig, MarketFilter, new_manager}
use scalp_bot_os.Risk.Manager.Settings.{add_filter}
use scalp_bot_os.Executor.Tracker.{
  PositionTracker, TrackerConfig, TrailingMode, new_position_tracker,
}
use scalp_bot_os.Ai.Filter.{SignalFilter, FilterConfig, new_signal_filter}
use scalp_bot_os.Backtest.Metrics.{TradeRecord, EquityPoint}

-- The session filter is any market filter here.
pub record EngineConfig (F : Type 0) : Type 0 where
  pub initial_balance : F
  pub symbol : Text
  pub candle_period : ℕ
  pub slippage_pips : F
  pub commission_per_lot : F
  pub strategy_config : MomentumScalperConfig F
  pub range_config : RangeScalperConfig F
  pub enable_dual_mode : Bool
  pub risk_config : ManagerConfig F
  pub tracker_config : TrackerConfig F
  pub ai_config : FilterConfig F
  pub session_filter : Option (MarketFilter F)

-- The embedded position is spread out.
pub record SimulatedPosition (F : Type 0) : Type 0 where
  pub position : Position F
  pub commission : F

pub data Trend : Type 0 where
  neutral bullish bearish : Trend

-- The two timeframes above the candles: aggregator, averages and trend.
pub record Macro (F : Type 0) : Type 0 where
  pub aggregator : Aggregator F
  pub fast : Ema F
  pub slow : Ema F
  pub trend : Trend

-- The counts of the funnel.
pub record Funnel : Type 0 where
  pub candles_closed : ℕ
  pub signals_generated : ℕ
  pub macro_rejections : ℕ
  pub ai_rejections : ℕ
  pub risk_rejections : ℕ

-- The local variables of `Run`.
pub record Simulation (F : Type 0) : Type 0 where
  pub strat : MomentumScalper F
  pub range_strat : Option (RangeScalper F)
  pub risk_mgr : Manager F
  pub tracker : PositionTracker F
  pub aggregator : Aggregator F
  pub ai_filter : SignalFilter F
  pub m15 : Macro F
  pub h1 : Macro F
  pub active_positions : List (Text × SimulatedPosition F)
  pub trades : List (TradeRecord F)
  pub equity_curve : List (EquityPoint F)
  pub current_balance : F
  pub order_seq : ℕ
  pub last_closed_candle : Candle F
  pub atr_val : F
  pub funnel : Funnel

unfoldable pub order_id_of : ℕ → Text
order_id_of n = bytes "BT-" ++ digits (suc n) n

module _ {F : Type 0} ⦃f : Float F⦄ where
  abbrev pub new_macro : ℕ → Macro F
  new_macro period = record {
    aggregator = new_aggregator period;
    fast = fresh_ema 5;
    slow = fresh_ema 13;
    trend = Trend.neutral;
  }

  abbrev pub filtered : Option (MarketFilter F) → Manager F → Manager F
  filtered none m = m
  filtered (some mf) m = add_filter m mf

  -- The state before the first tick, whose time comes last.
  unfoldable pub start_simulation :
      EngineConfig F → F → MomentumScalper F → Option (RangeScalper F) → ℕ → Simulation F
  start_simulation cfg two_pi strat range_strat time = record {
    strat = strat;
    range_strat = range_strat;
    risk_mgr = filtered cfg.session_filter (new_manager cfg.risk_config);
    tracker = new_position_tracker cfg.tracker_config;
    aggregator = new_aggregator cfg.candle_period;
    ai_filter = new_signal_filter two_pi cfg.ai_config;
    m15 = new_macro 900_000_000_000;
    h1 = new_macro 3_600_000_000_000;
    active_positions = [];
    trades = [];
    equity_curve =
        record { timestamp_ns = time; equity = cfg.initial_balance; drawdown_pct = lit 0 } ∷ [];
    current_balance = cfg.initial_balance;
    order_seq = 0;
    last_closed_candle = zero_candle;
    atr_val = cfg.strategy_config.atr_minimum;
    funnel = record {
      candles_closed = 0;
      signals_generated = 0;
      macro_rejections = 0;
      ai_rejections = 0;
      risk_rejections = 0;
    };
  }

  -- The fields that the source leaves out are zero.
  unfoldable pub default_engine_config : EngineConfig F
  default_engine_config = record {
    initial_balance = lit 10_000;
    symbol = bytes "XAUUSD";
    candle_period = 300_000_000_000;
    slippage_pips = lit 1;
    commission_per_lot = dec 350 2;
    strategy_config = record {
      fast_ema_period = 5;
      slow_ema_period = 13;
      rsi_period = 14;
      atr_period = 14;
      rsi_overbought = lit 70;
      rsi_oversold = lit 30;
      atr_minimum = dec 35 2;
      min_vol_ratio = lit 0;
      enable_limit_pullback = false;
      pullback_discount_atr = lit 0;
      symbol = bytes "XAUUSD";
    };
    range_config = record {
      bollinger_period = pos 0;
      bollinger_std_dev = lit 0;
      rsi_period = 0;
      atr_period = 0;
      rsi_overbought = lit 0;
      rsi_oversold = lit 0;
      bandwidth_max = lit 0;
      min_tp_points = lit 0;
      symbol = bytes "";
    };
    enable_dual_mode = false;
    risk_config = record {
      initial_equity = lit 10_000;
      risk_per_trade = dec 1 2;
      max_daily_drawdown = dec 5 2;
      daily_profit_target_pct = lit 0;
      daily_profit_target_usd = lit 0;
      max_spread_pips = lit 60;
      max_open_positions = 2;
      max_positions_per_symbol = 1;
      min_lot_size = dec 1 2;
      max_lot_size = dec 1 2;
    };
    tracker_config = record {
      trailing_mode = TrailingMode.trailing_atr;
      trailing_stop_pips = lit 150;
      trailing_atr_mult = dec 15 1;
      break_even_pips = lit 200;
      break_even_buff_pips = lit 20;
      enable_trailing = true;
      enable_break_even = true;
      enable_profit_locker = true;
      stage1_atr_mult = lit 1;
      stage2_atr_mult = dec 18 1;
      stage3_atr_mult = dec 25 1;
      enable_partial_tp = true;
      partial_tp_ratio = dec 5 1;
      tp1_pips = lit 300;
      tp2_pips = lit 600;
      time_stop_duration = 2_700_000_000_000;
      auto_remove_on_close = true;
    };
    ai_config = record {
      enable_ml_filter = true;
      min_confidence = dec 55 2;
      range_min_confidence = lit 0;
      filter_ranging_chop = true;
      dual_mode_enabled = false;
    };
    session_filter = none;
  }
