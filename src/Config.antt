-- ===== src/Config.antt =====
-- config/config.go: the types of the configuration, with the words of its YAML keys for the fields.
-- Integers and durations, which are in nanoseconds, may be negative here.
pub mod Load
pub mod Checks
use scalp_bot_os.Base.{Bool, ℤ, List, Text}

pub record RangeStrategyConfig (F : Type 0) : Type 0 where
  pub enabled : Bool
  pub bollinger_period : ℤ
  pub bollinger_stddev : F
  pub rsi_period : ℤ
  pub atr_period : ℤ
  pub rsi_overbought : F
  pub rsi_oversold : F
  pub min_tp_points : F

pub record WebConfig : Type 0 where
  pub enabled : Bool
  pub host : Text
  pub port : ℤ

pub record PortfolioConfig : Type 0 where
  pub enable_correlation_guard : Bool
  pub max_correlated_positions : ℤ
  pub volatility_parity_sizing : Bool

pub record NewsConfig : Type 0 where
  pub enable_auto_sync : Bool
  pub feed_url : Text
  pub sync_interval : ℤ
  pub blackout_before : ℤ
  pub blackout_after : ℤ

pub record AiConfig (F : Type 0) : Type 0 where
  pub enable_ml_filter : Bool
  pub dual_mode_enabled : Bool
  pub min_confidence : F
  pub range_min_confidence : F
  pub filter_ranging_chop : Bool

pub record BotConfig : Type 0 where
  pub symbol : Text
  pub symbols : List Text
  pub log_level : Text

pub record MarketDataConfig : Type 0 where
  pub tick_buffer_size : ℤ
  pub candle_period : ℤ
  pub tick_channel_buf : ℤ

pub record StrategyConfig (F : Type 0) : Type 0 where
  pub timeframe : Text
  pub macro_timeframe : Text
  pub fast_ema_period : ℤ
  pub slow_ema_period : ℤ
  pub rsi_period : ℤ
  pub atr_period : ℤ
  pub rsi_overbought : F
  pub rsi_oversold : F
  pub atr_minimum : F
  pub sl_atr_multiplier : F
  pub tp_atr_multiplier : F
  pub min_vol_ratio : F
  pub enable_limit_pullback : Bool
  pub pullback_discount_atr : F

pub record RiskConfig (F : Type 0) : Type 0 where
  pub initial_equity : F
  pub risk_per_trade : F
  pub max_daily_drawdown : F
  pub daily_profit_target_pct : F
  pub daily_profit_target_usd : F
  pub max_spread_pips : F
  pub max_open_positions : ℤ
  pub min_lot_size : F
  pub max_lot_size : F
  pub min_tick_velocity_tps : F
  pub max_tick_velocity_tps : F
  pub is_cent_account : Bool

pub record ExecutorConfig : Type 0 where
  pub workers : ℤ
  pub queue_size : ℤ

pub record BrokerConfig (F : Type 0) : Type 0 where
  pub type : Text
  pub fill_latency : ℤ
  pub slippage_pct : F
  pub reject_rate : F
  pub mt5_command_addr : Text
  pub mt5_stream_addr : Text
  pub magic_number : ℤ
  pub slippage_points : ℤ

pub record PositionConfig (F : Type 0) : Type 0 where
  pub enable_trailing : Bool
  pub trailing_mode : Text
  pub trailing_stop_pips : F
  pub trailing_atr_mult : F
  pub enable_breakeven : Bool
  pub breakeven_pips : F
  pub breakeven_buff_pips : F
  pub enable_profit_locker : Bool
  pub stage1_atr_mult : F
  pub stage2_atr_mult : F
  pub stage3_atr_mult : F
  pub enable_partial_tp : Bool
  pub partial_tp_ratio : F
  pub tp1_pips : F
  pub tp2_pips : F
  pub time_stop_duration : ℤ

pub record SessionConfig : Type 0 where
  pub enabled : Bool
  pub sessions : List Text

pub record NotifierConfig : Type 0 where
  pub enable_log : Bool
  pub webhook_url : Text
  pub telegram_token : Text
  pub telegram_chat : Text
  pub enable_interactive_bot : Bool

pub record Config (F : Type 0) : Type 0 where
  pub bot : BotConfig
  pub market_data : MarketDataConfig
  pub strategy : StrategyConfig F
  pub range_strategy : RangeStrategyConfig F
  pub risk : RiskConfig F
  pub position : PositionConfig F
  pub session : SessionConfig
  pub executor : ExecutorConfig
  pub broker : BrokerConfig F
  pub notifier : NotifierConfig
  pub ai : AiConfig F
  pub portfolio : PortfolioConfig
  pub news : NewsConfig
  pub web : WebConfig
