-- ===== src/Config/Load.antt =====
-- config/config.go: the defaults, the overrides by the environment, the validation and the loading.
-- The file system, the YAML parser, which fills in what a text gives, and the environment are
-- parameters.
use scalp_bot_os.Base.{
  true, false, ◌||◌, if◌then◌else◌, pos, le_ℤ, Option, none, some, [], ◌∷◌, Text, bytes, text_eq,
  Float, ◌≤F◌, ◌>F◌, lit, dec,
}
use scalp_bot_os.Config.{Config}

-- The errors of `Validate`, then those of `LoadConfig`.
pub data Invalid : Type 0 where
  no_symbol no_tick_buffer no_candle_period averages_swapped : Invalid
  risk_out_of_range drawdown_out_of_range no_equity no_workers : Invalid

pub data ConfigError : Type 0 where
  unreadable unparsed : ConfigError
  validation_failed : Invalid → ConfigError

pub data Loading (F : Type 0) : Type 0 where
  loaded : Config F → Loading F
  failed : ConfigError → Loading F

abbrev pub override : Text → Text → Text
override value old = if text_eq value (bytes "") then old else value

module _ {F : Type 0} ⦃f : Float F⦄ where
  unfoldable pub default_config : Config F
  default_config = record {
    bot = record { symbol = bytes "XAUUSDc"; symbols = []; log_level = bytes "info" };
    market_data = record {
      tick_buffer_size = pos 4096;
      candle_period = pos 900000000000;
      tick_channel_buf = pos 1024;
    };
    strategy = record {
      timeframe = bytes "15m";
      macro_timeframe = bytes "1h";
      fast_ema_period = pos 5;
      slow_ema_period = pos 13;
      rsi_period = pos 14;
      atr_period = pos 14;
      rsi_overbought = lit 70;
      rsi_oversold = lit 30;
      atr_minimum = dec 5 1;
      sl_atr_multiplier = dec 15 1;
      tp_atr_multiplier = dec 25 1;
      min_vol_ratio = dec 6 1;
      enable_limit_pullback = true;
      pullback_discount_atr = dec 3 1;
    };
    range_strategy = record {
      enabled = false;
      bollinger_period = pos 20;
      bollinger_stddev = lit 2;
      rsi_period = pos 14;
      atr_period = pos 14;
      rsi_overbought = lit 62;
      rsi_oversold = lit 38;
      min_tp_points = dec 15 1;
    };
    risk = record {
      initial_equity = lit 900;
      risk_per_trade = dec 5 3;
      max_daily_drawdown = dec 5 2;
      daily_profit_target_pct = dec 5 2;
      daily_profit_target_usd = lit 50;
      max_spread_pips = lit 60;
      max_open_positions = pos 1;
      min_lot_size = dec 1 2;
      max_lot_size = dec 1 2;
      min_tick_velocity_tps = lit 0;
      max_tick_velocity_tps = lit 0;
      is_cent_account = true;
    };
    position = record {
      enable_trailing = true;
      trailing_mode = bytes "atr";
      trailing_stop_pips = lit 300;
      trailing_atr_mult = dec 18 1;
      enable_breakeven = true;
      breakeven_pips = lit 300;
      breakeven_buff_pips = lit 30;
      enable_profit_locker = true;
      stage1_atr_mult = lit 1;
      stage2_atr_mult = dec 18 1;
      stage3_atr_mult = dec 25 1;
      enable_partial_tp = true;
      partial_tp_ratio = dec 5 1;
      tp1_pips = lit 400;
      tp2_pips = lit 1200;
      time_stop_duration = pos 7200000000000;
    };
    session = record { enabled = false; sessions = bytes "london" ∷ bytes "newyork" ∷ [] };
    executor = record { workers = pos 2; queue_size = pos 32 };
    broker = record {
      type = bytes "mock";
      fill_latency = pos 5000000;
      slippage_pct = dec 5 5;
      reject_rate = dec 2 2;
      mt5_command_addr = bytes "127.0.0.1:5555";
      mt5_stream_addr = bytes "127.0.0.1:5556";
      magic_number = pos 123456;
      slippage_points = pos 10;
    };
    notifier = record {
      enable_log = true;
      webhook_url = bytes "";
      telegram_token = bytes "";
      telegram_chat = bytes "";
      enable_interactive_bot = false;
    };
    ai = record {
      enable_ml_filter = true;
      dual_mode_enabled = true;
      min_confidence = dec 7 1;
      range_min_confidence = dec 6 1;
      filter_ranging_chop = true;
    };
    portfolio = record {
      enable_correlation_guard = true;
      max_correlated_positions = pos 1;
      volatility_parity_sizing = true;
    };
    news = record {
      enable_auto_sync = false;
      feed_url = bytes "";
      sync_interval = pos 3600000000000;
      blackout_before = pos 900000000000;
      blackout_after = pos 900000000000;
    };
    web = record { enabled = true; host = bytes "127.0.0.1"; port = pos 8080 };
  }

  -- The first condition that fails.
  unfoldable pub validate : Config F → Option Invalid
  validate c =
      if text_eq c.bot.symbol (bytes "")
      then some Invalid.no_symbol
      else if le_ℤ c.market_data.tick_buffer_size (pos 0)
      then some Invalid.no_tick_buffer
      else if le_ℤ c.market_data.candle_period (pos 0)
      then some Invalid.no_candle_period
      else if le_ℤ c.strategy.slow_ema_period c.strategy.fast_ema_period
      then some Invalid.averages_swapped
      else if (c.risk.risk_per_trade ≤F lit 0) || (c.risk.risk_per_trade >F dec 1 1)
      then some Invalid.risk_out_of_range
      else if (c.risk.max_daily_drawdown ≤F lit 0) || (c.risk.max_daily_drawdown >F lit 1)
      then some Invalid.drawdown_out_of_range
      else if c.risk.initial_equity ≤F lit 0
      then some Invalid.no_equity
      else if le_ℤ c.executor.workers (pos 0)
      then some Invalid.no_workers
      else none

  unfoldable pub apply_env_overrides : (Text → Text) → Config F → Config F
  apply_env_overrides getenv c = record c {
    bot = record c.bot {
      symbol = override (getenv (bytes "SCALP_SYMBOL")) c.bot.symbol;
      log_level = override (getenv (bytes "SCALP_LOG_LEVEL")) c.bot.log_level;
    };
    broker = record c.broker {
      type = override (getenv (bytes "SCALP_BROKER_TYPE")) c.broker.type;
      mt5_command_addr = override (getenv (bytes "SCALP_MT5_CMD")) c.broker.mt5_command_addr;
      mt5_stream_addr = override (getenv (bytes "SCALP_MT5_STREAM")) c.broker.mt5_stream_addr;
    };
    notifier = record c.notifier {
      telegram_token = override (getenv (bytes "SCALP_TG_TOKEN")) c.notifier.telegram_token;
      telegram_chat = override (getenv (bytes "SCALP_TG_CHAT")) c.notifier.telegram_chat;
      webhook_url = override (getenv (bytes "SCALP_WEBHOOK_URL")) c.notifier.webhook_url;
    };
  }

  abbrev pub checked : Config F → Option Invalid → Loading F
  checked c none = Loading.loaded c
  checked c (some e) = Loading.failed (ConfigError.validation_failed e)

  abbrev pub parsed : (Text → Text) → Option (Config F) → Loading F
  parsed getenv none = Loading.failed ConfigError.unparsed
  parsed getenv (some c) =
      checked (apply_env_overrides getenv c) (validate (apply_env_overrides getenv c))

  abbrev pub read : (Text → Text) → (Text → Config F → Option (Config F)) → Option Text → Loading F
  read getenv unmarshal none = Loading.failed ConfigError.unreadable
  read getenv unmarshal (some content) = parsed getenv (unmarshal content default_config)

  unfoldable pub load_config :
      (Text → Option Text)
      → (Text → Text)
      → (Text → Config F → Option (Config F))
      → Text
      → Loading F
  load_config read_file getenv unmarshal path = read getenv unmarshal (read_file path)
