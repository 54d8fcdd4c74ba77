-- ===== src/Config/Checks.antt =====
-- What the loading of a configuration tells of the file and the environment.
use scalp_bot_os.Base.{
  ◌≡◌, refl, ◌⊎◌, inl, inr, true, false, Bool-cases, pos, le_ℤ, Option, none, some, Text, bytes,
  text_eq, Float, ◌≤F◌, ◌>F◌, lit, dec, arith,
}
use scalp_bot_os.Config.{Config}
use scalp_bot_os.Config.Load.{
  Loading, Invalid, ConfigError, override, default_config, validate, apply_env_overrides,
  load_config, read, parsed, checked,
}

-- A setting that an empty variable leaves alone, and that any other replaces.
abbrev pub Set : Text → Text → Text → Type 0
Set value old new =
    (text_eq value (bytes "") ≡ true) × (new ≡ old)
    ⊎ (text_eq value (bytes "") ≡ false) × (new ≡ value)

override-Set : (value old : Text) → Set value old (override value old)
override-Set value old = elim (Bool-cases (text_eq value (bytes ""))) [
  | inl e ↦ inl (e, rw e refl)
  | inr e ↦ inr (e, rw e refl)
]

module _ {F : Type 0} ⦃f : Float F⦄ where
  -- The conditions of `Validate`, all of them.
  pub record IsValid (c : Config F) : Type 0 where
    symbol : text_eq c.bot.symbol (bytes "") ≡ false
    tick_buffer : le_ℤ c.market_data.tick_buffer_size (pos 0) ≡ false
    candle_period : le_ℤ c.market_data.candle_period (pos 0) ≡ false
    averages : le_ℤ c.strategy.slow_ema_period c.strategy.fast_ema_period ≡ false
    risk : ((c.risk.risk_per_trade ≤F lit 0) ≡ false) × ((c.risk.risk_per_trade >F dec 1 1) ≡ false)
    drawdown :
        ((c.risk.max_daily_drawdown ≤F lit 0) ≡ false)
        × ((c.risk.max_daily_drawdown >F lit 1) ≡ false)
    equity : (c.risk.initial_equity ≤F lit 0) ≡ false
    workers : le_ℤ c.executor.workers (pos 0) ≡ false

  validate-IsValid : (c : Config F) → validate c ≡ none → IsValid c
  unfolding validate
  validate-IsValid c h = record {
    symbol = ground (arith, h);
    tick_buffer = ground (arith, h);
    candle_period = ground (arith, h);
    averages = ground (arith, h);
    risk = (ground (arith, h), ground (arith, h));
    drawdown = (ground (arith, h), ground (arith, h));
    equity = ground (arith, h);
    workers = ground (arith, h);
  }

  -- The condition that an error names fails.
  abbrev pub Violates : Invalid → Config F → Type 0
  Violates Invalid.no_symbol c = text_eq c.bot.symbol (bytes "") ≡ true
  Violates Invalid.no_tick_buffer c = le_ℤ c.market_data.tick_buffer_size (pos 0) ≡ true
  Violates Invalid.no_candle_period c = le_ℤ c.market_data.candle_period (pos 0) ≡ true
  Violates Invalid.averages_swapped c =
      le_ℤ c.strategy.slow_ema_period c.strategy.fast_ema_period ≡ true
  Violates Invalid.risk_out_of_range c =
      ((c.risk.risk_per_trade ≤F lit 0) ≡ true) ⊎ ((c.risk.risk_per_trade >F dec 1 1) ≡ true)
  Violates Invalid.drawdown_out_of_range c =
      ((c.risk.max_daily_drawdown ≤F lit 0) ≡ true) ⊎ ((c.risk.max_daily_drawdown >F lit 1) ≡ true)
  Violates Invalid.no_equity c = (c.risk.initial_equity ≤F lit 0) ≡ true
  Violates Invalid.no_workers c = le_ℤ c.executor.workers (pos 0) ≡ true

  validate-Violates : (c : Config F) (e : Invalid) → validate c ≡ some e → Violates e c
  unfolding validate
  validate-Violates c Invalid.no_symbol h = ground (arith, h)
  validate-Violates c Invalid.no_tick_buffer h = ground (arith, h)
  validate-Violates c Invalid.no_candle_period h = ground (arith, h)
  validate-Violates c Invalid.averages_swapped h = ground (arith, h)
  validate-Violates c Invalid.risk_out_of_range h = ground (arith, h)
  validate-Violates c Invalid.drawdown_out_of_range h = ground (arith, h)
  validate-Violates c Invalid.no_equity h = ground (arith, h)
  validate-Violates c Invalid.no_workers h = ground (arith, h)

  -- The eight settings that the environment may replace, and nothing else.
  pub record IsOverridden (getenv : Text → Text) (base c : Config F) : Type 0 where
    pub symbol : Set (getenv (bytes "SCALP_SYMBOL")) base.bot.symbol c.bot.symbol
    pub log_level : Set (getenv (bytes "SCALP_LOG_LEVEL")) base.bot.log_level c.bot.log_level
    pub type : Set (getenv (bytes "SCALP_BROKER_TYPE")) base.broker.type c.broker.type
    pub mt5_command_addr :
        Set (getenv (bytes "SCALP_MT5_CMD")) base.broker.mt5_command_addr c.broker.mt5_command_addr
    pub mt5_stream_addr :
        Set (getenv (bytes "SCALP_MT5_STREAM")) base.broker.mt5_stream_addr c.broker.mt5_stream_addr
    pub telegram_token :
        Set (getenv (bytes "SCALP_TG_TOKEN")) base.notifier.telegram_token c.notifier.telegram_token
    pub telegram_chat :
        Set (getenv (bytes "SCALP_TG_CHAT")) base.notifier.telegram_chat c.notifier.telegram_chat
    pub webhook_url :
        Set (getenv (bytes "SCALP_WEBHOOK_URL")) base.notifier.webhook_url c.notifier.webhook_url
    pub rest :
        record c {
          bot = record c.bot { symbol = base.bot.symbol; log_level = base.bot.log_level };
          broker = record c.broker {
            type = base.broker.type;
            mt5_command_addr = base.broker.mt5_command_addr;
            mt5_stream_addr = base.broker.mt5_stream_addr;
          };
          notifier = record c.notifier {
            telegram_token = base.notifier.telegram_token;
            telegram_chat = base.notifier.telegram_chat;
            webhook_url = base.notifier.webhook_url;
          };
        }
        ≡ base

  apply_env_overrides-IsOverridden :
      (getenv : Text → Text) (c : Config F) → IsOverridden getenv c (apply_env_overrides getenv c)
  unfolding apply_env_overrides
  apply_env_overrides-IsOverridden getenv c = record {
    symbol = override-Set (getenv (bytes "SCALP_SYMBOL")) c.bot.symbol;
    log_level = override-Set (getenv (bytes "SCALP_LOG_LEVEL")) c.bot.log_level;
    type = override-Set (getenv (bytes "SCALP_BROKER_TYPE")) c.broker.type;
    mt5_command_addr = override-Set (getenv (bytes "SCALP_MT5_CMD")) c.broker.mt5_command_addr;
    mt5_stream_addr = override-Set (getenv (bytes "SCALP_MT5_STREAM")) c.broker.mt5_stream_addr;
    telegram_token = override-Set (getenv (bytes "SCALP_TG_TOKEN")) c.notifier.telegram_token;
    telegram_chat = override-Set (getenv (bytes "SCALP_TG_CHAT")) c.notifier.telegram_chat;
    webhook_url = override-Set (getenv (bytes "SCALP_WEBHOOK_URL")) c.notifier.webhook_url;
    rest = refl;
  }

  module _ (read_file : Text → Option Text) (getenv : Text → Text)
      (unmarshal : Text → Config F → Option (Config F)) (path : Text) where
    -- The file was read and parsed over the defaults, with the overrides made.
    pub record Comes (c : Config F) : Type 0 where
      content : Text
      base : Config F
      found : read_file path ≡ some content
      parses : unmarshal content default_config ≡ some base
      overridden : IsOverridden getenv base c

    -- What each result says.
    abbrev pub Tells : Loading F → Type 0
    Tells (Loading.loaded c) = Comes c × IsValid c
    Tells (Loading.failed ConfigError.unreadable) = read_file path ≡ none
    Tells (Loading.failed ConfigError.unparsed) =
        (content : Text) × (read_file path ≡ some content)
        × (unmarshal content default_config ≡ none)
    Tells (Loading.failed (ConfigError.validation_failed e)) =
        (c : Config F) × Comes c × Violates e c

    checked-Tells :
        (c : Config F) (o : Option Invalid) → validate c ≡ o → Comes c → Tells (checked c o)
    checked-Tells c none e h = (h, validate-IsValid c e)
    checked-Tells c (some x) e h = (c, h, validate-Violates c x e)

    parsed-Tells :
        (content : Text) (o : Option (Config F))
        → read_file path ≡ some content
        → unmarshal content default_config ≡ o
        → Tells (parsed getenv o)
    parsed-Tells content none found e = (content, found, e)
    parsed-Tells content (some base) found e =
        let c = apply_env_overrides getenv base in
        checked-Tells c (validate c) refl (record {
          content = content;
          base = base;
          found = found;
          parses = e;
          overridden = apply_env_overrides-IsOverridden getenv base;
        })

    read-Tells : (o : Option Text) → read_file path ≡ o → Tells (read getenv unmarshal o)
    read-Tells none e = e
    read-Tells (some content) e = parsed-Tells content (unmarshal content default_config) e refl

    -- LoadConfig fails as unreadable only if the file cannot be read, as unparsed only if it is read
    -- and the parser refuses it, and with an error of Validate only if the condition that this error
    -- names fails of the configuration that was read, parsed over DefaultConfig and overridden. A
    -- configuration that it returns was read, parsed and overridden likewise, and meets all conditions.
    -- Overridden are the symbol, the level of the log, the type and the two addresses of the broker,
    -- and the token, the chat and the webhook of the notifier, each by its own variable where that is
    -- not empty, and nothing else.
    pub load_config-Tells : Tells (load_config read_file getenv unmarshal path)
    unfolding load_config
    load_config-Tells = read-Tells (read_file path) refl
