-- ===== src/Lib.antt =====
-- A verification library for ScalpBot OS, a scalping bot that turns a stream of market ticks into
-- orders. Ticks are stored and made into candles (internal/marketdata), strategies make signals from
-- them, the risk manager (internal/risk/manager.go) lets a signal become an order or refuses it, and
-- the position tracker (internal/executor/tracker.go) follows the filled positions through the
-- ticks, moves their stops and closes them. The closes come back to the risk manager, which counts
-- the open positions and the profit and loss of the day. A dispatcher (internal/executor/dispatcher.go)
-- hands approved orders to the broker (internal/broker) one by one; trades and the state of the day
-- are kept on disk (internal/storage). Filters on the session, the spread, the news and the rate of
-- ticks (internal/risk, internal/news), the trends of longer candles and the correlation of the open
-- positions (internal/portfolio) can keep a signal from becoming an order, as can the machine
-- learning filter (internal/ai). The backtest (internal/backtest) runs recorded ticks through the same
-- parts.
--
-- Which file models which part:
--   Base, Base/*: the Boolean tests, lists, integers, byte strings, dictionaries, and `Float`, the
--     operations of float64 that the code uses, as an interface. `IsOrdered` states the laws of its
--     order that some theorems ask for, all of which float64 obeys with NaN and infinities.
--     `IsSigned` says that a negation turns the order around. Base/Fixed is an instance that satisfies
--     them, with six decimals, on which everything runs. Base/Cycle and Base/Newest relate the arrays
--     that are written round and round to the list of all values written.
--   Model/Types, Model/Symbol, Model/Asset: internal/model, with NormalizeSymbol as
--     `normalize_symbol`, PipMultiplier as `pip_multiplier`, DetectAssetClass as
--     `detect_asset_class`; Model/Pips holds the proofs.
--   MarketData/Ring: internal/marketdata/ringbuffer.go. Push, Last, Len, Latest and SnapshotLast are
--     `push`, `last`, `len`, `latest` and `snapshot_last`; Ring/History and Ring/Reads hold the proofs.
--   MarketData/Aggregator: internal/marketdata/aggregator.go. OnTick is `on_tick`, composed of
--     `start_new_candle`, `completed`, `classify` and `update_candle`; MultiTimeframeAggregator is
--     `MultiTimeframe`. Proofs are in Aggregator/Steps, Summary, Stream and Periods.
--   MarketData/Multiframe: internal/marketdata/multiframe.go. OnTick of a symbol is `frames_on_tick`,
--     EvaluateConfluence `evaluate_confluence`; the manager is in Multiframe/Symbols, with
--     `manager_on_tick` and `check_confluence`. Multiframe/FiveMinutes, Trend and Symbols
--     hold the proofs.
--   News/Calendar: internal/news/calendar.go, with HasUpcomingHighImpact as
--     `has_upcoming_high_impact`, GetUpcomingEvent as `get_upcoming_event` and Sync as `sync`;
--     Calendar/Nearest holds the proofs.
--   News/Blackout: internal/news/blackout_filter.go, with Allow as `blackout_allow`.
--   Portfolio/Correlation: internal/portfolio/correlation.go, with GetCorrelation as
--     `get_correlation` and CheckCorrelation as `check_correlation`.
--   Portfolio/Sizing: internal/portfolio/sizing.go, with CalculateLotSize as `volatility_lot_size`.
--   Risk/Manager: the state, the resets of the day and the updates of internal/risk/manager.go.
--     Manager/Settings holds its settings, Manager/Evaluate Evaluate, EvaluateWithConfidence and
--     calculateLotSize; Manager/Calendar
--     the day of the year; Evaluate/Approved, Manager/Days, Manager/Positions and Manager/Sizing
--     the proofs.
--   Executor/Tracker: the state of internal/executor/tracker.go and its operations but for OnTick.
--     Tracker/Stages and Stages/Protect hold the stages of OnTick for one position and OnTick their
--     composition; OnTick/Changes, Stops, Exits, Partial and Removal, and Tracker/Delivery, the proofs.
--   Risk/Filters: internal/risk/session_filter.go, spread_filter.go, news_filter.go and
--     velocity_filter.go, as Session, Spread, News and Velocity, with Allow as `session_allow`,
--     `spread_allow`, `news_allow` and `velocity_allow`, and OnTick as `observe` and
--     `velocity_on_tick`. CurrentTPS is `current_tps`, with its loop `walk`; the proofs of its ring
--     are in Velocity/Window.
--   Executor/Dispatcher: internal/executor/dispatcher.go. Submit is `submit`, a worker that receives
--     an order is `take`, executeOrder is `finish` and Stop is `close_channel`; a run of the
--     goroutines is a sequence of these events. Dispatcher/Pick, Queue, Exclusion, Draining and
--     Resting hold the proofs.
--   Executor/Telemetry: internal/executor/telemetry.go. RecordFill, RecordRejection, RecordClose and
--     Stats are `telemetry_fill`, `record_rejection`, `telemetry_close` and `stats`; Telemetry/Tally
--     holds the proofs.
--   Broker/Lifecycle: LifecycleManager of internal/broker/lifecycle.go, with Execute as `execute`,
--     RecordTick as `record_tick` and a beat of Heartbeat as `heartbeat`; Lifecycle/Stale holds the
--     proofs.
--   Broker/Reconnect: ReconnectPolicy of the same file, with ExecuteReconnect as `execute_reconnect`;
--     Reconnect/Passes, Reconnect/Ending and Reconnect/Unlimited hold the proofs.
--   Broker/Mock: internal/broker/mock.go, with Execute as `mock_execute`.
--   Storage/Store: internal/storage/store.go, with LoadTrades, SaveTrade, LoadDailyState and
--     SaveDailyState as `load_trades`, `save_trade`, `load_daily_state` and `save_daily_state`.
--     Store/Disk states what is relied on of JSON and the file system; Store/History, Store/Trades
--     and Store/Daily hold the proofs.
--   Indicator/Ema: internal/indicator/ema.go, with Update as `update` and Value as `value_of`.
--   Indicator/Atr: internal/indicator/atr.go, likewise; Atr/Smoothing holds the proofs.
--   Indicator/Sma, Rsi, Bollinger: the files of the same names, with Update as `sma_update`,
--     `rsi_update` and `bollinger_update`.
--   Strategy: internal/strategy. Strategy/Momentum is momentum.go: its state and the stops; OnCandle is
--     `on_candle` of Momentum/Candles and evaluateCrossover `evaluate_crossover` of
--     Momentum/Crossover; Momentum/Swings and Momentum/Guards hold the proofs. Strategy/Range is
--     range_scalper.go, with OnCandle as `range_on_candle`; Range/Signals holds the proofs.
--   Ai: internal/ai. Ai/Hmm is hmm/gaussian_hmm.go, with Update as `hmm_update`; Ai/Features
--     features.go, with Extract as `extract`; Ai/Regime regime.go, with Classify as
--     `classify_regime`; Ai/Scorer scorer.go, with `predict_confidence` and
--     `predict_range_confidence`; Ai/Filter filter.go, with OnTick, UpdateHMM, EvaluateCurrent and
--     EvaluateSignal as `filter_on_tick`, `update_hmm`, `evaluate_current` and `evaluate_signal`.
--     Their children hold the proofs.
--   Backtest/Metrics: internal/backtest/metrics.go, with CalculateMetrics as `calculate_metrics`;
--     Metrics/Counts holds the proofs.
--   Backtest/Engine: internal/backtest/engine.go. Run is `run` of Engine/Loop, a round of its loop
--     `round`; it is composed of the models of the tracker, the aggregators, the strategies, the
--     filter and the risk manager, the settling of closes and the fill of an order in Engine/Fills,
--     and the gates of a signal in Engine/Signals. Engine/Accounts and Engine/Ledger hold the proofs.
--   Config: config/config.go. Config/Load has LoadConfig, Validate and applyEnvOverrides as
--     `load_config`, `validate` and `apply_env_overrides`; Config/Checks holds the proofs.
--   Tests: the inputs and the runs of the theorems on them.
--
-- An operation on a pointer receiver takes the state and returns the new one. A mutex is left out:
-- the operations run under it as a whole, so a run of the program is a sequence of operations. The
-- goroutines of the dispatcher and of the lifecycle manager take turns at the steps that the headers
-- of their files name. The clock (time.Now), the day of the local calendar and the filters of the manager
-- are arguments. A map is a function or an association list; Go visits a map in any order, and
-- the list of positions stands for the order of one run. Integers that the code counts up by ones are
-- natural numbers, but the int32 tick count of a candle is kept as its bit pattern below 2^32, which
-- wraps around and is read as a signed number for the volume. A timestamp is a number of nanoseconds
-- from 1970 on. Strings are lists of bytes, and upper and lower case are those of ASCII. All loops are by structural recursion, but
-- for the years that Manager/Calendar counts through: one round for every 365 days since 1970 and
-- one more, which is enough as no year is shorter; and for the reconnection loop, on fuel that counts
-- its attempts: one more than the limit is enough, and without a limit the attempt that connects.
--
-- The broker, the JSON and YAML packages, the file system, the environment, the formatting of a date and Go's conversions
-- between numbers are parameters of the definitions that use them.
--
-- Not modelled, as they are input and output: the bridge to the broker, the notifiers, the dashboard,
-- the loader and the generator of the backtest, the text of its report, and the programs in cmd.
pub mod Base
pub mod Model
pub mod MarketData
pub mod Risk
pub mod Portfolio
pub mod Broker
pub mod Executor
pub mod News
pub mod Indicator
pub mod Strategy
pub mod Ai
pub mod Backtest
pub mod Config
pub mod Storage
pub mod Tests
