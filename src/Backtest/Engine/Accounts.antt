-- ===== src/Backtest/Engine/Accounts.antt =====
-- The accounts of a simulation, over the closes of a tick and the signal of a candle.
use mathlib.Core.List.{map-append}
use scalp_bot_os.Base.{
  ℕ, ◌+◌, ◌≡◌, refl, sym, ap, ◌∙◌, Bool, true, false, if◌then◌else◌, if_intro, List, [], ◌∷◌, ◌++◌,
  map, Option, none, some, Float, ◌+F◌, arith,
}
use scalp_bot_os.Base.Dict.{lookup}
use scalp_bot_os.Model.Types.{Tick, Signal, Candle, is_actionable}
use scalp_bot_os.MarketData.Aggregator as Aggregator
use scalp_bot_os.Strategy.{silent}
use scalp_bot_os.Strategy.Momentum.Candles.{on_candle}
use scalp_bot_os.Strategy.Range.{RangeScalper}
use scalp_bot_os.Executor.Tracker.{CloseEvent}
use scalp_bot_os.Executor.Tracker.OnTick as OnTick
use scalp_bot_os.Ai.Hmm.{MarketState}
use scalp_bot_os.Ai.Filter.{filter_on_tick}
use scalp_bot_os.Backtest.Metrics.{TradeRecord, sum_of}
use scalp_bot_os.Backtest.Engine.{EngineConfig, SimulatedPosition, Simulation}
use scalp_bot_os.Backtest.Engine.Fills.{pip_mult, trade_of, settle_found, settle_all}
use scalp_bot_os.Backtest.Engine.Signals.{
  candle_seen, with_strat, count_signal, generated, range_signal, second_signal, candle_signal,
  tick_signal,
}
use scalp_bot_os.Backtest.Engine.Loop.{track_tick}

module _ {F : Type 0} ⦃f : Float F⦄ where
  -- The signals that were turned away, or filled.
  abbrev pub handled : Simulation F → ℕ
  handled s =
      s.funnel.macro_rejections
      + (s.funnel.ai_rejections + (s.funnel.risk_rejections + s.order_seq))

  abbrev pub profits : List (TradeRecord F) → List F
  profits = map (λ tr. tr.pnl)

  -- The balance is the first one and the profits of the trades, added up in their order.
  pub record IsSound (initial : F) (s : Simulation F) : Type 0 where
    pub balance : s.current_balance ≡ sum_of initial (profits s.trades)
    pub signals : s.funnel.signals_generated ≡ handled s

  sum_of-snoc : (s : F) (xs : List F) (x : F) → sum_of s (xs ++ (x ∷ [])) ≡ sum_of s xs +F x
  sum_of-snoc s [] x = refl
  sum_of-snoc s (y ∷ xs) x = sum_of-snoc (s +F y) xs x

  settle_found-IsSound :
      (initial : F) (cfg : EngineConfig F) (tick : Tick F) (s : Simulation F) (ce : CloseEvent F)
      (o : Option (SimulatedPosition F))
      → IsSound initial s
      → IsSound initial (settle_found cfg tick s ce o)
  settle_found-IsSound initial cfg tick s ce none h = h
  settle_found-IsSound initial cfg tick s ce (some sim) h =
      let tr = trade_of cfg tick sim ce in
      record {
        balance =
            ap (λ b. b +F tr.pnl) h.balance
            ∙ (sym (sum_of-snoc initial (profits s.trades) tr.pnl)
                ∙ ap (sum_of initial)
                    (sym (map-append (λ (t : TradeRecord F). t.pnl) s.trades (tr ∷ []))));
        signals = h.signals;
      }

  settle_all-IsSound :
      (initial : F) (cfg : EngineConfig F) (tick : Tick F) (ces : List (CloseEvent F))
      (s : Simulation F)
      → IsSound initial s
      → IsSound initial (settle_all cfg tick s ces)
  unfolding settle_all
  settle_all-IsSound initial cfg tick [] s h = h
  settle_all-IsSound initial cfg tick (ce ∷ ces) s h =
      settle_all-IsSound initial cfg tick ces _
        (settle_found-IsSound initial cfg tick s ce (lookup ce.order_id s.active_positions) h)

  pub track_tick-IsSound :
      (initial : F) (cfg : EngineConfig F) (clock : ℕ) (s : Simulation F) (tick : Tick F)
      → IsSound initial s
      → IsSound initial (track_tick cfg clock s tick)
  unfolding track_tick
  track_tick-IsSound initial cfg clock s tick h =
      let (closes, tracker) = OnTick.on_tick s.tracker tick s.atr_val (pip_mult cfg) clock in
      let seen = record s { ai_filter = filter_on_tick s.ai_filter tick; tracker = tracker } in
      let settled =
        settle_all-IsSound initial cfg tick closes seen
          record { balance = h.balance; signals = h.signals } in
      record { balance = settled.balance; signals = settled.signals }

  -- A sound simulation with a signal that is still to be handled, if it is one.
  pub record IsOpen (initial : F) (p : Simulation F × Signal F) : Type 0 where
    pub balance : p.0.current_balance ≡ sum_of initial (profits p.0.trades)
    pub signals : p.0.funnel.signals_generated ≡ handled p.0 + (if is_actionable p.1 then 1 else 0)

  silent-IsOpen : (initial : F) (s : Simulation F) → IsSound initial s → IsOpen initial (s, silent)
  unfolding is_actionable
  silent-IsOpen initial s h =
      let signals : s.funnel.signals_generated ≡ handled s = h.signals in
      record { balance = h.balance; signals = omega (arith, signals) }

  generated-IsOpen :
      (initial : F) (s : Simulation F) (sig : Signal F)
      → is_actionable sig ≡ true
      → IsSound initial s
      → IsOpen initial (generated s, sig)
  generated-IsOpen initial s sig acts h =
      let signals : s.funnel.signals_generated ≡ handled s = h.signals in
      record { balance = h.balance; signals = ground (arith, signals, acts) }

  count_signal-IsOpen :
      (initial : F) (s : Simulation F) (sig : Signal F)
      → IsSound initial s
      → IsOpen initial (count_signal s sig)
  count_signal-IsOpen initial s sig h =
      if_intro (IsOpen initial) (is_actionable sig) (λ acts. generated-IsOpen initial s sig acts h)
        λ no. silent-IsOpen initial s h

  range_signal-IsOpen :
      (initial : F) (clock : ℕ) (s : Simulation F) (c : Candle F) (state : MarketState)
      (r : RangeScalper F)
      → IsSound initial s
      → IsOpen initial (range_signal clock s c state r)
  range_signal-IsOpen initial clock s c MarketState.state_noise r h =
      count_signal-IsOpen initial _ _ record { balance = h.balance; signals = h.signals }
  range_signal-IsOpen initial clock s c MarketState.state_bull r h = silent-IsOpen initial s h
  range_signal-IsOpen initial clock s c MarketState.state_bear r h = silent-IsOpen initial s h

  second_signal-IsOpen :
      (initial : F) (dual : Bool) (clock : ℕ) (s : Simulation F) (c : Candle F)
      (o : Option (RangeScalper F))
      → IsSound initial s
      → IsOpen initial (second_signal dual clock s c o)
  second_signal-IsOpen initial true clock s c (some r) h =
      range_signal-IsOpen initial clock s c s.ai_filter.last_hmm_state r h
  second_signal-IsOpen initial true clock s c none h = silent-IsOpen initial s h
  second_signal-IsOpen initial false clock s c o h = silent-IsOpen initial s h

  candle_signal-IsOpen :
      (initial : F) (cfg : EngineConfig F) (clock : ℕ) (s : Simulation F) (c : Candle F)
      → IsSound initial s
      → IsOpen initial (candle_signal cfg clock s c)
  unfolding candle_signal
  candle_signal-IsOpen initial cfg clock s c h =
      let seen = candle_seen s c in
      let sig = (on_candle seen.strat c).1 in
      let next = with_strat seen (on_candle seen.strat c).0 in
      let sound : IsSound initial next = record { balance = h.balance; signals = h.signals } in
      if_intro (IsOpen initial) (is_actionable sig)
        (λ acts. generated-IsOpen initial next sig acts sound)
        λ no. second_signal-IsOpen initial cfg.enable_dual_mode clock next c next.range_strat sound

  pub tick_signal-IsOpen :
      (initial : F) (cfg : EngineConfig F) (clock : ℕ) (s : Simulation F) (tick : Tick F)
      → IsSound initial s
      → IsOpen initial (tick_signal cfg clock s tick)
  unfolding tick_signal
  tick_signal-IsOpen initial cfg clock s tick h =
      let (candle, closed, aggregator) = Aggregator.on_tick s.aggregator tick in
      let next = record s { aggregator = aggregator } in
      let sound : IsSound initial next = record { balance = h.balance; signals = h.signals } in
      if_intro (IsOpen initial) closed
        (λ acts. candle_signal-IsOpen initial cfg clock next candle sound)
        λ no. silent-IsOpen initial next sound
