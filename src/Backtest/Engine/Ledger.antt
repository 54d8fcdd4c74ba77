-- ===== src/Backtest/Engine/Ledger.antt =====
-- The accounts of whole simulations: the balance against the trades, and the count of the signals.
use scalp_bot_os.Base.{
  ℕ, ◌+◌, ◌%◌, ◌==◌, ◌||◌, ◌≡◌, refl, sym, ap, ◌∙◌, Bool, true, false, not, if◌then◌else◌, if_intro,
  List, [], ◌∷◌, Option, Float, arith,
}
use scalp_bot_os.Model.Types.{Tick, Signal, OrderRequest, is_actionable}
use scalp_bot_os.Strategy.Momentum.{MomentumScalper}
use scalp_bot_os.Strategy.Range.{RangeScalper}
use scalp_bot_os.Risk.Manager.Evaluate.{Outcome, evaluate_with_confidence}
use scalp_bot_os.Ai.Filter.{evaluate_signal}
use scalp_bot_os.Backtest.Metrics.{sum_of}
use scalp_bot_os.Backtest.Engine.{EngineConfig, Simulation, start_simulation}
use scalp_bot_os.Backtest.Engine.Fills.{fill_order}
use scalp_bot_os.Backtest.Engine.Signals.{ordered, inputs_of, decide, is_against, effective_trend}
use scalp_bot_os.Backtest.Engine.Accounts.{
  handled, profits, IsSound, IsOpen, track_tick-IsSound, tick_signal-IsOpen,
}
use scalp_bot_os.Backtest.Engine.Loop.{sampled, act, round, rounds_over}

module _ {F : Type 0} ⦃f : Float F⦄ where
  -- What the gates make of a signal: one thing more is handled.
  record Handles (initial : F) (s : Simulation F) (p : Simulation F × Bool) : Type 0 where
    balance : p.0.current_balance ≡ sum_of initial (profits p.0.trades)
    generated : p.0.funnel.signals_generated ≡ s.funnel.signals_generated
    one_more : handled p.0 ≡ handled s + 1

  ordered-Handles :
      (initial : F) (cfg : EngineConfig F) (clock : ℕ) (tick : Tick F) (sig : Signal F)
      (s : Simulation F) (outcome : Outcome (OrderRequest F))
      → s.current_balance ≡ sum_of initial (profits s.trades)
      → Handles initial s (ordered cfg clock tick sig s outcome)
  unfolding fill_order
  ordered-Handles initial cfg clock tick sig s (Outcome.rejected e) h = record {
    balance = h;
    generated = refl;
    one_more = omega arith;
  }
  ordered-Handles initial cfg clock tick sig s (Outcome.approved order) h = record {
    balance = h;
    generated = refl;
    one_more = omega arith;
  }

  decide-Handles :
      (initial : F) (cfg : EngineConfig F) (clock : ℕ) (tick : Tick F) (sig : Signal F)
      (s : Simulation F)
      → s.current_balance ≡ sum_of initial (profits s.trades)
      → Handles initial s (decide cfg clock tick sig s)
  unfolding decide
  decide-Handles initial cfg clock tick sig s h =
      let (ai, j) = evaluate_signal s.ai_filter sig tick (inputs_of s) s.last_closed_candle in
      let judged = record s { ai_filter = ai } in
      let risk = evaluate_with_confidence s.risk_mgr sig tick s.atr_val j.confidence clock in
      let gate =
        ordered-Handles initial cfg clock tick sig (record judged { risk_mgr = risk.0 }) risk.1 h in
      if_intro (Handles initial s) (is_against (effective_trend s.h1.trend s.m15.trend) sig.type)
        (λ against. record { balance = h; generated = refl; one_more = omega arith })
        λ with_trend.
          if_intro (Handles initial s) (not j.allowed)
            (λ refused. record { balance = h; generated = refl; one_more = omega arith })
            λ passes. record {
              balance = gate.balance;
              generated = gate.generated;
              one_more = gate.one_more;
            }

  act-IsSound :
      (initial : F) (cfg : EngineConfig F) (clock : ℕ) (tick : Tick F) (p : Simulation F × Signal F)
      → IsOpen initial p
      → IsSound initial (act cfg clock tick p).0
  act-IsSound initial cfg clock tick (s, sig) h =
      let signals : s.funnel.signals_generated ≡ handled s + (if is_actionable sig then 1 else 0) =
        h.signals in
      let done = decide-Handles initial cfg clock tick sig s h.balance in
      let after = (decide cfg clock tick sig s).0 in
      let generated : after.funnel.signals_generated ≡ s.funnel.signals_generated =
        done.generated in
      let one_more : handled after ≡ handled s + 1 = done.one_more in
      if_intro (λ (r : Simulation F × Bool). IsSound initial r.0) (is_actionable sig)
        (λ acts. record {
          balance = done.balance;
          signals =
              generated
              ∙ (signals ∙ (ap (λ b. handled s + (if b then 1 else 0)) acts ∙ sym one_more));
        })
        λ idle. record {
          balance = h.balance;
          signals = signals ∙ (ap (λ b. handled s + (if b then 1 else 0)) idle ∙ omega arith);
        }

  sampled-IsSound :
      (initial : F) (i last : ℕ) (tick : Tick F) (p : Simulation F × Bool)
      → IsSound initial p.0
      → IsSound initial (sampled i last tick p)
  sampled-IsSound initial i last tick (s, false) h = h
  sampled-IsSound initial i last tick (s, true) h =
      if_intro (IsSound initial) (((i % 500) == 0) || (i == last))
        (λ due. record { balance = h.balance; signals = h.signals }) λ not_due. h

  round-IsSound :
      (initial : F) (cfg : EngineConfig F) (clock : ℕ → ℕ) (last i : ℕ) (s : Simulation F)
      (tick : Tick F)
      → IsSound initial s
      → IsSound initial (round cfg clock last i s tick)
  unfolding round
  round-IsSound initial cfg clock last i s tick h = sampled-IsSound initial i last tick _ (
      act-IsSound initial cfg (clock i) tick _ (
        tick_signal-IsOpen initial cfg (clock i) _ tick
          (track_tick-IsSound initial cfg (clock i) s tick h)))

  rounds_over-IsSound :
      (initial : F) (cfg : EngineConfig F) (clock : ℕ → ℕ) (last i : ℕ) (ticks : List (Tick F))
      (s : Simulation F)
      → IsSound initial s
      → IsSound initial (rounds_over cfg clock last i s ticks)
  unfolding rounds_over
  rounds_over-IsSound initial cfg clock last i [] s h = h
  rounds_over-IsSound initial cfg clock last i (tick ∷ ticks) s h =
      rounds_over-IsSound initial cfg clock last (i + 1) ticks _
        (round-IsSound initial cfg clock last i s tick h)

  -- After any ticks of a simulation the balance is the first one with the profits of the trades added
  -- in their order, and the signals are as many as the rejections by trend, filter and risk manager
  -- and the orders together.
  pub rounds_over-balance :
      (cfg : EngineConfig F) (two_pi : F) (strat : MomentumScalper F)
      (range_strat : Option (RangeScalper F)) (clock : ℕ → ℕ) (time last : ℕ)
      (ticks : List (Tick F))
      → let s =
          rounds_over cfg clock last 0 (start_simulation cfg two_pi strat range_strat time) ticks in
        (s.current_balance ≡ sum_of cfg.initial_balance (profits s.trades))
        × (s.funnel.signals_generated ≡ handled s)
  unfolding start_simulation
  rounds_over-balance cfg two_pi strat range_strat clock time last ticks =
      let start = start_simulation cfg two_pi strat range_strat time in
      let h =
        rounds_over-IsSound cfg.initial_balance cfg clock last 0 ticks start
          record { balance = refl; signals = refl } in
      (h.balance, h.signals)
