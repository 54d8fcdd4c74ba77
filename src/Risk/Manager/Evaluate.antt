-- ===== src/Risk/Manager/Evaluate.antt =====
-- `Evaluate`, `EvaluateWithConfidence` and `calculateLotSize` of internal/risk/manager.go: the guards
-- in their order, with every change of state on the way.
pub mod Approved
use scalp_bot_os.Base.{
  ℕ, Bool, true, false, not, ◌&&◌, ltb, leb, ◌==◌, if◌then◌else◌, List, [], ◌∷◌, Option, none, some,
  Text, bytes, to_upper, to_lower, contains, has_suffix, Float, ◌+F◌, ◌-F◌, ◌*F◌, ◌/F◌, ◌<F◌, ◌>F◌,
  ◌≤F◌, ◌≥F◌, dec, lit,
}
use scalp_bot_os.Model.Types.{
  Tick, Signal, SignalType, OrderRequest, OrderSide, OrderStatus, is_actionable, is_sell,
  spread_pips,
}
use scalp_bot_os.Model.Symbol.{normalize_symbol, pip_multiplier, pip_value, has_gold_code}
use scalp_bot_os.Risk.Manager.{
  Manager, MarketFilter, RiskError, filter_rejected, invalid_signal, circuit_is_open,
  daily_profit_target_reached, daily_drawdown_hit, max_positions_open, symbol_occupied,
  spread_too_wide, zero_equity, insufficient_atr, check_daily_reset_at, is_drawdown_hit,
  is_target_hit, at_least_one,
}
use scalp_bot_os.Risk.Manager.Calendar.{year_day}

-- An order, or the reason why there is none.
pub data Outcome (A : Type 0) : Type 0 where
  approved : A → Outcome A
  rejected : RiskError → Outcome A

module _ {F : Type 0} ⦃f : Float F⦄ where
  -- Guard 0: the first filter that does not allow the tick.
  unfoldable pub first_rejection : List (MarketFilter F) → Tick F → Option RiskError
  first_rejection [] tick = none
  first_rejection (g ∷ gs) tick =
      let (ok, reason) = g.allow tick in
      if ok then first_rejection gs tick else some (filter_rejected g.name reason)

  -- Guard 5: gold is traded with another limit on cent accounts than on the others.
  unfoldable pub max_spread : F → Text → F
  unfolding contains has_suffix to_upper to_lower
  max_spread limit symbol =
      if has_gold_code (to_upper symbol)
      then (if has_suffix (to_lower symbol) (bytes "c")
          then (if limit <F lit 60 then lit 60 else limit)
          else if limit >F lit 35
          then lit 35
          else limit)
      else limit

  abbrev pub round_lots : F → F
  round_lots x = f.round (x *F lit 100) /F lit 100

  -- The two clamps of `calculateLotSize`, the lower bound first.
  abbrev pub clamp_lots : F → F → F → F
  clamp_lots low high x =
      let raised = if x <F low then low else x in if raised >F high then high else raised

  unfoldable pub calculate_lot_size : Manager F → Text → F → F → Outcome F
  unfolding pip_value
  calculate_lot_size m symbol atr pip_mult =
      if m.fixed_lots >F lit 0
      then approved (round_lots m.fixed_lots)
      else if atr ≤F lit 0
      then rejected insufficient_atr
      else let risk = m.equity *F m.cfg.risk_per_trade in
        let per_lot = (atr *F pip_mult) *F pip_value symbol (lit 1) in
        approved (round_lots (clamp_lots m.cfg.min_lot_size m.cfg.max_lot_size (risk /F per_lot)))

  abbrev pub order_side : Signal F → OrderSide
  order_side s = if is_sell s.type then OrderSide.side_sell else OrderSide.side_buy

  -- A buy enters at the ask, a sell at the bid.
  abbrev pub entry_price : Signal F → Tick F → F
  entry_price s tick = if is_sell s.type then tick.bid else tick.ask

  abbrev pub make_order : Signal F → Tick F → F → ℕ → OrderRequest F
  make_order s tick lots now = record {
    symbol = s.symbol;
    side = order_side s;
    lots = lots;
    price = entry_price s tick;
    stop_loss = s.stop_loss;
    take_profit = s.take_profit;
    status = OrderStatus.pending;
    signal_id = s.strategy_id;
    timestamp_ns = now;
  }

  -- Guards 4 to 6, which change no state, and the order.
  unfoldable pub size_order : Manager F → Signal F → Tick F → F → ℕ → Outcome (OrderRequest F)
  size_order m s tick atr now =
      let pip_mult = pip_multiplier tick.symbol in
      if leb m.cfg.max_open_positions m.open_positions
      then rejected max_positions_open
      else if leb (at_least_one m.cfg.max_positions_per_symbol)
          (m.symbol_positions (normalize_symbol s.symbol))
      then rejected symbol_occupied
      else if spread_pips tick pip_mult >F max_spread m.cfg.max_spread_pips tick.symbol
      then rejected spread_too_wide
      else if m.equity ≤F lit 0
      then rejected zero_equity
      else elim (calculate_lot_size m tick.symbol atr pip_mult) [
        | approved lots ↦ approved (make_order s tick lots now)
        | rejected e ↦ rejected e
      ]

  -- Guards 1 to 3b, of which the last two trip the breakers.
  unfoldable pub guarded :
      Manager F → Signal F → Tick F → F → ℕ → Manager F × Outcome (OrderRequest F)
  unfolding is_actionable
  guarded m s tick atr now =
      if not (is_actionable s)
      then (m, rejected invalid_signal)
      else if m.circuit_open
      then (m, rejected circuit_is_open)
      else if m.profit_target_reached
      then (m, rejected daily_profit_target_reached)
      else if is_drawdown_hit m
      then (record m { circuit_open = true }, rejected daily_drawdown_hit)
      else if is_target_hit m
      then (record m { profit_target_reached = true }, rejected daily_profit_target_reached)
      else (m, size_order m s tick atr now)

  -- The time of a tick, or the clock for a tick that has none.
  abbrev pub tick_time : Tick F → ℕ → ℕ
  tick_time tick now = if ltb 0 tick.timestamp_ns then tick.timestamp_ns else now

  -- `Evaluate`: the day is reset by the clock, then by the time of the tick.
  unfoldable pub evaluate :
      Manager F → Signal F → Tick F → F → ℕ → Manager F × Outcome (OrderRequest F)
  evaluate m s tick atr now =
      let m₁ = check_daily_reset_at m (year_day now) in
      elim (first_rejection m₁.filters tick) [
        | some e ↦ (m₁, rejected e)
        | none ↦ guarded (check_daily_reset_at m₁ (year_day (tick_time tick now))) s tick atr now
      ]

  -- López de Prado's bet size for a confidence.
  abbrev pub bet_fraction : F → F
  bet_fraction confidence =
      let p = f.max (dec 50 2) (f.min (dec 95 2) confidence) in
      let z = (p -F dec 5 1) /F f.sqrt (p *F (lit 1 -F p)) in
      let phi = dec 5 1 *F (lit 1 +F f.erf (z /F f.sqrt (lit 2))) in
      f.max (lit 0) (f.min (lit 1) (lit 2 *F phi -F lit 1))

  unfoldable pub scale_lots : F → F → F → F
  scale_lots low high confidence =
      let scaled = round_lots (low +F bet_fraction confidence *F (high -F low)) in
      if scaled <F low then low else if scaled >F high then high else scaled

  unfoldable pub confident_lots : Manager F → F → F → F
  unfolding scale_lots
  confident_lots m confidence lots =
      if m.fixed_lots >F lit 0
      then round_lots m.fixed_lots
      else if (confidence >F lit 0) && (m.cfg.max_lot_size >F m.cfg.min_lot_size)
      then scale_lots m.cfg.min_lot_size m.cfg.max_lot_size confidence
      else lots

  -- What follows on the call of `Evaluate`.
  unfoldable pub resize :
      F → Manager F × Outcome (OrderRequest F) → Manager F × Outcome (OrderRequest F)
  resize confidence (m, rejected e) = (m, rejected e)
  resize confidence (m, approved order) =
      (m, approved (record order { lots = confident_lots m confidence order.lots }))

  unfoldable pub evaluate_with_confidence :
      Manager F → Signal F → Tick F → F → F → ℕ → Manager F × Outcome (OrderRequest F)
  unfolding resize
  evaluate_with_confidence m s tick atr confidence now =
      resize confidence (evaluate m s tick atr now)
