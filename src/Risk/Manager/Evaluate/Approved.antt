-- ===== src/Risk/Manager/Evaluate/Approved.antt =====
-- What holds when `Evaluate` hands out an order.
use scalp_bot_os.Base.{
  ℕ, ◌<◌, ◌≡◌, refl, sym, ap, ◌∙◌, true, false, subst, ◌⊎◌, inl, inr, none, some, Option-cases,
  Bool-cases, Text, Float, ◌>F◌, ◌<F◌, ◌≤F◌, ◌*F◌, ◌/F◌, lit, arith,
}
use scalp_bot_os.Model.Types.{
  Tick, Signal, SignalType, OrderRequest, OrderSide, OrderStatus, is_actionable, spread_pips,
}
use scalp_bot_os.Model.Symbol.{normalize_symbol, pip_multiplier, pip_value}
use scalp_bot_os.Risk.Manager.{
  Manager, RiskError, check_daily_reset_at, is_drawdown_hit, is_target_hit, at_least_one,
}
use scalp_bot_os.Risk.Manager.Calendar.{year_day}
use scalp_bot_os.Risk.Manager.Evaluate.{
  approved, rejected, first_rejection, max_spread, clamp_lots, calculate_lot_size, make_order,
  size_order, guarded, tick_time, evaluate,
}

module _ {F : Type 0} ⦃f : Float F⦄ where
  -- The manager after the two resets of the day.
  abbrev pub reset_days : Manager F → Tick F → ℕ → Manager F
  reset_days m tick now =
      check_daily_reset_at (check_daily_reset_at m (year_day now)) (year_day (tick_time tick now))

  -- The guards that change no state have all passed, and the order is the one that was asked for.
  pub record IsSized (m : Manager F) (s : Signal F) (tick : Tick F) (atr : F) (now : ℕ)
      (o : OrderRequest F) : Type 0 where
    pub slot : m.open_positions < m.cfg.max_open_positions
    pub symbol_slot :
        m.symbol_positions (normalize_symbol s.symbol) < at_least_one m.cfg.max_positions_per_symbol
    pub spread_ok :
        (spread_pips tick (pip_multiplier tick.symbol)
          >F max_spread m.cfg.max_spread_pips tick.symbol)
        ≡ false
    pub equity_ok : (m.equity ≤F lit 0) ≡ false
    pub sized : calculate_lot_size m tick.symbol atr (pip_multiplier tick.symbol) ≡ approved o.lots
    pub made : o ≡ make_order s tick o.lots now

  -- A value between two bounds: the upper bound if the value or the lower bound is above it, or else
  -- the lower bound if the value is below it, or else the value.
  abbrev pub Clamped : F → F → F → F → Type 0
  Clamped low high x y =
      (y ≡ high) × (((x >F high) ≡ true) ⊎ ((low >F high) ≡ true))
      ⊎ (y ≡ low) × ((x <F low) ≡ true)
      ⊎ (y ≡ x) × ((x <F low) ≡ false) × ((x >F high) ≡ false)

  abbrev pub hundredth : F → F
  hundredth x = f.round (x *F lit 100) /F lit 100

  -- The lots that are risked at a distance of `atr`.
  abbrev pub risked : Manager F → Text → F → F
  risked m symbol atr =
      (m.equity *F m.cfg.risk_per_trade)
      /F ((atr *F pip_multiplier symbol) *F pip_value symbol (lit 1))

  -- The fixed lots if there are any, and otherwise those that are risked, within the bounds.
  abbrev pub Lots : Manager F → Text → F → F → Type 0
  Lots m symbol atr lots =
      ((m.fixed_lots >F lit 0) ≡ true) × (lots ≡ hundredth m.fixed_lots)
      ⊎ ((m.fixed_lots >F lit 0) ≡ false)
        × ((atr ≤F lit 0) ≡ false)
        × ((y : F) × Clamped m.cfg.min_lot_size m.cfg.max_lot_size (risked m symbol atr) y
            × (lots ≡ hundredth y))

  abbrev pub Sided : SignalType → Tick F → OrderSide → F → Type 0
  Sided type tick side price =
      (type ≡ SignalType.buy) × (side ≡ OrderSide.side_buy) × (price ≡ tick.ask)
      ⊎ (type ≡ SignalType.sell) × (side ≡ OrderSide.side_sell) × (price ≡ tick.bid)

  -- What an order takes from the signal, the tick, the manager and the clock.
  pub record IsOrderFor (m : Manager F) (s : Signal F) (tick : Tick F) (atr : F) (now : ℕ)
      (o : OrderRequest F) : Type 0 where
    pub sided : Sided s.type tick o.side o.price
    pub lots_are : Lots m tick.symbol atr o.lots
    pub symbol_is : o.symbol ≡ s.symbol
    pub stop_is : o.stop_loss ≡ s.stop_loss
    pub profit_is : o.take_profit ≡ s.take_profit
    pub status_is : o.status ≡ OrderStatus.pending
    pub signal_is : o.signal_id ≡ s.strategy_id
    pub time_is : o.timestamp_ns ≡ now

  clamp_lots-Clamped : (low high x : F) → Clamped low high x (clamp_lots low high x)
  clamp_lots-Clamped low high x = elim (Bool-cases (x <F low)) [
    | inl less ↦ elim (Bool-cases (low >F high)) [
      | inl over ↦ rw (less, over) (inl (refl, inr refl))
      | inr fits ↦ rw (less, fits) (inr (inl (refl, refl)))
    ]
    | inr more ↦ elim (Bool-cases (x >F high)) [
      | inl over ↦ rw (more, over) (inl (refl, inl refl))
      | inr fits ↦ rw (more, fits) (inr (inr (refl, refl, refl)))
    ]
  ]

  calculate_lot_size-Lots :
      (m : Manager F) (symbol : Text) (atr lots : F)
      → calculate_lot_size m symbol atr (pip_multiplier symbol) ≡ approved lots
      → Lots m symbol atr lots
  unfolding calculate_lot_size pip_value
  calculate_lot_size-Lots m symbol atr lots h =
      let low = m.cfg.min_lot_size in
      let high = m.cfg.max_lot_size in
      elim (Bool-cases (m.fixed_lots >F lit 0)) [
        | inl fixed ↦ inl (fixed, ground (arith, h, fixed))
        | inr free ↦ elim (Bool-cases (atr ≤F lit 0)) [
          | inl none_moved ↦ absurd (ground (arith, h, free, none_moved))
          | inr moved ↦ inr (
            free,
            moved,
            (
              clamp_lots low high (risked m symbol atr),
              clamp_lots-Clamped low high (risked m symbol atr),
              ground (arith, h, free, moved),
            ),
          )
        ]
      ]

  make_order-Sided :
      (s : Signal F) (tick : Tick F) (lots : F) (now : ℕ)
      → is_actionable s ≡ true
      → Sided s.type tick (make_order s tick lots now).side (make_order s tick lots now).price
  unfolding is_actionable
  make_order-Sided s tick lots now h = ground (arith, h)

  IsSized-IsOrderFor :
      (m : Manager F) (s : Signal F) (tick : Tick F) (atr : F) (now : ℕ) (o : OrderRequest F)
      → is_actionable s ≡ true
      → IsSized m s tick atr now o
      → IsOrderFor m s tick atr now o
  IsSized-IsOrderFor m s tick atr now o act h =
      subst (IsOrderFor m s tick atr now) (sym h.made) (record {
        sided = make_order-Sided s tick o.lots now act;
        lots_are = calculate_lot_size-Lots m tick.symbol atr o.lots h.sized;
        symbol_is = refl;
        stop_is = refl;
        profit_is = refl;
        status_is = refl;
        signal_is = refl;
        time_is = refl;
      })

  -- The breakers are closed and are not about to trip.
  pub record IsTrading (m : Manager F) : Type 0 where
    pub circuit : m.circuit_open ≡ false
    pub target : m.profit_target_reached ≡ false
    pub no_drawdown : is_drawdown_hit m ≡ false
    pub no_target : is_target_hit m ≡ false

  size_order-IsSized :
      (m : Manager F) (s : Signal F) (tick : Tick F) (atr : F) (now : ℕ) (o : OrderRequest F)
      → size_order m s tick atr now ≡ approved o
      → IsSized m s tick atr now o
  unfolding size_order
  size_order-IsSized m s tick atr now o h = ground arith

  guarded-approved :
      (m m' : Manager F) (s : Signal F) (tick : Tick F) (atr : F) (now : ℕ) (o : OrderRequest F)
      → guarded m s tick atr now ≡ (m', approved o)
      → (m' ≡ m)
        × (is_actionable s ≡ true)
        × IsTrading m
        × (size_order m s tick atr now ≡ approved o)
  unfolding guarded
  guarded-approved m m' s tick atr now o h = ground arith

  filters-reset : (m : Manager F) (day : ℕ) → (check_daily_reset_at m day).filters ≡ m.filters
  unfolding check_daily_reset_at
  filters-reset m day = ground arith

  -- With no filter against the tick `Evaluate` is its guards, after the two resets.
  pub evaluate-guarded :
      (m : Manager F) (s : Signal F) (tick : Tick F) (atr : F) (now : ℕ)
      → first_rejection m.filters tick ≡ none
      → evaluate m s tick atr now ≡ guarded (reset_days m tick now) s tick atr now
  unfolding evaluate
  evaluate-guarded m s tick atr now h =
      let clear = ap (λ g. first_rejection g tick) (filters-reset m (year_day now)) ∙ h in
      rw (clear, evaluate)

  pub evaluate-filtered :
      (m : Manager F) (s : Signal F) (tick : Tick F) (atr : F) (now : ℕ) {e : RiskError}
      → first_rejection m.filters tick ≡ some e
      → evaluate m s tick atr now ≡ (check_daily_reset_at m (year_day now), rejected e)
  unfolding evaluate
  evaluate-filtered m s tick atr now h =
      let blocked = ap (λ g. first_rejection g tick) (filters-reset m (year_day now)) ∙ h in
      rw (blocked, evaluate)

  -- An order is handed out only if every filter allows the tick, the signal is a buy or a sell, both
  -- breakers of the day are closed and not due to trip, a position is free in all and for the
  -- symbol, the spread is within the limit for the instrument, and the equity is not spent. The
  -- order then has the symbol, the stop loss, the take profit and the id of the signal, buys at the
  -- ask or sells at the bid as the signal says, and is pending since now. Its lots are the fixed ones,
  -- or else, with a positive distance, the share of the equity that is risked over the worth of that
  -- distance, held within the configured bounds; both rounded to the hundredth. The manager has
  -- changed by the resets of the day alone.
  pub evaluate-approved :
      (m m' : Manager F) (s : Signal F) (tick : Tick F) (atr : F) (now : ℕ) (o : OrderRequest F)
      → evaluate m s tick atr now ≡ (m', approved o)
      → (first_rejection m.filters tick ≡ none)
        × (is_actionable s ≡ true)
        × (m' ≡ reset_days m tick now)
        × IsTrading m'
        × IsSized m' s tick atr now o
        × IsOrderFor m' s tick atr now o
  evaluate-approved m m' s tick atr now o h = elim (Option-cases (first_rejection m.filters tick)) [
    | inl clear ↦
        let (same, act, trading, sized) =
          guarded-approved (reset_days m tick now) m' s tick atr now o
            (sym (evaluate-guarded m s tick atr now clear) ∙ h) in
        let is_sized = size_order-IsSized (reset_days m tick now) s tick atr now o sized in
        rw same (
          clear,
          act,
          refl,
          trading,
          is_sized,
          IsSized-IsOrderFor (reset_days m tick now) s tick atr now o act is_sized,
        )
    | inr (e, blocked) ↦ cc (evaluate-filtered m s tick atr now blocked)
  ]
