-- ===== src/Risk/Manager/Days.antt =====
-- The limits of the day: how long a breaker holds, and when it does not.
use scalp_bot_os.Base.{
  ℕ, ◌<◌, ◌≡◌, refl, sym, ap, ◌∙◌, ◌≢◌, ◌⊎◌, inl, inr, true, false, List, [], ◌∷◌, All, none,
  Option-cases, Text, Float, ◌+F◌, ◌<F◌, ◌≥F◌, lit, IsOrdered, arith,
}
use scalp_bot_os.Model.Types.{Tick, Signal, OrderRequest, is_actionable}
use scalp_bot_os.Risk.Manager.{
  Manager, check_daily_reset_at, is_drawdown_hit, is_target_hit, profit_target_amount,
  drawdown_limit, record_fill_for_symbol, record_close_for_symbol,
}
use scalp_bot_os.Risk.Manager.Calendar.{year_day}
use scalp_bot_os.Risk.Manager.Evaluate.{
  Outcome, approved, rejected, first_rejection, size_order, guarded, tick_time, evaluate,
}
use scalp_bot_os.Risk.Manager.Evaluate.Approved.{reset_days, evaluate-guarded, evaluate-filtered}

-- What happens to the manager in the course of a day.
pub data Event (F : Type 0) : Type 0 where
  fill : Text → Event F
  close : Text → F → Event F
  evaluation : Signal F → Tick F → F → ℕ → Event F

abbrev pub IsRejected : {A : Type 0} → Outcome A → Type 0
IsRejected (approved a) = ⊥
IsRejected (rejected e) = Unit

module _ {F : Type 0} ⦃f : Float F⦄ where
  -- Both times that an evaluation reads lie on the day.
  abbrev pub IsOnDay : ℕ → Event F → Type 0
  IsOnDay day (fill symbol) = Unit
  IsOnDay day (close symbol pnl) = Unit
  IsOnDay day (evaluation s tick atr now) =
      (year_day now ≡ day) × (year_day (tick_time tick now) ≡ day)

  -- The outcomes of the evaluations among the events.
  unfoldable pub outcomes : Manager F → List (Event F) → List (Outcome (OrderRequest F))
  outcomes m [] = []
  outcomes m (fill symbol ∷ es) = outcomes (record_fill_for_symbol m symbol) es
  outcomes m (close symbol pnl ∷ es) = outcomes (record_close_for_symbol m symbol pnl) es
  outcomes m (evaluation s tick atr now ∷ es) =
      let (m', out) = evaluate m s tick atr now in out ∷ outcomes m' es

  -- A breaker has tripped on this day.
  record IsHalted (day : ℕ) (m : Manager F) : Type 0 where
    today : m.last_reset_day ≡ day
    breaker : (m.circuit_open ≡ true) ⊎ (m.profit_target_reached ≡ true)

  reset_same : (m : Manager F) (day : ℕ) → m.last_reset_day ≡ day → check_daily_reset_at m day ≡ m
  unfolding check_daily_reset_at
  reset_same m day h = ground arith

  fill-IsHalted :
      (m : Manager F) (day : ℕ) (symbol : Text)
      → IsHalted day m
      → IsHalted day (record_fill_for_symbol m symbol)
  unfolding record_fill_for_symbol
  fill-IsHalted m day symbol h = record { today = h.today; breaker = h.breaker }

  close-IsHalted :
      (m : Manager F) (day : ℕ) (symbol : Text) (pnl : F)
      → IsHalted day m
      → IsHalted day (record_close_for_symbol m symbol pnl)
  unfolding record_close_for_symbol
  close-IsHalted m day symbol pnl h = ground arith

  guarded-IsHalted :
      (m : Manager F) (day : ℕ) (s : Signal F) (tick : Tick F) (atr : F) (now : ℕ)
      → IsHalted day m
      → ((guarded m s tick atr now).0 ≡ m) × IsRejected (guarded m s tick atr now).1
  unfolding guarded
  guarded-IsHalted m day s tick atr now h = ground arith

  evaluate-IsHalted :
      (m : Manager F) (day : ℕ) (s : Signal F) (tick : Tick F) (atr : F) (now : ℕ)
      → IsOnDay day (evaluation s tick atr now)
      → IsHalted day m
      → ((evaluate m s tick atr now).0 ≡ m) × IsRejected (evaluate m s tick atr now).1
  evaluate-IsHalted m day s tick atr now (a, b) h =
      let first : check_daily_reset_at m (year_day now) ≡ m = reset_same m _ (h.today ∙ sym a) in
      let both : reset_days m tick now ≡ m = rw first (reset_same m _ (h.today ∙ sym b)) in
      elim (Option-cases (first_rejection m.filters tick)) [
        | inl clear ↦
            rw (evaluate-guarded m s tick atr now clear, both)
              (guarded-IsHalted m day s tick atr now h)
        | inr (e, blocked) ↦ rw (evaluate-filtered m s tick atr now blocked) (first, tt)
      ]

  outcomes-IsHalted :
      (es : List (Event F)) (m : Manager F) (day : ℕ)
      → All (IsOnDay day) es
      → IsHalted day m
      → All IsRejected (outcomes m es)
  unfolding outcomes
  outcomes-IsHalted [] m day on h = tt
  outcomes-IsHalted (fill symbol ∷ es) m day (_, on) h =
      outcomes-IsHalted es _ day on (fill-IsHalted m day symbol h)
  outcomes-IsHalted (close symbol pnl ∷ es) m day (_, on) h =
      outcomes-IsHalted es _ day on (close-IsHalted m day symbol pnl h)
  outcomes-IsHalted (evaluation s tick atr now ∷ es) m day (o, on) h =
      let (same, out) = evaluate-IsHalted m day s tick atr now o h in
      (out, rw same (outcomes-IsHalted es m day on h))

  drawdown-IsHalted :
      (m : Manager F) (symbol : Text) (pnl : F)
      → ((m.daily_pnl +F pnl) <F lit 0) ≡ true
      → (f.abs (m.daily_pnl +F pnl) ≥F drawdown_limit m) ≡ true
      → IsHalted m.last_reset_day (record_close_for_symbol m symbol pnl)
  unfolding record_close_for_symbol is_drawdown_hit
  drawdown-IsHalted m symbol pnl loss deep = record {
    today = refl;
    breaker = inl (rw (loss, deep));
  }

  target-IsHalted :
      (m : Manager F) (symbol : Text) (pnl : F)
      → (lit 0 <F profit_target_amount m) ≡ true
      → ((m.daily_pnl +F pnl) ≥F profit_target_amount m) ≡ true
      → IsHalted m.last_reset_day (record_close_for_symbol m symbol pnl)
  unfolding record_close_for_symbol is_target_hit profit_target_amount
  target-IsHalted m symbol pnl some_target gain = record {
    today = refl;
    breaker = inr (rw (some_target, gain));
  }

  -- A close that takes the loss of the day to the drawdown limit ends trading: as
  -- long as the evaluations that follow read times of that day, none hands out an order, whatever
  -- fills and closes come between.
  pub outcomes-drawdown :
      (m : Manager F) (symbol : Text) (pnl : F) (es : List (Event F))
      → ((m.daily_pnl +F pnl) <F lit 0) ≡ true
      → (f.abs (m.daily_pnl +F pnl) ≥F drawdown_limit m) ≡ true
      → All (IsOnDay m.last_reset_day) es
      → All IsRejected (outcomes (record_close_for_symbol m symbol pnl) es)
  outcomes-drawdown m symbol pnl es loss deep on =
      outcomes-IsHalted es (record_close_for_symbol m symbol pnl) m.last_reset_day on
        (drawdown-IsHalted m symbol pnl loss deep)

  -- A close that takes the gain of the day to a profit target that is positive ends trading likewise,
  -- for evaluations that read times of the day of the last reset.
  outcomes-target :
      (m : Manager F) (symbol : Text) (pnl : F) (es : List (Event F))
      → (lit 0 <F profit_target_amount m) ≡ true
      → ((m.daily_pnl +F pnl) ≥F profit_target_amount m) ≡ true
      → All (IsOnDay m.last_reset_day) es
      → All IsRejected (outcomes (record_close_for_symbol m symbol pnl) es)
  outcomes-target m symbol pnl es some_target gain on =
      outcomes-IsHalted es (record_close_for_symbol m symbol pnl) m.last_reset_day on
        (target-IsHalted m symbol pnl some_target gain)

  -- The manager at the start of a day.
  abbrev pub fresh_day : Manager F → ℕ → Manager F
  fresh_day m day = record m {
    daily_pnl = lit 0;
    circuit_open = false;
    profit_target_reached = false;
    last_reset_day = day;
  }

  reset_other :
      (m : Manager F) (day : ℕ)
      → m.last_reset_day ≢ day
      → check_daily_reset_at m day ≡ fresh_day m day
  unfolding check_daily_reset_at
  reset_other m day h = ground arith

  last_reset_day-reset :
      (m : Manager F) (day : ℕ) → (check_daily_reset_at m day).last_reset_day ≡ day
  unfolding check_daily_reset_at
  last_reset_day-reset m day = ground arith

  reset_fresh : (m : Manager F) (day : ℕ) → fresh_day (check_daily_reset_at m day) ≡ fresh_day m
  unfolding check_daily_reset_at
  reset_fresh m day = ground arith

  module _ (laws : IsOrdered F) where
    open laws use {lt_irrefl, le-not_lt}

    is_drawdown_hit-fresh : (m : Manager F) (day : ℕ) → is_drawdown_hit (fresh_day m day) ≡ false
    unfolding is_drawdown_hit
    is_drawdown_hit-fresh m day = rw (lt_irrefl (lit 0))

    is_target_hit-fresh : (m : Manager F) (day : ℕ) → is_target_hit (fresh_day m day) ≡ false
    unfolding is_target_hit
    is_target_hit-fresh m day =
        ground (arith, le-not_lt (profit_target_amount (fresh_day m day)) (lit 0))

    guarded-fresh :
        (m : Manager F) (day : ℕ) (s : Signal F) (tick : Tick F) (atr : F) (now : ℕ)
        → is_actionable s ≡ true
        → guarded (fresh_day m day) s tick atr now
          ≡ (fresh_day m day, size_order (fresh_day m day) s tick atr now)
    unfolding guarded
    guarded-fresh m day s tick atr now act =
        rw (act, is_drawdown_hit-fresh m day, is_target_hit-fresh m day)

    -- Where the day of the tick is not the day of the clock, as in every backtest of a past day, an
    -- actionable signal that passes the filters meets a manager whose day has just begun: neither
    -- the losses nor the gains nor the breakers of that day are looked at, and the signal is sized
    -- by the guards that remain.
    evaluate-other_day :
        (m : Manager F) (s : Signal F) (tick : Tick F) (atr : F) (now : ℕ)
        → 0 < tick.timestamp_ns
        → year_day now ≢ year_day tick.timestamp_ns
        → first_rejection m.filters tick ≡ none
        → is_actionable s ≡ true
        → let m' = fresh_day m (year_day tick.timestamp_ns) in
          evaluate m s tick atr now ≡ (m', size_order m' s tick atr now)
    evaluate-other_day m s tick atr now stamped other clear act =
        let day = year_day tick.timestamp_ns in
        let time : tick_time tick now ≡ tick.timestamp_ns = ground arith in
        let resets : reset_days m tick now ≡ fresh_day m day =
          ap (λ t. check_daily_reset_at (check_daily_reset_at m (year_day now)) (year_day t)) time
          ∙ reset_other (check_daily_reset_at m (year_day now)) day
              (λ e. other (sym (last_reset_day-reset m (year_day now)) ∙ e))
          ∙ ap (λ (g : ℕ → Manager F). g day) (reset_fresh m (year_day now)) in
        rw (evaluate-guarded m s tick atr now clear, resets)
          (guarded-fresh m day s tick atr now act)
