-- ===== src/Tests/Risk.antt =====
-- Runs of the risk manager.
use scalp_bot_os.Base.{
  ◌≤◌, ◌≡◌, ◌⊎◌, refl, true, false, List, [], ◌∷◌, All, length, bytes, none, dec, lit, ◌<F◌, ◌>F◌,
  arith, ◌-F◌, upper, lower,
}
use scalp_bot_os.Base.Fixed.{Fixed, root, fixed_float, Fixed-IsOrdered}
use scalp_bot_os.Model.Types.{OrderRequest, is_actionable, spread_pips}
use scalp_bot_os.Model.Symbol.{normalize_symbol, pip_multiplier}
use scalp_bot_os.Risk.Manager.{
  Manager, new_manager, default_manager_config, profit_target_amount, is_drawdown_hit,
  is_target_hit, record_close_for_symbol, record_fill_for_symbol, check_daily_reset_at,
}
use scalp_bot_os.Risk.Manager.Calendar.{year_day, year_day_bounds}
use scalp_bot_os.Risk.Manager.Evaluate.{
  approved, first_rejection, make_order, size_order, evaluate, evaluate_with_confidence, guarded,
  max_spread, calculate_lot_size, confident_lots, scale_lots,
}
use scalp_bot_os.Risk.Manager.Evaluate.Approved.{
  reset_days, IsSized, IsOrderFor, IsTrading, evaluate-approved,
}
use scalp_bot_os.Risk.Manager.Days.{Event, IsRejected, outcomes, outcomes-drawdown}
use scalp_bot_os.Risk.Manager.Positions.{
  Change, Tracks, change_all, open_after, count_of, change_all-Tracks, fill-approved,
}
use scalp_bot_os.Risk.Manager.Sizing.{evaluate_with_confidence_bounds}
use scalp_bot_os.Tests.Inputs.{gold, tick_at, noon, buy_gold}

year_day_bounds_example : (1 ≤ year_day noon) × (year_day noon ≤ 366)
year_day_bounds_example = year_day_bounds noon

abbrev manager : Manager Fixed
manager = new_manager default_manager_config

abbrev order : OrderRequest Fixed
order = make_order buy_gold (tick_at 2000 noon) (dec 5 2) noon

evaluate-run :
    evaluate manager buy_gold (tick_at 2000 noon) (lit 2) noon
    ≡ (reset_days manager (tick_at 2000 noon) noon, approved order)
unfolding evaluate guarded size_order first_rejection is_drawdown_hit is_target_hit
    calculate_lot_size max_spread check_daily_reset_at new_manager default_manager_config
    profit_target_amount is_actionable year_day upper lower spread_pips pip_multiplier
evaluate-run = refl

evaluate-approved_example :
    (first_rejection manager.filters (tick_at 2000 noon) ≡ none)
    × (is_actionable buy_gold ≡ true)
    × (reset_days manager (tick_at 2000 noon) noon ≡ reset_days manager (tick_at 2000 noon) noon)
    × IsTrading (reset_days manager (tick_at 2000 noon) noon)
    × IsSized
        (reset_days manager (tick_at 2000 noon) noon)
        buy_gold
        (tick_at 2000 noon)
        (lit 2)
        noon
        order
    × IsOrderFor
        (reset_days manager (tick_at 2000 noon) noon)
        buy_gold
        (tick_at 2000 noon)
        (lit 2)
        noon
        order
evaluate-approved_example =
    evaluate-approved manager (reset_days manager (tick_at 2000 noon) noon) buy_gold
      (tick_at 2000 noon) (lit 2) noon order evaluate-run

abbrev today : Manager Fixed
today = record manager { last_reset_day = 2 }

abbrev evaluations : List (Event Fixed)
evaluations =
    Event.fill gold
    ∷ Event.evaluation buy_gold (tick_at 2000 noon) (lit 2) noon
    ∷ Event.close gold (lit 900)
    ∷ Event.evaluation buy_gold (tick_at 2000 noon) (lit 2) noon
    ∷ []

outcomes-drawdown_example :
    All IsRejected (outcomes (record_close_for_symbol today gold (lit 0 -F lit 600)) evaluations)
unfolding new_manager default_manager_config year_day
outcomes-drawdown_example =
    outcomes-drawdown today gold (lit 0 -F lit 600) evaluations refl refl
      (tt, ((refl, refl), (tt, ((refl, refl), tt))))

manager-Tracks : Tracks manager []
unfolding new_manager count_of
manager-Tracks = record { total = refl; each = λ k. refl }

abbrev round_trip : List (Change Fixed)
round_trip = Change.filled gold ∷ Change.closed (bytes "XAUUSD") (lit 5) ∷ []

change_all-Tracks_example : Tracks (change_all manager round_trip) (open_after [] round_trip)
unfolding count_of normalize_symbol upper
change_all-Tracks_example =
    change_all-Tracks round_trip manager [] ((λ e. ground arith), omega arith, tt) manager-Tracks

fill-approved_example :
    Tracks (record_fill_for_symbol (reset_days manager (tick_at 2000 noon) noon) gold) (gold ∷ [])
    × (length (gold ∷ []) ≤ 1)
    × (count_of (normalize_symbol gold) (gold ∷ []) ≤ 1)
unfolding new_manager default_manager_config
fill-approved_example =
    fill-approved manager (reset_days manager (tick_at 2000 noon) noon) buy_gold (tick_at 2000 noon)
      (lit 2) noon order [] manager-Tracks evaluate-run

-- With a confidence of one half the least lots are bet.
abbrev unsure_order : OrderRequest Fixed
unsure_order = make_order buy_gold (tick_at 2000 noon) (dec 1 2) noon

evaluate_with_confidence_bounds_example :
    let m' = reset_days manager (tick_at 2000 noon) noon in
    (base : OrderRequest Fixed) × (evaluate manager buy_gold (tick_at 2000 noon) (lit 2) noon
      ≡ (m', approved base))
    × (((m'.cfg.min_lot_size <F m'.cfg.max_lot_size) ≡ true)
          × ((dec 1 2 <F m'.cfg.min_lot_size) ≡ false)
          × ((dec 1 2 >F m'.cfg.max_lot_size) ≡ false)
          × (record unsure_order { lots = base.lots } ≡ base)
        ⊎ ((m'.cfg.min_lot_size <F m'.cfg.max_lot_size) ≡ false) × (unsure_order ≡ base))
unfolding evaluate_with_confidence confident_lots evaluate guarded size_order first_rejection
    is_drawdown_hit is_target_hit calculate_lot_size max_spread check_daily_reset_at new_manager
    default_manager_config profit_target_amount is_actionable year_day upper lower spread_pips
    pip_multiplier scale_lots root
evaluate_with_confidence_bounds_example =
    evaluate_with_confidence_bounds Fixed-IsOrdered manager
      (reset_days manager (tick_at 2000 noon) noon) buy_gold (tick_at 2000 noon) (lit 2) (dec 50 2)
      noon unsure_order refl refl refl
