-- ===== src/Tests/Dispatcher.antt =====
-- Runs of the order dispatcher and of the telemetry.
use mathlib.Core.List.{Perm}
use scalp_bot_os.Base.{
  last_of, map, All, Option, ◌+◌, ◌*◌, ◌≤◌, ◌≡◌, refl, true, List, [], ◌∷◌, ◌++◌, length, none, pos,
  upper, to_upper, trim_space, bytes, dec, lit, Text, arith,
}
use scalp_bot_os.Base.Fixed.{Fixed, fixed_float}
use scalp_bot_os.Base.Dict.{lookup, insert, delete}
use scalp_bot_os.Model.Types.{OrderRequest, OrderSide, OrderStatus, Position}
use scalp_bot_os.Executor.Dispatcher.{
  Dispatcher, Event, submitted, taken, finished, new_dispatcher, run, step, submit, send, take,
  finish, symbol_key,
}
use scalp_bot_os.Executor.Dispatcher.Pick.{count}
use scalp_bot_os.Executor.Dispatcher.Queue.{entered_all, started_all, started_all-entered_all}
use scalp_bot_os.Executor.Dispatcher.Exclusion.{marks, is_timely, all_timely, run_exclusive}
use scalp_bot_os.Executor.Dispatcher.Draining.{
  all_effective, is_effective, can_take, is_at_rest, completions_all, order_of, answer_of,
  answers_all, run_drains,
}
use scalp_bot_os.Executor.Dispatcher.Resting.{Reports, run_rests}
use scalp_bot_os.Executor.Telemetry.{new_telemetry_tracker, counted}
use scalp_bot_os.Executor.Telemetry.Tally.{
  TelemetryEvent, filled, rejected, rejections, closes_for, closes, telemetry_run, fills,
  telemetry_run_counts,
}
use scalp_bot_os.Tests.Inputs.{gold, noon}

abbrev pub order_for : Text → OrderRequest Fixed
order_for symbol = record {
  symbol = symbol;
  side = OrderSide.side_buy;
  lots = dec 10 2;
  price = lit 2000;
  stop_loss = lit 1990;
  take_profit = lit 2020;
  status = OrderStatus.pending;
  signal_id = bytes "1";
  timestamp_ns = noon;
}

abbrev pub silver : Text
silver = bytes "XAGUSD"

-- The second order for gold comes while the first is executed.
abbrev busy : List (Event Fixed)
busy =
    submitted (order_for gold) noon
    ∷ (taken ∷ (submitted (order_for silver) noon ∷ (submitted (order_for gold) (noon + 1) ∷ [])))

abbrev queued : Dispatcher Fixed
queued = run (new_dispatcher (pos 8) (pos 1)) busy

run_exclusive_example :
    count gold (run (new_dispatcher (pos 8) (pos 1)) busy).order_ch
      + count gold (run (new_dispatcher (pos 8) (pos 1)) busy).executing
    ≤ marks (lookup gold (run (new_dispatcher (pos 8) (pos 1)) busy).in_flight_symbols)
unfolding all_timely is_timely step submit send take new_dispatcher lookup insert delete symbol_key
    upper trim_space to_upper
run_exclusive_example = run_exclusive (pos 8) (pos 1) busy gold refl

abbrev draining : List (Event Fixed)
draining = finished 0 none ∷ (taken ∷ (finished 0 none ∷ []))

run_drains_example :
    ((run queued draining).order_ch ≡ [])
    × ((run queued draining).executing ≡ [])
    × (length draining ≡ 2 * length queued.order_ch + length queued.executing)
    × Perm (map order_of (completions_all queued draining)) (queued.executing ++ queued.order_ch)
    × (map answer_of (completions_all queued draining) ≡ answers_all draining)
unfolding run all_effective is_effective can_take is_at_rest step submit send take finish
    new_dispatcher lookup insert delete symbol_key upper trim_space to_upper
run_drains_example = run_drains queued draining (omega arith) refl refl

-- A broker that refuses every order.
abbrev refusing : OrderRequest Fixed → Option (Position Fixed)
refusing o = none

run_rests_example :
    (es : List (Event Fixed)) × (all_effective queued es ≡ true)
    × (is_at_rest (run queued es) ≡ true)
    × All (Reports refusing) (completions_all queued es)
run_rests_example = run_rests refusing queued

started_all-entered_all_example :
    started_all queued draining ++ (run queued draining).order_ch
    ≡ queued.order_ch ++ entered_all queued draining
started_all-entered_all_example = started_all-entered_all queued draining

abbrev fill : Position Fixed
fill = record {
  order_id = bytes "9";
  symbol = silver;
  side = OrderSide.side_buy;
  lots = dec 10 2;
  entry_price = lit 2001;
  current_pnl = lit 0;
  open_time_ns = noon;
}

abbrev traded : List (TelemetryEvent Fixed)
traded = filled (order_for silver) fill 5_000_000 noon ∷ (rejected ∷ [])

telemetry_run_counts_example :
    ((telemetry_run new_telemetry_tracker traded).records ≡ last_of 1024 (fills traded))
    × ((telemetry_run new_telemetry_tracker traded).total_filled ≡ length (fills traded))
    × ((telemetry_run new_telemetry_tracker traded).total_rejected ≡ rejections traded)
    × ((telemetry_run new_telemetry_tracker traded).total_partial_closes
          + (telemetry_run new_telemetry_tracker traded).total_full_closes
        ≡ closes traded)
    × (counted (lookup (bytes "SL_HIT") (telemetry_run new_telemetry_tracker traded).close_reasons)
        ≡ closes_for (bytes "SL_HIT") traded)
telemetry_run_counts_example = telemetry_run_counts traded (bytes "SL_HIT")
