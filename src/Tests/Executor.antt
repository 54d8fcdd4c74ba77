-- ===== src/Tests/Executor.antt =====
-- Runs of a tracked position through ticks.
use scalp_bot_os.Base.{◌≤◌, ◌≡◌, refl, true, List, [], ◌∷◌, ◌++◌, length, upper, bytes, dec, lit}
use scalp_bot_os.Base.Fixed.{Fixed, fixed_float, Fixed-IsOrdered}
use scalp_bot_os.Model.Types.{OrderSide}
use scalp_bot_os.Executor.Tracker.{
  PositionTracker, TrackedPosition, TrackerConfig, default_tracker_config, track,
}
use scalp_bot_os.Executor.Tracker.OnTick.{on_tick, exit_stage, run_stages, tick_position}
use scalp_bot_os.Executor.Tracker.Stages.{
  mark, is_time_stopped, exit_reason, is_gold, partial_stage, is_partial_due, pnl_pips,
}
use scalp_bot_os.Executor.Tracker.Stages.Protect.{trailing_stage, protect_stage, locker_stage}
use scalp_bot_os.Model.Symbol.{normalize_symbol}
use scalp_bot_os.Model.Asset.{detect_asset_class}
use scalp_bot_os.Executor.Tracker.OnTick.Stops.{Moves, tick_position-Moves}
use scalp_bot_os.Executor.Tracker.OnTick.Changes.{is_closed, last_stop, partials, Split}
use scalp_bot_os.Executor.Tracker.OnTick.Exits.{Fate}
use scalp_bot_os.Executor.Tracker.OnTick.Partial.{
  Arrival, run_closes, tick_position-last_stop, tick_position-Fate, tick_position-Split,
  run_closes-once,
}
use scalp_bot_os.Executor.Tracker.OnTick.Removal.{survivors, on_tick-survivors}
use scalp_bot_os.Executor.Tracker.Delivery.{Call, call_all, delivered, made_all, delivered-made_all}
use scalp_bot_os.Tests.Inputs.{gold, tick_at, noon}

abbrev splitting : TrackerConfig Fixed
splitting = record (default_tracker_config) { enable_partial_tp = true }

abbrev bought : TrackedPosition Fixed
bought =
    track
      (record {
        order_id = bytes "7";
        symbol = gold;
        side = OrderSide.side_buy;
        lots = dec 10 2;
        entry_price = lit 2000;
        current_pnl = lit 0;
        open_time_ns = noon;
      })
      (lit 1990) (lit 2020) noon

tick_position-Moves_example :
    let e = tick_position splitting bought (tick_at 2012 noon) (lit 2) (lit 100) noon in
    (e.after.side ≡ bought.side) × Moves bought.side bought.stop_loss e.after.stop_loss
tick_position-Moves_example =
    tick_position-Moves Fixed-IsOrdered splitting bought (tick_at 2012 noon) (lit 2) (lit 100) noon
      refl

tick_position-last_stop_example :
    let e = tick_position splitting bought (tick_at 2012 noon) (lit 2) (lit 100) noon in
    last_stop bought.stop_loss e.modifications ≡ e.after.stop_loss
tick_position-last_stop_example =
    tick_position-last_stop splitting bought (tick_at 2012 noon) (lit 2) (lit 100) noon

tick_position-Fate_example :
    let e = tick_position splitting bought (tick_at 2012 noon) (lit 2) (lit 100) noon in
    Fate (bytes "7") (tick_at 2012 noon) e.after e.closes
unfolding track is_closed
tick_position-Fate_example =
    tick_position-Fate splitting bought (tick_at 2012 noon) (lit 2) (lit 100) noon refl

tick_position-Split_example :
    let e = tick_position splitting bought (tick_at 2012 noon) (lit 2) (lit 100) noon in
    Split bought e.after (partials e.closes)
tick_position-Split_example =
    tick_position-Split splitting bought (tick_at 2012 noon) (lit 2) (lit 100) noon

abbrev rising : List (Arrival Fixed)
rising =
    record { tick = tick_at 2006 noon; atr = lit 2; pip_mult = lit 100; now = noon }
    ∷ record { tick = tick_at 2012 noon; atr = lit 2; pip_mult = lit 100; now = noon }
    ∷ []

run_closes-once_example : length (partials (run_closes splitting bought rising)) ≤ 1
run_closes-once_example = run_closes-once splitting bought rising

abbrev tracker : PositionTracker Fixed
tracker = record { positions = (bytes "7", bought) ∷ []; modifications = []; cfg = splitting }

on_tick-survivors_example :
    (on_tick tracker (tick_at 1980 noon) (lit 2) (lit 100) noon).1.positions
    ≡ survivors splitting (tick_at 1980 noon) (lit 2) (lit 100) noon ((bytes "7", bought) ∷ [])
unfolding track is_closed default_tracker_config
on_tick-survivors_example =
    on_tick-survivors tracker (tick_at 1980 noon) (lit 2) (lit 100) noon refl (refl, refl, tt, tt)

-- A stop loss below the price closes the position, which is then gone.
stopped_out : survivors splitting (tick_at 1980 noon) (lit 2) (lit 100) noon tracker.positions ≡ []
unfolding survivors track is_closed default_tracker_config tick_position run_stages mark
    normalize_symbol upper is_time_stopped exit_stage exit_reason trailing_stage protect_stage
    is_gold detect_asset_class partial_stage is_partial_due pnl_pips locker_stage
stopped_out = refl

abbrev calls : List (Call Fixed)
calls =
    Call.ticked (tick_at 2006 noon) (lit 2) (lit 100) noon
    ∷ Call.drained
    ∷ Call.ticked (tick_at 2012 noon) (lit 2) (lit 100) noon
    ∷ []

delivered-made_all_example :
    delivered tracker calls ++ (call_all tracker calls).modifications ≡ [] ++ made_all tracker calls
delivered-made_all_example = delivered-made_all tracker calls
