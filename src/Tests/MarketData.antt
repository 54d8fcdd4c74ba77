-- ===== src/Tests/MarketData.antt =====
-- Runs of the ring buffer and of the candle aggregator.
use scalp_bot_os.Base.{◌%◌, ◌^◌, ◌≡◌, refl, true, List, [], ◌∷◌, ◌++◌, pos, length, drop, arith}
use scalp_bot_os.Base.Fixed.{Fixed, fixed_float, Fixed-IsOrdered}
use scalp_bot_os.Model.Types.{Tick, mid_price}
use scalp_bot_os.MarketData.Ring.{new_tick_ring_buffer, latest, len}
use scalp_bot_os.MarketData.Ring.Reads.{push_all, latest-push_all}
use scalp_bot_os.MarketData.Aggregator.{new_aggregator, on_tick, float_of_int32}
use scalp_bot_os.MarketData.Aggregator.Summary.{IsSummary}
use scalp_bot_os.MarketData.Aggregator.Stream.{collected, feed, on_tick-IsSummary}
use scalp_bot_os.MarketData.Aggregator.Periods.{emitted, Spaced, emitted-Spaced}
use scalp_bot_os.Tests.Inputs.{tick_at}

abbrev three_ticks : List (Tick Fixed)
three_ticks = tick_at 2000 100 ∷ tick_at 2003 110 ∷ tick_at 2001 119 ∷ []

latest-push_all_example :
    let rb = push_all (new_tick_ring_buffer (pos 2)) three_ticks in
    (latest rb (pos 5) ≡ drop 1 three_ticks) × (len rb ≡ 2) × (length rb.buf ≡ 2)
latest-push_all_example = latest-push_all (pos 2) three_ticks 5

on_tick-IsSummary_example :
    let later = tick_at 2003 110 ∷ tick_at 2001 119 ∷ [] in
    let (candle, emitted, _) =
      on_tick (feed (new_aggregator 60) (tick_at 2000 100 ∷ later)) (tick_at 2002 130) in
    (emitted ≡ true)
    × IsSummary candle (collected [] (tick_at 2000 100 ∷ later))
    × (candle.timestamp_ns ≡ 60)
    × (candle.volume ≡ float_of_int32 (3 % 2 ^ 32))
unfolding mid_price
on_tick-IsSummary_example =
    on_tick-IsSummary Fixed-IsOrdered 60 (tick_at 2000 100)
      (tick_at 2003 110 ∷ tick_at 2001 119 ∷ []) (tick_at 2002 130) refl
      ((omega arith, refl), ((omega arith, refl), tt)) (omega arith)

emitted-Spaced_example :
    Spaced 60 0 (emitted (new_aggregator 60) (three_ticks ++ (tick_at 1999 125 ∷ [])))
emitted-Spaced_example = emitted-Spaced 60 (three_ticks ++ (tick_at 1999 125 ∷ []))
