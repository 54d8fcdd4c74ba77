-- ===== src/MarketData/Aggregator/Steps.antt =====
-- What each operation of the aggregator leaves as it is, and the three ways in which `OnTick` runs.
use scalp_bot_os.Base.{ℕ, ◌+◌, ◌*◌, ◌/◌, ◌≤◌, ◌<◌, ◌≡◌, refl, true, false, leb, Float, arith}
use scalp_bot_os.Model.Types.{Tick, Candle, mid_price, zero_candle}
use scalp_bot_os.MarketData.Aggregator.{
  Aggregator, new_aggregator, start_new_candle, completed, classify, extend, on_tick,
  float_of_int32,
}

module _ {F : Type 0} ⦃f : Float F⦄ where
  -- The tick rule moves volume only.
  pub classify_keeps :
      (a : Aggregator F) (m : F)
      → let b = classify a m in
        (b.current.opened ≡ a.current.opened)
        × (b.current.closed ≡ a.current.closed)
        × (b.current.high ≡ a.current.high)
        × (b.current.low ≡ a.current.low)
        × (b.current.tick_count ≡ a.current.tick_count)
        × (b.period_end ≡ a.period_end)
        × (b.has_data ≡ a.has_data)
        × (b.current.timestamp_ns ≡ a.current.timestamp_ns)
        × (b.period_ns ≡ a.period_ns)
  unfolding classify
  classify_keeps a m = ground arith

  pub extend_keeps :
      (a : Aggregator F) (m : F)
      → let b = extend a m in
        (b.period_end ≡ a.period_end)
        × (b.has_data ≡ a.has_data)
        × (b.current.timestamp_ns ≡ a.current.timestamp_ns)
        × (b.period_ns ≡ a.period_ns)
  unfolding extend
  extend_keeps a m = let (_, _, _, _, _, e, d, n, p) = classify_keeps a m in (e, d, n, p)

  pub on_tick-early :
      (a : Aggregator F) (t : Tick F)
      → a.has_data ≡ true
      → t.timestamp_ns < a.period_end
      → on_tick a t ≡ (zero_candle, false, extend a (mid_price t))
  unfolding on_tick
  on_tick-early a t d early =
      let within : leb a.period_end t.timestamp_ns ≡ false = ground arith in rw (d, within)

  pub on_tick-late :
      (a : Aggregator F) (t : Tick F)
      → a.has_data ≡ true
      → a.period_end ≤ t.timestamp_ns
      → on_tick a t ≡ (
        completed a.current,
        true,
        record (start_new_candle a t (mid_price t)) { last_mid = mid_price t },
      )
  unfolding on_tick
  on_tick-late a t d late =
      let over : leb a.period_end t.timestamp_ns ≡ true = ground arith in rw (d, over)

  -- The first tick of a new aggregator.
  pub opened_live :
      (period : ℕ) (t : Tick F) → (on_tick (new_aggregator period) t).2.has_data ≡ true
  unfolding on_tick new_aggregator start_new_candle
  opened_live period t = refl

  pub opened_end :
      (period : ℕ) (t : Tick F)
      → (on_tick (new_aggregator period) t).2.period_end ≡ t.timestamp_ns / period * period + period
  unfolding on_tick new_aggregator start_new_candle
  opened_end period t = refl

  pub opened_start :
      (period : ℕ) (t : Tick F)
      → (on_tick (new_aggregator period) t).2.current.timestamp_ns
        ≡ t.timestamp_ns / period * period
  unfolding on_tick new_aggregator start_new_candle
  opened_start period t = refl

  pub completed_keeps :
      (c : Candle F)
      → let d = completed c in
        (d.opened ≡ c.opened)
        × (d.closed ≡ c.closed)
        × (d.high ≡ c.high)
        × (d.low ≡ c.low)
        × (d.tick_count ≡ c.tick_count)
        × (d.timestamp_ns ≡ c.timestamp_ns)
        × (d.volume ≡ float_of_int32 c.tick_count)
  unfolding completed
  completed_keeps c = ground arith
