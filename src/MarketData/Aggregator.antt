-- ===== src/MarketData/Aggregator.antt =====
-- internal/marketdata/aggregator.go: candles from a stream of ticks. The period is positive, as Go
-- would panic on a division by zero, and a sum of nanoseconds does not reach 2^63.
pub mod Steps
pub mod Summary
pub mod Stream
pub mod Periods
use scalp_bot_os.Base.{
  ℕ, ◌+◌, ◌-◌, ◌*◌, ◌/◌, ◌%◌, ◌^◌, ℤ, pos, negsuc, Bool, true, false, ltb, leb, if◌then◌else◌,
  Float, ◌+F◌, ◌*F◌, ◌<F◌, ◌>F◌, ◌==F◌, dec, lit, lt_ℤ,
}
use scalp_bot_os.Model.Types.{Tick, Candle, mid_price, zero_candle}

pub record Aggregator (F : Type 0) : Type 0 where
  pub period_ns : ℕ
  pub current : Candle F
  pub has_data : Bool
  pub period_end : ℕ
  pub last_mid : F
  pub last_direction : ℤ

-- `TickCount++` on an `int32`, kept as its bit pattern.
abbrev pub inc32 : ℕ → ℕ
inc32 n = (n + 1) % 2 ^ 32

module _ {F : Type 0} ⦃f : Float F⦄ where
  -- `float64(n)` of an `int32` bit pattern.
  abbrev pub float_of_int32 : ℕ → F
  float_of_int32 n = if ltb n (2 ^ 31) then lit n else f.neg (lit (2 ^ 32 - n))

  unfoldable pub new_aggregator : ℕ → Aggregator F
  new_aggregator period = record {
    period_ns = period;
    current = zero_candle;
    has_data = false;
    period_end = 0;
    last_mid = lit 0;
    last_direction = pos 0;
  }

  abbrev pub period_start : Aggregator F → ℕ → ℕ
  period_start a timestamp_ns = timestamp_ns / a.period_ns * a.period_ns

  unfoldable pub start_new_candle : Aggregator F → Tick F → F → Aggregator F
  start_new_candle a tick price = record a {
    current = record {
      symbol = tick.symbol;
      opened = price;
      high = price;
      low = price;
      closed = price;
      volume = lit 1;
      buyer_vol = lit 0;
      seller_vol = lit 0;
      tick_count = 1;
      timestamp_ns = period_start a tick.timestamp_ns;
    };
    period_end = period_start a tick.timestamp_ns + a.period_ns;
    has_data = true;
  }

  -- The candle that is handed out when its period is over.
  unfoldable pub completed : Candle F → Candle F
  completed c =
      let v = float_of_int32 c.tick_count in
      if (c.buyer_vol +F c.seller_vol) ==F lit 0
      then record c { volume = v; buyer_vol = v *F dec 5 1; seller_vol = v *F dec 5 1 }
      else record c { volume = v }

  abbrev buyer_tick : Candle F → Candle F
  buyer_tick c = record c { buyer_vol = c.buyer_vol +F lit 1 }

  abbrev seller_tick : Candle F → Candle F
  seller_tick c = record c { seller_vol = c.seller_vol +F lit 1 }

  abbrev split_tick : Candle F → Candle F
  split_tick c = record c {
    buyer_vol = c.buyer_vol +F dec 5 1;
    seller_vol = c.seller_vol +F dec 5 1;
  }

  -- The tick rule: an up-tick is bought, a down-tick is sold, a flat one follows the last direction.
  unfoldable pub classify : Aggregator F → F → Aggregator F
  classify a mid =
      if mid >F a.last_mid
      then record a { current = buyer_tick a.current; last_direction = pos 1 }
      else if mid <F a.last_mid
      then record a { current = seller_tick a.current; last_direction = negsuc 0 }
      else if lt_ℤ (pos 0) a.last_direction
      then record a { current = buyer_tick a.current }
      else if lt_ℤ a.last_direction (pos 0)
      then record a { current = seller_tick a.current }
      else record a { current = split_tick a.current }

  unfoldable pub update_candle : Candle F → F → Candle F
  update_candle c mid = record c {
    closed = mid;
    high = if mid >F c.high then mid else c.high;
    low = if mid <F c.low then mid else c.low;
    tick_count = inc32 c.tick_count;
  }

  -- The rest of `OnTick`, for a tick that falls into the current period.
  unfoldable pub extend : Aggregator F → F → Aggregator F
  unfolding classify update_candle
  extend a mid =
      let b = classify a mid in record b { current = update_candle b.current mid; last_mid = mid }

  unfoldable pub on_tick : Aggregator F → Tick F → Candle F × Bool × Aggregator F
  unfolding mid_price
  on_tick a tick =
      let mid = mid_price tick in
      if a.has_data
      then if leb a.period_end tick.timestamp_ns
        then (completed a.current, true, record (start_new_candle a tick mid) { last_mid = mid })
        else (zero_candle, false, extend a mid)
      else (zero_candle, false, record (start_new_candle a tick mid) { last_mid = mid })

  unfoldable pub current_candle : Aggregator F → Candle F × Bool
  current_candle a = if a.has_data then (a.current, true) else (zero_candle, false)

  unfoldable pub reset : Aggregator F → Aggregator F
  reset a = record a {
    has_data = false;
    period_end = 0;
    current = zero_candle;
    last_mid = lit 0;
    last_direction = pos 0;
  }

pub record MultiTimeframe (F : Type 0) : Type 0 where
  pub m5 : Aggregator F
  pub m15 : Aggregator F
  pub h1 : Aggregator F

abbrev minute_ns : ℕ
minute_ns = 60_000_000_000

-- What one timeframe returns for a tick.
abbrev pub Emitted : Type 0 → Type 0
Emitted F = Candle F × Bool

module _ {F : Type 0} ⦃f : Float F⦄ where
  unfoldable pub new_multi_timeframe : MultiTimeframe F
  unfolding new_aggregator
  new_multi_timeframe = record {
    m5 = new_aggregator (5 * minute_ns);
    m15 = new_aggregator (15 * minute_ns);
    h1 = new_aggregator (60 * minute_ns);
  }

  unfoldable pub multi_on_tick :
      MultiTimeframe F → Tick F → Emitted F × Emitted F × Emitted F × MultiTimeframe F
  multi_on_tick m tick =
      let (c5, closed5, a5) = on_tick m.m5 tick in
      let (c15, closed15, a15) = on_tick m.m15 tick in
      let (ch1, closedh1, ah1) = on_tick m.h1 tick in
      ((c5, closed5), (c15, closed15), (ch1, closedh1), record { m5 = a5; m15 = a15; h1 = ah1 })
