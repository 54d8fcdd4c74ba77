-- ===== src/MarketData/Multiframe.antt =====
-- internal/marketdata/multiframe.go: candles of a minute, five minutes and an hour for each symbol,
-- the trends that they show, and whether a signal agrees with them. The texts of the reasons are left
-- out, and so are the mutexes, under which the operations run.
pub mod FiveMinutes
pub mod Trend
pub mod Symbols
use scalp_bot_os.Base.{
  ℕ, zero, suc, ◌+◌, ◌-◌, ◌%◌, ◌==◌, Bool, true, false, ◌&&◌, ◌||◌, ltb, if◌then◌else◌, ℤ, pos,
  negsuc, List, [], ◌∷◌, ◌++◌, length, drop, get_or, Option, none, some, Text, to_upper, trim_space,
  Float, ◌+F◌, ◌-F◌, ◌*F◌, ◌/F◌, ◌<F◌, ◌≤F◌, ◌>F◌, ◌==F◌, lit, dec,
}
use scalp_bot_os.Base.Dict.{lookup, insert}
use scalp_bot_os.Model.Types.{Tick, Candle, zero_candle, mid_price, SignalType}

pub data HtfTrend : Type 0 where
  bullish bearish neutral : HtfTrend

-- The candle in progress and the rolling closed candles of one interval.
pub record Frame (F : Type 0) : Type 0 where
  pub current : Option (Candle F)
  pub history : List (Candle F)

-- `h1_ema` is never written.
pub record SymbolTimeframes (F : Type 0) : Type 0 where
  pub symbol : Text
  pub m1 : Frame F
  pub m5 : Frame F
  pub h1 : Frame F
  pub max_history : ℕ
  pub m5_fast_ema : F
  pub m5_slow_ema : F
  pub h1_ema : F
  pub trend_m5 : HtfTrend
  pub trend_h1 : HtfTrend

abbrev pub minute : ℕ
minute = 60_000_000_000

abbrev pub five_minutes : ℕ
five_minutes = 300_000_000_000

abbrev pub hour : ℕ
hour = 3_600_000_000_000

abbrev pub positive_or : ℤ → ℕ → ℕ
positive_or (pos zero) n = n
positive_or (pos (suc k)) n = suc k
positive_or (negsuc k) n = n

-- `t.Truncate(interval).UnixNano()`; the zero time of package `time` is a whole number of these
-- intervals before 1970.
abbrev pub interval_start : ℕ → ℕ → ℕ
interval_start interval ns = ns - ns % interval

abbrev pub is_bearish : HtfTrend → Bool
is_bearish bullish = false
is_bearish bearish = true
is_bearish neutral = false

abbrev pub is_bullish_trend : HtfTrend → Bool
is_bullish_trend bullish = true
is_bullish_trend bearish = false
is_bullish_trend neutral = false

module _ {F : Type 0} ⦃f : Float F⦄ where
  abbrev pub empty_frame : Frame F
  empty_frame = record { current = none; history = [] }

  unfoldable pub new_symbol_timeframes : Text → ℤ → SymbolTimeframes F
  new_symbol_timeframes symbol max_history = record {
    symbol = symbol;
    m1 = empty_frame;
    m5 = empty_frame;
    h1 = empty_frame;
    max_history = positive_or max_history 100;
    m5_fast_ema = lit 0;
    m5_slow_ema = lit 0;
    h1_ema = lit 0;
    trend_m5 = neutral;
    trend_h1 = neutral;
  }

  abbrev pub first_candle : Text → F → ℕ → Candle F
  first_candle symbol price start = record (zero_candle) {
    symbol = symbol;
    opened = price;
    high = price;
    low = price;
    closed = price;
    timestamp_ns = start;
  }

  abbrev pub updated : Candle F → F → Candle F
  updated c price = record c {
    high = if price >F c.high then price else c.high;
    low = if price <F c.low then price else c.low;
    closed = price;
  }

  -- The history after a closed candle, trimmed to its length.
  unfoldable pub trimmed : ℕ → List (Candle F) → List (Candle F)
  trimmed max_history cs =
      if ltb max_history (length cs) then drop (length cs - max_history) cs else cs

  unfoldable pub process_candle_in :
      Text → ℕ → Option (Candle F) → List (Candle F) → F → ℕ → Frame F × Bool
  process_candle_in symbol max_history none history price start =
      (record { current = some (first_candle symbol price start); history = history }, false)
  process_candle_in symbol max_history (some c) history price start =
      if c.timestamp_ns == start
      then (record { current = some (updated c price); history = history }, false)
      else (
        record {
          current = some (first_candle symbol price start);
          history = trimmed max_history (history ++ (c ∷ []));
        },
        true,
      )

  -- The frame after a price, and whether a candle was closed.
  unfoldable pub process_candle : Text → ℕ → Frame F → F → ℕ → ℕ → Frame F × Bool
  process_candle symbol max_history frame price ns interval =
      process_candle_in symbol max_history frame.current frame.history price
        (interval_start interval ns)

  -- The average over closes from a value on.
  unfoldable pub average_on : F → F → List (Candle F) → F
  average_on k a [] = a
  average_on k a (c ∷ cs) = average_on k ((c.closed *F k) +F (a *F (lit 1 -F k))) cs

  unfoldable pub average_of : F → List (Candle F) → F
  average_of k [] = lit 0
  average_of k (c ∷ cs) = average_on k c.closed cs

  unfoldable pub trend_of_averages : F → F → HtfTrend
  trend_of_averages fast slow =
      if fast >F (slow *F dec 10002 4)
      then bullish
      else if fast <F (slow *F dec 9998 4)
      then bearish
      else neutral

  abbrev pub set_m5 : SymbolTimeframes F → F → F → SymbolTimeframes F
  set_m5 st fast slow = record st {
    m5_fast_ema = fast;
    m5_slow_ema = slow;
    trend_m5 = trend_of_averages fast slow;
  }

  unfoldable pub recalculate_m5 : SymbolTimeframes F → SymbolTimeframes F
  recalculate_m5 st =
      let cs = st.m5.history in
      let fast_k = lit 2 /F (lit 10 +F lit 1) in
      let slow_k = lit 2 /F (lit 25 +F lit 1) in
      let last_close = (get_or cs (length cs - 1) zero_candle).closed in
      if ltb (length cs) 5
      then st
      else if (st.m5_fast_ema ==F lit 0) || (st.m5_slow_ema ==F lit 0)
      then set_m5 st (average_of fast_k cs) (average_of slow_k cs)
      else set_m5 st ((last_close *F fast_k) +F (st.m5_fast_ema *F (lit 1 -F fast_k)))
          ((last_close *F slow_k) +F (st.m5_slow_ema *F (lit 1 -F slow_k)))

  -- The trend that the last two candles show.
  unfoldable pub trend_of_candles : Candle F → Candle F → HtfTrend
  trend_of_candles prev last =
      if last.closed >F prev.high
      then bullish
      else if last.closed <F prev.low
      then bearish
      else neutral

  unfoldable pub recalculate_h1 : SymbolTimeframes F → SymbolTimeframes F
  recalculate_h1 st =
      let cs = st.h1.history in
      if ltb (length cs) 3 then st else record st {
        trend_h1 =
            trend_of_candles (get_or cs (length cs - 2) zero_candle)
              (get_or cs (length cs - 1) zero_candle);
      }

  -- The three parts of `OnTick`.
  unfoldable pub tick_m1 : SymbolTimeframes F → F → ℕ → SymbolTimeframes F
  tick_m1 st price ns = record st {
    m1 = (process_candle st.symbol st.max_history st.m1 price ns minute).0;
  }

  unfoldable pub tick_m5 : SymbolTimeframes F → F → ℕ → SymbolTimeframes F
  tick_m5 st price ns =
      let (frame, closed) = process_candle st.symbol st.max_history st.m5 price ns five_minutes in
      let next = record st { m5 = frame } in if closed then recalculate_m5 next else next

  unfoldable pub tick_h1 : SymbolTimeframes F → F → ℕ → SymbolTimeframes F
  tick_h1 st price ns =
      let (frame, closed) = process_candle st.symbol st.max_history st.h1 price ns hour in
      let next = record st { h1 = frame } in if closed then recalculate_h1 next else next

  unfoldable pub frames_on_tick : SymbolTimeframes F → Tick F → SymbolTimeframes F
  frames_on_tick st tick =
      let price = mid_price tick in
      let ns = tick.timestamp_ns in
      if price ≤F lit 0 then st else tick_h1 (tick_m5 (tick_m1 st price ns) price ns) price ns

  -- The verdict on a signal whose trend is `with_it` and the opposite one `against` for the frames of
  -- five minutes and of an hour.
  abbrev pub confluence : Bool → Bool → Bool → Bool → Bool × F
  confluence m5_against h1_against m5_with h1_with =
      if m5_against && h1_against
      then (false, dec 20 2)
      else if m5_with
      then (true, (if h1_with then dec 95 2 else dec 85 2))
      else (true, dec 60 2)

  unfoldable pub confluence_for : SignalType → HtfTrend → HtfTrend → Bool × F
  confluence_for SignalType.no_signal m5 h1 = (true, dec 50 2)
  confluence_for SignalType.buy m5 h1 =
      confluence (is_bearish m5) (is_bearish h1) (is_bullish_trend m5) (is_bullish_trend h1)
  confluence_for SignalType.sell m5 h1 =
      confluence (is_bullish_trend m5) (is_bullish_trend h1) (is_bearish m5) (is_bearish h1)

  unfoldable pub evaluate_confluence : SymbolTimeframes F → SignalType → Bool × F
  evaluate_confluence st sig_type =
      if ltb (length st.m5.history) 3
      then (true, dec 55 2)
      else confluence_for sig_type st.trend_m5 st.trend_h1
