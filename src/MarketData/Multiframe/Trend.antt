-- ===== src/MarketData/Multiframe/Trend.antt =====
-- What a signal is refused for: the closed hours and the trend of the five minutes.
use scalp_bot_os.Base.{
  ◌-◌, ◌≤◌, Bool, false, not, ◌&&◌, ltb, leb, if◌then◌else◌, ◌≡◌, List, [], ◌∷◌, length, get_or,
  Float, ◌<F◌, ◌>F◌,
}
use scalp_bot_os.Model.Types.{Tick, Candle, zero_candle, SignalType}
use scalp_bot_os.MarketData.Multiframe.{
  HtfTrend, neutral, SymbolTimeframes, trend_of_candles, frames_on_tick, is_bearish,
  is_bullish_trend,
}

-- A trend speaks against a signal.
abbrev pub opposes : SignalType → HtfTrend → Bool
opposes SignalType.no_signal trend = false
opposes SignalType.buy trend = is_bearish trend
opposes SignalType.sell trend = is_bullish_trend trend

module _ {F : Type 0} ⦃f : Float F⦄ where
  -- The trend of the last two of at least three closed candles.
  unfoldable pub hour_trend : List (Candle F) → HtfTrend
  hour_trend cs =
      if ltb (length cs) 3
      then neutral
      else trend_of_candles (get_or cs (length cs - 2) zero_candle)
          (get_or cs (length cs - 1) zero_candle)

  record IsCurrent (st : SymbolTimeframes F) : Type 0 where
    trend_eq : st.trend_h1 ≡ hour_trend st.h1.history
    bounded : length st.h1.history ≤ st.max_history

  -- What the shorter frames leave alone.
  record SameHour (before after : SymbolTimeframes F) : Type 0 where
    same_frame : after.h1 ≡ before.h1
    same_trend : after.trend_h1 ≡ before.trend_h1
    same_size : after.max_history ≡ before.max_history

  unfoldable pub frames_on_ticks : SymbolTimeframes F → List (Tick F) → SymbolTimeframes F
  frames_on_ticks st [] = st
  frames_on_ticks st (t ∷ ts) = frames_on_ticks (frames_on_tick st t) ts

  -- The last closed hour ended below the one before it, or above it.
  abbrev pub fell : List (Candle F) → Bool
  fell cs =
      (get_or cs (length cs - 1) zero_candle).closed <F (get_or cs (length cs - 2) zero_candle).low

  abbrev pub rose : List (Candle F) → Bool
  rose cs =
      (get_or cs (length cs - 1) zero_candle).closed >F (get_or cs (length cs - 2) zero_candle).high

  -- The closed hours speak against a signal.
  abbrev pub hours_oppose : SignalType → List (Candle F) → Bool
  hours_oppose SignalType.no_signal cs = false
  hours_oppose SignalType.buy cs = leb 3 (length cs) && (not (rose cs) && fell cs)
  hours_oppose SignalType.sell cs = leb 3 (length cs) && rose cs
