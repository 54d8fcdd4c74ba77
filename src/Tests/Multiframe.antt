-- ===== src/Tests/Multiframe.antt =====
-- Runs of the frames.
use scalp_bot_os.Base.{◌+◌, ◌*◌, ◌≡◌, List, [], ◌∷◌, none, pos}
use scalp_bot_os.Base.Fixed.{Fixed, fixed_float}
use scalp_bot_os.Model.Types.{Tick, SignalType}
use scalp_bot_os.MarketData.Multiframe.{SymbolTimeframes, minute, new_symbol_timeframes}
use scalp_bot_os.MarketData.Multiframe.Trend.{frames_on_ticks}
use scalp_bot_os.MarketData.Multiframe.Symbols.{
  new_multi_timeframe_manager, check_confluence, confluence_of, tracker_key, manager_on_ticks, fed,
  check_confluence-fed,
}
use scalp_bot_os.Tests.Inputs.{gold, tick_at, noon}

abbrev falling : List (Tick Fixed)
falling =
    tick_at 2000 noon
    ∷ (tick_at 1990 (noon + 60 * minute) ∷ (tick_at 1980 (noon + 120 * minute) ∷ []))

abbrev gold_frames : SymbolTimeframes Fixed
gold_frames = frames_on_ticks (new_symbol_timeframes gold (pos 3)) falling

check_confluence-fed_example :
    check_confluence
      (manager_on_ticks (new_multi_timeframe_manager (pos 3)) falling)
      gold
      SignalType.sell
    ≡ confluence_of (fed (tracker_key gold) (pos 3) none falling) SignalType.sell
check_confluence-fed_example = check_confluence-fed (pos 3) falling gold SignalType.sell
