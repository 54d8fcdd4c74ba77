-- ===== src/MarketData/Multiframe/Symbols.antt =====
-- `MultiTimeframeManager` of internal/marketdata/multiframe.go, which keeps the symbols apart.
use scalp_bot_os.Base.{
  Bool, true, if◌then◌else◌, ◌≡◌, refl, ap, ◌∙◌, ℤ, List, [], ◌∷◌, Option, none, some, Text,
  to_upper, trim_space, text_eq, text_eq_iff, Float, dec, Bool-cases, inl, inr,
}
use scalp_bot_os.Base.Dict.{lookup, insert, lookup-insert}
use scalp_bot_os.Model.Types.{Tick, SignalType}
use scalp_bot_os.MarketData.Multiframe.{
  SymbolTimeframes, new_symbol_timeframes, frames_on_tick, evaluate_confluence,
}

pub record MultiTimeframeManager (F : Type 0) : Type 0 where
  pub trackers : List (Text × SymbolTimeframes F)
  pub max_bars : ℤ

abbrev pub tracker_key : Text → Text
tracker_key symbol = to_upper (trim_space symbol)

module _ {F : Type 0} ⦃f : Float F⦄ where
  unfoldable pub new_multi_timeframe_manager : ℤ → MultiTimeframeManager F
  new_multi_timeframe_manager max_bars = record { trackers = []; max_bars = max_bars }

  abbrev pub tracker_or_new : Text → ℤ → Option (SymbolTimeframes F) → SymbolTimeframes F
  tracker_or_new key max_bars none = new_symbol_timeframes key max_bars
  tracker_or_new key max_bars (some tracker) = tracker

  unfoldable pub manager_on_tick : MultiTimeframeManager F → Tick F → MultiTimeframeManager F
  manager_on_tick m tick =
      let key = tracker_key tick.symbol in
      let tracker = tracker_or_new key m.max_bars (lookup key m.trackers) in
      record m { trackers = insert key (frames_on_tick tracker tick) m.trackers }

  abbrev pub confluence_of : Option (SymbolTimeframes F) → SignalType → Bool × F
  confluence_of none sig_type = (true, dec 55 2)
  confluence_of (some tracker) sig_type = evaluate_confluence tracker sig_type

  unfoldable pub check_confluence : MultiTimeframeManager F → Text → SignalType → Bool × F
  check_confluence m symbol sig_type =
      confluence_of (lookup (tracker_key symbol) m.trackers) sig_type

module _ {F : Type 0} ⦃f : Float F⦄ where
  unfoldable pub manager_on_ticks :
      MultiTimeframeManager F → List (Tick F) → MultiTimeframeManager F
  manager_on_ticks m [] = m
  manager_on_ticks m (t ∷ ts) = manager_on_ticks (manager_on_tick m t) ts

  -- A tracker that is made at the first tick of a key and sees the ticks of this key alone.
  unfoldable pub fed :
      Text → ℤ → Option (SymbolTimeframes F) → List (Tick F) → Option (SymbolTimeframes F)
  fed key max_bars tracker [] = tracker
  fed key max_bars tracker (t ∷ ts) =
      fed key max_bars
        (if text_eq (tracker_key t.symbol) key
          then some (frames_on_tick (tracker_or_new key max_bars tracker) t)
          else tracker)
        ts

  lookup-manager_on_tick :
      (m : MultiTimeframeManager F) (t : Tick F) (key : Text)
      → lookup key (manager_on_tick m t).trackers ≡ (
          if text_eq (tracker_key t.symbol) key
          then some (frames_on_tick (tracker_or_new key m.max_bars (lookup key m.trackers)) t)
          else lookup key m.trackers)
  unfolding manager_on_tick
  lookup-manager_on_tick m t key =
      let k = tracker_key t.symbol in
      let fed_by =
        λ (j : Text). frames_on_tick (tracker_or_new j m.max_bars (lookup j m.trackers)) t in
      lookup-insert k key (fed_by k) m.trackers ∙ elim (Bool-cases (text_eq k key)) [
        | inl e ↦ rw e (ap (λ j. some (fed_by j)) ((text_eq_iff k key).0 e))
        | inr e ↦ rw e refl
      ]

  lookup-manager_on_ticks :
      (m : MultiTimeframeManager F) (ts : List (Tick F)) (key : Text)
      → lookup key (manager_on_ticks m ts).trackers ≡ fed key m.max_bars (lookup key m.trackers) ts
  unfolding manager_on_ticks fed manager_on_tick
  lookup-manager_on_ticks m [] key = refl
  lookup-manager_on_ticks m (t ∷ ts) key =
      lookup-manager_on_ticks (manager_on_tick m t) ts key
      ∙ ap (λ o. fed key m.max_bars o ts) (lookup-manager_on_tick m t key)

  -- After any ticks of all symbols, a new manager judges a signal as a tracker of the signal's symbol
  -- alone would, which is made at the first tick of this symbol and sees its ticks only. Symbols are
  -- told apart without blanks at their ends and without case.
  pub check_confluence-fed :
      (max_bars : ℤ) (ts : List (Tick F)) (symbol : Text) (sig_type : SignalType)
      → check_confluence
          (manager_on_ticks (new_multi_timeframe_manager max_bars) ts)
          symbol
          sig_type
        ≡ confluence_of (fed (tracker_key symbol) max_bars none ts) sig_type
  unfolding check_confluence new_multi_timeframe_manager lookup
  check_confluence-fed max_bars ts symbol sig_type =
      ap (λ o. confluence_of o sig_type)
        (lookup-manager_on_ticks (new_multi_timeframe_manager max_bars) ts (tracker_key symbol))
