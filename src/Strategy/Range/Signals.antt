-- ===== src/Strategy/Range/Signals.antt =====
-- What holds of the signals of the range scalper.
use scalp_bot_os.Base.{ℕ, ◌≡◌, refl, ◌∙◌, ◌⊎◌, inl, inr, true, false, not, if_intro, Float, arith}
use scalp_bot_os.Model.Types.{SignalType, Signal, Candle}
use scalp_bot_os.Strategy.{silent}
use scalp_bot_os.Strategy.Range.{
  RangeScalper, advanced, is_warm, is_wide, candle_time, has_fired, is_oversold, is_overbought,
  revert, range_on_candle, is_no_signal,
}

module _ {F : Type 0} ⦃f : Float F⦄ where
  -- The state after a candle remembers the signal that it brought.
  unfoldable pub Remembers : ℕ → RangeScalper F × Signal F → Type 0
  Remembers now p =
      (p.1.type ≡ SignalType.no_signal)
      ⊎ ((p.0.last_signal_time ≡ now) × (is_no_signal p.0.last_signal_type ≡ false))

  silent-Remembers : (now : ℕ) (r : RangeScalper F) → Remembers now (r, silent)
  unfolding Remembers
  silent-Remembers now r = inl refl

  revert-Remembers : (r : RangeScalper F) (c : Candle F) (now : ℕ) → Remembers now (revert r c now)
  unfolding Remembers
  revert-Remembers r c now =
      let P = Remembers now in
      if_intro P (is_oversold r c) (λ low. inr (refl, refl))
        λ not_low. if_intro P (is_overbought r c) (λ high. inr (refl, refl)) λ not_high. inl refl

  on_candle-Remembers :
      (clock : ℕ) (r : RangeScalper F) (c : Candle F)
      → Remembers (candle_time clock c) (range_on_candle clock r c)
  unfolding range_on_candle
  on_candle-Remembers clock r c =
      let now = candle_time clock c in
      let P = Remembers now in
      let quiet = silent-Remembers now (advanced r c) in
      if_intro P (not (is_warm r c)) (λ cold. quiet)
        λ warm.
          if_intro P (is_wide r c) (λ wide. quiet)
            λ narrow. if_intro P (has_fired r now) (λ again. quiet) λ new. revert-Remembers r c now

  fired-silent :
      (clock : ℕ) (r : RangeScalper F) (c : Candle F)
      → r.last_signal_time ≡ candle_time clock c
      → is_no_signal r.last_signal_type ≡ false
      → (range_on_candle clock r c).1.type ≡ SignalType.no_signal
  unfolding range_on_candle
  fired-silent clock r c same was =
      let P = λ (p : RangeScalper F × Signal F). p.1.type ≡ SignalType.no_signal in
      let again : has_fired r (candle_time clock c) ≡ true = ground (arith, same, was) in
      if_intro P (not (is_warm r c)) (λ cold. refl)
        λ warm.
          if_intro P (is_wide r c) (λ wide. refl)
            λ narrow.
              if_intro P (has_fired r (candle_time clock c)) (λ fires. refl)
                λ new. absurd (ground (arith, again, new))

  -- Of two candles in a row with the same time, at most one brings a signal.
  pub range_on_candle_once :
      (clock clock' : ℕ) (r : RangeScalper F) (c c' : Candle F)
      → candle_time clock c ≡ candle_time clock' c'
      → ((range_on_candle clock r c).1.type ≡ SignalType.no_signal)
        ⊎ ((range_on_candle clock' (range_on_candle clock r c).0 c').1.type ≡ SignalType.no_signal)
  unfolding Remembers
  range_on_candle_once clock clock' r c c' same = elim (on_candle-Remembers clock r c) [
    | inl quiet ↦ inl quiet
    | inr (time, was) ↦ inr (fired-silent clock' (range_on_candle clock r c).0 c' (time ∙ same) was)
  ]
