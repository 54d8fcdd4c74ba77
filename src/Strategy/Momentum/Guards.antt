-- ===== src/Strategy/Momentum/Guards.antt =====
-- What holds of every signal of the momentum scalper.
use scalp_bot_os.Base.{
  ◌≡◌, refl, inl, inr, ◌⊎◌, true, false, ◌&&◌, Option, none, some, if_intro, and-left, and-right,
  not, Float, IsOrdered, ◌-F◌, ◌*F◌, ◌<F◌, ◌>F◌, dec, Text,
}
use scalp_bot_os.Model.Types.{SignalType, Signal, Candle}
use scalp_bot_os.Strategy.{silent}
use scalp_bot_os.Strategy.Momentum.{
  MomentumScalper, Readings, compute_structure_sltp, recent_swing_low, recent_swing_high,
}
use scalp_bot_os.Strategy.Momentum.Crossover.{
  is_dormant, bullish_crossover, bearish_crossover, pullback, evaluate_crossover, or_else,
  is_not_rising, is_not_falling, is_extended_up, is_extended_down, in_buy_band, in_sell_band,
  crosses_above, crosses_below, is_uptrend, is_downtrend, is_buy_pullback, is_sell_pullback, buy_at,
  sell_at,
}
use scalp_bot_os.Strategy.Momentum.Candles.{readings, judging, is_cold, on_candle}

module _ {F : Type 0} ⦃f : Float F⦄ where
  pub record IsBuy (m : MomentumScalper F) (r : Readings F) (c : Candle F) (s : Signal F)
      : Type 0 where
    type : s.type ≡ SignalType.buy
    above : (r.fast_val >F r.slow_val) ≡ true
    near : is_extended_up r c ≡ false
    stops :
        (s.stop_loss, s.take_profit)
        ≡ compute_structure_sltp c.symbol s.price r.atr_val (recent_swing_low m 5) true

  pub record IsSell (m : MomentumScalper F) (r : Readings F) (c : Candle F) (s : Signal F)
      : Type 0 where
    type : s.type ≡ SignalType.sell
    below : (r.fast_val <F r.slow_val) ≡ true
    near : is_extended_down r c ≡ false
    stops :
        (s.stop_loss, s.take_profit)
        ≡ compute_structure_sltp c.symbol s.price r.atr_val (recent_swing_high m 5) false

  -- Silence, or a side with the trend that is not extended.
  Sided : MomentumScalper F → Readings F → Candle F → Signal F → Type 0
  Sided m r c s = (s.type ≡ SignalType.no_signal) ⊎ (IsBuy m r c s ⊎ IsSell m r c s)

  pub record IsAwake (m : MomentumScalper F) (r : Readings F) : Type 0 where
    warm : is_cold r ≡ false
    moving : (r.atr_val <F m.cfg.atr_minimum) ≡ false
    active : is_dormant m ≡ false

  unfoldable pub Guarded : MomentumScalper F → Readings F → Candle F → Signal F → Type 0
  Guarded m r c s =
      (s.type ≡ SignalType.no_signal) ⊎ (IsAwake m r × (IsBuy m r c s ⊎ IsSell m r c s))

  -- A statement about the signal, where there is one.
  Each : (Signal F → Type 0) → Option (Signal F) → Type 0
  Each P none = Unit
  Each P (some s) = P s

  or_else-Each :
      (P : Signal F → Type 0) (o : Option (Signal F)) (next : Signal F)
      → Each P o
      → P next
      → P (or_else o next)
  unfolding Each
  or_else-Each P (some s) next h k = h
  or_else-Each P none next h k = k

  silent-Sided : (m : MomentumScalper F) (r : Readings F) (c : Candle F) → Sided m r c silent
  unfolding Sided
  silent-Sided m r c = inl refl

  Each-none : (P : Signal F → Type 0) → Each P none
  unfolding Each
  Each-none P = tt

  Each-some : (P : Signal F → Type 0) (s : Signal F) → P s → Each P (some s)
  unfolding Each
  Each-some P s h = h

  buy_at-Sided :
      (m : MomentumScalper F) (r : Readings F) (c : Candle F) (entry strength : F) (id : Text)
      → (r.fast_val >F r.slow_val) ≡ true
      → is_extended_up r c ≡ false
      → Sided m r c (buy_at m r c entry strength id)
  unfolding Sided
  buy_at-Sided m r c entry strength id above near =
      inr (inl record { type = refl; above = above; near = near; stops = refl })

  sell_at-Sided :
      (m : MomentumScalper F) (r : Readings F) (c : Candle F) (entry strength : F) (id : Text)
      → (r.fast_val <F r.slow_val) ≡ true
      → is_extended_down r c ≡ false
      → Sided m r c (sell_at m r c entry strength id)
  unfolding Sided
  sell_at-Sided m r c entry strength id below near =
      inr (inr record { type = refl; below = below; near = near; stops = refl })

  bullish-Sided :
      (m : MomentumScalper F) (r : Readings F) (c : Candle F)
      → Each (Sided m r c) (bullish_crossover m r c)
  unfolding bullish_crossover
  bullish-Sided m r c =
      let S = Sided m r c in
      let P = Each S in
      let quiet = Each-some S silent (silent-Sided m r c) in
      if_intro P (crosses_above m r)
        (λ crossed.
          if_intro P (is_not_rising m r) (λ flat. quiet)
            λ steep.
              if_intro P (r.rsi_val <F m.cfg.rsi_overbought)
                (λ room.
                  if_intro P (is_extended_up r c) (λ extended. quiet)
                    λ near. Each-some S _ (buy_at-Sided m r c _ _ _ (and-right _ _ crossed) near))
                λ overbought. Each-none S)
        λ uncrossed. Each-none S

  bearish-Sided :
      (m : MomentumScalper F) (r : Readings F) (c : Candle F)
      → Each (Sided m r c) (bearish_crossover m r c)
  unfolding bearish_crossover
  bearish-Sided m r c =
      let S = Sided m r c in
      let P = Each S in
      let quiet = Each-some S silent (silent-Sided m r c) in
      if_intro P (crosses_below m r)
        (λ crossed.
          if_intro P (is_not_falling m r) (λ flat. quiet)
            λ steep.
              if_intro P (r.rsi_val >F m.cfg.rsi_oversold)
                (λ room.
                  if_intro P (is_extended_down r c) (λ extended. quiet)
                    λ near. Each-some S _ (sell_at-Sided m r c _ _ _ (and-right _ _ crossed) near))
                λ oversold. Each-none S)
        λ uncrossed. Each-none S

  module _ (o : IsOrdered F) where
    is_buy_pullback-near :
        (r : Readings F) (c : Candle F) → is_buy_pullback r c ≡ true → is_extended_up r c ≡ false
    is_buy_pullback-near r c h =
        o.le-not_lt (c.closed -F r.fast_val) (r.atr_val *F dec 40 2)
          (and-left _ _ (and-right _ _ h))

    is_sell_pullback-near :
        (r : Readings F) (c : Candle F) → is_sell_pullback r c ≡ true → is_extended_down r c ≡ false
    is_sell_pullback-near r c h =
        o.le-not_lt (r.fast_val -F c.closed) (r.atr_val *F dec 40 2)
          (and-left _ _ (and-right _ _ h))

    pullback-Sided :
        (m : MomentumScalper F) (r : Readings F) (c : Candle F) → Sided m r c (pullback m r c)
    unfolding pullback
    pullback-Sided m r c =
        let P = Sided m r c in
        if_intro P (is_uptrend m r)
          (λ up.
            if_intro P (is_buy_pullback r c && in_buy_band r)
              (λ tested.
                buy_at-Sided m r c _ _ _ (and-left _ _ up)
                  (is_buy_pullback-near r c (and-left _ _ tested)))
              λ untested. silent-Sided m r c)
          λ level.
            if_intro P (is_downtrend m r)
              (λ down.
                if_intro P (is_sell_pullback r c && in_sell_band r)
                  (λ tested.
                    sell_at-Sided m r c _ _ _ (and-left _ _ down)
                      (is_sell_pullback-near r c (and-left _ _ tested)))
                  λ untested. silent-Sided m r c)
              λ flat. silent-Sided m r c

    silent-Guarded : (m : MomentumScalper F) (r : Readings F) (c : Candle F) → Guarded m r c silent
    unfolding Guarded
    silent-Guarded m r c = inl refl

    -- With what the gates have let through.
    awake-Guarded :
        (m : MomentumScalper F) (r : Readings F) (c : Candle F) (s : Signal F)
        → IsAwake m r
        → Sided m r c s
        → Guarded m r c s
    unfolding Sided Guarded
    awake-Guarded m r c s awake (inl quiet) = inl quiet
    awake-Guarded m r c s awake (inr sided) = inr (awake, sided)

    evaluate_crossover-Guarded :
        (m : MomentumScalper F) (r : Readings F) (c : Candle F)
        → is_cold r ≡ false
        → Guarded m r c (evaluate_crossover m r c)
    unfolding evaluate_crossover
    evaluate_crossover-Guarded m r c warm =
        let P = Guarded m r c in
        let S = Sided m r c in
        if_intro P (r.atr_val <F m.cfg.atr_minimum) (λ still. silent-Guarded m r c)
          λ moving.
            if_intro P (is_dormant m) (λ dormant. silent-Guarded m r c)
              λ active.
                awake-Guarded m r c _ record { warm = warm; moving = moving; active = active }
                  (or_else-Each S (bullish_crossover m r c) _ (bullish-Sided m r c) (
                    or_else-Each S (bearish_crossover m r c) _ (bearish-Sided m r c)
                      (pullback-Sided m r c)))

    -- A candle brings no signal, or one on which all indicators are warm, the range is not below its
    -- minimum nor dormant against its baseline: a buy with the fast average above the slow one, or a
    -- sell with it below, the close not extended from the average, and the stops of the structure.
    pub on_candle-Guarded :
        (m : MomentumScalper F) (c : Candle F)
        → Guarded (judging m c) (readings m c) c (on_candle m c).1
    unfolding on_candle
    on_candle-Guarded m c =
        let P = λ (p : MomentumScalper F × Signal F). Guarded (judging m c) (readings m c) c p.1 in
        if_intro P (is_cold (readings m c)) (λ cold. silent-Guarded (judging m c) (readings m c) c)
          λ warm.
            if_intro P (not m.has_prev) (λ first. silent-Guarded (judging m c) (readings m c) c)
              λ later. evaluate_crossover-Guarded (judging m c) (readings m c) c warm
