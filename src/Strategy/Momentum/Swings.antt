-- ===== src/Strategy/Momentum/Swings.antt =====
-- The swings of the momentum scalper, against the list of the candles that it has kept.
use Prim.Native.Nat.{min}
use scalp_bot_os.Base.{
  ℕ, zero, suc, ◌+◌, ◌≤◌, ◌≡◌, refl, ap, ◌∙◌, subst, Bool, ltb, ◌==◌, if◌then◌else◌, not,
  Bool-cases, inl, inr, List, [], ◌∷◌, ◌++◌, map, length, Text, Float, ◌<F◌, ◌>F◌, lit, is_nan,
  ◌&&◌, if_intro, arith,
}
use mathlib.Core.List.{append-nil, append_assoc, reverse, map-append}
use scalp_bot_os.Base.Cycle.{Cycle, replicate-Cycle, set-Cycle}
use scalp_bot_os.Base.Newest.{take, walked, walked-reverse, take-min, length-map}
use scalp_bot_os.Model.Types.{Candle}
use scalp_bot_os.Indicator.Ema.{Ema}
use scalp_bot_os.Indicator.Rsi.{Rsi}
use scalp_bot_os.Indicator.Atr.{Atr}
use scalp_bot_os.Strategy.Momentum.{
  MomentumScalper, MomentumScalperConfig, momentum_with, highest_from, lowest_from, beaten, rounds,
  recent_swing_high, recent_swing_low,
}
use scalp_bot_os.Strategy.Momentum.Candles.{
  keep_candle, readings, is_cold, judging, on_candle, with_indicators, with_baseline,
}

module _ {F : Type 0} ⦃f : Float F⦄ where
  unfoldable pub run_candles : MomentumScalper F → List (Candle F) → MomentumScalper F
  run_candles m [] = m
  run_candles m (c ∷ cs) = run_candles (on_candle m c).0 cs

  -- The candles of a stream that find all indicators warm.
  unfoldable pub warm_candles : MomentumScalper F → List (Candle F) → List (Candle F)
  warm_candles m [] = []
  warm_candles m (c ∷ cs) =
      let rest = warm_candles (on_candle m c).0 cs in
      if is_cold (readings m c) then rest else c ∷ rest

  abbrev pub highest : F → List F → F
  highest best [] = best
  highest best (x ∷ xs) = highest (if x >F best then x else best) xs

  abbrev pub lowest : F → List F → F
  lowest best [] = best
  lowest best (x ∷ xs) = lowest (if x <F best then x else best) xs

  -- The arrays hold the last highs and lows of the candles.
  record Recalls (m : MomentumScalper F) (cs : List (Candle F)) : Type 0 where
    highs : Cycle m.high_history 10 m.candle_idx m.candle_count (lit 0) (map (λ c. c.high) cs)
    lows : Cycle m.low_history 10 m.candle_idx m.candle_count (lit 0) (map (λ c. c.low) cs)

  keep-Recalls :
      (m : MomentumScalper F) (v : F) (c : Candle F) (cs : List (Candle F))
      → Recalls m cs
      → Recalls (keep_candle m v c) (cs ++ (c ∷ []))
  unfolding keep_candle
  keep-Recalls m v c cs r = record {
    highs = rw (map-append (λ (d : Candle F). d.high) cs (c ∷ [])) (set-Cycle c.high r.highs);
    lows = rw (map-append (λ (d : Candle F). d.low) cs (c ∷ [])) (set-Cycle c.low r.lows);
  }

  -- A scalper whose arrays and places are those of another.
  same-Recalls :
      (m : MomentumScalper F) (r : Bool) (a b : F) (cs : List (Candle F))
      → Recalls m cs
      → Recalls (record m { prev_fast = a; prev_slow = b; has_prev = r }) cs
  same-Recalls m r a b cs h = record { highs = h.highs; lows = h.lows }

  with_baseline-Recalls :
      (m : MomentumScalper F) (v : F) (cs : List (Candle F))
      → Recalls m cs
      → Recalls (with_baseline m v) cs
  with_baseline-Recalls m v cs h =
      let P = λ (n : MomentumScalper F). Recalls n cs in
      if_intro P (not (is_nan v) && (v >F lit 0))
        (λ moving. record { highs = h.highs; lows = h.lows }) λ still. h

  on_candle-Recalls :
      (m : MomentumScalper F) (c : Candle F) (cs : List (Candle F))
      → Recalls m cs
      → Recalls (on_candle m c).0 (if is_cold (readings m c) then cs else cs ++ (c ∷ []))
  unfolding on_candle
  on_candle-Recalls m c cs h =
      let r = readings m c in
      let warm = with_baseline (with_indicators m c) r.atr_val in
      let w =
        with_baseline-Recalls (with_indicators m c) r.atr_val cs
          record { highs = h.highs; lows = h.lows } in
      let kept = keep-Recalls warm r.fast_val c cs w in
      elim (Bool-cases (is_cold r)) [
        | inl cold ↦ rw (cold) (same-Recalls warm _ _ _ cs w)
        | inr hot ↦ elim (Bool-cases (not m.has_prev)) [
          | inl first ↦ rw (hot, first) (same-Recalls (judging m c) _ _ _ (cs ++ (c ∷ [])) kept)
          | inr later ↦ rw (hot, later) (same-Recalls (judging m c) _ _ _ (cs ++ (c ∷ [])) kept)
        ]
      ]

  run_candles-Recalls :
      (m : MomentumScalper F) (cs old : List (Candle F))
      → Recalls m old
      → Recalls (run_candles m cs) (old ++ warm_candles m cs)
  unfolding run_candles warm_candles
  run_candles-Recalls m [] old h = rw (append-nil old) h
  run_candles-Recalls m (c ∷ cs) old h =
      let next = on_candle-Recalls m c old h in
      let later = λ (seen : List (Candle F)). run_candles-Recalls (on_candle m c).0 cs seen in
      elim (Bool-cases (is_cold (readings m c))) [
        | inl cold ↦ rw (cold) (
            later old (
              subst (λ b. Recalls (on_candle m c).0 (if b then old else old ++ (c ∷ []))) cold
                next))
        | inr warm ↦
            rw (warm, ← append_assoc old (c ∷ []) (warm_candles (on_candle m c).0 cs))
              (later (old ++ (c ∷ [])) (
                subst (λ b. Recalls (on_candle m c).0 (if b then old else old ++ (c ∷ []))) warm
                  next))
      ]

  highest_from-highest :
      (history : List F) (place i left : ℕ) (best : F)
      → highest_from history place i left best
        ≡ highest best (walked history 10 place (lit 0) i left)
  highest_from-highest history place i zero best = refl
  highest_from-highest history place i (suc left) best =
      highest_from-highest history place (i + 1) left _

  lowest_from-lowest :
      (history : List F) (place i left : ℕ) (best : F)
      → lowest_from history place i left best ≡ lowest best (walked history 10 place (lit 0) i left)
  lowest_from-lowest history place i zero best = refl
  lowest_from-lowest history place i (suc left) best =
      lowest_from-lowest history place (i + 1) left _

  -- The newest `n` of the values, newest first.
  abbrev pub newest : ℕ → List F → List F
  newest n xs = take n (reverse xs)

  walked-newest :
      {history : List F} {place count : ℕ} (n : ℕ) (xs : List F)
      → n ≤ 10
      → Cycle history 10 place count (lit 0) xs
      → walked history 10 place (lit 0) 0 (if ltb count n then count else n) ≡ newest n xs
  walked-newest {history} {place} {count} n xs small h =
      let held : count ≡ min (length xs) 10 = h.count_at in
      let most = if ltb count n then count else n in
      let runs : most ≡ min (length xs) n = ground (arith, held, small) in
      walked-reverse most h (ground arith) ∙ (ap (λ k. take k (reverse xs)) runs ∙ take-min n xs)

  start-Recalls :
      (id : Text) (cfg : MomentumScalperConfig F) (fast slow : Ema F) (rsi : Rsi F) (atr : Atr F)
      → Recalls (momentum_with id cfg fast slow rsi atr) []
  start-Recalls id cfg fast slow rsi atr = record {
    highs = replicate-Cycle 10 (lit 0) (omega arith);
    lows = replicate-Cycle 10 (lit 0) (omega arith);
  }

  -- No candle is counted just where none was kept.
  counted :
      {history : List F} {place count : ℕ} (g : Candle F → F) (cs : List (Candle F))
      → Cycle history 10 place count (lit 0) (map g cs)
      → (count == 0) ≡ (length cs == 0)
  counted {count = count} g cs h =
      let held : count ≡ min (length (map g cs)) 10 = h.count_at in
      let same : length (map g cs) ≡ length cs = length-map g cs in ground (arith, held, same)

  -- After any candles the swings are the extremes among the highs and the lows of the newest candles
  -- that found all indicators warm, as many as are asked for, up to ten.
  pub recent_swing-newest :
      (id : Text) (cfg : MomentumScalperConfig F) (fast slow : Ema F) (rsi : Rsi F) (atr : Atr F)
      (cs : List (Candle F)) (n : ℕ)
      → n ≤ 10
      → let start = momentum_with id cfg fast slow rsi atr in
        let m = run_candles start cs in
        let seen = warm_candles start cs in
        let high = f.neg f.max_float64 in
        let low = f.max_float64 in
        (recent_swing_high m n ≡ (
          if length seen == 0
          then lit 0
          else beaten high (highest high (newest n (map (λ c. c.high) seen)))))
        × (recent_swing_low m n ≡ (
            if length seen == 0
            then lit 0
            else beaten low (lowest low (newest n (map (λ c. c.low) seen)))))
  unfolding recent_swing_high recent_swing_low
  recent_swing-newest id cfg fast slow rsi atr cs n small =
      let start = momentum_with id cfg fast slow rsi atr in
      let m = run_candles start cs in
      let seen = warm_candles start cs in
      let r = run_candles-Recalls start cs [] (start-Recalls id cfg fast slow rsi atr) in
      let high = f.neg f.max_float64 in
      let low = f.max_float64 in
      (
        ap
              (λ (b : Bool).
                if b
                then lit 0
                else beaten high (highest_from m.high_history m.candle_idx 0 (rounds m n) high))
              (counted (λ c. c.high) seen r.highs)
            ∙ ap (λ x. if length seen == 0 then lit 0 else beaten high x)
                (highest_from-highest m.high_history m.candle_idx 0 (rounds m n) high
                  ∙ ap (highest high) (walked-newest n (map (λ c. c.high) seen) small r.highs)),
        ap
              (λ (b : Bool).
                if b
                then lit 0
                else beaten low (lowest_from m.low_history m.candle_idx 0 (rounds m n) low))
              (counted (λ c. c.low) seen r.lows)
            ∙ ap (λ x. if length seen == 0 then lit 0 else beaten low x)
                (lowest_from-lowest m.low_history m.candle_idx 0 (rounds m n) low
                  ∙ ap (lowest low) (walked-newest n (map (λ c. c.low) seen) small r.lows)),
      )
