-- ===== src/MarketData/Multiframe/FiveMinutes.antt =====
-- The trend of the five minutes: what the closed candles and the two averages have to do with it.
use scalp_bot_os.Base.{
  ℕ, ◌-◌, ◌≤◌, true, false, ltb, if◌then◌else◌, ◌≡◌, refl, ◌⊎◌, inl, inr, Bool-cases, if_intro, ℤ,
  List, [], ◌∷◌, ◌++◌, length, length-append, length-drop, get_or, Option, none, some, Text, ◌==◌,
  Float, ◌+F◌, ◌-F◌, ◌*F◌, ◌/F◌, ◌<F◌, ◌≤F◌, ◌>F◌, ◌==F◌, ◌||◌, lit, dec, arith,
}
use scalp_bot_os.Model.Types.{Tick, Candle, zero_candle, mid_price}
use scalp_bot_os.MarketData.Multiframe.{
  HtfTrend, bullish, bearish, neutral, SymbolTimeframes, new_symbol_timeframes, trimmed,
  process_candle_in, process_candle, average_of, trend_of_averages, recalculate_m5, recalculate_h1,
  tick_m1, tick_m5, tick_h1, frames_on_tick, five_minutes, hour, first_candle, interval_start,
}

module _ {F : Type 0} ⦃f : Float F⦄ where
  -- The trend that the averages show: the faster is above the slower by two hundredths of a percent,
  -- or below it by as much, or neither.
  abbrev pub Compared : F → F → HtfTrend → Type 0
  Compared fast slow trend =
      ((fast >F (slow *F dec 10002 4)) ≡ true) × (trend ≡ bullish)
      ⊎ ((fast >F (slow *F dec 10002 4)) ≡ false)
        × ((fast <F (slow *F dec 9998 4)) ≡ true)
        × (trend ≡ bearish)
      ⊎ ((fast >F (slow *F dec 10002 4)) ≡ false)
        × ((fast <F (slow *F dec 9998 4)) ≡ false)
        × (trend ≡ neutral)

  abbrev pub last_close : List (Candle F) → F
  last_close cs = (get_or cs (length cs - 1) zero_candle).closed

  abbrev pub weight : ℕ → F
  weight period = lit 2 /F (lit period +F lit 1)

  -- An average is that of the candles, or it has taken in the last one with its weight.
  abbrev pub Advanced : F → List (Candle F) → F → Type 0
  Advanced k cs a =
      (a ≡ average_of k cs) ⊎ ((prev : F) × (a ≡ (last_close cs *F k) +F (prev *F (lit 1 -F k))))

  abbrev pub Five : List (Candle F) → F → F → HtfTrend → Type 0
  Five cs fast slow trend =
      (ltb (length cs) 5 ≡ true) × (trend ≡ neutral)
      ⊎ (ltb (length cs) 5 ≡ false)
        × Compared fast slow trend
        × Advanced (weight 10) cs fast
        × Advanced (weight 25) cs slow

  pub record IsFive (st : SymbolTimeframes F) : Type 0 where
    pub shown : Five st.m5.history st.m5_fast_ema st.m5_slow_ema st.trend_m5
    pub fits : length st.m5.history ≤ st.max_history

  trend_of_averages-Compared : (fast slow : F) → Compared fast slow (trend_of_averages fast slow)
  unfolding trend_of_averages
  trend_of_averages-Compared fast slow = ground arith

  recalculate_m5-Five :
      (st : SymbolTimeframes F)
      → (ltb (length st.m5.history) 5 ≡ true → st.trend_m5 ≡ neutral)
      → let r = recalculate_m5 st in Five st.m5.history r.m5_fast_ema r.m5_slow_ema r.trend_m5
  unfolding recalculate_m5
  recalculate_m5-Five st h =
      let cs = st.m5.history in
      elim (Bool-cases (ltb (length cs) 5)) [
        | inl few ↦ rw few (inl (refl, h few))
        | inr many ↦ elim (Bool-cases ((st.m5_fast_ema ==F lit 0) || (st.m5_slow_ema ==F lit 0))) [
          | inl fresh ↦
              rw (many, fresh)
                (inr (
                  refl,
                  trend_of_averages-Compared (average_of (weight 10) cs)
                      (average_of (weight 25) cs),
                  inl refl,
                  inl refl,
                ))
          | inr old ↦
              rw (many, old)
                (inr (
                  refl,
                  trend_of_averages-Compared
                      ((last_close cs *F weight 10) +F (st.m5_fast_ema *F (lit 1 -F weight 10)))
                      ((last_close cs *F weight 25) +F (st.m5_slow_ema *F (lit 1 -F weight 25))),
                  inr (st.m5_fast_ema, refl),
                  inr (st.m5_slow_ema, refl),
                ))
        ]
      ]

  pub length-trimmed :
      (n : ℕ) (cs : List (Candle F))
      → length (trimmed n cs) ≡ (if ltb n (length cs) then n else length cs)
  unfolding trimmed
  length-trimmed n cs = ground (arith, length-drop (length cs - n) cs)

  recalculate_m5_frame :
      (st : SymbolTimeframes F)
      → ((recalculate_m5 st).m5 ≡ st.m5) × ((recalculate_m5 st).max_history ≡ st.max_history)
  unfolding recalculate_m5
  recalculate_m5_frame st = (ground arith, ground arith)

  few_neutral :
      (st : SymbolTimeframes F)
      → IsFive st
      → ltb (length st.m5.history) 5 ≡ true
      → st.trend_m5 ≡ neutral
  few_neutral st h few = elim h.shown [
    | inl (_, same) ↦ same
    | inr (many, _, _, _) ↦ absurd (ground (arith, few, many))
  ]

  closed-IsFive :
      (st : SymbolTimeframes F) (c : Candle F) (current : Option (Candle F))
      → IsFive st
      → IsFive (
          recalculate_m5 (record st {
            m5 = record {
              current = current;
              history = trimmed st.max_history (st.m5.history ++ (c ∷ []));
            };
          }))
  closed-IsFive st c current h =
      let cs = trimmed st.max_history (st.m5.history ++ (c ∷ [])) in
      let next = record st { m5 = record { current = current; history = cs } } in
      let longer = length-append st.m5.history (c ∷ []) in
      let size = length-trimmed st.max_history (st.m5.history ++ (c ∷ [])) in
      let fits : length cs ≤ st.max_history = ground (arith, longer, size) in
      let (frame, most) = recalculate_m5_frame next in
      record {
        shown = rw frame (
            recalculate_m5-Five next
              λ few. few_neutral st h (ground (arith, few, longer, size, h.fits)));
        fits = rw (frame, most) fits;
      }

  candle_step-IsFive :
      (st : SymbolTimeframes F) (current : Option (Candle F)) (price : F) (start : ℕ)
      → IsFive st
      → let p = process_candle_in st.symbol st.max_history current st.m5.history price start in
        let next = record st { m5 = p.0 } in IsFive (if p.1 then recalculate_m5 next else next)
  unfolding process_candle_in
  candle_step-IsFive st none price start h = record { shown = h.shown; fits = h.fits }
  candle_step-IsFive st (some c) price start h = elim (Bool-cases (c.timestamp_ns == start)) [
    | inl e ↦ rw e (record { shown = h.shown; fits = h.fits })
    | inr e ↦ rw e (closed-IsFive st c (some (first_candle st.symbol price start)) h)
  ]

  tick_h1-IsFive :
      (st : SymbolTimeframes F) (price : F) (ns : ℕ) → IsFive st → IsFive (tick_h1 st price ns)
  unfolding tick_h1 recalculate_h1
  tick_h1-IsFive st price ns h =
      let p = process_candle st.symbol st.max_history st.h1 price ns hour in
      if_intro IsFive p.1
        (λ _.
          if_intro IsFive (ltb (length p.0.history) 3)
            (λ _. record { shown = h.shown; fits = h.fits })
            (λ _. record { shown = h.shown; fits = h.fits }))
        (λ _. record { shown = h.shown; fits = h.fits })

  pub frames_on_tick-IsFive :
      (st : SymbolTimeframes F) (t : Tick F) → IsFive st → IsFive (frames_on_tick st t)
  unfolding frames_on_tick tick_m5 tick_m1 process_candle
  frames_on_tick-IsFive st t h =
      let price = mid_price t in
      let ns = t.timestamp_ns in
      let one = tick_m1 st price ns in
      if_intro IsFive (price ≤F lit 0) (λ _. h)
        (λ _. tick_h1-IsFive (tick_m5 one price ns) price ns (
          candle_step-IsFive one one.m5.current price (interval_start five_minutes ns)
            (record { shown = h.shown; fits = h.fits })))

  pub new-IsFive :
      (symbol : Text) (max_history : ℤ) → IsFive (new_symbol_timeframes symbol max_history)
  unfolding new_symbol_timeframes
  new-IsFive symbol max_history = record { shown = inl (ground arith, refl); fits = omega arith }
