-- ===== src/MarketData/Aggregator/Stream.antt =====
-- The candle that is handed out against the ticks of its period.
use scalp_bot_os.Base.{
  ℕ, ◌+◌, ◌*◌, ◌/◌, ◌%◌, ◌^◌, ◌≤◌, ◌<◌, ◌≡◌, refl, sym, ap, ◌∙◌, subst, inl, true, List, [], ◌∷◌,
  length, All, Float, IsOrdered,
}
use scalp_bot_os.Model.Types.{Tick, mid_price}
use scalp_bot_os.MarketData.Aggregator.{
  Aggregator, new_aggregator, start_new_candle, extend, on_tick, float_of_int32,
}
use scalp_bot_os.MarketData.Aggregator.Steps.{
  classify_keeps, extend_keeps, on_tick-early, on_tick-late, opened_live, opened_end, opened_start,
  completed_keeps,
}
use scalp_bot_os.MarketData.Aggregator.Summary.{
  IsNumber, IsSummary, IsSummary-same, update_candle-IsSummary,
}

module _ {F : Type 0} ⦃f : Float F⦄ where
  -- The mid prices of a stream of ticks, the newest first, put before those that are there.
  abbrev pub collected : List F → List (Tick F) → List F
  collected ms [] = ms
  collected ms (t ∷ ts) = collected (mid_price t ∷ ms) ts

  -- The aggregator after a stream of ticks, whatever it handed out on the way.
  unfoldable pub feed : Aggregator F → List (Tick F) → Aggregator F
  feed a [] = a
  feed a (t ∷ ts) = feed (on_tick a t).2 ts

  -- The ticks fall before the time and have a mid price that is a number.
  abbrev pub AllBefore : ℕ → List (Tick F) → Type 0
  AllBefore end = All (λ t. (t.timestamp_ns < end) × IsNumber (mid_price t))

  module _ (laws : IsOrdered F) where
    extend-IsSummary :
        (a : Aggregator F) {ms : List F} (m : F)
        → IsNumber m
        → IsSummary a.current ms
        → IsSummary (extend a m).current (m ∷ ms)
    unfolding extend
    extend-IsSummary a m num s =
        let (o, x, h, l, n, _, _, _, _) = classify_keeps a m in
        update_candle-IsSummary laws m num (IsSummary-same laws o x h l n s)

    start-IsSummary :
        (a : Aggregator F) (t : Tick F) (m : F)
        → IsNumber m
        → IsSummary (start_new_candle a t m).current (m ∷ [])
    unfolding start_new_candle
    start-IsSummary a t m num = record {
      opens = refl;
      closes = refl;
      highest = record { num = num; bound = (num, tt); met = inl refl };
      lowest = record { num = num; bound = (num, tt); met = inl refl };
      counted = refl;
    }

    -- Ticks before the end of the period are all taken into the current candle.
    feed-IsSummary :
        (ts : List (Tick F)) (a : Aggregator F) (ms : List F)
        → a.has_data ≡ true
        → AllBefore a.period_end ts
        → IsSummary a.current ms
        → let b = feed a ts in
          IsSummary b.current (collected ms ts)
          × (b.has_data ≡ true)
          × (b.period_end ≡ a.period_end)
          × (b.current.timestamp_ns ≡ a.current.timestamp_ns)
    unfolding feed
    feed-IsSummary [] a ms d h s = (s, d, refl, refl)
    feed-IsSummary (t ∷ ts) a ms d ((early, num), h) s =
        let m = mid_price t in
        let (end, live, start, _) = extend_keeps a m in
        let (s', d', e', n') =
          feed-IsSummary ts (extend a m) (m ∷ ms) (live ∙ d)
            (subst (λ k. AllBefore k ts) (sym end) h) (extend-IsSummary a m num s) in
        rw (on_tick-early a t d early, feed) (s', d', e' ∙ end, n' ∙ start)

    opened-IsSummary :
        (period : ℕ) (t : Tick F)
        → IsNumber (mid_price t)
        → IsSummary (on_tick (new_aggregator period) t).2.current (mid_price t ∷ [])
    unfolding on_tick new_aggregator
    opened-IsSummary period t = start-IsSummary (new_aggregator period) t (mid_price t)

    -- The first tick of a new aggregator opens a period. The ticks before its end are collected, and
    -- the first tick at or after its end hands out one candle: its prices open, close, bound and are
    -- met by exactly the collected mid prices, its volume is their number, and it is stamped with
    -- the start of the period.
    pub on_tick-IsSummary :
        (period : ℕ) (first : Tick F) (ts : List (Tick F)) (next : Tick F)
        → let start = first.timestamp_ns / period * period in
          IsNumber (mid_price first)
          → AllBefore (start + period) ts
          → start + period ≤ next.timestamp_ns
          → let (candle, emitted, _) = on_tick (feed (new_aggregator period) (first ∷ ts)) next in
            (emitted ≡ true)
            × IsSummary candle (collected [] (first ∷ ts))
            × (candle.timestamp_ns ≡ start)
            × (candle.volume ≡ float_of_int32 (length (collected [] (first ∷ ts)) % 2 ^ 32))
    unfolding feed
    on_tick-IsSummary period first ts next num early late =
        let a = new_aggregator period in
        let b = (on_tick a first).2 in
        let (s, live, end, start) =
          feed-IsSummary ts b (mid_price first ∷ []) (opened_live period first)
            (subst (λ k. AllBefore k ts) (sym (opened_end period first)) early)
            (opened-IsSummary period first num) in
        let c = (feed b ts).current in
        let (o, x, h, l, n, stamp, v) = completed_keeps c in
        let past : (feed b ts).period_end ≤ next.timestamp_ns =
          rw (end, opened_end period first) late in
        rw (on_tick-late (feed b ts) next live past) (
          refl,
          IsSummary-same laws o x h l n s,
          stamp ∙ start ∙ opened_start period first,
          v ∙ ap float_of_int32 s.counted,
        )
