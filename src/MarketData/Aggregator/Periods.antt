-- ===== src/MarketData/Aggregator/Periods.antt =====
-- The periods of the candles that an aggregator hands out.
use native.Mathlib.Nat.{mul-mod_left, add-mod_right, div-add-mod'}
use scalp_bot_os.Base.{
  ℕ, ◌+◌, ◌*◌, ◌/◌, ◌%◌, ◌≤◌, ◌≡◌, refl, ◌∙◌, subst, ◌⊎◌, inl, inr, true, false, Bool-cases, leb,
  if◌then◌else◌, List, [], ◌∷◌, Float, arith,
}
use scalp_bot_os.Model.Types.{Tick, Candle, mid_price, zero_candle}
use scalp_bot_os.MarketData.Aggregator.{Aggregator, new_aggregator, start_new_candle, on_tick}
use scalp_bot_os.MarketData.Aggregator.Steps.{
  extend_keeps, on_tick-early, on_tick-late, completed_keeps,
}

-- The greatest multiple that is not above `t` is above every other such multiple.
floor_le : (p lo t : ℕ) → lo % p ≡ 0 → lo ≤ t → lo ≤ t / p * p
floor_le p lo t h le = grind (arith, div-add-mod' lo p, div-add-mod' t p)

period_ns-new :
    (F : Type 0) ⦃f : Float F⦄ (period : ℕ) → (new_aggregator {F = F} period).period_ns ≡ period
unfolding new_aggregator
period_ns-new F period = refl

module _ {F : Type 0} ⦃f : Float F⦄ where
  -- The candles that are handed out for a stream of ticks, in order.
  unfoldable pub emitted : Aggregator F → List (Tick F) → List (Candle F)
  emitted a [] = []
  emitted a (t ∷ ts) =
      let rest = emitted (on_tick a t).2 ts in
      if (on_tick a t).1 then (on_tick a t).0 ∷ rest else rest

  -- Each candle starts on a multiple of the period, at the time or later, and the next one a whole
  -- period later at the least.
  abbrev pub Spaced : ℕ → ℕ → List (Candle F) → Type 0
  Spaced period from [] = Unit
  Spaced period from (c ∷ cs) =
      (from ≤ c.timestamp_ns)
      × (c.timestamp_ns % period ≡ 0)
      × Spaced period (c.timestamp_ns + period) cs

  Spaced-earlier :
      (period low from : ℕ) (cs : List (Candle F))
      → low ≤ from
      → Spaced period from cs
      → Spaced period low cs
  Spaced-earlier period low from [] h s = tt
  Spaced-earlier period low from (c ∷ cs) h (a, b, s) = (omega arith, b, s)

  -- What holds of an aggregator once it has a candle.
  record IsAligned (a : Aggregator F) : Type 0 where
    live : a.has_data ≡ true
    start : a.current.timestamp_ns % a.period_ns ≡ 0
    end : a.period_end ≡ a.current.timestamp_ns + a.period_ns

  -- Nothing is handed out for the first tick.
  on_tick-first :
      (period : ℕ) (t : Tick F)
      → let a = new_aggregator {F = F} period in
        on_tick a t ≡ (
          zero_candle,
          false,
          record (start_new_candle a t (mid_price t)) { last_mid = mid_price t },
        )
  unfolding on_tick new_aggregator
  on_tick-first period t = refl

  next_start :
      (a : Aggregator F) (t : Tick F)
      → IsAligned a
      → a.period_end ≤ t.timestamp_ns
      → a.current.timestamp_ns + a.period_ns
        ≤ (start_new_candle a t (mid_price t)).current.timestamp_ns
  unfolding start_new_candle
  next_start a t s late =
      floor_le a.period_ns (a.current.timestamp_ns + a.period_ns) t.timestamp_ns
        (add-mod_right a.current.timestamp_ns a.period_ns ∙ s.start) (omega arith)

  align-IsAligned :
      (a : Aggregator F) (t : Tick F) (m : F)
      → let b = record (start_new_candle a t m) { last_mid = m } in
        IsAligned b × (b.period_ns ≡ a.period_ns)
  unfolding start_new_candle
  align-IsAligned a t m = (
    record {
      live = refl;
      start = mul-mod_left (t.timestamp_ns / a.period_ns) a.period_ns;
      end = refl;
    },
    refl,
  )

  -- A tick is either taken into the candle, or closes it and opens one a period later.
  on_tick-cases :
      (a : Aggregator F) (t : Tick F)
      → IsAligned a
      → let (c, e, b) = on_tick a t in
        IsAligned b
        × (b.period_ns ≡ a.period_ns)
        × (((e ≡ false) × (b.current.timestamp_ns ≡ a.current.timestamp_ns))
            ⊎ ((e ≡ true)
                × (c.timestamp_ns ≡ a.current.timestamp_ns)
                × (a.current.timestamp_ns + a.period_ns ≤ b.current.timestamp_ns)))
  on_tick-cases a t s = elim (Bool-cases (leb a.period_end t.timestamp_ns)) [
    | inl over ↦
        let (al, same) = align-IsAligned a t (mid_price t) in
        let late : a.period_end ≤ t.timestamp_ns = ground arith in
        let (_, _, _, _, _, stamp, _) = completed_keeps a.current in
        rw (on_tick-late a t s.live late) (al, same, inr (refl, stamp, next_start a t s late))
    | inr within ↦
        let (end, live, start, period) = extend_keeps a (mid_price t) in
        rw (on_tick-early a t s.live (ground arith)) (
          record {
            live = live ∙ s.live;
            start = rw (start, period) s.start;
            end = rw (end, start, period) s.end;
          },
          period,
          inl (refl, start),
        )
  ]

  -- One tick before the rest of the stream.
  emitted_step :
      (a : Aggregator F) (t : Tick F) (rest : List (Candle F))
      → IsAligned a
      → let (c, e, b) = on_tick a t in
        (((e ≡ false) × (b.current.timestamp_ns ≡ a.current.timestamp_ns))
          ⊎ ((e ≡ true)
              × (c.timestamp_ns ≡ a.current.timestamp_ns)
              × (a.current.timestamp_ns + a.period_ns ≤ b.current.timestamp_ns)))
        → Spaced a.period_ns b.current.timestamp_ns rest
        → Spaced a.period_ns a.current.timestamp_ns (if e then c ∷ rest else rest)
  emitted_step a t rest s (inl (e, same)) r = rw e (rw same at r)
  emitted_step a t rest s (inr (e, same, later)) r =
      rw (e, same)
        (
          omega arith,
          s.start,
          Spaced-earlier a.period_ns (a.current.timestamp_ns + a.period_ns)
              (on_tick a t).2.current.timestamp_ns rest later r,
        )

  emitted_from :
      (ts : List (Tick F)) (a : Aggregator F)
      → IsAligned a
      → Spaced a.period_ns a.current.timestamp_ns (emitted a ts)
  unfolding emitted
  emitted_from [] a s = tt
  emitted_from (t ∷ ts) a s =
      let (al, same, how) = on_tick-cases a t s in
      let rest = rw same at (emitted_from ts (on_tick a t).2 al) in
      emitted_step a t (emitted (on_tick a t).2 ts) s how rest

  -- Whatever the order of the ticks, the candles that a new aggregator hands out start on multiples
  -- of the period, one after the other and a whole period apart at the least, so none overlap.
  pub emitted-Spaced :
      (period : ℕ) (ts : List (Tick F)) → Spaced period 0 (emitted (new_aggregator period) ts)
  unfolding emitted
  emitted-Spaced period [] = tt
  emitted-Spaced period (t ∷ ts) =
      let a = new_aggregator {F = F} period in
      let (al, same) = align-IsAligned a t (mid_price t) in
      let b = record (start_new_candle a t (mid_price t)) { last_mid = mid_price t } in
      rw (on_tick-first period t) (
        Spaced-earlier period 0 b.current.timestamp_ns (emitted b ts) (omega arith) (
          subst (λ p. Spaced p b.current.timestamp_ns (emitted b ts))
            (same ∙ period_ns-new F period) (emitted_from ts b al)))
