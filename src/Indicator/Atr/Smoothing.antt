-- ===== src/Indicator/Atr/Smoothing.antt =====
-- The average true range against the textbook recurrence over the ranges of its candles.
use scalp_bot_os.Base.{
  ℕ, ◌+◌, ◌<◌, ◌≡◌, refl, ap, ◌∙◌, subst, Bool, true, false, ◌==◌, leb, if◌then◌else◌, List, [],
  ◌∷◌, ◌++◌, length, Float, ◌+F◌, ◌-F◌, ◌/F◌, lit, nan, arith,
}
use scalp_bot_os.Model.Types.{Candle}
use scalp_bot_os.Indicator.Atr.{Atr, fresh_atr, range_of, wilder, update, value_of}

module _ {F : Type 0} ⦃f : Float F⦄ where
  -- The average after a stream of candles.
  unfoldable pub update_all : Atr F → List (Candle F) → Atr F
  update_all a [] = a
  update_all a (c ∷ cs) = update_all (update a c).1 cs

  -- The sum of the true ranges of candles after a close, and Wilder's smoothing of them.
  abbrev pub sum_ranges : F → F → List (Candle F) → F
  sum_ranges s close [] = s
  sum_ranges s close (c ∷ cs) = sum_ranges (s +F range_of close c) c.closed cs

  abbrev pub smooth_ranges : ℕ → F → F → List (Candle F) → F
  smooth_ranges period x close [] = x
  smooth_ranges period x close (c ∷ cs) =
      smooth_ranges period (wilder period x (range_of close c)) c.closed cs

  abbrev pub last_close : F → List (Candle F) → F
  last_close close [] = close
  last_close close (c ∷ cs) = last_close c.closed cs

  record IsWarming (period n : ℕ) (s close : F) (a : Atr F) : Type 0 where
    lasts : a.period ≡ period
    counted : a.count ≡ n
    summed : a.tr_sum ≡ s
    closed : a.prev_close ≡ close
    cold : a.ready ≡ false

  record IsReady (period : ℕ) (x close : F) (a : Atr F) : Type 0 where
    lasts : a.period ≡ period
    started : 0 < a.count
    value : a.current ≡ x
    closed : a.prev_close ≡ close
    warm : a.ready ≡ true

  first-IsWarming :
      (period : ℕ) (c : Candle F)
      → 1 < period
      → IsWarming period 1 (c.high -F c.low) c.closed (update (fresh_atr period) c).1
  unfolding update
  first-IsWarming period c long =
      let not_one : (period == 1) ≡ false = ground arith in
      rw not_one record { lasts = refl; counted = refl; summed = refl; closed = refl; cold = refl }

  update-IsWarming :
      (period n : ℕ) (s close : F) (a : Atr F) (c : Candle F)
      → n + 1 < period
      → 0 < n
      → IsWarming period n s close a
      → IsWarming period (n + 1) (s +F range_of close c) c.closed (update a c).1
  unfolding update
  update-IsWarming period n s close a c early started h =
      let lasts : a.period ≡ period = h.lasts in
      let counted : a.count ≡ n = h.counted in
      let cold : a.ready ≡ false = h.cold in
      let summed : a.tr_sum ≡ s = h.summed in
      let closed : a.prev_close ≡ close = h.closed in
      let later : ((a.count + 1) == 1) ≡ false = ground arith in
      let early_test : leb a.period (a.count + 1) ≡ false = ground arith in
      rw (later, cold, early_test)
        record {
          lasts = lasts;
          counted = omega arith;
          summed =
              ap (λ x. x +F range_of a.prev_close c) summed ∙ ap (λ p. s +F range_of p c) closed;
          closed = refl;
          cold = refl;
        }

  update-seeds :
      (period n : ℕ) (s close : F) (a : Atr F) (c : Candle F)
      → n + 1 ≡ period
      → 0 < n
      → IsWarming period n s close a
      → IsReady period ((s +F range_of close c) /F lit period) c.closed (update a c).1
  unfolding update
  update-seeds period n s close a c last started h =
      let lasts : a.period ≡ period = h.lasts in
      let counted : a.count ≡ n = h.counted in
      let cold : a.ready ≡ false = h.cold in
      let summed : a.tr_sum ≡ s = h.summed in
      let closed : a.prev_close ≡ close = h.closed in
      let later : ((a.count + 1) == 1) ≡ false = ground arith in
      let last_test : leb a.period (a.count + 1) ≡ true = ground arith in
      rw (later, cold, last_test)
        record {
          lasts = lasts;
          started = omega arith;
          value =
              ap (λ x. (x +F range_of a.prev_close c) /F lit a.period) summed
              ∙ (ap (λ p. (s +F range_of p c) /F lit a.period) closed
                  ∙ ap (λ m. (s +F range_of close c) /F lit m) lasts);
          closed = refl;
          warm = refl;
        }

  update-IsReady :
      (period : ℕ) (x close : F) (a : Atr F) (c : Candle F)
      → IsReady period x close a
      → IsReady period (wilder period x (range_of close c)) c.closed (update a c).1
  unfolding update
  update-IsReady period x close a c h =
      let lasts : a.period ≡ period = h.lasts in
      let started : 0 < a.count = h.started in
      let warm : a.ready ≡ true = h.warm in
      let value : a.current ≡ x = h.value in
      let closed : a.prev_close ≡ close = h.closed in
      let later : ((a.count + 1) == 1) ≡ false = ground arith in
      rw (later, warm)
        record {
          lasts = lasts;
          started = omega arith;
          value =
              ap (λ y. wilder a.period y (range_of a.prev_close c)) value
              ∙ (ap (λ p. wilder a.period x (range_of p c)) closed
                  ∙ ap (λ m. wilder m x (range_of close c)) lasts);
          closed = refl;
          warm = refl;
        }

  update_all-IsReady :
      (period : ℕ) (x close : F) (a : Atr F) (cs : List (Candle F))
      → IsReady period x close a
      → (update_all a cs).current ≡ smooth_ranges period x close cs × (update_all a cs).ready ≡ true
  unfolding update_all
  update_all-IsReady period x close a [] h = (h.value, h.warm)
  update_all-IsReady period x close a (c ∷ cs) h =
      update_all-IsReady period (wilder period x (range_of close c)) c.closed (update a c).1 cs
        (update-IsReady period x close a c h)

  update_all-IsWarming :
      (period n : ℕ) (s close : F) (a : Atr F) (cs : List (Candle F))
      → n + length cs < period
      → 0 < n
      → IsWarming period n s close a
      → IsWarming period
          (n + length cs)
          (sum_ranges s close cs)
          (last_close close cs)
          (update_all a cs)
  unfolding update_all
  update_all-IsWarming period n s close a [] early started h =
      subst (λ m. IsWarming period m s close a) (omega arith) h
  update_all-IsWarming period n s close a (c ∷ cs) early started h =
      let s' = s +F range_of close c in
      subst
        (λ m.
          IsWarming period m (sum_ranges s' c.closed cs) (last_close c.closed cs)
            (update_all (update a c).1 cs))
        (omega arith)
        (update_all-IsWarming period (n + 1) s' c.closed (update a c).1 cs (omega arith)
          (omega arith) (update-IsWarming period n s close a c (omega arith) started h))

  update_all-append :
      (a : Atr F) (xs ys : List (Candle F))
      → update_all a (xs ++ ys) ≡ update_all (update_all a xs) ys
  unfolding update_all
  update_all-append a [] ys = refl
  update_all-append a (x ∷ xs) ys = update_all-append (update a x).1 xs ys

  -- A new average of a period of two or more that sees a period of candles, and then others, has
  -- the value of Wilder's smoothing of the true ranges of the others, from the mean of the first
  -- ones. The range of the very first candle is its high less its low.
  value_of-smooth_ranges :
      (first : Candle F) (mid : List (Candle F)) (last : Candle F) (rest : List (Candle F))
      → let period = length mid + 2 in
        let first_sum = sum_ranges (first.high -F first.low) first.closed mid in
        let total = first_sum +F range_of (last_close first.closed mid) last in
        value_of (update_all (fresh_atr period) (first ∷ (mid ++ (last ∷ rest))))
        ≡ smooth_ranges period (total /F lit period) last.closed rest
  unfolding value_of update_all
  value_of-smooth_ranges first mid last rest =
      let period = length mid + 2 in
      let close = last_close first.closed mid in
      let s = sum_ranges (first.high -F first.low) first.closed mid in
      let a₁ = (update (fresh_atr period) first).1 in
      let a₂ = update_all a₁ mid in
      let a₃ = (update a₂ last).1 in
      let warming =
        update_all-IsWarming period 1 (first.high -F first.low) first.closed a₁ mid (omega arith)
          (omega arith) (first-IsWarming period first (omega arith)) in
      let seeded =
        update-seeds period (1 + length mid) s close a₂ last (omega arith) (omega arith) warming in
      let (value, warm) =
        update_all-IsReady period ((s +F range_of close last) /F lit period) last.closed a₃ rest
          seeded in
      ap value_of (update_all-append a₁ mid (last ∷ rest))
      ∙ (ap (λ (b : Bool). if b then (update_all a₃ rest).current else nan) warm ∙ value)
