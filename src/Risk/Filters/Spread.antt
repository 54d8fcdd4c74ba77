-- ===== src/Risk/Filters/Spread.antt =====
-- internal/risk/spread_filter.go: spreads that are far above their running average are refused.
use scalp_bot_os.Base.{
  ℕ, ◌+◌, ◌≡◌, refl, subst, ◌||◌, Bool, true, false, not, leb, ◌==◌, if◌then◌else◌, List, [], ◌∷◌,
  length, Float, ◌+F◌, ◌-F◌, ◌*F◌, ◌/F◌, ◌>F◌, ◌≤F◌, lit, arith,
}
use scalp_bot_os.Model.Types.{Tick, spread_pips}
use scalp_bot_os.Model.Symbol.{pip_multiplier}

pub record SpreadAnomalyFilter (F : Type 0) : Type 0 where
  pub avg_spread : F
  pub multiplier : F
  pub ema_period : ℕ
  pub ema_alpha : F
  pub count : ℕ
  pub ready : Bool

-- A period that is not positive is a zero here, and counts as a hundred.
abbrev pub period_or_default : ℕ → ℕ
period_or_default n = if n == 0 then 100 else n

module _ {F : Type 0} ⦃f : Float F⦄ where
  unfoldable pub new_spread_anomaly_filter : F → ℕ → SpreadAnomalyFilter F
  new_spread_anomaly_filter multiplier ema_period = record {
    avg_spread = lit 0;
    multiplier = if multiplier ≤F lit 1 then lit 2 else multiplier;
    ema_period = period_or_default ema_period;
    ema_alpha = lit 2 /F lit (period_or_default ema_period + 1);
    count = 0;
    ready = false;
  }

  abbrev pub pips_of : Tick F → F
  pips_of tick = spread_pips tick (pip_multiplier tick.symbol)

  unfoldable pub observe : SpreadAnomalyFilter F → Tick F → SpreadAnomalyFilter F
  observe g tick =
      let n = g.count + 1 in
      if g.ready
      then record g {
        count = n;
        avg_spread = (pips_of tick -F g.avg_spread) *F g.ema_alpha +F g.avg_spread;
      }
      else record g {
        count = n;
        avg_spread = g.avg_spread +F (pips_of tick -F g.avg_spread) /F lit n;
        ready = leb g.ema_period n;
      }

  unfoldable pub spread_allow : SpreadAnomalyFilter F → Tick F → Bool
  spread_allow g tick =
      if not g.ready
      then true
      else if pips_of tick >F g.avg_spread *F g.multiplier
      then false
      else true

  unfoldable pub observe_all : SpreadAnomalyFilter F → List (Tick F) → SpreadAnomalyFilter F
  observe_all g [] = g
  observe_all g (t ∷ ts) = observe_all (observe g t) ts

  -- A filter that has seen `n` ticks.
  record HasSeen (period n : ℕ) (multiplier : F) (g : SpreadAnomalyFilter F) : Type 0 where
    counted : g.count ≡ n
    lasts : g.ema_period ≡ period
    factor : g.multiplier ≡ multiplier
    warm : g.ready ≡ leb period n

  observe-HasSeen :
      (period n : ℕ) (m : F) (g : SpreadAnomalyFilter F) (tick : Tick F)
      → HasSeen period n m g
      → HasSeen period (n + 1) m (observe g tick)
  unfolding observe
  observe-HasSeen period n m g tick h =
      let counted : g.count ≡ n = h.counted in
      let lasts : g.ema_period ≡ period = h.lasts in
      let warm : g.ready ≡ leb period n = h.warm in
      let factor : g.multiplier ≡ m = h.factor in
      record {
        counted = ground arith;
        lasts = ground arith;
        factor = ground arith;
        warm = ground arith;
      }

  observe_all-HasSeen :
      (period n : ℕ) (m : F) (g : SpreadAnomalyFilter F) (ts : List (Tick F))
      → HasSeen period n m g
      → HasSeen period (n + length ts) m (observe_all g ts)
  unfolding observe_all
  observe_all-HasSeen period n m g [] h = subst (λ k. HasSeen period k m g) (omega arith) h
  observe_all-HasSeen period n m g (t ∷ ts) h =
      subst (λ k. HasSeen period k m (observe_all (observe g t) ts)) (omega arith)
        (observe_all-HasSeen period (n + 1) m (observe g t) ts (observe-HasSeen period n m g t h))

  -- A new filter allows every tick until it has seen as many ticks as its period, and from then on
  -- just those whose spread is not above the average times the multiplier.
  spread_allow-observe_all :
      (multiplier : F) (ema_period : ℕ) (ts : List (Tick F)) (tick : Tick F)
      → let new = new_spread_anomaly_filter multiplier ema_period in
        let g = observe_all new ts in
        spread_allow g tick ≡ (
          not (leb (period_or_default ema_period) (length ts))
          || not (pips_of tick >F g.avg_spread *F new.multiplier))
  unfolding new_spread_anomaly_filter spread_allow
  spread_allow-observe_all multiplier ema_period ts tick =
      let new = new_spread_anomaly_filter multiplier ema_period in
      let h =
        observe_all-HasSeen (period_or_default ema_period) 0 new.multiplier new ts
          (record { counted = refl; lasts = refl; factor = refl; warm = ground arith }) in
      rw (h.warm, h.factor) (ground arith)
