-- ===== src/Ai/Filter/Verdict.antt =====
-- What the filter makes of a signal, and of the same signal under stricter thresholds.
use scalp_bot_os.Base.{
  ◌≡◌, true, false, not, ◌⊎◌, bytes, has_prefix, Float, ◌<F◌, ◌≤F◌, ◌>F◌, lit, dec,
}
use scalp_bot_os.Model.Types.{Signal}
use scalp_bot_os.Ai.Filter.{FilterConfig, Judgement}

module _ {F : Type 0} ⦃f : Float F⦄ where
  abbrev pub IsTrend : Signal F → Type 0
  IsTrend sig = has_prefix sig.strategy_id (bytes "range") ≡ false

  abbrev pub IsRange : Signal F → Type 0
  IsRange sig = has_prefix sig.strategy_id (bytes "range") ≡ true

  -- What a judgement is worth with a range signal that is not heard, with the filter off, and with
  -- the threshold of a trend signal, of a range signal, and of one that has no threshold of its own.
  abbrev pub Judged : FilterConfig F → Signal F → Judgement F → Type 0
  Judged cfg sig j =
      IsRange sig × (cfg.dual_mode_enabled ≡ false) × (j.allowed ≡ false) × (j.confidence ≡ lit 0)
      ⊎ (IsTrend sig ⊎ (cfg.dual_mode_enabled ≡ true))
        × (cfg.enable_ml_filter ≡ false)
        × (j.allowed ≡ true)
        × (j.confidence ≡ dec 60 2)
      ⊎ IsTrend sig
        × (cfg.enable_ml_filter ≡ true)
        × (j.allowed ≡ not (j.confidence <F cfg.min_confidence))
      ⊎ IsRange sig
        × (cfg.dual_mode_enabled ≡ true)
        × (cfg.enable_ml_filter ≡ true)
        × ((cfg.range_min_confidence >F lit 0) ≡ true)
        × (j.allowed ≡ not (j.confidence <F cfg.range_min_confidence))
      ⊎ IsRange sig
        × (cfg.dual_mode_enabled ≡ true)
        × (cfg.enable_ml_filter ≡ true)
        × ((cfg.range_min_confidence >F lit 0) ≡ false)
        × (j.allowed ≡ not (j.confidence <F cfg.min_confidence))

  -- For the kind of the signal one configuration asks for as much as another, or for more.
  abbrev pub AsksNoLess : FilterConfig F → FilterConfig F → Signal F → Type 0
  AsksNoLess lax strict sig =
      IsTrend sig × ((lax.min_confidence ≤F strict.min_confidence) ≡ true)
      ⊎ IsRange sig
        × ((lax.range_min_confidence >F lit 0) ≡ true)
        × ((strict.range_min_confidence >F lit 0) ≡ true)
        × ((lax.range_min_confidence ≤F strict.range_min_confidence) ≡ true)
