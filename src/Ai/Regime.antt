-- ===== src/Ai/Regime.antt =====
-- internal/ai/regime.go: the rules that name the regime of a feature vector.
use scalp_bot_os.Base.{
  Bool, ◌&&◌, ◌||◌, if◌then◌else◌, Text, bytes, Float, ◌+F◌, ◌-F◌, ◌*F◌, ◌/F◌, ◌<F◌, ◌≤F◌, ◌>F◌,
  ◌≥F◌, lit, dec,
}
use scalp_bot_os.Ai.Features.{FeatureVector}

pub data MarketRegime : Type 0 where
  trending_bullish trending_bearish ranging_chop high_volatility_event : MarketRegime
  wall_exhaustion : MarketRegime

unfoldable pub regime_string : MarketRegime → Text
regime_string MarketRegime.trending_bullish = bytes "TRENDING_BULLISH"
regime_string MarketRegime.trending_bearish = bytes "TRENDING_BEARISH"
regime_string MarketRegime.ranging_chop = bytes "RANGING_CHOP"
regime_string MarketRegime.high_volatility_event = bytes "HIGH_VOLATILITY_EVENT"
regime_string MarketRegime.wall_exhaustion = bytes "WALL_EXHAUSTION"

pub record RegimeClassifier (F : Type 0) : Type 0 where
  pub chop_spread_threshold : F
  pub chop_rsi_band : F
  pub vol_ratio_threshold : F

module _ {F : Type 0} ⦃f : Float F⦄ where
  unfoldable pub new_regime_classifier : RegimeClassifier F
  new_regime_classifier = record {
    chop_spread_threshold = dec 20 2;
    chop_rsi_band = dec 16 2;
    vol_ratio_threshold = dec 24 1;
  }

  abbrev pub is_event : RegimeClassifier F → FeatureVector F → Bool
  is_event rc fv =
      (fv.vol_ratio ≥F rc.vol_ratio_threshold)
      || ((fv.spread_ratio ≥F dec 12 1) || ((fv.tick_velocity *F lit 10) >F lit 50))

  abbrev pub is_exhausted : FeatureVector F → Bool
  is_exhausted fv =
      ((fv.rsi_norm >F dec 24 2) || (fv.rsi_norm <F f.neg (dec 24 2))) && (fv.vol_ratio >F dec 13 1)

  abbrev pub is_chop : RegimeClassifier F → FeatureVector F → Bool
  is_chop rc fv =
      (f.abs fv.ema_delta <F rc.chop_spread_threshold) && (f.abs fv.rsi_norm <F rc.chop_rsi_band)

  abbrev pub chop_confidence : RegimeClassifier F → FeatureVector F → F
  chop_confidence rc fv = f.min (lit 1) (
      f.max (dec 5 1) (
        ((lit 1 -F (f.abs fv.ema_delta /F rc.chop_spread_threshold)) *F dec 5 1)
        +F ((lit 1 -F (f.abs fv.rsi_norm /F rc.chop_rsi_band)) *F dec 5 1)))

  abbrev pub trend_confidence : F → F → F
  trend_confidence delta rsi =
      let conf = f.min (lit 1) (((delta /F dec 15 1) *F dec 5 1) +F (rsi *F dec 5 1)) in
      if conf <F dec 55 2 then dec 55 2 else conf

  abbrev pub trends_up : RegimeClassifier F → FeatureVector F → Bool
  trends_up rc fv = (fv.ema_delta ≥F rc.chop_spread_threshold) && (fv.rsi_norm >F rc.chop_rsi_band)

  abbrev pub trends_down : RegimeClassifier F → FeatureVector F → Bool
  trends_down rc fv =
      (fv.ema_delta ≤F f.neg rc.chop_spread_threshold) && (fv.rsi_norm <F f.neg rc.chop_rsi_band)

  unfoldable pub classify_regime : RegimeClassifier F → FeatureVector F → MarketRegime × F
  classify_regime rc fv =
      if is_event rc fv
      then (MarketRegime.high_volatility_event, f.min (lit 1) (fv.vol_ratio /F lit 3))
      else if is_exhausted fv
      then (MarketRegime.wall_exhaustion, lit 0)
      else if is_chop rc fv
      then (MarketRegime.ranging_chop, chop_confidence rc fv)
      else if trends_up rc fv
      then (MarketRegime.trending_bullish, trend_confidence fv.ema_delta fv.rsi_norm)
      else if trends_down rc fv
      then (
        MarketRegime.trending_bearish,
        trend_confidence (f.abs fv.ema_delta) (f.abs fv.rsi_norm),
      )
      else (MarketRegime.ranging_chop, dec 60 2)
