-- ===== src/Ai/Scorer/Mirror.antt =====
-- The trees of a sell, against those of a buy in the mirrored market.
use scalp_bot_os.Base.{
  ◌≡◌, refl, ap, ◌∙◌, sym, Bool, if◌then◌else◌, Float, IsSigned, ◌+F◌, ◌-F◌, dec,
}
use scalp_bot_os.Model.Types.{SignalType}
use scalp_bot_os.Ai.Features.{FeatureVector}
use scalp_bot_os.Ai.Scorer.{
  SignalScorer, predict_confidence, predict_range_confidence, buy_trend, sell_trend, buy_momentum,
  sell_momentum, candle_tree, liquidity_tree, spread_tree, sigmoid, buy_reversal, sell_reversal,
  rejection_tree, calm_tree, buy_range_score, sell_range_score, buy_score, sell_score,
}

-- The other side of the market.
abbrev pub opposite : SignalType → SignalType
opposite SignalType.buy = SignalType.sell
opposite SignalType.sell = SignalType.buy
opposite SignalType.no_signal = SignalType.no_signal

module _ {F : Type 0} ⦃f : Float F⦄ where
  -- The market upside down: what points up points down, and the wicks change places.
  abbrev pub mirrored : FeatureVector F → FeatureVector F
  mirrored fv = record fv {
    ema_delta = f.neg fv.ema_delta;
    rsi_norm = f.neg fv.rsi_norm;
    price_mom_short = f.neg fv.price_mom_short;
    price_mom_medium = f.neg fv.price_mom_medium;
    upper_wick_ratio = fv.lower_wick_ratio;
    lower_wick_ratio = fv.upper_wick_ratio;
    directional_consistency = f.neg fv.directional_consistency;
  }

  module _ (signed : IsSigned F) where
    above-neg : (x y : F) → f.lt x (f.neg y) ≡ f.lt y (f.neg x)
    above-neg x y = ap (λ z. f.lt z (f.neg y)) (sym (signed.neg_neg x)) ∙ signed.lt-neg (f.neg x) y

    below-neg : (x y : F) → f.lt (f.neg x) y ≡ f.lt (f.neg y) x
    below-neg x y = ap (f.lt (f.neg x)) (sym (signed.neg_neg y)) ∙ signed.lt-neg x (f.neg y)

    trend-mirrored :
        (fv : FeatureVector F) (raw : F) → sell_trend (mirrored fv) raw ≡ buy_trend fv raw
    trend-mirrored fv raw =
        rw
          (
            signed.lt-neg fv.ema_delta (dec 20 2),
            signed.lt-neg fv.rsi_norm (dec 5 2),
            signed.lt-neg (dec 60 2) fv.rsi_norm,
            above-neg (dec 5 2) fv.ema_delta,
          )
          refl

    momentum-mirrored :
        (fv : FeatureVector F) (raw : F) → sell_momentum (mirrored fv) raw ≡ buy_momentum fv raw
    momentum-mirrored fv raw =
        rw
          (
            signed.lt-neg fv.price_mom_short (dec 5 2),
            signed.lt-neg fv.directional_consistency (dec 1 1),
            signed.lt-neg fv.price_mom_medium (dec 15 2),
            above-neg (dec 5 2) fv.price_mom_short,
            above-neg (dec 1 1) fv.directional_consistency,
          )
          refl

    reversal-mirrored :
        (fv : FeatureVector F) (raw : F) → sell_reversal (mirrored fv) raw ≡ buy_reversal fv raw
    reversal-mirrored fv raw =
        rw
          (
            above-neg (dec 15 2) fv.rsi_norm,
            above-neg (dec 5 2) fv.rsi_norm,
            signed.lt-neg fv.rsi_norm (dec 15 2),
          )
          refl

    sell_score-mirrored :
        (fv : FeatureVector F) (raw : F) → sell_score (mirrored fv) raw ≡ buy_score fv raw
    sell_score-mirrored fv raw =
        let rest = λ (x : F). spread_tree (dec 3 1) (dec 7 1) fv (
          liquidity_tree fv
            (candle_tree fv.body_ratio fv.lower_wick_ratio fv.upper_wick_ratio x)) in
        ap (λ x. rest (sell_momentum (mirrored fv) x)) (trend-mirrored fv raw)
        ∙ ap rest (momentum-mirrored fv (buy_trend fv raw))

    sell_range_score-mirrored :
        (fv : FeatureVector F) (raw : F)
        → sell_range_score (mirrored fv) raw ≡ buy_range_score fv raw
    sell_range_score-mirrored fv raw =
        let calm = λ (x : F).
          spread_tree (dec 4 1) (dec 8 1) fv
            (calm_tree fv (rejection_tree fv.lower_wick_ratio fv.upper_wick_ratio x)) in
        let last = λ (knife : Bool) (x : F). if knife then calm x -F dec 50 2 else calm x in
        ap (last (f.lt (dec 6 1) (f.neg fv.price_mom_short))) (reversal-mirrored fv raw)
        ∙ ap (λ b. last b (buy_reversal fv raw)) (above-neg (dec 6 1) fv.price_mom_short)

    mirrored-mirrored : (fv : FeatureVector F) → mirrored (mirrored fv) ≡ fv
    mirrored-mirrored fv =
        rw
          (
            signed.neg_neg fv.ema_delta,
            signed.neg_neg fv.rsi_norm,
            signed.neg_neg fv.price_mom_short,
            signed.neg_neg fv.price_mom_medium,
            signed.neg_neg fv.directional_consistency,
          )
          refl

    -- The scores take no side: a signal has both confidences that its opposite has in the market that
    -- is mirrored, with the signs of trend and momentum turned and the wicks exchanged.
    pub predict_confidence-mirrored :
        (ss : SignalScorer F) (type : SignalType) (fv : FeatureVector F)
        → (predict_confidence ss (opposite type) (mirrored fv) ≡ predict_confidence ss type fv)
          × (predict_range_confidence ss (opposite type) (mirrored fv)
              ≡ predict_range_confidence ss type fv)
    unfolding predict_confidence predict_range_confidence
    predict_confidence-mirrored ss SignalType.buy fv = (
      ap sigmoid (sell_score-mirrored fv ss.base_intercept),
      ap sigmoid (sell_range_score-mirrored fv (ss.base_intercept +F dec 10 2)),
    )
    predict_confidence-mirrored ss SignalType.sell fv = (
      ap sigmoid (
          sym (sell_score-mirrored (mirrored fv) ss.base_intercept)
          ∙ ap (λ v. sell_score v ss.base_intercept) (mirrored-mirrored fv)),
      ap sigmoid (
          sym (sell_range_score-mirrored (mirrored fv) (ss.base_intercept +F dec 10 2))
          ∙ ap (λ v. sell_range_score v (ss.base_intercept +F dec 10 2)) (mirrored-mirrored fv)),
    )
    predict_confidence-mirrored ss SignalType.no_signal fv = (refl, refl)
