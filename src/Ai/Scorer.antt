-- ===== src/Ai/Scorer.antt =====
-- internal/ai/scorer.go: the scores of a signal, the sum of five small decision trees each, and their
-- logistic probability. Each tree is a function that changes the score so far; the trees on
-- volatility and spread, which a buy and a sell share, stand once.
pub mod Mirror
use scalp_bot_os.Base.{
  ◌&&◌, ◌||◌, if◌then◌else◌, Float, ◌+F◌, ◌-F◌, ◌/F◌, ◌<F◌, ◌≤F◌, ◌>F◌, ◌≥F◌, lit, dec,
}
use scalp_bot_os.Model.Types.{SignalType}
use scalp_bot_os.Ai.Features.{FeatureVector}

pub record SignalScorer (F : Type 0) : Type 0 where
  pub base_intercept : F

module _ {F : Type 0} ⦃f : Float F⦄ where
  unfoldable pub new_signal_scorer : SignalScorer F
  new_signal_scorer = record { base_intercept = lit 0 }

  abbrev pub sigmoid : F → F
  sigmoid raw = lit 1 /F (lit 1 +F f.exp (f.neg raw))

  -- Trend alignment.
  abbrev pub buy_trend : FeatureVector F → F → F
  buy_trend fv raw =
      if fv.ema_delta >F dec 20 2
      then (if (fv.rsi_norm >F dec 5 2) && (fv.rsi_norm <F dec 60 2)
          then raw +F dec 60 2
          else raw +F dec 30 2)
      else if fv.ema_delta <F f.neg (dec 5 2)
      then raw -F dec 80 2
      else raw

  abbrev pub sell_trend : FeatureVector F → F → F
  sell_trend fv raw =
      if fv.ema_delta <F f.neg (dec 20 2)
      then (if (fv.rsi_norm <F f.neg (dec 5 2)) && (fv.rsi_norm >F f.neg (dec 60 2))
          then raw +F dec 60 2
          else raw +F dec 30 2)
      else if fv.ema_delta >F dec 5 2
      then raw -F dec 80 2
      else raw

  -- Momentum and directional consistency.
  abbrev pub buy_momentum : FeatureVector F → F → F
  buy_momentum fv raw =
      if (fv.price_mom_short >F dec 5 2) && (fv.directional_consistency >F dec 1 1)
      then (if fv.price_mom_medium >F dec 15 2 then raw +F dec 50 2 else raw +F dec 30 2)
      else if (fv.price_mom_short <F f.neg (dec 5 2))
          || (fv.directional_consistency <F f.neg (dec 1 1))
      then raw -F dec 60 2
      else raw

  abbrev pub sell_momentum : FeatureVector F → F → F
  sell_momentum fv raw =
      if (fv.price_mom_short <F f.neg (dec 5 2)) && (fv.directional_consistency <F f.neg (dec 1 1))
      then (if fv.price_mom_medium <F f.neg (dec 15 2) then raw +F dec 50 2 else raw +F dec 30 2)
      else if (fv.price_mom_short >F dec 5 2) || (fv.directional_consistency >F dec 1 1)
      then raw -F dec 60 2
      else raw

  -- The candle: a body, the wick behind the signal, and the wick before it.
  abbrev pub candle_tree : F → F → F → F → F
  candle_tree body behind ahead raw =
      let first = if (body >F dec 50 2) && (ahead <F dec 25 2) then raw +F dec 35 2 else raw in
      let second = if behind ≥F dec 20 2 then first +F dec 30 2 else first in
      if ahead >F dec 40 2 then second -F dec 45 2 else second

  abbrev pub liquidity_tree : FeatureVector F → F → F
  liquidity_tree fv raw =
      if (fv.vol_ratio ≥F dec 7 1) && ((fv.vol_ratio ≤F dec 18 1) && (fv.tick_velocity ≥F dec 2 1))
      then raw +F dec 20 2
      else if fv.vol_ratio >F dec 20 1
      then raw -F dec 40 2
      else raw

  abbrev pub spread_tree : F → F → FeatureVector F → F → F
  spread_tree narrow wide fv raw =
      if fv.spread_ratio <F narrow
      then raw +F dec 20 2
      else if fv.spread_ratio >F wide
      then raw -F dec 50 2
      else raw

  abbrev pub buy_score : FeatureVector F → F → F
  buy_score fv raw = spread_tree (dec 3 1) (dec 7 1) fv (
      liquidity_tree fv (
        candle_tree fv.body_ratio fv.lower_wick_ratio fv.upper_wick_ratio
          (buy_momentum fv (buy_trend fv raw))))

  abbrev pub sell_score : FeatureVector F → F → F
  sell_score fv raw = spread_tree (dec 3 1) (dec 7 1) fv (
      liquidity_tree fv (
        candle_tree fv.body_ratio fv.upper_wick_ratio fv.lower_wick_ratio
          (sell_momentum fv (sell_trend fv raw))))

  unfoldable pub predict_confidence : SignalScorer F → SignalType → FeatureVector F → F
  predict_confidence ss SignalType.buy fv = sigmoid (buy_score fv ss.base_intercept)
  predict_confidence ss SignalType.sell fv = sigmoid (sell_score fv ss.base_intercept)
  predict_confidence ss SignalType.no_signal fv = lit 0

  -- The reversal of the relative strength.
  abbrev pub buy_reversal : FeatureVector F → F → F
  buy_reversal fv raw =
      if fv.rsi_norm <F f.neg (dec 15 2)
      then raw +F dec 65 2
      else if fv.rsi_norm <F f.neg (dec 5 2)
      then raw +F dec 35 2
      else if fv.rsi_norm >F dec 15 2
      then raw -F dec 60 2
      else raw

  abbrev pub sell_reversal : FeatureVector F → F → F
  sell_reversal fv raw =
      if fv.rsi_norm >F dec 15 2
      then raw +F dec 65 2
      else if fv.rsi_norm >F dec 5 2
      then raw +F dec 35 2
      else if fv.rsi_norm <F f.neg (dec 15 2)
      then raw -F dec 60 2
      else raw

  abbrev pub rejection_tree : F → F → F → F
  rejection_tree behind ahead raw =
      let first = if behind >F dec 30 2 then raw +F dec 45 2 else raw in
      if ahead >F dec 40 2 then first -F dec 30 2 else first

  abbrev pub calm_tree : FeatureVector F → F → F
  calm_tree fv raw =
      if (fv.vol_ratio <F dec 14 1) && (fv.tick_velocity ≤F lit 25)
      then raw +F dec 35 2
      else if fv.vol_ratio >F dec 20 1
      then raw -F dec 70 2
      else raw

  abbrev pub buy_range_score : FeatureVector F → F → F
  buy_range_score fv raw =
      let calm = spread_tree (dec 4 1) (dec 8 1) fv (
        calm_tree fv
          (rejection_tree fv.lower_wick_ratio fv.upper_wick_ratio (buy_reversal fv raw))) in
      if fv.price_mom_short <F f.neg (dec 6 1) then calm -F dec 50 2 else calm

  abbrev pub sell_range_score : FeatureVector F → F → F
  sell_range_score fv raw =
      let calm = spread_tree (dec 4 1) (dec 8 1) fv (
        calm_tree fv
          (rejection_tree fv.upper_wick_ratio fv.lower_wick_ratio (sell_reversal fv raw))) in
      if fv.price_mom_short >F dec 6 1 then calm -F dec 50 2 else calm

  unfoldable pub predict_range_confidence : SignalScorer F → SignalType → FeatureVector F → F
  predict_range_confidence ss SignalType.buy fv =
      sigmoid (buy_range_score fv (ss.base_intercept +F dec 10 2))
  predict_range_confidence ss SignalType.sell fv =
      sigmoid (sell_range_score fv (ss.base_intercept +F dec 10 2))
  predict_range_confidence ss SignalType.no_signal fv = lit 0
