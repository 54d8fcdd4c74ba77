-- ===== src/Tests/Ai.antt =====
-- Runs of the model, the features, the scorer and the filter.
use scalp_bot_os.Base.{◌≡◌, refl, ◌⊎◌, true, List, [], ◌∷◌, ◌++◌, last_of, replicate, lit, dec}
use scalp_bot_os.Base.Fixed.{Fixed, fixed_float, Fixed-IsSigned}
use scalp_bot_os.Model.Types.{Tick, Candle, SignalType, zero_candle, mid_price}
use scalp_bot_os.Ai.Hmm.{MarketState}
use scalp_bot_os.Ai.Features.{FeatureVector, Inputs, new_feature_extractor, extract}
use scalp_bot_os.Ai.Features.Memory.{record_all}
use scalp_bot_os.Ai.Features.Agreement.{extract-last_of}
use scalp_bot_os.Ai.Regime.{MarketRegime, new_regime_classifier, classify_regime}
use scalp_bot_os.Ai.Scorer.{new_signal_scorer, predict_confidence, predict_range_confidence}
use scalp_bot_os.Ai.Scorer.Mirror.{mirrored, predict_confidence-mirrored}
use scalp_bot_os.Ai.Filter.{
  SignalFilter, default_filter_config, new_signal_filter, evaluate_current, regime_of,
}
use scalp_bot_os.Ai.Filter.Weather.{
  Call, see_tick, see_candle, configure, ask, call_all, call_all_regime,
}
use scalp_bot_os.Tests.Inputs.{tick_at, noon, buy_gold}

abbrev at_noon : Tick Fixed
at_noon = tick_at 2000 noon

abbrev inputs : Inputs Fixed
inputs = record { fast_ema = lit 2001; slow_ema = lit 2000; rsi = lit 55; atr = lit 2; tps = lit 5 }

abbrev up_candle : Candle Fixed
up_candle = record (zero_candle) {
  opened = lit 1996;
  high = lit 2001;
  low = lit 1995;
  closed = lit 2000;
  buyer_vol = lit 9;
  seller_vol = lit 1;
}

abbrev prices : List Fixed
prices = replicate 20 (lit 1990) ++ replicate 20 (lit 1995)

extract-last_of_example :
    extract (record_all new_feature_extractor prices) at_noon inputs up_candle
    ≡ extract (record_all new_feature_extractor (last_of 32 prices)) at_noon inputs up_candle
extract-last_of_example = extract-last_of prices at_noon inputs up_candle

abbrev features : FeatureVector Fixed
features = extract (record_all new_feature_extractor prices) at_noon inputs up_candle

predict_confidence-mirrored_example :
    (predict_confidence (new_signal_scorer) SignalType.sell (mirrored features)
      ≡ predict_confidence new_signal_scorer SignalType.buy features)
    × (predict_range_confidence (new_signal_scorer) SignalType.sell (mirrored features)
        ≡ predict_range_confidence new_signal_scorer SignalType.buy features)
predict_confidence-mirrored_example =
    predict_confidence-mirrored Fixed-IsSigned new_signal_scorer SignalType.buy features

abbrev filter : SignalFilter Fixed
filter = new_signal_filter (dec 6283185 6) default_filter_config

abbrev calls : List (Call Fixed)
calls =
    see_tick at_noon
    ∷ see_candle up_candle (lit 4)
    ∷ ask buy_gold at_noon inputs up_candle
    ∷ configure (record default_filter_config { dual_mode_enabled = true })
    ∷ []

abbrev after_calls : SignalFilter Fixed
after_calls = call_all filter calls

call_all_regime_example :
    (after_calls.last_regime ≡ regime_of after_calls.last_hmm_state)
    × ((after_calls.last_hmm_state ≡ MarketState.state_noise)
        ⊎ (evaluate_current after_calls at_noon inputs up_candle
            ≡ (after_calls.last_regime, after_calls.last_hmm_confidence)))
call_all_regime_example =
    call_all_regime (dec 6283185 6) default_filter_config calls at_noon inputs up_candle

-- Averages that are far apart, with a high relative strength, are a bullish trend.
bullish :
    (classify_regime new_regime_classifier
      (record features { rsi_norm = dec 20 2; vol_ratio = lit 1 })).0
    ≡ MarketRegime.trending_bullish
unfolding classify_regime new_regime_classifier extract record_all mid_price
bullish = refl
