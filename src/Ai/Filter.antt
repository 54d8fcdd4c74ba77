-- ===== src/Ai/Filter.antt =====
-- internal/ai/filter.go: the filter that judges a signal by the state of the market and the scorer.
-- `NewSignalFilter` sets the extractor, classifier and scorer, which are never nil; the mutex makes
-- each method one step. The reasons are data in the place of texts.
pub mod Verdict
pub mod Weather
use scalp_bot_os.Base.{
  Bool, true, false, not, ◌&&◌, if◌then◌else◌, Text, bytes, has_prefix, Float, ◌+F◌, ◌-F◌, ◌*F◌,
  ◌/F◌, ◌<F◌, ◌>F◌, lit, dec,
}
use scalp_bot_os.Model.Types.{SignalType, Signal, Tick, Candle, mid_price}
use scalp_bot_os.Ai.Hmm.{GaussianHmm, MarketState, ObservationVector, hmm_update, new_gaussian_hmm}
use scalp_bot_os.Ai.Features.{
  FeatureExtractor, FeatureVector, Inputs, new_feature_extractor, record_price, extract,
}
use scalp_bot_os.Ai.Regime.{MarketRegime, RegimeClassifier, new_regime_classifier, classify_regime}
use scalp_bot_os.Ai.Scorer.{
  SignalScorer, new_signal_scorer, predict_confidence, predict_range_confidence,
}

pub record FilterConfig (F : Type 0) : Type 0 where
  pub enable_ml_filter : Bool
  pub min_confidence : F
  pub range_min_confidence : F
  pub filter_ranging_chop : Bool
  pub dual_mode_enabled : Bool

pub record SignalFilter (F : Type 0) : Type 0 where
  pub cfg : FilterConfig F
  pub extractor : FeatureExtractor F
  pub regime : RegimeClassifier F
  pub scorer : SignalScorer F
  pub hmm_engine : GaussianHmm F
  pub last_regime : MarketRegime
  pub last_confidence : F
  pub last_hmm_state : MarketState
  pub last_hmm_confidence : F
  pub prev_candle_close : F

pub data Reason : Type 0 where
  range_disabled bypassed below_threshold passed : Reason

pub record Judgement (F : Type 0) : Type 0 where
  pub allowed : Bool
  pub confidence : F
  pub regime : MarketRegime
  pub reason : Reason

-- The regime that a state of the model stands for.
abbrev pub regime_of : MarketState → MarketRegime
regime_of MarketState.state_bull = MarketRegime.trending_bullish
regime_of MarketState.state_bear = MarketRegime.trending_bearish
regime_of MarketState.state_noise = MarketRegime.ranging_chop

module _ {F : Type 0} ⦃f : Float F⦄ where
  unfoldable pub default_filter_config : FilterConfig F
  default_filter_config = record {
    enable_ml_filter = true;
    min_confidence = dec 55 2;
    range_min_confidence = dec 50 2;
    filter_ranging_chop = true;
    dual_mode_enabled = false;
  }

  -- `2 * math.Pi`, for the model, comes first.
  unfoldable pub new_signal_filter : F → FilterConfig F → SignalFilter F
  new_signal_filter two_pi cfg = record {
    cfg = cfg;
    extractor = new_feature_extractor;
    regime = new_regime_classifier;
    scorer = new_signal_scorer;
    hmm_engine = new_gaussian_hmm two_pi;
    last_regime = MarketRegime.ranging_chop;
    last_confidence = lit 0;
    last_hmm_state = MarketState.state_noise;
    last_hmm_confidence = dec 70 2;
    prev_candle_close = lit 0;
  }

  unfoldable pub filter_on_tick : SignalFilter F → Tick F → SignalFilter F
  filter_on_tick s tick = record s { extractor = record_price s.extractor (mid_price tick) }

  unfoldable pub filter_update_config : SignalFilter F → FilterConfig F → SignalFilter F
  filter_update_config s cfg = record s { cfg = cfg }

  abbrev pub by_features : SignalFilter F → Tick F → Inputs F → Candle F → MarketRegime × F
  by_features s tick i c =
      if mid_price tick >F lit 0
      then classify_regime s.regime (extract s.extractor tick i c)
      else (s.last_regime, s.last_confidence)

  -- The regime and confidence for telemetry.
  unfoldable pub evaluate_current : SignalFilter F → Tick F → Inputs F → Candle F → MarketRegime × F
  evaluate_current s tick i c = elim s.last_hmm_state [
    | MarketState.state_bull ↦ (MarketRegime.trending_bullish, s.last_hmm_confidence)
    | MarketState.state_bear ↦ (MarketRegime.trending_bearish, s.last_hmm_confidence)
    | MarketState.state_noise ↦ by_features s tick i c
  ]

  abbrev pub log_return_of : F → Candle F → F
  log_return_of prev c =
      if (prev >F lit 0) && (c.closed >F lit 0)
      then f.log (c.closed /F prev)
      else if (c.opened >F lit 0) && (c.closed >F lit 0)
      then f.log (c.closed /F c.opened)
      else lit 0

  abbrev pub unit_clamped : F → F
  unit_clamped x = if x >F lit 1 then lit 1 else if x <F f.neg (lit 1) then f.neg (lit 1) else x

  abbrev pub imbalance_of : Candle F → F
  imbalance_of c =
      let volumes = c.buyer_vol +F c.seller_vol in
      unit_clamped (
        if volumes >F dec 1 9 then (c.buyer_vol -F c.seller_vol) /F (volumes +F dec 1 9) else lit 0)

  abbrev pub observation : SignalFilter F → Candle F → F → ObservationVector F
  observation s c atr = record {
    log_return = log_return_of s.prev_candle_close c;
    rel_atr = if (c.closed >F lit 0) && (atr >F lit 0) then atr /F c.closed else dec 4 4;
    vol_imbalance = imbalance_of c;
  }

  unfoldable pub update_hmm : SignalFilter F → Candle F → F → SignalFilter F × MarketState × F
  update_hmm s c atr =
      let (engine, state, conf) = hmm_update s.hmm_engine (observation s c atr) in
      (
        record s {
          hmm_engine = engine;
          prev_candle_close = c.closed;
          last_hmm_state = state;
          last_hmm_confidence = conf;
          last_confidence = conf;
          last_regime = regime_of state;
        },
        state,
        conf,
      )

  abbrev pub is_range : Signal F → Bool
  is_range sig = has_prefix sig.strategy_id (bytes "range")

  abbrev pub range_hmm_score : MarketState → F → SignalType → F
  range_hmm_score MarketState.state_noise conf type = dec 50 2 +F (dec 35 2 *F conf)
  range_hmm_score MarketState.state_bull conf SignalType.buy = dec 40 2
  range_hmm_score MarketState.state_bull conf SignalType.sell = dec 20 2
  range_hmm_score MarketState.state_bull conf SignalType.no_signal = dec 20 2
  range_hmm_score MarketState.state_bear conf SignalType.sell = dec 40 2
  range_hmm_score MarketState.state_bear conf SignalType.buy = dec 20 2
  range_hmm_score MarketState.state_bear conf SignalType.no_signal = dec 20 2

  -- With the trend, and against it.
  abbrev pub with_trend : F → F
  with_trend conf = dec 50 2 +F (dec 50 2 *F conf)

  abbrev pub against_trend : F → F
  against_trend conf = dec 50 2 -F (dec 50 2 *F conf)

  abbrev pub trend_hmm_score : Bool → MarketState → F → SignalType → F
  trend_hmm_score chop MarketState.state_noise conf type = if chop then dec 40 2 else dec 50 2
  trend_hmm_score chop MarketState.state_bull conf SignalType.buy = with_trend conf
  trend_hmm_score chop MarketState.state_bull conf SignalType.sell = against_trend conf
  trend_hmm_score chop MarketState.state_bull conf SignalType.no_signal = against_trend conf
  trend_hmm_score chop MarketState.state_bear conf SignalType.sell = with_trend conf
  trend_hmm_score chop MarketState.state_bear conf SignalType.buy = against_trend conf
  trend_hmm_score chop MarketState.state_bear conf SignalType.no_signal = against_trend conf

  abbrev pub hmm_score : SignalFilter F → Signal F → F
  hmm_score s sig =
      if is_range sig
      then range_hmm_score s.last_hmm_state s.last_hmm_confidence sig.type
      else trend_hmm_score s.cfg.filter_ranging_chop s.last_hmm_state s.last_hmm_confidence sig.type

  abbrev pub gbdt_score : SignalFilter F → Signal F → FeatureVector F → F
  gbdt_score s sig fv =
      if is_range sig
      then predict_range_confidence s.scorer sig.type fv
      else predict_confidence s.scorer sig.type fv

  abbrev pub composite : SignalFilter F → Signal F → Tick F → Inputs F → Candle F → F
  composite s sig tick i c =
      (dec 50 2 *F hmm_score s sig) +F (dec 50 2 *F gbdt_score s sig (extract s.extractor tick i c))

  abbrev pub required : FilterConfig F → Signal F → F
  required cfg sig =
      if is_range sig && (cfg.range_min_confidence >F lit 0)
      then cfg.range_min_confidence
      else cfg.min_confidence

  abbrev pub judge : Bool → F → MarketRegime → Reason → Judgement F
  judge allowed conf regime reason = record {
    allowed = allowed;
    confidence = conf;
    regime = regime;
    reason = reason;
  }

  unfoldable pub evaluate_signal :
      SignalFilter F → Signal F → Tick F → Inputs F → Candle F → SignalFilter F × Judgement F
  evaluate_signal s sig tick i c =
      let conf = composite s sig tick i c in
      let scored = record s { last_confidence = conf } in
      if not s.cfg.dual_mode_enabled && is_range sig
      then (s, judge false (lit 0) s.last_regime Reason.range_disabled)
      else if not s.cfg.enable_ml_filter
      then (s, judge true (dec 60 2) s.last_regime Reason.bypassed)
      else if conf <F required s.cfg sig
      then (scored, judge false conf s.last_regime Reason.below_threshold)
      else (scored, judge true conf s.last_regime Reason.passed)
