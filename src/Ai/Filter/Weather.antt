-- ===== src/Ai/Filter/Weather.antt =====
-- The regime that the filter remembers, against the last state of the model.
use scalp_bot_os.Base.{
  ◌≡◌, refl, ◌∙◌, ap, not, ◌&&◌, if_intro, List, [], ◌∷◌, ◌⊎◌, inl, inr, Float, ◌<F◌,
}
use scalp_bot_os.Model.Types.{Signal, Tick, Candle}
use scalp_bot_os.Ai.Hmm.{MarketState}
use scalp_bot_os.Ai.Features.{Inputs}
use scalp_bot_os.Ai.Regime.{MarketRegime}
use scalp_bot_os.Ai.Filter.{
  FilterConfig, SignalFilter, Judgement, new_signal_filter, filter_on_tick, filter_update_config,
  update_hmm, evaluate_signal, evaluate_current, regime_of, is_range, composite, required,
}

-- The calls that change a filter.
pub data Call (F : Type 0) : Type 0 where
  see_tick : Tick F → Call F
  see_candle : Candle F → F → Call F
  configure : FilterConfig F → Call F
  ask : Signal F → Tick F → Inputs F → Candle F → Call F

module _ {F : Type 0} ⦃f : Float F⦄ where
  unfoldable pub called : SignalFilter F → Call F → SignalFilter F
  called s (see_tick tick) = filter_on_tick s tick
  called s (see_candle c atr) = (update_hmm s c atr).0
  called s (configure cfg) = filter_update_config s cfg
  called s (ask sig tick i c) = (evaluate_signal s sig tick i c).0

  unfoldable pub call_all : SignalFilter F → List (Call F) → SignalFilter F
  call_all s [] = s
  call_all s (c ∷ cs) = call_all (called s c) cs

  -- The regime is the one of the state.
  record Matches (s : SignalFilter F) : Type 0 where
    regime : s.last_regime ≡ regime_of s.last_hmm_state

  called-Matches : (s : SignalFilter F) (c : Call F) → Matches s → Matches (called s c)
  unfolding called filter_on_tick update_hmm filter_update_config evaluate_signal
  called-Matches s (see_tick tick) h = record { regime = h.regime }
  called-Matches s (see_candle c atr) h = record { regime = refl }
  called-Matches s (configure cfg) h = record { regime = h.regime }
  called-Matches s (ask sig tick i c) h =
      let P = λ (p : SignalFilter F × Judgement F). Matches p.0 in
      if_intro P (not s.cfg.dual_mode_enabled && is_range sig) (λ unheard. h)
        λ heard.
          if_intro P (not s.cfg.enable_ml_filter) (λ off. h)
            λ works.
              if_intro P (composite s sig tick i c <F required s.cfg sig)
                (λ low. record { regime = h.regime }) λ high. record { regime = h.regime }

  call_all-Matches : (cs : List (Call F)) (s : SignalFilter F) → Matches s → Matches (call_all s cs)
  unfolding call_all
  call_all-Matches [] s h = h
  call_all-Matches (c ∷ cs) s h = call_all-Matches cs (called s c) (called-Matches s c h)

  new-Matches : (two_pi : F) (cfg : FilterConfig F) → Matches (new_signal_filter two_pi cfg)
  unfolding new_signal_filter
  new-Matches two_pi cfg = record { regime = refl }

  current-Matches :
      (s : SignalFilter F) (state : MarketState) (tick : Tick F) (i : Inputs F) (c : Candle F)
      → s.last_hmm_state ≡ state
      → Matches s
      → (s.last_hmm_state ≡ MarketState.state_noise)
        ⊎ (evaluate_current s tick i c ≡ (s.last_regime, s.last_hmm_confidence))
  unfolding evaluate_current
  current-Matches s MarketState.state_noise tick i c at h = inl at
  current-Matches s MarketState.state_bull tick i c at h =
      let named : s.last_regime ≡ MarketRegime.trending_bullish = h.regime ∙ ap regime_of at in
      inr (rw (at, named) refl)
  current-Matches s MarketState.state_bear tick i c at h =
      let named : s.last_regime ≡ MarketRegime.trending_bearish = h.regime ∙ ap regime_of at in
      inr (rw (at, named) refl)

  -- After any calls of a new filter the last regime is the one of the last state of the model; unless
  -- that state is noise, it is what the filter reports for telemetry, with the confidence of the state.
  pub call_all_regime :
      (two_pi : F) (cfg : FilterConfig F) (cs : List (Call F)) (tick : Tick F) (i : Inputs F)
      (c : Candle F)
      → let s = call_all (new_signal_filter two_pi cfg) cs in
        (s.last_regime ≡ regime_of s.last_hmm_state)
        × ((s.last_hmm_state ≡ MarketState.state_noise)
            ⊎ (evaluate_current s tick i c ≡ (s.last_regime, s.last_hmm_confidence)))
  call_all_regime two_pi cfg cs tick i c =
      let s = call_all (new_signal_filter two_pi cfg) cs in
      let h = call_all-Matches cs _ (new-Matches two_pi cfg) in
      (h.regime, current-Matches s s.last_hmm_state tick i c refl h)
