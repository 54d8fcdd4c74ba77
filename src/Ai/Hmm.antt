-- ===== src/Ai/Hmm.antt =====
-- internal/ai/hmm/gaussian_hmm.go: the hidden Markov model of three states. The three posterior
-- probabilities, and the parameters of each state, are records in the place of arrays; the
-- parameters do not change after `NewGaussianHMM`.
pub mod Argmax
use scalp_bot_os.Base.{
  Bool, true, false, not, ◌&&◌, if◌then◌else◌, Text, bytes, Float, ◌+F◌, ◌-F◌, ◌*F◌, ◌/F◌, ◌<F◌,
  ◌>F◌, lit, dec, is_nan,
}

pub data MarketState : Type 0 where
  state_noise state_bull state_bear : MarketState

unfoldable pub market_state_string : MarketState → Text
market_state_string MarketState.state_bull = bytes "BULL_EXPANSION"
market_state_string MarketState.state_bear = bytes "BEAR_EXPANSION"
market_state_string MarketState.state_noise = bytes "NOISE_IDLE"

pub record ObservationVector (F : Type 0) : Type 0 where
  pub log_return : F
  pub rel_atr : F
  pub vol_imbalance : F

-- A number for each state.
pub record Triple (F : Type 0) : Type 0 where
  pub noise : F
  pub bull : F
  pub bear : F

-- Means, inverse double variances and the logarithm of the normalization of a state.
pub record Emission (F : Type 0) : Type 0 where
  pub means : ObservationVector F
  pub inv2_var : ObservationVector F
  pub log_norm : F

pub record GaussianHmm (F : Type 0) : Type 0 where
  pub alpha : Triple F
  pub from_noise : Triple F
  pub from_bull : Triple F
  pub from_bear : Triple F
  pub noise_emission : Emission F
  pub bull_emission : Emission F
  pub bear_emission : Emission F

module _ {F : Type 0} ⦃f : Float F⦄ where
  abbrev pub neutral : Triple F
  neutral = record { noise = dec 34 2; bull = dec 33 2; bear = dec 33 2 }

  -- `logSqrt2Pi` for the given double of pi, and a term of the logarithm of the normalization.
  abbrev pub log_norm_term : F → F → F → F
  log_norm_term two_pi total v = total +F (f.neg (dec 5 1 *F f.log two_pi) -F (dec 5 1 *F f.log v))

  abbrev pub inverse : F → F
  inverse v = lit 1 /F (lit 2 *F v)

  abbrev pub emission : F → ObservationVector F → ObservationVector F → Emission F
  emission two_pi means variances = record {
    means = means;
    inv2_var = record {
      log_return = inverse variances.log_return;
      rel_atr = inverse variances.rel_atr;
      vol_imbalance = inverse variances.vol_imbalance;
    };
    log_norm =
        log_norm_term two_pi
          (log_norm_term two_pi (log_norm_term two_pi (lit 0) variances.log_return)
            variances.rel_atr)
          variances.vol_imbalance;
  }

  -- `2 * math.Pi` is an argument.
  unfoldable pub new_gaussian_hmm : F → GaussianHmm F
  new_gaussian_hmm two_pi = record {
    alpha = neutral;
    from_noise = record { noise = dec 60 2; bull = dec 20 2; bear = dec 20 2 };
    from_bull = record { noise = dec 25 2; bull = dec 70 2; bear = dec 5 2 };
    from_bear = record { noise = dec 25 2; bull = dec 5 2; bear = dec 70 2 };
    noise_emission =
        emission two_pi (record { log_return = lit 0; rel_atr = dec 5 4; vol_imbalance = lit 0 })
          (record { log_return = dec 2025 10; rel_atr = dec 64 8; vol_imbalance = dec 5625 4 });
    bull_emission =
        emission two_pi
          (record { log_return = dec 8 4; rel_atr = dec 10 4; vol_imbalance = dec 25 2 })
          (record { log_return = dec 81 8; rel_atr = dec 64 8; vol_imbalance = dec 1225 4 });
    bear_emission =
        emission two_pi
          (record {
            log_return = f.neg (dec 8 4);
            rel_atr = dec 10 4;
            vol_imbalance = f.neg (dec 25 2);
          })
          (record { log_return = dec 81 8; rel_atr = dec 64 8; vol_imbalance = dec 1225 4 });
  }

  abbrev pub at_least : F → F → F
  at_least bound x = if x <F bound then bound else x

  -- The logarithm of the emission, not below -100.
  abbrev pub log_emission : Emission F → ObservationVector F → F
  log_emission e obs =
      let d0 = obs.log_return -F e.means.log_return in
      let d1 = obs.rel_atr -F e.means.rel_atr in
      let d2 = obs.vol_imbalance -F e.means.vol_imbalance in
      at_least (f.neg (lit 100)) (
        e.log_norm
        -F ((((d0 *F d0) *F e.inv2_var.log_return) +F ((d1 *F d1) *F e.inv2_var.rel_atr))
            +F ((d2 *F d2) *F e.inv2_var.vol_imbalance)))

  abbrev pub log_emissions : GaussianHmm F → ObservationVector F → Triple F
  log_emissions h obs = record {
    noise = log_emission h.noise_emission obs;
    bull = log_emission h.bull_emission obs;
    bear = log_emission h.bear_emission obs;
  }

  abbrev pub greater : F → F → F
  greater most x = if x >F most then x else most

  -- The emissions against the greatest one, not below their floor.
  abbrev pub emissions : Triple F → Triple F
  emissions e =
      let most = greater (greater e.noise e.bull) e.bear in
      record {
        noise = at_least (dec 1 12) (f.exp (e.noise -F most));
        bull = at_least (dec 1 12) (f.exp (e.bull -F most));
        bear = at_least (dec 1 12) (f.exp (e.bear -F most));
      }

  abbrev pub forward_sum : Triple F → F → F → F → F
  forward_sum a noise bull bear = ((a.noise *F noise) +F (a.bull *F bull)) +F (a.bear *F bear)

  -- The forward step, before it is normalized.
  abbrev pub forward : GaussianHmm F → Triple F → Triple F
  forward h e = record {
    noise = e.noise *F forward_sum h.alpha h.from_noise.noise h.from_bull.noise h.from_bear.noise;
    bull = e.bull *F forward_sum h.alpha h.from_noise.bull h.from_bull.bull h.from_bear.bull;
    bear = e.bear *F forward_sum h.alpha h.from_noise.bear h.from_bull.bear h.from_bear.bear;
  }

  abbrev pub total : Triple F → F
  total n = (n.noise +F n.bull) +F n.bear

  -- A sum that is not a positive number resets the probabilities.
  abbrev pub normalized : Triple F → Triple F
  normalized n =
      let inv = lit 1 /F total n in
      if (total n >F lit 0) && (not (is_nan (total n)) && not (f.is_inf (total n)))
      then record { noise = n.noise *F inv; bull = n.bull *F inv; bear = n.bear *F inv }
      else neutral

  abbrev pub first_most : Triple F → MarketState × F
  first_most a =
      if a.bull >F a.noise
      then (MarketState.state_bull, a.bull)
      else (MarketState.state_noise, a.noise)

  -- A later state wins only with a greater probability.
  abbrev pub argmax : Triple F → MarketState × F
  argmax a =
      let first = first_most a in
      if a.bear >F first.1 then (MarketState.state_bear, a.bear) else first

  unfoldable pub hmm_update : GaussianHmm F → ObservationVector F → GaussianHmm F × MarketState × F
  hmm_update h obs =
      let alpha = normalized (forward h (emissions (log_emissions h obs))) in
      (record h { alpha = alpha }, (argmax alpha).0, (argmax alpha).1)

  unfoldable pub posterior : GaussianHmm F → F × F × F
  posterior h = (h.alpha.noise, h.alpha.bull, h.alpha.bear)

  unfoldable pub hmm_reset : GaussianHmm F → GaussianHmm F
  hmm_reset h = record h { alpha = neutral }
