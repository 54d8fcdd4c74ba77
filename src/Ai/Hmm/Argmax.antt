-- ===== src/Ai/Hmm/Argmax.antt =====
-- The state that the model answers with, among the probabilities of the three.
use scalp_bot_os.Base.{◌≡◌, refl, true, false, Bool-cases, inl, inr, Float, IsOrdered, ◌>F◌, arith}
use scalp_bot_os.Ai.Hmm.{MarketState, Triple, ObservationVector, GaussianHmm, argmax, hmm_update}

module _ {F : Type 0} ⦃f : Float F⦄ where
  abbrev pub probability : Triple F → MarketState → F
  probability a MarketState.state_noise = a.noise
  probability a MarketState.state_bull = a.bull
  probability a MarketState.state_bear = a.bear

  -- The most probable state, and its probability.
  pub record IsMost (a : Triple F) (state : MarketState) (most : F) : Type 0 where
    holds : probability a state ≡ most
    bounds : (s : MarketState) → (probability a s >F most) ≡ false

  all_states :
      (a : Triple F) (most : F)
      → (a.noise >F most) ≡ false
      → (a.bull >F most) ≡ false
      → (a.bear >F most) ≡ false
      → (s : MarketState) → (probability a s >F most) ≡ false
  all_states a most n u e MarketState.state_noise = n
  all_states a most n u e MarketState.state_bull = u
  all_states a most n u e MarketState.state_bear = e

  module _ (o : IsOrdered F) where
    -- What is not above a smaller bound is not above a greater one.
    stays : (x y z : F) → (x >F y) ≡ false → (z >F y) ≡ true → (x >F z) ≡ false
    stays x y z not_above more = elim (Bool-cases (f.lt z x)) [
      | inl above ↦ absurd (ground (arith, not_above, o.lt_trans y z x more above))
      | inr below ↦ below
    ]

    asym : (x y : F) → (x >F y) ≡ true → (y >F x) ≡ false
    asym x y above = elim (Bool-cases (f.lt x y)) [
      | inl below ↦ absurd (ground (arith, o.lt_irrefl x, o.lt_trans x y x below above))
      | inr fine ↦ fine
    ]

    argmax-IsMost : (a : Triple F) → IsMost a (argmax a).0 (argmax a).1
    argmax-IsMost a = elim (Bool-cases (a.bull >F a.noise)) [
      | inl bull ↦ elim (Bool-cases (a.bear >F a.bull)) [
        | inl bear ↦
            rw (bull, bear)
              record {
                holds = refl;
                bounds =
                    all_states a _ (stays a.noise a.bull a.bear (asym a.bull a.noise bull) bear)
                      (asym a.bear a.bull bear) (o.lt_irrefl a.bear);
              }
        | inr less ↦
            rw (bull, less)
              record {
                holds = refl;
                bounds = all_states a _ (asym a.bull a.noise bull) (o.lt_irrefl a.bull) (less);
              }
      ]
      | inr noise ↦ elim (Bool-cases (a.bear >F a.noise)) [
        | inl bear ↦
            rw (noise, bear)
              record {
                holds = refl;
                bounds =
                    all_states a _ (asym a.bear a.noise bear)
                      (stays a.bull a.noise a.bear noise bear) (o.lt_irrefl a.bear);
              }
        | inr less ↦
            rw (noise, less)
              record { holds = refl; bounds = all_states a _ (o.lt_irrefl a.noise) (noise) (less) }
      ]
    ]

    -- An update answers with a state and its posterior probability, which no state exceeds.
    pub hmm_update-IsMost :
        (h : GaussianHmm F) (obs : ObservationVector F)
        → let (h', state, most) = hmm_update h obs in IsMost h'.alpha state most
    unfolding hmm_update
    hmm_update-IsMost h obs = argmax-IsMost (hmm_update h obs).0.alpha
