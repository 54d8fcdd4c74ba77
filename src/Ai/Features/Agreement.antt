-- ===== src/Ai/Features/Agreement.antt =====
-- How far back the extractor looks among the prices.
use Prim.Native.Nat.{min}
use scalp_bot_os.Base.{
  ℕ, zero, suc, ◌+◌, ◌-◌, ◌≤◌, ◌<◌, ◌≡◌, refl, sym, ap, ◌∙◌, leb, ltb, List, [], length, last_of,
  length-drop, if◌then◌else◌, Float, ◌+F◌, ◌-F◌, ◌*F◌, ◌/F◌, ◌≤F◌, ◌≥F◌, ◌>F◌, lit, arith,
}
use scalp_bot_os.Model.Types.{Tick, Candle, mid_price}
use scalp_bot_os.Model.Symbol.{pip_multiplier}
use scalp_bot_os.Ai.Features.Memory.{
  record_all, new-Holds, record_all-Holds, price_back-get_or, newest-last_of,
}
use scalp_bot_os.Ai.Features.{
  FeatureExtractor, Inputs, new_feature_extractor, price_back, price_sum, square_sum,
  price_variance, volatility_feature, momentum_feature, rises, consistency_feature, variance_floor,
  clamped_ratio, features_at, extract, no_features,
}

module _ {F : Type 0} ⦃f : Float F⦄ where
  -- Two extractors that hold as many prices and the same ones.
  record Agrees (fe fe' : FeatureExtractor F) : Type 0 where
    held : fe.history_count ≡ fe'.history_count
    most : fe.history_count ≤ 32
    prices : (n : ℕ) → 0 < n → n ≤ 32 → price_back fe n ≡ price_back fe' n

  record_all-Agrees :
      (ps : List F)
      → Agrees
          (record_all new_feature_extractor ps)
          (record_all new_feature_extractor (last_of 32 ps))
  record_all-Agrees ps =
      let h = record_all-Holds new_feature_extractor ps [] new-Holds in
      let h' = record_all-Holds new_feature_extractor (last_of 32 ps) [] new-Holds in
      let all : (record_all new_feature_extractor ps).history_count ≡ min (length ps) 32 =
        h.counted in
      let last : (record_all new_feature_extractor (last_of 32 ps)).history_count
          ≡ min (length (last_of 32 ps)) 32 =
        h'.counted in
      record {
        held = omega (arith, all, last, length-drop (length ps - 32) ps);
        most = omega (arith, all);
        prices = λ n some_back fits.
            price_back-get_or _ ps n h some_back fits
            ∙ (newest-last_of ps n some_back fits
                ∙ sym (price_back-get_or _ (last_of 32 ps) n h' some_back fits));
      }

  module _ (fe fe' : FeatureExtractor F) (same : Agrees fe fe') where
    price_sum-Agrees :
        (n i left : ℕ) (sum : F)
        → i + left ≤ 32
        → price_sum fe n i left sum ≡ price_sum fe' n i left sum
    price_sum-Agrees n i zero sum fits = refl
    price_sum-Agrees n i (suc left) sum fits =
        ap (λ p. price_sum fe n (i + 1) left (if ltb i n then sum +F p else sum))
          (same.prices (1 + i) (omega arith) (omega (arith, fits)))
        ∙ price_sum-Agrees n (i + 1) left _ (omega (arith, fits))

    square_sum-Agrees :
        (n : ℕ) (mean : F) (i left : ℕ) (sum : F)
        → i + left ≤ 32
        → square_sum fe n mean i left sum ≡ square_sum fe' n mean i left sum
    square_sum-Agrees n mean i zero sum fits = refl
    square_sum-Agrees n mean i (suc left) sum fits =
        ap
          (λ p.
            square_sum fe n mean (i + 1) left
              (if ltb i n then sum +F ((p -F mean) *F (p -F mean)) else sum))
          (same.prices (1 + i) (omega arith) (omega (arith, fits)))
        ∙ square_sum-Agrees n mean (i + 1) left _ (omega (arith, fits))

    price_variance-Agrees : (n : ℕ) → price_variance fe n ≡ price_variance fe' n
    price_variance-Agrees n =
        let held = fe.history_count in
        let fits : held ≤ 32 = same.most in
        ap (λ s. square_sum fe n (s /F lit n) 0 held (lit 0) /F lit n)
          (price_sum-Agrees n 0 held (lit 0) (omega (arith, fits)))
        ∙ (ap (λ s. s /F lit n)
              (square_sum-Agrees n (price_sum fe' n 0 held (lit 0) /F lit n) 0 held (lit 0)
                (omega (arith, fits)))
            ∙ ap (λ m. square_sum fe' n (price_sum fe' n 0 m (lit 0) /F lit n) 0 m (lit 0) /F lit n)
                same.held)

    volatility-Agrees : (atr : F) → volatility_feature fe atr ≡ volatility_feature fe' atr
    volatility-Agrees atr =
        let eps = variance_floor atr in
        let ratio = λ (short long : F). clamped_ratio (f.sqrt ((short +F eps) /F (long +F eps))) in
        ap
          (λ x.
            if leb 16 fe.history_count then ratio x (price_variance fe fe.history_count) else lit 1)
          (price_variance-Agrees 8)
        ∙ (ap (λ x. if leb 16 fe.history_count then ratio (price_variance fe' 8) x else lit 1)
              (price_variance-Agrees fe.history_count)
            ∙ ap
                (λ m.
                  if leb 16 m then ratio (price_variance fe' 8) (price_variance fe' m) else lit 1)
                same.held)

    momentum-Agrees :
        (pip_mult atr mid : F) (n : ℕ)
        → 0 < n
        → n ≤ 32
        → momentum_feature fe pip_mult atr mid n ≡ momentum_feature fe' pip_mult atr mid n
    momentum-Agrees pip_mult atr mid n some_back fits =
        let change = λ (p : F).
          if p >F lit 0
          then (if atr >F lit 0 then (mid -F p) /F atr else (mid -F p) *F pip_mult)
          else lit 0 in
        ap (λ p. if leb n fe.history_count then change p else lit 0) (same.prices n some_back fits)
        ∙ ap (λ m. if leb n m then change (price_back fe' n) else lit 0) same.held

    rises-Agrees :
        (i left count : ℕ) → 0 < i → i + left ≤ 32 → rises fe i left count ≡ rises fe' i left count
    rises-Agrees i zero count later fits = refl
    rises-Agrees i (suc left) count later fits =
        ap (λ p. rises fe (i + 1) left (if p ≥F price_back fe (i + 1) then count + 1 else count))
          (same.prices i later (omega (arith, fits)))
        ∙ (ap (λ p. rises fe (i + 1) left (if price_back fe' i ≥F p then count + 1 else count))
              (same.prices (i + 1) (omega arith) (omega (arith, fits)))
            ∙ rises-Agrees (i + 1) left _ (omega arith) (omega (arith, fits)))

    consistency-Agrees : consistency_feature fe ≡ consistency_feature fe'
    consistency-Agrees =
        ap (λ k. if leb 10 fe.history_count then ((lit k /F lit 9) *F lit 2) -F lit 1 else lit 0)
          (rises-Agrees 1 9 0 (omega arith) (omega arith))
        ∙ ap (λ m. if leb 10 m then ((lit (rises fe' 1 9 0) /F lit 9) *F lit 2) -F lit 1 else lit 0)
            same.held

    extract-Agrees :
        (tick : Tick F) (i : Inputs F) (c : Candle F) → extract fe tick i c ≡ extract fe' tick i c
    unfolding extract
    extract-Agrees tick i c =
        let mid = mid_price tick in
        let pip_mult = pip_multiplier tick.symbol in
        let with_features = λ (a b v d : F).
          if mid ≤F lit 0 then no_features else record (features_at fe tick i c mid) {
            price_mom_short = a;
            price_mom_medium = b;
            vol_ratio = v;
            directional_consistency = d;
          } in
        let short = momentum-Agrees pip_mult i.atr mid 5 (omega arith) (omega arith) in
        let medium = momentum-Agrees pip_mult i.atr mid 20 (omega arith) (omega arith) in
        let near = λ (e : FeatureExtractor F). momentum_feature e pip_mult i.atr mid 5 in
        let far = λ (e : FeatureExtractor F). momentum_feature e pip_mult i.atr mid 20 in
        let ratio = λ (e : FeatureExtractor F). volatility_feature e i.atr in
        ap (λ a. with_features a (far fe) (ratio fe) (consistency_feature fe)) short
        ∙ (ap (λ b. with_features (near fe') b (ratio fe) (consistency_feature fe)) medium
            ∙ (ap (λ v. with_features (near fe') (far fe') v (consistency_feature fe))
                  (volatility-Agrees i.atr)
                ∙ ap (λ d. with_features (near fe') (far fe') (ratio fe') d) consistency-Agrees))

  -- The features of a tick are those that an extractor gives which has seen the 32 newest prices only.
  pub extract-last_of :
      (ps : List F) (tick : Tick F) (i : Inputs F) (c : Candle F)
      → extract (record_all new_feature_extractor ps) tick i c
        ≡ extract (record_all new_feature_extractor (last_of 32 ps)) tick i c
  extract-last_of ps tick i c = extract-Agrees _ _ (record_all-Agrees ps) tick i c
