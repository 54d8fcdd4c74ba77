-- ===== src/Ai/Features.antt =====
-- internal/ai/features.go: the twelve features of a tick, with the ring of the last mid prices. The
-- vector is a record with a field in the place of each index.
pub mod Memory
pub mod Agreement
use scalp_bot_os.Base.{
  ℕ, zero, suc, ◌+◌, ◌-◌, ◌%◌, Bool, true, false, ◌&&◌, ltb, leb, if◌then◌else◌, List, [], ◌∷◌,
  get_or, set, replicate, Float, ◌+F◌, ◌-F◌, ◌*F◌, ◌/F◌, ◌<F◌, ◌≤F◌, ◌>F◌, ◌≥F◌, lit, dec,
}
use scalp_bot_os.Model.Types.{Tick, Candle, mid_price}
use scalp_bot_os.Model.Symbol.{pip_multiplier}

pub record FeatureVector (F : Type 0) : Type 0 where
  pub ema_delta : F
  pub rsi_norm : F
  pub atr_norm : F
  pub spread_ratio : F
  pub tick_velocity : F
  pub price_mom_short : F
  pub price_mom_medium : F
  pub vol_ratio : F
  pub body_ratio : F
  pub upper_wick_ratio : F
  pub lower_wick_ratio : F
  pub directional_consistency : F

pub record FeatureExtractor (F : Type 0) : Type 0 where
  pub history_price : List F
  pub history_head : ℕ
  pub history_count : ℕ

-- The indicator values that come with a tick.
pub record Inputs (F : Type 0) : Type 0 where
  pub fast_ema : F
  pub slow_ema : F
  pub rsi : F
  pub atr : F
  pub tps : F

module _ {F : Type 0} ⦃f : Float F⦄ where
  unfoldable pub new_feature_extractor : FeatureExtractor F
  new_feature_extractor = record {
    history_price = replicate 32 (lit 0);
    history_head = 0;
    history_count = 0;
  }

  unfoldable pub record_price : FeatureExtractor F → F → FeatureExtractor F
  record_price fe price = record {
    history_price = set fe.history_price fe.history_head price;
    history_head = (fe.history_head + 1) % 32;
    history_count = if ltb fe.history_count 32 then fe.history_count + 1 else fe.history_count;
  }

  abbrev pub no_features : FeatureVector F
  no_features = record {
    ema_delta = lit 0;
    rsi_norm = lit 0;
    atr_norm = lit 0;
    spread_ratio = lit 0;
    tick_velocity = lit 0;
    price_mom_short = lit 0;
    price_mom_medium = lit 0;
    vol_ratio = lit 0;
    body_ratio = lit 0;
    upper_wick_ratio = lit 0;
    lower_wick_ratio = lit 0;
    directional_consistency = lit 0;
  }

  abbrev pub price_back : FeatureExtractor F → ℕ → F
  price_back fe n = get_or fe.history_price ((fe.history_head + 32 - n) % 32) (lit 0)

  abbrev pub ema_feature : F → Inputs F → F
  ema_feature pip_mult i =
      if (i.fast_ema >F lit 0) && ((i.slow_ema >F lit 0) && (i.atr >F lit 0))
      then (i.fast_ema -F i.slow_ema) /F i.atr
      else if (i.fast_ema >F lit 0) && (i.slow_ema >F lit 0)
      then (i.fast_ema -F i.slow_ema) *F pip_mult
      else lit 0

  -- The price change since the `n`-th last price, once that many are held.
  abbrev pub momentum_feature : FeatureExtractor F → F → F → F → ℕ → F
  momentum_feature fe pip_mult atr mid n =
      let p = price_back fe n in
      if leb n fe.history_count
      then (if p >F lit 0
          then (if atr >F lit 0 then (mid -F p) /F atr else (mid -F p) *F pip_mult)
          else lit 0)
      else lit 0

  -- The loops over the held prices, newest first, with the rounds that are left: the sum of the
  -- rounds below `n`, and that of the squared distances from a mean.
  abbrev pub price_sum : FeatureExtractor F → ℕ → ℕ → ℕ → F → F
  price_sum fe n i zero sum = sum
  price_sum fe n i (suc left) sum =
      let p = price_back fe (1 + i) in
      price_sum fe n (i + 1) left (if ltb i n then sum +F p else sum)

  abbrev pub square_sum : FeatureExtractor F → ℕ → F → ℕ → ℕ → F → F
  square_sum fe n mean i zero sum = sum
  square_sum fe n mean i (suc left) sum =
      let diff = price_back fe (1 + i) -F mean in
      square_sum fe n mean (i + 1) left (if ltb i n then sum +F (diff *F diff) else sum)

  -- The variance of the `n` newest prices, in loops over all that are held.
  abbrev pub price_variance : FeatureExtractor F → ℕ → F
  price_variance fe n =
      let held = fe.history_count in
      square_sum fe n (price_sum fe n 0 held (lit 0) /F lit n) 0 held (lit 0) /F lit n

  abbrev pub variance_floor : F → F
  variance_floor atr = if atr >F lit 0 then (dec 2 2 *F atr) *F (dec 2 2 *F atr) else dec 1 6

  abbrev pub clamped_ratio : F → F
  clamped_ratio ratio =
      if ratio >F dec 40 1 then dec 40 1 else if ratio <F dec 25 2 then dec 25 2 else ratio

  abbrev pub volatility_feature : FeatureExtractor F → F → F
  volatility_feature fe atr =
      let eps = variance_floor atr in
      let short = price_variance fe 8 in
      let long = price_variance fe fe.history_count in
      if leb 16 fe.history_count
      then clamped_ratio (f.sqrt ((short +F eps) /F (long +F eps)))
      else lit 1

  -- How many of the last nine steps, from the `i`-th on, did not go down.
  abbrev pub rises : FeatureExtractor F → ℕ → ℕ → ℕ → ℕ
  rises fe i zero count = count
  rises fe i (suc left) count =
      let up = price_back fe i ≥F price_back fe (i + 1) in
      rises fe (i + 1) left (if up then count + 1 else count)

  abbrev pub consistency_feature : FeatureExtractor F → F
  consistency_feature fe =
      let share = lit (rises fe 1 9 0) /F lit 9 in
      if leb 10 fe.history_count then (share *F lit 2) -F lit 1 else lit 0

  -- A share of the range of the candle, or a default where it has none.
  abbrev pub candle_share : Candle F → F → F → F
  candle_share c part default =
      if (c.high -F c.low) >F dec 1 6 then part /F (c.high -F c.low) else default

  abbrev pub features_at : FeatureExtractor F → Tick F → Inputs F → Candle F → F → FeatureVector F
  features_at fe tick i c mid =
      let pip_mult = pip_multiplier tick.symbol in
      record {
        ema_delta = ema_feature pip_mult i;
        rsi_norm = if i.rsi >F lit 0 then (i.rsi -F lit 50) /F lit 50 else lit 0;
        atr_norm = if i.atr >F lit 0 then i.atr *F pip_mult else lit 0;
        spread_ratio = if i.atr >F lit 0 then (tick.ask -F tick.bid) /F i.atr else dec 5 1;
        tick_velocity = i.tps /F lit 10;
        price_mom_short = momentum_feature fe pip_mult i.atr mid 5;
        price_mom_medium = momentum_feature fe pip_mult i.atr mid 20;
        vol_ratio = volatility_feature fe i.atr;
        body_ratio = candle_share c (f.abs (c.closed -F c.opened)) (dec 5 1);
        upper_wick_ratio = candle_share c (c.high -F f.max c.opened c.closed) (dec 25 2);
        lower_wick_ratio = candle_share c (f.min c.opened c.closed -F c.low) (dec 25 2);
        directional_consistency = consistency_feature fe;
      }

  unfoldable pub extract : FeatureExtractor F → Tick F → Inputs F → Candle F → FeatureVector F
  extract fe tick i c =
      let mid = mid_price tick in if mid ≤F lit 0 then no_features else features_at fe tick i c mid
