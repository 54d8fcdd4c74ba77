-- ===== src/Strategy/Momentum.antt =====
-- internal/strategy/momentum.go: the configuration and state of the momentum scalper, the extremes of
-- the last candles, and the stops around them. A scalper whose periods are not all positive has a
-- nil indicator, and its first candle panics: `new_momentum_scalper` has no value there.
pub mod Crossover
pub mod Candles
pub mod Swings
pub mod Guards
use scalp_bot_os.Base.{
  ℕ, zero, suc, ◌+◌, ◌-◌, ◌%◌, Bool, true, false, ◌&&◌, ltb, leb, ◌==◌, if◌then◌else◌, ◌>>=◌, pos,
  Option, none, some, List, [], ◌∷◌, get_or, replicate, Text, bytes, ◌++◌, Float, ◌+F◌, ◌-F◌, ◌*F◌,
  ◌/F◌, ◌<F◌, ◌>F◌, ◌==F◌, lit, dec,
}
use scalp_bot_os.Model.Types.{Candle}
use scalp_bot_os.Model.Symbol.{pip_multiplier}
use scalp_bot_os.Model.Asset.{detect_asset_class}
use scalp_bot_os.Indicator.Ema.{Ema, new_ema}
use scalp_bot_os.Indicator.Rsi.{Rsi, new_rsi}
use scalp_bot_os.Indicator.Atr.{Atr, new_atr}
use scalp_bot_os.Indicator.Sma.{Sma, new_sma}

pub record MomentumScalperConfig (F : Type 0) : Type 0 where
  pub fast_ema_period : ℕ
  pub slow_ema_period : ℕ
  pub rsi_period : ℕ
  pub atr_period : ℕ
  pub rsi_overbought : F
  pub rsi_oversold : F
  pub atr_minimum : F
  pub min_vol_ratio : F
  pub enable_limit_pullback : Bool
  pub pullback_discount_atr : F
  pub symbol : Text

pub record MomentumScalper (F : Type 0) : Type 0 where
  pub id : Text
  pub cfg : MomentumScalperConfig F
  pub fast : Ema F
  pub slow : Ema F
  pub rsi : Rsi F
  pub atr : Atr F
  pub prev_fast : F
  pub prev_slow : F
  pub has_prev : Bool
  pub fast_history : List F
  pub fast_hist_len : ℕ
  pub fast_hist_idx : ℕ
  pub high_history : List F
  pub low_history : List F
  pub candle_count : ℕ
  pub candle_idx : ℕ
  pub atr_sma : Sma F
  pub last_vol_ratio : F

-- The values of the indicators at a candle.
pub record Readings (F : Type 0) : Type 0 where
  pub fast_val : F
  pub slow_val : F
  pub rsi_val : F
  pub atr_val : F

module _ {F : Type 0} ⦃f : Float F⦄ where
  unfoldable pub default_momentum_config : MomentumScalperConfig F
  default_momentum_config = record {
    fast_ema_period = 5;
    slow_ema_period = 13;
    rsi_period = 14;
    atr_period = 14;
    rsi_overbought = lit 70;
    rsi_oversold = lit 30;
    atr_minimum = dec 50 2;
    min_vol_ratio = dec 60 2;
    enable_limit_pullback = true;
    pullback_discount_atr = dec 30 2;
    symbol = bytes "XAUUSD";
  }

  abbrev pub momentum_with :
      Text → MomentumScalperConfig F → Ema F → Ema F → Rsi F → Atr F → MomentumScalper F
  momentum_with id cfg fast slow rsi atr = record {
    id = id;
    cfg = cfg;
    fast = fast;
    slow = slow;
    rsi = rsi;
    atr = atr;
    prev_fast = lit 0;
    prev_slow = lit 0;
    has_prev = false;
    fast_history = replicate 6 (lit 0);
    fast_hist_len = 0;
    fast_hist_idx = 0;
    high_history = replicate 10 (lit 0);
    low_history = replicate 10 (lit 0);
    candle_count = 0;
    candle_idx = 0;
    atr_sma = new_sma (pos 50);
    last_vol_ratio = lit 1;
  }

  unfoldable pub new_momentum_scalper : Text → MomentumScalperConfig F → Option (MomentumScalper F)
  new_momentum_scalper id cfg = do
    fast ← new_ema cfg.fast_ema_period
    slow ← new_ema cfg.slow_ema_period
    rsi ← new_rsi (pos cfg.rsi_period)
    atr ← new_atr cfg.atr_period
    some (momentum_with id cfg fast slow rsi atr)

  unfoldable pub new_strategy : Text → Option (MomentumScalper F)
  new_strategy symbol =
      new_momentum_scalper (bytes "momentum-" ++ symbol)
        (record default_momentum_config { symbol = symbol })

  -- The loops over the last candles, newest first, with the rounds that are left.
  abbrev pub highest_from : List F → ℕ → ℕ → ℕ → F → F
  highest_from history place i zero best = best
  highest_from history place i (suc left) best =
      let x = get_or history ((place + 10 - (1 + i)) % 10) (lit 0) in
      highest_from history place (i + 1) left (if x >F best then x else best)

  abbrev pub lowest_from : List F → ℕ → ℕ → ℕ → F → F
  lowest_from history place i zero best = best
  lowest_from history place i (suc left) best =
      let x = get_or history ((place + 10 - (1 + i)) % 10) (lit 0) in
      lowest_from history place (i + 1) left (if x <F best then x else best)

  abbrev pub rounds : MomentumScalper F → ℕ → ℕ
  rounds m lookback = if ltb m.candle_count lookback then m.candle_count else lookback

  -- Zero where no candle is held, or none that beats the first bound.
  abbrev pub beaten : F → F → F
  beaten bound best = if best ==F bound then lit 0 else best

  unfoldable pub recent_swing_high : MomentumScalper F → ℕ → F
  recent_swing_high m lookback =
      let bound = f.neg f.max_float64 in
      let best = highest_from m.high_history m.candle_idx 0 (rounds m lookback) bound in
      if m.candle_count == 0 then lit 0 else beaten bound best

  unfoldable pub recent_swing_low : MomentumScalper F → ℕ → F
  recent_swing_low m lookback =
      let bound = f.max_float64 in
      let best = lowest_from m.low_history m.candle_idx 0 (rounds m lookback) bound in
      if m.candle_count == 0 then lit 0 else beaten bound best

  abbrev pub swing_buffer : Text → F
  swing_buffer symbol =
      if (detect_asset_class {F = F} symbol).is_gold
      then dec 50 2
      else dec 50 1 /F pip_multiplier symbol

  abbrev pub min_sl : F → F
  min_sl atr = f.max (atr *F dec 12 1) (dec 350 2)

  abbrev pub max_sl : F → F
  max_sl atr = f.max (atr *F dec 20 1) (dec 650 2)

  -- The distance that is risked, held between the least and the greatest, and whether it is the one
  -- of the structure.
  abbrev pub risk_within : F → F → F
  risk_within atr risk =
      if risk <F min_sl atr then min_sl atr else if risk >F max_sl atr then max_sl atr else risk

  abbrev pub is_within : F → F → Bool
  is_within atr risk =
      if risk <F min_sl atr then false else if risk >F max_sl atr then false else true

  abbrev pub target : F → F
  target risk = f.max (risk *F dec 22 1) (dec 800 2)

  abbrev pub buy_sltp : F → F → F → F × F
  buy_sltp entry atr sl =
      let risk = risk_within atr (entry -F sl) in
      (if is_within atr (entry -F sl) then sl else entry -F risk, entry +F target risk)

  abbrev pub sell_sltp : F → F → F → F × F
  sell_sltp entry atr sl =
      let risk = risk_within atr (sl -F entry) in
      (if is_within atr (sl -F entry) then sl else entry +F risk, entry -F target risk)

  -- The stop loss and the take profit.
  unfoldable pub compute_structure_sltp : Text → F → F → F → Bool → F × F
  compute_structure_sltp symbol entry atr swing is_buy =
      let buffer = swing_buffer symbol in
      if is_buy
      then buy_sltp entry atr
          (if (swing >F lit 0) && (swing <F entry) then swing -F buffer else entry -F min_sl atr)
      else sell_sltp entry atr
          (if (swing >F lit 0) && (swing >F entry) then swing +F buffer else entry +F min_sl atr)

  unfoldable pub compute_momentum_sltp : Text → F → F → Bool → F × F
  compute_momentum_sltp symbol price atr is_buy =
      compute_structure_sltp symbol price atr (lit 0) is_buy

  unfoldable pub compute_strength : F → F → F → F
  compute_strength fast slow rsi =
      let divergence = f.abs (fast -F slow) /F slow in
      let div_score = f.min (divergence *F lit 1000) (dec 5 1) in
      let rsi_score = f.abs (rsi -F lit 50) /F lit 100 in f.min (div_score +F rsi_score) (lit 1)
