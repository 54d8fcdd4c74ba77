-- ===== src/Portfolio/Sizing.antt =====
-- internal/portfolio/sizing.go: lots whose loss at the stop is a fixed share of the equity.
use scalp_bot_os.Base.{◌||◌, if◌then◌else◌, Text, Float, ◌*F◌, ◌/F◌, ◌<F◌, ◌≤F◌, dec, lit}
use scalp_bot_os.Model.Symbol.{pip_multiplier, pip_value}

pub record SizerConfig (F : Type 0) : Type 0 where
  pub risk_per_trade : F
  pub min_lot_size : F
  pub max_lot_size : F
  pub lot_step : F
  pub sl_atr_mult : F

module _ {F : Type 0} ⦃f : Float F⦄ where
  abbrev pub default_sizer_config : SizerConfig F
  default_sizer_config = record {
    risk_per_trade = dec 1 2;
    min_lot_size = dec 1 2;
    max_lot_size = lit 2;
    lot_step = dec 1 2;
    sl_atr_mult = dec 15 1;
  }

  -- The settings of a new sizer.
  unfoldable pub completed_config : SizerConfig F → SizerConfig F
  completed_config cfg = record cfg {
    min_lot_size = if cfg.min_lot_size ≤F lit 0 then dec 1 2 else cfg.min_lot_size;
    max_lot_size = if cfg.max_lot_size ≤F lit 0 then lit 1 else cfg.max_lot_size;
    lot_step = if cfg.lot_step ≤F lit 0 then dec 1 2 else cfg.lot_step;
    sl_atr_mult = if cfg.sl_atr_mult ≤F lit 0 then dec 15 1 else cfg.sl_atr_mult;
  }

  -- The distance of the stop in pips, at least five where it is too short.
  unfoldable pub sl_pips : SizerConfig F → Text → F → F
  sl_pips cfg symbol atr_value =
      let pips = (atr_value *F cfg.sl_atr_mult) *F pip_multiplier symbol in
      if pips ≤F dec 1 1 then lit 5 else pips

  unfoldable pub pip_value_of_lot : Text → F
  pip_value_of_lot symbol = let v = pip_value symbol (lit 1) in if v ≤F lit 0 then lit 10 else v

  unfoldable pub stepped_lots : SizerConfig F → F → F
  stepped_lots cfg raw_lots =
      let clamped = f.max cfg.min_lot_size (f.min cfg.max_lot_size raw_lots) in
      let rounded = f.floor (clamped /F cfg.lot_step) *F cfg.lot_step in
      let lots = if rounded <F cfg.min_lot_size then cfg.min_lot_size else rounded in
      f.round (lots *F lit 100) /F lit 100

  unfoldable pub volatility_lot_size : SizerConfig F → Text → F → F → F
  volatility_lot_size cfg symbol equity atr_value =
      if (equity ≤F lit 0) || (atr_value ≤F lit 0)
      then cfg.min_lot_size
      else stepped_lots cfg (
          (equity *F cfg.risk_per_trade)
          /F (sl_pips cfg symbol atr_value *F pip_value_of_lot symbol))
