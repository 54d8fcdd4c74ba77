-- ===== src/Model/Pips.antt =====
-- The two places of internal/model that give the pips per price of a symbol.
use scalp_bot_os.Base.{◌≡◌, true, Text, Float, ◌*F◌, lit, arith}
use scalp_bot_os.Model.Symbol.{pip_multiplier, pip_value}
use scalp_bot_os.Model.Asset.{detect_asset_class}

module _ {F : Type 0} ⦃f : Float F⦄ where
  -- `PipMultiplier` gives every symbol with a gold profile the pips per price of its profile, a
  -- hundred, and `PipValue` then makes a pip of a lot worth one.
  pip_multiplier-detect_asset_class :
      (symbol : Text) (lots : F)
      → (detect_asset_class {F = F} symbol).is_gold ≡ true
      → (pip_multiplier symbol ≡ (detect_asset_class {F = F} symbol).pip_multiplier)
        × (pip_multiplier {F = F} symbol ≡ lit 100)
        × (pip_value symbol lots ≡ lots *F lit 1)
  unfolding detect_asset_class pip_multiplier pip_value
  pip_multiplier-detect_asset_class symbol lots h = ground arith
