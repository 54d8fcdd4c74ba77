-- ===== src/Model/Asset.antt =====
-- internal/model/asset_profile.go: asset classes and account types.
use scalp_bot_os.Base.{
  ℕ, ◌||◌, Bool, true, false, if◌then◌else◌, Text, bytes, text_eq, to_upper, to_lower, trim_space,
  has_suffix, contains, Float, dec, lit,
}
use scalp_bot_os.Model.Symbol.{has_forex_code, has_index_code}

pub data AssetClass : Type 0 where
  forex gold crypto index : AssetClass

-- The display name and the icon are left out.
pub record AssetProfile (F : Type 0) : Type 0 where
  pub class : AssetClass
  pub pip_multiplier : F
  pub min_tp_distance : F
  pub max_tp_distance : F
  pub min_sl_distance : F
  pub max_lots : F
  pub default_lots : F
  pub stagnant_minutes : ℕ
  pub is_gold : Bool
  pub is_forex : Bool
  pub is_crypto_or_index : Bool

module _ {F : Type 0} ⦃f : Float F⦄ where
  unfoldable pub detect_asset_class : Text → AssetProfile F
  unfolding contains has_suffix to_upper to_lower trim_space
  detect_asset_class symbol =
      let sym = to_upper (trim_space symbol) in
      if has_index_code sym
      then record {
        class = AssetClass.crypto;
        pip_multiplier = lit 1;
        min_tp_distance = lit 30;
        max_tp_distance = lit 120;
        min_sl_distance = lit 15;
        max_lots = dec 2 2;
        default_lots = dec 1 2;
        stagnant_minutes = 15;
        is_gold = false;
        is_forex = false;
        is_crypto_or_index = true;
      }
      else if has_forex_code sym || has_suffix sym (bytes "JPY")
      then record {
        class = AssetClass.forex;
        pip_multiplier = lit 10000;
        min_tp_distance = dec 10 4;
        max_tp_distance = dec 35 4;
        min_sl_distance = dec 5 4;
        max_lots = dec 10 2;
        default_lots = dec 1 2;
        stagnant_minutes = 25;
        is_gold = false;
        is_forex = true;
        is_crypto_or_index = false;
      }
      else record {
        class = AssetClass.gold;
        pip_multiplier = lit 100;
        min_tp_distance = lit 6;
        max_tp_distance = lit 25;
        min_sl_distance = lit 3;
        max_lots = if has_suffix (to_lower symbol) (bytes "c") then lit 1 else dec 10 2;
        default_lots = dec 1 2;
        stagnant_minutes = 45;
        is_gold = true;
        is_forex = false;
        is_crypto_or_index = false;
      }

pub data AccountType : Type 0 where
  cent regular : AccountType

-- The balance that the source takes as a third argument is not read there.
unfoldable pub detect_account_type : Text → Text → AccountType
unfolding contains has_suffix to_upper trim_space
detect_account_type symbol currency =
    let sym = to_upper (trim_space symbol) in
    let curr = to_upper (trim_space currency) in
    if text_eq curr (bytes "USC")
      || (text_eq curr (bytes "EUC") || (text_eq curr (bytes "CENT") || text_eq curr (bytes "GBC")))
    then AccountType.cent
    else if has_suffix sym (bytes "C") || contains sym (bytes "CENT")
    then AccountType.cent
    else AccountType.regular
