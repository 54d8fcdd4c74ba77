-- ===== src/Tests/Model.antt =====
-- Runs of the pip values of symbols.
use scalp_bot_os.Base.{◌≡◌, refl, upper, bytes}
use scalp_bot_os.Base.Fixed.{fixed_float}
use scalp_bot_os.Model.Symbol.{normalize_symbol}

-- The suffix of a cent account is taken off, and so is the last letter of EURUSC.
cent_suffix : normalize_symbol (bytes "XAUUSDc") ≡ bytes "XAUUSD"
unfolding normalize_symbol upper
cent_suffix = refl

short_name : normalize_symbol (bytes "EURUSC") ≡ bytes "EURUS"
unfolding normalize_symbol upper
short_name = refl
