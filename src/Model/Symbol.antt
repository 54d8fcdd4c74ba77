-- ===== src/Model/Symbol.antt =====
-- internal/model/tick.go: symbol names, pip multipliers and pip values.
use scalp_bot_os.Base.{
  ◌&&◌, ◌||◌, Bool, ltb, if◌then◌else◌, List, [], ◌∷◌, length, Text, bytes, to_upper, trim_space,
  trim_suffix, has_suffix, contains, Float, ◌*F◌, lit,
}

abbrev known_symbol_suffixes : List Text
known_symbol_suffixes = bytes ".PRO" ∷ bytes ".M" ∷ bytes ".R" ∷ bytes "M" ∷ []

-- The loop over `knownSymbolSuffixes`.
strip_all : List Text → Text → Text
unfolding trim_suffix
strip_all [] s = s
strip_all (p ∷ ps) s = strip_all ps (trim_suffix s p)

strip_cent : Text → Text
unfolding has_suffix trim_suffix
strip_cent s = if has_suffix s (bytes "C") && ltb 4 (length s) then trim_suffix s (bytes "C") else s

unfoldable pub normalize_symbol : Text → Text
unfolding strip_all strip_cent to_upper trim_space
normalize_symbol sym = strip_cent (strip_all known_symbol_suffixes (to_upper (trim_space sym)))

-- The currencies that the three asset tests look for.
abbrev pub has_forex_code : Text → Bool
has_forex_code sym =
    contains sym (bytes "EUR")
    || (contains sym (bytes "GBP")
        || (contains sym (bytes "AUD")
            || (contains sym (bytes "NZD")
                || (contains sym (bytes "CAD") || contains sym (bytes "CHF")))))

abbrev pub has_gold_code : Text → Bool
has_gold_code sym = contains sym (bytes "XAU") || contains sym (bytes "GOLD")

abbrev pub has_index_code : Text → Bool
has_index_code sym =
    contains sym (bytes "BTC") || (contains sym (bytes "US30") || contains sym (bytes "NAS"))

module _ {F : Type 0} ⦃f : Float F⦄ where
  unfoldable pub pip_multiplier : Text → F
  unfolding contains has_suffix to_upper trim_space
  pip_multiplier symbol =
      let sym = to_upper (trim_space symbol) in
      if has_gold_code sym
      then lit 100
      else if has_index_code sym
      then lit 1
      else if has_suffix sym (bytes "JPY")
      then lit 100
      else if has_forex_code sym
      then lit 10000
      else lit 100

  unfoldable pub pip_value : Text → F → F
  unfolding contains to_upper trim_space
  pip_value symbol lots =
      let sym = to_upper (trim_space symbol) in
      if has_forex_code sym then lots *F lit 10 else lots *F lit 1
