-- ===== src/News/Blackout.antt =====
-- internal/news/blackout_filter.go: no trading around the events of a symbol's two currencies. The
-- text of the reason is left out.
use scalp_bot_os.Base.{
  ℕ, zero, suc, ◌==◌, ◌≡◌, refl, ap, ◌∙◌, Bool, true, false, not, ◌&&◌, ◌||◌, ltb, if◌then◌else◌,
  List, [], ◌∷◌, length, drop, Option, none, some, Text, bytes, text_eq, text_eq_iff, has_prefix,
  contains, ℤ, pos, Bool-cases, inl, inr, arith,
}
use scalp_bot_os.Model.Types.{Tick}
use scalp_bot_os.News.Calendar.{Calendar, currency_key, is_hit, first_hit, has_upcoming_high_impact}

pub record BlackoutConfig : Type 0 where
  pub enabled : Bool
  pub blackout_before : ℤ
  pub blackout_after : ℤ
  pub filter_all_impact : Bool

abbrev pub default_blackout_config : BlackoutConfig
default_blackout_config = record {
  enabled = true;
  blackout_before = pos 900_000_000_000;
  blackout_after = pos 900_000_000_000;
  filter_all_impact = false;
}

-- `symbol[:n]` for a symbol that is long enough.
abbrev pub first_letters : ℕ → Text → Text
first_letters zero s = []
first_letters (suc n) [] = []
first_letters (suc n) (c ∷ s) = c ∷ first_letters n s

-- The first three letters and the next three, or a short symbol whole.
unfoldable pub split_symbol : Text → Text × Text
split_symbol symbol =
    if ltb (length symbol) 6
    then (symbol, [])
    else (first_letters 3 symbol, first_letters 3 (drop 3 symbol))

-- The pairs that the source lists, with their two codes.
unfoldable pub listed_pairs : List (Text × Text × Text)
listed_pairs =
    (bytes "EURUSD", bytes "EUR", bytes "USD")
    ∷ ((bytes "GBPUSD", bytes "GBP", bytes "USD")
        ∷ ((bytes "USDJPY", bytes "USD", bytes "JPY")
            ∷ ((bytes "USDCHF", bytes "USD", bytes "CHF")
                ∷ ((bytes "AUDUSD", bytes "AUD", bytes "USD")
                    ∷ ((bytes "USDCAD", bytes "USD", bytes "CAD")
                        ∷ ((bytes "NZDUSD", bytes "NZD", bytes "USD")
                            ∷ ((bytes "EURGBP", bytes "EUR", bytes "GBP")
                                ∷ ((bytes "EURJPY", bytes "EUR", bytes "JPY")
                                    ∷ ((bytes "GBPJPY", bytes "GBP", bytes "JPY")
                                        ∷ ((bytes "BTCUSD", bytes "BTC", bytes "USD") ∷ []))))))))))

unfoldable pub first_pair : Text → List (Text × Text × Text) → Text × Text
first_pair symbol [] = split_symbol symbol
first_pair symbol ((prefix, base, quote) ∷ pairs) =
    let rest = first_pair symbol pairs in if has_prefix symbol prefix then (base, quote) else rest

unfoldable pub extract_currencies : Text → Text × Text
extract_currencies symbol =
    if has_prefix symbol (bytes "XAUUSD")
      || (has_prefix symbol (bytes "GOLD") || contains symbol (bytes "XAU"))
    then (bytes "XAU", bytes "USD")
    else first_pair symbol listed_pairs

abbrev pub is_some : {A : Type 0} → Option A → Bool
is_some none = false
is_some (some a) = true

-- One of the two checks of `Allow`.
unfoldable pub has_news : BlackoutConfig → Calendar → Text → ℤ → Bool
has_news cfg events curr now =
    is_some (has_upcoming_high_impact events curr cfg.blackout_before cfg.blackout_after now)

unfoldable pub allow_currencies : BlackoutConfig → Calendar → Text × Text → ℤ → Bool
allow_currencies cfg events (base, quote) now =
    if not (text_eq base []) && has_news cfg events base now
    then false
    else if (not (text_eq quote []) && not (text_eq quote base)) && has_news cfg events quote now
    then false
    else true

-- A filter without a calendar is `none`; `clock` is the time that stands in for a tick without one.
abbrev pub allow_with : BlackoutConfig → Option Calendar → Text → ℤ → Bool
allow_with cfg none symbol now = true
allow_with cfg (some events) symbol now =
    allow_currencies cfg events (extract_currencies symbol) now

unfoldable pub blackout_allow : {F : Type 0} → BlackoutConfig → Option Calendar → Tick F → ℕ → Bool
blackout_allow cfg calendar tick clock =
    if not cfg.enabled
    then true
    else allow_with cfg calendar tick.symbol
        (pos (if tick.timestamp_ns == 0 then clock else tick.timestamp_ns))

-- Some event of high impact for a currency lies in the window.
unfoldable pub any_hit : Text → ℤ → ℤ → ℤ → Calendar → Bool
any_hit curr before after now [] = false
any_hit curr before after now (ev ∷ evs) =
    is_hit curr before after now ev || any_hit curr before after now evs

first_hit-any_hit :
    (curr : Text) (before after now : ℤ) (events : Calendar)
    → is_some (first_hit curr before after now events) ≡ any_hit curr before after now events
unfolding first_hit any_hit
first_hit-any_hit curr before after now [] = refl
first_hit-any_hit curr before after now (ev ∷ evs) =
    elim (Bool-cases (is_hit curr before after now ev)) [
      | inl e ↦ rw e refl
      | inr e ↦ rw e (first_hit-any_hit curr before after now evs)
    ]

two_checks :
    (empty_base empty_quote same base quote : Bool)
    → (same ≡ true → (empty_quote ≡ empty_base) × (quote ≡ base))
    → (if not empty_base && base
        then false
        else if (not empty_quote && not same) && quote
        then false
        else true)
      ≡ not ((not empty_base && base) || (not empty_quote && quote))
two_checks eb eq true base quote h = let (e, n) = h refl in rw (e, n) (ground arith)
two_checks eb eq false base quote h = ground arith

-- A currency has an event in the window.
abbrev pub hits : BlackoutConfig → Calendar → ℤ → Text → Bool
hits cfg events now c =
    not (text_eq c []) && any_hit (currency_key c) cfg.blackout_before cfg.blackout_after now events

has_news-any_hit :
    (cfg : BlackoutConfig) (events : Calendar) (c : Text) (now : ℤ)
    → has_news cfg events c now
      ≡ any_hit (currency_key c) cfg.blackout_before cfg.blackout_after now events
unfolding has_news has_upcoming_high_impact
has_news-any_hit cfg events c now =
    first_hit-any_hit (currency_key c) cfg.blackout_before cfg.blackout_after now events

allow_currencies-hits :
    (cfg : BlackoutConfig) (events : Calendar) (base quote : Text) (now : ℤ)
    → allow_currencies cfg events (base, quote) now
      ≡ not (hits cfg events now base || hits cfg events now quote)
unfolding allow_currencies
allow_currencies-hits cfg events base quote now =
    let quote_news = has_news cfg events quote now in
    two_checks (text_eq base []) (text_eq quote []) (text_eq quote base)
      (has_news cfg events base now) (has_news cfg events quote now)
      (λ same.
        let e = (text_eq_iff quote base).0 same in
        (ap (λ c. text_eq c []) e, ap (λ c. has_news cfg events c now) e))
    ∙ (ap (λ b. not ((not (text_eq base []) && b) || (not (text_eq quote []) && quote_news)))
          (has_news-any_hit cfg events base now)
        ∙ ap (λ b. not (hits cfg events now base || (not (text_eq quote []) && b)))
            (has_news-any_hit cfg events quote now))

-- An enabled filter with a calendar allows a tick just when neither of the symbol's currencies has an
-- event of high impact in the window; a currency without letters has none.
blackout_allow-any_hit :
    {F : Type 0} (cfg : BlackoutConfig) (events : Calendar) (tick : Tick F) (clock : ℕ)
    → cfg.enabled ≡ true
    → let now = pos (if tick.timestamp_ns == 0 then clock else tick.timestamp_ns) in
      let pair = extract_currencies tick.symbol in
      blackout_allow cfg (some events) tick clock
      ≡ not (hits cfg events now pair.0 || hits cfg events now pair.1)
unfolding blackout_allow
blackout_allow-any_hit cfg events tick clock on =
    let now = pos (if tick.timestamp_ns == 0 then clock else tick.timestamp_ns) in
    let pair = extract_currencies tick.symbol in
    ap (λ (b : Bool). if not b then true else allow_currencies cfg events pair now) on
    ∙ allow_currencies-hits cfg events pair.0 pair.1 now
