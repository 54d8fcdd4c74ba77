-- ===== src/Strategy/Range.antt =====
-- internal/strategy/range_scalper.go: the mean-reversion strategy. `clock` is the reading of the
-- clock, which the source takes for a candle without a time. A scalper whose periods of the
-- relative strength and the range are not positive panics on its first candle: it has no value here.
pub mod Signals
use scalp_bot_os.Base.{
  ℕ, ◌==◌, Bool, true, false, not, ◌&&◌, ◌||◌, if◌then◌else◌, ◌>>=◌, ℤ, pos, Option, none, some,
  Text, bytes, Float, ◌+F◌, ◌-F◌, ◌*F◌, ◌≤F◌, ◌<F◌, ◌>F◌, ◌≥F◌, lit, dec,
}
use scalp_bot_os.Model.Types.{SignalType, Signal, Candle}
use scalp_bot_os.Indicator.Bollinger.{Bollinger, BollingerResult, new_bollinger, bollinger_update}
use scalp_bot_os.Indicator.Rsi.{Rsi, new_rsi, rsi_update, rsi_value}
use scalp_bot_os.Indicator.Atr.{Atr, new_atr}
use scalp_bot_os.Indicator.Atr as Atr
use scalp_bot_os.Strategy.{silent}

pub record RangeScalperConfig (F : Type 0) : Type 0 where
  pub bollinger_period : ℤ
  pub bollinger_std_dev : F
  pub rsi_period : ℕ
  pub atr_period : ℕ
  pub rsi_overbought : F
  pub rsi_oversold : F
  pub bandwidth_max : F
  pub min_tp_points : F
  pub symbol : Text

pub record RangeScalper (F : Type 0) : Type 0 where
  pub id : Text
  pub cfg : RangeScalperConfig F
  pub bb : Bollinger F
  pub rsi : Rsi F
  pub atr : Atr F
  pub last_signal_type : SignalType
  pub last_signal_time : ℕ

abbrev pub is_no_signal : SignalType → Bool
is_no_signal SignalType.no_signal = true
is_no_signal SignalType.buy = false
is_no_signal SignalType.sell = false

module _ {F : Type 0} ⦃f : Float F⦄ where
  unfoldable pub default_range_config : RangeScalperConfig F
  default_range_config = record {
    bollinger_period = pos 20;
    bollinger_std_dev = dec 18 1;
    rsi_period = 14;
    atr_period = 14;
    rsi_overbought = lit 54;
    rsi_oversold = lit 46;
    bandwidth_max = dec 50 4;
    min_tp_points = dec 150 2;
    symbol = bytes "XAUUSD";
  }

  unfoldable pub new_range_scalper : Text → RangeScalperConfig F → Option (RangeScalper F)
  new_range_scalper id cfg = do
    rsi ← new_rsi (pos cfg.rsi_period)
    atr ← new_atr cfg.atr_period
    some record {
      id = id;
      cfg = cfg;
      bb = new_bollinger cfg.bollinger_period cfg.bollinger_std_dev;
      rsi = rsi;
      atr = atr;
      last_signal_type = SignalType.no_signal;
      last_signal_time = 0;
    }

  -- The state with the indicators after a candle.
  abbrev pub advanced : RangeScalper F → Candle F → RangeScalper F
  advanced r c = record r {
    bb = (bollinger_update r.bb c.closed).0;
    rsi = (rsi_update r.rsi c.closed).0;
    atr = (Atr.update r.atr c).1;
  }

  abbrev pub bands_at : RangeScalper F → Candle F → BollingerResult F
  bands_at r c = (bollinger_update r.bb c.closed).1

  abbrev pub rsi_at : RangeScalper F → Candle F → F
  rsi_at r c = (rsi_update r.rsi c.closed).1

  abbrev pub atr_at : RangeScalper F → Candle F → F
  atr_at r c = (Atr.update r.atr c).0

  abbrev pub is_warm : RangeScalper F → Candle F → Bool
  is_warm r c = (bands_at r c).valid && ((advanced r c).rsi.ready && (advanced r c).atr.ready)

  abbrev pub is_wide : RangeScalper F → Candle F → Bool
  is_wide r c = (r.cfg.bandwidth_max >F lit 0) && ((bands_at r c).bandwidth >F r.cfg.bandwidth_max)

  abbrev pub candle_time : ℕ → Candle F → ℕ
  candle_time clock c = if c.timestamp_ns == 0 then clock else c.timestamp_ns

  abbrev pub has_fired : RangeScalper F → ℕ → Bool
  has_fired r now = (r.last_signal_time == now) && not (is_no_signal r.last_signal_type)

  abbrev pub threshold : F → F → F
  threshold given otherwise = if given ≤F lit 0 then otherwise else given

  abbrev pub is_oversold : RangeScalper F → Candle F → Bool
  is_oversold r c =
      ((c.low ≤F (bands_at r c).lower_band) || ((bands_at r c).percent_b ≤F dec 15 2))
      && (rsi_at r c ≤F threshold r.cfg.rsi_oversold (lit 38))

  abbrev pub is_overbought : RangeScalper F → Candle F → Bool
  is_overbought r c =
      ((c.high ≥F (bands_at r c).upper_band) || ((bands_at r c).percent_b ≥F dec 85 2))
      && (rsi_at r c ≥F threshold r.cfg.rsi_overbought (lit 62))

  -- The least and the greatest distance of the take profit, whatever the symbol.
  unfoldable pub get_symbol_min_max_tp : Text → F → F × F
  get_symbol_min_max_tp symbol atr =
      (f.max (atr *F dec 8 1) (dec 150 2), f.max (atr *F lit 3) (dec 800 2))

  abbrev pub sl_dist : RangeScalper F → F → F
  sl_dist r atr = f.max (atr *F dec 8 1) ((get_symbol_min_max_tp r.cfg.symbol atr).0 *F dec 5 1)

  abbrev pub tp_dist : RangeScalper F → F → F
  tp_dist r atr =
      let (min_tp, max_tp) = get_symbol_min_max_tp r.cfg.symbol atr in
      let dist = f.max (sl_dist r atr *F dec 18 1) min_tp in if dist >F max_tp then max_tp else dist

  -- The strength for a distance of the relative strength from its middle.
  abbrev pub reversion_strength : F → F
  reversion_strength away =
      let strength = dec 55 2 +F (away *F dec 1 2) in
      if strength >F dec 90 2 then dec 90 2 else strength

  abbrev pub reversion : RangeScalper F → Candle F → ℕ → SignalType → F → F → F → Signal F
  reversion r c now type sl tp strength = record {
    type = type;
    symbol = r.cfg.symbol;
    price = c.closed;
    strength = strength;
    stop_loss = sl;
    take_profit = tp;
    timestamp_ns = now;
    strategy_id = r.id;
  }

  abbrev pub buy_signal : RangeScalper F → Candle F → ℕ → Signal F
  buy_signal r c now =
      reversion r c now SignalType.buy (c.closed -F sl_dist r (atr_at r c))
        (c.closed +F tp_dist r (atr_at r c)) (reversion_strength (lit 50 -F rsi_at r c))

  abbrev pub sell_signal : RangeScalper F → Candle F → ℕ → Signal F
  sell_signal r c now =
      reversion r c now SignalType.sell (c.closed +F sl_dist r (atr_at r c))
        (c.closed -F tp_dist r (atr_at r c)) (reversion_strength (rsi_at r c -F lit 50))

  abbrev pub fired : RangeScalper F → SignalType → ℕ → RangeScalper F
  fired r type now = record r { last_signal_type = type; last_signal_time = now }

  -- What follows the guards: a reversion from the lower band, or from the upper one.
  abbrev pub revert : RangeScalper F → Candle F → ℕ → RangeScalper F × Signal F
  revert r c now =
      if is_oversold r c
      then (fired (advanced r c) SignalType.buy now, buy_signal r c now)
      else if is_overbought r c
      then (fired (advanced r c) SignalType.sell now, sell_signal r c now)
      else (advanced r c, silent)

  unfoldable pub range_on_candle : ℕ → RangeScalper F → Candle F → RangeScalper F × Signal F
  range_on_candle clock r c =
      if not (is_warm r c)
      then (advanced r c, silent)
      else if is_wide r c
      then (advanced r c, silent)
      else if has_fired r (candle_time clock c)
      then (advanced r c, silent)
      else revert r c (candle_time clock c)

  -- Upper, middle and lower band, relative strength and range, and whether they are known.
  unfoldable pub get_indicators : RangeScalper F → F × F × F × F × F × Bool
  get_indicators r =
      let res = r.bb.last_result in
      if not r.rsi.ready || not r.atr.ready then (lit 0, lit 0, lit 0, lit 0, lit 0, false) else (
        res.upper_band,
        res.middle,
        res.lower_band,
        rsi_value r.rsi,
        Atr.value_of r.atr,
        res.valid,
      )
