-- ===== src/Indicator/Atr.antt =====
-- internal/indicator/atr.go: the average true range of a stream of candles, by Wilder's smoothing.
pub mod Smoothing
use scalp_bot_os.Base.{
  ℕ, zero, suc, ◌+◌, ◌<◌, ◌≡◌, refl, sym, ap, ◌∙◌, subst, Bool, true, false, ◌==◌, leb,
  if◌then◌else◌, List, [], ◌∷◌, ◌++◌, length, Option, none, some, Float, ◌+F◌, ◌-F◌, ◌*F◌, ◌/F◌,
  ◌>F◌, lit, nan, arith,
}
use scalp_bot_os.Model.Types.{Candle}

pub record Atr (F : Type 0) : Type 0 where
  pub period : ℕ
  pub current : F
  pub prev_close : F
  pub count : ℕ
  pub ready : Bool
  pub tr_sum : F

module _ {F : Type 0} ⦃f : Float F⦄ where
  abbrev pub fresh_atr : ℕ → Atr F
  fresh_atr period = record {
    period = period;
    current = lit 0;
    prev_close = lit 0;
    count = 0;
    ready = false;
    tr_sum = lit 0;
  }

  -- `nil` for a period below one, which is a zero here.
  unfoldable pub new_atr : ℕ → Option (Atr F)
  new_atr zero = none
  new_atr (suc n) = some (fresh_atr (suc n))

  unfoldable pub true_range : F → F → F → F
  true_range high low prev_close =
      let hpc = f.abs (high -F prev_close) in
      let lpc = f.abs (low -F prev_close) in
      let tr = if hpc >F (high -F low) then hpc else high -F low in if lpc >F tr then lpc else tr

  abbrev pub range_of : F → Candle F → F
  range_of prev_close c = true_range c.high c.low prev_close

  -- One step of Wilder's smoothing.
  abbrev pub wilder : ℕ → F → F → F
  wilder period c tr = (c *F (lit period -F lit 1) +F tr) /F lit period

  -- The first candle, which has no close before it.
  abbrev pub first_candle : Atr F → Candle F → F × Atr F
  first_candle a c =
      let tr = c.high -F c.low in
      if a.period == 1
      then (
        tr,
        record a {
          count = a.count + 1;
          tr_sum = tr;
          prev_close = c.closed;
          current = tr;
          ready = true;
        },
      )
      else (nan, record a { count = a.count + 1; tr_sum = tr; prev_close = c.closed })

  abbrev pub later_candle : Atr F → Candle F → F × Atr F
  later_candle a c =
      let n = a.count + 1 in
      let tr = range_of a.prev_close c in
      if a.ready
      then (
        wilder a.period a.current tr,
        record a { count = n; prev_close = c.closed; current = wilder a.period a.current tr },
      )
      else (let s = a.tr_sum +F tr in
          if leb a.period n
          then (
            s /F lit a.period,
            record a {
              count = n;
              prev_close = c.closed;
              tr_sum = s;
              current = s /F lit a.period;
              ready = true;
            },
          )
          else (nan, record a { count = n; prev_close = c.closed; tr_sum = s }))

  -- `Update`: the value that it returns, and the average after it.
  unfoldable pub update : Atr F → Candle F → F × Atr F
  update a c = if (a.count + 1) == 1 then first_candle a c else later_candle a c

  unfoldable pub value_of : Atr F → F
  value_of a = if a.ready then a.current else nan

  unfoldable pub reset_atr : Atr F → Atr F
  reset_atr a = record a {
    current = lit 0;
    prev_close = lit 0;
    count = 0;
    ready = false;
    tr_sum = lit 0;
  }
