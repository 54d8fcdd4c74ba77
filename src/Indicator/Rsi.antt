-- ===== src/Indicator/Rsi.antt =====
-- internal/indicator/rsi.go: Wilder's relative strength index.
use scalp_bot_os.Base.{
  ℕ, zero, suc, ◌==◌, Bool, true, false, ltb, if◌then◌else◌, ℤ, pos, negsuc, Option, none, some,
  Float, ◌+F◌, ◌-F◌, ◌*F◌, ◌/F◌, ◌>F◌, ◌==F◌, lit, nan,
}

pub record Rsi (F : Type 0) : Type 0 where
  pub period : ℕ
  pub avg_gain : F
  pub avg_loss : F
  pub prev : F
  pub count : ℕ
  pub ready : Bool
  pub gain_sum : F
  pub loss_sum : F

module _ {F : Type 0} ⦃f : Float F⦄ where
  abbrev pub fresh_rsi : ℕ → Rsi F
  fresh_rsi period = record {
    period = period;
    avg_gain = lit 0;
    avg_loss = lit 0;
    prev = lit 0;
    count = 0;
    ready = false;
    gain_sum = lit 0;
    loss_sum = lit 0;
  }

  -- `nil` for a period below one.
  unfoldable pub new_rsi : ℤ → Option (Rsi F)
  new_rsi (pos zero) = none
  new_rsi (pos (suc n)) = some (fresh_rsi (suc n))
  new_rsi (negsuc n) = none

  unfoldable pub compute_rsi : Rsi F → F
  compute_rsi r =
      if r.avg_loss ==F lit 0
      then (if r.avg_gain ==F lit 0 then lit 50 else lit 100)
      else lit 100 -F (lit 100 /F (lit 1 +F (r.avg_gain /F r.avg_loss)))

  abbrev pub warm_up : Rsi F → F → F → Rsi F
  warm_up r gain loss = record r { gain_sum = r.gain_sum +F gain; loss_sum = r.loss_sum +F loss }

  -- The end of the warm-up.
  abbrev pub warmed : Rsi F → Rsi F
  warmed r = record r {
    avg_gain = r.gain_sum /F lit r.period;
    avg_loss = r.loss_sum /F lit r.period;
    ready = true;
  }

  abbrev pub smoothed : Rsi F → F → F → Rsi F
  smoothed r gain loss =
      let pf = lit r.period in
      record r {
        avg_gain = ((r.avg_gain *F (pf -F lit 1)) +F gain) /F pf;
        avg_loss = ((r.avg_loss *F (pf -F lit 1)) +F loss) /F pf;
      }

  -- The update after the first, for a gain and a loss.
  unfoldable pub rsi_change : Rsi F → F → F → Rsi F × F
  rsi_change r gain loss =
      if r.ready
      then (smoothed r gain loss, compute_rsi (smoothed r gain loss))
      else if ltb r.period r.count
      then (warmed (warm_up r gain loss), compute_rsi (warmed (warm_up r gain loss)))
      else (warm_up r gain loss, nan)

  unfoldable pub rsi_update : Rsi F → F → Rsi F × F
  rsi_update r value =
      let next = record r { count = suc r.count; prev = value } in
      let change = value -F r.prev in
      if suc r.count == 1
      then (next, nan)
      else if change >F lit 0
      then rsi_change next change (lit 0)
      else rsi_change next (lit 0) (f.neg change)

  unfoldable pub rsi_value : Rsi F → F
  rsi_value r = if r.ready then compute_rsi r else nan

  unfoldable pub rsi_reset : Rsi F → Rsi F
  rsi_reset r = fresh_rsi r.period
