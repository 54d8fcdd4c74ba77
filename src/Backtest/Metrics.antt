-- ===== src/Backtest/Metrics.antt =====
-- internal/backtest/metrics.go, `CalculateMetrics`: the report on the trades and the equity curve.
-- The text of the report is left out.
pub mod Counts
use scalp_bot_os.Base.{
  ℕ, zero, suc, ◌+◌, ◌-◌, ◌/◌, ◌==◌, Bool, true, false, ltb, if◌then◌else◌, List, [], ◌∷◌, ◌++◌,
  length, Option, none, some, Text, Float, ◌+F◌, ◌-F◌, ◌*F◌, ◌/F◌, ◌<F◌, ◌>F◌, lit, dec,
}
use scalp_bot_os.Base.Dict.{lookup, insert}
use scalp_bot_os.Model.Types.{OrderSide}

pub record TradeRecord (F : Type 0) : Type 0 where
  pub trade_id : Text
  pub symbol : Text
  pub side : OrderSide
  pub lots : F
  pub entry_price : F
  pub exit_price : F
  pub entry_time_ns : ℕ
  pub exit_time_ns : ℕ
  pub pnl : F
  pub pnl_pips : F
  pub commission : F
  pub reason : Text
  pub is_partial : Bool

pub record EquityPoint (F : Type 0) : Type 0 where
  pub timestamp_ns : ℕ
  pub equity : F
  pub drawdown_pct : F

pub record PerformanceReport (F : Type 0) : Type 0 where
  pub initial_balance : F
  pub final_balance : F
  pub net_profit : F
  pub return_pct : F
  pub total_trades : ℕ
  pub winning_trades : ℕ
  pub losing_trades : ℕ
  pub win_rate : F
  pub loss_rate : F
  pub gross_profit : F
  pub gross_loss : F
  pub profit_factor : F
  pub average_win : F
  pub average_loss : F
  pub payoff_ratio : F
  pub expectancy : F
  pub max_drawdown_usd : F
  pub max_drawdown_pct : F
  pub sharpe_ratio : F
  pub sortino_ratio : F
  pub calmar_ratio : F
  pub avg_trade_duration : ℕ
  pub close_reasons : List (Text × ℕ)
  pub equity_curve : List (EquityPoint F)

-- What the loop over the trades adds up.
pub record Totals (F : Type 0) : Type 0 where
  pub net : F
  pub reasons : List (Text × ℕ)
  pub duration_ns : ℕ
  pub wins : ℕ
  pub won : F
  pub losses : ℕ
  pub lost : F
  pub returns : List F

-- What the loop over the equity curve carries along.
pub record Drawdown (F : Type 0) : Type 0 where
  pub peak : F
  pub usd : F
  pub pct : F

-- A key of the map that is missing counts 0.
abbrev pub tallied : Option ℕ → ℕ
tallied none = 0
tallied (some n) = n

abbrev pub count_at : Text → List (Text × ℕ) → ℕ
count_at key m = tallied (lookup key m)

module _ {F : Type 0} ⦃f : Float F⦄ where
  abbrev pub no_totals : Totals F
  no_totals = record {
    net = lit 0;
    reasons = [];
    duration_ns = 0;
    wins = 0;
    won = lit 0;
    losses = 0;
    lost = lit 0;
    returns = [];
  }

  abbrev pub with_outcome : Totals F → F → Totals F
  with_outcome t pnl =
      if pnl >F lit 0
      then record t { wins = t.wins + 1; won = t.won +F pnl }
      else if pnl <F lit 0
      then record t { losses = t.losses + 1; lost = t.lost +F f.abs pnl }
      else t

  unfoldable pub add_trade : F → Totals F → TradeRecord F → Totals F
  add_trade initial t tr =
      let held =
        if ltb tr.entry_time_ns tr.exit_time_ns then tr.exit_time_ns - tr.entry_time_ns else 0 in
      record (with_outcome t tr.pnl) {
        net = t.net +F tr.pnl;
        reasons = insert tr.reason (count_at tr.reason t.reasons + 1) t.reasons;
        duration_ns = t.duration_ns + held;
        returns = if initial >F lit 0 then t.returns ++ ((tr.pnl /F initial) ∷ []) else t.returns;
      }

  unfoldable pub add_trades : F → Totals F → List (TradeRecord F) → Totals F
  add_trades initial t [] = t
  add_trades initial t (tr ∷ trs) = add_trades initial (add_trade initial t tr) trs

  abbrev pub drawdown_step : Drawdown F → F → Drawdown F
  drawdown_step d equity =
      let peak = if equity >F d.peak then equity else d.peak in
      let usd = peak -F equity in
      let pct = (usd /F peak) *F lit 100 in
      record {
        peak = peak;
        usd = if usd >F d.usd then usd else d.usd;
        pct = if peak >F lit 0 then (if pct >F d.pct then pct else d.pct) else d.pct;
      }

  unfoldable pub drawdown_over : Drawdown F → List (EquityPoint F) → Drawdown F
  drawdown_over d [] = d
  drawdown_over d (p ∷ ps) = drawdown_over (drawdown_step d p.equity) ps

  abbrev pub sum_of : F → List F → F
  sum_of s [] = s
  sum_of s (r ∷ rs) = sum_of (s +F r) rs

  -- The sums of the squared distances from a mean, and of the squares of the losses.
  abbrev pub spread_of : F → F → List F → F
  spread_of mean s [] = s
  spread_of mean s (r ∷ rs) = spread_of mean (s +F ((r -F mean) *F (r -F mean))) rs

  abbrev pub downside_of : F → List F → F
  downside_of s [] = s
  downside_of s (r ∷ rs) = downside_of (if r <F lit 0 then s +F (r *F r) else s) rs

  abbrev pub ratio_over : F → F → F
  ratio_over mean dev = if dev >F lit 0 then (mean /F dev) *F f.sqrt (lit 5000) else lit 0

  -- Sharpe and Sortino, for two returns and more.
  unfoldable pub sharpe_sortino : List F → F × F
  sharpe_sortino returns =
      let n = length returns in
      let mean = sum_of (lit 0) returns /F lit n in
      let std_dev = f.sqrt (spread_of mean (lit 0) returns /F lit (n - 1)) in
      let down_dev = f.sqrt (downside_of (lit 0) returns /F lit n) in
      if ltb 1 n then (ratio_over mean std_dev, ratio_over mean down_dev) else (lit 0, lit 0)

  unfoldable pub empty_report : F → List (EquityPoint F) → PerformanceReport F
  empty_report initial curve = record {
    initial_balance = initial;
    final_balance = initial;
    net_profit = lit 0;
    return_pct = lit 0;
    total_trades = 0;
    winning_trades = 0;
    losing_trades = 0;
    win_rate = lit 0;
    loss_rate = lit 0;
    gross_profit = lit 0;
    gross_loss = lit 0;
    profit_factor = lit 0;
    average_win = lit 0;
    average_loss = lit 0;
    payoff_ratio = lit 0;
    expectancy = lit 0;
    max_drawdown_usd = lit 0;
    max_drawdown_pct = lit 0;
    sharpe_ratio = lit 0;
    sortino_ratio = lit 0;
    calmar_ratio = lit 0;
    avg_trade_duration = 0;
    close_reasons = [];
    equity_curve = curve;
  }

  -- A mean over a count that is not zero, and a quotient by a positive number.
  abbrev pub mean_of : F → ℕ → F
  mean_of sum n = if n == 0 then lit 0 else sum /F lit n

  abbrev pub over_positive : F → F → F
  over_positive x y = if y >F lit 0 then x /F y else lit 0

  abbrev pub profit_factor_of : Totals F → F
  profit_factor_of t =
      if t.lost >F lit 0 then t.won /F t.lost else if t.won >F lit 0 then dec 99999 2 else lit 0

  -- The report on `n` trades with the given totals; there is at least one.
  unfoldable pub report_of : F → ℕ → Totals F → List (EquityPoint F) → PerformanceReport F
  unfolding drawdown_over sharpe_sortino
  report_of initial n t curve =
      let return_pct = if initial >F lit 0 then (t.net /F initial) *F lit 100 else lit 0 in
      let win_rate = (lit t.wins /F lit n) *F lit 100 in
      let loss_rate = (lit t.losses /F lit n) *F lit 100 in
      let average_win = mean_of t.won t.wins in
      let average_loss = mean_of t.lost t.losses in
      let dd = drawdown_over (record { peak = initial; usd = lit 0; pct = lit 0 }) curve in
      let ratios = sharpe_sortino t.returns in
      record {
        initial_balance = initial;
        final_balance = initial +F t.net;
        net_profit = t.net;
        return_pct = return_pct;
        total_trades = n;
        winning_trades = t.wins;
        losing_trades = t.losses;
        win_rate = win_rate;
        loss_rate = loss_rate;
        gross_profit = t.won;
        gross_loss = t.lost;
        profit_factor = profit_factor_of t;
        average_win = average_win;
        average_loss = average_loss;
        payoff_ratio = over_positive average_win average_loss;
        expectancy =
            ((win_rate /F lit 100) *F average_win) -F ((loss_rate /F lit 100) *F average_loss);
        max_drawdown_usd = dd.usd;
        max_drawdown_pct = dd.pct;
        sharpe_ratio = ratios.0;
        sortino_ratio = ratios.1;
        calmar_ratio = over_positive return_pct dd.pct;
        avg_trade_duration = t.duration_ns / n;
        close_reasons = t.reasons;
        equity_curve = curve;
      }

  unfoldable pub calculate_metrics :
      F → List (TradeRecord F) → List (EquityPoint F) → PerformanceReport F
  unfolding add_trades report_of empty_report
  calculate_metrics initial [] curve = empty_report initial curve
  calculate_metrics initial (tr ∷ trs) curve =
      report_of initial (length (tr ∷ trs)) (add_trades initial no_totals (tr ∷ trs)) curve
