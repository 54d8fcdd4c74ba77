-- ===== src/Risk/Manager.antt =====
-- internal/risk/manager.go: the state of the risk manager, its guards and its updates. The clock is
-- an argument: `now` is `time.Now()`. A count that the source configures below one is a zero here.
pub mod Settings
pub mod Calendar
pub mod Evaluate
pub mod Days
pub mod Positions
pub mod Sizing
use scalp_bot_os.Base.{
  ℕ, ◌+◌, ◌-◌, Bool, true, false, not, ◌&&◌, ◌||◌, ltb, leb, ◌==◌, if◌then◌else◌, List, [], ◌∷◌,
  ◌++◌, length, Text, bytes, text_eq, Float, ◌+F◌, ◌*F◌, ◌/F◌, ◌<F◌, ◌>F◌, ◌≤F◌, ◌≥F◌, ◌==F◌, dec,
  lit,
}
use scalp_bot_os.Model.Types.{Tick, Signal}
use scalp_bot_os.Model.Symbol.{normalize_symbol, pip_value}
use scalp_bot_os.Model.Asset.{AccountType, cent, regular}

pub record ManagerConfig (F : Type 0) : Type 0 where
  pub initial_equity : F
  pub risk_per_trade : F
  pub max_daily_drawdown : F
  pub daily_profit_target_pct : F
  pub daily_profit_target_usd : F
  pub max_spread_pips : F
  pub max_open_positions : ℕ
  pub max_positions_per_symbol : ℕ
  pub min_lot_size : F
  pub max_lot_size : F

-- `MarketFilter`: a name, and whether a tick may be traded, with a reason.
pub record MarketFilter (F : Type 0) : Type 0 where
  pub name : Text
  pub allow : Tick F → Bool × Text

pub record Manager (F : Type 0) : Type 0 where
  pub cfg : ManagerConfig F
  pub fixed_lots : F
  pub equity : F
  pub daily_pnl : F
  pub open_positions : ℕ
  -- A name that is not in the map has no position.
  pub symbol_positions : Text → ℕ
  pub circuit_open : Bool
  pub profit_target_reached : Bool
  pub last_reset_day : ℕ
  pub filters : List (MarketFilter F)

-- The sentinel errors, and what is wrapped around them.
pub data RiskError : Type 0 where
  filter_rejected : Text → Text → RiskError
  invalid_signal circuit_is_open daily_profit_target_reached daily_drawdown_hit : RiskError
  max_positions_open symbol_occupied spread_too_wide zero_equity insufficient_atr : RiskError

-- `m[key] = n` on the counts.
abbrev pub put_count : (Text → ℕ) → Text → ℕ → Text → ℕ
put_count m key n k = if text_eq key k then n else m k

-- A limit that is not positive is one.
abbrev pub at_least_one : ℕ → ℕ
at_least_one n = if n == 0 then 1 else n

-- The loop of `SyncPositions`.
unfoldable pub count_symbols : (Text → ℕ) → List Text → Text → ℕ
count_symbols m [] = m
count_symbols m (s ∷ ss) =
    count_symbols (put_count m (normalize_symbol s) (m (normalize_symbol s) + 1)) ss

module _ {F : Type 0} ⦃f : Float F⦄ where
  unfoldable pub default_manager_config : ManagerConfig F
  default_manager_config = record {
    initial_equity = lit 10000;
    risk_per_trade = dec 1 2;
    max_daily_drawdown = dec 5 2;
    daily_profit_target_pct = dec 5 2;
    daily_profit_target_usd = lit 0;
    max_spread_pips = lit 60;
    max_open_positions = 1;
    max_positions_per_symbol = 1;
    min_lot_size = dec 1 2;
    max_lot_size = dec 5 2;
  }

  unfoldable pub new_manager : ManagerConfig F → Manager F
  new_manager cfg = record {
    cfg = record cfg { max_positions_per_symbol = at_least_one cfg.max_positions_per_symbol };
    fixed_lots = lit 0;
    equity = cfg.initial_equity;
    daily_pnl = lit 0;
    open_positions = 0;
    symbol_positions = λ k. 0;
    circuit_open = false;
    profit_target_reached = false;
    last_reset_day = 0;
    filters = [];
  }

  -- `checkDailyResetAt`, given the day of the year of its time.
  unfoldable pub check_daily_reset_at : Manager F → ℕ → Manager F
  check_daily_reset_at m day = if day == m.last_reset_day then m else record m {
    daily_pnl = lit 0;
    circuit_open = false;
    profit_target_reached = false;
    last_reset_day = day;
  }

  abbrev pub drawdown_limit : Manager F → F
  drawdown_limit m = m.cfg.initial_equity *F m.cfg.max_daily_drawdown

  -- The test by which both `Evaluate` and `RecordCloseForSymbol` open the circuit.
  unfoldable pub is_drawdown_hit : Manager F → Bool
  is_drawdown_hit m = (m.daily_pnl <F lit 0) && (f.abs m.daily_pnl ≥F drawdown_limit m)

  unfoldable pub profit_target_amount : Manager F → F
  profit_target_amount m =
      if m.cfg.daily_profit_target_usd >F lit 0
      then m.cfg.daily_profit_target_usd
      else if m.cfg.daily_profit_target_pct >F lit 0
      then m.cfg.initial_equity *F m.cfg.daily_profit_target_pct
      else lit 0

  unfoldable pub is_target_hit : Manager F → Bool
  is_target_hit m = (profit_target_amount m >F lit 0) && (m.daily_pnl ≥F profit_target_amount m)

  unfoldable pub record_fill_for_symbol : Manager F → Text → Manager F
  record_fill_for_symbol m symbol =
      let key = normalize_symbol symbol in
      record m {
        open_positions = m.open_positions + 1;
        symbol_positions = put_count m.symbol_positions key (m.symbol_positions key + 1);
      }

  unfoldable pub record_fill : Manager F → Manager F
  record_fill m = record_fill_for_symbol m (bytes "")

  -- The counts after a close: a symbol that is empty leaves them alone.
  abbrev pub close_count : Manager F → Text → Text → ℕ
  close_count m symbol =
      let key = normalize_symbol symbol in
      if not (text_eq symbol (bytes "")) && ltb 0 (m.symbol_positions key)
      then put_count m.symbol_positions key (m.symbol_positions key - 1)
      else m.symbol_positions

  -- The two breakers, tripped by the profit and loss of the day.
  unfoldable pub trip_breakers : Manager F → Manager F
  unfolding is_drawdown_hit is_target_hit profit_target_amount
  trip_breakers m = record m {
    circuit_open = if is_drawdown_hit m then true else m.circuit_open;
    profit_target_reached = if is_target_hit m then true else m.profit_target_reached;
  }

  unfoldable pub record_close_for_symbol : Manager F → Text → F → Manager F
  unfolding trip_breakers
  record_close_for_symbol m symbol pnl = trip_breakers (record m {
    open_positions = if ltb 0 m.open_positions then m.open_positions - 1 else m.open_positions;
    symbol_positions = close_count m symbol;
    daily_pnl = m.daily_pnl +F pnl;
    equity = m.equity +F pnl;
  })

  unfoldable pub record_close : Manager F → F → Manager F
  record_close m pnl = record_close_for_symbol m (bytes "") pnl

  -- `day` is the local day of the year, where `checkDailyReset` reads the day in UTC.
  unfoldable pub restore_daily_state : Manager F → F → Bool → Bool → ℕ → Manager F
  restore_daily_state m daily_pnl target_reached circuit_open day = record m {
    daily_pnl = daily_pnl;
    profit_target_reached = target_reached;
    circuit_open = circuit_open;
    last_reset_day = day;
  }

  unfoldable pub set_open_positions : Manager F → ℕ → Manager F
  set_open_positions m n = record m {
    open_positions = n;
    symbol_positions = if n == 0 then (λ k. 0) else m.symbol_positions;
  }

  unfoldable pub sync_positions : Manager F → List Text → Manager F
  unfolding count_symbols
  sync_positions m active = record m {
    open_positions = length active;
    symbol_positions = count_symbols (λ k. 0) active;
  }
