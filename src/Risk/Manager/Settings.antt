-- ===== src/Risk/Manager/Settings.antt =====
-- internal/risk/manager.go: the settings that change while the manager runs, and `RiskInvariant`.
use scalp_bot_os.Base.{
  ℕ, Bool, true, false, ◌||◌, ltb, if◌then◌else◌, [], ◌∷◌, ◌++◌, Float, ◌>F◌, ◌≤F◌, ◌==F◌, dec, lit,
}
use scalp_bot_os.Model.Types.{Signal}
use scalp_bot_os.Model.Asset.{AccountType}
use scalp_bot_os.Risk.Manager.{Manager, MarketFilter}

module _ {F : Type 0} ⦃f : Float F⦄ where
  unfoldable pub add_filter : Manager F → MarketFilter F → Manager F
  add_filter m filter = record m { filters = m.filters ++ (filter ∷ []) }

  unfoldable pub set_profit_target : Manager F → F → F → Manager F
  set_profit_target m pct usd = record m {
    cfg = record (m.cfg) { daily_profit_target_pct = pct; daily_profit_target_usd = usd };
  }

  unfoldable pub update_equity : Manager F → F → Manager F
  update_equity m equity = record m { equity = if equity >F lit 0 then equity else m.equity }

  unfoldable pub set_max_open_positions : Manager F → ℕ → Manager F
  set_max_open_positions m max = record m {
    cfg = record (m.cfg) {
      max_open_positions = if ltb 0 max then max else m.cfg.max_open_positions;
    };
  }

  unfoldable pub set_max_lot_size : Manager F → F → Manager F
  set_max_lot_size m max = record m {
    cfg = record (m.cfg) { max_lot_size = if max >F lit 0 then max else m.cfg.max_lot_size };
  }

  unfoldable pub set_fixed_lot_size : Manager F → F → Manager F
  set_fixed_lot_size m lot =
      if lot >F lit 0
      then record m {
        fixed_lots = lot;
        cfg = record (m.cfg) {
          min_lot_size = lot;
          max_lot_size = if lot >F m.cfg.max_lot_size then lot else m.cfg.max_lot_size;
        };
      }
      else record m { fixed_lots = lot }

  abbrev regular_cap : Manager F → F
  regular_cap m =
      if m.fixed_lots ≤F lit 0
      then (if m.cfg.max_lot_size >F dec 5 2
          then dec 5 2
          else if m.cfg.max_lot_size ≤F lit 0
          then dec 5 2
          else m.cfg.max_lot_size)
      else m.cfg.max_lot_size

  unfoldable pub apply_account_profile : Manager F → AccountType → Manager F
  apply_account_profile m AccountType.cent = record m {
    cfg = record (m.cfg) {
      max_spread_pips = lit 60;
      max_lot_size = if m.fixed_lots ≤F lit 0 then dec 1 2 else m.cfg.max_lot_size;
      max_open_positions = 1;
      max_positions_per_symbol = 1;
    };
  }
  apply_account_profile m AccountType.regular = record m {
    cfg = record (m.cfg) {
      max_spread_pips = lit 35;
      max_lot_size = regular_cap m;
      max_open_positions = 2;
      max_positions_per_symbol = 1;
    };
  }

  -- `nil` is `true`; both refusals wrap `ErrInvalidSignal`.
  unfoldable pub risk_invariant : Signal F → Bool
  risk_invariant s =
      if (s.stop_loss ==F lit 0) || (s.take_profit ==F lit 0)
      then false
      else if s.strength >F dec 1 2
      then false
      else true
