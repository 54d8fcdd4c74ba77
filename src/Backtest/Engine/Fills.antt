-- ===== src/Backtest/Engine/Fills.antt =====
-- internal/backtest/engine.go, `Run`: the closes of a tick, and the fill of an order.
use scalp_bot_os.Base.{
  ℕ, suc, Bool, not, ◌&&◌, ◌||◌, if◌then◌else◌, List, [], ◌∷◌, ◌++◌, Option, none, some, Text,
  bytes, to_upper, contains, Float, ◌+F◌, ◌-F◌, ◌*F◌, ◌/F◌, ◌<F◌, ◌>F◌, lit, dec,
}
use scalp_bot_os.Base.Dict.{lookup, insert, delete}
use scalp_bot_os.Model.Types.{OrderSide, OrderRequest, Position, Signal, Tick}
use scalp_bot_os.Model.Symbol.{pip_multiplier, pip_value}
use scalp_bot_os.Risk.Manager.{record_close_for_symbol, record_close, record_fill_for_symbol}
use scalp_bot_os.Executor.Tracker.{CloseEvent, add}
use scalp_bot_os.Executor.Tracker.Stages.{by_side}
use scalp_bot_os.Executor.Telemetry.{reason_text}
use scalp_bot_os.Backtest.Metrics.{TradeRecord}
use scalp_bot_os.Backtest.Engine.{EngineConfig, SimulatedPosition, Simulation, order_id_of}

module _ {F : Type 0} ⦃f : Float F⦄ where
  abbrev pub pip_mult : EngineConfig F → F
  pip_mult cfg = pip_multiplier cfg.symbol

  abbrev pub slip_price : EngineConfig F → F
  slip_price cfg = cfg.slippage_pips /F pip_mult cfg

  -- The trade of a close event.
  abbrev pub trade_of : EngineConfig F → Tick F → SimulatedPosition F → CloseEvent F → TradeRecord F
  trade_of cfg tick sim ce =
      let p = sim.position in
      let exit = by_side p.side (tick.bid -F slip_price cfg) (tick.ask +F slip_price cfg) in
      let pips =
        by_side p.side ((exit -F p.entry_price) *F pip_mult cfg)
          ((p.entry_price -F exit) *F pip_mult cfg) in
      let comm = ce.lots *F cfg.commission_per_lot in
      record {
        trade_id = ce.order_id;
        symbol = cfg.symbol;
        side = p.side;
        lots = ce.lots;
        entry_price = p.entry_price;
        exit_price = exit;
        entry_time_ns = p.open_time_ns;
        exit_time_ns = tick.timestamp_ns;
        pnl = (pips *F pip_value cfg.symbol ce.lots) -F comm;
        pnl_pips = pips;
        commission = comm;
        reason = reason_text ce.reason;
        is_partial = ce.is_partial;
      }

  abbrev pub with_less : SimulatedPosition F → F → SimulatedPosition F
  with_less sim lots = record sim {
    position = record sim.position { lots = sim.position.lots -F lots };
  }

  -- One round of the loop over the close events, for a position that is simulated.
  abbrev pub settle_known :
      EngineConfig F → Tick F → Simulation F → SimulatedPosition F → CloseEvent F → Simulation F
  settle_known cfg tick s sim ce =
      let tr = trade_of cfg tick sim ce in
      record s {
        current_balance = s.current_balance +F tr.pnl;
        risk_mgr =
            if not ce.is_partial
            then record_close_for_symbol s.risk_mgr cfg.symbol tr.pnl
            else record_close s.risk_mgr tr.pnl;
        trades = s.trades ++ (tr ∷ []);
        active_positions =
            if ce.is_partial
            then insert ce.order_id (with_less sim ce.lots) s.active_positions
            else delete ce.order_id s.active_positions;
      }

  abbrev pub settle_found :
      EngineConfig F
      → Tick F
      → Simulation F
      → CloseEvent F
      → Option (SimulatedPosition F)
      → Simulation F
  settle_found cfg tick s ce none = s
  settle_found cfg tick s ce (some sim) = settle_known cfg tick s sim ce

  unfoldable pub settle_all :
      EngineConfig F → Tick F → Simulation F → List (CloseEvent F) → Simulation F
  settle_all cfg tick s [] = s
  settle_all cfg tick s (ce ∷ ces) =
      settle_all cfg tick (settle_found cfg tick s ce (lookup ce.order_id s.active_positions)) ces

  abbrev pub is_gold_symbol : EngineConfig F → Bool
  is_gold_symbol cfg =
      contains (to_upper cfg.symbol) (bytes "XAU") || contains (to_upper cfg.symbol) (bytes "GOLD")

  abbrev pub between : F → F → F → F
  between low high x = if x <F low then low else if x >F high then high else x

  -- The distance of the stop loss, by the structure of the signal.
  abbrev pub stop_distance : EngineConfig F → Signal F → F → F
  stop_distance cfg sig price =
      let dist = f.abs (price -F sig.stop_loss) in
      if is_gold_symbol cfg
      then between (dec 350 2) (dec 650 2) dist
      else between (lit 10 /F pip_mult cfg) (lit 30 /F pip_mult cfg) dist

  abbrev pub least_target : EngineConfig F → F → F
  least_target cfg stop =
      let least = stop *F dec 15 1 in
      if is_gold_symbol cfg && (least <F lit 5) then lit 5 else least

  abbrev pub target_distance : EngineConfig F → Signal F → F → F → F
  target_distance cfg sig price stop =
      let dist = f.abs (sig.take_profit -F price) in
      let least = least_target cfg stop in
      let raised = if dist <F least then least else dist in
      if is_gold_symbol cfg && (raised >F lit 12) then lit 12 else raised

  -- The order with the stops around its fill, for a signal that has both.
  abbrev pub placed : EngineConfig F → Signal F → OrderRequest F → F → OrderRequest F
  placed cfg sig order price =
      let stop = stop_distance cfg sig price in
      let target = target_distance cfg sig price stop in
      if (sig.stop_loss >F lit 0) && (sig.take_profit >F lit 0)
      then record order {
        stop_loss = by_side order.side (price -F stop) (price +F stop);
        take_profit = by_side order.side (price +F target) (price -F target);
      }
      else order

  abbrev pub fill_price : EngineConfig F → Tick F → OrderSide → F
  fill_price cfg tick side = by_side side (tick.ask +F slip_price cfg) (tick.bid -F slip_price cfg)

  abbrev pub filled_position : EngineConfig F → Tick F → OrderRequest F → Text → Position F
  filled_position cfg tick order id = record {
    order_id = id;
    symbol = cfg.symbol;
    side = order.side;
    lots = order.lots;
    entry_price = fill_price cfg tick order.side;
    current_pnl = lit 0;
    open_time_ns = tick.timestamp_ns;
  }

  -- An approved order is filled at once.
  unfoldable pub fill_order :
      EngineConfig F → ℕ → Tick F → Signal F → Simulation F → OrderRequest F → Simulation F
  fill_order cfg clock tick sig s order =
      let id = order_id_of (suc s.order_seq) in
      let pos = filled_position cfg tick order id in
      let stops = placed cfg sig order pos.entry_price in
      record s {
        order_seq = suc s.order_seq;
        active_positions =
            insert id (record { position = pos; commission = order.lots *F cfg.commission_per_lot })
              s.active_positions;
        tracker = add s.tracker pos stops.stop_loss stops.take_profit clock;
        risk_mgr = record_fill_for_symbol s.risk_mgr cfg.symbol;
      }
