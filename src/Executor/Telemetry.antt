-- ===== src/Executor/Telemetry.antt =====
-- internal/executor/telemetry.go: the quality of executions. The mutex is left out: every operation
-- runs under it.
pub mod Tally
use scalp_bot_os.Base.{
  ℕ, suc, ◌+◌, Bool, true, false, ◌&&◌, ltb, if◌then◌else◌, List, [], ◌∷◌, ◌++◌, length, drop,
  Option, none, some, Text, bytes, Float, ◌+F◌, ◌-F◌, ◌*F◌, ◌/F◌, ◌>F◌, lit,
}
use scalp_bot_os.Base.Dict.{lookup, insert}
use scalp_bot_os.Model.Types.{OrderRequest, OrderSide, Position}
use scalp_bot_os.Model.Symbol.{pip_multiplier}
use scalp_bot_os.Executor.Tracker.{CloseReason, CloseEvent}

pub record ExecutionRecord (F : Type 0) : Type 0 where
  pub order_id : Text
  pub symbol : Text
  pub side : OrderSide
  pub lots : F
  pub requested_price : F
  pub fill_price : F
  pub slippage_pips : F
  pub latency : ℕ
  pub timestamp_ns : ℕ

-- Latencies are in nanoseconds.
pub record TelemetryTracker (F : Type 0) : Type 0 where
  pub records : List (ExecutionRecord F)
  pub total_filled : ℕ
  pub total_rejected : ℕ
  pub total_partial_closes : ℕ
  pub total_full_closes : ℕ
  pub total_slippage_pips : F
  pub max_slippage_pips : F
  pub total_latency_ns : ℕ
  pub close_reasons : List (Text × ℕ)

pub record TelemetrySnapshot (F : Type 0) : Type 0 where
  pub total_filled : ℕ
  pub total_rejected : ℕ
  pub total_partial_closes : ℕ
  pub total_full_closes : ℕ
  pub average_slippage : F
  pub max_slippage : F
  pub average_latency_ms : F
  pub close_reasons : List (Text × ℕ)

-- The strings of the close events.
unfoldable pub reason_text : CloseReason → Text
reason_text CloseReason.sl_hit = bytes "SL_HIT"
reason_text CloseReason.tp_hit = bytes "TP_HIT"
reason_text CloseReason.tp2_hit = bytes "TP2_HIT"
reason_text CloseReason.partial_tp1_hit = bytes "PARTIAL_TP1_HIT"
reason_text CloseReason.time_stop_hit = bytes "TIME_STOP_HIT"

-- A key of the map that is missing counts 0.
abbrev pub counted : Option ℕ → ℕ
counted none = 0
counted (some n) = n

module _ {F : Type 0} where
  -- The records after another one, of which 1,024 are kept.
  unfoldable pub keep_record :
      List (ExecutionRecord F) → ExecutionRecord F → List (ExecutionRecord F)
  keep_record records rec =
      if ltb (length records) 1024 then records ++ (rec ∷ []) else drop 1 records ++ (rec ∷ [])

  unfoldable pub record_rejection : TelemetryTracker F → TelemetryTracker F
  record_rejection t = record t { total_rejected = suc t.total_rejected }

  unfoldable pub telemetry_close : TelemetryTracker F → CloseEvent F → TelemetryTracker F
  telemetry_close t ce =
      let key = reason_text ce.reason in
      record t {
        total_partial_closes =
            if ce.is_partial then suc t.total_partial_closes else t.total_partial_closes;
        total_full_closes = if ce.is_partial then t.total_full_closes else suc t.total_full_closes;
        close_reasons = insert key (suc (counted (lookup key t.close_reasons))) t.close_reasons;
      }

module _ {F : Type 0} ⦃f : Float F⦄ where
  unfoldable pub new_telemetry_tracker : TelemetryTracker F
  new_telemetry_tracker = record {
    records = [];
    total_filled = 0;
    total_rejected = 0;
    total_partial_closes = 0;
    total_full_closes = 0;
    total_slippage_pips = lit 0;
    max_slippage_pips = lit 0;
    total_latency_ns = 0;
    close_reasons = [];
  }

  abbrev pub side_slippage : OrderSide → F → F → F
  side_slippage OrderSide.side_buy price fill = fill -F price
  side_slippage OrderSide.side_sell price fill = price -F fill

  unfoldable pub slippage : OrderRequest F → Position F → F
  slippage order fill_pos =
      if (order.price >F lit 0) && (fill_pos.entry_price >F lit 0)
      then side_slippage order.side order.price fill_pos.entry_price *F pip_multiplier order.symbol
      else lit 0

  unfoldable pub execution_record : OrderRequest F → Position F → ℕ → ℕ → ExecutionRecord F
  execution_record order fill_pos latency now = record {
    order_id = fill_pos.order_id;
    symbol = order.symbol;
    side = order.side;
    lots = fill_pos.lots;
    requested_price = order.price;
    fill_price = fill_pos.entry_price;
    slippage_pips = slippage order fill_pos;
    latency = latency;
    timestamp_ns = now;
  }

  -- `now` is the time of the clock.
  unfoldable pub telemetry_fill :
      TelemetryTracker F → OrderRequest F → Position F → ℕ → ℕ → TelemetryTracker F
  telemetry_fill t order fill_pos latency now =
      let slip_pips = slippage order fill_pos in
      record t {
        records = keep_record t.records (execution_record order fill_pos latency now);
        total_filled = suc t.total_filled;
        total_slippage_pips = t.total_slippage_pips +F slip_pips;
        max_slippage_pips =
            if f.abs slip_pips >F t.max_slippage_pips then f.abs slip_pips else t.max_slippage_pips;
        total_latency_ns = t.total_latency_ns + latency;
      }

  unfoldable pub stats : TelemetryTracker F → TelemetrySnapshot F
  stats t = record {
    total_filled = t.total_filled;
    total_rejected = t.total_rejected;
    total_partial_closes = t.total_partial_closes;
    total_full_closes = t.total_full_closes;
    average_slippage =
        if ltb 0 t.total_filled then t.total_slippage_pips /F lit t.total_filled else lit 0;
    max_slippage = t.max_slippage_pips;
    average_latency_ms =
        if ltb 0 t.total_filled
        then lit t.total_latency_ns /F lit t.total_filled /F lit 1_000_000
        else lit 0;
    close_reasons = t.close_reasons;
  }
