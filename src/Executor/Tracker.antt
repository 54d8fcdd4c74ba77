-- ===== src/Executor/Tracker.antt =====
-- internal/executor/tracker.go: what a position tracker holds, and its operations other than `OnTick`.
pub mod Stages
pub mod OnTick
pub mod Delivery
use scalp_bot_os.Base.{
  ℕ, ◌==◌, ◌||◌, Bool, true, false, if◌then◌else◌, List, [], ◌∷◌, length, map, ℤ, Option, none,
  some, Text, bytes, text_eq, Float, ◌+F◌, ◌<F◌, ◌>F◌, ◌≤F◌, ◌≥F◌, dec, lit,
}
use scalp_bot_os.Base.Dict.{lookup, insert, delete}
use scalp_bot_os.Model.Types.{Position, OrderSide}
use scalp_bot_os.Model.Symbol.{normalize_symbol}

pub data PositionState : Type 0 where
  pos_open pos_modified pos_closed : PositionState

unfoldable pub state_string : PositionState → Text
state_string PositionState.pos_open = bytes "OPEN"
state_string PositionState.pos_modified = bytes "MODIFIED"
state_string PositionState.pos_closed = bytes "CLOSED"

pub data TrailingMode : Type 0 where
  trailing_fixed trailing_atr : TrailingMode

pub record TrackerConfig (F : Type 0) : Type 0 where
  pub trailing_mode : TrailingMode
  pub trailing_stop_pips : F
  pub trailing_atr_mult : F
  pub break_even_pips : F
  pub break_even_buff_pips : F
  pub enable_trailing : Bool
  pub enable_break_even : Bool
  pub enable_profit_locker : Bool
  pub stage1_atr_mult : F
  pub stage2_atr_mult : F
  pub stage3_atr_mult : F
  pub enable_partial_tp : Bool
  pub partial_tp_ratio : F
  pub tp1_pips : F
  pub tp2_pips : F
  pub time_stop_duration : ℕ
  pub auto_remove_on_close : Bool

-- The embedded `model.Position` is spread out; its own `OpenTimeNs` is hidden by the outer field.
pub record TrackedPosition (F : Type 0) : Type 0 where
  pub order_id : Text
  pub symbol : Text
  pub side : OrderSide
  pub lots : F
  pub entry_price : F
  pub current_pnl : F
  pub state : PositionState
  pub stop_loss : F
  pub take_profit : F
  pub high_water_mark : F
  pub break_even_triggered : Bool
  pub partial_tp_triggered : Bool
  pub profit_stage : ℕ
  pub remaining_lots : F
  pub open_time_ns : ℕ
  pub last_update_ns : ℕ
  pub tracked_at : ℕ
  pub max_favorable_usd : F
  pub max_adverse_usd : F
  pub max_favorable_pips : F
  pub max_adverse_pips : F

pub record ModifyEvent (F : Type 0) : Type 0 where
  pub order_id : Text
  pub symbol : Text
  pub stop_loss : F
  pub take_profit : F

pub data CloseReason : Type 0 where
  sl_hit tp_hit tp2_hit partial_tp1_hit time_stop_hit : CloseReason

pub record CloseEvent (F : Type 0) : Type 0 where
  pub order_id : Text
  pub reason : CloseReason
  pub is_partial : Bool
  pub lots : F
  pub pnl : F
  pub side : OrderSide
  pub entry_price : F
  pub exit_price : F
  pub pips : F
  pub duration : ℤ
  pub max_favorable_usd : F
  pub max_adverse_usd : F
  pub max_favorable_pips : F
  pub max_adverse_pips : F

abbrev pub Positions : Type 0 → Type 0
Positions F = List (Text × TrackedPosition F)

pub record PositionTracker (F : Type 0) : Type 0 where
  pub positions : Positions F
  pub modifications : List (ModifyEvent F)
  pub cfg : TrackerConfig F

module _ {F : Type 0} ⦃f : Float F⦄ where
  unfoldable pub default_tracker_config : TrackerConfig F
  default_tracker_config = record {
    trailing_mode = TrailingMode.trailing_fixed;
    trailing_stop_pips = lit 10;
    trailing_atr_mult = dec 15 1;
    break_even_pips = lit 5;
    break_even_buff_pips = lit 1;
    enable_trailing = true;
    enable_break_even = true;
    enable_profit_locker = true;
    stage1_atr_mult = lit 1;
    stage2_atr_mult = dec 18 1;
    stage3_atr_mult = dec 25 1;
    enable_partial_tp = false;
    partial_tp_ratio = dec 5 1;
    tp1_pips = lit 5;
    tp2_pips = lit 15;
    time_stop_duration = 0;
    auto_remove_on_close = true;
  }

  unfoldable pub new_position_tracker : TrackerConfig F → PositionTracker F
  new_position_tracker cfg = record {
    positions = [];
    modifications = [];
    cfg = record cfg {
      partial_tp_ratio =
          if (cfg.partial_tp_ratio ≤F lit 0) || (cfg.partial_tp_ratio ≥F lit 1)
          then dec 5 1
          else cfg.partial_tp_ratio;
    };
  }

  -- A newly filled position, at the time of the clock.
  unfoldable pub track : Position F → F → F → ℕ → TrackedPosition F
  track pos sl tp now = record {
    order_id = pos.order_id;
    symbol = normalize_symbol pos.symbol;
    side = pos.side;
    lots = pos.lots;
    entry_price = pos.entry_price;
    current_pnl = pos.current_pnl;
    state = PositionState.pos_open;
    stop_loss = sl;
    take_profit = tp;
    high_water_mark = lit 0;
    break_even_triggered = false;
    partial_tp_triggered = false;
    profit_stage = 0;
    remaining_lots = pos.lots;
    open_time_ns = if pos.open_time_ns == 0 then now else pos.open_time_ns;
    last_update_ns = now;
    tracked_at = now;
    max_favorable_usd = lit 0;
    max_adverse_usd = lit 0;
    max_favorable_pips = lit 0;
    max_adverse_pips = lit 0;
  }

  unfoldable pub add : PositionTracker F → Position F → F → F → ℕ → PositionTracker F
  unfolding track insert
  add pt pos sl tp now = record pt {
    positions = insert pos.order_id (track pos sl tp now) pt.positions;
  }

  unfoldable pub get : PositionTracker F → Text → Option (TrackedPosition F)
  unfolding lookup
  get pt order_id = lookup order_id pt.positions

  unfoldable pub has : PositionTracker F → Text → Bool
  unfolding get
  has pt order_id = elim (get pt order_id) [ none ↦ false | some p ↦ true ]

  -- The loop of `FindBySymbol`.
  find_symbol : Text → Positions F → Option (TrackedPosition F)
  find_symbol target [] = none
  find_symbol target ((k, p) ∷ ps) =
      if text_eq (normalize_symbol p.symbol) target then some p else find_symbol target ps

  unfoldable pub find_by_symbol : PositionTracker F → Text → Option (TrackedPosition F)
  unfolding find_symbol
  find_by_symbol pt symbol = find_symbol (normalize_symbol symbol) pt.positions

  unfoldable pub has_symbol : PositionTracker F → Text → Bool
  unfolding find_by_symbol
  has_symbol pt symbol = elim (find_by_symbol pt symbol) [ none ↦ false | some p ↦ true ]

  unfoldable pub replace_ticket : PositionTracker F → Text → Text → PositionTracker F
  unfolding lookup insert delete
  replace_ticket pt old_id new_id =
      if text_eq old_id new_id || (text_eq old_id (bytes "") || text_eq new_id (bytes ""))
      then pt
      else elim (lookup old_id pt.positions) [
        | none ↦ pt
        | some p ↦ record pt {
          positions = insert new_id (record p { order_id = new_id }) (delete old_id pt.positions);
        }
      ]

  unfoldable pub remove : PositionTracker F → Text → PositionTracker F
  unfolding delete
  remove pt order_id = record pt { positions = delete order_id pt.positions }

  unfoldable pub active_order_ids : PositionTracker F → List Text
  active_order_ids pt = map (λ e. e.0) pt.positions

  unfoldable pub drain_modifications : PositionTracker F → List (ModifyEvent F) × PositionTracker F
  drain_modifications pt = (pt.modifications, record pt { modifications = [] })

  -- A write through the pointer that the map holds.
  abbrev pub alter :
      Text → (TrackedPosition F → TrackedPosition F) → PositionTracker F → PositionTracker F
  alter order_id change pt = elim (lookup order_id pt.positions) [
    | none ↦ pt
    | some p ↦ record pt { positions = insert order_id (change p) pt.positions }
  ]

  unfoldable pub update_sltp : PositionTracker F → Text → F → F → PositionTracker F
  update_sltp pt order_id sl tp =
      alter order_id
        (λ p. record p {
          stop_loss = if sl >F lit 0 then sl else p.stop_loss;
          take_profit = if tp >F lit 0 then tp else p.take_profit;
        })
        pt

  unfoldable pub update_pnl : PositionTracker F → Text → F → PositionTracker F
  update_pnl pt order_id pnl =
      alter order_id
        (λ p. record p {
          current_pnl = pnl;
          max_favorable_usd = if pnl >F p.max_favorable_usd then pnl else p.max_favorable_usd;
          max_adverse_usd = if pnl <F p.max_adverse_usd then pnl else p.max_adverse_usd;
        })
        pt

  unfoldable pub count : PositionTracker F → ℕ
  count pt = length pt.positions

  -- The loop of `TotalPnL`.
  sum_pnl : F → Positions F → F
  sum_pnl total [] = total
  sum_pnl total ((k, p) ∷ ps) = sum_pnl (total +F p.current_pnl) ps

  unfoldable pub total_pnl : PositionTracker F → F
  unfolding sum_pnl
  total_pnl pt = sum_pnl (lit 0) pt.positions

  unfoldable pub active_positions : PositionTracker F → List (TrackedPosition F)
  active_positions pt = map (λ e. e.1) pt.positions
