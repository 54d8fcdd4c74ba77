-- ===== src/Executor/Tracker/Stages.antt =====
-- The stages of `OnTick` in internal/executor/tracker.go for one position: marking, the time stop,
-- the partial take profit and the tests for an exit. The child has the stages between.
pub mod Protect
use scalp_bot_os.Base.{
  ℕ, ◌+◌, Bool, true, false, not, ◌&&◌, ◌||◌, ltb, leb, if◌then◌else◌, List, [], ◌∷◌, pos, sub_ℕ,
  Option, none, some, Float, ◌+F◌, ◌-F◌, ◌*F◌, ◌/F◌, ◌<F◌, ◌>F◌, ◌≤F◌, ◌≥F◌, ◌==F◌, dec, lit,
}
use scalp_bot_os.Model.Types.{Tick, OrderSide}
use scalp_bot_os.Model.Symbol.{pip_value}
use scalp_bot_os.Model.Asset.{detect_asset_class}
use scalp_bot_os.Executor.Tracker.{
  TrackedPosition, TrackerConfig, ModifyEvent, CloseEvent, CloseReason, PositionState, TrailingMode,
}

abbrev pub by_side {ℓ} : {A : Type ℓ} → OrderSide → A → A → A
by_side OrderSide.side_buy b s = b
by_side OrderSide.side_sell b s = s

module _ {F : Type 0} ⦃f : Float F⦄ where
  unfoldable pub is_gold : TrackedPosition F → Bool
  is_gold p = (detect_asset_class {F = F} p.symbol).is_gold

  unfoldable pub price_gain : TrackedPosition F → Tick F → F
  price_gain p tick = by_side p.side (tick.bid -F p.entry_price) (p.entry_price -F tick.ask)

  unfoldable pub pnl_pips : TrackedPosition F → Tick F → F → F
  unfolding price_gain
  pnl_pips p tick pip_mult = price_gain p tick *F pip_mult

  -- Profit and loss, and their extremes so far.
  unfoldable pub mark : TrackedPosition F → Tick F → F → TrackedPosition F
  mark p tick pip_mult =
      let pips = pnl_pips p tick pip_mult in
      let pnl = pips *F pip_value p.symbol p.remaining_lots in
      record p {
        current_pnl = pnl;
        last_update_ns = tick.timestamp_ns;
        max_favorable_usd = if pnl >F p.max_favorable_usd then pnl else p.max_favorable_usd;
        max_adverse_usd = if pnl <F p.max_adverse_usd then pnl else p.max_adverse_usd;
        max_favorable_pips = if pips >F p.max_favorable_pips then pips else p.max_favorable_pips;
        max_adverse_pips = if pips <F p.max_adverse_pips then pips else p.max_adverse_pips;
      }

  abbrev pub modify_event : TrackedPosition F → ModifyEvent F
  modify_event p = record {
    order_id = p.order_id;
    symbol = p.symbol;
    stop_loss = p.stop_loss;
    take_profit = p.take_profit;
  }

  -- A stop that locks a gain over the entry price.
  abbrev pub stop_at : TrackedPosition F → F → F
  stop_at p gain = by_side p.side (p.entry_price +F gain) (p.entry_price -F gain)

  -- The new stop if it is nearer to the price, or the first one of a sell.
  unfoldable pub nearer_stop : TrackedPosition F → F → F
  nearer_stop p stop =
      by_side p.side (if stop >F p.stop_loss then stop else p.stop_loss)
        (if (p.stop_loss ==F lit 0) || (stop <F p.stop_loss) then stop else p.stop_loss)

  -- `shouldUpdate` of the profit locker.
  unfoldable pub should_lock : TrackedPosition F → F → F → Bool
  should_lock p stop margin =
      by_side p.side (stop >F (p.stop_loss +F margin))
        ((p.stop_loss ==F lit 0) || (stop <F (p.stop_loss -F margin)))

  unfoldable pub should_trail : TrackedPosition F → F → F → Bool
  should_trail p stop step =
      by_side p.side (stop >F (p.stop_loss +F step))
        (not (p.stop_loss ==F lit 0) && (stop <F (p.stop_loss -F step)))

  -- The exit price of a position, and the event that closes lots of it.
  abbrev pub exit_price : TrackedPosition F → Tick F → F
  exit_price p tick = by_side p.side tick.bid tick.ask

  abbrev pub close_event :
      TrackedPosition F → Tick F → F → ℕ → CloseReason → Bool → F → F → CloseEvent F
  close_event p tick pips now reason partial lots pnl = record {
    order_id = p.order_id;
    reason = reason;
    is_partial = partial;
    lots = lots;
    pnl = pnl;
    side = p.side;
    entry_price = p.entry_price;
    exit_price = exit_price p tick;
    pips = pips;
    duration = sub_ℕ now p.open_time_ns;
    max_favorable_usd = p.max_favorable_usd;
    max_adverse_usd = p.max_adverse_usd;
    max_favorable_pips = p.max_favorable_pips;
    max_adverse_pips = p.max_adverse_pips;
  }

  -- The event of the time stop leaves the side, the prices and the duration at their zero values.
  abbrev pub time_event : TrackedPosition F → CloseEvent F
  time_event p = record {
    order_id = p.order_id;
    reason = CloseReason.time_stop_hit;
    is_partial = false;
    lots = p.remaining_lots;
    pnl = p.current_pnl;
    side = OrderSide.side_buy;
    entry_price = lit 0;
    exit_price = lit 0;
    pips = lit 0;
    duration = pos 0;
    max_favorable_usd = p.max_favorable_usd;
    max_adverse_usd = p.max_adverse_usd;
    max_favorable_pips = p.max_favorable_pips;
    max_adverse_pips = p.max_adverse_pips;
  }

  -- 1. The time stop: `elapsed >= TimeStopDuration`.
  unfoldable pub is_time_stopped : TrackerConfig F → TrackedPosition F → Tick F → Bool
  is_time_stopped cfg p tick =
      ltb 0 cfg.time_stop_duration
      && (ltb 0 tick.timestamp_ns
          && (ltb 0 p.open_time_ns
              && leb (p.open_time_ns + cfg.time_stop_duration) tick.timestamp_ns))

  -- 2. The partial take profit.
  abbrev pub partial_lots : TrackerConfig F → TrackedPosition F → F
  partial_lots cfg p = f.floor ((p.lots *F cfg.partial_tp_ratio) *F lit 100) /F lit 100

  -- Lots that are too few to be split: break-even and the whole position runs on.
  unfoldable pub run_on : TrackerConfig F → TrackedPosition F → F → TrackedPosition F
  run_on cfg p pip_mult =
      let buffer = cfg.break_even_buff_pips /F pip_mult in
      record p {
        partial_tp_triggered = true;
        stop_loss =
            nearer_stop p (stop_at p (if is_gold p then f.max buffer (dec 20 2) else buffer));
        break_even_triggered = true;
        profit_stage = 1;
        state = PositionState.pos_modified;
      }

  unfoldable pub split_off : TrackerConfig F → TrackedPosition F → F → TrackedPosition F
  split_off cfg p pip_mult = record p {
    remaining_lots = p.remaining_lots -F partial_lots cfg p;
    partial_tp_triggered = true;
    stop_loss = nearer_stop p (stop_at p (cfg.break_even_buff_pips /F pip_mult));
    break_even_triggered = true;
    state = PositionState.pos_modified;
  }

  unfoldable pub is_partial_due : TrackerConfig F → TrackedPosition F → F → Bool
  is_partial_due cfg p pips =
      cfg.enable_partial_tp
      && (not p.partial_tp_triggered
          && ((cfg.tp1_pips >F lit 0)
              && (pips
                  ≥F (if is_gold p && (cfg.tp1_pips <F lit 500) then lit 500 else cfg.tp1_pips))))

  unfoldable pub partial_stage :
      TrackerConfig F
      → TrackedPosition F
      → Tick F
      → F
      → F
      → ℕ
      → TrackedPosition F × List (CloseEvent F) × List (ModifyEvent F)
  partial_stage cfg p tick pips pip_mult now =
      let part = partial_lots cfg p in
      if is_partial_due cfg p pips
      then (if part <F dec 1 2
          then (let q = run_on cfg p pip_mult in (q, [], modify_event q ∷ []))
          else if part <F p.remaining_lots
          then (let q = split_off cfg p pip_mult in
              let realized = (part /F p.lots) *F p.current_pnl in
              (
                q,
                close_event q tick pips now CloseReason.partial_tp1_hit true part realized ∷ [],
                modify_event q ∷ [],
              ))
          else (p, [], []))
      else (p, [], [])

  -- 5 and 6. The stop loss, then the take profit or the fixed target.
  unfoldable pub exit_reason : TrackerConfig F → TrackedPosition F → Tick F → F → Option CloseReason
  exit_reason cfg p tick pips =
      if (p.stop_loss >F lit 0)
        && by_side p.side (tick.bid ≤F p.stop_loss) (tick.ask ≥F p.stop_loss)
      then some CloseReason.sl_hit
      else if p.take_profit >F lit 0
      then (if by_side p.side (tick.bid ≥F p.take_profit) (tick.ask ≤F p.take_profit)
          then some CloseReason.tp_hit
          else none)
      else if cfg.tp2_pips >F lit 0
      then (if pips ≥F (if is_gold p && (cfg.tp2_pips <F lit 200) then lit 200 else cfg.tp2_pips)
          then some CloseReason.tp2_hit
          else none)
      else none
