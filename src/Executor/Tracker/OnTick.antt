-- ===== src/Executor/Tracker/OnTick.antt =====
-- `OnTick` of internal/executor/tracker.go: one position through all stages, then all positions.
pub mod Stops
pub mod Changes
pub mod Exits
pub mod Partial
pub mod Removal
use scalp_bot_os.Base.{
  ℕ, ◌==◌, Bool, true, false, if◌then◌else◌, List, [], ◌∷◌, ◌++◌, Option, none, some, Text, text_eq,
  Float,
}
use scalp_bot_os.Base.Dict.{delete}
use scalp_bot_os.Model.Types.{Tick}
use scalp_bot_os.Model.Symbol.{normalize_symbol}
use scalp_bot_os.Executor.Tracker.{
  TrackedPosition, TrackerConfig, PositionTracker, Positions, ModifyEvent, CloseEvent, CloseReason,
  PositionState,
}
use scalp_bot_os.Executor.Tracker.Stages.{
  price_gain, pnl_pips, mark, close_event, time_event, is_time_stopped, partial_stage, exit_reason,
}
use scalp_bot_os.Executor.Tracker.Stages.Protect.{protect_stage, trailing_stage}

-- What a tick does to a position: the position after it, and the events in order.
pub record Effect (F : Type 0) : Type 0 where
  pub after : TrackedPosition F
  pub closes : List (CloseEvent F)
  pub modifications : List (ModifyEvent F)

module _ {F : Type 0} ⦃f : Float F⦄ where
  -- The last two checks.
  unfoldable pub exit_stage :
      TrackerConfig F → TrackedPosition F → Tick F → F → ℕ → TrackedPosition F × List (CloseEvent F)
  exit_stage cfg p tick pips now = elim (exit_reason cfg p tick pips) [
    | none ↦ (p, [])
    | some reason ↦ (
      record p { state = PositionState.pos_closed },
      close_event p tick pips now reason false p.remaining_lots p.current_pnl ∷ [],
    )
  ]

  -- Stages 2 to 6, of a position that is marked.
  unfoldable pub run_stages : TrackerConfig F → TrackedPosition F → Tick F → F → F → ℕ → Effect F
  run_stages cfg p tick atr pip_mult now =
      let pips = pnl_pips p tick pip_mult in
      let (p₂, c₂, m₂) = partial_stage cfg p tick pips pip_mult now in
      let (p₃, m₃) = protect_stage cfg p₂ (price_gain p₂ tick) pips atr pip_mult in
      let (p₄, m₄) = trailing_stage cfg p₃ tick pips atr pip_mult in
      let (p₅, c₅) = exit_stage cfg p₄ tick pips now in
      record { after = p₅; closes = c₂ ++ c₅; modifications = m₂ ++ (m₃ ++ m₄) }

  unfoldable pub tick_position : TrackerConfig F → TrackedPosition F → Tick F → F → F → ℕ → Effect F
  tick_position cfg p tick atr pip_mult now =
      let q = mark p tick pip_mult in
      if is_time_stopped cfg q tick
      then record {
        after = record q { state = PositionState.pos_closed };
        closes = time_event q ∷ [];
        modifications = [];
      }
      else run_stages cfg q tick atr pip_mult now

  -- The loop over the positions, which are written in place.
  unfoldable pub tick_all :
      TrackerConfig F
      → Positions F
      → Tick F
      → F
      → F
      → ℕ
      → Positions F × List (CloseEvent F) × List (ModifyEvent F)
  tick_all cfg [] tick atr pip_mult now = ([], [], [])
  tick_all cfg ((k, p) ∷ ps) tick atr pip_mult now =
      let (qs, cs, ms) = tick_all cfg ps tick atr pip_mult now in
      if text_eq p.symbol (normalize_symbol tick.symbol)
      then (let e = tick_position cfg p tick atr pip_mult now in
          ((k, e.after) ∷ qs, e.closes ++ cs, e.modifications ++ ms))
      else ((k, p) ∷ qs, cs, ms)

  -- The loop that removes what was closed in full.
  unfoldable pub remove_closed : List (CloseEvent F) → Positions F → Positions F
  remove_closed [] ps = ps
  remove_closed (c ∷ cs) ps = remove_closed cs (if c.is_partial then ps else delete c.order_id ps)

  -- `clock` is `time.Now()`, for a tick without a time.
  unfoldable pub on_tick :
      PositionTracker F → Tick F → F → F → ℕ → List (CloseEvent F) × PositionTracker F
  on_tick pt tick atr pip_mult clock =
      let now = if tick.timestamp_ns == 0 then clock else tick.timestamp_ns in
      let (qs, cs, ms) = tick_all pt.cfg pt.positions tick atr pip_mult now in
      (
        cs,
        record pt {
          positions = if pt.cfg.auto_remove_on_close then remove_closed cs qs else qs;
          modifications = pt.modifications ++ ms;
        },
      )
