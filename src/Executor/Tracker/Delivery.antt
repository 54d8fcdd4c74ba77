-- ===== src/Executor/Tracker/Delivery.antt =====
-- The modification queue of the tracker: what `DrainModifications` hands out over a run of calls.
use mathlib.Core.List.{append-nil, append_assoc}
use scalp_bot_os.Base.{
  ℕ, ◌==◌, ◌≡◌, refl, sym, ap, ◌∙◌, if◌then◌else◌, List, [], ◌∷◌, ◌++◌, arith, Text, Float,
}
use scalp_bot_os.Model.Types.{Tick, Position}
use scalp_bot_os.Executor.Tracker.{
  PositionTracker, ModifyEvent, add, remove, replace_ticket, update_sltp, update_pnl,
  drain_modifications,
}
use scalp_bot_os.Executor.Tracker.OnTick.{on_tick, tick_all}

-- The calls that the bot makes of its tracker.
pub data Call (F : Type 0) : Type 0 where
  added : Position F → F → F → ℕ → Call F
  removed : Text → Call F
  replaced : Text → Text → Call F
  levels_set : Text → F → F → Call F
  pnl_set : Text → F → Call F
  ticked : Tick F → F → F → ℕ → Call F
  drained : Call F

module _ {F : Type 0} ⦃f : Float F⦄ where
  -- The tracker after a call, and the modifications that the call returns.
  unfoldable pub call : PositionTracker F → Call F → List (ModifyEvent F) × PositionTracker F
  call pt (Call.added p sl tp now) = ([], add pt p sl tp now)
  call pt (Call.removed id) = ([], remove pt id)
  call pt (Call.replaced old_id new_id) = ([], replace_ticket pt old_id new_id)
  call pt (Call.levels_set id sl tp) = ([], update_sltp pt id sl tp)
  call pt (Call.pnl_set id pnl) = ([], update_pnl pt id pnl)
  call pt (Call.ticked tick atr pip_mult clock) = ([], (on_tick pt tick atr pip_mult clock).1)
  call pt Call.drained = drain_modifications pt

  -- The modifications that a call makes: those of the positions that a tick moves.
  unfoldable pub made : PositionTracker F → Call F → List (ModifyEvent F)
  made pt (Call.added p sl tp now) = []
  made pt (Call.removed id) = []
  made pt (Call.replaced old_id new_id) = []
  made pt (Call.levels_set id sl tp) = []
  made pt (Call.pnl_set id pnl) = []
  made pt (Call.ticked tick atr pip_mult clock) =
      (tick_all pt.cfg pt.positions tick atr pip_mult
        (if tick.timestamp_ns == 0 then clock else tick.timestamp_ns)).2
  made pt Call.drained = []

  unfoldable pub delivered : PositionTracker F → List (Call F) → List (ModifyEvent F)
  delivered pt [] = []
  delivered pt (c ∷ cs) = (call pt c).0 ++ delivered (call pt c).1 cs

  unfoldable pub made_all : PositionTracker F → List (Call F) → List (ModifyEvent F)
  made_all pt [] = []
  made_all pt (c ∷ cs) = made pt c ++ made_all (call pt c).1 cs

  unfoldable pub call_all : PositionTracker F → List (Call F) → PositionTracker F
  call_all pt [] = pt
  call_all pt (c ∷ cs) = call_all (call pt c).1 cs

  -- The other updates leave the queue alone.
  update_sltp-keeps :
      (pt : PositionTracker F) (id : Text) (sl tp : F)
      → (update_sltp pt id sl tp).modifications ≡ pt.modifications
  unfolding update_sltp
  update_sltp-keeps pt id sl tp = ground arith

  update_pnl-keeps :
      (pt : PositionTracker F) (id : Text) (pnl : F)
      → (update_pnl pt id pnl).modifications ≡ pt.modifications
  unfolding update_pnl
  update_pnl-keeps pt id pnl = ground arith

  replace_ticket-keeps :
      (pt : PositionTracker F) (old_id new_id : Text)
      → (replace_ticket pt old_id new_id).modifications ≡ pt.modifications
  unfolding replace_ticket
  replace_ticket-keeps pt old_id new_id = ground arith

  call-delivers :
      (pt : PositionTracker F) (c : Call F)
      → (call pt c).0 ++ (call pt c).1.modifications ≡ pt.modifications ++ made pt c
  unfolding call made add remove on_tick drain_modifications
  call-delivers pt (Call.added p sl tp now) = sym (append-nil pt.modifications)
  call-delivers pt (Call.removed id) = sym (append-nil pt.modifications)
  call-delivers pt (Call.replaced old_id new_id) =
      replace_ticket-keeps pt old_id new_id ∙ sym (append-nil pt.modifications)
  call-delivers pt (Call.levels_set id sl tp) =
      update_sltp-keeps pt id sl tp ∙ sym (append-nil pt.modifications)
  call-delivers pt (Call.pnl_set id pnl) =
      update_pnl-keeps pt id pnl ∙ sym (append-nil pt.modifications)
  call-delivers pt (Call.ticked tick atr pip_mult clock) = refl
  call-delivers pt Call.drained = refl

  -- Through every run of calls no modification is lost, doubled or put out of order: what the drains
  -- hand out, followed by what still waits at the end, is what waited at the start, followed by what
  -- the ticks made.
  pub delivered-made_all :
      (pt : PositionTracker F) (cs : List (Call F))
      → delivered pt cs ++ (call_all pt cs).modifications ≡ pt.modifications ++ made_all pt cs
  unfolding delivered made_all call_all
  delivered-made_all pt [] = sym (append-nil pt.modifications)
  delivered-made_all pt (c ∷ cs) =
      let next = (call pt c).1 in
      append_assoc (call pt c).0 (delivered next cs) (call_all next cs).modifications
      ∙ (ap (λ l. (call pt c).0 ++ l) (delivered-made_all next cs)
          ∙ (sym (append_assoc (call pt c).0 next.modifications (made_all next cs))
              ∙ (ap (λ l. l ++ made_all next cs) (call-delivers pt c)
                  ∙ append_assoc pt.modifications (made pt c) (made_all next cs))))
