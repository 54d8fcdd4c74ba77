-- ===== src/Executor/Tracker/OnTick/Exits.antt =====
-- How a tick ends for a position: what is reported of it, and whether it is closed.
use mathlib.Core.List.{append-nil}
use scalp_bot_os.Base.{
  ℕ, ◌≡◌, refl, sym, ap, ◌∙◌, inl, inr, true, false, ◌&&◌, Bool-cases, Option-cases, List, [], ◌∷◌,
  ◌++◌, Text, subst, none, Float, ◌>F◌, ◌≤F◌, ◌≥F◌, lit, arith,
}
use scalp_bot_os.Model.Types.{Tick}
use scalp_bot_os.Executor.Tracker.{TrackedPosition, TrackerConfig, CloseEvent, ModifyEvent}
use scalp_bot_os.Executor.Tracker.Stages.{by_side, price_gain, pnl_pips, partial_stage, exit_reason}
use scalp_bot_os.Executor.Tracker.Stages.Protect.{protect_stage, trailing_stage}
use scalp_bot_os.Executor.Tracker.OnTick.{Effect, exit_stage, run_stages}
use scalp_bot_os.Executor.Tracker.OnTick.Changes.{
  is_closed, last_stop, partials, fulls, Split, protect_stage-IsProtected,
  trailing_stage-IsProtected, partial_stage-IsPartialStep,
}

last_stop-append :
    {F : Type 0} (s : F) (a b : List (ModifyEvent F))
    → last_stop s (a ++ b) ≡ last_stop (last_stop s a) b
unfolding last_stop
last_stop-append s [] b = refl
last_stop-append s (m ∷ a) b = last_stop-append m.stop_loss a b

pub fulls-append : {F : Type 0} (a b : List (CloseEvent F)) → fulls (a ++ b) ≡ fulls a ++ fulls b
unfolding fulls
fulls-append [] b = refl
fulls-append (c ∷ a) b = elim (Bool-cases c.is_partial) [
  | inl e ↦ rw (e, fulls-append a b) refl
  | inr e ↦ rw (e, fulls-append a b) refl
]

pub partials-append :
    {F : Type 0} (a b : List (CloseEvent F)) → partials (a ++ b) ≡ partials a ++ partials b
unfolding partials
partials-append [] b = refl
partials-append (c ∷ a) b = elim (Bool-cases c.is_partial) [
  | inl e ↦ rw (e, partials-append a b) refl
  | inr e ↦ rw (e, partials-append a b) refl
]

module _ {F : Type 0} where
  pub Split-fulls :
      {p q : TrackedPosition F} {cs : List (CloseEvent F)}
      → ⦃f : Float F⦄ → Split p q cs
      → fulls cs ≡ []
  unfolding fulls
  Split-fulls (Split.whole w) = refl
  Split-fulls (Split.split c h s) = rw h refl

  pub Split-partials :
      {p q : TrackedPosition F} {cs : List (CloseEvent F)}
      → ⦃f : Float F⦄ → Split p q cs
      → partials cs ≡ cs
  unfolding partials
  Split-partials (Split.whole w) = refl
  Split-partials (Split.split c h s) = rw h refl

module _ {F : Type 0} ⦃f : Float F⦄ where
  -- Neither the stop loss nor the take profit of a position is reached.
  pub record IsInside (q : TrackedPosition F) (tick : Tick F) : Type 0 where
    pub stop_not_hit :
        ((q.stop_loss >F lit 0)
          && by_side q.side (tick.bid ≤F q.stop_loss) (tick.ask ≥F q.stop_loss))
        ≡ false
    pub target_not_hit :
        ((q.take_profit >F lit 0)
          && by_side q.side (tick.bid ≥F q.take_profit) (tick.ask ≤F q.take_profit))
        ≡ false

  pub data Fate (order_id : Text) (tick : Tick F) (q : TrackedPosition F)
      (closes : List (CloseEvent F)) : Type 0 where
    survives :
        is_closed q.state ≡ false
        → fulls closes ≡ []
        → IsInside q tick
        → Fate order_id tick q closes
    exits :
        (c : CloseEvent F)
        → is_closed q.state ≡ true
        → fulls closes ≡ c ∷ []
        → c.order_id ≡ order_id
        → c.lots ≡ q.remaining_lots
        → Fate order_id tick q closes

  exit_reason-IsInside :
      (cfg : TrackerConfig F) (q : TrackedPosition F) (tick : Tick F) (pips : F)
      → exit_reason cfg q tick pips ≡ none
      → IsInside q tick
  unfolding exit_reason
  exit_reason-IsInside cfg q tick pips h = record {
    stop_not_hit = ground arith;
    target_not_hit = ground arith;
  }

  record IsBeforeExit (q r : TrackedPosition F) (cs : List (CloseEvent F))
      (ms : List (ModifyEvent F)) : Type 0 where
    same_id : r.order_id ≡ q.order_id
    still_open : is_closed q.state ≡ false → is_closed r.state ≡ false
    reported : last_stop q.stop_loss ms ≡ r.stop_loss
    parts : Split q r cs

  Split-same :
      {p q r : TrackedPosition F} {cs : List (CloseEvent F)}
      → r.remaining_lots ≡ q.remaining_lots
      → r.partial_tp_triggered ≡ q.partial_tp_triggered
      → Split p q cs
      → Split p r cs
  Split-same lots part (Split.whole w) =
      Split.whole
        record { same_lots = lots ∙ w.same_lots; still_split = λ h. part ∙ w.still_split h }
  Split-same lots part (Split.split c h s) = Split.split c h record {
    was_whole = s.was_whole;
    is_split = part ∙ s.is_split;
    not_tiny = s.not_tiny;
    not_all = s.not_all;
    left = lots ∙ s.left;
  }

  stages-IsBeforeExit :
      (cfg : TrackerConfig F) (q : TrackedPosition F) (tick : Tick F) (atr pip_mult : F) (now : ℕ)
      → let pips = pnl_pips q tick pip_mult in
        let s₂ = partial_stage cfg q tick pips pip_mult now in
        let s₃ = protect_stage cfg s₂.0 (price_gain s₂.0 tick) pips atr pip_mult in
        let s₄ = trailing_stage cfg s₃.0 tick pips atr pip_mult in
        IsBeforeExit q s₄.0 s₂.1 (s₂.2 ++ (s₃.1 ++ s₄.1))
  stages-IsBeforeExit cfg q tick atr pip_mult now =
      let pips = pnl_pips q tick pip_mult in
      let s₂ = partial_stage cfg q tick pips pip_mult now in
      let s₃ = protect_stage cfg s₂.0 (price_gain s₂.0 tick) pips atr pip_mult in
      let s₄ = trailing_stage cfg s₃.0 tick pips atr pip_mult in
      let h₂ = partial_stage-IsPartialStep cfg q tick pips pip_mult now in
      let h₃ = protect_stage-IsProtected cfg s₂.0 (price_gain s₂.0 tick) pips atr pip_mult in
      let h₄ = trailing_stage-IsProtected cfg s₃.0 tick pips atr pip_mult in
      record {
        same_id = h₄.same_id ∙ (h₃.same_id ∙ h₂.same_id);
        still_open = λ h. h₄.still_open (h₃.still_open (h₂.still_open h));
        reported =
            last_stop-append q.stop_loss s₂.2 (s₃.1 ++ s₄.1)
            ∙ (last_stop-append (last_stop q.stop_loss s₂.2) s₃.1 s₄.1
                ∙ (ap (λ s. last_stop (last_stop s s₃.1) s₄.1) h₂.reported
                    ∙ (ap (λ s. last_stop s s₄.1) h₃.reported ∙ h₄.reported)));
        parts =
            Split-same (h₄.same_lots ∙ h₃.same_lots) (h₄.same_partial ∙ h₃.same_partial) h₂.parts;
      }

  record IsExitStep (p : TrackedPosition F) (tick : Tick F)
      (r : TrackedPosition F × List (CloseEvent F)) : Type 0 where
    same_stop : r.0.stop_loss ≡ p.stop_loss
    same_lots : r.0.remaining_lots ≡ p.remaining_lots
    same_partial : r.0.partial_tp_triggered ≡ p.partial_tp_triggered
    no_partials : partials r.1 ≡ []
    fate : is_closed p.state ≡ false → Fate p.order_id tick r.0 r.1

  exit_stage-IsExitStep :
      (cfg : TrackerConfig F) (p : TrackedPosition F) (tick : Tick F) (pips : F) (now : ℕ)
      → IsExitStep p tick (exit_stage cfg p tick pips now)
  unfolding exit_stage is_closed fulls partials
  exit_stage-IsExitStep cfg p tick pips now = elim (Option-cases (exit_reason cfg p tick pips)) [
    | inl e ↦
        rw (e, exit_stage)
          record {
            same_stop = refl;
            same_lots = refl;
            same_partial = refl;
            no_partials = refl;
            fate = λ h. Fate.survives h refl (exit_reason-IsInside cfg p tick pips e);
          }
    | inr (reason, e) ↦
        rw (e, exit_stage)
          record {
            same_stop = refl;
            same_lots = refl;
            same_partial = refl;
            no_partials = refl;
            fate = λ _. Fate.exits _ refl refl refl refl;
          }
  ]

  Fate-after :
      {id order_id : Text} {tick : Tick F} {q : TrackedPosition F} (a b : List (CloseEvent F))
      → id ≡ order_id
      → fulls a ≡ []
      → Fate id tick q b
      → Fate order_id tick q (a ++ b)
  Fate-after a b same none_full (Fate.survives h e i) =
      Fate.survives h (fulls-append a b ∙ rw (none_full) e) i
  Fate-after a b same none_full (Fate.exits c h e i l) =
      Fate.exits c h (fulls-append a b ∙ rw (none_full) e) (i ∙ same) l

  -- What a tick does to a position `p`, all stages together.
  pub record IsTick (p : TrackedPosition F) (tick : Tick F) (e : Effect F) : Type 0 where
    pub reported : last_stop p.stop_loss e.modifications ≡ e.after.stop_loss
    pub parts : Split p e.after (partials e.closes)
    pub fate : is_closed p.state ≡ false → Fate p.order_id tick e.after e.closes

  pub run_stages-IsTick :
      (cfg : TrackerConfig F) (q : TrackedPosition F) (tick : Tick F) (atr pip_mult : F) (now : ℕ)
      → IsTick q tick (run_stages cfg q tick atr pip_mult now)
  unfolding run_stages
  run_stages-IsTick cfg q tick atr pip_mult now =
      let pips = pnl_pips q tick pip_mult in
      let s₂ = partial_stage cfg q tick pips pip_mult now in
      let s₃ = protect_stage cfg s₂.0 (price_gain s₂.0 tick) pips atr pip_mult in
      let s₄ = trailing_stage cfg s₃.0 tick pips atr pip_mult in
      let s₅ = exit_stage cfg s₄.0 tick pips now in
      let before = stages-IsBeforeExit cfg q tick atr pip_mult now in
      let exit = exit_stage-IsExitStep cfg s₄.0 tick pips now in
      record {
        reported = before.reported ∙ sym exit.same_stop;
        parts =
            subst (Split q s₅.0)
              (sym (
                partials-append s₂.1 s₅.1
                ∙ (ap (λ cs. partials s₂.1 ++ cs) exit.no_partials
                    ∙ (append-nil (partials s₂.1) ∙ Split-partials before.parts))))
              (Split-same exit.same_lots exit.same_partial before.parts);
        fate = λ h.
            Fate-after s₂.1 s₅.1 before.same_id (Split-fulls before.parts)
              (exit.fate (before.still_open h));
      }
