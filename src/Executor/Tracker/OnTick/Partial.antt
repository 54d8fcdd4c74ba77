-- ===== src/Executor/Tracker/OnTick/Partial.antt =====
-- A position through ticks: what the events of a tick say of it, and how often it is split.
use mathlib.Core.List.{append-nil}
use scalp_bot_os.Base.{
  ℕ, ◌≡◌, refl, sym, ap, ◌∙◌, subst, ◌⊎◌, inl, inr, ◌≤◌, true, false, Bool-cases, List, [], ◌∷◌,
  ◌++◌, length, Float, arith,
}
use scalp_bot_os.Model.Types.{Tick}
use scalp_bot_os.Executor.Tracker.{TrackedPosition, TrackerConfig, CloseEvent}
use scalp_bot_os.Executor.Tracker.Stages.{mark, is_time_stopped, time_event}
use scalp_bot_os.Executor.Tracker.OnTick.{tick_position}
use scalp_bot_os.Executor.Tracker.OnTick.Changes.{is_closed, last_stop, partials, fulls, Split}
use scalp_bot_os.Executor.Tracker.OnTick.Exits.{partials-append, Fate, IsTick, run_stages-IsTick}

-- The arguments of a tick: the tick, the average true range, pips per price and the time.
pub record Arrival (F : Type 0) : Type 0 where
  pub tick : Tick F
  pub atr : F
  pub pip_mult : F
  pub now : ℕ

module _ {F : Type 0} ⦃f : Float F⦄ where
  Split-mark :
      (p : TrackedPosition F) (tick : Tick F) (pip_mult : F) {q : TrackedPosition F}
      {cs : List (CloseEvent F)}
      → Split (mark p tick pip_mult) q cs
      → Split p q cs
  unfolding mark
  Split-mark p tick pip_mult (Split.whole w) =
      Split.whole record { same_lots = w.same_lots; still_split = w.still_split }
  Split-mark p tick pip_mult (Split.split c h s) = Split.split c h record {
    was_whole = s.was_whole;
    is_split = s.is_split;
    not_tiny = s.not_tiny;
    not_all = s.not_all;
    left = s.left;
  }

  tick_position-IsTick :
      (cfg : TrackerConfig F) (p : TrackedPosition F) (tick : Tick F) (atr pip_mult : F) (now : ℕ)
      → IsTick p tick (tick_position cfg p tick atr pip_mult now)
  unfolding tick_position mark is_closed fulls partials last_stop
  tick_position-IsTick cfg p tick atr pip_mult now =
      let q = mark p tick pip_mult in
      let run = run_stages-IsTick cfg q tick atr pip_mult now in
      elim (Bool-cases (is_time_stopped cfg q tick)) [
        | inl e ↦
            rw (e, tick_position)
              record {
                reported = refl;
                parts = Split.whole record { same_lots = refl; still_split = λ h. h };
                fate = λ _. Fate.exits (time_event q) refl refl refl refl;
              }
        | inr e ↦
            rw (e, tick_position)
              record {
                reported = run.reported;
                parts = Split-mark p tick pip_mult run.parts;
                fate = run.fate;
              }
      ]

  -- Whoever applies the modification events of a tick in their order to the old stop loss of the
  -- position holds the stop loss that the position has after the tick.
  pub tick_position-last_stop :
      (cfg : TrackerConfig F) (p : TrackedPosition F) (tick : Tick F) (atr pip_mult : F) (now : ℕ)
      → last_stop p.stop_loss (tick_position cfg p tick atr pip_mult now).modifications
        ≡ (tick_position cfg p tick atr pip_mult now).after.stop_loss
  tick_position-last_stop cfg p tick atr pip_mult now =
      (tick_position-IsTick cfg p tick atr pip_mult now).reported

  -- A position that is not closed before a tick either survives it, with no event that closes all of
  -- it and neither its stop loss nor its take profit reached, or it is closed after the tick, with
  -- just one event that closes all that is left of it, under its order id.
  pub tick_position-Fate :
      (cfg : TrackerConfig F) (p : TrackedPosition F) (tick : Tick F) (atr pip_mult : F) (now : ℕ)
      → is_closed p.state ≡ false
      → Fate p.order_id tick
          (tick_position cfg p tick atr pip_mult now).after
          (tick_position cfg p tick atr pip_mult now).closes
  tick_position-Fate cfg p tick atr pip_mult now h =
      (tick_position-IsTick cfg p tick atr pip_mult now).fate h

  -- The events of a tick that close a part of a position: none, and its lots are unchanged, or one,
  -- of a position that was not split before, of not less than 0.01 lots and of less than what was
  -- left, and what is left after the tick is less by these lots.
  pub tick_position-Split :
      (cfg : TrackerConfig F) (p : TrackedPosition F) (tick : Tick F) (atr pip_mult : F) (now : ℕ)
      → Split p
          (tick_position cfg p tick atr pip_mult now).after
          (partials (tick_position cfg p tick atr pip_mult now).closes)
  tick_position-Split cfg p tick atr pip_mult now =
      (tick_position-IsTick cfg p tick atr pip_mult now).parts

  -- The close events of a position over a run of ticks.
  unfoldable pub run_closes :
      TrackerConfig F → TrackedPosition F → List (Arrival F) → List (CloseEvent F)
  run_closes cfg p [] = []
  run_closes cfg p (a ∷ rest) =
      let e = tick_position cfg p a.tick a.atr a.pip_mult a.now in
      e.closes ++ run_closes cfg e.after rest

  partials_end :
      {p q : TrackedPosition F} {cs : List (CloseEvent F)}
      → p.partial_tp_triggered ≡ true
      → Split p q cs
      → (cs ≡ []) × (q.partial_tp_triggered ≡ true)
  partials_end h (Split.whole w) = (refl, w.still_split h)
  partials_end h (Split.split c i s) = let whole = s.was_whole in ground arith

  Split-cases :
      {p q : TrackedPosition F} {cs : List (CloseEvent F)}
      → Split p q cs
      → (cs ≡ []) ⊎ ((length cs ≡ 1) × (q.partial_tp_triggered ≡ true))
  Split-cases (Split.whole w) = inl refl
  Split-cases (Split.split c i s) = inr (refl, s.is_split)

  run_closes-step :
      (cfg : TrackerConfig F) (p : TrackedPosition F) (a : Arrival F) (rest : List (Arrival F))
      → let e = tick_position cfg p a.tick a.atr a.pip_mult a.now in
        partials (run_closes cfg p (a ∷ rest))
        ≡ partials e.closes ++ partials (run_closes cfg e.after rest)
  unfolding run_closes
  run_closes-step cfg p a rest =
      let e = tick_position cfg p a.tick a.atr a.pip_mult a.now in
      partials-append e.closes (run_closes cfg e.after rest)

  run_closes-split :
      (cfg : TrackerConfig F) (p : TrackedPosition F) (run : List (Arrival F))
      → p.partial_tp_triggered ≡ true
      → partials (run_closes cfg p run) ≡ []
  unfolding run_closes partials
  run_closes-split cfg p [] h = refl
  run_closes-split cfg p (a ∷ rest) h =
      let e = tick_position cfg p a.tick a.atr a.pip_mult a.now in
      let (none_now, split) =
        partials_end h (tick_position-Split cfg p a.tick a.atr a.pip_mult a.now) in
      run_closes-step cfg p a rest
      ∙ (ap (λ cs. cs ++ partials (run_closes cfg e.after rest)) none_now
          ∙ run_closes-split cfg e.after rest split)

  -- Over any run of ticks a position is closed in part once at most.
  pub run_closes-once :
      (cfg : TrackerConfig F) (p : TrackedPosition F) (run : List (Arrival F))
      → length (partials (run_closes cfg p run)) ≤ 1
  unfolding run_closes partials
  run_closes-once cfg p [] = omega arith
  run_closes-once cfg p (a ∷ rest) =
      let e = tick_position cfg p a.tick a.atr a.pip_mult a.now in
      let step = run_closes-step cfg p a rest in
      elim (Split-cases (tick_position-Split cfg p a.tick a.atr a.pip_mult a.now)) [
        | inl nothing ↦
            subst (λ cs. length cs ≤ 1)
              (sym (step ∙ ap (λ cs. cs ++ partials (run_closes cfg e.after rest)) nothing))
              (run_closes-once cfg e.after rest)
        | inr (one, split) ↦
            subst (λ n. n ≤ 1)
              (sym (
                ap length (
                  step
                  ∙ (ap (λ cs. partials e.closes ++ cs) (run_closes-split cfg e.after rest split)
                      ∙ append-nil (partials e.closes)))
                ∙ one))
              (omega arith)
      ]
