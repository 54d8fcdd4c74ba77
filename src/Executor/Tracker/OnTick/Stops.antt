-- ===== src/Executor/Tracker/OnTick/Stops.antt =====
-- How the stop loss of a position moves in the course of a tick.
use scalp_bot_os.Base.{
  ℕ, ◌≡◌, refl, subst, ◌⊎◌, inl, inr, true, not, ◌&&◌, ◌||◌, Bool-cases, Option-cases, if_intro,
  if◌then◌else◌, ltb, List, Float, ◌+F◌, ◌-F◌, ◌*F◌, ◌/F◌, ◌<F◌, ◌>F◌, ◌≤F◌, ◌≥F◌, ◌==F◌, dec, lit,
  IsOrdered, arith,
}
use scalp_bot_os.Model.Types.{Tick, OrderSide}
use scalp_bot_os.Executor.Tracker.{TrackedPosition, TrackerConfig, CloseEvent, ModifyEvent}
use scalp_bot_os.Executor.Tracker.Stages.{
  by_side, is_gold, mark, exit_reason, is_time_stopped, stop_at, nearer_stop, should_lock,
  should_trail, run_on, split_off, partial_stage, partial_lots, is_partial_due,
}
use scalp_bot_os.Executor.Tracker.Stages.Protect.{
  lock, locker_stage, break_even_stage, protect_stage, trail_stop, trail_step, trailing_stage,
  at_least, break_even_pips,
}
use scalp_bot_os.Executor.Tracker.OnTick.{Effect, exit_stage, run_stages, tick_position}

module _ {F : Type 0} ⦃f : Float F⦄ where
  -- One move towards the price: up for a buy; for a sell down, or the first stop, as zero is none.
  abbrev pub IsNearer : OrderSide → F → F → Type 0
  IsNearer OrderSide.side_buy old new = (old <F new) ≡ true
  IsNearer OrderSide.side_sell old new = ((old ==F lit 0) ≡ true) ⊎ ((new <F old) ≡ true)

  pub data Moves (side : OrderSide) (s : F) : F → Type 0 where
    stay : Moves side s s
    move : {t u : F} → Moves side s t → IsNearer side t u → Moves side s u

  -- A position on its side, with its stop moved from an old one towards the price.
  record IsKept (side : OrderSide) (old : F) (p : TrackedPosition F) : Type 0 where
    same : p.side ≡ side
    moved : Moves side old p.stop_loss

  record IsKeptBy (side : OrderSide) (old : F) (r : TrackedPosition F × List (ModifyEvent F))
      : Type 0 where
    kept : IsKept side old r.0

  nearer-Moves :
      (side : OrderSide) (s old stop : F)
      → Moves side s old
      → Moves side s (
          by_side side
            (if stop >F old then stop else old)
            (if (old ==F lit 0) || (stop <F old) then stop else old))
  nearer-Moves OrderSide.side_buy s old stop m = elim (Bool-cases (stop >F old)) [
    | inl e ↦ rw e (move m e)
    | inr e ↦ rw e m
  ]
  nearer-Moves OrderSide.side_sell s old stop m = elim (Bool-cases (old ==F lit 0)) [
    | inl e ↦ rw e (move m (inl e))
    | inr e ↦
        rw e (elim (Bool-cases (stop <F old)) [ inl d ↦ rw d (move m (inr d)) | inr d ↦ rw d m ])
  ]

  nearer_stop-Moves :
      {side : OrderSide} {s : F} (p : TrackedPosition F) (stop : F)
      → IsKept side s p
      → Moves side s (nearer_stop p stop)
  unfolding nearer_stop
  nearer_stop-Moves {side} {s} p stop k = rw k.same (nearer-Moves side s p.stop_loss stop k.moved)

  partial_stage-IsKept :
      (cfg : TrackerConfig F) (side : OrderSide) (s : F) (p : TrackedPosition F) (tick : Tick F)
      (pips pip_mult : F) (now : ℕ)
      → IsKept side s p
      → IsKept side s (partial_stage cfg p tick pips pip_mult now).0
  unfolding partial_stage run_on split_off
  partial_stage-IsKept cfg side s p tick pips pip_mult now k =
      let moved =
        λ (q : TrackedPosition F × List (CloseEvent F) × List (ModifyEvent F)). IsKept side s q.0 in
      if_intro moved (is_partial_due cfg p pips)
        (λ _.
          if_intro moved (partial_lots cfg p <F dec 1 2)
            (λ _. record { same = k.same; moved = nearer_stop-Moves p _ k })
            (λ _.
              if_intro moved (partial_lots cfg p <F p.remaining_lots)
                (λ _. record { same = k.same; moved = nearer_stop-Moves p _ k }) (λ _. k)))
        (λ _. k)

  break_even_stage-IsKept :
      (cfg : TrackerConfig F) (side : OrderSide) (s : F) (p : TrackedPosition F)
      (pips atr pip_mult : F)
      → IsKept side s p
      → IsKeptBy side s (break_even_stage cfg p pips atr pip_mult)
  unfolding break_even_stage
  break_even_stage-IsKept cfg side s p pips atr pip_mult k =
      if_intro (IsKeptBy side s) (pips ≥F break_even_pips cfg p atr)
        (λ _. record { kept = record { same = k.same; moved = nearer_stop-Moves p _ k } })
        (λ _. record { kept = k })

  module _ (laws : IsOrdered F) where
    open laws use {dec_nonneg, lt_of_add_lt, lt_of_lt_sub}

    lock-IsNearer :
        (side : OrderSide) (old stop margin : F)
        → (lit 0 ≤F margin) ≡ true
        → by_side side (stop >F (old +F margin)) ((old ==F lit 0) || (stop <F (old -F margin)))
          ≡ true
        → IsNearer side old stop
    lock-IsNearer OrderSide.side_buy old stop margin m h = lt_of_add_lt old margin stop m h
    lock-IsNearer OrderSide.side_sell old stop margin m h =
        ground (arith, lt_of_lt_sub old margin stop m)

    trail-IsNearer :
        (side : OrderSide) (old stop step : F)
        → (lit 0 ≤F step) ≡ true
        → by_side side (stop >F (old +F step)) (not (old ==F lit 0) && (stop <F (old -F step)))
          ≡ true
        → IsNearer side old stop
    trail-IsNearer OrderSide.side_buy old stop step m h = lt_of_add_lt old step stop m h
    trail-IsNearer OrderSide.side_sell old stop step m h =
        ground (arith, lt_of_lt_sub old step stop m)

    lock-IsKept :
        (side : OrderSide) (s : F) (p : TrackedPosition F) (gain : F) (m d stage : ℕ)
        → IsKept side s p
        → IsKeptBy side s (lock p gain (dec m d) stage)
    unfolding lock should_lock
    lock-IsKept side s p gain m d stage k =
        if_intro (IsKeptBy side s) (should_lock p (stop_at p gain) (dec m d))
          (λ e. record {
            kept = record {
              same = k.same;
              moved = move k.moved (
                  subst (λ a. IsNearer a p.stop_loss (stop_at p gain)) k.same
                    (lock-IsNearer p.side p.stop_loss (stop_at p gain) (dec m d) (dec_nonneg m d)
                      e));
            };
          })
          (λ _. record { kept = k })

    locker_stage-IsKept :
        (cfg : TrackerConfig F) (side : OrderSide) (s : F) (p : TrackedPosition F)
        (gain atr pip_mult : F)
        → IsKept side s p
        → IsKeptBy side s (locker_stage cfg p gain atr pip_mult)
    unfolding locker_stage
    locker_stage-IsKept cfg side s p gain atr pip_mult k =
        if_intro (IsKeptBy side s)
          ((gain ≥F f.max (atr *F cfg.stage3_atr_mult) (dec 850 2)) && ltb p.profit_stage 3)
          (λ _. lock-IsKept side s p (at_least (dec 750 2) (gain *F dec 75 2)) 25 2 3 k)
          (λ _.
            if_intro (IsKeptBy side s)
              ((gain ≥F f.max (atr *F cfg.stage2_atr_mult) (dec 600 2)) && ltb p.profit_stage 2)
              (λ _. lock-IsKept side s p (at_least (dec 350 2) (gain *F dec 50 2)) 25 2 2 k)
              (λ _.
                if_intro (IsKeptBy side s)
                  ((gain ≥F f.max (atr *F cfg.stage1_atr_mult) (dec 300 2)) && ltb p.profit_stage 1)
                  (λ _.
                    lock-IsKept side s p (f.max (cfg.break_even_buff_pips /F pip_mult) (dec 20 2))
                      15 2 1 k)
                  (λ _. record { kept = k })))

    protect_stage-IsKept :
        (cfg : TrackerConfig F) (side : OrderSide) (s : F) (p : TrackedPosition F)
        (gain pips atr pip_mult : F)
        → IsKept side s p
        → IsKeptBy side s (protect_stage cfg p gain pips atr pip_mult)
    unfolding protect_stage
    protect_stage-IsKept cfg side s p gain pips atr pip_mult k =
        if_intro (IsKeptBy side s) (cfg.enable_profit_locker && is_gold p)
          (λ _. locker_stage-IsKept cfg side s p gain atr pip_mult k)
          (λ _.
            if_intro (IsKeptBy side s) (cfg.enable_break_even && not p.break_even_triggered)
              (λ _. break_even_stage-IsKept cfg side s p pips atr pip_mult k)
              (λ _. record { kept = k }))

    trail_step-nonneg :
        (p : TrackedPosition F) (pip_mult : F)
        → (lit 0 ≤F (lit 5 /F pip_mult)) ≡ true
        → (lit 0 ≤F trail_step p pip_mult) ≡ true
    trail_step-nonneg p pip_mult h =
        if_intro (λ (x : F). (lit 0 ≤F x) ≡ true) (is_gold p) (λ _. dec_nonneg 25 2) (λ _. h)

    trailing_stage-IsKept :
        (cfg : TrackerConfig F) (side : OrderSide) (s : F) (p : TrackedPosition F) (tick : Tick F)
        (pips atr pip_mult : F)
        → (lit 0 ≤F (lit 5 /F pip_mult)) ≡ true
        → IsKept side s p
        → IsKeptBy side s (trailing_stage cfg p tick pips atr pip_mult)
    unfolding trailing_stage should_trail
    trailing_stage-IsKept cfg side s p tick pips atr pip_mult pos_step k =
        let q = record p { high_water_mark = pips } in
        let stop = trail_stop cfg q tick atr pip_mult in
        if_intro (IsKeptBy side s) (cfg.enable_trailing && (pips >F p.high_water_mark))
          (λ _.
            if_intro (IsKeptBy side s) (should_trail q stop (trail_step q pip_mult))
              (λ e. record {
                kept = record {
                  same = k.same;
                  moved = move k.moved (
                      subst (λ a. IsNearer a p.stop_loss stop) k.same
                        (trail-IsNearer p.side p.stop_loss stop (trail_step q pip_mult)
                          (trail_step-nonneg q pip_mult pos_step) e));
                };
              })
              (λ _. record { kept = record { same = k.same; moved = k.moved } }))
          (λ _. record { kept = k })

    exit_stage-IsKept :
        (cfg : TrackerConfig F) (side : OrderSide) (s : F) (p : TrackedPosition F) (tick : Tick F)
        (pips : F) (now : ℕ)
        → IsKept side s p
        → IsKept side s (exit_stage cfg p tick pips now).0
    unfolding exit_stage
    exit_stage-IsKept cfg side s p tick pips now k =
        elim (Option-cases (exit_reason cfg p tick pips)) [
          | inl e ↦ rw (e, exit_stage) k
          | inr (r, e) ↦ rw (e, exit_stage) record { same = k.same; moved = k.moved }
        ]

    tick_position-IsKept :
        (cfg : TrackerConfig F) (p : TrackedPosition F) (tick : Tick F) (atr pip_mult : F) (now : ℕ)
        → (lit 0 ≤F (lit 5 /F pip_mult)) ≡ true
        → IsKept p.side p.stop_loss (tick_position cfg p tick atr pip_mult now).after
    unfolding tick_position run_stages mark
    tick_position-IsKept cfg p tick atr pip_mult now h =
        let q = mark p tick pip_mult in
        let start : IsKept p.side p.stop_loss q = record { same = refl; moved = Moves.stay } in
        if_intro (λ (e : Effect F). IsKept p.side p.stop_loss e.after) (is_time_stopped cfg q tick)
          (λ _. record { same = refl; moved = Moves.stay })
          (λ _.
            exit_stage-IsKept cfg p.side p.stop_loss _ tick _ now
              (trailing_stage-IsKept cfg p.side p.stop_loss _ tick _ atr pip_mult h
                (protect_stage-IsKept cfg p.side p.stop_loss _ _ _ atr pip_mult (
                  partial_stage-IsKept cfg p.side p.stop_loss q tick _ pip_mult now
                    start)).kept).kept)

    -- A tick never moves the stop loss of a position away from the price. For a buy the stop after
    -- the tick is reached from the old one by moves up only; for a sell by moves down only, but for
    -- a first stop that takes the place of none (zero). The side stays. The numbers are ordered, and
    -- the least step of the trailing stop, five pips, is not negative.
    pub tick_position-Moves :
        (cfg : TrackerConfig F) (p : TrackedPosition F) (tick : Tick F) (atr pip_mult : F) (now : ℕ)
        → (lit 0 ≤F (lit 5 /F pip_mult)) ≡ true
        → ((tick_position cfg p tick atr pip_mult now).after.side ≡ p.side)
          × Moves p.side p.stop_loss (tick_position cfg p tick atr pip_mult now).after.stop_loss
    tick_position-Moves cfg p tick atr pip_mult now h =
        let k = tick_position-IsKept cfg p tick atr pip_mult now h in (k.same, k.moved)
