-- ===== src/Executor/Tracker/OnTick/Changes.antt =====
-- What each stage of a tick changes in a position, and what it reports.
use scalp_bot_os.Base.{
  ℕ, ◌≡◌, refl, inl, inr, Bool, true, false, not, ◌&&◌, Bool-cases, if_intro, if◌then◌else◌, ltb,
  List, [], ◌∷◌, Float, ◌-F◌, ◌*F◌, ◌/F◌, ◌<F◌, ◌>F◌, ◌≥F◌, dec, arith,
}
use scalp_bot_os.Model.Types.{Tick}
use scalp_bot_os.Executor.Tracker.{
  TrackedPosition, TrackerConfig, CloseEvent, ModifyEvent, PositionState,
}
use scalp_bot_os.Executor.Tracker.Stages.{
  stop_at, should_lock, should_trail, run_on, split_off, partial_stage, partial_lots,
  is_partial_due, is_gold,
}
use scalp_bot_os.Executor.Tracker.Stages.Protect.{
  lock, locker_stage, break_even_stage, protect_stage, trail_stop, trail_step, trailing_stage,
  at_least, break_even_pips,
}

unfoldable pub is_closed : PositionState → Bool
is_closed PositionState.pos_open = false
is_closed PositionState.pos_modified = false
is_closed PositionState.pos_closed = true

-- The stop loss that someone holds who applies the modifications in order.
unfoldable pub last_stop : {F : Type 0} → F → List (ModifyEvent F) → F
last_stop s [] = s
last_stop s (m ∷ ms) = last_stop m.stop_loss ms

-- The closes of a part of a position, and those of the whole.
unfoldable pub partials : {F : Type 0} → List (CloseEvent F) → List (CloseEvent F)
partials [] = []
partials (c ∷ cs) = if c.is_partial then c ∷ partials cs else partials cs

unfoldable pub fulls : {F : Type 0} → List (CloseEvent F) → List (CloseEvent F)
fulls [] = []
fulls (c ∷ cs) = if c.is_partial then fulls cs else c ∷ fulls cs

-- A position after a stage that may move its stop, and the modifications that it reports.
pub record IsProtected {F : Type 0} (p : TrackedPosition F)
    (r : TrackedPosition F × List (ModifyEvent F)) : Type 0 where
  pub same_id : r.0.order_id ≡ p.order_id
  pub still_open : is_closed p.state ≡ false → is_closed r.0.state ≡ false
  pub reported : last_stop p.stop_loss r.1 ≡ r.0.stop_loss
  pub same_lots : r.0.remaining_lots ≡ p.remaining_lots
  pub same_partial : r.0.partial_tp_triggered ≡ p.partial_tp_triggered

unchanged : {F : Type 0} (p : TrackedPosition F) → IsProtected p (p, [])
unfolding last_stop
unchanged p = record {
  same_id = refl;
  still_open = λ h. h;
  reported = refl;
  same_lots = refl;
  same_partial = refl;
}

module _ {F : Type 0} ⦃f : Float F⦄ where
  lock-IsProtected :
      (p : TrackedPosition F) (gain margin : F) (stage : ℕ)
      → IsProtected p (lock p gain margin stage)
  unfolding lock last_stop is_closed
  lock-IsProtected p gain margin stage = elim (Bool-cases (should_lock p (stop_at p gain) margin)) [
    | inl e ↦
        rw (e, lock)
          record {
            same_id = refl;
            still_open = λ _. refl;
            reported = refl;
            same_lots = refl;
            same_partial = refl;
          }
    | inr e ↦ rw (e, lock) (unchanged p)
  ]

  locker_stage-IsProtected :
      (cfg : TrackerConfig F) (p : TrackedPosition F) (gain atr pip_mult : F)
      → IsProtected p (locker_stage cfg p gain atr pip_mult)
  unfolding locker_stage
  locker_stage-IsProtected cfg p gain atr pip_mult =
      if_intro (IsProtected p)
        ((gain ≥F f.max (atr *F cfg.stage3_atr_mult) (dec 850 2)) && ltb p.profit_stage 3)
        (λ _. lock-IsProtected p (at_least (dec 750 2) (gain *F dec 75 2)) (dec 25 2) 3)
        (λ _.
          if_intro (IsProtected p)
            ((gain ≥F f.max (atr *F cfg.stage2_atr_mult) (dec 600 2)) && ltb p.profit_stage 2)
            (λ _. lock-IsProtected p (at_least (dec 350 2) (gain *F dec 50 2)) (dec 25 2) 2)
            (λ _.
              if_intro (IsProtected p)
                ((gain ≥F f.max (atr *F cfg.stage1_atr_mult) (dec 300 2)) && ltb p.profit_stage 1)
                (λ _.
                  lock-IsProtected p (f.max (cfg.break_even_buff_pips /F pip_mult) (dec 20 2))
                    (dec 15 2) 1)
                (λ _. unchanged p)))

  break_even_stage-IsProtected :
      (cfg : TrackerConfig F) (p : TrackedPosition F) (pips atr pip_mult : F)
      → IsProtected p (break_even_stage cfg p pips atr pip_mult)
  unfolding break_even_stage last_stop is_closed
  break_even_stage-IsProtected cfg p pips atr pip_mult =
      elim (Bool-cases (pips ≥F break_even_pips cfg p atr)) [
        | inl e ↦
            rw (e, break_even_stage)
              record {
                same_id = refl;
                still_open = λ _. refl;
                reported = refl;
                same_lots = refl;
                same_partial = refl;
              }
        | inr e ↦ rw (e, break_even_stage) (unchanged p)
      ]

  pub protect_stage-IsProtected :
      (cfg : TrackerConfig F) (p : TrackedPosition F) (gain pips atr pip_mult : F)
      → IsProtected p (protect_stage cfg p gain pips atr pip_mult)
  unfolding protect_stage
  protect_stage-IsProtected cfg p gain pips atr pip_mult =
      if_intro (IsProtected p) (cfg.enable_profit_locker && is_gold p)
        (λ _. locker_stage-IsProtected cfg p gain atr pip_mult)
        (λ _.
          if_intro (IsProtected p) (cfg.enable_break_even && not p.break_even_triggered)
            (λ _. break_even_stage-IsProtected cfg p pips atr pip_mult) (λ _. unchanged p))

  pub trailing_stage-IsProtected :
      (cfg : TrackerConfig F) (p : TrackedPosition F) (tick : Tick F) (pips atr pip_mult : F)
      → IsProtected p (trailing_stage cfg p tick pips atr pip_mult)
  unfolding trailing_stage last_stop is_closed
  trailing_stage-IsProtected cfg p tick pips atr pip_mult =
      let q = record p { high_water_mark = pips } in
      let stop = trail_stop cfg q tick atr pip_mult in
      elim (Bool-cases (cfg.enable_trailing && (pips >F p.high_water_mark))) [
        | inl e ↦ elim (Bool-cases (should_trail q stop (trail_step q pip_mult))) [
          | inl d ↦
              rw (e, d, trailing_stage)
                record {
                  same_id = refl;
                  still_open = λ _. refl;
                  reported = refl;
                  same_lots = refl;
                  same_partial = refl;
                }
          | inr d ↦
              rw (e, d, trailing_stage)
                record {
                  same_id = refl;
                  still_open = λ h. h;
                  reported = refl;
                  same_lots = refl;
                  same_partial = refl;
                }
        ]
        | inr e ↦ rw (e, trailing_stage) (unchanged p)
      ]

  -- The partial take profit: no close, or one of some lots but not of all that is left.
  pub record IsSplit (p q : TrackedPosition F) (c : CloseEvent F) : Type 0 where
    pub was_whole : p.partial_tp_triggered ≡ false
    pub is_split : q.partial_tp_triggered ≡ true
    pub not_tiny : (c.lots <F dec 1 2) ≡ false
    pub not_all : (c.lots <F p.remaining_lots) ≡ true
    pub left : q.remaining_lots ≡ p.remaining_lots -F c.lots

  pub record IsWhole (p q : TrackedPosition F) : Type 0 where
    pub same_lots : q.remaining_lots ≡ p.remaining_lots
    pub still_split : p.partial_tp_triggered ≡ true → q.partial_tp_triggered ≡ true

  pub data Split (p q : TrackedPosition F) : List (CloseEvent F) → Type 0 where
    whole : IsWhole p q → Split p q []
    split : (c : CloseEvent F) → c.is_partial ≡ true → IsSplit p q c → Split p q (c ∷ [])

  pub record IsPartialStep (p : TrackedPosition F)
      (r : TrackedPosition F × List (CloseEvent F) × List (ModifyEvent F)) : Type 0 where
    pub same_id : r.0.order_id ≡ p.order_id
    pub still_open : is_closed p.state ≡ false → is_closed r.0.state ≡ false
    pub reported : last_stop p.stop_loss r.2 ≡ r.0.stop_loss
    pub parts : Split p r.0 r.1

  due-whole :
      (cfg : TrackerConfig F) (p : TrackedPosition F) (pips : F)
      → is_partial_due cfg p pips ≡ true
      → p.partial_tp_triggered ≡ false
  unfolding is_partial_due
  due-whole cfg p pips h = ground arith

  pub partial_stage-IsPartialStep :
      (cfg : TrackerConfig F) (p : TrackedPosition F) (tick : Tick F) (pips pip_mult : F) (now : ℕ)
      → IsPartialStep p (partial_stage cfg p tick pips pip_mult now)
  unfolding partial_stage run_on split_off last_stop is_closed
  partial_stage-IsPartialStep cfg p tick pips pip_mult now =
      let same : IsPartialStep p (p, [], []) = record {
        same_id = refl;
        still_open = λ h. h;
        reported = refl;
        parts = Split.whole record { same_lots = refl; still_split = λ h. h };
      } in
      elim (Bool-cases (is_partial_due cfg p pips)) [
        | inl due ↦ elim (Bool-cases (partial_lots cfg p <F dec 1 2)) [
          | inl tiny ↦
              rw (due, tiny, partial_stage)
                record {
                  same_id = refl;
                  still_open = λ _. refl;
                  reported = refl;
                  parts = Split.whole record { same_lots = refl; still_split = λ _. refl };
                }
          | inr not_tiny ↦ elim (Bool-cases (partial_lots cfg p <F p.remaining_lots)) [
            | inl not_all ↦
                rw (due, not_tiny, not_all, partial_stage)
                  record {
                    same_id = refl;
                    still_open = λ _. refl;
                    reported = refl;
                    parts = Split.split _ refl record {
                      was_whole = due-whole cfg p pips due;
                      is_split = refl;
                      not_tiny = not_tiny;
                      not_all = not_all;
                      left = refl;
                    };
                  }
            | inr all ↦ rw (due, not_tiny, all, partial_stage) same
          ]
        ]
        | inr e ↦ rw (e, partial_stage) same
      ]
