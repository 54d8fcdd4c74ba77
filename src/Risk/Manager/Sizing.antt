-- ===== src/Risk/Manager/Sizing.antt =====
-- The lots of an order that `EvaluateWithConfidence` hands out.
use scalp_bot_os.Base.{
  ℕ, ◌≡◌, ap, ◌∙◌, refl, true, false, ◌⊎◌, inl, inr, Bool-cases, Float, ◌<F◌, ◌>F◌, lit, IsOrdered,
  arith,
}
use scalp_bot_os.Model.Types.{Tick, Signal, OrderRequest}
use scalp_bot_os.Risk.Manager.{Manager}
use scalp_bot_os.Risk.Manager.Evaluate.{
  Outcome, approved, rejected, round_lots, scale_lots, confident_lots, evaluate, resize,
  evaluate_with_confidence,
}

module _ {F : Type 0} ⦃f : Float F⦄ where
  resize-approved :
      (r : Manager F × Outcome (OrderRequest F)) (m' : Manager F) (confidence : F)
      (o : OrderRequest F)
      → resize confidence r ≡ (m', approved o)
      → (base : OrderRequest F) × (r ≡ (m', approved base))
        × (o ≡ record base { lots = confident_lots m' confidence base.lots })
  unfolding resize
  resize-approved (n, rejected e) m' confidence o h = cc
  resize-approved (n, approved b) m' confidence o h = (b, ground arith, ground arith)

  -- A lot size that the user has fixed overrides every other: each order that is handed out has it,
  -- rounded to the hundredth.
  evaluate_with_confidence-fixed :
      (m m' : Manager F) (s : Signal F) (tick : Tick F) (atr confidence : F) (now : ℕ)
      (o : OrderRequest F)
      → (m'.fixed_lots >F lit 0) ≡ true
      → evaluate_with_confidence m s tick atr confidence now ≡ (m', approved o)
      → o.lots ≡ round_lots m'.fixed_lots
  unfolding evaluate_with_confidence confident_lots
  evaluate_with_confidence-fixed m m' s tick atr confidence now o fixed h =
      let (base, called, made) = resize-approved (evaluate m s tick atr now) m' confidence o h in
      ap (λ (p : OrderRequest F). p.lots) made ∙ rw fixed

  module _ (laws : IsOrdered F) where
    open laws use {lt_irrefl, le-not_lt, le_of_lt}

    scale_lots_bounds :
        (low high confidence : F)
        → (low <F high) ≡ true
        → ((scale_lots low high confidence <F low) ≡ false)
          × ((scale_lots low high confidence >F high) ≡ false)
    unfolding scale_lots
    scale_lots_bounds low high confidence h =
        ground (arith, lt_irrefl low, lt_irrefl high, le_of_lt low high h, le-not_lt low high)

    -- With a confidence and no fixed lots, each order that is handed out is the one of `Evaluate`. If
    -- the least lots configured are below the greatest, it has other lots, which lie neither below the
    -- least nor above the greatest, whatever the rounding does; if not, it is the very order of
    -- `Evaluate`, the lots included, which this says nothing of.
    pub evaluate_with_confidence_bounds :
        (m m' : Manager F) (s : Signal F) (tick : Tick F) (atr confidence : F) (now : ℕ)
        (o : OrderRequest F)
        → (m'.fixed_lots >F lit 0) ≡ false
        → (confidence >F lit 0) ≡ true
        → evaluate_with_confidence m s tick atr confidence now ≡ (m', approved o)
        → (base : OrderRequest F) × (evaluate m s tick atr now ≡ (m', approved base))
          × (((m'.cfg.min_lot_size <F m'.cfg.max_lot_size) ≡ true)
                × ((o.lots <F m'.cfg.min_lot_size) ≡ false)
                × ((o.lots >F m'.cfg.max_lot_size) ≡ false)
                × (record o { lots = base.lots } ≡ base)
              ⊎ ((m'.cfg.min_lot_size <F m'.cfg.max_lot_size) ≡ false) × (o ≡ base))
    unfolding evaluate_with_confidence confident_lots
    evaluate_with_confidence_bounds m m' s tick atr confidence now o free some_confidence h =
        let low = m'.cfg.min_lot_size in
        let high = m'.cfg.max_lot_size in
        let (base, called, made) = resize-approved (evaluate m s tick atr now) m' confidence o h in
        let lots = ap (λ (p : OrderRequest F). p.lots) made in
        elim (Bool-cases (low <F high)) [
          | inl room ↦
              let scaled : o.lots ≡ scale_lots low high confidence =
                lots ∙ rw (free, some_confidence, room) in
              let (not_less, not_greater) = scale_lots_bounds low high confidence room in
              (
                base,
                called,
                inl (
                  room,
                  rw scaled not_less,
                  rw scaled not_greater,
                  ap (λ (p : OrderRequest F). record p { lots = base.lots }) made,
                ),
              )
          | inr none_free ↦
              (base, called, inr (none_free, made ∙ rw (free, some_confidence, none_free) refl))
        ]
