-- ===== src/Backtest/Metrics/Counts.antt =====
-- The counts of the report: trades, wins, losses and reasons.
use scalp_bot_os.Base.{
  ℕ, ◌+◌, ◌≡◌, refl, sym, ap, ◌∙◌, Bool, true, false, if◌then◌else◌, Bool-cases, inl, inr, List, [],
  ◌∷◌, length, some, Text, text_eq, text_eq_iff, Float, IsOrdered, ◌<F◌, ◌>F◌, lit, arith,
}
use scalp_bot_os.Base.Dict.{lookup, insert, lookup-insert}
use scalp_bot_os.Backtest.Metrics.{
  TradeRecord, EquityPoint, Totals, add_trade, add_trades, no_totals, count_at, tallied,
  calculate_metrics, report_of, empty_report,
}

one_more : (n : ℕ) → n + 1 ≡ 1 + n
one_more n = omega arith

none_more : (n : ℕ) → n ≡ 0 + n
none_more n = omega arith

module _ {F : Type 0} ⦃f : Float F⦄ where
  -- How many trades satisfy a test.
  abbrev pub trades_with : (TradeRecord F → Bool) → List (TradeRecord F) → ℕ
  trades_with test [] = 0
  trades_with test (tr ∷ trs) = (if test tr then 1 else 0) + trades_with test trs

  abbrev pub is_win : TradeRecord F → Bool
  is_win tr = tr.pnl >F lit 0

  abbrev pub is_loss : TradeRecord F → Bool
  is_loss tr = tr.pnl <F lit 0

  abbrev pub has_reason : Text → TradeRecord F → Bool
  has_reason key tr = text_eq tr.reason key

  module _ (o : IsOrdered F) where
    wins-add_trades :
        (initial : F) (trs : List (TradeRecord F)) (t : Totals F)
        → (add_trades initial t trs).wins ≡ t.wins + trades_with is_win trs
    unfolding add_trades add_trade
    wins-add_trades initial [] t = omega arith
    wins-add_trades initial (tr ∷ trs) t =
        let rest = wins-add_trades initial trs (add_trade initial t tr) in
        elim (Bool-cases (is_win tr)) [
          | inl win ↦ ground (arith, win, rest)
          | inr not_win ↦ ground (arith, not_win, rest)
        ]

    win-not_loss : (tr : TradeRecord F) → is_win tr ≡ true → is_loss tr ≡ false
    win-not_loss tr win = elim (Bool-cases (is_loss tr)) [
      | inl loss ↦
          absurd (ground (arith, o.lt_irrefl tr.pnl, o.lt_trans tr.pnl (lit 0) tr.pnl loss win))
      | inr fine ↦ fine
    ]

    losses-add_trades :
        (initial : F) (trs : List (TradeRecord F)) (t : Totals F)
        → (add_trades initial t trs).losses ≡ t.losses + trades_with is_loss trs
    unfolding add_trades add_trade
    losses-add_trades initial [] t = omega arith
    losses-add_trades initial (tr ∷ trs) t =
        let rest = losses-add_trades initial trs (add_trade initial t tr) in
        elim (Bool-cases (is_win tr)) [
          | inl win ↦ ground (arith, win, win-not_loss tr win, rest)
          | inr not_win ↦ elim (Bool-cases (is_loss tr)) [
            | inl loss ↦ ground (arith, not_win, loss, rest)
            | inr flat ↦ ground (arith, not_win, flat, rest)
          ]
        ]

    count_at-insert :
        (key k : Text) (m : List (Text × ℕ))
        → count_at key (insert k (count_at k m + 1) m)
          ≡ (if text_eq k key then 1 else 0) + count_at key m
    count_at-insert key k m =
        let found = ap tallied (lookup-insert k key (count_at k m + 1) m) in
        elim (Bool-cases (text_eq k key)) [
          | inl same ↦
              let at : k ≡ key = (text_eq_iff k key).0 same in
              found
              ∙ (ap (λ b. tallied (if b then some (count_at k m + 1) else lookup key m)) same
                  ∙ (ap (λ j. count_at j m + 1) at
                      ∙ (one_more (count_at key m)
                          ∙ ap (λ b. (if b then 1 else 0) + count_at key m) (sym same))))
          | inr other ↦
              found
              ∙ (ap (λ b. tallied (if b then some (count_at k m + 1) else lookup key m)) other
                  ∙ (none_more (count_at key m)
                      ∙ ap (λ b. (if b then 1 else 0) + count_at key m) (sym other)))
        ]

    reasons-add_trades :
        (initial : F) (key : Text) (trs : List (TradeRecord F)) (t : Totals F)
        → count_at key (add_trades initial t trs).reasons
          ≡ count_at key t.reasons + trades_with (has_reason key) trs
    unfolding add_trades add_trade
    reasons-add_trades initial key [] t = omega arith
    reasons-add_trades initial key (tr ∷ trs) t =
        let rest = reasons-add_trades initial key trs (add_trade initial t tr) in
        let step = count_at-insert key tr.reason t.reasons in omega (arith, rest, step)

    -- The report counts every trade: all of them, those with a gain, those with a loss, and under each
    -- reason those that closed for it.
    pub calculate_metrics_counts :
        (initial : F) (trs : List (TradeRecord F)) (curve : List (EquityPoint F)) (key : Text)
        → let report = calculate_metrics initial trs curve in
          (report.total_trades ≡ length trs)
          × (report.winning_trades ≡ trades_with is_win trs)
          × (report.losing_trades ≡ trades_with is_loss trs)
          × (count_at key report.close_reasons ≡ trades_with (has_reason key) trs)
    unfolding calculate_metrics report_of empty_report lookup
    calculate_metrics_counts initial [] curve key = (refl, refl, refl, refl)
    calculate_metrics_counts initial (tr ∷ trs) curve key = (
      refl,
      wins-add_trades initial (tr ∷ trs) no_totals ∙ omega arith,
      losses-add_trades initial (tr ∷ trs) no_totals ∙ omega arith,
      reasons-add_trades initial key (tr ∷ trs) no_totals ∙ omega arith,
    )
