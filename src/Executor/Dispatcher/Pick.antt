-- ===== src/Executor/Dispatcher/Pick.antt =====
-- Picking an order out of those that are executed, and counting the orders of a symbol.
use mathlib.Core.List.Perm
use mathlib.Core.List.{Perm}
use scalp_bot_os.Base.{
  ℕ, zero, suc, ◌+◌, ◌≤◌, ◌<◌, ◌≡◌, refl, ap, ◌⊎◌, inl, inr, if◌then◌else◌, List, [], ◌∷◌, ◌++◌,
  length, none, some, Text, text_eq, arith,
}
use scalp_bot_os.Model.Types.{OrderRequest}
use scalp_bot_os.Executor.Dispatcher.{pick, symbol_key}

module _ {F : Type 0} where
  abbrev pub one_if : Text → OrderRequest F → ℕ
  one_if k o = if text_eq (symbol_key o) k then 1 else 0

  -- The orders of a list whose symbol is a key.
  abbrev pub count : Text → List (OrderRequest F) → ℕ
  count k [] = 0
  count k (o ∷ os) = one_if k o + count k os

  pub count-append :
      (k : Text) (xs ys : List (OrderRequest F)) → count k (xs ++ ys) ≡ count k xs + count k ys
  count-append k [] ys = omega arith
  count-append k (x ∷ xs) ys = omega (arith, count-append k xs ys)

  -- An order that is picked leaves the others.
  pub record IsPicked (os : List (OrderRequest F)) (o : OrderRequest F)
      (rest : List (OrderRequest F)) : Type 0 where
    pub one_less : length os ≡ suc (length rest)
    pub others : Perm os (o ∷ rest)
    pub counts : (k : Text) → count k os ≡ one_if k o + count k rest

  pub pick_cases :
      (n : ℕ) (os : List (OrderRequest F))
      → ((pick n os ≡ none) × (length os ≤ n))
        ⊎ ((p : OrderRequest F × List (OrderRequest F)) × (pick n os ≡ some p)
            × IsPicked os p.0 p.1
            × (n < length os))
  pick_cases n [] = inl (refl, omega arith)
  pick_cases zero (o ∷ os) = inr (
    (o, os),
    refl,
    record { one_less = refl; others = Perm.refl (o ∷ os); counts = λ k. refl },
    omega arith,
  )
  pick_cases (suc n) (o ∷ os) = elim (pick_cases n os) [
    | inl (e, l) ↦ inl (rw e refl, omega (arith, l))
    | inr ((p, rest), e, h, l) ↦ inr (
      (p, o ∷ rest),
      rw e refl,
      record {
        one_less = ap suc h.one_less;
        others = Perm.trans (Perm.cons o h.others) (Perm.swap p o rest);
        counts = λ k. omega (arith, h.counts k);
      },
      omega (arith, l),
    )
  ]
