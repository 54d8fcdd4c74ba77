-- ===== src/Portfolio/Correlation.antt =====
-- internal/portfolio/correlation.go: no more than a number of positions that move with a new one. The
-- texts of the reasons and the mutex are left out.
use scalp_bot_os.Base.{
  ℕ, zero, suc, ◌+◌, ◌<◌, Bool, true, false, not, ◌&&◌, ltb, leb, if◌then◌else◌, ◌≡◌, ap, ◌∙◌, ℤ,
  pos, negsuc, List, [], ◌∷◌, Option, none, some, Text, bytes, text_eq, Float, ◌≤F◌, ◌≥F◌, dec, lit,
  Bool-cases, inl, inr, arith,
}
use scalp_bot_os.Base.Dict.{lookup, insert}
use scalp_bot_os.Model.Types.{OrderSide, Position}
use scalp_bot_os.Model.Symbol.{normalize_symbol}

abbrev pub Matrix : Type 0 → Type 0
Matrix F = List (Text × List (Text × F))

pub record CorrelationGuard (F : Type 0) : Type 0 where
  pub matrix : Matrix F
  pub max_correlated_count : ℕ

abbrev pub at_least_one : ℤ → ℕ
at_least_one (pos zero) = 1
at_least_one (pos (suc k)) = suc k
at_least_one (negsuc k) = 1

abbrev pub side_eq : OrderSide → OrderSide → Bool
side_eq OrderSide.side_buy OrderSide.side_buy = true
side_eq OrderSide.side_buy OrderSide.side_sell = false
side_eq OrderSide.side_sell OrderSide.side_buy = false
side_eq OrderSide.side_sell OrderSide.side_sell = true

-- A test that holds counts one more.
abbrev pub counted_up : Bool → ℕ → ℕ
counted_up test count = if test then suc count else count

-- One round of the loop, where the rest of the loop counts on from what it is given.
abbrev round : Bool → Bool → Bool → Bool → ℕ → ℕ → Bool → (ℕ → Bool) → Bool
round same high low same_side max count skipped again =
    let together = high && same_side in
    let against = low && not same_side in
    let one = counted_up together count in
    let two = counted_up against one in
    if same
    then skipped
    else if together && leb max one
    then false
    else if against && leb max two
    then false
    else again two

one_more :
    (max count rest : ℕ) (again : ℕ → Bool)
    → ((c : ℕ) → c < max → again c ≡ ltb (c + rest) max)
    → (if leb max (suc count) then false else again (suc count)) ≡ ltb (count + (1 + rest)) max
one_more max count rest again h = elim (Bool-cases (leb max (suc count))) [
  | inl e ↦ rw e (ground (arith, e))
  | inr e ↦ rw e (h (suc count) (ground (arith, e)) ∙ ground arith)
]

no_more :
    (max count rest : ℕ) (b : Bool) → b ≡ ltb (count + rest) max → b ≡ ltb (count + (0 + rest)) max
no_more max count rest b h = ground (arith, h)

round-counts :
    (same high low same_side : Bool) (max count rest : ℕ) (skipped : Bool) (again : ℕ → Bool)
    → count < max
    → skipped ≡ ltb (count + rest) max
    → ((c : ℕ) → c < max → again c ≡ ltb (c + rest) max)
    → round same high low same_side max count skipped again
      ≡ ltb (count + ((if not same && (if same_side then high else low) then 1 else 0) + rest)) max
round-counts true high low side max count rest skipped again l s h =
    no_more max count rest skipped s
round-counts false true true true max count rest skipped again l s h =
    one_more max count rest again h
round-counts false true false true max count rest skipped again l s h =
    one_more max count rest again h
round-counts false false true true max count rest skipped again l s h =
    no_more max count rest (again count) (h count l)
round-counts false false false true max count rest skipped again l s h =
    no_more max count rest (again count) (h count l)
round-counts false true true false max count rest skipped again l s h =
    one_more max count rest again h
round-counts false false true false max count rest skipped again l s h =
    one_more max count rest again h
round-counts false true false false max count rest skipped again l s h =
    no_more max count rest (again count) (h count l)
round-counts false false false false max count rest skipped again l s h =
    no_more max count rest (again count) (h count l)

one_is_least : (n : ℤ) → 0 < at_least_one n
one_is_least (pos zero) = omega arith
one_is_least (pos (suc k)) = omega arith
one_is_least (negsuc k) = omega arith

zero_plus : (n : ℕ) → 0 + n ≡ n
zero_plus n = omega arith

module _ {F : Type 0} where
  -- A symbol that has no row has an empty one.
  abbrev pub row : Option (List (Text × F)) → List (Text × F)
  row none = []
  row (some r) = r

  unfoldable pub set_entry : Matrix F → Text → Text → F → Matrix F
  set_entry matrix s1 s2 corr = insert s1 (insert s2 corr (row (lookup s1 matrix))) matrix

  unfoldable pub entry : Matrix F → Text → Text → Option F
  entry matrix s1 s2 = lookup s2 (row (lookup s1 matrix))

  unfoldable pub set_pair_corr : Matrix F → Text → Text → F → Matrix F
  unfolding set_entry
  set_pair_corr matrix sym1 sym2 corr =
      let s1 = normalize_symbol sym1 in
      let s2 = normalize_symbol sym2 in set_entry (set_entry matrix s1 s2 corr) s2 s1 corr

module _ {F : Type 0} ⦃f : Float F⦄ where
  abbrev pub correlation_threshold : F
  correlation_threshold = dec 70 2

  -- The matrix of `NewCorrelationGuard`.
  unfoldable pub standard_matrix : Matrix F
  standard_matrix =
      let m1 = set_pair_corr [] (bytes "EURUSD") (bytes "GBPUSD") (dec 82 2) in
      let m2 = set_pair_corr m1 (bytes "EURUSD") (bytes "USDCHF") (f.neg (dec 88 2)) in
      let m3 = set_pair_corr m2 (bytes "EURUSD") (bytes "XAUUSD") (dec 65 2) in
      let m4 = set_pair_corr m3 (bytes "EURUSD") (bytes "USDJPY") (f.neg (dec 40 2)) in
      let m5 = set_pair_corr m4 (bytes "GBPUSD") (bytes "USDJPY") (f.neg (dec 45 2)) in
      let m6 = set_pair_corr m5 (bytes "GBPUSD") (bytes "XAUUSD") (dec 60 2) in
      let m7 = set_pair_corr m6 (bytes "USDJPY") (bytes "XAUUSD") (f.neg (dec 55 2)) in
      let m8 = set_pair_corr m7 (bytes "AUDUSD") (bytes "NZDUSD") (dec 88 2) in
      set_pair_corr m8 (bytes "EURUSD") (bytes "AUDUSD") (dec 72 2)

  unfoldable pub new_correlation_guard : ℤ → CorrelationGuard F
  new_correlation_guard max_correlated = record {
    matrix = standard_matrix;
    max_correlated_count = at_least_one max_correlated;
  }

  -- A missing entry reads as 0.
  abbrev pub or_zero : Option F → F
  or_zero none = lit 0
  or_zero (some c) = c

  unfoldable pub get_correlation : CorrelationGuard F → Text → Text → F
  get_correlation cg sym1 sym2 =
      let s1 = normalize_symbol sym1 in
      let s2 = normalize_symbol sym2 in
      if text_eq s1 s2 then lit 1 else or_zero (entry cg.matrix s1 s2)

  -- The two tests of the loop of `CheckCorrelation`.
  abbrev pub moves_together : F → OrderSide → OrderSide → Bool
  moves_together corr side new_side = (corr ≥F correlation_threshold) && side_eq side new_side

  abbrev pub moves_against : F → OrderSide → OrderSide → Bool
  moves_against corr side new_side =
      (corr ≤F f.neg correlation_threshold) && not (side_eq side new_side)

  unfoldable pub check_from : CorrelationGuard F → Text → OrderSide → ℕ → List (Position F) → Bool
  check_from cg s1 new_side count [] = true
  check_from cg s1 new_side count (p ∷ ps) =
      let s2 = normalize_symbol p.symbol in
      let corr = or_zero (entry cg.matrix s1 s2) in
      let together = moves_together corr p.side new_side in
      let against = moves_against corr p.side new_side in
      let one = counted_up together count in
      let two = counted_up against one in
      let skipped = check_from cg s1 new_side count ps in
      let rest = check_from cg s1 new_side two ps in
      if text_eq s1 s2
      then skipped
      else if together && leb cg.max_correlated_count one
      then false
      else if against && leb cg.max_correlated_count two
      then false
      else rest

  unfoldable pub check_correlation :
      CorrelationGuard F → Text → OrderSide → List (Position F) → Bool
  check_correlation cg new_symbol new_side positions =
      check_from cg (normalize_symbol new_symbol) new_side 0 positions

  -- A position of another symbol that is correlated and on the same side, or inversely and on the
  -- other.
  unfoldable pub is_conflict : CorrelationGuard F → Text → OrderSide → Position F → Bool
  is_conflict cg s1 new_side p =
      let s2 = normalize_symbol p.symbol in
      let corr = or_zero (entry cg.matrix s1 s2) in
      not (text_eq s1 s2)
      && (if side_eq p.side new_side
          then corr ≥F correlation_threshold
          else corr ≤F f.neg correlation_threshold)

  unfoldable pub conflicts : CorrelationGuard F → Text → OrderSide → List (Position F) → ℕ
  conflicts cg s1 new_side [] = 0
  conflicts cg s1 new_side (p ∷ ps) =
      (if is_conflict cg s1 new_side p then 1 else 0) + conflicts cg s1 new_side ps

  check_from-conflicts :
      (cg : CorrelationGuard F) (s1 : Text) (new_side : OrderSide) (count : ℕ)
      (ps : List (Position F))
      → count < cg.max_correlated_count
      → check_from cg s1 new_side count ps
        ≡ ltb (count + conflicts cg s1 new_side ps) cg.max_correlated_count
  unfolding check_from conflicts is_conflict
  check_from-conflicts cg s1 new_side count [] l = ground (arith, l)
  check_from-conflicts cg s1 new_side count (p ∷ ps) l =
      let s2 = normalize_symbol p.symbol in
      let corr = or_zero (entry cg.matrix s1 s2) in
      round-counts (text_eq s1 s2) (corr ≥F correlation_threshold)
        (corr ≤F f.neg correlation_threshold) (side_eq p.side new_side) cg.max_correlated_count
        count (conflicts cg s1 new_side ps) (check_from cg s1 new_side count ps)
        (λ c. check_from cg s1 new_side c ps) l (check_from-conflicts cg s1 new_side count ps l)
        (λ c m. check_from-conflicts cg s1 new_side c ps m)

  -- A new guard lets a trade pass just when the positions that conflict with it are less than its
  -- limit: those of other symbols that are correlated with it and on its side, or inversely
  -- correlated and on the other side. It does so although it stops counting at the limit.
  pub check_correlation-conflicts :
      (max_correlated : ℤ) (symbol : Text) (side : OrderSide) (positions : List (Position F))
      → let cg = new_correlation_guard max_correlated in
        check_correlation cg symbol side positions
        ≡ ltb (conflicts cg (normalize_symbol symbol) side positions) cg.max_correlated_count
  unfolding check_correlation new_correlation_guard
  check_correlation-conflicts n symbol side positions =
      let cg = new_correlation_guard n in
      check_from-conflicts cg (normalize_symbol symbol) side 0 positions (one_is_least n)
      ∙ ap (λ c. ltb c cg.max_correlated_count)
          (zero_plus (conflicts cg (normalize_symbol symbol) side positions))
