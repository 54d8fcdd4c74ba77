-- ===== src/Indicator/Ema.antt =====
-- internal/indicator/ema.go: the exponential moving average, seeded with the mean of its first values.
use scalp_bot_os.Base.{
  ℕ, zero, suc, ◌+◌, ◌<◌, ◌≡◌, refl, sym, ap, ◌∙◌, subst, Bool, true, false, leb, if◌then◌else◌,
  List, [], ◌∷◌, ◌++◌, length, Option, none, some, Float, ◌+F◌, ◌-F◌, ◌*F◌, ◌/F◌, lit, nan, arith,
}

pub record Ema (F : Type 0) : Type 0 where
  pub period : ℕ
  pub multiplier : F
  pub current : F
  pub count : ℕ
  pub sum : F
  pub ready : Bool

module _ {F : Type 0} ⦃f : Float F⦄ where
  abbrev pub fresh_ema : ℕ → Ema F
  fresh_ema period = record {
    period = period;
    multiplier = lit 2 /F lit (period + 1);
    current = lit 0;
    count = 0;
    sum = lit 0;
    ready = false;
  }

  -- `nil` for a period below one, which is a zero here.
  unfoldable pub new_ema : ℕ → Option (Ema F)
  new_ema zero = none
  new_ema (suc n) = some (fresh_ema (suc n))

  -- The value that `Update` returns, and the average after it.
  unfoldable pub update : Ema F → F → F × Ema F
  update e value =
      let n = e.count + 1 in
      if e.ready
      then (let c = (value -F e.current) *F e.multiplier +F e.current in
          (c, record e { count = n; current = c }))
      else (let s = e.sum +F value in
          if leb e.period n
          then (
            s /F lit e.period,
            record e { count = n; sum = s; current = s /F lit e.period; ready = true },
          )
          else (nan, record e { count = n; sum = s }))

  unfoldable pub value_of : Ema F → F
  value_of e = if e.ready then e.current else nan

  unfoldable pub reset_ema : Ema F → Ema F
  reset_ema e = record e { current = lit 0; count = 0; sum = lit 0; ready = false }

  -- The average after a stream of values.
  unfoldable pub update_all : Ema F → List F → Ema F
  update_all e [] = e
  update_all e (v ∷ vs) = update_all (update e v).1 vs

  abbrev pub sum_from : F → List F → F
  sum_from s [] = s
  sum_from s (v ∷ vs) = sum_from (s +F v) vs

  -- The textbook recurrence, from a first average.
  abbrev pub smooth : F → F → List F → F
  smooth k c [] = c
  smooth k c (v ∷ vs) = smooth k ((v -F c) *F k +F c) vs

  sum_from-snoc : (s : F) (xs : List F) (a : F) → sum_from s (xs ++ (a ∷ [])) ≡ sum_from s xs +F a
  sum_from-snoc s [] a = refl
  sum_from-snoc s (b ∷ xs) a = sum_from-snoc (s +F b) xs a

  record IsWarming (period : ℕ) (k : F) (n : ℕ) (s : F) (e : Ema F) : Type 0 where
    lasts : e.period ≡ period
    factor : e.multiplier ≡ k
    counted : e.count ≡ n
    summed : e.sum ≡ s
    cold : e.ready ≡ false

  record IsReady (k c : F) (e : Ema F) : Type 0 where
    factor : e.multiplier ≡ k
    value : e.current ≡ c
    warm : e.ready ≡ true

  update-IsWarming :
      (period n : ℕ) (k s : F) (e : Ema F) (v : F)
      → n + 1 < period
      → IsWarming period k n s e
      → IsWarming period k (n + 1) (s +F v) (update e v).1
  unfolding update
  update-IsWarming period n k s e v early h =
      let lasts : e.period ≡ period = h.lasts in
      let counted : e.count ≡ n = h.counted in
      let factor : e.multiplier ≡ k = h.factor in
      let cold : e.ready ≡ false = h.cold in
      let summed : e.sum ≡ s = h.summed in
      let early_test : leb e.period (e.count + 1) ≡ false = ground arith in
      rw (cold, early_test)
        record {
          lasts = lasts;
          factor = factor;
          counted = omega arith;
          summed = ap (λ x. x +F v) summed;
          cold = refl;
        }

  update-seeds :
      (period n : ℕ) (k s : F) (e : Ema F) (v : F)
      → n + 1 ≡ period
      → IsWarming period k n s e
      → IsReady k ((s +F v) /F lit period) (update e v).1
  unfolding update
  update-seeds period n k s e v last h =
      let lasts : e.period ≡ period = h.lasts in
      let counted : e.count ≡ n = h.counted in
      let factor : e.multiplier ≡ k = h.factor in
      let cold : e.ready ≡ false = h.cold in
      let summed : e.sum ≡ s = h.summed in
      let last_test : leb e.period (e.count + 1) ≡ true = ground arith in
      rw (cold, last_test)
        record {
          factor = factor;
          value = ap (λ x. (x +F v) /F lit e.period) summed ∙ ap (λ m. (s +F v) /F lit m) lasts;
          warm = refl;
        }

  update-IsReady :
      (k c : F) (e : Ema F) (v : F) → IsReady k c e → IsReady k ((v -F c) *F k +F c) (update e v).1
  unfolding update
  update-IsReady k c e v h =
      let factor : e.multiplier ≡ k = h.factor in
      let warm : e.ready ≡ true = h.warm in
      let value : e.current ≡ c = h.value in
      rw warm record {
        factor = factor;
        value = ap (λ x. (v -F x) *F e.multiplier +F x) value ∙ ap (λ m. (v -F c) *F m +F c) factor;
        warm = refl;
      }

  update_all-IsReady :
      (k c : F) (e : Ema F) (vs : List F)
      → IsReady k c e
      → IsReady k (smooth k c vs) (update_all e vs)
  unfolding update_all
  update_all-IsReady k c e [] h = h
  update_all-IsReady k c e (v ∷ vs) h =
      update_all-IsReady k ((v -F c) *F k +F c) (update e v).1 vs (update-IsReady k c e v h)

  update_all-IsWarming :
      (period n : ℕ) (k s : F) (e : Ema F) (vs : List F)
      → n + length vs < period
      → IsWarming period k n s e
      → IsWarming period k (n + length vs) (sum_from s vs) (update_all e vs)
  unfolding update_all
  update_all-IsWarming period n k s e [] early h =
      subst (λ m. IsWarming period k m s e) (omega arith) h
  update_all-IsWarming period n k s e (v ∷ vs) early h =
      subst (λ m. IsWarming period k m (sum_from (s +F v) vs) (update_all (update e v).1 vs))
        (omega arith)
        (update_all-IsWarming period (n + 1) k (s +F v) (update e v).1 vs (omega arith)
          (update-IsWarming period n k s e v (omega arith) h))

  fresh-IsWarming :
      (period : ℕ) → IsWarming period (lit 2 /F lit (period + 1)) 0 (lit 0) (fresh_ema period)
  fresh-IsWarming period = record {
    lasts = refl;
    factor = refl;
    counted = refl;
    summed = refl;
    cold = refl;
  }

  update_all-append :
      (e : Ema F) (xs bs : List F) → update_all e (xs ++ bs) ≡ update_all (update_all e xs) bs
  unfolding update_all
  update_all-append e [] bs = refl
  update_all-append e (a ∷ xs) bs = update_all-append (update e a).1 xs bs

  -- A new average has no value (NaN) while it has seen less values than its period.
  value_of-cold :
      (period : ℕ) (vs : List F)
      → length vs < period
      → value_of (update_all (fresh_ema period) vs) ≡ nan
  unfolding value_of
  value_of-cold period vs early =
      let h =
        update_all-IsWarming period 0 (lit 2 /F lit (period + 1)) (lit 0) (fresh_ema period) vs
          (omega arith) (fresh-IsWarming period) in
      ap (λ (b : Bool). if b then (update_all (fresh_ema period) vs).current else nan) h.cold

  -- A new average that sees a period of values, and then others, has the value of the textbook
  -- recurrence over the others with the factor 2 / (period + 1), from the mean of the first ones.
  pub value_of-smooth :
      (xs : List F) (last : F) (bs : List F)
      → let period = length xs + 1 in
        value_of (update_all (fresh_ema period) (xs ++ (last ∷ bs)))
        ≡ smooth (lit 2 /F lit (period + 1)) (sum_from (lit 0) (xs ++ (last ∷ [])) /F lit period) bs
  unfolding value_of update_all
  value_of-smooth xs last bs =
      let period = length xs + 1 in
      let k = lit 2 /F lit (period + 1) in
      let s = sum_from (lit 0) xs in
      let warming =
        update_all-IsWarming period 0 k (lit 0) (fresh_ema period) xs (omega arith)
          (fresh-IsWarming period) in
      let e = update_all (fresh_ema period) xs in
      let seeded = update-seeds period (0 + length xs) k s e last (omega arith) warming in
      let ready = update_all-IsReady k ((s +F last) /F lit period) (update e last).1 bs seeded in
      ap value_of (update_all-append (fresh_ema period) xs (last ∷ bs))
      ∙ (ap (λ (b : Bool). if b then (update_all (update e last).1 bs).current else nan) ready.warm
          ∙ (ready.value
              ∙ ap (λ x. smooth k (x /F lit period) bs) (sym (sum_from-snoc (lit 0) xs last))))
