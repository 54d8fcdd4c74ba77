-- ===== src/Ai/Features/Memory.antt =====
-- The ring of the extractor against the list of all prices.
use Prim.Native.Nat.{min}
use native.Mathlib.Nat.{mod-eq_of_lt}
use native.Mathlib.Decide.{dec_lt}
use mathlib.Core.List.{append-nil, append_assoc}
use scalp_bot_os.Base.{
  ℕ, zero, suc, ◌+◌, ◌-◌, ◌≤◌, ◌<◌, ◌≡◌, refl, sym, ap, ◌∙◌, List, [], ◌∷◌, ◌++◌, length, get_or,
  drop, replicate, last_of, last_of_fits, length-append, length-drop, Float, lit, arith,
}
use scalp_bot_os.Base.Cycle.{Cycle, set-Cycle, get_or-back}
use scalp_bot_os.Ai.Features.{FeatureExtractor, new_feature_extractor, record_price, price_back}

get_or-append_later :
    {A : Type 0} (xs ys : List A) (j : ℕ) (z : A)
    → get_or (xs ++ ys) (length xs + j) z ≡ get_or ys j z
get_or-append_later [] ys j z = ap (λ k. get_or ys k z) (omega arith)
get_or-append_later (x ∷ xs) ys j z =
    get_or_later x (xs ++ ys) _ (length xs + j) z (omega arith) ∙ get_or-append_later xs ys j z
  where
    get_or_later :
        {A : Type 0} (x : A) (xs : List A) (k i : ℕ) (z : A)
        → k ≡ suc i
        → get_or (x ∷ xs) k z ≡ get_or xs i z
    get_or_later x xs zero i z e = absurd (omega (arith, e))
    get_or_later x xs (suc k) i z e = ap (λ j. get_or xs j z) (omega (arith, e))

get_or-drop :
    {A : Type 0} (n : ℕ) (xs : List A) (j : ℕ) (z : A)
    → get_or (drop n xs) j z ≡ get_or xs (n + j) z
get_or-drop zero xs j z = ap (λ k. get_or xs k z) (omega arith)
get_or-drop (suc n) [] j z = refl
get_or-drop (suc n) (x ∷ xs) j z =
    get_or-drop n xs j z
    ∙ sym (get_or-append_later (x ∷ []) xs (n + j) z)
    ∙ ap (λ k. get_or (x ∷ xs) k z) (omega arith)

module _ {F : Type 0} ⦃f : Float F⦄ where
  unfoldable pub record_all : FeatureExtractor F → List F → FeatureExtractor F
  record_all fe [] = fe
  record_all fe (p ∷ ps) = record_all (record_price fe p) ps

  abbrev zeros : List F
  zeros = replicate 32 (lit 0)

  -- The ring after the prices, where the zeros of the new array count as prices before them.
  pub record Holds (fe : FeatureExtractor F) (ps : List F) : Type 0 where
    pub ring : Cycle fe.history_price 32 fe.history_head 32 (lit 0) (zeros ++ ps)
    pub counted : fe.history_count ≡ min (length ps) 32

  pub new-Holds : Holds new_feature_extractor []
  unfolding new_feature_extractor
  new-Holds = record {
    ring = rw (append-nil zeros) record {
      storage = refl;
      room = omega arith;
      head_at = refl;
      count_at = refl;
      cells = λ j p q. ap (λ k. get_or zeros k (lit 0)) (mod-eq_of_lt p);
    };
    counted = refl;
  }

  record_price-Holds :
      (fe : FeatureExtractor F) (ps : List F) (p : F)
      → Holds fe ps
      → Holds (record_price fe p) (ps ++ (p ∷ []))
  unfolding record_price
  record_price-Holds fe ps p h =
      let before : fe.history_count ≡ min (length ps) 32 = h.counted in
      let more = length-append ps (p ∷ []) in
      record {
        ring = rw (← append_assoc zeros ps (p ∷ [])) (set-Cycle p h.ring);
        counted = ground (arith, before, more);
      }

  pub record_all-Holds :
      (fe : FeatureExtractor F) (ps old : List F)
      → Holds fe old
      → Holds (record_all fe ps) (old ++ ps)
  unfolding record_all
  record_all-Holds fe [] old h = rw (append-nil old) h
  record_all-Holds fe (p ∷ ps) old h =
      rw (← append_assoc old (p ∷ []) ps)
        (record_all-Holds (record_price fe p) ps (old ++ (p ∷ [])) (record_price-Holds fe old p h))

  pub price_back-get_or :
      (fe : FeatureExtractor F) (ps : List F) (n : ℕ)
      → Holds fe ps
      → 0 < n
      → n ≤ 32
      → price_back fe n ≡ get_or (zeros ++ ps) (length (zeros ++ ps) - n) (lit 0)
  price_back-get_or fe ps n h some_back fits =
      get_or-back n h.ring some_back fits (omega (arith, fits, length-append zeros ps))

  -- Behind the zeros the newest prices are those of the last 32.
  pub newest-last_of :
      (ps : List F) (n : ℕ)
      → 0 < n
      → n ≤ 32
      → get_or (zeros ++ ps) (length (zeros ++ ps) - n) (lit 0)
        ≡ get_or (zeros ++ last_of 32 ps) (length (zeros ++ last_of 32 ps) - n) (lit 0)
  newest-last_of ps n some_back fits =
      let k = length ps - 32 in
      let whole = length-append zeros ps in
      let part = length-append zeros (drop k ps) in
      let left = length-drop k ps in
      elim (dec_lt 32 (length ps)) [
        | yes more ↦
            ap (λ i. get_or (zeros ++ ps) i (lit 0)) {x = length (zeros ++ ps) - n}
              {y = 32 + (length ps - n)} (omega (arith, whole, more, fits))
            ∙ (get_or-append_later zeros ps (length ps - n) (lit 0)
                ∙ (ap (λ i. get_or ps i (lit 0)) {x = length ps - n} {y = k + (32 - n)}
                      (omega (arith, more, fits))
                    ∙ (sym (get_or-drop k ps (32 - n) (lit 0))
                        ∙ (sym (get_or-append_later zeros (drop k ps) (32 - n) (lit 0))
                            ∙ ap (λ i. get_or (zeros ++ drop k ps) i (lit 0)) {x = 32 + (32 - n)}
                                {y = length (zeros ++ drop k ps) - n}
                                (omega (arith, part, left, more, fits))))))
        | no less ↦
            let same : last_of 32 ps ≡ ps = last_of_fits 32 ps (omega (arith, less)) in
            ap (λ qs. get_or (zeros ++ qs) (length (zeros ++ qs) - n) (lit 0)) (sym same)
      ]
