-- ===== src/Base/Newest.antt =====
-- The values of a fixed array from the newest to the oldest.
use Prim.Native.Nat.{ℕ, zero, suc, ◌+◌, ◌-◌, ◌%◌, ◌≤◌, ◌<◌, min}
use native.Mathlib.Decide.{dec_lt}
use mathlib.Core.Path.{◌≡◌, refl, sym, ap, ◌∙◌}
use mathlib.Core.List.{List, [], ◌∷◌, map, reverse, reverse-cons}
use native.Mathlib.Omega.{arith}
use scalp_bot_os.Base.Lists.{length, get_or, drop, length-append}
use scalp_bot_os.Base.Cycle.{Cycle, get_or-back, get_or-append_old, get_or-append_new}

module _ {A : Type 0} where
  abbrev pub take : ℕ → List A → List A
  take zero xs = []
  take (suc n) [] = []
  take (suc n) (x ∷ xs) = x ∷ take n xs

  pub length-reverse : (xs : List A) → length (reverse xs) ≡ length xs
  length-reverse [] = refl
  length-reverse (x ∷ xs) =
      rw (reverse-cons x xs) omega (arith, length-append (reverse xs) (x ∷ []), length-reverse xs)

  get_or-suc : (x z : A) (xs : List A) (k i : ℕ) → k ≡ suc i → get_or (x ∷ xs) k z ≡ get_or xs i z
  get_or-suc x z xs zero i e = absurd (omega (arith, e))
  get_or-suc x z xs (suc k) i e = ap (λ j. get_or xs j z) (omega (arith, e))

  get_or-zero : (x z : A) (xs : List A) (k : ℕ) → k ≡ 0 → get_or (x ∷ xs) k z ≡ x
  get_or-zero x z xs zero e = refl
  get_or-zero x z xs (suc k) e = absurd (omega (arith, e))

  get_or-reverse :
      (xs : List A) (i : ℕ) (z : A)
      → i < length xs
      → get_or (reverse xs) i z ≡ get_or xs (length xs - (1 + i)) z
  get_or-reverse [] i z h = elim h [ ]
  get_or-reverse (x ∷ xs) i z h =
      let same = length-reverse xs in
      rw (reverse-cons x xs) elim (dec_lt i (length xs)) [
        | yes old ↦
            get_or-append_old (reverse xs) x z i (omega (arith, old, same))
            ∙ get_or-reverse xs i z old
            ∙ sym (get_or-suc x z xs _ (length xs - (1 + i)) (omega (arith, old)))
        | no new ↦
            get_or-append_new (reverse xs) x z i (omega (arith, new, h, same))
            ∙ sym (get_or-zero x z xs _ (omega (arith, new, h)))
      ]

  take_step :
      (n i : ℕ) (z : A) (ys : List A)
      → i < length ys
      → take (suc n) (drop i ys) ≡ get_or ys i z ∷ take n (drop (suc i) ys)
  take_step n i z [] h = elim h [ ]
  take_step n zero z (y ∷ ys) h = refl
  take_step n (suc i) z (y ∷ ys) h = take_step n i z ys (omega (arith, h))

  -- What a loop reads that walks back from the place of the next write.
  abbrev pub walked : List A → ℕ → ℕ → A → ℕ → ℕ → List A
  walked buf size place z i zero = []
  walked buf size place z i (suc left) =
      get_or buf ((place + size - (1 + i)) % size) z ∷ walked buf size place z (i + 1) left

  walked-drop :
      {buf : List A} {size place count : ℕ} {z : A} {ts : List A}
      (r : Cycle buf size place count z ts) (i left : ℕ)
      → i + left ≤ size
      → i + left ≤ length ts
      → walked buf size place z i left ≡ take left (drop i (reverse ts))
  walked-drop r i zero fits held = refl
  walked-drop {buf} {size} {place} {count} {z} {ts} r i (suc left) fits held =
      let same = length-reverse ts in
      let first : get_or buf ((place + size - (1 + i)) % size) z ≡ get_or (reverse ts) i z =
        get_or-back (1 + i) r (omega arith) (omega (arith, fits)) (omega (arith, held))
        ∙ sym (get_or-reverse ts i z (omega (arith, held))) in
      let rest : walked buf size place z (i + 1) left ≡ take left (drop (suc i) (reverse ts)) =
        walked-drop r (i + 1) left (omega (arith, fits)) (omega (arith, held))
        ∙ ap (λ k. take left (drop k (reverse ts))) {y = suc i} (omega arith) in
      rw (first, rest) (sym (take_step left i z (reverse ts) (omega (arith, held, same))))

  -- It reads the newest values, up to as many as are held.
  pub walked-reverse :
      {buf : List A} {size place count : ℕ} {z : A} {ts : List A} (n : ℕ)
      → Cycle buf size place count z ts
      → n ≤ count
      → walked buf size place z 0 n ≡ take n (reverse ts)
  walked-reverse {size = size} {count = count} {ts = ts} n r fits =
      let held : count ≡ min (length ts) size = r.count_at in
      walked-drop r 0 n (omega (arith, fits, held)) (omega (arith, fits, held))

  take_more : (m n : ℕ) (ys : List A) → length ys ≤ m → length ys ≤ n → take m ys ≡ take n ys
  take_more zero zero [] h k = refl
  take_more zero (suc n) [] h k = refl
  take_more (suc m) zero [] h k = refl
  take_more (suc m) (suc n) [] h k = refl
  take_more zero n (y ∷ ys) h k = absurd (omega (arith, h))
  take_more (suc m) zero (y ∷ ys) h k = absurd (omega (arith, k))
  take_more (suc m) (suc n) (y ∷ ys) h k =
      ap (λ zs. y ∷ zs) (take_more m n ys (omega (arith, h)) (omega (arith, k)))

  -- Where the loop runs as often as is asked and held, nothing more would be taken.
  pub take-min : (n : ℕ) (ts : List A) → take (min (length ts) n) (reverse ts) ≡ take n (reverse ts)
  take-min n ts =
      let same = length-reverse ts in
      elim (dec_lt (length ts) n) [
        | yes less ↦
            take_more _ _ (reverse ts) (omega (arith, less, same)) (omega (arith, less, same))
        | no more ↦ ap (λ k. take k (reverse ts)) (omega (arith, more))
      ]

module _ {A B : Type 0} where
  pub length-map : (g : A → B) (xs : List A) → length (map g xs) ≡ length xs
  length-map g [] = refl
  length-map g (x ∷ xs) = ap suc (length-map g xs)
