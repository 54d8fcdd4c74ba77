-- ===== src/MarketData/Ring/History.antt =====
-- The ring buffer against the list of all ticks ever pushed, oldest first.
use native.Mathlib.Nat.{mod-add-mod}
use scalp_bot_os.Base.{
  ℕ, zero, suc, ◌+◌, ◌%◌, ◌≤◌, ◌<◌, ◌≡◌, refl, sym, ap, ◌∙◌, List, [], ◌∷◌, ◌++◌, length, get_or,
  drop, Float, arith,
}
use scalp_bot_os.Base.Cycle.{Cycle, replicate-Cycle, set-Cycle}
use scalp_bot_os.Model.Types.{Tick, zero_tick}
use scalp_bot_os.MarketData.Ring.{TickRingBuffer, with_capacity, push, read_from}

module _ {F : Type 0} ⦃f : Float F⦄ where
  abbrev pub Records : TickRingBuffer F → List (Tick F) → Type 0
  Records rb ts = Cycle rb.buf rb.size rb.head rb.count zero_tick ts

  pub with_capacity-Records : (c : ℕ) → 0 < c → Records (with_capacity c) []
  with_capacity-Records c h = replicate-Cycle c zero_tick h

  pub push-Records :
      {rb : TickRingBuffer F} {ts : List (Tick F)} (t : Tick F)
      → Records rb ts
      → Records (push rb t) (ts ++ (t ∷ []))
  unfolding push
  push-Records t r = set-Cycle t r

  drop-cons :
      (ts : List (Tick F)) (k : ℕ)
      → k < length ts
      → drop k ts ≡ get_or ts k zero_tick ∷ drop (suc k) ts
  drop-cons [] k h = elim h [ ]
  drop-cons (t ∷ ts) zero h = refl
  drop-cons (t ∷ ts) (suc k) h = drop-cons ts k (omega arith)

  pub drop_all : (ts : List (Tick F)) (k : ℕ) → length ts ≤ k → drop k ts ≡ []
  drop_all [] zero h = refl
  drop_all [] (suc k) h = refl
  drop_all (t ∷ ts) zero h = elim h [ ]
  drop_all (t ∷ ts) (suc k) h = drop_all ts k (omega arith)

  -- The loop of `Latest` reads the history from its first retained tick to its end.
  pub read_from-eq-drop :
      {rb : TickRingBuffer F} {ts : List (Tick F)} (r : Records rb ts) (k start i left : ℕ)
      → start ≡ k % rb.size
      → k + i + left ≡ length ts
      → length ts ≤ k + i + rb.size
      → read_from rb.buf rb.size start i left ≡ drop (k + i) ts
  unfolding read_from
  read_from-eq-drop {rb} {ts} r k start i zero e l b = sym (drop_all ts (k + i) (omega arith))
  read_from-eq-drop {rb} {ts} r k start i (suc left) e l b =
      let index : (start + i) % rb.size ≡ (k + i) % rb.size = rw e (mod-add-mod k rb.size i) in
      let first : get_or rb.buf ((start + i) % rb.size) zero_tick ≡ get_or ts (k + i) zero_tick =
        rw index (r.cells (k + i) (omega arith) b) in
      let rest : read_from rb.buf rb.size start (i + 1) left ≡ drop (suc (k + i)) ts =
        read_from-eq-drop r k start (i + 1) left e (omega arith) (omega arith)
        ∙ ap (λ m. drop m ts) {y = suc (k + i)} (omega arith) in
      rw (first, rest) (sym (drop-cons ts (k + i) (omega arith)))
