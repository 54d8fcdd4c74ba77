-- ===== src/MarketData/Ring/Reads.antt =====
-- What a reader of the ring buffer sees after any number of pushes.
use Prim.Native.Nat.{min}
use scalp_bot_os.Base.{
  ℕ, zero, suc, ◌+◌, ◌-◌, ◌%◌, ◌≤◌, ◌<◌, ◌≡◌, refl, sym, ap, ◌∙◌, inl, inr, ℤ, pos, negsuc, true,
  false, ltb, Bool-cases, List, [], ◌∷◌, ◌++◌, length, get_or, drop, length-append, Float, arith,
  ◌==◌,
}
use scalp_bot_os.Model.Types.{Tick, zero_tick}
use scalp_bot_os.MarketData.Ring.{
  TickRingBuffer, default_capacity, new_tick_ring_buffer, push, last, len, latest, latest_clamped,
  last_index, snapshot_last,
}
use scalp_bot_os.MarketData.Ring.History.{
  Records, with_capacity-Records, push-Records, drop_all, read_from-eq-drop,
}
use scalp_bot_os.Base.Cycle.{back-mod, get_or-append_new}

-- The capacity that `NewTickRingBuffer` settles on.
abbrev pub capacity : ℤ → ℕ
capacity (negsuc n) = default_capacity
capacity (pos zero) = default_capacity
capacity (pos (suc n)) = suc n

size-new : (F : Type 0) ⦃f : Float F⦄ (c : ℤ) → (new_tick_ring_buffer {F = F} c).size ≡ capacity c
unfolding new_tick_ring_buffer
size-new F (negsuc n) = refl
size-new F (pos zero) = refl
size-new F (pos (suc n)) = refl

module _ {F : Type 0} ⦃f : Float F⦄ where
  -- The stream of ticks in the order in which they are pushed.
  unfoldable pub push_all : TickRingBuffer F → List (Tick F) → TickRingBuffer F
  push_all rb [] = rb
  push_all rb (t ∷ ts) = push_all (push rb t) ts

  append_assoc_one :
      (xs : List (Tick F)) (t : Tick F) (ts : List (Tick F))
      → (xs ++ (t ∷ [])) ++ ts ≡ xs ++ (t ∷ ts)
  append_assoc_one [] t ts = refl
  append_assoc_one (x ∷ xs) t ts = ap (λ l. x ∷ l) (append_assoc_one xs t ts)

  push_all-Records :
      (ts : List (Tick F)) {rb : TickRingBuffer F} {old : List (Tick F)}
      → Records rb old
      → Records (push_all rb ts) (old ++ ts)
  unfolding push_all
  push_all-Records [] {rb} {old} r = rw (append_nil_one old) r
    where
      append_nil_one : (xs : List (Tick F)) → xs ++ [] ≡ xs
      append_nil_one [] = refl
      append_nil_one (x ∷ xs) = ap (λ l. x ∷ l) (append_nil_one xs)
  push_all-Records (t ∷ ts) {rb} {old} r =
      rw (← append_assoc_one old t ts) (push_all-Records ts (push-Records t r))

  size-push_all : (ts : List (Tick F)) (rb : TickRingBuffer F) → (push_all rb ts).size ≡ rb.size
  unfolding push_all push
  size-push_all [] rb = refl
  size-push_all (t ∷ ts) rb = size-push_all ts (push rb t)

  new-Records : (c : ℤ) → Records {F = F} (new_tick_ring_buffer c) []
  unfolding new_tick_ring_buffer
  new-Records (negsuc n) = with_capacity-Records default_capacity (omega arith)
  new-Records (pos zero) = with_capacity-Records default_capacity (omega arith)
  new-Records (pos (suc n)) = with_capacity-Records (suc n) (omega arith)

  latest_clamped-eq-drop :
      {rb : TickRingBuffer F} {ts : List (Tick F)} (n : ℕ)
      → Records rb ts
      → n ≤ rb.count
      → latest_clamped rb n ≡ drop (length ts - n) ts
  unfolding latest_clamped
  latest_clamped-eq-drop {rb} {ts} zero r h = sym (drop_all ts (length ts - 0) (omega arith))
  latest_clamped-eq-drop {rb} {ts} (suc n) r h =
      let n' = suc n in
      let at : (rb.head + rb.size - n') % rb.size ≡ (length ts - n') % rb.size =
        rw r.head_at (back-mod (length ts) n' rb.size (omega arith) (omega arith)) in
      let some_round : (suc n == 0) ≡ false = ground arith in
      rw some_round (
        read_from-eq-drop r (length ts - n') ((rb.head + rb.size - n') % rb.size) 0 n' at
          (omega arith) (omega arith)
        ∙ ap (λ m. drop m ts) {y = length ts - n'} (omega arith))

  latest-eq-drop :
      {rb : TickRingBuffer F} {ts : List (Tick F)} (n : ℕ)
      → Records rb ts
      → latest rb (pos n) ≡ drop (length ts - min n rb.count) ts
  unfolding latest
  latest-eq-drop {rb} {ts} n r = elim (Bool-cases (ltb rb.count n)) [
    | inl more ↦ rw more (
        latest_clamped-eq-drop rb.count r (omega arith)
        ∙ ap (λ m. drop m ts) {y = length ts - min n rb.count} (ground arith))
    | inr enough ↦ rw enough (
        latest_clamped-eq-drop n r (ground arith)
        ∙ ap (λ m. drop m ts) {y = length ts - min n rb.count} (ground arith))
  ]

  last_cell :
      {rb : TickRingBuffer F} (ts : List (Tick F)) (t : Tick F)
      → Records rb (ts ++ (t ∷ []))
      → ((rb.count == 0) ≡ false) × (get_or rb.buf (last_index rb) zero_tick ≡ t)
  last_cell {rb} ts t r =
      let more : length (ts ++ (t ∷ [])) ≡ length ts + 1 = length-append ts (t ∷ []) in
      let at : last_index rb ≡ length ts % rb.size =
        ap (λ h. (h + rb.size - 1) % rb.size) r.head_at
        ∙ back-mod (length (ts ++ (t ∷ []))) 1 rb.size (omega arith) (omega arith)
        ∙ ap (λ k. k % rb.size) {y = length ts} (omega arith) in
      let nonempty : 0 < rb.count = omega arith in
      (
        ground arith,
        ap (λ k. get_or rb.buf k zero_tick) at
            ∙ r.cells (length ts) (omega arith) (omega arith)
            ∙ get_or-append_new ts t zero_tick (length ts) refl,
      )

  -- After any ticks were pushed into a new buffer, `Latest(n)` returns the last of them in the order
  -- of arrival: as many as asked, or as the capacity holds, or as there are. `Len` counts those
  -- that are held, and the backing array keeps the length of the capacity.
  pub latest-push_all :
      (c : ℤ) (ts : List (Tick F)) (n : ℕ)
      → let rb = push_all (new_tick_ring_buffer c) ts in
        let held = min (length ts) (capacity c) in
        (latest rb (pos n) ≡ drop (length ts - min n held) ts)
        × (len rb ≡ held)
        × (length rb.buf ≡ capacity c)
  unfolding len
  latest-push_all c ts n =
      let rb = push_all (new_tick_ring_buffer c) ts in
      let r = push_all-Records ts (new-Records c) in
      let size : rb.size ≡ capacity c = size-push_all ts (new_tick_ring_buffer c) ∙ size-new F c in
      let held : rb.count ≡ min (length ts) (capacity c) =
        r.count_at ∙ ap (λ s. min (length ts) s) size in
      (latest-eq-drop n r ∙ ap (λ k. drop (length ts - min n k) ts) held, held, r.storage ∙ size)

  -- `Last` and `SnapshotLast` of a new buffer report that there is no tick, and after a push they
  -- return the tick that was pushed last, whatever came before it.
  last-push_all :
      (c : ℤ) (ts : List (Tick F)) (t dst : Tick F)
      → let rb = push_all (new_tick_ring_buffer c) (ts ++ (t ∷ [])) in
        (last rb ≡ (t, true))
        × (snapshot_last rb dst ≡ (t, true))
        × (last (new_tick_ring_buffer {F = F} c) ≡ (zero_tick, false))
        × (snapshot_last (new_tick_ring_buffer c) dst ≡ (dst, false))
  unfolding last snapshot_last
  last-push_all c ts t dst =
      let (some_tick, newest) =
        last_cell ts t (push_all-Records (ts ++ (t ∷ [])) (new-Records c)) in
      let nothing : (new_tick_ring_buffer {F = F} c).count ≡ 0 =
        omega (arith, (new-Records c).count_at) in
      (rw (some_tick, newest), rw (some_tick, newest), rw nothing, rw nothing)
