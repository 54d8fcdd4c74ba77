-- ===== src/Risk/Filters/Velocity/Window.antt =====
-- What the ring of the velocity filter counts, as a count over the whole history of ticks.
use scalp_bot_os.Base.{
  ℕ, zero, suc, ◌+◌, ◌-◌, ◌%◌, ◌≤◌, ◌<◌, ◌==◌, ltb, if◌then◌else◌, ◌≡◌, ◌≢◌, refl, ap, ◌∙◌, List,
  [], ◌∷◌, length, get_or, set, length-set, length-replicate, get_or-set_self, get_or-set_ne,
  Bool-cases, inl, inr, arith,
}
use scalp_bot_os.Risk.Filters.Velocity.{
  capacity, TickVelocityFilter, walk, new_tick_velocity_filter, velocity_on_tick, ticks_in_window,
}

-- The times of a history, the newest first, up to the first that is too old, but at most `n`.
unfoldable pub recent : ℕ → ℕ → ℕ → List ℕ → ℕ
recent window now zero ts = 0
recent window now (suc n) [] = 0
recent window now (suc n) (t ∷ ts) =
    let rest = recent window now n ts in if ltb (t + window) now then 0 else suc rest

-- The place of the `j`-th newest time.
abbrev place : ℕ → ℕ → ℕ
place head j = (head + capacity + capacity - 1 - j) % capacity

-- The newest times of the history stand before the head of the ring.
abbrev Reads : List ℕ → ℕ → ℕ → List ℕ → Type 0
Reads ts head n history = (j : ℕ) → j < n → get_or ts (place head j) 0 ≡ get_or history j 0

set-Reads :
    (ts : List ℕ) (head n v : ℕ) (history : List ℕ)
    → length ts ≡ capacity
    → head < capacity
    → Reads ts head n history
    → n ≤ capacity
    → (j : ℕ) → j < suc n
    → j < capacity
    → get_or (set ts head v) (place ((head + 1) % capacity) j) 0 ≡ get_or (v ∷ history) j 0
set-Reads ts head n v history size fits h m zero l u =
    let at : place ((head + 1) % capacity) 0 ≡ head = omega (arith, fits) in
    ap (λ i. get_or (set ts head v) i 0) at
    ∙ get_or-set_self ts head v 0 (omega (arith, size, fits))
set-Reads ts head n v history size fits h m (suc j) l u =
    let at : place ((head + 1) % capacity) (suc j) ≡ place head j = omega (arith, fits, u) in
    let apart : head ≢ place head j = λ e. omega (arith, e, fits, u) in
    ap (λ i. get_or (set ts head v) i 0) at
    ∙ (get_or-set_ne ts head (place head j) v 0 apart ∙ h j (omega (arith, l)))

k_suc : (k j : ℕ) → suc k + j ≡ k + suc j
k_suc k j = omega arith

-- The loop counts the recent times.
walk-recent :
    (ts : List ℕ) (window now head : ℕ) (history : List ℕ) (n k : ℕ)
    → n + k ≤ capacity
    → n ≤ length history
    → ((j : ℕ) → j < n → get_or ts (place head (k + j)) 0 ≡ get_or history j 0)
    → walk ts window now n (place head k) ≡ recent window now n history
unfolding walk recent
walk-recent ts window now head history zero k l m h = refl
walk-recent ts window now head [] (suc n) k l m h = absurd (omega (arith, m))
walk-recent ts window now head (t ∷ history) (suc n) k l m h =
    let here : k ≡ k + 0 = omega arith in
    let first : get_or ts (place head k) 0 ≡ t =
      ap (λ j. get_or ts (place head j) 0) here ∙ h 0 (omega arith) in
    let back : (place head k + capacity - 1) % capacity ≡ place head (suc k) = omega (arith, l) in
    let next : walk ts window now n ((place head k + capacity - 1) % capacity)
        ≡ recent window now n history =
      ap (λ i. walk ts window now n i) back
      ∙ walk-recent ts window now head history n (suc k) (omega (arith, l)) (omega (arith, m))
          (λ j u.
            ap (λ i. get_or ts (place head i) 0) (k_suc k j) ∙ h (suc j) (omega (arith, u))) in
    rw first (ap (λ c. if ltb (t + window) now then 0 else suc c) next)

-- More room than times changes nothing.
recent_all :
    (window now n : ℕ) (history : List ℕ)
    → length history ≤ n
    → recent window now (length history) history ≡ recent window now n history
unfolding recent
recent_all window now zero [] l = refl
recent_all window now (suc n) [] l = refl
recent_all window now zero (t ∷ history) l = absurd (omega (arith, l))
recent_all window now (suc n) (t ∷ history) l =
    ap (λ c. if ltb (t + window) now then 0 else suc c)
      (recent_all window now n history (omega (arith, l)))

-- The times of ticks before earlier ones, the newest first.
unfoldable pub newest_first : List ℕ → List (ℕ × ℕ) → List ℕ
newest_first history [] = history
newest_first history ((t, clock) ∷ ts) = newest_first ((if t == 0 then clock else t) ∷ history) ts

abbrev held : List ℕ → ℕ
held history = if ltb (length history) capacity then length history else capacity

recent-held :
    (window now : ℕ) (history : List ℕ)
    → recent window now (held history) history ≡ recent window now capacity history
recent-held window now history = elim (Bool-cases (ltb (length history) capacity)) [
  | inl e ↦ rw e (recent_all window now capacity history (ground (arith, e)))
  | inr e ↦ rw e refl
]

zero_plus : (j : ℕ) → 0 + j ≡ j
zero_plus j = omega arith

module _ {F : Type 0} where
  -- The ring holds the newest times of a history.
  record IsHeld (f : TickVelocityFilter F) (window : ℕ) (history : List ℕ) : Type 0 where
    same_window : f.window_duration ≡ window
    size : length f.timestamps ≡ capacity
    head_fits : f.head < capacity
    counts : f.count ≡ held history
    reads : Reads f.timestamps f.head f.count history

  velocity_on_tick-IsHeld :
      (f : TickVelocityFilter F) (window : ℕ) (history : List ℕ) (t clock : ℕ)
      → IsHeld f window history
      → IsHeld (velocity_on_tick f t clock) window ((if t == 0 then clock else t) ∷ history)
  unfolding velocity_on_tick
  velocity_on_tick-IsHeld f window history t clock h =
      let v = if t == 0 then clock else t in
      record {
        same_window = h.same_window;
        size = length-set f.timestamps f.head v ∙ h.size;
        head_fits = omega arith;
        counts = ground (arith, h.counts);
        reads = λ j l.
            set-Reads f.timestamps f.head f.count v history h.size h.head_fits h.reads
              (ground (arith, h.counts)) j (ground (arith, h.counts, l))
              (ground (arith, h.counts, l));
      }

  -- The filter after ticks, each with its time and the time of the clock.
  unfoldable pub velocity_on_ticks : TickVelocityFilter F → List (ℕ × ℕ) → TickVelocityFilter F
  velocity_on_ticks f [] = f
  velocity_on_ticks f ((t, clock) ∷ ts) = velocity_on_ticks (velocity_on_tick f t clock) ts

  velocity_on_ticks-IsHeld :
      (f : TickVelocityFilter F) (window : ℕ) (history : List ℕ) (ts : List (ℕ × ℕ))
      → IsHeld f window history
      → IsHeld (velocity_on_ticks f ts) window (newest_first history ts)
  unfolding velocity_on_ticks newest_first
  velocity_on_ticks-IsHeld f window history [] h = h
  velocity_on_ticks-IsHeld f window history ((t, clock) ∷ ts) h =
      velocity_on_ticks-IsHeld (velocity_on_tick f t clock) window
        ((if t == 0 then clock else t) ∷ history) ts
        (velocity_on_tick-IsHeld f window history t clock h)

  IsHeld-ticks_in_window :
      (f : TickVelocityFilter F) (window now : ℕ) (history : List ℕ)
      → IsHeld f window history
      → ticks_in_window f now ≡ recent window now capacity history
  unfolding ticks_in_window
  IsHeld-ticks_in_window f window now history h =
      let n_fits : held history ≤ length history = ground arith in
      let in_ring : held history ≤ capacity = ground arith in
      let start : (f.head + capacity - 1) % capacity ≡ place f.head 0 = omega arith in
      ap (λ i. walk f.timestamps f.window_duration now f.count i) start
      ∙ (walk-recent f.timestamps f.window_duration now f.head history f.count 0
            (omega (arith, in_ring, h.counts)) (omega (arith, n_fits, h.counts))
            (λ j l. ap (λ i. get_or f.timestamps (place f.head i) 0) (zero_plus j) ∙ h.reads j l)
          ∙ (ap (λ w. recent w now f.count history) h.same_window
              ∙ (ap (λ n. recent window now n history) h.counts ∙ recent-held window now history)))

  -- After any ticks of a new filter the loop of `CurrentTPS` counts, among the 256 newest times, those
  -- from the newest back to the first that is older than the window.
  pub ticks_in_window-recent :
      (window now : ℕ) (min_tps max_tps : F) (ts : List (ℕ × ℕ))
      → ticks_in_window (velocity_on_ticks (new_tick_velocity_filter window min_tps max_tps) ts) now
        ≡ recent (if window == 0 then 5_000_000_000 else window) now capacity (newest_first [] ts)
  unfolding new_tick_velocity_filter
  ticks_in_window-recent window now min_tps max_tps ts =
      let w = if window == 0 then 5_000_000_000 else window in
      let f = new_tick_velocity_filter window min_tps max_tps in
      IsHeld-ticks_in_window (velocity_on_ticks f ts) w now (newest_first [] ts) (
        velocity_on_ticks-IsHeld f w [] ts (record {
          same_window = refl;
          size = length-replicate {A = ℕ} capacity 0;
          head_fits = omega arith;
          counts = refl;
          reads = λ j l. absurd (omega (arith, l));
        }))
