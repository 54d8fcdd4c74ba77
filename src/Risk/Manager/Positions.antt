-- ===== src/Risk/Manager/Positions.antt =====
-- The position counts against the list of the symbols that are open.
use scalp_bot_os.Base.{
  ℕ, suc, ◌+◌, ◌-◌, ◌≤◌, ◌<◌, ◌≡◌, refl, sym, ap, ◌∙◌, ◌≢◌, Bool, true, false, ltb, if◌then◌else◌,
  List, [], ◌∷◌, length, Text, bytes, text_eq, text_eq_iff, text_eq_refl, Float, arith,
}
use scalp_bot_os.Model.Types.{Tick, Signal, OrderRequest}
use scalp_bot_os.Model.Symbol.{normalize_symbol}
use scalp_bot_os.Risk.Manager.{
  Manager, check_daily_reset_at, put_count, at_least_one, record_fill_for_symbol,
  record_close_for_symbol, record_close, sync_positions, count_symbols,
}
use scalp_bot_os.Risk.Manager.Calendar.{year_day}
use scalp_bot_os.Risk.Manager.Evaluate.{approved, evaluate, tick_time}
use scalp_bot_os.Risk.Manager.Evaluate.Approved.{evaluate-approved}

abbrev pub one_if : Bool → ℕ
one_if b = if b then 1 else 0

-- How many of the open symbols have the canonical name.
unfoldable pub count_of : Text → List Text → ℕ
count_of k [] = 0
count_of k (s ∷ xs) = one_if (text_eq (normalize_symbol s) k) + count_of k xs

-- The open symbols without the first one of that canonical name.
unfoldable pub without : Text → List Text → List Text
without k [] = []
without k (s ∷ xs) = if text_eq (normalize_symbol s) k then xs else s ∷ without k xs

count_of-without :
    (j k : Text) (xs : List Text)
    → 0 < count_of k xs
    → count_of j (without k xs) + one_if (text_eq k j) ≡ count_of j xs
unfolding count_of without
count_of-without j k [] h = elim h [ ]
count_of-without j k (s ∷ xs) h =
    ground (arith, count_of-without j k xs, text_eq_iff (normalize_symbol s) k)

length-without :
    (k : Text) (xs : List Text) → 0 < count_of k xs → length (without k xs) + 1 ≡ length xs
unfolding count_of without
length-without k [] h = elim h [ ]
length-without k (s ∷ xs) h = ground (arith, length-without k xs)

count_symbols-count_of :
    (xs : List Text) (m : Text → ℕ) (k : Text) → count_symbols m xs k ≡ m k + count_of k xs
unfolding count_symbols count_of
count_symbols-count_of [] m k = omega arith
count_symbols-count_of (s ∷ xs) m k = ground (
  arith,
  count_symbols-count_of xs (put_count m (normalize_symbol s) (m (normalize_symbol s) + 1)) k,
  text_eq_iff (normalize_symbol s) k,
)

count_of_same :
    (s : Text) (xs : List Text)
    → count_of (normalize_symbol s) (s ∷ xs) ≡ suc (count_of (normalize_symbol s) xs)
unfolding count_of
count_of_same s xs = rw (text_eq_refl (normalize_symbol s)) (omega arith)

count_of_self : (s : Text) (xs : List Text) → 0 < count_of (normalize_symbol s) (s ∷ xs)
count_of_self s xs = omega (arith, count_of_same s xs)

-- The counts by name determine how many symbols are open.
length-count_of :
    (zs ys : List Text) → ((k : Text) → count_of k ys ≡ count_of k zs) → length ys ≡ length zs
unfolding count_of
length-count_of [] [] same = refl
length-count_of [] (y ∷ ys) same =
    absurd (omega (arith, same (normalize_symbol y), count_of_self y ys))
length-count_of (s ∷ zs) ys same =
    let key = normalize_symbol s in
    let held : 0 < count_of key ys = omega (arith, same key, count_of_self s zs) in
    let rest : length (without key ys) ≡ length zs =
      length-count_of zs (without key ys)
        (λ j. omega (arith, same j, count_of-without j key ys held)) in
    omega (arith, length-without key ys held)

-- The changes of the positions, and the open symbols after them.
pub data Change (F : Type 0) : Type 0 where
  filled : Text → Change F
  closed : Text → F → Change F
  synced : List Text → Change F

module _ {F : Type 0} where
  unfoldable pub open_after : List Text → List (Change F) → List Text
  open_after xs [] = xs
  open_after xs (filled s ∷ cs) = open_after (s ∷ xs) cs
  open_after xs (closed s pnl ∷ cs) = open_after (without (normalize_symbol s) xs) cs
  open_after xs (synced ys ∷ cs) = open_after ys cs

  -- Only symbols that have a name and are open are closed.
  abbrev pub AllOpen : List Text → List (Change F) → Type 0
  AllOpen xs [] = Unit
  AllOpen xs (filled s ∷ cs) = AllOpen (s ∷ xs) cs
  AllOpen xs (closed s pnl ∷ cs) =
      (s ≢ bytes "")
      × (0 < count_of (normalize_symbol s) xs)
      × AllOpen (without (normalize_symbol s) xs) cs
  AllOpen xs (synced ys ∷ cs) = AllOpen ys cs

module _ {F : Type 0} ⦃f : Float F⦄ where
  -- The manager counts exactly the open symbols, in all and by canonical name.
  pub record Tracks (m : Manager F) (xs : List Text) : Type 0 where
    pub total : m.open_positions ≡ length xs
    pub each : (k : Text) → m.symbol_positions k ≡ count_of k xs

  -- A fill adds its symbol to the open ones.
  fill-Tracks :
      (m : Manager F) (symbol : Text) (xs : List Text)
      → Tracks m xs
      → Tracks (record_fill_for_symbol m symbol) (symbol ∷ xs)
  unfolding record_fill_for_symbol count_of
  fill-Tracks m symbol xs t = record {
    total = let old : m.open_positions ≡ length xs = t.total in omega arith;
    each = λ k. ground (
      arith,
      t.each k,
      t.each (normalize_symbol symbol),
      text_eq_iff (normalize_symbol symbol) k,
    );
  }

  -- A close of a named symbol that is open takes one of that name from the open ones.
  close-Tracks :
      (m : Manager F) (symbol : Text) (pnl : F) (xs : List Text)
      → symbol ≢ bytes ""
      → 0 < count_of (normalize_symbol symbol) xs
      → Tracks m xs
      → Tracks (record_close_for_symbol m symbol pnl) (without (normalize_symbol symbol) xs)
  unfolding record_close_for_symbol
  close-Tracks m symbol pnl xs named held t =
      let key = normalize_symbol symbol in
      let count : m.symbol_positions key ≡ count_of key xs = t.each key in
      let total : m.open_positions ≡ length xs = t.total in
      let fewer = length-without key xs held in
      let name : text_eq symbol (bytes "") ≡ false =
        ground (arith, text_eq_iff symbol (bytes "")) in
      let some_open : ltb 0 (m.symbol_positions key) ≡ true = ground arith in
      record {
        total = ground arith;
        each = λ k.
            rw (name, some_open)
              (ground (arith, t.each k, count_of-without k key xs, text_eq_iff key k));
      }

  -- Syncing replaces the open symbols, whatever was counted before.
  sync-Tracks : (m : Manager F) (xs : List Text) → Tracks (sync_positions m xs) xs
  unfolding sync_positions
  sync-Tracks m xs = record {
    total = refl;
    each = λ k. omega (arith, count_symbols-count_of xs (λ k. 0) k);
  }

  unfoldable pub change_all : Manager F → List (Change F) → Manager F
  change_all m [] = m
  change_all m (filled s ∷ cs) = change_all (record_fill_for_symbol m s) cs
  change_all m (closed s pnl ∷ cs) = change_all (record_close_for_symbol m s pnl) cs
  change_all m (synced ys ∷ cs) = change_all (sync_positions m ys) cs

  -- Through every sequence of fills, of closes of symbols that are open, and of synchronisations, the
  -- manager counts exactly the symbols that are then open, in all and by canonical name.
  pub change_all-Tracks :
      (cs : List (Change F)) (m : Manager F) (xs : List Text)
      → AllOpen xs cs
      → Tracks m xs
      → Tracks (change_all m cs) (open_after xs cs)
  unfolding change_all open_after
  change_all-Tracks [] m xs o t = t
  change_all-Tracks (filled s ∷ cs) m xs o t =
      change_all-Tracks cs _ (s ∷ xs) o (fill-Tracks m s xs t)
  change_all-Tracks (closed s pnl ∷ cs) m xs (named, held, o) t =
      change_all-Tracks cs _ (without (normalize_symbol s) xs) o
        (close-Tracks m s pnl xs named held t)
  change_all-Tracks (synced ys ∷ cs) m xs o t =
      change_all-Tracks cs (sync_positions m ys) ys o (sync-Tracks m ys)

  -- A close without a symbol, which the backtest makes for a partial close, takes one from the total
  -- and none from the counts by name: with a position open, no list of open symbols fits the manager
  -- any more.
  record_close-not-Tracks :
      (m : Manager F) (pnl : F) (x : Text) (xs ys : List Text)
      → Tracks m (x ∷ xs)
      → ¬ Tracks (record_close m pnl) ys
  unfolding record_close record_close_for_symbol
  record_close-not-Tracks m pnl x xs ys t bad =
      let total : m.open_positions ≡ suc (length xs) = t.total in
      let same = length-count_of (x ∷ xs) ys (λ k. sym (bad.each k) ∙ t.each k) in
      let after : (if ltb 0 m.open_positions then m.open_positions - 1 else m.open_positions)
          ≡ length ys =
        bad.total in
      ground (arith, same)

  positions-reset :
      (m : Manager F) (day : ℕ)
      → ((check_daily_reset_at m day).open_positions ≡ m.open_positions)
        × ((check_daily_reset_at m day).symbol_positions ≡ m.symbol_positions)
        × ((check_daily_reset_at m day).cfg ≡ m.cfg)
  unfolding check_daily_reset_at
  positions-reset m day = ground arith

  Tracks-reset :
      (m : Manager F) (day : ℕ) (xs : List Text)
      → Tracks m xs
      → Tracks (check_daily_reset_at m day) xs
  Tracks-reset m day xs t =
      let (total, counts, _) = positions-reset m day in
      record { total = total ∙ t.total; each = λ k. ap (λ (g : Text → ℕ). g k) counts ∙ t.each k }

  -- When an order that was handed out is filled before anything else happens, the open positions are
  -- at most as many as configured, in all and under the name of its symbol, and are still counted.
  pub fill-approved :
      (m m' : Manager F) (s : Signal F) (tick : Tick F) (atr : F) (now : ℕ) (o : OrderRequest F)
      (xs : List Text)
      → Tracks m xs
      → evaluate m s tick atr now ≡ (m', approved o)
      → Tracks (record_fill_for_symbol m' o.symbol) (o.symbol ∷ xs)
        × (length (o.symbol ∷ xs) ≤ m.cfg.max_open_positions)
        × (count_of (normalize_symbol o.symbol) (o.symbol ∷ xs)
            ≤ at_least_one m.cfg.max_positions_per_symbol)
  fill-approved m m' s tick atr now o xs t h =
      let (clear, act, same, trading, sized, _) = evaluate-approved m m' s tick atr now o h in
      let day₁ = year_day now in
      let day₂ = year_day (tick_time tick now) in
      let m₁ = check_daily_reset_at m day₁ in
      let t' : Tracks m' xs = rw same (Tracks-reset m₁ day₂ xs (Tracks-reset m day₁ xs t)) in
      let cfg : m'.cfg ≡ m.cfg =
        ap (λ (g : Manager F). g.cfg) same
        ∙ (positions-reset m₁ day₂).2
        ∙ (positions-reset m day₁).2 in
      let name : o.symbol ≡ s.symbol = ap (λ (p : OrderRequest F). p.symbol) sized.made in
      (
        fill-Tracks m' o.symbol xs t',
        rw (← cfg) (omega (arith, sized.slot, t'.total)),
        rw (name, ← cfg)
            (omega (
              arith,
              sized.symbol_slot,
              t'.each (normalize_symbol s.symbol),
              count_of_same s.symbol xs,
            )),
      )
