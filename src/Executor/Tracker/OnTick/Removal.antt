-- ===== src/Executor/Tracker/OnTick/Removal.antt =====
-- Which positions `OnTick` leaves in the tracker when it removes the closed ones.
use scalp_bot_os.Base.{
  ℕ, ◌==◌, ◌≡◌, refl, ap, ◌∙◌, subst, inl, inr, Bool, true, false, Bool-cases, if◌then◌else◌, List,
  [], ◌∷◌, ◌++◌, map, All, Text, text_eq, text_eq_iff, text_eq_refl, Float, arith,
}
use scalp_bot_os.Base.Dict.{delete}
use scalp_bot_os.Model.Types.{Tick}
use scalp_bot_os.Model.Symbol.{normalize_symbol}
use scalp_bot_os.Executor.Tracker.{
  TrackedPosition, TrackerConfig, PositionTracker, Positions, CloseEvent,
}
use scalp_bot_os.Executor.Tracker.OnTick.{tick_position, tick_all, remove_closed, on_tick}
use scalp_bot_os.Executor.Tracker.OnTick.Changes.{is_closed, fulls}
use scalp_bot_os.Executor.Tracker.OnTick.Exits.{Fate}
use scalp_bot_os.Executor.Tracker.OnTick.Partial.{tick_position-Fate}

text_eq_sym : (s t : Text) → text_eq s t ≡ text_eq t s
text_eq_sym s t = ground (arith, text_eq_iff s t, text_eq_iff t s)

module _ {F : Type 0} where
  abbrev NoKey : Text → Positions F → Type 0
  NoKey k = All (λ e. text_eq k e.0 ≡ false)

  -- Each position is filed under its own order id, only there, and is not closed.
  abbrev pub Keyed : Positions F → Type 0
  Keyed [] = Unit
  Keyed ((k, p) ∷ ps) = (p.order_id ≡ k) × (is_closed p.state ≡ false) × NoKey k ps × Keyed ps

  remove_ids : List Text → Positions F → Positions F
  remove_ids [] ps = ps
  remove_ids (i ∷ is) ps = remove_ids is (delete i ps)

  abbrev ids_of : List (CloseEvent F) → List Text
  ids_of cs = map (λ c. c.order_id) (fulls cs)

  remove_closed-ids :
      (cs : List (CloseEvent F)) (ps : Positions F)
      → ⦃f : Float F⦄ → remove_closed cs ps ≡ remove_ids (ids_of cs) ps
  unfolding remove_closed remove_ids fulls
  remove_closed-ids [] ps = refl
  remove_closed-ids (c ∷ cs) ps = elim (Bool-cases c.is_partial) [
    | inl e ↦ rw e (remove_closed-ids cs ps)
    | inr e ↦ rw e (remove_closed-ids cs (delete c.order_id ps))
  ]

  delete_absent : (k : Text) (ps : Positions F) → NoKey k ps → delete k ps ≡ ps
  unfolding delete
  delete_absent k [] h = refl
  delete_absent k ((j, p) ∷ ps) (h, hs) = rw (text_eq_sym j k ∙ h, delete_absent k ps hs) refl

  remove_ids-keep :
      (is : List Text) (k : Text) (p : TrackedPosition F) (ps : Positions F)
      → All (λ i. text_eq k i ≡ false) is
      → remove_ids is ((k, p) ∷ ps) ≡ (k, p) ∷ remove_ids is ps
  unfolding remove_ids delete
  remove_ids-keep [] k p ps h = refl
  remove_ids-keep (i ∷ is) k p ps (h, hs) =
      ap (λ (b : Bool). remove_ids is (if b then delete i ps else (k, p) ∷ delete i ps)) h
      ∙ remove_ids-keep is k p (delete i ps) hs

  delete_first :
      (k : Text) (p : TrackedPosition F) (ps : Positions F)
      → NoKey k ps
      → delete k ((k, p) ∷ ps) ≡ ps
  unfolding delete
  delete_first k p ps h = rw (text_eq_refl k, delete_absent k ps h) refl

module _ {F : Type 0} ⦃f : Float F⦄ (cfg : TrackerConfig F) (tick : Tick F) (atr pip_mult : F)
    (now : ℕ) where
  -- The positions of other symbols as they are; of those of the symbol of the tick the ones that the
  -- tick does not close, as it leaves them; all in their order.
  unfoldable pub survivors : Positions F → Positions F
  survivors [] = []
  survivors ((k, p) ∷ ps) =
      let rest = survivors ps in
      let after = (tick_position cfg p tick atr pip_mult now).after in
      if text_eq p.symbol (normalize_symbol tick.symbol)
      then (if is_closed after.state then rest else (k, after) ∷ rest)
      else (k, p) ∷ rest

  closed_ids : Positions F → List Text
  closed_ids [] = []
  closed_ids ((k, p) ∷ ps) =
      let rest = closed_ids ps in
      let after = (tick_position cfg p tick atr pip_mult now).after in
      if text_eq p.symbol (normalize_symbol tick.symbol)
      then (if is_closed after.state then k ∷ rest else rest)
      else rest

  abbrev ticked : Positions F → Positions F × List (CloseEvent F)
  ticked ps = let (qs, cs, _) = tick_all cfg ps tick atr pip_mult now in (qs, cs)

  NoKey-ticked : (k : Text) (ps : Positions F) → NoKey k ps → NoKey k (ticked ps).0
  unfolding tick_all
  NoKey-ticked k [] h = tt
  NoKey-ticked k ((j, p) ∷ ps) (h, hs) =
      elim (Bool-cases (text_eq p.symbol (normalize_symbol tick.symbol))) [
        | inl e ↦ rw e (h, NoKey-ticked k ps hs)
        | inr e ↦ rw e (h, NoKey-ticked k ps hs)
      ]

  NoKey-closed_ids :
      (k : Text) (ps : Positions F) → NoKey k ps → All (λ i. text_eq k i ≡ false) (closed_ids ps)
  unfolding closed_ids
  NoKey-closed_ids k [] h = tt
  NoKey-closed_ids k ((j, p) ∷ ps) (h, hs) =
      let rest = NoKey-closed_ids k ps hs in
      elim (Bool-cases (text_eq p.symbol (normalize_symbol tick.symbol))) [
        | inl e ↦
            elim (Bool-cases (is_closed (tick_position cfg p tick atr pip_mult now).after.state)) [
              | inl d ↦ rw (e, d) (h, rest)
              | inr d ↦ rw (e, d) rest
            ]
        | inr e ↦ rw e rest
      ]

  Fate-ids :
      (id : Text) (q : TrackedPosition F) (cs : List (CloseEvent F))
      → Fate id tick q cs
      → ids_of cs ≡ (if is_closed q.state then id ∷ [] else [])
  Fate-ids id q cs (Fate.survives o n i) = rw (o, n) refl
  Fate-ids id q cs (Fate.exits c o n i l) = rw (o, n, i) refl

  ids_of-append : (a b : List (CloseEvent F)) → ids_of (a ++ b) ≡ ids_of a ++ ids_of b
  unfolding fulls
  ids_of-append [] b = refl
  ids_of-append (c ∷ a) b = elim (Bool-cases c.is_partial) [
    | inl e ↦ rw e (ids_of-append a b)
    | inr e ↦ rw e (ap (λ l. c.order_id ∷ l) (ids_of-append a b))
  ]

  ticked-ids : (ps : Positions F) → Keyed ps → ids_of (ticked ps).1 ≡ closed_ids ps
  unfolding tick_all closed_ids fulls
  ticked-ids [] h = refl
  ticked-ids ((k, p) ∷ ps) (same, alive, absent, hs) =
      let e = tick_position cfg p tick atr pip_mult now in
      let rest = ticked-ids ps hs in
      let own : ids_of e.closes ≡ (if is_closed e.after.state then k ∷ [] else []) =
        Fate-ids k e.after e.closes (
          subst (λ i. Fate i tick e.after e.closes) same
            (tick_position-Fate cfg p tick atr pip_mult now alive)) in
      elim (Bool-cases (text_eq p.symbol (normalize_symbol tick.symbol))) [
        | inl m ↦ elim (Bool-cases (is_closed e.after.state)) [
          | inl d ↦
              rw (m, d)
                (ids_of-append e.closes (ticked ps).1
                  ∙ (ap (λ l. l ++ ids_of (ticked ps).1) (rw d at own) ∙ ap (λ l. k ∷ l) rest))
          | inr d ↦
              rw (m, d)
                (ids_of-append e.closes (ticked ps).1
                  ∙ (ap (λ l. l ++ ids_of (ticked ps).1) (rw d at own) ∙ rest))
        ]
        | inr m ↦ rw m rest
      ]

  ticked-survivors :
      (ps : Positions F) → Keyed ps → remove_ids (closed_ids ps) (ticked ps).0 ≡ survivors ps
  unfolding tick_all closed_ids survivors remove_ids
  ticked-survivors [] h = refl
  ticked-survivors ((k, p) ∷ ps) (same, alive, absent, hs) =
      let after = (tick_position cfg p tick atr pip_mult now).after in
      let rest = ticked-survivors ps hs in
      let kept = λ (q : TrackedPosition F).
        remove_ids-keep (closed_ids ps) k q (ticked ps).0 (NoKey-closed_ids k ps absent)
        ∙ ap (λ l. (k, q) ∷ l) rest in
      elim (Bool-cases (text_eq p.symbol (normalize_symbol tick.symbol))) [
        | inl m ↦ elim (Bool-cases (is_closed after.state)) [
          | inl d ↦
              rw (m, d)
                (ap (remove_ids (closed_ids ps))
                    (delete_first k after (ticked ps).0 (NoKey-ticked k ps absent))
                  ∙ rest)
          | inr d ↦ rw (m, d) (kept after)
        ]
        | inr m ↦ rw m (kept p)
      ]

module _ {F : Type 0} ⦃f : Float F⦄ where
  -- With `AutoRemoveOnClose`, a tick leaves exactly these positions in a tracker whose positions are
  -- filed under their own order ids, each once, and are not closed: those of other symbols
  -- untouched, and those of the symbol of the tick that the tick does not close, as it leaves them.
  pub on_tick-survivors :
      (pt : PositionTracker F) (tick : Tick F) (atr pip_mult : F) (clock : ℕ)
      → pt.cfg.auto_remove_on_close ≡ true
      → Keyed pt.positions
      → (on_tick pt tick atr pip_mult clock).1.positions
        ≡ survivors pt.cfg tick atr pip_mult
            (if tick.timestamp_ns == 0 then clock else tick.timestamp_ns)
            pt.positions
  unfolding on_tick
  on_tick-survivors pt tick atr pip_mult clock auto keyed =
      let now = if tick.timestamp_ns == 0 then clock else tick.timestamp_ns in
      let (qs, cs, _) = tick_all pt.cfg pt.positions tick atr pip_mult now in
      ap (λ (b : Bool). if b then remove_closed cs qs else qs) auto
      ∙ (remove_closed-ids cs qs
          ∙ (ap (λ is. remove_ids is qs)
                (ticked-ids pt.cfg tick atr pip_mult now pt.positions keyed)
              ∙ ticked-survivors pt.cfg tick atr pip_mult now pt.positions keyed))
