-- ===== src/Storage/Store/Daily.antt =====
-- The state of the day on disk: what is loaded after a save, and which lot size the file keeps.
use scalp_bot_os.Base.{
  ℕ, Bool, true, false, if◌then◌else◌, ◌≡◌, refl, ap, ◌∙◌, ◌⊎◌, List, [], ◌∷◌, none, Text, text_eq,
  Float, ◌≤F◌, ◌>F◌, lit, if_intro,
}
use scalp_bot_os.Storage.Store.{
  DailyState, File, content, loaded, Saved, fresh_state, load_daily_state, kept_lot_size,
  completed_state, save_daily_state,
}
use scalp_bot_os.Storage.Store.Disk.{IsFaithful, saved-content}

module _ {F : Type 0} ⦃f : Float F⦄ {C : Type 0} (decode : C → DailyState F × Bool)
    (date_of : ℕ → Text) (encode : DailyState F → C ⊎ Text) (write : C → Saved C)
    (h : IsFaithful decode encode write) where
  load_daily_state-content :
      (c : C) (s : DailyState F) (now : ℕ)
      → decode c ≡ (s, true)
      → load_daily_state decode date_of (content c) now
        ≡ (if text_eq s.date (date_of now) then loaded s else loaded (fresh_state date_of now))
  unfolding load_daily_state
  load_daily_state-content c s now e = rw e refl

  -- A state that was saved without an error is loaded again with its profit, its flags and, where it
  -- has one, its date; the time is that of the save. On another day than the state's a fresh state of
  -- that day is loaded instead.
  save_daily_state-load_daily_state :
      (file : File C) (now later : ℕ) (s : DailyState F)
      → (save_daily_state decode date_of encode write file now s).1 ≡ none
      → let after = (save_daily_state decode date_of encode write file now s).0 in
        let written = completed_state decode date_of file now s in
        load_daily_state decode date_of after later ≡ (
          if text_eq written.date (date_of later)
          then loaded written
          else loaded (fresh_state date_of later))
  unfolding save_daily_state
  save_daily_state-load_daily_state file now later s saved =
      let written = completed_state decode date_of file now s in
      let (c, at, decoded) =
        saved-content decode encode write h file written (encode written) refl saved in
      ap (λ g. load_daily_state decode date_of g later) at
      ∙ load_daily_state-content c written later decoded

  -- The lot size that is given last; a save without one gives none.
  abbrev pub last_lot : F → List (ℕ × DailyState F) → F
  last_lot lot [] = lot
  last_lot lot ((now, s) ∷ saves) =
      last_lot (if s.active_lot_size ≤F lit 0 then lot else s.active_lot_size) saves

  unfoldable pub save_all : File C → List (ℕ × DailyState F) → File C
  save_all file [] = file
  save_all file ((now, s) ∷ saves) =
      save_all (save_daily_state decode date_of encode write file now s).0 saves

  -- No save returns an error, and a lot size that is not at most 0 is above 0.
  abbrev pub AllSaved : File C → List (ℕ × DailyState F) → Type 0
  AllSaved file [] = Unit
  AllSaved file ((now, s) ∷ saves) =
      ((save_daily_state decode date_of encode write file now s).1 ≡ none)
      × ((s.active_lot_size ≤F lit 0 ≡ false) → (s.active_lot_size >F lit 0 ≡ true))
      × AllSaved (save_daily_state decode date_of encode write file now s).0 saves

  -- The state that a file holds.
  abbrev pub Holds : File C → DailyState F → Type 0
  Holds file s = (c : C) × (file ≡ content c) × (decode c ≡ (s, true))

  kept_lot_size-content :
      (c : C) (p : DailyState F) (lot : F)
      → decode c ≡ (p, true)
      → p.active_lot_size >F lit 0 ≡ true
      → kept_lot_size decode date_of (content c) lot ≡ p.active_lot_size
  unfolding kept_lot_size
  kept_lot_size-content c p lot e positive = rw (e, positive) refl

  kept_lot_size-Holds :
      (file : File C) (p : DailyState F) (lot : F)
      → Holds file p
      → p.active_lot_size >F lit 0 ≡ true
      → kept_lot_size decode date_of file lot ≡ p.active_lot_size
  kept_lot_size-Holds file p lot (c, at, e) positive =
      ap (λ g. kept_lot_size decode date_of g lot) at ∙ kept_lot_size-content c p lot e positive

  completed_state_lot :
      (file : File C) (p s : DailyState F) (now : ℕ)
      → Holds file p
      → p.active_lot_size >F lit 0 ≡ true
      → (completed_state decode date_of file now s).active_lot_size
        ≡ (if s.active_lot_size ≤F lit 0 then p.active_lot_size else s.active_lot_size)
  unfolding completed_state
  completed_state_lot file p s now holds positive =
      ap (λ l. if s.active_lot_size ≤F lit 0 then l else s.active_lot_size)
        (kept_lot_size-Holds file p s.active_lot_size holds positive)

  -- A lot size above 0 in the file survives every sequence of saves without errors: the file then
  -- holds the last lot size above 0 that a save gave, or else the one that it held before.
  save_all-last_lot :
      (file : File C) (p : DailyState F) (saves : List (ℕ × DailyState F))
      → Holds file p
      → p.active_lot_size >F lit 0 ≡ true
      → AllSaved file saves
      → (s : DailyState F) × Holds (save_all file saves) s
        × (s.active_lot_size ≡ last_lot p.active_lot_size saves)
  unfolding save_all save_daily_state
  save_all-last_lot file p [] holds positive _ = (p, holds, refl)
  save_all-last_lot file p ((now, s) ∷ saves) holds positive (saved, real, rest) =
      let written = completed_state decode date_of file now s in
      let lot_eq = completed_state_lot file p s now holds positive in
      let next_positive : written.active_lot_size >F lit 0 ≡ true =
        ap (λ l. l >F lit 0) lot_eq
        ∙ if_intro (λ (l : F). l >F lit 0 ≡ true) (s.active_lot_size ≤F lit 0) (λ _. positive)
            real in
      let (r, kept, eq) =
        save_all-last_lot (save_daily_state decode date_of encode write file now s).0 written saves
          (saved-content decode encode write h file written (encode written) refl saved)
          next_positive rest in
      (r, kept, eq ∙ ap (λ l. last_lot l saves) lot_eq)
