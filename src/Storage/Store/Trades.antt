-- ===== src/Storage/Store/Trades.antt =====
-- The trade history on disk: what is loaded after a save, and what every file that the store has
-- written holds.
use scalp_bot_os.Base.{
  ℕ, ◌+◌, Bool, true, false, ltb, ◌≡◌, refl, sym, ap, subst, ◌∙◌, ◌⊎◌, inl, inr, List, [], ◌∷◌,
  none, Text, Bool-cases,
}
use scalp_bot_os.Storage.Store.{
  TradeRecord, File, content, loaded, Saved, write_encoded, week, in_week, has_ticket, load_trades,
  stored, save_trade,
}
use scalp_bot_os.Storage.Store.Disk.{IsFaithful, saved-content}
use scalp_bot_os.Storage.Store.History.{
  extended, IsHistory, extended-IsHistory, extended-has_ticket, extended-in_week,
}

module _ {F : Type 0} where
  module _ {C : Type 0} (decode : C → List (TradeRecord F) × Bool)
      (encode : List (TradeRecord F) → C ⊎ Text) (write : C → Saved C)
      (h : IsFaithful decode encode write) where
    save_trade_new :
        (file : File C) (now : ℕ) (tr : TradeRecord F)
        → has_ticket tr.ticket (stored decode file) ≡ false
        → save_trade decode encode write file now tr
          ≡ write_encoded write file (encode (extended (stored decode file) now tr))
    unfolding save_trade
    save_trade_new file now tr fresh = rw fresh refl

    save_trade_known :
        (file : File C) (now : ℕ) (tr : TradeRecord F)
        → has_ticket tr.ticket (stored decode file) ≡ true
        → save_trade decode encode write file now tr ≡ (file, none)
    unfolding save_trade
    save_trade_known file now tr known = rw known refl

    -- The file after a save of a record with a new ticket.
    save_trade-content :
        (file : File C) (now : ℕ) (tr : TradeRecord F)
        → has_ticket tr.ticket (stored decode file) ≡ false
        → (save_trade decode encode write file now tr).1 ≡ none
        → (c : C) × ((save_trade decode encode write file now tr).0 ≡ content c)
          × (decode c ≡ (extended (stored decode file) now tr, true))
    save_trade-content file now tr fresh saved =
        let eq = save_trade_new file now tr fresh in
        let next = extended (stored decode file) now tr in
        let (c, at, decoded) =
          saved-content decode encode write h file next (encode next) refl
            (subst (λ r. r.1 ≡ none) eq saved) in
        (c, ap (λ r. r.0) eq ∙ at, decoded)

    load_trades-content :
        (c : C) (ts : List (TradeRecord F)) (now : ℕ)
        → decode c ≡ (ts, true)
        → load_trades decode (content c) now ≡ loaded (in_week now ts)
    unfolding load_trades
    load_trades-content c ts now e = rw e refl

    stored-content :
        (file : File C) (c : C) (ts : List (TradeRecord F))
        → file ≡ content c
        → decode c ≡ (ts, true)
        → stored decode file ≡ ts
    unfolding stored
    stored-content file c ts at e = ap (λ g. stored decode g) at ∙ ap (λ r. r.0) e

    -- A record with a new ticket that was saved without an error is loaded again. At the time of the
    -- save or later, `LoadTrades` gives the records of the file, the new one and no others, less those
    -- that the two operations find older than a week and those before the last 500. The new one is
    -- there just until it is a week old, and another save under its ticket leaves the file as it is.
    pub save_trade-load_trades :
        (file : File C) (now later : ℕ) (tr next : TradeRecord F)
        → has_ticket tr.ticket (stored decode file) ≡ false
        → (save_trade decode encode write file now tr).1 ≡ none
        → next.ticket ≡ tr.ticket
        → let after = (save_trade decode encode write file now tr).0 in
          let kept = in_week later (extended (stored decode file) now tr) in
          (load_trades decode after later ≡ loaded kept)
          × (has_ticket tr.ticket kept ≡ ltb later (tr.close_time + week))
          × (save_trade decode encode write after later next ≡ (after, none))
    save_trade-load_trades file now later tr next fresh saved same =
        let (c, at, decoded) = save_trade-content file now tr fresh saved in
        let ts = extended (stored decode file) now tr in
        let after = (save_trade decode encode write file now tr).0 in
        let has : has_ticket tr.ticket ts ≡ true =
          extended-has_ticket (stored decode file) now tr in
        (
          ap (λ g. load_trades decode g later) at ∙ load_trades-content c ts later decoded,
          extended-in_week (stored decode file) now later tr fresh,
          save_trade_known after later next (
              ap (λ t. has_ticket t (stored decode after)) same
              ∙ (ap (λ us. has_ticket tr.ticket us) (stored-content after c ts at decoded) ∙ has)),
        )

    save_trade-IsHistory :
        (file : File C) (now : ℕ) (tr : TradeRecord F)
        → IsHistory (stored decode file)
        → (save_trade decode encode write file now tr).1 ≡ none
        → IsHistory (stored decode (save_trade decode encode write file now tr).0)
    save_trade-IsHistory file now tr i saved =
        elim (Bool-cases (has_ticket tr.ticket (stored decode file))) [
          | inl known ↦
              subst (λ r. IsHistory (stored decode r.0)) (sym (save_trade_known file now tr known))
                i
          | inr fresh ↦
              let (c, at, decoded) = save_trade-content file now tr fresh saved in
              let ts = extended (stored decode file) now tr in
              subst IsHistory
                (sym
                  (stored-content (save_trade decode encode write file now tr).0 c ts at decoded))
                (extended-IsHistory (stored decode file) now tr i fresh)
        ]

    -- The file after saves at given times.
    unfoldable pub save_all : File C → List (ℕ × TradeRecord F) → File C
    save_all file [] = file
    save_all file ((now, tr) ∷ saves) =
        save_all (save_trade decode encode write file now tr).0 saves

    -- No save returns an error.
    abbrev pub AllSaved : File C → List (ℕ × TradeRecord F) → Type 0
    AllSaved file [] = Unit
    AllSaved file ((now, tr) ∷ saves) =
        ((save_trade decode encode write file now tr).1 ≡ none)
        × AllSaved (save_trade decode encode write file now tr).0 saves

    -- After every sequence of saves without errors, to a file that held a history, the file holds
    -- at most 500 records and at most one for each ticket.
    pub save_all-IsHistory :
        (file : File C) (saves : List (ℕ × TradeRecord F))
        → IsHistory (stored decode file)
        → AllSaved file saves
        → IsHistory (stored decode (save_all file saves))
    unfolding save_all
    save_all-IsHistory file [] i _ = i
    save_all-IsHistory file ((now, tr) ∷ saves) i (saved, rest) =
        save_all-IsHistory (save_trade decode encode write file now tr).0 saves
          (save_trade-IsHistory file now tr i saved) rest
