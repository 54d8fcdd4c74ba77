-- ===== src/Storage/Store.antt =====
-- internal/storage/store.go: the history of trades and the state of the day, each in a file. The
-- JSON package, the file system and the calendar are parameters: `encode` is `json.MarshalIndent`
-- (the bytes, or an error), `decode` is `json.Unmarshal` (the value that it leaves in its target, and whether it returned no
-- error), and `write` tells what a file holds after `os.WriteFile`, and its error. Times are in
-- nanoseconds, and the calls of the clock during one operation give the same time.
pub mod Disk
pub mod History
pub mod Trades
pub mod Daily
use scalp_bot_os.Base.{
  ℕ, ◌+◌, ◌-◌, Bool, true, false, ◌&&◌, ltb, leb, if◌then◌else◌, ◌⊎◌, inl, inr, ℤ, List, [], ◌∷◌,
  ◌++◌, length, drop, Option, none, some, Text, text_eq, Float, ◌≤F◌, ◌>F◌, lit,
}

pub record TradeRecord (F : Type 0) : Type 0 where
  pub ticket : Text
  pub symbol : Text
  pub side : Text
  pub lots : F
  pub entry : F
  pub exit : F
  pub net_pnl : F
  pub pips : F
  pub duration : ℤ
  pub close_time : ℕ
  pub mfe_usd : F
  pub mae_usd : F
  pub mfe_pips : F
  pub mae_pips : F

pub record DailyState (F : Type 0) : Type 0 where
  pub date : Text
  pub daily_pnl : F
  pub profit_target_reached : Bool
  pub circuit_open : Bool
  pub active_lot_size : F
  pub last_updated : ℕ

-- What `os.ReadFile` finds: no file, another error, or the bytes.
pub data File (C : Type 0) : Type 0 where
  absent : File C
  unreadable : Text → File C
  content : C → File C

pub data Loaded (A : Type 0) : Type 0 where
  loaded : A → Loaded A
  load_error : A → Text → Loaded A

-- A file after a call, and the error that the call returns.
abbrev pub Saved : Type 0 → Type 0
Saved C = File C × Option Text

-- The end of a save: what is encoded is written, and an error of the encoder leaves the file.
abbrev pub write_encoded : {C : Type 0} → (C → Saved C) → File C → C ⊎ Text → Saved C
write_encoded write file (inl c) = write c
write_encoded write file (inr e) = (file, some e)

abbrev pub week : ℕ
week = 604_800_000_000_000

module _ {F : Type 0} where
  unfoldable pub in_week : ℕ → List (TradeRecord F) → List (TradeRecord F)
  in_week now [] = []
  in_week now (t ∷ ts) =
      let rest = in_week now ts in if ltb now (t.close_time + week) then t ∷ rest else rest

  -- The loop of `SaveTrade` returns at the first record with the new ticket.
  unfoldable pub has_ticket : Text → List (TradeRecord F) → Bool
  has_ticket ticket [] = false
  has_ticket ticket (t ∷ ts) =
      let rest = has_ticket ticket ts in if text_eq t.ticket ticket then true else rest

  unfoldable pub last_500 : List (TradeRecord F) → List (TradeRecord F)
  last_500 ts = if ltb 500 (length ts) then drop (length ts - 500) ts else ts

  module _ {C : Type 0} (decode : C → List (TradeRecord F) × Bool) where
    unfoldable pub load_trades : File C → ℕ → Loaded (List (TradeRecord F))
    load_trades absent now = loaded []
    load_trades (unreadable e) now = load_error [] e
    load_trades (content c) now =
        if (decode c).1 then loaded (in_week now (decode c).0) else loaded []

    -- The records that `SaveTrade` starts from.
    unfoldable pub stored : File C → List (TradeRecord F)
    stored absent = []
    stored (unreadable e) = []
    stored (content c) = (decode c).0

    module _ (encode : List (TradeRecord F) → C ⊎ Text) (write : C → Saved C) where
      unfoldable pub save_trade : File C → ℕ → TradeRecord F → Saved C
      save_trade file now tr =
          let trades = stored file in
          if has_ticket tr.ticket trades
          then (file, none)
          else write_encoded write file (encode (last_500 (in_week now trades ++ (tr ∷ []))))

-- `time.Format("2006-01-02")` is the parameter `date_of`.
module _ {F : Type 0} ⦃f : Float F⦄ where
  unfoldable pub fresh_state : (ℕ → Text) → ℕ → DailyState F
  fresh_state date_of now = record {
    date = date_of now;
    daily_pnl = lit 0;
    profit_target_reached = false;
    circuit_open = false;
    active_lot_size = lit 0;
    last_updated = 0;
  }

module _ {F : Type 0} ⦃f : Float F⦄ {C : Type 0} (decode : C → DailyState F × Bool)
    (date_of : ℕ → Text) where
  unfoldable pub load_daily_state : File C → ℕ → Loaded (DailyState F)
  load_daily_state absent now = loaded (fresh_state date_of now)
  load_daily_state (unreadable e) now = load_error (fresh_state date_of now) e
  load_daily_state (content c) now =
      let state = (decode c).0 in
      if (decode c).1
      then (if text_eq state.date (date_of now)
          then loaded state
          else loaded (fresh_state date_of now))
      else loaded (fresh_state date_of now)

  -- The lot size that a save without one takes over from the file.
  unfoldable pub kept_lot_size : File C → F → F
  kept_lot_size absent lot = lot
  kept_lot_size (unreadable e) lot = lot
  kept_lot_size (content c) lot =
      let prev = (decode c).0.active_lot_size in
      if (decode c).1 && (prev >F lit 0) then prev else lot

  -- The state that `SaveDailyState` writes.
  unfoldable pub completed_state : File C → ℕ → DailyState F → DailyState F
  completed_state file now state = record state {
    date = if text_eq state.date [] then date_of now else state.date;
    active_lot_size =
        if state.active_lot_size ≤F lit 0
        then kept_lot_size file state.active_lot_size
        else state.active_lot_size;
    last_updated = now;
  }

  unfoldable pub save_daily_state :
      (DailyState F → C ⊎ Text) → (C → Saved C) → File C → ℕ → DailyState F → Saved C
  save_daily_state encode write file now state =
      write_encoded write file (encode (completed_state file now state))
