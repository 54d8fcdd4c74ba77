-- ===== src/Tests/Storage.antt =====
-- Runs of the store with files that hold the values themselves.
use scalp_bot_os.Base.{
  ℕ, ◌+◌, ltb, ◌≡◌, refl, true, false, Bool, ◌⊎◌, inl, List, [], ◌∷◌, none, Text, pos, bytes, lit,
  dec, arith,
}
use scalp_bot_os.Base.Fixed.{Fixed, fixed_float}
use scalp_bot_os.Storage.Store.{
  TradeRecord, DailyState, File, absent, content, Saved, loaded, save_trade, load_trades, stored,
  in_week, has_ticket, week, last_500,
}
use scalp_bot_os.Storage.Store.Disk.{IsFaithful}
use scalp_bot_os.Storage.Store.History.{extended, IsHistory}
use scalp_bot_os.Storage.Store.Trades.{save_trade-load_trades, save_all-IsHistory}
use scalp_bot_os.Storage.Store.Trades
use scalp_bot_os.Tests.Inputs.{gold, noon}

-- Packages that keep a value as it is.
abbrev decode_all : {A : Type 0} → A → A × Bool
decode_all a = (a, true)

abbrev encode_all : {A : Type 0} → A → A ⊎ Text
encode_all a = inl a

abbrev write_all : {A : Type 0} → A → Saved A
write_all a = (content a, none)

write_all-IsFaithful : {A : Type 0} → IsFaithful {A = A} {C = A} decode_all encode_all write_all
write_all-IsFaithful = record { decodes = λ a c e. ground (arith, e); writes = λ c e. refl }

abbrev trade : TradeRecord Fixed
trade = record {
  ticket = bytes "7";
  symbol = gold;
  side = bytes "BUY";
  lots = dec 10 2;
  entry = lit 2000;
  exit = lit 2010;
  net_pnl = lit 100;
  pips = lit 100;
  duration = pos 60_000_000_000;
  close_time = noon;
  mfe_usd = lit 120;
  mae_usd = lit 10;
  mfe_pips = lit 120;
  mae_pips = lit 10;
}

abbrev saved_file : File (List (TradeRecord Fixed))
saved_file = (save_trade decode_all encode_all write_all absent (noon + 1) trade).0

save_trade-load_trades_example :
    (load_trades decode_all saved_file (noon + 2)
      ≡ loaded (in_week (noon + 2) (extended [] (noon + 1) trade)))
    × (has_ticket trade.ticket (in_week (noon + 2) (extended [] (noon + 1) trade))
        ≡ ltb (noon + 2) (trade.close_time + week))
    × (save_trade decode_all encode_all write_all saved_file (noon + 2) trade ≡ (saved_file, none))
unfolding stored save_trade has_ticket last_500 in_week
save_trade-load_trades_example =
    save_trade-load_trades decode_all encode_all write_all write_all-IsFaithful absent (noon + 1)
      (noon + 2) trade trade refl refl refl

save_all-IsHistory_example : IsHistory (
    stored decode_all (
      Trades.save_all decode_all encode_all write_all write_all-IsFaithful absent
        ((noon + 1, trade) ∷ ((noon + 2, trade) ∷ []))))
unfolding stored save_trade has_ticket last_500 in_week
save_all-IsHistory_example =
    save_all-IsHistory decode_all encode_all write_all write_all-IsFaithful absent
      ((noon + 1, trade) ∷ ((noon + 2, trade) ∷ []))
      (record { at_most_500 = omega arith; single = λ ticket. omega arith }) (refl, (refl, tt))

abbrev day_of : ℕ → Text
day_of now = bytes "1970-01-02"

abbrev state : Fixed → DailyState Fixed
state lot = record {
  date = [];
  daily_pnl = lit 12;
  profit_target_reached = false;
  circuit_open = false;
  active_lot_size = lot;
  last_updated = 0;
}
