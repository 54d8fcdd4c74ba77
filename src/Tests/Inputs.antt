-- ===== src/Tests/Inputs.antt =====
-- The inputs of the runs: ticks of gold, a signal to buy it and a risk manager.
use scalp_bot_os.Base.{ℕ, ◌*◌, ◌+◌, Text, bytes, dec, lit}
use scalp_bot_os.Base.Fixed.{Fixed, fixed_float}
use scalp_bot_os.Model.Types.{Tick, Signal, SignalType}

abbrev pub gold : Text
gold = bytes "XAUUSDm"

abbrev pub tick_at : ℕ → ℕ → Tick Fixed
tick_at price ns = record {
  symbol = gold;
  bid = lit price;
  ask = dec (price * 10 + 2) 1;
  timestamp_ns = ns;
}

-- Noon of the second of January 1970.
abbrev pub noon : ℕ
noon = 129_600_000_000_000

abbrev pub buy_gold : Signal Fixed
buy_gold = record {
  type = SignalType.buy;
  symbol = gold;
  price = lit 2000;
  strength = lit 1;
  stop_loss = lit 1990;
  take_profit = lit 2020;
  timestamp_ns = noon;
  strategy_id = bytes "ema";
}
