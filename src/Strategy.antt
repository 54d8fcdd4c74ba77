-- ===== src/Strategy.antt =====
-- internal/strategy: the strategies, which see closed candles and answer with a signal. `OnTick` is
-- one function here, since both strategies ignore ticks.
pub mod Momentum
pub mod Range
use scalp_bot_os.Base.{ℕ, Text, bytes, Float, lit}
use scalp_bot_os.Model.Types.{SignalType, Signal, Tick}

module _ {F : Type 0} ⦃f : Float F⦄ where
  -- `model.Signal{Type: model.NoSignal}`.
  abbrev pub silent : Signal F
  silent = record {
    type = SignalType.no_signal;
    symbol = bytes "";
    price = lit 0;
    strength = lit 0;
    stop_loss = lit 0;
    take_profit = lit 0;
    timestamp_ns = 0;
    strategy_id = bytes "";
  }

  unfoldable pub strategy_on_tick : {S : Type 0} → S → Tick F → S × Signal F
  strategy_on_tick s tick = (s, silent)
