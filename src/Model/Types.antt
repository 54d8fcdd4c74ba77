-- ===== src/Model/Types.antt =====
-- internal/model: candle.go, order.go, signal.go and the Tick of tick.go. Prices are values of any
-- `Float`; a timestamp is a number of nanoseconds since the Unix epoch, which is never negative.
use scalp_bot_os.Base.{
  ℕ, Bool, true, false, ◌||◌, if◌then◌else◌, Text, bytes, Float, ◌+F◌, ◌-F◌, ◌*F◌, ◌/F◌, ◌<F◌, ◌≥F◌,
  lit,
}

pub data SignalType : Type 0 where
  no_signal buy sell : SignalType

pub data OrderStatus : Type 0 where
  pending filled rejected cancelled : OrderStatus

pub data OrderSide : Type 0 where
  side_buy side_sell : OrderSide

unfoldable pub signal_string : SignalType → Text
signal_string SignalType.buy = bytes "BUY"
signal_string SignalType.sell = bytes "SELL"
signal_string SignalType.no_signal = bytes "NO_SIGNAL"

unfoldable pub status_string : OrderStatus → Text
status_string OrderStatus.pending = bytes "PENDING"
status_string OrderStatus.filled = bytes "FILLED"
status_string OrderStatus.rejected = bytes "REJECTED"
status_string OrderStatus.cancelled = bytes "CANCELLED"

unfoldable pub side_string : OrderSide → Text
side_string OrderSide.side_buy = bytes "BUY"
side_string OrderSide.side_sell = bytes "SELL"

abbrev pub side_eq : OrderSide → OrderSide → Bool
side_eq OrderSide.side_buy OrderSide.side_buy = true
side_eq OrderSide.side_sell OrderSide.side_sell = true
side_eq OrderSide.side_buy OrderSide.side_sell = false
side_eq OrderSide.side_sell OrderSide.side_buy = false

pub record Tick (F : Type 0) : Type 0 where
  pub symbol : Text
  pub bid : F
  pub ask : F
  pub timestamp_ns : ℕ

pub record Candle (F : Type 0) : Type 0 where
  pub symbol : Text
  pub opened : F
  pub high : F
  pub low : F
  pub closed : F
  pub volume : F
  pub buyer_vol : F
  pub seller_vol : F
  pub tick_count : ℕ
  pub timestamp_ns : ℕ

pub record Signal (F : Type 0) : Type 0 where
  pub type : SignalType
  pub symbol : Text
  pub price : F
  pub strength : F
  pub stop_loss : F
  pub take_profit : F
  pub timestamp_ns : ℕ
  pub strategy_id : Text

pub record OrderRequest (F : Type 0) : Type 0 where
  pub symbol : Text
  pub side : OrderSide
  pub lots : F
  pub price : F
  pub stop_loss : F
  pub take_profit : F
  pub status : OrderStatus
  pub signal_id : Text
  pub timestamp_ns : ℕ

pub record Position (F : Type 0) : Type 0 where
  pub order_id : Text
  pub symbol : Text
  pub side : OrderSide
  pub lots : F
  pub entry_price : F
  pub current_pnl : F
  pub open_time_ns : ℕ

abbrev is_buy : SignalType → Bool
is_buy SignalType.buy = true
is_buy SignalType.sell = false
is_buy SignalType.no_signal = false

abbrev pub is_sell : SignalType → Bool
is_sell SignalType.sell = true
is_sell SignalType.buy = false
is_sell SignalType.no_signal = false

unfoldable pub is_actionable : {F : Type 0} → Signal F → Bool
is_actionable s = is_buy s.type || is_sell s.type

module _ {F : Type 0} ⦃f : Float F⦄ where
  unfoldable pub spread : Tick F → F
  spread t = t.ask -F t.bid

  unfoldable pub mid_price : Tick F → F
  mid_price t = (t.bid +F t.ask) /F lit 2

  unfoldable pub spread_pips : Tick F → F → F
  unfolding spread
  spread_pips t pip_multiplier = spread t *F pip_multiplier

  unfoldable pub range : Candle F → F
  range c = c.high -F c.low

  unfoldable pub is_bullish : Candle F → Bool
  is_bullish c = c.closed ≥F c.opened

  unfoldable pub body : Candle F → F
  body c = let b = c.closed -F c.opened in if b <F lit 0 then f.neg b else b

  -- The zero values of `Candle`, `Tick` and `OrderRequest`.
  abbrev pub zero_candle : Candle F
  zero_candle = record {
    symbol = bytes "";
    opened = lit 0;
    high = lit 0;
    low = lit 0;
    closed = lit 0;
    volume = lit 0;
    buyer_vol = lit 0;
    seller_vol = lit 0;
    tick_count = 0;
    timestamp_ns = 0;
  }

  abbrev pub zero_tick : Tick F
  zero_tick = record { symbol = bytes ""; bid = lit 0; ask = lit 0; timestamp_ns = 0 }
