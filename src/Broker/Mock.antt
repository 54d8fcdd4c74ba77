-- ===== src/Broker/Mock.antt =====
-- internal/broker/mock.go: the broker that fills orders by itself. The two draws of the random numbers,
-- whether the context ends during the latency, and the clock are arguments. `Close`, `ClosePartial`
-- and `ModifyPosition` only log.
use scalp_bot_os.Base.{
  ℕ, suc, Bool, ◌&&◌, ltb, if◌then◌else◌, Text, bytes, ◌++◌, Float, ◌+F◌, ◌-F◌, ◌*F◌, ◌<F◌, lit,
  dec,
}
use scalp_bot_os.Base.Digits.{digits}
use scalp_bot_os.Model.Types.{OrderRequest, Position}

pub record MockConfig (F : Type 0) : Type 0 where
  pub fill_latency : ℕ
  pub slippage_pct : F
  pub reject_rate : F

pub record MockBroker (F : Type 0) : Type 0 where
  pub fill_latency : ℕ
  pub slippage_pct : F
  pub reject_rate : F
  pub order_seq : ℕ

pub data MockOutcome (F : Type 0) : Type 0 where
  cancelled rejected : MockOutcome F
  filled : Position F → MockOutcome F

unfoldable pub mock_id : ℕ → Text
mock_id n = bytes "MOCK-" ++ digits (suc n) n

module _ {F : Type 0} ⦃f : Float F⦄ where
  unfoldable pub default_mock_config : MockConfig F
  default_mock_config = record {
    fill_latency = 5_000_000;
    slippage_pct = dec 5 5;
    reject_rate = dec 2 2;
  }

  unfoldable pub new_mock_broker : MockConfig F → MockBroker F
  new_mock_broker cfg = record {
    fill_latency = cfg.fill_latency;
    slippage_pct = cfg.slippage_pct;
    reject_rate = cfg.reject_rate;
    order_seq = 0;
  }

  abbrev pub slippage_of : MockBroker F → OrderRequest F → F → F
  slippage_of mb order draw = (((draw *F lit 2) -F lit 1) *F mb.slippage_pct) *F order.price

  abbrev pub mock_position : MockBroker F → OrderRequest F → F → ℕ → Position F
  mock_position mb order draw now = record {
    order_id = mock_id (suc mb.order_seq);
    symbol = order.symbol;
    side = order.side;
    lots = order.lots;
    entry_price = order.price +F slippage_of mb order draw;
    current_pnl = lit 0;
    open_time_ns = now;
  }

  unfoldable pub mock_execute :
      MockBroker F → Bool → F → F → ℕ → OrderRequest F → MockBroker F × MockOutcome F
  mock_execute mb ends draw₁ draw₂ now order =
      if ltb 0 mb.fill_latency && ends
      then (mb, MockOutcome.cancelled)
      else if draw₁ <F mb.reject_rate
      then (mb, MockOutcome.rejected)
      else (
        record mb { order_seq = suc mb.order_seq },
        MockOutcome.filled (mock_position mb order draw₂ now),
      )
