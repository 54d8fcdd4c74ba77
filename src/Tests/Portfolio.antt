-- ===== src/Tests/Portfolio.antt =====
-- Runs of the portfolio guards.
use scalp_bot_os.Base.{
  ◌≡◌, refl, ltb, List, [], ◌∷◌, pos, bytes, upper, contains, to_upper, trim_space, dec, lit,
}
use scalp_bot_os.Base.Fixed.{Fixed, fixed_float}
use scalp_bot_os.Model.Types.{OrderSide, Position}
use scalp_bot_os.Model.Symbol.{normalize_symbol, pip_multiplier, pip_value}
use scalp_bot_os.Portfolio.Correlation.{
  new_correlation_guard, check_correlation, conflicts, check_correlation-conflicts,
}
use scalp_bot_os.Portfolio.Sizing.{
  default_sizer_config, volatility_lot_size, sl_pips, pip_value_of_lot, stepped_lots,
}
use scalp_bot_os.Tests.Inputs.{noon}

abbrev sterling : List (Position Fixed)
sterling =
    record {
      order_id = bytes "1";
      symbol = bytes "GBPUSDm";
      side = OrderSide.side_buy;
      lots = dec 10 2;
      entry_price = dec 125 2;
      current_pnl = lit 0;
      open_time_ns = noon;
    }
    ∷ []

check_correlation-conflicts_example :
    check_correlation (new_correlation_guard (pos 1)) (bytes "EURUSD") OrderSide.side_buy sterling
    ≡ ltb
        (conflicts
          (new_correlation_guard (pos 1))
          (normalize_symbol (bytes "EURUSD"))
          OrderSide.side_buy
          sterling)
        1
unfolding new_correlation_guard
check_correlation-conflicts_example =
    check_correlation-conflicts (pos 1) (bytes "EURUSD") OrderSide.side_buy sterling

gold_lots :
    volatility_lot_size {F = Fixed} default_sizer_config (bytes "XAUUSD") (lit 10000) (lit 2)
    ≡ dec 33 2
unfolding volatility_lot_size sl_pips pip_value_of_lot stepped_lots pip_multiplier pip_value
    contains to_upper upper trim_space
gold_lots = refl
