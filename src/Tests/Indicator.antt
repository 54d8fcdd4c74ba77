-- ===== src/Tests/Indicator.antt =====
-- Runs of the indicators.
use scalp_bot_os.Base.{pos, ◌≡◌, refl, List, [], ◌∷◌, ◌++◌, lit, ◌/F◌}
use scalp_bot_os.Base.Fixed.{Fixed, fixed_float}
use scalp_bot_os.Indicator.Sma.{Sma, new_sma, sma_update, sma_value}
use scalp_bot_os.Indicator.Rsi.{Rsi, fresh_rsi, compute_rsi, rsi_change, rsi_update, rsi_value}
use scalp_bot_os.Indicator.Bollinger.{BollingerResult, new_bollinger, bands, bollinger_update}
use scalp_bot_os.Indicator.Ema.{
  fresh_ema, update, update_all, value_of, sum_from, smooth, value_of-smooth,
}

abbrev prices : List Fixed
prices = lit 10 ∷ lit 20 ∷ []

value_of-smooth_example :
    value_of (update_all (fresh_ema 3) (prices ++ (lit 30 ∷ lit 40 ∷ [])))
    ≡ smooth (lit 2 /F lit 4) (sum_from (lit 0) (prices ++ (lit 30 ∷ [])) /F lit 3) (lit 40 ∷ [])
value_of-smooth_example = value_of-smooth prices (lit 30) (lit 40 ∷ [])

-- The mean of the first three is 20, and a half of the way to 40 is 30.
smoothed :
    value_of (update_all (fresh_ema {F = Fixed} 3) (prices ++ (lit 30 ∷ lit 40 ∷ []))) ≡ lit 30
unfolding value_of update_all update
smoothed = refl

abbrev averaged : Sma Fixed
averaged = (sma_update (sma_update (sma_update (new_sma (pos 2)) (lit 10)).0 (lit 20)).0 (lit 30)).0

the_window_slides : sma_value averaged ≡ lit 25
unfolding sma_value sma_update new_sma
the_window_slides = refl

abbrev rising : Rsi Fixed
rising = (rsi_update (rsi_update (rsi_update (fresh_rsi 2) (lit 10)).0 (lit 20)).0 (lit 30)).0

all_gains : rsi_value rising ≡ lit 100
unfolding rsi_value rsi_update rsi_change compute_rsi
all_gains = refl

abbrev banded : BollingerResult Fixed
banded = (bollinger_update (bollinger_update (new_bollinger (pos 2) (lit 2)) (lit 10)).0 (lit 20)).1

the_middle_is_the_mean : banded.middle ≡ lit 15
unfolding bollinger_update new_bollinger bands
the_middle_is_the_mean = refl
