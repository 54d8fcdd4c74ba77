-- ===== src/Indicator/Bollinger.antt =====
-- internal/indicator/bollinger.go: Bollinger bands over a window, in a ring of prices.
use scalp_bot_os.Base.{
  ℕ, suc, ◌+◌, ◌%◌, Bool, true, false, ltb, if◌then◌else◌, ℤ, pos, negsuc, List, [], ◌∷◌, set,
  get_or, replicate, length, Float, ◌+F◌, ◌-F◌, ◌*F◌, ◌/F◌, ◌≤F◌, ◌>F◌, lit, dec,
}

pub record BollingerResult (F : Type 0) : Type 0 where
  pub upper_band : F
  pub middle : F
  pub lower_band : F
  pub bandwidth : F
  pub percent_b : F
  pub valid : Bool

pub record Bollinger (F : Type 0) : Type 0 where
  pub period : ℕ
  pub k : F
  pub buf : List F
  pub place : ℕ
  pub count : ℕ
  pub sum : F
  pub last_result : BollingerResult F

-- A period below two is twenty.
abbrev pub bollinger_period : ℤ → ℕ
bollinger_period (pos n) = if ltb n 2 then 20 else n
bollinger_period (negsuc n) = 20

module _ {F : Type 0} ⦃f : Float F⦄ where
  abbrev pub no_result : BollingerResult F
  no_result = record {
    upper_band = lit 0;
    middle = lit 0;
    lower_band = lit 0;
    bandwidth = lit 0;
    percent_b = lit 0;
    valid = false;
  }

  unfoldable pub new_bollinger : ℤ → F → Bollinger F
  new_bollinger period k = record {
    period = bollinger_period period;
    k = if k ≤F lit 0 then lit 2 else k;
    buf = replicate (bollinger_period period) (lit 0);
    place = 0;
    count = 0;
    sum = lit 0;
    last_result = no_result;
  }

  unfoldable pub variance_sum : F → F → List F → F
  variance_sum mean total [] = total
  variance_sum mean total (x ∷ xs) = variance_sum mean (total +F ((x -F mean) *F (x -F mean))) xs

  -- The bands of a full window, at a price.
  unfoldable pub bands : Bollinger F → F → BollingerResult F
  bands b price =
      let mean = b.sum /F lit b.period in
      let std_dev = f.sqrt (variance_sum mean (lit 0) b.buf /F lit b.period) in
      let top = mean +F (b.k *F std_dev) in
      let bottom = mean -F (b.k *F std_dev) in
      let band_range = top -F bottom in
      record {
        upper_band = top;
        middle = mean;
        lower_band = bottom;
        bandwidth = if mean >F lit 0 then (top -F bottom) /F mean else lit 0;
        percent_b = if band_range >F lit 0 then (price -F bottom) /F band_range else dec 5 1;
        valid = true;
      }

  abbrev pub bollinger_fill : Bollinger F → F → Bollinger F
  bollinger_fill b price = record b {
    buf = set b.buf b.place price;
    sum = b.sum +F price;
    place = (b.place + 1) % b.period;
    count = suc b.count;
  }

  abbrev pub bollinger_replace : Bollinger F → F → Bollinger F
  bollinger_replace b price = record b {
    sum = (b.sum -F get_or b.buf b.place (lit 0)) +F price;
    buf = set b.buf b.place price;
    place = (b.place + 1) % b.period;
  }

  abbrev pub with_result : Bollinger F → BollingerResult F → Bollinger F × BollingerResult F
  with_result b r = (record b { last_result = r }, r)

  unfoldable pub bollinger_update : Bollinger F → F → Bollinger F × BollingerResult F
  bollinger_update b price =
      let filled = bollinger_fill b price in
      let replaced = bollinger_replace b price in
      if ltb b.count b.period
      then (if ltb (suc b.count) b.period
          then with_result filled no_result
          else with_result filled (bands filled price))
      else with_result replaced (bands replaced price)

  unfoldable pub bollinger_reset : Bollinger F → Bollinger F
  bollinger_reset b = record b {
    place = 0;
    count = 0;
    sum = lit 0;
    last_result = no_result;
    buf = replicate (length b.buf) (lit 0);
  }
