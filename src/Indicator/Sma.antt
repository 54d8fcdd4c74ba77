-- ===== src/Indicator/Sma.antt =====
-- internal/indicator/sma.go: the simple moving average of a window, in a ring of values.
use scalp_bot_os.Base.{
  ℕ, zero, suc, ◌+◌, ◌%◌, ◌==◌, Bool, true, false, ltb, leb, if◌then◌else◌, ℤ, pos, negsuc, List,
  set, get_or, replicate, Float, ◌+F◌, ◌-F◌, ◌/F◌, lit,
}

pub record Sma (F : Type 0) : Type 0 where
  pub period : ℕ
  pub values : List F
  pub idx : ℕ
  pub count : ℕ
  pub sum : F
  pub ready : Bool

abbrev pub sma_period : ℤ → ℕ
sma_period (pos zero) = 50
sma_period (pos (suc n)) = suc n
sma_period (negsuc n) = 50

module _ {F : Type 0} ⦃f : Float F⦄ where
  unfoldable pub new_sma : ℤ → Sma F
  new_sma period = record {
    period = sma_period period;
    values = replicate (sma_period period) (lit 0);
    idx = 0;
    count = 0;
    sum = lit 0;
    ready = false;
  }

  abbrev pub sma_fill : Sma F → F → Sma F
  sma_fill s value = record s {
    values = set s.values s.idx value;
    sum = s.sum +F value;
    idx = (s.idx + 1) % s.period;
    count = suc s.count;
    ready = if leb s.period (suc s.count) then true else s.ready;
  }

  abbrev pub sma_replace : Sma F → F → Sma F
  sma_replace s value = record s {
    sum = (s.sum -F get_or s.values s.idx (lit 0)) +F value;
    values = set s.values s.idx value;
    idx = (s.idx + 1) % s.period;
  }

  unfoldable pub sma_update : Sma F → F → Sma F × F
  sma_update s value =
      if ltb s.count s.period
      then (sma_fill s value, (sma_fill s value).sum /F lit (suc s.count))
      else (sma_replace s value, (sma_replace s value).sum /F lit s.period)

  unfoldable pub sma_value : Sma F → F
  sma_value s = if s.count == 0 then lit 0 else s.sum /F lit s.count
