-- ===== src/MarketData/Ring.antt =====
-- internal/marketdata/ringbuffer.go: the fixed-size circular buffer of ticks. The slice pool behind
-- `Latest` only saves allocations and is left out; the mutex makes each method one step.
pub mod History
pub mod Reads
use scalp_bot_os.Base.{
  ℕ, zero, suc, ◌+◌, ◌-◌, ◌%◌, ℤ, pos, negsuc, Bool, true, false, ltb, ◌==◌, if◌then◌else◌, List,
  [], ◌∷◌, get_or, set, replicate, Float,
}
use scalp_bot_os.Model.Types.{Tick, zero_tick}

pub record TickRingBuffer (F : Type 0) : Type 0 where
  pub buf : List (Tick F)
  pub size : ℕ
  pub head : ℕ
  pub count : ℕ

abbrev pub default_capacity : ℕ
default_capacity = 1024

module _ {F : Type 0} ⦃f : Float F⦄ where
  -- The buffer of a capacity that is positive.
  abbrev pub with_capacity : ℕ → TickRingBuffer F
  with_capacity c = record { buf = replicate c zero_tick; size = c; head = 0; count = 0 }

  unfoldable pub new_tick_ring_buffer : ℤ → TickRingBuffer F
  new_tick_ring_buffer (negsuc n) = with_capacity default_capacity
  new_tick_ring_buffer (pos zero) = with_capacity default_capacity
  new_tick_ring_buffer (pos (suc n)) = with_capacity (suc n)

  unfoldable pub push : TickRingBuffer F → Tick F → TickRingBuffer F
  push rb tick = record rb {
    buf = set rb.buf rb.head tick;
    head = (rb.head + 1) % rb.size;
    count = if ltb rb.count rb.size then rb.count + 1 else rb.count;
  }

  -- `rb.head - 1 + rb.size`, which is not negative as the capacity is positive.
  abbrev pub last_index : TickRingBuffer F → ℕ
  last_index rb = (rb.head + rb.size - 1) % rb.size

  unfoldable pub last : TickRingBuffer F → Tick F × Bool
  last rb =
      if rb.count == 0 then (zero_tick, false) else (get_or rb.buf (last_index rb) zero_tick, true)

  unfoldable pub len : TickRingBuffer F → ℕ
  len rb = rb.count

  -- The loop of `Latest` over `i`, with the rounds that are left.
  pub read_from : List (Tick F) → ℕ → ℕ → ℕ → ℕ → List (Tick F)
  read_from buf size start i zero = []
  read_from buf size start i (suc left) =
      get_or buf ((start + i) % size) zero_tick ∷ read_from buf size start (i + 1) left

  pub latest_clamped : TickRingBuffer F → ℕ → List (Tick F)
  unfolding read_from
  latest_clamped rb n =
      if n == 0 then [] else read_from rb.buf rb.size ((rb.head + rb.size - n) % rb.size) 0 n

  -- A negative `n` runs no round of the loop.
  unfoldable pub latest : TickRingBuffer F → ℤ → List (Tick F)
  unfolding latest_clamped
  latest rb (negsuc n) = []
  latest rb (pos n) = latest_clamped rb (if ltb rb.count n then rb.count else n)

  -- What `*dst` holds afterwards, beside the result.
  unfoldable pub snapshot_last : TickRingBuffer F → Tick F → Tick F × Bool
  snapshot_last rb dst =
      if rb.count == 0 then (dst, false) else (get_or rb.buf (last_index rb) zero_tick, true)
