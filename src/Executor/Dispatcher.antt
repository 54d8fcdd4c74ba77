-- ===== src/Executor/Dispatcher.antt =====
-- internal/executor/dispatcher.go: the pool of workers that sends orders to the broker. A run of the
-- goroutines is a sequence of events, each of which is atomic in the source: a submission, the
-- receipt of an order by a worker, the end of an execution, and the closing of the channel. The
-- broker's answer to an order is part of the event that ends its execution. `Submit` marks the symbol
-- and sends the order under no common lock; it is one event here because cmd/bot/main.go calls it from
-- one goroutine only.
pub mod Pick
pub mod Queue
pub mod Exclusion
pub mod Draining
pub mod Resting
use scalp_bot_os.Base.{
  ℕ, zero, suc, ◌+◌, Bool, true, false, ltb, if◌then◌else◌, List, [], ◌∷◌, ◌++◌, length, Option,
  none, some, Text, to_upper, trim_space, ℤ, pos, negsuc,
}
use scalp_bot_os.Base.Dict.{lookup, insert, delete}
use scalp_bot_os.Model.Types.{OrderRequest, Position}

pub record Dispatcher (F : Type 0) : Type 0 where
  -- The channel and its capacity.
  pub order_ch : List (OrderRequest F)
  pub buffer_size : ℕ
  pub closed : Bool
  pub workers : ℕ
  -- The orders that workers are executing.
  pub executing : List (OrderRequest F)
  pub in_flight_symbols : List (Text × ℕ)

-- `Submit` on a closed channel panics.
pub data Submission : Type 0 where
  accepted already_in_flight channel_full send_on_closed : Submission

-- The callback that an execution ends in.
pub data Completion (F : Type 0) : Type 0 where
  on_fill : Position F → OrderRequest F → Completion F
  on_reject : OrderRequest F → Completion F

abbrev pub or_default : ℤ → ℕ → ℕ
or_default (pos zero) n = n
or_default (pos (suc k)) n = suc k
or_default (negsuc k) n = n

-- `5 * time.Second`.
abbrev pub five_seconds : ℕ
five_seconds = 5_000_000_000

-- `last_time` is that of the symbol's last submission.
abbrev pub is_recent : ℕ → Option ℕ → Bool
is_recent now none = false
is_recent now (some last_time) = ltb now (last_time + five_seconds)

module _ {F : Type 0} where
  unfoldable pub new_dispatcher : ℤ → ℤ → Dispatcher F
  new_dispatcher buffer_size workers = record {
    order_ch = [];
    buffer_size = or_default buffer_size 32;
    closed = false;
    workers = or_default workers 2;
    executing = [];
    in_flight_symbols = [];
  }

  unfoldable pub symbol_key : OrderRequest F → Text
  symbol_key order = to_upper (trim_space order.symbol)

  -- The `select` of `Submit`, after the symbol was marked.
  unfoldable pub send : Dispatcher F → OrderRequest F → Dispatcher F × Submission
  send d order =
      if d.closed
      then (d, send_on_closed)
      else if ltb (length d.order_ch) d.buffer_size
      then (record d { order_ch = d.order_ch ++ (order ∷ []) }, accepted)
      else (
        record d { in_flight_symbols = delete (symbol_key order) d.in_flight_symbols },
        channel_full,
      )

  abbrev pub mark_in_flight : Dispatcher F → OrderRequest F → ℕ → Dispatcher F
  mark_in_flight d order now = record d {
    in_flight_symbols = insert (symbol_key order) now d.in_flight_symbols;
  }

  unfoldable pub submit : Dispatcher F → OrderRequest F → ℕ → Dispatcher F × Submission
  unfolding send
  submit d order now =
      if is_recent now (lookup (symbol_key order) d.in_flight_symbols)
      then (d, already_in_flight)
      else send (mark_in_flight d order now) order

  -- A worker that is idle receives the first order of the channel, if there is one.
  abbrev pub receive : Dispatcher F → List (OrderRequest F) → Dispatcher F
  receive d [] = d
  receive d (order ∷ rest) = record d { order_ch = rest; executing = d.executing ++ (order ∷ []) }

  unfoldable pub take : Dispatcher F → Dispatcher F
  take d = if ltb (length d.executing) d.workers then receive d d.order_ch else d

  -- The order at a place of a list, and the list without it.
  abbrev pub pick : ℕ → List (OrderRequest F) → Option (OrderRequest F × List (OrderRequest F))
  pick n [] = none
  pick zero (o ∷ os) = some (o, os)
  pick (suc n) (o ∷ os) = elim (pick n os) [ none ↦ none | some (p, ps) ↦ some (p, o ∷ ps) ]

  -- The end of `executeOrder` for one of the orders that are executed, with the broker's answer:
  -- a position, or an error. The deferred function releases the symbol.
  abbrev pub completion : Option (Position F) → OrderRequest F → Completion F
  completion none order = on_reject order
  completion (some position) order = on_fill position order

  unfoldable pub finish :
      Dispatcher F → ℕ → Option (Position F) → Dispatcher F × List (Completion F)
  finish d n answer = elim (pick n d.executing) [
    | none ↦ (d, [])
    | some (order, rest) ↦ (
      record d {
        executing = rest;
        in_flight_symbols = delete (symbol_key order) d.in_flight_symbols;
      },
      completion answer order ∷ [],
    )
  ]

  unfoldable pub close_channel : Dispatcher F → Dispatcher F
  close_channel d = record d { closed = true }

  unfoldable pub pending : Dispatcher F → ℕ
  pending d = length d.order_ch

pub data Event (F : Type 0) : Type 0 where
  submitted : OrderRequest F → ℕ → Event F
  taken : Event F
  finished : ℕ → Option (Position F) → Event F
  stopped : Event F

module _ {F : Type 0} where
  unfoldable pub step : Dispatcher F → Event F → Dispatcher F
  step d (submitted order now) = (submit d order now).0
  step d taken = take d
  step d (finished n answer) = (finish d n answer).0
  step d stopped = close_channel d

  unfoldable pub run : Dispatcher F → List (Event F) → Dispatcher F
  run d [] = d
  run d (e ∷ es) = run (step d e) es
