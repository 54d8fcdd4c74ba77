-- ===== src/Tests/Broker.antt =====
-- Runs of the lifecycle manager and of the reconnection loop.
use scalp_bot_os.Base.{
  ℕ, ◌+◌, ◌==◌, ◌≡◌, ◌⊎◌, refl, true, false, Bool, List, [], ◌∷◌, drop, ℤ, pos, ◌≤ℤ◌, All, some,
  bytes, lit, arith,
}
use scalp_bot_os.Base.Fixed.{Fixed, fixed_float}
use scalp_bot_os.Model.Types.{OrderRequest, Position}
use scalp_bot_os.Broker.Lifecycle.{
  Answer, failure, Event, ticked, beat, new_lifecycle_manager, run, execute, delegated,
  not_connected, reconnecting,
}
use scalp_bot_os.Broker.Lifecycle.Stale.{Stale, execute-Stale}
use scalp_bot_os.Broker.Reconnect.{ReconnectPolicy, Reconnection, execute_reconnect}
use scalp_bot_os.Broker.Reconnect.Ending.{IsEnd, execute_reconnect-IsEnd}
use scalp_bot_os.Tests.Inputs.{noon}
use scalp_bot_os.Tests.Dispatcher.{order_for, silver}

-- A tick, a beat that comes twelve seconds later, and ticks again.
abbrev outage : List Event
outage =
    ticked noon
    ∷ (beat (noon + 2_000_000_000)
        ∷ (beat (noon + 12_000_000_000) ∷ (ticked (noon + 13_000_000_000) ∷ [])))

abbrev no_broker : OrderRequest Fixed → Answer (Position Fixed)
no_broker order = failure (bytes "rejected")

execute-Stale_example :
    ((execute (run (new_lifecycle_manager 10_000_000_000 true) outage) no_broker (order_for silver)
        ≡ delegated (no_broker (order_for silver)))
      × (¬ Stale 10_000_000_000 0 outage))
    ⊎ ((execute
            (run (new_lifecycle_manager 10_000_000_000 true) outage)
            no_broker
            (order_for silver)
          ≡ not_connected reconnecting)
        × Stale 10_000_000_000 0 outage)
execute-Stale_example = execute-Stale 10_000_000_000 true outage no_broker (order_for silver)

-- The default policy with three attempts, and a broker that answers at the second attempt.
abbrev policy : ℕ → ReconnectPolicy Fixed
policy n = record {
  max_retries = pos n;
  base_delay = pos 1_000_000_000;
  max_delay = pos 30_000_000_000;
  backoff_multiplier = lit 2;
}

abbrev second : ℕ → Bool
second n = n == 2

abbrev never : ℕ → Bool
never n = false

-- Conversions that double every delay.
abbrev seconds : ℤ → Fixed
seconds d = lit 1

abbrev two_seconds : Fixed → ℤ
two_seconds x = pos 2_000_000_000

execute_reconnect-IsEnd_example :
    (r : Reconnection) × (execute_reconnect seconds two_seconds (policy 3) second never 4 ≡ some r)
    × IsEnd seconds two_seconds (policy 3) second never 3 1 (pos 1_000_000_000) r
    × All (λ d. d ≤ℤ pos 30_000_000_000) (drop 1 r.waits)
execute_reconnect-IsEnd_example =
    execute_reconnect-IsEnd seconds two_seconds (policy 3) second never 3 refl (omega arith)
