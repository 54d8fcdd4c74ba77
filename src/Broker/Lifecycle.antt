-- ===== src/Broker/Lifecycle.antt =====
-- internal/broker/lifecycle.go: the guard that stops orders when ticks no longer come. The broker is
-- a parameter. The state is read and written atomically, so a run is a sequence of ticks and of
-- beats of the monitor, with the clock's time of each beat in nanoseconds.
pub mod Stale
use scalp_bot_os.Base.{
  ℕ, ◌+◌, ◌-◌, ◌==◌, Bool, true, false, ltb, if◌then◌else◌, List, [], ◌∷◌, Option, none, some, Text,
  bytes,
}
use scalp_bot_os.Model.Types.{OrderRequest, Position}

pub data ConnectionState : Type 0 where
  disconnected connecting connected reconnecting : ConnectionState

unfoldable pub state_string : ConnectionState → Text
state_string disconnected = bytes "DISCONNECTED"
state_string connecting = bytes "CONNECTING"
state_string connected = bytes "CONNECTED"
state_string reconnecting = bytes "RECONNECTING"

-- A value or an error, as the broker answers.
pub data Answer (A : Type 0) : Type 0 where
  answer : A → Answer A
  failure : Text → Answer A

-- `on_disconnect` tells whether a callback was configured.
pub record LifecycleManager : Type 0 where
  pub state : ConnectionState
  pub last_tick_time : ℕ
  pub stale_threshold : ℕ
  pub on_disconnect : Bool

abbrev pub default_stale_threshold : ℕ
default_stale_threshold = 10_000_000_000

unfoldable pub new_lifecycle_manager : ℕ → Bool → LifecycleManager
new_lifecycle_manager stale_threshold on_disconnect = record {
  state = connected;
  last_tick_time = 0;
  stale_threshold = stale_threshold;
  on_disconnect = on_disconnect;
}

-- What `Execute` returns: the broker's answer, or its own error.
pub data Execution (F : Type 0) : Type 0 where
  delegated : Answer (Position F) → Execution F
  not_connected : ConnectionState → Execution F

abbrev execute_in :
    {F : Type 0}
    → ConnectionState
    → (OrderRequest F → Answer (Position F))
    → OrderRequest F
    → Execution F
execute_in connected broker order = delegated (broker order)
execute_in disconnected broker order = not_connected disconnected
execute_in connecting broker order = not_connected connecting
execute_in reconnecting broker order = not_connected reconnecting

unfoldable pub execute :
    {F : Type 0}
    → LifecycleManager
    → (OrderRequest F → Answer (Position F))
    → OrderRequest F
    → Execution F
execute lm broker order = execute_in lm.state broker order

unfoldable pub record_tick : LifecycleManager → ℕ → LifecycleManager
record_tick lm timestamp_ns = record lm { last_tick_time = timestamp_ns }

-- One beat of the monitor, and the elapsed time that it gives to the callback. The time since the
-- last tick is negative when the clock is behind that tick, and no threshold is exceeded then.
unfoldable pub heartbeat : LifecycleManager → ℕ → LifecycleManager × Option ℕ
heartbeat lm now =
    if lm.last_tick_time == 0
    then (lm, none)
    else if ltb (lm.last_tick_time + lm.stale_threshold) now
    then (
      record lm { state = reconnecting },
      (if lm.on_disconnect then some (now - lm.last_tick_time) else none),
    )
    else (lm, none)

-- `listing` is what a broker that lists its positions answers.
unfoldable pub reconcile_positions :
    {F : Type 0} → Option (Answer (List (Position F))) → Answer (List (Position F))
reconcile_positions (some listing) = listing
reconcile_positions none = answer []

pub data Event : Type 0 where
  ticked beat : ℕ → Event

unfoldable pub step : LifecycleManager → Event → LifecycleManager
step lm (ticked timestamp_ns) = record_tick lm timestamp_ns
step lm (beat now) = (heartbeat lm now).0

unfoldable pub run : LifecycleManager → List Event → LifecycleManager
run lm [] = lm
run lm (e ∷ es) = run (step lm e) es
