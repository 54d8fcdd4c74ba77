-- ===== src/Broker/Reconnect.antt =====
-- `ReconnectPolicy` of internal/broker/lifecycle.go: the loop that connects again, with a delay that
-- grows between attempts. The connection and the cancellation of the context are parameters: for each
-- attempt whether it succeeds, and whether the wait after it is cut short. The attempts are counted
-- by fuel, so that a loop without a limit that has not ended is `none`.
pub mod Passes
pub mod Ending
pub mod Unlimited
use scalp_bot_os.Base.{
  ℕ, zero, suc, ◌+◌, ◌≤◌, ◌<◌, Bool, true, false, ◌||◌, ◌-◌, eq_ℤ, le_ℤ, if◌then◌else◌, ◌≡◌, refl,
  sym, ap, subst, ◌∙◌, ◌⊎◌, List, [], ◌∷◌, Option, none, some, Float, ◌*F◌, ℤ, pos, lt_ℤ, ◌≤ℤ◌, All,
  ◌≢◌, drop, arith, Bool-cases, inl, inr,
}

-- Delays in nanoseconds.
pub record ReconnectPolicy (F : Type 0) : Type 0 where
  pub max_retries : ℤ
  pub base_delay : ℤ
  pub max_delay : ℤ
  pub backoff_multiplier : F

pub data Outcome : Type 0 where
  reached cancelled exhausted : Outcome

-- How the loop ends, the number of attempts, and the delays that were waited for.
pub record Reconnection : Type 0 where
  pub outcome : Outcome
  pub attempts : ℕ
  pub waits : List ℤ

-- The condition of the loop; 0 stands for no limit.
unfoldable pub is_allowed : ℤ → ℕ → Bool
is_allowed max_retries attempt = eq_ℤ max_retries (pos 0) || le_ℤ (pos attempt) max_retries

abbrev pub waited : ℤ → Option Reconnection → Option Reconnection
waited delay none = none
waited delay (some r) = some (record r { waits = delay ∷ r.waits })

-- `to_float` and `to_duration` are Go's conversions of numbers.
module _ {F : Type 0} ⦃f : Float F⦄ (to_float : ℤ → F) (to_duration : F → ℤ)
    (p : ReconnectPolicy F) where
  unfoldable pub next_delay : ℤ → ℤ
  next_delay delay =
      let longer = to_duration (to_float delay *F p.backoff_multiplier) in
      if lt_ℤ p.max_delay longer then p.max_delay else longer

  module _ (connects cancels : ℕ → Bool) where
    unfoldable pub reconnect_from : ℕ → ℕ → ℤ → Option Reconnection
    reconnect_from zero attempt delay = none
    reconnect_from (suc fuel) attempt delay =
        let rest = reconnect_from fuel (suc attempt) (next_delay delay) in
        if is_allowed p.max_retries attempt
        then (if connects attempt
            then some (record { outcome = reached; attempts = attempt; waits = [] })
            else if cancels attempt
            then some (record { outcome = cancelled; attempts = attempt; waits = [] })
            else waited delay rest)
        else some (record { outcome = exhausted; attempts = attempt - 1; waits = [] })

    unfoldable pub execute_reconnect : ℕ → Option Reconnection
    execute_reconnect fuel = reconnect_from fuel 1 p.base_delay
