-- ===== src/Broker/Reconnect/Unlimited.antt =====
-- How the reconnection loop ends when no limit is set on its attempts.
use scalp_bot_os.Base.{
  ℕ, zero, suc, ◌+◌, ◌≤◌, Bool, true, ◌≡◌, refl, sym, ap, subst, ◌∙◌, [], ◌∷◌, some, Float, ℤ, pos,
  ◌≢◌, arith, Bool-cases, inl, inr,
}
use scalp_bot_os.Broker.Reconnect.{
  ReconnectPolicy, reached, cancelled, exhausted, Reconnection, is_allowed, waited, next_delay,
  reconnect_from, execute_reconnect,
}
use scalp_bot_os.Broker.Reconnect.Passes.{pass_reached, pass_cancelled, pass_again}

module _ {F : Type 0} ⦃f : Float F⦄ (to_float : ℤ → F) (to_duration : F → ℤ) (p : ReconnectPolicy F)
    (connects cancels : ℕ → Bool) where
  reconnect_from_unlimited :
      (n a : ℕ) (delay : ℤ)
      → p.max_retries ≡ pos 0
      → connects (a + n) ≡ true
      → (r : Reconnection) × (reconnect_from to_float to_duration p connects cancels (suc n) a delay
          ≡ some r)
        × (r.attempts ≤ a + n)
        × (r.outcome ≢ exhausted)
  unfolding is_allowed
  reconnect_from_unlimited zero a delay e h = (
    record { outcome = reached; attempts = a; waits = [] },
    pass_reached to_float to_duration p connects cancels zero a delay
        (subst (λ z. is_allowed z a ≡ true) (sym e) refl)
        (subst (λ k. connects k ≡ true) (omega arith) h),
    omega arith,
    λ x. absurd (ground (arith, x)),
  )
  reconnect_from_unlimited (suc n) a delay e h =
      let allowed : is_allowed p.max_retries a ≡ true =
        subst (λ z. is_allowed z a ≡ true) (sym e) refl in
      elim (Bool-cases (connects a)) [
        | inl c ↦ (
          record { outcome = reached; attempts = a; waits = [] },
          pass_reached to_float to_duration p connects cancels (suc n) a delay allowed c,
          omega arith,
          λ x. absurd (ground (arith, x)),
        )
        | inr c ↦ elim (Bool-cases (cancels a)) [
          | inl x ↦ (
            record { outcome = cancelled; attempts = a; waits = [] },
            pass_cancelled to_float to_duration p connects cancels (suc n) a delay allowed c x,
            omega arith,
            λ y. absurd (ground (arith, y)),
          )
          | inr x ↦
              let (r, eq, bound, ended) =
                reconnect_from_unlimited n (suc a) (next_delay to_float to_duration p delay) e
                  (subst (λ k. connects k ≡ true) (omega arith) h) in
              (
                record r { waits = delay ∷ r.waits },
                pass_again to_float to_duration p connects cancels (suc n) a delay allowed c x
                    ∙ ap (waited delay) eq,
                omega (arith, bound),
                ended,
              )
        ]
      ]

  -- Without a limit the loop ends once an attempt connects: within `n` passes when attempt `n`
  -- does, and then not by exhaustion.
  execute_reconnect_unlimited :
      (n : ℕ)
      → p.max_retries ≡ pos 0
      → connects (suc n) ≡ true
      → (r : Reconnection) × (execute_reconnect to_float to_duration p connects cancels (suc n)
          ≡ some r)
        × (r.attempts ≤ suc n)
        × (r.outcome ≢ exhausted)
  unfolding execute_reconnect
  execute_reconnect_unlimited n e h =
      let (r, eq, bound, ended) =
        reconnect_from_unlimited n 1 p.base_delay e
          (subst (λ k. connects k ≡ true) (omega arith) h) in
      (r, eq, omega (arith, bound), ended)
