-- ===== src/Broker/Reconnect/Passes.antt =====
-- What one pass of the reconnection loop does, by how its attempt goes.
use scalp_bot_os.Base.{ℕ, suc, Bool, true, false, ◌-◌, ◌≡◌, refl, [], some, Float, ℤ}
use scalp_bot_os.Broker.Reconnect.{
  ReconnectPolicy, reached, cancelled, exhausted, is_allowed, waited, next_delay, reconnect_from,
}

module _ {F : Type 0} ⦃f : Float F⦄ (to_float : ℤ → F) (to_duration : F → ℤ) (p : ReconnectPolicy F)
    (connects cancels : ℕ → Bool) where
  pub pass_exhausted :
      (n a : ℕ) (delay : ℤ)
      → is_allowed p.max_retries a ≡ false
      → reconnect_from to_float to_duration p connects cancels (suc n) a delay
        ≡ some (record { outcome = exhausted; attempts = a - 1; waits = [] })
  unfolding reconnect_from
  pass_exhausted n a delay h = rw h refl

  pub pass_reached :
      (n a : ℕ) (delay : ℤ)
      → is_allowed p.max_retries a ≡ true
      → connects a ≡ true
      → reconnect_from to_float to_duration p connects cancels (suc n) a delay
        ≡ some (record { outcome = reached; attempts = a; waits = [] })
  unfolding reconnect_from
  pass_reached n a delay h c = rw (h, c) refl

  pub pass_cancelled :
      (n a : ℕ) (delay : ℤ)
      → is_allowed p.max_retries a ≡ true
      → connects a ≡ false
      → cancels a ≡ true
      → reconnect_from to_float to_duration p connects cancels (suc n) a delay
        ≡ some (record { outcome = cancelled; attempts = a; waits = [] })
  unfolding reconnect_from
  pass_cancelled n a delay h c x = rw (h, c, x) refl

  pub pass_again :
      (n a : ℕ) (delay : ℤ)
      → is_allowed p.max_retries a ≡ true
      → connects a ≡ false
      → cancels a ≡ false
      → reconnect_from to_float to_duration p connects cancels (suc n) a delay
        ≡ waited delay (
            reconnect_from to_float to_duration p connects cancels n
              (suc a)
              (next_delay to_float to_duration p delay))
  unfolding reconnect_from
  pass_again n a delay h c x = rw (h, c, x) refl
