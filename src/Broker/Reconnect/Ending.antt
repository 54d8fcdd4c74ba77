-- ===== src/Broker/Reconnect/Ending.antt =====
-- How the reconnection loop ends, and after which delays.
use scalp_bot_os.Base.{
  ℕ, zero, suc, ◌+◌, ◌≤◌, ◌<◌, Bool, true, false, ◌-◌, ◌≡◌, refl, sym, ap, subst, ◌∙◌, ◌⊎◌, List,
  [], ◌∷◌, some, Float, ℤ, pos, ◌≤ℤ◌, All, drop, arith, Bool-cases, inl, inr,
}
use scalp_bot_os.Broker.Reconnect.{
  ReconnectPolicy, Outcome, reached, cancelled, exhausted, Reconnection, is_allowed, waited,
  next_delay, reconnect_from, execute_reconnect,
}
use scalp_bot_os.Broker.Reconnect.Passes.{pass_exhausted, pass_reached, pass_cancelled, pass_again}

Nat-cases : (a k : ℕ) → a ≤ k → (a ≡ k) ⊎ (suc a ≤ k)
Nat-cases a k l = ground arith

-- The first attempt that was not followed by a whole wait.
abbrev pub open_end : Outcome → ℕ → ℕ
open_end reached n = n
open_end cancelled n = n
open_end exhausted n = suc n

module _ {F : Type 0} ⦃f : Float F⦄ (to_float : ℤ → F) (to_duration : F → ℤ)
    (p : ReconnectPolicy F) where
  next_delay_bounded : (delay : ℤ) → next_delay to_float to_duration p delay ≤ℤ p.max_delay
  unfolding next_delay
  next_delay_bounded delay = ground arith

  -- The delays of a number of waits.
  unfoldable pub backoff : ℕ → ℤ → List ℤ
  backoff zero delay = []
  backoff (suc n) delay = delay ∷ backoff n (next_delay to_float to_duration p delay)

  backoff_zero : (n : ℕ) (delay : ℤ) → n ≡ 0 → [] ≡ backoff n delay
  unfolding backoff
  backoff_zero zero delay e = refl
  backoff_zero (suc n) delay e = absurd (omega (arith, e))

  backoff_step :
      (n k : ℕ) (delay : ℤ)
      → n ≡ suc k
      → delay ∷ backoff k (next_delay to_float to_duration p delay) ≡ backoff n delay
  unfolding backoff
  backoff_step zero k delay e = absurd (omega (arith, e))
  backoff_step (suc n) k delay e =
      ap (λ l. delay ∷ backoff l (next_delay to_float to_duration p delay)) (omega (arith, e))

  -- Every wait but the first is bounded by the policy's greatest delay.
  backoff_bounded :
      (n : ℕ) (delay : ℤ)
      → All (λ d. d ≤ℤ p.max_delay) (backoff n (next_delay to_float to_duration p delay))
  unfolding backoff
  backoff_bounded zero delay = tt
  backoff_bounded (suc n) delay =
      (next_delay_bounded delay, backoff_bounded n (next_delay to_float to_duration p delay))

  backoff_tail : (n : ℕ) (delay : ℤ) → All (λ d. d ≤ℤ p.max_delay) (drop 1 (backoff n delay))
  unfolding backoff
  backoff_tail zero delay = tt
  backoff_tail (suc n) delay = backoff_bounded n delay

  module _ (connects cancels : ℕ → Bool) where
    abbrev pub Ending : Outcome → ℕ → ℕ → Type 0
    Ending reached n m = connects n ≡ true
    Ending cancelled n m = (connects n ≡ false) × (cancels n ≡ true)
    Ending exhausted n m = n ≡ m

    -- What a loop of at most `m` attempts that begins with attempt `a` comes to.
    pub record IsEnd (m a : ℕ) (delay : ℤ) (r : Reconnection) : Type 0 where
      pub from : a ≤ open_end r.outcome r.attempts
      pub within : r.attempts ≤ m
      pub quiet :
          (k : ℕ)
          → a ≤ k
          → k < open_end r.outcome r.attempts
          → (connects k ≡ false) × (cancels k ≡ false)
      pub ending : Ending r.outcome r.attempts m
      pub waits_eq : r.waits ≡ backoff (open_end r.outcome r.attempts - a) delay

    IsEnd-suc :
        (m a : ℕ) (delay : ℤ) (r : Reconnection)
        → connects a ≡ false
        → cancels a ≡ false
        → IsEnd m (suc a) (next_delay to_float to_duration p delay) r
        → IsEnd m a delay (record r { waits = delay ∷ r.waits })
    unfolding backoff
    IsEnd-suc m a delay r c x h = record {
      from = omega (arith, h.from);
      within = h.within;
      quiet = λ k l u. elim (Nat-cases a k l) [
        | inl same ↦ (ap connects (sym same) ∙ c, ap cancels (sym same) ∙ x)
        | inr later ↦ h.quiet k later u
      ];
      ending = h.ending;
      waits_eq =
          ap (λ l. delay ∷ l) h.waits_eq
          ∙ backoff_step (open_end r.outcome r.attempts - a) (open_end r.outcome r.attempts - suc a)
              delay (omega (arith, h.from));
    }

    reconnect_from-IsEnd :
        (m n a : ℕ) (delay : ℤ)
        → p.max_retries ≡ pos m
        → 0 < m
        → a + n ≡ suc m
        → (r : Reconnection) × (reconnect_from to_float to_duration p connects cancels
              (suc n)
              a
              delay
            ≡ some r)
          × IsEnd m a delay r
    unfolding is_allowed backoff
    reconnect_from-IsEnd m zero a delay e h s =
        let over : is_allowed p.max_retries a ≡ false =
          subst (λ z. is_allowed z a ≡ false) (sym e) (ground arith) in
        (
          record { outcome = exhausted; attempts = a - 1; waits = [] },
          pass_exhausted to_float to_duration p connects cancels zero a delay over,
          record {
            from = omega arith;
            within = omega arith;
            quiet = λ k l u. absurd (omega arith);
            ending = omega arith;
            waits_eq = backoff_zero (suc (a - 1) - a) delay (omega arith);
          },
        )
    reconnect_from-IsEnd m (suc n) a delay e h s =
        let allowed : is_allowed p.max_retries a ≡ true =
          subst (λ z. is_allowed z a ≡ true) (sym e) (ground arith) in
        elim (Bool-cases (connects a)) [
          | inl c ↦ (
            record { outcome = reached; attempts = a; waits = [] },
            pass_reached to_float to_duration p connects cancels (suc n) a delay allowed c,
            record {
              from = omega arith;
              within = omega arith;
              quiet = λ k l u. absurd (omega arith);
              ending = c;
              waits_eq = backoff_zero (a - a) delay (omega arith);
            },
          )
          | inr c ↦ elim (Bool-cases (cancels a)) [
            | inl x ↦ (
              record { outcome = cancelled; attempts = a; waits = [] },
              pass_cancelled to_float to_duration p connects cancels (suc n) a delay allowed c x,
              record {
                from = omega arith;
                within = omega arith;
                quiet = λ k l u. absurd (omega arith);
                ending = (c, x);
                waits_eq = backoff_zero (a - a) delay (omega arith);
              },
            )
            | inr x ↦
                let (r, eq, end) =
                  reconnect_from-IsEnd m n (suc a) (next_delay to_float to_duration p delay) e h
                    (omega arith) in
                (
                  record r { waits = delay ∷ r.waits },
                  pass_again to_float to_duration p connects cancels (suc n) a delay allowed c x
                      ∙ ap (waited delay) eq,
                  IsEnd-suc m a delay r c x end,
                )
          ]
        ]

    -- With a limit `m` on the attempts that is not 0, `m + 1` passes of the loop are enough: it ends
    -- with the first attempt that connects, or whose wait the context cuts short, or after exactly
    -- `m` attempts that did neither. The delays that it waited for are the first one of the policy
    -- and those that follow from it, and none after the first is over the greatest.
    pub execute_reconnect-IsEnd :
        (m : ℕ)
        → p.max_retries ≡ pos m
        → 0 < m
        → (r : Reconnection) × (execute_reconnect to_float to_duration p connects cancels (suc m)
            ≡ some r)
          × IsEnd m 1 p.base_delay r
          × All (λ d. d ≤ℤ p.max_delay) (drop 1 r.waits)
    unfolding execute_reconnect
    execute_reconnect-IsEnd m e h =
        let (r, eq, end) = reconnect_from-IsEnd m m 1 p.base_delay e h (omega arith) in
        (
          r,
          eq,
          end,
          subst (λ l. All (λ d. d ≤ℤ p.max_delay) (drop 1 l)) (sym end.waits_eq)
              (backoff_tail (open_end r.outcome r.attempts - 1) p.base_delay),
        )
