-- ===== src/Broker/Lifecycle/Stale.antt =====
-- When the lifecycle manager refuses orders, over all beats that it has run.
use scalp_bot_os.Base.{
  ℕ, ◌+◌, ◌<◌, ◌==◌, Bool, ltb, ◌≡◌, ◌≢◌, refl, ap, ◌∙◌, ◌⊎◌, inl, inr, List, [], ◌∷◌, Bool-cases,
  arith,
}
use scalp_bot_os.Model.Types.{OrderRequest, Position}
use scalp_bot_os.Broker.Lifecycle.{
  connected, reconnecting, LifecycleManager, Answer, delegated, not_connected, Event, ticked, beat,
  new_lifecycle_manager, execute, heartbeat, record_tick, step, run,
}

-- A beat of a run comes when the tick before it, at `last` or in the run, is older than a
-- threshold. No time stands for no tick if it is 0.
abbrev pub Stale : ℕ → ℕ → List Event → Type 0
Stale threshold last [] = ⊥
Stale threshold last (ticked t ∷ es) = Stale threshold t es
Stale threshold last (beat now ∷ es) =
    ((last ≢ 0) × (last + threshold < now)) ⊎ Stale threshold last es

-- Nothing leaves the state `StateReconnecting`.
step_reconnecting :
    (lm : LifecycleManager) (e : Event) → lm.state ≡ reconnecting → (step lm e).state ≡ reconnecting
unfolding step record_tick heartbeat
step_reconnecting lm (ticked t) h = h
step_reconnecting lm (beat now) h = ground (arith, h)

run_reconnecting :
    (lm : LifecycleManager) (es : List Event)
    → lm.state ≡ reconnecting
    → (run lm es).state ≡ reconnecting
unfolding run
run_reconnecting lm [] h = h
run_reconnecting lm (e ∷ es) h = run_reconnecting (step lm e) es (step_reconnecting lm e h)

-- A beat leaves the manager alone or finds the last tick too old.
heartbeat_cases :
    (lm : LifecycleManager) (now : ℕ)
    → (((heartbeat lm now).0 ≡ lm)
        × (((lm.last_tick_time ≢ 0) × (lm.last_tick_time + lm.stale_threshold < now)) → ⊥))
      ⊎ (((heartbeat lm now).0.state ≡ reconnecting)
          × (lm.last_tick_time ≢ 0)
          × (lm.last_tick_time + lm.stale_threshold < now))
unfolding heartbeat
heartbeat_cases lm now = elim (Bool-cases (lm.last_tick_time == 0)) [
  | inl e ↦ inl (rw (e, heartbeat) refl, λ (has, old). ground arith)
  | inr e ↦ elim (Bool-cases (ltb (lm.last_tick_time + lm.stale_threshold) now)) [
    | inl l ↦ inr (rw (e, l, heartbeat) refl, ground arith, ground arith)
    | inr l ↦ inl (rw (e, l, heartbeat) refl, λ (has, old). ground arith)
  ]
]

-- The state after a run of a connected manager tells whether the run was stale.
abbrev Verdict : LifecycleManager → List Event → Type 0
Verdict lm es =
    (((run lm es).state ≡ connected) × (Stale lm.stale_threshold lm.last_tick_time es → ⊥))
    ⊎ (((run lm es).state ≡ reconnecting) × Stale lm.stale_threshold lm.last_tick_time es)

run-Verdict : (lm : LifecycleManager) (es : List Event) → lm.state ≡ connected → Verdict lm es
unfolding run step record_tick
run-Verdict lm [] h = inl (h, λ s. s)
run-Verdict lm (ticked t ∷ es) h = run-Verdict (record_tick lm t) es h
run-Verdict lm (beat now ∷ es) h = elim (heartbeat_cases lm now) [
  | inr (r, has, old) ↦ inr (run_reconnecting (heartbeat lm now).0 es r, inl (has, old))
  | inl (same, fresh) ↦ elim (run-Verdict lm es h) [
    | inl (c, n) ↦ inl (
      ap (λ l. (run l es).state) same ∙ c,
      λ s. elim s [ inl old ↦ fresh old | inr later ↦ n later ],
    )
    | inr (r, s) ↦ inr (ap (λ l. (run l es).state) same ∙ r, inr s)
  ]
]

-- A new manager hands an order to the broker as long as no beat of the monitor came later than the
-- threshold after the last tick before it. From the first such beat on it refuses every order, with
-- the state `StateReconnecting`, however many ticks come afterwards.
pub execute-Stale :
    {F : Type 0} (threshold : ℕ) (on_disconnect : Bool) (es : List Event)
    (broker : OrderRequest F → Answer (Position F)) (order : OrderRequest F)
    → let lm = run (new_lifecycle_manager threshold on_disconnect) es in
      ((execute lm broker order ≡ delegated (broker order)) × (¬ Stale threshold 0 es))
      ⊎ ((execute lm broker order ≡ not_connected reconnecting) × Stale threshold 0 es)
unfolding new_lifecycle_manager execute
execute-Stale threshold on_disconnect es broker order =
    elim (run-Verdict (new_lifecycle_manager threshold on_disconnect) es refl) [
      | inl (c, n) ↦ inl (rw c refl, n)
      | inr (r, s) ↦ inr (rw r refl, s)
    ]
