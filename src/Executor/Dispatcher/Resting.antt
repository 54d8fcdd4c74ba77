-- ===== src/Executor/Dispatcher/Resting.antt =====
-- Runs of the workers of the dispatcher that come to rest, with a broker that answers each order.
use scalp_bot_os.Base.{
  ℕ, zero, suc, ◌≤◌, true, false, ◌≡◌, refl, sym, ap, ◌∙◌, List, [], ◌∷◌, All, All-append, Option,
  arith, Bool-cases, inl, inr,
}
use scalp_bot_os.Model.Types.{OrderRequest, Position}
use scalp_bot_os.Executor.Dispatcher.{Dispatcher, Completion, completion, Event, finish, step, run}
use scalp_bot_os.Executor.Dispatcher.Draining.{
  can_take, is_effective, all_effective, is_at_rest, completions, completions_all, work, order_of,
  answer_of, order_of-completion, answer_of-completion, step-IsProgress,
}

module _ {F : Type 0} (broker : OrderRequest F → Option (Position F)) where
  -- The callback reports what the broker answers to its order.
  abbrev pub Reports : Completion F → Type 0
  Reports c = answer_of c ≡ broker (order_of c)

  -- A run of the workers that comes to rest.
  abbrev Rest : Dispatcher F → Type 0
  Rest d =
      (es : List (Event F)) × (all_effective d es ≡ true)
      × (is_at_rest (run d es) ≡ true)
      × All Reports (completions_all d es)

  Rest-step :
      (d : Dispatcher F) (e : Event F)
      → is_effective d e ≡ true
      → All Reports (completions d e)
      → Rest (step d e)
      → Rest d
  unfolding all_effective run completions_all
  Rest-step d e h c (es, all, rest, cs) = (
    e ∷ es,
    rw (h, all) refl,
    rest,
    All-append Reports (completions d e) (completions_all (step d e) es) c cs,
  )

  completion-Reports : (o : OrderRequest F) → Reports (completion (broker o) o)
  completion-Reports o =
      answer_of-completion (broker o) o ∙ ap broker (sym (order_of-completion (broker o) o))

  finish-Reports :
      (d : Dispatcher F) (o : OrderRequest F) (os : List (OrderRequest F))
      → d.executing ≡ o ∷ os
      → All Reports (completions d (Event.finished 0 (broker o)))
  unfolding completions finish
  finish-Reports d o os e = rw e (completion-Reports o, tt)

  -- The first order that is executed ends as the broker answers, if there is one.
  rests_by :
      (n : ℕ) (d : Dispatcher F) (os : List (OrderRequest F))
      → d.executing ≡ os
      → can_take d ≡ false
      → work d ≤ suc n
      → ((c : Dispatcher F) → work c ≤ n → Rest c)
      → Rest d
  unfolding is_effective is_at_rest all_effective run completions_all
  rests_by n d [] e idle l more = ([], refl, rw (idle, e) refl, tt)
  rests_by n d (o ∷ os) e idle l more =
      let end = Event.finished 0 (broker o) in
      let works : is_effective d end ≡ true = rw e (ground arith) in
      let p = step-IsProgress d end works in
      Rest-step d end works (finish-Reports d o os e)
        (more (step d end) (omega (arith, l, p.less_work)))

  rests_within : (n : ℕ) (d : Dispatcher F) → work d ≤ n → Rest d
  unfolding is_effective is_at_rest can_take all_effective run completions_all completions
  rests_within zero d l = ([], refl, ground arith, tt)
  rests_within (suc n) d l = elim (Bool-cases (can_take d)) [
    | inl e ↦
        let p = step-IsProgress d Event.taken e in
        Rest-step d Event.taken e tt
          (rests_within n (step d Event.taken) (omega (arith, l, p.less_work)))
    | inr idle ↦ rests_by n d d.executing refl idle l (rests_within n)
  ]

  -- Whatever the broker answers to each order, the workers have from every dispatcher a run in
  -- which every event changes something, which comes to rest, and in which each callback reports
  -- for its order what the broker answers to it.
  pub run_rests :
      (d : Dispatcher F)
      → (es : List (Event F)) × (all_effective d es ≡ true)
        × (is_at_rest (run d es) ≡ true)
        × All Reports (completions_all d es)
  run_rests d = rests_within (work d) d (omega arith)
