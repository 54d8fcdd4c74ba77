-- ===== src/Executor/Dispatcher/Draining.antt =====
-- The draining of the dispatcher: the runs of its workers until nothing waits or is executed.
use mathlib.Core.List.Perm
use mathlib.Core.List.{Perm, map-append, append_assoc, append-nil}
use scalp_bot_os.Base.{
  ℕ, suc, ◌+◌, ◌*◌, ◌<◌, Bool, true, false, not, ◌&&◌, ltb, ◌≡◌, refl, sym, ap, ◌∙◌, subst, List,
  [], ◌∷◌, ◌++◌, length, map, length-append, Option, none, some, arith, inl, inr,
}
use scalp_bot_os.Model.Types.{OrderRequest, Position}
use scalp_bot_os.Executor.Dispatcher.{
  Dispatcher, Completion, completion, Event, take, receive, finish, step, run,
}
use scalp_bot_os.Executor.Dispatcher.Pick.{pick_cases}

module _ {F : Type 0} where
  -- A worker can receive an order.
  unfoldable pub can_take : Dispatcher F → Bool
  can_take d = ltb 0 (length d.order_ch) && ltb (length d.executing) d.workers

  -- The events of the workers that change the dispatcher: a receipt, and the end of an execution.
  unfoldable pub is_effective : Dispatcher F → Event F → Bool
  is_effective d (Event.submitted o now) = false
  is_effective d Event.taken = can_take d
  is_effective d (Event.finished n answer) = ltb n (length d.executing)
  is_effective d Event.stopped = false

  unfoldable pub all_effective : Dispatcher F → List (Event F) → Bool
  all_effective d [] = true
  all_effective d (e ∷ es) = is_effective d e && all_effective (step d e) es

  -- No event of the workers changes the dispatcher.
  unfoldable pub is_at_rest : Dispatcher F → Bool
  is_at_rest d = not (can_take d) && not (ltb 0 (length d.executing))

  unfoldable pub completions : Dispatcher F → Event F → List (Completion F)
  completions d (Event.submitted o now) = []
  completions d Event.taken = []
  completions d (Event.finished n answer) = (finish d n answer).1
  completions d Event.stopped = []

  unfoldable pub completions_all : Dispatcher F → List (Event F) → List (Completion F)
  completions_all d [] = []
  completions_all d (e ∷ es) = completions d e ++ completions_all (step d e) es

  -- An order that waits needs two events, and one that is executed needs one.
  abbrev pub work : Dispatcher F → ℕ
  work d = 2 * length d.order_ch + length d.executing

  -- The orders that are executed or wait.
  abbrev pub present : Dispatcher F → List (OrderRequest F)
  present d = d.executing ++ d.order_ch

  -- The order that a callback reports, and the answer that it reports for it.
  abbrev pub order_of : Completion F → OrderRequest F
  order_of (Completion.on_fill position order) = order
  order_of (Completion.on_reject order) = order

  abbrev pub answer_of : Completion F → Option (Position F)
  answer_of (Completion.on_fill position order) = some position
  answer_of (Completion.on_reject order) = none

  -- The broker's answers in a run.
  abbrev pub answers : Event F → List (Option (Position F))
  answers (Event.submitted o now) = []
  answers Event.taken = []
  answers (Event.finished n answer) = answer ∷ []
  answers Event.stopped = []

  unfoldable pub answers_all : List (Event F) → List (Option (Position F))
  answers_all [] = []
  answers_all (e ∷ es) = answers e ++ answers_all es

  pub order_of-completion :
      (answer : Option (Position F)) (o : OrderRequest F) → order_of (completion answer o) ≡ o
  order_of-completion none o = refl
  order_of-completion (some p) o = refl

  pub answer_of-completion :
      (answer : Option (Position F)) (o : OrderRequest F) → answer_of (completion answer o) ≡ answer
  answer_of-completion none o = refl
  answer_of-completion (some p) o = refl

  -- What an effective event changes.
  pub record IsProgress (before after : Dispatcher F) (reports : List (Completion F))
      (said : List (Option (Position F))) : Type 0 where
    pub less_work : suc (work after) ≡ work before
    pub reported : Perm (map order_of reports ++ present after) (present before)
    pub as_said : map answer_of reports ≡ said
    pub same_workers : after.workers ≡ before.workers

  receive-IsProgress :
      (d : Dispatcher F) (os : List (OrderRequest F))
      → d.order_ch ≡ os
      → 0 < length os
      → IsProgress d (receive d os) [] []
  receive-IsProgress d [] e l = absurd (omega (arith, l))
  receive-IsProgress d (o ∷ os) e l =
      let before : length d.order_ch ≡ suc (length os) = ap length e in
      let more = length-append d.executing (o ∷ []) in
      record {
        less_work = omega (arith, before, more);
        reported =
            subst (λ q. Perm ((d.executing ++ o ∷ []) ++ os) (d.executing ++ q)) (sym e)
              (subst (λ l. Perm ((d.executing ++ o ∷ []) ++ os) l)
                (append_assoc d.executing (o ∷ []) os) (Perm.refl ((d.executing ++ o ∷ []) ++ os)));
        as_said = refl;
        same_workers = refl;
      }

  finish-IsProgress :
      (d : Dispatcher F) (n : ℕ) (answer : Option (Position F))
      → n < length d.executing
      → IsProgress d (finish d n answer).0 (finish d n answer).1 (answer ∷ [])
  unfolding finish
  finish-IsProgress d n answer l = elim (pick_cases n d.executing) [
    | inl (e, k) ↦ absurd (omega (arith, l, k))
    | inr ((o, rest), e, picked, _) ↦
        rw (e, finish)
          (record {
            less_work = omega (arith, picked.one_less);
            reported =
                subst (λ p. Perm (p ∷ (rest ++ d.order_ch)) (d.executing ++ d.order_ch))
                  (sym (order_of-completion answer o))
                  (Perm.append_right d.order_ch (Perm.symm picked.others));
            as_said = ap (λ a. a ∷ []) (answer_of-completion answer o);
            same_workers = refl;
          })
  ]

  pub step-IsProgress :
      (d : Dispatcher F) (e : Event F)
      → is_effective d e ≡ true
      → IsProgress d (step d e) (completions d e) (answers e)
  unfolding is_effective step take completions can_take
  step-IsProgress d (Event.submitted o now) h = absurd (ground (arith, h))
  step-IsProgress d Event.taken h =
      let idle : ltb (length d.executing) d.workers ≡ true = ground (arith, h) in
      rw (idle, take) (receive-IsProgress d d.order_ch refl (ground (arith, h)))
  step-IsProgress d (Event.finished n answer) h = finish-IsProgress d n answer (ground (arith, h))
  step-IsProgress d Event.stopped h = absurd (ground (arith, h))

  -- What a run of effective events changes.
  record IsProgressBy (before after : Dispatcher F) (reports : List (Completion F))
      (said : List (Option (Position F))) (n : ℕ) : Type 0 where
    less_work : n + work after ≡ work before
    reported : Perm (map order_of reports ++ present after) (present before)
    as_said : map answer_of reports ≡ said
    same_workers : after.workers ≡ before.workers

  joined :
      (xs ys : List (Completion F)) (middle after before : List (OrderRequest F))
      → Perm (map order_of xs ++ middle) before
      → Perm (map order_of ys ++ after) middle
      → Perm (map order_of (xs ++ ys) ++ after) before
  joined xs ys middle after before first rest =
      subst (λ l. Perm l before)
        (sym (append_assoc (map order_of xs) (map order_of ys) after)
          ∙ ap (λ l. l ++ after) (sym (map-append order_of xs ys)))
        (Perm.trans (Perm.append_left (map order_of xs) rest) first)

  run-IsProgressBy :
      (d : Dispatcher F) (es : List (Event F))
      → all_effective d es ≡ true
      → IsProgressBy d (run d es) (completions_all d es) (answers_all es) (length es)
  unfolding run all_effective completions_all answers_all
  run-IsProgressBy d [] h = record {
    less_work = omega arith;
    reported = Perm.refl (present d);
    as_said = refl;
    same_workers = refl;
  }
  run-IsProgressBy d (e ∷ es) h =
      let first = step-IsProgress d e (ground (arith, h)) in
      let rest = run-IsProgressBy (step d e) es (ground (arith, h)) in
      record {
        less_work = omega (arith, first.less_work, rest.less_work);
        reported =
            joined (completions d e) (completions_all (step d e) es) (present (step d e))
              (present (run (step d e) es)) (present d) first.reported rest.reported;
        as_said =
            map-append answer_of (completions d e) (completions_all (step d e) es)
            ∙ (ap (λ l. l ++ map answer_of (completions_all (step d e) es)) first.as_said
                ∙ ap (λ l. answers e ++ l) rest.as_said);
        same_workers = rest.same_workers ∙ first.same_workers;
      }

  length-zero : (os : List (OrderRequest F)) → length os ≡ 0 → os ≡ []
  length-zero [] h = refl
  length-zero (o ∷ os) h = absurd (omega (arith, h))

  is_at_rest_empty :
      (d : Dispatcher F)
      → 0 < d.workers
      → is_at_rest d ≡ true
      → (d.order_ch ≡ []) × (d.executing ≡ [])
  unfolding is_at_rest can_take
  is_at_rest_empty d w h =
      (length-zero d.order_ch (ground arith), length-zero d.executing (ground arith))

  -- Whatever order the workers act in, the pool drains: a run of receipts and ends of executions that
  -- change something, from a dispatcher with a worker, is at rest only when nothing waits and nothing
  -- is executed; by then it has taken exactly two events for each order that waited and one for each
  -- that was executed. The orders that its callbacks report are exactly those that were executed and
  -- that waited, each as often as it was there, and the callbacks carry the broker's answers.
  pub run_drains :
      (d : Dispatcher F) (es : List (Event F))
      → 0 < d.workers
      → all_effective d es ≡ true
      → is_at_rest (run d es) ≡ true
      → ((run d es).order_ch ≡ [])
        × ((run d es).executing ≡ [])
        × (length es ≡ 2 * length d.order_ch + length d.executing)
        × Perm (map order_of (completions_all d es)) (d.executing ++ d.order_ch)
        × (map answer_of (completions_all d es) ≡ answers_all es)
  run_drains d es w h rest =
      let p = run-IsProgressBy d es h in
      let (queue, pool) =
        is_at_rest_empty (run d es) (subst (λ n. 0 < n) (sym p.same_workers) w) rest in
      let left : present (run d es) ≡ [] = ap (λ l. l ++ (run d es).order_ch) pool ∙ queue in
      (
        queue,
        pool,
        omega (arith, p.less_work, ap length queue, ap length pool),
        subst (λ l. Perm l (present d))
            (ap (λ l. map order_of (completions_all d es) ++ l) left
              ∙ append-nil (map order_of (completions_all d es)))
            p.reported,
        p.as_said,
      )
