-- ===== src/Executor/Dispatcher/Queue.antt =====
-- The channel and the workers of the dispatcher: what a run of events does to the orders.
use mathlib.Core.List.{append-nil, append_assoc}
use scalp_bot_os.Base.{
  ℕ, suc, ◌≤◌, ◌<◌, ltb, ◌≡◌, refl, sym, ap, ◌∙◌, List, [], ◌∷◌, ◌++◌, length, length-append, drop,
  drop-append, Option, ℤ, arith, Bool-cases, if_intro, subst, inl, inr,
}
use scalp_bot_os.Base.Dict.{lookup}
use scalp_bot_os.Model.Types.{OrderRequest, Position}
use scalp_bot_os.Executor.Dispatcher.{
  Dispatcher, Submission, accepted, already_in_flight, channel_full, send_on_closed, Event,
  new_dispatcher, send, submit, take, finish, close_channel, step, run, receive, is_recent,
  symbol_key, mark_in_flight, or_default,
}
use scalp_bot_os.Executor.Dispatcher.Pick.{pick_cases}

module _ {F : Type 0} where
  drop-length : (os : List (OrderRequest F)) → drop (length os) os ≡ []
  drop-length [] = refl
  drop-length (o ∷ os) = drop-length os

  abbrev if_accepted : Submission → OrderRequest F → List (OrderRequest F)
  if_accepted accepted o = o ∷ []
  if_accepted already_in_flight o = []
  if_accepted channel_full o = []
  if_accepted send_on_closed o = []

  -- The order that an event puts into the channel, and those by which it makes the pool grow.
  unfoldable pub entered : Dispatcher F → Event F → List (OrderRequest F)
  entered d (Event.submitted o now) = if_accepted (submit d o now).1 o
  entered d Event.taken = []
  entered d (Event.finished n answer) = []
  entered d Event.stopped = []

  unfoldable pub started : Dispatcher F → Event F → List (OrderRequest F)
  started d (Event.submitted o now) = []
  started d Event.taken = drop (length d.executing) (step d Event.taken).executing
  started d (Event.finished n answer) = []
  started d Event.stopped = []

  unfoldable pub entered_all : Dispatcher F → List (Event F) → List (OrderRequest F)
  entered_all d [] = []
  entered_all d (e ∷ es) = entered d e ++ entered_all (step d e) es

  unfoldable pub started_all : Dispatcher F → List (Event F) → List (OrderRequest F)
  started_all d [] = []
  started_all d (e ∷ es) = started d e ++ started_all (step d e) es

  send_enters :
      (d : Dispatcher F) (o : OrderRequest F)
      → (send d o).0.order_ch ≡ d.order_ch ++ if_accepted (send d o).1 o
  unfolding send
  send_enters d o = elim (Bool-cases d.closed) [
    | inl e ↦ rw e (sym (append-nil d.order_ch))
    | inr e ↦ elim (Bool-cases (ltb (length d.order_ch) d.buffer_size)) [
      | inl h ↦ rw (e, h) refl
      | inr h ↦ rw (e, h) (sym (append-nil d.order_ch))
    ]
  ]

  submit_enters :
      (d : Dispatcher F) (o : OrderRequest F) (now : ℕ)
      → (submit d o now).0.order_ch ≡ d.order_ch ++ if_accepted (submit d o now).1 o
  unfolding submit
  submit_enters d o now =
      elim (Bool-cases (is_recent now (lookup (symbol_key o) d.in_flight_symbols))) [
        | inl e ↦ rw e (sym (append-nil d.order_ch))
        | inr e ↦ rw e (send_enters (mark_in_flight d o now) o)
      ]

  receive_starts :
      (d : Dispatcher F) (os : List (OrderRequest F))
      → d.order_ch ≡ os
      → drop (length d.executing) (receive d os).executing ++ (receive d os).order_ch ≡ os
  receive_starts d [] h = rw (drop-length d.executing) h
  receive_starts d (o ∷ os) h =
      ap (λ l. l ++ os)
        (drop-append (length d.executing) d.executing (o ∷ []) (omega arith)
          ∙ ap (λ l. l ++ o ∷ []) (drop-length d.executing))

  take_starts : (d : Dispatcher F) → started d Event.taken ++ (take d).order_ch ≡ d.order_ch
  unfolding take started step
  take_starts d = elim (Bool-cases (ltb (length d.executing) d.workers)) [
    | inl e ↦ rw e (receive_starts d d.order_ch refl)
    | inr e ↦ rw (e, drop-length d.executing) refl
  ]

  finish_keeps :
      (d : Dispatcher F) (n : ℕ) (answer : Option (Position F))
      → (finish d n answer).0.order_ch ≡ d.order_ch
  unfolding finish
  finish_keeps d n answer = ground arith

  step_queue :
      (d : Dispatcher F) (e : Event F)
      → started d e ++ (step d e).order_ch ≡ d.order_ch ++ entered d e
  unfolding step entered started close_channel
  step_queue d (Event.submitted o now) = submit_enters d o now
  step_queue d Event.taken = take_starts d ∙ sym (append-nil d.order_ch)
  step_queue d (Event.finished n answer) = finish_keeps d n answer ∙ sym (append-nil d.order_ch)
  step_queue d Event.stopped = sym (append-nil d.order_ch)

  -- Through every run of events no accepted order is lost, doubled or overtaken: the orders by which
  -- the receipts made the pool grow, followed by those that still wait at the end, are those that
  -- waited at the start, followed by those that `Submit` accepted.
  pub started_all-entered_all :
      (d : Dispatcher F) (es : List (Event F))
      → started_all d es ++ (run d es).order_ch ≡ d.order_ch ++ entered_all d es
  unfolding started_all entered_all run
  started_all-entered_all d [] = sym (append-nil d.order_ch)
  started_all-entered_all d (e ∷ es) =
      append_assoc (started d e) (started_all (step d e) es) (run (step d e) es).order_ch
      ∙ (ap (λ l. started d e ++ l) (started_all-entered_all (step d e) es)
          ∙ (sym (append_assoc (started d e) (step d e).order_ch (entered_all (step d e) es))
              ∙ (ap (λ l. l ++ entered_all (step d e) es) (step_queue d e)
                  ∙ append_assoc d.order_ch (entered d e) (entered_all (step d e) es))))

  -- The channel and the pool stay within their sizes, which no event changes.
  pub record IsBounded (d : Dispatcher F) (buffer_size workers : ℕ) : Type 0 where
    pub buffer_size_eq : d.buffer_size ≡ buffer_size
    pub workers_eq : d.workers ≡ workers
    pub queue_fits : length d.order_ch ≤ buffer_size
    pub pool_fits : length d.executing ≤ workers

  send-IsBounded :
      (d : Dispatcher F) (o : OrderRequest F) (b w : ℕ)
      → IsBounded d b w
      → IsBounded (send d o).0 b w
  unfolding send
  send-IsBounded d o b w h = ground (arith, length-append d.order_ch (o ∷ []))

  receive-IsBounded :
      (d : Dispatcher F) (os : List (OrderRequest F)) (b w : ℕ)
      → IsBounded d b w
      → d.order_ch ≡ os
      → length d.executing < w
      → IsBounded (receive d os) b w
  receive-IsBounded d [] b w h e l = h
  receive-IsBounded d (o ∷ os) b w h e l =
      let shorter : suc (length os) ≤ b = subst (λ q. length q ≤ b) e h.queue_fits in
      record {
        buffer_size_eq = h.buffer_size_eq;
        workers_eq = h.workers_eq;
        queue_fits = omega (arith, shorter);
        pool_fits = omega (arith, l, length-append d.executing (o ∷ []));
      }

  take-IsBounded : (d : Dispatcher F) (b w : ℕ) → IsBounded d b w → IsBounded (take d) b w
  unfolding take
  take-IsBounded d b w h =
      if_intro (λ r. IsBounded r b w) (ltb (length d.executing) d.workers)
        (λ l. receive-IsBounded d d.order_ch b w h refl (ground (arith, h.workers_eq, l))) (λ _. h)

  finish-IsBounded :
      (d : Dispatcher F) (n : ℕ) (answer : Option (Position F)) (b w : ℕ)
      → IsBounded d b w
      → IsBounded (finish d n answer).0 b w
  unfolding finish
  finish-IsBounded d n answer b w h = elim (pick_cases n d.executing) [
    | inl (e, _) ↦ rw (e, finish) h
    | inr (p, e, picked, _) ↦
        rw (e, finish)
          (record {
            buffer_size_eq = h.buffer_size_eq;
            workers_eq = h.workers_eq;
            queue_fits = h.queue_fits;
            pool_fits = omega (arith, h.pool_fits, picked.one_less);
          })
  ]

  step-IsBounded :
      (d : Dispatcher F) (e : Event F) (b w : ℕ) → IsBounded d b w → IsBounded (step d e) b w
  unfolding step submit close_channel
  step-IsBounded d (Event.submitted o now) b w h =
      if_intro (λ (r : Dispatcher F × Submission). IsBounded r.0 b w)
        (is_recent now (lookup (symbol_key o) d.in_flight_symbols)) (λ _. h)
        (λ _. send-IsBounded (mark_in_flight d o now) o b w (record {
          buffer_size_eq = h.buffer_size_eq;
          workers_eq = h.workers_eq;
          queue_fits = h.queue_fits;
          pool_fits = h.pool_fits;
        }))
  step-IsBounded d Event.taken b w h = take-IsBounded d b w h
  step-IsBounded d (Event.finished n answer) b w h = finish-IsBounded d n answer b w h
  step-IsBounded d Event.stopped b w h = (record {
    buffer_size_eq = h.buffer_size_eq;
    workers_eq = h.workers_eq;
    queue_fits = h.queue_fits;
    pool_fits = h.pool_fits;
  })

  run-IsBounded :
      (d : Dispatcher F) (es : List (Event F)) (b w : ℕ)
      → IsBounded d b w
      → IsBounded (run d es) b w
  unfolding run
  run-IsBounded d [] b w h = h
  run-IsBounded d (e ∷ es) b w h = run-IsBounded (step d e) es b w (step-IsBounded d e b w h)

  -- After every run of events of a new dispatcher at most `buffer_size` orders wait and at most
  -- `workers` are executed, where a size that is not positive stands for 32 orders and 2 workers.
  run_fits :
      (buffer_size workers : ℤ) (es : List (Event F))
      → let d = run (new_dispatcher buffer_size workers) es in
        (length d.order_ch ≤ or_default buffer_size 32)
        × (length d.executing ≤ or_default workers 2)
  unfolding new_dispatcher
  run_fits b w es =
      let h = run-IsBounded (new_dispatcher b w) es (or_default b 32) (or_default w 2) (record {
        buffer_size_eq = refl;
        workers_eq = refl;
        queue_fits = omega arith;
        pool_fits = omega arith;
      }) in
      (h.queue_fits, h.pool_fits)
