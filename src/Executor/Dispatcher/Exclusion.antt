-- ===== src/Executor/Dispatcher/Exclusion.antt =====
-- One order at a time for each symbol: what the in-flight marks of the dispatcher exclude.
use scalp_bot_os.Base.{
  ℕ, ◌+◌, ◌≤◌, Bool, true, ◌&&◌, ltb, if◌then◌else◌, ◌≡◌, refl, subst, List, [], ◌∷◌, length,
  Option, none, some, Text, text_eq_iff, ℤ, arith, if_intro, inl, inr,
}
use scalp_bot_os.Base.Dict.{lookup, insert, lookup-insert, lookup-delete}
use scalp_bot_os.Model.Types.{OrderRequest, Position}
use scalp_bot_os.Executor.Dispatcher.{
  Dispatcher, Event, already_in_flight, new_dispatcher, send, submit, take, receive, finish,
  close_channel, step, run, is_recent, symbol_key, mark_in_flight, five_seconds,
}
use scalp_bot_os.Executor.Dispatcher.Pick.{count, count-append, pick_cases}

abbrev is_timely_after : ℕ → Option ℕ → Bool
is_timely_after now none = true
is_timely_after now (some last_time) = ltb now (last_time + five_seconds)

-- The number of marks of a symbol.
abbrev pub marks : Option ℕ → ℕ
marks none = 0
marks (some t) = 1

marks_le_one : (last_time : Option ℕ) → marks last_time ≤ 1
marks_le_one none = omega arith
marks_le_one (some t) = omega arith

module _ {F : Type 0} where
  -- An order is submitted when its symbol has no mark, or one that is younger than five seconds.
  unfoldable pub is_timely : Dispatcher F → Event F → Bool
  is_timely d (Event.submitted o now) =
      is_timely_after now (lookup (symbol_key o) d.in_flight_symbols)
  is_timely d Event.taken = true
  is_timely d (Event.finished n answer) = true
  is_timely d Event.stopped = true

  unfoldable pub all_timely : Dispatcher F → List (Event F) → Bool
  all_timely d [] = true
  all_timely d (e ∷ es) = is_timely d e && all_timely (step d e) es

  -- A symbol has at most one order in the channel and in the pool, and none without a mark.
  IsExclusive : Dispatcher F → Type 0
  IsExclusive d =
      (k : Text) → count k d.order_ch + count k d.executing ≤ marks (lookup k d.in_flight_symbols)

  send-IsExclusive :
      (d : Dispatcher F) (o : OrderRequest F) (now : ℕ)
      → IsExclusive d
      → lookup (symbol_key o) d.in_flight_symbols ≡ none
      → IsExclusive (send (mark_in_flight d o now) o).0
  unfolding IsExclusive send
  send-IsExclusive d o now h unmarked k =
      let key = symbol_key o in
      let m = d.in_flight_symbols in
      ground (
        arith,
        h k,
        unmarked,
        text_eq_iff key k,
        count-append k d.order_ch (o ∷ []),
        lookup-insert key k now m,
        lookup-delete key k (insert key now m),
      )

  marked_submit-IsExclusive :
      (d : Dispatcher F) (o : OrderRequest F) (now : ℕ) (last_time : Option ℕ)
      → IsExclusive d
      → lookup (symbol_key o) d.in_flight_symbols ≡ last_time
      → is_timely_after now last_time ≡ true
      → IsExclusive
          (if is_recent now last_time
            then (d, already_in_flight)
            else send (mark_in_flight d o now) o).0
  marked_submit-IsExclusive d o now none h e t = send-IsExclusive d o now h e
  marked_submit-IsExclusive d o now (some last_time) h e t = ground (arith, t, h)

  receive-IsExclusive :
      (d : Dispatcher F) (os : List (OrderRequest F))
      → IsExclusive d
      → d.order_ch ≡ os
      → IsExclusive (receive d os)
  unfolding IsExclusive
  receive-IsExclusive d [] h e k = h k
  receive-IsExclusive d (o ∷ os) h e k =
      let before : count k (o ∷ os) + count k d.executing ≤ marks (lookup k d.in_flight_symbols) =
        subst (λ q. count k q + count k d.executing ≤ marks (lookup k d.in_flight_symbols)) e
          (h k) in
      omega (arith, before, count-append k d.executing (o ∷ []))

  finish-IsExclusive :
      (d : Dispatcher F) (n : ℕ) (answer : Option (Position F))
      → IsExclusive d
      → IsExclusive (finish d n answer).0
  unfolding IsExclusive finish
  finish-IsExclusive d n answer h = elim (pick_cases n d.executing) [
    | inl (e, _) ↦ rw (e, finish) h
    | inr ((o, rest), e, picked, _) ↦
        rw (e, finish)
          (λ k. ground (
            arith,
            h k,
            picked.counts k,
            marks_le_one (lookup k d.in_flight_symbols),
            text_eq_iff (symbol_key o) k,
            lookup-delete (symbol_key o) k d.in_flight_symbols,
          ))
  ]

  step-IsExclusive :
      (d : Dispatcher F) (e : Event F)
      → IsExclusive d
      → is_timely d e ≡ true
      → IsExclusive (step d e)
  unfolding step submit take close_channel is_timely IsExclusive
  step-IsExclusive d (Event.submitted o now) h t =
      marked_submit-IsExclusive d o now (lookup (symbol_key o) d.in_flight_symbols) h refl t
  step-IsExclusive d Event.taken h t =
      if_intro IsExclusive (ltb (length d.executing) d.workers)
        (λ _. receive-IsExclusive d d.order_ch h refl) (λ _. h)
  step-IsExclusive d (Event.finished n answer) h t = finish-IsExclusive d n answer h
  step-IsExclusive d Event.stopped h t = λ k. h k

  run-IsExclusive :
      (d : Dispatcher F) (es : List (Event F))
      → IsExclusive d
      → all_timely d es ≡ true
      → IsExclusive (run d es)
  unfolding run all_timely
  run-IsExclusive d [] h t = h
  run-IsExclusive d (e ∷ es) h t =
      run-IsExclusive (step d e) es (step-IsExclusive d e h (ground (arith, t))) (ground (arith, t))

  -- In every run of events of a new dispatcher in which an order is submitted only while its symbol
  -- has no mark or one that is younger than five seconds, a symbol has in the channel and under
  -- execution together at most one order, and none while it is not marked.
  pub run_exclusive :
      (buffer_size workers : ℤ) (es : List (Event F)) (k : Text)
      → all_timely (new_dispatcher buffer_size workers) es ≡ true
      → let d = run (new_dispatcher buffer_size workers) es in
        count k d.order_ch + count k d.executing ≤ marks (lookup k d.in_flight_symbols)
  unfolding IsExclusive new_dispatcher lookup
  run_exclusive b w es k t = run-IsExclusive (new_dispatcher b w) es (λ _. omega arith) t k
