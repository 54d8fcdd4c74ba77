-- ===== src/Risk/Filters/News.antt =====
-- internal/risk/news_filter.go: no trading around economic events of high impact. Times are those of
-- package `time` in nanoseconds since 1970.
use scalp_bot_os.Base.{
  Bool, true, false, not, ◌&&◌, if◌then◌else◌, ◌≡◌, refl, ap, List, [], ◌∷◌, ◌++◌, Text, bytes,
  text_eq, ℤ, pos, ◌+ℤ◌, ◌-ℤ◌, lt_ℤ, ◌≤ℤ◌, Bool-cases, inl, inr, arith,
}
use scalp_bot_os.Model.Types.{Tick}

pub record NewsEvent : Type 0 where
  pub time : ℤ
  pub duration : ℤ
  pub impact : Text
  pub title : Text

pub record NewsFilter : Type 0 where
  pub events : List NewsEvent
  pub buffer_before : ℤ
  pub buffer_after : ℤ

unfoldable pub new_news_filter : ℤ → ℤ → NewsFilter
new_news_filter before after = record { events = []; buffer_before = before; buffer_after = after }

unfoldable pub set_events : NewsFilter → List NewsEvent → NewsFilter
set_events f events = record f { events = events }

unfoldable pub add_event : NewsFilter → NewsEvent → NewsFilter
add_event f event = record f { events = f.events ++ (event ∷ []) }

-- The end of the window of an event.
abbrev pub window_end : ℤ → NewsEvent → ℤ
window_end after ev = ev.time +ℤ (ev.duration +ℤ after)

-- The body of the loop in `Allow`.
abbrev pub blocks : ℤ → ℤ → ℤ → NewsEvent → Bool
blocks before after now ev =
    text_eq ev.impact (bytes "high")
    && (lt_ℤ (ev.time -ℤ before) now && lt_ℤ now (window_end after ev))

unfoldable pub allow_at : ℤ → ℤ → List NewsEvent → ℤ → Bool
allow_at before after [] now = true
allow_at before after (ev ∷ evs) now =
    let rest = allow_at before after evs now in if blocks before after now ev then false else rest

unfoldable pub news_allow : {F : Type 0} → NewsFilter → Tick F → Bool
news_allow f tick = allow_at f.buffer_before f.buffer_after f.events (pos tick.timestamp_ns)

unfoldable pub is_blocked : NewsFilter → ℤ → Bool
is_blocked f t = not (allow_at f.buffer_before f.buffer_after f.events t)

-- The loop of `ClearPastEvents`, at the time of the clock.
unfoldable pub coming : ℤ → ℤ → List NewsEvent → List NewsEvent
coming after now [] = []
coming after now (ev ∷ evs) =
    let rest = coming after now evs in if lt_ℤ now (window_end after ev) then ev ∷ rest else rest

unfoldable pub clear_past_events : NewsFilter → ℤ → NewsFilter
clear_past_events f now = record f { events = coming f.buffer_after now f.events }

lt_ℤ_later : (end now t : ℤ) → now ≤ℤ t → lt_ℤ now end ≡ false → lt_ℤ t end ≡ false
lt_ℤ_later end now t l e = ground (arith, l, e)

and_false : (a b : Bool) → (a && (b && false)) ≡ false
and_false a b = ground arith

blocks_past :
    (before after now t : ℤ) (ev : NewsEvent)
    → now ≤ℤ t
    → lt_ℤ now (window_end after ev) ≡ false
    → blocks before after t ev ≡ false
blocks_past before after now t ev l e =
    let late : lt_ℤ t (window_end after ev) ≡ false = lt_ℤ_later (window_end after ev) now t l e in
    rw late (and_false (text_eq ev.impact (bytes "high")) (lt_ℤ (ev.time -ℤ before) t))

allow_at-coming :
    (before after now t : ℤ) (evs : List NewsEvent)
    → now ≤ℤ t
    → allow_at before after (coming after now evs) t ≡ allow_at before after evs t
unfolding allow_at coming
allow_at-coming before after now t [] l = refl
allow_at-coming before after now t (ev ∷ evs) l =
    let rest = allow_at-coming before after now t evs l in
    elim (Bool-cases (lt_ℤ now (window_end after ev))) [
      | inl e ↦ rw e (ap (λ b. if blocks before after t ev then false else b) rest)
      | inr e ↦
          let open_now : blocks before after t ev ≡ false = blocks_past before after now t ev l e in
          rw (e, open_now) rest
    ]

-- Events that are cleared by the clock do not change a later verdict: at the time of the clearing
-- and after it, the filter allows a tick just when it did with all events.
news_allow-clear_past_events :
    {F : Type 0} (f : NewsFilter) (now : ℤ) (tick : Tick F)
    → now ≤ℤ pos tick.timestamp_ns
    → news_allow (clear_past_events f now) tick ≡ news_allow f tick
unfolding news_allow clear_past_events
news_allow-clear_past_events f now tick l =
    allow_at-coming f.buffer_before f.buffer_after now (pos tick.timestamp_ns) f.events l
