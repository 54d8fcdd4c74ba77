-- ===== src/News/Calendar.antt =====
-- internal/news/calendar.go: the events and the two searches among them. What the feed answers is a
-- parameter of `sync`; the mutex is left out. Times are in nanoseconds since 1970.
pub mod Nearest
use scalp_bot_os.Base.{
  ℕ, ◌+◌, ◌-◌, ◌*◌, ◌%◌, Bool, true, false, not, ◌&&◌, ◌||◌, if◌then◌else◌, ◌⊎◌, inl, inr, List, [],
  ◌∷◌, ◌++◌, map, Option, none, some, Text, bytes, text_eq, to_upper, trim_space, ℤ, pos, ◌+ℤ◌,
  ◌-ℤ◌, div_ℤ, lt_ℤ, le_ℤ,
}

pub record EconomicEvent : Type 0 where
  pub id : Text
  pub title : Text
  pub country : Text
  pub currency : Text
  pub impact : Text
  pub timestamp_ns : ℤ
  pub forecast : Text
  pub previous : Text

unfoldable pub impact_high : Text
impact_high = bytes "HIGH"

unfoldable pub impact_medium : Text
impact_medium = bytes "MEDIUM"

unfoldable pub currency_key : Text → Text
currency_key currency = to_upper (trim_space currency)

abbrev pub with_key : EconomicEvent → EconomicEvent
with_key ev = record ev { currency = currency_key ev.currency }

-- The events of a `CalendarClient`.
abbrev pub Calendar : Type 0
Calendar = List EconomicEvent

unfoldable pub calendar_add : Calendar → EconomicEvent → Calendar
calendar_add events ev = events ++ (with_key ev ∷ [])

unfoldable pub calendar_set : Calendar → List EconomicEvent → Calendar
calendar_set events new_events = map with_key new_events

-- A feed answers with events, or the request fails.
unfoldable pub sync : Calendar → Text → List EconomicEvent ⊎ Text → Calendar × Option Text
sync events feed_url (inl fetched) =
    if text_eq feed_url [] then (events, none) else (calendar_set events fetched, none)
sync events feed_url (inr e) = if text_eq feed_url [] then (events, none) else (events, some e)

abbrev pub day : ℕ
day = 86_400_000_000_000

-- An event of the default schedule, at a time of a day after today.
abbrev pub scheduled : ℕ → Text → Text → Text → ℕ → ℕ → EconomicEvent
scheduled now id title impact day_offset minutes = record {
  id = id;
  title = title;
  country = bytes "USD";
  currency = bytes "USD";
  impact = impact;
  timestamp_ns = pos (now - now % day + day_offset * day + minutes * 60_000_000_000);
  forecast = [];
  previous = [];
}

unfoldable pub seed_default_schedule : ℕ → Calendar
seed_default_schedule now =
    scheduled now (bytes "SCHED-1") (bytes "Core CPI m/m") impact_high 0 810
    ∷ (scheduled now (bytes "SCHED-2") (bytes "ISM Manufacturing PMI") impact_high 0 900
        ∷ (scheduled now (bytes "SCHED-3") (bytes "Producer Price Index (PPI) m/m") impact_high 1
              810
            ∷ (scheduled now (bytes "SCHED-4") (bytes "FOMC Economic Projections & Rate")
                  impact_high 1 1080
                ∷ (scheduled now (bytes "SCHED-5") (bytes "Initial Jobless Claims") impact_medium 2
                      810
                    ∷ (scheduled now (bytes "SCHED-6") (bytes "Existing Home Sales") impact_medium 2
                          900
                        ∷ (scheduled now (bytes "SCHED-7")
                              (bytes "Non-Farm Employment Change (NFP)") impact_high 3 810
                            ∷ (scheduled now (bytes "SCHED-8") (bytes "Unemployment Rate")
                                  impact_high 3 810
                                ∷ (scheduled now (bytes "SCHED-9") (bytes "Fed Chair Speaks")
                                      impact_high 4 840
                                    ∷ []))))))))

-- The tests of the loop of `HasUpcomingHighImpact`.
unfoldable pub is_hit : Text → ℤ → ℤ → ℤ → EconomicEvent → Bool
is_hit curr before after now ev =
    text_eq ev.impact impact_high
    && ((text_eq ev.currency curr || text_eq curr [])
        && (le_ℤ (now -ℤ after) ev.timestamp_ns && le_ℤ ev.timestamp_ns (now +ℤ before)))

unfoldable pub first_hit : Text → ℤ → ℤ → ℤ → Calendar → Option EconomicEvent
first_hit curr before after now [] = none
first_hit curr before after now (ev ∷ evs) =
    let rest = first_hit curr before after now evs in
    if is_hit curr before after now ev then some ev else rest

unfoldable pub has_upcoming_high_impact : Calendar → Text → ℤ → ℤ → ℤ → Option EconomicEvent
has_upcoming_high_impact events currency before after now =
    first_hit (currency_key currency) before after now events

-- What `GetUpcomingEvent` finds: an event whose blackout holds, or the next one, each with the
-- seconds until it.
pub data Upcoming : Type 0 where
  blackout ahead : EconomicEvent → ℤ → Upcoming
  nothing : Upcoming

unfoldable pub is_relevant : Text → EconomicEvent → Bool
is_relevant curr ev =
    (text_eq curr [] || text_eq ev.currency curr)
    && (text_eq ev.impact impact_high || text_eq ev.impact impact_medium)

abbrev pub until : ℤ → EconomicEvent → ℤ
until now ev = ev.timestamp_ns -ℤ now

unfoldable pub is_in_blackout : ℤ → ℤ → ℤ → EconomicEvent → Bool
is_in_blackout before after now ev =
    le_ℤ (pos 0 -ℤ after) (until now ev) && le_ℤ (until now ev) before

abbrev pub nano : ℤ
nano = pos 1_000_000_000

-- `math.MaxInt64`.
abbrev pub max_int64 : ℤ
max_int64 = pos 9_223_372_036_854_775_807

abbrev pub found : Option EconomicEvent → ℤ → Upcoming
found none least = nothing
found (some ev) least = ahead ev (div_ℤ least nano)

-- The loop, with the nearest event and the least distance up to here.
unfoldable pub search_from : Text → ℤ → ℤ → ℤ → Option EconomicEvent → ℤ → Calendar → Upcoming
search_from curr before after now nearest least [] = found nearest least
search_from curr before after now nearest least (ev ∷ evs) =
    let diff = until now ev in
    let rest = search_from curr before after now nearest least evs in
    let closer = search_from curr before after now (some ev) diff evs in
    if not (is_relevant curr ev)
    then rest
    else if is_in_blackout before after now ev
    then blackout ev (div_ℤ diff nano)
    else if lt_ℤ (pos 0) diff && lt_ℤ diff least
    then closer
    else rest

unfoldable pub get_upcoming_event : Calendar → Text → ℤ → ℤ → ℤ → Upcoming
get_upcoming_event events currency before after now =
    search_from (currency_key currency) before after now none max_int64 events
