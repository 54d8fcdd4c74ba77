-- ===== src/Risk/Filters/Session.antt =====
-- internal/risk/session_filter.go: trading is allowed in windows of hours, which may pass midnight.
use scalp_bot_os.Base.{
  ℕ, ◌+◌, ◌-◌, ◌/◌, ◌%◌, ◌<◌, ◌≡◌, refl, ap, ◌∙◌, Bool, true, false, ◌&&◌, ◌||◌, ltb, leb,
  if◌then◌else◌, List, [], ◌∷◌, All, Text, bytes, arith,
}
use scalp_bot_os.Model.Types.{Tick}

-- The hours are those of a clock in UTC.
pub record SessionWindow : Type 0 where
  pub name : Text
  pub start_hour : ℕ
  pub end_hour : ℕ

unfoldable pub london_session : List SessionWindow
london_session = record { name = bytes "London"; start_hour = 7; end_hour = 16 } ∷ []

unfoldable pub new_york_session : List SessionWindow
new_york_session = record { name = bytes "NewYork"; start_hour = 12; end_hour = 21 } ∷ []

unfoldable pub london_ny_overlap : List SessionWindow
london_ny_overlap = record { name = bytes "LDN-NY Overlap"; start_hour = 12; end_hour = 16 } ∷ []

-- `time.Unix(0, ns).UTC().Hour()` of package `time`, for times since 1970.
abbrev pub hour_of : ℕ → ℕ
hour_of ns = ns / 3_600_000_000_000 % 24

-- The body of the loop in `Allow`.
abbrev pub is_inside : SessionWindow → ℕ → Bool
is_inside s hour =
    if leb s.start_hour s.end_hour
    then leb s.start_hour hour && ltb hour s.end_hour
    else leb s.start_hour hour || ltb hour s.end_hour

unfoldable pub in_session : List SessionWindow → ℕ → Bool
in_session [] hour = false
in_session (s ∷ ss) hour = let rest = in_session ss hour in if is_inside s hour then true else rest

unfoldable pub session_allow : {F : Type 0} → List SessionWindow → Tick F → Bool
session_allow ss tick = in_session ss (hour_of tick.timestamp_ns)

-- How far the hand of a clock of 24 hours has gone since an hour.
abbrev pub hours_since : ℕ → ℕ → ℕ
hours_since start hour = (hour + 24 - start) % 24

-- Some window has begun less hours ago than it lasts.
abbrev pub is_any_running : List SessionWindow → ℕ → Bool
is_any_running [] hour = false
is_any_running (s ∷ ss) hour =
    ltb (hours_since s.start_hour hour) (hours_since s.start_hour s.end_hour)
    || is_any_running ss hour

abbrev pub IsOnClock : SessionWindow → Type 0
IsOnClock s = (s.start_hour < 24) × (s.end_hour < 24)

is_inside-hours_since :
    (s : SessionWindow) (hour : ℕ)
    → IsOnClock s
    → hour < 24
    → is_inside s hour ≡ ltb (hours_since s.start_hour hour) (hours_since s.start_hour s.end_hour)
is_inside-hours_since s hour (a, b) h = ground arith

if-or : (b r : Bool) → (if b then true else r) ≡ (b || r)
if-or true r = refl
if-or false r = refl

in_session-is_any_running :
    (ss : List SessionWindow) (hour : ℕ)
    → All IsOnClock ss
    → hour < 24
    → in_session ss hour ≡ is_any_running ss hour
unfolding in_session
in_session-is_any_running [] hour on h = refl
in_session-is_any_running (s ∷ ss) hour (on, rest) h =
    if-or (is_inside s hour) (in_session ss hour)
    ∙ (ap (λ b. b || in_session ss hour) (is_inside-hours_since s hour on h)
        ∙ ap (λ r. ltb (hours_since s.start_hour hour) (hours_since s.start_hour s.end_hour) || r)
            (in_session-is_any_running ss hour rest h))

-- A tick is allowed just when some window of the session has begun, on the clock, less hours ago than
-- it lasts, whether or not the window passes midnight. The hours of the windows are below 24.
session_allow-is_any_running :
    {F : Type 0} (ss : List SessionWindow) (tick : Tick F)
    → All IsOnClock ss
    → session_allow ss tick ≡ is_any_running ss (hour_of tick.timestamp_ns)
unfolding session_allow
session_allow-is_any_running ss tick on =
    in_session-is_any_running ss (hour_of tick.timestamp_ns) on (omega arith)
