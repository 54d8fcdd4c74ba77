-- ===== src/Risk/Manager/Calendar.antt =====
-- `time.Unix(0, ns).UTC().YearDay()` of package `time`, for times since 1970.
use scalp_bot_os.Base.{
  ℕ, zero, suc, ◌+◌, ◌-◌, ◌*◌, ◌/◌, ◌%◌, ◌≤◌, ◌<◌, Bool, ◌&&◌, ◌||◌, not, inl, inr, Bool-cases, ltb,
  ◌==◌, if◌then◌else◌, arith,
}

abbrev pub day_ns : ℕ
day_ns = 86_400_000_000_000

abbrev is_leap : ℕ → Bool
is_leap y = (y % 4 == 0) && (not (y % 100 == 0) || (y % 400 == 0))

abbrev days_in : ℕ → ℕ
days_in y = if is_leap y then 366 else 365

-- The day of the year, for a number of days after the start of year `y`.
day_in_year : ℕ → ℕ → ℕ → ℕ
day_in_year zero y days = days + 1
day_in_year (suc fuel) y days =
    let later = day_in_year fuel (y + 1) (days - days_in y) in
    if ltb days (days_in y) then days + 1 else later

-- A year takes 365 days at the least, which bounds the rounds.
unfoldable pub year_day : ℕ → ℕ
unfolding day_in_year
year_day ns = day_in_year (ns / day_ns / 365 + 1) 1970 (ns / day_ns)

days_in_bounds : (y : ℕ) → (365 ≤ days_in y) × (days_in y ≤ 366)
days_in_bounds y = ground arith

day_in_year_bounds :
    (fuel y days : ℕ)
    → days < 365 * fuel
    → (1 ≤ day_in_year fuel y days) × (day_in_year fuel y days ≤ 366)
unfolding day_in_year
day_in_year_bounds zero y days h = absurd (omega arith)
day_in_year_bounds (suc fuel) y days h =
    let (low, high) = days_in_bounds y in
    elim (Bool-cases (ltb days (days_in y))) [
      | inl this ↦ rw this (omega arith, ground arith)
      | inr next ↦
          let over : days_in y ≤ days = ground arith in
          rw next (day_in_year_bounds fuel (y + 1) (days - days_in y) (omega arith))
    ]

-- The rounds suffice: the day of the year lies between 1 and 366.
pub year_day_bounds : (ns : ℕ) → (1 ≤ year_day ns) × (year_day ns ≤ 366)
unfolding year_day day_in_year
year_day_bounds ns =
    let days = ns / day_ns in day_in_year_bounds (days / 365 + 1) 1970 days (omega arith)
