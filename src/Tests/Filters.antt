-- ===== src/Tests/Filters.antt =====
-- Runs of the market filters.
use scalp_bot_os.Base.{◌≡◌, refl, false, List, [], ◌∷◌, bytes, lit}
use scalp_bot_os.Base.Fixed.{Fixed, fixed_float}
use scalp_bot_os.Model.Types.{Tick}
use scalp_bot_os.Risk.Filters.Session.{SessionWindow, session_allow, in_session}
use scalp_bot_os.Risk.Filters.Velocity.{capacity, new_tick_velocity_filter, ticks_in_window}
use scalp_bot_os.Risk.Filters.Velocity.Window.{
  recent, newest_first, velocity_on_ticks, ticks_in_window-recent,
}
use scalp_bot_os.Tests.Inputs.{tick_at, noon}

-- From ten in the evening to six in the morning.
abbrev asia : List SessionWindow
asia = record { name = bytes "Asia"; start_hour = 22; end_hour = 6 } ∷ []

noon_is_no_session : session_allow asia (tick_at 2000 noon) ≡ false
unfolding session_allow in_session
noon_is_no_session = refl

abbrev calm : List (Tick Fixed)
calm = tick_at 2000 noon ∷ tick_at 2001 noon ∷ []

ticks_in_window-recent_example :
    ticks_in_window
      (velocity_on_ticks
        (new_tick_velocity_filter {F = Fixed} 5 (lit 1) (lit 9))
        ((10, 0) ∷ ((17, 0) ∷ ((0, 20) ∷ []))))
      21
    ≡ recent 5 21 capacity (newest_first [] ((10, 0) ∷ ((17, 0) ∷ ((0, 20) ∷ []))))
ticks_in_window-recent_example =
    ticks_in_window-recent {F = Fixed} 5 21 (lit 1) (lit 9) ((10, 0) ∷ ((17, 0) ∷ ((0, 20) ∷ [])))
