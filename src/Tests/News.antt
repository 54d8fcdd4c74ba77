-- ===== src/Tests/News.antt =====
-- Runs of the news calendar and of its filter.
use scalp_bot_os.Base.{pos, bytes, Text}
use scalp_bot_os.Base.Fixed.{fixed_float}
use scalp_bot_os.News.Calendar.{Calendar, currency_key, seed_default_schedule, get_upcoming_event}
use scalp_bot_os.News.Calendar.Nearest.{Answers, get_upcoming_event-Answers}
use scalp_bot_os.Tests.Inputs.{noon}

abbrev schedule : Calendar
schedule = seed_default_schedule noon

abbrev dollar : Text
dollar = bytes "usd"

get_upcoming_event-Answers_example :
    Answers
      (currency_key dollar)
      (pos 900_000_000_000)
      (pos 900_000_000_000)
      (pos noon)
      schedule
      (get_upcoming_event schedule dollar (pos 900_000_000_000) (pos 900_000_000_000) (pos noon))
get_upcoming_event-Answers_example =
    get_upcoming_event-Answers schedule dollar (pos 900_000_000_000) (pos 900_000_000_000)
      (pos noon)
