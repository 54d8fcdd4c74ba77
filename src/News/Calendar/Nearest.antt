-- ===== src/News/Calendar/Nearest.antt =====
-- What the search for the next event finds.
use mathlib.Core.List.{Mem, mem-cons_self, mem-cons_of_mem}
use scalp_bot_os.Base.{
  true, false, not, ◌&&◌, ◌≡◌, refl, subst, ◌⊎◌, inl, inr, [], ◌∷◌, Option, none, some, Text, All,
  ℤ, pos, ◌≤ℤ◌, div_ℤ, lt_ℤ, Bool-cases, if_intro, arith,
}
use scalp_bot_os.News.Calendar.{
  EconomicEvent, Calendar, currency_key, Upcoming, blackout, ahead, nothing, is_relevant, until,
  is_in_blackout, nano, max_int64, found, search_from, get_upcoming_event,
}

same_event : (a b : EconomicEvent) → some a ≡ some b → a ≡ b
same_event a b h = cc

not_between : (a least : ℤ) → (lt_ℤ (pos 0) a && lt_ℤ a least) ≡ false → (a ≤ℤ pos 0) ⊎ (least ≤ℤ a)
not_between a least h = elim (Bool-cases (lt_ℤ (pos 0) a)) [
  | inl e ↦ inr (ground (arith, h, e))
  | inr e ↦ inl (ground (arith, e))
]

module _ (curr : Text) (before after now : ℤ) where
  -- An event is not relevant, or it is past, or it is not closer than a distance; if it is relevant,
  -- its blackout does not hold.
  abbrev pub NotCloser : ℤ → EconomicEvent → Type 0
  NotCloser least ev =
      (is_relevant curr ev ≡ false)
      ⊎ ((is_in_blackout before after now ev ≡ false)
          × ((until now ev ≤ℤ pos 0) ⊎ (least ≤ℤ until now ev)))

  -- An event that is relevant, out of its blackout and still to come.
  abbrev pub IsComing : EconomicEvent → Type 0
  IsComing ev =
      (is_relevant curr ev ≡ true)
      × (is_in_blackout before after now ev ≡ false)
      × (pos 1 ≤ℤ until now ev)

  -- What a result says of the events that were searched, from a nearest event and its distance on.
  abbrev pub Verdict : Option EconomicEvent → ℤ → Calendar → Upcoming → Type 0
  Verdict nearest least evs (blackout ev seconds) =
      Mem ev evs
      × (is_relevant curr ev ≡ true)
      × (is_in_blackout before after now ev ≡ true)
      × (seconds ≡ div_ℤ (until now ev) nano)
  Verdict nearest least evs (ahead ev seconds) =
      ((nearest ≡ some ev) ⊎ (Mem ev evs × IsComing ev))
      × (until now ev ≤ℤ least)
      × (seconds ≡ div_ℤ (until now ev) nano)
      × All (NotCloser (until now ev)) evs
  Verdict nearest least evs nothing = (nearest ≡ none) × All (NotCloser least) evs

  -- The nearest event so far lies at the least distance.
  abbrev AtLeast : Option EconomicEvent → ℤ → Type 0
  AtLeast none least = Unit
  AtLeast (some ev) least = until now ev ≡ least

  found-Verdict :
      (nearest : Option EconomicEvent) (least : ℤ)
      → AtLeast nearest least
      → Verdict nearest least [] (found nearest least)
  found-Verdict none least h = (refl, tt)
  found-Verdict (some ev) least h =
      subst (λ l. Verdict (some ev) l [] (found (some ev) l)) h (inl refl, omega arith, refl, tt)

  NotCloser-le :
      (least closer : ℤ) (ev : EconomicEvent)
      → closer ≤ℤ least
      → NotCloser least ev
      → NotCloser closer ev
  NotCloser-le least closer ev l n = elim n [
    | inl other ↦ inl other
    | inr (b, inl past) ↦ inr (b, inl past)
    | inr (b, inr far) ↦ inr (b, inr (omega (arith, l, far)))
  ]

  -- The rest, after an event that is not closer.
  Verdict-skip :
      (nearest : Option EconomicEvent) (least : ℤ) (ev : EconomicEvent) (evs : Calendar)
      (r : Upcoming)
      → NotCloser least ev
      → Verdict nearest least evs r
      → Verdict nearest least (ev ∷ evs) r
  Verdict-skip nearest least ev evs (blackout e s) n (m, rel, b, t) =
      (mem-cons_of_mem ev m, rel, b, t)
  Verdict-skip nearest least ev evs (ahead e s) n (inl eq', l, eq, all) =
      (inl eq', l, eq, (NotCloser-le least (until now e) ev l n, all))
  Verdict-skip nearest least ev evs (ahead e s) n (inr (m, c), l, eq, all) =
      (inr (mem-cons_of_mem ev m, c), l, eq, (NotCloser-le least (until now e) ev l n, all))
  Verdict-skip nearest least ev evs nothing n (e, all) = (e, (n, all))

  -- The rest, after an event that is the nearest.
  Verdict-closer :
      (nearest : Option EconomicEvent) (least : ℤ) (ev : EconomicEvent) (evs : Calendar)
      (r : Upcoming)
      → IsComing ev
      → until now ev ≤ℤ least
      → Verdict (some ev) (until now ev) evs r
      → Verdict nearest least (ev ∷ evs) r
  Verdict-closer nearest least ev evs (blackout e s) b c (m, rel, d, t) =
      (mem-cons_of_mem ev m, rel, d, t)
  Verdict-closer nearest least ev evs (ahead e s) (rel, b, p) c (inl same, l, eq, all) = (
    inr (
        subst (λ x. Mem x (ev ∷ evs) × IsComing x) (same_event ev _ same)
          (mem-cons_self, (rel, b, p))),
    omega (arith, l, c),
    eq,
    (inr (b, inr l), all),
  )
  Verdict-closer nearest least ev evs (ahead e s) (rel, b, p) c (inr (m, q), l, eq, all) =
      (inr (mem-cons_of_mem ev m, q), omega (arith, l, c), eq, (inr (b, inr l), all))
  Verdict-closer nearest least ev evs nothing b c (e, all) = absurd (ground (arith, e))

  not_closer :
      (least : ℤ) (ev : EconomicEvent)
      → (lt_ℤ (pos 0) (until now ev) && lt_ℤ (until now ev) least) ≡ false
      → (until now ev ≤ℤ pos 0) ⊎ (least ≤ℤ until now ev)
  not_closer least ev h = not_between (until now ev) least h

  search_from-Verdict :
      (nearest : Option EconomicEvent) (least : ℤ) (evs : Calendar)
      → AtLeast nearest least
      → Verdict nearest least evs (search_from curr before after now nearest least evs)
  unfolding search_from
  search_from-Verdict nearest least [] h = found-Verdict nearest least h
  search_from-Verdict nearest least (ev ∷ evs) h =
      let P = λ (r : Upcoming). Verdict nearest least (ev ∷ evs) r in
      let rest = search_from-Verdict nearest least evs h in
      let after_this = search_from curr before after now nearest least evs in
      if_intro P (not (is_relevant curr ev))
        (λ other. Verdict-skip nearest least ev evs after_this (inl (ground (arith, other))) rest)
        (λ relevant.
          if_intro P (is_in_blackout before after now ev)
            (λ b. (mem-cons_self, ground (arith, relevant), b, refl))
            (λ b.
              if_intro P (lt_ℤ (pos 0) (until now ev) && lt_ℤ (until now ev) least)
                (λ c.
                  Verdict-closer nearest least ev evs
                    (search_from curr before after now (some ev) (until now ev) evs)
                    (ground (arith, relevant), b, ground (arith, c)) (ground (arith, c))
                    (search_from-Verdict (some ev) (until now ev) evs refl))
                (λ c.
                  Verdict-skip nearest least ev evs after_this (inr (b, not_closer least ev c))
                    rest)))

-- What the search answers: an event of the calendar, or that there is none.
module _ (curr : Text) (before after now : ℤ) where
  abbrev pub Answers : Calendar → Upcoming → Type 0
  Answers evs (blackout ev seconds) =
      Mem ev evs
      × (is_relevant curr ev ≡ true)
      × (is_in_blackout before after now ev ≡ true)
      × (seconds ≡ div_ℤ (until now ev) nano)
  Answers evs (ahead ev seconds) =
      Mem ev evs
      × IsComing curr before after now ev
      × (seconds ≡ div_ℤ (until now ev) nano)
      × All (NotCloser curr before after now (until now ev)) evs
  Answers evs nothing = All (NotCloser curr before after now max_int64) evs

  Verdict-Answers :
      (evs : Calendar) (r : Upcoming)
      → Verdict curr before after now none max_int64 evs r
      → Answers evs r
  Verdict-Answers evs (blackout ev seconds) v = v
  Verdict-Answers evs (ahead ev seconds) (inl none_some, _, _, _) =
      absurd (ground (arith, none_some))
  Verdict-Answers evs (ahead ev seconds) (inr (m, c), _, eq, all) = (m, c, eq, all)
  Verdict-Answers evs nothing (_, all) = all

-- The search gives an event of the calendar that is relevant and whose blackout holds, with the
-- seconds until it; or one that is relevant and still to come, with the seconds until it, such that
-- no relevant event's blackout holds and none that is still to come is nearer; or nothing, and then
-- no relevant event's blackout holds and none comes in less than the greatest time. Relevant are
-- those of the currency, of high or medium impact.
pub get_upcoming_event-Answers :
    (events : Calendar) (currency : Text) (before after now : ℤ)
    → Answers
        (currency_key currency)
        before
        after
        now
        events
        (get_upcoming_event events currency before after now)
unfolding get_upcoming_event
get_upcoming_event-Answers events currency before after now =
    let key = currency_key currency in
    Verdict-Answers key before after now events
      (search_from key before after now none max_int64 events)
      (search_from-Verdict key before after now none max_int64 events tt)
