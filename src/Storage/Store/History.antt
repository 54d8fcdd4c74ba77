-- ===== src/Storage/Store/History.antt =====
-- The records of the trade history: what the cut to a week and to 500 records keeps of them.
use scalp_bot_os.Base.{
  ℕ, zero, suc, ◌+◌, ◌-◌, ◌≤◌, ◌<◌, true, false, ltb, if◌then◌else◌, ◌≡◌, refl, sym, ap, ◌∙◌, inl,
  inr, List, [], ◌∷◌, ◌++◌, length, drop, length-append, length-drop, Text, text_eq, text_eq_iff,
  Bool-cases, arith,
}
use scalp_bot_os.Storage.Store.{TradeRecord, week, in_week, has_ticket, last_500}

module _ {F : Type 0} where
  -- The records that carry a ticket.
  abbrev pub count : Text → List (TradeRecord F) → ℕ
  count ticket [] = 0
  count ticket (t ∷ ts) = (if text_eq t.ticket ticket then 1 else 0) + count ticket ts

  -- A history has at most 500 records, and at most one for a ticket.
  pub record IsHistory (ts : List (TradeRecord F)) : Type 0 where
    pub at_most_500 : length ts ≤ 500
    pub single : (ticket : Text) → count ticket ts ≤ 1

  count-append :
      (ticket : Text) (ts us : List (TradeRecord F))
      → count ticket (ts ++ us) ≡ count ticket ts + count ticket us
  count-append ticket [] us = omega arith
  count-append ticket (t ∷ ts) us = omega (arith, count-append ticket ts us)

  count-drop :
      (ticket : Text) (n : ℕ) (ts : List (TradeRecord F))
      → count ticket (drop n ts) ≤ count ticket ts
  count-drop ticket zero ts = omega arith
  count-drop ticket (suc n) [] = omega arith
  count-drop ticket (suc n) (t ∷ ts) = omega (arith, count-drop ticket n ts)

  count-in_week :
      (ticket : Text) (now : ℕ) (ts : List (TradeRecord F))
      → count ticket (in_week now ts) ≤ count ticket ts
  unfolding in_week
  count-in_week ticket now [] = omega arith
  count-in_week ticket now (t ∷ ts) = ground (arith, count-in_week ticket now ts)

  count-last_500 :
      (ticket : Text) (ts : List (TradeRecord F)) → count ticket (last_500 ts) ≤ count ticket ts
  unfolding last_500
  count-last_500 ticket ts = ground (arith, count-drop ticket (length ts - 500) ts)

  length-last_500 : (ts : List (TradeRecord F)) → length (last_500 ts) ≤ 500
  unfolding last_500
  length-last_500 ts = ground (arith, length-drop (length ts - 500) ts)

  has_ticket-count :
      (ticket : Text) (ts : List (TradeRecord F))
      → has_ticket ticket ts ≡ false
      → count ticket ts ≡ 0
  unfolding has_ticket
  has_ticket-count ticket [] h = refl
  has_ticket-count ticket (t ∷ ts) h = ground (arith, h, has_ticket-count ticket ts)

  -- The history that a save of a record with a new ticket writes.
  abbrev pub extended : List (TradeRecord F) → ℕ → TradeRecord F → List (TradeRecord F)
  extended ts now tr = last_500 (in_week now ts ++ (tr ∷ []))

  pub extended-IsHistory :
      (ts : List (TradeRecord F)) (now : ℕ) (tr : TradeRecord F)
      → IsHistory ts
      → has_ticket tr.ticket ts ≡ false
      → IsHistory (extended ts now tr)
  extended-IsHistory ts now tr h fresh =
      let more = in_week now ts ++ (tr ∷ []) in
      record {
        at_most_500 = length-last_500 more;
        single = λ ticket. ground (
          arith,
          h.single ticket,
          has_ticket-count tr.ticket ts fresh,
          count-last_500 ticket more,
          count-append ticket (in_week now ts) (tr ∷ []),
          count-in_week ticket now ts,
          text_eq_iff tr.ticket ticket,
        );
      }

  drop_last :
      (n : ℕ) (ts : List (TradeRecord F)) (t : TradeRecord F)
      → n ≤ length ts
      → drop n (ts ++ (t ∷ [])) ≡ drop n ts ++ (t ∷ [])
  drop_last zero ts t l = refl
  drop_last (suc n) [] t l = absurd (omega (arith, l))
  drop_last (suc n) (u ∷ ts) t l = drop_last n ts t (omega (arith, l))

  has_ticket_last :
      (ts : List (TradeRecord F)) (t : TradeRecord F) → has_ticket t.ticket (ts ++ (t ∷ [])) ≡ true
  unfolding has_ticket
  has_ticket_last [] t = ground (arith, text_eq_iff t.ticket t.ticket)
  has_ticket_last (u ∷ ts) t = ground (arith, has_ticket_last ts t)

  in_week_last :
      (now : ℕ) (ts : List (TradeRecord F)) (t : TradeRecord F)
      → now < t.close_time + week
      → in_week now (ts ++ (t ∷ [])) ≡ in_week now ts ++ (t ∷ [])
  unfolding in_week
  in_week_last now [] t l = ground (arith, l)
  in_week_last now (u ∷ ts) t l = elim (Bool-cases (ltb now (u.close_time + week))) [
    | inl e ↦ rw e (ap (λ us. u ∷ us) (in_week_last now ts t l))
    | inr e ↦ rw e (in_week_last now ts t l)
  ]

  in_week_old :
      (now : ℕ) (ts : List (TradeRecord F)) (t : TradeRecord F)
      → ltb now (t.close_time + week) ≡ false
      → in_week now (ts ++ (t ∷ [])) ≡ in_week now ts
  unfolding in_week
  in_week_old now [] t l = rw l refl
  in_week_old now (u ∷ ts) t l = elim (Bool-cases (ltb now (u.close_time + week))) [
    | inl e ↦ rw e (ap (λ us. u ∷ us) (in_week_old now ts t l))
    | inr e ↦ rw e (in_week_old now ts t l)
  ]

  count-has_ticket :
      (ticket : Text) (ts : List (TradeRecord F))
      → count ticket ts ≡ 0
      → has_ticket ticket ts ≡ false
  unfolding has_ticket
  count-has_ticket ticket [] h = refl
  count-has_ticket ticket (t ∷ ts) h = ground (arith, h, count-has_ticket ticket ts)

  -- The new record stays at the end, after some of the others.
  last_500_last :
      (ts : List (TradeRecord F)) (t : TradeRecord F)
      → (us : List (TradeRecord F)) × (last_500 (ts ++ (t ∷ [])) ≡ us ++ (t ∷ []))
        × ((ticket : Text) → count ticket us ≤ count ticket ts)
  unfolding last_500
  last_500_last ts t =
      let more = ts ++ (t ∷ []) in
      let n = length more - 500 in
      elim (Bool-cases (ltb 500 (length more))) [
        | inl e ↦ (
          drop n ts,
          rw e (drop_last n ts t (omega (arith, length-append ts (t ∷ [])))),
          λ ticket. count-drop ticket n ts,
        )
        | inr e ↦ (ts, rw e refl, λ ticket. omega arith)
      ]

  pub extended-has_ticket :
      (ts : List (TradeRecord F)) (now : ℕ) (tr : TradeRecord F)
      → has_ticket tr.ticket (extended ts now tr) ≡ true
  extended-has_ticket ts now tr =
      let (us, e, _) = last_500_last (in_week now ts) tr in
      ap (λ l. has_ticket tr.ticket l) e ∙ has_ticket_last us tr

  -- Later the new record is among the others just when it is younger than a week.
  pub extended-in_week :
      (ts : List (TradeRecord F)) (now later : ℕ) (tr : TradeRecord F)
      → has_ticket tr.ticket ts ≡ false
      → has_ticket tr.ticket (in_week later (extended ts now tr)) ≡ ltb later (tr.close_time + week)
  extended-in_week ts now later tr fresh =
      let (us, e, fewer) = last_500_last (in_week now ts) tr in
      let at_end = ap (λ l. has_ticket tr.ticket (in_week later l)) e in
      elim (Bool-cases (ltb later (tr.close_time + week))) [
        | inl young ↦
            at_end
            ∙ (ap (λ l. has_ticket tr.ticket l) (in_week_last later us tr (ground (arith, young)))
                ∙ (has_ticket_last (in_week later us) tr ∙ sym young))
        | inr old ↦
            at_end
            ∙ (ap (λ l. has_ticket tr.ticket l) (in_week_old later us tr old)
                ∙ (count-has_ticket tr.ticket (in_week later us) (
                      omega (
                        arith,
                        has_ticket-count tr.ticket ts fresh,
                        count-in_week tr.ticket now ts,
                        fewer tr.ticket,
                        count-in_week tr.ticket later us,
                      ))
                    ∙ sym old))
      ]
