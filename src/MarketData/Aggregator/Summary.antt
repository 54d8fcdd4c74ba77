-- ===== src/MarketData/Aggregator/Summary.antt =====
-- A candle against the list of the mid prices that it was built from, the newest first.
use scalp_bot_os.Base.{
  ◌%◌, ◌^◌, ◌≡◌, refl, sym, ◌∙◌, subst, ◌⊎◌, inl, inr, Bool, true, false, if◌then◌else◌, List, [],
  ◌∷◌, length, get_or, All, Float, ◌≤F◌, ◌<F◌, lit, IsOrdered, arith,
}
use scalp_bot_os.Model.Types.{Candle}
use scalp_bot_os.MarketData.Aggregator.{update_candle}

-- The value is one of the list.
abbrev pub Among : {A : Type 0} → A → List A → Type 0
Among x [] = ⊥
Among x (y ∷ ys) = (x ≡ y) ⊎ Among x ys

-- The last of the newest-first list is the first price.
abbrev pub oldest : {A : Type 0} → A → List A → A
oldest x [] = x
oldest x (y ∷ ys) = oldest y ys

module _ {F : Type 0} ⦃f : Float F⦄ where
  abbrev pub IsNumber : F → Type 0
  IsNumber x = (x ≤F x) ≡ true

  pub record IsHighest (h : F) (mids : List F) : Type 0 where
    pub num : IsNumber h
    pub bound : All (λ m. (m ≤F h) ≡ true) mids
    pub met : Among h mids

  pub record IsLowest (l : F) (mids : List F) : Type 0 where
    pub num : IsNumber l
    pub bound : All (λ m. (l ≤F m) ≡ true) mids
    pub met : Among l mids

  pub record IsSummary (c : Candle F) (mids : List F) : Type 0 where
    pub opens : c.opened ≡ oldest (lit 0) mids
    pub closes : c.closed ≡ get_or mids 0 (lit 0)
    pub highest : IsHighest c.high mids
    pub lowest : IsLowest c.low mids
    pub counted : c.tick_count ≡ length mids % 2 ^ 32

  module _ (laws : IsOrdered F) where
    open laws use {le_trans, le_of_lt, le_total}

    raise_bound :
        (xs : List F) (h k : F)
        → (h ≤F k) ≡ true
        → All (λ m. (m ≤F h) ≡ true) xs
        → All (λ m. (m ≤F k) ≡ true) xs
    raise_bound [] h k up a = tt
    raise_bound (x ∷ xs) h k up (p, ps) = (le_trans x h k p up, raise_bound xs h k up ps)

    lower_bound :
        (xs : List F) (l k : F)
        → (k ≤F l) ≡ true
        → All (λ m. (l ≤F m) ≡ true) xs
        → All (λ m. (k ≤F m) ≡ true) xs
    lower_bound [] l k down a = tt
    lower_bound (x ∷ xs) l k down (p, ps) = (le_trans k l x down p, lower_bound xs l k down ps)

    raise-IsHighest :
        (b : Bool) (h new : F) (ms : List F)
        → (h <F new) ≡ b
        → IsNumber new
        → IsHighest h ms
        → IsHighest (if b then new else h) (new ∷ ms)
    raise-IsHighest true h new ms e num s = record {
      num = num;
      bound = (num, raise_bound ms h new (le_of_lt h new e) s.bound);
      met = inl refl;
    }
    raise-IsHighest false h new ms e num s = record {
      num = s.num;
      bound = (le_total h new s.num num e, s.bound);
      met = inr s.met;
    }

    lower-IsLowest :
        (b : Bool) (l new : F) (ms : List F)
        → (new <F l) ≡ b
        → IsNumber new
        → IsLowest l ms
        → IsLowest (if b then new else l) (new ∷ ms)
    lower-IsLowest true l new ms e num s = record {
      num = num;
      bound = (num, lower_bound ms l new (le_of_lt new l e) s.bound);
      met = inl refl;
    }
    lower-IsLowest false l new ms e num s = record {
      num = s.num;
      bound = (le_total new l num s.num e, s.bound);
      met = inr s.met;
    }

    oldest-cons : (x h : F) (ms : List F) → Among h ms → oldest (lit 0) ms ≡ oldest (lit 0) (x ∷ ms)
    oldest-cons x h [] m = elim m [ ]
    oldest-cons x h (y ∷ ms) m = refl

    pub update_candle-IsSummary :
        {c : Candle F} {ms : List F} (new : F)
        → IsNumber new
        → IsSummary c ms
        → IsSummary (update_candle c new) (new ∷ ms)
    unfolding update_candle
    update_candle-IsSummary {c} {ms} new num s = record {
      opens = s.opens ∙ oldest-cons new c.high ms s.highest.met;
      closes = refl;
      highest = raise-IsHighest (c.high <F new) c.high new ms refl num s.highest;
      lowest = lower-IsLowest (new <F c.low) c.low new ms refl num s.lowest;
      counted = let before : c.tick_count ≡ length ms % 2 ^ 32 = s.counted in omega arith;
    }

    pub IsSummary-same :
        {c d : Candle F} {ms : List F}
        → d.opened ≡ c.opened
        → d.closed ≡ c.closed
        → d.high ≡ c.high
        → d.low ≡ c.low
        → d.tick_count ≡ c.tick_count
        → IsSummary c ms
        → IsSummary d ms
    IsSummary-same {ms = ms} o x h l n s = record {
      opens = o ∙ s.opens;
      closes = x ∙ s.closes;
      highest = subst (λ v. IsHighest v ms) (sym h) s.highest;
      lowest = subst (λ v. IsLowest v ms) (sym l) s.lowest;
      counted = n ∙ s.counted;
    }
