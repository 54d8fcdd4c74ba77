-- ===== src/Base/Reals.antt =====
-- `float64` and the functions of package `math` that the program calls, behind an interface.
use Prim.Native.Nat.{ℕ}
use mathlib.Core.Path.{◌≡◌}
use mathlib.Core.Bool.{Bool, true, false, not}

-- `dec m d` is the literal m / 10^d. Comparisons with NaN are false.
pub record Float (F : Type 0) : Type 0 where
  pub dec : ℕ → ℕ → F
  pub nan : F
  pub add : F → F → F
  pub sub : F → F → F
  pub mul : F → F → F
  pub div : F → F → F
  pub neg : F → F
  pub abs : F → F
  pub max : F → F → F
  pub min : F → F → F
  pub floor : F → F
  pub round : F → F
  pub sqrt : F → F
  pub erf : F → F
  pub exp : F → F
  pub log : F → F
  pub is_inf : F → Bool
  pub max_float64 : F
  pub lt : F → F → Bool
  pub le : F → F → Bool
  pub eq : F → F → Bool

module _ {F : Type 0} ⦃f : Float F⦄ where
  infixl 65 ◌+F◌ ◌-F◌
  infixl 70 ◌*F◌ ◌/F◌
  infix 50 ◌<F◌ ◌≤F◌ ◌>F◌ ◌≥F◌ ◌==F◌
  abbrev pub ◌+F◌ : F → F → F
  ◌+F◌ = f.add

  abbrev pub ◌-F◌ : F → F → F
  ◌-F◌ = f.sub

  abbrev pub ◌*F◌ : F → F → F
  ◌*F◌ = f.mul

  abbrev pub ◌/F◌ : F → F → F
  ◌/F◌ = f.div

  abbrev pub ◌<F◌ : F → F → Bool
  ◌<F◌ = f.lt

  abbrev pub ◌≤F◌ : F → F → Bool
  ◌≤F◌ = f.le

  abbrev pub ◌>F◌ : F → F → Bool
  x >F y = f.lt y x

  abbrev pub ◌≥F◌ : F → F → Bool
  x ≥F y = f.le y x

  abbrev pub ◌==F◌ : F → F → Bool
  ◌==F◌ = f.eq

  -- A decimal literal, a whole literal, and `float64(n)`.
  abbrev pub dec : ℕ → ℕ → F
  dec = f.dec

  abbrev pub lit : ℕ → F
  lit n = f.dec n 0

  abbrev pub nan : F
  nan = f.nan

  abbrev pub is_nan : F → Bool
  is_nan x = not (f.eq x x)

-- The sign bit: a negation is undone by another, and turns every order around.
pub record IsSigned (F : Type 0) ⦃f : Float F⦄ : Type 0 where
  pub neg_neg : (x : F) → f.neg (f.neg x) ≡ x
  pub lt-neg : (x y : F) → f.lt (f.neg x) (f.neg y) ≡ f.lt y x

-- Laws of IEEE 754 that hold of every value: the orders are transitive, agree, and are total away
-- from NaN; rounding is monotone, so that adding a non-negative number lowers nothing.
pub record IsOrdered (F : Type 0) ⦃f : Float F⦄ : Type 0 where
  pub lt_irrefl : (x : F) → f.lt x x ≡ false
  pub lt_trans : (x y z : F) → f.lt x y ≡ true → f.lt y z ≡ true → f.lt x z ≡ true
  pub le_trans : (x y z : F) → f.le x y ≡ true → f.le y z ≡ true → f.le x z ≡ true
  pub le_of_lt : (x y : F) → f.lt x y ≡ true → f.le x y ≡ true
  pub lt_of_le_lt : (x y z : F) → f.le x y ≡ true → f.lt y z ≡ true → f.lt x z ≡ true
  pub lt_of_lt_le : (x y z : F) → f.lt x y ≡ true → f.le y z ≡ true → f.lt x z ≡ true
  pub le-not_lt : (x y : F) → f.le x y ≡ true → f.lt y x ≡ false
  pub refl_of_le : (x y : F) → f.le x y ≡ true → (f.le x x ≡ true) × (f.le y y ≡ true)
  pub le_total : (x y : F) → f.le x x ≡ true → f.le y y ≡ true → f.lt x y ≡ false → f.le y x ≡ true
  pub dec_nonneg : (m d : ℕ) → f.le (f.dec 0 0) (f.dec m d) ≡ true
  pub lt_of_add_lt :
      (x c y : F) → f.le (f.dec 0 0) c ≡ true → f.lt (f.add x c) y ≡ true → f.lt x y ≡ true
  pub lt_of_lt_sub :
      (x c y : F) → f.le (f.dec 0 0) c ≡ true → f.lt y (f.sub x c) ≡ true → f.lt y x ≡ true
