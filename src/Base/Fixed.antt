-- ===== src/Base/Fixed.antt =====
-- Fixed-point numbers with six decimals and a NaN: a `Float` whose laws hold, so that the laws can be
-- met and the definitions run on concrete inputs. `erf` is the straight line through the origin cut
-- off at one, `exp` and `log` are their tangents at zero and one, and `sqrt` is exact to the last decimal.
use Prim.Native.Nat.{ℕ, zero, suc, ◌+◌, ◌*◌, ◌/◌, ◌^◌}
use mathlib.Core.Bool.{Bool, false}
use mathlib.Core.Option.{Option, none, some}
use native.Mathlib.Omega.{arith}
use scalp_bot_os.Base.Tests.{leb, if◌then◌else◌}
use scalp_bot_os.Base.Int.{
  ℤ, pos, negsuc, pos_part, neg_part, sub_ℕ, ◌+ℤ◌, ◌-ℤ◌, ◌*ℤ◌, div_ℤ, lt_ℤ, le_ℤ, eq_ℤ,
}
use scalp_bot_os.Base.Reals.{Float, IsOrdered, IsSigned}

abbrev pub Fixed : Type 0
Fixed = Option ℤ

abbrev scale : ℕ
scale = 1_000_000

abbrev lift₂ : (ℤ → ℤ → ℤ) → Fixed → Fixed → Fixed
lift₂ g (some a) (some b) = some (g a b)
lift₂ g (some a) none = none
lift₂ g none b = none

abbrev lift₁ : (ℤ → ℤ) → Fixed → Fixed
lift₁ g (some a) = some (g a)
lift₁ g none = none

abbrev test : (ℤ → ℤ → Bool) → Fixed → Fixed → Bool
test g (some a) (some b) = g a b
test g (some a) none = false
test g none b = false

-- A division by zero is NaN here.
abbrev divide : Fixed → Fixed → Fixed
divide (some a) (some b) = if eq_ℤ b (pos 0) then none else some (div_ℤ (a *ℤ pos scale) b)
divide (some a) none = none
divide none b = none

-- The greatest multiple of `m` that is not above.
abbrev floor_by : ℕ → ℤ → ℤ
floor_by m (pos n) = pos (n / m * m)
floor_by m (negsuc n) = sub_ℕ 0 ((n / m + 1) * m)

abbrev round_by : ℕ → ℤ → ℤ
round_by m (pos n) = pos ((n + m / 2) / m * m)
round_by m (negsuc n) = sub_ℕ 0 ((suc n + m / 2) / m * m)

-- The greatest root below 2^bits.
unfoldable pub root : ℕ → ℕ → ℕ → ℕ
root zero n r = r
root (suc bits) n r = let try = r + 2 ^ bits in root bits n (if leb (try * try) n then try else r)

abbrev sqrt_ℤ : ℤ → ℤ
sqrt_ℤ (pos n) = pos (root 64 (n * scale) 0)
sqrt_ℤ (negsuc n) = pos 0

abbrev cut : ℤ → ℤ
cut a =
    if lt_ℤ (pos scale) a then pos scale else if lt_ℤ a (sub_ℕ 0 scale) then sub_ℕ 0 scale else a

instance abbrev pub fixed_float : Float Fixed
fixed_float = record {
  dec = λ m d. some (pos (m * scale / 10 ^ d));
  nan = none;
  add = lift₂ ◌+ℤ◌;
  sub = lift₂ ◌-ℤ◌;
  mul = lift₂ λ a b. div_ℤ (a *ℤ b) (pos scale);
  div = divide;
  neg = lift₁ λ a. pos 0 -ℤ a;
  abs = lift₁ λ a. pos (pos_part a + neg_part a);
  max = lift₂ λ a b. if lt_ℤ a b then b else a;
  min = lift₂ λ a b. if lt_ℤ a b then a else b;
  floor = lift₁ (floor_by scale);
  round = lift₁ (round_by scale);
  sqrt = lift₁ sqrt_ℤ;
  erf = lift₁ cut;
  exp = lift₁ λ a. if lt_ℤ a (sub_ℕ 0 scale) then pos 0 else a +ℤ pos scale;
  log = lift₁ λ a. a -ℤ pos scale;
  is_inf = λ x. false;
  max_float64 = some (pos (10 ^ 300 * scale));
  lt = test lt_ℤ;
  le = test le_ℤ;
  eq = test eq_ℤ;
}

pub Fixed-IsOrdered : IsOrdered Fixed
Fixed-IsOrdered = record {
  lt_irrefl = λ x. ground arith;
  lt_trans = λ x y z p q. ground arith;
  le_trans = λ x y z p q. ground arith;
  le_of_lt = λ x y p. ground arith;
  lt_of_le_lt = λ x y z p q. ground arith;
  lt_of_lt_le = λ x y z p q. ground arith;
  le-not_lt = λ x y p. ground arith;
  refl_of_le = λ x y p. (ground arith, ground arith);
  le_total = λ x y p q r. ground arith;
  dec_nonneg = λ m d. ground arith;
  lt_of_add_lt = λ x c y p q. ground arith;
  lt_of_lt_sub = λ x c y p q. ground arith;
}

pub Fixed-IsSigned : IsSigned Fixed
Fixed-IsSigned = record { neg_neg = λ x. ground arith; lt-neg = λ x y. ground arith }
