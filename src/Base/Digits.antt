-- ===== src/Base/Digits.antt =====
-- `%d` of package `fmt`, for a number that is not negative, with fuel for its digits.
use Prim.Native.Nat.{ℕ, zero, suc, ◌+◌, ◌/◌, ◌%◌}
use mathlib.Core.List.{[], ◌∷◌, ◌++◌}
use scalp_bot_os.Base.Tests.{◌==◌, if◌then◌else◌}
use scalp_bot_os.Base.Bytes.{Text}

abbrev pub digits : ℕ → ℕ → Text
digits zero n = []
digits (suc fuel) n =
    let front = digits fuel (n / 10) in
    (if (n / 10) == 0 then [] else front) ++ ((48 + n % 10) ∷ [])
