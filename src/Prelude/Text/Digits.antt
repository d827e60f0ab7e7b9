-- ===== src/Prelude/Text/Digits.antt =====
-- Decimal digits.
use Prim.Native.Nat.{ℕ, ◌+◌, ◌-◌, ◌*◌}
use mathlib.Core.Bool.{Bool, false, ◌&&◌}
use mathlib.Core.List.{[], ◌∷◌}
use openshift_console.Prelude.Tests.{leb}
use openshift_console.Prelude.Text.{Text}

-- `/^\d+$/`, and the number that the digits make.
unfoldable pub is_digits : Text → Bool
is_digits [] = false
is_digits (c ∷ []) = leb 48 c && leb c 57
is_digits (c ∷ d ∷ s) = (leb 48 c && leb c 57) && is_digits (d ∷ s)

unfoldable pub digits_value : ℕ → Text → ℕ
digits_value n [] = n
digits_value n (c ∷ s) = digits_value (n * 10 + (c - 48)) s
