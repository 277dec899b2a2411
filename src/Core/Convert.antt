-- ===== src/Core/Convert.antt =====
-- `int(v)`.
use far_away.Prelude.{ℕ, suc, ◌/◌, ◌^◌, true, false, Option, none, some}
use far_away.Prelude.Int.{ℤ, pos, negsuc}
use far_away.Core.Value.{Value, null, bool, int, float, text, list, dict, codes}
use far_away.Core.Text.{negate, parse_int}

-- `int(x)` of the float m / 10^k: its whole part, towards zero
unfoldable pub whole : ℤ → ℕ → ℤ
whole (pos n) k = pos (n / 10 ^ k)
whole (negsuc n) k = negate (suc n / 10 ^ k)

-- `int(v)`, `none` for its `TypeError` and its `ValueError`
unfoldable pub to_int : Value → Option ℤ
unfolding whole parse_int
to_int null = none
to_int (bool true) = some (pos 1)
to_int (bool false) = some (pos 0)
to_int (int n) = some n
to_int (float m k) = some (whole m k)
to_int (text s) = parse_int (codes s)
to_int (list xs) = none
to_int (dict d) = none
