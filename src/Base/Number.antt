-- ===== src/Base/Number.antt =====
-- JavaScript numbers as the handlers receive them. A finite double is a fraction, so every double is
-- one of these values; the operations are the ones that the modelled code calls.
use Prim.Native.Nat.{ℕ, suc, ◌*◌, ◌/◌}
use mathlib.Core.Bool.{Bool, true, false}
use revdev.Base.Tests.{ltb}

-- `above n d` is n / (d + 1), `below n d` is - (n + 1) / (d + 1).
pub data Number : Type 0 where
  nan infinity neg_infinity : Number
  above below : ℕ → ℕ → Number

-- An integer that is not negative.
abbrev pub whole : ℕ → Number
whole n = above n 0

-- `Number.isFinite(x)`
unfoldable pub is_finite : Number → Bool
is_finite (above n d) = true
is_finite (below n d) = true
is_finite _ = false

-- `x > 0`
unfoldable pub is_positive : Number → Bool
is_positive infinity = true
is_positive (above n d) = ltb 0 n
is_positive _ = false

-- `x < 0`
unfoldable pub is_negative : Number → Bool
is_negative neg_infinity = true
is_negative (below n d) = true
is_negative _ = false

-- `x < k` for a literal k > 0
unfoldable pub is_less : Number → ℕ → Bool
is_less neg_infinity k = true
is_less (below n d) k = true
is_less (above n d) k = ltb n (k * suc d)
is_less _ k = false

-- `Math.floor(x)` where x is finite and not negative
unfoldable pub floor : Number → ℕ
floor (above n d) = n / suc d
floor _ = 0
