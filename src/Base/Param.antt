-- ===== src/Base/Param.antt =====
-- The value of one field of an RPC call's parameters, and the readers of server.ts.
use mathlib.Core.Bool.{Bool}
use mathlib.Core.Option.{Option, none, some}
use mathlib.Core.List.{[]}
use revdev.Base.Strings.{Text}
use revdev.Base.Number.{Number, is_finite}
use revdev.Base.Tests.{if◌then◌else◌}

-- `other` is null, an array or an object.
pub data Param : Type 0 where
  undefined other : Param
  number : Number → Param
  string : Text → Param
  boolean : Bool → Param

-- `str(v)`
unfoldable pub str : Param → Text
str (string s) = s
str _ = []

-- `strOrNull(v)`
unfoldable pub str_or_null : Param → Option Text
str_or_null (string s) = some s
str_or_null _ = none

-- `num(v, fallback)`
unfoldable pub num : Param → Number → Number
unfolding is_finite
num (number x) fallback = if is_finite x then x else fallback
num _ fallback = fallback

-- `v === undefined ? undefined : num(v, fallback)`
unfoldable pub num_or_undefined : Param → Number → Option Number
unfolding num
num_or_undefined undefined fallback = none
num_or_undefined p fallback = some (num p fallback)
