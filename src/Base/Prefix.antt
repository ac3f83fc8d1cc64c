-- ===== src/Base/Prefix.antt =====
-- What stands behind a prefix: `s.startsWith(p)`, and then `s.slice(p.length)`.
use mathlib.Core.Path.{◌≡◌, refl}
use mathlib.Core.Option.{Option, none, some}
use mathlib.Core.List.{[], ◌∷◌, ◌++◌}
use native.Mathlib.Omega.{arith}
use revdev.Base.Tests.{◌==◌, if◌then◌else◌}
use revdev.Base.Strings.{Text}

unfoldable pub strip_prefix : Text → Text → Option Text
strip_prefix [] s = some s
strip_prefix (p ∷ ps) [] = none
strip_prefix (p ∷ ps) (c ∷ s) = let rest = strip_prefix ps s in if p == c then rest else none

pub strip_prefix-append : (p s : Text) → strip_prefix p (p ++ s) ≡ some s
unfolding strip_prefix
strip_prefix-append [] s = refl
strip_prefix-append (c ∷ p) s = ground (arith, strip_prefix-append p s)

pub strip_prefix_found : (p s t : Text) → strip_prefix p s ≡ some t → s ≡ p ++ t
unfolding strip_prefix
strip_prefix_found [] s t h = ground arith
strip_prefix_found (c ∷ p) [] t h = cc
strip_prefix_found (c ∷ p) (d ∷ s) t h = ground (arith, strip_prefix_found p s t)
