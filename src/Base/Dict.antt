-- ===== src/Base/Dict.antt =====
-- A JavaScript `Map` with string keys, and a database table with a primary key: the entries in
-- order of insertion.
use mathlib.Core.Path.{◌≡◌, refl}
use mathlib.Core.Option.{Option, none, some}
use mathlib.Core.List.{List, [], ◌∷◌}
use native.Mathlib.Omega.{arith}
use revdev.Base.Tests.{if◌then◌else◌}
use revdev.Base.Strings.{Text, text_eq, text_eq_iff}

abbrev pub Dict {ℓ} : Type ℓ → Type ℓ
Dict V = List (Text × V)

module _ {ℓ} {V : Type ℓ} where
  -- `map.get(k)`
  unfoldable pub get : Dict V → Text → Option V
  get [] k = none
  get ((j, v) ∷ m) k = if text_eq j k then some v else get m k

  -- `map.set(k, v)`: a present key keeps its place.
  unfoldable pub put : Dict V → Text → V → Dict V
  put [] k v = (k, v) ∷ []
  put ((j, w) ∷ m) k v = if text_eq j k then (j, v) ∷ m else (j, w) ∷ put m k v

  -- `map.delete(k)`
  unfoldable pub remove : Dict V → Text → Dict V
  remove [] k = []
  remove ((j, w) ∷ m) k = let rest = remove m k in if text_eq j k then rest else (j, w) ∷ rest

  pub get-put :
      (m : Dict V) (k j : Text) (v : V)
      → get (put m k v) j ≡ (if text_eq k j then some v else get m j)
  unfolding get put
  get-put [] k j v = refl
  get-put ((i, w) ∷ m) k j v =
      ground (arith, text_eq_iff k j, text_eq_iff i k, text_eq_iff i j, get-put m k j v)

  pub get-remove :
      (m : Dict V) (k j : Text) → get (remove m k) j ≡ (if text_eq k j then none else get m j)
  unfolding get remove
  get-remove [] k j = ground arith
  get-remove ((i, w) ∷ m) k j =
      ground (arith, text_eq_iff k j, text_eq_iff i k, text_eq_iff i j, get-remove m k j)

pub ruleset dict_laws = (get-put, get-remove)

module _ {ℓ} {V : Type ℓ} where
  -- No key twice, which `put` and `remove` keep.
  abbrev pub HasDistinctKeys : Dict V → Type ℓ
  HasDistinctKeys [] = Unit
  HasDistinctKeys ((k, v) ∷ m) = (get m k ≡ none) × HasDistinctKeys m

  pub put-HasDistinctKeys :
      (m : Dict V) (k : Text) (v : V) → HasDistinctKeys m → HasDistinctKeys (put m k v)
  unfolding put
  put-HasDistinctKeys [] k v h = (unfold get in refl, tt)
  put-HasDistinctKeys ((i, w) ∷ m) k v h =
      ground
        (arith, text_eq_iff i k, text_eq_iff k i, get-put m k i v, put-HasDistinctKeys m k v h.1)
