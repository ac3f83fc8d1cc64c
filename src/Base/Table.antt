-- ===== src/Base/Table.antt =====
-- Statements on a database table, which is the list of its rows in order of insertion.
use Prim.Native.Nat.{ℕ}
use mathlib.Core.Bool.{Bool}
use mathlib.Core.Option.{Option, none, some}
use mathlib.Core.List.{List, [], ◌∷◌}
use revdev.Base.Tests.{leb, if◌then◌else◌}

-- UPDATE … SET … WHERE …
unfoldable pub update_where {ℓ} : {A : Type ℓ} → (A → Bool) → (A → A) → List A → List A
update_where test set [] = []
update_where test set (row ∷ rows) =
    (if test row then set row else row) ∷ update_where test set rows

-- The first row of a SELECT.
unfoldable pub first_where {ℓ} : {A : Type ℓ} → (A → Bool) → List A → Option A
first_where test [] = none
first_where test (row ∷ rows) = if test row then some row else first_where test rows

-- ORDER BY a number, ascending; rows with the same number stay in the order of insertion.
unfoldable pub insert_by {ℓ} : {A : Type ℓ} → (A → ℕ) → A → List A → List A
insert_by key row [] = row ∷ []
insert_by key row (other ∷ rows) =
    if leb (key row) (key other) then row ∷ other ∷ rows else other ∷ insert_by key row rows

unfoldable pub order_by {ℓ} : {A : Type ℓ} → (A → ℕ) → List A → List A
unfolding insert_by
order_by key [] = []
order_by key (row ∷ rows) = insert_by key row (order_by key rows)
