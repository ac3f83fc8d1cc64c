-- ===== src/Base/Rows.antt =====
-- Tables with a primary key: what UPDATE and INSERT do to the row under a key, and predicates on
-- all rows. `id` is the key's column.
use Prim.Native.Nat.{ℕ}
use mathlib.Core.Path.{◌≡◌, refl, ◌∙◌, subst, sym}
use mathlib.Core.Logic.{inl, inr}
use mathlib.Core.Bool.{Bool, true, false}
use mathlib.Core.Option.{Option, none, some}
use mathlib.Core.List.{List, [], ◌∷◌, ◌++◌, reverse}
use native.Mathlib.Omega.{arith}
use revdev.Base.Tests.{Bool-cases, if◌then◌else◌}
use revdev.Base.Lists.{keep, All, All-append, All-map_imp, any}
use revdev.Base.Strings.{Text, text_eq, text_eq_iff, text_eq_refl}
use mathlib.Core.Option
use mathlib.Core.List.{reverse_aux}
use revdev.Base.Table.{update_where, first_where, insert_by, order_by}

-- What an UPDATE makes of a row.
abbrev pub updated {ℓ} : {A : Type ℓ} → (A → Bool) → (A → A) → A → A
updated test set a = if test a then set a else a

pub All-update_where {ℓ κ μ} :
    {A : Type ℓ} (P : A → Type κ) (Q : A → Type μ) (test : A → Bool) (set : A → A) (rows : List A)
    → ((a : A) → P a → Q (updated test set a))
    → All P rows
    → All Q (update_where test set rows)
unfolding update_where
All-update_where P Q test set [] keeps h = tt
All-update_where P Q test set (a ∷ rows) keeps (p, h) =
    (keeps a p, All-update_where P Q test set rows keeps h)

pub All-unit {ℓ} : {A : Type ℓ} (rows : List A) → All (λ _. Unit {0}) rows
All-unit [] = tt
All-unit (a ∷ rows) = (tt, All-unit rows)

module _ {ℓ κ} {A : Type ℓ} (P : A → Type κ) where
  pub All-keep : (test : A → Bool) (rows : List A) → All P rows → All P (keep test rows)
  All-keep test [] h = tt
  All-keep test (a ∷ rows) (p, h) = ground (arith, All-keep test rows h)

  All-insert_by :
      (key : A → ℕ) (a : A) (rows : List A) → P a → All P rows → All P (insert_by key a rows)
  unfolding insert_by
  All-insert_by key a [] p h = (p, tt)
  All-insert_by key a (b ∷ rows) p (q, h) = ground (arith, All-insert_by key a rows p h)

  pub All-order_by : (key : A → ℕ) (rows : List A) → All P rows → All P (order_by key rows)
  unfolding order_by
  All-order_by key [] h = tt
  All-order_by key (a ∷ rows) (p, h) =
      All-insert_by key a (order_by key rows) p (All-order_by key rows h)

  All-reverse_aux : (rows out : List A) → All P rows → All P out → All P (reverse_aux rows out)
  All-reverse_aux [] out h k = k
  All-reverse_aux (a ∷ rows) out (p, h) k = All-reverse_aux rows (a ∷ out) h (p, k)

  pub All-reverse : (rows : List A) → All P rows → All P (reverse rows)
  All-reverse rows h = All-reverse_aux rows [] h tt

  pub first_of_All :
      (test : A → Bool) (rows : List A) (a : A)
      → All P rows
      → first_where test rows ≡ some a
      → P a × (test a ≡ true)
  unfolding first_where
  first_of_All test [] a h e = cc
  first_of_All test (b ∷ rows) a (p, h) e = elim (Bool-cases (test b)) [
    | inl hit ↦ let same : b ≡ a = ground arith in (subst P same p, rw (← same) hit)
    | inr miss ↦ first_of_All test rows a h (ground arith)
  ]

module _ {ℓ} {A : Type ℓ} (id : A → Text) where
  abbrev pub row_at : Text → List A → Option A
  row_at k rows = first_where (λ a. text_eq (id a) k) rows

  pub row_at-update_where :
      (k : Text) (test : A → Bool) (set : A → A) (rows : List A)
      → ((a : A) → id (set a) ≡ id a)
      → row_at k (update_where test set rows) ≡ Option.map (updated test set) (row_at k rows)
  unfolding update_where first_where
  row_at-update_where k test set [] same = refl
  row_at-update_where k test set (a ∷ rows) same =
      ground (arith, same a, row_at-update_where k test set rows same)

  pub row_at-append :
      (k : Text) (rows : List A) (a : A)
      → row_at k (rows ++ a ∷ []) ≡ (elim (row_at k rows) [
        | none ↦ if text_eq (id a) k then some a else none
        | some b ↦ some b
      ])
  unfolding first_where
  row_at-append k [] a = refl
  row_at-append k (b ∷ rows) a = ground (arith, row_at-append k rows a)

  pub key_of_row : (k : Text) (r : A) (rows : List A) → row_at k rows ≡ some r → id r ≡ k
  key_of_row k r rows found =
      (text_eq_iff (id r) k).0
        (first_of_All (λ _. Unit {0}) (λ a. text_eq (id a) k) rows r (All-unit rows) found).1

  -- Two finds are one row where the row of the first has the key of the second.
  pub row_of_key :
      (k i : Text) (r a : A) (rows : List A)
      → row_at k rows ≡ some r
      → row_at i rows ≡ some a
      → text_eq (id r) i ≡ true
      → r ≡ a
  row_of_key k i r a rows found_r found_a same =
      let keys : k ≡ i = sym (key_of_row k r rows found_r) ∙ (text_eq_iff (id r) i).0 same in
      let found : row_at i rows ≡ some r = subst (λ x. row_at x rows ≡ some r) keys found_r in
      cc (found, found_a)

  pub row_at-append_old :
      (k : Text) (rows : List A) (a b : A)
      → row_at k rows ≡ some b
      → row_at k (rows ++ a ∷ []) ≡ some b
  row_at-append_old k rows a b found = ground (arith, row_at-append k rows a)

  pub row_at-append_new :
      (rows : List A) (a : A) → row_at (id a) rows ≡ none → row_at (id a) (rows ++ a ∷ []) ≡ some a
  row_at-append_new rows a new = ground (arith, row_at-append (id a) rows a, text_eq_refl (id a))

  -- Each row is the one that its key finds.
  abbrev pub HasUniqueIds : List A → Type ℓ
  HasUniqueIds rows = All (λ a. row_at (id a) rows ≡ some a) rows

  pub update_where-HasUniqueIds :
      (test : A → Bool) (set : A → A) (rows : List A)
      → ((a : A) → id (set a) ≡ id a)
      → HasUniqueIds rows
      → HasUniqueIds (update_where test set rows)
  update_where-HasUniqueIds test set rows same =
      All-update_where _ _ test set rows
        λ a found. rw (same_id a, row_at-update_where (id a) test set rows same, found) refl
    where
      same_id : (a : A) → id (updated test set a) ≡ id a
      same_id a = ground (arith, same a)

  pub append-HasUniqueIds :
      (rows : List A) (a : A)
      → row_at (id a) rows ≡ none
      → HasUniqueIds rows
      → HasUniqueIds (rows ++ a ∷ [])
  append-HasUniqueIds rows a new h =
      All-append rows (a ∷ []) _ (row_at-append_new rows a new, tt)
        (All-map_imp _ _ rows (λ b found. row_at-append_old (id b) rows a b found) h)

  -- A key that the check of an INSERT does not find has no row.
  pub row_at-none :
      (k : Text) (rows : List A) → any (λ a. text_eq (id a) k) rows ≡ false → row_at k rows ≡ none
  unfolding first_where
  row_at-none k [] h = refl
  row_at-none k (a ∷ rows) h = ground (arith, row_at-none k rows)
