-- ===== src/Permission/Uses.antt =====
-- What a grant of packages/daemon/src/permission.ts allows, and what one use of it does to its row.
use revdev.Base.{
  Text, text_eq, text_eq_refl, ℕ, ◌≡◌, refl, ap, ◌∙◌, sym, subst, inl, inr, true, Bool-cases,
  Option, none, some, arith, if◌then◌else◌,
}
use mathlib.Core.Option
use revdev.Base.Table.{update_where, first_where}
use revdev.Permission.Tables.{PermissionGrantRow, Db, log_event, grant_allowed}
use revdev.Permission.Grants.{is_usable, spend_use, is_spendable, use_grant}
use revdev.Base.Rows.{
  row_at, HasUniqueIds, row_at-update_where, update_where-HasUniqueIds, updated, row_of_key,
}

abbrev pub grant_id : PermissionGrantRow → Text
grant_id g = g.id

abbrev pub find_grant : Text → Db → Option PermissionGrantRow
find_grant k db = row_at grant_id k db.grants

abbrev pub HasUniqueGrants : Db → Type 0
HasUniqueGrants db = HasUniqueIds grant_id db.grants

pub spend_use_id : (g : PermissionGrantRow) → (spend_use g).id ≡ g.id
unfolding spend_use
spend_use_id g = ground arith

-- The row of a table where the grant `id` was used once.
abbrev pub used_once : Text → PermissionGrantRow → PermissionGrantRow
used_once id r = if text_eq r.id id then spend_use r else r

-- What the use of a grant does to the table.
pub record Spends (id : Text) (db db' : Db) : Type 0 where
  pub unique : HasUniqueGrants db'
  pub rows :
      (k : Text) (r : PermissionGrantRow)
      → find_grant k db ≡ some r
      → find_grant k db' ≡ some (used_once id r)

uncounted_once :
    (row r : PermissionGrantRow)
    → row.uses_remaining ≡ none
    → (text_eq r.id row.id ≡ true → r ≡ row)
    → used_once row.id r ≡ r
unfolding spend_use
uncounted_once row r free same = elim (Bool-cases (text_eq r.id row.id)) [
  | inl hit ↦ rw (hit, same hit, free) refl
  | inr miss ↦ rw miss refl
]

spendable_once :
    (now : ℕ) (agent : Text) (n : ℕ) (row r : PermissionGrantRow)
    → row.uses_remaining ≡ some n
    → is_usable agent now row ≡ true
    → (text_eq r.id row.id ≡ true → r ≡ row)
    → updated (is_spendable row.id) spend_use r ≡ used_once row.id r
unfolding is_spendable is_usable
spendable_once now agent n row r counted usable same = elim (Bool-cases (text_eq r.id row.id)) [
  | inl hit ↦
      subst (λ x. updated (is_spendable row.id) spend_use x ≡ used_once row.id x) (sym (same hit))
        (ground (arith, text_eq_refl row.id))
  | inr miss ↦ ground arith
]

pub some_value : {A : Type 0} (x y : A) → some x ≡ some y → x ≡ y
some_value x y h = ground arith

free_use :
    (agent method : Text) (row : PermissionGrantRow) (db db' : Db)
    → row.uses_remaining ≡ none
    → use_grant agent method row db ≡ some db'
    → db.grants ≡ db'.grants
unfolding use_grant log_event
free_use agent method row db db' free e = ap (λ d. d.grants) (some_value _ db' (sym step ∙ e))
  where
    step : use_grant agent method row db ≡ some (log_event (grant_allowed agent row.id method) db)
    step = rw (use_grant, free) refl

counted_use :
    (agent method : Text) (n : ℕ) (row : PermissionGrantRow) (db db' : Db)
    → row.uses_remaining ≡ some n
    → use_grant agent method row db ≡ some db'
    → update_where (is_spendable row.id) spend_use db.grants ≡ db'.grants
unfolding use_grant log_event
counted_use agent method n row db db' counted e =
    by_hit (first_where (is_spendable row.id) db.grants) refl
  where
    by_hit :
        (hit : Option PermissionGrantRow)
        → first_where (is_spendable row.id) db.grants ≡ hit
        → update_where (is_spendable row.id) spend_use db.grants ≡ db'.grants
    by_hit none h = absurd (no_db (sym (rw (use_grant, counted, h) refl) ∙ e))
      where
        no_db : none ≡ some db' → ⊥
        no_db x = cc
    by_hit (some g) h =
        ap (λ d. d.grants) (some_value (spent_db h) db' (sym (rw (use_grant, counted, h) refl) ∙ e))
      where
        spent_db : first_where (is_spendable row.id) db.grants ≡ some g → Db
        spent_db x =
            log_event (grant_allowed agent row.id method)
              (record db { grants = update_where (is_spendable row.id) spend_use db.grants })

pub use_grant-Spends :
    (now : ℕ) (agent method : Text) (row : PermissionGrantRow) (db db' : Db)
    → HasUniqueGrants db
    → find_grant row.id db ≡ some row
    → is_usable agent now row ≡ true
    → use_grant agent method row db ≡ some db'
    → Spends row.id db db'
unfolding use_grant log_event
use_grant-Spends now agent method row db db' u found usable e = by_uses row.uses_remaining refl
  where
    same_row :
        (k : Text) (r : PermissionGrantRow)
        → find_grant k db ≡ some r
        → text_eq r.id row.id ≡ true
        → r ≡ row
    same_row k r found_r hit = row_of_key grant_id k row.id r row db.grants found_r found hit

    by_uses : (uses : Option ℕ) → row.uses_remaining ≡ uses → Spends row.id db db'
    by_uses none free = record {
      unique = subst (HasUniqueIds grant_id) (free_use agent method row db db' free e) u;
      rows = λ k r found_r.
          subst (λ rows. row_at grant_id k rows ≡ some (used_once row.id r))
            (free_use agent method row db db' free e)
            (found_r ∙ ap some (sym (uncounted_once row r free (same_row k r found_r))));
    }
    by_uses (some n) counted = record {
      unique = subst (HasUniqueIds grant_id) (counted_use agent method n row db db' counted e) (
          update_where-HasUniqueIds grant_id (is_spendable row.id) spend_use db.grants spend_use_id
            u);
      rows = λ k r found_r.
          subst (λ rows. row_at grant_id k rows ≡ some (used_once row.id r))
            (counted_use agent method n row db db' counted e)
            (row_at-update_where grant_id k (is_spendable row.id) spend_use db.grants spend_use_id
              ∙ ap (Option.map (updated (is_spendable row.id) spend_use)) found_r
              ∙ ap some (spendable_once now agent n row r counted usable (same_row k r found_r)));
    }
