-- ===== src/Permission/Budget.antt =====
-- How often a grant with counted uses of packages/daemon/src/permission.ts lets a call pass.
use revdev.Base.{
  Text, text_eq, ℕ, ◌+◌, ◌-◌, ◌≤◌, ◌≡◌, refl, ap, ◌∙◌, sym, subst, Bool, true, false, Option, none,
  some, ◌&&◌, arith, leb, if◌then◌else◌,
}
use mathlib.Core.Option
use revdev.Permission.Paths.{CallParams}
use revdev.Permission.Tables.{PermissionGrantRow, Db, is_active, expired}
use revdev.Permission.Grants.{expire_grants, is_usable, spend_use}
use revdev.Base.Rows.{row_at-update_where, updated, key_of_row, row_of_key}
use revdev.Permission.Uses.{grant_id, find_grant, used_once}
use revdev.Permission.Allowance.{Allows, swept_grants}

-- The grant with an identifier has a number of uses left.
pub record Left (k : Text) (db : Db) (n : ℕ) : Type 0 where
  pub row : PermissionGrantRow
  pub found : find_grant k db ≡ some row
  pub uses : row.uses_remaining ≡ some n

-- 1 where the call passed by the grant `k`.
abbrev pub hit_of : Text → Option Text → ℕ
hit_of k none = 0
hit_of k (some id) = if text_eq k id then 1 else 0

pub sweep-Left :
    (now : ℕ) (k : Text) (db : Db) (n : ℕ) → Left k db n → Left k (swept_grants now db) n
unfolding expire_grants
sweep-Left now k db n l = record {
  row =
      updated (λ g. is_active g.status && leb g.expires_at now) (λ g. record g { status = expired })
        l.row;
  found =
      row_at-update_where grant_id k _ (λ g. record g { status = expired }) db.grants (λ g. refl)
      ∙ ap
          (Option.map (
            updated (λ g. is_active g.status && leb g.expires_at now)
              λ g. record g { status = expired }))
          l.found;
  uses = same_uses l.row l.uses;
}
  where
    same_uses :
        (r : PermissionGrantRow)
        → r.uses_remaining ≡ some n
        → (updated
            (λ g. is_active g.status && leb g.expires_at now)
            (λ g. record g { status = expired })
            r).uses_remaining
          ≡ some n
    same_uses r e = ground arith

spend_use-uses_remaining :
    (r : PermissionGrantRow) (n : ℕ)
    → r.uses_remaining ≡ some n
    → (spend_use r).uses_remaining ≡ some (n - 1)
unfolding spend_use
spend_use-uses_remaining r n e = ground arith

counted_has_uses :
    (now : ℕ) (agent : Text) (r : PermissionGrantRow) (n : ℕ)
    → is_usable agent now r ≡ true
    → r.uses_remaining ≡ some n
    → 1 ≤ n
unfolding is_usable
counted_has_uses now agent r n h e = ground arith

-- The uses left, and the uses that a call takes, are the uses left before.
pub Allows-Left :
    (now : ℕ) (agent method : Text) (params : Option CallParams) (id k : Text) (db db' : Db) (n : ℕ)
    → Allows now agent method params id db db'
    → Left k db n
    → (m : ℕ) × Left k db' m × (m + hit_of k (some id) ≡ n)
Allows-Left now agent method params id k db db' n a l = by_key (text_eq l.row.id a.row.id) refl
  where
    key : l.row.id ≡ k
    key = key_of_row grant_id k l.row db.grants l.found

    same_test : (b : Bool) → text_eq l.row.id a.row.id ≡ b → text_eq k id ≡ b
    same_test b e =
        subst (λ x. text_eq x id ≡ b) key (subst (λ x. text_eq l.row.id x ≡ b) a.named e)

    found_after : find_grant k db' ≡ some (used_once a.row.id l.row)
    found_after = a.spends.rows k l.row l.found

    by_key :
        (b : Bool)
        → text_eq l.row.id a.row.id ≡ b
        → (m : ℕ) × Left k db' m × (m + hit_of k (some id) ≡ n)
    by_key true e =
        let same : l.row ≡ a.row =
          row_of_key grant_id k a.row.id l.row a.row db.grants l.found a.found e in
        let some_left : 1 ≤ n =
          counted_has_uses now agent l.row n
            (subst (λ r. is_usable agent now r ≡ true) (sym same) a.usable) l.uses in
        (
          n - 1,
          record {
            row = spend_use l.row;
            found = found_after ∙ rw e refl;
            uses = spend_use-uses_remaining l.row n l.uses;
          },
          rw (same_test true e) (omega (arith, some_left)),
        )
    by_key false e = (
      n,
      record { row = l.row; found = found_after ∙ rw e refl; uses = l.uses },
      rw (same_test false e) (omega arith),
    )
