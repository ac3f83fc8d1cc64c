-- ===== src/Permission/GrantHistory.antt =====
-- Histories of the calls on grants of packages/daemon/src/permission.ts.
use revdev.Base.{
  Text, text_eq, ℕ, ◌+◌, ◌≡◌, refl, ap, ◌∙◌, sym, subst, inl, inr, Bool, true, false, Option, none,
  some, List, [], ◌∷◌, ◌++◌, any, arith,
}
use mathlib.Core.Option
use revdev.Base.Result.{ok, err, Result-cases}
use revdev.Permission.Paths.{CallParams}
use revdev.Base.Table.{update_where}
use revdev.Permission.Tables.{PermissionGrantRow, Db, revoked}
use revdev.Permission.Grants.{
  try_consume_grant, list_grants, revoke_grant, issue_grant, IssueGrantInput,
}
use revdev.Base.Rows.{HasUniqueIds, row_at, row_at-update_where, updated}
use revdev.Permission.Uses.{grant_id, HasUniqueGrants}
use revdev.Permission.Allowance.{swept_grants, expire_grants-HasUniqueIds, try_consume_grant-cases}
use revdev.Base.Rows.{
  update_where-HasUniqueIds, append-HasUniqueIds, row_at-none, row_at-append_old,
}
use revdev.Permission.Issuing.{Issued, issue_grant-Issued, revoke_grant_rows}
use revdev.Permission.Budget.{Left, hit_of, sweep-Left, Allows-Left}

-- A call of the gate that looks for a grant: its time, agent, method and params.
pub record GrantUse : Type 0 where
  pub now : ℕ
  pub agent : Text
  pub method : Text
  pub params : Option CallParams

-- The calls that write grants.
pub data GrantCall : Type 0 where
  spends : GrantUse → GrantCall
  revokes : ℕ → Text → Text → GrantCall
  issues : ℕ → Text → IssueGrantInput → GrantCall
  lists : ℕ → GrantCall

-- The tables after a call, and the grant that let it pass.
unfoldable pub grant_step : GrantCall → Db → Option Text × Db
grant_step (spends c) db = try_consume_grant c.now c.agent c.method c.params db
grant_step (revokes now id operator) db = elim (revoke_grant now id operator db) [
  | ok db' ↦ (none, db')
  | err e ↦ (none, db)
]
grant_step (issues now fresh input) db = elim (issue_grant now fresh input db) [
  | ok out ↦ (none, out.1)
  | err e ↦ (none, db)
]
grant_step (lists now) db = (none, (list_grants now none true db).1)

unfoldable pub grant_steps : List GrantCall → Db → Db
unfolding grant_step
grant_steps [] db = db
grant_steps (c ∷ cs) db = grant_steps cs (grant_step c db).1

-- How many of the calls the grant `k` let pass.
unfoldable pub hits : Text → List GrantCall → Db → ℕ
unfolding grant_step
hits k [] db = 0
hits k (c ∷ cs) db = hit_of k (grant_step c db).0 + hits k cs (grant_step c db).1

-- The tables after a call, with the uses of the grant `k` that are left.
record Steps (k : Text) (hit : ℕ) (db db' : Db) : Type 0 where
  pub unique : HasUniqueGrants db'
  pub left : (n : ℕ) → Left k db n → (m : ℕ) × Left k db' m × (m + hit ≡ n)

keeps : (k : Text) (db : Db) → HasUniqueGrants db → Steps k 0 db db
keeps k db u = record { unique = u; left = λ n l. (n, l, omega arith) }

appended :
    (k : Text) (row : PermissionGrantRow) (db db' : Db)
    → HasUniqueGrants db
    → any (λ g. text_eq g.id row.id) db.grants ≡ false
    → db'.grants ≡ db.grants ++ row ∷ []
    → Steps k 0 db db'
appended k row db db' u new rows = record {
  unique =
      subst (HasUniqueIds grant_id) (sym rows)
        (append-HasUniqueIds grant_id db.grants row (row_at-none grant_id row.id db.grants new) u);
  left = λ n l. (
    n,
    record {
      row = l.row;
      found =
          subst (λ r. row_at grant_id k r ≡ some l.row) (sym rows)
            (row_at-append_old grant_id k db.grants row l.row l.found);
      uses = l.uses;
    },
    omega arith,
  );
}

revoked_Left :
    (now n : ℕ) (test : PermissionGrantRow → Bool) (r : PermissionGrantRow)
    → r.uses_remaining ≡ some n
    → (updated test (λ g. record g { status = revoked; revoked_at = some now }) r).uses_remaining
      ≡ some n
revoked_Left now n test r e = ground arith

revokes_rows :
    (now : ℕ) (k : Text) (test : PermissionGrantRow → Bool) (db db' : Db)
    → HasUniqueGrants db
    → db'.grants
      ≡ update_where test (λ g. record g { status = revoked; revoked_at = some now }) db.grants
    → Steps k 0 db db'
revokes_rows now k test db db' u rows = record {
  unique =
      subst (HasUniqueIds grant_id) (sym rows)
        (update_where-HasUniqueIds grant_id test set db.grants (λ g. refl) u);
  left = λ n l. (
    n,
    record {
      row = updated test set l.row;
      found =
          subst (λ r. row_at grant_id k r ≡ some (updated test set l.row)) (sym rows)
            (row_at-update_where grant_id k test set db.grants (λ g. refl)
              ∙ ap (Option.map (updated test set)) l.found);
      uses = revoked_Left now n test l.row l.uses;
    },
    omega arith,
  );
}
  where
    set : PermissionGrantRow → PermissionGrantRow
    set g = record g { status = revoked; revoked_at = some now }

sweep-Steps :
    (now : ℕ) (k : Text) (db : Db) → HasUniqueGrants db → Steps k 0 db (swept_grants now db)
sweep-Steps now k db u = record {
  unique = expire_grants-HasUniqueIds now db u;
  left = λ n l. (n, sweep-Left now k db n l, omega arith);
}

spend-Steps :
    (c : GrantUse) (k : Text) (db : Db)
    → HasUniqueGrants db
    → (out : Option Text × Db) × (try_consume_grant c.now c.agent c.method c.params db ≡ out)
      × Steps k (hit_of k out.0) db out.1
spend-Steps c k db u = elim (try_consume_grant-cases c.now c.agent c.method c.params db u) [
  | inl nothing ↦ (_, nothing, sweep-Steps c.now k db u)
  | inr (id, db', e, a) ↦ (
    (some id, db'),
    e,
    record {
      unique = a.spends.unique;
      left = λ n l.
          Allows-Left c.now c.agent c.method c.params id k (swept_grants c.now db) db' n a
            (sweep-Left c.now k db n l);
    },
  )
]

grant_step-Steps :
    (c : GrantCall) (k : Text) (db : Db)
    → HasUniqueGrants db
    → Steps k (hit_of k (grant_step c db).0) db (grant_step c db).1
unfolding grant_step list_grants
grant_step-Steps (spends c) k db u =
    let (out, e, s) = spend-Steps c k db u in subst (λ o. Steps k (hit_of k o.0) db o.1) (sym e) s
grant_step-Steps (revokes now id operator) k db u =
    elim (Result-cases (revoke_grant now id operator db)) [
      | inl (db', e) ↦
          rw (grant_step, e)
            (revokes_rows now k _ db db' u (revoke_grant_rows now id operator db db' e))
      | inr (thrown, e) ↦ rw (grant_step, e) (keeps k db u)
    ]
grant_step-Steps (issues now fresh input) k db u =
    elim (Result-cases (issue_grant now fresh input db)) [
      | inl (out, e) ↦
          let i : Issued now fresh input db out.0 out.1 =
            issue_grant-Issued now fresh input db out e in
          rw (grant_step, e)
            (appended k out.0 db out.1 u
              (subst (λ x. any (λ g. text_eq g.id x) db.grants ≡ false) (sym i.fresh_id) i.is_new)
              i.rows)
      | inr (thrown, e) ↦ rw (grant_step, e) (keeps k db u)
    ]
grant_step-Steps (lists now) k db u = sweep-Steps now k db u

-- A grant with `n` uses left lets at most `n` calls pass: whatever calls follow, the calls that it let
-- pass and the uses that it has left are `n` together.
pub hits-Left :
    (calls : List GrantCall) (k : Text) (db : Db) (n : ℕ)
    → HasUniqueGrants db
    → Left k db n
    → (m : ℕ) × Left k (grant_steps calls db) m × (m + hits k calls db ≡ n)
unfolding grant_steps hits
hits-Left [] k db n u l = (n, l, omega arith)
hits-Left (c ∷ calls) k db n u l =
    let s : Steps k (hit_of k (grant_step c db).0) db (grant_step c db).1 =
      grant_step-Steps c k db u in
    let (m, here, taken) = s.left n l in
    let (j, later, rest) = hits-Left calls k (grant_step c db).1 m s.unique here in
    (j, later, omega (arith, taken, rest))
