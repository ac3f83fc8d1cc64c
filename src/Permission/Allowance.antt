-- ===== src/Permission/Allowance.antt =====
-- The search for a grant of packages/daemon/src/permission.ts that lets a call pass.
use revdev.Base.{
  Text, txt, text_eq, any, ◌||◌, text_eq_iff, any-Mem, ℕ, ◌<◌, ◌≢◌, ◌≡◌, refl, ◌∙◌, sym, subst, ◌⊎◌,
  inl, inr, Bool, true, false, Bool-cases, Option, none, some, List, [], ◌∷◌, ◌&&◌, keep, All,
  arith,
}
use mathlib.Core.List.{Mem}
use revdev.Permission.Methods.{ActionClass, critical, consequential, routine, classify_method}
use revdev.Permission.Paths.{CallParams, grant_root_matches}
use revdev.Base.Table.{order_by}
use revdev.Permission.Tables.{PermissionGrantRow, Db, expired, active, is_active}
use revdev.Permission.Grants.{
  grant_covers_method, expire_grants, is_usable, use_grant, use_first, try_consume_grant,
}
use revdev.Base.Rows.{update_where-HasUniqueIds, All-order_by}
use revdev.Permission.Uses.{
  grant_id, find_grant, HasUniqueGrants, Spends, some_value, use_grant-Spends,
}

-- The grant names the method, or the class of a consequential method, or the method is routine.
abbrev pub Covered : PermissionGrantRow → Text → Type 0
Covered row method =
    Mem method row.methods
    ⊎ (((classify_method method ≡ consequential) × Mem (txt "consequential") row.classes)
        ⊎ (classify_method method ≡ routine))

either : (a b : Bool) → a || b ≡ true → (a ≡ true) ⊎ (b ≡ true)
either true b h = inl refl
either false b h = inr h

grant_covers_method-Covered :
    (row : PermissionGrantRow) (method : Text)
    → grant_covers_method row.classes row.methods method (classify_method method) ≡ true
    → Covered row method
unfolding grant_covers_method
grant_covers_method-Covered row method h = by_class (classify_method method) refl h
  where
    by_class :
        (c : ActionClass)
        → classify_method method ≡ c
        → grant_covers_method row.classes row.methods method c ≡ true
        → Covered row method
    by_class critical e h = inl (any-Mem method row.methods h)
    by_class consequential e h =
        elim (either (any (text_eq (txt "consequential")) row.classes) _ h) [
          | inl by_its_class ↦ inr (inl (e, any-Mem (txt "consequential") row.classes by_its_class))
          | inr by_its_name ↦ inl (any-Mem method row.methods by_its_name)
        ]
    by_class routine e h = inr (inr e)

-- What the WHERE of the SELECT tells of a grant.
usable_row :
    (agent : Text) (now : ℕ) (g : PermissionGrantRow)
    → is_usable agent now g ≡ true
    → (g.grantee_agent_id ≡ agent)
      × (g.status ≡ active)
      × (now < g.expires_at)
      × (g.uses_remaining ≢ some 0)
unfolding is_usable is_active
usable_row agent now g h = (
  ground (arith, text_eq_iff g.grantee_agent_id agent),
  ground arith,
  ground arith,
  λ e. ground arith,
)

-- What the gate may rely on where a grant let a call pass.
pub record Allows (now : ℕ) (agent method : Text) (params : Option CallParams) (id : Text)
    (db db' : Db) : Type 0 where
  pub row : PermissionGrantRow
  pub named : row.id ≡ id
  pub found : find_grant row.id db ≡ some row
  pub usable : is_usable agent now row ≡ true
  pub grantee : row.grantee_agent_id ≡ agent
  pub is_live : row.status ≡ active
  pub in_time : now < row.expires_at
  pub has_left : row.uses_remaining ≢ some 0
  pub covers : grant_covers_method row.classes row.methods method (classify_method method) ≡ true
  pub covered : Covered row method
  pub in_scope : grant_root_matches row.root_scope params ≡ true
  pub spends : Spends row.id db db'

unfoldable pub Candidate : ℕ → Text → Db → PermissionGrantRow → Type 0
Candidate now agent db g = (is_usable agent now g ≡ true) × (find_grant g.id db ≡ some g)

pub use_first-Allows :
    (now : ℕ) (agent method : Text) (params : Option CallParams) (rows : List PermissionGrantRow)
    (db : Db) (out : Text × Db)
    → HasUniqueGrants db
    → All (Candidate now agent db) rows
    → use_first agent method params rows db ≡ some out
    → Allows now agent method params out.0 db out.1
unfolding use_first Candidate
use_first-Allows now agent method params [] db out u h e = absurd (no_out e)
  where
    no_out : none ≡ some out → ⊥
    no_out x = cc
use_first-Allows now agent method params (row ∷ rows) db out u ((usable, found), h) e =
    elim (Bool-cases fit) [
      | inl fits ↦
          by_use (λ later. use_first-Allows now agent method params rows db out u h later)
            (use_grant agent method row db) refl fits
      | inr misses ↦
          use_first-Allows now agent method params rows db out u h
            (sym (rw (use_first, misses) refl) ∙ e)
    ]
  where
    fit : Bool
    fit =
        grant_covers_method row.classes row.methods method (classify_method method)
        && grant_root_matches row.root_scope params

    by_use :
        (use_first agent method params rows db ≡ some out
          → Allows now agent method params out.0 db out.1)
        → (used : Option Db) → use_grant agent method row db ≡ used
        → fit ≡ true
        → Allows now agent method params out.0 db out.1
    by_use later none skipped fits = later (sym (rw (use_first, fits, skipped) refl) ∙ e)
    by_use later (some db') hit fits =
        subst (λ o. Allows now agent method params o.0 db o.1)
          (some_value (row.id, db') out (sym (rw (use_first, fits, hit) refl) ∙ e))
          (record {
            row = row;
            named = refl;
            found = found;
            usable = usable;
            grantee = (usable_row agent now row usable).0;
            is_live = (usable_row agent now row usable).1;
            in_time = (usable_row agent now row usable).2;
            has_left = (usable_row agent now row usable).3;
            covers = ground arith;
            covered = grant_covers_method-Covered row method (ground arith);
            in_scope = ground arith;
            spends = use_grant-Spends now agent method row db db' u found usable hit;
          })

All-candidates :
    (now : ℕ) (agent : Text) (db : Db) (rows : List PermissionGrantRow)
    → All (λ g. find_grant g.id db ≡ some g) rows
    → All (Candidate now agent db) (keep (is_usable agent now) rows)
unfolding Candidate
All-candidates now agent db [] h = tt
All-candidates now agent db (g ∷ rows) (p, h) = ground (arith, All-candidates now agent db rows h)

abbrev pub swept_grants : ℕ → Db → Db
swept_grants now db = record db { grants = expire_grants now db.grants }

pub expire_grants-HasUniqueIds :
    (now : ℕ) (db : Db) → HasUniqueGrants db → HasUniqueGrants (swept_grants now db)
unfolding expire_grants
expire_grants-HasUniqueIds now db u =
    update_where-HasUniqueIds grant_id _ (λ g. record g { status = expired }) db.grants (λ g. refl)
      u

-- The two outcomes of `tryConsumeGrant`, after the sweep of what has expired: no grant and no change, or
-- the use of a grant that is usable, covers the method and has the call in its scope.
pub try_consume_grant-cases :
    (now : ℕ) (agent method : Text) (params : Option CallParams) (db : Db)
    → HasUniqueGrants db
    → (try_consume_grant now agent method params db ≡ (none, swept_grants now db))
      ⊎ ((id : Text) × (db' : Db) × (try_consume_grant now agent method params db ≡ (some id, db'))
          × Allows now agent method params id (swept_grants now db) db')
unfolding try_consume_grant
try_consume_grant-cases now agent method params db u =
    by_hit (use_first agent method params rows swept) refl
  where
    swept : Db
    swept = swept_grants now db

    rows : List PermissionGrantRow
    rows = order_by (λ g. g.issued_at) (keep (is_usable agent now) swept.grants)

    candidates : All (Candidate now agent swept) rows
    candidates =
        All-order_by (Candidate now agent swept) (λ g. g.issued_at) _
          (All-candidates now agent swept swept.grants (expire_grants-HasUniqueIds now db u))

    by_hit :
        (hit : Option (Text × Db))
        → use_first agent method params rows swept ≡ hit
        → (try_consume_grant now agent method params db ≡ (none, swept))
          ⊎ ((id : Text) × (db' : Db) × (try_consume_grant now agent method params db
                ≡ (some id, db'))
              × Allows now agent method params id swept db')
    by_hit none h = inl (rw (try_consume_grant, h) refl)
    by_hit (some out) h = inr (
      out.0,
      out.1,
      rw (try_consume_grant, h) refl,
      use_first-Allows now agent method params rows swept out (expire_grants-HasUniqueIds now db u)
          candidates h,
    )
