-- ===== src/Permission/Grants.antt =====
-- The operator's grants of packages/daemon/src/permission.ts.
use revdev.Base.{
  Text, txt, text_eq, trim, to_lower, ℕ, ◌+◌, ◌-◌, Bool, true, false, not, ◌&&◌, ◌||◌, Option, none,
  some, List, [], ◌∷◌, ◌++◌, map, reverse, any, keep, ◌*◌, ◌/◌, leb, ltb, ◌==◌, if◌then◌else◌,
}
use revdev.Base.Number.{Number, above}
use revdev.Base.Result.{Result, ok, err, ◌>>=◌, ◌>>◌, ensure}
use revdev.Permission.Methods.{ActionClass, routine, consequential, critical, classify_method}
use revdev.Permission.Paths.{CallParams, grant_root_matches}
use revdev.Base.Table.{update_where, first_where, order_by}
use revdev.Permission.Tables.{
  active, expired, exhausted, revoked, PermissionGrantRow, grant_allowed, grant_issued,
  grant_revoked, Db, log_event, is_active, grant_default_ttl_ms, PermissionError, grantee_required,
  self_grant, critical_by_class, routine_by_class, no_classes_or_methods, unknown_class,
  max_uses_not_positive, expiry_not_a_date, expiry_not_in_future, duplicate_id, grant_id_required,
  unknown_grant, grant_not_active,
}

unfoldable pub grant_covers_method : List Text → List Text → Text → ActionClass → Bool
unfolding txt text_eq
grant_covers_method classes methods method critical = any (text_eq method) methods
grant_covers_method classes methods method consequential =
    any (text_eq (txt "consequential")) classes || any (text_eq method) methods
grant_covers_method classes methods method routine = true

-- UPDATE … SET status = 'expired' WHERE status = 'active' AND expires_at <= NOW()
unfoldable pub expire_grants : ℕ → List PermissionGrantRow → List PermissionGrantRow
unfolding update_where is_active
expire_grants now =
    update_where (λ g. is_active g.status && leb g.expires_at now)
      (λ g. record g { status = expired })

-- uses_remaining IS NULL OR uses_remaining > 0
abbrev pub has_uses : Option ℕ → Bool
has_uses none = true
has_uses (some n) = ltb 0 n

-- The WHERE of the SELECT in `tryConsumeGrant`.
unfoldable pub is_usable : Text → ℕ → PermissionGrantRow → Bool
unfolding text_eq is_active
is_usable agent now g =
    text_eq g.grantee_agent_id agent
    && is_active g.status
    && ltb now g.expires_at
    && has_uses g.uses_remaining

-- The columns after one use: uses_remaining - 1, and 'exhausted' where nothing is left.
unfoldable pub spend_use : PermissionGrantRow → PermissionGrantRow
spend_use g = elim g.uses_remaining [
  | none ↦ g
  | some n ↦ record g {
    uses_remaining = some (n - 1);
    status = if leb (n - 1) 0 then exhausted else g.status;
  }
]

-- uses_remaining > 0, which is not true of NULL
abbrev pub counted_uses : Option ℕ → Bool
counted_uses none = false
counted_uses (some n) = ltb 0 n

-- The WHERE of the UPDATE in `tryConsumeGrant`.
unfoldable pub is_spendable : Text → PermissionGrantRow → Bool
unfolding text_eq is_active
is_spendable id g = text_eq g.id id && is_active g.status && counted_uses g.uses_remaining

-- One candidate row: the update where its uses are counted, and the event, or the next row.
unfoldable pub use_grant : Text → Text → PermissionGrantRow → Db → Option Db
unfolding is_spendable spend_use first_where update_where log_event
use_grant agent method row db = elim row.uses_remaining [
  | none ↦ some (log_event (grant_allowed agent row.id method) db)
  | some n ↦ elim (first_where (is_spendable row.id) db.grants) [
    | none ↦ none
    | some g ↦ some (
        log_event (grant_allowed agent row.id method)
          (record db { grants = update_where (is_spendable row.id) spend_use db.grants }))
  ]
]

-- The loop over the selected rows: the first that covers the call, is in scope and can be used.
unfoldable pub use_first :
    Text → Text → Option CallParams → List PermissionGrantRow → Db → Option (Text × Db)
unfolding classify_method grant_covers_method grant_root_matches use_grant
use_first agent method params [] db = none
use_first agent method params (row ∷ rows) db =
    let covered = grant_covers_method row.classes row.methods method (classify_method method) in
    let rest = use_first agent method params rows db in
    if covered && grant_root_matches row.root_scope params
    then (elim (use_grant agent method row db) [ some db' ↦ some (row.id, db') | none ↦ rest ])
    else rest

-- The id of the grant that allowed the call, and the tables afterwards.
unfoldable pub try_consume_grant : ℕ → Text → Text → Option CallParams → Db → Option Text × Db
unfolding expire_grants is_usable order_by use_first
try_consume_grant now agent method params db =
    let swept = record db { grants = expire_grants now db.grants } in
    let rows = order_by (λ g. g.issued_at) (keep (is_usable agent now) swept.grants) in
    elim (use_first agent method params rows swept) [
      | none ↦ (none, swept)
      | some hit ↦ (some hit.0, hit.1)
    ]

-- The value of `input.expiresAt`: absent or empty, no date, or a time.
pub data Expiry : Type 0 where
  absent not_a_date : Expiry
  at_time : ℕ → Expiry

pub record IssueGrantInput : Type 0 where
  pub grantee_agent_id : Text
  pub classes : List Text
  pub methods : List Text
  pub root_scope : Option Text
  pub expires_at : Expiry
  pub max_uses : Option Number
  pub issued_by : Text

-- The loop over the classes of `issueGrant`: the first that cannot be granted throws.
unfoldable pub check_classes : List Text → Result PermissionError (Unit {0})
unfolding txt text_eq
check_classes [] = ok tt
check_classes (c ∷ cs) =
    let rest = check_classes cs in
    if text_eq c (txt "critical")
    then err critical_by_class
    else if text_eq c (txt "routine")
    then err routine_by_class
    else if not (text_eq c (txt "consequential"))
    then err (unknown_class c)
    else rest

-- `maxUses`: null, or a positive integer.
unfoldable pub check_max_uses : Option Number → Result PermissionError (Option ℕ)
check_max_uses none = ok none
check_max_uses (some (above n d)) =
    let k = n / (d + 1) in
    if k * (d + 1) == n && ltb 0 k then ok (some k) else err max_uses_not_positive
check_max_uses (some _) = err max_uses_not_positive

unfoldable pub check_expiry : Expiry → ℕ → Result PermissionError ℕ
check_expiry absent now = ok (now + grant_default_ttl_ms)
check_expiry not_a_date now = err expiry_not_a_date
check_expiry (at_time t) now = if leb t now then err expiry_not_in_future else ok t

abbrev pub is_empty : List Text → Bool
is_empty [] = true
is_empty (t ∷ ts) = false

unfoldable pub clean_texts : List Text → List Text
unfolding text_eq
clean_texts ts = keep (λ t. not (text_eq t [])) ts

unfoldable pub clean_scope : Option Text → Option Text
unfolding trim text_eq
clean_scope none = none
clean_scope (some s) = if text_eq (trim s) [] then none else some (trim s)

-- `fresh` is the identifier that `randomUUID` returned. The INSERT fails on a used primary key.
unfoldable pub issue_grant :
    ℕ → Text → IssueGrantInput → Db → Result PermissionError (PermissionGrantRow × Db)
unfolding text_eq trim to_lower check_classes check_max_uses check_expiry clean_texts clean_scope
    log_event
issue_grant now fresh i db = do
  let grantee = trim i.grantee_agent_id
  ensure (not (text_eq grantee [])) grantee_required
  ensure (not (text_eq i.issued_by grantee)) self_grant
  let classes = clean_texts (map (λ c. to_lower (trim c)) i.classes)
  let methods = clean_texts (map trim i.methods)
  check_classes classes
  ensure (not (is_empty classes && is_empty methods)) no_classes_or_methods
  uses ← check_max_uses i.max_uses
  expires ← check_expiry i.expires_at now
  let row : PermissionGrantRow = record {
    id = fresh;
    grantee_agent_id = grantee;
    classes = classes;
    methods = methods;
    root_scope = clean_scope i.root_scope;
    expires_at = expires;
    max_uses = uses;
    uses_remaining = uses;
    issued_by = i.issued_by;
    issued_at = now;
    revoked_at = none;
    status = active;
  }
  ensure (not (any (λ g. text_eq g.id fresh) db.grants)) duplicate_id
  ok (
    row,
    log_event (grant_issued grantee fresh i.issued_by)
        (record db { grants = db.grants ++ row ∷ [] }),
  )

-- `listGrants`, newest first; `filter` is the grantee that is asked for.
unfoldable pub list_grants : ℕ → Option Text → Bool → Db → List PermissionGrantRow × Db
unfolding expire_grants text_eq is_active order_by
list_grants now filter include_inactive db =
    let swept = expire_grants now db.grants in
    let wanted = λ (g : PermissionGrantRow).
      (elim filter [ none ↦ true | some a ↦ text_eq a [] || text_eq g.grantee_agent_id a ])
      && (include_inactive || is_active g.status && ltb now g.expires_at) in
    (reverse (order_by (λ g. g.issued_at) (keep wanted swept)), record db { grants = swept })

abbrev pub found_grant :
    Text → Option PermissionGrantRow → Result PermissionError PermissionGrantRow
found_grant id none = err (unknown_grant id)
found_grant id (some g) = ok g

unfoldable pub revoke_grant : ℕ → Text → Text → Db → Result PermissionError Db
unfolding text_eq trim first_where is_active update_where log_event
revoke_grant now id operator db = do
  ensure (not (text_eq (trim id) [])) grant_id_required
  row ← found_grant id (first_where (λ g. text_eq g.id id) db.grants)
  ensure (is_active row.status) (grant_not_active id)
  ok (
      log_event (grant_revoked row.grantee_agent_id id operator) (record db {
        grants =
            update_where (λ g. text_eq g.id id && is_active g.status)
              (λ g. record g { status = revoked; revoked_at = some now }) db.grants;
      }))
