-- ===== src/Permission/GrantRequests.antt =====
-- The handlers of permission.grant and permission.revokeGrant in packages/daemon/src/server.ts. `parse_date`
-- is the runtime's `new Date(text)`: its time, 0 for one before 1970, or none for no date.
use revdev.Base.{
  Text, txt, trim, to_lower, map, ℕ, ◌≡◌, ◌≢◌, sym, false, ◌&&◌, Option, none, some, List, [], ◌∷◌,
  ◌++◌, All,
}
use revdev.Base.Number.{Number, whole}
use revdev.Base.Param.{Param, undefined, string, str, str_or_null, num}
use revdev.Base.Result.{Result, ok, ◌>>=◌, split_bind}
use revdev.Permission.Tables.{PermissionGrantRow, Db}
use revdev.Permission.Grants.{
  Expiry, absent, not_a_date, at_time, IssueGrantInput, issue_grant, revoke_grant, is_empty,
  check_max_uses, check_expiry, clean_texts, clean_scope,
}
use revdev.Permission.Summary.{texts_of}
use revdev.Permission.Door.{RequestError, lift}
use revdev.Permission.Issuing.{Issued, issue_grant-Issued}
use revdev.Permission.Requests.{lift_ok}

-- The params of permission.grant; `none` is null, and a list that is no array is empty.
pub record GrantParams : Type 0 where
  pub grantee_agent_id : Option Param
  pub agent_id : Param
  pub classes : List Param
  pub methods : List Param
  pub root_scope : Param
  pub expires_at : Param
  pub max_uses : Option Param

-- `a ?? b`
abbrev pub present : Option Param → Param → Param
present none fallback = fallback
present (some undefined) fallback = fallback
present (some p) fallback = p

unfoldable pub expiry_of : (Text → Option ℕ) → Option Text → Expiry
expiry_of parse_date none = absent
expiry_of parse_date (some []) = absent
expiry_of parse_date (some (c ∷ s)) = elim (parse_date (c ∷ s)) [
  | none ↦ not_a_date
  | some t ↦ at_time t
]

unfoldable pub max_uses_of : Option Param → Option Number
unfolding num
max_uses_of none = none
max_uses_of (some undefined) = none
max_uses_of (some (string [])) = none
max_uses_of (some p) = some (num p (whole 0))

unfoldable pub grant_input : (Text → Option ℕ) → Text → GrantParams → IssueGrantInput
unfolding str str_or_null texts_of expiry_of max_uses_of
grant_input parse_date operator p = record {
  grantee_agent_id = str (present p.grantee_agent_id p.agent_id);
  classes = texts_of p.classes;
  methods = texts_of p.methods;
  root_scope = str_or_null p.root_scope;
  expires_at = expiry_of parse_date (str_or_null p.expires_at);
  max_uses = max_uses_of p.max_uses;
  issued_by = operator;
}

unfoldable pub rpc_grant :
    (Text → Option ℕ)
    → ℕ
    → Text
    → Result RequestError Text
    → GrantParams
    → Db
    → Result RequestError (PermissionGrantRow × Db)
unfolding grant_input issue_grant
rpc_grant parse_date now fresh verified p db = do
  operator ← verified
  lift (issue_grant now fresh (grant_input parse_date operator p) db)

unfoldable pub rpc_revoke_grant : ℕ → Result RequestError Text → Param → Db → Result RequestError Db
unfolding str revoke_grant
rpc_revoke_grant now verified id db = do
  operator ← verified
  lift (revoke_grant now (str id) operator db)

-- What the handler of permission.grant stored, told by the params of the call and its verified caller.
pub record GrantedBy (parse_date : Text → Option ℕ) (now : ℕ) (operator fresh : Text)
    (p : GrantParams) (db : Db) (row : PermissionGrantRow) (db' : Db) : Type 0 where
  pub issuer : row.issued_by ≡ operator
  pub grantee : row.grantee_agent_id ≡ trim (str (present p.grantee_agent_id p.agent_id))
  pub named : row.grantee_agent_id ≢ []
  pub by_other : row.grantee_agent_id ≢ operator
  pub classes : All (λ c. c ≡ txt "consequential") row.classes
  pub not_empty : is_empty row.classes && is_empty row.methods ≡ false
  pub kept_classes : row.classes ≡ clean_texts (map (λ c. to_lower (trim c)) (texts_of p.classes))
  pub kept_methods : row.methods ≡ clean_texts (map trim (texts_of p.methods))
  pub scope : row.root_scope ≡ clean_scope (str_or_null p.root_scope)
  pub expiry :
      check_expiry (expiry_of parse_date (str_or_null p.expires_at)) now ≡ ok row.expires_at
  pub limit : check_max_uses (max_uses_of p.max_uses) ≡ ok row.max_uses
  pub all_uses : row.uses_remaining ≡ row.max_uses
  pub identifier : row.id ≡ fresh
  pub rows : db'.grants ≡ db.grants ++ row ∷ []

-- A grant that the handler of permission.grant stores names the verified caller as its issuer and the agent
-- of the params, trimmed, as its grantee, who is another; its classes, methods, scope, expiry and uses are
-- those of the params, cleaned and checked; it is for no class but the consequential one, and for a class
-- or a method; all its uses are left; and it is the new last row of the table.
pub rpc_grant-GrantedBy :
    (parse_date : Text → Option ℕ) (now : ℕ) (fresh : Text) (verified : Result RequestError Text)
    (p : GrantParams) (db : Db) (out : PermissionGrantRow × Db)
    → rpc_grant parse_date now fresh verified p db ≡ ok out
    → (operator : Text) × (verified ≡ ok operator)
      × GrantedBy parse_date now operator fresh p db out.0 out.1
unfolding rpc_grant grant_input
rpc_grant-GrantedBy parse_date now fresh verified p db out e =
    let (operator, e1, caller) = split_bind _ verified e in
    let issued : Issued now fresh (grant_input parse_date operator p) db out.0 out.1 =
      issue_grant-Issued now fresh (grant_input parse_date operator p) db out (lift_ok _ out e1) in
    (
      operator,
      caller,
      record {
        issuer = issued.issuer;
        grantee = issued.grantee;
        named = issued.named;
        by_other = λ same. issued.by_other (sym same);
        classes = issued.classes;
        not_empty = issued.not_empty;
        kept_classes = issued.kept_classes;
        kept_methods = issued.kept_methods;
        scope = issued.scope;
        expiry = issued.checked_expiry;
        limit = issued.checked_uses;
        all_uses = issued.all_uses;
        identifier = issued.fresh_id;
        rows = issued.rows;
      },
    )
