-- ===== src/Permission/Issuing.antt =====
-- What a grant that `issueGrant` of packages/daemon/src/permission.ts accepted is, and what a revocation does.
use revdev.Base.{
  Text, txt, text_eq, text_eq_iff, trim, to_lower, ℕ, ◌≡◌, ◌≢◌, refl, ap, sym, subst, false, some,
  List, [], ◌∷◌, ◌++◌, ◌&&◌, not, any, map, All, arith,
}
use revdev.Base.Result.{ensured, negated, returned_value, ok, ensure, split_bind}
use revdev.Base.Table.{update_where, first_where}
use revdev.Permission.Tables.{
  PermissionGrantRow, revoked, Db, is_active, log_event, grantee_required, self_grant,
  no_classes_or_methods, duplicate_id, grant_id_required, grant_not_active,
}
use revdev.Permission.Grants.{
  IssueGrantInput, check_classes, check_max_uses, check_expiry, clean_texts, clean_scope, is_empty,
  issue_grant, revoke_grant, found_grant,
}

check_classes-All :
    (cs : List Text) (u : Unit {0})
    → check_classes cs ≡ ok u
    → All (λ c. c ≡ txt "consequential") cs
unfolding check_classes
check_classes-All [] u e = tt
check_classes-All (c ∷ cs) u e =
    ground (arith, text_eq_iff c (txt "consequential"), check_classes-All cs u)

-- The conditions that an accepted grant meets, and its row at the end of the table.
pub record Issued (now : ℕ) (fresh : Text) (i : IssueGrantInput) (db : Db)
    (row : PermissionGrantRow) (db' : Db) : Type 0 where
  pub grantee : row.grantee_agent_id ≡ trim i.grantee_agent_id
  pub named : row.grantee_agent_id ≢ []
  pub by_other : i.issued_by ≢ row.grantee_agent_id
  pub issuer : row.issued_by ≡ i.issued_by
  pub kept_classes : row.classes ≡ clean_texts (map (λ c. to_lower (trim c)) i.classes)
  pub kept_methods : row.methods ≡ clean_texts (map trim i.methods)
  pub scope : row.root_scope ≡ clean_scope i.root_scope
  pub classes : All (λ c. c ≡ txt "consequential") row.classes
  pub not_empty : is_empty row.classes && is_empty row.methods ≡ false
  pub all_uses : row.uses_remaining ≡ row.max_uses
  pub checked_uses : check_max_uses i.max_uses ≡ ok row.max_uses
  pub checked_expiry : check_expiry i.expires_at now ≡ ok row.expires_at
  pub is_new : any (λ g. text_eq g.id fresh) db.grants ≡ false
  pub rows : db'.grants ≡ db.grants ++ row ∷ []
  pub fresh_id : row.id ≡ fresh

differ : (a b : Text) → text_eq a b ≡ false → a ≢ b
differ a b e same = ground (arith, text_eq_iff a b)

-- A grant that is accepted is for an agent that is not its issuer, is for no class but the consequential
-- one, names a class or a method, has all its uses, and is a new row at the end of the table.
pub issue_grant-Issued :
    (now : ℕ) (fresh : Text) (i : IssueGrantInput) (db : Db) (out : PermissionGrantRow × Db)
    → issue_grant now fresh i db ≡ ok out
    → Issued now fresh i db out.0 out.1
unfolding issue_grant log_event
issue_grant-Issued now fresh i db out e =
    let grantee = trim i.grantee_agent_id in
    let classes = clean_texts (map (λ c. to_lower (trim c)) i.classes) in
    let methods = clean_texts (map trim i.methods) in
    let (u1, e1, h1) = split_bind _ (ensure (not (text_eq grantee [])) grantee_required) e in
    let (u2, e2, h2) = split_bind _ (ensure (not (text_eq i.issued_by grantee)) self_grant) e1 in
    let (u3, e3, h3) = split_bind _ (check_classes classes) e2 in
    let (u4, e4, h4) =
      split_bind _ (ensure (not (is_empty classes && is_empty methods)) no_classes_or_methods) e3 in
    let (uses, e5, h5) = split_bind _ (check_max_uses i.max_uses) e4 in
    let (expires, e6, h6) = split_bind _ (check_expiry i.expires_at now) e5 in
    let (u7, e7, h7) =
      split_bind _ (ensure (not (any (λ g. text_eq g.id fresh) db.grants)) duplicate_id) e6 in
    let same : _ ≡ out = returned_value _ out _ refl e7 in
    subst (λ o. Issued now fresh i db o.0 o.1) same
      (record {
        grantee = refl;
        named = differ _ _ (negated _ (ensured _ _ u1 h1));
        by_other = differ _ _ (negated _ (ensured _ _ u2 h2));
        issuer = refl;
        kept_classes = refl;
        kept_methods = refl;
        scope = refl;
        classes = check_classes-All _ u3 h3;
        not_empty = negated _ (ensured _ _ u4 h4);
        all_uses = refl;
        checked_uses = h5;
        checked_expiry = h6;
        is_new = negated _ (ensured _ _ u7 h7);
        rows = refl;
        fresh_id = refl;
      })

pub revoke_grant_rows :
    (now : ℕ) (id operator : Text) (db db' : Db)
    → revoke_grant now id operator db ≡ ok db'
    → db'.grants
      ≡ update_where
          (λ g. text_eq g.id id && is_active g.status)
          (λ g. record g { status = revoked; revoked_at = some now })
          db.grants
unfolding revoke_grant log_event
revoke_grant_rows now id operator db db' e =
    let (u1, e1, h1) = split_bind _ (ensure (not (text_eq (trim id) [])) grant_id_required) e in
    let (row, e2, h2) =
      split_bind _ (found_grant id (first_where (λ g. text_eq g.id id) db.grants)) e1 in
    let (u3, e3, h3) = split_bind _ (ensure (is_active row.status) (grant_not_active id)) e2 in
    ap (λ d. d.grants) (sym (returned_value _ db' _ refl e3))
