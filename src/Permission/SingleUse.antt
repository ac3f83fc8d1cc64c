-- ===== src/Permission/SingleUse.antt =====
-- An approval of packages/daemon/src/permission.ts lets one call pass, the call that an operator other
-- than its agent approved.
use revdev.Base.{
  Text, text_eq, text_eq_iff, text_eq_refl, ℕ, ◌<◌, ◌≡◌, refl, ap, ◌∙◌, sym, subst, ◌⊎◌, inl, inr,
  Bool, true, Bool-cases, Option, none, some, List, [], ◌∷◌, ◌++◌, arith,
}
use mathlib.Core.Option
use mathlib.Core.Bool.{false≢true}
use revdev.Permission.Paths.{CallParams}
use revdev.Permission.Tables.{
  ApprovalStatus, pending, approved, denied, lapsed, consumed, PendingApproval, Db, is_approved,
  log_event,
}
use revdev.Permission.Approvals.{
  expire_stale_approvals, is_stale, is_consumable, try_consume_approval,
}
use revdev.Base.Rows.{row_at-update_where, updated}
use revdev.Permission.Decisions.{
  approval_id, find_approval, HasUniqueApprovals, StatusStep, stays, StatusPath, start, then,
  Follows, Consumable, approves, denies, lapses, lapses_unused, consumes,
}
use revdev.Permission.Receipts.{
  with_consumed, try_consume_approval-cases, try_consume_approval-Moves,
}
use revdev.Permission.History.{ApprovalCall, after, after_all, after-Moves, after_all-Moves}

stays_consumed : {t : ApprovalStatus} → StatusPath consumed t → t ≡ consumed
stays_consumed start = refl
stays_consumed (then stays rest) = stays_consumed rest

stays_denied : {t : ApprovalStatus} → StatusPath denied t → t ≡ denied
stays_denied start = refl
stays_denied (then stays rest) = stays_denied rest

stays_lapsed : {t : ApprovalStatus} → StatusPath lapsed t → t ≡ lapsed
stays_lapsed start = refl
stays_lapsed (then stays rest) = stays_lapsed rest

-- Where a call may leave a pending approval.
pending_then :
    {s t u : ApprovalStatus}
    → StatusStep s t
    → s ≡ pending
    → StatusPath t u
    → u ≡ consumed
    → (t ≡ pending) ⊎ (t ≡ approved)
pending_then stays e rest used = inl e
pending_then approves e rest used = inr refl
pending_then denies e rest used =
    let wrong : denied ≡ consumed = sym (stays_denied rest) ∙ used in cc
pending_then lapses e rest used =
    let wrong : lapsed ≡ consumed = sym (stays_lapsed rest) ∙ used in cc
pending_then lapses_unused e rest used = cc
pending_then consumes e rest used = cc

-- The calls on approvals, with a digest and a summary of parameters.
module _ (hash summarize : Text → Option CallParams → Text) where
  -- Where approvals have unique identifiers, a single call of any kind leaves each approval in the table, for
  -- the same agent, method and digest, and its status stays or goes from pending to approved, denied or
  -- lapsed, or from approved to lapsed or consumed; no call consumes a pending one.
  pub after-Follows :
      (c : ApprovalCall hash summarize) (db : Db) (k : Text) (a : PendingApproval)
      → HasUniqueApprovals db
      → find_approval k db ≡ some a
      → (b : PendingApproval) × (find_approval k (after hash summarize c db) ≡ some b)
        × Follows StatusStep a b
  after-Follows c db k a u found = (after-Moves hash summarize c db u).at k a found

  after_all-Follows :
      (calls : List (ApprovalCall hash summarize)) (db : Db) (k : Text) (a : PendingApproval)
      → HasUniqueApprovals db
      → find_approval k db ≡ some a
      → (b : PendingApproval) × (find_approval k (after_all hash summarize calls db) ≡ some b)
        × Follows StatusPath a b
  after_all-Follows calls db k a u found = (after_all-Moves hash summarize calls db u).at k a found

  -- The calls before some of the last, after which the approval was approved.
  abbrev pub ApprovedOnTheWay : List (ApprovalCall hash summarize) → Db → Text → Type 0
  ApprovedOnTheWay calls db k =
      (before : List (ApprovalCall hash summarize)) × (rest : List (ApprovalCall hash summarize))
      × (calls ≡ before ++ rest)
      × (c : PendingApproval) × (find_approval k (after_all hash summarize before db) ≡ some c)
      × (c.status ≡ approved)

  one_more :
      (c : ApprovalCall hash summarize) (calls : List (ApprovalCall hash summarize)) (db : Db)
      (k : Text)
      → ApprovedOnTheWay calls (after hash summarize c db) k
      → ApprovedOnTheWay (c ∷ calls) db k
  unfolding after_all
  one_more c calls db k (before, rest, split, row, found, held) =
      (c ∷ before, rest, ap (λ cs. c ∷ cs) split, row, found, held)

  -- Where approvals have unique identifiers: an approval that is pending and that some calls leave consumed
  -- was approved after a part of those calls.
  pub use_comes_after_approval :
      (calls : List (ApprovalCall hash summarize)) (db : Db) (k : Text) (a b : PendingApproval)
      → HasUniqueApprovals db
      → find_approval k db ≡ some a
      → a.status ≡ pending
      → find_approval k (after_all hash summarize calls db) ≡ some b
      → b.status ≡ consumed
      → ApprovedOnTheWay calls db k
  unfolding after_all
  use_comes_after_approval [] db k a b u found waits later used = cc
  use_comes_after_approval (c ∷ calls) db k a b u found waits later used =
      let (x, found_x, f) = after-Follows c db k a u found in
      let unique = (after-Moves hash summarize c db u).unique in
      let (y, found_y, g) =
        after_all-Follows calls (after hash summarize c db) k x unique found_x in
      let same : y.status ≡ consumed =
        ap (λ o. elim o [ none ↦ consumed | some r ↦ r.status ]) (sym found_y ∙ later) ∙ used in
      elim (pending_then f.step waits g.step same) [
        | inl still ↦ one_more c calls db k (
            use_comes_after_approval calls (after hash summarize c db) k x b unique found_x still
              later used)
        | inr held ↦ (c ∷ [], calls, refl, x, found_x, held)
      ]

updated_value :
    {A : Type 0} (test : A → Bool) (set : A → A) (r a : A)
    → some (updated test set r) ≡ some a
    → ((test r ≡ true) × (set r ≡ a)) ⊎ (r ≡ a)
updated_value test set r a e = elim (Bool-cases (test r)) [
  | inl hit ↦ inl (hit, ground arith)
  | inr miss ↦ inr (ground arith)
]

is_approved-lapsed : (a : PendingApproval) → a.status ≡ lapsed → is_approved a.status ≡ true → ⊥
unfolding is_approved
is_approved-lapsed a e h = ground arith

swept_row :
    (now : ℕ) (k : Text) (a : PendingApproval) (db : Db)
    → find_approval k (expire_stale_approvals now db) ≡ some a
    → is_approved a.status ≡ true
    → find_approval k db ≡ some a
unfolding expire_stale_approvals
swept_row now k a db found held = back (find_approval k db) refl
  where
    set : PendingApproval → PendingApproval
    set r = record r { status = lapsed }

    image : Option.map (updated (is_stale now) set) (find_approval k db) ≡ some a
    image =
        sym (row_at-update_where approval_id k (is_stale now) set db.approvals λ r. refl) ∙ found

    back : (o : Option PendingApproval) → find_approval k db ≡ o → find_approval k db ≡ some a
    back none e = absurd (no_row (ap (Option.map (updated (is_stale now) set)) (sym e) ∙ image))
      where
        no_row : none ≡ some a → ⊥
        no_row x = cc
    back (some r) e =
        elim (updated_value (is_stale now) set r a
          (ap (Option.map (updated (is_stale now) set)) (sym e) ∙ image)) [
            | inl (stale, same) ↦ absurd (is_approved-lapsed a (ap (λ x. x.status) (sym same)) held)
            | inr same ↦ e ∙ ap some same
          ]

-- What `tryConsumeApproval` needs of an approval.
pub record Backs (now : ℕ) (agent method digest : Text) (a : PendingApproval) : Type 0 where
  pub for_agent : a.agent_id ≡ agent
  pub for_method : a.method ≡ method
  pub for_digest : a.params_hash ≡ digest
  pub was_approved : a.status ≡ approved
  pub in_time : now < a.expires_at

is_consumable-Backs :
    (now : ℕ) (agent method digest : Text) (a : PendingApproval)
    → is_consumable now agent method digest a ≡ true
    → Backs now agent method digest a
unfolding is_consumable is_approved
is_consumable-Backs now agent method digest a h = record {
  for_agent = ground (arith, text_eq_iff a.agent_id agent);
  for_method = ground (arith, text_eq_iff a.method method);
  for_digest = ground (arith, text_eq_iff a.params_hash digest);
  was_approved = ground arith;
  in_time = ground arith;
}

found-with_consumed :
    (a : PendingApproval) (db : Db)
    → find_approval a.id db ≡ some a
    → find_approval a.id (with_consumed a db) ≡ some (record a { status = consumed })
found-with_consumed a db found =
    row_at-update_where approval_id a.id (λ b. text_eq b.id a.id)
      (λ b. record b { status = consumed }) db.approvals (λ b. refl)
    ∙ ap (Option.map (updated (λ b. text_eq b.id a.id) λ b. record b { status = consumed })) found
    ∙ rw (text_eq_refl a.id) refl

-- Where `tryConsumeApproval` lets a call pass, the table held an approval for the same agent, method and
-- digest that was approved and in time, and whatever calls follow, that approval is consumed: it lets no
-- second call pass.
pub try_consume_approval-after_all :
    (hash summarize : Text → Option CallParams → Text) (now : ℕ) (agent method : Text)
    (params : Option CallParams) (db : Db) (calls : List (ApprovalCall hash summarize))
    → HasUniqueApprovals db
    → (try_consume_approval hash now agent method params db).0 ≡ true
    → (a : PendingApproval) × (find_approval a.id db ≡ some a)
      × Backs now agent method (hash method params) a
      × (b : PendingApproval) × (find_approval a.id (
            after_all hash summarize calls (try_consume_approval hash now agent method params db).1)
          ≡ some b)
      × (b.status ≡ consumed)
unfolding Consumable
try_consume_approval-after_all hash summarize now agent method params db calls u passed =
    elim (try_consume_approval-cases hash now agent method params db u) [
      | inl nothing ↦ absurd (false≢true (ap (λ p. p.0) (sym nothing) ∙ passed))
      | inr (a, (can, found), hit) ↦
          let backs : Backs now agent method (hash method params) a =
            is_consumable-Backs now agent method (hash method params) a can in
          let spent : find_approval a.id (try_consume_approval hash now agent method params db).1
              ≡ some (record a { status = consumed }) =
            subst (λ p. find_approval a.id p.1 ≡ some (record a { status = consumed })) (sym hit)
              (unfold log_event in found-with_consumed a (expire_stale_approvals now db) found) in
          let (b, found_b, f) =
            after_all-Follows hash summarize calls
              (try_consume_approval hash now agent method params db).1 a.id
              (record a { status = consumed })
              (try_consume_approval-Moves hash now agent method params db u).unique spent in
          (
            a,
            swept_row now a.id a db found
                (ap is_approved backs.was_approved ∙ unfold is_approved in refl),
            backs,
            b,
            found_b,
            stays_consumed f.step,
          )
    ]
