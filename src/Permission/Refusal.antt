-- ===== src/Permission/Refusal.antt =====
-- A call that the gate of packages/daemon/src/permission.ts refuses takes no use of a grant.
use revdev.Base.{
  Text, text_eq, ℕ, ◌≡◌, refl, ap, ◌∙◌, sym, subst, inl, inr, Bool-cases, Option, some, any, leb,
  count_if,
}
use revdev.Base.Result.{ok, err}
use revdev.Permission.Paths.{CallParams}
use revdev.Permission.Policy.{
  PermissionMode, PermissionPolicyConfig, EnforceDecision, ApprovalReason, AllowReason, allow, deny,
  require_approval, decide_enforcement,
}
use revdev.Permission.Tables.{
  Db, PermissionError, log_event, max_pending_per_agent, permission_denied, denied_event,
}
use revdev.Permission.Approvals.{
  try_consume_approval, queue_approval_required, expire_stale_approvals, is_waiting,
}
use revdev.Permission.Gate.{GateEnv, consume_or_queue, ask_approval, gate_decision, log_auto}
use revdev.Base.Rows.{row_at}
use revdev.Permission.Decisions.{HasUniqueApprovals}
use revdev.Permission.Receipts.{try_consume_approval-cases}
use revdev.Permission.Uses.{grant_id, HasUniqueGrants}
use revdev.Permission.Allowance.{swept_grants}
use revdev.Permission.Passage.{refused, ask_approval-cases}
use revdev.Permission.Budget.{Left, sweep-Left}

Left-grants : (k : Text) (n : ℕ) (db db' : Db) → db.grants ≡ db'.grants → Left k db n → Left k db' n
Left-grants k n db db' same l = record {
  row = l.row;
  found = subst (λ rows. row_at grant_id k rows ≡ some l.row) same l.found;
  uses = l.uses;
}

consume_grants :
    (hash : Text → Option CallParams → Text) (now : ℕ) (agent method : Text)
    (params : Option CallParams) (db : Db)
    → HasUniqueApprovals db
    → db.grants ≡ (try_consume_approval hash now agent method params db).1.grants
unfolding expire_stale_approvals log_event
consume_grants hash now agent method params db u =
    elim (try_consume_approval-cases hash now agent method params db u) [
      | inl nothing ↦ ap (λ o. o.1.grants) (sym nothing)
      | inr (a, can, hit) ↦ ap (λ o. o.1.grants) (sym hit)
    ]

queue_grants :
    (hash summarize : Text → Option CallParams → Text) (now : ℕ) (fresh agent method : Text)
    (params : Option CallParams) (db : Db)
    → db.grants ≡ (queue_approval_required hash summarize now fresh agent method params db).1.grants
unfolding queue_approval_required log_event
queue_grants hash summarize now fresh agent method params db =
    elim (Bool-cases (leb max_pending_per_agent (count_if (is_waiting now agent) db.approvals))) [
      | inl full ↦ rw full refl
      | inr room ↦ elim (Bool-cases (any (λ a. text_eq a.id fresh) db.approvals)) [
        | inl used ↦ rw (room, used) refl
        | inr new ↦ rw (room, new) refl
      ]
    ]

consume_or_queue_grants :
    (g : GateEnv) (agent method : Text) (params : Option CallParams) (db : Db)
    → HasUniqueApprovals db
    → db.grants ≡ (consume_or_queue g agent method params db).1.grants
unfolding consume_or_queue
consume_or_queue_grants g agent method params db u =
    elim (Bool-cases (try_consume_approval g.hash g.now agent method params db).0) [
      | inl passed ↦ rw passed consumed_db
      | inr failed ↦ rw failed (
          consumed_db
          ∙ queue_grants g.hash g.summarize g.now g.fresh agent method params
              (try_consume_approval g.hash g.now agent method params db).1)
    ]
  where
    consumed_db : db.grants ≡ (try_consume_approval g.hash g.now agent method params db).1.grants
    consumed_db = consume_grants g.hash g.now agent method params db u

ask_approval-Left :
    (g : GateEnv) (mode : PermissionMode) (reason : ApprovalReason) (agent method : Text)
    (params : Option CallParams) (db db' : Db) (x : PermissionError) (k : Text) (n : ℕ)
    → HasUniqueApprovals db
    → HasUniqueGrants db
    → ask_approval g mode reason agent method params db ≡ (err x, db')
    → Left k db n
    → Left k db' n
ask_approval-Left g mode reason agent method params db db' x k n u v e l =
    elim (ask_approval-cases g mode reason agent method params db v) [
      | inl plain ↦
          Left-grants k n db db'
            (consume_or_queue_grants g agent method params db u
              ∙ ap (λ o. o.1.grants) (sym plain ∙ e))
            l
      | inr (inl missed) ↦
          Left-grants k n (swept_grants g.now db) db'
            (consume_or_queue_grants g agent method params (swept_grants g.now db) u
              ∙ ap (λ o. o.1.grants) (sym missed ∙ e))
            (sweep-Left g.now k db n l)
      | inr (inr (id, out, granted, a)) ↦ absurd (
          refused x (ask_approval g mode reason agent method params db).0 (ap (λ o. o.0) e)
            (ap (λ o. o.0) granted))
    ]

-- A call that the gate refuses outside shadow mode takes no use of a grant: each grant has the uses left
-- that it had.
pub gate_decision-Left :
    (g : GateEnv) (mode : PermissionMode) (policy : Option PermissionPolicyConfig)
    (agent method : Text) (params : Option CallParams) (db db' : Db) (x : PermissionError)
    (k : Text) (n : ℕ)
    → HasUniqueApprovals db
    → HasUniqueGrants db
    → gate_decision g mode policy agent method params db ≡ (err x, db')
    → Left k db n
    → Left k db' n
unfolding gate_decision log_event
gate_decision-Left g mode policy agent method params db db' x k n u v e l =
    by_decision (decide_enforcement method mode g.env params policy) refl
  where
    allowed :
        (r : AllowReason)
        → decide_enforcement method mode g.env params policy ≡ allow r
        → gate_decision g mode policy agent method params db ≡ (ok tt, log_auto r agent method db)
    allowed r f = rw (gate_decision, f) refl

    denied :
        decide_enforcement method mode g.env params policy ≡ deny
        → gate_decision g mode policy agent method params db
          ≡ (err (permission_denied method), log_event (denied_event agent method) db)
    denied f = rw (gate_decision, f) refl

    asked :
        (r : ApprovalReason)
        → decide_enforcement method mode g.env params policy ≡ require_approval r
        → gate_decision g mode policy agent method params db
          ≡ ask_approval g mode r agent method params db
    asked r f = rw (gate_decision, f) refl

    by_decision :
        (d : EnforceDecision)
        → decide_enforcement method mode g.env params policy ≡ d
        → Left k db' n
    by_decision (allow r) f = absurd (
        refused x (gate_decision g mode policy agent method params db).0 (ap (λ o. o.0) e)
          (ap (λ o. o.0) (allowed r f)))
    by_decision deny f = Left-grants k n db db' (ap (λ o. o.1.grants) (sym (denied f) ∙ e)) l
    by_decision (require_approval r) f =
        ask_approval-Left g mode r agent method params db db' x k n u v (sym (asked r f) ∙ e) l
