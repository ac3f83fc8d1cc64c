-- ===== src/Permission/Passage.antt =====
-- What stands behind a call that the gate of packages/daemon/src/permission.ts lets pass.
use revdev.Base.{
  ◌⊎◌, Text, ◌≡◌, refl, ap, ◌∙◌, sym, subst, inl, inr, true, false, Bool-cases, Option, none, some,
  [], arith,
}
use revdev.Base.Result.{Result, ok, err}
use revdev.Permission.Paths.{CallParams}
use revdev.Permission.Policy.{
  PermissionMode, PermissionPolicyConfig, EnforceDecision, ApprovalReason, allow, deny,
  require_approval, decide_enforcement,
}
use revdev.Permission.Tables.{
  PendingApproval, consumed, Db, PermissionError, log_event, permission_denied, denied_event,
}
use revdev.Permission.Grants.{try_consume_grant}
use revdev.Permission.Approvals.{try_consume_approval, queue_approval_required}
use revdev.Permission.Gate.{GateEnv, consume_or_queue, asks_grants, ask_approval, gate_decision}
use revdev.Permission.Floor.{is_allowed}
use revdev.Base.Rows.{row_at, HasUniqueIds}
use revdev.Permission.Decisions.{approval_id, find_approval, HasUniqueApprovals}
use revdev.Permission.SingleUse.{Backs, try_consume_approval-after_all}
use revdev.Permission.History.{after_all}
use revdev.Permission.Uses.{HasUniqueGrants}
use revdev.Permission.Allowance.{Allows, swept_grants, try_consume_grant-cases}

-- The three ways past the gate: the decision table, a grant, or an approval that is consumed.
pub data Passes (g : GateEnv) (decision : EnforceDecision) (agent method : Text)
    (params : Option CallParams) (db db' : Db) : Type 0 where
  at_once : is_allowed decision ≡ true → Passes g decision agent method params db db'
  by_grant :
      (id : Text)
      → Allows g.now agent method params id (swept_grants g.now db) db'
      → Passes g decision agent method params db db'
  by_approval :
      (a b : PendingApproval)
      → find_approval a.id db ≡ some a
      → Backs g.now agent method (g.hash method params) a
      → find_approval a.id db' ≡ some b
      → b.status ≡ consumed
      → Passes g decision agent method params db db'

pub refused : {E : Type 0} (x : E) (r : Result E (Unit {0})) → r ≡ err x → r ≡ ok tt → ⊥
refused x r e h = ground arith

-- The part of `consumeOrQueue` that lets a call pass.
consume_or_queue-ok :
    (g : GateEnv) (agent method : Text) (params : Option CallParams) (db db' : Db)
    → consume_or_queue g agent method params db ≡ (ok tt, db')
    → (try_consume_approval g.hash g.now agent method params db).0 ≡ true
      × ((try_consume_approval g.hash g.now agent method params db).1 ≡ db')
unfolding consume_or_queue
consume_or_queue-ok g agent method params db db' e =
    elim (Bool-cases (try_consume_approval g.hash g.now agent method params db).0) [
      | inl passed ↦ (passed, ap (λ o. o.1) (sym (passed_queue passed) ∙ e))
      | inr failed ↦ absurd (refused error _ (refused_queue failed) (ap (λ o. o.0) e))
    ]
  where
    error : PermissionError
    error =
        (queue_approval_required g.hash g.summarize g.now g.fresh agent method params
          (try_consume_approval g.hash g.now agent method params db).1).0

    passed_queue :
        (try_consume_approval g.hash g.now agent method params db).0 ≡ true
        → consume_or_queue g agent method params db
          ≡ (ok tt, (try_consume_approval g.hash g.now agent method params db).1)
    passed_queue passed = rw (consume_or_queue, passed) refl

    refused_queue :
        (try_consume_approval g.hash g.now agent method params db).0 ≡ false
        → (consume_or_queue g agent method params db).0 ≡ err error
    refused_queue failed = rw (consume_or_queue, failed) refl

consume_or_queue-Passes :
    (g : GateEnv) (decision : EnforceDecision) (agent method : Text) (params : Option CallParams)
    (db swept db' : Db)
    → db.approvals ≡ swept.approvals
    → HasUniqueApprovals db
    → consume_or_queue g agent method params swept ≡ (ok tt, db')
    → Passes g decision agent method params db db'
unfolding after_all
consume_or_queue-Passes g decision agent method params db swept db' same u e =
    let (passed, out) = consume_or_queue-ok g agent method params swept db' e in
    let (a, found, backs, b, found_b, spent) =
      try_consume_approval-after_all g.hash g.summarize g.now agent method params swept []
        (subst (λ rows. HasUniqueIds approval_id rows) same u) passed in
    by_approval a b (subst (λ rows. row_at approval_id a.id rows ≡ some a) (sym same) found) backs
      (subst (λ d. find_approval a.id d ≡ some b) out found_b) spent

-- The three ways of the branch that wants an approval: without grants, after no grant was found, and by a
-- grant.
pub ask_approval-cases :
    (g : GateEnv) (mode : PermissionMode) (reason : ApprovalReason) (agent method : Text)
    (params : Option CallParams) (db : Db)
    → HasUniqueGrants db
    → (ask_approval g mode reason agent method params db
        ≡ consume_or_queue g agent method params db)
      ⊎ ((ask_approval g mode reason agent method params db
            ≡ consume_or_queue g agent method params (swept_grants g.now db))
          ⊎ ((id : Text) × (out : Db) × (ask_approval g mode reason agent method params db
                ≡ (ok tt, out))
              × Allows g.now agent method params id (swept_grants g.now db) out))
unfolding ask_approval
ask_approval-cases g mode reason agent method params db v =
    elim (Bool-cases (asks_grants mode reason)) [
      | inl asks ↦ elim (try_consume_grant-cases g.now agent method params db v) [
        | inl nothing ↦ inr (inl (missed asks nothing))
        | inr (id, out, hit, a) ↦ inr (inr (id, out, granted id out asks hit, a))
      ]
      | inr plain ↦ inl (unasked plain)
    ]
  where
    missed :
        asks_grants mode reason ≡ true
        → try_consume_grant g.now agent method params db ≡ (none, swept_grants g.now db)
        → ask_approval g mode reason agent method params db
          ≡ consume_or_queue g agent method params (swept_grants g.now db)
    missed asks nothing =
        rw (ask_approval, asks, nothing)
          (ap (λ o. consume_or_queue g agent method params o.1) nothing)

    granted :
        (id : Text) (out : Db)
        → asks_grants mode reason ≡ true
        → try_consume_grant g.now agent method params db ≡ (some id, out)
        → ask_approval g mode reason agent method params db ≡ (ok tt, out)
    granted id out asks hit = rw (ask_approval, asks, hit) (ap (λ o. (ok tt, o.1)) hit)

    unasked :
        asks_grants mode reason ≡ false
        → ask_approval g mode reason agent method params db
          ≡ consume_or_queue g agent method params db
    unasked plain = rw (ask_approval, plain) refl

ask_approval-Passes :
    (g : GateEnv) (decision : EnforceDecision) (mode : PermissionMode) (reason : ApprovalReason)
    (agent method : Text) (params : Option CallParams) (db db' : Db)
    → HasUniqueApprovals db
    → HasUniqueGrants db
    → ask_approval g mode reason agent method params db ≡ (ok tt, db')
    → Passes g decision agent method params db db'
ask_approval-Passes g decision mode reason agent method params db db' u v e =
    elim (ask_approval-cases g mode reason agent method params db v) [
      | inl plain ↦
          consume_or_queue-Passes g decision agent method params db db db' refl u (sym plain ∙ e)
      | inr (inl missed) ↦
          consume_or_queue-Passes g decision agent method params db (swept_grants g.now db) db' refl
            u (sym missed ∙ e)
      | inr (inr (id, out, granted, a)) ↦ by_grant id (
          subst (λ d. Allows g.now agent method params id (swept_grants g.now db) d)
            (ap (λ o. o.1) (sym granted ∙ e)) a)
    ]

-- A call that the gate lets pass outside shadow mode is one that the decision table allows at once, or one
-- that a usable grant of its agent covers and has in its scope, of which a use is taken, or one for which an
-- approval was given that is consumed by it.
pub gate_decision-Passes :
    (g : GateEnv) (mode : PermissionMode) (policy : Option PermissionPolicyConfig)
    (agent method : Text) (params : Option CallParams) (db db' : Db)
    → HasUniqueApprovals db
    → HasUniqueGrants db
    → gate_decision g mode policy agent method params db ≡ (ok tt, db')
    → Passes g (decide_enforcement method mode g.env params policy) agent method params db db'
unfolding gate_decision
gate_decision-Passes g mode policy agent method params db db' u v e =
    by_decision (decide_enforcement method mode g.env params policy) refl
  where
    by_decision :
        (d : EnforceDecision)
        → decide_enforcement method mode g.env params policy ≡ d
        → Passes g d agent method params db db'
    by_decision (allow reason) f = at_once refl
    by_decision deny f = absurd (refused _ _ (ap (λ o. o.0) (denied f)) (ap (λ o. o.0) e))
      where
        denied :
            decide_enforcement method mode g.env params policy ≡ deny
            → gate_decision g mode policy agent method params db
              ≡ (err (permission_denied method), log_event (denied_event agent method) db)
        denied f = rw (gate_decision, f) refl
    by_decision (require_approval reason) f =
        ask_approval-Passes g (require_approval reason) mode reason agent method params db db' u v
          (sym (asked reason f) ∙ e)
      where
        asked :
            (r : ApprovalReason)
            → decide_enforcement method mode g.env params policy ≡ require_approval r
            → gate_decision g mode policy agent method params db
              ≡ ask_approval g mode r agent method params db
        asked r f = rw (gate_decision, f) refl
