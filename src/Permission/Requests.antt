-- ===== src/Permission/Requests.antt =====
-- What stands behind a request that the gate of packages/daemon/src/server.ts lets pass, and behind a
-- decision that the handler of permission.decide accepts.
use revdev.Base.{
  Text, ℕ, ◌⊎◌, ◌≡◌, refl, sym, subst, Bool, true, Option, none, some, List, [], arith,
}
use revdev.Base.Param.{Param, str}
use revdev.Base.Result.{ensured, returned_value, Result, ok, err, ensure, split_bind}
use revdev.Permission.Paths.{CallParams}
use revdev.Permission.Policy.{PermissionMode, shadow, EnforceDecision, is_trusted_operator}
use revdev.Permission.Tables.{ApprovalStatus, Db, PermissionError}
use revdev.Permission.Approvals.{decide_approval}
use revdev.Permission.Gate.{GateEnv}
use revdev.Permission.Door.{
  SocketContext, RequestError, lift, signed_by, require_trusted_operator, untrusted_client,
  verdict_of, rpc_decide,
}
use revdev.Permission.Anchor.{Anchored, is_trusted_operator-Anchored, ByOperator}
use revdev.Permission.Floor.{is_allowed}
use revdev.Permission.History.{Accepted, decide_approval-Accepted}
use revdev.Permission.Passage.{Passes}

pub lift_ok : {A : Type 0} (r : Result PermissionError A) (a : A) → lift r ≡ ok a → r ≡ ok a
lift_ok (ok b) a e = ground arith
lift_ok (err x) a e = cc

signed_by_kid :
    (ctx : SocketContext) (kid : Text)
    → signed_by ctx ≡ ok kid
    → (ctx.kid ≡ some kid) × (ctx.bound_by_signature ≡ true)
signed_by_kid ctx kid e = ground arith

-- What the handler of permission.decide knows of a decision that it accepted.
pub record Decided (now : ℕ) (entries : List Text) (ctx : SocketContext)
    (verified : Result RequestError Text) (id verdict : Text) (db db' : Db) : Type 0 where
  pub operator : Text
  pub fingerprint : Text
  pub choice : Bool
  pub is_caller : verified ≡ ok operator
  pub signed : ctx.bound_by_signature ≡ true
  pub signer : ctx.kid ≡ some fingerprint
  pub trusted : is_trusted_operator entries operator (some fingerprint) ≡ true
  pub anchored : Anchored entries operator fingerprint
  pub read : verdict_of verdict ≡ ok choice
  pub accepted : Accepted now id choice operator db db'

-- A decision that the handler of permission.decide accepts is by a caller that a signature bound, whose
-- agent and fingerprint are in the trust anchor, on a pending approval of another agent, whose row alone
-- gets the verdict.
pub rpc_decide-Decided :
    (now : ℕ) (entries : List Text) (ctx : SocketContext) (verified : Result RequestError Text)
    (approval_id verdict : Param) (db : Db) (out : ApprovalStatus × Db)
    → rpc_decide now entries ctx verified approval_id verdict db ≡ ok out
    → Decided now entries ctx verified (str approval_id) (str verdict) db out.1
unfolding rpc_decide require_trusted_operator
rpc_decide-Decided now entries ctx verified approval_id verdict db out e =
    let (decider, e1, trusted) = split_bind _ (require_trusted_operator entries ctx verified) e in
    let (choice, e2, read) = split_bind _ (verdict_of (str verdict)) e1 in
    let (operator, f1, caller) = split_bind _ verified trusted in
    let (kid, f2, signed) = split_bind _ (signed_by ctx) f1 in
    let (u, f3, anchored) =
      split_bind _
        (ensure (is_trusted_operator entries operator (some kid)) (untrusted_client operator kid))
        f2 in
    let same : operator ≡ decider = returned_value operator decider _ refl f3 in
    let taken : decide_approval now (str approval_id) choice decider db ≡ ok out =
      lift_ok _ out e2 in
    record {
      operator = operator;
      fingerprint = kid;
      choice = choice;
      is_caller = caller;
      signed = (signed_by_kid ctx kid signed).1;
      signer = (signed_by_kid ctx kid signed).0;
      trusted = ensured _ _ u anchored;
      anchored = is_trusted_operator-Anchored entries operator kid (ensured _ _ u anchored);
      read = read;
      accepted =
          subst (λ d. Accepted now (str approval_id) choice d db out.1) (sym same)
            (decide_approval-Accepted now (str approval_id) choice decider db out taken);
    }

-- Why a request passed the gate, and what it did to the tables: nothing, where neither a grant nor an
-- approval was needed, but for the log of an unregistered caller.
pub data LetsIn (g : GateEnv) (mode : PermissionMode) (entries : List Text) (ctx : SocketContext)
    (decision : EnforceDecision) (agent : Option Text) (method : Text) (params : CallParams)
    (db db' : Db) : Type 0 where
  in_shadow_mode :
      mode ≡ shadow → db' ≡ db → LetsIn g mode entries ctx decision agent method params db db'
  by_door :
      ByOperator entries ctx method
      → db' ≡ db
      → LetsIn g mode entries ctx decision agent method params db db'
  unregistered :
      (agent ≡ none) ⊎ (agent ≡ some [])
      → is_allowed decision ≡ true
      → LetsIn g mode entries ctx decision agent method params db db'
  as_agent :
      (a : Text)
      → agent ≡ some a
      → Passes g decision a method (some params) db db'
      → LetsIn g mode entries ctx decision agent method params db db'
