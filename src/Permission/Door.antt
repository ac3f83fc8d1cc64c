-- ===== src/Permission/Door.antt =====
-- The permission gate for JSON-RPC requests in packages/daemon/src/server.ts, and the handlers of
-- permission.decide, permission.setMode, permission.pending and permission.listGrants. The caller that
-- `requireVerifiedAgent` proves is an argument of the handlers, and so are the entries of the trust anchor.
use revdev.Base.{
  Text, txt, text_eq, to_lower, ℕ, Bool, true, false, not, ◌&&◌, ◌||◌, Option, none, some, List, [],
  ◌∷◌, any, if◌then◌else◌,
}
use revdev.Base.Param.{Param, undefined, string, boolean, str, str_or_null}
use revdev.Base.Result.{Result, ok, err, ◌>>=◌, ◌>>◌, ensure}
use revdev.Permission.Paths.{CallParams}
use revdev.Permission.Policy.{
  PermissionMode, shadow, PermissionPolicyConfig, allow, deny, require_approval, evaluate_shadow,
  decide_enforcement, is_trusted_operator,
}
use revdev.Permission.Tables.{
  shadow_event, denied_event, ApprovalStatus, PendingApproval, PermissionGrantRow, Db, log_event,
  PermissionError, permission_denied,
}
use revdev.Permission.Grants.{list_grants}
use revdev.Permission.Approvals.{decide_approval, list_pending_approvals}
use revdev.Permission.Gate.{
  GateEnv, gate_decision, log_auto, resolve_effective_mode, parse_session_permission_mode,
  set_session_permission_mode,
}

-- What the code reads of the connection: its agent, whether a signature bound it, and the fingerprint.
pub record SocketContext : Type 0 where
  pub agent_id : Option Text
  pub bound_by_signature : Bool
  pub kid : Option Text

pub data RequestError : Type 0 where
  by_gate : PermissionError → RequestError
  not_registered : Text → RequestError
  unverified signature_required bad_verdict bad_mode : RequestError
  untrusted_client : Text → Text → RequestError

abbrev pub lift {ℓ} : {A : Type ℓ} → Result PermissionError A → Result RequestError A
lift (ok a) = ok a
lift (err e) = err (by_gate e)

abbrev pub operator_door_methods : List Text
operator_door_methods = txt "permission.decide" ∷ txt "permission.setMode" ∷ []

-- `isOperatorDoor`
unfoldable pub is_operator_door : List Text → Text → SocketContext → Bool
unfolding txt text_eq is_trusted_operator
is_operator_door entries method ctx =
    any (text_eq method) operator_door_methods
    && ctx.bound_by_signature
    && (elim ctx.agent_id [ none ↦ false | some agent ↦ is_trusted_operator entries agent ctx.kid ])

-- `ctx.agentId ?? actorAgentId`
unfoldable pub agent_for_event : SocketContext → Param → Option Text
unfolding str_or_null
agent_for_event ctx actor = elim ctx.agent_id [ some agent ↦ some agent | none ↦ str_or_null actor ]

abbrev pub RequestOutcome : Type 0
RequestOutcome = Result RequestError (Unit {0}) × Db

-- The gate for a caller without an agent; its events carry `name`.
unfoldable pub gate_unregistered :
    GateEnv
    → PermissionMode
    → Option PermissionPolicyConfig
    → Text
    → Text
    → CallParams
    → Db
    → RequestOutcome
unfolding decide_enforcement log_event
gate_unregistered g mode policy name method params db =
    elim (decide_enforcement method mode g.env (some params) policy) [
      | allow reason ↦ (ok tt, log_auto reason name method db)
      | deny ↦ (err (by_gate (permission_denied method)), log_event (denied_event name method) db)
      | require_approval reason ↦ (err (not_registered method), db)
    ]

-- The gate outside shadow mode, for a request that the operator door does not let in.
unfoldable pub gate_request :
    GateEnv
    → PermissionMode
    → Option PermissionPolicyConfig
    → Option Text
    → Text
    → CallParams
    → Db
    → RequestOutcome
unfolding gate_decision gate_unregistered txt text_eq
gate_request g mode policy none method params db =
    gate_unregistered g mode policy (txt "anonymous") method params db
gate_request g mode policy (some agent) method params db =
    let (answer, db') = gate_decision g mode policy agent method (some params) db in
    if text_eq agent []
    then gate_unregistered g mode policy [] method params db
    else (lift answer, db')

abbrev pub request_in_mode :
    PermissionMode → Bool → RequestOutcome → RequestOutcome → RequestOutcome
request_in_mode shadow door free gated = free
request_in_mode _ true free gated = free
request_in_mode _ false free gated = gated

-- The permission gate of `dispatchRpc`.
unfoldable pub permission_gate :
    GateEnv
    → List Text
    → SocketContext
    → Option PermissionMode
    → Option PermissionPolicyConfig
    → Text
    → Param
    → CallParams
    → Db
    → RequestOutcome
unfolding agent_for_event resolve_effective_mode evaluate_shadow log_event is_operator_door
    gate_request
permission_gate g entries ctx configured policy method actor params db =
    let agent = agent_for_event ctx actor in
    let mode = resolve_effective_mode db agent g.env configured in
    let seen = evaluate_shadow method g.env in
    let logged = log_event (shadow_event agent method seen.action_class seen.would) db in
    request_in_mode mode (is_operator_door entries method ctx) (ok tt, logged)
      (gate_request g mode policy agent method params logged)

-- `requireTrustedOperator`, where `verified` is what `requireVerifiedAgent` returned.
abbrev pub signed_by : SocketContext → Result RequestError Text
signed_by ctx = elim ctx.kid [
  | none ↦ err signature_required
  | some kid ↦
      if ctx.bound_by_signature && not (text_eq kid []) then ok kid else err signature_required
]

unfoldable pub require_trusted_operator :
    List Text → SocketContext → Result RequestError Text → Result RequestError Text
unfolding text_eq is_trusted_operator
require_trusted_operator entries ctx verified = do
  operator ← verified
  fingerprint ← signed_by ctx
  ensure (is_trusted_operator entries operator (some fingerprint))
      (untrusted_client operator fingerprint)
  ok operator

-- The verdict of `permission.decide`: true for 'approved'.
unfoldable pub verdict_of : Text → Result RequestError Bool
unfolding txt text_eq to_lower
verdict_of raw =
    if text_eq (to_lower raw) (txt "approved")
    then ok true
    else if text_eq (to_lower raw) (txt "denied")
    then ok false
    else err bad_verdict

unfoldable pub rpc_decide :
    ℕ
    → List Text
    → SocketContext
    → Result RequestError Text
    → Param
    → Param
    → Db
    → Result RequestError (ApprovalStatus × Db)
unfolding require_trusted_operator str verdict_of decide_approval
rpc_decide now entries ctx verified approval_id verdict db = do
  decider ← require_trusted_operator entries ctx verified
  choice ← verdict_of (str verdict)
  lift (decide_approval now (str approval_id) choice decider db)

-- The mode of `permission.setMode`, where `none` is null: no override, or one of the four modes.
unfoldable pub mode_param : Option Param → Result RequestError (Option PermissionMode)
unfolding txt text_eq parse_session_permission_mode
mode_param none = ok none
mode_param (some undefined) = ok none
mode_param (some (string s)) =
    if text_eq s [] || text_eq s (txt "default")
    then ok none
    else (elim (parse_session_permission_mode (some s)) [
      | none ↦ err bad_mode
      | some m ↦ ok (some m)
    ])
mode_param (some _) = err bad_mode

unfoldable pub rpc_set_mode :
    ℕ
    → List Text
    → SocketContext
    → Result RequestError Text
    → Param
    → Option Param
    → Db
    → Result RequestError Db
unfolding require_trusted_operator str mode_param set_session_permission_mode
rpc_set_mode now entries ctx verified agent mode db = do
  operator ← require_trusted_operator entries ctx verified
  chosen ← mode_param mode
  lift (set_session_permission_mode now (str agent) chosen operator db)

abbrev pub first_text : Option Text → Option Text → Option Text
first_text none other = other
first_text (some t) other = some t

-- `permission.pending`: the filter is `agentId`, or the caller where `scope` is 'self'.
unfoldable pub rpc_pending : ℕ → SocketContext → Param → Param → Db → List PendingApproval × Db
unfolding txt text_eq str str_or_null list_pending_approvals
rpc_pending now ctx agent scope db =
    let own : Option Text = elim ctx.agent_id [
      | none ↦ none
      | some a ↦ if not (text_eq a []) && text_eq (str scope) (txt "self") then some a else none
    ] in
    list_pending_approvals now (first_text (str_or_null agent) own) db

-- `permission.listGrants`
unfoldable pub rpc_list_grants : ℕ → Param → Param → Param → Db → List PermissionGrantRow × Db
unfolding str_or_null list_grants
rpc_list_grants now grantee agent include_inactive db =
    let inactive : Bool = elim include_inactive [ boolean b ↦ b | _ ↦ false ] in
    list_grants now (first_text (str_or_null grantee) (str_or_null agent)) inactive db
