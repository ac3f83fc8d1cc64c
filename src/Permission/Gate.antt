-- ===== src/Permission/Gate.antt =====
-- The gate of packages/daemon/src/permission.ts that a call passes before it runs (`enforceSkillTool`),
-- the same gate for RPC calls in packages/daemon/src/server.ts, and the modes of sessions.
use revdev.Base.{
  Text, txt, text_eq, trim, to_lower, ℕ, Bool, true, false, not, Option, none, some, [],
  if◌then◌else◌,
}
use revdev.Base.Result.{Result, ok, err, ◌>>◌, ensure}
use revdev.Permission.Methods.{SkillToolName, skill_tool_method}
use revdev.Permission.Paths.{CallParams}
use revdev.Permission.Policy.{
  PermissionMode, shadow, manual, auto, agent_scoped, Env, text_or_empty, mode_of_word,
  resolve_permission_mode, evaluate_shadow, PermissionPolicyConfig, allow, require_approval, deny,
  AllowReason, auto_consequential, ApprovalReason, by_agent_scope, decide_enforcement,
}
use revdev.Base.Table.{update_where, first_where}
use revdev.Permission.Tables.{
  AgentSession, PermissionEvent, shadow_event, auto_allowed, denied_event, mode_set, Db, log_event,
  PermissionError, permission_denied, denied_without_session, agent_id_required, own_mode,
  no_live_session,
}
use revdev.Permission.Grants.{try_consume_grant}
use revdev.Permission.Approvals.{is_live, try_consume_approval, queue_approval_required}

-- `parseSessionPermissionMode` of a column that is NULL or a text.
unfoldable pub parse_session_permission_mode : Option Text → Option PermissionMode
unfolding text_eq trim to_lower mode_of_word
parse_session_permission_mode none = none
parse_session_permission_mode (some raw) =
    if text_eq raw [] then none else mode_of_word (to_lower (trim raw))

abbrev pub mode_or : Option PermissionMode → PermissionMode → PermissionMode
mode_or none fallback = fallback
mode_or (some m) fallback = m

-- The daemon's default: the variable of the environment, or the configured mode, or shadow.
unfoldable pub daemon_default : Env → Option PermissionMode → PermissionMode
unfolding text_eq trim resolve_permission_mode
daemon_default env configured =
    if text_eq (trim (text_or_empty env.permission_mode)) []
    then mode_or configured shadow
    else resolve_permission_mode env

unfoldable pub resolve_effective_mode :
    Db → Option Text → Env → Option PermissionMode → PermissionMode
unfolding daemon_default parse_session_permission_mode first_where text_eq
resolve_effective_mode db none env configured = daemon_default env configured
resolve_effective_mode db (some agent) env configured =
    if text_eq agent []
    then daemon_default env configured
    else mode_or
        (elim (first_where (is_live agent) db.sessions) [
          | none ↦ none
          | some s ↦ parse_session_permission_mode s.permission_mode
        ])
        (daemon_default env configured)

abbrev pub some_session : Text → Option AgentSession → Result PermissionError (Unit {0})
some_session agent none = err (no_live_session agent)
some_session agent (some s) = ok tt

-- The text that the column `permission_mode` holds for a mode.
unfoldable pub word_of_mode : PermissionMode → Text
unfolding txt
word_of_mode shadow = txt "shadow"
word_of_mode manual = txt "manual"
word_of_mode auto = txt "auto"
word_of_mode agent_scoped = txt "agent-scoped"

abbrev pub column_of_mode : Option PermissionMode → Option Text
column_of_mode none = none
column_of_mode (some m) = some (word_of_mode m)

unfoldable pub set_session_permission_mode :
    ℕ → Text → Option PermissionMode → Text → Db → Result PermissionError Db
unfolding text_eq first_where update_where word_of_mode log_event
set_session_permission_mode now target mode operator db = do
  ensure (not (text_eq target [])) agent_id_required
  ensure (not (text_eq operator target)) own_mode
  some_session target (first_where (is_live target) db.sessions)
  ok (
      log_event (mode_set target mode operator) (record db {
        sessions =
            update_where (is_live target)
              (λ s. record s { permission_mode = column_of_mode mode; updated_at = now })
              db.sessions;
      }))

-- What the gate's caller passes in: the agent of a session, the configured default and policy.
pub record SkillPermissionCtx : Type 0 where
  pub agent_id : Text
  pub daemon_default : Option PermissionMode
  pub policy : Option PermissionPolicyConfig

abbrev pub GateOutcome : Type 0
GateOutcome = Result PermissionError (Unit {0}) × Db

-- The parameters that hash and summarise a call, and the identifier that `randomUUID` returns.
pub record GateEnv : Type 0 where
  pub env : Env
  pub hash : Text → Option CallParams → Text
  pub summarize : Text → Option CallParams → Text
  pub now : ℕ
  pub fresh : Text

-- An approval is consumed, or one is queued and the call fails.
unfoldable pub consume_or_queue : GateEnv → Text → Text → Option CallParams → Db → GateOutcome
unfolding try_consume_approval queue_approval_required
consume_or_queue g agent method params db =
    let (consumed, db') = try_consume_approval g.hash g.now agent method params db in
    let (error, queued) =
      queue_approval_required g.hash g.summarize g.now g.fresh agent method params db' in
    if consumed then (ok tt, db') else (err error, queued)

-- `mode === 'agent-scoped' || decision.reason === 'agent_scoped'`
unfoldable pub asks_grants : PermissionMode → ApprovalReason → Bool
asks_grants agent_scoped reason = true
asks_grants _ by_agent_scope = true
asks_grants _ _ = false

-- The branch of the gate for a decision that wants an approval.
unfoldable pub ask_approval :
    GateEnv → PermissionMode → ApprovalReason → Text → Text → Option CallParams → Db → GateOutcome
unfolding asks_grants try_consume_grant consume_or_queue
ask_approval g mode reason agent method params db =
    let (hit, db') = try_consume_grant g.now agent method params db in
    let after_grants : GateOutcome = elim hit [
      | some id ↦ (ok tt, db')
      | none ↦ consume_or_queue g agent method params db'
    ] in
    let plain = consume_or_queue g agent method params db in
    if asks_grants mode reason then after_grants else plain

-- The event that an allowed call of class consequential leaves in auto mode.
abbrev pub log_auto : AllowReason → Text → Text → Db → Db
log_auto auto_consequential agent method db = log_event (auto_allowed agent method) db
log_auto _ agent method db = db

-- The gate after the mode is known and is not shadow, for a caller with a session.
unfoldable pub gate_decision :
    GateEnv
    → PermissionMode
    → Option PermissionPolicyConfig
    → Text
    → Text
    → Option CallParams
    → Db
    → GateOutcome
unfolding decide_enforcement log_event ask_approval
gate_decision g mode policy agent method params db =
    elim (decide_enforcement method mode g.env params policy) [
      | allow reason ↦ (ok tt, log_auto reason agent method db)
      | deny ↦ (err (permission_denied method), log_event (denied_event agent method) db)
      | require_approval reason ↦ ask_approval g mode reason agent method params db
    ]

-- The same without a session: no table is written, and what is not allowed is refused.
unfoldable pub gate_without_session :
    GateEnv → PermissionMode → Text → Option CallParams → Db → GateOutcome
unfolding decide_enforcement
gate_without_session g mode method params db =
    elim (decide_enforcement method mode g.env params none) [
      | allow reason ↦ (ok tt, db)
      | _ ↦ (err (denied_without_session method), db)
    ]

abbrev pub in_shadow : PermissionMode → GateOutcome → GateOutcome → GateOutcome
in_shadow shadow free gated = free
in_shadow _ free gated = gated

unfoldable pub shadow_row : GateEnv → Text → Text → PermissionEvent
unfolding evaluate_shadow
shadow_row g agent method =
    let r = evaluate_shadow method g.env in shadow_event (some agent) method r.action_class r.would

unfoldable pub enforce_skill_tool :
    GateEnv → SkillToolName → CallParams → Option SkillPermissionCtx → Db → GateOutcome
unfolding skill_tool_method resolve_effective_mode resolve_permission_mode gate_decision
    gate_without_session log_event shadow_row
enforce_skill_tool g tool params none db =
    let mode = resolve_permission_mode g.env in
    in_shadow mode (ok tt, db)
      (gate_without_session g mode (skill_tool_method tool) (some params) db)
enforce_skill_tool g tool params (some ctx) db =
    let method = skill_tool_method tool in
    let mode = resolve_effective_mode db (some ctx.agent_id) g.env ctx.daemon_default in
    let logged = log_event (shadow_row g ctx.agent_id method) db in
    in_shadow mode (ok tt, logged)
      (gate_decision g mode ctx.policy ctx.agent_id method (some params) logged)
