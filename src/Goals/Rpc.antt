-- ===== src/Goals/Rpc.antt =====
-- The goal.* handlers of packages/daemon/src/server.ts. `caller` is ctx.agentId.
use revdev.Base.{
  Text, txt, text_eq, ℕ, Bool, true, false, ◌&&◌, Option, none, some, List, [], ◌∷◌, keep,
  if◌then◌else◌,
}
use revdev.Base.Result.{Result, ok, err}
use revdev.Base.Param.{Param, string, str, str_or_null}
use revdev.Base.Table.{order_by}
use revdev.Goals.Store.{
  GoalStatus, opened, active, blocked, done, abandoned, GoalPriority, blocker, high, medium, low,
  GoalOwner, agent, human, met, failed, GoalRow, GoalCriterionRow, GoalDb, get_goal,
  list_goal_criteria,
}
use revdev.Goals.Progress.{GoalProgress, progress, GoalActionItem, next_actions}
use revdev.Goals.Harness.{GoalRefusal, activate_goal, block_goal, abandon_goal, complete_goal}
use revdev.Goals.Criteria.{add_criterion, record_criterion, Proposal, propose_task_for_criterion}

pub data GoalRpcError : Type 0 where
  missing : Text → GoalRpcError
  unsupported_status : Text → GoalRpcError
  wrong_verdict : GoalRpcError

-- `str(v, fallback)`
unfoldable pub str_with : Text → Param → Text
str_with fallback (string s) = s
str_with fallback _ = fallback

-- `strOrNull(params.agentId) ?? ctx.agentId ?? 'anonymous'`
unfoldable pub acting_agent : Param → Option Text → Text
unfolding str_or_null txt
acting_agent p caller = elim (str_or_null p) [
  | some a ↦ a
  | none ↦ elim caller [ some a ↦ a | none ↦ txt "anonymous" ]
]

-- `strOrNull(p) ?? strOrNull(q)`, where the empty string counts as missing.
unfoldable pub required : Text → Param → Param → Result GoalRpcError Text
unfolding str_or_null
required name p q =
    let given : Option Text = elim (str_or_null p) [ some s ↦ some s | none ↦ str_or_null q ] in
    elim given [
      | none ↦ err (missing name)
      | some [] ↦ err (missing name)
      | some (c ∷ s) ↦ ok (c ∷ s)
    ]

-- What a handler returns, with the tables: a thrown error, or the answer of the harness.
abbrev pub GoalAnswer : Type 0 → Type 0
GoalAnswer A = Result GoalRpcError (Result GoalRefusal A) × GoalDb

abbrev pub answered {ℓ} :
    {A : Type ℓ}
    → Result GoalRefusal A × GoalDb
    → Result GoalRpcError (Result GoalRefusal A) × GoalDb
answered (r, db) = (ok r, db)

-- With the identifier, or the error.
abbrev pub given_id {ℓ} :
    {A : Type ℓ}
    → GoalDb
    → Result GoalRpcError Text
    → (Text → Result GoalRpcError A × GoalDb)
    → Result GoalRpcError A × GoalDb
given_id db (err e) rest = (err e, db)
given_id db (ok k) rest = rest k

-- `reason || fallback`
abbrev pub or_text : Text → Text → Text
or_text fallback [] = fallback
or_text fallback (c ∷ s) = c ∷ s

-- The chain of tests on `status`.
unfoldable pub set_status : ℕ → Text → Text → Text → Text → GoalDb → GoalAnswer (Option GoalRow)
unfolding text_eq txt activate_goal block_goal abandon_goal complete_goal
set_status now by k status reason db =
    if text_eq status (txt "active")
    then answered (activate_goal now by k db)
    else if text_eq status (txt "blocked")
    then answered (block_goal now by k (or_text (txt "blocked") reason) db)
    else if text_eq status (txt "abandoned")
    then answered (abandon_goal now by k (or_text (txt "abandoned") reason) db)
    else if text_eq status (txt "done")
    then answered (complete_goal now by k db)
    else (err (unsupported_status status), db)

unfoldable pub rpc_set_status :
    ℕ → Option Text → Param → Param → Param → Param → Param → GoalDb → GoalAnswer (Option GoalRow)
unfolding acting_agent required str str_with set_status txt
rpc_set_status now caller agent_id goal_id id status reason db =
    given_id db (required (txt "goalId") goal_id id)
      λ k. set_status now (acting_agent agent_id caller) k (str status) (str_with [] reason) db

unfoldable pub rpc_add_criterion :
    ℕ → Text → Option Text → Param → Param → Param → GoalDb → GoalAnswer GoalCriterionRow
unfolding acting_agent required str add_criterion txt
rpc_add_criterion now fresh caller agent_id goal_id description db =
    given_id db (required (txt "goalId") goal_id goal_id)
      λ k. answered (add_criterion now (acting_agent agent_id caller) fresh k (str description) db)

unfoldable pub rpc_record_criterion :
    ℕ → Option Text → Param → Param → Param → Param → Param → GoalDb → GoalAnswer GoalCriterionRow
unfolding acting_agent required str_with record_criterion text_eq txt
rpc_record_criterion now caller agent_id criterion_id id verdict evidence db =
    given_id db (required (txt "criterionId") criterion_id id) λ k.
      let by = acting_agent agent_id caller in
      let word = str_with (txt "met") verdict in
      if text_eq word (txt "met")
      then answered (record_criterion now by k met (str_with [] evidence) db)
      else if text_eq word (txt "failed")
      then answered (record_criterion now by k failed (str_with [] evidence) db)
      else (err wrong_verdict, db)

unfoldable pub rpc_propose_task :
    ℕ → Text → Option Text → Param → Param → GoalDb → GoalAnswer Proposal
unfolding acting_agent required propose_task_for_criterion txt
rpc_propose_task now fresh caller agent_id criterion_id db =
    given_id db (required (txt "criterionId") criterion_id criterion_id)
      λ k. answered (propose_task_for_criterion now (acting_agent agent_id caller) fresh k db)

-- The handlers that only read.
unfoldable pub rpc_get :
    Param → Param → GoalDb → Result GoalRpcError (Option (GoalRow × List GoalCriterionRow)) × GoalDb
unfolding required get_goal list_goal_criteria txt
rpc_get goal_id id db = given_id db (required (txt "goalId") goal_id id) λ k.
    (ok (elim (get_goal k db) [ none ↦ none | some g ↦ some (g, list_goal_criteria k db) ]), db)

unfoldable pub rpc_list_criteria :
    Param → GoalDb → Result GoalRpcError (List GoalCriterionRow) × GoalDb
unfolding required list_goal_criteria txt
rpc_list_criteria goal_id db =
    given_id db (required (txt "goalId") goal_id goal_id) λ k. (ok (list_goal_criteria k db), db)

unfoldable pub rpc_progress :
    Param → Param → GoalDb → Result GoalRpcError (Option GoalProgress) × GoalDb
unfolding required progress txt
rpc_progress goal_id id db =
    given_id db (required (txt "goalId") goal_id id) λ k. (ok (progress k db), db)

unfoldable pub rpc_next_actions :
    Param → Param → GoalDb → Result GoalRpcError (List GoalActionItem) × GoalDb
unfolding required next_actions txt
rpc_next_actions goal_id id db =
    given_id db (required (txt "goalId") goal_id id) λ k. (ok (next_actions k db), db)

-- The strings of the columns.
unfoldable pub status_text : GoalStatus → Text
unfolding txt
status_text opened = txt "open"
status_text active = txt "active"
status_text blocked = txt "blocked"
status_text done = txt "done"
status_text abandoned = txt "abandoned"

unfoldable pub priority_text : GoalPriority → Text
unfolding txt
priority_text blocker = txt "blocker"
priority_text high = txt "high"
priority_text medium = txt "medium"
priority_text low = txt "low"

unfoldable pub owner_text : GoalOwner → Text
unfolding txt
owner_text agent = txt "agent"
owner_text human = txt "human"

-- A condition of `listGoals`; an absent or empty filter asks nothing.
unfoldable pub passes_filter : Option Text → Text → Bool
unfolding text_eq
passes_filter none column = true
passes_filter (some []) column = true
passes_filter (some (c ∷ s)) column = text_eq column (c ∷ s)

-- The same on a column that may be NULL, which equals nothing.
unfoldable pub passes_optional : Option Text → Option Text → Bool
unfolding text_eq
passes_optional none column = true
passes_optional (some []) column = true
passes_optional (some (c ∷ s)) none = false
passes_optional (some (c ∷ s)) (some column) = text_eq column (c ∷ s)

unfoldable pub rpc_list : Param → Param → Param → Param → GoalDb → List GoalRow
unfolding str_or_null passes_filter passes_optional status_text priority_text owner_text order_by
rpc_list status priority owner parent db =
    order_by (λ g. g.created_at)
      (keep
        (λ g.
          passes_filter (str_or_null status) (status_text g.status)
          && passes_filter (str_or_null priority) (priority_text g.priority)
          && passes_filter (str_or_null owner) (owner_text g.owner)
          && passes_optional (str_or_null parent) g.parent_goal_id)
        db.goals)
