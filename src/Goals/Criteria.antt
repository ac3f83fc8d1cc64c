-- ===== src/Goals/Criteria.antt =====
-- The operations of GoalHarness of packages/daemon/src/goals/goal-harness.ts on criteria.
use revdev.Base.{
  Text, txt, trim, ℕ, Bool, true, false, not, ◌&&◌, Option, none, some, [], ◌∷◌, ◌++◌,
  if◌then◌else◌,
}
use revdev.Base.Result.{ok, err}
use revdev.Goals.Store.{
  GoalStatus, active, CriterionStatus, GoalRow, GoalCriterionRow, GoalTaskRow, GoalDb,
  criterion_added, criterion_met, criterion_failed, criterion_reset, task_proposed, GoalEvent,
  is_met, is_failed, is_pending_status, log_goal_event, get_goal, closes, add_goal_criterion,
  get_goal_criterion, update_criterion, recorded, reset_columns, linked, get_task, create_task,
}
use revdev.Goals.Progress.{is_nothing}
use revdev.Goals.Harness.{
  criterion_not_found, duplicate_key, goal_is_terminal, goal_not_active, description_required,
  evidence_required, only_failed, not_pending, Outcome, with_goal, with_criterion, or_default,
}

-- The INSERT of a criterion, the event, and the answer.
unfoldable pub insert_criterion : ℕ → Text → Text → Text → Text → GoalDb → Outcome GoalCriterionRow
unfolding add_goal_criterion log_goal_event
insert_criterion now by fresh k description db =
    let (row, db') = add_goal_criterion now fresh k description db in
    elim row [
      | none ↦ (err duplicate_key, db')
      | some c ↦ (ok c, log_goal_event (criterion_added by k c.id) db')
    ]

-- The goal is not terminal.
unfoldable pub add_criterion : ℕ → Text → Text → Text → Text → GoalDb → Outcome GoalCriterionRow
unfolding trim get_goal closes insert_criterion
add_criterion now by fresh k description db =
    if is_nothing (trim description)
    then (err description_required, db)
    else with_goal k db (get_goal k db) λ g.
      if closes g.status
      then (err (goal_is_terminal g.status), db)
      else insert_criterion now by fresh k (trim description) db

-- The status of a criterion's goal, if the goal is there and terminal.
unfoldable pub terminal_goal : GoalCriterionRow → GoalDb → Option GoalStatus
unfolding get_goal closes
terminal_goal c db = elim (get_goal c.goal_id db) [
  | none ↦ none
  | some g ↦ if closes g.status then some g.status else none
]

-- `if (!updated) return …`, the event, and the answer.
unfoldable pub criterion_answer :
    Text → (GoalCriterionRow → GoalEvent) → GoalDb → Outcome GoalCriterionRow
unfolding get_goal_criterion log_goal_event
criterion_answer k event db = elim (get_goal_criterion k db) [
  | none ↦ (err (criterion_not_found k), db)
  | some c ↦ (ok c, log_goal_event (event c) db)
]

-- `verdict` is `met` or `failed`.
unfoldable pub record_criterion :
    ℕ → Text → Text → CriterionStatus → Text → GoalDb → Outcome GoalCriterionRow
unfolding get_goal_criterion terminal_goal is_met trim update_criterion recorded criterion_answer
record_criterion now by k verdict evidence db = with_criterion k db (get_goal_criterion k db) λ c.
    elim (terminal_goal c db) [
      | some status ↦ (err (goal_is_terminal status), db)
      | none ↦
          if is_met verdict && is_nothing (trim evidence)
          then (err evidence_required, db)
          else criterion_answer k
              (λ x.
                if is_met verdict
                then criterion_met by x.goal_id k
                else criterion_failed by x.goal_id k)
              (update_criterion k (recorded now verdict evidence by) db)
    ]

unfoldable pub reset_criterion : Text → Text → GoalDb → Outcome GoalCriterionRow
unfolding get_goal_criterion terminal_goal is_failed update_criterion reset_columns criterion_answer
reset_criterion by k db = with_criterion k db (get_goal_criterion k db) λ c.
    elim (terminal_goal c db) [
      | some status ↦ (err (goal_is_terminal status), db)
      | none ↦
          if not (is_failed c.status)
          then (err (only_failed c.status), db)
          else criterion_answer k (λ x. criterion_reset by x.goal_id k)
              (update_criterion k reset_columns db)
    ]

pub record Proposal : Type 0 where
  pub created : Bool
  pub task : GoalTaskRow
  pub criterion : GoalCriterionRow

unfoldable pub is_active_goal : GoalStatus → Bool
is_active_goal active = true
is_active_goal _ = false

-- The task that the criterion has already, if it is there.
unfoldable pub existing_task : GoalCriterionRow → GoalDb → Option GoalTaskRow
unfolding get_task
existing_task c db = elim c.task_id [
  | none ↦ none
  | some [] ↦ none
  | some (x ∷ t) ↦ get_task (x ∷ t) db
]

-- `[goal ${goal.id}] ${goal.title} :: ${criterion.description}`
unfoldable pub task_description : GoalRow → GoalCriterionRow → Text
unfolding txt
task_description g c =
    txt "[goal " ++ (g.id ++ (txt "] " ++ (g.title ++ (txt " :: " ++ c.description))))

unfoldable pub propose_new :
    ℕ → Text → Text → Text → GoalRow → GoalCriterionRow → GoalDb → Outcome Proposal
unfolding create_task task_description update_criterion linked get_goal_criterion log_goal_event
propose_new now by fresh k g c db =
    let (row, db') = create_task now fresh (task_description g c) db in
    let db'' = update_criterion k (linked fresh) db' in
    elim row [
      | none ↦ (err duplicate_key, db')
      | some task ↦ (
        ok (record {
          created = true;
          task = task;
          criterion = or_default c (get_goal_criterion k db'');
        }),
        log_goal_event (task_proposed by g.id k fresh) db'',
      )
    ]

unfoldable pub propose_task_for_criterion : ℕ → Text → Text → Text → GoalDb → Outcome Proposal
unfolding get_goal_criterion get_goal is_active_goal is_pending_status existing_task propose_new
propose_task_for_criterion now by fresh k db = with_criterion k db (get_goal_criterion k db) λ c.
    with_goal c.goal_id db (get_goal c.goal_id db) λ g.
      if not (is_active_goal g.status)
      then (err (goal_not_active g.status), db)
      else if not (is_pending_status c.status)
      then (err (not_pending c.status), db)
      else elim (existing_task c db) [
        | some task ↦ (ok (record { created = false; task = task; criterion = c }), db)
        | none ↦ propose_new now by fresh k g c db
      ]
