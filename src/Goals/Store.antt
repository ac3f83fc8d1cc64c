-- ===== src/Goals/Store.antt =====
-- packages/daemon/src/goals/types.ts and goal-store.ts: the tables of goals, criteria and tasks, and
-- the statements on them. A time is a number of milliseconds, NOW() of the call; an INSERT fails on a
-- key that is present.
use revdev.Base.{
  Text, txt, text_eq, ℕ, Bool, true, false, Option, none, some, List, [], ◌∷◌, ◌++◌, any, keep,
  if◌then◌else◌,
}
use revdev.Base.Table.{update_where, first_where, order_by}

-- `opened` is the source's 'open'.
pub data GoalStatus : Type 0 where
  opened active blocked done abandoned : GoalStatus

pub data GoalPriority : Type 0 where
  blocker high medium low : GoalPriority

pub data GoalOwner : Type 0 where
  agent human : GoalOwner

pub data CriterionStatus : Type 0 where
  pending met failed : CriterionStatus

pub record GoalRow : Type 0 where
  pub id : Text
  pub title : Text
  pub description : Text
  pub status : GoalStatus
  pub priority : GoalPriority
  pub owner : GoalOwner
  pub parent_goal_id : Option Text
  pub blocked_by : List Text
  pub created_by : Text
  pub status_reason : Text
  pub created_at : ℕ
  pub updated_at : ℕ
  pub closed_at : Option ℕ

pub record GoalCriterionRow : Type 0 where
  pub id : Text
  pub goal_id : Text
  pub description : Text
  pub status : CriterionStatus
  pub evidence : Text
  pub verified_by : Option Text
  pub verified_at : Option ℕ
  pub task_id : Option Text
  pub created_at : ℕ

pub record GoalTaskRow : Type 0 where
  pub id : Text
  pub description : Text
  pub status : Text
  pub owner : Option Text
  pub claimed_at : Option ℕ
  pub completed_at : Option ℕ
  pub created_at : ℕ

-- The rows of `events`, by their event_type, with the agent and the payload.
pub data GoalEvent : Type 0 where
  goal_created : Text → Text → Text → ℕ → GoalEvent
  goal_activated goal_completed : Text → Text → GoalEvent
  goal_blocked goal_abandoned : Text → Text → Text → GoalEvent
  criterion_added criterion_met criterion_failed criterion_reset : Text → Text → Text → GoalEvent
  task_proposed : Text → Text → Text → Text → GoalEvent

pub record GoalDb : Type 0 where
  pub goals : List GoalRow
  pub criteria : List GoalCriterionRow
  pub tasks : List GoalTaskRow
  pub events : List GoalEvent

unfoldable pub is_done : GoalStatus → Bool
is_done done = true
is_done _ = false

unfoldable pub is_met : CriterionStatus → Bool
is_met met = true
is_met _ = false

unfoldable pub is_failed : CriterionStatus → Bool
is_failed failed = true
is_failed _ = false

unfoldable pub is_pending_status : CriterionStatus → Bool
is_pending_status pending = true
is_pending_status _ = false

abbrev pub has_key {ℓ} : {A : Type ℓ} → (A → Text) → Text → List A → Bool
has_key key k rows = any (λ row. text_eq (key row) k) rows

unfoldable pub log_goal_event : GoalEvent → GoalDb → GoalDb
log_goal_event e db = record db { events = db.events ++ e ∷ [] }

-- `getGoal`
unfoldable pub get_goal : Text → GoalDb → Option GoalRow
unfolding first_where text_eq
get_goal k db = first_where (λ g. text_eq g.id k) db.goals

-- `createGoal` on a row; false where the key is present.
unfoldable pub insert_goal : GoalRow → GoalDb → Bool × GoalDb
unfolding text_eq
insert_goal g db =
    if has_key (λ x. x.id) g.id db.goals
    then (false, db)
    else (true, record db { goals = db.goals ++ g ∷ [] })

unfoldable pub closes : GoalStatus → Bool
closes done = true
closes abandoned = true
closes _ = false

-- The columns that `setGoalStatus` sets.
unfoldable pub with_status : ℕ → GoalStatus → Text → GoalRow → GoalRow
unfolding closes
with_status now status reason g = record g {
  status = status;
  status_reason = reason;
  updated_at = now;
  closed_at = if closes status then some now else none;
}

unfoldable pub set_goal_status : ℕ → Text → GoalStatus → Text → GoalDb → GoalDb
unfolding update_where text_eq with_status
set_goal_status now k status reason db = record db {
  goals = update_where (λ g. text_eq g.id k) (with_status now status reason) db.goals;
}

-- `addGoalCriterion`; none where the key is present.
unfoldable pub add_goal_criterion :
    ℕ → Text → Text → Text → GoalDb → Option GoalCriterionRow × GoalDb
unfolding text_eq
add_goal_criterion now fresh goal_id description db =
    let row : GoalCriterionRow = record {
      id = fresh;
      goal_id = goal_id;
      description = description;
      status = pending;
      evidence = [];
      verified_by = none;
      verified_at = none;
      task_id = none;
      created_at = now;
    } in
    if has_key (λ x. x.id) fresh db.criteria
    then (none, db)
    else (some row, record db { criteria = db.criteria ++ row ∷ [] })

unfoldable pub get_goal_criterion : Text → GoalDb → Option GoalCriterionRow
unfolding first_where text_eq
get_goal_criterion k db = first_where (λ c. text_eq c.id k) db.criteria

unfoldable pub list_goal_criteria : Text → GoalDb → List GoalCriterionRow
unfolding order_by text_eq
list_goal_criteria k db = order_by (λ c. c.created_at) (keep (λ c. text_eq c.goal_id k) db.criteria)

-- UPDATE goal_criteria … WHERE id = $1
unfoldable pub update_criterion : Text → (GoalCriterionRow → GoalCriterionRow) → GoalDb → GoalDb
unfolding update_where text_eq
update_criterion k set db = record db {
  criteria = update_where (λ c. text_eq c.id k) set db.criteria;
}

-- The columns that `recordGoalCriterion`, `resetGoalCriterion` and `linkGoalCriterionTask` set.
unfoldable pub recorded : ℕ → CriterionStatus → Text → Text → GoalCriterionRow → GoalCriterionRow
recorded now verdict evidence by c = record c {
  status = verdict;
  evidence = evidence;
  verified_by = some by;
  verified_at = some now;
}

-- The UPDATE asks for a failed criterion once more.
unfoldable pub reset_columns : GoalCriterionRow → GoalCriterionRow
unfolding is_failed
reset_columns c =
    if is_failed c.status
    then (record c {
      status = pending;
      evidence = [];
      verified_by = none;
      verified_at = none;
      task_id = none;
    })
    else c

unfoldable pub linked : Text → GoalCriterionRow → GoalCriterionRow
linked task c = record c { task_id = some task }

unfoldable pub get_task : Text → GoalDb → Option GoalTaskRow
unfolding first_where text_eq
get_task k db = first_where (λ t. text_eq t.id k) db.tasks

unfoldable pub create_task : ℕ → Text → Text → GoalDb → Option GoalTaskRow × GoalDb
unfolding text_eq txt
create_task now fresh description db =
    let row : GoalTaskRow = record {
      id = fresh;
      description = description;
      status = txt "open";
      owner = none;
      claimed_at = none;
      completed_at = none;
      created_at = now;
    } in
    if has_key (λ x. x.id) fresh db.tasks
    then (none, db)
    else (some row, record db { tasks = db.tasks ++ row ∷ [] })
