-- ===== src/Goals/Progress.antt =====
-- `progress` and `nextActions` of packages/daemon/src/goals/goal-harness.ts. The percentage is a
-- rounded double and is left out.
use revdev.Base.{
  Text, txt, text_eq, ℕ, suc, Bool, true, false, Option, none, some, List, [], ◌∷◌, ◌++◌, length,
  if◌then◌else◌,
}
use revdev.Goals.Store.{
  GoalStatus, CriterionStatus, pending, met, failed, GoalRow, GoalCriterionRow, GoalTaskRow, GoalDb,
  get_goal, list_goal_criteria, get_task,
}

-- The strings of `unmet`.
pub data Unmet : Type 0 where
  no_criteria : Unmet
  criterion_failed criterion_pending task_in_progress task_unclaimed : Text → Unmet

-- `criteriaCounts`, `taskCounts` and `unmet`.
pub record Tally : Type 0 where
  pub met_count : ℕ
  pub failed_count : ℕ
  pub pending_count : ℕ
  pub linked_count : ℕ
  pub completed_count : ℕ
  pub claimed_count : ℕ
  pub open_count : ℕ
  pub unmet : List Unmet

-- `if (criterion.task_id)`, and then the task.
unfoldable pub task_of : GoalDb → GoalCriterionRow → Option GoalTaskRow
unfolding get_task
task_of db c = elim c.task_id [ none ↦ none | some [] ↦ none | some (x ∷ k) ↦ get_task (x ∷ k) db ]

unfoldable pub tally_status : CriterionStatus → Text → Tally → Tally
tally_status met description t = record t { met_count = suc t.met_count }
tally_status failed description t = record t {
  failed_count = suc t.failed_count;
  unmet = t.unmet ++ criterion_failed description ∷ [];
}
tally_status pending description t = record t {
  pending_count = suc t.pending_count;
  unmet = t.unmet ++ criterion_pending description ∷ [];
}

unfoldable pub tally_task : Option GoalTaskRow → Tally → Tally
unfolding text_eq txt
tally_task none t = t
tally_task (some task) t =
    if text_eq task.status (txt "completed")
    then (record t { linked_count = suc t.linked_count; completed_count = suc t.completed_count })
    else if text_eq task.status (txt "claimed")
    then (record t {
      linked_count = suc t.linked_count;
      claimed_count = suc t.claimed_count;
      unmet = t.unmet ++ task_in_progress task.id ∷ [];
    })
    else (record t {
      linked_count = suc t.linked_count;
      open_count = suc t.open_count;
      unmet = t.unmet ++ task_unclaimed task.id ∷ [];
    })

-- The loop over the criteria.
unfoldable pub tally : GoalDb → List GoalCriterionRow → Tally → Tally
unfolding tally_status tally_task task_of
tally db [] t = t
tally db (c ∷ cs) t =
    tally db cs (tally_task (task_of db c) (tally_status c.status c.description t))

unfoldable pub empty_tally : List GoalCriterionRow → Tally
empty_tally cs = record {
  met_count = 0;
  failed_count = 0;
  pending_count = 0;
  linked_count = 0;
  completed_count = 0;
  claimed_count = 0;
  open_count = 0;
  unmet = elim cs [ [] ↦ no_criteria ∷ [] | c ∷ rest ↦ [] ];
}

pub record GoalProgress : Type 0 where
  pub goal_id : Text
  pub status : GoalStatus
  pub total : ℕ
  pub counts : Tally
  pub ready_to_complete : Bool

abbrev pub is_nothing {ℓ} : {A : Type ℓ} → List A → Bool
is_nothing [] = true
is_nothing (x ∷ xs) = false

abbrev pub progress_of : Text → GoalDb → GoalRow → GoalProgress
progress_of k db g =
    let criteria = list_goal_criteria k db in
    let counts = tally db criteria (empty_tally criteria) in
    record {
      goal_id = k;
      status = g.status;
      total = length criteria;
      counts = counts;
      ready_to_complete = is_nothing counts.unmet;
    }

unfoldable pub progress : Text → GoalDb → Option GoalProgress
unfolding get_goal list_goal_criteria tally empty_tally
progress k db = elim (get_goal k db) [ none ↦ none | some g ↦ some (progress_of k db g) ]

pub data GoalAction : Type 0 where
  propose_task await_task verify rework : GoalAction

pub record GoalActionItem : Type 0 where
  pub criterion_id : Text
  pub description : Text
  pub action : GoalAction
  pub task_id : Option Text

-- The action for a pending criterion.
unfoldable pub pending_action : GoalDb → GoalCriterionRow → GoalAction × Option Text
unfolding get_task text_eq txt
pending_action db c = elim c.task_id [
  | none ↦ (propose_task, none)
  | some [] ↦ (propose_task, none)
  | some (x ∷ k) ↦ elim (get_task (x ∷ k) db) [
    | none ↦ (verify, some (x ∷ k))
    | some task ↦
        if text_eq task.status (txt "completed")
        then (verify, some (x ∷ k))
        else (await_task, some task.id)
  ]
]

-- The action for a criterion of a status.
unfoldable pub action_by : CriterionStatus → GoalDb → GoalCriterionRow → List GoalActionItem
unfolding pending_action
action_by met db c = []
action_by failed db c =
    (record {
      criterion_id = c.id;
      description = c.description;
      action = rework;
      task_id = c.task_id;
    })
    ∷ []
action_by pending db c =
    (record {
      criterion_id = c.id;
      description = c.description;
      action = (pending_action db c).0;
      task_id = (pending_action db c).1;
    })
    ∷ []

unfoldable pub actions_for : GoalDb → List GoalCriterionRow → List GoalActionItem
unfolding action_by
actions_for db [] = []
actions_for db (c ∷ cs) = action_by c.status db c ++ actions_for db cs

unfoldable pub next_actions : Text → GoalDb → List GoalActionItem
unfolding actions_for list_goal_criteria
next_actions k db = actions_for db (list_goal_criteria k db)
