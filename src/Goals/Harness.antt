-- ===== src/Goals/Harness.antt =====
-- GoalHarness of packages/daemon/src/goals/goal-harness.ts, but for progress and nextActions. A call
-- returns its answer and the tables afterwards. `by` is the harness's agent, and identifiers that
-- randomUUID makes are passed in.
use revdev.Base.{
  Text, ℕ, suc, Bool, true, false, not, ◌&&◌, Option, none, some, List, [], ◌∷◌, length, keep, any,
  leb, if◌then◌else◌,
}
use revdev.Base.Result.{Result, ok, err}
use revdev.Goals.Store.{
  GoalStatus, opened, active, blocked, done, abandoned, GoalPriority, medium, GoalOwner, agent,
  CriterionStatus, GoalRow, GoalCriterionRow, GoalDb, goal_created, goal_activated, goal_completed,
  goal_blocked, goal_abandoned, GoalEvent, log_goal_event, get_goal, insert_goal, closes,
  set_goal_status, add_goal_criterion,
}
use revdev.Goals.Progress.{Unmet, is_nothing, progress}

-- The reasons of an answer without success, and what is thrown: an input that the schema refuses, or
-- an INSERT of a key that is present.
pub data GoalRefusal : Type 0 where
  invalid_input duplicate_key : GoalRefusal
  goal_not_found criterion_not_found : Text → GoalRefusal
  cannot_activate cannot_block cannot_abandon cannot_complete goal_is_terminal goal_not_active :
      GoalStatus → GoalRefusal
  unresolved_blockers : List Text → GoalRefusal
  unmet_criteria : List Unmet → GoalRefusal
  description_required evidence_required : GoalRefusal
  only_failed not_pending : CriterionStatus → GoalRefusal

abbrev pub Outcome : Type 0 → Type 0
Outcome A = Result GoalRefusal A × GoalDb

-- `ALLOWED_TRANSITIONS.get(from)?.has(to)`
unfoldable pub can_transition : GoalStatus → GoalStatus → Bool
can_transition opened active = true
can_transition opened blocked = true
can_transition opened abandoned = true
can_transition active blocked = true
can_transition active done = true
can_transition active abandoned = true
can_transition blocked active = true
can_transition blocked abandoned = true
can_transition _ _ = false

-- `if (!goal) return …`, and then the rest.
abbrev pub with_goal {ℓ} :
    {A : Type ℓ}
    → Text
    → GoalDb
    → Option GoalRow
    → (GoalRow → Result GoalRefusal A × GoalDb)
    → Result GoalRefusal A × GoalDb
with_goal k db none rest = (err (goal_not_found k), db)
with_goal k db (some g) rest = rest g

abbrev pub with_criterion {ℓ} :
    {A : Type ℓ}
    → Text
    → GoalDb
    → Option GoalCriterionRow
    → (GoalCriterionRow → Result GoalRefusal A × GoalDb)
    → Result GoalRefusal A × GoalDb
with_criterion k db none rest = (err (criterion_not_found k), db)
with_criterion k db (some c) rest = rest c

-- `setGoalStatus`, the event, and the answer.
unfoldable pub move_goal :
    ℕ → Text → GoalStatus → Text → GoalEvent → GoalDb → Outcome (Option GoalRow)
unfolding set_goal_status log_goal_event get_goal
move_goal now k status reason event db =
    let moved = set_goal_status now k status reason db in
    (ok (get_goal k moved), log_goal_event event moved)

-- A blocker that is missing or not terminal.
unfoldable pub is_unresolved : GoalDb → Text → Bool
unfolding get_goal closes
is_unresolved db k = elim (get_goal k db) [ none ↦ true | some g ↦ not (closes g.status) ]

unfoldable pub activate_goal : ℕ → Text → Text → GoalDb → Outcome (Option GoalRow)
unfolding get_goal can_transition is_unresolved move_goal
activate_goal now by k db = with_goal k db (get_goal k db) λ g.
    let blockers = keep (is_unresolved db) g.blocked_by in
    if not (can_transition g.status active)
    then (err (cannot_activate g.status), db)
    else if not (is_nothing blockers)
    then (err (unresolved_blockers blockers), db)
    else move_goal now k active [] (goal_activated by k) db

unfoldable pub block_goal : ℕ → Text → Text → Text → GoalDb → Outcome (Option GoalRow)
unfolding get_goal can_transition move_goal
block_goal now by k reason db = with_goal k db (get_goal k db) λ g.
    if not (can_transition g.status blocked)
    then (err (cannot_block g.status), db)
    else move_goal now k blocked reason (goal_blocked by k reason) db

unfoldable pub abandon_goal : ℕ → Text → Text → Text → GoalDb → Outcome (Option GoalRow)
unfolding get_goal can_transition move_goal
abandon_goal now by k reason db = with_goal k db (get_goal k db) λ g.
    if not (can_transition g.status abandoned)
    then (err (cannot_abandon g.status), db)
    else move_goal now k abandoned reason (goal_abandoned by k reason) db

unfoldable pub complete_goal : ℕ → Text → Text → GoalDb → Outcome (Option GoalRow)
unfolding get_goal can_transition progress move_goal
complete_goal now by k db = with_goal k db (get_goal k db) λ g.
    if not (can_transition g.status done)
    then (err (cannot_complete g.status), db)
    else elim (progress k db) [
      | none ↦ (err (unmet_criteria []), db)
      | some p ↦
          if not p.ready_to_complete
          then (err (unmet_criteria (p.counts).unmet), db)
          else move_goal now k done [] (goal_completed by k) db
    ]

pub record CreateGoalInput : Type 0 where
  pub id : Option Text
  pub title : Text
  pub description : Option Text
  pub priority : Option GoalPriority
  pub owner : Option GoalOwner
  pub parent_goal_id : Option Text
  pub blocked_by : Option (List Text)
  pub criteria : Option (List Text)

abbrev pub or_default {ℓ} : {A : Type ℓ} → A → Option A → A
or_default d none = d
or_default d (some a) = a

-- `z.string().min(1).max(n)`
abbrev pub within : ℕ → Text → Bool
within n s = not (is_nothing s) && leb (length s) n

-- `createGoalInputSchema`; the enumerations are types here.
unfoldable pub is_valid_input : CreateGoalInput → Bool
is_valid_input i =
    within 200 i.title
    && leb (length (or_default [] i.description)) 4000
    && not (is_nothing (or_default (0 ∷ []) i.parent_goal_id))
    && not (any is_nothing (or_default [] i.blocked_by))
    && not (any (λ s. not (within 1000 s)) (or_default [] i.criteria))
    && within 120 (or_default (0 ∷ []) i.id)

-- The loop over the new goal's criteria; `fresh n` is the identifier of the n-th.
unfoldable pub add_criteria :
    ℕ → (ℕ → Text) → ℕ → Text → List Text → GoalDb → Outcome (List GoalCriterionRow)
unfolding add_goal_criterion
add_criteria now fresh n k [] db = (ok [], db)
add_criteria now fresh n k (d ∷ ds) db =
    let (row, db') = add_goal_criterion now (fresh n) k d db in
    let (rest, db'') = add_criteria now fresh (suc n) k ds db' in
    elim row [
      | none ↦ (err duplicate_key, db')
      | some c ↦ (elim rest [ err e ↦ err e | ok cs ↦ ok (c ∷ cs) ], db'')
    ]

abbrev pub new_goal : ℕ → Text → Text → CreateGoalInput → GoalRow
new_goal now by k i = record {
  id = k;
  title = i.title;
  description = or_default [] i.description;
  status = opened;
  priority = or_default medium i.priority;
  owner = or_default agent i.owner;
  parent_goal_id = i.parent_goal_id;
  blocked_by = or_default [] i.blocked_by;
  created_by = by;
  status_reason = [];
  created_at = now;
  updated_at = now;
  closed_at = none;
}

-- After the INSERT of the goal: its criteria, the event, and the answer.
unfoldable pub fill_goal :
    ℕ → Text → (ℕ → Text) → List Text → GoalRow → GoalDb → Outcome (GoalRow × List GoalCriterionRow)
unfolding add_criteria log_goal_event
fill_goal now by fresh descriptions goal db =
    let (rows, db') = add_criteria now fresh 0 goal.id descriptions db in
    elim rows [
      | err e ↦ (err e, db')
      | ok cs ↦ (ok (goal, cs), log_goal_event (goal_created by goal.id goal.title (length cs)) db')
    ]

-- `fresh_goal` and `fresh n` are the identifiers of the goal and of the n-th criterion.
unfoldable pub create_goal :
    ℕ
    → Text
    → Text
    → (ℕ → Text)
    → CreateGoalInput
    → GoalDb
    → Outcome (GoalRow × List GoalCriterionRow)
unfolding is_valid_input insert_goal fill_goal
create_goal now by fresh_goal fresh i db =
    let goal = new_goal now by (or_default fresh_goal i.id) i in
    let (inserted, db') = insert_goal goal db in
    if not (is_valid_input i)
    then (err invalid_input, db)
    else if not inserted
    then (err duplicate_key, db)
    else fill_goal now by fresh (or_default [] i.criteria) goal db'
