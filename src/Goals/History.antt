-- ===== src/Goals/History.antt =====
-- Calls on packages/daemon/src/goals/goal-harness.ts and the changes of Goals.Calls.
use revdev.Base.{
  Text, ℕ, ◌≡◌, refl, sym, ◌∙◌, false, Bool-cases, inl, inr, not, Option, some, List, [], ◌∷◌, ◌++◌,
  length, arith,
}
use revdev.Base.Result.{err}
use revdev.Base.Rows.{row_at-none, row_at-append_new}
use revdev.Goals.Store.{
  opened, met, failed, GoalRow, GoalDb, has_key, get_goal, insert_goal, closes, goal_created,
}
use revdev.Goals.Harness.{
  CreateGoalInput, or_default, is_valid_input, add_criteria, new_goal, fill_goal, create_goal,
  invalid_input,
}
use revdev.Goals.Calls.{
  GoalCall, create, activate, complete, block, abandon, add, note_met, note_failed, reset, propose,
  tasks_change, after_call, IsOpenAt, Changes, Leaves, unless-Leaves, result-Leaves, log-leaves,
}
use revdev.Goals.Steps.{
  activate_goal-Leaves, block_goal-Leaves, abandon_goal-Leaves, complete_goal-Leaves,
  add_criterion-Leaves, record_criterion-Leaves, reset_criterion-Leaves,
  propose_task_for_criterion-Leaves, add_criteria-leaves,
}

-- The new goal is the one that its key finds.
insert_goal-IsOpenAt :
    (g : GoalRow) (db : GoalDb)
    → has_key (λ x. x.id) g.id db.goals ≡ false
    → g.status ≡ opened
    → IsOpenAt g.id (record db { goals = db.goals ++ g ∷ [] })
unfolding get_goal closes
insert_goal-IsOpenAt g db new is_opened x e =
    let found =
      row_at-append_new (λ y. y.id) db.goals g (row_at-none (λ y. y.id) g.id db.goals new) in
    let same : ◌≡◌ {A = Option GoalRow} (some g) (some x) = sym found ∙ e in
    ground (arith, same, is_opened)

module _ (R : GoalDb → GoalDb → Type 0) (rules : Changes R) where
  fill_goal-Leaves :
      (now : ℕ) (by : Text) (fresh : ℕ → Text) (descriptions : List Text) (goal : GoalRow)
      (db d : GoalDb)
      → R db d
      → IsOpenAt goal.id d
      → Leaves (R db) (fill_goal now by fresh descriptions goal d)
  unfolding fill_goal
  fill_goal-Leaves now by fresh descriptions goal db d h is_open =
      let out = add_criteria now fresh 0 goal.id descriptions d in
      let added : R db (out.1) =
        add_criteria-leaves R rules descriptions now fresh 0 goal.id db d h is_open in
      result-Leaves (R db) (out.0) (λ e. (err e, out.1)) _ (λ e. record { leaves = added })
        (λ cs. record {
          leaves =
              log-leaves R rules (goal_created by goal.id goal.title (length cs)) db (out.1) added;
        })

  create_goal-Leaves :
      (now : ℕ) (by fresh_goal : Text) (fresh : ℕ → Text) (i : CreateGoalInput) (db : GoalDb)
      → Leaves (R db) (create_goal now by fresh_goal fresh i db)
  unfolding create_goal insert_goal
  create_goal-Leaves now by fresh_goal fresh i db =
      let goal = new_goal now by (or_default fresh_goal i.id) i in
      unless-Leaves (R db) (not (is_valid_input i)) (err invalid_input) db _ (rules.unchanged db)
        λ valid. elim (Bool-cases (has_key (λ x. x.id) (or_default fresh_goal i.id) db.goals)) [
          | inl there ↦ rw there (record { leaves = rules.unchanged db })
          | inr new ↦ rw new (
              fill_goal-Leaves now by fresh (or_default [] i.criteria) goal db _
                (rules.insert goal db new refl) (insert_goal-IsOpenAt goal db new refl))
        ]

  -- A call relates the tables before to those after by any relation that the changes are closed under.
  pub after_call-Changes : (c : GoalCall) (db : GoalDb) → R db (after_call c db)
  unfolding after_call
  after_call-Changes (create now by fresh_goal fresh i) db =
      (create_goal-Leaves now by fresh_goal fresh i db).leaves
  after_call-Changes (activate now by k) db = (activate_goal-Leaves R rules now by k db).leaves
  after_call-Changes (complete now by k) db = (complete_goal-Leaves R rules now by k db).leaves
  after_call-Changes (block now by k reason) db =
      (block_goal-Leaves R rules now by k reason db).leaves
  after_call-Changes (abandon now by k reason) db =
      (abandon_goal-Leaves R rules now by k reason db).leaves
  after_call-Changes (add now by fresh k description) db =
      (add_criterion-Leaves R rules now by fresh k description db).leaves
  after_call-Changes (note_met now by k evidence) db =
      (record_criterion-Leaves R rules now by k met evidence db (inl refl)).leaves
  after_call-Changes (note_failed now by k evidence) db =
      (record_criterion-Leaves R rules now by k failed evidence db (inr refl)).leaves
  after_call-Changes (reset by k) db = (reset_criterion-Leaves R rules by k db).leaves
  after_call-Changes (propose now by fresh k) db =
      (propose_task_for_criterion-Leaves R rules now by fresh k db).leaves
  after_call-Changes (tasks_change tasks) db = rules.set_tasks tasks db db (rules.unchanged db)
