-- ===== src/Goals/Steps.antt =====
-- The operations of packages/daemon/src/goals/goal-harness.ts and the changes of Goals.Calls.
use revdev.Base.{
  Text, text_eq, trim, ℕ, suc, ◌≡◌, refl, ap, sym, ◌∙◌, ◌⊎◌, Bool, true, false, Bool-cases, inl,
  inr, not, ◌&&◌, some, List, [], ◌∷◌, keep, arith, if◌then◌else◌,
}
use revdev.Base.Result.{err}
use revdev.Base.Table.{first_where}
use revdev.Goals.Store.{
  GoalStatus, opened, active, blocked, done, abandoned, CriterionStatus, pending, met, failed,
  GoalRow, GoalCriterionRow, GoalTaskRow, GoalDb, is_done, is_met, is_failed, is_pending_status,
  has_key, get_goal, closes, add_goal_criterion, get_goal_criterion, update_criterion, recorded,
  reset_columns, linked, create_task, goal_activated, goal_blocked, goal_abandoned, goal_completed,
  criterion_added, criterion_met, criterion_failed, criterion_reset, task_proposed,
}
use revdev.Goals.Progress.{is_nothing, progress}
use revdev.Goals.Harness.{
  unresolved_blockers, unmet_criteria, only_failed, not_pending, goal_not_active, duplicate_key,
  is_unresolved, activate_goal, block_goal, abandon_goal, complete_goal, add_criteria,
}
use revdev.Goals.Criteria.{
  insert_criterion, add_criterion, terminal_goal, record_criterion, reset_criterion, is_active_goal,
  existing_task, propose_new, propose_task_for_criterion, task_description,
}
use revdev.Goals.Calls.{
  IsOpenAt, IsEdit, Changes, unless-Leaves, option-Leaves, with_goal-Leaves, with_criterion-Leaves,
  terminal_goal-IsOpenAt, recorded_failed-IsEdit, recorded_met-IsEdit, linked-IsEdit,
  reset_columns-IsEdit, log-leaves, unchanged-Leaves, Leaves, move_goal-Leaves,
  criterion_answer-Leaves,
}

negated_false : (b : Bool) → not b ≡ false → b ≡ true
negated_false true h = refl
negated_false false h = cc

recorded-IsEdit :
    (now : ℕ) (by evidence : Text) (verdict : CriterionStatus)
    → (verdict ≡ met) ⊎ (verdict ≡ failed)
    → is_met verdict && is_nothing (trim evidence) ≡ false
    → IsEdit (recorded now verdict evidence by)
unfolding is_met
recorded-IsEdit now by evidence pending which full = elim which [
  | inl e ↦ absurd (pending_met e)
  | inr e ↦ absurd (pending_failed e)
]
  where
    pending_met : pending ≡ met → ⊥
    pending_met e = cc

    pending_failed : pending ≡ failed → ⊥
    pending_failed e = cc
recorded-IsEdit now by evidence met which full = recorded_met-IsEdit now by evidence full
recorded-IsEdit now by evidence failed which full = recorded_failed-IsEdit now by evidence

active_not_closed : (s : GoalStatus) → not (is_active_goal s) ≡ false → closes s ≡ false
unfolding is_active_goal closes
active_not_closed opened h = refl
active_not_closed active h = refl
active_not_closed blocked h = refl
active_not_closed done h = cc
active_not_closed abandoned h = cc

-- Adding a criterion leaves the goals.
still_open :
    (now : ℕ) (fresh k description : Text) (d : GoalDb)
    → IsOpenAt k d
    → IsOpenAt k (add_goal_criterion now fresh k description d).1
unfolding add_goal_criterion get_goal
still_open now fresh k description d is_open =
    elim (Bool-cases (has_key (λ x. x.id) fresh d.criteria)) [
      | inl there ↦ rw there is_open
      | inr new ↦ rw new is_open
    ]

module _ (R : GoalDb → GoalDb → Type 0) (rules : Changes R) where
  pub activate_goal-Leaves :
      (now : ℕ) (by k : Text) (db : GoalDb) → Leaves (R db) (activate_goal now by k db)
  unfolding activate_goal is_done
  activate_goal-Leaves now by k db =
      with_goal-Leaves (R db) k db (get_goal k db) _ (rules.unchanged db) λ g found.
        let blockers = keep (is_unresolved db) g.blocked_by in
        unless-Leaves (R db) _ _ db _ (rules.unchanged db) λ allowed.
          unless-Leaves (R db) (not (is_nothing blockers)) (err (unresolved_blockers blockers)) db _
            (rules.unchanged db)
            λ free.
              move_goal-Leaves R rules now k active [] (goal_activated by k) db g found allowed
                (λ wrong. cc)

  pub block_goal-Leaves :
      (now : ℕ) (by k reason : Text) (db : GoalDb) → Leaves (R db) (block_goal now by k reason db)
  unfolding block_goal is_done
  block_goal-Leaves now by k reason db =
      with_goal-Leaves (R db) k db (get_goal k db) _ (rules.unchanged db) λ g found.
        unless-Leaves (R db) _ _ db _ (rules.unchanged db) λ allowed.
          move_goal-Leaves R rules now k blocked reason (goal_blocked by k reason) db g found
            allowed (λ wrong. cc)

  pub abandon_goal-Leaves :
      (now : ℕ) (by k reason : Text) (db : GoalDb) → Leaves (R db) (abandon_goal now by k reason db)
  unfolding abandon_goal is_done
  abandon_goal-Leaves now by k reason db =
      with_goal-Leaves (R db) k db (get_goal k db) _ (rules.unchanged db) λ g found.
        unless-Leaves (R db) _ _ db _ (rules.unchanged db) λ allowed.
          move_goal-Leaves R rules now k abandoned reason (goal_abandoned by k reason) db g found
            allowed (λ wrong. cc)

  pub complete_goal-Leaves :
      (now : ℕ) (by k : Text) (db : GoalDb) → Leaves (R db) (complete_goal now by k db)
  unfolding complete_goal
  complete_goal-Leaves now by k db =
      with_goal-Leaves (R db) k db (get_goal k db) _ (rules.unchanged db) λ g found.
        unless-Leaves (R db) _ _ db _ (rules.unchanged db) λ allowed.
          option-Leaves (R db) (progress k db) _ _ (λ missing. unchanged-Leaves R rules _ db)
            λ p has_progress.
              unless-Leaves (R db) (not p.ready_to_complete) (err (unmet_criteria (p.counts).unmet))
                db _ (rules.unchanged db)
                λ ready.
                  move_goal-Leaves R rules now k done [] (goal_completed by k) db g found allowed
                    (λ is. (p, has_progress, negated_false p.ready_to_complete ready))

  add_goal_criterion-leaves :
      (now : ℕ) (fresh k description : Text) (db d : GoalDb)
      → R db d
      → IsOpenAt k d
      → R db (add_goal_criterion now fresh k description d).1
  unfolding add_goal_criterion
  add_goal_criterion-leaves now fresh k description db d h is_open =
      elim (Bool-cases (has_key (λ x. x.id) fresh d.criteria)) [
        | inl there ↦ rw there h
        | inr new ↦ rw new (rules.append _ db d h new is_open refl)
      ]

  insert_criterion-Leaves :
      (now : ℕ) (by fresh k description : Text) (db : GoalDb)
      → IsOpenAt k db
      → Leaves (R db) (insert_criterion now by fresh k description db)
  unfolding insert_criterion
  insert_criterion-Leaves now by fresh k description db is_open =
      let added =
        add_goal_criterion-leaves now fresh k description db db (rules.unchanged db) is_open in
      option-Leaves (R db) {B = GoalCriterionRow} (add_goal_criterion now fresh k description db).0
        _ _ (λ present. record { leaves = added })
        (λ c is. record { leaves = log-leaves R rules (criterion_added by k c.id) db _ added })

  only_goal :
      (k : Text) (db : GoalDb) (g : GoalRow)
      → get_goal k db ≡ some g
      → closes g.status ≡ false
      → IsOpenAt k db
  only_goal k db g found not_shut x e = ground (arith, sym found ∙ e)

  pub add_criterion-Leaves :
      (now : ℕ) (by fresh k description : Text) (db : GoalDb)
      → Leaves (R db) (add_criterion now by fresh k description db)
  unfolding add_criterion
  add_criterion-Leaves now by fresh k description db =
      unless-Leaves (R db) (is_nothing (trim description)) _ db _ (rules.unchanged db) λ full.
        with_goal-Leaves (R db) k db (get_goal k db) _ (rules.unchanged db) λ g found.
          unless-Leaves (R db) (closes g.status) _ db _ (rules.unchanged db) λ not_shut.
            insert_criterion-Leaves now by fresh k (trim description) db
              (only_goal k db g found not_shut)

  pub record_criterion-Leaves :
      (now : ℕ) (by k : Text) (verdict : CriterionStatus) (evidence : Text) (db : GoalDb)
      → (verdict ≡ met) ⊎ (verdict ≡ failed)
      → Leaves (R db) (record_criterion now by k verdict evidence db)
  unfolding record_criterion
  record_criterion-Leaves now by k verdict evidence db which =
      with_criterion-Leaves (R db) k db (get_goal_criterion k db) _ (rules.unchanged db) λ c found.
        option-Leaves (R db) (terminal_goal c db) _ _
          (λ not_shut.
            unless-Leaves (R db) (is_met verdict && is_nothing (trim evidence)) _ db _
              (rules.unchanged db)
              λ full.
                criterion_answer-Leaves R rules k
                  (λ x.
                    if is_met verdict
                    then criterion_met by x.goal_id k
                    else criterion_failed by x.goal_id k)
                  db (update_criterion k (recorded now verdict evidence by) db)
                  (rules.edit k (recorded now verdict evidence by) c db db (rules.unchanged db)
                    found (terminal_goal-IsOpenAt c db not_shut)
                    (recorded-IsEdit now by evidence verdict which full)))
          (λ s shut. unchanged-Leaves R rules _ db)

  pub reset_criterion-Leaves : (by k : Text) (db : GoalDb) → Leaves (R db) (reset_criterion by k db)
  unfolding reset_criterion
  reset_criterion-Leaves by k db =
      with_criterion-Leaves (R db) k db (get_goal_criterion k db) _ (rules.unchanged db) λ c found.
        option-Leaves (R db) (terminal_goal c db) _ _
          (λ not_shut.
            unless-Leaves (R db) (not (is_failed c.status)) (err (only_failed c.status)) db _
              (rules.unchanged db)
              λ is.
                criterion_answer-Leaves R rules k (λ x. criterion_reset by x.goal_id k) db
                  (update_criterion k reset_columns db)
                  (rules.edit k reset_columns c db db (rules.unchanged db) found
                    (terminal_goal-IsOpenAt c db not_shut) reset_columns-IsEdit))
          (λ s shut. unchanged-Leaves R rules _ db)

  create_task-leaves :
      (now : ℕ) (fresh description : Text) (db : GoalDb)
      → R db (create_task now fresh description db).1
        × ((create_task now fresh description db).1.criteria ≡ db.criteria)
        × ((create_task now fresh description db).1.goals ≡ db.goals)
  unfolding create_task
  create_task-leaves now fresh description db =
      elim (Bool-cases (has_key (λ x. x.id) fresh db.tasks)) [
        | inl there ↦ rw there (rules.unchanged db, refl, refl)
        | inr new ↦ rw new (rules.set_tasks _ db db (rules.unchanged db), refl, refl)
      ]

  propose_new-Leaves :
      (now : ℕ) (by fresh k : Text) (g : GoalRow) (c : GoalCriterionRow) (db : GoalDb)
      → get_goal_criterion k db ≡ some c
      → IsOpenAt c.goal_id db
      → Leaves (R db) (propose_new now by fresh k g c db)
  unfolding propose_new get_goal_criterion get_goal
  propose_new-Leaves now by fresh k g c db found is_open =
      let description = task_description g c in
      let d = (create_task now fresh description db).1 in
      let (made, same_criteria, same_goals) = create_task-leaves now fresh description db in
      let found' : get_goal_criterion k d ≡ some c =
        ap (first_where (λ x. text_eq x.id k)) same_criteria ∙ found in
      let open' : IsOpenAt c.goal_id d =
        λ x e. is_open x (ap (first_where (λ y. text_eq y.id c.goal_id)) (sym same_goals) ∙ e) in
      let tied = rules.edit k (linked fresh) c db d made found' open' (linked-IsEdit fresh) in
      option-Leaves (R db) {B = GoalTaskRow} (create_task now fresh description db).0 _ _
        (λ present. record { leaves = made })
        (λ task is. record {
          leaves = log-leaves R rules (task_proposed by g.id k fresh) db _ tied;
        })

  pub propose_task_for_criterion-Leaves :
      (now : ℕ) (by fresh k : Text) (db : GoalDb)
      → Leaves (R db) (propose_task_for_criterion now by fresh k db)
  unfolding propose_task_for_criterion
  propose_task_for_criterion-Leaves now by fresh k db =
      with_criterion-Leaves (R db) k db (get_goal_criterion k db) _ (rules.unchanged db) λ c found.
        with_goal-Leaves (R db) c.goal_id db (get_goal c.goal_id db) _ (rules.unchanged db)
          λ g has_goal.
            unless-Leaves (R db) (not (is_active_goal g.status)) (err (goal_not_active g.status)) db
              _ (rules.unchanged db)
              λ act.
                unless-Leaves (R db) (not (is_pending_status c.status)) (err (not_pending c.status))
                  db _ (rules.unchanged db)
                  λ pend.
                    option-Leaves (R db) (existing_task c db) _ _
                      (λ none_yet.
                        propose_new-Leaves now by fresh k g c db found
                          (only_goal c.goal_id db g has_goal (active_not_closed g.status act)))
                      (λ task is. unchanged-Leaves R rules _ db)

  pub add_criteria-leaves :
      (descriptions : List Text) (now : ℕ) (fresh : ℕ → Text) (n : ℕ) (k : Text) (db d : GoalDb)
      → R db d
      → IsOpenAt k d
      → R db (add_criteria now fresh n k descriptions d).1
  unfolding add_criteria
  add_criteria-leaves [] now fresh n k db d h is_open = h
  add_criteria-leaves (t ∷ ts) now fresh n k db d h is_open =
      let added = add_goal_criterion-leaves now (fresh n) k t db d h is_open in
      let d' = (add_goal_criterion now (fresh n) k t d).1 in
      let rest =
        add_criteria-leaves ts now fresh (suc n) k db d' added
          (still_open now (fresh n) k t d is_open) in
      (option-Leaves (R db) {B = GoalCriterionRow} (add_goal_criterion now (fresh n) k t d).0
        (err duplicate_key, d') _ (λ present. record { leaves = added })
        (λ c is. record { leaves = rest })).leaves
