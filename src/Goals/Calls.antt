-- ===== src/Goals/Calls.antt =====
-- Calls on packages/daemon/src/goals/goal-harness.ts, one after another, and the changes that one call
-- may make to the tables.
use revdev.Base.{
  Text, trim, ℕ, ◌≡◌, refl, sym, ◌∙◌, Bool, true, false, Bool-cases, inl, inr, not, Option, none,
  some, List, [], ◌∷◌, ◌++◌, arith, if◌then◌else◌,
}
use revdev.Base.Result.{Result, ok, err}
use revdev.Goals.Store.{
  GoalStatus, opened, pending, met, failed, GoalRow, GoalCriterionRow, GoalTaskRow, GoalEvent,
  GoalDb, is_done, is_met, has_key, log_goal_event, get_goal, closes, set_goal_status,
  get_goal_criterion, update_criterion, recorded, reset_columns, linked,
}
use revdev.Goals.Progress.{GoalProgress, is_nothing, progress}
use revdev.Goals.Harness.{
  GoalRefusal, with_goal, with_criterion, can_transition, move_goal, activate_goal, block_goal,
  abandon_goal, complete_goal, CreateGoalInput, create_goal,
}
use revdev.Goals.Criteria.{
  add_criterion, terminal_goal, criterion_answer, record_criterion, reset_criterion,
  propose_task_for_criterion,
}

-- A call of the harness; `tasks_change` is what other handlers do to the tasks.
pub data GoalCall : Type 0 where
  create : ℕ → Text → Text → (ℕ → Text) → CreateGoalInput → GoalCall
  activate complete : ℕ → Text → Text → GoalCall
  block abandon : ℕ → Text → Text → Text → GoalCall
  add : ℕ → Text → Text → Text → Text → GoalCall
  note_met note_failed : ℕ → Text → Text → Text → GoalCall
  reset : Text → Text → GoalCall
  propose : ℕ → Text → Text → Text → GoalCall
  tasks_change : List GoalTaskRow → GoalCall

-- The tables after a call.
unfoldable pub after_call : GoalCall → GoalDb → GoalDb
unfolding create_goal activate_goal complete_goal block_goal abandon_goal add_criterion
    record_criterion reset_criterion propose_task_for_criterion
after_call (create now by fresh_goal fresh i) db = (create_goal now by fresh_goal fresh i db).1
after_call (activate now by k) db = (activate_goal now by k db).1
after_call (complete now by k) db = (complete_goal now by k db).1
after_call (block now by k reason) db = (block_goal now by k reason db).1
after_call (abandon now by k reason) db = (abandon_goal now by k reason db).1
after_call (add now by fresh k description) db = (add_criterion now by fresh k description db).1
after_call (note_met now by k evidence) db = (record_criterion now by k met evidence db).1
after_call (note_failed now by k evidence) db = (record_criterion now by k failed evidence db).1
after_call (reset by k) db = (reset_criterion by k db).1
after_call (propose now by fresh k) db = (propose_task_for_criterion now by fresh k db).1
after_call (tasks_change tasks) db = record db { tasks = tasks }

unfoldable pub after_calls : List GoalCall → GoalDb → GoalDb
unfolding after_call
after_calls [] db = db
after_calls (c ∷ cs) db = after_calls cs (after_call c db)

-- No goal of this key is terminal.
abbrev pub IsOpenAt : Text → GoalDb → Type 0
IsOpenAt k db = (g : GoalRow) → get_goal k db ≡ some g → closes g.status ≡ false

-- Where the criterion is met, its evidence is not blank.
abbrev pub HasEvidence : GoalCriterionRow → Type 0
HasEvidence c = is_met c.status ≡ true → is_nothing (trim c.evidence) ≡ false

-- An edit of a criterion keeps its keys, and the evidence of what is met.
pub record IsEdit (set : GoalCriterionRow → GoalCriterionRow) : Type 0 where
  pub keeps_id : (c : GoalCriterionRow) → (set c).id ≡ c.id
  pub keeps_goal : (c : GoalCriterionRow) → (set c).goal_id ≡ c.goal_id
  pub keeps_evidence : (c : GoalCriterionRow) → HasEvidence c → HasEvidence (set c)

-- The changes: `R db d` says that a call on `db` may have led to `d`.
pub record Changes (R : GoalDb → GoalDb → Type 0) : Type 0 where
  pub unchanged : (db : GoalDb) → R db db
  pub move :
      (now : ℕ) (k : Text) (s : GoalStatus) (reason : Text) (db : GoalDb) (g : GoalRow)
      → get_goal k db ≡ some g
      → can_transition g.status s ≡ true
      → (is_done s ≡ true
          → (p : GoalProgress) × (progress k db ≡ some p) × (p.ready_to_complete ≡ true))
      → R db (set_goal_status now k s reason db)
  pub insert :
      (g : GoalRow) (db : GoalDb)
      → has_key (λ x. x.id) g.id db.goals ≡ false
      → g.status ≡ opened
      → R db (record db { goals = db.goals ++ g ∷ [] })
  pub set_events : (es : List GoalEvent) (db d : GoalDb) → R db d → R db (record d { events = es })
  pub set_tasks : (ts : List GoalTaskRow) (db d : GoalDb) → R db d → R db (record d { tasks = ts })
  pub append :
      (row : GoalCriterionRow) (db d : GoalDb)
      → R db d
      → has_key (λ x. x.id) row.id d.criteria ≡ false
      → IsOpenAt row.goal_id d
      → row.status ≡ pending
      → R db (record d { criteria = d.criteria ++ row ∷ [] })
  pub edit :
      (k : Text) (set : GoalCriterionRow → GoalCriterionRow) (c : GoalCriterionRow) (db d : GoalDb)
      → R db d
      → get_goal_criterion k d ≡ some c
      → IsOpenAt c.goal_id d
      → IsEdit set
      → R db (update_criterion k set d)

-- What holds of the tables that an answer comes with.
pub record Leaves {ℓ} {A : Type ℓ} (P : GoalDb → Type 0) (r : Result GoalRefusal A × GoalDb)
    : Type 0 where
  pub leaves : P r.1

-- What holds in both branches holds of a choice.
module _ {ℓ} {A : Type ℓ} (P : GoalDb → Type 0) where
  pub if-Leaves :
      (b : Bool) (x y : Result GoalRefusal A × GoalDb)
      → (b ≡ true → Leaves P x)
      → (b ≡ false → Leaves P y)
      → Leaves P (if b then x else y)
  if-Leaves true x y h k = h refl
  if-Leaves false x y h k = k refl

  -- An early return leaves the tables as they are.
  pub unless-Leaves :
      (b : Bool) (r : Result GoalRefusal A) (db : GoalDb) (y : Result GoalRefusal A × GoalDb)
      → P db
      → (b ≡ false → Leaves P y)
      → Leaves P (if b then (r, db) else y)
  unless-Leaves true r db y h k = record { leaves = h }
  unless-Leaves false r db y h k = k refl

  pub option-Leaves {κ} :
      {B : Type κ} (o : Option B) (x : Result GoalRefusal A × GoalDb)
      (f : B → Result GoalRefusal A × GoalDb)
      → (o ≡ none → Leaves P x)
      → ((b : B) → o ≡ some b → Leaves P (f b))
      → Leaves P (elim o as (λ x. Result GoalRefusal A × GoalDb) [ none ↦ x | some b ↦ f b ])
  option-Leaves none x f h k = h refl
  option-Leaves (some b) x f h k = k b refl

  pub result-Leaves {κ} :
      {B : Type κ} (r : Result GoalRefusal B) (f : GoalRefusal → Result GoalRefusal A × GoalDb)
      (h : B → Result GoalRefusal A × GoalDb)
      → ((e : GoalRefusal) → Leaves P (f e))
      → ((b : B) → Leaves P (h b))
      → Leaves P (elim r as (λ x. Result GoalRefusal A × GoalDb) [ err e ↦ f e | ok b ↦ h b ])
  result-Leaves (err e) f h p q = p e
  result-Leaves (ok b) f h p q = q b

  pub with_goal-Leaves :
      (k : Text) (db : GoalDb) (o : Option GoalRow) (rest : GoalRow → Result GoalRefusal A × GoalDb)
      → P db
      → ((g : GoalRow) → o ≡ some g → Leaves P (rest g))
      → Leaves P (with_goal k db o rest)
  with_goal-Leaves k db none rest h f = record { leaves = h }
  with_goal-Leaves k db (some g) rest h f = f g refl

  pub with_criterion-Leaves :
      (k : Text) (db : GoalDb) (o : Option GoalCriterionRow)
      (rest : GoalCriterionRow → Result GoalRefusal A × GoalDb)
      → P db
      → ((c : GoalCriterionRow) → o ≡ some c → Leaves P (rest c))
      → Leaves P (with_criterion k db o rest)
  with_criterion-Leaves k db none rest h f = record { leaves = h }
  with_criterion-Leaves k db (some c) rest h f = f c refl

pub terminal_goal-IsOpenAt :
    (c : GoalCriterionRow) (db : GoalDb) → terminal_goal c db ≡ none → IsOpenAt c.goal_id db
unfolding terminal_goal
terminal_goal-IsOpenAt c db h g found = elim (Bool-cases (closes g.status)) [
  | inl shut ↦ absurd (none_some g.status (sym h ∙ rw (terminal_goal, found, shut) refl))
  | inr other ↦ other
]
  where
    none_some : (s : GoalStatus) → ◌≡◌ {A = Option GoalStatus} none (some s) → ⊥
    none_some s e = cc

pub recorded_failed-IsEdit :
    (now : ℕ) (by evidence : Text) → IsEdit (recorded now failed evidence by)
unfolding recorded is_met
recorded_failed-IsEdit now by evidence = record {
  keeps_id = λ c. refl;
  keeps_goal = λ c. refl;
  keeps_evidence = λ c h wrong. cc;
}

pub recorded_met-IsEdit :
    (now : ℕ) (by evidence : Text)
    → is_nothing (trim evidence) ≡ false
    → IsEdit (recorded now met evidence by)
unfolding recorded
recorded_met-IsEdit now by evidence full = record {
  keeps_id = λ c. refl;
  keeps_goal = λ c. refl;
  keeps_evidence = λ c h is. full;
}

pub linked-IsEdit : (task : Text) → IsEdit (linked task)
unfolding linked
linked-IsEdit task = record {
  keeps_id = λ c. refl;
  keeps_goal = λ c. refl;
  keeps_evidence = λ c h. h;
}

pub reset_columns-IsEdit : IsEdit reset_columns
unfolding reset_columns is_met
reset_columns-IsEdit = record {
  keeps_id = λ c. ground arith;
  keeps_goal = λ c. ground arith;
  keeps_evidence = λ c h. ground (arith, h);
}

module _ (R : GoalDb → GoalDb → Type 0) (rules : Changes R) where
  pub log-leaves : (e : GoalEvent) (db d : GoalDb) → R db d → R db (log_goal_event e d)
  unfolding log_goal_event
  log-leaves e db d h = rules.set_events (d.events ++ e ∷ []) db d h

  pub move_goal-Leaves :
      (now : ℕ) (k : Text) (s : GoalStatus) (reason : Text) (e : GoalEvent) (db : GoalDb)
      (g : GoalRow)
      → get_goal k db ≡ some g
      → not (can_transition g.status s) ≡ false
      → (is_done s ≡ true
          → (p : GoalProgress) × (progress k db ≡ some p) × (p.ready_to_complete ≡ true))
      → Leaves (R db) (move_goal now k s reason e db)
  unfolding move_goal
  move_goal-Leaves now k s reason e db g found allowed ready = record {
    leaves = log-leaves e db _ (rules.move now k s reason db g found (ground arith) ready);
  }

  pub criterion_answer-Leaves :
      (k : Text) (event : GoalCriterionRow → GoalEvent) (db d : GoalDb)
      → R db d
      → Leaves (R db) (criterion_answer k event d)
  unfolding criterion_answer
  criterion_answer-Leaves k event db d h =
      option-Leaves (R db) (get_goal_criterion k d) _ _ (λ missing. record { leaves = h })
        (λ c found. record { leaves = log-leaves (event c) db d h })

  pub unchanged-Leaves {ℓ} :
      {A : Type ℓ} (r : Result GoalRefusal A) (db : GoalDb) → Leaves (R db) (r, db)
  unchanged-Leaves r db = record { leaves = rules.unchanged db }
