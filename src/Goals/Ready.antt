-- ===== src/Goals/Ready.antt =====
-- When `progress` of packages/daemon/src/goals/goal-harness.ts says that a goal is ready, and when
-- `completeGoal` completes it.
use revdev.Base.{
  Text, txt, text_eq, ℕ, suc, ◌+◌, ◌≡◌, refl, ap, ◌∙◌, Bool, true, false, Bool-cases, inl, inr,
  ◌&&◌, Option, none, some, List, [], ◌∷◌, ◌++◌, count_if, length, arith, if◌then◌else◌,
}
use revdev.Goals.Store.{
  CriterionStatus, pending, met, failed, GoalCriterionRow, GoalTaskRow, GoalDb, is_met,
}
use revdev.Goals.Progress.{Unmet, Tally, task_of, tally_status, tally_task, tally, is_nothing}

-- The task of a criterion, if there is one, is completed.
unfoldable pub task_finished : Option GoalTaskRow → Bool
unfolding text_eq txt
task_finished none = true
task_finished (some task) = text_eq task.status (txt "completed")

-- A criterion that is met, and whose task is completed.
abbrev pub is_finished : GoalDb → GoalCriterionRow → Bool
is_finished db c = is_met c.status && task_finished (task_of db c)

abbrev pub all_of {ℓ} : {A : Type ℓ} → (A → Bool) → List A → Bool
all_of test [] = true
all_of test (x ∷ xs) = test x && all_of test xs

append_something : (xs : List Unmet) (u : Unmet) → is_nothing (xs ++ u ∷ []) ≡ false
append_something [] u = refl
append_something (x ∷ xs) u = refl

-- What one criterion does to the counts.
abbrev counted : GoalDb → GoalCriterionRow → Tally → Tally
counted db c t = tally_task (task_of db c) (tally_status c.status c.description t)

status_unmet :
    (s : CriterionStatus) (d : Text) (t : Tally)
    → is_nothing (tally_status s d t).unmet ≡ (is_nothing t.unmet && is_met s)
unfolding tally_status is_met
status_unmet met d t = ground arith
status_unmet failed d t = append_something t.unmet _ ∙ ground arith
status_unmet pending d t = append_something t.unmet _ ∙ ground arith

task_unmet :
    (o : Option GoalTaskRow) (t : Tally)
    → is_nothing (tally_task o t).unmet ≡ (is_nothing t.unmet && task_finished o)
unfolding tally_task task_finished
task_unmet none t = ground arith
task_unmet (some task) t = elim (Bool-cases (text_eq task.status (txt "completed"))) [
  | inl yes_done ↦ rw yes_done (ground arith)
  | inr other ↦ elim (Bool-cases (text_eq task.status (txt "claimed"))) [
    | inl is_claimed ↦ rw (other, is_claimed) (append_something t.unmet _ ∙ ground arith)
    | inr neither ↦ rw (other, neither) (append_something t.unmet _ ∙ ground arith)
  ]
]

and_assoc : (a b c : Bool) → ((a && b) && c) ≡ (a && (b && c))
and_assoc true b c = refl
and_assoc false b c = refl

pub tally_unmet :
    (db : GoalDb) (cs : List GoalCriterionRow) (t : Tally)
    → is_nothing (tally db cs t).unmet ≡ (is_nothing t.unmet && all_of (is_finished db) cs)
unfolding tally
tally_unmet db [] t = ground arith
tally_unmet db (c ∷ cs) t =
    let one : is_nothing (counted db c t).unmet ≡ (is_nothing t.unmet && is_finished db c) =
      task_unmet (task_of db c) _
      ∙ ap (λ b. b && task_finished (task_of db c)) (status_unmet c.status c.description t)
      ∙ and_assoc (is_nothing t.unmet) (is_met c.status) (task_finished (task_of db c)) in
    tally_unmet db cs (counted db c t)
    ∙ ap (λ b. b && all_of (is_finished db) cs) one
    ∙ and_assoc (is_nothing t.unmet) (is_finished db c) (all_of (is_finished db) cs)

-- The sums of the counts.
abbrev criteria_sum : Tally → ℕ
criteria_sum t = t.met_count + (t.failed_count + t.pending_count)

abbrev task_sum : Tally → ℕ
task_sum t = t.completed_count + (t.claimed_count + t.open_count)

-- One criterion adds one to one count of its status, and its task as much to its kind as to all.
pub record IsCounted (t u : Tally) (in_met : ℕ) : Type 0 where
  pub one_more : criteria_sum u ≡ suc (criteria_sum t)
  pub met_more : u.met_count ≡ in_met + t.met_count
  pub tasks_more : u.linked_count + task_sum t ≡ t.linked_count + task_sum u

status-IsCounted :
    (s : CriterionStatus) (d : Text) (t : Tally)
    → IsCounted t (tally_status s d t) (if is_met s then 1 else 0)
unfolding tally_status is_met
status-IsCounted met d t = record {
  one_more = omega arith;
  met_more = omega arith;
  tasks_more = omega arith;
}
status-IsCounted failed d t = record {
  one_more = omega arith;
  met_more = omega arith;
  tasks_more = omega arith;
}
status-IsCounted pending d t = record {
  one_more = omega arith;
  met_more = omega arith;
  tasks_more = omega arith;
}

task-IsCounted :
    (o : Option GoalTaskRow) (t u : Tally) (n : ℕ)
    → IsCounted t u n
    → IsCounted t (tally_task o u) n
unfolding tally_task
task-IsCounted none t u n h = h
task-IsCounted (some task) t u n h = elim (Bool-cases (text_eq task.status (txt "completed"))) [
  | inl yes_done ↦ rw yes_done (record {
    one_more = h.one_more;
    met_more = h.met_more;
    tasks_more = omega (arith, h.tasks_more);
  })
  | inr other ↦ elim (Bool-cases (text_eq task.status (txt "claimed"))) [
    | inl is_claimed ↦
        rw (other, is_claimed)
          (record {
            one_more = h.one_more;
            met_more = h.met_more;
            tasks_more = omega (arith, h.tasks_more);
          })
    | inr neither ↦
        rw (other, neither)
          (record {
            one_more = h.one_more;
            met_more = h.met_more;
            tasks_more = omega (arith, h.tasks_more);
          })
  ]
]

pub record Sums (t u : Tally) (cs : List GoalCriterionRow) : Type 0 where
  pub total_more : criteria_sum u ≡ criteria_sum t + length cs
  pub all_met : u.met_count ≡ t.met_count + count_if (λ c. is_met c.status) cs
  pub all_tasks : u.linked_count + task_sum t ≡ t.linked_count + task_sum u

pub tally-Sums : (db : GoalDb) (cs : List GoalCriterionRow) (t : Tally) → Sums t (tally db cs t) cs
unfolding tally
tally-Sums db [] t = record { total_more = omega arith; all_met = omega arith; all_tasks = refl }
tally-Sums db (c ∷ cs) t =
    let one = task-IsCounted (task_of db c) t _ _ (status-IsCounted c.status c.description t) in
    let rest = tally-Sums db cs (counted db c t) in
    record {
      total_more = omega (arith, one.one_more, rest.total_more);
      all_met = omega (arith, one.met_more, rest.all_met);
      all_tasks = omega (arith, one.tasks_more, rest.all_tasks);
    }
