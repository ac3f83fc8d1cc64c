-- ===== src/Goals/Completion.antt =====
-- The answers of `progress`, `nextActions` and `completeGoal` of
-- packages/daemon/src/goals/goal-harness.ts together.
use revdev.Base.{
  Text, text_eq, text_eq_refl, ℕ, ◌+◌, ◌≡◌, refl, ap, sym, ◌∙◌, subst, true, false, Bool-cases, inl,
  inr, not, ◌&&◌, Option, none, some, List, [], ◌∷◌, ◌++◌, count_if, length, arith, if◌then◌else◌,
}
use mathlib.Core.Option
use revdev.Base.Result.{ok}
use revdev.Base.Rows.{updated, row_at-update_where, key_of_row}
use revdev.Goals.Store.{
  GoalStatus, active, done, CriterionStatus, pending, met, failed, GoalRow, GoalCriterionRow,
  GoalDb, is_met, get_goal, with_status, set_goal_status, list_goal_criteria, log_goal_event,
  goal_completed,
}
use revdev.Goals.Progress.{
  empty_tally, GoalProgress, is_nothing, progress_of, progress, action_by, actions_for,
  next_actions, task_of,
}
use revdev.Goals.Harness.{can_transition, move_goal, complete_goal}
use revdev.Goals.Ready.{task_finished, is_finished, all_of, tally_unmet, tally-Sums}

abbrev pub status_at : Text → GoalDb → Option GoalStatus
unfolding get_goal
status_at k db = Option.map (λ g. g.status) (get_goal k db)

some_progress : (p q : GoalProgress) → ◌≡◌ {A = Option GoalProgress} (some p) (some q) → p ≡ q
some_progress p q e = ground (arith, e)

empty_unmet : (cs : List GoalCriterionRow) → is_nothing (empty_tally cs).unmet ≡ not (is_nothing cs)
unfolding empty_tally
empty_unmet [] = refl
empty_unmet (c ∷ cs) = refl

found_progress :
    (k : Text) (db : GoalDb) (g : GoalRow) (p : GoalProgress)
    → get_goal k db ≡ some g
    → progress k db ≡ some p
    → progress_of k db g ≡ p
unfolding progress
found_progress k db g p found h =
    some_progress (progress_of k db g) p (sym (rw (progress, found) refl) ∙ h)

-- What a report of progress says of the criteria: it says ready exactly where there is a criterion, and
-- each is met and its task, if it has one, completed; the counts of criteria add up to their number, the
-- one of met criteria is their number, and the counts of tasks add up.
pub progress-is_finished :
    (k : Text) (db : GoalDb) (g : GoalRow) (p : GoalProgress)
    → get_goal k db ≡ some g
    → progress k db ≡ some p
    → (p.ready_to_complete ≡ (
        not (is_nothing (list_goal_criteria k db))
        && all_of (is_finished db) (list_goal_criteria k db)))
      × ((p.counts).met_count + ((p.counts).failed_count + (p.counts).pending_count)
          ≡ length (list_goal_criteria k db))
      × ((p.counts).met_count ≡ count_if (λ c. is_met c.status) (list_goal_criteria k db))
      × ((p.counts).completed_count + ((p.counts).claimed_count + (p.counts).open_count)
          ≡ (p.counts).linked_count)
unfolding empty_tally
progress-is_finished k db g p found h =
    let cs = list_goal_criteria k db in
    let same = found_progress k db g p found h in
    let sums = tally-Sums db cs (empty_tally cs) in
    subst
      (λ p.
        (p.ready_to_complete ≡ (not (is_nothing cs) && all_of (is_finished db) cs))
        × ((p.counts).met_count + ((p.counts).failed_count + (p.counts).pending_count) ≡ length cs)
        × ((p.counts).met_count ≡ count_if (λ c. is_met c.status) cs)
        × ((p.counts).completed_count + ((p.counts).claimed_count + (p.counts).open_count)
            ≡ (p.counts).linked_count))
      same
      (
        tally_unmet db cs (empty_tally cs)
            ∙ ap (λ b. b && all_of (is_finished db) cs) (empty_unmet cs),
        omega (arith, sums.total_more),
        omega (arith, sums.all_met),
        omega (arith, sums.all_tasks),
      )

nothing_left : {A : Type 0} (xs ys : List A) → xs ++ ys ≡ [] → (xs ≡ []) × (ys ≡ [])
nothing_left [] ys h = (refl, h)
nothing_left (x ∷ xs) ys h = cc

no_action :
    (s : CriterionStatus) (db : GoalDb) (c : GoalCriterionRow)
    → action_by s db c ≡ []
    → is_met s ≡ true
unfolding action_by is_met
no_action met db c h = refl
no_action failed db c h = cc
no_action pending db c h = cc

-- Without an action left, every criterion is met.
no_actions :
    (db : GoalDb) (cs : List GoalCriterionRow)
    → actions_for db cs ≡ []
    → all_of (λ c. is_met c.status) cs ≡ true
unfolding actions_for
no_actions db [] h = refl
no_actions db (c ∷ cs) h =
    let (here, rest) = nothing_left (action_by c.status db c) (actions_for db cs) h in
    ground (arith, no_action c.status db c here, no_actions db cs rest)

both :
    (db : GoalDb) (cs : List GoalCriterionRow)
    → all_of (λ c. is_met c.status) cs ≡ true
    → all_of (λ c. task_finished (task_of db c)) cs ≡ true
    → all_of (is_finished db) cs ≡ true
both db [] h k = refl
both db (c ∷ cs) h k = ground (arith, h, k, both db cs)

pub status_at-set_goal_status :
    (now : ℕ) (k : Text) (s : GoalStatus) (reason : Text) (db : GoalDb) (g : GoalRow) (j : Text)
    → get_goal j db ≡ some g
    → status_at j (set_goal_status now k s reason db)
      ≡ some (if text_eq g.id k then s else g.status)
unfolding status_at get_goal set_goal_status with_status
status_at-set_goal_status now k s reason db g j found =
    ap (Option.map (λ x. x.status)) (
      row_at-update_where (λ x. x.id) j (λ x. text_eq x.id k) (with_status now s reason) db.goals
        (λ a. refl)
      ∙ ap (Option.map (updated (λ x. text_eq x.id k) (with_status now s reason))) found)
    ∙ (elim (Bool-cases (text_eq g.id k)) [ inl hit ↦ rw hit refl | inr miss ↦ rw miss refl ])

pub missing_status :
    (now : ℕ) (k : Text) (s : GoalStatus) (reason : Text) (db : GoalDb) (j : Text)
    → get_goal j db ≡ none
    → status_at j (set_goal_status now k s reason db) ≡ none
unfolding status_at get_goal set_goal_status with_status
missing_status now k s reason db j missing = ap (Option.map (λ x. x.status)) (
    row_at-update_where (λ x. x.id) j (λ x. text_eq x.id k) (with_status now s reason) db.goals
      (λ a. refl)
    ∙ ap (Option.map (updated (λ x. text_eq x.id k) (with_status now s reason))) missing)

-- An active goal that has a criterion, for which nextActions names nothing more to do, and whose
-- criteria's tasks are completed, can be completed: completeGoal succeeds, and the goal is done.
pub complete_goal-next_actions :
    (now : ℕ) (by k : Text) (db : GoalDb) (g : GoalRow)
    → get_goal k db ≡ some g
    → g.status ≡ active
    → is_nothing (list_goal_criteria k db) ≡ false
    → next_actions k db ≡ []
    → all_of (λ c. task_finished (task_of db c)) (list_goal_criteria k db) ≡ true
    → ((out : Option GoalRow) × ((complete_goal now by k db).0 ≡ ok out))
      × (status_at k (complete_goal now by k db).1 ≡ some done)
unfolding complete_goal next_actions
complete_goal-next_actions now by k db g found act some_criterion no_more tasks =
    let cs = list_goal_criteria k db in
    let all_done : all_of (is_finished db) cs ≡ true =
      both db cs (no_actions db cs no_more) tasks in
    let p = progress_of k db g in
    let has_progress : progress k db ≡ some p = unfold progress in rw (progress, found) refl in
    let ready : p.ready_to_complete ≡ true =
      (progress-is_finished k db g p found has_progress).0 ∙ rw (some_criterion, all_done) refl in
    let allowed : can_transition g.status done ≡ true = rw act (unfold can_transition in refl) in
    let moved : complete_goal now by k db ≡ move_goal now k done [] (goal_completed by k) db =
      rw (complete_goal, found, allowed, ready) refl in
    (
      (_, ap (λ r. r.0) moved ∙ (unfold move_goal in refl)),
      ap (λ r. status_at k r.1) moved
          ∙ (unfold move_goal log_goal_event in
              status_at-set_goal_status now k done [] db g k found)
          ∙ rw (key_of_row (λ x. x.id) k g db.goals found, text_eq_refl k) refl,
    )
