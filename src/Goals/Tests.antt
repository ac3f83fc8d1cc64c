-- ===== src/Goals/Tests.antt =====
-- Runs of packages/daemon/src/goals/goal-harness.ts on a small goal, and the theorems at inputs that
-- meet their hypotheses.
use revdev.Base.{
  Text, ℕ, ◌+◌, ◌≡◌, refl, not, ◌&&◌, Option, none, some, List, [], ◌∷◌, All, count_if, length,
}
use revdev.Base.Result.{ok, err}
use revdev.Goals.Store.{
  GoalStatus, GoalOwner, active, done, high, CriterionStatus, GoalRow, GoalDb, is_done, is_met,
  get_goal, closes, list_goal_criteria,
}
use revdev.Goals.Progress.{
  is_nothing, progress, progress_of, next_actions, task_of, criterion_pending,
}
use revdev.Goals.Harness.{
  CreateGoalInput, complete_goal, unmet_criteria, evidence_required, goal_is_terminal,
}
use revdev.Goals.Criteria.{add_criterion, record_criterion}
use revdev.Goals.Calls.{
  GoalCall, create, activate, complete, abandon, note_met, after_call, after_calls, HasEvidence,
}
use revdev.Goals.Ready.{task_finished, is_finished, all_of}
use revdev.Goals.Completion.{status_at, progress-is_finished, complete_goal-next_actions}
use revdev.Goals.Transitions.{Moves, after_call-Moves, after_calls-terminal}
use revdev.Goals.Evidence.{IsComplete}
use revdev.Goals.Backed.{no_goals, after_calls-IsComplete}

abbrev ann : Text
ann = 97 ∷ []

abbrev ship : Text
ship = 115 ∷ []

abbrev first : Text
first = 99 ∷ []

abbrev proof : Text
proof = 112 ∷ []

abbrev the_input : CreateGoalInput
the_input = record {
  id = some ship;
  title = ship;
  description = none;
  priority = some high;
  owner = none;
  parent_goal_id = none;
  blocked_by = none;
  criteria = some (proof ∷ []);
}

abbrev begun : List GoalCall
begun =
    create 1 ann ship (λ n. first) the_input ∷ activate 2 ann ship ∷ note_met 3 ann first proof ∷ []

abbrev finished : List GoalCall
finished =
    create 1 ann ship (λ n. first) the_input
    ∷ activate 2 ann ship
    ∷ note_met 3 ann first proof
    ∷ complete 4 ann ship
    ∷ []

abbrev half_way : GoalDb
half_way = after_calls begun no_goals

abbrev the_goal : GoalStatus → ℕ → Option ℕ → GoalRow
the_goal status updated closed = record {
  id = ship;
  title = ship;
  description = [];
  status = status;
  priority = high;
  owner = GoalOwner.agent;
  parent_goal_id = none;
  blocked_by = [];
  created_by = ann;
  status_reason = [];
  created_at = 1;
  updated_at = updated;
  closed_at = closed;
}

half_way_goal : get_goal ship half_way ≡ some (the_goal active 2 none)
unfolding after_calls get_goal
half_way_goal = refl

finished_goal : get_goal ship (after_calls finished no_goals) ≡ some (the_goal done 4 (some 4))
unfolding after_calls get_goal
finished_goal = refl

-- Without the evidence the goal is not completed.
gated :
    (complete_goal 3 ann ship (
      after_calls (create 1 ann ship (λ n. first) the_input ∷ activate 2 ann ship ∷ []) no_goals)).0
    ≡ err (unmet_criteria (criterion_pending proof ∷ []))
unfolding after_calls complete_goal
gated = refl

blank_evidence :
    (record_criterion 3 ann first CriterionStatus.met [] half_way).0 ≡ err evidence_required
unfolding after_calls record_criterion
blank_evidence = refl

late_criterion :
    (add_criterion 5 ann proof ship proof (after_calls finished no_goals)).0
    ≡ err (goal_is_terminal done)
unfolding after_calls add_criterion
late_criterion = refl

progress-is_finished_example :
    ((progress_of ship half_way (the_goal active 2 none)).ready_to_complete ≡ (
      not (is_nothing (list_goal_criteria ship half_way))
      && all_of (is_finished half_way) (list_goal_criteria ship half_way)))
    × (((progress_of ship half_way (the_goal active 2 none)).counts).met_count
          + (((progress_of ship half_way (the_goal active 2 none)).counts).failed_count
              + ((progress_of ship half_way (the_goal active 2 none)).counts).pending_count)
        ≡ length (list_goal_criteria ship half_way))
    × (((progress_of ship half_way (the_goal active 2 none)).counts).met_count
        ≡ count_if (λ c. is_met c.status) (list_goal_criteria ship half_way))
    × (((progress_of ship half_way (the_goal active 2 none)).counts).completed_count
          + (((progress_of ship half_way (the_goal active 2 none)).counts).claimed_count
              + ((progress_of ship half_way (the_goal active 2 none)).counts).open_count)
        ≡ ((progress_of ship half_way (the_goal active 2 none)).counts).linked_count)
progress-is_finished_example =
    progress-is_finished ship half_way (the_goal active 2 none)
      (progress_of ship half_way (the_goal active 2 none)) half_way_goal
      (unfold after_calls progress in refl)

complete_goal-next_actions_example :
    ((out : Option GoalRow) × ((complete_goal 4 ann ship half_way).0 ≡ ok out))
    × (status_at ship (complete_goal 4 ann ship half_way).1 ≡ some done)
unfolding after_calls list_goal_criteria next_actions task_of task_finished
complete_goal-next_actions_example =
    complete_goal-next_actions 4 ann ship half_way (the_goal active 2 none) half_way_goal refl refl
      refl refl

after_call-Moves_example :
    Moves (status_at ship half_way) (status_at ship (after_call (complete 4 ann ship) half_way))
after_call-Moves_example = after_call-Moves (complete 4 ann ship) half_way ship

after_calls-terminal_example :
    status_at ship (after_calls (abandon 9 ann ship [] ∷ []) (after_calls finished no_goals))
    ≡ some done
unfolding after_calls get_goal closes
after_calls-terminal_example =
    after_calls-terminal (abandon 9 ann ship [] ∷ []) (after_calls finished no_goals) ship done refl
      refl

after_calls-IsComplete_example :
    IsComplete (list_goal_criteria ship (after_calls finished no_goals))
    × All HasEvidence (after_calls finished no_goals).criteria
unfolding is_done
after_calls-IsComplete_example =
    after_calls-IsComplete finished ship (the_goal done 4 (some 4)) finished_goal refl
