-- ===== src/Claims/Tests.antt =====
-- Runs of the task handlers of packages/daemon/src/server.ts on two tasks, and the theorem at an input
-- that meets its hypotheses.
use revdev.Base.{Text, txt, text_eq, ◌≡◌, refl, none, some, List, [], ◌∷◌}
use revdev.Base.Param.{string, undefined}
use revdev.Base.Table.{first_where}
use revdev.Claims.Tasks.{
  TaskRow, refused, claim_task, claim, finish, give_up, make, TaskCall, after_task_calls, task_text,
}
use revdev.Claims.Exclusion.{is_by_other, Holds, claim_task-after_task_calls}

abbrev ann : Text
ann = 97 ∷ []

abbrev bob : Text
bob = 98 ∷ []

abbrev first : Text
first = 49 ∷ []

abbrev task : TaskRow
unfolding txt
task = record {
  id = first;
  description = [];
  status = txt "open";
  owner = none;
  claimed_at = none;
  completed_at = none;
  created_at = 1;
}

-- Bob tries to claim, to complete and to release the task, and makes another.
abbrev attempts : List TaskCall
attempts =
    claim 3 bob (string first)
    ∷ finish 4 bob (string first) undefined
    ∷ give_up bob (string first)
    ∷ make 5 bob undefined (string first) undefined undefined
    ∷ []

second_claim :
    (claim_task 3 bob first (claim_task 2 ann first (task ∷ [])).1).0
    ≡ refused (some ann) (txt "claimed")
unfolding claim_task txt task
second_claim = refl

urgent_text : task_text (some (txt "high")) (txt "ship") [] ≡ txt "[high] ship"
unfolding task_text txt
urgent_text = refl

claim_task-after_task_calls_example :
    Holds ann first (after_task_calls attempts (claim_task 2 ann first (task ∷ [])).1)
unfolding claim_task is_by_other task txt text_eq first_where
claim_task-after_task_calls_example =
    claim_task-after_task_calls 2 ann first (task ∷ []) attempts (refl, tt) refl
      (refl, (refl, (refl, (refl, tt))))
