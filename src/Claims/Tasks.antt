-- ===== src/Claims/Tasks.antt =====
-- tasks.create, tasks.claim, tasks.complete and tasks.release of packages/daemon/src/server.ts on the
-- table of tasks. `by` is the caller that requireVerifiedAgent returned.
use revdev.Base.{
  Text, txt, text_eq, trim, ℕ, Bool, true, false, ◌&&◌, ◌||◌, Option, none, some, List, [], ◌∷◌,
  ◌++◌, any, if◌then◌else◌,
}
use revdev.Base.Result.{Result, ok, err}
use revdev.Base.Param.{Param, str, str_or_null}
use revdev.Base.Table.{update_where, first_where}
use revdev.Goals.Store.{GoalTaskRow, has_key}

abbrev pub TaskRow : Type 0
TaskRow = GoalTaskRow

pub data TaskError : Type 0 where
  missing_task_id duplicate_task : TaskError

-- `taskId`, which is missing when it is empty.
unfoldable pub task_id_of : Param → Result TaskError Text
unfolding str_or_null
task_id_of p = elim (str_or_null p) [
  | none ↦ err missing_task_id
  | some [] ↦ err missing_task_id
  | some (c ∷ s) ↦ ok (c ∷ s)
]

-- owner = $1
unfoldable pub is_owner : Text → Option Text → Bool
unfolding text_eq
is_owner by none = false
is_owner by (some a) = text_eq a by

unfoldable pub is_open_task : TaskRow → Bool
unfolding text_eq txt
is_open_task row = text_eq row.status (txt "open")

-- id = $2 AND (status = 'open' OR owner = $1)
unfoldable pub is_claimable : Text → Text → TaskRow → Bool
unfolding text_eq is_open_task is_owner
is_claimable by k row = text_eq row.id k && (is_open_task row || is_owner by row.owner)

-- id = $1 AND owner = $2
unfoldable pub is_held : Text → Text → TaskRow → Bool
unfolding text_eq is_owner
is_held by k row = text_eq row.id k && is_owner by row.owner

unfoldable pub claimed_by : ℕ → Text → TaskRow → TaskRow
unfolding txt
claimed_by now by row = record row {
  status = txt "claimed";
  owner = some by;
  claimed_at = some now;
}

-- `summary ?` on a string: the description with it, or as it is.
unfoldable pub with_summary : Option Text → Text → Text
with_summary none description = description
with_summary (some []) description = description
with_summary (some (c ∷ s)) description = description ++ (32 ∷ 8212 ∷ 32 ∷ c ∷ s)

unfoldable pub completed_with : ℕ → Option Text → TaskRow → TaskRow
unfolding with_summary txt
completed_with now summary row = record row {
  status = txt "completed";
  completed_at = some now;
  description = with_summary summary row.description;
}

unfoldable pub released : TaskRow → TaskRow
unfolding txt
released row = record row { status = txt "open"; owner = none; claimed_at = none }

pub data ClaimAnswer : Type 0 where
  granted : ClaimAnswer
  refused : Option Text → Text → ClaimAnswer

-- The owner and the status of the row that could not be claimed.
unfoldable pub refusal : Option TaskRow → ClaimAnswer
unfolding txt
refusal none = refused none (txt "unknown")
refusal (some row) = refused row.owner row.status

unfoldable pub claim_task : ℕ → Text → Text → List TaskRow → ClaimAnswer × List TaskRow
unfolding is_claimable claimed_by update_where first_where text_eq refusal
claim_task now by k rows =
    if any (is_claimable by k) rows
    then (granted, update_where (is_claimable by k) (claimed_by now by) rows)
    else (refusal (first_where (λ row. text_eq row.id k) rows), rows)

-- Whether a row was changed, and the rows.
unfoldable pub complete_task : ℕ → Text → Text → Option Text → List TaskRow → Bool × List TaskRow
unfolding is_held completed_with update_where
complete_task now by k summary rows =
    (any (is_held by k) rows, update_where (is_held by k) (completed_with now summary) rows)

unfoldable pub release_task : Text → Text → List TaskRow → Bool × List TaskRow
unfolding is_held released update_where
release_task by k rows = (any (is_held by k) rows, update_where (is_held by k) released rows)

abbrev pub is_blank : Text → Bool
is_blank [] = true
is_blank (c ∷ s) = false

-- `parts.filter(Boolean).join(' ')`
unfoldable pub join_parts : List Text → Text
join_parts [] = []
join_parts ([] ∷ parts) = join_parts parts
join_parts ((c ∷ s) ∷ parts) =
    let rest = join_parts parts in if is_blank rest then c ∷ s else (c ∷ s) ++ 32 ∷ rest

-- `a || b`
abbrev pub or_else : Text → Text → Text
or_else [] b = b
or_else (c ∷ s) b = c ∷ s

abbrev pub priority_part : Option Text → Text
priority_part none = []
priority_part (some []) = []
priority_part (some (c ∷ s)) = b'[' ∷ (c ∷ s) ++ b']' ∷ []

abbrev pub description_part : Text → Text
description_part [] = []
description_part (c ∷ s) = 8212 ∷ 32 ∷ c ∷ s

unfoldable pub task_text : Option Text → Text → Text → Text
unfolding join_parts trim txt
task_text priority title description =
    or_else (trim (join_parts (priority_part priority ∷ title ∷ description_part description ∷ [])))
      (or_else description (or_else title (txt "(untitled)")))

-- `fresh` is what randomUUID returned.
unfoldable pub create_task_row :
    ℕ → Text → Param → Param → Param → Param → List TaskRow → Result TaskError Text × List TaskRow
unfolding str str_or_null task_text text_eq txt
create_task_row now fresh task_id title description priority rows =
    let k : Text = elim (str_or_null task_id) [ none ↦ fresh | some s ↦ s ] in
    let row : TaskRow = record {
      id = k;
      description = task_text (str_or_null priority) (str title) (str description);
      status = txt "open";
      owner = none;
      claimed_at = none;
      completed_at = none;
      created_at = now;
    } in
    if has_key (λ x. x.id) k rows then (err duplicate_task, rows) else (ok k, rows ++ row ∷ [])

-- The calls of one agent, and the rows after one.
pub data TaskCall : Type 0 where
  make : ℕ → Text → Param → Param → Param → Param → TaskCall
  claim : ℕ → Text → Param → TaskCall
  finish : ℕ → Text → Param → Param → TaskCall
  give_up : Text → Param → TaskCall

abbrev pub on_task {ℓ} : {A : Type ℓ} → Result TaskError Text → A → (Text → A) → A
on_task (err e) unchanged f = unchanged
on_task (ok k) unchanged f = f k

unfoldable pub after_task_call : TaskCall → List TaskRow → List TaskRow
unfolding create_task_row claim_task complete_task release_task task_id_of str_or_null
after_task_call (make now fresh task_id title description priority) rows =
    (create_task_row now fresh task_id title description priority rows).1
after_task_call (claim now by task_id) rows =
    on_task (task_id_of task_id) rows λ k. (claim_task now by k rows).1
after_task_call (finish now by task_id summary) rows =
    on_task (task_id_of task_id) rows λ k. (complete_task now by k (str_or_null summary) rows).1
after_task_call (give_up by task_id) rows =
    on_task (task_id_of task_id) rows λ k. (release_task by k rows).1

unfoldable pub after_task_calls : List TaskCall → List TaskRow → List TaskRow
unfolding after_task_call
after_task_calls [] rows = rows
after_task_calls (c ∷ calls) rows = after_task_calls calls (after_task_call c rows)
