-- ===== src/Claims/Exclusion.antt =====
-- Tasks that an agent has claimed: the tasks.* handlers of packages/daemon/src/server.ts.
use revdev.Base.{
  Text, txt, text_eq, text_eq_iff, ℕ, ◌≡◌, refl, ap, sym, ◌∙◌, subst, Bool, true, false, Bool-cases,
  inl, inr, Option, none, some, List, [], ◌∷◌, ◌++◌, any, All, arith, if◌then◌else◌,
}
use mathlib.Core.Option
use revdev.Base.Result.{Result, ok, err}
use revdev.Base.Table.{update_where, first_where}
use revdev.Base.Rows.{updated, row_at, row_at-update_where, row_at-append_old, HasUniqueIds}
use revdev.Claims.Tasks.{
  TaskRow, TaskError, task_id_of, is_owner, is_open_task, is_claimable, is_held, claimed_by,
  completed_with, released, granted, refusal, claim_task, complete_task, release_task,
  create_task_row, TaskCall, make, claim, finish, give_up, on_task, after_task_call,
  after_task_calls,
}

-- A call that is not made by the agent.
unfoldable pub is_by_other : Text → TaskCall → Bool
unfolding text_eq
is_by_other a (make now fresh task_id title description priority) = true
is_by_other a (claim now by task_id) = if text_eq a by then false else true
is_by_other a (finish now by task_id summary) = if text_eq a by then false else true
is_by_other a (give_up by task_id) = if text_eq a by then false else true

-- The task is the agent's, and not open.
pub record Holds (a k : Text) (rows : List TaskRow) : Type 0 where
  pub row : TaskRow
  pub found : row_at (λ x. x.id) k rows ≡ some row
  pub owned : row.owner ≡ some a
  pub closed : is_open_task row ≡ false

update-Holds :
    (a k : Text) (test : TaskRow → Bool) (set : TaskRow → TaskRow) (rows : List TaskRow)
    → ((x : TaskRow) → (set x).id ≡ x.id)
    → ((x : TaskRow) → x.owner ≡ some a → is_open_task x ≡ false → test x ≡ false)
    → Holds a k rows
    → Holds a k (update_where test set rows)
update-Holds a k test set rows same misses h = record {
  row = h.row;
  found =
      row_at-update_where (λ x. x.id) k test set rows same
      ∙ ap (Option.map (updated test set)) h.found
      ∙ rw (misses h.row h.owned h.closed) refl;
  owned = h.owned;
  closed = h.closed;
}

not_owner :
    (a by : Text) (o : Option Text) → o ≡ some a → text_eq a by ≡ false → is_owner by o ≡ false
unfolding is_owner
not_owner a by none e h = refl
not_owner a by (some b) e h = let same : b ≡ a = ground (arith, e) in rw same h

other_agent : (b : Bool) → (if b then false else true) ≡ true → b ≡ false
other_agent true h = cc
other_agent false h = refl

not_held :
    (a by k : Text) (x : TaskRow) → text_eq a by ≡ false → x.owner ≡ some a → is_held by k x ≡ false
unfolding is_held
not_held a by k x h e = ground (arith, not_owner a by x.owner e h)

not_claimable :
    (a by k : Text) (x : TaskRow)
    → text_eq a by ≡ false
    → x.owner ≡ some a
    → is_open_task x ≡ false
    → is_claimable by k x ≡ false
unfolding is_claimable
not_claimable a by k x h e closed = ground (arith, not_owner a by x.owner e h, closed)

on_task-Holds :
    (a k : Text) (r : Result TaskError Text) (rows : List TaskRow) (f : Text → List TaskRow)
    → Holds a k rows
    → ((j : Text) → Holds a k (f j))
    → Holds a k (on_task r rows f)
on_task-Holds a k (err e) rows f h g = h
on_task-Holds a k (ok j) rows f h g = g j

-- An INSERT that fails on a key that is present.
abbrev inserted :
    Bool
    → Result TaskError Text
    → Result TaskError Text
    → List TaskRow
    → TaskRow
    → Result TaskError Text × List TaskRow
inserted present x y rows row = if present then (x, rows) else (y, rows ++ row ∷ [])

inserted-Holds :
    (a k : Text) (present : Bool) (x y : Result TaskError Text) (rows : List TaskRow)
    (row : TaskRow)
    → Holds a k rows
    → Holds a k (inserted present x y rows row).1
inserted-Holds a k true x y rows row h = h
inserted-Holds a k false x y rows row h = record {
  row = h.row;
  found = row_at-append_old (λ z. z.id) k rows row h.row h.found;
  owned = h.owned;
  closed = h.closed;
}

after_task_call-Holds :
    (a k : Text) (c : TaskCall) (rows : List TaskRow)
    → is_by_other a c ≡ true
    → Holds a k rows
    → Holds a k (after_task_call c rows)
unfolding after_task_call is_by_other create_task_row claim_task complete_task release_task
    claimed_by completed_with released
after_task_call-Holds a k (make now fresh task_id title description priority) rows other h =
    inserted-Holds a k _ _ _ rows _ h
after_task_call-Holds a k (claim now by task_id) rows other h =
    on_task-Holds a k (task_id_of task_id) rows _ h λ j.
      elim (Bool-cases (any (is_claimable by j) rows)) [
        | inl free ↦ rw free (
            update-Holds a k (is_claimable by j) (claimed_by now by) rows (λ x. refl)
              (λ x e closed. not_claimable a by j x (other_agent _ other) e closed) h)
        | inr taken ↦ rw taken h
      ]
after_task_call-Holds a k (finish now by task_id summary) rows other h =
    on_task-Holds a k (task_id_of task_id) rows _ h λ j.
      update-Holds a k (is_held by j) (completed_with now _) rows (λ x. refl)
        (λ x e closed. not_held a by j x (other_agent _ other) e) h
after_task_call-Holds a k (give_up by task_id) rows other h =
    on_task-Holds a k (task_id_of task_id) rows _ h λ j.
      update-Holds a k (is_held by j) released rows (λ x. refl)
        (λ x e closed. not_held a by j x (other_agent _ other) e) h

after_task_calls-Holds :
    (a k : Text) (calls : List TaskCall) (rows : List TaskRow)
    → All (λ c. is_by_other a c ≡ true) calls
    → Holds a k rows
    → Holds a k (after_task_calls calls rows)
unfolding after_task_calls
after_task_calls-Holds a k [] rows others h = h
after_task_calls-Holds a k (c ∷ calls) rows (other, others) h =
    after_task_calls-Holds a k calls (after_task_call c rows) others
      (after_task_call-Holds a k c rows other h)

-- A row that passes the test, where one does.
some_row :
    (P : TaskRow → Type 0) (test : TaskRow → Bool) (rows : List TaskRow)
    → All P rows
    → any test rows ≡ true
    → (x : TaskRow) × P x × (test x ≡ true)
some_row P test [] all h = cc
some_row P test (x ∷ rows) (p, all) h = elim (Bool-cases (test x)) [
  | inl hit ↦ (x, p, hit)
  | inr miss ↦ some_row P test rows all (ground (arith, miss))
]

claim_task-Holds :
    (now : ℕ) (a k : Text) (rows : List TaskRow)
    → HasUniqueIds (λ x. x.id) rows
    → (claim_task now a k rows).0 ≡ granted
    → Holds a k (claim_task now a k rows).1
unfolding claim_task refusal claimed_by is_claimable is_open_task txt text_eq
claim_task-Holds now a k rows unique h = elim (Bool-cases (any (is_claimable a k) rows)) [
  | inl free ↦
      let (x, own, test) = some_row _ (is_claimable a k) rows unique free in
      let name : x.id ≡ k = (text_eq_iff x.id k).0 (ground arith) in
      let found : row_at (λ y. y.id) k rows ≡ some x =
        subst (λ i. row_at (λ y. y.id) i rows ≡ some x) name own in
      rw free (record {
        row = claimed_by now a x;
        found =
            row_at-update_where (λ y. y.id) k (is_claimable a k) (claimed_by now a) rows (λ y. refl)
            ∙ ap (Option.map (updated (is_claimable a k) (claimed_by now a))) found
            ∙ rw test refl;
        owned = refl;
        closed = refl;
      })
  | inr taken ↦
      absurd (not_granted (first_where (λ y. text_eq y.id k) rows) (sym (rw taken refl) ∙ h))
]
  where
    not_granted : (o : Option TaskRow) → refusal o ≡ granted → ⊥
    not_granted none e = cc
    not_granted (some x) e = cc

-- Where an agent's claim of a task is granted, the task is the agent's and is not open after the
-- claim, and stays so whatever tasks.* calls other agents make; each row of the table has a key of
-- its own.
pub claim_task-after_task_calls :
    (now : ℕ) (a k : Text) (rows : List TaskRow) (calls : List TaskCall)
    → HasUniqueIds (λ x. x.id) rows
    → (claim_task now a k rows).0 ≡ granted
    → All (λ c. is_by_other a c ≡ true) calls
    → Holds a k (after_task_calls calls (claim_task now a k rows).1)
claim_task-after_task_calls now a k rows calls unique h others =
    after_task_calls-Holds a k calls (claim_task now a k rows).1 others
      (claim_task-Holds now a k rows unique h)
