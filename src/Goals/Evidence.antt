-- ===== src/Goals/Evidence.antt =====
-- What stands behind a goal that is done, after any calls on
-- packages/daemon/src/goals/goal-harness.ts.
use revdev.Base.{
  Text, text_eq, text_eq_iff, ℕ, ◌≡◌, refl, ap, sym, ◌∙◌, subst, true, false, Bool-cases,
  Option-cases, inl, inr, Option, none, some, List, [], ◌∷◌, All, arith,
}
use mathlib.Core.Option
use revdev.Base.Rows.{updated, row_at, row_at-update_where, key_of_row, HasUniqueIds}
use revdev.Goals.Store.{
  GoalStatus, GoalRow, GoalCriterionRow, GoalDb, is_done, is_met, get_goal, with_status,
  set_goal_status, list_goal_criteria,
}
use revdev.Goals.Progress.{GoalProgress, is_nothing, progress}
use revdev.Goals.Calls.{HasEvidence}
use revdev.Goals.Ready.{all_of, is_finished}
use revdev.Goals.Completion.{progress-is_finished}

-- The goal has criteria, and all are met.
pub record IsComplete (cs : List GoalCriterionRow) : Type 0 where
  pub some_criterion : is_nothing cs ≡ false
  pub all_met : all_of (λ c. is_met c.status) cs ≡ true

pub record IsBacked (db : GoalDb) : Type 0 where
  pub unique : HasUniqueIds (λ c. c.id) db.criteria
  pub evidence : All HasEvidence db.criteria
  pub complete :
      (k : Text) (g : GoalRow)
      → get_goal k db ≡ some g
      → is_done g.status ≡ true
      → IsComplete (list_goal_criteria k db)

met_of_finished :
    (db : GoalDb) (cs : List GoalCriterionRow)
    → all_of (is_finished db) cs ≡ true
    → all_of (λ c. is_met c.status) cs ≡ true
met_of_finished db [] h = refl
met_of_finished db (c ∷ cs) h = ground (arith, h, met_of_finished db cs)

ready-IsComplete :
    (k : Text) (db : GoalDb) (g : GoalRow) (p : GoalProgress)
    → get_goal k db ≡ some g
    → progress k db ≡ some p
    → p.ready_to_complete ≡ true
    → IsComplete (list_goal_criteria k db)
ready-IsComplete k db g p found has_progress ready =
    let exact = sym (progress-is_finished k db g p found has_progress).0 ∙ ready in
    record {
      some_criterion = ground (arith, exact);
      all_met = met_of_finished db (list_goal_criteria k db) (ground (arith, exact));
    }

pub set_goal_status-IsComplete :
    (now : ℕ) (k : Text) (s : GoalStatus) (reason : Text) (db : GoalDb) (g : GoalRow)
    → get_goal k db ≡ some g
    → (is_done s ≡ true
        → (p : GoalProgress) × (progress k db ≡ some p) × (p.ready_to_complete ≡ true))
    → IsBacked db
    → (j : Text) (x : GoalRow) → get_goal j (set_goal_status now k s reason db) ≡ some x
    → is_done x.status ≡ true
    → IsComplete (list_goal_criteria j db)
unfolding get_goal set_goal_status with_status
set_goal_status-IsComplete now k s reason db g found ready backed j x found_x x_done =
    elim (Option-cases (row_at (λ y. y.id) j db.goals)) [
      | inl missing ↦ absurd (none_some (sym (moved ∙ ap (Option.map change) missing) ∙ found_x))
      | inr (h, found_h) ↦
          let same : change h ≡ x =
            some_some (sym (moved ∙ ap (Option.map change) found_h) ∙ found_x) in
          elim (Bool-cases (text_eq h.id k)) [
            | inl hit ↦
                let names : j ≡ k =
                  sym (key_of_row (λ y. y.id) j h db.goals found_h) ∙ (text_eq_iff h.id k).0 hit in
                let is : is_done s ≡ true =
                  sym (rw hit refl) ∙ ap (λ y. is_done y.status) same ∙ x_done in
                let (p, has_progress, ok_ready) = ready is in
                subst (λ i. IsComplete (list_goal_criteria i db)) (sym names)
                  (ready-IsComplete k db g p found has_progress ok_ready)
            | inr miss ↦
                let is : is_done h.status ≡ true =
                  sym (rw miss refl) ∙ ap (λ y. is_done y.status) same ∙ x_done in
                backed.complete j h found_h is
          ]
    ]
  where
    change : GoalRow → GoalRow
    change = updated (λ y. text_eq y.id k) (with_status now s reason)

    moved :
        get_goal j (set_goal_status now k s reason db)
        ≡ Option.map change (row_at (λ y. y.id) j db.goals)
    moved =
        row_at-update_where (λ y. y.id) j (λ y. text_eq y.id k) (with_status now s reason) db.goals
          (λ a. refl)

    none_some : ◌≡◌ {A = Option GoalRow} none (some x) → ⊥
    none_some e = cc

    some_some : {a b : GoalRow} → ◌≡◌ {A = Option GoalRow} (some a) (some b) → a ≡ b
    some_some e = ground (arith, e)
