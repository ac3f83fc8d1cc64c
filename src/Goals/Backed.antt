-- ===== src/Goals/Backed.antt =====
-- Goals that are done, after calls on packages/daemon/src/goals/goal-harness.ts.
use revdev.Base.{
  Text, text_eq, text_eq_iff, ◌≡◌, refl, ap, sym, ◌∙◌, subst, Bool, true, false, Bool-cases,
  Option-cases, inl, inr, Option, none, some, List, [], ◌∷◌, ◌++◌, keep, All, All-append,
  All-map_imp, arith, if◌then◌else◌,
}
use revdev.Base.Table.{update_where, order_by}
use revdev.Base.Rows.{
  updated, All-update_where, row_at, row_at-append, row_at-none, row_of_key,
  update_where-HasUniqueIds, append-HasUniqueIds,
}
use revdev.Goals.Store.{
  GoalStatus, opened, done, pending, GoalRow, GoalCriterionRow, GoalDb, is_done, is_met, has_key,
  get_goal, closes, get_goal_criterion, list_goal_criteria, update_criterion, set_goal_status,
}
use revdev.Goals.Calls.{GoalCall, after_call, after_calls, IsOpenAt, HasEvidence, IsEdit, Changes}
use revdev.Goals.History.{after_call-Changes}
use revdev.Goals.Evidence.{IsComplete, IsBacked, set_goal_status-IsComplete}

-- The SELECT does not see a row of another goal.
keep-append :
    (test : GoalCriterionRow → Bool) (rows : List GoalCriterionRow) (row : GoalCriterionRow)
    → test row ≡ false
    → keep test (rows ++ row ∷ []) ≡ keep test rows
keep-append test [] row off = rw off refl
keep-append test (c ∷ rows) row off = ground (arith, keep-append test rows row off)

keep-update_where :
    (test hit : GoalCriterionRow → Bool) (set : GoalCriterionRow → GoalCriterionRow)
    (rows : List GoalCriterionRow)
    → ((c : GoalCriterionRow) → test (set c) ≡ test c)
    → All (λ c. hit c ≡ true → test c ≡ false) rows
    → keep test (update_where hit set rows) ≡ keep test rows
unfolding update_where
keep-update_where test hit set [] same off = refl
keep-update_where test hit set (c ∷ rows) same (off, rest) = elim (Bool-cases (hit c)) [
  | inl is_hit ↦
      let out : test c ≡ false = off is_hit in
      rw (is_hit, same c, out) (keep-update_where test hit set rows same rest)
  | inr miss ↦
      rw miss
        (ap (λ r. if test c then c ∷ r else r) (keep-update_where test hit set rows same rest))
]

-- A done goal is not the open one of the key.
other_goal :
    (k j : Text) (db : GoalDb) (g : GoalRow)
    → IsOpenAt j db
    → get_goal k db ≡ some g
    → is_done g.status ≡ true
    → text_eq j k ≡ false
unfolding is_done closes
other_goal k j db g is_open found is = elim (Bool-cases (text_eq j k)) [
  | inl hit ↦
      let found' : get_goal j db ≡ some g =
        subst (λ i. get_goal i db ≡ some g) (sym ((text_eq_iff j k).0 hit)) found in
      absurd (shut g.status is (is_open g found'))
  | inr miss ↦ miss
]
  where
    shut : (s : GoalStatus) → is_done s ≡ true → closes s ≡ false → ⊥
    shut done h e = cc
    shut opened h e = cc
    shut GoalStatus.active h e = cc
    shut GoalStatus.blocked h e = cc
    shut GoalStatus.abandoned h e = cc

insert_goal-IsBacked :
    (g : GoalRow) (db : GoalDb)
    → g.status ≡ opened
    → IsBacked db
    → IsBacked (record db { goals = db.goals ++ g ∷ [] })
unfolding get_goal is_done list_goal_criteria
insert_goal-IsBacked g db is_opened backed = record {
  unique = backed.unique;
  evidence = backed.evidence;
  complete = λ k x found is. elim (Option-cases (row_at (λ y. y.id) k db.goals)) [
    | inl missing ↦
        let new = sym (row_at-append (λ y. y.id) k db.goals g) ∙ found in
        absurd (fresh k x missing new is)
    | inr (h, old) ↦
        backed.complete k x
          (old ∙ sym (rw (row_at-append (λ y. y.id) k db.goals g, old) refl) ∙ found) is
  ];
}
  where
    fresh :
        (k : Text) (x : GoalRow)
        → row_at (λ y. y.id) k db.goals ≡ none
        → (elim (row_at (λ y. y.id) k db.goals) [
          | none ↦ if text_eq g.id k then some g else none
          | some b ↦ some b
        ])
          ≡ some x
        → is_done x.status ≡ true
        → ⊥
    fresh k x missing new is = ground (arith, missing, new, is, is_opened)

append-IsBacked :
    (row : GoalCriterionRow) (db : GoalDb)
    → has_key (λ x. x.id) row.id db.criteria ≡ false
    → IsOpenAt row.goal_id db
    → row.status ≡ pending
    → IsBacked db
    → IsBacked (record db { criteria = db.criteria ++ row ∷ [] })
unfolding get_goal list_goal_criteria is_met
append-IsBacked row db new is_open is_pending backed = record {
  unique =
      append-HasUniqueIds (λ c. c.id) db.criteria row
        (row_at-none (λ c. c.id) row.id db.criteria new) backed.unique;
  evidence = All-append db.criteria (row ∷ []) _ (λ is. absurd (not_met is), tt) backed.evidence;
  complete = λ k g found is.
      subst IsComplete
        (ap (order_by (λ c. c.created_at)) (
          sym (
            keep-append (λ c. text_eq c.goal_id k) db.criteria row
              (other_goal k row.goal_id db g is_open found is))))
        (backed.complete k g found is);
}
  where
    not_met : is_met row.status ≡ true → ⊥
    not_met is = ground (arith, is_pending)

edit-IsBacked :
    (j : Text) (set : GoalCriterionRow → GoalCriterionRow) (c : GoalCriterionRow) (db : GoalDb)
    → get_goal_criterion j db ≡ some c
    → IsOpenAt c.goal_id db
    → IsEdit set
    → IsBacked db
    → IsBacked (update_criterion j set db)
unfolding get_goal list_goal_criteria update_criterion get_goal_criterion
edit-IsBacked j set c db found is_open good backed = record {
  unique =
      update_where-HasUniqueIds (λ x. x.id) (λ x. text_eq x.id j) set db.criteria good.keeps_id
        backed.unique;
  evidence =
      All-update_where HasEvidence HasEvidence (λ x. text_eq x.id j) set db.criteria kept
        backed.evidence;
  complete = λ k g found_g is.
      subst IsComplete
        (ap (order_by (λ x. x.created_at)) (
          sym (
            keep-update_where (λ x. text_eq x.goal_id k) (λ x. text_eq x.id j) set db.criteria
              (λ x. ap (λ i. text_eq i k) (good.keeps_goal x))
              (All-map_imp _ _ db.criteria (λ x own hit. off k g found_g is x own hit)
                backed.unique))))
        (backed.complete k g found_g is);
}
  where
    kept :
        (x : GoalCriterionRow) → HasEvidence x → HasEvidence (updated (λ y. text_eq y.id j) set x)
    kept x h = elim (Bool-cases (text_eq x.id j)) [
      | inl hit ↦ rw hit (good.keeps_evidence x h)
      | inr miss ↦ rw miss h
    ]

    off :
        (k : Text) (g : GoalRow)
        → get_goal k db ≡ some g
        → is_done g.status ≡ true
        → (x : GoalCriterionRow) → row_at (λ y. y.id) x.id db.criteria ≡ some x
        → text_eq x.id j ≡ true
        → text_eq x.goal_id k ≡ false
    off k g found_g is x own hit =
        let same : x ≡ c = row_of_key (λ y. y.id) x.id j x c db.criteria own found hit in
        ap (λ y. text_eq y.goal_id k) same ∙ other_goal k c.goal_id db g is_open found_g is

abbrev KeepsBacked : GoalDb → GoalDb → Type 0
KeepsBacked db d = IsBacked db → IsBacked d

IsBacked-Changes : Changes KeepsBacked
unfolding get_goal set_goal_status list_goal_criteria
IsBacked-Changes = record {
  unchanged = λ db h. h;
  move = λ now k s reason db g found allowed ready backed. record {
    unique = backed.unique;
    evidence = backed.evidence;
    complete = set_goal_status-IsComplete now k s reason db g found ready backed;
  };
  insert = λ g db new is_opened. insert_goal-IsBacked g db is_opened;
  set_events = λ es db d h backed. record {
    unique = (h backed).unique;
    evidence = (h backed).evidence;
    complete = (h backed).complete;
  };
  set_tasks = λ ts db d h backed. record {
    unique = (h backed).unique;
    evidence = (h backed).evidence;
    complete = (h backed).complete;
  };
  append = λ row db d h new is_open is_pending backed.
      append-IsBacked row d new is_open is_pending (h backed);
  edit = λ k set c db d h found is_open good backed.
      edit-IsBacked k set c d found is_open good (h backed);
}

-- After any calls on empty tables, or on tables where it holds already, every goal that is done has
-- acceptance criteria, all of them are met, and each criterion that is met has evidence that is not blank.
pub after_calls-IsBacked :
    (calls : List GoalCall) (db : GoalDb) → IsBacked db → IsBacked (after_calls calls db)
unfolding after_calls
after_calls-IsBacked [] db backed = backed
after_calls-IsBacked (c ∷ calls) db backed =
    after_calls-IsBacked calls (after_call c db)
      (after_call-Changes KeepsBacked IsBacked-Changes c db backed)

abbrev pub no_goals : GoalDb
no_goals = record { goals = []; criteria = []; tasks = []; events = [] }

-- After any calls on empty tables, a goal that is done has acceptance criteria, all of them are met,
-- and each criterion of the table that is met has evidence that is not blank.
pub after_calls-IsComplete :
    (calls : List GoalCall) (k : Text) (g : GoalRow)
    → get_goal k (after_calls calls no_goals) ≡ some g
    → is_done g.status ≡ true
    → IsComplete (list_goal_criteria k (after_calls calls no_goals))
      × All HasEvidence (after_calls calls no_goals).criteria
unfolding get_goal
after_calls-IsComplete calls k g found is =
    let start : IsBacked no_goals = record {
      unique = tt;
      evidence = tt;
      complete = λ j x e h. absurd (no_row x e);
    } in
    let backed = after_calls-IsBacked calls no_goals start in
    (backed.complete k g found is, backed.evidence)
  where
    no_row : (x : GoalRow) → ◌≡◌ {A = Option GoalRow} none (some x) → ⊥
    no_row x e = cc
