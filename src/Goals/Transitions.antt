-- ===== src/Goals/Transitions.antt =====
-- The goal table of packages/daemon/src/goals and the machine of ALLOWED_TRANSITIONS.
use revdev.Base.{
  Text, text_eq, ℕ, ◌≡◌, ap, sym, ◌∙◌, subst, true, Bool-cases, Option-cases, inl, inr, Option,
  none, some, List, [], ◌∷◌, ◌++◌, arith, if◌then◌else◌,
}
use mathlib.Core.Option
use revdev.Base.Rows.{row_at-append, row_of_key}
use revdev.Goals.Store.{
  GoalStatus, opened, active, blocked, done, abandoned, GoalRow, GoalDb, get_goal, closes,
  set_goal_status, update_criterion,
}
use revdev.Goals.Harness.{can_transition}
use revdev.Goals.Calls.{GoalCall, after_call, after_calls, Changes}
use revdev.Goals.History.{after_call-Changes}
use revdev.Goals.Completion.{status_at, status_at-set_goal_status, missing_status}

-- The moves of the machine, one by one.
pub data Goes : GoalStatus → GoalStatus → Type 0 where
  begins : Goes opened active
  begins_blocked : Goes opened blocked
  is_dropped : Goes opened abandoned
  is_held_up : Goes active blocked
  ends : Goes active done
  is_given_up : Goes active abandoned
  goes_on : Goes blocked active
  is_left : Goes blocked abandoned

can_transition-Goes : (s t : GoalStatus) → can_transition s t ≡ true → Goes s t
unfolding can_transition
can_transition-Goes opened opened h = cc
can_transition-Goes opened active h = begins
can_transition-Goes opened blocked h = begins_blocked
can_transition-Goes opened done h = cc
can_transition-Goes opened abandoned h = is_dropped
can_transition-Goes active opened h = cc
can_transition-Goes active active h = cc
can_transition-Goes active blocked h = is_held_up
can_transition-Goes active done h = ends
can_transition-Goes active abandoned h = is_given_up
can_transition-Goes blocked opened h = cc
can_transition-Goes blocked active h = goes_on
can_transition-Goes blocked blocked h = cc
can_transition-Goes blocked done h = cc
can_transition-Goes blocked abandoned h = is_left
can_transition-Goes done t h = cc
can_transition-Goes abandoned t h = cc

-- What one call may do to the status of a goal, which may not be there.
pub data Moves : Option GoalStatus → Option GoalStatus → Type 0 where
  stays : {s : Option GoalStatus} → Moves s s
  appears : Moves none (some opened)
  goes : {s t : GoalStatus} → Goes s t → Moves (some s) (some t)

-- The tables afterwards are a step of the machine away, for each goal.
abbrev EachMoves : GoalDb → GoalDb → Type 0
EachMoves db d = (k : Text) → Moves (status_at k db) (status_at k d)

set_goal_status-Moves :
    (now : ℕ) (k : Text) (s : GoalStatus) (reason : Text) (db : GoalDb) (g : GoalRow)
    → get_goal k db ≡ some g
    → can_transition g.status s ≡ true
    → EachMoves db (set_goal_status now k s reason db)
unfolding get_goal
set_goal_status-Moves now k s reason db g found allowed j = elim (Option-cases (get_goal j db)) [
  | inl missing ↦
      subst (λ o. Moves (status_at j db) o)
        (ap (Option.map (λ x. x.status)) missing ∙ sym (missing_status now k s reason db j missing))
        stays
  | inr (h, found_h) ↦
      let before : status_at j db ≡ some h.status = ap (Option.map (λ x. x.status)) found_h in
      let after = status_at-set_goal_status now k s reason db h j found_h in
      subst (λ o. Moves o (status_at j (set_goal_status now k s reason db))) (sym before)
        (subst (Moves (some h.status)) (sym after) (moved h found_h))
]
  where
    moved :
        (h : GoalRow)
        → get_goal j db ≡ some h
        → Moves (some h.status) (some (if text_eq h.id k then s else h.status))
    moved h found_h = elim (Bool-cases (text_eq h.id k)) [
      | inl hit ↦
          let same : h ≡ g = row_of_key (λ x. x.id) j k h g db.goals found_h found hit in
          rw hit
            (goes (can_transition-Goes _ _ (ap (λ x. can_transition x.status s) same ∙ allowed)))
      | inr miss ↦ rw miss stays
    ]

insert_goal-Moves :
    (g : GoalRow) (db : GoalDb)
    → g.status ≡ opened
    → EachMoves db (record db { goals = db.goals ++ g ∷ [] })
unfolding get_goal
insert_goal-Moves g db is_opened j = elim (Option-cases (get_goal j db)) [
  | inl missing ↦ elim (Bool-cases (text_eq g.id j)) [
    | inl hit ↦ rw (row_at-append (λ x. x.id) j db.goals g, missing, hit, is_opened) appears
    | inr miss ↦ rw (row_at-append (λ x. x.id) j db.goals g, missing, miss) stays
  ]
  | inr (h, found) ↦ rw (row_at-append (λ x. x.id) j db.goals g, found) stays
]

Moves-Changes : Changes EachMoves
unfolding get_goal update_criterion
Moves-Changes = record {
  unchanged = λ db k. stays;
  move = λ now k s reason db g found allowed ready.
      set_goal_status-Moves now k s reason db g found allowed;
  insert = λ g db new is_opened. insert_goal-Moves g db is_opened;
  set_events = λ es db d h k. h k;
  set_tasks = λ ts db d h k. h k;
  append = λ row db d h new is_open fresh k. h k;
  edit = λ k set c db d h found is_open good j. h j;
}

-- A single call of any kind, on any tables, leaves the status of each goal, or makes a new goal open, or
-- takes one move: from open to active, blocked or abandoned, from active to blocked, done or abandoned,
-- from blocked to active or abandoned.
pub after_call-Moves :
    (c : GoalCall) (db : GoalDb) (k : Text) → Moves (status_at k db) (status_at k (after_call c db))
after_call-Moves c db k = after_call-Changes EachMoves Moves-Changes c db k

no_way_out : {s t : GoalStatus} → Goes s t → closes s ≡ true → ⊥
unfolding closes
no_way_out begins h = cc
no_way_out begins_blocked h = cc
no_way_out is_dropped h = cc
no_way_out is_held_up h = cc
no_way_out ends h = cc
no_way_out is_given_up h = cc
no_way_out goes_on h = cc
no_way_out is_left h = cc

terminal_step :
    (a b : Option GoalStatus) (s : GoalStatus)
    → Moves a b
    → a ≡ some s
    → closes s ≡ true
    → b ≡ some s
terminal_step a b s stays e h = e
terminal_step a b s appears e h = cc
terminal_step a b s (goes {s = x} {t = t} m) e h =
    let same : x ≡ s = ground (arith, e) in absurd (no_way_out m (ap closes same ∙ h))

-- A goal that is done or abandoned stays so, whatever calls are made.
pub after_calls-terminal :
    (calls : List GoalCall) (db : GoalDb) (k : Text) (s : GoalStatus)
    → status_at k db ≡ some s
    → closes s ≡ true
    → status_at k (after_calls calls db) ≡ some s
unfolding after_calls
after_calls-terminal [] db k s e h = e
after_calls-terminal (c ∷ calls) db k s e h =
    after_calls-terminal calls (after_call c db) k s
      (terminal_step _ _ s (after_call-Moves c db k) e h) h
