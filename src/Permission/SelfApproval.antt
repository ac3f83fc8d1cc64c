-- ===== src/Permission/SelfApproval.antt =====
-- Who decides the approvals of packages/daemon/src/permission.ts.
use revdev.Base.{
  Text, text_eq, ℕ, ◌≡◌, refl, sym, subst, inl, inr, Bool, true, false, Bool-cases, Option, none,
  some, List, [], ◌∷◌, not, any, All, All-append, arith, leb, count_if,
}
use revdev.Base.Result.{Result-cases}
use revdev.Permission.Paths.{CallParams}
use revdev.Permission.Tables.{
  pending, approved, denied, lapsed, consumed, PendingApproval, Db, is_approved, log_event,
  max_pending_per_agent,
}
use revdev.Permission.Approvals.{
  expire_stale_approvals, is_stale, is_consumable, is_waiting, queue_approval_required,
  decide_approval, decided, list_pending_approvals,
}
use revdev.Base.Rows.{All-update_where, row_of_key}
use revdev.Permission.Decisions.{approval_id, HasUniqueApprovals, Consumable, sweep-Moves}
use revdev.Permission.Receipts.{with_consumed, try_consume_approval-cases}
use revdev.Permission.History.{
  ApprovalCall, sweeps, consumes, queues, decides, after, after_all, after-Moves, Accepted,
  decide_approval-Accepted,
}

-- An approved or consumed approval names the operator that decided it, who is not its agent.
unfoldable pub is_decided_by_other : PendingApproval → Bool
is_decided_by_other a = elim a.status [
  | pending ↦ true
  | denied ↦ true
  | lapsed ↦ true
  | approved ↦ elim a.decided_by [ none ↦ false | some d ↦ not (text_eq d a.agent_id) ]
  | consumed ↦ elim a.decided_by [ none ↦ false | some d ↦ not (text_eq d a.agent_id) ]
]

abbrev pub AllDecidedByOthers : Db → Type 0
AllDecidedByOthers db = All (λ a. is_decided_by_other a ≡ true) db.approvals

All-both :
    (P Q : PendingApproval → Type 0) (rows : List PendingApproval)
    → All P rows
    → All Q rows
    → All (λ a. P a × Q a) rows
All-both P Q [] h k = tt
All-both P Q (a ∷ rows) (p, h) (q, k) = ((p, q), All-both P Q rows h k)

sweep-decided :
    (now : ℕ) (db : Db) → AllDecidedByOthers db → AllDecidedByOthers (expire_stale_approvals now db)
unfolding expire_stale_approvals
sweep-decided now db h =
    All-update_where _ _ (is_stale now) (λ a. record a { status = lapsed }) db.approvals
      (λ a p. elim (Bool-cases (is_stale now a)) [
        | inl stale ↦ rw stale (unfold is_decided_by_other in refl)
        | inr fresh ↦ rw fresh p
      ])
      h

consumed-is_decided_by_other :
    (a : PendingApproval)
    → is_approved a.status ≡ true
    → is_decided_by_other a ≡ true
    → is_decided_by_other (record a { status = consumed }) ≡ true
unfolding is_decided_by_other is_approved
consumed-is_decided_by_other a h p = ground arith

consume-decided :
    (now : ℕ) (agent method digest : Text) (db : Db) (a : PendingApproval)
    → HasUniqueApprovals db
    → Consumable now agent method digest db a
    → AllDecidedByOthers db
    → AllDecidedByOthers (with_consumed a db)
unfolding Consumable is_consumable
consume-decided now agent method digest db a u (test, found) h =
    All-update_where _ _ (λ b. text_eq b.id a.id) (λ b. record b { status = consumed }) db.approvals
      (λ b both. elim (Bool-cases (text_eq b.id a.id)) [
        | inl same ↦ rw same (
            subst (λ x. is_decided_by_other (record x { status = consumed }) ≡ true)
              (sym (row_of_key approval_id b.id a.id b a db.approvals both.1 found same))
              (consumed-is_decided_by_other a (ground arith) (
                subst (λ x. is_decided_by_other x ≡ true)
                  (row_of_key approval_id b.id a.id b a db.approvals both.1 found same) both.0)))
        | inr other ↦ rw other both.0
      ])
      (All-both _ _ db.approvals h u)

verdict_row :
    (now : ℕ) (decider : Text) (r : PendingApproval) (v : Bool)
    → text_eq decider r.agent_id ≡ false
    → is_decided_by_other (decided now v decider r) ≡ true
unfolding is_decided_by_other decided
verdict_row now decider r true other = rw other refl
verdict_row now decider r false other = refl

decide-decided :
    (now : ℕ) (id : Text) (verdict : Bool) (decider : Text) (db db' : Db)
    → HasUniqueApprovals db
    → Accepted now id verdict decider db db'
    → AllDecidedByOthers db
    → AllDecidedByOthers db'
decide-decided now id verdict decider db db' u d h =
    subst (All λ a. is_decided_by_other a ≡ true) (sym d.rows) (
      All-update_where _ _ (λ b. text_eq b.id id) (decided now verdict decider) db.approvals
        (λ b both. elim (Bool-cases (text_eq b.id id)) [
          | inl same ↦ rw same (
              subst (λ x. is_decided_by_other (decided now verdict decider x) ≡ true)
                (sym (row_of_key approval_id b.id id b d.row db.approvals both.1 d.found same))
                (verdict_row now decider d.row verdict d.by_other))
          | inr other ↦ rw other both.0
        ])
        (All-both _ _ db.approvals h u))

queue-decided :
    (hash summarize : Text → Option CallParams → Text) (now : ℕ) (fresh agent method : Text)
    (params : Option CallParams) (db : Db)
    → AllDecidedByOthers db
    → AllDecidedByOthers (queue_approval_required hash summarize now fresh agent method params db).1
unfolding queue_approval_required log_event
queue-decided hash summarize now fresh agent method params db h =
    elim (Bool-cases (leb max_pending_per_agent (count_if (is_waiting now agent) db.approvals))) [
      | inl full ↦ rw full h
      | inr room ↦ elim (Bool-cases (any (λ a. text_eq a.id fresh) db.approvals)) [
        | inl used ↦ rw (room, used) h
        | inr new ↦
            rw (room, new) (All-append db.approvals _ _ (unfold is_decided_by_other in refl, tt) h)
      ]
    ]

module _ (hash summarize : Text → Option CallParams → Text) where
  after-decided :
      (c : ApprovalCall hash summarize) (db : Db)
      → HasUniqueApprovals db
      → AllDecidedByOthers db
      → AllDecidedByOthers (after hash summarize c db)
  unfolding after list_pending_approvals
  after-decided (sweeps now) db u h = sweep-decided now db h
  after-decided (consumes now agent method params) db u h =
      let swept : Db = expire_stale_approvals now db in
      elim (try_consume_approval-cases hash now agent method params db u) [
        | inl nothing ↦ subst (λ p. AllDecidedByOthers p.1) (sym nothing) (sweep-decided now db h)
        | inr (a, can, hit) ↦
            subst (λ p. AllDecidedByOthers p.1) (sym hit)
              (unfold log_event in
                consume-decided now agent method (hash method params) swept a
                  (sweep-Moves now db u).unique can (sweep-decided now db h))
      ]
  after-decided (queues now fresh agent method params) db u h =
      queue-decided hash summarize now fresh agent method params db h
  after-decided (decides now id verdict decider) db u h =
      elim (Result-cases (decide_approval now id verdict decider db)) [
        | inl (out, e) ↦
            rw (after, e)
              (decide-decided now id verdict decider db out.1 u
                (decide_approval-Accepted now id verdict decider db out e) h)
        | inr (thrown, e) ↦ rw (after, e) h
      ]

-- No agent approves its own call: after any calls on a table where it holds, each approval that is
-- approved or consumed names the operator that decided it, and that is not the agent of the approval.
pub after_all-is_decided_by_other :
    (hash summarize : Text → Option CallParams → Text) (calls : List (ApprovalCall hash summarize))
    (db : Db)
    → HasUniqueApprovals db
    → All (λ a. is_decided_by_other a ≡ true) db.approvals
    → All (λ a. is_decided_by_other a ≡ true) (after_all hash summarize calls db).approvals
unfolding after_all
after_all-is_decided_by_other hash summarize [] db u h = h
after_all-is_decided_by_other hash summarize (c ∷ calls) db u h =
    after_all-is_decided_by_other hash summarize calls (after hash summarize c db)
      (after-Moves hash summarize c db u).unique (after-decided hash summarize c db u h)
