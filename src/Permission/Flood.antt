-- ===== src/Permission/Flood.antt =====
-- The cap on the requests that wait, per agent, of packages/daemon/src/permission.ts.
use revdev.Base.{
  Text, text_eq, text_eq_iff, ℕ, ◌+◌, ◌≤◌, ◌≡◌, refl, sym, subst, inl, inr, Bool, true, false,
  Bool-cases, Option, List, [], ◌∷◌, ◌++◌, any, arith, leb, if◌then◌else◌, count_if,
}
use revdev.Base.Result.{Result-cases}
use revdev.Permission.Paths.{CallParams}
use revdev.Base.Table.{update_where}
use revdev.Permission.Tables.{
  lapsed, consumed, PendingApproval, PermissionEvent, approval_consumed, Db, is_pending, log_event,
  max_pending_per_agent,
}
use revdev.Permission.Approvals.{
  expire_stale_approvals, is_stale, is_waiting, queue_approval_required, decide_approval, decided,
  list_pending_approvals,
}
use revdev.Permission.Decisions.{HasUniqueApprovals}
use revdev.Permission.Receipts.{with_consumed, try_consume_approval-cases}
use revdev.Permission.History.{
  ApprovalCall, sweeps, consumes, queues, decides, after, after_all, after-Moves, Accepted,
  decide_approval-Accepted,
}

-- How many requests of an agent wait for a decision.
unfoldable pub waiting : ℕ → Text → Db → ℕ
unfolding is_waiting
waiting now agent db = count_if (is_waiting now agent) db.approvals

count_if-imp :
    (p q : PendingApproval → Bool) (rows : List PendingApproval)
    → ((a : PendingApproval) → p a ≡ true → q a ≡ true)
    → count_if p rows ≤ count_if q rows
count_if-imp p q [] imp = omega arith
count_if-imp p q (a ∷ rows) imp = ground (arith, imp a, count_if-imp p q rows imp)

count_if-update_where :
    (p test : PendingApproval → Bool) (set : PendingApproval → PendingApproval)
    (rows : List PendingApproval)
    → ((a : PendingApproval) → p (set a) ≡ false)
    → count_if p (update_where test set rows) ≤ count_if p rows
unfolding update_where
count_if-update_where p test set [] off = omega arith
count_if-update_where p test set (a ∷ rows) off =
    ground (arith, off a, count_if-update_where p test set rows off)

count_if-append :
    (p : PendingApproval → Bool) (rows : List PendingApproval) (a : PendingApproval)
    → count_if p (rows ++ a ∷ []) ≡ count_if p rows + (if p a then 1 else 0)
count_if-append p [] a = ground arith
count_if-append p (b ∷ rows) a = ground (arith, count_if-append p rows a)

waiting-later :
    (now t : ℕ) (agent : Text) (db : Db) → now ≤ t → waiting t agent db ≤ waiting now agent db
unfolding waiting is_waiting
waiting-later now t agent db later =
    count_if-imp (is_waiting t agent) (is_waiting now agent) db.approvals λ a h. ground arith

waiting-sweep :
    (t now : ℕ) (agent : Text) (db : Db)
    → waiting t agent (expire_stale_approvals now db) ≤ waiting t agent db
unfolding waiting expire_stale_approvals is_waiting is_pending
waiting-sweep t now agent db =
    count_if-update_where (is_waiting t agent) (is_stale now) (λ a. record a { status = lapsed })
      db.approvals λ a. ground arith

waiting-consumed :
    (t : ℕ) (agent : Text) (a : PendingApproval) (db : Db)
    → waiting t agent (with_consumed a db) ≤ waiting t agent db
unfolding waiting is_waiting is_pending
waiting-consumed t agent a db =
    count_if-update_where (is_waiting t agent) (λ b. text_eq b.id a.id)
      (λ b. record b { status = consumed }) db.approvals λ b. ground arith

decided-is_waiting :
    (t now : ℕ) (agent : Text) (verdict : Bool) (decider : Text) (a : PendingApproval)
    → is_waiting t agent (decided now verdict decider a) ≡ false
unfolding is_waiting decided is_pending
decided-is_waiting t now agent true decider a = ground arith
decided-is_waiting t now agent false decider a = ground arith

waiting-decided :
    (t now : ℕ) (agent id : Text) (verdict : Bool) (decider : Text) (db db' : Db)
    → Accepted now id verdict decider db db'
    → waiting t agent db' ≤ waiting t agent db
unfolding waiting
waiting-decided t now agent id verdict decider db db' d =
    subst (λ rows. count_if (is_waiting t agent) rows ≤ count_if (is_waiting t agent) db.approvals)
      (sym d.rows)
      (count_if-update_where (is_waiting t agent) (λ b. text_eq b.id id)
        (decided now verdict decider) db.approvals
        λ a. decided-is_waiting t now agent verdict decider a)

waiting-log_event :
    (t : ℕ) (agent : Text) (e : PermissionEvent) (db : Db)
    → waiting t agent (log_event e db) ≡ waiting t agent db
unfolding waiting log_event
waiting-log_event t agent e db = refl

waits_for :
    (now : ℕ) (agent : Text) (a : PendingApproval)
    → is_waiting now agent a ≡ true
    → a.agent_id ≡ agent
unfolding is_waiting
waits_for now agent a h = ground (arith, text_eq_iff a.agent_id agent)

waiting_row :
    (now : ℕ) (agent : Text) (rows : List PendingApproval) (a : PendingApproval)
    → leb max_pending_per_agent (count_if (is_waiting now a.agent_id) rows) ≡ false
    → count_if (is_waiting now agent) rows ≤ 10
    → count_if (is_waiting now agent) (rows ++ a ∷ []) ≤ 10
waiting_row now agent rows a room capped = elim (Bool-cases (is_waiting now agent a)) [
  | inl waits ↦
      let less : leb 10 (count_if (is_waiting now agent) rows) ≡ false =
        subst (λ g. leb 10 (count_if (is_waiting now g) rows) ≡ false) (waits_for now agent a waits)
          room in
      ground (arith, count_if-append (is_waiting now agent) rows a)
  | inr idle ↦ ground (arith, count_if-append (is_waiting now agent) rows a)
]

waiting-queue :
    (hash summarize : Text → Option CallParams → Text) (now : ℕ) (fresh agent who method : Text)
    (params : Option CallParams) (db : Db)
    → waiting now agent db ≤ 10
    → waiting now agent (queue_approval_required hash summarize now fresh who method params db).1
      ≤ 10
unfolding queue_approval_required log_event waiting
waiting-queue hash summarize now fresh agent who method params db capped =
    elim (Bool-cases (leb max_pending_per_agent (count_if (is_waiting now who) db.approvals))) [
      | inl full ↦ rw full capped
      | inr room ↦ elim (Bool-cases (any (λ a. text_eq a.id fresh) db.approvals)) [
        | inl used ↦ rw (room, used) capped
        | inr new ↦ rw (room, new) (waiting_row now agent db.approvals _ room capped)
      ]
    ]

module _ (hash summarize : Text → Option CallParams → Text) where
  -- The time of a call.
  abbrev pub call_time : ApprovalCall hash summarize → ℕ
  call_time (sweeps now) = now
  call_time (consumes now agent method params) = now
  call_time (queues now fresh agent method params) = now
  call_time (decides now id verdict decider) = now

  after-waiting :
      (c : ApprovalCall hash summarize) (db : Db) (agent : Text)
      → HasUniqueApprovals db
      → waiting (call_time c) agent db ≤ 10
      → waiting (call_time c) agent (after hash summarize c db) ≤ 10
  unfolding after list_pending_approvals
  after-waiting (sweeps now) db agent u capped = ground (arith, waiting-sweep now now agent db)
  after-waiting (consumes now who method params) db agent u capped =
      let swept : Db = expire_stale_approvals now db in
      let less : waiting now agent swept ≤ 10 = ground (arith, waiting-sweep now now agent db) in
      elim (try_consume_approval-cases hash now who method params db u) [
        | inl nothing ↦ subst (λ p. waiting now agent p.1 ≤ 10) (sym nothing) less
        | inr (a, can, hit) ↦
            subst (λ p. waiting now agent p.1 ≤ 10) (sym hit)
              (rw (waiting-log_event now agent (approval_consumed who a.id) (with_consumed a swept))
                (ground (arith, waiting-consumed now agent a swept)))
      ]
  after-waiting (queues now fresh who method params) db agent u capped =
      waiting-queue hash summarize now fresh agent who method params db capped
  after-waiting (decides now id verdict decider) db agent u capped =
      elim (Result-cases (decide_approval now id verdict decider db)) [
        | inl (out, e) ↦
            rw (after, e)
              (ground (
                arith,
                waiting-decided now now agent id verdict decider db out.1
                    (decide_approval-Accepted now id verdict decider db out e),
              ))
        | inr (thrown, e) ↦ rw (after, e) capped
      ]

  -- The calls come in the order of their times, the first not before `now`.
  abbrev pub InOrder : ℕ → List (ApprovalCall hash summarize) → Type 0
  InOrder now [] = Unit
  InOrder now (c ∷ cs) = (now ≤ call_time c) × InOrder (call_time c) cs

  abbrev pub last_time : ℕ → List (ApprovalCall hash summarize) → ℕ
  last_time now [] = now
  last_time now (c ∷ cs) = last_time (call_time c) cs

-- Never more than 10 requests of one agent wait: where 10 at most wait now, so it is after any calls that
-- come in the order of their times.
pub after_all-waiting :
    (hash summarize : Text → Option CallParams → Text) (calls : List (ApprovalCall hash summarize))
    (now : ℕ) (agent : Text) (db : Db)
    → HasUniqueApprovals db
    → InOrder hash summarize now calls
    → waiting now agent db ≤ 10
    → waiting (last_time hash summarize now calls) agent (after_all hash summarize calls db) ≤ 10
unfolding after_all
after_all-waiting hash summarize [] now agent db u order few = few
after_all-waiting hash summarize (c ∷ calls) now agent db u (later, order) few =
    let t : ℕ = call_time hash summarize c in
    after_all-waiting hash summarize calls t agent (after hash summarize c db)
      (after-Moves hash summarize c db u).unique order
      (after-waiting hash summarize c db agent u
        (ground (arith, waiting-later now t agent db later)))
