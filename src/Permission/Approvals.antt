-- ===== src/Permission/Approvals.antt =====
-- The queue of approvals of packages/daemon/src/permission.ts. `hash` is `hashParams` of
-- packages/daemon/src/agent-identity-crypto.ts, a digest by node:crypto, of a method and its params.
use revdev.Base.{
  Text, text_eq, ℕ, ◌+◌, Bool, true, false, not, ◌&&◌, ◌||◌, Option, none, some, List, [], ◌∷◌,
  ◌++◌, reverse, any, keep, count_if, leb, ltb, if◌then◌else◌,
}
use revdev.Base.Result.{Result, ok, err, ◌>>=◌, ◌>>◌, ensure}
use revdev.Permission.Paths.{CallParams}
use revdev.Base.Table.{update_where, first_where, order_by}
use revdev.Permission.Tables.{
  ApprovalStatus, pending, approved, denied, lapsed, consumed, PendingApproval, AgentSession,
  PermissionEvent, approval_expired, approval_consumed, approval_requested, approval_decided, Db,
  log_event, is_pending, is_approved, pending_ttl_ms, approval_consume_ttl_ms,
  max_pending_per_agent, PermissionError, duplicate_id, self_approval, unknown_approval,
  approval_not_pending, flood_cap, approval_required,
}

-- status IN ('pending', 'approved') AND expires_at <= NOW()
unfoldable pub is_stale : ℕ → PendingApproval → Bool
unfolding is_pending is_approved
is_stale now a = (is_pending a.status || is_approved a.status) && leb a.expires_at now

unfoldable pub expired_events : List PendingApproval → List PermissionEvent
expired_events [] = []
expired_events (a ∷ rows) = approval_expired a.agent_id a.id ∷ expired_events rows

unfoldable pub expire_stale_approvals : ℕ → Db → Db
unfolding is_stale update_where expired_events
expire_stale_approvals now db = record db {
  approvals = update_where (is_stale now) (λ a. record a { status = lapsed }) db.approvals;
  events = db.events ++ expired_events (keep (is_stale now) db.approvals);
}

-- The WHERE of the inner SELECT in `tryConsumeApproval`.
unfoldable pub is_consumable : ℕ → Text → Text → Text → PendingApproval → Bool
unfolding text_eq is_approved
is_consumable now agent method digest a =
    text_eq a.agent_id agent
    && text_eq a.method method
    && text_eq a.params_hash digest
    && is_approved a.status
    && ltb now a.expires_at

-- `decided_at DESC NULLS LAST`, as a number that grows with the time of the decision.
unfoldable pub decision_rank : PendingApproval → ℕ
decision_rank a = elim a.decided_at [ none ↦ 0 | some t ↦ t + 1 ]

-- UPDATE … WHERE id = (SELECT … ORDER BY decided_at DESC NULLS LAST LIMIT 1) RETURNING id
unfoldable pub consume_row : ℕ → Text → Text → Text → Db → Option Text × Db
unfolding is_consumable decision_rank order_by first_where update_where text_eq
consume_row now agent method digest db =
    let matches =
      reverse
        (order_by decision_rank (keep (is_consumable now agent method digest) db.approvals)) in
    elim (first_where (λ a. true) matches) [
      | none ↦ (none, db)
      | some a ↦ (
        some a.id,
        record db {
          approvals =
              update_where (λ b. text_eq b.id a.id) (λ b. record b { status = consumed })
                db.approvals;
        },
      )
    ]

-- Whether an approval was consumed for this call, and the tables afterwards.
unfoldable pub try_consume_approval :
    (Text → Option CallParams → Text) → ℕ → Text → Text → Option CallParams → Db → Bool × Db
unfolding expire_stale_approvals consume_row log_event
try_consume_approval hash now agent method params db =
    let (hit, db') =
      consume_row now agent method (hash method params) (expire_stale_approvals now db) in
    elim hit [ none ↦ (false, db') | some id ↦ (true, log_event (approval_consumed agent id) db') ]

-- agent_id = $1 AND status = 'pending' AND expires_at > NOW()
unfoldable pub is_waiting : ℕ → Text → PendingApproval → Bool
unfolding text_eq is_pending
is_waiting now agent a = text_eq a.agent_id agent && is_pending a.status && ltb now a.expires_at

-- id = $1 AND ended_at IS NULL
abbrev pub is_live : Text → AgentSession → Bool
is_live agent s = (elim s.ended_at [ none ↦ true | some t ↦ false ]) && text_eq s.id agent

unfoldable pub block_session : ℕ → Text → List AgentSession → List AgentSession
unfolding update_where text_eq
block_session now agent = update_where (is_live agent) (λ s. record s {
  blocked = true;
  for_permission = true;
  blocked_since = some now;
  updated_at = now;
})

-- `queueApprovalRequired` always throws: the error, and the tables afterwards. `fresh` is the
-- identifier that `randomUUID` returned, `summary` the text of `summarizeParams`.
unfoldable pub queue_approval_required :
    (Text → Option CallParams → Text)
    → (Text → Option CallParams → Text)
    → ℕ
    → Text
    → Text
    → Text
    → Option CallParams
    → Db
    → PermissionError × Db
unfolding is_waiting block_session log_event text_eq
queue_approval_required hash summarize now fresh agent method params db =
    let row : PendingApproval = record {
      id = fresh;
      agent_id = agent;
      method = method;
      params_hash = hash method params;
      summary = summarize method params;
      requested_at = now;
      expires_at = now + pending_ttl_ms;
      status = pending;
      decided_by = none;
      decided_at = none;
    } in
    if leb max_pending_per_agent (count_if (is_waiting now agent) db.approvals)
    then (flood_cap method, db)
    else if any (λ a. text_eq a.id fresh) db.approvals
    then (duplicate_id, db)
    else (
      approval_required fresh method (now + pending_ttl_ms),
      log_event (approval_requested agent fresh) (record db {
        approvals = db.approvals ++ row ∷ [];
        sessions = block_session now agent db.sessions;
      }),
    )

-- `listPendingApprovals`: the waiting rows, oldest first.
unfoldable pub list_pending_approvals : ℕ → Option Text → Db → List PendingApproval × Db
unfolding expire_stale_approvals is_pending text_eq order_by
list_pending_approvals now filter db =
    let swept = expire_stale_approvals now db in
    let wanted = λ (a : PendingApproval).
      is_pending a.status && ltb now a.expires_at && (elim filter [
        | none ↦ true
        | some agent ↦ text_eq agent [] || text_eq a.agent_id agent
      ]) in
    (order_by (λ a. a.requested_at) (keep wanted swept.approvals), swept)

abbrev pub found_approval : Text → Option PendingApproval → Result PermissionError PendingApproval
found_approval id none = err (unknown_approval id)
found_approval id (some a) = ok a

-- The columns that `decideApproval` sets; `verdict` is true for 'approved'.
unfoldable pub decided : ℕ → Bool → Text → PendingApproval → PendingApproval
decided now verdict decider a = record a {
  status = if verdict then approved else denied;
  decided_by = some decider;
  decided_at = some now;
  expires_at = if verdict then now + approval_consume_ttl_ms else a.expires_at;
}

-- id = $1 AND activity_state = 'blocked' AND blocked_reason = 'permission'
unfoldable pub unblock_session : ℕ → Text → List AgentSession → List AgentSession
unfolding update_where text_eq
unblock_session now agent =
    update_where (λ s. text_eq s.id agent && s.blocked && s.for_permission)
      (λ s. record s {
        blocked = false;
        for_permission = false;
        blocked_since = none;
        updated_at = now;
      })

unfoldable pub decide_approval :
    ℕ → Text → Bool → Text → Db → Result PermissionError (ApprovalStatus × Db)
unfolding text_eq first_where update_where decided unblock_session log_event is_pending
decide_approval now id verdict decider db = do
  found ← found_approval id (first_where (λ a. text_eq a.id id) db.approvals)
  ensure (is_pending found.status) (approval_not_pending id)
  ensure (not (text_eq decider found.agent_id)) self_approval
  ok (
    (if verdict then approved else denied),
    log_event (approval_decided id verdict decider) (record db {
      approvals = update_where (λ a. text_eq a.id id) (decided now verdict decider) db.approvals;
      sessions = unblock_session now found.agent_id db.sessions;
    }),
  )
