-- ===== src/Permission/Receipts.antt =====
-- What the calls on approvals of packages/daemon/src/permission.ts do to a receipt: an approval that a
-- call consumes is one that was approved for that call, and it is consumed once.
use revdev.Base.{
  Text, text_eq, ℕ, ◌≡◌, refl, ap, sym, subst, ◌⊎◌, inl, inr, Bool, true, false, Bool-cases, Option,
  none, some, List, reverse, keep, any, All, arith, leb, count_if,
}
use revdev.Permission.Paths.{CallParams}
use revdev.Base.Table.{update_where, first_where, order_by}
use revdev.Permission.Tables.{
  consumed, PendingApproval, PermissionEvent, Db, log_event, max_pending_per_agent,
  approval_consumed,
}
use revdev.Permission.Approvals.{
  is_consumable, decision_rank, consume_row, expire_stale_approvals, try_consume_approval,
  is_waiting, queue_approval_required,
}
use revdev.Base.Rows.{
  row_at-append_old, append-HasUniqueIds, row_at-none, All-order_by, All-reverse, first_of_All,
}
use revdev.Permission.Decisions.{
  approval_id, find_approval, HasUniqueApprovals, Follows-refl, consume_step, key_Follows, Moves,
  update-Moves, sweep-Moves, Moves-refl, sweep_then-Moves, StatusStep, Consumable, All-consumable,
}

-- The tables after the UPDATE that consumes a row.
abbrev pub with_consumed : PendingApproval → Db → Db
with_consumed a db = record db {
  approvals =
      update_where (λ b. text_eq b.id a.id) (λ b. record b { status = consumed }) db.approvals;
}

pub consume_row-cases :
    (now : ℕ) (agent method digest : Text) (db : Db)
    → HasUniqueApprovals db
    → (consume_row now agent method digest db ≡ (none, db))
      ⊎ ((a : PendingApproval) × Consumable now agent method digest db a
          × (consume_row now agent method digest db ≡ (some a.id, with_consumed a db)))
unfolding consume_row Consumable
consume_row-cases now agent method digest db u = by_first (first_where (λ a. true) matches) refl
  where
    test : PendingApproval → Bool
    test = is_consumable now agent method digest

    matches : List PendingApproval
    matches = reverse (order_by decision_rank (keep test db.approvals))

    all : All (λ a. (test a ≡ true) × (find_approval a.id db ≡ some a)) matches
    all = All-reverse _ _ (All-order_by _ decision_rank _ (All-consumable test _ db.approvals u))

    by_first :
        (hit : Option PendingApproval)
        → first_where (λ a. true) matches ≡ hit
        → (consume_row now agent method digest db ≡ (none, db))
          ⊎ ((a : PendingApproval) × ((test a ≡ true) × (find_approval a.id db ≡ some a))
              × (consume_row now agent method digest db ≡ (some a.id, with_consumed a db)))
    by_first none e = inl (rw (consume_row, e) refl)
    by_first (some a) e =
        inr (a, (first_of_All _ (λ a. true) matches a all e).0, rw (consume_row, e) refl)

pub consumed-Moves :
    (now : ℕ) (agent method digest : Text) (db : Db) (a : PendingApproval)
    → HasUniqueApprovals db
    → Consumable now agent method digest db a
    → Moves StatusStep db (with_consumed a db)
unfolding Consumable is_consumable
consumed-Moves now agent method digest db a u (test, found) =
    update-Moves StatusStep db (λ b. text_eq b.id a.id) _ db.events db.sessions u (λ b. refl)
      λ k r found_r.
        key_Follows a.id k a r db.approvals (λ b. record b { status = consumed }) found found_r
          (record {
            same_agent = refl;
            same_method = refl;
            same_digest = refl;
            step = consume_step a.status (ground arith);
          })

-- The two outcomes of `tryConsumeApproval`, after the sweep of what has expired.
pub try_consume_approval-cases :
    (hash : Text → Option CallParams → Text) (now : ℕ) (agent method : Text)
    (params : Option CallParams) (db : Db)
    → HasUniqueApprovals db
    → (try_consume_approval hash now agent method params db
        ≡ (false, expire_stale_approvals now db))
      ⊎ ((a : PendingApproval) × Consumable now agent method
            (hash method params)
            (expire_stale_approvals now db)
            a
          × (try_consume_approval hash now agent method params db ≡ (
            true,
            log_event
                (approval_consumed agent a.id)
                (with_consumed a (expire_stale_approvals now db)),
          )))
unfolding try_consume_approval
try_consume_approval-cases hash now agent method params db u =
    elim (consume_row-cases now agent method (hash method params) swept
      (sweep-Moves now db u).unique) [
        | inl nothing ↦ inl (ap answer nothing)
        | inr (a, can, hit) ↦ inr (a, can, ap answer hit)
      ]
  where
    swept : Db
    swept = expire_stale_approvals now db

    answer : Option Text × Db → Bool × Db
    answer p = elim p.0 [
      | none ↦ (false, p.1)
      | some id ↦ (true, log_event (approval_consumed agent id) p.1)
    ]

logged-Moves :
    (db db' : Db) (e : PermissionEvent)
    → Moves StatusStep db db'
    → Moves StatusStep db (log_event e db')
unfolding log_event
logged-Moves db db' e m = record { unique = m.unique; at = m.at }

pub try_consume_approval-Moves :
    (hash : Text → Option CallParams → Text) (now : ℕ) (agent method : Text)
    (params : Option CallParams) (db : Db)
    → HasUniqueApprovals db
    → Moves StatusStep db (try_consume_approval hash now agent method params db).1
try_consume_approval-Moves hash now agent method params db u =
    elim (try_consume_approval-cases hash now agent method params db u) [
      | inl nothing ↦
          subst (λ p. Moves StatusStep db p.1) (sym nothing)
            (sweep_then-Moves now db swept u (Moves-refl swept unique))
      | inr (a, can, hit) ↦
          subst (λ p. Moves StatusStep db p.1) (sym hit)
            (logged-Moves db _ _ (
              sweep_then-Moves now db (with_consumed a swept) u
                (consumed-Moves now agent method (hash method params) swept a unique can)))
    ]
  where
    swept : Db
    swept = expire_stale_approvals now db

    unique : HasUniqueApprovals swept
    unique = (sweep-Moves now db u).unique

pub queue_approval_required-Moves :
    (hash summarize : Text → Option CallParams → Text) (now : ℕ) (fresh agent method : Text)
    (params : Option CallParams) (db : Db)
    → HasUniqueApprovals db
    → Moves StatusStep db
        (queue_approval_required hash summarize now fresh agent method params db).1
unfolding queue_approval_required log_event
queue_approval_required-Moves hash summarize now fresh agent method params db u =
    elim (Bool-cases (leb max_pending_per_agent (count_if (is_waiting now agent) db.approvals))) [
      | inl full ↦ rw full (Moves-refl db u)
      | inr room ↦ elim (Bool-cases (any (λ a. text_eq a.id fresh) db.approvals)) [
        | inl used ↦ rw (room, used) (Moves-refl db u)
        | inr new ↦
            rw (room, new)
              (record {
                unique =
                    append-HasUniqueIds approval_id db.approvals _
                      (row_at-none approval_id fresh db.approvals new) u;
                at = λ k a found.
                    (a, row_at-append_old approval_id k db.approvals _ a found, Follows-refl a);
              })
      ]
    ]
