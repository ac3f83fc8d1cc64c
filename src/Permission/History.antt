-- ===== src/Permission/History.antt =====
-- Histories of the calls on approvals of packages/daemon/src/permission.ts.
use revdev.Base.{
  Text, text_eq, ℕ, ◌≡◌, refl, ap, sym, subst, inl, inr, Bool, true, false, Option, none, some,
  List, [], ◌∷◌, not, arith,
}
use revdev.Base.Result.{ensured, negated, returned_value, ok, err, ensure, split_bind, Result-cases}
use revdev.Permission.Paths.{CallParams}
use revdev.Base.Table.{update_where}
use revdev.Permission.Tables.{ApprovalStatus, PendingApproval, Db, is_pending, log_event}
use revdev.Permission.Approvals.{
  try_consume_approval, queue_approval_required, decide_approval, decided, found_approval,
  list_pending_approvals,
}
use revdev.Base.Rows.{row_at, HasUniqueIds}
use revdev.Permission.Decisions.{
  approval_id, find_approval, HasUniqueApprovals, decide_step, key_Follows, Moves, update-Moves,
  sweep-Moves, sweep_then-Moves, Moves-refl, Moves-trans, StatusStep, StatusPath, start, then,
}
use revdev.Permission.Receipts.{try_consume_approval-Moves, queue_approval_required-Moves}

-- What a decision that was accepted saw, and what it left.
pub record Accepted (now : ℕ) (id : Text) (verdict : Bool) (decider : Text) (db db' : Db)
    : Type 0 where
  pub row : PendingApproval
  pub found : find_approval id db ≡ some row
  pub was_pending : is_pending row.status ≡ true
  pub by_other : text_eq decider row.agent_id ≡ false
  pub rows :
      db'.approvals ≡ update_where (λ a. text_eq a.id id) (decided now verdict decider) db.approvals

find-found_approval :
    (id : Text) (r : Option PendingApproval) (a : PendingApproval)
    → found_approval id r ≡ ok a
    → r ≡ some a
find-found_approval id r a e = ground arith

pub decide_approval-Accepted :
    (now : ℕ) (id : Text) (verdict : Bool) (decider : Text) (db : Db) (out : ApprovalStatus × Db)
    → decide_approval now id verdict decider db ≡ ok out
    → Accepted now id verdict decider db out.1
unfolding decide_approval log_event
decide_approval-Accepted now id verdict decider db out e =
    let (a, e1, found) = split_bind _ (found_approval id (find_approval id db)) e in
    let (u, e2, waits) = split_bind _ (ensure (is_pending a.status) _) e1 in
    let (v, e3, other) = split_bind _ (ensure (not (text_eq decider a.agent_id)) _) e2 in
    record {
      row = a;
      found = find-found_approval id _ a found;
      was_pending = ensured _ _ u waits;
      by_other = negated _ (ensured _ _ v other);
      rows = ap (λ p. p.1.approvals) (sym (returned_value _ out _ refl e3));
    }

pub decide_approval-Moves :
    (now : ℕ) (id : Text) (verdict : Bool) (decider : Text) (db db' : Db)
    → HasUniqueApprovals db
    → Accepted now id verdict decider db db'
    → Moves StatusStep db db'
unfolding decided
decide_approval-Moves now id verdict decider db db' u d = same_rows _ db' (sym d.rows) (
    update-Moves StatusStep db (λ a. text_eq a.id id) (decided now verdict decider) db.events
      db.sessions u (λ a. refl)
      λ k r found.
        key_Follows id k d.row r db.approvals (decided now verdict decider) d.found found (record {
          same_agent = refl;
          same_method = refl;
          same_digest = refl;
          step = decide_step d.row.status verdict d.was_pending;
        }))
  where
    same_rows :
        (b c : Db) → b.approvals ≡ c.approvals → Moves StatusStep db b → Moves StatusStep db c
    same_rows b c e m = record {
      unique = subst (HasUniqueIds approval_id) e m.unique;
      at = λ k a found.
          let (r, found_r, f) = m.at k a found in
          (r, subst (λ rows. row_at approval_id k rows ≡ some r) e found_r, f);
    }

module _ (hash summarize : Text → Option CallParams → Text) where
  -- The calls that write approvals, with the time of each and the identifier that a new row gets.
  pub data ApprovalCall : Type 0 where
    sweeps : ℕ → ApprovalCall
    consumes : ℕ → Text → Text → Option CallParams → ApprovalCall
    queues : ℕ → Text → Text → Text → Option CallParams → ApprovalCall
    decides : ℕ → Text → Bool → Text → ApprovalCall

  -- The tables after a call; a call that throws before it writes leaves them.
  unfoldable pub after : ApprovalCall → Db → Db
  after (sweeps now) db = (list_pending_approvals now none db).1
  after (consumes now agent method params) db =
      (try_consume_approval hash now agent method params db).1
  after (queues now fresh agent method params) db =
      (queue_approval_required hash summarize now fresh agent method params db).1
  after (decides now id verdict decider) db = elim (decide_approval now id verdict decider db) [
    | ok out ↦ out.1
    | err e ↦ db
  ]

  unfoldable pub after_all : List ApprovalCall → Db → Db
  unfolding after
  after_all [] db = db
  after_all (c ∷ cs) db = after_all cs (after c db)

  pub after-Moves :
      (c : ApprovalCall) (db : Db) → HasUniqueApprovals db → Moves StatusStep db (after c db)
  unfolding after list_pending_approvals
  after-Moves (sweeps now) db u =
      sweep_then-Moves now db _ u (Moves-refl _ (sweep-Moves now db u).unique)
  after-Moves (consumes now agent method params) db u =
      try_consume_approval-Moves hash now agent method params db u
  after-Moves (queues now fresh agent method params) db u =
      queue_approval_required-Moves hash summarize now fresh agent method params db u
  after-Moves (decides now id verdict decider) db u =
      elim (Result-cases (decide_approval now id verdict decider db)) [
        | inl (out, e) ↦
            rw (after, e)
              (decide_approval-Moves now id verdict decider db out.1 u
                (decide_approval-Accepted now id verdict decider db out e))
        | inr (thrown, e) ↦ rw (after, e) (Moves-refl db u)
      ]

  pub after_all-Moves :
      (calls : List ApprovalCall) (db : Db)
      → HasUniqueApprovals db
      → Moves StatusPath db (after_all calls db)
  unfolding after_all
  after_all-Moves [] db u = record {
    unique = u;
    at = λ k a found. (
      a,
      found,
      record { same_agent = refl; same_method = refl; same_digest = refl; step = start },
    );
  }
  after_all-Moves (c ∷ calls) db u =
      let first : Moves StatusStep db (after c db) = after-Moves c db u in
      Moves-trans StatusStep StatusPath StatusPath (λ s t v m n. then m n) db (after c db) _ first
        (after_all-Moves calls (after c db) first.unique)
