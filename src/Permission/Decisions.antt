-- ===== src/Permission/Decisions.antt =====
-- The states of an approval of packages/daemon/src/permission.ts under every call that writes it.
use revdev.Base.{
  Text, text_eq, ℕ, ◌≡◌, refl, ap, ◌∙◌, sym, subst, ◌||◌, Bool-cases, inl, inr, Bool, true, false,
  Option, some, List, [], ◌∷◌, keep, All, arith, if◌then◌else◌,
}
use mathlib.Core.Option
use revdev.Base.Table.{update_where}
use revdev.Permission.Tables.{
  ApprovalStatus, pending, approved, denied, lapsed, consumed, PendingApproval, PermissionEvent,
  AgentSession, Db, is_approved, is_pending,
}
use revdev.Permission.Approvals.{is_stale, expire_stale_approvals, is_consumable}
use revdev.Base.Rows.{
  updated, row_at, row_at-update_where, HasUniqueIds, update_where-HasUniqueIds, row_of_key,
}

abbrev pub approval_id : PendingApproval → Text
approval_id a = a.id

abbrev pub find_approval : Text → Db → Option PendingApproval
find_approval id db = row_at approval_id id db.approvals

abbrev pub HasUniqueApprovals : Db → Type 0
HasUniqueApprovals db = HasUniqueIds approval_id db.approvals

-- What one call may do to a status: nothing leads out of denied, lapsed or consumed, and to consumed only
-- approved leads.
pub data StatusStep : ApprovalStatus → ApprovalStatus → Type 0 where
  stays : {s : ApprovalStatus} → StatusStep s s
  approves : StatusStep pending approved
  denies : StatusStep pending denied
  lapses : StatusStep pending lapsed
  lapses_unused : StatusStep approved lapsed
  consumes : StatusStep approved consumed

-- What the sweep of expired approvals may do to a status.
pub data SweepStep : ApprovalStatus → ApprovalStatus → Type 0 where
  unchanged : {s : ApprovalStatus} → SweepStep s s
  sweeps_pending : SweepStep pending lapsed
  sweeps_approved : SweepStep approved lapsed

-- What any number of calls may do.
pub data StatusPath : ApprovalStatus → ApprovalStatus → Type 0 where
  start : {s : ApprovalStatus} → StatusPath s s
  then : {s t u : ApprovalStatus} → StatusStep s t → StatusPath t u → StatusPath s u

pub sweep_then : {s t u : ApprovalStatus} → SweepStep s t → StatusStep t u → StatusStep s u
sweep_then unchanged n = n
sweep_then sweeps_pending stays = lapses
sweep_then sweeps_approved stays = lapses_unused

abbrev pub StatusRelation : Type 1
StatusRelation = ApprovalStatus → ApprovalStatus → Type 0

-- A row before and after: the call that it is for is the same, and its status went as R allows.
pub record Follows (R : StatusRelation) (a b : PendingApproval) : Type 0 where
  pub same_agent : b.agent_id ≡ a.agent_id
  pub same_method : b.method ≡ a.method
  pub same_digest : b.params_hash ≡ a.params_hash
  pub step : R a.status b.status

pub Follows-refl : (a : PendingApproval) → Follows StatusStep a a
Follows-refl a = record { same_agent = refl; same_method = refl; same_digest = refl; step = stays }

lapse_step : (s : ApprovalStatus) → (is_pending s || is_approved s) ≡ true → SweepStep s lapsed
unfolding is_pending is_approved
lapse_step pending h = sweeps_pending
lapse_step approved h = sweeps_approved
lapse_step denied h = cc
lapse_step lapsed h = cc
lapse_step consumed h = cc

pub consume_step : (s : ApprovalStatus) → is_approved s ≡ true → StatusStep s consumed
unfolding is_approved
consume_step approved h = consumes
consume_step pending h = cc
consume_step denied h = cc
consume_step lapsed h = cc
consume_step consumed h = cc

pub decide_step :
    (s : ApprovalStatus) (verdict : Bool)
    → is_pending s ≡ true
    → StatusStep s (if verdict then approved else denied)
unfolding is_pending
decide_step pending true h = approves
decide_step pending false h = denies
decide_step approved verdict h = cc
decide_step denied verdict h = cc
decide_step lapsed verdict h = cc
decide_step consumed verdict h = cc

stale_Follows :
    (now : ℕ) (a : PendingApproval)
    → Follows SweepStep a (updated (is_stale now) (λ a. record a { status = lapsed }) a)
stale_Follows now a = elim (Bool-cases (is_stale now a)) [
  | inl stale ↦ rw stale (record {
    same_agent = refl;
    same_method = refl;
    same_digest = refl;
    step = lapse_step a.status (unfold is_stale in ground arith);
  })
  | inr fresh ↦
      rw fresh
        (record { same_agent = refl; same_method = refl; same_digest = refl; step = unchanged })
]

-- An UPDATE of one row by its key, where the row may take the step.
pub key_Follows :
    (id k : Text) (a r : PendingApproval) (rows : List PendingApproval)
    (set : PendingApproval → PendingApproval)
    → row_at approval_id id rows ≡ some a
    → row_at approval_id k rows ≡ some r
    → Follows StatusStep a (set a)
    → Follows StatusStep r (updated (λ b. text_eq b.id id) set r)
key_Follows id k a r rows set found_a found_r f = elim (Bool-cases (text_eq r.id id)) [
  | inl same ↦ rw same (
      subst (λ x. Follows StatusStep x (set x))
        (sym (row_of_key approval_id k id r a rows found_r found_a same)) f)
  | inr other ↦ rw other (Follows-refl r)
]

-- The rows of a table after a call: each old row is there, and its status went as R allows.
pub record Moves (R : StatusRelation) (db db' : Db) : Type 0 where
  pub unique : HasUniqueApprovals db'
  pub at :
      (k : Text) (a : PendingApproval)
      → find_approval k db ≡ some a
      → (b : PendingApproval) × (find_approval k db' ≡ some b) × Follows R a b

pub update-Moves :
    (R : StatusRelation) (db : Db) (test : PendingApproval → Bool)
    (set : PendingApproval → PendingApproval) (events : List PermissionEvent)
    (sessions : List AgentSession)
    → HasUniqueApprovals db
    → ((a : PendingApproval) → (set a).id ≡ a.id)
    → ((k : Text) (a : PendingApproval)
        → find_approval k db ≡ some a
        → Follows R a (updated test set a))
    → Moves R db (record db {
      approvals = update_where test set db.approvals;
      events = events;
      sessions = sessions;
    })
update-Moves R db test set events sessions u same f = record {
  unique = update_where-HasUniqueIds approval_id test set db.approvals same u;
  at = λ k a found. (
    updated test set a,
    row_at-update_where approval_id k test set db.approvals same
        ∙ ap (Option.map (updated test set)) found,
    f k a found,
  );
}

pub sweep-Moves :
    (now : ℕ) (db : Db) → HasUniqueApprovals db → Moves SweepStep db (expire_stale_approvals now db)
unfolding expire_stale_approvals
sweep-Moves now db u =
    update-Moves SweepStep db (is_stale now) _ _ db.sessions u (λ a. refl)
      (λ k a found. stale_Follows now a)

pub Moves-refl : (db : Db) → HasUniqueApprovals db → Moves StatusStep db db
Moves-refl db u = record { unique = u; at = λ k a found. (a, found, Follows-refl a) }

pub Moves-trans :
    (R S T : StatusRelation)
    → ((s t u : ApprovalStatus) → R s t → S t u → T s u)
    → (a b c : Db) → Moves R a b
    → Moves S b c
    → Moves T a c
Moves-trans R S T compose a b c m n = record {
  unique = n.unique;
  at = λ k x found.
      let (y, found_y, f) = m.at k x found in
      let (z, found_z, g) = n.at k y found_y in
      (
        z,
        found_z,
        record {
          same_agent = g.same_agent ∙ f.same_agent;
          same_method = g.same_method ∙ f.same_method;
          same_digest = g.same_digest ∙ f.same_digest;
          step = compose x.status y.status z.status f.step g.step;
        },
      );
}

-- The sweep and then one change of rows, in one call.
pub sweep_then-Moves :
    (now : ℕ) (db db' : Db)
    → HasUniqueApprovals db
    → Moves StatusStep (expire_stale_approvals now db) db'
    → Moves StatusStep db db'
sweep_then-Moves now db db' u m =
    Moves-trans SweepStep StatusStep StatusStep (λ s t v m n. sweep_then m n) db
      (expire_stale_approvals now db) db' (sweep-Moves now db u) m

-- What the inner SELECT finds is a row of the table that the call may consume.
unfoldable pub Consumable : ℕ → Text → Text → Text → Db → PendingApproval → Type 0
Consumable now agent method digest db a =
    (is_consumable now agent method digest a ≡ true) × (find_approval a.id db ≡ some a)

pub All-consumable :
    (test : PendingApproval → Bool) (P : PendingApproval → Type 0) (rows : List PendingApproval)
    → All P rows
    → All (λ a. (test a ≡ true) × P a) (keep test rows)
All-consumable test P [] h = tt
All-consumable test P (a ∷ rows) (p, h) = ground (arith, All-consumable test P rows h)
