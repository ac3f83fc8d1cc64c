-- ===== src/Permission/Tests.antt =====
-- Runs of the permission code on small inputs, and the theorems at inputs that meet their hypotheses.
use revdev.Base.{
  Text, txt, text_eq, trim, to_lower, ℕ, ◌+◌, ◌≤◌, ◌≡◌, ◌≢◌, ◌⊎◌, ◌↔◌, refl, true, false, Option,
  none, some, List, [], ◌∷◌, All, arith,
}
use revdev.Base.Dict.{get}
use revdev.Base.Number.{whole}
use revdev.Base.Result.{err, ok}
use revdev.Permission.Methods.{critical, routine, method_action_class, classify_method}
use revdev.Permission.Paths.{grant_root_matches, CallParams}
use revdev.Permission.Policy.{
  manual, auto, shadow, Env, decide_enforcement, matches_deny_list, decide_in, decide_manual,
}
use revdev.Base.Table.{update_where, first_where, insert_by, order_by}
use revdev.Permission.Tables.{
  approval_required, grant_issued, pending, approved, consumed, PendingApproval, PermissionGrantRow,
  active, Db, log_event, is_active, is_pending, is_approved,
}
use revdev.Permission.Grants.{
  try_consume_grant, expire_grants, is_usable, use_first, use_grant, is_spendable, spend_use,
  grant_covers_method, list_grants, IssueGrantInput, absent, issue_grant, check_classes,
  check_max_uses, check_expiry, clean_texts, clean_scope,
}
use revdev.Permission.Approvals.{
  queue_approval_required, is_waiting, block_session, try_consume_approval, is_stale, is_consumable,
  decision_rank, consume_row, expire_stale_approvals, decide_approval, decided, unblock_session,
}
use revdev.Permission.Gate.{GateEnv, gate_decision, ask_approval, asks_grants, consume_or_queue}
use revdev.Permission.Floor.{
  decide_enforcement_allows, decide_enforcement_denies, unlisted_needs_approval, is_allowed,
  is_denied,
}
use revdev.Permission.Decisions.{find_approval, HasUniqueApprovals, Follows, StatusStep}
use revdev.Permission.History.{ApprovalCall, consumes, queues, decides, after, after_all}
use revdev.Permission.SingleUse.{
  Backs, after-Follows, ApprovedOnTheWay, use_comes_after_approval, try_consume_approval-after_all,
}
use revdev.Permission.SelfApproval.{is_decided_by_other, after_all-is_decided_by_other}
use revdev.Permission.Flood.{waiting, InOrder, last_time, after_all-waiting}
use revdev.Permission.Uses.{HasUniqueGrants}
use revdev.Permission.Budget.{Left}
use revdev.Permission.GrantHistory.{GrantCall, spends, lists, grant_steps, hits, hits-Left}
use revdev.Permission.Issuing.{Issued, issue_grant-Issued}
use revdev.Permission.Refusal.{gate_decision-Left}
use revdev.Permission.Passage.{Passes, gate_decision-Passes}

abbrev pub ann : Text
ann = 97 ∷ []

abbrev pub boss : Text
boss = 98 ∷ []

abbrev pub deploy : Text
deploy = 100 ∷ []

abbrev receipt : Text
receipt = 114 ∷ []

abbrev pub second : Text
second = 115 ∷ []

-- A digest and a summary: the method itself.
abbrev digest : Text → Option CallParams → Text
digest method params = method

abbrev pub given : PendingApproval
given = record {
  id = receipt;
  agent_id = ann;
  method = deploy;
  params_hash = deploy;
  summary = deploy;
  requested_at = 0;
  expires_at = 100;
  status = approved;
  decided_by = some boss;
  decided_at = some 1;
}

abbrev two_uses : PermissionGrantRow
two_uses = record {
  id = receipt;
  grantee_agent_id = ann;
  classes = [];
  methods = deploy ∷ [];
  root_scope = none;
  expires_at = 1000;
  max_uses = some 2;
  uses_remaining = some 2;
  issued_by = boss;
  issued_at = 0;
  revoked_at = none;
  status = active;
}

abbrev pub store : Db
store = record { grants = two_uses ∷ []; approvals = given ∷ []; sessions = []; events = [] }

pub store_approvals : HasUniqueApprovals store
unfolding first_where text_eq
store_approvals = (refl, tt)

pub store_grants : HasUniqueGrants store
unfolding first_where text_eq
store_grants = (refl, tt)

found_given : find_approval receipt store ≡ some given
unfolding first_where text_eq
found_given = refl

decided_given : All (λ a. is_decided_by_other a ≡ true) store.approvals
unfolding is_decided_by_other text_eq
decided_given = (refl, tt)

abbrev calls : List (ApprovalCall digest digest)
calls = consumes 5 ann deploy none ∷ queues 6 second ann boss none ∷ decides 7 second true boss ∷ []

abbrev use_given : ApprovalCall digest digest
use_given = consumes 5 ann deploy none

after-Follows_example :
    (b : PendingApproval) × (find_approval receipt (after digest digest use_given store) ≡ some b)
    × Follows StatusStep given b
after-Follows_example =
    after-Follows digest digest use_given store receipt given store_approvals found_given

abbrev asked : PendingApproval
asked = record given { status = pending; decided_by = none; decided_at = none }

abbrev asked_store : Db
asked_store = record store { approvals = asked ∷ [] }

asked_store_approvals : HasUniqueApprovals asked_store
unfolding first_where text_eq
asked_store_approvals = (refl, tt)

found_asked : find_approval receipt asked_store ≡ some asked
unfolding first_where text_eq
found_asked = refl

abbrev decide_and_use : List (ApprovalCall digest digest)
decide_and_use = decides 5 receipt true boss ∷ consumes 6 ann deploy none ∷ []

abbrev used : PendingApproval
used = record given { status = consumed; decided_at = some 5; expires_at = 300005 }

found_used : find_approval receipt (after_all digest digest decide_and_use asked_store) ≡ some used
unfolding after_all after decide_approval decided unblock_session try_consume_approval
    expire_stale_approvals consume_row is_consumable decision_rank order_by insert_by first_where
    update_where text_eq is_stale is_approved is_pending log_event
found_used = refl

use_comes_after_approval_example : ApprovedOnTheWay digest digest decide_and_use asked_store receipt
use_comes_after_approval_example =
    use_comes_after_approval digest digest decide_and_use asked_store receipt asked used
      asked_store_approvals found_asked refl found_used refl

passed : (try_consume_approval digest 5 ann deploy none store).0 ≡ true
unfolding try_consume_approval expire_stale_approvals consume_row is_consumable decision_rank
    order_by insert_by first_where update_where text_eq is_stale is_approved is_pending log_event
passed = refl

try_consume_approval-after_all_example :
    (a : PendingApproval) × (find_approval a.id store ≡ some a)
    × Backs 5 ann deploy deploy a
    × (b : PendingApproval) × (find_approval a.id
          (after_all digest digest calls (try_consume_approval digest 5 ann deploy none store).1)
        ≡ some b)
    × (b.status ≡ consumed)
try_consume_approval-after_all_example =
    try_consume_approval-after_all digest digest 5 ann deploy none store calls store_approvals
      passed

after_all-is_decided_by_other_example :
    All (λ a. is_decided_by_other a ≡ true) (after_all digest digest calls store).approvals
after_all-is_decided_by_other_example =
    after_all-is_decided_by_other digest digest calls store store_approvals decided_given

in_order : InOrder digest digest 0 calls
in_order = (omega arith, (omega arith, (omega arith, tt)))

few : waiting 0 ann store ≤ 10
unfolding waiting text_eq is_pending
few = omega arith

after_all-waiting_example :
    waiting (last_time digest digest 0 calls) ann (after_all digest digest calls store) ≤ 10
after_all-waiting_example =
    after_all-waiting digest digest calls 0 ann store store_approvals in_order few

two_uses-Left : Left receipt store 2
unfolding first_where text_eq
two_uses-Left = record { row = two_uses; found = refl; uses = refl }

abbrev uses : List GrantCall
uses =
    spends (record { now = 5; agent = ann; method = deploy; params = none })
    ∷ lists 6
    ∷ spends (record { now = 7; agent = ann; method = deploy; params = none })
    ∷ []

hits-Left_example :
    (m : ℕ) × Left receipt (grant_steps uses store) m × (m + hits receipt uses store ≡ 2)
hits-Left_example = hits-Left uses receipt store 2 store_grants two_uses-Left

-- Both uses are taken, and a third call with the grant is refused.
all_taken :
    hits receipt
      (spends (record { now = 8; agent = ann; method = deploy; params = none }) ∷ uses)
      store
    ≡ 2
unfolding hits try_consume_grant expire_grants is_usable use_first use_grant is_spendable spend_use
    grant_covers_method grant_root_matches classify_method get method_action_class txt order_by
    insert_by first_where update_where text_eq is_active log_event list_grants
all_taken = refl

abbrev env : Env
env = record { permission_mode = none; deny_methods = none; deny_prefixes = none; shadow_as = none }

abbrev pub gate_env : GateEnv
gate_env = record { env = env; hash = digest; summarize = digest; now = 5; fresh = second }

abbrev gate_result : Db
gate_result = (gate_decision gate_env manual none ann deploy none store).1

lets_pass : gate_decision gate_env manual none ann deploy none store ≡ (ok tt, gate_result)
unfolding gate_decision decide_enforcement decide_in decide_manual classify_method get
    method_action_class txt ask_approval asks_grants consume_or_queue try_consume_approval
    expire_stale_approvals consume_row is_consumable decision_rank order_by insert_by first_where
    update_where text_eq is_stale is_approved is_pending log_event
lets_pass = refl

gate_decision-Passes_example :
    Passes gate_env
      (decide_enforcement deploy manual env none none)
      ann
      deploy
      none
      store
      gate_result
gate_decision-Passes_example =
    gate_decision-Passes gate_env manual none ann deploy none store gate_result store_approvals
      store_grants lets_pass

manual_is_not_shadow : manual ≢ shadow
manual_is_not_shadow e = cc

auto_is_not_shadow : auto ≢ shadow
auto_is_not_shadow e = cc

decide_enforcement_allows_example :
    (is_allowed (decide_enforcement deploy auto env none none) ≡ true) ↔ (
      ((auto ≢ auto) × (classify_method deploy ≡ routine))
      ⊎ ((auto ≡ auto)
          × (classify_method deploy ≢ critical)
          × (matches_deny_list deploy none env none ≡ false)))
decide_enforcement_allows_example =
    decide_enforcement_allows deploy auto env none none auto_is_not_shadow

decide_enforcement_denies_example :
    (is_denied (decide_enforcement deploy auto env none none) ≡ true) ↔ (
      (auto ≡ auto)
      × (classify_method deploy ≢ critical)
      × (matches_deny_list deploy none env none ≡ true))
decide_enforcement_denies_example = decide_enforcement_denies deploy auto env none none

unlisted : get method_action_class deploy ≡ none
unfolding get method_action_class txt text_eq
unlisted = refl

unlisted_needs_approval_example :
    (classify_method deploy ≡ critical)
    × (is_allowed (decide_enforcement deploy manual env none none) ≡ false)
unlisted_needs_approval_example =
    unlisted_needs_approval deploy manual env none none unlisted manual_is_not_shadow

abbrev input : IssueGrantInput
input = record {
  grantee_agent_id = ann;
  classes = [];
  methods = deploy ∷ [];
  root_scope = none;
  expires_at = absent;
  max_uses = some (whole 2);
  issued_by = boss;
}

abbrev pub new_grant : PermissionGrantRow
new_grant = record {
  id = second;
  grantee_agent_id = ann;
  classes = [];
  methods = deploy ∷ [];
  root_scope = none;
  expires_at = 86400005;
  max_uses = some 2;
  uses_remaining = some 2;
  issued_by = boss;
  issued_at = 5;
  revoked_at = none;
  status = active;
}

abbrev pub with_grant : Db
with_grant = record store {
  grants = two_uses ∷ new_grant ∷ [];
  events = grant_issued ann second boss ∷ [];
}

issued : issue_grant 5 second input store ≡ ok (new_grant, with_grant)
unfolding issue_grant check_classes check_max_uses check_expiry clean_texts clean_scope trim
    to_lower text_eq txt log_event
issued = refl

issue_grant-Issued_example : Issued 5 second input store new_grant with_grant
issue_grant-Issued_example = issue_grant-Issued 5 second input store (new_grant, with_grant) issued

abbrev refused_result : Db
refused_result = (gate_decision gate_env manual none boss deploy none store).1

refuses :
    gate_decision gate_env manual none boss deploy none store
    ≡ (err (approval_required second deploy 1800005), refused_result)
unfolding gate_decision decide_enforcement decide_in decide_manual classify_method get
    method_action_class txt ask_approval asks_grants consume_or_queue try_consume_approval
    expire_stale_approvals consume_row is_consumable decision_rank order_by insert_by first_where
    update_where text_eq is_stale is_approved is_pending log_event queue_approval_required
    is_waiting block_session
refuses = refl

gate_decision-Left_example : Left receipt refused_result 2
gate_decision-Left_example =
    gate_decision-Left gate_env manual none boss deploy none store refused_result
      (approval_required second deploy 1800005) receipt 2 store_approvals store_grants refuses
      two_uses-Left
