-- ===== src/Permission/Policy.antt =====
-- The permission modes and the decision of packages/daemon/src/permission.ts.
use revdev.Base.{
  Text, txt, text_eq, trim, to_lower, Bool, true, false, not, ◌&&◌, Option, none, some, List, [],
  ◌∷◌, ◌++◌, map, any, keep, reverse, ◌==◌, if◌then◌else◌,
}
use revdev.Permission.Methods.{ActionClass, routine, consequential, critical, classify_method}
use revdev.Permission.Paths.{CallParams, deny_path_candidates, path_matches_deny_prefix}

pub data PermissionMode : Type 0 where
  shadow manual auto agent_scoped : PermissionMode

pub data ShadowWould : Type 0 where
  would_allow would_require_approval would_deny : ShadowWould

-- The variables of the environment that the code reads.
pub record Env : Type 0 where
  pub permission_mode : Option Text
  pub deny_methods : Option Text
  pub deny_prefixes : Option Text
  pub shadow_as : Option Text

abbrev pub text_or_empty : Option Text → Text
text_or_empty none = []
text_or_empty (some s) = s

-- The four words for a mode, of a trimmed lower-case text.
unfoldable pub mode_of_word : Text → Option PermissionMode
unfolding txt text_eq
mode_of_word w =
    if text_eq w (txt "manual")
    then some manual
    else if text_eq w (txt "auto")
    then some auto
    else if text_eq w (txt "agent-scoped")
    then some agent_scoped
    else if text_eq w (txt "shadow")
    then some shadow
    else none

unfoldable pub resolve_permission_mode : Env → PermissionMode
unfolding trim to_lower text_eq mode_of_word
resolve_permission_mode env =
    let raw = to_lower (trim (text_or_empty env.permission_mode)) in
    if text_eq raw [] then shadow else (elim (mode_of_word raw) [ some m ↦ m | none ↦ manual ])

unfoldable pub shadow_would_manual : ActionClass → ShadowWould
shadow_would_manual routine = would_allow
shadow_would_manual _ = would_require_approval

unfoldable pub shadow_would_auto : ActionClass → ShadowWould
shadow_would_auto critical = would_require_approval
shadow_would_auto _ = would_allow

-- `true` where the shadow simulates auto.
unfoldable pub resolve_shadow_as : Env → Bool
unfolding txt text_eq trim to_lower
resolve_shadow_as env =
    let raw : Text = elim env.shadow_as [ none ↦ txt "manual" | some s ↦ s ] in
    text_eq (to_lower (trim raw)) (txt "auto")

pub record PermissionShadowResult : Type 0 where
  pub action_class : ActionClass
  pub would : ShadowWould
  pub simulates_auto : Bool

unfoldable pub evaluate_shadow : Text → Env → PermissionShadowResult
unfolding classify_method resolve_shadow_as shadow_would_auto shadow_would_manual
evaluate_shadow method env =
    let c = classify_method method in
    let as_auto = resolve_shadow_as env in
    record {
      action_class = c;
      would = if as_auto then shadow_would_auto c else shadow_would_manual c;
      simulates_auto = as_auto;
    }

-- `raw.split(',')`: the pieces, in order; `cur` is the piece that is being read, backwards.
unfoldable pub split_commas : Text → Text → List Text
split_commas cur [] = reverse cur ∷ []
split_commas cur (c ∷ s) =
    let closed = reverse cur ∷ split_commas [] s in
    let longer = split_commas (c ∷ cur) s in if c == b',' then closed else longer

unfoldable pub parse_csv_list : Text → List Text
unfolding split_commas trim text_eq
parse_csv_list [] = []
parse_csv_list (c ∷ s) = keep (λ piece. not (text_eq piece [])) (map trim (split_commas [] (c ∷ s)))

pub record PermissionPolicyConfig : Type 0 where
  pub deny_methods : List Text
  pub deny_prefixes : List Text

abbrev no_policy : PermissionPolicyConfig
no_policy = record { deny_methods = []; deny_prefixes = [] }

-- `policy?.denyMethods ?? []` and its like: an absent policy is one with empty lists.
abbrev pub policy_or_empty : Option PermissionPolicyConfig → PermissionPolicyConfig
policy_or_empty none = no_policy
policy_or_empty (some p) = p

unfoldable pub policy_methods : Env → Option PermissionPolicyConfig → List Text
unfolding parse_csv_list
policy_methods env policy = elim env.deny_methods [
  | some raw ↦ parse_csv_list raw
  | none ↦ (policy_or_empty policy).deny_methods
]

unfoldable pub policy_prefixes : Env → Option PermissionPolicyConfig → List Text
unfolding parse_csv_list
policy_prefixes env policy = elim env.deny_prefixes [
  | some raw ↦ parse_csv_list raw
  | none ↦ (policy_or_empty policy).deny_prefixes
]

-- With no prefixes no path matches, so the early return for that case gives the same answer.
unfoldable pub matches_deny_list :
    Text → Option CallParams → Env → Option PermissionPolicyConfig → Bool
unfolding policy_methods policy_prefixes text_eq deny_path_candidates path_matches_deny_prefix
matches_deny_list method params env policy =
    let prefixes = policy_prefixes env policy in
    if any (text_eq method) (policy_methods env policy) then true else (elim prefixes [
      | [] ↦ false
      | p ∷ ps ↦ any (λ path. path_matches_deny_prefix path (p ∷ ps)) (deny_path_candidates params)
    ])

pub data AllowReason : Type 0 where
  routine_call auto_consequential : AllowReason

pub data ApprovalReason : Type 0 where
  by_manual auto_critical auto_other by_agent_scope : ApprovalReason

-- `deny` has one reason, the deny-list.
pub data EnforceDecision : Type 0 where
  allow : AllowReason → EnforceDecision
  require_approval : ApprovalReason → EnforceDecision
  deny : EnforceDecision

-- The branches of `decideEnforcement` on the class, for auto, agent-scoped and manual.
unfoldable pub decide_auto : ActionClass → Bool → EnforceDecision
decide_auto critical denied = require_approval auto_critical
decide_auto consequential denied = if denied then deny else allow auto_consequential
decide_auto routine denied = if denied then deny else allow routine_call

unfoldable pub decide_scoped : ActionClass → EnforceDecision
decide_scoped routine = allow routine_call
decide_scoped _ = require_approval by_agent_scope

unfoldable pub decide_manual : ActionClass → EnforceDecision
decide_manual routine = allow routine_call
decide_manual _ = require_approval by_manual

unfoldable pub decide_in : PermissionMode → ActionClass → Bool → EnforceDecision
unfolding decide_auto decide_scoped decide_manual
decide_in shadow c denied = allow routine_call
decide_in auto c denied = decide_auto c denied
decide_in agent_scoped c denied = decide_scoped c
decide_in manual c denied = decide_manual c

unfoldable pub decide_enforcement :
    Text
    → PermissionMode
    → Env
    → Option CallParams
    → Option PermissionPolicyConfig
    → EnforceDecision
unfolding decide_in
decide_enforcement method mode env params policy =
    decide_in mode (classify_method method) (matches_deny_list method params env policy)

-- `isShadowOnly`
unfoldable pub is_shadow_only : Env → Bool
unfolding resolve_permission_mode
is_shadow_only env = elim (resolve_permission_mode env) [ shadow ↦ true | _ ↦ false ]

-- The entries `agent:fingerprint` of the trust anchor; an absent fingerprint is `none`.
unfoldable pub is_trusted_operator : List Text → Text → Option Text → Bool
unfolding text_eq
is_trusted_operator entries agent none = false
is_trusted_operator entries agent (some fingerprint) =
    not (text_eq agent [])
    && not (text_eq fingerprint [])
    && any (text_eq (agent ++ b':' ∷ fingerprint)) entries
