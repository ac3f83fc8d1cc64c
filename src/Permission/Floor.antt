-- ===== src/Permission/Floor.antt =====
-- The decision table of packages/daemon/src/permission.ts.
use revdev.Base.{Text, ◌≡◌, refl, ◌≢◌, ◌⊎◌, ◌↔◌, Bool, true, false, Option, none, arith}
use revdev.Base.Dict.{get}
use revdev.Permission.Methods.{ActionClass, routine, critical, method_action_class, classify_method}
use revdev.Permission.Paths.{CallParams}
use revdev.Permission.Policy.{
  PermissionMode, shadow, manual, auto, agent_scoped, Env, PermissionPolicyConfig, EnforceDecision,
  allow, deny, decide_enforcement, decide_in, matches_deny_list,
}

abbrev pub is_allowed : EnforceDecision → Bool
is_allowed (allow reason) = true
is_allowed _ = false

abbrev pub is_denied : EnforceDecision → Bool
is_denied deny = true
is_denied _ = false

decide_in-is_allowed :
    (mode : PermissionMode) (c : ActionClass) (denied : Bool)
    → mode ≢ shadow
    → (is_allowed (decide_in mode c denied) ≡ true)
      ↔ (((mode ≢ auto) × (c ≡ routine)) ⊎ ((mode ≡ auto) × (c ≢ critical) × (denied ≡ false)))
unfolding decide_in
decide_in-is_allowed shadow c denied h = absurd (h refl)
decide_in-is_allowed auto critical denied h = ground arith
decide_in-is_allowed auto _ denied h = ground arith
decide_in-is_allowed manual routine denied h = ground arith
decide_in-is_allowed manual _ denied h = ground arith
decide_in-is_allowed agent_scoped routine denied h = ground arith
decide_in-is_allowed agent_scoped _ denied h = ground arith

-- Outside shadow mode, exactly two kinds of calls are allowed at once: in a mode other than auto a
-- routine call, and in auto mode a call that is not critical and that the deny-list does not match.
pub decide_enforcement_allows :
    (method : Text) (mode : PermissionMode) (env : Env) (params : Option CallParams)
    (policy : Option PermissionPolicyConfig)
    → mode ≢ shadow
    → (is_allowed (decide_enforcement method mode env params policy) ≡ true) ↔ (
        ((mode ≢ auto) × (classify_method method ≡ routine))
        ⊎ ((mode ≡ auto)
            × (classify_method method ≢ critical)
            × (matches_deny_list method params env policy ≡ false)))
unfolding decide_enforcement
decide_enforcement_allows method mode env params policy h =
    decide_in-is_allowed mode (classify_method method) (matches_deny_list method params env policy)
      h

decide_in-is_denied :
    (mode : PermissionMode) (c : ActionClass) (denied : Bool)
    → (is_denied (decide_in mode c denied) ≡ true)
      ↔ ((mode ≡ auto) × (c ≢ critical) × (denied ≡ true))
unfolding decide_in
decide_in-is_denied auto critical denied = ground arith
decide_in-is_denied auto _ denied = ground arith
decide_in-is_denied manual routine denied = ground arith
decide_in-is_denied manual _ denied = ground arith
decide_in-is_denied agent_scoped routine denied = ground arith
decide_in-is_denied agent_scoped _ denied = ground arith
decide_in-is_denied shadow c denied = ground arith

-- A call is denied outright exactly in auto mode, where the deny-list matches it and its method is
-- not critical: the list cannot lower the floor of critical methods, which go to an approval.
pub decide_enforcement_denies :
    (method : Text) (mode : PermissionMode) (env : Env) (params : Option CallParams)
    (policy : Option PermissionPolicyConfig)
    → (is_denied (decide_enforcement method mode env params policy) ≡ true) ↔ (
        (mode ≡ auto)
        × (classify_method method ≢ critical)
        × (matches_deny_list method params env policy ≡ true))
unfolding decide_enforcement
decide_enforcement_denies method mode env params policy =
    decide_in-is_denied mode (classify_method method) (matches_deny_list method params env policy)

critical-is_allowed :
    (mode : PermissionMode) (denied : Bool)
    → mode ≢ shadow
    → is_allowed (decide_in mode critical denied) ≡ false
unfolding decide_in
critical-is_allowed shadow denied h = absurd (h refl)
critical-is_allowed _ denied h = refl

-- A method that the table does not list is critical, and outside shadow mode no call of it is
-- allowed at once, in any mode and under any policy.
pub unlisted_needs_approval :
    (method : Text) (mode : PermissionMode) (env : Env) (params : Option CallParams)
    (policy : Option PermissionPolicyConfig)
    → get method_action_class method ≡ none
    → mode ≢ shadow
    → (classify_method method ≡ critical)
      × (is_allowed (decide_enforcement method mode env params policy) ≡ false)
unfolding classify_method decide_enforcement
unlisted_needs_approval method mode env params policy unlisted h =
    rw unlisted (refl, critical-is_allowed mode (matches_deny_list method params env policy) h)
