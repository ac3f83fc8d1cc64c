-- ===== src/Permission/Tables.antt =====
-- The tables that packages/daemon/src/permission.ts reads and writes (permission_grants,
-- pending_approvals, agent_sessions, events), and the statements that it runs on them. Times are
-- milliseconds; NOW() and Date.now() of one statement are one number.
use revdev.Base.{Text, ℕ, ◌*◌, Bool, true, false, Option, List, [], ◌∷◌, ◌++◌}
use revdev.Permission.Methods.{ActionClass}
use revdev.Permission.Policy.{PermissionMode, ShadowWould}

pub data GrantStatus : Type 0 where
  active expired exhausted revoked : GrantStatus

pub record PermissionGrantRow : Type 0 where
  pub id : Text
  pub grantee_agent_id : Text
  pub classes : List Text
  pub methods : List Text
  pub root_scope : Option Text
  pub expires_at : ℕ
  pub max_uses : Option ℕ
  pub uses_remaining : Option ℕ
  pub issued_by : Text
  pub issued_at : ℕ
  pub revoked_at : Option ℕ
  pub status : GrantStatus

pub data ApprovalStatus : Type 0 where
  pending approved denied lapsed consumed : ApprovalStatus

pub record PendingApproval : Type 0 where
  pub id : Text
  pub agent_id : Text
  pub method : Text
  pub params_hash : Text
  pub summary : Text
  pub requested_at : ℕ
  pub expires_at : ℕ
  pub status : ApprovalStatus
  pub decided_by : Option Text
  pub decided_at : Option ℕ

-- The columns of a session that the permission code uses. `blocked` stands for an activity_state of
-- 'blocked', `for_permission` for a blocked_reason of 'permission'.
pub record AgentSession : Type 0 where
  pub id : Text
  pub ended_at : Option ℕ
  pub permission_mode : Option Text
  pub blocked : Bool
  pub for_permission : Bool
  pub blocked_since : Option ℕ
  pub updated_at : ℕ

-- The rows of `events`, by their event_type, with the agent and the payload's keys.
pub data PermissionEvent : Type 0 where
  shadow_event : Option Text → Text → ActionClass → ShadowWould → PermissionEvent
  auto_allowed denied_event : Text → Text → PermissionEvent
  grant_allowed : Text → Text → Text → PermissionEvent
  grant_issued grant_revoked : Text → Text → Text → PermissionEvent
  approval_expired approval_consumed approval_requested : Text → Text → PermissionEvent
  approval_decided : Text → Bool → Text → PermissionEvent
  mode_set : Text → Option PermissionMode → Text → PermissionEvent

pub record Db : Type 0 where
  pub grants : List PermissionGrantRow
  pub approvals : List PendingApproval
  pub sessions : List AgentSession
  pub events : List PermissionEvent

unfoldable pub log_event : PermissionEvent → Db → Db
log_event e db = record db { events = db.events ++ e ∷ [] }

unfoldable pub is_active : GrantStatus → Bool
is_active active = true
is_active _ = false

unfoldable pub is_pending : ApprovalStatus → Bool
is_pending pending = true
is_pending _ = false

unfoldable pub is_approved : ApprovalStatus → Bool
is_approved approved = true
is_approved _ = false

-- PENDING_TTL_MS, APPROVAL_CONSUME_TTL_MS, MAX_PENDING_PER_AGENT, GRANT_DEFAULT_TTL_MS
abbrev pub pending_ttl_ms : ℕ
pending_ttl_ms = 30 * 60 * 1000

abbrev pub approval_consume_ttl_ms : ℕ
approval_consume_ttl_ms = 5 * 60 * 1000

abbrev pub max_pending_per_agent : ℕ
max_pending_per_agent = 10

abbrev pub grant_default_ttl_ms : ℕ
grant_default_ttl_ms = 24 * 60 * 60 * 1000

-- Every throw of the permission code. `approval_required` carries the receipt's id and expiry.
pub data PermissionError : Type 0 where
  grantee_required self_grant critical_by_class routine_by_class no_classes_or_methods :
      PermissionError
  unknown_class : Text → PermissionError
  max_uses_not_positive expiry_not_a_date expiry_not_in_future duplicate_id : PermissionError
  grant_id_required self_approval agent_id_required own_mode : PermissionError
  unknown_grant grant_not_active unknown_approval approval_not_pending no_live_session :
      Text → PermissionError
  permission_denied flood_cap : Text → PermissionError
  denied_without_session : Text → PermissionError
  approval_required : Text → Text → ℕ → PermissionError
