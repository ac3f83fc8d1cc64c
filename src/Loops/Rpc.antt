-- ===== src/Loops/Rpc.antt =====
-- The `loop.*` handlers of packages/daemon/src/server.ts. `agent` is the caller that
-- `requireVerifiedAgent` returned, `live` the query for a live session. A handler returns its
-- answer, the registry, and the events that it inserts.
use revdev.Base.{
  Text, text_eq, ℕ, Bool, true, false, not, ◌||◌, ◌&&◌, Option, none, some, List, [], ◌∷◌, ◌++◌,
  ◌==◌, if◌then◌else◌,
}
use revdev.Base.Dict.{get}
use revdev.Base.Number.{Number, nan, above, whole}
use revdev.Base.Param.{Param, boolean, str, str_or_null, num_or_undefined, num}
use revdev.Base.Result.{Result, ok, err, ◌>>=◌, ◌>>◌, ensure}
use revdev.Loops.{
  LoopStatus, not_advancing, LoopSpend, LoopState, ArmLoopInput, Signal, LoopError,
  owned_by_another, foreign_session, no_live_session, Registry, status_eq, or_else, LoopRpcView,
  loop_rpc_view,
}
use revdev.Loops.Registry.{
  arm, tick, record_spend, pause, resume, stop, require, owned_by, the_boolean,
}

-- The rows that the handlers insert into `events`, of the caller.
pub data Event : Type 0 where
  spend_delta : Text → Number → Number → Number → LoopSpend → Event
  not_advancing_at : Text → ℕ → ℕ → Option Signal → LoopSpend → Event

pub record LoopParams : Type 0 where
  pub loop_id : Param
  pub interval_ms : Param
  pub noop_limit : Param
  pub session_id : Param
  pub advanced : Param
  pub tokens_in : Param
  pub tokens_out : Param
  pub cost_micros : Param

abbrev pub Answer {ℓ} : Type ℓ → Type ℓ
Answer A = Result LoopError (A × Registry × List Event)

-- `requestedSession && requestedSession !== agentId`: the empty string is no request.
abbrev pub is_foreign : Option Text → Text → Bool
is_foreign none agent = false
is_foreign (some t) agent = not (text_eq t []) && not (text_eq t agent)

-- The argument of `loopGuards.arm` in the handler.
abbrev pub arm_input : Text → LoopParams → Text → ArmLoopInput
arm_input agent p session = record {
  loop_id = str p.loop_id;
  agent_id = agent;
  interval_ms = num p.interval_ms (whole 0);
  noop_limit = num_or_undefined p.noop_limit (whole 3);
  session_id = some session;
  now = none;
}

unfoldable pub rpc_arm : (Text → Bool) → Registry → Text → LoopParams → ℕ → Answer LoopRpcView
unfolding str num num_or_undefined str_or_null loop_rpc_view
rpc_arm live r agent p clock = do
  let requested = str_or_null p.session_id
  ensure (not (is_foreign requested agent)) (foreign_session (or_else requested agent))
  let session = or_else requested agent
  ensure (live session) (no_live_session session)
  (s, r') ← arm r (arm_input agent p session) clock
  ok (loop_rpc_view (some s), r', [])

-- `n ?? 0`
abbrev pub or_zero : Option Number → Number
or_zero n = or_else n (whole 0)

-- A number that JavaScript counts as true. The readers let no NaN through.
unfoldable pub is_truthy : Option Number → Bool
is_truthy none = false
is_truthy (some nan) = false
is_truthy (some (above n d)) = not (n == 0)
is_truthy (some _) = true

unfoldable pub spend_events :
    Text → Option Number → Option Number → Option Number → LoopState → List Event
spend_events id i o c s = spend_delta id (or_zero i) (or_zero o) (or_zero c) s.spend ∷ []

unfoldable pub stuck_events : Text → LoopState → List Event
unfolding status_eq
stuck_events id s =
    if status_eq s.status not_advancing
    then not_advancing_at id s.consecutive_no_ops s.noop_limit s.last_signal s.spend ∷ []
    else []

abbrev pub as_boolean : Param → Option Bool
as_boolean (boolean b) = some b
as_boolean _ = none

unfoldable pub rpc_tick : Registry → Text → LoopParams → ℕ → Answer LoopRpcView
unfolding str num_or_undefined num is_truthy spend_events stuck_events loop_rpc_view
rpc_tick r agent p clock = do
  let id = str p.loop_id
  b ← the_boolean (as_boolean p.advanced)
  let i = num_or_undefined p.tokens_in (whole 0)
  let o = num_or_undefined p.tokens_out (whole 0)
  let c = num_or_undefined p.cost_micros (whole 0)
  ensure (owned_by (get r id) agent) (owned_by_another id)
  (s, r') ←
      tick r
        (record {
          loop_id = id;
          advanced = some b;
          tokens_in = i;
          tokens_out = o;
          cost_micros = c;
          now = none;
        })
        clock
  let spent = if is_truthy i || is_truthy o || is_truthy c then spend_events id i o c s else []
  ok (loop_rpc_view (some s), r', spent ++ stuck_events id s)

unfoldable pub rpc_status : Registry → Text → LoopParams → Answer LoopRpcView
unfolding str loop_rpc_view
rpc_status r agent p = do
  let id = str p.loop_id
  ensure (owned_by (get r id) agent) (owned_by_another id)
  ok (loop_rpc_view (get r id), r, [])

-- `loop.spend` answers the spend, the tick count and the status of a loop that is there.
unfoldable pub rpc_spend :
    Registry → Text → LoopParams → Answer (Option (LoopSpend × ℕ × LoopStatus))
unfolding str
rpc_spend r agent p = do
  let id = str p.loop_id
  ensure (owned_by (get r id) agent) (owned_by_another id)
  ok (elim (get r id) [ none ↦ none | some s ↦ some (s.spend, s.tick_count, s.status) ], r, [])

-- The checks that the other handlers begin with: the loop is there, and the caller owns it.
unfoldable pub require_owned : Registry → Text → Text → Result LoopError LoopState
require_owned r agent id = do
  s ← require r id
  ensure (text_eq s.agent_id agent) (owned_by_another id)
  ok s

unfoldable pub rpc_record_spend : Registry → Text → LoopParams → ℕ → Answer LoopState
unfolding str num_or_undefined num spend_events require_owned
rpc_record_spend r agent p clock = do
  let id = str p.loop_id
  existing ← require_owned r agent id
  let i = num_or_undefined p.tokens_in (whole 0)
  let o = num_or_undefined p.tokens_out (whole 0)
  let c = num_or_undefined p.cost_micros (whole 0)
  (s, r') ←
      record_spend r
        (record { loop_id = id; tokens_in = i; tokens_out = o; cost_micros = c; now = none }) clock
  ok (s, r', spend_events id i o c s)

unfoldable pub rpc_pause : Registry → Text → LoopParams → ℕ → Answer LoopState
unfolding str require_owned
rpc_pause r agent p clock = do
  existing ← require_owned r agent (str p.loop_id)
  (s, r') ← pause r (str p.loop_id) clock
  ok (s, r', [])

unfoldable pub rpc_resume : Registry → Text → LoopParams → ℕ → Answer LoopState
unfolding str require_owned
rpc_resume r agent p clock = do
  existing ← require_owned r agent (str p.loop_id)
  (s, r') ← resume r (str p.loop_id) clock
  ok (s, r', [])

unfoldable pub rpc_stop : Registry → Text → LoopParams → ℕ → Answer LoopState
unfolding str require_owned
rpc_stop r agent p clock = do
  existing ← require_owned r agent (str p.loop_id)
  (s, r') ← stop r (str p.loop_id) clock
  ok (s, r', [])

pub data LoopMethod : Type 0 where
  loop_arm loop_tick loop_status loop_spend loop_record_spend : LoopMethod
  loop_pause loop_resume loop_stop : LoopMethod

-- The registry after an answer or an error.
abbrev pub left_by {ℓ} : {A : Type ℓ} → Registry → Answer A → Registry
left_by r (ok (a, r', events)) = r'
left_by r (err e) = r

-- The handler that each method is registered with, as a change of the registry.
unfoldable pub rpc_effect : (Text → Bool) → Registry → Text → LoopMethod → LoopParams → ℕ → Registry
rpc_effect live r agent loop_arm p clock = left_by r (rpc_arm live r agent p clock)
rpc_effect live r agent loop_tick p clock = left_by r (rpc_tick r agent p clock)
rpc_effect live r agent loop_status p clock = left_by r (rpc_status r agent p)
rpc_effect live r agent loop_spend p clock = left_by r (rpc_spend r agent p)
rpc_effect live r agent loop_record_spend p clock = left_by r (rpc_record_spend r agent p clock)
rpc_effect live r agent loop_pause p clock = left_by r (rpc_pause r agent p clock)
rpc_effect live r agent loop_resume p clock = left_by r (rpc_resume r agent p clock)
rpc_effect live r agent loop_stop p clock = left_by r (rpc_stop r agent p clock)
