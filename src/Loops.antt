-- ===== src/Loops.antt =====
-- packages/daemon/src/loop-guard.ts: the registry of guarded loops. Its methods throw errors or
-- return the changed registry with a snapshot of the loop; a snapshot is a clone in the source, so
-- a value of the record is all that callers hold. `clock` is `Date.now()`.
pub mod Registry
pub mod Commands
pub mod Rearm
pub mod Streak
mod Tests
pub mod Writes
pub mod Spend
pub mod Reap
pub mod Isolation
pub mod Rpc
use revdev.Base.{
  Text, text_eq, trim, ℕ, ◌+◌, Bool, true, false, not, ◌&&◌, ◌||◌, Option, none, some, List, [],
  ◌∷◌, leb, ◌==◌, if◌then◌else◌,
}
use revdev.Base.Dict.{Dict, get, put}
use revdev.Base.Number.{Number, is_finite, is_positive, is_negative, is_less, floor}
use revdev.Base.Result.{Result, ok, err, ◌>>=◌, ◌>>◌, ensure}

-- DEFAULT_LOOP_NOOP_LIMIT of packages/protocol/src/loop-contract.ts
abbrev pub default_noop_limit : ℕ
default_noop_limit = 3

abbrev pub min_idle_interval_ms : ℕ
min_idle_interval_ms = 60000

pub data LoopStatus : Type 0 where
  armed paused stopped not_advancing : LoopStatus

pub record LoopSpend : Type 0 where
  pub tokens_in : ℕ
  pub tokens_out : ℕ
  pub cost_micros : ℕ

-- The texts that `cadenceWarningForInterval` returns, with the number that they print.
pub data CadenceWarning : Type 0 where
  not_positive : CadenceWarning
  too_short : Number → CadenceWarning

-- The texts of `lastSignal`, with the numbers that they print.
pub data Signal : Type 0 where
  cadence : CadenceWarning → Signal
  stuck : ℕ → ℕ → Signal
  was_paused was_stopped reaped_with_session : Signal

pub record LoopState : Type 0 where
  pub loop_id : Text
  pub agent_id : Text
  pub session_id : Option Text
  pub interval_ms : Number
  pub consecutive_no_ops : ℕ
  pub noop_limit : ℕ
  pub status : LoopStatus
  pub cadence_warning : Option CadenceWarning
  pub tick_count : ℕ
  pub created_at : ℕ
  pub updated_at : ℕ
  pub last_signal : Option Signal
  pub spend : LoopSpend

pub record ArmLoopInput : Type 0 where
  pub loop_id : Text
  pub agent_id : Text
  pub interval_ms : Number
  pub noop_limit : Option Number
  pub session_id : Option Text
  pub now : Option ℕ

-- `advanced` is `none` where the caller passed no Boolean.
pub record TickLoopInput : Type 0 where
  pub loop_id : Text
  pub advanced : Option Bool
  pub tokens_in : Option Number
  pub tokens_out : Option Number
  pub cost_micros : Option Number
  pub now : Option ℕ

pub record RecordSpendInput : Type 0 where
  pub loop_id : Text
  pub tokens_in : Option Number
  pub tokens_out : Option Number
  pub cost_micros : Option Number
  pub now : Option ℕ

pub data LoopError : Type 0 where
  interval_not_positive advanced_not_boolean : LoopError
  owned_by_another unknown_loop is_stopped is_paused : Text → LoopError
  foreign_session no_live_session : Text → LoopError

abbrev pub Registry : Type 0
Registry = Dict LoopState

abbrev pub Outcome : Type 0
Outcome = Result LoopError (LoopState × Registry)

-- `a ?? b`
abbrev pub or_else {ℓ} : {A : Type ℓ} → Option A → A → A
or_else none b = b
or_else (some a) b = a

unfoldable pub non_neg_int : Option Number → ℕ
unfolding is_finite is_negative floor
non_neg_int none = 0
non_neg_int (some n) = if not (is_finite n) || is_negative n then 0 else floor n

unfoldable pub normalize_noop_limit : Option Number → ℕ
unfolding is_finite is_positive floor
normalize_noop_limit none = default_noop_limit
normalize_noop_limit (some n) = if is_finite n && is_positive n then floor n else default_noop_limit

unfoldable pub clean_session_id : Option Text → Option Text
clean_session_id none = none
clean_session_id (some s) =
    let trimmed = trim s in if text_eq trimmed [] then none else some trimmed

unfoldable pub cadence_warning_for_interval : Number → Option CadenceWarning
unfolding is_finite is_positive is_less
cadence_warning_for_interval x =
    if not (is_finite x) || not (is_positive x)
    then some not_positive
    else if is_less x min_idle_interval_ms
    then some (too_short x)
    else none

unfoldable pub status_eq : LoopStatus → LoopStatus → Bool
status_eq armed armed = true
status_eq paused paused = true
status_eq stopped stopped = true
status_eq not_advancing not_advancing = true
status_eq _ _ = false

-- packages/protocol/src/loop-contract.ts
unfoldable pub loop_must_stop : LoopStatus → Bool
unfolding status_eq
loop_must_stop s = status_eq s not_advancing

pub record LoopRpcView : Type 0 where
  pub loop : Option LoopState
  pub stop : Bool
  pub noop_limit : Option ℕ

unfoldable pub loop_rpc_view : Option LoopState → LoopRpcView
unfolding loop_must_stop
loop_rpc_view none = record { loop = none; stop = false; noop_limit = none }
loop_rpc_view (some s) = record {
  loop = some s;
  stop = loop_must_stop s.status;
  noop_limit = some s.noop_limit;
}

abbrev no_spend : LoopSpend
no_spend = record { tokens_in = 0; tokens_out = 0; cost_micros = 0 }

-- The branch of `arm` for a new or a stopped loop.
unfoldable pub fresh_loop : ArmLoopInput → Option CadenceWarning → ℕ → LoopState
unfolding clean_session_id normalize_noop_limit
fresh_loop i warning now = record {
  loop_id = i.loop_id;
  agent_id = i.agent_id;
  session_id = clean_session_id i.session_id;
  interval_ms = i.interval_ms;
  consecutive_no_ops = 0;
  noop_limit = normalize_noop_limit i.noop_limit;
  status = armed;
  cadence_warning = warning;
  tick_count = 0;
  created_at = now;
  updated_at = now;
  last_signal = elim warning [ none ↦ none | some w ↦ some (cadence w) ];
  spend = no_spend;
}

-- The assignments of `arm` to a live loop, the test of the streak last.
unfoldable pub rearm : LoopState → ArmLoopInput → Option CadenceWarning → ℕ → LoopState
unfolding clean_session_id normalize_noop_limit status_eq
rearm s i warning now =
    let s = record s {
      interval_ms = i.interval_ms;
      cadence_warning = warning;
      updated_at = now;
      session_id = elim (clean_session_id i.session_id) [ none ↦ s.session_id | some t ↦ some t ];
      noop_limit = elim i.noop_limit [
        | none ↦ s.noop_limit
        | some n ↦ normalize_noop_limit (some n)
      ];
    } in
    if not (status_eq s.status paused) && leb s.noop_limit s.consecutive_no_ops
    then record s {
      status = not_advancing;
      last_signal = some (stuck s.consecutive_no_ops s.noop_limit);
    }
    else s
