-- ===== src/Loops/Registry.antt =====
-- The methods of `LoopGuardRegistry` in packages/daemon/src/loop-guard.ts.
use revdev.Base.{
  Text, text_eq, ℕ, ◌+◌, Bool, true, false, not, ◌||◌, Option, none, some, List, [], ◌∷◌, leb,
  if◌then◌else◌,
}
use mathlib.Core.Option
use revdev.Base.Dict.{get, put}
use revdev.Base.Number.{Number}
use revdev.Base.Result.{Result, ok, err, ◌>>=◌, ◌>>◌, ensure}
use revdev.Loops.{
  armed, paused, stopped, not_advancing, LoopSpend, not_positive, stuck, was_paused, was_stopped,
  reaped_with_session, LoopState, ArmLoopInput, TickLoopInput, RecordSpendInput, LoopError,
  interval_not_positive, advanced_not_boolean, owned_by_another, unknown_loop, is_stopped,
  is_paused, Registry, Outcome, or_else, non_neg_int, cadence_warning_for_interval, status_eq,
  CadenceWarning, fresh_loop, rearm,
}

-- `this.loops.set(id, s)` or the assignments to a stored loop, and `return this.clone(s)`
abbrev pub keep_loop : Registry → Text → LoopState → Outcome
keep_loop r id s = ok (s, put r id s)

-- The test for the one warning that `arm` throws.
abbrev pub is_arm_error : Option CadenceWarning → Bool
is_arm_error (some not_positive) = true
is_arm_error _ = false

-- The stored loop, if it is not stopped: `existing && existing.status !== 'stopped'`.
abbrev pub arm_entry : Option LoopState → ArmLoopInput → Option CadenceWarning → ℕ → LoopState
arm_entry none i w now = fresh_loop i w now
arm_entry (some s) i w now =
    if not (status_eq s.status stopped) then rearm s i w now else fresh_loop i w now

abbrev pub owned_by : Option LoopState → Text → Bool
owned_by none agent = true
owned_by (some s) agent = text_eq s.agent_id agent

unfoldable pub arm : Registry → ArmLoopInput → ℕ → Outcome
unfolding cadence_warning_for_interval
arm r i clock = do
  let now = or_else i.now clock
  let warning = cadence_warning_for_interval i.interval_ms
  ensure (not (is_arm_error warning)) interval_not_positive
  let existing = get r i.loop_id
  ensure (owned_by existing i.agent_id) (owned_by_another i.loop_id)
  keep_loop r i.loop_id (arm_entry existing i warning now)

-- `require(loopId)`
abbrev pub require : Registry → Text → Result LoopError LoopState
require r id = elim (get r id) [ none ↦ err (unknown_loop id) | some s ↦ ok s ]

-- `spend(loopId)`
unfoldable pub spend_of : Registry → Text → Option LoopSpend
spend_of r id = Option.map (λ s. s.spend) (get r id)

-- The source adds doubles: this sum is theirs up to 2 ^ 53, above which a double may be rounded.
unfoldable pub add_spend : LoopSpend → Option Number → Option Number → Option Number → LoopSpend
unfolding non_neg_int
add_spend s i o c = record {
  tokens_in = s.tokens_in + non_neg_int i;
  tokens_out = s.tokens_out + non_neg_int o;
  cost_micros = s.cost_micros + non_neg_int c;
}

unfoldable pub record_spend : Registry → RecordSpendInput → ℕ → Outcome
unfolding add_spend status_eq
record_spend r i clock = do
  s ← require r i.loop_id
  ensure (not (status_eq s.status stopped)) (is_stopped i.loop_id)
  keep_loop r i.loop_id (record s {
    spend = add_spend s.spend i.tokens_in i.tokens_out i.cost_micros;
    updated_at = or_else i.now clock;
  })

-- The assignments of `tick` that count, before the branch on `advanced`.
abbrev pub counted : LoopState → TickLoopInput → ℕ → LoopState
counted s i now = record s {
  tick_count = s.tick_count + 1;
  updated_at = now;
  spend = add_spend s.spend i.tokens_in i.tokens_out i.cost_micros;
}

-- The branch of `tick` on `advanced`.
unfoldable pub advance : LoopState → Bool → LoopState
advance s true = record s { consecutive_no_ops = 0; status = armed; last_signal = none }
advance s false =
    let n = s.consecutive_no_ops + 1 in
    if leb s.noop_limit n
    then record s {
      consecutive_no_ops = n;
      status = not_advancing;
      last_signal = some (stuck n s.noop_limit);
    }
    else record s { consecutive_no_ops = n; last_signal = none }

abbrev pub the_boolean : Option Bool → Result LoopError Bool
the_boolean none = err advanced_not_boolean
the_boolean (some b) = ok b

unfoldable pub tick : Registry → TickLoopInput → ℕ → Outcome
unfolding advance add_spend status_eq
tick r i clock = do
  s ← require r i.loop_id
  ensure (not (status_eq s.status stopped)) (is_stopped i.loop_id)
  ensure (not (status_eq s.status paused)) (is_paused i.loop_id)
  advanced ← the_boolean i.advanced
  keep_loop r i.loop_id (advance (counted s i (or_else i.now clock)) advanced)

unfoldable pub pause : Registry → Text → ℕ → Outcome
unfolding status_eq
pause r id now = do
  s ← require r id
  ensure (not (status_eq s.status stopped)) (is_stopped id)
  keep_loop r id (record s { status = paused; updated_at = now; last_signal = some was_paused })

unfoldable pub resume : Registry → Text → ℕ → Outcome
unfolding status_eq
resume r id now = do
  s ← require r id
  ensure (not (status_eq s.status stopped)) (is_stopped id)
  keep_loop r id (record s { status = armed; updated_at = now; last_signal = none })

unfoldable pub stop : Registry → Text → ℕ → Outcome
stop r id now = do
  s ← require r id
  keep_loop r id (record s { status = stopped; updated_at = now; last_signal = some was_stopped })

abbrev pub session_is : Option Text → Text → Bool
session_is none agent = false
session_is (some t) agent = text_eq t agent

-- `s.agentId !== agentId && s.sessionId !== agentId`, negated
abbrev pub attached : LoopState → Text → Bool
attached s agent = text_eq s.agent_id agent || session_is s.session_id agent

abbrev pub reaped : LoopState → ℕ → LoopState
reaped s now = record s {
  status = stopped;
  updated_at = now;
  last_signal = some reaped_with_session;
}

-- The loop over the map: the snapshots of the loops that it drops, and the loops that it leaves.
unfoldable pub reap_agent : Registry → Text → ℕ → List LoopState × Registry
reap_agent [] agent now = ([], [])
reap_agent ((id, s) ∷ r) agent now =
    let (dropped, left) = reap_agent r agent now in
    if attached s agent then (reaped s now ∷ dropped, left) else (dropped, (id, s) ∷ left)
