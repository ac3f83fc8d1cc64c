-- ===== src/Loops/Reap.antt =====
-- The end of a session: `reapAgent` of packages/daemon/src/loop-guard.ts.
use revdev.Base.{
  Text, text_eq_iff, ℕ, ◌≡◌, refl, true, Option, none, some, List, [], ◌∷◌, arith, map, keep, not,
  if◌then◌else◌,
}
use revdev.Base.Dict.{get, HasDistinctKeys, put-HasDistinctKeys}
use revdev.Base.Result.{err}
use revdev.Loops.{stopped, LoopState, TickLoopInput, Registry, unknown_loop, reaped_with_session}
use revdev.Loops.Registry.{arm, tick, record_spend, pause, resume, stop, attached, reap_agent}
use revdev.Loops.Commands.{Command, reaping, apply}

-- Calls with their times, in order.
unfoldable pub replay : Registry → List (Command × ℕ) → Registry
replay r [] = r
replay r ((c, clock) ∷ calls) = replay (apply r c clock) calls

-- What reaping leaves under a key.
abbrev pub spared : Option LoopState → Text → Option LoopState
spared none agent = none
spared (some s) agent = if attached s agent then none else some s

get-reap_agent-none :
    (r : Registry) (agent : Text) (clock : ℕ) (k : Text)
    → get r k ≡ none
    → get (reap_agent r agent clock).1 k ≡ none
unfolding get reap_agent
get-reap_agent-none [] agent clock k h = refl
get-reap_agent-none ((j, s) ∷ r) agent clock k h =
    ground (arith, get-reap_agent-none r agent clock k)

pub get-reap_agent :
    (r : Registry) (agent : Text) (clock : ℕ) (k : Text)
    → HasDistinctKeys r
    → get (reap_agent r agent clock).1 k ≡ spared (get r k) agent
unfolding get reap_agent
get-reap_agent [] agent clock k h = refl
get-reap_agent ((j, s) ∷ r) agent clock k (fresh, h) = ground (
  arith,
  text_eq_iff j k,
  get-reap_agent r agent clock k h,
  get-reap_agent-none r agent clock j fresh,
  get-reap_agent-none r agent clock k,
)

reap_agent-HasDistinctKeys :
    (r : Registry) (agent : Text) (clock : ℕ)
    → HasDistinctKeys r
    → HasDistinctKeys (reap_agent r agent clock).1
unfolding reap_agent
reap_agent-HasDistinctKeys [] agent clock h = tt
reap_agent-HasDistinctKeys ((j, s) ∷ r) agent clock (fresh, h) =
    ground
      (arith, get-reap_agent-none r agent clock j fresh, reap_agent-HasDistinctKeys r agent clock h)

module _ (r : Registry) (clock : ℕ) (h : HasDistinctKeys r) where
  apply-HasDistinctKeys : (c : Command) → HasDistinctKeys (apply r c clock)
  unfolding apply arm tick record_spend pause resume stop
  apply-HasDistinctKeys (reaping agent) = reap_agent-HasDistinctKeys r agent clock h
  apply-HasDistinctKeys _ = grind (arith, put-HasDistinctKeys)

replay-HasDistinctKeys :
    (r : Registry) (calls : List (Command × ℕ))
    → HasDistinctKeys r
    → HasDistinctKeys (replay r calls)
unfolding replay
replay-HasDistinctKeys r [] h = h
replay-HasDistinctKeys r ((c, clock) ∷ calls) h =
    replay-HasDistinctKeys (apply r c clock) calls (apply-HasDistinctKeys r clock h c)

-- After any calls on an empty registry, the end of an agent's session leaves under each key the loop
-- that was there, unless it is owned by the agent or attached to it as a session: then none.
pub reap-replay :
    (calls : List (Command × ℕ)) (agent : Text) (clock : ℕ) (k : Text)
    → get (apply (replay [] calls) (reaping agent) clock) k ≡ spared (get (replay [] calls) k) agent
unfolding apply
reap-replay calls agent clock k =
    get-reap_agent (replay [] calls) agent clock k (replay-HasDistinctKeys [] calls tt)

-- What `reapAgent` returns for a loop, field by field.
abbrev pub snapshot : LoopState → ℕ → LoopState
snapshot s clock = record {
  loop_id = s.loop_id;
  agent_id = s.agent_id;
  session_id = s.session_id;
  interval_ms = s.interval_ms;
  consecutive_no_ops = s.consecutive_no_ops;
  noop_limit = s.noop_limit;
  status = stopped;
  cadence_warning = s.cadence_warning;
  tick_count = s.tick_count;
  created_at = s.created_at;
  updated_at = clock;
  last_signal = some reaped_with_session;
  spend = s.spend;
}

-- The end of an agent's session returns the snapshots of the attached loops and leaves the other loops,
-- both in the order of the registry; a snapshot is the loop with all its fields, but that it is stopped at
-- the time of the call with the signal of a reaped loop.
pub reap_agent-snapshot :
    (r : Registry) (agent : Text) (clock : ℕ)
    → ((reap_agent r agent clock).0
        ≡ map (λ e. snapshot e.1 clock) (keep (λ e. attached e.1 agent) r))
      × ((reap_agent r agent clock).1 ≡ keep (λ e. not (attached e.1 agent)) r)
unfolding reap_agent
reap_agent-snapshot [] agent clock = (refl, refl)
reap_agent-snapshot ((j, s) ∷ r) agent clock = ground (arith, reap_agent-snapshot r agent clock)

-- After the end of an agent's session, a tick on a loop that was attached to it is refused.
pub tick-reaped :
    (calls : List (Command × ℕ)) (agent : Text) (i : TickLoopInput) (s : LoopState) (t u : ℕ)
    → get (replay [] calls) i.loop_id ≡ some s
    → attached s agent ≡ true
    → tick (apply (replay [] calls) (reaping agent) t) i u ≡ err (unknown_loop i.loop_id)
unfolding tick
tick-reaped calls agent i s t u found gone = ground (arith, reap-replay calls agent t i.loop_id)
