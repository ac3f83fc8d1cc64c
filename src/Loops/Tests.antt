-- ===== src/Loops/Tests.antt =====
-- Runs of the loop guard on small inputs, and the theorems at inputs that meet their hypotheses.
use mathlib.Core.Bool.{false≢true}
use revdev.Base.{
  Text, text_eq, text_eq_iff, trim, ℕ, ◌+◌, ◌≡◌, ◌≢◌, refl, true, false, none, some, List, [], ◌∷◌,
  arith, leb, map, keep, not, ◌||◌, ◌&&◌,
}
use revdev.Base.Dict.{get, put}
use revdev.Base.Number.{nan, whole, above}
use revdev.Base.Param.{undefined, string, boolean}
use revdev.Base.Result.{ok, err}
use revdev.Loops.{
  armed, paused, not_advancing, LoopState, ArmLoopInput, TickLoopInput, RecordSpendInput, Registry,
  stuck, unknown_loop, interval_not_positive, rearm, fresh_loop, loop_must_stop, status_eq,
  normalize_noop_limit,
}
use revdev.Loops.Registry.{arm, tick, record_spend, resume, reap_agent, attached}
use revdev.Loops.Commands.{Command, arming, ticking, reaping, apply}
use revdev.Loops.Rpc.{loop_stop, LoopParams, rpc_effect}
use revdev.Loops.Rearm.{arm-live, tick-resume}
use revdev.Loops.Streak.{ticks, trailing_no_ops, ticks-trailing_no_ops}
use revdev.Loops.Isolation.{rpc_effect-other}
use revdev.Loops.Reap.{replay, reap-replay, snapshot, reap_agent-snapshot, tick-reaped, spared}
use revdev.Loops.Spend.{apply-Grows, Grows}

abbrev ann : Text
ann = 97 ∷ []

abbrev bob : Text
bob = 98 ∷ []

abbrev build : Text
build = 99 ∷ []

abbrev arm_build : ArmLoopInput
arm_build = record {
  loop_id = build;
  agent_id = ann;
  interval_ms = whole 60000;
  noop_limit = some (whole 2);
  session_id = some ann;
  now = none;
}

abbrev fresh : LoopState
fresh = record {
  loop_id = build;
  agent_id = ann;
  session_id = some ann;
  interval_ms = whole 60000;
  consecutive_no_ops = 0;
  noop_limit = 2;
  status = armed;
  cadence_warning = none;
  tick_count = 0;
  created_at = 7;
  updated_at = 7;
  last_signal = none;
  spend = record { tokens_in = 0; tokens_out = 0; cost_micros = 0 };
}

abbrev store : Registry
store = (build, fresh) ∷ []

armed_store : arm [] arm_build 7 ≡ ok (fresh, store)
unfolding arm fresh_loop trim text_eq get put
armed_store = refl

not_a_cadence : arm [] (record arm_build { interval_ms = nan }) 7 ≡ err interval_not_positive
unfolding arm
not_a_cadence = refl

abbrev idle : TickLoopInput
idle = record {
  loop_id = build;
  advanced = some false;
  tokens_in = some (above 7 1);
  tokens_out = none;
  cost_micros = some nan;
  now = some 9;
}

abbrev once : LoopState
once = record fresh {
  consecutive_no_ops = 1;
  tick_count = 1;
  updated_at = 9;
  spend = record { tokens_in = 3; tokens_out = 0; cost_micros = 0 };
}

abbrev twice : LoopState
twice = record once {
  consecutive_no_ops = 2;
  tick_count = 2;
  status = not_advancing;
  last_signal = some (stuck 2 2);
  spend = record { tokens_in = 6; tokens_out = 0; cost_micros = 0 };
}

two_no_ops :
    (tick store idle 8 ≡ ok (once, (build, once) ∷ []))
    × (tick ((build, once) ∷ []) idle 8 ≡ ok (twice, (build, twice) ∷ []))
unfolding tick text_eq get put
two_no_ops = (refl, refl)

abbrev resumed : LoopState
resumed = record once { status = armed; updated_at = 10; last_signal = none }

resumed_run : resume ((build, once) ∷ []) build 10 ≡ ok (resumed, (build, resumed) ∷ [])
unfolding resume text_eq get put
resumed_run = refl

abbrev stuck_again : LoopState
stuck_again = record twice { updated_at = 9 }

run_after_resume : tick ((build, resumed) ∷ []) idle 8 ≡ ok (stuck_again, (build, stuck_again) ∷ [])
unfolding tick text_eq get put
run_after_resume = refl

found_fresh : get store build ≡ some fresh
unfolding get text_eq
found_fresh = refl

found_once : get ((build, once) ∷ []) build ≡ some once
unfolding get text_eq
found_once = refl

abbrev rearmed : LoopState
rearmed = record once {
  updated_at = 11;
  noop_limit = 1;
  status = not_advancing;
  last_signal = some (stuck 1 1);
}

abbrev tighter : ArmLoopInput
tighter = record arm_build { noop_limit = some (whole 1) }

arm_again : arm ((build, once) ∷ []) tighter 11 ≡ ok (rearmed, (build, rearmed) ∷ [])
unfolding arm rearm trim text_eq get put
arm_again = refl

arm-live_example :
    (rearmed.consecutive_no_ops ≡ once.consecutive_no_ops)
    × (rearmed.tick_count ≡ once.tick_count)
    × (rearmed.spend ≡ once.spend)
    × (rearmed.agent_id ≡ once.agent_id)
    × (rearmed.created_at ≡ once.created_at)
    × (rearmed.noop_limit ≡ normalize_noop_limit (some (whole 1)))
    × (loop_must_stop rearmed.status ≡ (
        loop_must_stop once.status
        || not (status_eq once.status paused) && leb rearmed.noop_limit rearmed.consecutive_no_ops))
arm-live_example =
    arm-live ((build, once) ∷ []) ((build, rearmed) ∷ []) tighter 11 once rearmed found_once (cc)
      arm_again

tick-resume_example :
    (stuck_again.consecutive_no_ops ≡ once.consecutive_no_ops + 1)
    × (loop_must_stop stuck_again.status ≡ true)
tick-resume_example =
    tick-resume ((build, once) ∷ []) ((build, resumed) ∷ []) ((build, stuck_again) ∷ []) idle 10 8
      once resumed stuck_again found_once (omega arith) refl resumed_run run_after_resume

no_loop : get {V = LoopState} [] build ≡ none
unfolding get
no_loop = refl

ticks-trailing_no_ops_example :
    (r : Registry) × (s : LoopState) × (ticks store build (false ∷ true ∷ false ∷ []) 7 ≡ ok r)
    × (get r build ≡ some s)
    × (s.tick_count ≡ 3)
    × (s.consecutive_no_ops ≡ trailing_no_ops (false ∷ true ∷ false ∷ []))
    × (loop_must_stop s.status ≡ leb 2 (trailing_no_ops (false ∷ true ∷ false ∷ [])))
ticks-trailing_no_ops_example =
    ticks-trailing_no_ops [] store arm_build fresh 7 (false ∷ true ∷ false ∷ []) no_loop armed_store
      (omega arith)

-- The last tick of two no-ops says stop.
trailing_two : trailing_no_ops (true ∷ false ∷ false ∷ []) ≡ 2
unfolding trailing_no_ops
trailing_two = refl

abbrev params : LoopParams
params = record {
  loop_id = string build;
  interval_ms = undefined;
  noop_limit = undefined;
  session_id = undefined;
  advanced = boolean false;
  tokens_in = undefined;
  tokens_out = undefined;
  cost_micros = undefined;
}

not_bob : ann ≢ bob
unfolding text_eq
not_bob e = false≢true ((text_eq_iff ann bob).1 e)

rpc_effect-other_example :
    get (rpc_effect (λ _. true) store bob loop_stop params 9) build ≡ some fresh
rpc_effect-other_example =
    rpc_effect-other (λ _. true) store bob loop_stop params 9 build fresh found_fresh not_bob

abbrev calls : List (Command × ℕ)
calls = (arming arm_build, 7) ∷ (ticking idle, 8) ∷ []

replayed : get (replay [] calls) build ≡ some once
unfolding replay apply arm tick fresh_loop trim text_eq get put
replayed = refl

attached_to_ann : attached once ann ≡ true
unfolding text_eq
attached_to_ann = refl

reap-replay_example :
    get (apply (replay [] calls) (reaping bob) 9) build ≡ spared (get (replay [] calls) build) bob
reap-replay_example = reap-replay calls bob 9 build

tick-reaped_example :
    tick (apply (replay [] calls) (reaping ann) 9) idle 10 ≡ err (unknown_loop build)
tick-reaped_example = tick-reaped calls ann idle once 9 10 replayed attached_to_ann

reap_agent-snapshot_example :
    ((reap_agent store ann 9).0 ≡ map (λ e. snapshot e.1 9) (keep (λ e. attached e.1 ann) store))
    × ((reap_agent store ann 9).1 ≡ keep (λ e. not (attached e.1 ann)) store)
reap_agent-snapshot_example = reap_agent-snapshot store ann 9

reaps_fresh : reap_agent store ann 9 ≡ (snapshot fresh 9 ∷ [], [])
unfolding reap_agent text_eq
reaps_fresh = refl

abbrev bill : RecordSpendInput
bill = record {
  loop_id = build;
  tokens_in = some (whole 5);
  tokens_out = none;
  cost_micros = none;
  now = none;
}

abbrev billed : LoopState
billed = record fresh {
  updated_at = 9;
  spend = record { tokens_in = 5; tokens_out = 0; cost_micros = 0 };
}

billed_run : record_spend store bill 9 ≡ ok (billed, (build, billed) ∷ [])
unfolding record_spend get put text_eq
billed_run = refl

ticked : get (apply store (ticking idle) 8) build ≡ some once
unfolding apply tick text_eq get put
ticked = refl

apply-Grows_example : Grows fresh once
apply-Grows_example =
    apply-Grows store (ticking idle) 8 build fresh once (no_loop, tt) found_fresh (cc) ticked
