-- ===== src/Loops/Isolation.antt =====
-- No agent changes the loops of another: over the registry's methods and over the handlers.
use revdev.Base.{Text, text_eq_iff, ℕ, ◌≡◌, refl, ◌≢◌, ap, not, [], Bool, some, arith}
use revdev.Base.Dict.{get, put, get-put}
use revdev.Base.Param.{str, str_or_null}
use revdev.Base.Result.{Result, ok, err, ◌>>=◌, ensure}
use revdev.Loops.{
  LoopState, ArmLoopInput, Registry, Outcome, LoopError, owned_by_another, foreign_session,
  no_live_session, LoopRpcView, loop_rpc_view, or_else,
}
use revdev.Loops.Registry.{arm, tick, record_spend, pause, resume, stop, owned_by, the_boolean}
use revdev.Loops.Commands.{settled}
use revdev.Loops.Writes.{
  Writes, arm-Writes, tick-Writes, record_spend-Writes, pause-Writes, resume-Writes, stop-Writes,
}
use revdev.Loops.Rpc.{
  Answer, left_by, require_owned, as_boolean, is_foreign, arm_input, LoopMethod, loop_arm,
  loop_tick, loop_status, loop_spend, loop_record_spend, loop_pause, loop_resume, loop_stop,
  LoopParams, rpc_effect, rpc_arm, rpc_tick, rpc_status, rpc_spend, rpc_record_spend, rpc_pause,
  rpc_resume, rpc_stop,
}

-- The loop at `k`, if it is of an agent other than `agent`, is there after the call as before.
abbrev Spares : Text → Registry → Registry → Type 0
Spares agent r r' =
    (k : Text) (s : LoopState) → get r k ≡ some s → s.agent_id ≢ agent → get r' k ≡ some s

-- A write under a key whose loop, if any, is the agent's.
put-Spares :
    (r : Registry) (agent id : Text) (v : LoopState)
    → ((s : LoopState) → get r id ≡ some s → s.agent_id ≡ agent)
    → Spares agent r (put r id v)
put-Spares r agent id v own k s found other =
    ground (arith, get-put r id k v, text_eq_iff id k, own s)

-- The answer of a handler leaves the loops of agents other than `agent`.
record Keeps {ℓ} {A : Type ℓ} (r : Registry) (agent : Text) (m : Answer A) : Type 0 where
  at : Spares agent r (left_by r m)

Keeps-err {ℓ} :
    {A : Type ℓ} (r : Registry) (agent : Text) (e : LoopError) → Keeps {A = A} r agent (err e)
Keeps-err r agent e = record { at = λ k s found other. found }

module _ {ℓ} {A : Type ℓ} (r : Registry) (agent : Text) where
  bind-Keeps {κ} :
      {B : Type κ} (o : Result LoopError B) (f : B → Answer A)
      → ((b : B) → o ≡ ok b → Keeps r agent (f b))
      → Keeps r agent (o >>= f)
  bind-Keeps (ok b) f h = h b refl
  bind-Keeps (err e) f h = Keeps-err r agent e

  answer-Keeps :
      (id : Text) (o : Outcome) (x : LoopState × Registry) (m : Answer A)
      → Writes r id o
      → o ≡ ok x
      → left_by r m ≡ x.1
      → ((s : LoopState) → get r id ≡ some s → s.agent_id ≡ agent)
      → Keeps r agent m
  answer-Keeps id (ok (v, r')) x m w e same own = record {
    at = λ k s found other.
        rw (same, ← ap (λ o. settled r o) e, w) (put-Spares r agent id v own k s found other);
  }
  answer-Keeps id (err e') x m w e same own = cc

owner_of_require_owned :
    (r : Registry) (agent id : Text) (t s : LoopState)
    → require_owned r agent id ≡ ok t
    → get r id ≡ some s
    → s.agent_id ≡ agent
unfolding require_owned
owner_of_require_owned r agent id t s e found = ground (arith, text_eq_iff s.agent_id agent)

owner_of_owned_by :
    (r : Registry) (agent id : Text) (s : LoopState) (u : Unit {0})
    → ensure (owned_by (get r id) agent) (owned_by_another id) ≡ ok u
    → get r id ≡ some s
    → s.agent_id ≡ agent
owner_of_owned_by r agent id s u e found = ground (arith, text_eq_iff s.agent_id agent)

owner_of_arm :
    (r : Registry) (i : ArmLoopInput) (clock : ℕ) (x : LoopState × Registry) (s : LoopState)
    → arm r i clock ≡ ok x
    → get r i.loop_id ≡ some s
    → s.agent_id ≡ i.agent_id
unfolding arm
owner_of_arm r i clock x s e found = ground (arith, text_eq_iff s.agent_id i.agent_id)

module _ (r : Registry) (agent : Text) (p : LoopParams) (clock : ℕ) where
  rpc_arm-Keeps : (live : Text → Bool) → Keeps r agent (rpc_arm live r agent p clock)
  unfolding rpc_arm
  rpc_arm-Keeps live =
      let requested = str_or_null p.session_id in
      let session = or_else requested agent in
      let i = arm_input agent p session in
      let answer : LoopState × Registry → Answer LoopRpcView =
        λ x. ok (loop_rpc_view (some x.0), x.1, []) in
      bind-Keeps r agent (ensure (not (is_foreign requested agent)) (foreign_session session)) _
        λ _ _. bind-Keeps r agent (ensure (live session) (no_live_session session)) _ λ _ _.
          bind-Keeps r agent (arm r i clock) answer λ x armed.
            answer-Keeps r agent i.loop_id _ x (answer x) (arm-Writes r i clock) armed refl
              (λ s found. owner_of_arm r i clock x s armed found)

  rpc_tick-Keeps : Keeps r agent (rpc_tick r agent p clock)
  unfolding rpc_tick
  rpc_tick-Keeps = bind-Keeps r agent (the_boolean (as_boolean p.advanced)) _ λ b given.
      bind-Keeps r agent (ensure _ _) _ λ u owned. bind-Keeps r agent (tick r _ clock) _ λ x ticked.
        answer-Keeps r agent (str p.loop_id) _ x _ (tick-Writes r _ clock) ticked refl
          (λ s found. owner_of_owned_by r agent (str p.loop_id) s u owned found)

  rpc_record_spend-Keeps : Keeps r agent (rpc_record_spend r agent p clock)
  unfolding rpc_record_spend
  rpc_record_spend-Keeps = bind-Keeps r agent (require_owned r agent (str p.loop_id)) _ λ t owned.
      bind-Keeps r agent (record_spend r _ clock) _ λ x done.
        answer-Keeps r agent (str p.loop_id) _ x _ (record_spend-Writes r _ clock) done refl
          (λ s found. owner_of_require_owned r agent (str p.loop_id) t s owned found)

  -- The shape of the handlers for pausing, resuming and stopping.
  owned_call-Keeps :
      (call : Registry → Text → ℕ → Outcome)
      → Writes r (str p.loop_id) (call r (str p.loop_id) clock)
      → Keeps r agent (
          require_owned r agent (str p.loop_id) >>= λ t.
          call r (str p.loop_id) clock >>= λ x. ok (x.0, x.1, []))
  owned_call-Keeps call writes =
      bind-Keeps r agent (require_owned r agent (str p.loop_id)) _ λ t owned.
        bind-Keeps r agent (call r (str p.loop_id) clock) _ λ x done.
          answer-Keeps r agent (str p.loop_id) _ x _ writes done refl
            (λ s found. owner_of_require_owned r agent (str p.loop_id) t s owned found)

  rpc_effect-Keeps :
      (live : Text → Bool) (m : LoopMethod) → Spares agent r (rpc_effect live r agent m p clock)
  unfolding rpc_effect rpc_status rpc_spend rpc_pause rpc_resume rpc_stop
  rpc_effect-Keeps live loop_arm = (rpc_arm-Keeps live).at
  rpc_effect-Keeps live loop_tick = rpc_tick-Keeps.at
  rpc_effect-Keeps live loop_status = λ k s found other. ground arith
  rpc_effect-Keeps live loop_spend = λ k s found other. ground arith
  rpc_effect-Keeps live loop_record_spend = rpc_record_spend-Keeps.at
  rpc_effect-Keeps live loop_pause = (owned_call-Keeps pause (pause-Writes r _ clock)).at
  rpc_effect-Keeps live loop_resume = (owned_call-Keeps resume (resume-Writes r _ clock)).at
  rpc_effect-Keeps live loop_stop = (owned_call-Keeps stop (stop-Writes r _ clock)).at

-- A handler that an agent calls leaves every loop of another agent in the registry, unchanged,
-- whatever the method and its parameters.
pub rpc_effect-other :
    (live : Text → Bool) (r : Registry) (agent : Text) (m : LoopMethod) (p : LoopParams) (clock : ℕ)
    (k : Text) (s : LoopState)
    → get r k ≡ some s
    → s.agent_id ≢ agent
    → get (rpc_effect live r agent m p clock) k ≡ some s
rpc_effect-other live r agent m p clock k s found other =
    rpc_effect-Keeps r agent p clock live m k s found other
