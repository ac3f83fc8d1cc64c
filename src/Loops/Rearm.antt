-- ===== src/Loops/Rearm.antt =====
-- What `arm` does to a loop that is live.
use revdev.Base.{
  Text, text_eq_refl, ℕ, ◌+◌, ◌≤◌, ◌≡◌, ◌≢◌, not, ◌&&◌, ◌||◌, true, false, none, some, arith, leb,
}
use revdev.Base.Dict.{get, put, get-put}
use revdev.Base.Result.{ok}
use revdev.Loops.{
  paused, stopped, LoopState, ArmLoopInput, TickLoopInput, Registry, rearm, status_eq,
  loop_must_stop, normalize_noop_limit,
}
use revdev.Loops.Registry.{arm, resume, tick}

-- A call of `arm` on a loop that is not stopped, when it returns, keeps the streak of no-ops, the
-- ticks, the spend, the owner and the time of creation. The limit is the one that the call gives,
-- or else the old one. The loop must stop exactly if it had to before, or if it is not paused and
-- its streak has reached the limit now in force.
pub arm-live :
    (r r' : Registry) (i : ArmLoopInput) (clock : ℕ) (s s' : LoopState)
    → get r i.loop_id ≡ some s
    → s.status ≢ stopped
    → arm r i clock ≡ ok (s', r')
    → (s'.consecutive_no_ops ≡ s.consecutive_no_ops)
      × (s'.tick_count ≡ s.tick_count)
      × (s'.spend ≡ s.spend)
      × (s'.agent_id ≡ s.agent_id)
      × (s'.created_at ≡ s.created_at)
      × (s'.noop_limit
          ≡ (elim i.noop_limit [ none ↦ s.noop_limit | some n ↦ normalize_noop_limit (some n) ]))
      × (loop_must_stop s'.status ≡ (
          loop_must_stop s.status
          || not (status_eq s.status paused) && leb s'.noop_limit s'.consecutive_no_ops))
unfolding arm rearm status_eq loop_must_stop
arm-live r r' i clock s s' found live e = ground arith

resume-put :
    (r r' : Registry) (id : Text) (t : ℕ) (s' : LoopState)
    → resume r id t ≡ ok (s', r')
    → r' ≡ put r id s'
unfolding resume
resume-put r r' id t s' e = ground arith

-- A loop whose streak is one short of its limit, or past it, cannot escape by `resume`: the next
-- tick that does not advance adds to the streak and says stop again.
pub tick-resume :
    (r r' r'' : Registry) (i : TickLoopInput) (t u : ℕ) (s s' s'' : LoopState)
    → get r i.loop_id ≡ some s
    → s.noop_limit ≤ s.consecutive_no_ops + 1
    → i.advanced ≡ some false
    → resume r i.loop_id t ≡ ok (s', r')
    → tick r' i u ≡ ok (s'', r'')
    → (s''.consecutive_no_ops ≡ s.consecutive_no_ops + 1) × (loop_must_stop s''.status ≡ true)
unfolding resume tick loop_must_stop
tick-resume r r' r'' i t u s s' s'' found full idle resumed ticked = ground (
  arith,
  resume-put r r' i.loop_id t s' resumed,
  get-put r i.loop_id i.loop_id s',
  text_eq_refl i.loop_id,
)
