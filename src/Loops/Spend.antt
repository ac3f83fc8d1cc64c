-- ===== src/Loops/Spend.antt =====
-- The meters of a loop under the calls of packages/daemon/src/loop-guard.ts.
use revdev.Base.{Text, text_eq_iff, ℕ, ◌≤◌, ◌≡◌, ◌≢◌, some, arith}
use revdev.Base.Dict.{get, get-put, HasDistinctKeys}
use revdev.Base.Result.{ok, err}
use revdev.Loops.{
  stopped, LoopState, ArmLoopInput, TickLoopInput, RecordSpendInput, Registry, Outcome, rearm,
}
use revdev.Loops.Registry.{arm, tick, record_spend, pause, resume, stop}
use revdev.Loops.Writes.{
  Writes, arm-Writes, tick-Writes, record_spend-Writes, pause-Writes, resume-Writes, stop-Writes,
}
use revdev.Loops.Reap.{get-reap_agent}
use revdev.Loops.Commands.{
  settled, Command, arming, ticking, spending, pausing, resuming, stopping, reaping, apply,
}

-- What a command adds to the meters of the loop at `k`, if the call goes through.
abbrev pub Grows : LoopState → LoopState → Type 0
Grows s s' =
    (s.spend.tokens_in ≤ s'.spend.tokens_in)
    × (s.spend.tokens_out ≤ s'.spend.tokens_out)
    × (s.spend.cost_micros ≤ s'.spend.cost_micros)
    × (s.tick_count ≤ s'.tick_count)
    × (s'.agent_id ≡ s.agent_id)

module _ (r r' : Registry) (clock : ℕ) (s s' : LoopState) (live : s.status ≢ stopped) where
  arm-Grows :
      (i : ArmLoopInput) → get r i.loop_id ≡ some s → arm r i clock ≡ ok (s', r') → Grows s s'
  unfolding arm rearm
  arm-Grows i found e = ground arith

  tick-Grows :
      (i : TickLoopInput) → get r i.loop_id ≡ some s → tick r i clock ≡ ok (s', r') → Grows s s'
  unfolding tick
  tick-Grows i found e = ground arith

  record_spend-Grows :
      (i : RecordSpendInput)
      → get r i.loop_id ≡ some s
      → record_spend r i clock ≡ ok (s', r')
      → Grows s s'
  unfolding record_spend
  record_spend-Grows i found e = ground arith

  module _ (id : Text) (found : get r id ≡ some s) where
    pause-Grows : pause r id clock ≡ ok (s', r') → Grows s s'
    unfolding pause
    pause-Grows e = ground arith

    resume-Grows : resume r id clock ≡ ok (s', r') → Grows s s'
    unfolding resume
    resume-Grows e = ground arith

    stop-Grows : stop r id clock ≡ ok (s', r') → Grows s s'
    unfolding stop
    stop-Grows e = ground arith

-- From the loop that a method returns to the loop under any key.
module _ (r : Registry) (k : Text) (s s' : LoopState) (found : get r k ≡ some s) where
  settled-Grows :
      (id : Text) (o : Outcome)
      → Writes r id o
      → ((t : LoopState) (r' : Registry) → get r id ≡ some s → o ≡ ok (t, r') → Grows s t)
      → get (settled r o) k ≡ some s'
      → Grows s s'
  settled-Grows id (err e) w g e' = ground arith
  settled-Grows id (ok (t, r')) w g e' = ground (arith, g t r', get-put r id k t, text_eq_iff id k)

-- No call on a loop that is not stopped lowers its meters or its ticks, or changes its owner: what
-- is under its key afterwards, if anything is, is that loop with its meters as high or higher.
pub apply-Grows :
    (r : Registry) (c : Command) (clock : ℕ) (k : Text) (s s' : LoopState)
    → HasDistinctKeys r
    → get r k ≡ some s
    → s.status ≢ stopped
    → get (apply r c clock) k ≡ some s'
    → Grows s s'
unfolding apply
apply-Grows r (arming i) clock k s s' h found live e =
    settled-Grows r k s s' found i.loop_id _ (arm-Writes r i clock)
      (λ t r' f g. arm-Grows r r' clock s t live i f g) e
apply-Grows r (ticking i) clock k s s' h found live e =
    settled-Grows r k s s' found i.loop_id _ (tick-Writes r i clock)
      (λ t r' f g. tick-Grows r r' clock s t live i f g) e
apply-Grows r (spending i) clock k s s' h found live e =
    settled-Grows r k s s' found i.loop_id _ (record_spend-Writes r i clock)
      (λ t r' f g. record_spend-Grows r r' clock s t live i f g) e
apply-Grows r (pausing id) clock k s s' h found live e =
    settled-Grows r k s s' found id _ (pause-Writes r id clock)
      (λ t r' f g. pause-Grows r r' clock s t live id f g) e
apply-Grows r (resuming id) clock k s s' h found live e =
    settled-Grows r k s s' found id _ (resume-Writes r id clock)
      (λ t r' f g. resume-Grows r r' clock s t live id f g) e
apply-Grows r (stopping id) clock k s s' h found live e =
    settled-Grows r k s s' found id _ (stop-Writes r id clock)
      (λ t r' f g. stop-Grows r r' clock s t live id f g) e
apply-Grows r (reaping agent) clock k s s' h found live e =
    ground (arith, get-reap_agent r agent clock k h)
