-- ===== src/Loops/Writes.antt =====
-- Where the methods of `LoopGuardRegistry` (packages/daemon/src/loop-guard.ts) write.
use revdev.Base.{Text, ℕ, ◌≡◌, arith}
use revdev.Base.Dict.{put}
use revdev.Base.Result.{ok, err}
use revdev.Loops.{ArmLoopInput, TickLoopInput, RecordSpendInput, Registry, Outcome}
use revdev.Loops.Registry.{arm, tick, record_spend, pause, resume, stop}

-- A method that returns has written the loop that it returns under the key that it was given.
abbrev pub Writes : Registry → Text → Outcome → Type 0
Writes r id (ok (s, r')) = r' ≡ put r id s
Writes r id (err e) = Unit

pub arm-Writes : (r : Registry) (i : ArmLoopInput) (clock : ℕ) → Writes r i.loop_id (arm r i clock)
unfolding arm
arm-Writes r i clock = ground arith

pub tick-Writes :
    (r : Registry) (i : TickLoopInput) (clock : ℕ) → Writes r i.loop_id (tick r i clock)
unfolding tick
tick-Writes r i clock = ground arith

pub record_spend-Writes :
    (r : Registry) (i : RecordSpendInput) (clock : ℕ) → Writes r i.loop_id (record_spend r i clock)
unfolding record_spend
record_spend-Writes r i clock = ground arith

module _ (r : Registry) (id : Text) (clock : ℕ) where
  pub pause-Writes : Writes r id (pause r id clock)
  unfolding pause
  pause-Writes = ground arith

  pub resume-Writes : Writes r id (resume r id clock)
  unfolding resume
  resume-Writes = ground arith

  pub stop-Writes : Writes r id (stop r id clock)
  unfolding stop
  stop-Writes = ground arith
