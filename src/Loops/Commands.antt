-- ===== src/Loops/Commands.antt =====
-- Every change that callers can make to the registry of packages/daemon/src/loop-guard.ts, one call
-- after another. A call that throws leaves the registry as it was.
use revdev.Base.{Text, ℕ}
use revdev.Base.Result.{ok, err}
use revdev.Loops.{ArmLoopInput, TickLoopInput, RecordSpendInput, Registry, Outcome}
use revdev.Loops.Registry.{arm, tick, record_spend, pause, resume, stop, reap_agent}

pub data Command : Type 0 where
  arming : ArmLoopInput → Command
  ticking : TickLoopInput → Command
  spending : RecordSpendInput → Command
  pausing resuming stopping reaping : Text → Command

-- The registry after a call, whether it returned or threw.
abbrev pub settled : Registry → Outcome → Registry
settled r (ok (s, r')) = r'
settled r (err e) = r

unfoldable pub apply : Registry → Command → ℕ → Registry
apply r (arming i) clock = settled r (arm r i clock)
apply r (ticking i) clock = settled r (tick r i clock)
apply r (spending i) clock = settled r (record_spend r i clock)
apply r (pausing id) clock = settled r (pause r id clock)
apply r (resuming id) clock = settled r (resume r id clock)
apply r (stopping id) clock = settled r (stop r id clock)
apply r (reaping agent) clock = (reap_agent r agent clock).1
