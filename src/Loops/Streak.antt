-- ===== src/Loops/Streak.antt =====
-- The streak of no-ops over many ticks, against the ticks counted from the last one back.
use revdev.Base.{
  Text, text_eq_refl, ℕ, suc, ◌+◌, ◌≤◌, ◌≡◌, refl, ◌≢◌, ap, ◌∙◌, Bool, true, false, none, some,
  List, [], ◌∷◌, reverse, arith, leb, length, if◌then◌else◌,
}
use mathlib.Core.List.{reverse_aux}
use revdev.Base.Dict.{get, put, get-put}
use revdev.Base.Result.{Result, ok, ◌>>=◌}
use revdev.Loops.{
  paused, stopped, ArmLoopInput, LoopState, TickLoopInput, Registry, LoopError, fresh_loop,
  loop_must_stop,
}
use revdev.Loops.Registry.{arm, tick, advance, counted}

abbrev tick_of : Text → Bool → TickLoopInput
tick_of id b = record {
  loop_id = id;
  advanced = some b;
  tokens_in = none;
  tokens_out = none;
  cost_micros = none;
  now = none;
}

-- One call of `tick` for each flag, with no spend; an error ends the run.
unfoldable pub ticks : Registry → Text → List Bool → ℕ → Result LoopError Registry
ticks r id [] clock = ok r
ticks r id (b ∷ flags) clock = do (s, r') ← tick r (tick_of id b) clock; ticks r' id flags clock

-- How many flags at the front are `false`.
unfoldable pub leading_no_ops : List Bool → ℕ
leading_no_ops [] = 0
leading_no_ops (true ∷ flags) = 0
leading_no_ops (false ∷ flags) = suc (leading_no_ops flags)

-- The last no-ops of the run, in the order of time.
unfoldable pub trailing_no_ops : List Bool → ℕ
unfolding leading_no_ops
trailing_no_ops flags = leading_no_ops (reverse flags)

-- The same with a streak that the flags go on with.
streak : ℕ → List Bool → ℕ
streak n [] = n
streak n (true ∷ flags) = streak 0 flags
streak n (false ∷ flags) = streak (suc n) flags

streak-cons :
    (n k : ℕ) (b : Bool) (flags : List Bool)
    → k ≡ (if b then 0 else n + 1)
    → streak k flags ≡ streak n (b ∷ flags)
unfolding streak
streak-cons n k true flags e = ap (λ m. streak m flags) e
streak-cons n k false flags e = ap (λ m. streak m flags) (omega arith)

-- The same streak from the whole of the past, its last flag first.
streak-leading :
    (past flags : List Bool)
    → streak (leading_no_ops past) flags ≡ leading_no_ops (reverse_aux flags past)
unfolding streak leading_no_ops
streak-leading past [] = refl
streak-leading past (true ∷ flags) = streak-leading (true ∷ past) flags
streak-leading past (false ∷ flags) = streak-leading (false ∷ past) flags

-- A loop that takes ticks, and must stop exactly if its streak has reached its limit.
pub record IsTicking (s : LoopState) : Type 0 where
  pub live : s.status ≢ stopped
  pub running : s.status ≢ paused
  pub limited : 1 ≤ s.noop_limit
  pub flagged : loop_must_stop s.status ≡ leb s.noop_limit s.consecutive_no_ops

-- What one tick makes of a ticking loop.
record Ticked (s s' : LoopState) (n : ℕ) : Type 0 where
  ticking : IsTicking s'
  counted : s'.tick_count ≡ s.tick_count + n
  limit : s'.noop_limit ≡ s.noop_limit

tick-IsTicking :
    (r : Registry) (id : Text) (b : Bool) (clock : ℕ) (s : LoopState)
    → get r id ≡ some s
    → IsTicking s
    → (s' : LoopState) × (tick r (tick_of id b) clock ≡ ok (s', put r id s'))
      × Ticked s s' 1
      × (s'.consecutive_no_ops ≡ (if b then 0 else s.consecutive_no_ops + 1))
unfolding tick loop_must_stop
tick-IsTicking r id true clock s found h =
    (advance (counted s (tick_of id true) clock) true, ground arith, ground arith, ground arith)
tick-IsTicking r id false clock s found h =
    (advance (counted s (tick_of id false) clock) false, ground arith, ground arith, ground arith)

get-put_self : (r : Registry) (id : Text) (s : LoopState) → get (put r id s) id ≡ some s
get-put_self r id s = ground (arith, get-put r id id s, text_eq_refl id)

ticks-IsTicking :
    (flags : List Bool) (r : Registry) (id : Text) (clock : ℕ) (s : LoopState)
    → get r id ≡ some s
    → IsTicking s
    → (r' : Registry) × (s' : LoopState) × (ticks r id flags clock ≡ ok r')
      × (get r' id ≡ some s')
      × Ticked s s' (length flags)
      × (s'.consecutive_no_ops ≡ streak s.consecutive_no_ops flags)
unfolding ticks streak
ticks-IsTicking [] r id clock s found h =
    (r, s, refl, found, record { ticking = h; counted = omega arith; limit = refl }, refl)
ticks-IsTicking (b ∷ flags) r id clock s found h =
    let (s1, e, t, n) = tick-IsTicking r id b clock s found h in
    let (r', s', e', found', t', n') =
      ticks-IsTicking flags (put r id s1) id clock s1 (get-put_self r id s1) t.ticking in
    (
      r',
      s',
      rw e e',
      found',
      record {
        ticking = t'.ticking;
        counted = omega (arith, t.counted, t'.counted);
        limit = t'.limit ∙ t.limit;
      },
      n' ∙ streak-cons s.consecutive_no_ops s1.consecutive_no_ops b flags n,
    )

arm-IsTicking :
    (r r' : Registry) (i : ArmLoopInput) (s : LoopState) (clock : ℕ)
    → get r i.loop_id ≡ none
    → arm r i clock ≡ ok (s, r')
    → 1 ≤ s.noop_limit
    → (get r' i.loop_id ≡ some s) × IsTicking s × (s.tick_count ≡ 0) × (s.consecutive_no_ops ≡ 0)
unfolding arm fresh_loop loop_must_stop
arm-IsTicking r r' i s clock absent e limit =
    (ground (arith, get-put_self r i.loop_id s), ground arith, ground arith, ground arith)

-- A loop that is armed anew, with a limit of one or more, takes any run of ticks. After the run it
-- has counted every tick, its streak is the number of no-ops since the last tick that advanced (or
-- since it was armed), and it must stop exactly if that number has reached the limit.
pub ticks-trailing_no_ops :
    (r r' : Registry) (i : ArmLoopInput) (s : LoopState) (clock : ℕ) (flags : List Bool)
    → get r i.loop_id ≡ none
    → arm r i clock ≡ ok (s, r')
    → 1 ≤ s.noop_limit
    → (r'' : Registry) × (s'' : LoopState) × (ticks r' i.loop_id flags clock ≡ ok r'')
      × (get r'' i.loop_id ≡ some s'')
      × (s''.tick_count ≡ length flags)
      × (s''.consecutive_no_ops ≡ trailing_no_ops flags)
      × (loop_must_stop s''.status ≡ leb s.noop_limit (trailing_no_ops flags))
unfolding trailing_no_ops
ticks-trailing_no_ops r r' i s clock flags absent armed limit =
    let (found, h, no_ticks, no_streak) = arm-IsTicking r r' i s clock absent armed limit in
    let (r'', s'', run, found', t, n) = ticks-IsTicking flags r' i.loop_id clock s found h in
    let streaked : s''.consecutive_no_ops ≡ trailing_no_ops flags =
      n ∙ ap (λ k. streak k flags) no_streak ∙ streak-leading [] flags in
    (
      r'',
      s'',
      run,
      found',
      omega (arith, t.counted),
      streaked,
      cc (t.ticking.flagged, t.limit, streaked),
    )
