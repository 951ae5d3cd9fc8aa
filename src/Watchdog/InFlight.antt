-- ===== src/Watchdog/InFlight.antt =====
-- The ticks of the watchdog of extension/src/exit-watchdog.ts over a history of events.
use pi_better_subagents.Prelude.{
  ℕ, ◌+◌, ◌≡◌, refl, Bool, false, List, [], ◌∷◌, if◌then◌else◌, arith,
}
use pi_better_subagents.Watchdog.{ExitWatchdog, new, arm, dispose, on_tick, settle}

pub data Event : Type 0 where
  arms disposes settles : Event
  fires : (has_pending : Bool) → Event

-- What an event does, how many ticks it starts and how many it ends. An interval that is not set
-- does not fire, and nothing settles while nothing is in flight.
pub step : ExitWatchdog → Event → ExitWatchdog × ℕ × ℕ
step w arms = (arm w, 0, 0)
step w disposes = (dispose w, 0, 0)
step w settles = if w.in_flight then (settle w, 0, 1) else (w, 0, 0)
step w (fires has_pending) =
    let r = on_tick has_pending w in if w.armed then (r.0, (if r.1 then 1 else 0), 0) else (w, 0, 0)

pub run : ExitWatchdog → List Event → ExitWatchdog × ℕ × ℕ
run w [] = (w, 0, 0)
run w (e ∷ es) = let s = step w e in let rest = run s.0 es in (rest.0, s.1 + rest.1, s.2 + rest.2)

abbrev busy : ExitWatchdog → ℕ
busy w = if w.in_flight then 1 else 0

step-busy :
    (w : ExitWatchdog) (e : Event) → (step w e).1 + busy w ≡ (step w e).2 + busy (step w e).0
unfolding step arm dispose on_tick settle
step-busy w arms = ground arith
step-busy w disposes = ground arith
step-busy w settles = ground arith
step-busy w (fires has_pending) = ground arith

run-busy :
    (w : ExitWatchdog) (es : List Event) → (run w es).1 + busy w ≡ (run w es).2 + busy (run w es).0
unfolding run
run-busy w [] = omega arith
run-busy w (e ∷ es) = omega (arith, step-busy w e, run-busy (step w e).0 es)

-- Over any history of a new watchdog the ticks that were started are those that have settled, and
-- one more exactly when one is in flight: never two at a time.
pub run-in_flight :
    (es : List Event)
    → (run new es).1 ≡ (run new es).2 + (if (run new es).0.in_flight then 1 else 0)
run-in_flight es = unfold new in omega (arith, run-busy new es)

-- No event of a history arms the watchdog.
abbrev pub NoArm : List Event → Type 0
NoArm [] = Unit
NoArm (arms ∷ es) = ⊥
NoArm (_ ∷ es) = NoArm es

run_disarmed :
    (w : ExitWatchdog) (es : List Event)
    → NoArm es
    → w.armed ≡ false
    → ((run w es).0.armed ≡ false) × ((run w es).1 ≡ 0)
unfolding run step dispose settle
run_disarmed w [] q h = (h, refl)
run_disarmed w (arms ∷ es) q h = absurd q
run_disarmed w (disposes ∷ es) q h = ground (arith, run_disarmed (dispose w) es q)
run_disarmed w (settles ∷ es) q h =
    ground (arith, run_disarmed w es q, run_disarmed (settle w) es q)
run_disarmed w (fires has_pending ∷ es) q h = ground (arith, run_disarmed w es q)

-- An interval that finds nothing pending disarms the watchdog, and until it is armed again it
-- starts no tick, whatever fires or settles.
pub fires-disarms :
    (w : ExitWatchdog) (es : List Event)
    → NoArm es
    → ((run (step w (fires false)).0 es).0.armed ≡ false)
      × ((run (step w (fires false)).0 es).1 ≡ 0)
unfolding step on_tick dispose
fires-disarms w es q = run_disarmed (step w (fires false)).0 es q (ground arith)
