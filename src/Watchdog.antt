-- ===== src/Watchdog.antt =====
-- extension/src/exit-watchdog.ts: while wakes are pending, a tick at every interval, one at a time.
-- The interval's callback runs only while the watchdog is armed, and a tick's promise settles only
-- when a tick is in flight; both promises and intervals are the runtime's.
pub mod InFlight
use pi_better_subagents.Prelude.{ℕ, Bool, true, false, not, ◌&&◌, if◌then◌else◌}

pub record ExitWatchdog : Type 0 where
  pub armed : Bool
  pub in_flight : Bool

unfoldable pub new : ExitWatchdog
new = record { armed = false; in_flight = false }

unfoldable pub arm : ExitWatchdog → ExitWatchdog
arm w = if w.armed then w else record w { armed = true }

unfoldable pub dispose : ExitWatchdog → ExitWatchdog
dispose w = if not w.armed then w else record w { armed = false }

-- The callback of the interval, with the answer of `hasPending`; and whether `tick` is called.
unfoldable pub on_tick : Bool → ExitWatchdog → ExitWatchdog × Bool
unfolding dispose
on_tick has_pending w =
    if not has_pending
    then (dispose w, false)
    else if w.in_flight
    then (w, false)
    else (record w { in_flight = true }, true)

-- The tick's `finally`.
unfoldable pub settle : ExitWatchdog → ExitWatchdog
settle w = record w { in_flight = false }
