-- ===== src/Clock.antt =====
-- `ManualClock` of extension/src/clock.ts. A callback is its name, a number; what
-- a callback does to the clock is a function `run_callback` on the clock, so callbacks may set and
-- clear timers. The times and delays are natural numbers; in the source a delay that is
-- not finite counts as zero. `fired` records the callbacks with the time at which each ran.
pub mod Advance
pub mod Scope
pub mod Fuel
use pi_better_subagents.Prelude.{
  ℕ, zero, suc, ◌+◌, max, Bool, true, false, not, ◌&&◌, ◌||◌, Option, none, some, List, [], ◌∷◌,
  ◌++◌, keep, any, leb, ltb, ◌==◌, if◌then◌else◌,
}

pub record ScheduledTimer : Type 0 where
  pub id : ℕ
  pub due : ℕ
  pub interval : Option ℕ
  pub callback : ℕ

-- The order of a timer is its id.
pub record ManualClock : Type 0 where
  pub current_time : ℕ
  pub next_id : ℕ
  pub timers : List ScheduledTimer
  pub fired : List (ℕ × ℕ)

unfoldable pub new : ℕ → ManualClock
new start_at = record { current_time = start_at; next_id = 1; timers = []; fired = [] }

unfoldable pub schedule : (callback delay : ℕ) → Option ℕ → ManualClock → ManualClock × ℕ
schedule callback delay interval c = (
  record c {
    next_id = suc c.next_id;
    timers =
        c.timers
        ++ record {
          id = c.next_id;
          due = c.current_time + delay;
          interval = interval;
          callback = callback;
        }
          ∷ [];
  },
  c.next_id,
)

unfoldable pub set_timeout : (callback delay : ℕ) → ManualClock → ManualClock × ℕ
unfolding schedule
set_timeout callback delay c = schedule callback delay none c

unfoldable pub set_interval : (callback interval : ℕ) → ManualClock → ManualClock × ℕ
unfolding schedule
set_interval callback interval c = schedule callback (max 1 interval) (some (max 1 interval)) c

unfoldable pub cancel : ℕ → ManualClock → ManualClock
cancel timer c = record c { timers = keep (λ t. not (t.id == timer)) c.timers }

-- Does the sort put the first before the second?
abbrev pub is_before : ScheduledTimer → ScheduledTimer → Bool
is_before a b = ltb a.due b.due || ((a.due == b.due) && leb a.id b.id)

-- A timer that is due goes first if it is before the first of the others.
abbrev pub pick : ℕ → ScheduledTimer → Option ScheduledTimer → Option ScheduledTimer
pick target t none = if leb t.due target then some t else none
pick target t (some s) = if leb t.due target && is_before t s then some t else some s

-- The first of the timers that are due, in the order of due time and then of id.
unfoldable pub next_due : ℕ → List ScheduledTimer → Option ScheduledTimer
next_due target [] = none
next_due target (t ∷ ts) = pick target t (next_due target ts)

-- The timer that fires is deleted, or due again after its interval.
unfoldable pub rearm : ScheduledTimer → List ScheduledTimer → List ScheduledTimer
rearm next [] = []
rearm next (t ∷ ts) =
    let rest = rearm next ts in
    if t.id == next.id
    then elim next.interval [
      | none ↦ rest
      | some interval ↦ record t { due = t.due + interval } ∷ rest
    ]
    else t ∷ rest

module _ (run_callback : ℕ → ManualClock → ManualClock) where
  unfoldable pub fire : ScheduledTimer → ManualClock → ManualClock
  unfolding rearm
  fire next c = run_callback next.callback (record c {
    current_time = next.due;
    timers = rearm next c.timers;
    fired = c.fired ++ (next.callback, next.due) ∷ [];
  })

  -- The loop of `advance_to`. A callback may set a timer that is due at once, so the source's loop
  -- may not end: `none` is that the fuel ran out.
  unfoldable pub advance_loop : (fuel target : ℕ) → ManualClock → Option ManualClock
  unfolding next_due fire
  advance_loop zero target c = none
  advance_loop (suc fuel) target c = elim (next_due target c.timers) [
    | none ↦ some (record c { current_time = target })
    | some next ↦ advance_loop fuel target (fire next c)
  ]

  -- The inner `none` is the error of a target in the past.
  unfoldable pub advance_to : (fuel target : ℕ) → ManualClock → Option (Option ManualClock)
  unfolding advance_loop
  advance_to fuel target c =
      if ltb target c.current_time
      then some none
      else elim (advance_loop fuel target c) [ none ↦ none | some c' ↦ some (some c') ]

  unfoldable pub advance_by : (fuel delta : ℕ) → ManualClock → Option (Option ManualClock)
  unfolding advance_to
  advance_by fuel delta c = advance_to fuel (c.current_time + delta) c
