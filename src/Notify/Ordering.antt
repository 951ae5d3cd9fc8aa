-- ===== src/Notify/Ordering.antt =====
-- What the notify center of extension/src/notify.ts sends over a history, and in which order.
use pi_better_subagents.Prelude.{
  ℕ, ◌≡◌, refl, Bool, true, false, none, some, List, [], ◌∷◌, ◌++◌, String, if◌then◌else◌, eq_refl,
  arith,
}
use pi_better_subagents.Prelude.Dict.{get, get-delete}
use pi_better_subagents.Notify.{
  Message, Formats, PendingMonitor, NotifyCenter, Sent, mode_of, deliver, route, notify_task_exit,
  flush_monitor, notify, flush_monitor_events, settled, notify_monitor_event, flush_exits, fire,
  flush, dispose, clear_timer,
}

-- A call of a method, or the timeout; `idle` is the answer of `isIdle`.
pub data Event (I C : Type 0) : Type 0 where
  exits : (task_id : String) → I → Event I C
  notifies : (idle passively quiet : Bool) → Message C → Event I C
  monitors : (idle : Bool) → (description task_id event : String) → ℕ → (quiet : Bool) → Event I C
  settles fires flushes : (idle : Bool) → Event I C
  disposes : Event I C

module _ {I C : Type 0} (F : Formats I C) where
  unfoldable pub step : NotifyCenter I C → Event I C → Sent I C
  step n (exits task_id info) = (notify_task_exit task_id info n, [])
  step n (notifies idle passively quiet message) = notify F idle passively quiet message n
  step n (monitors idle description task_id event dropped quiet) =
      notify_monitor_event F idle description task_id event dropped quiet n
  step n (settles idle) = settled F idle n
  step n (fires idle) = fire F idle n
  step n (flushes idle) = flush F idle n
  step n disposes = (dispose n, [])

  unfoldable pub run : NotifyCenter I C → List (Event I C) → Sent I C
  run n [] = (n, [])
  run n (e ∷ es) = let s = step n e in let rest = run s.0 es in (rest.0, s.1 ++ rest.1)

  step-disposed :
      (n : NotifyCenter I C) (e : Event I C)
      → n.disposed ≡ true
      → ((step n e).0.disposed ≡ true) × ((step n e).1 ≡ [])
  unfolding step notify_task_exit notify notify_monitor_event settled fire flush flush_exits
      flush_monitor_events dispose clear_timer
  step-disposed n (exits task_id info) h = ground arith
  step-disposed n (notifies idle passively quiet message) h = ground arith
  step-disposed n (monitors idle description task_id event dropped quiet) h = ground arith
  step-disposed n (settles idle) h = ground arith
  step-disposed n (fires idle) h = ground arith
  step-disposed n (flushes idle) h = ground arith
  step-disposed n disposes h = ground arith

  run-disposed :
      (n : NotifyCenter I C) (es : List (Event I C)) → n.disposed ≡ true → (run n es).1 ≡ []
  unfolding run
  run-disposed n [] h = refl
  run-disposed n (e ∷ es) h =
      let s = step-disposed n e h in ground (arith, s, run-disposed (step n e).0 es s.0)

  -- A disposed center sends nothing, whatever happens: no event, no exit that was waiting and no
  -- notice that was held.
  pub run-after_dispose :
      (n : NotifyCenter I C) (es : List (Event I C)) → (run (dispose n) es).1 ≡ []
  unfolding dispose clear_timer
  run-after_dispose n es = run-disposed _ es refl

  -- A monitor's own notice does not overtake its events that are not quiet: when the center is not
  -- disposed and an event of the monitor is pending that is not quiet, `notify` without `quietEvents`
  -- first sends the summary, and then the notice, which is held instead if it is passive; and no
  -- event of the monitor is pending any more.
  pub notify-in_order :
      (idle passively : Bool) (id : String) (c : C) (item : PendingMonitor) (n : NotifyCenter I C)
      → n.disposed ≡ false
      → get id n.pending_monitors ≡ some item
      → item.is_quiet ≡ false
      → ((notify F idle passively false (record { monitor_id = some id; content = c }) n).1
          ≡ (record { monitor_id = some id; content = F.summary id item }, mode_of false idle)
            ∷ (if passively
                then []
                else (record { monitor_id = some id; content = c }, mode_of false idle) ∷ []))
        × ((notify F idle passively false (record { monitor_id = some id; content = c }) n).0.held
            ≡ (if passively
                then n.held ++ record { monitor_id = some id; content = c } ∷ []
                else n.held))
        × (get id
              (notify F idle passively false
                (record { monitor_id = some id; content = c })
                n).0.pending_monitors
            ≡ none)
  unfolding notify flush_monitor route deliver
  notify-in_order idle passively id c item n live found loud =
      ground (arith, get-delete id id n.pending_monitors, eq_refl id)
