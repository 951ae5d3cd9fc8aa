-- ===== src/Tests/Endings.antt =====
-- The theorem on the end of a monitor of extension/src/monitor.ts at a concrete history.
use pi_better_subagents.Prelude.{◌≤◌, none, some, List, [], ◌∷◌, true}
use pi_better_subagents.Monitor.Watch.{ExitEvent, new}
use pi_better_subagents.Monitor.Watch.Ends.{
  Event, outputs, batches, times_out, exits, stops_end, run, end_count, EndsLast, run-EndsLast,
}

abbrev clean_exit : ExitEvent
clean_exit = record { exit_code = some 0; signal = none; end_reason = none }

-- A line is delivered, the timeout begins a stop, and the exit is seen before the stop has ended.
abbrev stopped_late : List Event
stopped_late =
    outputs (65 ∷ 10 ∷ []) ∷ batches 300 ∷ times_out ∷ exits 400 clean_exit ∷ stops_end ∷ []

run-EndsLast_example :
    (end_count (run (new 80 1000 5 1 true) stopped_late).notices ≤ 1)
    × EndsLast (run (new 80 1000 5 1 true) stopped_late).notices
run-EndsLast_example = run-EndsLast 80 1000 5 1 true stopped_late
