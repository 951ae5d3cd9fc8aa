-- ===== src/Tests/Notices.antt =====
-- The theorems on extension/src/exit-notify-gate.ts, exit-watchdog.ts and comms/mailbox.ts at
-- concrete histories.
use pi_better_subagents.Prelude.{
  ℕ, ◌+◌, ◌≤◌, ◌≡◌, refl, true, false, some, List, [], ◌∷◌, min, if◌then◌else◌, arith,
}
use pi_better_subagents.Prelude.Dict.{get}
use pi_better_subagents.Prelude.KeySet
use pi_better_subagents.ExitGate.{
  ExitNotifyGate, Verdict, notify_now, stash, mark, on_exit, prune, prune_loop,
}
use pi_better_subagents.ExitGate
use pi_better_subagents.ExitGate.Accounting.{Call, marks, exits, notices, notices-new}
use pi_better_subagents.ExitGate.Delivery.{after, mark-on_exit, on_exit-mark}
use pi_better_subagents.Watchdog.{ExitWatchdog}
use pi_better_subagents.Watchdog
use pi_better_subagents.Watchdog.InFlight.{
  arms, disposes, settles, fires, run-in_flight, fires-disarms,
}
use pi_better_subagents.Watchdog.InFlight
use pi_better_subagents.Mailbox.{Mailbox, progress_update, need_decision, log}
use pi_better_subagents.Mailbox
use pi_better_subagents.Mailbox.Ring.{last_n}
use pi_better_subagents.Mailbox.Rings.{recorded, log-run, step}
use pi_better_subagents.Mailbox.Rings
use pi_better_subagents.Mailbox.Settled.{settle_count, pending_count, begin_count, settle_count-run}

abbrev gate : ExitNotifyGate ℕ
gate = record { notify = []; recent = []; ttl_ms = 100; stamped = [] }

abbrev other_calls : List (Call ℕ)
other_calls = exits 20 "b" 8 false ∷ marks 30 "c" ∷ []

notices-new_example :
    (notices "b" (ExitGate.new 100) (marks 5 "b" ∷ other_calls) ≤ 1)
    × (notices "b" (ExitGate.new 100) (marks 5 "b" ∷ other_calls) ≤ 1)
notices-new_example = notices-new 100 "b" (marks 5 "b" ∷ other_calls)

mark-on_exit_example : (mark 90 "a" (after (on_exit 10 "a" 7 false gate).0 other_calls)).1 ≡ some 7
unfolding on_exit prune prune_loop KeySet.has
mark-on_exit_example =
    mark-on_exit "a" 7 10 90 gate other_calls tt refl
      ((refl, omega arith), ((refl, omega arith), tt)) (omega arith)

on_exit-mark_example :
    (on_exit 500 "a" 7 false (after (mark 10 "a" gate).0 other_calls)).1 ≡ notify_now
unfolding mark prune prune_loop get
on_exit-mark_example = on_exit-mark "a" 7 10 500 gate other_calls refl (refl, (refl, tt))

abbrev ticks : List InFlight.Event
ticks = arms ∷ fires true ∷ fires true ∷ settles ∷ fires true ∷ []

run-in_flight_example :
    (InFlight.run Watchdog.new ticks).1
    ≡ (InFlight.run Watchdog.new ticks).2
      + (if (InFlight.run Watchdog.new ticks).0.in_flight then 1 else 0)
run-in_flight_example = run-in_flight ticks

abbrev armed_watchdog : ExitWatchdog
armed_watchdog = record { armed = true; in_flight = true }

abbrev later_ticks : List InFlight.Event
later_ticks = fires true ∷ settles ∷ fires true ∷ []

abbrev mailbox_calls : List Rings.Call
mailbox_calls =
    Rings.appends 1 "run" "a" "parent" need_decision "which?"
    ∷ Rings.begins 1 "run/a" "a" "which?"
    ∷ Rings.appends 2 "run" "b" "parent" progress_update "half"
    ∷ Rings.answers 0 "this"
    ∷ Rings.resolves "run/a" "this"
    ∷ Rings.begins 3 "run/a" "a" "and now?"
    ∷ Rings.fires 0
    ∷ Rings.fires 1
    ∷ Rings.disposes
    ∷ []

log-run_example :
    log (Rings.run (Mailbox.new 1) mailbox_calls) "run" 5
    ≡ last_n (min 5 1) (recorded "run" [] (Mailbox.new 1) mailbox_calls)
log-run_example = log-run 1 mailbox_calls "run" 5

settle_count-run_example :
    (settle_count 0 (Mailbox.new 1) mailbox_calls
        + pending_count 0 (Rings.run (Mailbox.new 1) mailbox_calls).waiters
      ≡ begin_count 0 (Mailbox.new 1) mailbox_calls)
    × (begin_count 0 (Mailbox.new 1) mailbox_calls ≤ 1)
settle_count-run_example = settle_count-run 1 0 mailbox_calls
