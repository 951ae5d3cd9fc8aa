-- ===== src/Lib.antt =====
-- Verification library of the subagent and monitor core of the extension (extension/src).
--
-- The extension runs subagents and background commands for a coding agent. A subagent run is a list
-- of children; the registry keeps their states and bounds how many run at once, the pool and the
-- chain decide which child starts next, the mailbox and the messaging over it connect children with
-- their parent. A background command's output goes through a line batcher, a rate limiter and a
-- saturation window; its exit goes through the exit gate and the watchdog; what the agent is told
-- goes through the notify center. All of them take their time from a clock.
--
-- Which file models what:
--   Batching: extension/src/monitor-batching.ts (LineBatcher in Batcher, SaturationWindow in Window,
--     RateLimiter in Limiter; Lines has the splitting and cutting of strings of code units)
--   ExitGate: extension/src/exit-notify-gate.ts;  Watchdog: extension/src/exit-watchdog.ts
--   Mailbox: extension/src/comms/mailbox.ts
--   Comms: extension/src/comms/comms.ts, comms/routing.ts and task-exit-notify.ts
--   Subagent, Registry: extension/src/subagent/types.ts and registry.ts (Ops, Start, Teardown and
--     Queries have the methods; the other children have the theorems)
--   Pool, Chain: extension/src/subagent/pool.ts (runTasks; the chains)
--   Notify: extension/src/notify.ts
--   Runner: extension/src/subagent/runner.ts, the handle of a child (Begin starts a generation,
--     Lifecycle ends, retries and resumes it, Activity has the events of the session; Turns is what
--     is kept of the turns; Steps, Generations and Callbacks show that each method keeps it, History
--     that a history of them does)
--   Subagent.Models: extension/src/subagent/model-spec.ts
--   Subagent.Transcript: extension/src/subagent/transcript.ts
--   Monitor: the output side of extension/src/monitor.ts;  Monitor.Watch: the ends of a monitor
--   Work: extension/src/work-index.ts (Ages has formatAge and nextAgeBoundary)
--   Clock: extension/src/clock.ts (ManualClock; TimerScope in Clock.Scope)
--   Prelude: tests on numbers, lists, association lists for maps, sets of keys
--   Tests: the theorems at concrete inputs
--
-- A class is a record of its fields and a method is a function from the record to the record and
-- what the method returns or calls back. Timers and promises are the runtime's: a pending timer is a
-- field, its callback is an operation of its own, and a method that waits is cut where it waits. So
-- a history is a list of calls and callbacks in any order, and the theorems hold for every list.
--
-- Fuel: the loop of a pool worker takes one unit for a task and one to end, and gets as many as
-- there are tasks and two; the scan of a chain's prompt takes at most one for a code unit; the loop
-- of ManualClock.advanceTo gets any fuel, since a callback may set a timer that is due at once;
-- where callbacks leave the timers alone and there are no intervals, it needs one more than there
-- are timers.
--
-- Assumed: the admission hook of a child answers in the order of asking, as the registry's slots
-- do, and in the theorems on a child no `resume` is called while another one waits for an abort. UTF-8
-- is a parameter of Monitor, with two laws: on Unicode scalar values the encoding of two texts in a
-- row is that of both, and decoding undoes it. `toLowerCase` is a parameter of Subagent.Models, which
-- leaves the names of the thinking levels as they are.
--
-- Not modelled: the parameters and the reconciliation of the monitor registry, the calls that a child
-- makes of its session, the tools, the client of the manager, formats and terminal views,
-- configuration, log entries, and the text of error messages.
pub mod Prelude
pub mod Batching
pub mod ExitGate
pub mod Watchdog
pub mod Work
pub mod Mailbox
pub mod Subagent
pub mod Registry
pub mod Pool
pub mod Tests
pub mod Chain
pub mod Notify
pub mod Clock
pub mod Comms
pub mod Monitor
pub mod Runner
