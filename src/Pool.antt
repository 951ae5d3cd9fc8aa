-- ===== src/Pool.antt =====
-- `runTasks` of extension/src/subagent/pool.ts: workers take the tasks in turn. A worker runs
-- until it waits for a child; the state between two waits is a record, and a child that ends wakes
-- its worker. A task is its ordinal.
pub mod Slots
pub mod Invariant
pub mod Progress
use pi_better_subagents.Prelude.{
  ℕ, zero, suc, ◌+◌, min, max, Bool, true, false, not, ◌&&◌, Option, none, some, List, [], ◌∷◌,
  ◌++◌, String, length, get_elem?, set, replicate, leb, if◌then◌else◌,
}
use pi_better_subagents.Subagent.{ResultStatus, ChildResult, plain_result, is_completed}

-- How the promise of `startChild` ends.
pub data Outcome : Type 0 where
  returns : ChildResult → Outcome
  throws : String → Outcome

pub data Worker : Type 0 where
  awaiting : (ordinal : ℕ) → Worker
  finished : Worker

pub record PoolState : Type 0 where
  pub task_count : ℕ
  pub fail_fast : Bool
  pub next : ℕ
  pub failed : Bool
  pub results : List (Option ChildResult)
  pub workers : List Worker
  pub started : List ℕ  -- the ordinals that `startChild` was called with, in order

abbrev pub cancelled_result : ChildResult
cancelled_result = plain_result ResultStatus.interrupted "" (some "cancelled (fail_fast)") 0

abbrev pub failure_result : String → ChildResult
failure_result message = plain_result ResultStatus.failed "" (some message) 0

unfoldable pub result_of : Outcome → ChildResult
result_of (returns r) = r
result_of (throws message) = failure_result message

-- The loop of a worker up to its next wait: the ordinal that it starts, or `none` when the worker
-- returns. `none` of the outer option is that the fuel ran out.
unfoldable pub take_next : ℕ → PoolState → Option (PoolState × Option ℕ)
take_next zero s = none
take_next (suc fuel) s =
    let ordinal = s.next in
    let s' = record s { next = suc ordinal } in
    let cancel =
      take_next fuel (record s' { results = set s.results ordinal (some cancelled_result) }) in
    if leb s.task_count ordinal
    then some (s', none)
    else if s.fail_fast && s.failed
    then cancel
    else some (record s' { started = s.started ++ ordinal ∷ [] }, some ordinal)

abbrev pub worker_of : Option ℕ → Worker
worker_of none = finished
worker_of (some ordinal) = awaiting ordinal

-- Enough for every ordinal that is left, and the one that ends the loop.
abbrev pub fuel_for : PoolState → ℕ
fuel_for s = suc (s.task_count + 1)

-- A worker goes on; out of fuel it would stay as it is.
unfoldable pub turn : ℕ → PoolState → PoolState
unfolding take_next
turn w s = elim (take_next (fuel_for s) s) [
  | none ↦ s
  | some (s', o) ↦ record s' { workers = set s'.workers w (worker_of o) }
]

-- A new worker runs up to its first wait.
unfoldable pub spawn : PoolState → PoolState
unfolding take_next
spawn s = elim (take_next (fuel_for s) s) [
  | none ↦ s
  | some (s', o) ↦ record s' { workers = s'.workers ++ worker_of o ∷ [] }
]

unfoldable pub spawn_all : ℕ → PoolState → PoolState
unfolding spawn
spawn_all zero s = s
spawn_all (suc n) s = spawn_all n (spawn s)

abbrev pub worker_count : ℕ → ℕ → ℕ
worker_count concurrency tasks = max 1 (min concurrency tasks)

unfoldable pub start : (concurrency tasks : ℕ) → Bool → PoolState
unfolding spawn_all
start concurrency tasks fail_fast = spawn_all (worker_count concurrency tasks) (record {
  task_count = tasks;
  fail_fast = fail_fast;
  next = 0;
  failed = false;
  results = replicate tasks none;
  workers = [];
  started = [];
})

-- The child that a worker waits for ends; the worker stores the result and goes on.
unfoldable pub settle : ℕ → Outcome → PoolState → PoolState
unfolding turn result_of
settle w outcome s = elim (get_elem? s.workers w) [
  | none ↦ s
  | some finished ↦ s
  | some (awaiting ordinal) ↦
      (let r = result_of outcome in
        turn w (record s {
          results = set s.results ordinal (some r);
          failed = if is_completed r.status then s.failed else true;
        }))
]

-- The children end in some order.
unfoldable pub run : PoolState → List (ℕ × Outcome) → PoolState
unfolding settle
run s [] = s
run s ((w, outcome) ∷ es) = run (settle w outcome s) es
