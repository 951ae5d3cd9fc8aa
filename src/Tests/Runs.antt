-- ===== src/Tests/Runs.antt =====
-- The theorems on extension/src/subagent/registry.ts and pool.ts at concrete histories.
use pi_better_subagents.Prelude.{
  ℕ, ◌≤◌, ◌≡◌, refl, true, false, none, some, List, [], ◌∷◌, length, keep, All, arith,
}
use pi_better_subagents.Prelude.Dict.{get, put}
use pi_better_subagents.Subagent.{ChildStatus, ResultStatus, ChildResult, plain_result}
use pi_better_subagents.Registry.{
  Kind, RunState, InternalChild, InternalRun, RunRecord, SubagentRegistry, run_state, emit,
}
use pi_better_subagents.Registry.Ops.{new, create_run}
use pi_better_subagents.Registry.Teardown.{dispose_run}
use pi_better_subagents.Registry.Slots.{Event, acquires, releases, IsFair, run-IsFair}
use pi_better_subagents.Registry.Slots
use pi_better_subagents.Registry.Budget.{is_recent, latest, spawned, spawned-bound}
use pi_better_subagents.Registry.RunStatus.{Says, run_state-Says}
use pi_better_subagents.Registry.Consistent.{AreConsistent}
use pi_better_subagents.Registry.History.{
  Call, creates, adds, settles, AllAddOpen, run-AreConsistent, settle_child-settle_child,
}
use pi_better_subagents.Registry.History
use pi_better_subagents.Registry.Disposal.{IsLastRecord, dispose_run-emitted}
use pi_better_subagents.Pool.{
  Outcome, returns, throws, start, settle, turn, spawn, spawn_all, take_next, result_of,
}
use pi_better_subagents.Pool
use pi_better_subagents.Pool.Slots.{result_count}
use pi_better_subagents.Pool.Invariant.{IsSound}
use pi_better_subagents.Pool.Progress.{run-start-IsSound, run-results, run-started}

run-IsFair_example :
    IsFair (Slots.run (Slots.start {H = ℕ} 1 10) (acquires 0 ∷ acquires 1 ∷ releases ∷ []))
run-IsFair_example = run-IsFair ℕ 1 10 (acquires 0 ∷ acquires 1 ∷ releases ∷ [])

abbrev asked : List ℕ
asked = 1 ∷ 5 ∷ 3700000 ∷ []

spawned-bound_example :
    length (keep (is_recent (latest 0 asked)) (spawned (new {H = ℕ} 4 1 true) [] asked)) ≤ 1
spawned-bound_example = spawned-bound ℕ 4 1 asked (omega arith, (omega arith, (omega arith, tt)))

abbrev a_child : ChildStatus → InternalChild ℕ
a_child status = record {
  child_id = "c1";
  run_id = "r1";
  name = "a";
  agent = "scout";
  model = none;
  status = status;
  prompt = none;
  preamble = none;
  result = none;
  started_at = 1;
  ended_at = none;
  handle = none;
  should_start = false;
}

run_state-Says_example :
    Says
      (run_state (a_child ChildStatus.completed ∷ a_child ChildStatus.failed ∷ []))
      (a_child ChildStatus.completed ∷ a_child ChildStatus.failed ∷ [])
run_state-Says_example =
    run_state-Says (a_child ChildStatus.completed ∷ a_child ChildStatus.failed ∷ [])

abbrev a_result : ChildResult
a_result = plain_result ResultStatus.completed "done" none 3

abbrev calls : List (Call ℕ)
calls = creates 1 "r1" Kind.tasks ∷ adds 2 "c1" "r1" "a" "scout" ∷ settles 4 "c1" a_result ∷ []

calls-AllAddOpen : AllAddOpen (new {H = ℕ} 4 10 true) calls
unfolding AllAddOpen History.step create_run new emit get put
calls-AllAddOpen = (tt, ((λ r e. ground arith), (tt, tt)))

run-AreConsistent_example : AreConsistent (History.run (new {H = ℕ} 4 10 true) calls).runs
run-AreConsistent_example = run-AreConsistent ℕ 4 10 calls calls-AllAddOpen

abbrev a_run : InternalRun ℕ
a_run = record {
  run_id = "r1";
  kind = Kind.tasks;
  status = RunState.running;
  created_at = 1;
  children = a_child ChildStatus.running ∷ [];
}

abbrev a_registry : SubagentRegistry ℕ
a_registry = record {
  max_children = 4;
  spawn_budget = 10;
  runs = ("r1", a_run) ∷ [];
  children = ("c1", "r1") ∷ [];
  observed = true;
  active_slots = 1;
  slot_waiters = [];
  spawn_times = [];
  emitted = [];
}

dispose_run-emitted_example :
    (last : RunRecord) × ((dispose_run 9 "r1" a_registry).0.emitted ≡ last ∷ [])
    × IsLastRecord "r1" last
    × (get "r1" (dispose_run 9 "r1" a_registry).0.runs ≡ none)
    × All (λ c. get c.child_id (dispose_run 9 "r1" a_registry).0.children ≡ none) a_run.children
unfolding get
dispose_run-emitted_example = dispose_run-emitted 9 "r1" a_registry a_run refl refl

abbrev failed_result : ChildResult
failed_result = plain_result ResultStatus.failed "" (some "no") 1

abbrev ends : List (ℕ × Outcome)
ends = (1, returns a_result) ∷ (0, throws "no") ∷ (1, returns failed_result) ∷ []

run-start-IsSound_example : IsSound (Pool.run (start 2 3 false) ends)
run-start-IsSound_example = run-start-IsSound 2 3 false ends

run-results_example : result_count 2 (Pool.run (start 2 3 false) ends) ≡ 1
unfolding Pool.run start settle turn spawn spawn_all take_next result_of
run-results_example = run-results 2 3 false ends 2 (refl, (refl, tt)) (omega arith)

abbrev one_end : List (ℕ × Outcome)
one_end = (1, returns a_result) ∷ []

run-started_example :
    (Pool.run (settle 0 (throws "no") (Pool.run (start 2 5 true) one_end)) ends).started
    ≡ (Pool.run (start 2 5 true) one_end).started
unfolding Pool.run start settle turn spawn spawn_all take_next result_of
run-started_example = run-started 2 5 one_end ends 0 0 (throws "no") refl refl
