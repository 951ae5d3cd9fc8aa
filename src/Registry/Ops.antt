-- ===== src/Registry/Ops.antt =====
-- The methods of `SubagentRegistry` of extension/src/subagent/registry.ts.
use pi_better_subagents.Prelude.{
  ℕ, suc, ◌+◌, ◌-◌, Bool, true, false, Option, none, some, [], ◌∷◌, ◌++◌, String, length, keep, ltb,
  leb, if◌then◌else◌,
}
use pi_better_subagents.Prelude.Dict.{get, put}
use pi_better_subagents.Subagent.{ChildStatus, to_status, ChildResult, is_terminal}
use pi_better_subagents.Registry.{
  Kind, RunState, Handle, InternalChild, InternalRun, RunRecord, SubagentRegistry, unknown_run,
  Result, ok, err, hour_ms, snapshot, emit, is_status, find_in, find_name, find_object,
  commit_child,
}

module _ {H : Type 0} where
  unfoldable pub new : (max_children spawn_budget : ℕ) → Bool → SubagentRegistry H
  new max_children spawn_budget observed = record {
    max_children = max_children;
    spawn_budget = spawn_budget;
    runs = [];
    children = [];
    observed = observed;
    active_slots = 0;
    slot_waiters = [];
    spawn_times = [];
    emitted = [];
  }

  unfoldable pub create_run :
      (now : ℕ) (id : String) → Kind → SubagentRegistry H → SubagentRegistry H × RunRecord
  create_run now id kind g =
      let r : InternalRun H = record {
        run_id = id;
        kind = kind;
        status = RunState.running;
        created_at = now;
        children = [];
      } in
      (emit r (record g { runs = put id r g.runs }), snapshot r)

  unfoldable pub find_child :
      (run_id child_id_or_name : String) → SubagentRegistry H → Option (Handle H)
  find_child run_id key g = elim (get run_id g.runs) [
    | none ↦ none
    | some r ↦ elim (find_in key r.children) [
      | some c ↦ c.handle
      | none ↦ elim (find_name key r.children) [ none ↦ none | some c ↦ c.handle ]
    ]
  ]

  unfoldable pub add_child :
      (now : ℕ) (id run_id name agent : String) → SubagentRegistry H → Result (SubagentRegistry H)
  add_child now id run_id name agent g = elim (get run_id g.runs) [
    | none ↦ err (unknown_run run_id)
    | some r ↦
        (let c : InternalChild H = record {
          child_id = id;
          run_id = run_id;
          name = name;
          agent = agent;
          model = none;
          status = ChildStatus.pending;
          prompt = none;
          preamble = none;
          result = none;
          started_at = now;
          ended_at = none;
          handle = none;
          should_start = false;
        } in
          let r' = record r { children = r.children ++ c ∷ [] } in
          ok (
            emit r'
              (record g { runs = put run_id r' g.runs; children = put id run_id g.children })))
  ]

  -- `consumeSpawnBudget`; `false` is the error that the budget is used up.
  unfoldable pub consume_spawn_budget : ℕ → SubagentRegistry H → SubagentRegistry H × Bool
  consume_spawn_budget now g =
      let recent = keep (λ t. ltb now (t + hour_ms)) g.spawn_times in
      if leb g.spawn_budget (length recent)
      then (record g { spawn_times = recent }, false)
      else (record g { spawn_times = recent ++ now ∷ [] }, true)

  -- The promise is granted at once, or waits under the number that it is given.
  unfoldable pub acquire_slot : ℕ → SubagentRegistry H → SubagentRegistry H × Bool
  acquire_slot promise g =
      if ltb g.active_slots g.max_children
      then (record g { active_slots = suc g.active_slots }, true)
      else (record g { slot_waiters = g.slot_waiters ++ promise ∷ [] }, false)

  -- The waiter that is handed the slot, if any.
  unfoldable pub release_slot : SubagentRegistry H → SubagentRegistry H × Option ℕ
  release_slot g = elim g.slot_waiters [
    | [] ↦ (record g { active_slots = g.active_slots - 1 }, none)
    | next ∷ rest ↦ (record g { slot_waiters = rest }, some next)
  ]

  abbrev pub set_result : ℕ → ChildResult → InternalChild H → InternalChild H
  set_result now result c = record c {
    status = to_status result.status;
    result = some result;
    ended_at = some now;
    should_start = false;
  }

  -- A result of a child that is already terminal is ignored.
  unfoldable pub settle_child : ℕ → String → ChildResult → SubagentRegistry H → SubagentRegistry H
  unfolding find_object commit_child
  settle_child now id result g = elim (find_object id g) [
    | none ↦ g
    | some (r, c) ↦ if is_terminal c.status then g else commit_child id (set_result now result) r g
  ]

  abbrev pub set_status : ℕ → ChildStatus → InternalChild H → InternalChild H
  set_status now status c =
      let c' = record c { status = status } in
      if is_status status ChildStatus.running
      then record c' { started_at = now; result = none; ended_at = none }
      else c'

  unfoldable pub transition_child :
      ℕ → String → ChildStatus → SubagentRegistry H → SubagentRegistry H
  unfolding find_object commit_child
  transition_child now id status g = elim (find_object id g) [
    | none ↦ g
    | some (r, c) ↦
        if is_status c.status status then g else commit_child id (set_status now status) r g
  ]
