-- ===== src/Registry/Start.antt =====
-- `startChild` and `admitChild` of extension/src/subagent/registry.ts.
use pi_better_subagents.Prelude.{
  ℕ, Bool, true, false, not, ◌&&◌, Option, none, some, String, is_some, if◌then◌else◌,
}
use pi_better_subagents.Subagent.{ChildStatus, ResultStatus, plain_result}
use pi_better_subagents.Registry.{
  session, never_started, InternalChild, SubagentRegistry, unknown_child, cancelled, Result, ok,
  err, emit, is_status, update_child, find_object, assign_child,
}
use pi_better_subagents.Registry.Ops.{
  settle_child, consume_spawn_budget, transition_child, release_slot,
}

module _ {H : Type 0} where
  -- The failure of a child that never gets a session.
  unfoldable pub fail_without_session :
      ℕ → String → String → SubagentRegistry H → SubagentRegistry H
  unfolding find_object assign_child settle_child
  fail_without_session now id error g =
      let failure = plain_result ResultStatus.failed "" (some error) 0 in
      elim (find_object id g) [
        | none ↦ g
        | some (r, c) ↦
            settle_child now id failure
              (assign_child id (λ x. record x { handle = some (never_started id failure now) }) r g)
      ]

  -- What a request says of the child, taken over before it is started.
  unfoldable pub note_request :
      Bool → (model prompt preamble : Option String) → InternalChild H → InternalChild H
  note_request has_test model prompt preamble c = record c {
    should_start = has_test;
    prompt = prompt;
    preamble = preamble;
    model = model;
  }

  -- `start_child` before the runner's `start`: `true` if that is called.
  unfoldable pub begin_start :
      (now : ℕ) (id : String) (has_test : Bool) (model prompt preamble : Option String)
      → (has_runner : Bool) → SubagentRegistry H
      → Result (SubagentRegistry H × Bool)
  unfolding find_object assign_child note_request fail_without_session consume_spawn_budget
  begin_start now id has_test model prompt preamble has_runner g = elim (find_object id g) [
    | none ↦ err (unknown_child id)
    | some (r, c) ↦
        (let noted = assign_child id (note_request has_test model prompt preamble) r g in
          if not has_runner
          then ok (fail_without_session now id "subagent runner is not initialized" noted, false)
          else (let spent = consume_spawn_budget now noted in
              if spent.1
              then ok (spent.0, true)
              else ok
                  (fail_without_session now id "subagent spawn budget exhausted" spent.0, false)))
  ]

  -- The rest of `start_child`, with the handle that the runner returned, the model that it
  -- resolved and whether it says that it runs. The result is settled when its promise resolves.
  unfoldable pub end_start :
      (now : ℕ) (id : String)
      → H
      → (resolved : Option String) (says_running : Bool) → SubagentRegistry H
      → SubagentRegistry H
  unfolding find_object assign_child transition_child
  end_start now id handle resolved says_running g = elim (find_object id g) [
    | none ↦ g
    | some (r, c) ↦
        (let model : Option String = elim resolved [ none ↦ c.model | some m ↦ some m ] in
          let f =
            λ (x : InternalChild H). record x { handle = some (session handle); model = model } in
          let g' = assign_child id f r g in
          if says_running && is_status c.status ChildStatus.pending
          then transition_child now id ChildStatus.running g'
          else if is_some resolved
          then emit (record r { children = update_child id f r.children }) g'
          else g')
  ]

  -- `admit_child` once its slot is granted; `may_start` is the answer of the start test, if there
  -- is one. An error gives the slot back.
  unfoldable pub admit_granted :
      (now : ℕ) (id : String) (may_start : Bool)
      → SubagentRegistry H
      → SubagentRegistry H × Option ℕ × Result (Unit {0})
  unfolding find_object release_slot transition_child
  admit_granted now id may_start g = elim (find_object id g) [
    | none ↦ (let back = release_slot g in (back.0, back.1, err (unknown_child id)))
    | some (r, c) ↦
        if c.should_start && not may_start
        then (let back = release_slot g in (back.0, back.1, err cancelled))
        else (transition_child now id ChildStatus.running g, none, ok tt)
  ]
