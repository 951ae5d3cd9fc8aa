-- ===== src/Registry/History.antt =====
-- The registry of extension/src/subagent/registry.ts over a history of calls.
use pi_better_subagents.Prelude.{
  ℕ, ◌≡◌, refl, sym, subst, ◌∙◌, Bool, true, Option, none, some, List, [], ◌∷◌, String, eq_refl,
  if◌then◌else◌, if_cases, Option-cases, inl, inr, arith,
}
use pi_better_subagents.Prelude.Dict.{get, put, get-put}
use pi_better_subagents.Subagent.{ResultStatus, to_status, ChildResult, is_terminal}
use pi_better_subagents.Registry.{
  Kind, InternalChild, InternalRun, SubagentRegistry, find_object, commit_child, update_child,
  recompute_run_status, emit,
}
use pi_better_subagents.Registry.Ops.{new, create_run, add_child, settle_child, set_result}
use pi_better_subagents.Registry.Start.{begin_start, end_start, admit_granted}
use pi_better_subagents.Registry.Teardown.{finalize_run, dispose_run}
use pi_better_subagents.Registry.Children.{
  find_object-get, find_object_of_get, find_in-update_child,
}
use pi_better_subagents.Registry.Consistent.{
  AreConsistent, IsOpen, result_runs, started_runs, create_run-Keeps, add_child-Keeps,
  begin_start-Keeps, end_start-Keeps, admit_granted-Keeps, settle_child-Keeps, finalize_run-Keeps,
  dispose_run-Keeps,
}

-- A call of the registry, or a promise of the runner that resolves.
pub data Call (H : Type 0) : Type 0 where
  creates : (now : ℕ) (id : String) → Kind → Call H
  adds : (now : ℕ) (id run_id name agent : String) → Call H
  begins :
      (now : ℕ) (id : String) (has_test : Bool) (model prompt preamble : Option String)
      → (has_runner : Bool) → Call H
  ends : (now : ℕ) (id : String) → H → (resolved : Option String) (says_running : Bool) → Call H
  admits : (now : ℕ) (id : String) (may_start : Bool) → Call H
  settles : (now : ℕ) (id : String) → ChildResult → Call H
  finalizes : (now : ℕ) (run_id error : String) → Call H
  disposes : (now : ℕ) (run_id : String) → Call H

module _ {H : Type 0} where
  unfoldable pub step : SubagentRegistry H → Call H → SubagentRegistry H
  step g (creates now id kind) = (create_run now id kind g).0
  step g (adds now id run_id name agent) = result_runs g (add_child now id run_id name agent g)
  step g (begins now id has_test model prompt preamble has_runner) =
      started_runs g (begin_start now id has_test model prompt preamble has_runner g)
  step g (ends now id handle resolved says_running) =
      end_start now id handle resolved says_running g
  step g (admits now id may_start) = (admit_granted now id may_start g).0
  step g (settles now id result) = settle_child now id result g
  step g (finalizes now run_id error) = finalize_run now run_id error g
  step g (disposes now run_id) = (dispose_run now run_id g).0

  pub run : SubagentRegistry H → List (Call H) → SubagentRegistry H
  run g [] = g
  run g (c ∷ cs) = run (step g c) cs

  -- Children are added to runs that are still running, as the tool does.
  abbrev pub AddsOpen : SubagentRegistry H → Call H → Type 0
  AddsOpen g (adds now id run_id name agent) = IsOpen run_id g
  AddsOpen g _ = Unit

  unfoldable pub AllAddOpen : SubagentRegistry H → List (Call H) → Type 0
  AllAddOpen g [] = Unit
  AllAddOpen g (c ∷ cs) = AddsOpen g c × AllAddOpen (step g c) cs

  step-AreConsistent :
      (g : SubagentRegistry H) (c : Call H)
      → AddsOpen g c
      → AreConsistent g.runs
      → AreConsistent (step g c).runs
  unfolding step
  step-AreConsistent g (creates now id kind) h old = create_run-Keeps now id kind g old
  step-AreConsistent g (adds now id run_id name agent) h old =
      add_child-Keeps now id run_id name agent g h old
  step-AreConsistent g (begins now id has_test model prompt preamble has_runner) h old =
      begin_start-Keeps now id has_test model prompt preamble has_runner g old
  step-AreConsistent g (ends now id handle resolved says_running) h old =
      end_start-Keeps now id handle resolved says_running g old
  step-AreConsistent g (admits now id may_start) h old = admit_granted-Keeps now id may_start g old
  step-AreConsistent g (settles now id result) h old = settle_child-Keeps now id result g old
  step-AreConsistent g (finalizes now run_id error) h old =
      finalize_run-Keeps now run_id error g old
  step-AreConsistent g (disposes now run_id) h old = dispose_run-Keeps now run_id g old

  pub run_from-AreConsistent :
      (g : SubagentRegistry H) (cs : List (Call H))
      → AllAddOpen g cs
      → AreConsistent g.runs
      → AreConsistent (run g cs).runs
  unfolding run AllAddOpen
  run_from-AreConsistent g [] h old = old
  run_from-AreConsistent g (c ∷ cs) (open_add, h) old =
      run_from-AreConsistent (step g c) cs h (step-AreConsistent g c open_add old)

-- Over any history of a new registry in which children are added to running runs only, every run
-- stands under its own id and its status is the one that its children give it.
pub run-AreConsistent :
    (H : Type 0) (max_children budget : ℕ) (cs : List (Call H))
    → AllAddOpen (new max_children budget true) cs
    → AreConsistent (run (new max_children budget true) cs).runs
run-AreConsistent H max_children budget cs h =
    run_from-AreConsistent (new max_children budget true) cs h
      (unfold new get in λ k r e. absurd (ground arith))

terminal_status : (s : ResultStatus) → is_terminal (to_status s) ≡ true
terminal_status ResultStatus.completed = refl
terminal_status ResultStatus.failed = refl
terminal_status ResultStatus.interrupted = refl

module _ {H : Type 0} where
  emit-objects :
      (r : InternalRun H) (g : SubagentRegistry H)
      → ((emit r g).runs ≡ g.runs) × ((emit r g).children ≡ g.children)
  unfolding emit
  emit-objects r g = ground arith

  -- A child that was settled is found terminal.
  find_object-commit :
      (now : ℕ) (id : String) (result : ChildResult) (g : SubagentRegistry H)
      → (r : InternalRun H) (c : InternalChild H) → AreConsistent g.runs
      → find_object id g ≡ some (r, c)
      → (r' : InternalRun H) × (find_object id (commit_child id (set_result now result) r g)
          ≡ some (r', set_result now result c))
  unfolding commit_child
  find_object-commit now id result g r c old found =
      let (k, owner, at, inside) = find_object-get id g r c found in
      let r' =
        recompute_run_status
          (record r { children = update_child id (set_result now result) r.children }) in
      let stored = record g { runs = put r.run_id r' g.runs } in
      let same = emit-objects r' stored in
      (
        r',
        find_object_of_get id k (emit r' stored) r' (set_result now result c) (rw same.1 owner)
            (rw same.0 (get-put r.run_id k r' g.runs ∙ rw (old k r at).0 (rw (eq_refl k))))
            (unfold recompute_run_status in
              find_in-update_child id (set_result now result) r.children c inside refl),
      )

  settle_terminal :
      (now : ℕ) (id : String) (result : ChildResult) (g : SubagentRegistry H)
      → (r : InternalRun H) (c : InternalChild H) → find_object id g ≡ some (r, c)
      → is_terminal c.status ≡ true
      → settle_child now id result g ≡ g
  unfolding settle_child
  settle_terminal now id result g r c found ended = rw (found, settle_child) (rw ended)

  settle_missing :
      (now : ℕ) (id : String) (result : ChildResult) (g : SubagentRegistry H)
      → find_object id g ≡ none
      → settle_child now id result g ≡ g
  unfolding settle_child
  settle_missing now id result g missing = rw (missing, settle_child)

  settle_found :
      (now : ℕ) (id : String) (result : ChildResult) (g : SubagentRegistry H)
      → (r : InternalRun H) (c : InternalChild H) → find_object id g ≡ some (r, c)
      → settle_child now id result g
        ≡ (if is_terminal c.status then g else commit_child id (set_result now result) r g)
  unfolding settle_child
  settle_found now id result g r c found = rw (found, settle_child)

  -- The first result of a child counts: once a child is settled, in a registry whose runs are
  -- consistent, a second result changes nothing and nobody is told of it.
  pub settle_child-settle_child :
      (now later : ℕ) (id : String) (first second : ChildResult) (g : SubagentRegistry H)
      → AreConsistent g.runs
      → settle_child later id second (settle_child now id first g) ≡ settle_child now id first g
  settle_child-settle_child now later id first second g old =
      let P = λ (x : SubagentRegistry H). settle_child later id second x ≡ x in
      elim (Option-cases (find_object id g)) [
        | inl missing ↦
            subst P (sym (settle_missing now id first g missing))
              (settle_missing later id second g missing)
        | inr ((r, c), found) ↦ subst P (sym (settle_found now id first g r c found)) (
            if_cases P (is_terminal c.status)
              (λ ended. settle_terminal later id second g r c found ended)
              (λ live.
                let (r', settled) = find_object-commit now id first g r c old found in
                settle_terminal later id second (commit_child id (set_result now first) r g) r'
                  (set_result now first c) settled (terminal_status first.status)))
      ]
