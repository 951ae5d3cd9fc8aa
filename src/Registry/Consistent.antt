-- ===== src/Registry/Consistent.antt =====
-- The status of each run of extension/src/subagent/registry.ts, and the methods that change it.
use pi_better_subagents.Prelude.{
  ℕ, ◌≡◌, refl, sym, subst, ◌∙◌, Bool, true, false, not, ◌&&◌, Option, none, some, List, [], ◌∷◌,
  ◌++◌, String, eq_iff, any, is_some, if_both, Option-cases, inl, inr, arith,
}
use pi_better_subagents.Prelude.Dict.{Dict, get, put, delete, get-put, get-delete}
use pi_better_subagents.Subagent.{ChildStatus, ChildResult, ResultStatus, plain_result, is_terminal}
use pi_better_subagents.Registry.{
  Kind, session, InternalChild, InternalRun, RunState, SubagentRegistry, Result, ok, err, is_status,
  run_state, update_child, find_object, commit_child, assign_child, recompute_run_status, emit,
}
use pi_better_subagents.Registry.Ops.{
  create_run, add_child, consume_spawn_budget, release_slot, settle_child, transition_child,
  set_result, set_status,
}
use pi_better_subagents.Registry.Start.{
  fail_without_session, note_request, begin_start, end_start, admit_granted,
}
use pi_better_subagents.Registry.Teardown.{never_submitted, finalize_run, dispose_run}
use pi_better_subagents.Registry.Children.{find_object-get, run_state-update_child}

module _ {H : Type 0} where
  -- A run stands under its own id, with the status that its children give it.
  abbrev pub IsConsistentRun : String → InternalRun H → Type 0
  IsConsistentRun k r = (r.run_id ≡ k) × (r.status ≡ run_state r.children)

  abbrev pub AreConsistent : Dict (InternalRun H) → Type 0
  AreConsistent runs = (k : String) (r : InternalRun H) → get k runs ≡ some r → IsConsistentRun k r

  put-AreConsistent :
      (k : String) (r : InternalRun H) (runs : Dict (InternalRun H))
      → IsConsistentRun k r
      → AreConsistent runs
      → AreConsistent (put k r runs)
  put-AreConsistent k r runs new_one old j s e =
      ground (arith, get-put k j r runs, eq_iff k j, old j s)

  delete-AreConsistent :
      (k : String) (runs : Dict (InternalRun H))
      → AreConsistent runs
      → AreConsistent (delete k runs)
  delete-AreConsistent k runs old j s e = ground (arith, get-delete k j runs, old j s)

  emit-runs : (r : InternalRun H) (g : SubagentRegistry H) → (emit r g).runs ≡ g.runs
  unfolding emit
  emit-runs r g = ground arith

  -- The changes of a registry that keep this.
  abbrev pub Keeps : SubagentRegistry H → SubagentRegistry H → Type 0
  Keeps g g' = AreConsistent g.runs → AreConsistent g'.runs

  commit_child-Keeps :
      (id : String) (f : InternalChild H → InternalChild H) (r : InternalRun H)
      → (g : SubagentRegistry H) → Keeps g (commit_child id f r g)
  unfolding commit_child recompute_run_status
  commit_child-Keeps id f r g old =
      rw emit-runs (put-AreConsistent r.run_id _ g.runs (refl, refl) old)

  assign_child-Keeps :
      (id k : String) (f : InternalChild H → InternalChild H) (r : InternalRun H)
      → (g : SubagentRegistry H) → get k g.runs ≡ some r
      → ((c : InternalChild H) → (f c).status ≡ c.status)
      → Keeps g (assign_child id f r g)
  unfolding assign_child
  assign_child-Keeps id k f r g found same old =
      put-AreConsistent r.run_id (record r { children = update_child id f r.children }) g.runs
        (refl, (old k r found).1 ∙ sym (run_state-update_child id f r.children same)) old

  pub settle_child-Keeps :
      (now : ℕ) (id : String) (result : ChildResult) (g : SubagentRegistry H)
      → Keeps g (settle_child now id result g)
  unfolding settle_child
  settle_child-Keeps now id result g old = elim (Option-cases (find_object id g)) [
    | inl missing ↦ rw (missing, settle_child) old
    | inr ((r, c), found) ↦
        rw (found, settle_child)
          (if_both (λ (g' : SubagentRegistry H). AreConsistent g'.runs) (is_terminal c.status) old
            (commit_child-Keeps id (set_result now result) r g old))
  ]

  transition_child-Keeps :
      (now : ℕ) (id : String) (status : ChildStatus) (g : SubagentRegistry H)
      → Keeps g (transition_child now id status g)
  unfolding transition_child
  transition_child-Keeps now id status g old = elim (Option-cases (find_object id g)) [
    | inl missing ↦ rw (missing, transition_child) old
    | inr ((r, c), found) ↦
        rw (found, transition_child)
          (if_both (λ (g' : SubagentRegistry H). AreConsistent g'.runs) (is_status c.status status)
            old (commit_child-Keeps id (set_status now status) r g old))
  ]

  pub create_run-Keeps :
      (now : ℕ) (id : String) (kind : Kind) (g : SubagentRegistry H)
      → Keeps g (create_run now id kind g).0
  unfolding create_run run_state
  create_run-Keeps now id kind g old = rw emit-runs (put-AreConsistent id _ g.runs (refl, refl) old)

  -- A pending child keeps a run that is running as it is.
  any-append :
      (p : InternalChild H → Bool) (cs : List (InternalChild H)) (c : InternalChild H)
      → p c ≡ true
      → any p (cs ++ c ∷ []) ≡ true
  any-append p [] c h = ground arith
  any-append p (x ∷ cs) c h = ground (arith, any-append p cs c h)

  run_state-append :
      (cs : List (InternalChild H)) (c : InternalChild H)
      → is_terminal c.status ≡ false
      → run_state (cs ++ c ∷ []) ≡ RunState.running
  unfolding run_state
  run_state-append [] c h = ground arith
  run_state-append (x ∷ cs) c h =
      ground (arith, any-append (λ y. not (is_terminal y.status)) (x ∷ cs) c (ground arith))

  abbrev pub result_runs : SubagentRegistry H → Result (SubagentRegistry H) → SubagentRegistry H
  result_runs g (ok g') = g'
  result_runs g (err e) = g

  -- The tool adds children before any is started: the run is still running.
  abbrev pub IsOpen : String → SubagentRegistry H → Type 0
  IsOpen run_id g = (r : InternalRun H) → get run_id g.runs ≡ some r → r.status ≡ RunState.running

  pub add_child-Keeps :
      (now : ℕ) (id run_id name agent : String) (g : SubagentRegistry H)
      → IsOpen run_id g
      → Keeps g (result_runs g (add_child now id run_id name agent g))
  unfolding add_child
  add_child-Keeps now id run_id name agent g is_open old = elim (Option-cases (get run_id g.runs)) [
    | inl missing ↦ rw (missing, add_child) old
    | inr (r, found) ↦
        rw (found, add_child)
          (rw emit-runs (
            put-AreConsistent run_id _ g.runs
              ((old run_id r found).0, is_open r found ∙ sym (run_state-append r.children _ refl))
              old))
  ]

  fail_without_session-Keeps :
      (now : ℕ) (id error : String) (g : SubagentRegistry H)
      → Keeps g (fail_without_session now id error g)
  unfolding fail_without_session
  fail_without_session-Keeps now id error g old = elim (Option-cases (find_object id g)) [
    | inl missing ↦ rw (missing, fail_without_session) old
    | inr ((r, c), found) ↦
        let (k, _, at, _) = find_object-get id g r c found in
        rw (found, fail_without_session)
          (settle_child-Keeps now id (plain_result ResultStatus.failed "" (some error) 0) _
            (assign_child-Keeps id k _ r g at (λ x. refl) old))
  ]

  consume-runs : (now : ℕ) (g : SubagentRegistry H) → (consume_spawn_budget now g).0.runs ≡ g.runs
  unfolding consume_spawn_budget
  consume-runs now g = ground arith

  release-runs : (g : SubagentRegistry H) → (release_slot g).0.runs ≡ g.runs
  unfolding release_slot
  release-runs g = ground arith

  abbrev pub started_runs :
      SubagentRegistry H → Result (SubagentRegistry H × Bool) → SubagentRegistry H
  started_runs g (ok (g', called)) = g'
  started_runs g (err e) = g

  pub begin_start-Keeps :
      (now : ℕ) (id : String) (has_test : Bool) (model prompt preamble : Option String)
      → (has_runner : Bool) (g : SubagentRegistry H)
      → Keeps g (started_runs g (begin_start now id has_test model prompt preamble has_runner g))
  unfolding begin_start note_request
  begin_start-Keeps now id has_test model prompt preamble has_runner g old =
      elim (Option-cases (find_object id g)) [
        | inl missing ↦ rw (missing, begin_start) old
        | inr ((r, c), found) ↦
            let (k, _, at, _) = find_object-get id g r c found in
            let noted = assign_child id (note_request has_test model prompt preamble) r g in
            let kept =
              assign_child-Keeps id k (note_request has_test model prompt preamble) r g at
                (λ x. refl) old in
            let spent = subst AreConsistent (sym (consume-runs now noted)) kept in
            let P =
              λ (x : Result (SubagentRegistry H × Bool)). AreConsistent (started_runs g x).runs in
            rw (found, begin_start)
              (if_both P (not has_runner)
                (fail_without_session-Keeps now id "subagent runner is not initialized" noted kept)
                (if_both P (consume_spawn_budget now noted).1 spent (
                  fail_without_session-Keeps now id "subagent spawn budget exhausted"
                    (consume_spawn_budget now noted).0 spent)))
      ]

  pub end_start-Keeps :
      (now : ℕ) (id : String) (handle : H) (resolved : Option String) (says_running : Bool)
      → (g : SubagentRegistry H) → Keeps g (end_start now id handle resolved says_running g)
  unfolding end_start
  end_start-Keeps now id handle resolved says_running g old =
      elim (Option-cases (find_object id g)) [
        | inl missing ↦ rw (missing, end_start) old
        | inr ((r, c), found) ↦
            let (k, _, at, _) = find_object-get id g r c found in
            let model : Option String = elim resolved [ none ↦ c.model | some m ↦ some m ] in
            let f =
              λ (x : InternalChild H). record x { handle = some (session handle); model = model } in
            let g' = assign_child id f r g in
            let kept = assign_child-Keeps id k f r g at (λ x. refl) old in
            let P = λ (x : SubagentRegistry H). AreConsistent x.runs in
            rw (found, end_start)
              (if_both P (says_running && is_status c.status ChildStatus.pending)
                (transition_child-Keeps now id ChildStatus.running g' kept)
                (if_both P (is_some resolved) (rw emit-runs kept) kept))
      ]

  pub admit_granted-Keeps :
      (now : ℕ) (id : String) (may_start : Bool) (g : SubagentRegistry H)
      → Keeps g (admit_granted now id may_start g).0
  unfolding admit_granted
  admit_granted-Keeps now id may_start g old = elim (Option-cases (find_object id g)) [
    | inl missing ↦ rw (missing, admit_granted) (rw release-runs old)
    | inr ((r, c), found) ↦
        rw (found, admit_granted)
          (if_both
            (λ (x : SubagentRegistry H × Option ℕ × Result (Unit {0})). AreConsistent x.0.runs)
            (c.should_start && not may_start) (rw release-runs old)
            (transition_child-Keeps now id ChildStatus.running g old))
  ]

  pub finalize_run-Keeps :
      (now : ℕ) (run_id error : String) (g : SubagentRegistry H)
      → Keeps g (finalize_run now run_id error g)
  unfolding finalize_run recompute_run_status
  finalize_run-Keeps now run_id error g old = elim (Option-cases (get run_id g.runs)) [
    | inl missing ↦ rw (missing, finalize_run) old
    | inr (r, found) ↦
        rw (found, finalize_run)
          (if_both (λ (g' : SubagentRegistry H). AreConsistent g'.runs)
            (any never_submitted r.children)
            (rw emit-runs (put-AreConsistent run_id _ g.runs ((old run_id r found).0, refl) old))
            old)
  ]

  pub dispose_run-Keeps :
      (now : ℕ) (run_id : String) (g : SubagentRegistry H) → Keeps g (dispose_run now run_id g).0
  unfolding dispose_run recompute_run_status
  dispose_run-Keeps now run_id g old = elim (Option-cases (get run_id g.runs)) [
    | inl missing ↦ rw (missing, dispose_run) old
    | inr (r, found) ↦
        rw (found, dispose_run)
          (rw emit-runs (
            delete-AreConsistent run_id _
              (put-AreConsistent run_id _ g.runs ((old run_id r found).0, refl) old)))
  ]
