-- ===== src/Registry/Disposal.antt =====
-- `disposeRun` of extension/src/subagent/registry.ts.
use pi_better_subagents.Prelude.{
  ℕ, ◌≡◌, refl, sym, subst, ◌∙◌, ◌≢◌, true, none, some, List, [], ◌∷◌, ◌++◌, map, String, eq_refl,
  All, if_cases, inl, inr, arith,
}
use pi_better_subagents.Prelude.Dict.{Dict, get, put, delete, get-delete}
use pi_better_subagents.Subagent.{is_terminal}
use pi_better_subagents.Registry.{
  InternalChild, InternalRun, RunState, SubagentRegistry, run_state, recompute_run_status, emit,
  snapshot, snapshot_child, RunRecord,
}
use pi_better_subagents.Registry.Teardown.{interrupt_children, delete_children, dispose_run}
use pi_better_subagents.Registry.RunStatus.{Says, run_state-Says, AllEnded}

-- The record of a run in which every child has ended.
pub record IsLastRecord (run_id : String) (r : RunRecord) : Type 0 where
  pub of_run : r.run_id ≡ run_id
  pub all_ended : All (λ c. is_terminal c.status ≡ true) r.children
  pub not_running : r.children ≢ [] → r.status ≢ RunState.running

module _ {H : Type 0} where
  interrupt-AllEnded :
      (now : ℕ) (cs : List (InternalChild H)) → AllEnded (interrupt_children now cs)
  unfolding interrupt_children
  interrupt-AllEnded now [] = tt
  interrupt-AllEnded now (c ∷ cs) =
      let rest = interrupt-AllEnded now cs in
      (
        if_cases (λ (x : InternalChild H). is_terminal x.status ≡ true) (is_terminal c.status)
            (λ ended. ended) (λ live. refl),
        rest,
      )

  ended_not_running :
      (c : InternalChild H) (cs : List (InternalChild H))
      → AllEnded (c ∷ cs)
      → run_state (c ∷ cs) ≢ RunState.running
  ended_not_running c cs ended e =
      let says = subst (λ s. Says s (c ∷ cs)) e (run_state-Says (c ∷ cs)) in
      elim says [ inl none_there ↦ cc | inr open_one ↦ open_one ended ]

  map-AllEnded :
      (cs : List (InternalChild H))
      → AllEnded cs
      → All (λ c. is_terminal c.status ≡ true) (map snapshot_child cs)
  unfolding snapshot_child
  map-AllEnded [] h = tt
  map-AllEnded (c ∷ cs) (h, hs) = (h, map-AllEnded cs hs)

  last_record :
      (r : InternalRun H) (cs : List (InternalChild H))
      → AllEnded cs
      → IsLastRecord r.run_id (snapshot (recompute_run_status (record r { children = cs })))
  unfolding snapshot recompute_run_status
  last_record r cs h = record {
    of_run = refl;
    all_ended = map-AllEnded cs h;
    not_running = not_running cs h;
  }
    where
      not_running :
          (cs : List (InternalChild H))
          → AllEnded cs
          → map snapshot_child cs ≢ []
          → run_state cs ≢ RunState.running
      not_running [] h some_there = absurd (some_there refl)
      not_running (c ∷ cs) h some_there = ended_not_running c cs h

  get-delete_children :
      (id : String) (cs : List (InternalChild H)) (m : Dict String)
      → get id m ≡ none
      → get id (delete_children cs m) ≡ none
  unfolding delete_children
  get-delete_children id [] m h = h
  get-delete_children id (c ∷ cs) m h =
      get-delete_children id cs (delete c.child_id m) (ground (arith, get-delete c.child_id id m))

  children_gone :
      (cs : List (InternalChild H)) (m : Dict String)
      → All (λ c. get c.child_id (delete_children cs m) ≡ none) cs
  unfolding delete_children
  children_gone [] m = tt
  children_gone (c ∷ cs) m = (
    get-delete_children c.child_id cs (delete c.child_id m)
        (get-delete c.child_id c.child_id m ∙ rw (eq_refl c.child_id)),
    children_gone cs (delete c.child_id m),
  )

  delete-interrupt_children :
      (now : ℕ) (cs : List (InternalChild H)) (m : Dict String)
      → delete_children (interrupt_children now cs) m ≡ delete_children cs m
  unfolding delete_children interrupt_children
  delete-interrupt_children now [] m = refl
  delete-interrupt_children now (c ∷ cs) m =
      if_cases
        (λ (x : InternalChild H).
          delete_children (interrupt_children now cs) (delete x.child_id m)
          ≡ delete_children cs (delete c.child_id m))
        (is_terminal c.status) (λ ended. delete-interrupt_children now cs (delete c.child_id m))
        (λ live. delete-interrupt_children now cs (delete c.child_id m))

  -- When a run is disposed of while it is observed, exactly one record more is emitted, of that
  -- run, in which every child has ended and the run is not running if it has children; and
  -- afterwards neither the run nor any child of it can be looked up.
  pub dispose_run-emitted :
      (now : ℕ) (run_id : String) (g : SubagentRegistry H) (r : InternalRun H)
      → g.observed ≡ true
      → get run_id g.runs ≡ some r
      → (last : RunRecord) × ((dispose_run now run_id g).0.emitted ≡ g.emitted ++ last ∷ [])
        × IsLastRecord r.run_id last
        × (get run_id (dispose_run now run_id g).0.runs ≡ none)
        × All (λ c. get c.child_id (dispose_run now run_id g).0.children ≡ none) r.children
  unfolding dispose_run emit recompute_run_status
  dispose_run-emitted now run_id g r watched found =
      let cs = interrupt_children now r.children in
      let r' = recompute_run_status (record r { children = cs }) in
      let gone =
        subst (λ m. All (λ (c : InternalChild H). get c.child_id m ≡ none) r.children)
          (sym (delete-interrupt_children now r.children g.children))
          (children_gone r.children g.children) in
      let after : (dispose_run now run_id g).0.children ≡ delete_children cs g.children =
        ground arith in
      (
        snapshot r',
        ground arith,
        last_record r cs (interrupt-AllEnded now r.children),
        ground (arith, get-delete run_id run_id (put run_id r' g.runs), eq_refl run_id),
        subst (λ m. All (λ (c : InternalChild H). get c.child_id m ≡ none) r.children) (sym after)
            gone,
      )
