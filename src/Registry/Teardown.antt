-- ===== src/Registry/Teardown.antt =====
-- `finalizeRun`, `disposeRun` and `disposeAll` of extension/src/subagent/registry.ts.
use pi_better_subagents.Prelude.{
  ℕ, ◌-◌, Bool, not, ◌&&◌, Option, none, some, List, [], ◌∷◌, map, String, any, is_some,
  if◌then◌else◌,
}
use pi_better_subagents.Prelude.Dict.{Dict, get, put, delete}
use pi_better_subagents.Subagent.{ChildStatus, ResultStatus, ChildResult, plain_result, is_terminal}
use pi_better_subagents.Registry.{
  Handle, InternalChild, InternalRun, SubagentRegistry, emit, is_status, recompute_run_status,
}

abbrev pub text_of : Option ChildResult → String
text_of none = ""
text_of (some result) = result.text

module _ {H : Type 0} where
  abbrev pub never_submitted : InternalChild H → Bool
  never_submitted c = is_status c.status ChildStatus.pending && not (is_some c.handle)

  -- The loop of `finalize_run` over the children of a run.
  unfoldable pub finalize_children : ℕ → String → List (InternalChild H) → List (InternalChild H)
  finalize_children now error [] = []
  finalize_children now error (c ∷ cs) =
      (if never_submitted c
        then (record c {
          status = ChildStatus.interrupted;
          result = some (plain_result ResultStatus.interrupted "" (some error) 0);
          ended_at = some now;
        })
        else c)
      ∷ finalize_children now error cs

  unfoldable pub finalize_run : ℕ → String → String → SubagentRegistry H → SubagentRegistry H
  unfolding finalize_children recompute_run_status emit
  finalize_run now run_id error g = elim (get run_id g.runs) [
    | none ↦ g
    | some r ↦
        if any never_submitted r.children
        then (let r' =
              recompute_run_status
                (record r { children = finalize_children now error r.children }) in
            emit r' (record g { runs = put run_id r' g.runs }))
        else g
  ]

  -- The loop of `dispose_run` over the children of a run.
  unfoldable pub interrupt_children : ℕ → List (InternalChild H) → List (InternalChild H)
  interrupt_children now [] = []
  interrupt_children now (c ∷ cs) =
      (if is_terminal c.status then c else (record c {
        status = ChildStatus.interrupted;
        ended_at = some now;
        result = some (
            plain_result ResultStatus.interrupted (text_of c.result) (some "disposed")
              (now - c.started_at));
      }))
      ∷ interrupt_children now cs

  unfoldable pub delete_children : List (InternalChild H) → Dict String → Dict String
  delete_children [] m = m
  delete_children (c ∷ cs) m = delete_children cs (delete c.child_id m)

  -- The handles of the run are interrupted and disposed of: they are returned.
  unfoldable pub dispose_run :
      ℕ → String → SubagentRegistry H → SubagentRegistry H × List (Option (Handle H))
  unfolding interrupt_children delete_children recompute_run_status emit
  dispose_run now run_id g = elim (get run_id g.runs) [
    | none ↦ (g, [])
    | some r ↦
        (let r' =
            recompute_run_status (record r { children = interrupt_children now r.children }) in
          let g' = emit r' (record g { runs = put run_id r' g.runs }) in
          (
            record g' {
              runs = delete run_id g'.runs;
              children = delete_children r'.children g'.children;
            },
            map (λ (c : InternalChild H). c.handle) r'.children,
          ))
  ]

  unfoldable pub dispose_ids : ℕ → List String → SubagentRegistry H → SubagentRegistry H
  unfolding dispose_run
  dispose_ids now [] g = g
  dispose_ids now (id ∷ ids) g = dispose_ids now ids (dispose_run now id g).0

  unfoldable pub dispose_all : ℕ → SubagentRegistry H → SubagentRegistry H
  unfolding dispose_ids
  dispose_all now g = dispose_ids now (map (λ (e : String × InternalRun H). e.0) g.runs) g
