-- ===== src/Registry/Queries.antt =====
-- What `SubagentRegistry` of extension/src/subagent/registry.ts answers without a change.
use pi_better_subagents.Prelude.{Bool, Option, none, some, List, map, String, ◌==ₛ◌}
use pi_better_subagents.Prelude.Dict.{get}
use pi_better_subagents.Registry.{
  Handle, InternalRun, RunRecord, SubagentRegistry, snapshot, find_object,
}

abbrev pub lineage : String → String → Bool
lineage run_id_a run_id_b = run_id_a ==ₛ run_id_b

module _ {H : Type 0} where
  unfoldable get_run : String → SubagentRegistry H → Option RunRecord
  unfolding snapshot
  get_run run_id g = elim (get run_id g.runs) [ none ↦ none | some r ↦ some (snapshot r) ]

  unfoldable list_runs : SubagentRegistry H → List RunRecord
  unfolding snapshot
  list_runs g = map (λ (e : String × InternalRun H). snapshot e.1) g.runs

  unfoldable handle : String → SubagentRegistry H → Option (Handle H)
  unfolding find_object
  handle id g = elim (find_object id g) [ none ↦ none | some (r, c) ↦ c.handle ]
