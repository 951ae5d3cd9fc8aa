-- ===== src/Tests/Work.antt =====
-- The theorems on extension/src/work-index.ts and the model specs at concrete inputs.
use pi_better_subagents.Prelude.{
  ◌++◌, ◌+◌, ◌==ₛ◌, if◌then◌else◌, false, ◌<◌, ◌≤◌, ◌≡◌, ◌≢◌, refl, ◌||◌, true, none, some, List,
  [], ◌∷◌, count_if, any, All, leb, arith,
}
use pi_better_subagents.Prelude.Dict.{get, put, delete}
use pi_better_subagents.Work.{shell, agent, WorkItem, new, values, is_active, ended, upsert, prune}
use pi_better_subagents.Work.Retention.{is_finished}
use pi_better_subagents.Work.History.{Event, upserts, run, step, run-bounded, upsert-live}
use pi_better_subagents.Work.Ages.{format_age, next_age_boundary, format_age-next_age_boundary}
use pi_better_subagents.Batching.Lines.{Text}
use pi_better_subagents.Subagent.Models.{
  ModelCandidate, resolved, label, is_qualified, resolve_model_spec,
}
use pi_better_subagents.Subagent.Models.Qualified.{resolve-listed}
use pi_better_subagents.Subagent.Models.Labels.{suffix_text, thinking_of, xhigh, resolve-label}

abbrev build : WorkItem
build = record {
  id = "build";
  kind = shell;
  status = "running";
  started_at = 10;
  ended_at = none;
  counts_as_worker = true;
}

abbrev first_done : WorkItem
first_done = record {
  id = "first";
  kind = agent;
  status = "completed";
  started_at = 5;
  ended_at = some 20;
  counts_as_worker = false;
}

abbrev second_done : WorkItem
second_done = record first_done { id = "second"; ended_at = some 30 }

-- One more item is finished than the index keeps.
abbrev inserted : List Event
inserted = upserts 10 build ∷ upserts 20 first_done ∷ upserts 30 second_done ∷ []

run-bounded_example : count_if is_finished (values (run (new 100 1) inserted).items) ≤ 1
run-bounded_example = run-bounded 100 1 inserted

build_stored :
    (if "first" ==ₛ "build" then some first_done else get "build" (run (new 100 1) inserted).items)
    ≡ some build
unfolding run step upsert prune get put delete
build_stored = refl

upsert-live_example :
    (get "build" (upsert 40 first_done (run (new 100 1) inserted)).items ≡ some build)
    × All
        (λ z. (is_active z || leb 40 (ended z + 100)) ≡ true)
        (values (upsert 40 first_done (run (new 100 1) inserted)).items)
upsert-live_example = upsert-live 100 1 inserted 40 first_done "build" build build_stored refl

before_boundary : 61499 < next_age_boundary 60700 0
unfolding next_age_boundary
before_boundary = omega arith

format_age-next_age_boundary_example :
    (format_age 0 none 61499 ≡ format_age 0 none 60700)
    × (format_age 0 none (next_age_boundary 60700 0) ≢ format_age 0 none 60700)
format_age-next_age_boundary_example =
    format_age-next_age_boundary 0 60700 61499 (omega arith) (omega arith) (omega arith)
      (omega arith) before_boundary

abbrev same : Text → Text
same text = text

abbrev candidate : ModelCandidate
candidate = record { provider = 97 ∷ 98 ∷ []; id = 49 ∷ 58 ∷ 50 ∷ []; name = none }

resolve-label_example :
    resolve_model_spec same (label candidate ++ suffix_text (some xhigh)) (candidate ∷ [])
    ≡ resolved candidate.provider candidate.id (thinking_of (some xhigh))
resolve-label_example =
    resolve-label same candidate (some xhigh) (candidate ∷ []) (λ t. refl) (refl, refl)
      (λ e. absurd (ground (arith, e))) refl (omega arith) (omega arith) refl

resolve-listed_example :
    any (is_qualified (candidate.provider, candidate.id)) (candidate ∷ []) ≡ true
resolve-listed_example =
    resolve-listed same (label candidate ++ suffix_text (some xhigh)) (candidate ∷ [])
      candidate.provider candidate.id (thinking_of (some xhigh)) resolve-label_example
