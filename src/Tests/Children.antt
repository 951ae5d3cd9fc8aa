-- ===== src/Tests/Children.antt =====
-- The theorems on a child of extension/src/subagent/runner.ts at a concrete history.
use pi_better_subagents.Prelude.{
  ◌+◌, ◌≡◌, refl, ◌&&◌, ◌||◌, true, false, none, some, List, [], ◌∷◌, is_some,
}
use pi_better_subagents.Subagent.{is_terminal}
use pi_better_subagents.Runner.{Options, Session, settle}
use pi_better_subagents.Runner
use pi_better_subagents.Runner.Activity.{on_tool_start}
use pi_better_subagents.Runner.Begin.{
  launch, begin_generation, on_admission, answer_admission, admitted, on_created,
}
use pi_better_subagents.Runner.Lifecycle.{on_prompt_error, resume, begin_turn, dispose}
use pi_better_subagents.Runner.Turns.{core, resolve_count, expected, to_ℕ}
use pi_better_subagents.Runner.History.{
  Event, answers, creates, prompt_fails, resumes, tool_starts, disposes, AreAlone, step, run,
  run-resolved, run-released,
}

abbrev options : Options
options = record {
  stall_ms = 100;
  stall_retries = 1;
  stall_retry_delay_ms = 10;
  timeout_ms = 1000;
  has_acquire = true;
}

abbrev session : Session
session = record { resolved_model = some "model"; warning = none }

-- The first turn gets its slot and fails at its prompt; the second one gets a slot and is cut off.
abbrev two_turns : List Event
two_turns =
    answers 3 none ""
    ∷ creates 5 (some session) "" ""
    ∷ tool_starts
    ∷ prompt_fails 8 1 "refused" ""
    ∷ resumes 20 "again" ""
    ∷ answers 25 none ""
    ∷ disposes 30
    ∷ []

two_turns-AreAlone : AreAlone options (launch options 0 "go" "" (Runner.new 0)) two_turns
unfolding AreAlone step launch begin_generation on_admission answer_admission admitted on_created
    on_tool_start on_prompt_error Runner.new settle
two_turns-AreAlone = (tt, (tt, (tt, (tt, (refl, (tt, (tt, tt)))))))

two_slots : (run options (launch options 0 "go" "" (Runner.new 0)) two_turns).granted ≡ 2
unfolding run step launch begin_generation on_admission answer_admission admitted on_created
    on_tool_start on_prompt_error Runner.new settle resume begin_turn dispose
two_slots = refl

run-resolved_example :
    (resolve_count 0 (run options (launch options 0 "go" "" (Runner.new 0)) two_turns).resolved
      ≡ expected 0 (core (run options (launch options 0 "go" "" (Runner.new 0)) two_turns)))
    × (is_terminal (run options (launch options 0 "go" "" (Runner.new 0)) two_turns).status
        ≡ (run options (launch options 0 "go" "" (Runner.new 0)) two_turns).settled_flag)
run-resolved_example = run-resolved options 0 "go" "" two_turns 0 two_turns-AreAlone

run-released_example :
    ((run options (launch options 0 "go" "" (Runner.new 0)) two_turns).granted
      ≡ (run options (launch options 0 "go" "" (Runner.new 0)) two_turns).released
        + to_ℕ (run options (launch options 0 "go" "" (Runner.new 0)) two_turns).holds_slot)
    × (((run options (launch options 0 "go" "" (Runner.new 0)) two_turns).settled_flag
          && ((run options (launch options 0 "go" "" (Runner.new 0)) two_turns).holds_slot
              || is_some
                  (run options (launch options 0 "go" "" (Runner.new 0)) two_turns).timer_scope))
        ≡ false)
run-released_example = run-released options 0 "go" "" two_turns two_turns-AreAlone
