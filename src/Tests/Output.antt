-- ===== src/Tests/Output.antt =====
-- The theorems on extension/src/monitor-batching.ts at concrete output, samples and requests.
use pi_better_subagents.Prelude.{
  ℕ, ◌+◌, ◌*◌, ◌≤◌, ◌≡◌, refl, true, List, [], ◌∷◌, ◌++◌, keep, All, arith,
}
use mathlib.Core.List.{flatten}
use pi_better_subagents.Batching.Lines.{Text, newline, split}
use pi_better_subagents.Batching.Batcher.{
  Event, pushes, flushes, fires, disposes, new, push, flush, non_empty, run,
}
use pi_better_subagents.Batching.Batcher.Laws.{IsValid, run-IsValid, push-push}
use pi_better_subagents.Batching.Batcher.Emission.{FitsBatch, run-FitsBatch}
use pi_better_subagents.Batching.Batcher.Lossless.{feed, strip_newline, flush-feed}
use pi_better_subagents.Batching.Window.{Sample, SaturationWindow, is_saturated, verdict}
use pi_better_subagents.Batching.Window
use pi_better_subagents.Batching.Window.History.{
  is_live, record_all, is_saturated-history, is_saturated-exact,
}
use pi_better_subagents.Batching.Limiter
use pi_better_subagents.Batching.Limiter.Bounds
use pi_better_subagents.Batching.Limiter.Bounds.{run-new-bound, refills, consumes}

-- The lines `ab` and `c`, in two chunks that cut the first line.
abbrev first_chunk : Text
first_chunk = 97 ∷ []

abbrev second_chunk : Text
second_chunk = 98 ∷ newline ∷ 99 ∷ newline ∷ []

abbrev output_events : List Event
output_events = pushes first_chunk ∷ fires ∷ pushes second_chunk ∷ flushes ∷ disposes ∷ []

run-IsValid_example : IsValid (run (new 2 8) output_events).0
run-IsValid_example = run-IsValid 2 8 output_events (omega arith)

push-push_example :
    push (push (new 2 8) first_chunk) second_chunk ≡ push (new 2 8) (first_chunk ++ second_chunk)
unfolding new
push-push_example = push-push (new 2 8) first_chunk second_chunk tt

run-FitsBatch_example : All (FitsBatch 8) (run (new 2 8) output_events).1
unfolding new
run-FitsBatch_example = run-FitsBatch (new 2 8) output_events (omega arith)

flush-feed_example :
    (flush (feed (new 4 8) (first_chunk ∷ second_chunk ∷ []))).1
    ≡ non_empty (strip_newline (flatten (first_chunk ∷ second_chunk ∷ [])))
unfolding split flatten
flush-feed_example =
    flush-feed 4 8 (first_chunk ∷ second_chunk ∷ []) ((omega arith, (omega arith, tt)), omega arith)
      (omega arith)

abbrev dropped_at : ℕ → Sample
dropped_at t = record { at = t; dropped = true }

abbrev samples : List Sample
samples = dropped_at 3 ∷ dropped_at 10 ∷ dropped_at 15 ∷ []

is_saturated-history_example :
    (is_saturated (record_all (Window.new 10 1 2 2) samples) 20).1
    ≡ verdict (Window.new 10 1 2 2) 20 (keep (is_live 10 20) samples)
is_saturated-history_example =
    is_saturated-history 10 1 2 2 samples 20 (omega arith, (omega arith, (omega arith, tt)))
      (omega arith)

abbrev full_window : SaturationWindow
full_window = record {
  window_ms = 10;
  ratio_num = 1;
  ratio_den = 2;
  minimum_batches = 2;
  samples = samples;
}

is_saturated-exact_example :
    (first : Sample) × (rest : List Sample) × ((is_saturated full_window 20).0.samples
      ≡ first ∷ rest)
    × (first.at + 10 ≡ 20)
unfolding is_saturated
is_saturated-exact_example = is_saturated-exact full_window 20 refl

abbrev requests : List Bounds.Event
requests = consumes 2 ∷ refills ∷ consumes 3 ∷ consumes 1 ∷ []

run-new-bound_example :
    ((Bounds.run (Limiter.new 2 1) requests).1 + (Bounds.run (Limiter.new 2 1) requests).0.tokens
      ≤ 2 + Bounds.refill_count requests * 1)
    × ((Bounds.run (Limiter.new 2 1) requests).0.tokens ≤ 2)
unfolding Limiter.new
run-new-bound_example = run-new-bound 2 1 requests
