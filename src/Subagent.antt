-- ===== src/Subagent.antt =====
-- The types that the subagent modules share: extension/src/subagent/types.ts and the records of
-- extension/src/subagent/registry.ts.
pub mod Models
pub mod Transcript
use pi_better_subagents.Prelude.{ℕ, Bool, true, false, Option, none, String}

pub data ChildStatus : Type 0 where
  pending running completed failed interrupted : ChildStatus

-- The status of a result: the terminal ones.
pub data ResultStatus : Type 0 where
  completed failed interrupted : ResultStatus

abbrev pub to_status : ResultStatus → ChildStatus
to_status ResultStatus.completed = ChildStatus.completed
to_status ResultStatus.failed = ChildStatus.failed
to_status ResultStatus.interrupted = ChildStatus.interrupted

pub record ChildResult : Type 0 where
  pub status : ResultStatus
  pub text : String
  pub error : Option String
  pub warning : Option String
  pub model_error : Bool
  pub attempts : Option ℕ
  pub stalls : Option ℕ
  pub duration_ms : ℕ

abbrev pub is_terminal : ChildStatus → Bool
is_terminal ChildStatus.pending = false
is_terminal ChildStatus.running = false
is_terminal ChildStatus.completed = true
is_terminal ChildStatus.failed = true
is_terminal ChildStatus.interrupted = true

abbrev pub is_completed : ResultStatus → Bool
is_completed ResultStatus.completed = true
is_completed ResultStatus.failed = false
is_completed ResultStatus.interrupted = false

-- A result with none of the optional notes.
abbrev pub plain_result : ResultStatus → String → Option String → ℕ → ChildResult
plain_result status text error duration = record {
  status = status;
  text = text;
  error = error;
  warning = none;
  model_error = false;
  attempts = none;
  stalls = none;
  duration_ms = duration;
}
