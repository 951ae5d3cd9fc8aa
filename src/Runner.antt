-- ===== src/Runner.antt =====
-- `InProcessChildHandle` of extension/src/subagent/runner.ts: the generations of a child, its result
-- promises, its admission slot, its timers and its retries after a stall.
--
-- The session, the admission hook and the clock are the environment's: an operation takes the time
-- of the call, and `said`, the last text of the session. A method that waits is cut where it waits;
-- what it goes on with is kept in `admissions`, `creating`, `idling` or `waits`. A promise of a
-- result is the number of the user turn, and `resolved` is what the promises were resolved with. A
-- timer is the number of the scope that owns it, the generation that its callback knows and the
-- time when it is due; it can fire while its scope is the current one. Numbers of the options are
-- natural: the constructor rounds them. `granted` and `released` count the slots that were granted and
-- given back. Observers are left out.
pub mod Activity
pub mod Begin
pub mod Generations
pub mod Lifecycle
pub mod Turns
pub mod Steps
pub mod Callbacks
pub mod History
use pi_better_subagents.Prelude.{
  ℕ, suc, ◌+◌, ◌-◌, Bool, true, false, not, ◌&&◌, ◌||◌, Option, none, some, List, [], ◌∷◌, ◌++◌,
  map, String, ◌==ₛ◌, ltb, leb, ◌==◌, is_some, if◌then◌else◌,
}
use pi_better_subagents.Subagent.{ChildStatus, ResultStatus, to_status, ChildResult, plain_result}

pub record Options : Type 0 where
  pub stall_ms : ℕ
  pub stall_retries : ℕ
  pub stall_retry_delay_ms : ℕ
  pub timeout_ms : ℕ
  pub has_acquire : Bool

pub record Session : Type 0 where
  pub resolved_model : Option String
  pub warning : Option String

pub record Timer : Type 0 where
  pub scope : ℕ
  pub gen : ℕ
  pub due : ℕ

-- What a generation is prompted with.
pub data Prompt : Type 0 where
  user : String → Prompt
  with_model : (model : String) → Prompt → Prompt
  after_stall : (stall_ms : ℕ) → Prompt

-- A generation that waits for its slot.
pub record Admission : Type 0 where
  pub gen : ℕ
  pub prompt : Prompt
  pub first : Bool

-- Who waits for an abort to finish.
pub data Wait : Type 0 where
  retry_wait : (gen : ℕ) → Wait
  resume_wait : (message : String) → Wait

pub record ChildHandle : Type 0 where
  pub session : Option Session
  pub subscribed : Bool
  pub status : ChildStatus
  pub last_event : ℕ
  pub started_at : ℕ
  pub run_started_at : ℕ
  pub turn_budget_start : ℕ
  pub aborting : Bool  -- is there a promise of an abort to wait for?
  pub generation : ℕ
  pub settled_flag : Bool
  pub turn : ℕ
  pub resolved : List (ℕ × ChildResult)
  pub timeout_timer : Option Timer
  pub stall_timer : Option Timer
  pub retry_timer : Option Timer
  pub timer_scope : Option ℕ
  pub next_scope : ℕ
  pub stall_attempts : ℕ
  pub retired_gen : Option ℕ
  pub holds_slot : Bool
  pub granted : ℕ
  pub released : ℕ
  pub disposed : Bool
  pub tool_depth : ℕ
  pub decision_paused : Bool
  pub admissions : List Admission
  pub creating : Option (ℕ × Prompt)
  pub idling : List ℕ
  pub waits : List Wait
  pub prompts : List (ℕ × Prompt)

unfoldable pub new : ℕ → ChildHandle
new now = record {
  session = none;
  subscribed = false;
  status = ChildStatus.pending;
  last_event = now;
  started_at = now;
  run_started_at = now;
  turn_budget_start = now;
  aborting = false;
  generation = 0;
  settled_flag = false;
  turn = 0;
  resolved = [];
  timeout_timer = none;
  stall_timer = none;
  retry_timer = none;
  timer_scope = none;
  next_scope = 0;
  stall_attempts = 0;
  retired_gen = none;
  holds_slot = false;
  granted = 0;
  released = 0;
  disposed = false;
  tool_depth = 0;
  decision_paused = false;
  admissions = [];
  creating = none;
  idling = [];
  waits = [];
  prompts = [];
}

abbrev pub is_running : ChildStatus → Bool
is_running ChildStatus.running = true
is_running ChildStatus.pending = false
is_running ChildStatus.completed = false
is_running ChildStatus.failed = false
is_running ChildStatus.interrupted = false

abbrev pub is_gen : ℕ → Option ℕ → Bool
is_gen gen none = false
is_gen gen (some g) = g == gen

unfoldable pub is_settled : ℕ → ChildHandle → Bool
is_settled gen c = not (gen == c.generation) || c.settled_flag

unfoldable pub is_current : ℕ → ChildHandle → Bool
is_current gen c =
    gen == c.generation && not c.settled_flag && not c.disposed && not (is_gen gen c.retired_gen)

abbrev pub no_output : String
no_output = "(no output)"

unfoldable pub partial_text : String → ChildHandle → String
partial_text said c = if not (is_some c.session) || said ==ₛ "" then no_output else said

unfoldable pub clear_stall : ChildHandle → ChildHandle
clear_stall c = record c { stall_timer = none }

unfoldable pub clear_retry_timer : ChildHandle → ChildHandle
clear_retry_timer c = record c { retry_timer = none }

-- The timers are cleared and their scope is disposed of.
unfoldable pub clear_timers : ChildHandle → ChildHandle
clear_timers c = record c {
  timeout_timer = none;
  stall_timer = none;
  retry_timer = none;
  timer_scope = none;
}

unfoldable pub release : ChildHandle → ChildHandle
release c = if c.holds_slot then record c { holds_slot = false; released = suc c.released } else c

abbrev pub is_disposed_error : Option String → Bool
is_disposed_error none = false
is_disposed_error (some e) = e ==ₛ "disposed"

abbrev pub or_else {ℓ} : {A : Type ℓ} → Option A → Option A → Option A
or_else none b = b
or_else (some a) b = some a

abbrev pub warning_of : Option Session → Option String
warning_of none = none
warning_of (some s) = s.warning

-- What `settle` makes of a result.
unfoldable pub final_result : ℕ → ChildHandle → ChildResult → ChildResult
final_result now c r = record r {
  attempts = or_else r.attempts (if ltb 1 c.generation then some c.generation else none);
  duration_ms = if is_disposed_error r.error then r.duration_ms else now - c.run_started_at;
  stalls = or_else r.stalls (if ltb 0 c.stall_attempts then some c.stall_attempts else none);
  warning = or_else r.warning (warning_of c.session);
}

unfoldable pub settle : ℕ → ℕ → ChildResult → ChildHandle → ChildHandle
unfolding is_settled clear_timers release final_result
settle now gen result c =
    if is_settled gen c
    then c
    else (let quiet = clear_timers (record c { settled_flag = true }) in
        let done = release (record quiet { status = to_status result.status }) in
        record done { resolved = done.resolved ++ (c.turn, final_result now c result) ∷ [] })

-- The results that the methods settle with. A length of time that is not given is overwritten.
abbrev pub ended : ResultStatus → String → Option String → ChildResult
ended status text error = plain_result status text error 0

-- A timer of the current scope, if there is one.
abbrev pub timer_in : Option ℕ → (gen due : ℕ) → Option Timer
timer_in none gen due = none
timer_in (some scope) gen due = some (record { scope = scope; gen = gen; due = due })

-- A timer that fires: it is due and its scope is the current one.
abbrev pub can_fire : ℕ → Option ℕ → Option Timer → Bool
can_fire now none t = false
can_fire now (some scope) none = false
can_fire now (some scope) (some t) = scope == t.scope && leb t.due now
