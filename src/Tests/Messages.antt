-- ===== src/Tests/Messages.antt =====
-- The theorems on extension/src/notify.ts, comms/comms.ts, clock.ts and the chains of
-- subagent/pool.ts at concrete inputs.
use pi_better_subagents.Prelude.{
  ◌==ₛ◌, not, ℕ, ◌≡◌, refl, Bool, true, false, not, ◌&&◌, Option, none, some, List, [], ◌∷◌, String,
  map, keep, any, ◌==◌, arith,
}
use pi_better_subagents.Prelude.Dict.{get}
use pi_better_subagents.Subagent.{ChildStatus, ResultStatus, plain_result}
use pi_better_subagents.Pool.{Outcome, returns}
use pi_better_subagents.Chain.{
  ChainStep, validate_chain_steps, validate_from, check_refs, run_chain,
}
use pi_better_subagents.Chain.Pieces.{
  Text, pieces, pieces_in, match_ref, match_output, strip_prefix, print_all, previous_text,
}
use pi_better_subagents.Chain.Pieces.Scan.{IsScan, pieces-IsScan}
use pi_better_subagents.Chain.Validated.{Returns, run_chain-Returns}
use pi_better_subagents.Mailbox.{Mailbox, begin_decision}
use pi_better_subagents.Mailbox
use pi_better_subagents.Comms.{
  HostChild, queue, supervisor_request, has_finished, contact_supervisor, reply_to, send_to,
  broadcast_to, Turn, request_decision,
}
use pi_better_subagents.Comms.Requests.{
  is_told, broadcast_to-delivered, send_to-not_sent, contact_supervisor-reply_to,
}
use pi_better_subagents.Notify.{Message, Formats, PendingMonitor, NotifyCenter, trigger, notify}
use pi_better_subagents.Notify.Ordering.{notify-in_order}
use pi_better_subagents.Clock.{ManualClock, ScheduledTimer, advance_to}
use pi_better_subagents.Clock.Advance.{NoneDue}
use pi_better_subagents.Clock.Fuel.{advance_to-returns}
use pi_better_subagents.Clock.Scope.{TimerScope, is_set, set_timeout, set_interval, dispose-is_set}
use pi_better_subagents.Clock.Scope

-- The prompt `a{previous}`.
abbrev a_prompt : Text
a_prompt = 97 ∷ previous_text

pieces-IsScan_example : (print_all (pieces a_prompt) ≡ a_prompt) × IsScan (pieces a_prompt)
pieces-IsScan_example = pieces-IsScan a_prompt

abbrev steps : List ChainStep
steps =
    record { prompt = 97 ∷ []; label = some (98 ∷ []) }
    ∷ record { prompt = a_prompt; label = none }
    ∷ []

abbrev units : String → Text
units s = 120 ∷ []

abbrev a_start : ℕ → Text → Outcome
a_start i prompt = returns (plain_result ResultStatus.completed "x" none 1)

run_chain-Returns_example : Returns 0 steps (run_chain units a_start steps).1
unfolding validate_chain_steps validate_from check_refs pieces pieces_in match_ref match_output
    strip_prefix
run_chain-Returns_example = run_chain-Returns units a_start steps refl

abbrev a_message : Message ℕ
a_message = record { monitor_id = some "m"; content = 7 }

abbrev an_item : PendingMonitor
an_item = record {
  description = "watch";
  event_count = 2;
  last_event = "up";
  dropped_lines = 0;
  is_quiet = false;
}

abbrev formats : Formats ℕ ℕ
formats = record { exits = λ is. 1; one_event = λ d t e n. 2; summary = λ t p. p.event_count }

abbrev center : NotifyCenter ℕ ℕ
center = record {
  pending_exits = 4 ∷ [];
  pending_monitors = ("m", an_item) ∷ [];
  seen = "t" ∷ [];
  timer = true;
  disposed = false;
  run_pending = false;
  held = a_message ∷ [];
}

notify-in_order_example :
    ((notify formats true false false a_message center).1
      ≡ (record { monitor_id = some "m"; content = 2 }, trigger) ∷ (a_message, trigger) ∷ [])
    × ((notify formats true false false a_message center).0.held ≡ a_message ∷ [])
    × (get "m" (notify formats true false false a_message center).0.pending_monitors ≡ none)
unfolding get
notify-in_order_example = notify-in_order formats true false "m" 7 an_item center refl refl refl

abbrev a_child : ChildStatus → HostChild
a_child status = record { child_id = "c"; run_id = "r"; name = "a"; status = status }

abbrev get_child : String → Option HostChild
get_child id = some (a_child ChildStatus.completed)

abbrev same_run : String → String → Bool
same_run a b = true

abbrev sibling : String → String → ChildStatus → HostChild
sibling id run status = record { child_id = id; run_id = run; name = id; status = status }

-- Only the second is told: the others are the sender, of another run, ended, and gone.
abbrev siblings : List HostChild
siblings =
    sibling "a" "r" ChildStatus.running
    ∷ sibling "b" "r" ChildStatus.running
    ∷ sibling "c" "q" ChildStatus.running
    ∷ sibling "d" "r" ChildStatus.failed
    ∷ sibling "e" "r" ChildStatus.running
    ∷ []

abbrev turn_of : String → Turn
turn_of id = record { is_known = not (id ==ₛ "e"); accepted = true; now = 3; others = λ m. m }

broadcast_to-delivered_example :
    (broadcast_to get_child same_run "r" "go" (some "a") turn_of siblings (Mailbox.new 5)).1
    ≡ map (λ c. c.child_id) (keep (is_told "r" (some "a") turn_of) siblings)
broadcast_to-delivered_example =
    broadcast_to-delivered get_child same_run "r" "go" (some "a") turn_of siblings (Mailbox.new 5)

told_ids : map (λ c. c.child_id) (keep (is_told "r" (some "a") turn_of) siblings) ≡ "b" ∷ []
told_ids = refl

send_to-not_sent_example :
    (send_to get_child same_run 1 "c" "go" "supervisor" queue (λ d. true) (Mailbox.new 5)).0
    ≡ Mailbox.new 5
unfolding send_to
send_to-not_sent_example =
    send_to-not_sent get_child same_run 1 "c" "go" "supervisor" queue (λ d. true) (Mailbox.new 5)
      (has_finished (a_child ChildStatus.completed)) refl

contact_supervisor-reply_to_example :
    (reply_to get_child same_run 2 "c" "this" "supervisor"
      (contact_supervisor get_child same_run 1 "c" true "which?" (Mailbox.new 5)).0).1
    ≡ (0, "this") ∷ []
unfolding contact_supervisor request_decision begin_decision Mailbox.new get Mailbox.append
contact_supervisor-reply_to_example =
    contact_supervisor-reply_to get_child same_run 1 2 "c" "which?" "this" "supervisor"
      (Mailbox.new 5) (supervisor_request "c" "a" "which?") 0 0 refl

abbrev timers : List ScheduledTimer
timers =
    record { id = 1; due = 9; interval = none; callback = 1 }
    ∷ record { id = 2; due = 4; interval = none; callback = 2 }
    ∷ []

abbrev a_clock : ManualClock
a_clock = record { current_time = 3; next_id = 3; timers = timers; fired = [] }

abbrev scope : TimerScope
scope = record { clock = a_clock; owned = 2 ∷ []; disposed = false }

dispose-is_set_example :
    (is_set 2 (Scope.dispose scope).clock
      ≡ not (any (λ t. t == 2) scope.owned) && is_set 2 scope.clock)
    × ((Scope.dispose scope).owned ≡ [])
    × (set_timeout 5 6 (Scope.dispose scope) ≡ none)
    × (set_interval 5 6 (Scope.dispose scope) ≡ none)
dispose-is_set_example = dispose-is_set 2 5 6 scope refl

abbrev idle_callback : ℕ → ManualClock → ManualClock
idle_callback name c = c

abbrev later_clock : ManualClock
later_clock = record { current_time = 10; next_id = 3; timers = []; fired = (2, 4) ∷ (1, 9) ∷ [] }

advance_to-returns_example :
    (c' : ManualClock) × (advance_to idle_callback 3 10 a_clock ≡ some (some c'))
    × (c'.current_time ≡ 10)
    × NoneDue 10 c'.timers
advance_to-returns_example =
    advance_to-returns idle_callback 10 3 a_clock (λ name c. refl) (refl, (refl, tt)) (omega arith)
      (omega arith)
