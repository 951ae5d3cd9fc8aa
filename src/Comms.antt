-- ===== src/Comms.antt =====
-- extension/src/comms/comms.ts over the mailbox of comms/mailbox.ts, the lineage check of
-- extension/src/comms/routing.ts, and `shouldNotifyTaskExit` of extension/src/task-exit-notify.ts.
--
-- The host is a parameter: `get_child` and `same_run` are those of `CommsHost`, the answer of a
-- child's `steer` or `followUp` is an argument, and the notice that `notifySupervisor` gets is
-- returned. `contact_supervisor` is cut where it waits, into the request and what follows the
-- answer. `send_to` does nothing to the mailbox before its wait, so its mailbox and its time are those
-- when the wait is over; `broadcast_to` waits once for each target, and a `Turn` says what that wait
-- comes to. Log entries and the pausing of the stall timer are left out.
pub mod Requests
use pi_better_subagents.Prelude.{
  ℕ, Bool, true, false, not, ◌&&◌, ◌||◌, Option, none, some, List, [], ◌∷◌, ◌++◌, keep, String,
  ◌==ₛ◌, if◌then◌else◌,
}
use pi_better_subagents.Prelude.KeySet.{KeySet, has}
use pi_better_subagents.Subagent.{ChildStatus}
use pi_better_subagents.Mailbox.{
  Mailbox, MailboxEntry, PendingDecisionRequest, need_decision, progress_update, send, reply,
  broadcast, append, begin_decision, resolve_decision, pending_requests, answer,
}

-- What the host knows of a child.
pub record HostChild : Type 0 where
  pub child_id : String
  pub run_id : String
  pub name : String
  pub status : ChildStatus

abbrev pub unknown_run_id : String
unknown_run_id = "unknown"

abbrev pub supervisor : String
supervisor = "supervisor"

-- What comes of one target of a broadcast: is the child still known when its turn comes, does its
-- `steer` succeed, when is that wait over, and what have other calls done to the mailbox meanwhile?
pub record Turn : Type 0 where
  pub is_known : Bool
  pub accepted : Bool
  pub now : ℕ
  pub others : Mailbox → Mailbox

-- The wakes that the supervisor gets.
pub data Wake : Type 0 where
  supervisor_update supervisor_request : (from name message : String) → Wake

pub data CommsError : Type 0 where
  already_pending : (child_id : String) → CommsError
  no_request : (child_id : String) → List PendingDecisionRequest → CommsError
  unknown_child : (child_id : String) → CommsError
  has_finished not_running : HostChild → CommsError
  delivery_failed : CommsError
  to_itself : (child_id : String) → CommsError
  cross_run : CommsError

-- What `contact_supervisor` comes to, up to its wait.
pub data Contact : Type 0 where
  told : Wake → Contact
  waits : Wake → (promise : ℕ) → (entry : ℕ) → Contact
  refused : CommsError → Contact

pub data Delivery : Type 0 where
  steer queue : Delivery

pub data Sending : Type 0 where
  sent : Sending
  not_sent : CommsError → Sending

unfoldable pub run_id_of : Option HostChild → String
run_id_of none = unknown_run_id
run_id_of (some c) = c.run_id

unfoldable pub name_of : String → Option HostChild → String
name_of child_id none = child_id
name_of child_id (some c) = c.name

unfoldable pub format_supervisor_update : (child_id name message : String) → Wake
format_supervisor_update child_id name message = supervisor_update child_id name message

unfoldable pub format_supervisor_request : (child_id name message : String) → Wake
format_supervisor_request child_id name message = supervisor_request child_id name message

-- The request is refused, or the child waits.
abbrev pub contact_of :
    (from name message : String) → (entry : ℕ) → Mailbox → Option (Mailbox × ℕ) → Mailbox × Contact
contact_of from name message entry m none = (m, refused (already_pending from))
contact_of from name message entry m (some (m', promise)) =
    (m', waits (format_supervisor_request from name message) promise entry)

-- The part of a decision request after the entry is in the log.
unfoldable pub request_decision :
    ℕ → (from name message : String) → Mailbox × MailboxEntry → Mailbox × Contact
unfolding format_supervisor_request
request_decision now from name message (m, entry) =
    contact_of from name message entry.ref m (begin_decision m now from name message)

-- A wait that ends: the entry gets the text as its reply, and the caller gets it.
unfoldable pub end_wait : (entry : ℕ) → String → Mailbox → Mailbox × String
end_wait entry text m = (answer m entry text, text)

abbrev pub is_running : ChildStatus → Bool
is_running ChildStatus.running = true
is_running _ = false

abbrev pub is_from : Option String → String → Bool
is_from none child_id = false
is_from (some from) child_id = child_id ==ₛ from

abbrev pub from_of : Option String → String
from_of none = supervisor
from_of (some from) = from

module _ (get_child : String → Option HostChild) (same_run : String → String → Bool) where
  unfoldable pub contact_supervisor :
      (now : ℕ)
      → (from : String) → (decision : Bool) → (message : String) → Mailbox
      → Mailbox × Contact
  unfolding run_id_of name_of format_supervisor_update request_decision
  contact_supervisor now from decision message m =
      let child = get_child from in
      let name = name_of from child in
      let kind = if decision then need_decision else progress_update in
      let r = append m now (run_id_of child) from supervisor kind message in
      if not decision
      then (r.0, told (format_supervisor_update from name message))
      else request_decision now from name message r

  -- What the promise of the request is resolved with is returned, if it is.
  unfoldable pub reply_to :
      (now : ℕ) → (to message from : String) → Mailbox → Mailbox × List (ℕ × String) × Sending
  unfolding run_id_of
  reply_to now to message from m =
      let r = resolve_decision m to message in
      if not r.2
      then (m, [], not_sent (no_request to (pending_requests m)))
      else ((append r.0 now (run_id_of (get_child to)) from to reply message).0, r.1, sent)

  -- `accepted` says whether the child's `steer` or `followUp`, by the delivery, succeeds.
  unfoldable pub send_to :
      (now : ℕ)
      → (to message from : String) → Delivery
      → (accepted : Delivery → Bool) → Mailbox
      → Mailbox × Sending
  send_to now to message from delivery accepted m = elim (get_child to) [
    | none ↦ (m, not_sent (unknown_child to))
    | some child ↦ elim child.status [
      | ChildStatus.running ↦
          if accepted delivery
          then ((append m now child.run_id from to send message).0, sent)
          else (m, not_sent delivery_failed)
      | ChildStatus.completed ↦ (m, not_sent (has_finished child))
      | ChildStatus.failed ↦ (m, not_sent (has_finished child))
      | ChildStatus.interrupted ↦ (m, not_sent (has_finished child))
      | ChildStatus.pending ↦ (m, not_sent (not_running child))
    ]
  ]

  unfoldable pub targets : (run_id : String) → Option String → List HostChild → List HostChild
  targets run_id from children =
      keep (λ c. (c.run_id ==ₛ run_id) && is_running c.status && not (is_from from c.child_id))
        children

  -- The loop over the targets: a child that is gone or refuses the message is passed over.
  unfoldable pub broadcast_loop :
      (run_id message : String)
      → (from : Option String) → (turn : String → Turn) → List HostChild
      → Mailbox
      → Mailbox × List String
  broadcast_loop run_id message from turn [] m = (m, [])
  broadcast_loop run_id message from turn (t ∷ ts) m =
      let c = turn t.child_id in
      let waited = c.others m in
      let m' = (append waited c.now run_id (from_of from) t.child_id broadcast message).0 in
      let told = broadcast_loop run_id message from turn ts m' in
      let refused = broadcast_loop run_id message from turn ts waited in
      let gone = broadcast_loop run_id message from turn ts m in
      if not c.is_known then gone else if c.accepted then (told.0, t.child_id ∷ told.1) else refused

  unfoldable pub broadcast_to :
      (run_id message : String)
      → (from : Option String) → (turn : String → Turn) → (children : List HostChild) → Mailbox
      → Mailbox × List String
  unfolding broadcast_loop targets
  broadcast_to run_id message from turn children m =
      broadcast_loop run_id message from turn (targets run_id from children) m

  -- `none` is that nothing is thrown.
  unfoldable pub assert_sibling_allowed : (from to : String) → Option CommsError
  assert_sibling_allowed from to =
      if from ==ₛ to
      then some (to_itself from)
      else if not (same_run from to)
      then some cross_run
      else none

unfoldable pub should_notify_task_exit : String → (is_monitor : Bool) → KeySet → Bool
should_notify_task_exit task_id is_monitor notify_on_exit =
    if is_monitor then false else has task_id notify_on_exit
