-- ===== src/Mailbox.antt =====
-- extension/src/comms/mailbox.ts: the log of each run, a ring, and the decision that each child
-- waits for. An entry is an object that the ring shares with its writer: `ref` is its identity. A
-- promise is a number; what a call resolves it with is returned. The rings are keyed by run and
-- the waiters by child. A timer that is set is the promise that its callback resolves, which is also
-- its identity, and the child that the callback looks up.
pub mod Ring
pub mod Rings
pub mod Settled
pub mod Timers
use pi_better_subagents.Prelude.{
  ℕ, suc, ◌+◌, ◌-◌, Bool, true, false, Option, none, some, List, [], ◌∷◌, ◌++◌, map, keep, not,
  String, length, drop, leb, ltb, ◌==◌, if◌then◌else◌,
}
use pi_better_subagents.Prelude.Dict.{Dict, get, has, put, delete, map_values}

pub data Kind : Type 0 where
  need_decision progress_update send reply broadcast : Kind

pub record MailboxEntry : Type 0 where
  pub ref : ℕ
  pub ts : ℕ
  pub from : String
  pub to : String
  pub kind : Kind
  pub message : String
  pub answer : Option String

pub record Waiter : Type 0 where
  pub name : String
  pub message : String
  pub since_ms : ℕ
  pub promise : ℕ

pub record PendingDecisionRequest : Type 0 where
  pub child_id : String
  pub name : String
  pub message : String
  pub since_ms : ℕ

pub record Mailbox : Type 0 where
  pub capacity : ℕ
  pub rings : Dict (List MailboxEntry)
  pub waiters : Dict Waiter
  pub timers : List (ℕ × String)
  pub next_ref : ℕ
  pub next_promise : ℕ

abbrev pub decision_timeout_message : String
decision_timeout_message =
    "Supervisor did not respond within 10 minutes; decide yourself and continue."

unfoldable pub new : ℕ → Mailbox
new capacity = record {
  capacity = capacity;
  rings = [];
  waiters = [];
  timers = [];
  next_ref = 0;
  next_promise = 0;
}

-- `ring.push` and the `splice` of what is over the capacity.
unfoldable pub push_ring : ℕ → List MailboxEntry → MailboxEntry → List MailboxEntry
push_ring capacity ring entry =
    let longer = ring ++ entry ∷ [] in
    if ltb capacity (length longer) then drop (length longer - capacity) longer else longer

abbrev pub ring_or_empty : Option (List MailboxEntry) → List MailboxEntry
ring_or_empty none = []
ring_or_empty (some ring) = ring

-- `append`; the time is that of the clock, and the entry has no reply yet.
unfoldable pub append :
    Mailbox → (now : ℕ) → (run_id from to : String) → Kind → String → Mailbox × MailboxEntry
unfolding push_ring
append m now run_id from to kind message =
    let full : MailboxEntry = record {
      ref = m.next_ref;
      ts = now;
      from = from;
      to = to;
      kind = kind;
      message = message;
      answer = none;
    } in
    (
      record m {
        rings = put run_id (push_ring m.capacity (ring_or_empty (get run_id m.rings)) full) m.rings;
        next_ref = suc m.next_ref;
      },
      full,
    )

unfoldable pub log : Mailbox → String → ℕ → List MailboxEntry
log m run_id limit =
    let ring = ring_or_empty (get run_id m.rings) in
    if limit == 0 then [] else drop (length ring - limit) ring

unfoldable pub has_pending_decision : Mailbox → String → Bool
has_pending_decision m child_id = has child_id m.waiters

-- `none` is the error that the child already has a pending request.
unfoldable pub begin_decision :
    Mailbox → (now : ℕ) → (child_id name message : String) → Option (Mailbox × ℕ)
begin_decision m now child_id name message =
    if has child_id m.waiters
    then none
    else some (
      record m {
        waiters =
            put child_id
              (record { name = name; message = message; since_ms = now; promise = m.next_promise })
              m.waiters;
        timers = m.timers ++ (m.next_promise, child_id) ∷ [];
        next_promise = suc m.next_promise;
      },
      m.next_promise,
    )

-- `clock.clearTimeout`.
abbrev pub clear_timer : ℕ → List (ℕ × String) → List (ℕ × String)
clear_timer promise timers = keep (λ (t : ℕ × String). not (t.0 == promise)) timers

abbrev pub find_timer : ℕ → List (ℕ × String) → Option String
find_timer promise [] = none
find_timer promise (t ∷ ts) =
    let later = find_timer promise ts in if t.0 == promise then some t.1 else later

-- The callback of a timer, if it is set: whatever waits for the child's reply is dropped, and the
-- timer's own promise is resolved.
unfoldable pub time_out : Mailbox → (promise : ℕ) → Mailbox × List (ℕ × String)
time_out m promise = elim (find_timer promise m.timers) [
  | none ↦ (m, [])
  | some child_id ↦
      let fired = record m { timers = clear_timer promise m.timers } in
      elim (get child_id m.waiters) [
        | none ↦ (fired, [])
        | some w ↦ (
          record fired { waiters = delete child_id m.waiters },
          (promise, decision_timeout_message) ∷ [],
        )
      ]
]

-- The Boolean of the source is `false` where nothing is resolved.
unfoldable pub resolve_decision : Mailbox → String → String → Mailbox × List (ℕ × String) × Bool
resolve_decision m child_id text = elim (get child_id m.waiters) [
  | none ↦ (m, [], false)
  | some w ↦ (
    record m { waiters = delete child_id m.waiters; timers = clear_timer w.promise m.timers },
    (w.promise, text) ∷ [],
    true,
  )
]

unfoldable pub pending_requests : Mailbox → List PendingDecisionRequest
pending_requests m =
    map
      (λ (e : String × Waiter). record {
        child_id = e.0;
        name = e.1.name;
        message = e.1.message;
        since_ms = e.1.since_ms;
      })
      m.waiters

-- The timers of all waiters are cleared.
abbrev pub clear_timers : Dict Waiter → List (ℕ × String) → List (ℕ × String)
clear_timers [] timers = timers
clear_timers (e ∷ es) timers = clear_timers es (clear_timer e.1.promise timers)

unfoldable pub dispose : Mailbox → Mailbox × List (ℕ × String)
dispose m = (
  record m { waiters = []; timers = clear_timers m.waiters m.timers },
  map (λ (e : String × Waiter). (e.1.promise, decision_timeout_message)) m.waiters,
)

-- `entry.reply = text`, seen through the ring if the entry is still in it.
unfoldable pub set_answer : ℕ → String → List MailboxEntry → List MailboxEntry
set_answer ref text [] = []
set_answer ref text (e ∷ es) =
    let rest = set_answer ref text es in
    if e.ref == ref then record e { answer = some text } ∷ rest else e ∷ rest

unfoldable pub answer : Mailbox → ℕ → String → Mailbox
unfolding set_answer
answer m ref text = record m { rings = map_values (set_answer ref text) m.rings }
