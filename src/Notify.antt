-- ===== src/Notify.antt =====
-- `NotifyCenter` of extension/src/notify.ts: what becomes of events when the agent is idle or busy.
--
-- `I` is the type of a task's exit information and `C` that of a message's content; the formatting
-- functions of extension/src/format.ts are the fields of `Formats`. `isIdle` is an argument of each
-- method: it does not change while a method runs, although the source asks again. A message has
-- what `notify` reads of its details: the id of its monitor, if it is a monitor's. What a method
-- sends is returned in order. Log entries are left out.
pub mod Ordering
use pi_better_subagents.Prelude.{
  ℕ, ◌+◌, Bool, true, false, not, ◌&&◌, ◌||◌, Option, none, some, List, [], ◌∷◌, ◌++◌, map, String,
  length, ltb, ◌==◌, is_some, if◌then◌else◌,
}
use pi_better_subagents.Prelude.Dict.{Dict, get, put, delete}
use pi_better_subagents.Prelude.KeySet.{KeySet, has, add}

-- How a message reaches the session.
pub data Mode : Type 0 where
  passive trigger steer : Mode

pub record Message (C : Type 0) : Type 0 where
  pub monitor_id : Option String
  pub content : C

pub record PendingMonitor : Type 0 where
  pub description : String
  pub event_count : ℕ
  pub last_event : String
  pub dropped_lines : ℕ
  pub is_quiet : Bool

-- `formatTaskNotification` and `formatMonitorEvent`, of one event and of a summary.
pub record Formats (I C : Type 0) : Type 0 where
  pub exits : List I → C
  pub one_event : (description task_id event : String) → (dropped_lines : ℕ) → C
  pub summary : (task_id : String) → PendingMonitor → C

pub record NotifyCenter (I C : Type 0) : Type 0 where
  pub pending_exits : List I
  pub pending_monitors : Dict PendingMonitor
  pub seen : KeySet
  pub timer : Bool
  pub disposed : Bool
  pub run_pending : Bool
  pub held : List (Message C)

abbrev pub is_passive : Mode → Bool
is_passive passive = true
is_passive trigger = false
is_passive steer = false

abbrev pub mode_of : (passively idle : Bool) → Mode
mode_of passively idle = if passively then passive else if idle then trigger else steer

-- What a method returns: the center, and what was sent.
abbrev pub Sent : Type 0 → Type 0 → Type 0
Sent I C = NotifyCenter I C × List (Message C × Mode)

abbrev pub add_event : String → String → ℕ → Bool → Option PendingMonitor → PendingMonitor
add_event description event dropped quiet none = record {
  description = description;
  event_count = 1;
  last_event = event;
  dropped_lines = dropped;
  is_quiet = quiet;
}
add_event description event dropped quiet (some p) = record {
  description = description;
  event_count = p.event_count + 1;
  last_event = event;
  dropped_lines = p.dropped_lines + dropped;
  is_quiet = p.is_quiet || quiet;
}

module _ {I C : Type 0} where
  abbrev pub then_do : Sent I C → (NotifyCenter I C → Sent I C) → Sent I C
  then_do r f = let next = f r.0 in (next.0, r.1 ++ next.1)

  unfoldable pub new : NotifyCenter I C
  new = record {
    pending_exits = [];
    pending_monitors = [];
    seen = [];
    timer = false;
    disposed = false;
    run_pending = false;
    held = [];
  }

  unfoldable pub deliver : (idle passively : Bool) → Message C → NotifyCenter I C → Sent I C
  deliver idle passively message n =
      let mode = mode_of passively idle in
      ((if is_passive mode then n else record n { run_pending = true }), (message, mode) ∷ [])

  -- A timeout that is set already is kept.
  unfoldable pub schedule_flush : NotifyCenter I C → NotifyCenter I C
  schedule_flush n = record n { timer = true }

  unfoldable pub clear_timer : NotifyCenter I C → NotifyCenter I C
  clear_timer n = record n { timer = false }

  -- A task's exit; its key is made of its id.
  unfoldable pub notify_task_exit : String → I → NotifyCenter I C → NotifyCenter I C
  unfolding schedule_flush
  notify_task_exit task_id info n =
      if n.disposed || has task_id n.seen
      then n
      else schedule_flush
          (record n { seen = add task_id n.seen; pending_exits = n.pending_exits ++ info ∷ [] })

  -- `notify` once the events of the message's monitor are delivered.
  unfoldable pub route : (idle passively : Bool) → Message C → NotifyCenter I C → Sent I C
  unfolding deliver
  route idle passively message n =
      if not passively
      then deliver idle false message n
      else if n.run_pending || not idle
      then (record n { held = n.held ++ message ∷ [] }, [])
      else deliver idle true message n

  module _ (F : Formats I C) where
    -- A summary is the message of a monitor, so the source's `notify` flushes that monitor again:
    -- it has just been deleted, and nothing happens.
    unfoldable pub flush_monitor :
        (idle : Bool) → String → (quiet : Bool) → NotifyCenter I C → Sent I C
    unfolding deliver route
    flush_monitor idle task_id quiet n = elim (get task_id n.pending_monitors) [
      | none ↦ (n, [])
      | some item ↦
          (let n' = record n { pending_monitors = delete task_id n.pending_monitors } in
            let message : Message C = record {
              monitor_id = some task_id;
              content = F.summary task_id item;
            } in
            if quiet || item.is_quiet
            then if n.disposed then (n', []) else route idle true message n'
            else deliver idle false message n')
    ]

    unfoldable pub notify : (idle passively quiet : Bool) → Message C → NotifyCenter I C → Sent I C
    unfolding flush_monitor route
    notify idle passively quiet message n =
        if n.disposed
        then (n, [])
        else (let flushed : Sent I C = elim message.monitor_id [
          | none ↦ (n, [])
          | some id ↦ flush_monitor idle id quiet n
        ] in
            then_do flushed (route idle passively message))

    unfoldable pub flush_monitors : (idle : Bool) → List String → NotifyCenter I C → Sent I C
    unfolding flush_monitor
    flush_monitors idle [] n = (n, [])
    flush_monitors idle (id ∷ ids) n =
        then_do (flush_monitor idle id false n) (flush_monitors idle ids)

    unfoldable pub flush_monitor_events : (idle : Bool) → NotifyCenter I C → Sent I C
    unfolding flush_monitors
    flush_monitor_events idle n =
        if n.disposed || not idle
        then (n, [])
        else flush_monitors idle (map (λ (e : String × PendingMonitor). e.0) n.pending_monitors) n

    -- The loop of `settled` over the notices that were held.
    unfoldable pub deliver_all : (idle : Bool) → List (Message C) → NotifyCenter I C → Sent I C
    unfolding deliver
    deliver_all idle [] n = (n, [])
    deliver_all idle (m ∷ ms) n = then_do (deliver idle true m n) (deliver_all idle ms)

    unfoldable pub release_held : (idle : Bool) → NotifyCenter I C → Sent I C
    unfolding deliver_all
    release_held idle n =
        if n.run_pending then (n, []) else deliver_all idle n.held (record n { held = [] })

    unfoldable pub settled : (idle : Bool) → NotifyCenter I C → Sent I C
    unfolding flush_monitor_events release_held
    settled idle n =
        if n.disposed
        then (n, [])
        else then_do (flush_monitor_events idle (record n { run_pending = false }))
            (release_held idle)

    unfoldable pub notify_monitor_event :
        (idle : Bool)
        → (description task_id event : String) → ℕ
        → (quiet : Bool) → NotifyCenter I C
        → Sent I C
    unfolding deliver flush_monitor_events
    notify_monitor_event idle description task_id event dropped quiet n =
        let pending = get task_id n.pending_monitors in
        let message : Message C = record {
          monitor_id = some task_id;
          content = F.one_event description task_id event dropped;
        } in
        let n' = record n {
          pending_monitors =
              put task_id (add_event description event dropped quiet pending) n.pending_monitors;
        } in
        if n.disposed
        then (n, [])
        else if idle && not (is_some pending) && not quiet
        then deliver idle false message n
        else if idle && not quiet
        then flush_monitor_events idle n'
        else (n', [])

    unfoldable pub flush_exits : (idle : Bool) → NotifyCenter I C → Sent I C
    unfolding deliver
    flush_exits idle n =
        if n.disposed || length n.pending_exits == 0
        then (n, [])
        else deliver idle false (record { monitor_id = none; content = F.exits n.pending_exits })
            (record n { pending_exits = [] })

    -- The callback of the timeout; a cleared timeout does not fire.
    unfoldable pub fire : (idle : Bool) → NotifyCenter I C → Sent I C
    unfolding flush_exits clear_timer
    fire idle n = if n.timer then flush_exits idle (clear_timer n) else (n, [])

    unfoldable pub flush : (idle : Bool) → NotifyCenter I C → Sent I C
    unfolding flush_exits flush_monitor_events clear_timer
    flush idle n = then_do (flush_exits idle (clear_timer n)) (flush_monitor_events idle)

  unfoldable pub dispose : NotifyCenter I C → NotifyCenter I C
  unfolding clear_timer
  dispose n = record (clear_timer n) {
    disposed = true;
    pending_exits = [];
    pending_monitors = [];
    held = [];
  }
