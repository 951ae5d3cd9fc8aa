-- ===== src/Monitor/Watch.antt =====
-- One monitor of extension/src/monitor.ts from its registration to its end: its batcher, limiter and
-- saturation window, the timeout, the automatic stop and the exit.
--
-- `notices` is what the notify center was given. `stopping` are the stops that wait for the answer
-- of the manager. Toasts, log entries and the observers of changes are left out, and the center is
-- there. The text of a notice is its kind and the numbers in it.
pub mod Ends
use pi_better_subagents.Prelude.{
  ℕ, suc, ◌+◌, Bool, true, false, not, ◌&&◌, ◌||◌, Option, none, some, List, [], ◌∷◌, ◌++◌, String,
  ◌==ₛ◌, length, leb, ltb, ◌==◌, is_some, if◌then◌else◌,
}
use pi_better_subagents.Batching.Lines.{Text, split}
use pi_better_subagents.Batching.Batcher.{LineBatcher}
use pi_better_subagents.Batching.Batcher
use pi_better_subagents.Batching.Limiter.{RateLimiter, try_consume}
use pi_better_subagents.Batching.Limiter
use pi_better_subagents.Batching.Window.{SaturationWindow, record_sample, is_saturated}
use pi_better_subagents.Batching.Window

pub data StopReason : Type 0 where
  timeout rate_limit : StopReason

pub data Notice : Type 0 where
  event : Text → (dropped_lines : ℕ) → (quiet : Bool) → Notice
  exited : (exit_code : Option ℕ) → (dropped_lines : ℕ) → (passive quiet : Bool) → Notice
  stopped_for : StopReason → (dropped_lines : ℕ) → Notice

-- What is read of the manager's exit event.
pub record ExitEvent : Type 0 where
  pub exit_code : Option ℕ
  pub signal : Option String
  pub end_reason : Option String

pub record Watched : Type 0 where
  pub batcher : LineBatcher
  pub limiter : RateLimiter
  pub saturation : SaturationWindow
  pub dropped_lines_pending : ℕ
  pub timeout_timer : Bool
  pub stopped : Bool
  pub stop_requested : Bool
  pub last_event_at : Option ℕ
  pub listed : Bool  -- is the entry in the map?
  pub stopping : List StopReason
  pub notices : List Notice

abbrev pub saturation_window_ms : ℕ
saturation_window_ms = 30000

abbrev pub saturation_min_batches : ℕ
saturation_min_batches = 10

abbrev pub exit_after_event_ms : ℕ
exit_after_event_ms = 2000

-- The entry that `start` makes; the ratio of the window is one half.
unfoldable pub new : (max_line max_batch capacity refill : ℕ) → (has_timeout : Bool) → Watched
new max_line max_batch capacity refill has_timeout = record {
  batcher = Batcher.new max_line max_batch;
  limiter = Limiter.new capacity refill;
  saturation = Window.new saturation_window_ms 1 2 saturation_min_batches;
  dropped_lines_pending = 0;
  timeout_timer = has_timeout;
  stopped = false;
  stop_requested = false;
  last_event_at = none;
  listed = true;
  stopping = [];
  notices = [];
}

unfoldable pub cleanup : Watched → Watched
cleanup w = record w {
  stopped = true;
  batcher = Batcher.dispose w.batcher;
  limiter = Limiter.dispose w.limiter;
  timeout_timer = false;
  listed = false;
}

-- `autoStop` and `timeout` up to their wait.
unfoldable pub begin_stop : StopReason → Watched → Watched
begin_stop reason w =
    if w.stopped then w else record w { stopped = true; stopping = w.stopping ++ reason ∷ [] }

-- And after it.
unfoldable pub end_stop : Watched → Watched
unfolding cleanup
end_stop w = elim w.stopping [
  | [] ↦ w
  | reason ∷ later ↦ cleanup (record w {
    stopping = later;
    notices = w.notices ++ stopped_for reason w.dropped_lines_pending ∷ [];
  })
]

-- How many lines a text has.
abbrev pub line_count : Text → ℕ
line_count text = suc (length (split text).0)

unfoldable pub on_batch : (now : ℕ) → Text → Watched → Watched
unfolding begin_stop
on_batch now text w =
    let r = try_consume w.limiter 1 in
    let sampled = record_sample w.saturation (not r.1) now in
    let saturated = is_saturated sampled now in
    let dropping = record w {
      limiter = r.0;
      saturation = saturated.0;
      dropped_lines_pending = w.dropped_lines_pending + line_count text;
    } in
    if w.stopped
    then w
    else if r.1
    then record w {
      limiter = r.0;
      saturation = sampled;
      dropped_lines_pending = 0;
      last_event_at = some now;
      notices = w.notices ++ event text w.dropped_lines_pending w.stop_requested ∷ [];
    }
    else if saturated.1 && not w.stop_requested
    then begin_stop rate_limit dropping
    else dropping

-- What the batcher hands over goes to `onBatch`.
unfoldable pub take_batch : (now : ℕ) → LineBatcher × Option Text → Watched → Watched
unfolding on_batch
take_batch now r w = elim r.1 [
  | none ↦ record w { batcher = r.0 }
  | some text ↦ on_batch now text (record w { batcher = r.0 })
]

-- The end of `acceptOutput`.
unfoldable pub push : Text → Watched → Watched
push chunk w = record w { batcher = Batcher.push w.batcher chunk }

-- The callbacks of the batcher's timeout, of the limiter's interval and of the monitor's timeout.
unfoldable pub fire_batcher : (now : ℕ) → Watched → Watched
unfolding take_batch
fire_batcher now w = take_batch now (Batcher.fire w.batcher) w

unfoldable pub refill : Watched → Watched
refill w = record w { limiter = Limiter.refill w.limiter }

unfoldable pub fire_timeout : Watched → Watched
unfolding begin_stop
fire_timeout w = if w.timeout_timer then begin_stop timeout w else w

-- `noteStopRequested`, and the undo it returns for a stop that fails.
unfoldable pub note_stop_requested : Watched → Watched
note_stop_requested w = if w.listed then record w { stop_requested = true } else w

unfoldable pub undo_stop_requested : Watched → Watched
undo_stop_requested w = record w { stop_requested = false }

abbrev pub is_plain : Option String → Bool
is_plain none = true
is_plain (some reason) = reason ==ₛ "exited"

-- A signal that is falsy: none, or the empty one.
abbrev pub is_blank : Option String → Bool
is_blank none = true
is_blank (some signal) = signal ==ₛ ""

abbrev pub is_zero : Option ℕ → Bool
is_zero none = false
is_zero (some code) = code == 0

abbrev pub is_recent : ℕ → Option ℕ → Bool
is_recent now none = false
is_recent now (some at) = leb now (at + exit_after_event_ms)

-- A clean exit soon after an event.
unfoldable pub caused_by_event : (now : ℕ) → ExitEvent → Watched → Bool
caused_by_event now x w =
    is_zero x.exit_code
    && is_blank x.signal
    && is_plain x.end_reason
    && is_recent now w.last_event_at

-- `handleExit` for an entry of the map, and whether it closed one.
unfoldable pub handle_exit : (now : ℕ) → ExitEvent → Watched → Watched × Bool
unfolding take_batch cleanup caused_by_event
handle_exit now x w =
    let flushed = take_batch now (Batcher.flush w.batcher) w in
    let closed = cleanup flushed in
    if not w.listed then (w, false) else if flushed.stopped then (closed, true) else (
      record closed {
        notices =
            closed.notices
            ++ exited x.exit_code closed.dropped_lines_pending
                (caused_by_event now x closed || w.stop_requested) w.stop_requested
              ∷ [];
      },
      true,
    )

-- `disposeAll`, for the entry.
unfoldable pub dispose : Watched → Watched
unfolding cleanup
dispose w = if w.listed then cleanup w else w
