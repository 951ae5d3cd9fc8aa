-- ===== src/Monitor/Watch/Ends.antt =====
-- How a monitor of extension/src/monitor.ts ends, over a history of output, timers and stops.
use pi_better_subagents.Prelude.{
  ℕ, ◌+◌, ◌≤◌, ◌≡◌, refl, ap, Bool, true, false, not, ◌&&◌, Option, some, List, [], ◌∷◌, ◌++◌,
  length, count_if, length-append, if_both, if_cases, option_both, arith,
}
use pi_better_subagents.Batching.Lines.{Text}
use pi_better_subagents.Batching.Batcher.{LineBatcher}
use pi_better_subagents.Batching.Batcher
use pi_better_subagents.Batching.Limiter.{try_consume}
use pi_better_subagents.Batching.Window.{record_sample, is_saturated}
use pi_better_subagents.Monitor.Watch.{
  StopReason, timeout, rate_limit, Notice, event, exited, stopped_for, ExitEvent, Watched, new,
  cleanup, begin_stop, end_stop, on_batch, take_batch, push, fire_batcher, refill, fire_timeout,
  note_stop_requested, undo_stop_requested, handle_exit, dispose, line_count,
}

pub data Event : Type 0 where
  outputs : Text → Event
  batches : (now : ℕ) → Event
  refills times_out stops_end disposes requests undoes : Event
  exits : (now : ℕ) → ExitEvent → Event

unfoldable pub step : Watched → Event → Watched
step w (outputs chunk) = push chunk w
step w (batches now) = fire_batcher now w
step w refills = refill w
step w times_out = fire_timeout w
step w stops_end = end_stop w
step w disposes = dispose w
step w requests = note_stop_requested w
step w undoes = undo_stop_requested w
step w (exits now x) = (handle_exit now x w).0

unfoldable pub run : Watched → List Event → Watched
run w [] = w
run w (e ∷ es) = run (step w e) es

abbrev pub is_end : Notice → Bool
is_end (event text dropped quiet) = false
is_end (exited code dropped passive quiet) = true
is_end (stopped_for reason dropped) = true

abbrev pub end_count : List Notice → ℕ
end_count = count_if is_end

-- After a notice of the end comes no other notice.
abbrev pub EndsLast : List Notice → Type 0
EndsLast [] = Unit
EndsLast (n ∷ ns) = (is_end n ≡ true → ns ≡ []) × EndsLast ns

abbrev to_ℕ : Bool → ℕ
to_ℕ true = 1
to_ℕ false = 0

record IsSound (w : Watched) : Type 0 where
  once : end_count w.notices + length w.stopping ≤ to_ℕ w.stopped
  order : EndsLast w.notices

EndsLast-snoc :
    (ns : List Notice) (n : Notice) → end_count ns ≡ 0 → EndsLast ns → EndsLast (ns ++ n ∷ [])
EndsLast-snoc [] n e h = (λ x. refl, tt)
EndsLast-snoc (m ∷ ns) n e (f, h) = (λ x. ground (arith, x, e), EndsLast-snoc ns n (ground arith) h)

end_count-snoc :
    (ns : List Notice) (n : Notice) → end_count (ns ++ n ∷ []) ≡ end_count ns + to_ℕ (is_end n)
end_count-snoc [] n = ground arith
end_count-snoc (m ∷ ns) n = ground (arith, end_count-snoc ns n)

-- A monitor that is not stopped has sent no notice of its end.
begin_stop-IsSound : (r : StopReason) (w : Watched) → IsSound w → IsSound (begin_stop r w)
unfolding begin_stop
begin_stop-IsSound r w s =
    let more = length-append w.stopping (r ∷ []) in
    if_cases IsSound w.stopped (λ over. s)
      (λ live. record { once = ground (arith, more, s.once, live); order = s.order })

sent-IsSound :
    (text : Text) (dropped : ℕ) (quiet : Bool) (w : Watched)
    → w.stopped ≡ false
    → IsSound w
    → IsSound (record w { notices = w.notices ++ event text dropped quiet ∷ [] })
sent-IsSound text dropped quiet w live s =
    let more = end_count-snoc w.notices (event text dropped quiet) in
    record {
      once = ground (arith, more, s.once);
      order =
          EndsLast-snoc w.notices (event text dropped quiet) (ground (arith, s.once, live)) s.order;
    }

on_batch-IsSound : (now : ℕ) (text : Text) (w : Watched) → IsSound w → IsSound (on_batch now text w)
unfolding on_batch
on_batch-IsSound now text w s =
    let r = try_consume w.limiter 1 in
    let sampled = record_sample w.saturation (not r.1) now in
    let saturated = is_saturated sampled now in
    let taken : Watched = record w {
      limiter = r.0;
      saturation = sampled;
      dropped_lines_pending = 0;
      last_event_at = some now;
    } in
    let dropping : Watched = record w {
      limiter = r.0;
      saturation = saturated.0;
      dropped_lines_pending = w.dropped_lines_pending + line_count text;
    } in
    let dropping_sound : IsSound dropping = record { once = s.once; order = s.order } in
    if_cases IsSound w.stopped (λ over. s)
      (λ live.
        if_both IsSound r.1
          (sent-IsSound text w.dropped_lines_pending w.stop_requested taken live
            (record { once = s.once; order = s.order }))
          (if_both IsSound (saturated.1 && not w.stop_requested)
            (begin_stop-IsSound rate_limit dropping dropping_sound) dropping_sound))

take_batch-IsSound :
    (now : ℕ) (r : LineBatcher × Option Text) (w : Watched)
    → IsSound w
    → IsSound (take_batch now r w)
unfolding take_batch
take_batch-IsSound now r w s =
    let rest : Watched = record w { batcher = r.0 } in
    let rest_sound : IsSound rest = record { once = s.once; order = s.order } in
    option_both IsSound r.1 rest_sound (λ text. on_batch-IsSound now text rest rest_sound)

to_ℕ-bound : (b : Bool) → to_ℕ b ≤ 1
to_ℕ-bound true = ground arith
to_ℕ-bound false = ground arith

cleanup-IsSound : (w : Watched) → IsSound w → IsSound (cleanup w)
unfolding cleanup
cleanup-IsSound w s = record { once = omega (arith, s.once, to_ℕ-bound w.stopped); order = s.order }

end_stop-IsSound : (w : Watched) → IsSound w → IsSound (end_stop w)
unfolding end_stop
end_stop-IsSound w s = by_cases w.stopping refl
  where
    by_cases :
        (found : List StopReason)
        → w.stopping ≡ found
        → IsSound (elim found [
          | [] ↦ w
          | reason ∷ later ↦ cleanup (record w {
            stopping = later;
            notices = w.notices ++ stopped_for reason w.dropped_lines_pending ∷ [];
          })
        ])
    by_cases [] e = s
    by_cases (reason ∷ later) e =
        let ending = stopped_for reason w.dropped_lines_pending in
        let waiting = ap length e in
        cleanup-IsSound (record w { stopping = later; notices = w.notices ++ ending ∷ [] })
          (record {
            once = omega (arith, waiting, s.once, end_count-snoc w.notices ending);
            order =
                EndsLast-snoc w.notices ending
                  (omega (arith, waiting, s.once, to_ℕ-bound w.stopped)) s.order;
          })

-- A monitor that was not stopped closes with the notice of its exit.
closed-IsSound :
    (code : Option ℕ) (passive quiet : Bool) (w : Watched)
    → w.stopped ≡ false
    → IsSound w
    → IsSound (record (cleanup w) {
      notices =
          (cleanup w).notices ++ exited code (cleanup w).dropped_lines_pending passive quiet ∷ [];
    })
unfolding cleanup
closed-IsSound code passive quiet w live s =
    let ending = exited code w.dropped_lines_pending passive quiet in
    let more = end_count-snoc w.notices ending in
    record {
      once = ground (arith, more, s.once);
      order = EndsLast-snoc w.notices ending (ground (arith, s.once)) s.order;
    }

handle_exit-IsSound :
    (now : ℕ) (x : ExitEvent) (w : Watched) → IsSound w → IsSound (handle_exit now x w).0
unfolding handle_exit
handle_exit-IsSound now x w s =
    let flushed = take_batch now (Batcher.flush w.batcher) w in
    let sound : IsSound flushed = take_batch-IsSound now (Batcher.flush w.batcher) w s in
    if_both (λ (r : Watched × Bool). IsSound r.0) (not w.listed) s
      (if_cases (λ (r : Watched × Bool). IsSound r.0) flushed.stopped
        (λ over. cleanup-IsSound flushed sound)
        (λ live. closed-IsSound x.exit_code _ w.stop_requested flushed live sound))

fire_timeout-IsSound : (w : Watched) → IsSound w → IsSound (fire_timeout w)
unfolding fire_timeout
fire_timeout-IsSound w s = if_both IsSound w.timeout_timer (begin_stop-IsSound timeout w s) s

note-IsSound : (w : Watched) → IsSound w → IsSound (note_stop_requested w)
unfolding note_stop_requested
note-IsSound w s = if_both IsSound w.listed (record { once = s.once; order = s.order }) s

dispose-IsSound : (w : Watched) → IsSound w → IsSound (dispose w)
unfolding dispose
dispose-IsSound w s = if_both IsSound w.listed (cleanup-IsSound w s) s

step-IsSound : (w : Watched) (e : Event) → IsSound w → IsSound (step w e)
unfolding step push fire_batcher refill undo_stop_requested
step-IsSound w (outputs chunk) s = record { once = s.once; order = s.order }
step-IsSound w (batches now) s = take_batch-IsSound now (Batcher.fire w.batcher) w s
step-IsSound w refills s = record { once = s.once; order = s.order }
step-IsSound w times_out s = fire_timeout-IsSound w s
step-IsSound w stops_end s = end_stop-IsSound w s
step-IsSound w disposes s = dispose-IsSound w s
step-IsSound w requests s = note-IsSound w s
step-IsSound w undoes s = record { once = s.once; order = s.order }
step-IsSound w (exits now x) s = handle_exit-IsSound now x w s

run-IsSound : (w : Watched) (es : List Event) → IsSound w → IsSound (run w es)
unfolding run
run-IsSound w [] s = s
run-IsSound w (e ∷ es) s = run-IsSound (step w e) es (step-IsSound w e s)

new-IsSound :
    (max_line max_batch capacity refilled : ℕ) (has_timeout : Bool)
    → IsSound (new max_line max_batch capacity refilled has_timeout)
unfolding new
new-IsSound max_line max_batch capacity refilled has_timeout = record {
  once = ground arith;
  order = tt;
}

-- Over any history of a new monitor, of output, timers, stops and exits in any order, at most one
-- notice says that it ended, by its exit, its timeout or its rate, and no notice comes after it.
pub run-EndsLast :
    (max_line max_batch capacity refilled : ℕ) (has_timeout : Bool) (es : List Event)
    → (end_count (run (new max_line max_batch capacity refilled has_timeout) es).notices ≤ 1)
      × EndsLast (run (new max_line max_batch capacity refilled has_timeout) es).notices
run-EndsLast max_line max_batch capacity refilled has_timeout es =
    let start = new max_line max_batch capacity refilled has_timeout in
    let s = run-IsSound start es (new-IsSound max_line max_batch capacity refilled has_timeout) in
    (omega (arith, s.once, to_ℕ-bound (run start es).stopped), s.order)
