-- ===== src/Batching/Batcher.antt =====
-- `LineBatcher` of extension/src/monitor-batching.ts. A method returns the batcher and what it
-- hands to `onFlush`, if anything; `timer` says whether the window's timeout is pending.
pub mod Laws
pub mod Emission
pub mod Lossless
use pi_better_subagents.Prelude.{
  ℕ, ◌<◌, Bool, true, false, ◌&&◌, ◌||◌, Option, none, some, List, [], ◌∷◌, ◌++◌, map, length, take,
  ltb, leb, ◌==◌, if◌then◌else◌,
}
use pi_better_subagents.Batching.Lines.{Text, ellipsis, split, join, slice_tail}

pub record LineBatcher : Type 0 where
  pub max_line_chars : ℕ
  pub max_batch_chars : ℕ
  pub partial : Text
  pub lines : List Text
  pub timer : Bool
  pub disposed : Bool

unfoldable pub new : ℕ → ℕ → LineBatcher
new max_line max_batch = record {
  max_line_chars = max_line;
  max_batch_chars = max_batch;
  partial = [];
  lines = [];
  timer = false;
  disposed = false;
}

unfoldable pub cap_line : LineBatcher → Text → Text
cap_line b line = if leb (length line) b.max_line_chars then line else take b.max_line_chars line

-- A pending timer is kept, else one is set: pending either way.
unfoldable pub schedule : LineBatcher → LineBatcher
schedule b = record b { timer = true }

unfoldable pub push : LineBatcher → Text → LineBatcher
unfolding schedule
push b chunk =
    if b.disposed || length chunk == 0
    then b
    else (let parts = split (b.partial ++ chunk) in
        let b' = record b { partial = parts.1; lines = b.lines ++ map (cap_line b) parts.0 } in
        if ltb 0 (length b'.lines) || ltb 0 (length b'.partial) then schedule b' else b')

-- The text of a batch, before the cap on its size.
unfoldable pub batch_text : List Text → Text → Text
batch_text lines partial =
    if ltb 0 (length partial) then join (lines ++ partial ∷ []) else join lines

unfoldable pub cap_batch : ℕ → Text → Text
cap_batch max text = if ltb max (length text) then ellipsis ∷ slice_tail max text else text

unfoldable pub non_empty : Text → Option Text
non_empty [] = none
non_empty (c ∷ s) = some (c ∷ s)

-- The unfinished line as a batch shows it.
unfoldable pub partial_text : LineBatcher → Text
unfolding cap_line
partial_text b = if ltb 0 (length b.partial) then cap_line b b.partial else []

unfoldable pub emit : LineBatcher → LineBatcher × Option Text
unfolding partial_text
emit b =
    let partial = partial_text b in
    if length b.lines == 0 && length partial == 0 then (b, none) else (
      record b { lines = []; partial = [] },
      non_empty (cap_batch b.max_batch_chars (batch_text b.lines partial)),
    )

unfoldable pub clear_timer : LineBatcher → LineBatcher
clear_timer b = record b { timer = false }

unfoldable pub flush : LineBatcher → LineBatcher × Option Text
unfolding emit clear_timer
flush b = if b.disposed then (b, none) else emit (clear_timer b)

-- The callback of the timeout that `schedule` sets. A cleared timeout does not fire.
unfoldable pub fire : LineBatcher → LineBatcher × Option Text
unfolding emit clear_timer
fire b = if b.timer then emit (clear_timer b) else (b, none)

unfoldable pub dispose : LineBatcher → LineBatcher
unfolding clear_timer
dispose b = record (clear_timer b) { disposed = true; lines = []; partial = [] }

-- What happens to a batcher.
pub data Event : Type 0 where
  pushes : Text → Event
  flushes fires disposes : Event

unfoldable pub step : LineBatcher → Event → LineBatcher × Option Text
unfolding push flush fire dispose
step b (pushes chunk) = (push b chunk, none)
step b flushes = flush b
step b fires = fire b
step b disposes = (dispose b, none)

-- Every batch that a history of events hands over, in order.
unfoldable pub run : LineBatcher → List Event → LineBatcher × List Text
unfolding step
run b [] = (b, [])
run b (e ∷ es) =
    let b' = step b e in
    let rest = run b'.0 es in (rest.0, (elim b'.1 [ none ↦ rest.1 | some t ↦ t ∷ rest.1 ]))
