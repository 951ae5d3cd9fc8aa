-- ===== src/Batching/Batcher/Emission.antt =====
-- What a `LineBatcher` of extension/src/monitor-batching.ts hands over: `emit`, `flush`,
-- `dispose`.
use pi_better_subagents.Prelude.{
  ℕ, suc, ◌≤◌, ◌<◌, ◌≡◌, refl, sym, subst, true, false, Option, none, some, List, [], ◌∷◌, length,
  All, arith,
}
use pi_better_subagents.Batching.Lines.{Text, slice_tail}
use pi_better_subagents.Batching.Lines.Laws.{length-slice_tail}
use pi_better_subagents.Batching.Batcher.{
  LineBatcher, Event, pushes, flushes, fires, disposes, push, schedule, emit, flush, fire, dispose,
  clear_timer, non_empty, cap_batch, batch_text, partial_text, step, run,
}

-- A batch that is handed over holds something and keeps to the cap.
abbrev pub FitsBatch : ℕ → Text → Type 0
FitsBatch max text = (0 < length text) × (length text ≤ max)

abbrev FitsOption : ℕ → Option Text → Type 0
FitsOption max none = Unit
FitsOption max (some text) = FitsBatch max text

cap_batch-le : (max : ℕ) (text : Text) → 1 < max → length (cap_batch max text) ≤ max
unfolding cap_batch
cap_batch-le max text h = ground (arith, length-slice_tail max text h)

non_empty-Fits : (max : ℕ) (text : Text) → length text ≤ max → FitsOption max (non_empty text)
unfolding non_empty
non_empty-Fits max [] h = tt
non_empty-Fits max (c ∷ s) h = (omega arith, h)

emit-Fits : (b : LineBatcher) → 1 < b.max_batch_chars → FitsOption b.max_batch_chars (emit b).1
unfolding emit
emit-Fits b h =
    let text = batch_text b.lines (partial_text b) in
    ground (
      arith,
      non_empty-Fits b.max_batch_chars (cap_batch b.max_batch_chars text)
          (cap_batch-le b.max_batch_chars text h),
    )

emit-max : (b : LineBatcher) → (emit b).0.max_batch_chars ≡ b.max_batch_chars
unfolding emit
emit-max b = ground arith

flush-Fits : (b : LineBatcher) → 1 < b.max_batch_chars → FitsOption b.max_batch_chars (flush b).1
unfolding flush clear_timer
flush-Fits b h = ground (arith, emit-Fits (clear_timer b) h)

fire-Fits : (b : LineBatcher) → 1 < b.max_batch_chars → FitsOption b.max_batch_chars (fire b).1
unfolding fire clear_timer
fire-Fits b h = ground (arith, emit-Fits (clear_timer b) h)

step-Fits :
    (b : LineBatcher) (e : Event)
    → 1 < b.max_batch_chars
    → FitsOption b.max_batch_chars (step b e).1
unfolding step
step-Fits b (pushes chunk) h = tt
step-Fits b flushes h = flush-Fits b h
step-Fits b fires h = fire-Fits b h
step-Fits b disposes h = tt

step-max : (b : LineBatcher) (e : Event) → (step b e).0.max_batch_chars ≡ b.max_batch_chars
unfolding step push schedule flush fire dispose clear_timer
step-max b (pushes chunk) = ground arith
step-max b flushes = ground (arith, emit-max (clear_timer b))
step-max b fires = ground (arith, emit-max (clear_timer b))
step-max b disposes = refl

All-option :
    (max : ℕ) (o : Option Text) (texts : List Text)
    → FitsOption max o
    → All (FitsBatch max) texts
    → All (FitsBatch max) (elim o [ none ↦ texts | some t ↦ t ∷ texts ])
All-option max none texts h hs = hs
All-option max (some t) texts h hs = (h, hs)

-- With a batch cap of two or more, no history of events makes a batcher hand over an empty batch
-- or one above the cap, the ellipsis included.
pub run-FitsBatch :
    (b : LineBatcher) (es : List Event)
    → 1 < b.max_batch_chars
    → All (FitsBatch b.max_batch_chars) (run b es).1
unfolding run
run-FitsBatch b [] h = tt
run-FitsBatch b (e ∷ es) h =
    All-option b.max_batch_chars (step b e).1 (run (step b e).0 es).1 (step-Fits b e h) (
      subst (λ max. All (FitsBatch max) (run (step b e).0 es).1) (step-max b e)
        (run-FitsBatch (step b e).0 es (subst (λ max. 1 < max) (sym (step-max b e)) h)))

-- A dropped guard of a batcher: nothing is pending and it is disposed.
abbrev IsDead : LineBatcher → Type 0
IsDead b = (b.disposed ≡ true) × (b.timer ≡ false)

step-IsDead : (b : LineBatcher) (e : Event) → IsDead b → IsDead (step b e).0 × ((step b e).1 ≡ none)
unfolding step push flush fire dispose clear_timer
step-IsDead b (pushes chunk) h = ground arith
step-IsDead b flushes h = ground arith
step-IsDead b fires h = ground arith
step-IsDead b disposes h = ground arith

run-IsDead : (b : LineBatcher) (es : List Event) → IsDead b → (run b es).1 ≡ []
unfolding run
run-IsDead b [] h = refl
run-IsDead b (e ∷ es) h = ground (arith, step-IsDead b e h, run-IsDead (step b e).0 es)

-- After `dispose` nothing is handed over any more, whatever is pushed, flushed or fires.
pub run-dispose : (b : LineBatcher) (es : List Event) → (run (dispose b) es).1 ≡ []
unfolding dispose clear_timer
run-dispose b es = run-IsDead _ es (refl, refl)

-- A cap of one does not cap: `slice(-0)` keeps the whole batch, and the ellipsis is added.
pub cap_batch_one :
    (c d : ℕ) (text : Text) → length (cap_batch 1 (c ∷ d ∷ text)) ≡ suc (suc (suc (length text)))
unfolding cap_batch slice_tail
cap_batch_one c d text = ground arith
