-- ===== src/Batching/Batcher/Laws.antt =====
-- The invariant of `LineBatcher` of extension/src/monitor-batching.ts, and `push` over chunks.
use pi_better_subagents.Prelude.{
  ℕ, ◌≤◌, ◌<◌, ◌≡◌, refl, sym, subst, ap, ◌∙◌, inl, inr, Bool, true, false, List, [], ◌∷◌, ◌++◌,
  map, append_assoc, append-nil, length, length-append, length-take, nil_of_length, All, All-append,
  ltb, ◌||◌, Bool-cases, arith,
}
use mathlib.Core.List.{map-append}
use pi_better_subagents.Batching.Lines.{Text, split, split_from}
use pi_better_subagents.Batching.Lines.Laws.{
  NoNewline, split_from-append, split_from-NoNewline, split_from_of_NoNewline, glue,
  glue-split_from,
}
use pi_better_subagents.Batching.Batcher.{
  LineBatcher, Event, pushes, flushes, fires, disposes, new, cap_line, push, schedule, emit, flush,
  fire, dispose, clear_timer, step, run,
}

pub record IsValid (b : LineBatcher) : Type 0 where
  pub one_line : NoNewline b.partial
  pub capped : All (λ line. length line ≤ b.max_line_chars) b.lines
  pub idle_empty : b.timer ≡ false → (b.lines ≡ []) × (b.partial ≡ [])
  pub disposed_idle : b.disposed ≡ true → b.timer ≡ false
  pub positive : 0 < b.max_line_chars

cap_line-le : (b : LineBatcher) (line : Text) → length (cap_line b line) ≤ b.max_line_chars
unfolding cap_line
cap_line-le b line = ground (arith, length-take b.max_line_chars line)

map-cap_line :
    (b : LineBatcher) (lines : List Text)
    → All (λ line. length line ≤ b.max_line_chars) (map (cap_line b) lines)
map-cap_line b [] = tt
map-cap_line b (l ∷ ls) = (cap_line-le b l, map-cap_line b ls)

-- The rest of a line goes on where the last chunk stopped.
split-partial : (p chunk : Text) → NoNewline p → split (p ++ chunk) ≡ split_from p chunk
unfolding split
split-partial p chunk h = split_from-append [] p chunk ∙ rw (split_from_of_NoNewline [] p h) refl

-- A chunk that is not empty leaves something to wait for.
waits : LineBatcher → Text → Bool
waits b chunk =
    ltb 0 (length (b.lines ++ map (cap_line b) (split_from b.partial chunk).0))
    || ltb 0 (length (split_from b.partial chunk).1)

waits_of_chunk :
    (b : LineBatcher) (c : ℕ) (s : Text) (ps : List Text) (last : Text)
    → glue ps last ≡ b.partial ++ c ∷ s
    → (ltb 0 (length (b.lines ++ map (cap_line b) ps)) || ltb 0 (length last)) ≡ true
waits_of_chunk b c s [] last e = ground (arith, ap length e, length-append b.partial (c ∷ s))
waits_of_chunk b c s (p ∷ ps) last e =
    ground (arith, length-append b.lines (map (cap_line b) (p ∷ ps)))

-- The whole effect of a chunk on a live batcher.
pub push_lem :
    (b : LineBatcher) (c : ℕ) (s : Text)
    → NoNewline b.partial
    → b.disposed ≡ false
    → push b (c ∷ s) ≡ record b {
      partial = (split_from b.partial (c ∷ s)).1;
      lines = b.lines ++ map (cap_line b) (split_from b.partial (c ∷ s)).0;
      timer = true;
    }
unfolding push schedule
push_lem b c s h live = ground (
  arith,
  split-partial b.partial (c ∷ s) h,
  waits_of_chunk b c s (split_from b.partial (c ∷ s)).0 (split_from b.partial (c ∷ s)).1
      (glue-split_from b.partial (c ∷ s)),
)

pub push-nil : (b : LineBatcher) → push b [] ≡ b
unfolding push
push-nil b = ground arith

push_disposed : (b : LineBatcher) (chunk : Text) → b.disposed ≡ true → push b chunk ≡ b
unfolding push
push_disposed b chunk h = ground arith

pub push-NoNewline :
    (b : LineBatcher) (chunk : Text) → NoNewline b.partial → NoNewline (push b chunk).partial
push-NoNewline b [] h = rw (push-nil b) h
push-NoNewline b (c ∷ s) h = elim (Bool-cases b.disposed) [
  | inl dead ↦ rw (push_disposed b (c ∷ s) dead) h
  | inr live ↦ rw (push_lem b c s h live) (split_from-NoNewline b.partial (c ∷ s) h).1
]

push_live-IsValid :
    (b : LineBatcher) (c : ℕ) (s : Text) → b.disposed ≡ false → IsValid b → IsValid (push b (c ∷ s))
push_live-IsValid b c s live v = rw (push_lem b c s v.one_line live) (record {
  one_line = (split_from-NoNewline b.partial (c ∷ s) v.one_line).1;
  capped = All-append _ b.lines _ v.capped (map-cap_line b _);
  idle_empty = λ e. cc;
  disposed_idle = λ e. cc;
  positive = v.positive;
})

pub push-IsValid : (b : LineBatcher) (chunk : Text) → IsValid b → IsValid (push b chunk)
push-IsValid b [] v = rw (push-nil b) v
push-IsValid b (c ∷ s) v = elim (Bool-cases b.disposed) [
  | inl dead ↦ rw (push_disposed b (c ∷ s) dead) v
  | inr live ↦ push_live-IsValid b c s live v
]

-- With a cap of at least one unit per line `emit` always empties the buffer.
pub emit_empties :
    (b : LineBatcher) → 0 < b.max_line_chars → (emit b).0 ≡ record b { lines = []; partial = [] }
unfolding emit cap_line
emit_empties b h =
    ground (
      arith,
      nil_of_length b.lines,
      nil_of_length b.partial,
      length-take b.max_line_chars b.partial,
    )

emptied-IsValid :
    (b : LineBatcher)
    → 0 < b.max_line_chars
    → IsValid (record b { timer = false; lines = []; partial = [] })
emptied-IsValid b h = record {
  one_line = tt;
  capped = tt;
  idle_empty = λ _. (refl, refl);
  disposed_idle = λ _. refl;
  positive = h;
}

emit-IsValid : (b : LineBatcher) → 0 < b.max_line_chars → IsValid (emit (clear_timer b)).0
unfolding clear_timer
emit-IsValid b h = subst IsValid (sym (emit_empties (clear_timer b) h)) (emptied-IsValid b h)

flush-IsValid : (b : LineBatcher) → IsValid b → IsValid (flush b).0
unfolding flush
flush-IsValid b v = ground (arith, emit-IsValid b v.positive)

fire-IsValid : (b : LineBatcher) → IsValid b → IsValid (fire b).0
unfolding fire
fire-IsValid b v = ground (arith, emit-IsValid b v.positive)

dispose-IsValid : (b : LineBatcher) → IsValid b → IsValid (dispose b)
unfolding dispose clear_timer
dispose-IsValid b v = emptied-IsValid (record b { disposed = true }) v.positive

step-IsValid : (b : LineBatcher) (e : Event) → IsValid b → IsValid (step b e).0
unfolding step
step-IsValid b (pushes chunk) v = push-IsValid b chunk v
step-IsValid b flushes v = flush-IsValid b v
step-IsValid b fires v = fire-IsValid b v
step-IsValid b disposes v = dispose-IsValid b v

new-IsValid : (max_line max_batch : ℕ) → 0 < max_line → IsValid (new max_line max_batch)
unfolding new
new-IsValid max_line max_batch h = emptied-IsValid (new max_line max_batch) h

run_from-IsValid : (b : LineBatcher) (es : List Event) → IsValid b → IsValid (run b es).0
unfolding run
run_from-IsValid b [] v = v
run_from-IsValid b (e ∷ es) v = run_from-IsValid (step b e).0 es (step-IsValid b e v)

-- After any history of a new batcher whose line cap is positive: the unfinished part holds no
-- newline, every waiting line is within the cap, whatever waits has its timeout pending, and a
-- disposed batcher has none pending.
pub run-IsValid :
    (max_line max_batch : ℕ) (es : List Event)
    → 0 < max_line
    → IsValid (run (new max_line max_batch) es).0
run-IsValid max_line max_batch es h = run_from-IsValid _ es (new-IsValid max_line max_batch h)

push-push_live :
    (b : LineBatcher) (c : ℕ) (s : Text) (d : ℕ) (t : Text)
    → NoNewline b.partial
    → b.disposed ≡ false
    → push (push b (c ∷ s)) (d ∷ t) ≡ push b (c ∷ s ++ d ∷ t)
unfolding cap_line
push-push_live b c s d t h live =
    let keep = (split_from-NoNewline b.partial (c ∷ s) h).1 in
    rw (push_lem b c s h live, push_lem b c (s ++ d ∷ t) h live)
      (push_lem _ d t keep live
        ∙ rw (split_from-append b.partial (c ∷ s) (d ∷ t)) (rw (map-append, append_assoc)))

-- Cutting the output into other chunks does not change the batcher: two chunks leave it as one
-- chunk of both does.
pub push-push :
    (b : LineBatcher) (chunk more : Text)
    → NoNewline b.partial
    → push (push b chunk) more ≡ push b (chunk ++ more)
push-push b [] more h = rw (push-nil b) refl
push-push b (c ∷ s) [] h = rw (push-nil (push b (c ∷ s)), append-nil s) refl
push-push b (c ∷ s) (d ∷ t) h = elim (Bool-cases b.disposed) [
  | inl dead ↦
      rw
        (
          push_disposed b (c ∷ s) dead,
          push_disposed b (d ∷ t) dead,
          push_disposed b (c ∷ s ++ d ∷ t) dead,
        )
        refl
  | inr live ↦ push-push_live b c s d t h live
]
