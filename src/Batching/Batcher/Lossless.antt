-- ===== src/Batching/Batcher/Lossless.antt =====
-- The text that `LineBatcher` of extension/src/monitor-batching.ts is fed, and what `flush`
-- returns.
use pi_better_subagents.Prelude.{
  ℕ, ◌≤◌, ◌≡◌, refl, sym, ap, subst, ◌∙◌, ◌≢◌, true, false, none, List, [], ◌∷◌, ◌++◌, map, length,
  nil_of_length, All, ◌==◌, if◌then◌else◌, arith,
}
use mathlib.Core.List.{flatten}
use pi_better_subagents.Batching.Lines.{Text, newline, split, join}
use pi_better_subagents.Batching.Lines.Laws.{
  NoNewline, split_from-NoNewline, glue, glue-split_from, join-snoc, glue-nil,
}
use pi_better_subagents.Batching.Batcher.{
  LineBatcher, new, push, cap_line, partial_text, batch_text, cap_batch, non_empty, emit, flush,
  clear_timer,
}
use pi_better_subagents.Batching.Batcher.Laws.{push_lem, push-NoNewline, push-nil, push-push}

-- Chunk after chunk.
abbrev pub feed : LineBatcher → List Text → LineBatcher
feed b [] = b
feed b (chunk ∷ chunks) = feed (push b chunk) chunks

-- The text without a newline at its end.
abbrev pub strip_newline : Text → Text
strip_newline [] = []
strip_newline (c ∷ []) = if c == newline then [] else c ∷ []
strip_newline (c ∷ d ∷ s) = c ∷ strip_newline (d ∷ s)

strip_newline-snoc : (s : Text) → strip_newline (s ++ newline ∷ []) ≡ s
strip_newline-snoc [] = refl
strip_newline-snoc (c ∷ []) = refl
strip_newline-snoc (c ∷ d ∷ s) = ap (λ (t : Text). c ∷ t) (strip_newline-snoc (d ∷ s))

strip_newline_of_NoNewline : (s : Text) → NoNewline s → strip_newline s ≡ s
strip_newline_of_NoNewline [] h = refl
strip_newline_of_NoNewline (c ∷ []) h = ground arith
strip_newline_of_NoNewline (c ∷ d ∷ s) h =
    ap (λ (t : Text). c ∷ t) (strip_newline_of_NoNewline (d ∷ s) h.1)

strip_newline-append :
    (s : Text) (c : ℕ) (t : Text) → strip_newline (s ++ c ∷ t) ≡ s ++ strip_newline (c ∷ t)
strip_newline-append [] c t = refl
strip_newline-append (a ∷ []) c t = refl
strip_newline-append (a ∷ b ∷ s) c t = ap (λ (t' : Text). a ∷ t') (strip_newline-append (b ∷ s) c t)

strip_newline-cons : (a : ℕ) (t : Text) → t ≢ [] → strip_newline (a ∷ t) ≡ a ∷ strip_newline t
strip_newline-cons a [] h = absurd (h refl)
strip_newline-cons a (b ∷ t) h = refl

glue-ne-nil : (ps : List Text) (c : ℕ) (last : Text) → glue ps (c ∷ last) ≢ []
glue-ne-nil [] c last e = cc
glue-ne-nil ([] ∷ ps) c last e = cc
glue-ne-nil ((a ∷ p) ∷ ps) c last e = cc

strip_newline-glue :
    (ps : List Text) (c : ℕ) (last : Text)
    → NoNewline (c ∷ last)
    → strip_newline (glue ps (c ∷ last)) ≡ glue ps (c ∷ last)
strip_newline-glue [] c last h = strip_newline_of_NoNewline (c ∷ last) h
strip_newline-glue (p ∷ ps) c last h =
    strip_newline-append p newline (glue ps (c ∷ last))
    ∙ ap (λ (t : Text). p ++ t)
        (strip_newline-cons newline (glue ps (c ∷ last)) (glue-ne-nil ps c last)
          ∙ ap (λ (t : Text). newline ∷ t) (strip_newline-glue ps c last h))

-- The text of a batch is the glued text without a newline at its end.
batch_text-strip :
    (ps : List Text) (last : Text)
    → NoNewline last
    → batch_text ps last ≡ strip_newline (glue ps last)
unfolding batch_text join
batch_text-strip [] [] h = refl
batch_text-strip (p ∷ ps) [] h = sym (rw (glue-nil p ps) (strip_newline-snoc _))
batch_text-strip ps (c ∷ last) h =
    ground (arith, join-snoc ps (c ∷ last), strip_newline-glue ps c last h)

-- Lines within the cap are kept whole.
map-cap_line_of_fits :
    (b : LineBatcher) (ps : List Text)
    → All (λ p. length p ≤ b.max_line_chars) ps
    → map (cap_line b) ps ≡ ps
unfolding cap_line
map-cap_line_of_fits b [] h = refl
map-cap_line_of_fits b (p ∷ ps) (h, hs) = ground (arith, map-cap_line_of_fits b ps hs)

partial_text_of_fits :
    (b : LineBatcher) → length b.partial ≤ b.max_line_chars → partial_text b ≡ b.partial
unfolding partial_text cap_line
partial_text_of_fits b h = ground (arith, nil_of_length b.partial)

cap_batch_of_fits : (max : ℕ) (text : Text) → length text ≤ max → cap_batch max text ≡ text
unfolding cap_batch
cap_batch_of_fits max text h = ground arith

batch_text_nothing :
    (ls : List Text) (last : Text) → ls ≡ [] → last ≡ [] → non_empty (batch_text ls last) ≡ none
unfolding batch_text join non_empty
batch_text_nothing ls last e f = rw (e, f)

-- `emit` hands over the text of the batch, also where it returns early.
emit_text :
    (b : LineBatcher)
    → length b.partial ≤ b.max_line_chars
    → length (batch_text b.lines b.partial) ≤ b.max_batch_chars
    → (emit b).1 ≡ non_empty (batch_text b.lines b.partial)
unfolding emit
emit_text b h k = ground (
  arith,
  partial_text_of_fits b h,
  cap_batch_of_fits b.max_batch_chars (batch_text b.lines b.partial) k,
  nil_of_length b.lines,
  nil_of_length b.partial,
  batch_text_nothing b.lines b.partial,
)

length-strip_newline : (s : Text) → length (strip_newline s) ≤ length s
length-strip_newline [] = omega arith
length-strip_newline (c ∷ []) = ground arith
length-strip_newline (c ∷ d ∷ s) = omega (arith, length-strip_newline (d ∷ s))

feed-push :
    (b : LineBatcher) (chunks : List Text)
    → NoNewline b.partial
    → feed b chunks ≡ push b (flatten chunks)
unfolding flatten
feed-push b [] h = sym (push-nil b)
feed-push b (chunk ∷ chunks) h =
    feed-push (push b chunk) chunks (push-NoNewline b chunk h)
    ∙ push-push b chunk (flatten chunks) h

-- The lines of a text, the unfinished one included, keep to a cap.
abbrev pub FitsLines : ℕ → Text → Type 0
FitsLines max text = All (λ line. length line ≤ max) (split text).0 × (length (split text).1 ≤ max)

fed : LineBatcher → Text → LineBatcher
fed b text = record b {
  partial = (split text).1;
  lines = map (cap_line b) (split text).0;
  timer = true;
}

fed-text :
    (b : LineBatcher) (text : Text)
    → FitsLines b.max_line_chars text
    → batch_text (fed b text).lines (fed b text).partial ≡ strip_newline text
unfolding fed split
fed-text b text fits =
    ap (λ (ls : List Text). batch_text ls (split text).1) (map-cap_line_of_fits b _ fits.0)
    ∙ batch_text-strip _ _ (split_from-NoNewline [] text tt).1
    ∙ ap strip_newline (glue-split_from [] text)

flush-fed :
    (b : LineBatcher) (text : Text)
    → b.disposed ≡ false
    → FitsLines b.max_line_chars text
    → length text ≤ b.max_batch_chars
    → (flush (fed b text)).1 ≡ non_empty (strip_newline text)
unfolding flush fed clear_timer
flush-fed b text live fits h =
    let same = fed-text b text fits in
    let fit =
      subst (λ t. length t ≤ b.max_batch_chars) (sym same)
        (omega (arith, length-strip_newline text)) in
    ground (arith, emit_text (clear_timer (fed b text)) fits.1 fit, same)

flush-push :
    (max_line max_batch : ℕ) (text : Text)
    → FitsLines max_line text
    → length text ≤ max_batch
    → (flush (push (new max_line max_batch) text)).1 ≡ non_empty (strip_newline text)
unfolding new
flush-push max_line max_batch [] fits h = rw (push-nil (new max_line max_batch)) flushed
  where
    flushed : (flush (new max_line max_batch)).1 ≡ non_empty []
    flushed = unfold flush emit clear_timer partial_text non_empty in refl
flush-push max_line max_batch (c ∷ s) fits h =
    rw (push_lem (new max_line max_batch) c s tt refl)
      (unfold fed split in flush-fed (new max_line max_batch) (c ∷ s) refl fits h)

-- A new batcher that is fed any chunks and flushed hands over exactly the text of the chunks,
-- without a newline at its end, and nothing if that is empty: provided that the lines keep to the
-- line cap and the whole to the batch cap.
pub flush-feed :
    (max_line max_batch : ℕ) (chunks : List Text)
    → FitsLines max_line (flatten chunks)
    → length (flatten chunks) ≤ max_batch
    → (flush (feed (new max_line max_batch) chunks)).1 ≡ non_empty (strip_newline (flatten chunks))
unfolding new
flush-feed max_line max_batch chunks fits h =
    rw (feed-push (new max_line max_batch) chunks tt)
      (flush-push max_line max_batch (flatten chunks) fits h)
