-- ===== src/Batching/Lines/Laws.antt =====
-- Splitting at newlines and joining again, as extension/src/monitor-batching.ts does.
use pi_better_subagents.Prelude.{
  ℕ, ◌+◌, ◌-◌, ◌≤◌, ◌<◌, ◌≡◌, refl, sym, ap, ◌∙◌, ◌≢◌, List, [], ◌∷◌, ◌++◌, length, length-append,
  length-drop, All, arith, append_assoc, append-nil,
}
use pi_better_subagents.Batching.Lines.{Text, newline, split_from, join, slice_tail}

abbrev pub NoNewline : Text → Type 0
NoNewline [] = Unit
NoNewline (c ∷ s) = (c ≢ newline) × NoNewline s

NoNewline-append : (s t : Text) → NoNewline s → NoNewline t → NoNewline (s ++ t)
NoNewline-append [] t h k = k
NoNewline-append (c ∷ s) t (p, h) k = (p, NoNewline-append s t h k)

-- Splitting can be interrupted anywhere: the rest goes on from the unfinished part.
pub split_from-append :
    (cur a b : Text)
    → split_from cur (a ++ b) ≡ (
      (split_from cur a).0 ++ (split_from (split_from cur a).1 b).0,
      (split_from (split_from cur a).1 b).1,
    )
unfolding split_from
split_from-append cur [] b = refl
split_from-append cur (c ∷ a) b =
    ground (arith, split_from-append [] a b, split_from-append (cur ++ c ∷ []) a b)

pub split_from-NoNewline :
    (cur s : Text)
    → NoNewline cur
    → All NoNewline (split_from cur s).0 × NoNewline (split_from cur s).1
unfolding split_from
split_from-NoNewline cur [] h = (tt, h)
split_from-NoNewline cur (c ∷ s) h = ground (
  arith,
  split_from-NoNewline [] s tt,
  split_from-NoNewline (cur ++ c ∷ []) s,
  NoNewline-append cur (c ∷ []) h,
)

-- A text with no newline is one unfinished part.
pub split_from_of_NoNewline : (cur s : Text) → NoNewline s → split_from cur s ≡ ([], cur ++ s)
unfolding split_from
split_from_of_NoNewline cur [] h = ap (λ (t : Text). ([], t)) (sym (append-nil cur))
split_from_of_NoNewline cur (c ∷ s) (p, h) =
    ground (arith, split_from_of_NoNewline (cur ++ c ∷ []) s h, append_assoc cur (c ∷ []) s)

-- The parts with a newline behind each, then the last part.
abbrev pub glue : List Text → Text → Text
glue [] last = last
glue (p ∷ ps) last = p ++ newline ∷ glue ps last

pub glue-split_from : (cur s : Text) → glue (split_from cur s).0 (split_from cur s).1 ≡ cur ++ s
unfolding split_from
glue-split_from cur [] = sym (append-nil cur)
glue-split_from cur (c ∷ s) =
    ground
      (arith, glue-split_from [] s, glue-split_from (cur ++ c ∷ []) s, append_assoc cur (c ∷ []) s)

pub join-snoc : (ps : List Text) (last : Text) → join (ps ++ last ∷ []) ≡ glue ps last
unfolding join
join-snoc [] last = refl
join-snoc (p ∷ []) last = refl
join-snoc (p ∷ q ∷ ps) last = ap (λ (t : Text). p ++ newline ∷ t) (join-snoc (q ∷ ps) last)

pub glue-nil : (p : Text) (ps : List Text) → glue (p ∷ ps) [] ≡ join (p ∷ ps) ++ newline ∷ []
unfolding join
glue-nil p [] = refl
glue-nil p (q ∷ ps) = ap (λ (t : Text). p ++ newline ∷ t) (glue-nil q ps) ∙ sym (append_assoc p _ _)

-- No part is longer than the text.
pub length-split_from :
    (cur s : Text) (n : ℕ)
    → length cur + length s ≤ n
    → All (λ p. length p ≤ n) (split_from cur s).0 × (length (split_from cur s).1 ≤ n)
unfolding split_from
length-split_from cur [] n h = (tt, omega arith)
length-split_from cur (c ∷ s) n h = ground (
  arith,
  length-split_from [] s n,
  length-split_from (cur ++ c ∷ []) s n,
  length-append cur (c ∷ []),
)

pub length-slice_tail : (n : ℕ) (s : Text) → 1 < n → length (slice_tail n s) < n
unfolding slice_tail
length-slice_tail n s h = ground (arith, length-drop (length s - (n - 1)) s)
