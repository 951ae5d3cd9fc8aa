-- ===== src/Monitor/Spans.antt =====
-- The spans of a stream that the chunks of a monitor of extension/src/monitor.ts are.
--
-- A stream is a text, and a chunk of it is a span of its characters, with the cursor that counts the
-- bytes of the stream up to the chunk's end.
use pi_better_subagents.Prelude.{
  ℕ, zero, suc, ◌+◌, ◌-◌, ◌≤◌, ◌<◌, ◌≡◌, refl, sym, ap, ◌∙◌, max, some, ◌⊎◌, List, [], ◌∷◌, ◌++◌,
  append_assoc, append-nil, length, length-drop, take, drop, arith,
}
use mathlib.Core.List.{flatten}
use pi_better_subagents.Monitor.{Text, Bytes, Output}

pub record Span : Type 0 where
  pub start : ℕ
  pub size : ℕ

-- How many characters have been seen after some spans.
abbrev pub reached : ℕ → List Span → ℕ
reached r [] = r
reached r (p ∷ ps) = reached (max r (p.start + p.size)) ps

-- Spans within the stream, none of which starts past what has been seen.
abbrev pub AreConnected : (total : ℕ) → ℕ → List Span → Type 0
AreConnected total r [] = Unit
AreConnected total r (p ∷ ps) =
    (p.start ≤ r) × (p.start + p.size ≤ total) × AreConnected total (max r (p.start + p.size)) ps

pub take-take :
    (n k : ℕ) (s : Text) → n ≤ k → k ≤ length s → take k s ≡ take n s ++ take (k - n) (drop n s)
take-take zero k [] h l = ap (λ m. take m []) (omega arith)
take-take zero k (x ∷ s) h l = ap (λ m. take m (x ∷ s)) (omega arith)
take-take (suc n) zero s h l = absurd (omega (arith, h))
take-take (suc n) (suc k) [] h l = absurd (omega (arith, l))
take-take (suc n) (suc k) (x ∷ s) h l =
    ap (λ (t : Text). x ∷ t) (take-take n k s (omega (arith, h)) (omega (arith, l)))
    ∙ ap (λ m. x ∷ (take n s ++ take m (drop n s))) (omega arith)

pub drop_of-append : (xs ys : Bytes) → drop (length xs) (xs ++ ys) ≡ ys
drop_of-append [] ys = refl
drop_of-append (x ∷ xs) ys = drop_of-append xs ys

-- The stream up to the end of a span that goes past what has been seen.
pub take_joined :
    (stream : Text) (r : ℕ) (p : Span)
    → p.start ≤ r
    → p.start + p.size ≤ length stream
    → r < p.start + p.size
    → take (p.start + p.size) stream
      ≡ take r stream ++ take (p.size - (r - p.start)) (drop (r - p.start) (drop p.start stream))
take_joined stream r p a b more =
    let whole = drop p.start stream in
    let front = take (r - p.start) whole in
    let back = take (p.size - (r - p.start)) (drop (r - p.start) whole) in
    take-take p.start (p.start + p.size) stream (omega arith) b
    ∙ ap (λ n. take p.start stream ++ take n whole) (omega arith)
    ∙ ap (λ (x : Text). take p.start stream ++ x)
        (take-take (r - p.start) p.size whole (omega (arith, a, more))
          (omega (arith, length-drop p.start stream, b)))
    ∙ sym (append_assoc (take p.start stream) front back)
    ∙ ap (λ (x : Text). x ++ back) (sym (take-take p.start r stream a (omega (arith, b, more))))

pub flatten-snoc : (xs : List Text) (b : Text) → flatten (xs ++ b ∷ []) ≡ flatten xs ++ b
unfolding flatten
flatten-snoc [] b = append-nil b
flatten-snoc (x ∷ xs) b =
    ap (λ (t : Text). x ++ t) (flatten-snoc xs b) ∙ sym (append_assoc x (flatten xs) b)

-- A Unicode scalar value.
abbrev pub IsChar : ℕ → Type 0
IsChar c = (c < 55296) ⊎ ((57344 ≤ c) × (c < 1114112))

-- The output for a span of a stream.
abbrev pub output_of : (encode : Text → Bytes) → Text → Span → Output
output_of encode stream p = record {
  chunk = take p.size (drop p.start stream);
  cursor = some (length (encode (take (p.start + p.size) stream)));
}
