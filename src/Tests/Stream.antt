-- ===== src/Tests/Stream.antt =====
-- The theorem on the cursor of extension/src/monitor.ts at a concrete stream, with an encoding of two
-- bytes for a character.
use pi_better_subagents.Prelude.{
  ◌≡◌, refl, ap, All, inl, List, [], ◌∷◌, ◌++◌, length, map, take, arith,
}
use mathlib.Core.List.{flatten}
use pi_better_subagents.Monitor.{Text, Bytes, new_entry, accept_all}
use pi_better_subagents.Monitor.Spans.{Span, IsChar, reached, output_of}
use pi_better_subagents.Monitor.Cursor.{accept_all-new_entry}

abbrev encode : Text → Bytes
encode [] = []
encode (c ∷ s) = c ∷ 0 ∷ encode s

abbrev decode : Bytes → Text
decode [] = []
decode (c ∷ []) = []
decode (c ∷ z ∷ bs) = c ∷ decode bs

encode-append : (s t : Text) → All IsChar s → All IsChar t → encode (s ++ t) ≡ encode s ++ encode t
encode-append [] t h k = refl
encode-append (c ∷ s) t (h, hs) k = ap (λ (bs : Bytes). c ∷ 0 ∷ bs) (encode-append s t hs k)

decode-encode : (s : Text) → All IsChar s → decode (encode s) ≡ s
decode-encode [] h = refl
decode-encode (c ∷ s) (h, hs) = ap (λ (t : Text). c ∷ t) (decode-encode s hs)

abbrev stream : Text
stream = 1 ∷ 2 ∷ 3 ∷ 4 ∷ []

-- The first two characters, and a chunk that repeats the second.
abbrev spans : List Span
spans = record { start = 0; size = 2 } ∷ record { start = 1; size = 2 } ∷ []

accept_all-new_entry_example :
    (flatten (accept_all encode decode (map (output_of encode stream) spans) new_entry).pushed
      ≡ take (reached 0 spans) stream)
    × ((accept_all encode decode (map (output_of encode stream) spans) new_entry).cursor
        ≡ length (encode (take (reached 0 spans) stream)))
accept_all-new_entry_example =
    accept_all-new_entry encode decode encode-append decode-encode stream spans
      (inl (omega arith), (inl (omega arith), (inl (omega arith), (inl (omega arith), tt))))
      (omega arith, omega arith, (omega arith, omega arith, tt))
