-- ===== src/Chain/Pieces.antt =====
-- `REF_PATTERN` of extension/src/subagent/pool.ts: a prompt as the references that the pattern
-- matches, from left to right, and the code units between them. The match of the regular expression
-- at a place, which the runtime does, is written out for this pattern.
pub mod Scan
use pi_better_subagents.Prelude.{
  ℕ, zero, suc, ◌≤◌, ◌≡◌, refl, ap, ◌∙◌, Bool, true, false, Option, none, some, List, [], ◌∷◌, ◌++◌,
  ◌&&◌, ◌||◌, ◌==◌, leb, length, length-append, append_assoc, if◌then◌else◌, Option-cases, inl, inr,
  arith,
}

abbrev pub Text : Type 0
Text = List ℕ

unfoldable pub text_eq : Text → Text → Bool
text_eq [] [] = true
text_eq [] (d ∷ t) = false
text_eq (c ∷ s) [] = false
text_eq (c ∷ s) (d ∷ t) = (c == d) && text_eq s t

pub data Piece : Type 0 where
  unit : ℕ → Piece
  previous_ref : Piece
  output_ref : (label : Text) → Piece

-- `{previous}` and `{outputs.`.
abbrev pub previous_text : Text
previous_text = 123 ∷ 112 ∷ 114 ∷ 101 ∷ 118 ∷ 105 ∷ 111 ∷ 117 ∷ 115 ∷ 125 ∷ []

abbrev pub outputs_text : Text
outputs_text = 123 ∷ 111 ∷ 117 ∷ 116 ∷ 112 ∷ 117 ∷ 116 ∷ 115 ∷ 46 ∷ []

abbrev pub close_brace : ℕ
close_brace = 125

-- `[A-Za-z0-9_-]`.
abbrev pub is_label_unit : ℕ → Bool
is_label_unit c =
    (leb 65 c && leb c 90)
    || (leb 97 c && leb c 122)
    || (leb 48 c && leb c 57)
    || (c == 95)
    || (c == 45)

-- What follows a prefix.
unfoldable pub strip_prefix : Text → Text → Option Text
strip_prefix [] s = some s
strip_prefix (p ∷ ps) [] = none
strip_prefix (p ∷ ps) (c ∷ s) = let rest = strip_prefix ps s in if p == c then rest else none

-- The longest run of label units, and what follows it.
unfoldable pub span_label : Text → Text × Text
span_label [] = ([], [])
span_label (c ∷ s) =
    let rest = span_label s in if is_label_unit c then (c ∷ rest.0, rest.1) else ([], c ∷ s)

-- A label is not empty and a brace closes it.
unfoldable pub close_label : Text × Text → Option (Piece × Text)
close_label ([], s) = none
close_label (c ∷ l, []) = none
close_label (c ∷ l, d ∷ s) = if d == close_brace then some (output_ref (c ∷ l), s) else none

unfoldable pub match_output : Text → Option (Piece × Text)
unfolding strip_prefix span_label close_label
match_output s = elim (strip_prefix outputs_text s) [
  | none ↦ none
  | some rest ↦ close_label (span_label rest)
]

unfoldable pub match_ref : Text → Option (Piece × Text)
unfolding strip_prefix match_output
match_ref s = elim (strip_prefix previous_text s) [
  | none ↦ match_output s
  | some rest ↦ some (previous_ref, rest)
]

-- The fuel bounds the number of pieces.
unfoldable pub pieces_in : ℕ → Text → List Piece
unfolding match_ref
pieces_in zero s = []
pieces_in (suc n) [] = []
pieces_in (suc n) (c ∷ s) = elim (match_ref (c ∷ s)) [
  | none ↦ unit c ∷ pieces_in n s
  | some (p, rest) ↦ p ∷ pieces_in n rest
]

unfoldable pub pieces : Text → List Piece
unfolding pieces_in
pieces s = pieces_in (length s) s

abbrev pub print : Piece → Text
print (unit c) = c ∷ []
print previous_ref = previous_text
print (output_ref l) = outputs_text ++ l ++ close_brace ∷ []

abbrev pub print_all : List Piece → Text
print_all [] = []
print_all (p ∷ ps) = print p ++ print_all ps

strip_prefix-append : (p s rest : Text) → strip_prefix p s ≡ some rest → p ++ rest ≡ s
unfolding strip_prefix
strip_prefix-append [] s rest e = ground arith
strip_prefix-append (p ∷ ps) [] rest e = ground arith
strip_prefix-append (p ∷ ps) (c ∷ s) rest e = ground (arith, strip_prefix-append ps s rest)

span_label-append : (s : Text) → (span_label s).0 ++ (span_label s).1 ≡ s
unfolding span_label
span_label-append [] = refl
span_label-append (c ∷ s) = ground (arith, span_label-append s)

close_label-append :
    (l s : Text) (m : Piece × Text)
    → close_label (l, s) ≡ some m
    → print m.0 ++ m.1 ≡ outputs_text ++ l ++ s
unfolding close_label
close_label-append [] s m e = ground arith
close_label-append (c ∷ l) [] m e = ground arith
close_label-append (c ∷ l) (d ∷ s) m e = ground (arith, append_assoc l (close_brace ∷ []) s)

pub match_ref-append : (s : Text) (m : Piece × Text) → match_ref s ≡ some m → print m.0 ++ m.1 ≡ s
unfolding match_ref match_output
match_ref-append s m e = elim (Option-cases (strip_prefix previous_text s)) [
  | inr (rest, f) ↦ ground (arith, strip_prefix-append previous_text s rest f)
  | inl f ↦ elim (Option-cases (strip_prefix outputs_text s)) [
    | inl g ↦ ground arith
    | inr (rest, g) ↦ ground (
      arith,
      strip_prefix-append outputs_text s rest g,
      span_label-append rest,
      close_label-append (span_label rest).0 (span_label rest).1 m,
    )
  ]
]

pub print-length : (p : Piece) → 1 ≤ length (print p)
print-length (unit c) = omega arith
print-length previous_ref = omega arith
print-length (output_ref l) = omega arith

pub shorter :
    (n c : ℕ) (s : Text) (p : Piece) (rest : Text)
    → suc (length s) ≤ suc n
    → print p ++ rest ≡ c ∷ s
    → length rest ≤ n
shorter n c s p rest h e = omega (arith, length-append (print p) rest, print-length p, ap length e)

pub pieces_in-no_match :
    (n c : ℕ) (s : Text)
    → match_ref (c ∷ s) ≡ none
    → pieces_in (suc n) (c ∷ s) ≡ unit c ∷ pieces_in n s
unfolding pieces_in
pieces_in-no_match n c s e = rw (e, pieces_in) refl

pub pieces_in-match :
    (n c : ℕ) (s : Text) (p : Piece) (rest : Text)
    → match_ref (c ∷ s) ≡ some (p, rest)
    → pieces_in (suc n) (c ∷ s) ≡ p ∷ pieces_in n rest
unfolding pieces_in
pieces_in-match n c s p rest e = rw (e, pieces_in) refl

pub pieces_in-print : (n : ℕ) (s : Text) → length s ≤ n → print_all (pieces_in n s) ≡ s
unfolding pieces_in
pieces_in-print zero [] h = refl
pieces_in-print zero (c ∷ s) h = ground arith
pieces_in-print (suc n) [] h = refl
pieces_in-print (suc n) (c ∷ s) h = elim (Option-cases (match_ref (c ∷ s))) [
  | inl e ↦
      ap print_all (pieces_in-no_match n c s e)
      ∙ ap (λ (t : Text). c ∷ t) (pieces_in-print n s (omega arith))
  | inr ((p, rest), e) ↦
      let whole = match_ref-append (c ∷ s) (p, rest) e in
      let tail = pieces_in-print n rest (shorter n c s p rest h whole) in
      ap print_all (pieces_in-match n c s p rest e) ∙ ap (λ (t : Text). print p ++ t) tail ∙ whole
]

-- The pieces of a prompt, printed one after the other, are the prompt: the scan reads all of it.
pub pieces-print : (s : Text) → print_all (pieces s) ≡ s
unfolding pieces
pieces-print s = pieces_in-print (length s) s (omega arith)
