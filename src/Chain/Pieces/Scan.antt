-- ===== src/Chain/Pieces/Scan.antt =====
-- Which references the scan of a prompt finds: `REF_PATTERN` of extension/src/subagent/pool.ts.
use pi_better_subagents.Prelude.{
  ℕ, zero, suc, ◌≤◌, ◌≡◌, refl, sym, ap, subst, ◌∙◌, true, none, some, List, [], ◌∷◌, ◌++◌, ◌⊎◌,
  inl, inr, if_cases, length, append_assoc, All, Option-cases, arith,
}
use pi_better_subagents.Chain.Pieces.{
  Text, Piece, unit, previous_ref, output_ref, previous_text, outputs_text, close_brace,
  is_label_unit, strip_prefix, span_label, close_label, match_output, match_ref, pieces_in, pieces,
  print, print_all, match_ref-append, shorter, pieces_in-no_match, pieces_in-match, pieces-print,
  pieces_in-print,
}

-- A letter, a digit, an underscore or a dash.
abbrev pub IsLabelUnit : ℕ → Type 0
IsLabelUnit c =
    ((65 ≤ c) × (c ≤ 90))
    ⊎ (((97 ≤ c) × (c ≤ 122)) ⊎ (((48 ≤ c) × (c ≤ 57)) ⊎ ((c ≡ 95) ⊎ (c ≡ 45))))

-- A reference: `{previous}`, or `{outputs.label}` with a label that is not empty.
abbrev pub IsRef : Piece → Type 0
IsRef (unit c) = ⊥
IsRef previous_ref = Unit
IsRef (output_ref l) = (1 ≤ length l) × All IsLabelUnit l

-- No reference stands at the beginning of a text.
abbrev pub HasNoRef : Text → Type 0
HasNoRef s = (p : Piece) (rest : Text) → IsRef p → print p ++ rest ≡ s → ⊥

-- Every piece is a reference, or a code unit at which no reference begins.
abbrev pub IsScan : List Piece → Type 0
IsScan [] = Unit
IsScan (unit c ∷ ps) = HasNoRef (c ∷ print_all ps) × IsScan ps
IsScan (previous_ref ∷ ps) = IsScan ps
IsScan (output_ref l ∷ ps) = IsRef (output_ref l) × IsScan ps

label_unit_found : (c : ℕ) → IsLabelUnit c → is_label_unit c ≡ true
label_unit_found c h = ground (arith, h)

is_label_unit-IsLabelUnit : (c : ℕ) → is_label_unit c ≡ true → IsLabelUnit c
is_label_unit-IsLabelUnit c h = ground (arith, h)

span_label-found :
    (l rest : Text)
    → All IsLabelUnit l
    → span_label (l ++ close_brace ∷ rest) ≡ (l, close_brace ∷ rest)
unfolding span_label
span_label-found [] rest h = refl
span_label-found (c ∷ l) rest (h, hs) =
    ground (arith, label_unit_found c h, span_label-found l rest hs)

span_label-All : (s : Text) → All IsLabelUnit (span_label s).0
unfolding span_label
span_label-All [] = tt
span_label-All (c ∷ s) =
    if_cases (λ (r : Text × Text). All IsLabelUnit r.0) (is_label_unit c)
      (λ e. (is_label_unit-IsLabelUnit c e, span_label-All s)) (λ e. tt)

close_label-found :
    (l rest : Text) → 1 ≤ length l → close_label (l, close_brace ∷ rest) ≡ some (output_ref l, rest)
unfolding close_label
close_label-found [] rest h = absurd (omega (arith, h))
close_label-found (c ∷ l) rest h = refl

close_label-IsRef :
    (l s : Text) (m : Piece × Text) → All IsLabelUnit l → close_label (l, s) ≡ some m → IsRef m.0
unfolding close_label
close_label-IsRef [] s m h e = absurd (ground (arith, e))
close_label-IsRef (c ∷ l) [] m h e = absurd (ground (arith, e))
close_label-IsRef (c ∷ l) (d ∷ s) m h e =
    let same : output_ref (c ∷ l) ≡ m.0 = ground (arith, e) in subst IsRef same (omega arith, h)

match_ref-found : (p : Piece) (rest : Text) → IsRef p → match_ref (print p ++ rest) ≡ some (p, rest)
unfolding match_ref match_output strip_prefix
match_ref-found (unit c) rest h = absurd h
match_ref-found previous_ref rest h = refl
match_ref-found (output_ref l) rest h =
    ap (λ t. close_label (span_label t)) (append_assoc l (close_brace ∷ []) rest)
    ∙ ap close_label (span_label-found l rest h.1)
    ∙ close_label-found l rest h.0

match_ref-IsRef : (s : Text) (m : Piece × Text) → match_ref s ≡ some m → IsRef m.0
unfolding match_ref match_output
match_ref-IsRef s m e = elim (Option-cases (strip_prefix previous_text s)) [
  | inr (rest, f) ↦ let same : previous_ref ≡ m.0 = ground (arith, f, e) in subst IsRef same tt
  | inl f ↦ elim (Option-cases (strip_prefix outputs_text s)) [
    | inl g ↦ absurd (ground (arith, f, g, e))
    | inr (rest, g) ↦
        close_label-IsRef (span_label rest).0 (span_label rest).1 m (span_label-All rest)
          (ground (arith, f, g, e))
  ]
]

-- Where the match fails no reference begins.
match_ref-HasNoRef : (s : Text) → match_ref s ≡ none → HasNoRef s
match_ref-HasNoRef s e p rest h same =
    let found = ap match_ref (sym same) ∙ match_ref-found p rest h in ground (arith, e, found)

ref-IsScan : (p : Piece) (ps : List Piece) → IsRef p → IsScan ps → IsScan (p ∷ ps)
ref-IsScan (unit c) ps h s = absurd h
ref-IsScan previous_ref ps h s = s
ref-IsScan (output_ref l) ps h s = (h, s)

pieces_in-IsScan : (n : ℕ) (s : Text) → length s ≤ n → IsScan (pieces_in n s)
unfolding pieces_in
pieces_in-IsScan zero s h = tt
pieces_in-IsScan (suc n) [] h = tt
pieces_in-IsScan (suc n) (c ∷ s) h = elim (Option-cases (match_ref (c ∷ s))) [
  | inl e ↦ subst IsScan (sym (pieces_in-no_match n c s e)) (
    subst (λ t. HasNoRef (c ∷ t)) (sym (pieces_in-print n s (omega arith)))
        (match_ref-HasNoRef (c ∷ s) e),
    pieces_in-IsScan n s (omega arith),
  )
  | inr ((p, rest), e) ↦ subst IsScan (sym (pieces_in-match n c s p rest e)) (
      ref-IsScan p (pieces_in n rest) (match_ref-IsRef (c ∷ s) (p, rest) e)
        (pieces_in-IsScan n rest (shorter n c s p rest h (match_ref-append (c ∷ s) (p, rest) e))))
]

-- The scan of a prompt loses nothing and finds exactly the references: its pieces printed one after
-- the other are the prompt; each reference among them is `{previous}` or `{outputs.label}` with one
-- or more letters, digits, underscores or dashes; and at a code unit that is a piece of its own no
-- such reference begins.
pub pieces-IsScan : (s : Text) → (print_all (pieces s) ≡ s) × IsScan (pieces s)
unfolding pieces
pieces-IsScan s = (pieces-print s, pieces_in-IsScan (length s) s (omega arith))
