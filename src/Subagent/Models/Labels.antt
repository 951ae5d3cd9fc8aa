-- ===== src/Subagent/Models/Labels.antt =====
-- The specs that are a label and a thinking level: extension/src/subagent/model-spec.ts.
use pi_better_subagents.Prelude.{
  ℕ, suc, ◌+◌, ◌≤◌, ◌≡◌, ◌≢◌, refl, sym, subst, ap, ◌∙◌, true, Option, none, some, List, [], ◌∷◌,
  ◌++◌, append-nil, All, length, length-append, drop, any, if◌then◌else◌, Bool-cases, inl, inr,
  arith,
}
use pi_better_subagents.Batching.Lines.{Text}
use pi_better_subagents.Subagent.Models.{
  ModelCandidate, resolved, slash, colon, same_text, index_of, last_index_of, trim, trim_start,
  trim_end, is_space, label, split_thinking_suffix, thinking_levels, is_qualified, of_base,
  resolve_model_spec,
}
use pi_better_subagents.Subagent.Models.Qualified.{take-append, drop-append, of_base-label}

-- The thinking levels of the grammar in the comment above `resolveModelSpec`.
pub data ThinkingLevel : Type 0 where
  minimal low medium high xhigh : ThinkingLevel

abbrev pub level_text : ThinkingLevel → Text
level_text minimal = 109 ∷ 105 ∷ 110 ∷ 105 ∷ 109 ∷ 97 ∷ 108 ∷ []
level_text low = 108 ∷ 111 ∷ 119 ∷ []
level_text medium = 109 ∷ 101 ∷ 100 ∷ 105 ∷ 117 ∷ 109 ∷ []
level_text high = 104 ∷ 105 ∷ 103 ∷ 104 ∷ []
level_text xhigh = 120 ∷ 104 ∷ 105 ∷ 103 ∷ 104 ∷ []

-- What follows the label, and the thinking level that it asks for.
abbrev pub suffix_text : Option ThinkingLevel → Text
suffix_text none = []
suffix_text (some level) = colon ∷ level_text level

abbrev pub thinking_of : Option ThinkingLevel → Option Text
thinking_of none = none
thinking_of (some level) = some (level_text level)

-- A text that neither begins nor ends with white space.
abbrev pub IsTrimmed : Text → Type 0
IsTrimmed s = (trim_start s ≡ s) × (trim_end s ≡ s)

last_index_of-append :
    (c : ℕ) (s t : Text) → last_index_of c t ≡ none → last_index_of c (s ++ c ∷ t) ≡ some (length s)
last_index_of-append c [] t h = ground (arith, h)
last_index_of-append c (a ∷ s) t h = ground (arith, last_index_of-append c s t h)

last_index_of-none : (s : Text) → All (λ u. u ≢ colon) s → last_index_of colon s ≡ none
last_index_of-none [] h = refl
last_index_of-none (a ∷ s) (h, hs) = ground (arith, h, last_index_of-none s hs)

level-no_colon : (level : ThinkingLevel) → last_index_of colon (level_text level) ≡ none
level-no_colon minimal = refl
level-no_colon low = refl
level-no_colon medium = refl
level-no_colon high = refl
level-no_colon xhigh = refl

level-listed : (level : ThinkingLevel) → any (same_text (level_text level)) thinking_levels ≡ true
level-listed minimal = refl
level-listed low = refl
level-listed medium = refl
level-listed high = refl
level-listed xhigh = refl

level-length : (level : ThinkingLevel) → 1 ≤ length (level_text level)
level-length minimal = omega arith
level-length low = omega arith
level-length medium = omega arith
level-length high = omega arith
level-length xhigh = omega arith

suffix-trim_end :
    (level : ThinkingLevel) → trim_end (colon ∷ level_text level) ≡ colon ∷ level_text level
suffix-trim_end minimal = refl
suffix-trim_end low = refl
suffix-trim_end medium = refl
suffix-trim_end high = refl
suffix-trim_end xhigh = refl

length-trim_start : (s : Text) → length (trim_start s) ≤ length s
length-trim_start [] = omega arith
length-trim_start (a ∷ s) = ground (arith, length-trim_start s)

-- Appended text leaves a beginning that is trimmed as it is.
trim_start-append : (s t : Text) → 1 ≤ length s → trim_start s ≡ s → trim_start (s ++ t) ≡ s ++ t
trim_start-append [] t n h = absurd (omega (arith, n))
trim_start-append (a ∷ s) t n h = elim (Bool-cases (is_space a)) [
  | inl e ↦ absurd (omega (arith, length-trim_start s, short e))
  | inr e ↦ ground (arith, e)
]
  where
    short : is_space a ≡ true → length (trim_start s) ≡ suc (length s)
    short e = ap length (subst (λ b. (if b then trim_start s else a ∷ s) ≡ a ∷ s) e h)

trim_end-append :
    (s : Text) (c : ℕ) (t : Text) → trim_end (c ∷ t) ≡ c ∷ t → trim_end (s ++ c ∷ t) ≡ s ++ c ∷ t
trim_end-append [] c t h = h
trim_end-append (a ∷ []) c t h = rw (h) refl
trim_end-append (a ∷ b ∷ s) c t h = rw (trim_end-append (b ∷ s) c t h) refl

module _ (lower : Text → Text) where
  split-suffix :
      (s : Text) (level : ThinkingLevel)
      → 1 ≤ length s
      → lower (level_text level) ≡ level_text level
      → split_thinking_suffix lower (s ++ colon ∷ level_text level) ≡ (s, some (level_text level))
  unfolding split_thinking_suffix
  split-suffix s level n same =
      let k = length s in
      let after : k + 1 ≡ suc k = omega arith in
      ground (
        arith,
        last_index_of-append colon s (level_text level) (level-no_colon level),
        length-append s (colon ∷ level_text level),
        take-append s (colon ∷ level_text level),
        drop-append s colon (level_text level),
        ap (λ m. drop m (s ++ colon ∷ level_text level)) after,
        level-listed level,
        level-length level,
        same,
        n,
      )

  split-bare : (s : Text) → All (λ u. u ≢ colon) s → split_thinking_suffix lower s ≡ (s, none)
  unfolding split_thinking_suffix
  split-bare s h = ground (arith, last_index_of-none s h)

  split-label :
      (s : Text) (level : Option ThinkingLevel)
      → 1 ≤ length s
      → ((t : ThinkingLevel) → lower (level_text t) ≡ level_text t)
      → (level ≡ none → All (λ u. u ≢ colon) s)
      → split_thinking_suffix lower (s ++ suffix_text level) ≡ (s, thinking_of level)
  split-label s none n same plain =
      ap (split_thinking_suffix lower) (append-nil s) ∙ split-bare s (plain refl)
  split-label s (some level) n same plain = split-suffix s level n (same level)

trim-label :
    (s : Text) (level : Option ThinkingLevel)
    → 1 ≤ length s
    → IsTrimmed s
    → trim (s ++ suffix_text level) ≡ s ++ suffix_text level
trim-label s level n (starts, ends) =
    ap trim_end (trim_start-append s (suffix_text level) n starts) ∙ ended level
  where
    ended :
        (level : Option ThinkingLevel) → trim_end (s ++ suffix_text level) ≡ s ++ suffix_text level
    ended none = subst (λ x. trim_end x ≡ x) (sym (append-nil s)) ends
    ended (some level) = trim_end-append s colon (level_text level) (suffix-trim_end level)

-- The label of a listed candidate, with or without a colon and a thinking level behind it, resolves
-- to that candidate and that level: provided that the provider has no slash, neither part is empty,
-- the label has no white space around it, without a level it has no colon, and `toLowerCase` leaves
-- the names of the levels as they are.
pub resolve-label :
    (lower : Text → Text) (c : ModelCandidate) (level : Option ThinkingLevel)
    → (cs : List ModelCandidate) → ((t : ThinkingLevel) → lower (level_text t) ≡ level_text t)
    → IsTrimmed (label c)
    → (level ≡ none → All (λ u. u ≢ colon) (label c))
    → index_of slash c.provider ≡ none
    → 1 ≤ length c.provider
    → 1 ≤ length c.id
    → any (is_qualified (c.provider, c.id)) cs ≡ true
    → resolve_model_spec lower (label c ++ suffix_text level) cs
      ≡ resolved c.provider c.id (thinking_of level)
unfolding resolve_model_spec
resolve-label lower c level cs same trimmed plain no_slash p i listed =
    let n : 1 ≤ length (label c) = omega (arith, length-append c.provider (slash ∷ c.id), p) in
    ap (λ s. let r = split_thinking_suffix lower s in of_base lower r.0 r.1 cs)
      (trim-label (label c) level n trimmed)
    ∙ ap (λ r. of_base lower r.0 r.1 cs) (split-label lower (label c) level n same plain)
    ∙ of_base-label lower c (thinking_of level) cs no_slash p i listed
