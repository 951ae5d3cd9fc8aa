-- ===== src/Subagent/Models.antt =====
-- The models that a spec names: extension/src/subagent/model-spec.ts.
--
-- A text is the list of its code units. `lower` is `String.prototype.toLowerCase`, of which nothing
-- is assumed. The text of an error is left out: it is the kind and the candidates.
pub mod Labels
pub mod Qualified
use pi_better_subagents.Prelude.{
  ℕ, zero, suc, ◌+◌, Bool, true, false, not, ◌&&◌, ◌||◌, Option, none, some, List, [], ◌∷◌, ◌++◌,
  map, length, take, drop, keep, any, leb, ltb, ◌==◌, if◌then◌else◌,
}
use pi_better_subagents.Batching.Lines.{Text}

pub record ModelCandidate : Type 0 where
  pub provider : Text
  pub id : Text
  pub name : Option Text

pub data ResolutionError : Type 0 where
  no_match ambiguous : ResolutionError

pub data ModelResolution : Type 0 where
  resolved : (provider id : Text) (thinking : Option Text) → ModelResolution
  failed : ResolutionError → (candidates : List Text) (thinking : Option Text) → ModelResolution

-- `/` and `:`.
abbrev pub slash : ℕ
slash = 47

abbrev pub colon : ℕ
colon = 58

abbrev pub same_text : Text → Text → Bool
same_text [] [] = true
same_text [] (b ∷ t) = false
same_text (a ∷ s) [] = false
same_text (a ∷ s) (b ∷ t) = let rest = same_text s t in (a == b) && rest

abbrev pub index_of : ℕ → Text → Option ℕ
index_of c [] = none
index_of c (a ∷ s) =
    let later = index_of c s in
    if a == c then some 0 else elim later [ none ↦ none | some i ↦ some (suc i) ]

abbrev pub last_index_of : ℕ → Text → Option ℕ
last_index_of c [] = none
last_index_of c (a ∷ s) = elim (last_index_of c s) [
  | none ↦ if a == c then some 0 else none
  | some i ↦ some (suc i)
]

abbrev pub is_prefix : Text → Text → Bool
is_prefix [] t = true
is_prefix (a ∷ s) [] = false
is_prefix (a ∷ s) (b ∷ t) = let rest = is_prefix s t in (a == b) && rest

-- `t.includes(s)`
abbrev pub includes : Text → Text → Bool
includes [] s = is_prefix s []
includes (b ∷ t) s = let later = includes t s in is_prefix s (b ∷ t) || later

-- The white space of ECMAScript.
abbrev pub is_space : ℕ → Bool
is_space c =
    (leb 9 c && leb c 13)
    || (c == 32)
    || (c == 160)
    || (c == 5760)
    || (leb 8192 c && leb c 8202)
    || (c == 8232)
    || (c == 8233)
    || (c == 8239)
    || (c == 8287)
    || (c == 12288)
    || (c == 65279)

abbrev pub trim_start : Text → Text
trim_start [] = []
trim_start (a ∷ s) = let rest = trim_start s in if is_space a then rest else a ∷ s

abbrev pub trim_end : Text → Text
trim_end [] = []
trim_end (a ∷ s) = elim (trim_end s) [ [] ↦ if is_space a then [] else a ∷ [] | b ∷ t ↦ a ∷ b ∷ t ]

abbrev pub trim : Text → Text
trim s = trim_end (trim_start s)

-- "minimal", "low", "medium", "high" and "xhigh".
abbrev pub thinking_levels : List Text
thinking_levels =
    (109 ∷ 105 ∷ 110 ∷ 105 ∷ 109 ∷ 97 ∷ 108 ∷ [])
    ∷ (108 ∷ 111 ∷ 119 ∷ [])
    ∷ (109 ∷ 101 ∷ 100 ∷ 105 ∷ 117 ∷ 109 ∷ [])
    ∷ (104 ∷ 105 ∷ 103 ∷ 104 ∷ [])
    ∷ (120 ∷ 104 ∷ 105 ∷ 103 ∷ 104 ∷ [])
    ∷ []

abbrev pub label : ModelCandidate → Text
label c = c.provider ++ slash ∷ c.id

-- Is an index neither the first nor the last place of a text, nor out of it?
abbrev pub is_inside : ℕ → Text → Bool
is_inside i s = ltb 0 i && ltb (i + 1) (length s)

abbrev pub find {ℓ} : {A : Type ℓ} → (A → Bool) → List A → Option A
find p [] = none
find p (x ∷ xs) = let later = find p xs in if p x then some x else later

-- One of the separators in turn.
abbrev pub split_at_separator : ℕ → Text → Option (Text × Text)
split_at_separator c spec = elim (index_of c spec) [
  | none ↦ none
  | some i ↦ if is_inside i spec then some (take i spec, drop (i + 1) spec) else none
]

unfoldable pub split_provider_prefix : Text → Option (Text × Text)
split_provider_prefix spec = elim (split_at_separator slash spec) [
  | none ↦ split_at_separator colon spec
  | some parts ↦ some parts
]

-- What the one or the many matches give; `next` when there is none.
abbrev pub of_matches :
    (thinking : Option Text) → ModelResolution → List ModelCandidate → ModelResolution
of_matches thinking next [] = next
of_matches thinking next (c ∷ []) = resolved c.provider c.id thinking
of_matches thinking next (c ∷ d ∷ cs) = failed ambiguous (map label (c ∷ d ∷ cs)) thinking

abbrev pub is_qualified : Text × Text → ModelCandidate → Bool
is_qualified q c = same_text c.provider q.0 && same_text c.id q.1

module _ (lower : Text → Text) where
  unfoldable pub split_thinking_suffix : Text → Text × Option Text
  split_thinking_suffix spec = elim (last_index_of colon spec) [
    | none ↦ (spec, none)
    | some i ↦
        let suffix = lower (drop (i + 1) spec) in
        if is_inside i spec && any (same_text suffix) thinking_levels
        then (take i spec, some suffix)
        else (spec, none)
  ]

  abbrev pub is_fuzzy : Text → ModelCandidate → Bool
  is_fuzzy needle c =
      includes (lower c.id) needle
      || (elim c.name [ none ↦ false | some name ↦ includes (lower name) needle ])

  abbrev pub unqualified :
      (base : Text) (thinking : Option Text) → List ModelCandidate → ModelResolution
  unqualified base thinking cs =
      of_matches thinking
        (of_matches thinking (failed no_match (map label cs) thinking)
          (keep (is_fuzzy (lower base)) cs))
        (keep (λ c. same_text c.id base) cs)

  abbrev pub of_base :
      (base : Text) (thinking : Option Text) → List ModelCandidate → ModelResolution
  of_base base thinking cs =
      let bare = unqualified base thinking cs in
      if length base == 0
      then failed no_match (map label cs) thinking
      else elim (split_provider_prefix base) [
        | none ↦ bare
        | some q ↦ elim (find (is_qualified q) cs) [
          | none ↦ bare
          | some hit ↦ resolved hit.provider hit.id thinking
        ]
      ]

  unfoldable pub resolve_model_spec : Text → List ModelCandidate → ModelResolution
  unfolding split_thinking_suffix
  resolve_model_spec spec cs =
      let split = split_thinking_suffix (trim spec) in of_base split.0 split.1 cs
