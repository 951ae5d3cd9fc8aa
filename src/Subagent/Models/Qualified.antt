-- ===== src/Subagent/Models/Qualified.antt =====
-- What the labels of models resolve to: extension/src/subagent/model-spec.ts.
use pi_better_subagents.Prelude.{
  ℕ, suc, ◌+◌, ◌≤◌, ◌≡◌, refl, subst, ap, ◌∙◌, Bool, true, Option, none, some, List, [], ◌∷◌, ◌++◌,
  map, length, length-append, take, drop, keep, any, All, All-map, All-keep, if_both, option_both,
  ◌==◌, if_cases, arith,
}
use pi_better_subagents.Batching.Lines.{Text}
use pi_better_subagents.Subagent.Models.{
  ModelCandidate, ModelResolution, resolved, failed, no_match, slash, same_text, index_of, trim,
  label, find, split_provider_prefix, split_thinking_suffix, is_qualified, is_fuzzy, of_matches,
  unqualified, of_base, resolve_model_spec,
}

same_text_refl : (s : Text) → same_text s s ≡ true
same_text_refl [] = refl
same_text_refl (a ∷ s) = ground (arith, same_text_refl s)

same_text→eq : (s t : Text) → same_text s t ≡ true → s ≡ t
same_text→eq [] [] h = refl
same_text→eq [] (b ∷ t) h = absurd (ground (arith, h))
same_text→eq (a ∷ s) [] h = absurd (ground (arith, h))
same_text→eq (a ∷ s) (b ∷ t) h =
    let same : a ≡ b = ground (arith, h) in
    ap (λ x. x ∷ s) same ∙ ap (λ u. b ∷ u) (same_text→eq s t (ground (arith, h)))

pub index_of-append :
    (c : ℕ) (s t : Text) → index_of c s ≡ none → index_of c (s ++ c ∷ t) ≡ some (length s)
index_of-append c [] t h = ground arith
index_of-append c (a ∷ s) t h =
    ground (arith, h, λ (e : index_of c s ≡ none). index_of-append c s t e)

pub take-append {ℓ} : {A : Type ℓ} (xs ys : List A) → take (length xs) (xs ++ ys) ≡ xs
take-append [] ys = refl
take-append (x ∷ xs) ys = ap (λ zs. x ∷ zs) (take-append xs ys)

pub drop-append {ℓ} :
    {A : Type ℓ} (xs : List A) (y : A) (ys : List A) → drop (suc (length xs)) (xs ++ y ∷ ys) ≡ ys
drop-append [] y ys = refl
drop-append (x ∷ xs) y ys = drop-append xs y ys

-- A label is split at the slash between its parts.
split-label :
    (c : ModelCandidate)
    → index_of slash c.provider ≡ none
    → 1 ≤ length c.provider
    → 1 ≤ length c.id
    → split_provider_prefix (label c) ≡ some (c.provider, c.id)
unfolding split_provider_prefix
split-label c plain p i =
    let n = length c.provider in
    let after : n + 1 ≡ suc n = omega arith in
    ground (
      arith,
      index_of-append slash c.provider c.id plain,
      length-append c.provider (slash ∷ c.id),
      take-append c.provider (slash ∷ c.id),
      drop-append c.provider slash c.id,
      after,
      ap (λ k. drop k (label c)) after,
      p,
      i,
    )

find-any {ℓ} :
    {A : Type ℓ} (p : A → Bool) (xs : List A)
    → any p xs ≡ true
    → (x : A) × (find p xs ≡ some x) × (p x ≡ true)
find-any p [] h = absurd (ground (arith, h))
find-any {A = A} p (x ∷ xs) h =
    if_cases (λ (r : Option A). (y : A) × (r ≡ some y) × (p y ≡ true)) (p x) (λ e. (x, refl, e))
      (λ e. find-any p xs (ground (arith, h, e)))

pub of_base-label :
    (lower : Text → Text) (c : ModelCandidate) (thinking : Option Text) (cs : List ModelCandidate)
    → index_of slash c.provider ≡ none
    → 1 ≤ length c.provider
    → 1 ≤ length c.id
    → any (is_qualified (c.provider, c.id)) cs ≡ true
    → of_base lower (label c) thinking cs ≡ resolved c.provider c.id thinking
of_base-label lower c thinking cs plain p i listed =
    let (hit, found, same) = find-any (is_qualified (c.provider, c.id)) cs listed in
    ground (
      arith,
      length-append c.provider (slash ∷ c.id),
      split-label c plain p i,
      found,
      same_text→eq hit.provider c.provider (ground (arith, same)),
      same_text→eq hit.id c.id (ground (arith, same)),
    )

-- A candidate is in the list, and so is one that is resolved to.
IsIn : List ModelCandidate → ModelCandidate → Type 0
IsIn cs c = any (is_qualified (c.provider, c.id)) cs ≡ true

IsListed : List ModelCandidate → ModelResolution → Type 0
IsListed cs (resolved provider id thinking) = any (is_qualified (provider, id)) cs ≡ true
IsListed cs (failed error candidates thinking) = Unit

All-IsIn : (cs : List ModelCandidate) → All (IsIn cs) cs
unfolding IsIn
All-IsIn [] = tt
All-IsIn (c ∷ cs) = (
  ground (arith, same_text_refl c.provider, same_text_refl c.id),
  All-map cs (λ d h. ground (arith, h)) (All-IsIn cs),
)

find-All {ℓ κ} :
    {A : Type ℓ} (P : A → Type κ) (p : A → Bool) (xs : List A) (x : A)
    → All P xs
    → find p xs ≡ some x
    → P x
find-All P p [] x h e = absurd (ground (arith, e))
find-All {A = A} P p (y ∷ ys) x (h, hs) e =
    if_cases (λ (r : Option A). r ≡ some x → P x) (p y)
      (λ t f. let same : y ≡ x = ground (arith, f) in subst P same h)
      (λ t f. find-All P p ys x hs f) e

of_matches-IsListed :
    (cs xs : List ModelCandidate) (thinking : Option Text) (next : ModelResolution)
    → All (IsIn cs) xs
    → IsListed cs next
    → IsListed cs (of_matches thinking next xs)
unfolding IsIn IsListed
of_matches-IsListed cs [] thinking next h n = n
of_matches-IsListed cs (c ∷ []) thinking next (h, hs) n = h
of_matches-IsListed cs (c ∷ d ∷ xs) thinking next h n = tt

unqualified-IsListed :
    (lower : Text → Text) (base : Text) (thinking : Option Text) (cs : List ModelCandidate)
    → IsListed cs (unqualified lower base thinking cs)
unfolding IsListed
unqualified-IsListed lower base thinking cs =
    let inside = All-IsIn cs in
    of_matches-IsListed cs (keep (λ c. same_text c.id base) cs) thinking _
      (All-keep (IsIn cs) (λ c. same_text c.id base) cs inside)
      (of_matches-IsListed cs (keep (is_fuzzy lower (lower base)) cs) thinking
        (failed no_match (map label cs) thinking)
        (All-keep (IsIn cs) (is_fuzzy lower (lower base)) cs inside) tt)

of_base-IsListed :
    (lower : Text → Text) (base : Text) (thinking : Option Text) (cs : List ModelCandidate)
    → IsListed cs (of_base lower base thinking cs)
unfolding IsListed IsIn
of_base-IsListed lower base thinking cs = if_both (IsListed cs) (length base == 0) tt (
    option_both (IsListed cs) (split_provider_prefix base) bare_listed
      (λ q. by_cases q (find (is_qualified q) cs) refl))
  where
    bare_listed : IsListed cs (unqualified lower base thinking cs)
    bare_listed = unqualified-IsListed lower base thinking cs

    by_cases :
        (q : Text × Text) (found : Option ModelCandidate)
        → find (is_qualified q) cs ≡ found
        → IsListed cs (elim found [
          | none ↦ unqualified lower base thinking cs
          | some hit ↦ resolved hit.provider hit.id thinking
        ])
    by_cases q none e = bare_listed
    by_cases q (some hit) e = find-All (IsIn cs) (is_qualified q) cs hit (All-IsIn cs) e

-- What a spec resolves to is a listed candidate.
pub resolve-listed :
    (lower : Text → Text) (spec : Text) (cs : List ModelCandidate) (provider id : Text)
    (thinking : Option Text)
    → resolve_model_spec lower spec cs ≡ resolved provider id thinking
    → any (is_qualified (provider, id)) cs ≡ true
unfolding resolve_model_spec IsListed
resolve-listed lower spec cs provider id thinking e =
    let split = split_thinking_suffix lower (trim spec) in
    subst (IsListed cs) e (of_base-IsListed lower split.0 split.1 cs)
