-- ===== src/Chain/Validated.antt =====
-- `runChain` of extension/src/subagent/pool.ts on steps that `validateChainSteps` lets pass.
use pi_better_subagents.Prelude.{
  ℕ, suc, ◌≡◌, refl, sym, ap, subst, true, Option, none, some, List, [], ◌∷◌, ◌++◌, String, length,
  is_some, ◌||◌, if◌then◌else◌, Option-cases, Bool-cases, inl, inr, arith,
}
use pi_better_subagents.Subagent.{ChildResult, is_completed}
use pi_better_subagents.Pool.{Outcome, result_of}
use pi_better_subagents.Chain.Pieces.{Text, text_eq, Piece, unit, previous_ref, output_ref, pieces}
use pi_better_subagents.Chain.{
  ChainStep, has_label, check_refs, validate_from, validate_chain_steps, get_output, interpolate,
  interpolate_chain_prompt, StepResult, ran, skipped, add_result, skip_rest, set_output, run_from,
  run_chain,
}

has_label-snoc :
    (l k : Text) (ds : List Text) → has_label l (ds ++ k ∷ []) ≡ has_label l ds || text_eq k l
unfolding has_label
has_label-snoc l k [] = ground arith
has_label-snoc l k (d ∷ ds) = ground (arith, has_label-snoc l k ds)

-- Every label that is defined has an output.
abbrev Covers : List Text → List (Text × Text) → Type 0
Covers defined outputs =
    (l : Text) → has_label l defined ≡ true → is_some (get_output l outputs) ≡ true

Covers-set :
    (l v : Text) (defined : List Text) (outputs : List (Text × Text))
    → Covers defined outputs
    → Covers (defined ++ l ∷ []) ((l, v) ∷ outputs)
unfolding get_output
Covers-set l v defined outputs c k h = ground (arith, c k, has_label-snoc k l defined)

-- With every reference checked, every reference is filled in.
interpolate-is_some :
    (i : ℕ) (defined : List Text) (outputs : List (Text × Text)) (previous : Option Text)
    → (ps : List Piece) → Covers defined outputs
    → check_refs i defined ps ≡ none
    → is_some (interpolate previous outputs ps) ≡ true
unfolding interpolate check_refs
interpolate-is_some i defined outputs previous [] c h = refl
interpolate-is_some i defined outputs previous (unit u ∷ ps) c h =
    ground (arith, interpolate-is_some i defined outputs previous ps c)
interpolate-is_some i defined outputs previous (previous_ref ∷ ps) c h =
    ground (arith, interpolate-is_some i defined outputs previous ps c)
interpolate-is_some i defined outputs previous (output_ref l ∷ ps) c h =
    ground (arith, interpolate-is_some i defined outputs previous ps c, c l)

length-skip_rest : (at : ℕ) (ss : List ChainStep) → length (skip_rest at ss) ≡ length ss
unfolding skip_rest
length-skip_rest at [] = refl
length-skip_rest at (s ∷ ss) = ground (arith, length-skip_rest at ss)

-- The results of a chain: completed ones, then at most one that is not, and after it every step
-- is skipped.
abbrev pub AreSkipped : ℕ → List StepResult → Type 0
AreSkipped at [] = Unit
AreSkipped at (ran r ∷ rs) = ⊥
AreSkipped at (skipped i ∷ rs) = (i ≡ at) × AreSkipped at rs

abbrev pub IsChain : ℕ → List StepResult → Type 0
IsChain i [] = Unit
IsChain i (skipped at ∷ rs) = ⊥
IsChain i (ran r ∷ rs) = if is_completed r.status then IsChain (suc i) rs else AreSkipped i rs

skip_rest-AreSkipped : (at : ℕ) (ss : List ChainStep) → AreSkipped at (skip_rest at ss)
unfolding skip_rest
skip_rest-AreSkipped at [] = tt
skip_rest-AreSkipped at (s ∷ ss) = (refl, skip_rest-AreSkipped at ss)

-- A run of the steps that returns, as it should.
abbrev pub Returns : ℕ → List ChainStep → Option (List StepResult) → Type 0
Returns i ss none = ⊥
Returns i ss (some rs) = (length rs ≡ length ss) × IsChain i rs

Returns-ran :
    (i : ℕ) (s : ChainStep) (ss : List ChainStep) (r : ChildResult) (o : Option (List StepResult))
    → is_completed r.status ≡ true
    → Returns (suc i) ss o
    → Returns i (s ∷ ss) (add_result (ran r) o)
Returns-ran i s ss r none e h = h
Returns-ran i s ss r (some rs) e (h, c) = (ground arith, rw e c)

abbrev add_label : Option Text → List Text → List Text
add_label none defined = defined
add_label (some l) defined = defined ++ l ∷ []

Covers-set_output :
    (label : Option Text) (v : Text) (defined : List Text) (outputs : List (Text × Text))
    → Covers defined outputs
    → Covers (add_label label defined) (set_output label v outputs)
unfolding set_output
Covers-set_output none v defined outputs c = c
Covers-set_output (some l) v defined outputs c = Covers-set l v defined outputs c

validate_from-cons :
    (i : ℕ) (defined : List Text) (s : ChainStep) (ss : List ChainStep)
    → validate_from i defined (s ∷ ss) ≡ none
    → (check_refs i defined (pieces s.prompt) ≡ none)
      × (validate_from (suc i) (add_label s.label defined) ss ≡ none)
unfolding validate_from
validate_from-cons i defined s ss h = ground arith

no_value {ℓ} : {A : Type ℓ} (o : Option A) → o ≡ none → is_some o ≡ true → ⊥
no_value none e h = ground arith
no_value (some a) e h = ground arith

finish_step :
    (i : ℕ) (s : ChainStep) (ss : List ChainStep) (r : ChildResult) (o : Option (List StepResult))
    → (is_completed r.status ≡ true → Returns (suc i) ss o)
    → Returns i
        (s ∷ ss)
        (if is_completed r.status then add_result (ran r) o else some (ran r ∷ skip_rest i ss))
finish_step i s ss r o h = elim (Bool-cases (is_completed r.status)) [
  | inl e ↦ rw e (Returns-ran i s ss r o e (h e))
  | inr e ↦ rw e (ap suc (length-skip_rest i ss), (rw e (skip_rest-AreSkipped i ss)))
]

module _ (units : String → Text) (start_child : ℕ → Text → Outcome) where
  run_from-cons :
      (i : ℕ) (previous : Option Text) (outputs : List (Text × Text)) (s : ChainStep)
      → (ss : List ChainStep) (prompt : Text)
      → interpolate_chain_prompt s.prompt previous outputs ≡ some prompt
      → run_from units start_child i previous outputs (s ∷ ss) ≡ (
          if is_completed (result_of (start_child i prompt)).status
          then add_result (ran (result_of (start_child i prompt))) (
              run_from units start_child
                (suc i)
                (some (units (result_of (start_child i prompt)).text))
                (set_output s.label (units (result_of (start_child i prompt)).text) outputs)
                ss)
          else some (ran (result_of (start_child i prompt)) ∷ skip_rest i ss))
  unfolding run_from result_of
  run_from-cons i previous outputs s ss prompt e = rw (e, run_from) refl

  run_from-Returns :
      (i : ℕ) (defined : List Text) (previous : Option Text) (outputs : List (Text × Text))
      → (ss : List ChainStep) → Covers defined outputs
      → validate_from i defined ss ≡ none
      → Returns i ss (run_from units start_child i previous outputs ss)
  unfolding run_from
  run_from-Returns i defined previous outputs [] c h = (refl, tt)
  run_from-Returns i defined previous outputs (s ∷ ss) c h =
      let (refs, later) = validate_from-cons i defined s ss h in
      elim (Option-cases (interpolate_chain_prompt s.prompt previous outputs)) [
        | inl e ↦
            absurd (
              no_value _ e
                (interpolate-is_some i defined outputs previous (pieces s.prompt) c refs))
        | inr (prompt, e) ↦
            subst (Returns i (s ∷ ss)) (sym (run_from-cons i previous outputs s ss prompt e)) (
              finish_step i s ss (result_of (start_child i prompt)) _ (λ done.
                run_from-Returns (suc i) (add_label s.label defined)
                  (some (units (result_of (start_child i prompt)).text)) _ ss
                  (Covers-set_output s.label _ defined outputs c) later))
      ]

  run_chain_of_valid :
      (steps : List ChainStep)
      → validate_chain_steps steps ≡ none
      → run_chain units start_child steps ≡ (none, run_from units start_child 0 none [] steps)
  unfolding run_chain run_from
  run_chain_of_valid steps h = rw (h, run_chain) refl

  -- A chain that passes the validation throws nothing, whatever its children answer: there is a
  -- result for every step; the results are those of completed children, up to the first child
  -- that did not complete, if any, after which every step is skipped on its account.
  pub run_chain-Returns :
      (steps : List ChainStep)
      → validate_chain_steps steps ≡ none
      → Returns 0 steps (run_chain units start_child steps).1
  unfolding validate_chain_steps
  run_chain-Returns steps h =
      subst (Returns 0 steps) (sym (ap (λ r. r.1) (run_chain_of_valid steps h)))
        (run_from-Returns 0 [] none [] steps (λ l e. ground arith) h)
