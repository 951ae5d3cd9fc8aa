-- ===== src/Chain.antt =====
-- The chains of extension/src/subagent/pool.ts: `validateChainSteps`, `interpolateChainPrompt` and
-- `runChain`. A text is its code units; `units` gives those of a string. `start_child` answers for
-- an ordinal and a prompt, so it may answer anything, and it is asked once for an ordinal. A map
-- of labels is a list whose first entry for a label counts.
pub mod Pieces
pub mod Validated
use pi_better_subagents.Prelude.{
  ℕ, zero, suc, ◌+◌, Bool, true, false, Option, none, some, List, [], ◌∷◌, ◌++◌, String, ◌||◌, ◌==◌,
  if◌then◌else◌,
}
use pi_better_subagents.Subagent.{ChildResult, ResultStatus, plain_result, is_completed}
use pi_better_subagents.Pool.{Outcome, result_of}
use pi_better_subagents.Chain.Pieces.{Text, text_eq, Piece, unit, previous_ref, output_ref, pieces}

pub record ChainStep : Type 0 where
  pub prompt : Text
  pub label : Option Text

pub data ChainError : Type 0 where
  no_previous : (step : ℕ) → ChainError
  unknown_label : (step : ℕ) → (label : Text) → (defined : List Text) → ChainError
  duplicate_label : (step : ℕ) → (label : Text) → ChainError

unfoldable pub has_label : Text → List Text → Bool
has_label l [] = false
has_label l (d ∷ ds) = text_eq d l || has_label l ds

-- The loop over the references of one prompt; `none` is that nothing is thrown.
unfoldable pub check_refs : ℕ → List Text → List Piece → Option ChainError
unfolding has_label
check_refs i defined [] = none
check_refs i defined (unit c ∷ ps) = check_refs i defined ps
check_refs i defined (previous_ref ∷ ps) =
    let rest = check_refs i defined ps in if i == 0 then some (no_previous (i + 1)) else rest
check_refs i defined (output_ref l ∷ ps) =
    let rest = check_refs i defined ps in
    if has_label l defined then rest else some (unknown_label (i + 1) l defined)

-- The loop over the steps from the `i`th on.
unfoldable pub validate_from : ℕ → List Text → List ChainStep → Option ChainError
unfolding check_refs
validate_from i defined [] = none
validate_from i defined (s ∷ ss) = elim (check_refs i defined (pieces s.prompt)) [
  | some e ↦ some e
  | none ↦ elim s.label [
    | none ↦ validate_from (suc i) defined ss
    | some l ↦
        (let rest = validate_from (suc i) (defined ++ l ∷ []) ss in
          if has_label l defined then some (duplicate_label (i + 1) l) else rest)
  ]
]

unfoldable pub validate_chain_steps : List ChainStep → Option ChainError
unfolding validate_from
validate_chain_steps steps = validate_from 0 [] steps

abbrev pub or_empty : Option Text → Text
or_empty none = []
or_empty (some t) = t

unfoldable pub get_output : Text → List (Text × Text) → Option Text
get_output l [] = none
get_output l ((k, v) ∷ o) = let rest = get_output l o in if text_eq k l then some v else rest

-- `none` is the error of an unknown label.
unfoldable pub interpolate : Option Text → List (Text × Text) → List Piece → Option Text
unfolding get_output
interpolate previous outputs [] = some []
interpolate previous outputs (p ∷ ps) = elim (interpolate previous outputs ps) [
  | none ↦ none
  | some rest ↦ elim p [
    | unit c ↦ some (c ∷ rest)
    | previous_ref ↦ some (or_empty previous ++ rest)
    | output_ref l ↦ elim (get_output l outputs) [ none ↦ none | some t ↦ some (t ++ rest) ]
  ]
]

unfoldable pub interpolate_chain_prompt : Text → Option Text → List (Text × Text) → Option Text
unfolding interpolate
interpolate_chain_prompt prompt previous outputs = interpolate previous outputs (pieces prompt)

-- The message of a skipped step names the step that failed; here its ordinal stands for it.
pub data StepResult : Type 0 where
  ran : ChildResult → StepResult
  skipped : (aborted_at : ℕ) → StepResult

abbrev pub add_result : StepResult → Option (List StepResult) → Option (List StepResult)
add_result r none = none
add_result r (some rs) = some (r ∷ rs)

-- The steps after one that failed.
unfoldable pub skip_rest : ℕ → List ChainStep → List StepResult
skip_rest at [] = []
skip_rest at (s ∷ ss) = skipped at ∷ skip_rest at ss

unfoldable pub set_output : Option Text → Text → List (Text × Text) → List (Text × Text)
set_output none text outputs = outputs
set_output (some l) text outputs = (l, text) ∷ outputs

module _ (units : String → Text) (start_child : ℕ → Text → Outcome) where
  -- The loop of `run_chain` from the `i`th step on; `none` is that it throws.
  unfoldable pub run_from :
      ℕ → Option Text → List (Text × Text) → List ChainStep → Option (List StepResult)
  unfolding interpolate_chain_prompt skip_rest set_output result_of
  run_from i previous outputs [] = some []
  run_from i previous outputs (s ∷ ss) = elim (interpolate_chain_prompt s.prompt previous outputs) [
    | none ↦ none
    | some prompt ↦
        (let r = result_of (start_child i prompt) in
          let text = units r.text in
          let rest = run_from (suc i) (some text) (set_output s.label text outputs) ss in
          if is_completed r.status then add_result (ran r) rest else some (ran r ∷ skip_rest i ss))
  ]

  -- The error of the validation, and else the results; nothing starts where there is an error.
  unfoldable pub run_chain : List ChainStep → Option ChainError × Option (List StepResult)
  unfolding run_from validate_chain_steps
  run_chain steps = elim (validate_chain_steps steps) [
    | some e ↦ (some e, none)
    | none ↦ (none, run_from 0 none [] steps)
  ]
