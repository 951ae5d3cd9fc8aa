-- ===== src/Registry/RunStatus.antt =====
-- `recomputeRunStatus` of extension/src/subagent/registry.ts.
use pi_better_subagents.Prelude.{
  ◌≡◌, refl, ◌≢◌, ◌↔◌, ◌⊎◌, inl, inr, true, false, not, List, [], ◌∷◌, All, any, if_cases, arith,
}
use pi_better_subagents.Subagent.{ChildStatus, is_terminal}
use pi_better_subagents.Registry.{InternalChild, RunState, is_status, every, run_state}

is_status_iff : (s t : ChildStatus) → (is_status s t ≡ true) ↔ (s ≡ t)
is_status_iff ChildStatus.pending t = ground arith
is_status_iff ChildStatus.running t = ground arith
is_status_iff ChildStatus.completed t = ground arith
is_status_iff ChildStatus.failed t = ground arith
is_status_iff ChildStatus.interrupted t = ground arith

module _ {H : Type 0} where
  -- Every child has the status.
  abbrev pub AllAre : ChildStatus → List (InternalChild H) → Type 0
  AllAre s cs = All (λ c. c.status ≡ s) cs

  abbrev pub AllEnded : List (InternalChild H) → Type 0
  AllEnded cs = All (λ c. is_terminal c.status ≡ true) cs

  any-not_ended :
      (cs : List (InternalChild H))
      → (any (λ c. not (is_terminal c.status)) cs ≡ false) ↔ AllEnded cs
  any-not_ended [] = ground arith
  any-not_ended (c ∷ cs) = ground (arith, any-not_ended cs)

  every_iff : (s : ChildStatus) (cs : List (InternalChild H)) → (every s cs ≡ true) ↔ AllAre s cs
  every_iff s [] = ground arith
  every_iff s (c ∷ cs) = ground (arith, every_iff s cs, is_status_iff c.status s)

  -- What each status of a run says of its children.
  abbrev pub Says : RunState → List (InternalChild H) → Type 0
  Says RunState.running cs = (cs ≡ []) ⊎ ¬ AllEnded cs
  Says RunState.completed cs = (cs ≢ []) × AllAre ChildStatus.completed cs
  Says RunState.failed cs = (cs ≢ []) × AllAre ChildStatus.failed cs
  Says RunState.interrupted cs = (cs ≢ []) × AllAre ChildStatus.interrupted cs
  Says RunState.partial cs =
      AllEnded cs
      × ¬ AllAre ChildStatus.completed cs
      × ¬ AllAre ChildStatus.failed cs
      × ¬ AllAre ChildStatus.interrupted cs

  not_every : (s : ChildStatus) (cs : List (InternalChild H)) → every s cs ≡ false → ¬ AllAre s cs
  not_every s cs e h = let both = (every_iff s cs).1 h in cc

  -- The status computed for a run says how its children stand: `running` that there are none or
  -- that one has not ended; `completed`, `failed` and `interrupted` that there are some and all
  -- ended so; `partial` that all ended and in none of these ways together.
  pub run_state-Says : (cs : List (InternalChild H)) → Says (run_state cs) cs
  unfolding run_state
  run_state-Says [] = inl refl
  run_state-Says (c ∷ cs) =
      let all_children = c ∷ cs in
      let some_child : all_children ≢ [] = λ e. cc in
      let says = λ (s : RunState). Says s all_children in
      if_cases says (any (λ x. not (is_terminal x.status)) all_children)
        (λ open_one. inr (λ ended. let both = (any-not_ended all_children).1 ended in cc))
        (λ ended.
          if_cases says (every ChildStatus.completed all_children)
            (λ e. (some_child, (every_iff ChildStatus.completed all_children).0 e))
            (λ not_completed.
              if_cases says (every ChildStatus.interrupted all_children)
                (λ e. (some_child, (every_iff ChildStatus.interrupted all_children).0 e))
                (λ not_interrupted.
                  if_cases says (every ChildStatus.failed all_children)
                    (λ e. (some_child, (every_iff ChildStatus.failed all_children).0 e))
                    (λ not_failed. (
                      (any-not_ended all_children).0 ended,
                      not_every ChildStatus.completed all_children not_completed,
                      not_every ChildStatus.failed all_children not_failed,
                      not_every ChildStatus.interrupted all_children not_interrupted,
                    )))))
