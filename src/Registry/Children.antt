-- ===== src/Registry/Children.antt =====
-- Looking up and changing a child of extension/src/subagent/registry.ts.
use pi_better_subagents.Prelude.{
  ◌≡◌, refl, ap, Bool, not, some, List, [], ◌∷◌, String, eq_iff, all, any, Option-cases, inl, inr,
  arith,
}
use pi_better_subagents.Prelude.Dict.{get}
use pi_better_subagents.Subagent.{ChildStatus, is_terminal}
use pi_better_subagents.Registry.{
  InternalChild, InternalRun, SubagentRegistry, is_status, run_state, update_child, find_in,
  find_object,
}

module _ {H : Type 0} where
  -- Where a child object comes from.
  pub find_object-get :
      (id : String) (g : SubagentRegistry H) (r : InternalRun H) (c : InternalChild H)
      → find_object id g ≡ some (r, c)
      → (k : String) × (get id g.children ≡ some k)
        × (get k g.runs ≡ some r)
        × (find_in id r.children ≡ some c)
  unfolding find_object
  find_object-get id g r c e = elim (Option-cases (get id g.children)) [
    | inl missing ↦ absurd (ground arith)
    | inr (k, found) ↦ (k, found, ground arith, ground arith)
  ]

  pub find_object_of_get :
      (id k : String) (g : SubagentRegistry H) (r : InternalRun H) (c : InternalChild H)
      → get id g.children ≡ some k
      → get k g.runs ≡ some r
      → find_in id r.children ≡ some c
      → find_object id g ≡ some (r, c)
  unfolding find_object
  find_object_of_get id k g r c e f h = rw (e, find_object) (rw (f) (rw h))

  -- A changed child is found changed, if the change leaves its name tag alone.
  pub find_in-update_child :
      (id : String) (f : InternalChild H → InternalChild H) (cs : List (InternalChild H))
      → (c : InternalChild H) → find_in id cs ≡ some c
      → (f c).child_id ≡ c.child_id
      → find_in id (update_child id f cs) ≡ some (f c)
  unfolding find_in update_child
  find_in-update_child id f [] c e tag = cc
  find_in-update_child id f (x ∷ cs) c e tag =
      ground (arith, find_in-update_child id f cs c, eq_iff x.child_id id, eq_iff (f x).child_id id)

  -- A change that leaves the status alone leaves the status of the run alone.
  any-update_child :
      (p : ChildStatus → Bool) (id : String) (f : InternalChild H → InternalChild H)
      → (cs : List (InternalChild H)) → ((c : InternalChild H) → (f c).status ≡ c.status)
      → any (λ c. p c.status) (update_child id f cs) ≡ any (λ c. p c.status) cs
  unfolding update_child
  any-update_child p id f [] h = refl
  any-update_child p id f (c ∷ cs) h = ground (arith, any-update_child p id f cs h, h c, ap p (h c))

  all-update_child :
      (p : ChildStatus → Bool) (id : String) (f : InternalChild H → InternalChild H)
      → (cs : List (InternalChild H)) → ((c : InternalChild H) → (f c).status ≡ c.status)
      → all (λ c. p c.status) (update_child id f cs) ≡ all (λ c. p c.status) cs
  unfolding update_child
  all-update_child p id f [] h = refl
  all-update_child p id f (c ∷ cs) h = ground (arith, all-update_child p id f cs h, h c, ap p (h c))

  pub run_state-update_child :
      (id : String) (f : InternalChild H → InternalChild H) (cs : List (InternalChild H))
      → ((c : InternalChild H) → (f c).status ≡ c.status)
      → run_state (update_child id f cs) ≡ run_state cs
  unfolding run_state update_child
  run_state-update_child id f [] h = refl
  run_state-update_child id f (c ∷ cs) h = ground (
    arith,
    any-update_child (λ s. not (is_terminal s)) id f (c ∷ cs) h,
    all-update_child (λ s. is_status s ChildStatus.completed) id f (c ∷ cs) h,
    all-update_child (λ s. is_status s ChildStatus.interrupted) id f (c ∷ cs) h,
    all-update_child (λ s. is_status s ChildStatus.failed) id f (c ∷ cs) h,
  )
