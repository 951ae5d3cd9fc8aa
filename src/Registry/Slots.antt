-- ===== src/Registry/Slots.antt =====
-- The slots of extension/src/subagent/registry.ts over a history of requests and releases.
use pi_better_subagents.Prelude.{
  ℕ, suc, ◌+◌, ◌≤◌, ◌<◌, ◌≡◌, refl, ◌≢◌, true, none, some, List, [], ◌∷◌, ◌++◌, length,
  length-append, append_assoc, append-nil, ltb, ltb→lt, Bool-cases, inl, inr, if◌then◌else◌, arith,
}
use pi_better_subagents.Registry.{SubagentRegistry}
use pi_better_subagents.Registry.Ops.{new, acquire_slot, release_slot}

-- A child asks for a slot, or one that holds a slot gives it back.
pub data Event : Type 0 where
  acquires : (promise : ℕ) → Event
  releases : Event

-- The registry with who has been granted a slot, in order, and how many were given back.
pub record Trace (H : Type 0) : Type 0 where
  pub registry : SubagentRegistry H
  pub requested : List ℕ
  pub granted : List ℕ
  pub released : ℕ

module _ {H : Type 0} where
  -- A slot is given back only while one is held: `release` runs once for each grant.
  pub step : Trace H → Event → Trace H
  step t (acquires promise) =
      let r = acquire_slot promise t.registry in
      record {
        registry = r.0;
        requested = t.requested ++ promise ∷ [];
        granted = if r.1 then t.granted ++ promise ∷ [] else t.granted;
        released = t.released;
      }
  step t releases =
      let r = release_slot t.registry in
      if ltb t.released (length t.granted)
      then record {
        registry = r.0;
        requested = t.requested;
        granted = elim r.1 [ none ↦ t.granted | some next ↦ t.granted ++ next ∷ [] ];
        released = suc t.released;
      }
      else t

  pub run : Trace H → List Event → Trace H
  run t [] = t
  run t (e ∷ es) = run (step t e) es

  pub start : (max_children spawn_budget : ℕ) → Trace H
  start max_children spawn_budget = record {
    registry = new max_children spawn_budget true;
    requested = [];
    granted = [];
    released = 0;
  }

  pub record IsFair (t : Trace H) : Type 0 where
    pub in_order : t.granted ++ t.registry.slot_waiters ≡ t.requested
    pub held : length t.granted ≡ t.released + t.registry.active_slots
    pub capped : t.registry.active_slots ≤ t.registry.max_children
    pub full : t.registry.slot_waiters ≢ [] → t.registry.active_slots ≡ t.registry.max_children

  -- Nobody waits while a slot is free.
  no_waiter :
      (t : Trace H)
      → IsFair t
      → t.registry.active_slots < t.registry.max_children
      → (ws : List ℕ) → t.registry.slot_waiters ≡ ws
      → t.registry.slot_waiters ≡ []
  no_waiter t f h [] e = e
  no_waiter t f h (w ∷ ws) e =
      let some_wait : t.registry.slot_waiters ≢ [] = λ z. cc in
      absurd (omega (arith, f.full some_wait))

  acquire_order :
      (t : Trace H) (p : ℕ)
      → IsFair t
      → (step t (acquires p)).granted ++ (step t (acquires p)).registry.slot_waiters
        ≡ (step t (acquires p)).requested
  unfolding step acquire_slot
  acquire_order t p f = elim (Bool-cases (ltb t.registry.active_slots t.registry.max_children)) [
    | inl free ↦ ground (
      arith,
      f.in_order,
      no_waiter t f (ltb→lt _ _ free) t.registry.slot_waiters refl,
      append-nil t.granted,
      append-nil (t.granted ++ p ∷ []),
    )
    | inr busy ↦ ground (arith, f.in_order, append_assoc t.granted t.registry.slot_waiters (p ∷ []))
  ]

  acquire-IsFair : (t : Trace H) (p : ℕ) → IsFair t → IsFair (step t (acquires p))
  unfolding step acquire_slot
  acquire-IsFair t p f = record {
    in_order = acquire_order t p f;
    held = ground (arith, f.held, length-append t.granted (p ∷ []));
    capped = ground (arith, f.capped);
    full = ground (arith, f.capped, f.full);
  }

  release-IsFair_ws :
      (t : Trace H) (ws : List ℕ)
      → t.registry.slot_waiters ≡ ws
      → IsFair t
      → IsFair (step t releases)
  unfolding step release_slot
  release-IsFair_ws t [] e f = ground (arith, f.held, f.in_order, f.capped, f.full)
  release-IsFair_ws t (w ∷ ws) e f =
      let some_wait : t.registry.slot_waiters ≢ [] = λ z. cc in
      ground (
        arith,
        f.held,
        f.in_order,
        f.capped,
        f.full some_wait,
        append_assoc t.granted (w ∷ []) ws,
        length-append t.granted (w ∷ []),
      )

  release-IsFair : (t : Trace H) → IsFair t → IsFair (step t releases)
  release-IsFair t f = release-IsFair_ws t t.registry.slot_waiters refl f

  run_from-IsFair : (t : Trace H) (es : List Event) → IsFair t → IsFair (run t es)
  unfolding run step
  run_from-IsFair t [] f = f
  run_from-IsFair t (acquires p ∷ es) f =
      run_from-IsFair (step t (acquires p)) es (acquire-IsFair t p f)
  run_from-IsFair t (releases ∷ es) f = run_from-IsFair (step t releases) es (release-IsFair t f)

-- Over any history of a new registry: the children that were granted a slot, then those that wait,
-- are those that asked, in the order of asking; the slots in use are the grants that were not
-- given back, and at most the cap; and while anybody waits, all slots are in use.
pub run-IsFair :
    (H : Type 0) (max_children spawn_budget : ℕ) (es : List Event)
    → IsFair (run (start {H = H} max_children spawn_budget) es)
unfolding start new
run-IsFair H max_children spawn_budget es =
    run_from-IsFair (start {H = H} max_children spawn_budget) es (record {
      in_order = refl;
      held = omega arith;
      capped = omega arith;
      full = λ h. absurd (h refl);
    })
