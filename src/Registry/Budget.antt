-- ===== src/Registry/Budget.antt =====
-- The budget of sessions per hour of extension/src/subagent/registry.ts, and all sessions.
use pi_better_subagents.Prelude.{
  ℕ, ◌+◌, ◌≤◌, ◌≡◌, refl, sym, ap, ◌∙◌, Bool, true, false, List, [], ◌∷◌, ◌++◌, length,
  length-append, keep, if_cases, ltb, if◌then◌else◌, arith,
}
use pi_better_subagents.Registry.{SubagentRegistry, hour_ms}
use pi_better_subagents.Registry.Ops.{new, consume_spawn_budget}

-- Within the last hour.
abbrev pub is_recent : ℕ → ℕ → Bool
is_recent now t = ltb now (t + hour_ms)

keep-snoc :
    (now : ℕ) (ts : List ℕ)
    → keep (is_recent now) (ts ++ now ∷ []) ≡ keep (is_recent now) ts ++ now ∷ []
keep-snoc now [] = ground arith
keep-snoc now (t ∷ ts) = ground (arith, keep-snoc now ts)

keep-keep :
    (before now : ℕ) (ts : List ℕ)
    → before ≤ now
    → keep (is_recent now) (keep (is_recent before) ts) ≡ keep (is_recent now) ts
keep-keep before now [] h = refl
keep-keep before now (t ∷ ts) h = ground (arith, keep-keep before now ts h)

length-keep_mono :
    (before now : ℕ) (ts : List ℕ)
    → before ≤ now
    → length (keep (is_recent now) ts) ≤ length (keep (is_recent before) ts)
length-keep_mono before now [] h = omega arith
length-keep_mono before now (t ∷ ts) h = ground (arith, length-keep_mono before now ts h)

-- The times of the requests do not fall.
abbrev pub IsSorted : ℕ → List ℕ → Type 0
IsSorted t [] = Unit
IsSorted t (now ∷ later) = (t ≤ now) × IsSorted now later

abbrev pub latest : ℕ → List ℕ → ℕ
latest t [] = t
latest t (now ∷ later) = latest now later

module _ {H : Type 0} where
  -- The sessions that are allowed, of those asked for at the given times.
  pub spawned : SubagentRegistry H → List ℕ → List ℕ → List ℕ
  spawned g hist [] = hist
  spawned g hist (now ∷ later) =
      let r = consume_spawn_budget now g in
      let allowed = spawned r.0 (hist ++ now ∷ []) later in
      let refused = spawned r.0 hist later in if r.1 then allowed else refused

  -- The times that the registry keeps are the recent ones of the history.
  abbrev Remembers : ℕ → List ℕ → SubagentRegistry H → Type 0
  Remembers t hist g = keep (is_recent t) hist ≡ g.spawn_times

  consume-Remembers :
      (t now : ℕ) (hist : List ℕ) (g : SubagentRegistry H)
      → t ≤ now
      → Remembers t hist g
      → keep (is_recent now) g.spawn_times ≡ keep (is_recent now) hist
  consume-Remembers t now hist g h e = ap (keep (is_recent now)) (sym e) ∙ keep-keep t now hist h

  consume_allowed :
      (t now : ℕ) (hist : List ℕ) (g : SubagentRegistry H)
      → t ≤ now
      → Remembers t hist g
      → (consume_spawn_budget now g).1 ≡ true
      → Remembers now (hist ++ now ∷ []) (consume_spawn_budget now g).0
        × (length (keep (is_recent now) (hist ++ now ∷ [])) ≤ g.spawn_budget)
        × ((consume_spawn_budget now g).0.spawn_budget ≡ g.spawn_budget)
  unfolding consume_spawn_budget
  consume_allowed t now hist g h e ok = ground (
    arith,
    consume-Remembers t now hist g h e,
    keep-snoc now hist,
    length-append (keep (is_recent now) hist) (now ∷ []),
  )

  consume_refused :
      (t now : ℕ) (hist : List ℕ) (g : SubagentRegistry H)
      → t ≤ now
      → Remembers t hist g
      → (consume_spawn_budget now g).1 ≡ false
      → Remembers now hist (consume_spawn_budget now g).0
        × ((consume_spawn_budget now g).0.spawn_budget ≡ g.spawn_budget)
  unfolding consume_spawn_budget
  consume_refused t now hist g h e over = ground (arith, consume-Remembers t now hist g h e)

  spawned-le :
      (budget t : ℕ) (g : SubagentRegistry H) (hist times : List ℕ)
      → g.spawn_budget ≡ budget
      → Remembers t hist g
      → length (keep (is_recent t) hist) ≤ budget
      → IsSorted t times
      → length (keep (is_recent (latest t times)) (spawned g hist times)) ≤ budget
  unfolding spawned
  spawned-le budget t g hist [] b e h sorted = h
  spawned-le budget t g hist (now ∷ later) b e h (le, sorted) =
      if_cases (λ ts. length (keep (is_recent (latest now later)) ts) ≤ budget)
        (consume_spawn_budget now g).1
        (λ ok.
          let (kept, fits, same) = consume_allowed t now hist g le e ok in
          spawned-le budget now (consume_spawn_budget now g).0 (hist ++ now ∷ []) later (same ∙ b)
            kept (omega arith) sorted)
        (λ over.
          let (kept, same) = consume_refused t now hist g le e over in
          spawned-le budget now (consume_spawn_budget now g).0 hist later (same ∙ b) kept
            (omega (arith, length-keep_mono t now hist le)) sorted)

-- However often sessions are asked for, at times that do not fall, a new registry allows in no
-- hour more than its budget: among the sessions allowed up to any request, those of the hour
-- before it are at most the budget.
pub spawned-bound :
    (H : Type 0) (max_children budget : ℕ) (times : List ℕ)
    → IsSorted 0 times
    → length (
        keep (is_recent (latest 0 times)) (spawned (new {H = H} max_children budget true) [] times))
      ≤ budget
unfolding new
spawned-bound H max_children budget times sorted =
    spawned-le budget 0 (new {H = H} max_children budget true) [] times refl refl (omega arith)
      sorted
