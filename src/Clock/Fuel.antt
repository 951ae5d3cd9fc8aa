-- ===== src/Clock/Fuel.antt =====
-- Enough fuel for `advance_to` of a manual clock of extension/src/clock.ts.
use pi_better_subagents.Prelude.{
  ℕ, zero, suc, ◌+◌, ◌≤◌, ◌<◌, ◌≡◌, refl, sym, subst, ap, true, ◌&&◌, Option, none, some, List, [],
  ◌∷◌, All, any, length, leb, ◌==◌, is_some, if◌then◌else◌, if_cases, Option-cases, inl, inr, arith,
}
use pi_better_subagents.Clock.Advance.{NoneDue, advance_to-NoneDue}
use pi_better_subagents.Clock.{
  ScheduledTimer, ManualClock, is_before, pick, next_due, rearm, fire, advance_loop, advance_to,
}

-- Timeouts only.
abbrev pub AreTimeouts : List ScheduledTimer → Type 0
AreTimeouts ts = All (λ t. t.interval ≡ none) ts

abbrev Found : List ScheduledTimer → Option ScheduledTimer → Type 0
Found ts none = Unit
Found ts (some s) = (any (λ t. t.id == s.id) ts ≡ true) × (s.interval ≡ none)

pick-Found :
    (target : ℕ) (t : ScheduledTimer) (ts : List ScheduledTimer) (o : Option ScheduledTimer)
    → t.interval ≡ none
    → Found ts o
    → Found (t ∷ ts) (pick target t o)
pick-Found target t ts none e f =
    if_cases (Found (t ∷ ts)) (leb t.due target) (λ due. (ground arith, e)) (λ later. tt)
pick-Found target t ts (some s) e (f, g) =
    if_cases (Found (t ∷ ts)) (leb t.due target && is_before t s) (λ b. (ground arith, e))
      (λ b. (ground arith, g))

next_due-Found :
    (target : ℕ) (ts : List ScheduledTimer) → AreTimeouts ts → Found ts (next_due target ts)
unfolding next_due
next_due-Found target [] h = tt
next_due-Found target (t ∷ ts) (h, hs) =
    pick-Found target t ts (next_due target ts) h (next_due-Found target ts hs)

rearm-length :
    (s : ScheduledTimer) (ts : List ScheduledTimer)
    → s.interval ≡ none
    → length (rearm s ts) + (if any (λ t. t.id == s.id) ts then 1 else 0) ≤ length ts
unfolding rearm
rearm-length s [] e = omega arith
rearm-length s (t ∷ ts) e = ground (arith, rearm-length s ts e)

rearm-AreTimeouts :
    (s : ScheduledTimer) (ts : List ScheduledTimer)
    → s.interval ≡ none
    → AreTimeouts ts
    → AreTimeouts (rearm s ts)
unfolding rearm
rearm-AreTimeouts s [] e h = tt
rearm-AreTimeouts s (t ∷ ts) e (h, hs) = ground (arith, rearm-AreTimeouts s ts e hs)

rearm-shorter :
    (s : ScheduledTimer) (ts : List ScheduledTimer)
    → s.interval ≡ none
    → any (λ t. t.id == s.id) ts ≡ true
    → length (rearm s ts) < length ts
rearm-shorter s ts e f = ground (arith, rearm-length s ts e)

no_value {ℓ} : {A : Type ℓ} (o : Option A) → o ≡ none → is_some o ≡ true → ⊥
no_value none e h = ground arith
no_value (some a) e h = ground arith

module _ (run_callback : ℕ → ManualClock → ManualClock) (target : ℕ) where
  -- The callbacks neither set nor clear a timer.
  abbrev pub LeavesTimers : Type 0
  LeavesTimers = (name : ℕ) (c : ManualClock) → (run_callback name c).timers ≡ c.timers

  round-returns :
      (fuel : ℕ) (c : ManualClock) (o : Option ScheduledTimer)
      → LeavesTimers
      → ((d : ManualClock)
          → AreTimeouts d.timers
          → length d.timers < fuel
          → is_some (advance_loop run_callback fuel target d) ≡ true)
      → AreTimeouts c.timers
      → length c.timers ≤ fuel
      → Found c.timers o
      → is_some (elim o [
        | none ↦ some (record c { current_time = target })
        | some next ↦ advance_loop run_callback fuel target (fire run_callback next c)
      ])
        ≡ true
  unfolding fire
  round-returns fuel c none leaves later h k f = refl
  round-returns fuel c (some s) leaves later h k (f, e) =
      let same : (fire run_callback s c).timers ≡ rearm s c.timers = leaves s.callback _ in
      later (fire run_callback s c)
        (subst AreTimeouts (sym same) (rearm-AreTimeouts s c.timers e h))
        (omega (arith, ap length same, rearm-shorter s c.timers e f))

  advance_loop-returns :
      (fuel : ℕ) (c : ManualClock)
      → LeavesTimers
      → AreTimeouts c.timers
      → length c.timers < fuel
      → is_some (advance_loop run_callback fuel target c) ≡ true
  unfolding advance_loop
  advance_loop-returns zero c leaves h k = absurd (omega arith)
  advance_loop-returns (suc fuel) c leaves h k =
      round-returns fuel c (next_due target c.timers) leaves
        (λ d. advance_loop-returns fuel d leaves) h (omega arith) (next_due-Found target c.timers h)

  advance_to_of_loop :
      (fuel : ℕ) (c c' : ManualClock)
      → c.current_time ≤ target
      → advance_loop run_callback fuel target c ≡ some c'
      → advance_to run_callback fuel target c ≡ some (some c')
  unfolding advance_to
  advance_to_of_loop fuel c c' h e = ground arith

  -- With callbacks that neither set nor clear timers and a clock that has timeouts only, `advance_to`
  -- returns: for a target that is not in the past, one unit of fuel more than there are timers is
  -- enough, and the clock that it returns shows the target and has no timer due.
  pub advance_to-returns :
      (fuel : ℕ) (c : ManualClock)
      → LeavesTimers
      → AreTimeouts c.timers
      → c.current_time ≤ target
      → length c.timers < fuel
      → (c' : ManualClock) × (advance_to run_callback fuel target c ≡ some (some c'))
        × (c'.current_time ≡ target)
        × NoneDue target c'.timers
  advance_to-returns fuel c leaves h past k =
      elim (Option-cases (advance_loop run_callback fuel target c)) [
        | inl e ↦ absurd (no_value _ e (advance_loop-returns fuel c leaves h k))
        | inr (c', e) ↦
            let returned = advance_to_of_loop fuel c c' past e in
            let (at_target, none_due) = advance_to-NoneDue run_callback target fuel c c' returned in
            (c', returned, at_target, none_due)
      ]
