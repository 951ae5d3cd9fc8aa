-- ===== src/Clock/Advance.antt =====
-- Which timers a manual clock of extension/src/clock.ts fires.
use pi_better_subagents.Prelude.{
  subst, ℕ, zero, suc, ◌≤◌, ◌<◌, ◌≡◌, refl, ◌⊎◌, ◌&&◌, Option, none, some, List, [], ◌∷◌, All, leb,
  if_cases, leb→le, Option-cases, inl, inr, arith,
}
use pi_better_subagents.Clock.{
  ScheduledTimer, ManualClock, next_due, fire, advance_loop, advance_to, pick, is_before,
}

-- No timer of the list is due.
abbrev pub NoneDue : ℕ → List ScheduledTimer → Type 0
NoneDue target ts = All (λ t. target < t.due) ts

-- The timer is due, and none of the list is due earlier, or as early and set earlier.
abbrev pub IsFirst : ℕ → ScheduledTimer → List ScheduledTimer → Type 0
IsFirst target s ts =
    (s.due ≤ target)
    × All (λ t. (target < t.due) ⊎ (s.due < t.due) ⊎ ((s.due ≡ t.due) × (s.id ≤ t.id))) ts

abbrev pub Selects : ℕ → List ScheduledTimer → Option ScheduledTimer → Type 0
Selects target ts none = NoneDue target ts
Selects target ts (some s) = IsFirst target s ts

-- Not before another timer, or not due.
abbrev After : ℕ → ScheduledTimer → ScheduledTimer → Type 0
After target s t = (target < t.due) ⊎ (s.due < t.due) ⊎ ((s.due ≡ t.due) × (s.id ≤ t.id))

All-After_of_NoneDue :
    (target : ℕ) (s : ScheduledTimer) (ts : List ScheduledTimer)
    → NoneDue target ts
    → All (After target s) ts
All-After_of_NoneDue target s [] h = tt
All-After_of_NoneDue target s (t ∷ ts) (h, hs) = (inl h, All-After_of_NoneDue target s ts hs)

All-After-trans :
    (target : ℕ) (r s : ScheduledTimer) (ts : List ScheduledTimer)
    → After target r s
    → s.due ≤ target
    → All (After target s) ts
    → All (After target r) ts
All-After-trans target r s [] first due h = tt
All-After-trans target r s (t ∷ ts) first due (h, hs) =
    (ground arith, All-After-trans target r s ts first due hs)

pick-Selects :
    (target : ℕ) (t : ScheduledTimer) (ts : List ScheduledTimer) (o : Option ScheduledTimer)
    → Selects target ts o
    → Selects target (t ∷ ts) (pick target t o)
pick-Selects target t ts none h =
    if_cases (Selects target (t ∷ ts)) (leb t.due target)
      (λ due. (leb→le _ _ due, (inr (inr (refl, omega arith)), All-After_of_NoneDue target t ts h)))
      (λ later. (ground arith, h))
pick-Selects target t ts (some s) (due, h) =
    if_cases (Selects target (t ∷ ts)) (leb t.due target && is_before t s)
      (λ b. (
        ground arith,
        (inr (inr (refl, omega arith)), All-After-trans target t s ts (ground arith) due h),
      ))
      (λ b. (due, (ground arith, h)))

-- The timer that `advance_to` fires next is due, and of those that are due it is the earliest, and
-- the one set first among the earliest; if it finds none, none is due.
pub next_due-Selects :
    (target : ℕ) (ts : List ScheduledTimer) → Selects target ts (next_due target ts)
unfolding next_due
next_due-Selects target [] = tt
next_due-Selects target (t ∷ ts) =
    pick-Selects target t ts (next_due target ts) (next_due-Selects target ts)

module _ (run_callback : ℕ → ManualClock → ManualClock) (target : ℕ) where
  abbrev IsAt : ManualClock → Type 0
  IsAt c = (c.current_time ≡ target) × NoneDue target c.timers

  round-IsAt :
      (fuel : ℕ) (c c' : ManualClock) (o : Option ScheduledTimer)
      → ((d : ManualClock) → advance_loop run_callback fuel target d ≡ some c' → IsAt c')
      → Selects target c.timers o
      → (elim o [
        | none ↦ some (record c { current_time = target })
        | some next ↦ advance_loop run_callback fuel target (fire run_callback next c)
      ])
        ≡ some c'
      → IsAt c'
  round-IsAt fuel c c' none later h e =
      subst (λ (x : Option ManualClock). elim x [ none ↦ Unit | some d ↦ IsAt d ]) e (refl, h)
  round-IsAt fuel c c' (some next) later h e = later (fire run_callback next c) e

  advance_loop-IsAt :
      (fuel : ℕ) (c c' : ManualClock) → advance_loop run_callback fuel target c ≡ some c' → IsAt c'
  unfolding advance_loop
  advance_loop-IsAt zero c c' e = ground arith
  advance_loop-IsAt (suc fuel) c c' e =
      round-IsAt fuel c c' (next_due target c.timers) (λ d. advance_loop-IsAt fuel d c')
        (next_due-Selects target c.timers) e

  advance_loop_of_to :
      (fuel : ℕ) (c c' : ManualClock)
      → advance_to run_callback fuel target c ≡ some (some c')
      → advance_loop run_callback fuel target c ≡ some c'
  unfolding advance_to
  advance_loop_of_to fuel c c' e = elim (Option-cases (advance_loop run_callback fuel target c)) [
    | inl f ↦ ground arith
    | inr (d, f) ↦ ground arith
  ]

  -- `advance_to` leaves nothing undone: when it has returned a clock, whatever the callbacks did to
  -- the clock meanwhile, that clock shows the target and no timer of it is due.
  pub advance_to-NoneDue :
      (fuel : ℕ) (c c' : ManualClock)
      → advance_to run_callback fuel target c ≡ some (some c')
      → (c'.current_time ≡ target) × NoneDue target c'.timers
  advance_to-NoneDue fuel c c' e = advance_loop-IsAt fuel c c' (advance_loop_of_to fuel c c' e)
