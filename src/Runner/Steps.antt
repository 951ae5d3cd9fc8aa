-- ===== src/Runner/Steps.antt =====
-- How a child of extension/src/subagent/runner.ts arms its timers, is prompted and gets its slot.
use pi_better_subagents.Prelude.{
  ℕ, suc, ◌+◌, ◌≡◌, refl, sym, subst, ◌∙◌, Bool, true, false, ◌||◌, Option, none, some, List, [],
  ◌∷◌, ◌++◌, String, leb, ◌==◌, if◌then◌else◌, if_cases, if_both, option_both, Bool-cases, inl, inr,
  arith,
}
use pi_better_subagents.Subagent.{ChildStatus, ResultStatus}
use pi_better_subagents.Runner.{
  Options, Prompt, Admission, ChildHandle, is_settled, partial_text, release, ended, timer_in,
}
use pi_better_subagents.Runner.Begin.{
  prompted, arm_timeout, arm_stall, start_prompt, admitted, answer_admission, on_admission,
}
use pi_better_subagents.Runner.Turns.{
  core, IsOrderly, AreOrdered, keeps, settle-IsOrderly, release-IsOrderly, running-IsOrderly,
  unsettled,
}

last_admission :
    (g : ℕ) (a : Admission) (later : List Admission)
    → AreOrdered g (a ∷ later)
    → a.gen ≡ g
    → later ≡ []
last_admission g a [] h e = refl
last_admission g a (b ∷ bs) (le, (lt, _), (le', _, _)) e = absurd (omega arith)

-- A handle for which somebody waits for a slot holds none.
not_holding :
    (c : ChildHandle) (a : Admission) (later : List Admission)
    → IsOrderly c
    → c.admissions ≡ a ∷ later
    → c.holds_slot ≡ false
unfolding core
not_holding c a later s e = elim (Bool-cases c.holds_slot) [
  | inl h ↦ absurd (nonempty (sym e ∙ s.sound.alone h))
  | inr h ↦ h
]
  where
    nonempty : a ∷ later ≡ [] → ⊥
    nonempty x = ground arith

tail_ordered :
    (c : ChildHandle) (a : Admission) (later : List Admission)
    → IsOrderly c
    → c.admissions ≡ a ∷ later
    → AreOrdered c.generation (a ∷ later)
unfolding core
tail_ordered c a later s e = subst (AreOrdered c.generation) e s.sound.ordered

module _ (o : Options) where
  pub arm_stall-IsOrderly :
      (now gen : ℕ) (c : ChildHandle) → IsOrderly c → IsOrderly (arm_stall o now gen c)
  unfolding arm_stall
  arm_stall-IsOrderly now gen c s = if_both IsOrderly (o.stall_ms == 0) (keeps c s) (keeps c s)

  arm_timeout-IsOrderly :
      (now gen : ℕ) (said : String) (c : ChildHandle)
      → IsOrderly c
      → IsOrderly (arm_timeout o now gen said c)
  unfolding arm_timeout
  arm_timeout-IsOrderly now gen said c s =
      let c' : ChildHandle = record c { timeout_timer = none } in
      let armed : ChildHandle = record c' {
        timeout_timer = timer_in c.timer_scope gen (c.turn_budget_start + o.timeout_ms);
      } in
      let r = ended ResultStatus.interrupted (partial_text said c) (some "timeout") in
      let s' : IsOrderly c' = keeps c s in
      let s'' : IsOrderly armed = keeps c s in
      if_both IsOrderly (o.timeout_ms == 0) s' (
        if_both IsOrderly (leb (c.turn_budget_start + o.timeout_ms) now)
          (settle-IsOrderly now gen r c' s') s'')

  pub start_prompt-IsOrderly :
      (now gen : ℕ) (prompt : Prompt) (first reuse : Bool) (said : String) (c : ChildHandle)
      → IsOrderly c
      → IsOrderly (start_prompt o now gen prompt first reuse said c)
  unfolding start_prompt
  start_prompt-IsOrderly now gen prompt first reuse said c s =
      let budgeted : ChildHandle = record c { turn_budget_start = now } in
      let s0 : IsOrderly budgeted = keeps c s in
      let budget : ChildHandle = if reuse then c else budgeted in
      let s1 : IsOrderly budget = if_both IsOrderly reuse s s0 in
      let timed = arm_timeout o now gen said budget in
      let s2 : IsOrderly timed = arm_timeout-IsOrderly now gen said budget s1 in
      let started = arm_stall o now gen timed in
      let s3 : IsOrderly started = arm_stall-IsOrderly now gen timed s2 in
      option_both IsOrderly c.session
        (settle-IsOrderly now gen (ended ResultStatus.failed "" (some "no session available")) c s)
        (λ session.
          let issued : ChildHandle = record started {
            prompts = started.prompts ++ (gen, prompted o first session prompt) ∷ [];
          } in
          let s4 : IsOrderly issued = keeps started s3 in
          if_both IsOrderly (is_settled gen timed) s2 s4)

  pub admitted-IsOrderly :
      (now gen : ℕ) (prompt : Prompt) (first reuse : Bool) (said : String) (c : ChildHandle)
      → IsOrderly c
      → IsOrderly (admitted o now gen prompt first reuse said c)
  unfolding admitted
  admitted-IsOrderly now gen prompt first reuse said c s =
      if_cases IsOrderly (c.disposed || is_settled gen c) (λ over. release-IsOrderly c s)
        (λ live.
          let running : ChildHandle = record c { status = ChildStatus.running } in
          let r : IsOrderly running = running-IsOrderly c (unsettled gen c (ground arith)) s in
          let creating : ChildHandle = record running { creating = some (gen, prompt) } in
          let r' : IsOrderly creating = keeps running r in
          if_both IsOrderly first r'
            (start_prompt-IsOrderly now gen prompt first reuse said running r))

  admitted_over :
      (now gen : ℕ) (prompt : Prompt) (first reuse : Bool) (said : String) (c : ChildHandle)
      → (c.disposed || is_settled gen c) ≡ true
      → admitted o now gen prompt first reuse said c ≡ release c
  unfolding admitted
  admitted_over now gen prompt first reuse said c e = rw (e, admitted) refl

  -- A slot is granted to a generation that is over, and given back at once; or to the current one,
  -- which then is the last that asked.
  grant-IsOrderly :
      (now : ℕ) (a : Admission) (later : List Admission) (said : String) (c : ChildHandle)
      → c.admissions ≡ a ∷ later
      → IsOrderly c
      → IsOrderly (
          admitted o now a.gen a.prompt a.first false said
            (record c { admissions = later; holds_slot = true; granted = suc c.granted }))
  unfolding core release is_settled
  grant-IsOrderly now a later said c e s =
      let free = not_holding c a later s e in
      let queue = tail_ordered c a later s e in
      let k = s.sound in
      let c' : ChildHandle = record c {
        admissions = later;
        holds_slot = true;
        granted = suc c.granted;
      } in
      elim (Bool-cases (c.disposed || is_settled a.gen c)) [
        | inl over ↦
            subst IsOrderly (sym (admitted_over now a.gen a.prompt a.first false said c' over))
              (record {
                sound = record {
                  ends = k.ends;
                  once = k.once;
                  slots = ground (arith, k.slots);
                  free = λ x. refl;
                  alone = λ x. ground arith;
                  ordered = queue.2;
                  quiet = k.quiet;
                  resuming = k.resuming;
                  single = k.single;
                };
              })
        | inr live ↦
            let none_later : later ≡ [] =
              last_admission c.generation a later queue (ground arith) in
            admitted-IsOrderly now a.gen a.prompt a.first false said c' (record {
              sound = record {
                ends = k.ends;
                once = k.once;
                slots = ground (arith, k.slots);
                free = λ x. ground arith;
                alone = λ x. none_later;
                ordered = queue.2;
                quiet = k.quiet;
                resuming = k.resuming;
                single = k.single;
              };
            })
      ]

  answer-IsOrderly :
      (now : ℕ) (denied : Option String) (said : String) (a : Admission) (later : List Admission)
      → (c : ChildHandle) → c.admissions ≡ a ∷ later
      → IsOrderly c
      → IsOrderly (answer_admission o now denied said a later c)
  unfolding answer_admission core
  answer-IsOrderly now none said a later c e s = grant-IsOrderly now a later said c e s
  answer-IsOrderly now (some error) said a later c e s =
      let k = s.sound in
      let c' : ChildHandle = record c { admissions = later } in
      let free = not_holding c a later s e in
      settle-IsOrderly now a.gen (ended ResultStatus.interrupted "" (some error)) c' (record {
        sound = record {
          ends = k.ends;
          once = k.once;
          slots = k.slots;
          free = k.free;
          alone = λ x. ground arith;
          ordered = (tail_ordered c a later s e).2;
          quiet = k.quiet;
          resuming = k.resuming;
          single = k.single;
        };
      })

  pub on_admission-IsOrderly :
      (now : ℕ) (denied : Option String) (said : String) (c : ChildHandle)
      → IsOrderly c
      → IsOrderly (on_admission o now denied said c)
  unfolding on_admission
  on_admission-IsOrderly now denied said c s = by_cases c.admissions refl
    where
      by_cases :
          (queue : List Admission)
          → c.admissions ≡ queue
          → IsOrderly
              (elim queue [ [] ↦ c | a ∷ later ↦ answer_admission o now denied said a later c ])
      by_cases [] e = s
      by_cases (a ∷ later) e = answer-IsOrderly now denied said a later c e s
