-- ===== src/Runner/Begin.antt =====
-- How a generation of a child begins, from its admission to its prompt, and its two timers:
-- `beginGeneration` of extension/src/subagent/runner.ts.
use pi_better_subagents.Prelude.{
  ℕ, suc, ◌+◌, Bool, true, false, not, ◌&&◌, ◌||◌, Option, none, some, List, [], ◌∷◌, ◌++◌, String,
  leb, ◌==◌, if◌then◌else◌,
}
use pi_better_subagents.Subagent.{ChildStatus, ResultStatus}
use pi_better_subagents.Runner.{
  Options, Session, Prompt, user, with_model, Admission, ChildHandle, is_settled, partial_text,
  release, settle, ended, timer_in,
}

-- The fields of a new generation.
unfoldable pub renew : (now : ℕ) → ChildHandle → ChildHandle
renew now c = record c {
  generation = suc c.generation;
  retired_gen = none;
  retry_timer = none;
  timer_scope = some c.next_scope;
  next_scope = suc c.next_scope;
  settled_flag = false;
  status = ChildStatus.pending;
  started_at = now;
  last_event = now;
  tool_depth = 0;
  decision_paused = false;
}

module _ (o : Options) where
  -- With the budget spent, the timeout is not armed but takes effect at once.
  unfoldable pub arm_timeout : (now gen : ℕ) → (said : String) → ChildHandle → ChildHandle
  unfolding settle partial_text
  arm_timeout now gen said c =
      let c' = record c { timeout_timer = none } in
      if o.timeout_ms == 0
      then c'
      else if leb (c.turn_budget_start + o.timeout_ms) now
      then settle now gen (ended ResultStatus.interrupted (partial_text said c) (some "timeout")) c'
      else record c' {
        timeout_timer = timer_in c.timer_scope gen (c.turn_budget_start + o.timeout_ms);
      }

  unfoldable pub arm_stall : (now gen : ℕ) → ChildHandle → ChildHandle
  arm_stall now gen c =
      if o.stall_ms == 0
      then record c { stall_timer = none }
      else record c { stall_timer = timer_in c.timer_scope gen (now + o.stall_ms) }

  abbrev pub prompted : Bool → Session → Prompt → Prompt
  prompted first s prompt = elim s.resolved_model [
    | none ↦ prompt
    | some model ↦ if first then with_model model prompt else prompt
  ]

  -- The end of `beginGeneration`, from the test of the session on.
  unfoldable pub start_prompt :
      (now gen : ℕ) → Prompt → (first reuse : Bool) → (said : String) → ChildHandle → ChildHandle
  unfolding arm_timeout arm_stall settle is_settled
  start_prompt now gen prompt first reuse said c = elim c.session [
    | none ↦ settle now gen (ended ResultStatus.failed "" (some "no session available")) c
    | some s ↦
        let budget = if reuse then c else record c { turn_budget_start = now } in
        let timed = arm_timeout now gen said budget in
        let started = arm_stall now gen timed in
        if is_settled gen timed
        then timed
        else record started { prompts = started.prompts ++ (gen, prompted first s prompt) ∷ [] }
  ]

  -- `beginGeneration` once the generation is admitted.
  unfoldable pub admitted :
      (now gen : ℕ) → Prompt → (first reuse : Bool) → (said : String) → ChildHandle → ChildHandle
  unfolding release is_settled start_prompt
  admitted now gen prompt first reuse said c =
      let running = record c { status = ChildStatus.running } in
      if c.disposed || is_settled gen c
      then release c
      else if first
      then record running { creating = some (gen, prompt) }
      else start_prompt now gen prompt first reuse said running

  unfoldable pub begin_generation :
      (now : ℕ) → Prompt → (first reuse : Bool) → (said : String) → ChildHandle → ChildHandle
  unfolding renew admitted
  begin_generation now prompt first reuse said c =
      let gen = suc c.generation in
      let fresh = renew now c in
      if o.has_acquire && not reuse
      then record fresh {
        admissions = fresh.admissions ++ record { gen = gen; prompt = prompt; first = first } ∷ [];
      }
      else admitted now gen prompt first reuse said fresh

  unfoldable pub answer_admission :
      (now : ℕ)
      → (denied : Option String) → (said : String) → Admission
      → List Admission
      → ChildHandle
      → ChildHandle
  unfolding admitted settle
  answer_admission now denied said a later c = elim denied [
    | none ↦
        admitted now a.gen a.prompt a.first false said
          (record c { admissions = later; holds_slot = true; granted = suc c.granted })
    | some error ↦
        settle now a.gen (ended ResultStatus.interrupted "" (some error))
          (record c { admissions = later })
  ]

  -- The admission hook answers the one that asked first: with a slot, or with an error.
  unfoldable pub on_admission :
      (now : ℕ) → (denied : Option String) → (said : String) → ChildHandle → ChildHandle
  unfolding answer_admission
  on_admission now denied said c = elim c.admissions [
    | [] ↦ c
    | a ∷ later ↦ answer_admission now denied said a later c
  ]

  -- `createSession` returns a session or throws.
  unfoldable pub on_created :
      (now : ℕ) → Option Session → (error said : String) → ChildHandle → ChildHandle
  unfolding settle is_settled release start_prompt
  on_created now session error said c = elim c.creating [
    | none ↦ c
    | some (gen, prompt) ↦
        let c' = record c { creating = none } in
        elim session [
          | none ↦ settle now gen (ended ResultStatus.failed "" (some error)) c'
          | some s ↦
              let with_session = record c' { session = some s } in
              if c.disposed || is_settled gen c
              then release with_session
              else start_prompt now gen prompt true false said
                  (record with_session { subscribed = true })
        ]
  ]

  unfoldable pub launch : (now : ℕ) → (prompt said : String) → ChildHandle → ChildHandle
  unfolding begin_generation
  launch now prompt said c = begin_generation now (user prompt) true false said c
