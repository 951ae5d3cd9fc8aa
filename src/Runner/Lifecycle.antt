-- ===== src/Runner/Lifecycle.antt =====
-- How a generation of a child ends, is retried, resumed, interrupted or disposed of: the methods and
-- callbacks of `InProcessChildHandle` of extension/src/subagent/runner.ts.
use pi_better_subagents.Prelude.{
  ℕ, suc, ◌+◌, Bool, true, false, not, ◌||◌, Option, none, some, [], ◌∷◌, ◌++◌, String, keep, any,
  ltb, ◌==◌, is_some, if◌then◌else◌,
}
use pi_better_subagents.Subagent.{ChildStatus, ResultStatus, is_terminal}
use pi_better_subagents.Runner.{
  Options, user, after_stall, Wait, retry_wait, resume_wait, ChildHandle, is_running, is_current,
  partial_text, clear_timers, settle, ended, timer_in, can_fire,
}
use pi_better_subagents.Runner.Begin.{begin_generation}

-- Errors of `steer`, `followUp` and `resume`.
pub data HandleError : Type 0 where
  not_running : ChildStatus → HandleError
  restarting : HandleError
  still_active : ChildStatus → HandleError
  is_disposed no_session not_idle : HandleError

module _ (o : Options) where
  -- The prompt's promise resolves: `finishGeneration` up to its wait.
  unfoldable pub on_prompt_end : (gen : ℕ) → ChildHandle → ChildHandle
  unfolding is_current
  on_prompt_end gen c = if is_current gen c then record c { idling = gen ∷ c.idling } else c

  -- And after it; `failure` is that of the last assistant message.
  unfoldable pub on_idle :
      (now gen : ℕ) → (failure : Option String) → (said : String) → ChildHandle → ChildHandle
  unfolding is_current settle partial_text
  on_idle now gen failure said c =
      let c' = record c { idling = keep (λ g. not (g == gen)) c.idling } in
      let text = partial_text said c in
      let failed =
        λ (e : String). record (ended ResultStatus.failed text (some e)) { model_error = true } in
      if not (any (λ g. g == gen) c.idling)
      then c
      else if is_current gen c
      then elim failure [
        | some e ↦ settle now gen (failed e) c'
        | none ↦ settle now gen (ended ResultStatus.completed text none) c'
      ]
      else c'

  -- The prompt's promise is rejected.
  unfoldable pub on_prompt_error : (now gen : ℕ) → (error said : String) → ChildHandle → ChildHandle
  unfolding is_current settle partial_text
  on_prompt_error now gen error said c =
      if is_current gen c
      then settle now gen (ended ResultStatus.failed (partial_text said c) (some error)) c
      else c

  -- The callback of the timeout.
  unfoldable pub fire_timeout : (now : ℕ) → (said : String) → ChildHandle → ChildHandle
  unfolding settle partial_text
  fire_timeout now said c = elim c.timeout_timer [
    | none ↦ c
    | some t ↦
        let c' = record c { timeout_timer = none } in
        let settled =
          settle now t.gen (ended ResultStatus.interrupted (partial_text said c) (some "timeout"))
            c' in
        if not (can_fire now c.timer_scope (some t))
        then c
        else if c.settled_flag || c.disposed || not (t.gen == c.generation)
        then c'
        else record settled { aborting = is_some c.session }
  ]

  unfoldable pub handle_stall : (now gen : ℕ) → (said : String) → ChildHandle → ChildHandle
  unfolding settle partial_text
  handle_stall now gen said c =
      let c' = record c {
        stall_attempts = suc c.stall_attempts;
        retired_gen = some gen;
        aborting = is_some c.session;
      } in
      if ltb o.stall_retries c'.stall_attempts
      then settle now gen (ended ResultStatus.failed (partial_text said c) (some "stalled")) c'
      else elim c.timer_scope [
        | none ↦ c'
        | some scope ↦ record c' {
          retry_timer = timer_in (some scope) gen (now + o.stall_retry_delay_ms);
        }
      ]

  -- The callback of the stall timer.
  unfoldable pub fire_stall : (now : ℕ) → (said : String) → ChildHandle → ChildHandle
  unfolding is_current handle_stall
  fire_stall now said c = elim c.stall_timer [
    | none ↦ c
    | some t ↦
        let c' = record c { stall_timer = none } in
        if not (can_fire now c.timer_scope (some t))
        then c
        else if is_current t.gen c
        then handle_stall now t.gen said c'
        else c'
  ]

  -- The callback of the retry timer, and `retryAfterAbort` up to its wait.
  unfoldable pub fire_retry : (now : ℕ) → (said : String) → ChildHandle → ChildHandle
  unfolding begin_generation
  fire_retry now said c = elim c.retry_timer [
    | none ↦ c
    | some t ↦
        let c' = record c { retry_timer = none } in
        if not (can_fire now c.timer_scope (some t))
        then c
        else if c.settled_flag || c.disposed || not (t.gen == c.generation)
        then c'
        else if c.aborting
        then record c' { aborting = false; waits = c.waits ++ retry_wait t.gen ∷ [] }
        else begin_generation o now (after_stall o.stall_ms) false true said c'
  ]

  -- The end of `resume`: a new user turn.
  unfoldable pub begin_turn : (now : ℕ) → (message said : String) → ChildHandle → ChildHandle
  unfolding begin_generation
  begin_turn now message said c =
      begin_generation o now (user message) false false said
        (record c { stall_attempts = 0; run_started_at = now; turn = suc c.turn })

  -- A wait is over: the abort has finished, or it has not in time or the handle was settled
  -- meanwhile. And the error that a `resume` throws.
  unfoldable pub end_wait :
      (now : ℕ)
      → (ok : Bool) → (said : String) → Wait
      → ChildHandle
      → ChildHandle × Option HandleError
  unfolding settle partial_text begin_generation begin_turn
  end_wait now ok said (retry_wait gen) c =
      let again = begin_generation o now (after_stall o.stall_ms) false true said c in
      if not ok
      then (
        settle now gen (ended ResultStatus.failed (partial_text said c) (some "stalled")) c,
        none,
      )
      else if c.settled_flag || c.disposed || not (gen == c.generation)
      then (c, none)
      else (again, none)
  end_wait now ok said (resume_wait message) c =
      if not ok
      then (c, some not_idle)
      else if c.disposed
      then (c, some is_disposed)
      else (begin_turn now message said c, none)

  unfoldable pub resume :
      (now : ℕ) → (message said : String) → ChildHandle → ChildHandle × Option HandleError
  unfolding begin_turn
  resume now message said c =
      if not (is_terminal c.status)
      then (c, some (still_active c.status))
      else if c.disposed
      then (c, some is_disposed)
      else if not (is_some c.session)
      then (c, some no_session)
      else if c.aborting
      then (record c { aborting = false; waits = c.waits ++ resume_wait message ∷ [] }, none)
      else (begin_turn now message said c, none)

  unfoldable pub interrupt : (now : ℕ) → (said : String) → ChildHandle → ChildHandle
  unfolding settle partial_text
  interrupt now said c =
      if is_terminal c.status
      then c
      else settle now c.generation (ended ResultStatus.interrupted (partial_text said c) none) c

  unfoldable pub dispose : (now : ℕ) → ChildHandle → ChildHandle
  unfolding clear_timers settle
  dispose now c =
      let c' = clear_timers (record c { disposed = true; subscribed = false; session = none }) in
      settle now c.generation (ended ResultStatus.interrupted "" (some "disposed")) c'

  -- `steer` and `followUp`: the error that is thrown, if any; else the session gets the message.
  unfoldable pub check_message : ChildHandle → Option HandleError
  check_message c =
      if not (is_running c.status) || not (is_some c.session)
      then some (not_running c.status)
      else if is_some c.retired_gen
      then some restarting
      else none
