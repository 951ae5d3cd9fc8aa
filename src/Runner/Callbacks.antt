-- ===== src/Runner/Callbacks.antt =====
-- How the callbacks of a child of extension/src/subagent/runner.ts treat its promises and its slot.
use pi_better_subagents.Prelude.{
  ℕ, suc, ◌+◌, ◌-◌, ◌≡◌, refl, true, false, not, ◌&&◌, ◌||◌, Option, none, some, [], ◌∷◌, ◌++◌,
  String, any, keep, ltb, ◌==◌, is_some, if_cases, if_both, option_both, arith,
}
use pi_better_subagents.Subagent.{ResultStatus, is_terminal}
use pi_better_subagents.Runner.{
  Options, Session, after_stall, retry_wait, ChildHandle, is_running, is_settled, is_current,
  partial_text, clear_stall, clear_timers, settle, ended, timer_in, can_fire,
}
use pi_better_subagents.Runner.Activity.{
  on_tool_start, on_tool_end, on_other_event, pause_stall, resume_stall,
}
use pi_better_subagents.Runner.Begin.{on_created}
use pi_better_subagents.Runner.Lifecycle.{
  on_prompt_end, on_idle, on_prompt_error, fire_timeout, handle_stall, fire_stall, fire_retry,
  interrupt, dispose,
}
use pi_better_subagents.Runner.Generations.{retry-IsOrderly}
use pi_better_subagents.Runner.Steps.{arm_stall-IsOrderly, start_prompt-IsOrderly}
use pi_better_subagents.Runner.Turns.{
  core, IsOrderly, resume_count, resume_count-snoc, keeps, settle-IsOrderly, release-IsOrderly,
}

module _ (o : Options) where
  pub on_created-IsOrderly :
      (now : ℕ) (session : Option Session) (error said : String) (c : ChildHandle)
      → IsOrderly c
      → IsOrderly (on_created o now session error said c)
  unfolding on_created
  on_created-IsOrderly now session error said c s =
      let c' : ChildHandle = record c { creating = none } in
      let s' : IsOrderly c' = keeps c s in
      option_both IsOrderly c.creating s (λ asked.
        option_both IsOrderly session
          (settle-IsOrderly now asked.0 (ended ResultStatus.failed "" (some error)) c' s')
          (λ made.
            let with_session : ChildHandle = record c' { session = some made } in
            let s1 : IsOrderly with_session = keeps c s in
            let heard : ChildHandle = record with_session { subscribed = true } in
            let s2 : IsOrderly heard = keeps c s in
            if_both IsOrderly (c.disposed || is_settled asked.0 c)
              (release-IsOrderly with_session s1)
              (start_prompt-IsOrderly o now asked.0 asked.1 true false said heard s2)))

  pub on_prompt_end-IsOrderly :
      (gen : ℕ) (c : ChildHandle) → IsOrderly c → IsOrderly (on_prompt_end o gen c)
  unfolding on_prompt_end
  on_prompt_end-IsOrderly gen c s =
      let c' : ChildHandle = record c { idling = gen ∷ c.idling } in
      let s' : IsOrderly c' = keeps c s in if_both IsOrderly (is_current gen c) s' s

  pub on_idle-IsOrderly :
      (now gen : ℕ) (failure : Option String) (said : String) (c : ChildHandle)
      → IsOrderly c
      → IsOrderly (on_idle o now gen failure said c)
  unfolding on_idle
  on_idle-IsOrderly now gen failure said c s =
      let c' : ChildHandle = record c { idling = keep (λ g. not (g == gen)) c.idling } in
      let s' : IsOrderly c' = keeps c s in
      if_both IsOrderly (not (any (λ g. g == gen) c.idling)) s (
        if_both IsOrderly (is_current gen c)
          (option_both IsOrderly failure
            (settle-IsOrderly now gen (ended ResultStatus.completed (partial_text said c) none) c'
              s')
            (λ e.
              settle-IsOrderly now gen
                (record (ended ResultStatus.failed (partial_text said c) (some e)) {
                  model_error = true;
                })
                c' s'))
          s')

  pub on_prompt_error-IsOrderly :
      (now gen : ℕ) (error said : String) (c : ChildHandle)
      → IsOrderly c
      → IsOrderly (on_prompt_error o now gen error said c)
  unfolding on_prompt_error
  on_prompt_error-IsOrderly now gen error said c s =
      if_both IsOrderly (is_current gen c)
        (settle-IsOrderly now gen (ended ResultStatus.failed (partial_text said c) (some error)) c
          s)
        s

  pub fire_timeout-IsOrderly :
      (now : ℕ) (said : String) (c : ChildHandle)
      → IsOrderly c
      → IsOrderly (fire_timeout o now said c)
  unfolding fire_timeout
  fire_timeout-IsOrderly now said c s =
      let c' : ChildHandle = record c { timeout_timer = none } in
      let s' : IsOrderly c' = keeps c s in
      option_both IsOrderly c.timeout_timer s (λ t.
        let r = ended ResultStatus.interrupted (partial_text said c) (some "timeout") in
        let settled = settle now t.gen r c' in
        let after : ChildHandle = record settled { aborting = is_some c.session } in
        let s2 : IsOrderly after = keeps settled (settle-IsOrderly now t.gen r c' s') in
        if_both IsOrderly (not (can_fire now c.timer_scope (some t))) s
          (if_both IsOrderly (c.settled_flag || c.disposed || not (t.gen == c.generation)) s' s2))

  handle_stall-IsOrderly :
      (now gen : ℕ) (said : String) (c : ChildHandle)
      → IsOrderly c
      → IsOrderly (handle_stall o now gen said c)
  unfolding handle_stall
  handle_stall-IsOrderly now gen said c s =
      let c' : ChildHandle = record c {
        stall_attempts = suc c.stall_attempts;
        retired_gen = some gen;
        aborting = is_some c.session;
      } in
      let s' : IsOrderly c' = keeps c s in
      let r = ended ResultStatus.failed (partial_text said c) (some "stalled") in
      if_both IsOrderly (ltb o.stall_retries (suc c.stall_attempts))
        (settle-IsOrderly now gen r c' s')
        (option_both IsOrderly c.timer_scope s' (λ scope.
          let waiting : ChildHandle = record c' {
            retry_timer = timer_in (some scope) gen (now + o.stall_retry_delay_ms);
          } in
          let s2 : IsOrderly waiting = keeps c s in s2))

  pub fire_stall-IsOrderly :
      (now : ℕ) (said : String) (c : ChildHandle)
      → IsOrderly c
      → IsOrderly (fire_stall o now said c)
  unfolding fire_stall
  fire_stall-IsOrderly now said c s =
      let c' : ChildHandle = record c { stall_timer = none } in
      let s' : IsOrderly c' = keeps c s in
      option_both IsOrderly c.stall_timer s (λ t.
        if_both IsOrderly (not (can_fire now c.timer_scope (some t))) s
          (if_both IsOrderly (is_current t.gen c) (handle_stall-IsOrderly now t.gen said c' s') s'))

  waiting-IsOrderly :
      (gen : ℕ) (c : ChildHandle)
      → IsOrderly c
      → IsOrderly (record c {
        retry_timer = none;
        aborting = false;
        waits = c.waits ++ retry_wait gen ∷ [];
      })
  unfolding core
  waiting-IsOrderly gen c s =
      let k = s.sound in
      let same : resume_count (c.waits ++ retry_wait gen ∷ []) ≡ resume_count c.waits =
        omega (arith, resume_count-snoc c.waits (retry_wait gen)) in
      record {
        sound = record {
          ends = k.ends;
          once = k.once;
          slots = k.slots;
          free = k.free;
          alone = k.alone;
          ordered = k.ordered;
          quiet = k.quiet;
          resuming = λ x. k.resuming (omega (arith, same));
          single = omega (arith, same, k.single);
        };
      }

  pub fire_retry-IsOrderly :
      (now : ℕ) (said : String) (c : ChildHandle)
      → IsOrderly c
      → IsOrderly (fire_retry o now said c)
  unfolding fire_retry
  fire_retry-IsOrderly now said c s =
      let c' : ChildHandle = record c { retry_timer = none } in
      let s' : IsOrderly c' = keeps c s in
      option_both IsOrderly c.retry_timer s (λ t.
        if_both IsOrderly (not (can_fire now c.timer_scope (some t))) s (
          if_cases IsOrderly (c.settled_flag || c.disposed || not (t.gen == c.generation))
            (λ over. s')
            (λ live.
              if_both IsOrderly c.aborting (waiting-IsOrderly t.gen c s)
                (retry-IsOrderly o now (after_stall o.stall_ms) said c' (ground arith) s'))))

  pub interrupt-IsOrderly :
      (now : ℕ) (said : String) (c : ChildHandle) → IsOrderly c → IsOrderly (interrupt o now said c)
  unfolding interrupt
  interrupt-IsOrderly now said c s = if_both IsOrderly (is_terminal c.status) s (
      settle-IsOrderly now c.generation (ended ResultStatus.interrupted (partial_text said c) none)
        c s)

  clear_timers-IsOrderly : (c : ChildHandle) → IsOrderly c → IsOrderly (clear_timers c)
  unfolding clear_timers core
  clear_timers-IsOrderly c s =
      let k = s.sound in
      record {
        sound = record {
          ends = k.ends;
          once = k.once;
          slots = k.slots;
          free = k.free;
          alone = k.alone;
          ordered = k.ordered;
          quiet = λ x. refl;
          resuming = k.resuming;
          single = k.single;
        };
      }

  pub dispose-IsOrderly : (now : ℕ) (c : ChildHandle) → IsOrderly c → IsOrderly (dispose o now c)
  unfolding dispose
  dispose-IsOrderly now c s =
      let c' : ChildHandle = record c { disposed = true; subscribed = false; session = none } in
      let s' : IsOrderly c' = keeps c s in
      settle-IsOrderly now c.generation (ended ResultStatus.interrupted "" (some "disposed"))
        (clear_timers c') (clear_timers-IsOrderly c' s')

  -- The events of the session and the pauses.
  pub on_tool_start-IsOrderly : (c : ChildHandle) → IsOrderly c → IsOrderly (on_tool_start o c)
  unfolding on_tool_start clear_stall
  on_tool_start-IsOrderly c s =
      let c' : ChildHandle = record c { tool_depth = suc c.tool_depth } in
      let s' : IsOrderly c' = keeps c s in
      let quiet : ChildHandle = record c' { stall_timer = none } in
      let s2 : IsOrderly quiet = keeps c s in
      if_both IsOrderly (not c.subscribed) s (if_both IsOrderly (is_running c.status) s2 s')

  pub on_tool_end-IsOrderly :
      (now : ℕ) (c : ChildHandle) → IsOrderly c → IsOrderly (on_tool_end o now c)
  unfolding on_tool_end
  on_tool_end-IsOrderly now c s =
      let c' : ChildHandle = record c { tool_depth = c.tool_depth - 1; last_event = now } in
      let s' : IsOrderly c' = keeps c s in
      if_both IsOrderly (not c.subscribed) s (
        if_both IsOrderly (is_running c.status && c.tool_depth - 1 == 0 && not c.decision_paused)
          (arm_stall-IsOrderly o now c.generation c' s') s')

  pub on_other_event-IsOrderly :
      (now : ℕ) (c : ChildHandle) → IsOrderly c → IsOrderly (on_other_event o now c)
  unfolding on_other_event
  on_other_event-IsOrderly now c s =
      let c' : ChildHandle = record c { last_event = now } in
      let s' : IsOrderly c' = keeps c s in
      if_both IsOrderly (not c.subscribed || not (is_running c.status)) s (
        if_both IsOrderly (c.tool_depth == 0 && not c.decision_paused)
          (arm_stall-IsOrderly o now c.generation c' s') s')

  pub pause_stall-IsOrderly : (c : ChildHandle) → IsOrderly c → IsOrderly (pause_stall o c)
  unfolding pause_stall clear_stall
  pause_stall-IsOrderly c s =
      let c' : ChildHandle = record c { decision_paused = true; stall_timer = none } in
      let s' : IsOrderly c' = keeps c s in s'

  pub resume_stall-IsOrderly :
      (now : ℕ) (c : ChildHandle) → IsOrderly c → IsOrderly (resume_stall o now c)
  unfolding resume_stall
  resume_stall-IsOrderly now c s =
      let c' : ChildHandle = record c { decision_paused = false; last_event = now } in
      let s' : IsOrderly c' = keeps c s in
      if_both IsOrderly (is_running c.status && c.tool_depth == 0)
        (arm_stall-IsOrderly o now c.generation c' s') s'
