-- ===== src/Runner/Activity.antt =====
-- How a child of extension/src/subagent/runner.ts sees the activity of its session, and the pauses of
-- its stall timer.
use pi_better_subagents.Prelude.{ℕ, suc, ◌-◌, true, false, not, ◌&&◌, ◌||◌, ◌==◌, if◌then◌else◌}
use pi_better_subagents.Runner.{Options, ChildHandle, is_running, clear_stall}
use pi_better_subagents.Runner.Begin.{arm_stall}

module _ (o : Options) where
  -- Events of the session, which come while the handle is subscribed.
  unfoldable pub on_tool_start : ChildHandle → ChildHandle
  unfolding clear_stall
  on_tool_start c =
      let c' = record c { tool_depth = suc c.tool_depth } in
      if not c.subscribed then c else if is_running c.status then clear_stall c' else c'

  unfoldable pub on_tool_end : (now : ℕ) → ChildHandle → ChildHandle
  unfolding arm_stall
  on_tool_end now c =
      let c' = record c { tool_depth = c.tool_depth - 1; last_event = now } in
      if not c.subscribed
      then c
      else if is_running c.status && c'.tool_depth == 0 && not c.decision_paused
      then arm_stall o now c.generation c'
      else c'

  unfoldable pub on_other_event : (now : ℕ) → ChildHandle → ChildHandle
  unfolding arm_stall
  on_other_event now c =
      let c' = record c { last_event = now } in
      if not c.subscribed || not (is_running c.status)
      then c
      else if c.tool_depth == 0 && not c.decision_paused
      then arm_stall o now c.generation c'
      else c'

  unfoldable pub pause_stall : ChildHandle → ChildHandle
  unfolding clear_stall
  pause_stall c = clear_stall (record c { decision_paused = true })

  unfoldable pub resume_stall : (now : ℕ) → ChildHandle → ChildHandle
  unfolding arm_stall
  resume_stall now c =
      let c' = record c { decision_paused = false; last_event = now } in
      if is_running c.status && c.tool_depth == 0 then arm_stall o now c.generation c' else c'
