-- ===== src/Work/Counting.antt =====
-- What the counts of extension/src/work-index.ts count.
use pi_better_subagents.Prelude.{Bool, ◌&&◌}
use pi_better_subagents.Work.{WorkItem, is_active}

-- A test of live items only.
abbrev live_and : (WorkItem → Bool) → WorkItem → Bool
live_and p x = is_active x && p x
