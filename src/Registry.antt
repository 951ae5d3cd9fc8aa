-- ===== src/Registry.antt =====
-- extension/src/subagent/registry.ts: the runs of subagents and their children, the slots that
-- bound how many children run at once, and the budget of sessions per hour.
--
-- A child is one object that the map of children and its run share. The model keeps it in its run,
-- and the map gives the run of a child. `H` is the runner's handle type; a runner's answer is an
-- argument. Random ids come as a list of candidates. `emitted` is what the observers were given,
-- one record for each emission; observers do not change the registry. A method that waits is cut
-- where it waits: `start_child` into its part before the runner's `start` and the part after,
-- `admit_child` into `acquire_slot` and what follows once the slot is granted.
pub mod Ops
pub mod Start
pub mod Teardown
pub mod Queries
pub mod Slots
pub mod Budget
pub mod RunStatus
pub mod Children
pub mod Consistent
pub mod History
pub mod Disposal
use pi_better_subagents.Prelude.{
  ℕ, ◌+◌, ◌-◌, Bool, true, false, not, ◌&&◌, ◌||◌, Option, none, some, List, [], ◌∷◌, ◌++◌, map,
  String, ◌==ₛ◌, length, all, any, keep, ltb, leb, is_some, if◌then◌else◌,
}
use pi_better_subagents.Prelude.Dict.{Dict, get, has, put, delete}
use pi_better_subagents.Subagent.{ChildStatus, ResultStatus, to_status, ChildResult, is_terminal}

pub data Kind : Type 0 where
  tasks chain : Kind

pub data RunState : Type 0 where
  running completed partial failed interrupted : RunState

-- A runner's handle, or the synthetic one of a child that never got a session.
pub data Handle (H : Type 0) : Type 0 where
  session : H → Handle H
  never_started : (child_id : String) (failure : ChildResult) (at : ℕ) → Handle H

pub record InternalChild (H : Type 0) : Type 0 where
  pub child_id : String
  pub run_id : String
  pub name : String
  pub agent : String
  pub model : Option String
  pub status : ChildStatus
  pub prompt : Option String
  pub preamble : Option String
  pub result : Option ChildResult
  pub started_at : ℕ
  pub ended_at : Option ℕ
  pub handle : Option (Handle H)
  pub should_start : Bool  -- is there a test to ask before the start?

pub record InternalRun (H : Type 0) : Type 0 where
  pub run_id : String
  pub kind : Kind
  pub status : RunState
  pub created_at : ℕ
  pub children : List (InternalChild H)

-- What the observers get of a child: everything but the handle and the start test.
pub record ChildRecord : Type 0 where
  pub child_id : String
  pub name : String
  pub agent : String
  pub model : Option String
  pub status : ChildStatus
  pub prompt : Option String
  pub preamble : Option String
  pub result : Option ChildResult
  pub started_at : ℕ
  pub ended_at : Option ℕ

pub record RunRecord : Type 0 where
  pub run_id : String
  pub kind : Kind
  pub children : List ChildRecord
  pub status : RunState
  pub created_at : ℕ

pub record SubagentRegistry (H : Type 0) : Type 0 where
  pub max_children : ℕ
  pub spawn_budget : ℕ
  pub runs : Dict (InternalRun H)
  pub children : Dict String
  pub observed : Bool
  pub active_slots : ℕ
  pub slot_waiters : List ℕ
  pub spawn_times : List ℕ
  pub emitted : List RunRecord

-- Errors that reach the caller.
pub data Error : Type 0 where
  unknown_run unknown_child : String → Error
  cancelled : Error

pub data Result {ℓ} (A : Type ℓ) : Type ℓ where
  ok : A → Result A
  err : Error → Result A

abbrev pub hour_ms : ℕ
hour_ms = 3600000

abbrev pub is_status : ChildStatus → ChildStatus → Bool
is_status ChildStatus.completed ChildStatus.completed = true
is_status ChildStatus.failed ChildStatus.failed = true
is_status ChildStatus.interrupted ChildStatus.interrupted = true
is_status ChildStatus.pending ChildStatus.pending = true
is_status ChildStatus.running ChildStatus.running = true
is_status _ _ = false

module _ {H : Type 0} where
  unfoldable pub snapshot_child : InternalChild H → ChildRecord
  snapshot_child c = record {
    child_id = c.child_id;
    name = c.name;
    agent = c.agent;
    model = c.model;
    status = c.status;
    prompt = c.prompt;
    preamble = c.preamble;
    result = c.result;
    started_at = c.started_at;
    ended_at = c.ended_at;
  }

  unfoldable pub snapshot : InternalRun H → RunRecord
  unfolding snapshot_child
  snapshot r = record {
    run_id = r.run_id;
    kind = r.kind;
    children = map snapshot_child r.children;
    status = r.status;
    created_at = r.created_at;
  }

  unfoldable pub emit : InternalRun H → SubagentRegistry H → SubagentRegistry H
  unfolding snapshot
  emit r g = if g.observed then record g { emitted = g.emitted ++ snapshot r ∷ [] } else g

  -- The first candidate that is neither a run nor a child; `none` if there is no such candidate.
  unfoldable pub new_id : List String → SubagentRegistry H → Option String
  new_id [] g = none
  new_id (id ∷ ids) g =
      let rest = new_id ids g in if has id g.runs || has id g.children then rest else some id

  abbrev pub every : ChildStatus → List (InternalChild H) → Bool
  every s cs = all (λ c. is_status c.status s) cs

  -- `recomputeRunStatus`: the status that the children give a run.
  unfoldable pub run_state : List (InternalChild H) → RunState
  run_state [] = RunState.running
  run_state (c ∷ cs) =
      let all_children = c ∷ cs in
      if any (λ x. not (is_terminal x.status)) all_children
      then RunState.running
      else if every ChildStatus.completed all_children
      then RunState.completed
      else if every ChildStatus.interrupted all_children
      then RunState.interrupted
      else if every ChildStatus.failed all_children
      then RunState.failed
      else RunState.partial

  unfoldable pub recompute_run_status : InternalRun H → InternalRun H
  unfolding run_state
  recompute_run_status r = record r { status = run_state r.children }

  -- The child objects of a run, one of them changed.
  unfoldable pub update_child :
      String → (InternalChild H → InternalChild H) → List (InternalChild H) → List (InternalChild H)
  update_child id f [] = []
  update_child id f (c ∷ cs) = if c.child_id ==ₛ id then f c ∷ cs else c ∷ update_child id f cs

  unfoldable pub find_in : String → List (InternalChild H) → Option (InternalChild H)
  find_in id [] = none
  find_in id (c ∷ cs) = if c.child_id ==ₛ id then some c else find_in id cs

  unfoldable pub find_name : String → List (InternalChild H) → Option (InternalChild H)
  find_name name [] = none
  find_name name (c ∷ cs) = if c.name ==ₛ name then some c else find_name name cs

  -- `this.children.get(childId)`, with the run that it is in.
  unfoldable pub find_object :
      String → SubagentRegistry H → Option (InternalRun H × InternalChild H)
  find_object id g = elim (get id g.children) [
    | none ↦ none
    | some run_id ↦ elim (get run_id g.runs) [
      | none ↦ none
      | some r ↦ elim (find_in id r.children) [ none ↦ none | some c ↦ some (r, c) ]
    ]
  ]

  -- A child is assigned to, and nobody is told.
  unfoldable pub assign_child :
      String
      → (InternalChild H → InternalChild H)
      → InternalRun H
      → SubagentRegistry H
      → SubagentRegistry H
  assign_child id f r g = record g {
    runs = put r.run_id (record r { children = update_child id f r.children }) g.runs;
  }

  -- A child is assigned to, its run's status follows, and the observers are told.
  unfoldable pub commit_child :
      String
      → (InternalChild H → InternalChild H)
      → InternalRun H
      → SubagentRegistry H
      → SubagentRegistry H
  unfolding recompute_run_status emit
  commit_child id f r g =
      let r' = recompute_run_status (record r { children = update_child id f r.children }) in
      emit r' (record g { runs = put r.run_id r' g.runs })
