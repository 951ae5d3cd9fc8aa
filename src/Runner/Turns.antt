-- ===== src/Runner/Turns.antt =====
-- The result promises and the admission slot of a child of extension/src/subagent/runner.ts: what
-- of a handle matters for them, and how the parts of its methods change it.
use pi_better_subagents.Prelude.{
  ℕ, suc, ◌+◌, ◌≤◌, ◌<◌, ◌≡◌, refl, sym, subst, ap, Bool, true, false, Option, none, List, [], ◌∷◌,
  ◌++◌, All, count_if, ltb, ◌==◌, if◌then◌else◌, Bool-cases, inl, inr, arith,
}
use pi_better_subagents.Subagent.{ChildStatus, ResultStatus, to_status, ChildResult, is_terminal}
use pi_better_subagents.Runner.{
  Session, Timer, Prompt, Admission, Wait, retry_wait, resume_wait, ChildHandle, is_settled,
  clear_timers, release, settle, final_result,
}

-- What matters for the promises and the slot.
pub record Core : Type 0 where
  pub status : ChildStatus
  pub settled : Bool
  pub turn : ℕ
  pub resolved : List (ℕ × ChildResult)
  pub granted : ℕ
  pub released : ℕ
  pub holds : Bool
  pub generation : ℕ
  pub admissions : List Admission
  pub scope : Option ℕ
  pub waits : List Wait

unfoldable pub core : ChildHandle → Core
core c = record {
  status = c.status;
  settled = c.settled_flag;
  turn = c.turn;
  resolved = c.resolved;
  granted = c.granted;
  released = c.released;
  holds = c.holds_slot;
  generation = c.generation;
  admissions = c.admissions;
  scope = c.timer_scope;
  waits = c.waits;
}

abbrev pub to_ℕ : Bool → ℕ
to_ℕ true = 1
to_ℕ false = 0

abbrev pub is_resume : Wait → Bool
is_resume (retry_wait gen) = false
is_resume (resume_wait message) = true

abbrev pub resume_count : List Wait → ℕ
resume_count = count_if is_resume

pub resume_count-snoc :
    (ws : List Wait) (w : Wait) → resume_count (ws ++ w ∷ []) ≡ resume_count ws + to_ℕ (is_resume w)
resume_count-snoc [] w = ground arith
resume_count-snoc (x ∷ ws) w = ground (arith, resume_count-snoc ws w)

-- How often a promise was resolved.
abbrev pub resolve_count : ℕ → List (ℕ × ChildResult) → ℕ
resolve_count p = count_if (λ (r : ℕ × ChildResult). r.0 == p)

-- How often it should have been.
abbrev pub expected : ℕ → Core → ℕ
expected p k = if ltb p k.turn then 1 else if p == k.turn then to_ℕ k.settled else 0

-- The generations that wait for a slot, in order, none later than the current one.
abbrev pub AreOrdered : ℕ → List Admission → Type 0
AreOrdered g [] = Unit
AreOrdered g (a ∷ later) = (a.gen ≤ g) × All (λ b. a.gen < b.gen) later × AreOrdered g later

pub record IsSound (k : Core) : Type 0 where
  pub ends : is_terminal k.status ≡ k.settled
  pub once : (p : ℕ) → resolve_count p k.resolved ≡ expected p k
  pub slots : k.granted ≡ k.released + to_ℕ k.holds
  pub free : k.settled ≡ true → k.holds ≡ false
  pub alone : k.holds ≡ true → k.admissions ≡ []
  pub ordered : AreOrdered k.generation k.admissions
  pub quiet : k.settled ≡ true → k.scope ≡ none
  pub resuming : 0 < resume_count k.waits → k.settled ≡ true
  pub single : resume_count k.waits ≤ 1

to_status-is_terminal : (s : ResultStatus) → is_terminal (to_status s) ≡ true
to_status-is_terminal ResultStatus.completed = refl
to_status-is_terminal ResultStatus.failed = refl
to_status-is_terminal ResultStatus.interrupted = refl

resolve_count-snoc :
    (p q : ℕ) (r : ChildResult) (rs : List (ℕ × ChildResult))
    → resolve_count p (rs ++ (q, r) ∷ []) ≡ resolve_count p rs + (if q == p then 1 else 0)
resolve_count-snoc p q r [] = ground arith
resolve_count-snoc p q r (x ∷ rs) = ground (arith, resolve_count-snoc p q r rs)

-- The slot of the core is given back.
abbrev pub give_back : Core → Core
give_back k = record k { holds = false; released = if k.holds then suc k.released else k.released }

abbrev pub settle_core : ChildResult → Core → Core
settle_core r k = give_back (record k {
  settled = true;
  status = to_status r.status;
  scope = none;
  resolved = k.resolved ++ (k.turn, r) ∷ [];
})

settle_core-IsSound :
    (r : ChildResult) (k : Core) → k.settled ≡ false → IsSound k → IsSound (settle_core r k)
settle_core-IsSound r k e s = record {
  ends = to_status-is_terminal r.status;
  once = λ p. ground (arith, s.once p, resolve_count-snoc p k.turn r k.resolved);
  slots = ground (arith, s.slots);
  free = λ x. refl;
  alone = λ x. ground arith;
  ordered = s.ordered;
  quiet = λ x. refl;
  resuming = λ x. refl;
  single = s.single;
}

give_back-IsSound : (k : Core) → IsSound k → IsSound (give_back k)
give_back-IsSound k s = record {
  ends = s.ends;
  once = s.once;
  slots = ground (arith, s.slots);
  free = λ e. refl;
  alone = λ e. ground arith;
  ordered = s.ordered;
  quiet = s.quiet;
  resuming = s.resuming;
  single = s.single;
}

core-release : (c : ChildHandle) → core (release c) ≡ give_back (core c)
unfolding core release
core-release c = elim (Bool-cases c.holds_slot) [ inl e ↦ rw e refl | inr e ↦ rw e refl ]

core-settle :
    (now gen : ℕ) (r : ChildResult) (c : ChildHandle)
    → is_settled gen c ≡ false
    → core (settle now gen r c) ≡ settle_core (final_result now c r) (core c)
unfolding core settle final_result clear_timers
core-settle now gen r c e =
    rw (e, settle)
      (ap (λ (k : Core). record k { resolved = k.resolved ++ (c.turn, final_result now c r) ∷ [] })
        (core-release _))

pub unsettled : (gen : ℕ) (c : ChildHandle) → is_settled gen c ≡ false → c.settled_flag ≡ false
unfolding is_settled
unsettled gen c e = ground arith

settled_same :
    (now gen : ℕ) (r : ChildResult) (c : ChildHandle)
    → is_settled gen c ≡ true
    → settle now gen r c ≡ c
unfolding settle
settled_same now gen r c e = rw (e, settle) refl

-- A handle of which the core is sound.
pub record IsOrderly (c : ChildHandle) : Type 0 where
  pub sound : IsSound (core c)

pub settle-IsOrderly :
    (now gen : ℕ) (r : ChildResult) (c : ChildHandle) → IsOrderly c → IsOrderly (settle now gen r c)
unfolding core
settle-IsOrderly now gen r c s = elim (Bool-cases (is_settled gen c)) [
  | inl e ↦ subst IsOrderly (sym (settled_same now gen r c e)) s
  | inr e ↦ record {
    sound =
        subst IsSound (sym (core-settle now gen r c e))
          (settle_core-IsSound (final_result now c r) (core c) (unsettled gen c e) s.sound);
  }
]

pub release-IsOrderly : (c : ChildHandle) → IsOrderly c → IsOrderly (release c)
release-IsOrderly c s = record {
  sound = subst IsSound (sym (core-release c)) (give_back-IsSound (core c) s.sound);
}

pub running-IsOrderly :
    (c : ChildHandle)
    → c.settled_flag ≡ false
    → IsOrderly c
    → IsOrderly (record c { status = ChildStatus.running })
unfolding core
running-IsOrderly c e orderly =
    let s = orderly.sound in
    record {
      sound = record {
        ends = sym e;
        once = s.once;
        slots = s.slots;
        free = s.free;
        alone = s.alone;
        ordered = s.ordered;
        quiet = s.quiet;
        resuming = s.resuming;
        single = s.single;
      };
    }

-- The other fields of a handle do not matter.
core-same :
    (c : ChildHandle) (session : Option Session) (subscribed : Bool) (last_event : ℕ)
    (started_at : ℕ) (run_started_at : ℕ) (turn_budget_start : ℕ) (aborting : Bool)
    (timeout_timer : Option Timer) (stall_timer : Option Timer) (retry_timer : Option Timer)
    (next_scope : ℕ) (stall_attempts : ℕ) (retired_gen : Option ℕ) (disposed : Bool)
    (tool_depth : ℕ) (decision_paused : Bool) (creating : Option (ℕ × Prompt)) (idling : List ℕ)
    (prompts : List (ℕ × Prompt))
    → core c
      ≡ core (record c {
        session = session;
        subscribed = subscribed;
        last_event = last_event;
        started_at = started_at;
        run_started_at = run_started_at;
        turn_budget_start = turn_budget_start;
        aborting = aborting;
        timeout_timer = timeout_timer;
        stall_timer = stall_timer;
        retry_timer = retry_timer;
        next_scope = next_scope;
        stall_attempts = stall_attempts;
        retired_gen = retired_gen;
        disposed = disposed;
        tool_depth = tool_depth;
        decision_paused = decision_paused;
        creating = creating;
        idling = idling;
        prompts = prompts;
      })
unfolding core
core-same c session subscribed last_event started_at run_started_at turn_budget_start aborting
      timeout_timer stall_timer retry_timer next_scope stall_attempts retired_gen disposed
      tool_depth decision_paused creating idling prompts =
    refl

pub keeps :
    (c : ChildHandle) {session : Option Session} {subscribed : Bool} {last_event : ℕ}
    {started_at : ℕ} {run_started_at : ℕ} {turn_budget_start : ℕ} {aborting : Bool}
    {timeout_timer : Option Timer} {stall_timer : Option Timer} {retry_timer : Option Timer}
    {next_scope : ℕ} {stall_attempts : ℕ} {retired_gen : Option ℕ} {disposed : Bool}
    {tool_depth : ℕ} {decision_paused : Bool} {creating : Option (ℕ × Prompt)} {idling : List ℕ}
    {prompts : List (ℕ × Prompt)}
    → IsOrderly c
    → IsOrderly (record c {
      session = session;
      subscribed = subscribed;
      last_event = last_event;
      started_at = started_at;
      run_started_at = run_started_at;
      turn_budget_start = turn_budget_start;
      aborting = aborting;
      timeout_timer = timeout_timer;
      stall_timer = stall_timer;
      retry_timer = retry_timer;
      next_scope = next_scope;
      stall_attempts = stall_attempts;
      retired_gen = retired_gen;
      disposed = disposed;
      tool_depth = tool_depth;
      decision_paused = decision_paused;
      creating = creating;
      idling = idling;
      prompts = prompts;
    })
keeps c {session} {subscribed} {last_event} {started_at} {run_started_at} {turn_budget_start}
      {aborting} {timeout_timer} {stall_timer} {retry_timer} {next_scope} {stall_attempts}
      {retired_gen} {disposed} {tool_depth} {decision_paused} {creating} {idling} {prompts} s =
    record {
      sound =
          subst IsSound
            (core-same c session subscribed last_event started_at run_started_at turn_budget_start
              aborting timeout_timer stall_timer retry_timer next_scope stall_attempts retired_gen
              disposed tool_depth decision_paused creating idling prompts)
            s.sound;
    }
