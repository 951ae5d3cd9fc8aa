-- ===== src/Pool/Progress.antt =====
-- `runTasks` of extension/src/subagent/pool.ts over the endings of its children.
use pi_better_subagents.Prelude.{
  ℕ, zero, suc, ◌+◌, ◌≤◌, ◌<◌, ◌≡◌, refl, sym, ap, subst, ◌∙◌, Bool, true, false, ◌&&◌, Option,
  none, some, List, [], ◌∷◌, length, length-append, length-set, get_elem?, set, replicate, count_if,
  All, arith, inl, inr,
}
use pi_better_subagents.Subagent.{ChildResult, is_completed}
use pi_better_subagents.Pool.{
  PoolState, Worker, awaiting, finished, Outcome, worker_of, spawn, spawn_all, worker_count, start,
  settle, result_of, run,
}
use pi_better_subagents.Pool.Slots.{filled, result_count, not_taken}
use pi_better_subagents.Pool.Invariant.{
  IsSound, Turned, WorkerOk, awaits, stored, failed_after, spawn-IsSound, spawn_all-IsSound,
  turn-IsSound-Turned, turn_done, settle_awaiting, settle_idle, take_next-Turned,
}

-- The number of workers does not change.
spawn-workers :
    (s : PoolState)
    → length s.results ≡ s.task_count
    → length (spawn s).workers ≡ suc (length s.workers)
unfolding spawn
spawn-workers s size =
    let (s', o, t) = take_next-Turned s size in
    rw (t.done, spawn)
      (omega
        (arith, length-append s'.workers (worker_of o ∷ []), ap (length {A = Worker}) t.keeps.crew))

spawn_all-workers :
    (n : ℕ) (s : PoolState) → IsSound s → length (spawn_all n s).workers ≡ n + length s.workers
unfolding spawn_all
spawn_all-workers zero s v = omega arith
spawn_all-workers (suc n) s v =
    omega (arith, spawn_all-workers n (spawn s) (spawn-IsSound s v), spawn-workers s v.size)

-- A child that ends: nothing happens, or its worker stores the result and takes a turn.
settle_cases {ℓ} :
    (P : PoolState → Type ℓ) (w : ℕ) (outcome : Outcome) (s : PoolState)
    → IsSound s
    → P s
    → ((ordinal : ℕ) (s' : PoolState) (o : Option ℕ)
        → get_elem? s.workers w ≡ some (awaiting ordinal)
        → Turned (stored ordinal (result_of outcome) (failed_after outcome s) s) s' o
        → P (record s' { workers = set s'.workers w (worker_of o) }))
    → P (settle w outcome s)
settle_cases P w outcome s v same turned = settle_worker (get_elem? s.workers w) refl
  where
    settle_worker : (x : Option Worker) → get_elem? s.workers w ≡ x → P (settle w outcome s)
    settle_worker none e = subst P (sym (settle_idle w outcome s (inl e))) same
    settle_worker (some finished) e = subst P (sym (settle_idle w outcome s (inr e))) same
    settle_worker (some (awaiting ordinal)) e =
        let r = result_of outcome in
        let f = failed_after outcome s in
        let (s', o, t) =
          take_next-Turned (stored ordinal r f s)
            (unfold stored in (length-set s.results ordinal (some r) ∙ v.size)) in
        subst P
          (sym (
            settle_awaiting w ordinal outcome s e ∙ turn_done w (stored ordinal r f s) s' o t.done))
          (turned ordinal s' o e t)

settle-IsSound :
    (w : ℕ) (outcome : Outcome) (s : PoolState) → IsSound s → IsSound (settle w outcome s)
settle-IsSound w outcome s v = settle_cases IsSound w outcome s v v (λ ordinal s' o e t.
    turn-IsSound-Turned s s' w ordinal (result_of outcome) (failed_after outcome s) o v e t)

settle-workers :
    (w : ℕ) (outcome : Outcome) (s : PoolState)
    → IsSound s
    → length (settle w outcome s).workers ≡ length s.workers
unfolding stored
settle-workers w outcome s v =
    settle_cases (λ x. length x.workers ≡ length s.workers) w outcome s v refl
      (λ ordinal s' o e t.
        length-set s'.workers w (worker_of o) ∙ ap (length {A = Worker}) t.keeps.crew)

-- The settings of the pool do not change.
SameSettings : PoolState → PoolState → Type 0
SameSettings s x = (x.fail_fast ≡ s.fail_fast) × (x.task_count ≡ s.task_count)

spawn-SameSettings : (s : PoolState) → length s.results ≡ s.task_count → SameSettings s (spawn s)
unfolding spawn SameSettings
spawn-SameSettings s size =
    let (s', o, t) = take_next-Turned s size in rw (t.done, spawn) (t.keeps.mode, t.keeps.tasks)

spawn_all-SameSettings : (n : ℕ) (s : PoolState) → IsSound s → SameSettings s (spawn_all n s)
unfolding spawn_all SameSettings
spawn_all-SameSettings zero s v = (refl, refl)
spawn_all-SameSettings (suc n) s v =
    let (m, c) = spawn_all-SameSettings n (spawn s) (spawn-IsSound s v) in
    let (m', c') = spawn-SameSettings s v.size in (m ∙ m', c ∙ c')

settle-SameSettings :
    (w : ℕ) (outcome : Outcome) (s : PoolState) → IsSound s → SameSettings s (settle w outcome s)
unfolding SameSettings stored
settle-SameSettings w outcome s v =
    settle_cases (SameSettings s) w outcome s v (refl, refl)
      (λ ordinal s' o e t. (t.keeps.mode, t.keeps.tasks))

-- With `failFast`, after a failure: no turn starts a child.
IsStopped : PoolState → Type 0
IsStopped s = (s.fail_fast && s.failed) ≡ true

settle-IsStopped :
    (w : ℕ) (outcome : Outcome) (s : PoolState)
    → IsSound s
    → IsStopped s
    → IsStopped (settle w outcome s) × ((settle w outcome s).started ≡ s.started)
unfolding stored IsStopped
settle-IsStopped w outcome s v h =
    settle_cases (λ x. IsStopped x × (x.started ≡ s.started)) w outcome s v (h, refl)
      (λ ordinal s' o e t.
        let stop : (s.fail_fast && failed_after outcome s) ≡ true = ground arith in
        (ground (arith, t.keeps.mode, t.keeps.failed, stop), t.keeps.quiet stop))

run-IsSound : (s : PoolState) (es : List (ℕ × Outcome)) → IsSound s → IsSound (run s es)
unfolding run
run-IsSound s [] v = v
run-IsSound s ((w, outcome) ∷ es) v =
    run-IsSound (settle w outcome s) es (settle-IsSound w outcome s v)

length-replicate : (n : ℕ) → length (replicate {A = Option ChildResult} n none) ≡ n
length-replicate zero = refl
length-replicate (suc n) = ap suc (length-replicate n)

get-replicate : (n i : ℕ) → filled (get_elem? (replicate n none) i) ≡ 0
get-replicate zero i = refl
get-replicate (suc n) zero = refl
get-replicate (suc n) (suc i) = get-replicate n i

-- Before the first worker.
abbrev new : ℕ → Bool → PoolState
new tasks fail_fast = record {
  task_count = tasks;
  fail_fast = fail_fast;
  next = 0;
  failed = false;
  results = replicate tasks none;
  workers = [];
  started = [];
}

new-IsSound : (tasks : ℕ) (fail_fast : Bool) → IsSound (new tasks fail_fast)
new-IsSound tasks fail_fast = record {
  placed = λ i h. ground (arith, get-replicate tasks i);
  once = λ i h. ground arith;
  crew = tt;
  size = length-replicate tasks;
}

pub start-IsSound :
    (concurrency tasks : ℕ) (fail_fast : Bool) → IsSound (start concurrency tasks fail_fast)
unfolding start
start-IsSound concurrency tasks fail_fast =
    spawn_all-IsSound (worker_count concurrency tasks) _ (new-IsSound tasks fail_fast)

start-workers :
    (concurrency tasks : ℕ) (fail_fast : Bool)
    → length (start concurrency tasks fail_fast).workers ≡ worker_count concurrency tasks
unfolding start
start-workers concurrency tasks fail_fast =
    spawn_all-workers (worker_count concurrency tasks) _ (new-IsSound tasks fail_fast) ∙ omega arith

-- However the children end, in whatever order: each task is at every moment in exactly one of
-- three states, not taken, run by one worker, or with a result in its own place of the results; a
-- task that is not taken was never started and no task is started twice; a worker returns only
-- when every task is taken; and there is a place for every task.
pub run-start-IsSound :
    (concurrency tasks : ℕ) (fail_fast : Bool) (es : List (ℕ × Outcome))
    → IsSound (run (start concurrency tasks fail_fast) es)
run-start-IsSound concurrency tasks fail_fast es =
    run-IsSound (start concurrency tasks fail_fast) es (start-IsSound concurrency tasks fail_fast)

run-workers :
    (s : PoolState) (es : List (ℕ × Outcome))
    → IsSound s
    → length (run s es).workers ≡ length s.workers
unfolding run
run-workers s [] v = refl
run-workers s ((w, outcome) ∷ es) v =
    run-workers (settle w outcome s) es (settle-IsSound w outcome s v)
    ∙ settle-workers w outcome s v

run-SameSettings : (s : PoolState) (es : List (ℕ × Outcome)) → IsSound s → SameSettings s (run s es)
unfolding run SameSettings
run-SameSettings s [] v = (refl, refl)
run-SameSettings s ((w, outcome) ∷ es) v =
    let (m, c) = run-SameSettings (settle w outcome s) es (settle-IsSound w outcome s v) in
    let (m', c') = settle-SameSettings w outcome s v in (m ∙ m', c ∙ c')

run-start_settings :
    (concurrency tasks : ℕ) (fail_fast : Bool) (es : List (ℕ × Outcome))
    → ((run (start concurrency tasks fail_fast) es).fail_fast ≡ fail_fast)
      × ((run (start concurrency tasks fail_fast) es).task_count ≡ tasks)
unfolding SameSettings start
run-start_settings concurrency tasks fail_fast es =
    let (m, c) =
      run-SameSettings (start concurrency tasks fail_fast) es
        (start-IsSound concurrency tasks fail_fast) in
    let (m', c') =
      spawn_all-SameSettings (worker_count concurrency tasks) _ (new-IsSound tasks fail_fast) in
    (m ∙ m', c ∙ c')

run_from-IsStopped :
    (s : PoolState) (es : List (ℕ × Outcome))
    → IsSound s
    → IsStopped s
    → (run s es).started ≡ s.started
unfolding run
run_from-IsStopped s [] v h = refl
run_from-IsStopped s ((w, outcome) ∷ es) v h =
    let (h', same) = settle-IsStopped w outcome s v h in
    run_from-IsStopped (settle w outcome s) es (settle-IsSound w outcome s v) h' ∙ same

none_runs : (i : ℕ) (ws : List Worker) → All (λ w. w ≡ finished) ws → count_if (awaits i) ws ≡ 0
none_runs i [] h = refl
none_runs i (w ∷ ws) (h, hs) = ground (arith, none_runs i ws hs)

All-taken :
    (tasks next : ℕ) (ws : List Worker)
    → All (λ w. w ≡ finished) ws
    → All (WorkerOk tasks next) ws
    → 0 < length ws
    → tasks ≤ next
All-taken tasks next [] h ok pos = absurd (omega arith)
All-taken tasks next (w ∷ ws) (h, hs) (ok, oks) pos = subst (WorkerOk tasks next) h ok

-- When every worker has returned, so that `runTasks` resolves, every task has a result in its own
-- place, whatever the children did and in whatever order they ended.
pub run-results :
    (concurrency tasks : ℕ) (fail_fast : Bool) (es : List (ℕ × Outcome)) (i : ℕ)
    → All (λ w. w ≡ finished) (run (start concurrency tasks fail_fast) es).workers
    → i < tasks
    → result_count i (run (start concurrency tasks fail_fast) es) ≡ 1
run-results concurrency tasks fail_fast es i returned h =
    let s = run (start concurrency tasks fail_fast) es in
    let v = run-start-IsSound concurrency tasks fail_fast es in
    let taken = All-taken s.task_count s.next s.workers returned v.crew (
      omega (
        arith,
        run-workers (start concurrency tasks fail_fast) es
            (start-IsSound concurrency tasks fail_fast),
        start-workers concurrency tasks fail_fast,
      )) in
    let inside : i < s.task_count =
      omega (arith, (run-start_settings concurrency tasks fail_fast es).1, h) in
    let nothing_left : not_taken i s ≡ 0 = ground arith in
    omega (arith, v.placed i inside, none_runs i s.workers returned, nothing_left)

-- With `failFast`, a child that ends and has not completed stops the pool.
settle_failed-IsStopped :
    (w ordinal : ℕ) (outcome : Outcome) (s : PoolState)
    → IsSound s
    → s.fail_fast ≡ true
    → get_elem? s.workers w ≡ some (awaiting ordinal)
    → is_completed (result_of outcome).status ≡ false
    → IsStopped (settle w outcome s) × ((settle w outcome s).started ≡ s.started)
unfolding stored IsStopped
settle_failed-IsStopped w ordinal outcome s v fast e bad =
    let r = result_of outcome in
    let f = failed_after outcome s in
    let (s', o, t) =
      take_next-Turned (stored ordinal r f s) (length-set s.results ordinal (some r) ∙ v.size) in
    let stop : (s.fail_fast && f) ≡ true = ground arith in
    subst (λ x. ((x.fail_fast && x.failed) ≡ true) × (x.started ≡ s.started))
      (sym (settle_awaiting w ordinal outcome s e ∙ turn_done w (stored ordinal r f s) s' o t.done))
      (ground (arith, t.keeps.mode, t.keeps.failed, stop), t.keeps.quiet stop)

-- With `failFast`, when a child that a worker waits for ends and has not completed, no further child
-- is started, neither by that worker nor later, however the children that run end.
pub run-started :
    (concurrency tasks : ℕ) (es later : List (ℕ × Outcome)) (w ordinal : ℕ) (outcome : Outcome)
    → get_elem? (run (start concurrency tasks true) es).workers w ≡ some (awaiting ordinal)
    → is_completed (result_of outcome).status ≡ false
    → (run (settle w outcome (run (start concurrency tasks true) es)) later).started
      ≡ (run (start concurrency tasks true) es).started
run-started concurrency tasks es later w ordinal outcome e bad =
    let s = run (start concurrency tasks true) es in
    let v = run-start-IsSound concurrency tasks true es in
    let (stopped, same) =
      settle_failed-IsStopped w ordinal outcome s v (run-start_settings concurrency tasks true es).0
        e bad in
    run_from-IsStopped (settle w outcome s) later (settle-IsSound w outcome s v) stopped ∙ same
