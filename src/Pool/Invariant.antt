-- ===== src/Pool/Invariant.antt =====
-- The invariant of `runTasks` of extension/src/subagent/pool.ts, and the turns of a worker.
use pi_better_subagents.Prelude.{
  ℕ, zero, suc, ◌+◌, ◌≤◌, ◌<◌, ◌≡◌, refl, sym, ap, subst, ◌∙◌, Bool, true, false, Option, none,
  some, List, [], ◌∷◌, ◌++◌, ◌⊎◌, length, length-set, get_elem?, set, count_if, count_if-append,
  All, All-append, ◌==◌, if◌then◌else◌, arith, inl, inr,
}
use pi_better_subagents.Subagent.{ChildResult, is_completed}
use pi_better_subagents.Pool.{
  PoolState, Worker, awaiting, finished, Outcome, take_next, worker_of, fuel_for, turn, spawn,
  spawn_all, settle, result_of,
}
use pi_better_subagents.Pool.Slots.{
  to_ℕ, result_count, not_taken, filled-set, count_if-set, is_ordinal, Takes, Keeps, TakesIn,
  KeepsIn, take_next-Ends, take_next-Takes, take_next-Keeps,
}

abbrev pub awaits : ℕ → Worker → Bool
awaits i (awaiting o) = o == i
awaits i finished = false

-- How many workers wait for the child of a task.
abbrev pub running_count : ℕ → PoolState → ℕ
running_count i s = count_if (awaits i) s.workers

abbrev pub WorkerOk : (tasks next : ℕ) → Worker → Type 0
WorkerOk tasks next (awaiting o) = o < tasks
WorkerOk tasks next finished = tasks ≤ next

pub record IsSound (s : PoolState) : Type 0 where
  pub placed : (i : ℕ) → i < s.task_count → running_count i s + result_count i s + not_taken i s ≡ 1
  pub once : (i : ℕ) → i < s.task_count → count_if (λ j. j == i) s.started + not_taken i s ≤ 1
  pub crew : All (WorkerOk s.task_count s.next) s.workers
  pub size : length s.results ≡ s.task_count

WorkerOk-later :
    (tasks next later : ℕ) (ws : List Worker)
    → next ≤ later
    → All (WorkerOk tasks next) ws
    → All (WorkerOk tasks later) ws
WorkerOk-later tasks next later [] h ok = tt
WorkerOk-later tasks next later (awaiting o ∷ ws) h (ok, oks) =
    (ok, WorkerOk-later tasks next later ws h oks)
WorkerOk-later tasks next later (finished ∷ ws) h (ok, oks) =
    (omega arith, WorkerOk-later tasks next later ws h oks)

All-set {ℓ κ} :
    {A : Type ℓ} (P : A → Type κ) (xs : List A) (w : ℕ) (v : A)
    → All P xs
    → P v
    → All P (set xs w v)
All-set P [] w v h p = tt
All-set P (x ∷ xs) zero v (h, hs) p = (p, hs)
All-set P (x ∷ xs) (suc w) v (h, hs) p = (h, All-set P xs w v hs p)

All-get {ℓ κ} :
    {A : Type ℓ} (P : A → Type κ) (xs : List A) (w : ℕ) (v : A)
    → All P xs
    → get_elem? xs w ≡ some v
    → P v
All-get P [] w v h e = absurd (ground arith)
All-get P (x ∷ xs) zero v (h, hs) e = subst P (ground arith) h
All-get P (x ∷ xs) (suc w) v (h, hs) e = All-get P xs w v hs e

count-pos :
    (i : ℕ) (ws : List Worker) (w : ℕ)
    → get_elem? ws w ≡ some (awaiting i)
    → 0 < count_if (awaits i) ws
count-pos i [] w e = absurd (ground arith)
count-pos i (x ∷ ws) zero e = ground arith
count-pos i (x ∷ ws) (suc w) e = ground (arith, count-pos i ws w e)

worker_of-Ok :
    (s s' : PoolState) (o : Option ℕ) → Keeps s s' o → WorkerOk s.task_count s'.next (worker_of o)
worker_of-Ok s s' none k = k.ended refl
worker_of-Ok s s' (some j) k = k.range j refl

awaits-worker_of : (i : ℕ) (o : Option ℕ) → to_ℕ (awaits i (worker_of o)) ≡ is_ordinal i o
awaits-worker_of i none = refl
awaits-worker_of i (some j) = refl

-- The loop of a worker runs to its end, and what it does is sound for every task.
pub record Turned (s s' : PoolState) (o : Option ℕ) : Type 0 where
  pub done : take_next (fuel_for s) s ≡ some (s', o)
  pub takes : (i : ℕ) → i < s.task_count → result_count i s + not_taken i s ≤ 1 → Takes i s s' o
  pub keeps : Keeps s s' o

pub take_next-Turned :
    (s : PoolState)
    → length s.results ≡ s.task_count
    → (s' : PoolState) × (o : Option ℕ) × Turned s s' o
take_next-Turned s size =
    let (s', o, done) = take_next-Ends (s.task_count + 1) s (omega arith) in
    (
      s',
      o,
      record {
        done = done;
        takes = λ i h once.
            subst (TakesIn i s) done (take_next-Takes (fuel_for s) i s h (omega arith) once);
        keeps = subst (KeepsIn s) done (take_next-Keeps (fuel_for s) s);
      },
    )

crew_after :
    (s s' : PoolState) (o : Option ℕ)
    → All (WorkerOk s.task_count s.next) s.workers
    → Keeps s s' o
    → All (WorkerOk s'.task_count s'.next) s'.workers × WorkerOk s'.task_count s'.next (worker_of o)
crew_after s s' o ok k =
    subst (λ n. All (WorkerOk n s'.next) s'.workers × WorkerOk n s'.next (worker_of o))
      (sym k.tasks)
      (
        subst (All (WorkerOk s.task_count s'.next)) (sym k.crew)
            (WorkerOk-later s.task_count s.next s'.next s.workers k.later ok),
        worker_of-Ok s s' o k,
      )

spawn-IsSound-Turned :
    (s s' : PoolState) (o : Option ℕ)
    → IsSound s
    → Turned s s' o
    → IsSound (record s' { workers = s'.workers ++ worker_of o ∷ [] })
spawn-IsSound-Turned s s' o v t = record {
  placed = λ i h.
      let before = v.placed i (omega (arith, t.keeps.tasks)) in
      let takes = t.takes i (omega (arith, t.keeps.tasks)) (omega arith) in
      omega (
        arith,
        before,
        takes.moves,
        ap (count_if (awaits i)) t.keeps.crew,
        count_if-append (awaits i) s'.workers (worker_of o ∷ []),
        count-one i o,
      );
  once = λ i h.
      let before = v.placed i (omega (arith, t.keeps.tasks)) in
      omega (
        arith,
        (t.takes i (omega (arith, t.keeps.tasks)) (omega arith)).starts,
        v.once i (omega (arith, t.keeps.tasks)),
      );
  crew =
      let (ok, new_one) = crew_after s s' o v.crew t.keeps in
      All-append (WorkerOk s'.task_count s'.next) s'.workers (worker_of o ∷ []) ok (new_one, tt);
  size = t.keeps.size ∙ v.size ∙ sym t.keeps.tasks;
}
  where
    count-one : (i : ℕ) (o : Option ℕ) → count_if (awaits i) (worker_of o ∷ []) ≡ is_ordinal i o
    count-one i none = refl
    count-one i (some j) = ground arith

pub spawn-IsSound : (s : PoolState) → IsSound s → IsSound (spawn s)
unfolding spawn
spawn-IsSound s v =
    let (s', o, t) = take_next-Turned s v.size in
    rw (t.done, spawn) (spawn-IsSound-Turned s s' o v t)

pub spawn_all-IsSound : (n : ℕ) (s : PoolState) → IsSound s → IsSound (spawn_all n s)
unfolding spawn_all
spawn_all-IsSound zero s v = v
spawn_all-IsSound (suc n) s v = spawn_all-IsSound n (spawn s) (spawn-IsSound s v)

-- The state in which a worker has just stored its child's result.
unfoldable pub stored : ℕ → ChildResult → Bool → PoolState → PoolState
stored ordinal r f s = record s { results = set s.results ordinal (some r); failed = f }

stored-result :
    (s : PoolState) (ordinal i : ℕ) (r : ChildResult) (f : Bool)
    → ordinal < length s.results
    → result_count i (stored ordinal r f s) ≡ (if ordinal == i then 1 else result_count i s)
unfolding stored
stored-result s ordinal i r f h = filled-set s.results ordinal i r h

count-pos_eq :
    (i ordinal : ℕ) (ws : List Worker) (w : ℕ)
    → get_elem? ws w ≡ some (awaiting ordinal)
    → ordinal ≡ i
    → 0 < count_if (awaits i) ws
count-pos_eq i ordinal ws w e same = count-pos i ws w (e ∙ ap (λ j. some (awaiting j)) same)

-- While its worker still counts as waiting, the task counts once more.
stored-placed :
    (s : PoolState) (w ordinal i : ℕ) (r : ChildResult) (f : Bool)
    → IsSound s
    → get_elem? s.workers w ≡ some (awaiting ordinal)
    → i < s.task_count
    → (running_count i s + result_count i (stored ordinal r f s) + not_taken i s
        ≡ 1 + to_ℕ (ordinal == i))
      × (result_count i (stored ordinal r f s) + not_taken i s ≤ 1)
stored-placed s w ordinal i r f v here h =
    let inside : ordinal < length s.results = omega (
      arith,
      All-get (WorkerOk s.task_count s.next) s.workers w (awaiting ordinal) v.crew here,
      v.size,
    ) in
    ground (
      arith,
      v.placed i h,
      stored-result s ordinal i r f inside,
      count-pos_eq i ordinal s.workers w here,
    )

pub turn-IsSound-Turned :
    (s s' : PoolState) (w ordinal : ℕ) (r : ChildResult) (f : Bool) (o : Option ℕ)
    → IsSound s
    → get_elem? s.workers w ≡ some (awaiting ordinal)
    → Turned (stored ordinal r f s) s' o
    → IsSound (record s' { workers = set s'.workers w (worker_of o) })
unfolding stored
turn-IsSound-Turned s s' w ordinal r f o v here t = record {
  placed = λ i h.
      let at : i < s.task_count = omega (arith, t.keeps.tasks, h) in
      let before = stored-placed s w ordinal i r f v here at in
      omega (
        arith,
        before.0,
        (t.takes i at before.1).moves,
        ap (count_if (awaits i)) (ap (λ ws. set ws w (worker_of o)) t.keeps.crew),
        count_if-set (awaits i) s.workers w (awaiting ordinal) (worker_of o) here,
        awaits-worker_of i o,
      );
  once = λ i h.
      let at : i < s.task_count = omega (arith, t.keeps.tasks, h) in
      let before = stored-placed s w ordinal i r f v here at in
      omega (arith, (t.takes i at before.1).starts, v.once i at);
  crew =
      let (ok, new_one) = crew_after (stored ordinal r f s) s' o v.crew t.keeps in
      All-set (WorkerOk s'.task_count s'.next) s'.workers w (worker_of o) ok new_one;
  size = t.keeps.size ∙ length-set s.results ordinal (some r) ∙ v.size ∙ sym t.keeps.tasks;
}

pub turn_done :
    (w : ℕ) (s s' : PoolState) (o : Option ℕ)
    → take_next (fuel_for s) s ≡ some (s', o)
    → turn w s ≡ record s' { workers = set s'.workers w (worker_of o) }
unfolding turn
turn_done w s s' o e = rw (e, turn)

abbrev pub failed_after : Outcome → PoolState → Bool
failed_after outcome s = if is_completed (result_of outcome).status then s.failed else true

pub settle_awaiting :
    (w ordinal : ℕ) (outcome : Outcome) (s : PoolState)
    → get_elem? s.workers w ≡ some (awaiting ordinal)
    → settle w outcome s ≡ turn w (stored ordinal (result_of outcome) (failed_after outcome s) s)
unfolding settle stored
settle_awaiting w ordinal outcome s e = rw (e, settle)

pub settle_idle :
    (w : ℕ) (outcome : Outcome) (s : PoolState)
    → (get_elem? s.workers w ≡ none) ⊎ (get_elem? s.workers w ≡ some finished)
    → settle w outcome s ≡ s
unfolding settle
settle_idle w outcome s (inl e) = rw (e, settle)
settle_idle w outcome s (inr e) = rw (e, settle)
