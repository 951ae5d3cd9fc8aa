-- ===== src/Pool/Slots.antt =====
-- Writing one place of a list, and the loop of a worker of extension/src/subagent/pool.ts.
use pi_better_subagents.Prelude.{
  ℕ, zero, suc, ◌+◌, ◌≤◌, ◌<◌, ◌≡◌, refl, ◌∙◌, Bool, true, false, ◌&&◌, Option, none, some, List,
  [], ◌∷◌, ◌++◌, length, get_elem?, set, count_if, leb, ◌==◌, if◌then◌else◌, if_cases, leb→le,
  length-set, arith,
}
use pi_better_subagents.Subagent.{ChildResult}
use pi_better_subagents.Pool.{PoolState, cancelled_result, take_next}

abbrev pub to_ℕ : Bool → ℕ
to_ℕ true = 1
to_ℕ false = 0

abbrev pub filled : Option (Option ChildResult) → ℕ
filled none = 0
filled (some none) = 0
filled (some (some r)) = 1

-- Does the task have its result?
abbrev pub result_count : ℕ → PoolState → ℕ
result_count i s = filled (get_elem? s.results i)

abbrev pub not_taken : ℕ → PoolState → ℕ
not_taken i s = to_ℕ (leb s.next i)

pub filled-set :
    (rs : List (Option ChildResult)) (j i : ℕ) (r : ChildResult)
    → j < length rs
    → filled (get_elem? (set rs j (some r)) i) ≡ (if j == i then 1 else filled (get_elem? rs i))
filled-set [] j i r h = absurd (omega arith)
filled-set (x ∷ rs) zero zero r h = refl
filled-set (x ∷ rs) zero (suc i) r h = ground arith
filled-set (x ∷ rs) (suc j) zero r h = ground arith
filled-set (x ∷ rs) (suc j) (suc i) r h = ground (arith, filled-set rs j i r)

pub count_if-set {ℓ} :
    {A : Type ℓ} (p : A → Bool) (xs : List A) (w : ℕ) (old v : A)
    → get_elem? xs w ≡ some old
    → count_if p (set xs w v) + to_ℕ (p old) ≡ count_if p xs + to_ℕ (p v)
count_if-set p [] w old v e = cc
count_if-set p (x ∷ xs) zero old v e = ground arith
count_if-set p (x ∷ xs) (suc w) old v e = ground (arith, count_if-set p xs w old v e)

abbrev pub is_ordinal : ℕ → Option ℕ → ℕ
is_ordinal i none = 0
is_ordinal i (some o) = to_ℕ (o == i)

-- What the loop of a worker does to a task: it takes the task at most once, and either starts it
-- or gives it the cancelled result.
pub record Takes (i : ℕ) (s s' : PoolState) (o : Option ℕ) : Type 0 where
  pub moves : result_count i s' + not_taken i s' + is_ordinal i o ≡ result_count i s + not_taken i s
  pub starts :
      count_if (λ j. j == i) s'.started + not_taken i s'
      ≤ count_if (λ j. j == i) s.started + not_taken i s

pub record Keeps (s s' : PoolState) (o : Option ℕ) : Type 0 where
  pub tasks : s'.task_count ≡ s.task_count
  pub mode : s'.fail_fast ≡ s.fail_fast
  pub failed : s'.failed ≡ s.failed
  pub crew : s'.workers ≡ s.workers
  pub size : length s'.results ≡ length s.results
  pub later : s.next ≤ s'.next
  pub ended : o ≡ none → s.task_count ≤ s'.next
  pub range : (j : ℕ) → o ≡ some j → j < s.task_count
  pub quiet : (s.fail_fast && s.failed) ≡ true → s'.started ≡ s.started

abbrev cancelled : PoolState → PoolState
cancelled s = record s { next = suc s.next; results = set s.results s.next (some cancelled_result) }

-- One round of the loop, by its three ways on.
take_next_cases {ℓ} :
    (P : Option (PoolState × Option ℕ) → Type ℓ) (fuel : ℕ) (s : PoolState)
    → (s.task_count ≤ s.next → P (some (record s { next = suc s.next }, none)))
    → (s.next < s.task_count → (s.fail_fast && s.failed) ≡ true → P (take_next fuel (cancelled s)))
    → (s.next < s.task_count
        → (s.fail_fast && s.failed) ≡ false
        → P (
            some (record s { next = suc s.next; started = s.started ++ s.next ∷ [] }, some s.next)))
    → P (take_next (suc fuel) s)
unfolding take_next
take_next_cases P fuel s ends cancels starts =
    if_cases P (leb s.task_count s.next) (λ e. ends (leb→le _ _ e))
      (λ more.
        let less : s.next < s.task_count = ground arith in
        if_cases P (s.fail_fast && s.failed) (cancels less) (starts less))

-- The loop ends within its fuel.
abbrev pub Ends : Option (PoolState × Option ℕ) → Type 0
Ends r = (s' : PoolState) × (o : Option ℕ) × (r ≡ some (s', o))

pub take_next-Ends :
    (fuel : ℕ) (s : PoolState) → s.task_count ≤ s.next + fuel → Ends (take_next (suc fuel) s)
take_next-Ends zero s h =
    take_next_cases Ends zero s (λ e. (_, _, refl)) (λ less f. absurd (omega arith))
      (λ less f. (_, _, refl))
take_next-Ends (suc fuel) s h =
    take_next_cases Ends (suc fuel) s (λ e. (_, _, refl))
      (λ less f. take_next-Ends fuel (cancelled s) (omega arith)) (λ less f. (_, _, refl))

abbrev pub TakesIn : ℕ → PoolState → Option (PoolState × Option ℕ) → Type 0
TakesIn i s none = Unit
TakesIn i s (some (s', o)) = Takes i s s' o

abbrev pub KeepsIn : PoolState → Option (PoolState × Option ℕ) → Type 0
KeepsIn s none = Unit
KeepsIn s (some (s', o)) = Keeps s s' o

count-snoc :
    (i : ℕ) (xs : List ℕ) (x : ℕ)
    → count_if (λ j. j == i) (xs ++ x ∷ []) ≡ count_if (λ j. j == i) xs + to_ℕ (x == i)
count-snoc i [] x = ground arith
count-snoc i (y ∷ xs) x = ground (arith, count-snoc i xs x)

cancelled-moves :
    (i : ℕ) (s : PoolState)
    → s.next < length s.results
    → result_count i s + not_taken i s ≤ 1
    → result_count i (cancelled s) + not_taken i (cancelled s) ≡ result_count i s + not_taken i s
cancelled-moves i s h once = ground (arith, filled-set s.results s.next i cancelled_result h)

not_taken-suc : (i next : ℕ) → to_ℕ (leb (suc next) i) ≤ to_ℕ (leb next i)
not_taken-suc i next = ground arith

takes_after :
    (i : ℕ) (s : PoolState) (r : Option (PoolState × Option ℕ))
    → s.next < length s.results
    → result_count i s + not_taken i s ≤ 1
    → TakesIn i (cancelled s) r
    → TakesIn i s r
takes_after i s none h once x = tt
takes_after i s (some (s', o)) h once t = record {
  moves = t.moves ∙ cancelled-moves i s h once;
  starts = omega (arith, t.starts, not_taken-suc i s.next);
}

keeps_after :
    (s : PoolState) (r : Option (PoolState × Option ℕ)) → KeepsIn (cancelled s) r → KeepsIn s r
keeps_after s none x = tt
keeps_after s (some (s', o)) k = record {
  tasks = k.tasks;
  mode = k.mode;
  failed = k.failed;
  crew = k.crew;
  size = k.size ∙ length-set s.results s.next (some cancelled_result);
  later = omega (arith, k.later);
  ended = k.ended;
  range = k.range;
  quiet = k.quiet;
}

-- The loop takes a task soundly, if no task that is not taken has a result.
pub take_next-Takes :
    (fuel i : ℕ) (s : PoolState)
    → i < s.task_count
    → s.task_count ≤ length s.results
    → result_count i s + not_taken i s ≤ 1
    → TakesIn i s (take_next fuel s)
take_next-Takes zero i s h size once = unfold take_next in tt
take_next-Takes (suc fuel) i s h size once =
    take_next_cases (TakesIn i s) fuel s
      (λ e. record { moves = ground arith; starts = ground arith })
      (λ less f. takes_after i s (take_next fuel (cancelled s)) (omega arith) once (
        take_next-Takes fuel i (cancelled s) h
          (omega (arith, length-set s.results s.next (some cancelled_result)))
          (omega (arith, cancelled-moves i s (omega arith) once))))
      (λ less f. record {
        moves = ground arith;
        starts = ground (arith, count-snoc i s.started s.next);
      })

Keeps-end : (s : PoolState) → s.task_count ≤ s.next → Keeps s (record s { next = suc s.next }) none
Keeps-end s e = record {
  tasks = refl;
  mode = refl;
  failed = refl;
  crew = refl;
  size = refl;
  later = omega arith;
  ended = λ _. omega arith;
  range = λ j x. absurd (ground arith);
  quiet = λ _. refl;
}

Keeps-start :
    (s : PoolState)
    → s.next < s.task_count
    → (s.fail_fast && s.failed) ≡ false
    → Keeps s (record s { next = suc s.next; started = s.started ++ s.next ∷ [] }) (some s.next)
Keeps-start s less f = record {
  tasks = refl;
  mode = refl;
  failed = refl;
  crew = refl;
  size = refl;
  later = omega arith;
  ended = λ e. absurd (ground arith);
  range = λ j e. ground arith;
  quiet = λ q. absurd (ground arith);
}

pub take_next-Keeps : (fuel : ℕ) (s : PoolState) → KeepsIn s (take_next fuel s)
take_next-Keeps zero s = unfold take_next in tt
take_next-Keeps (suc fuel) s =
    take_next_cases (KeepsIn s) fuel s (Keeps-end s)
      (λ less f. keeps_after s (take_next fuel (cancelled s)) (take_next-Keeps fuel (cancelled s)))
      (Keeps-start s)
