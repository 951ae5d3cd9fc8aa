-- ===== src/Mailbox/Settled.antt =====
-- The decision promises of extension/src/comms/mailbox.ts, over a history of calls.
use pi_better_subagents.Prelude.{
  ℕ, ◌+◌, ◌≤◌, ◌≡◌, refl, Option, none, some, List, [], ◌∷◌, map, String, eq_iff, count_if, ltb,
  ◌==◌, if◌then◌else◌, arith,
}
use pi_better_subagents.Prelude.Dict.{Dict, get, put, delete, IsDistinct}
use pi_better_subagents.Mailbox.{
  Mailbox, Waiter, new, append, begin_decision, time_out, resolve_decision, dispose, answer,
  decision_timeout_message,
}
use pi_better_subagents.Mailbox.Rings.{
  Call, appends, begins, fires, resolves, answers, disposes, step, run,
}
use pi_better_subagents.Mailbox.Timers.{IsSound, time_out_cases, step-IsSound}

-- What a call resolves.
pub settled_by : Mailbox → Call → List (ℕ × String)
settled_by m (appends now run_id from to kind message) = []
settled_by m (begins now child_id name message) = []
settled_by m (fires promise) = (time_out m promise).1
settled_by m (resolves child_id text) = (resolve_decision m child_id text).1
settled_by m (answers ref text) = []
settled_by m disposes = (dispose m).1

abbrev begun_is : ℕ → Option (Mailbox × ℕ) → ℕ
begun_is p none = 0
begun_is p (some (m, q)) = if q == p then 1 else 0

-- Is the promise handed out by a call?
pub begun_by : ℕ → Mailbox → Call → ℕ
begun_by p m (appends now run_id from to kind message) = 0
begun_by p m (begins now child_id name message) =
    begun_is p (begin_decision m now child_id name message)
begun_by p m (fires promise) = 0
begun_by p m (resolves child_id text) = 0
begun_by p m (answers ref text) = 0
begun_by p m disposes = 0

pub settle_count : ℕ → Mailbox → List Call → ℕ
settle_count p m [] = 0
settle_count p m (c ∷ cs) =
    count_if (λ (o : ℕ × String). o.0 == p) (settled_by m c) + settle_count p (step m c) cs

pub begin_count : ℕ → Mailbox → List Call → ℕ
begin_count p m [] = 0
begin_count p m (c ∷ cs) = begun_by p m c + begin_count p (step m c) cs

-- How many waiters hold the promise.
abbrev pub pending_count : ℕ → Dict Waiter → ℕ
pending_count p = count_if (λ (e : String × Waiter). e.1.promise == p)

abbrev holds : ℕ → Option Waiter → ℕ
holds p none = 0
holds p (some w) = if w.promise == p then 1 else 0

pending_count-put :
    (p : ℕ) (k : String) (w : Waiter) (m : Dict Waiter)
    → get k m ≡ none
    → pending_count p (put k w m) ≡ pending_count p m + (if w.promise == p then 1 else 0)
unfolding get put
pending_count-put p k w [] h = ground arith
pending_count-put p k w ((j, v) ∷ m) h = ground (arith, pending_count-put p k w m)

delete_of_none : (k : String) (m : Dict Waiter) → get k m ≡ none → delete k m ≡ m
unfolding get delete
delete_of_none k [] h = refl
delete_of_none k ((j, v) ∷ m) h = ground (arith, delete_of_none k m)

pending_count-delete :
    (p : ℕ) (k : String) (m : Dict Waiter)
    → IsDistinct m
    → pending_count p (delete k m) + holds p (get k m) ≡ pending_count p m
unfolding get delete
pending_count-delete p k [] d = omega arith
pending_count-delete p k ((j, v) ∷ m) (fresh, d) =
    ground (arith, pending_count-delete p k m d, delete_of_none j m fresh, eq_iff j k)

count-map :
    (p : ℕ) (m : Dict Waiter)
    → count_if
        (λ (o : ℕ × String). o.0 == p)
        (map (λ (e : String × Waiter). (e.1.promise, decision_timeout_message)) m)
      ≡ pending_count p m
count-map p [] = refl
count-map p (e ∷ m) = ground (arith, count-map p m)

-- A promise that is resolved is one that was waited for, and is waited for no longer.
step-count :
    (p : ℕ) (m : Mailbox) (c : Call)
    → IsSound m
    → count_if (λ (o : ℕ × String). o.0 == p) (settled_by m c) + pending_count p (step m c).waiters
      ≡ pending_count p m.waiters + begun_by p m c
unfolding settled_by begun_by step append begin_decision resolve_decision answer dispose
step-count p m (appends now run_id from to kind message) s = omega arith
step-count p m (begins now child_id name message) s = ground (
  arith,
  pending_count-put p child_id
      (record { name = name; message = message; since_ms = now; promise = m.next_promise })
      m.waiters,
)
step-count p m (fires promise) s =
    time_out_cases
      (λ r.
        count_if (λ (o : ℕ × String). o.0 == p) r.1 + pending_count p r.0.waiters
        ≡ pending_count p m.waiters + 0)
      m promise s (omega arith)
      (λ k w g q. ground (arith, pending_count-delete p k m.waiters s.distinct, g, q))
step-count p m (resolves child_id text) s =
    ground (arith, pending_count-delete p child_id m.waiters s.distinct)
step-count p m (answers ref text) s = omega arith
step-count p m disposes s = omega (arith, count-map p m.waiters)

run-count :
    (p : ℕ) (m : Mailbox) (cs : List Call)
    → IsSound m
    → settle_count p m cs + pending_count p (run m cs).waiters
      ≡ pending_count p m.waiters + begin_count p m cs
unfolding settle_count begin_count run
run-count p m [] s = omega arith
run-count p m (c ∷ cs) s =
    omega (arith, step-count p m c s, run-count p (step m c) cs (step-IsSound m c s))

-- A number is handed out as a promise once.
step-begun :
    (p : ℕ) (m : Mailbox) (c : Call)
    → begun_by p m c + (if ltb p (step m c).next_promise then 0 else 1)
      ≤ (if ltb p m.next_promise then 0 else 1)
unfolding begun_by step append begin_decision time_out resolve_decision answer dispose
step-begun p m (appends now run_id from to kind message) = ground arith
step-begun p m (begins now child_id name message) = ground arith
step-begun p m (fires promise) = ground arith
step-begun p m (resolves child_id text) = ground arith
step-begun p m (answers ref text) = ground arith
step-begun p m disposes = ground arith

begin_count-le :
    (p : ℕ) (m : Mailbox) (cs : List Call)
    → begin_count p m cs ≤ (if ltb p m.next_promise then 0 else 1)
unfolding begin_count
begin_count-le p m [] = ground arith
begin_count-le p m (c ∷ cs) = omega (arith, step-begun p m c, begin_count-le p (step m c) cs)

-- Over any history of a new mailbox, for every promise: it was handed out at most once; and the
-- number of times it was resolved, with one more while a child still waits for it, is the number
-- of times it was handed out. So a reply, a timeout or `dispose` resolves a promise once, and no
-- second time.
pub settle_count-run :
    (capacity p : ℕ) (cs : List Call)
    → (settle_count p (new capacity) cs + pending_count p (run (new capacity) cs).waiters
        ≡ begin_count p (new capacity) cs)
      × (begin_count p (new capacity) cs ≤ 1)
unfolding new
settle_count-run capacity p cs =
    let count = run-count p (new capacity) cs (record { distinct = tt; own = tt }) in
    (omega (arith, count), ground (arith, begin_count-le p (new capacity) cs))
