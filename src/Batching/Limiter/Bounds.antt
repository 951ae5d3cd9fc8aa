-- ===== src/Batching/Limiter/Bounds.antt =====
-- `RateLimiter` of extension/src/monitor-batching.ts over a history of refills and requests.
use pi_better_subagents.Prelude.{ℕ, ◌+◌, ◌*◌, ◌≤◌, ◌≡◌, refl, List, [], ◌∷◌, if◌then◌else◌, arith}
use pi_better_subagents.Batching.Limiter.{RateLimiter, new, refill, try_consume, dispose}

pub data Event : Type 0 where
  refills disposes : Event
  consumes : ℕ → Event

-- The limiter after a history and the tokens that it granted.
pub run : RateLimiter → List Event → RateLimiter × ℕ
run r [] = (r, 0)
run r (refills ∷ es) = run (refill r) es
run r (disposes ∷ es) = run (dispose r) es
run r (consumes n ∷ es) =
    let r' = try_consume r n in let rest = run r'.0 es in (rest.0, (if r'.1 then n else 0) + rest.1)

abbrev pub refill_count : List Event → ℕ
refill_count [] = 0
refill_count (refills ∷ es) = refill_count es + 1
refill_count (disposes ∷ es) = refill_count es
refill_count (consumes n ∷ es) = refill_count es

run-bound :
    (amount : ℕ) (r : RateLimiter) (es : List Event)
    → r.refill_amount ≡ amount
    → (run r es).1 + (run r es).0.tokens ≤ r.tokens + refill_count es * amount
unfolding run refill try_consume dispose
run-bound amount r [] e = omega arith
run-bound amount r (refills ∷ es) e = ground (arith, run-bound amount (refill r) es)
run-bound amount r (disposes ∷ es) e = ground (arith, run-bound amount (dispose r) es)
run-bound amount r (consumes n ∷ es) e = ground (arith, run-bound amount (try_consume r n).0 es)

run-capacity :
    (r : RateLimiter) (es : List Event) → r.tokens ≤ r.capacity → (run r es).0.tokens ≤ r.capacity
unfolding run refill try_consume dispose
run-capacity r [] h = h
run-capacity r (refills ∷ es) h = ground (arith, run-capacity (refill r) es)
run-capacity r (disposes ∷ es) h = ground (arith, run-capacity (dispose r) es)
run-capacity r (consumes n ∷ es) h = ground (arith, run-capacity (try_consume r n).0 es)

-- Over any history of a new limiter: what it granted and still holds is at most its capacity and
-- a refill amount for every refill, and it never holds more than its capacity.
pub run-new-bound :
    (capacity amount : ℕ) (es : List Event)
    → ((run (new capacity amount) es).1 + (run (new capacity amount) es).0.tokens
        ≤ capacity + refill_count es * amount)
      × ((run (new capacity amount) es).0.tokens ≤ capacity)
unfolding new
run-new-bound capacity amount es = (
  run-bound amount (new capacity amount) es refl,
  run-capacity (new capacity amount) es (omega arith),
)
