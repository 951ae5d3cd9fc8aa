-- ===== src/Batching/Limiter.antt =====
-- `RateLimiter` of extension/src/monitor-batching.ts: a token bucket. The callback of the refill
-- interval is `refill`; `dispose` clears the interval, so a disposed limiter is refilled no more.
pub mod Bounds
use pi_better_subagents.Prelude.{ℕ, ◌+◌, ◌-◌, min, Bool, true, false, ltb, if◌then◌else◌}

pub record RateLimiter : Type 0 where
  pub capacity : ℕ
  pub refill_amount : ℕ
  pub tokens : ℕ
  pub disposed : Bool

unfoldable pub new : ℕ → ℕ → RateLimiter
new capacity refill_amount = record {
  capacity = capacity;
  refill_amount = refill_amount;
  tokens = capacity;
  disposed = false;
}

unfoldable pub refill : RateLimiter → RateLimiter
refill r =
    if r.disposed then r else record r { tokens = min r.capacity (r.tokens + r.refill_amount) }

unfoldable pub try_consume : RateLimiter → ℕ → RateLimiter × Bool
try_consume r n =
    if r.disposed
    then (r, false)
    else if ltb r.tokens n
    then (r, false)
    else (record r { tokens = r.tokens - n }, true)

unfoldable pub dispose : RateLimiter → RateLimiter
dispose r = record r { disposed = true }
