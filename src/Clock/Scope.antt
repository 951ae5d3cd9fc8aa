-- ===== src/Clock/Scope.antt =====
-- `TimerScope` of extension/src/clock.ts, over a `ManualClock`. `owned` are the timers that it has
-- set, intervals and timeouts alike. A callback that a disposed scope had set does nothing.
use pi_better_subagents.Prelude.{
  ℕ, max, Bool, true, false, not, ◌&&◌, ◌≡◌, Option, none, some, List, [], ◌∷◌, ◌++◌, keep, any,
  ◌==◌, if◌then◌else◌, arith,
}
use pi_better_subagents.Clock.{ManualClock, ScheduledTimer, schedule, cancel}

pub record TimerScope : Type 0 where
  pub clock : ManualClock
  pub owned : List ℕ
  pub disposed : Bool

unfoldable pub new : ManualClock → TimerScope
new clock = record { clock = clock; owned = []; disposed = false }

-- `none` is the error of a disposed scope.
unfoldable pub set_timeout : (callback delay : ℕ) → TimerScope → Option (TimerScope × ℕ)
unfolding schedule
set_timeout callback delay s =
    let r = schedule callback delay none s.clock in
    if s.disposed then none else some (record s { clock = r.0; owned = s.owned ++ r.1 ∷ [] }, r.1)

unfoldable pub set_interval : (callback interval : ℕ) → TimerScope → Option (TimerScope × ℕ)
unfolding schedule
set_interval callback interval s =
    let r = schedule callback (max 1 interval) (some (max 1 interval)) s.clock in
    if s.disposed then none else some (record s { clock = r.0; owned = s.owned ++ r.1 ∷ [] }, r.1)

-- The scope's part of the callback of a timeout, and whether the callback is called.
unfoldable pub on_timeout : ℕ → TimerScope → TimerScope × Bool
on_timeout timer s = (record s { owned = keep (λ t. not (t == timer)) s.owned }, not s.disposed)

unfoldable pub clear : ℕ → TimerScope → TimerScope
unfolding cancel
clear timer s =
    if any (λ t. t == timer) s.owned
    then record s { clock = cancel timer s.clock; owned = keep (λ t. not (t == timer)) s.owned }
    else s

unfoldable pub cancel_all : List ℕ → ManualClock → ManualClock
unfolding cancel
cancel_all [] c = c
cancel_all (t ∷ ts) c = cancel_all ts (cancel t c)

unfoldable pub dispose : TimerScope → TimerScope
unfolding cancel_all
dispose s =
    if s.disposed
    then s
    else record s { clock = cancel_all s.owned s.clock; owned = []; disposed = true }

abbrev pub is_set : ℕ → ManualClock → Bool
is_set k c = any (λ t. t.id == k) c.timers

any-keep_others :
    (k timer : ℕ) (ts : List ScheduledTimer)
    → any (λ t. t.id == k) (keep (λ t. not (t.id == timer)) ts)
      ≡ not (timer == k) && any (λ t. t.id == k) ts
any-keep_others k timer [] = ground arith
any-keep_others k timer (t ∷ ts) = ground (arith, any-keep_others k timer ts)

cancel_all-is_set :
    (k : ℕ) (ts : List ℕ) (c : ManualClock)
    → is_set k (cancel_all ts c) ≡ not (any (λ t. t == k) ts) && is_set k c
unfolding cancel_all cancel
cancel_all-is_set k [] c = ground arith
cancel_all-is_set k (t ∷ ts) c =
    ground (arith, cancel_all-is_set k ts (cancel t c), any-keep_others k t c.timers)

-- Disposing of a scope clears exactly its own timers: of a scope that is not disposed, a timer is
-- set afterwards if it was set before and the scope does not own it. The scope owns none then, and
-- refuses to set any.
pub dispose-is_set :
    (k callback delay : ℕ) (s : TimerScope)
    → s.disposed ≡ false
    → (is_set k (dispose s).clock ≡ not (any (λ t. t == k) s.owned) && is_set k s.clock)
      × ((dispose s).owned ≡ [])
      × (set_timeout callback delay (dispose s) ≡ none)
      × (set_interval callback delay (dispose s) ≡ none)
unfolding dispose set_timeout set_interval
dispose-is_set k callback delay s live = ground (arith, cancel_all-is_set k s.owned s.clock)
