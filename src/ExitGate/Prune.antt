-- ===== src/ExitGate/Prune.antt =====
-- What `prune` of extension/src/exit-notify-gate.ts leaves.
use pi_better_subagents.Prelude.{
  ℕ, ◌+◌, ◌≡◌, refl, Bool, false, Option, none, some, [], ◌∷◌, String, eq_iff, ltb, if◌then◌else◌,
  arith,
}
use pi_better_subagents.Prelude.Dict.{Dict, get, get-delete, IsDistinct}
use pi_better_subagents.ExitGate.{ExitNotifyGate, expire, prune_loop}

-- Is the stamp of a task older than the time to live?
abbrev pub is_old : ℕ → ℕ → Option ℕ → Bool
is_old ttl now none = false
is_old ttl now (some at) = ltb (at + ttl) now

module _ {T : Type 0} where
  pub prune_loop-notify :
      (now : ℕ) (es : Dict ℕ) (g : ExitNotifyGate T)
      → ((prune_loop now es g).notify ≡ g.notify) × ((prune_loop now es g).ttl_ms ≡ g.ttl_ms)
  unfolding prune_loop expire
  prune_loop-notify now [] g = (refl, refl)
  prune_loop-notify now ((id, at) ∷ es) g =
      ground (arith, prune_loop-notify now es (expire now (id, at) g))

  pub prune_loop-get :
      (ttl now : ℕ) (es : Dict ℕ) (g : ExitNotifyGate T) (j : String)
      → g.ttl_ms ≡ ttl
      → IsDistinct es
      → (get j (prune_loop now es g).recent
          ≡ (if is_old ttl now (get j es) then none else get j g.recent))
        × (get j (prune_loop now es g).stamped
            ≡ (if is_old ttl now (get j es) then none else get j g.stamped))
  unfolding prune_loop expire get
  prune_loop-get ttl now [] g j e d = (refl, refl)
  prune_loop-get ttl now ((id, at) ∷ es) g j e (fresh, d) = ground (
    arith,
    prune_loop-get ttl now es (expire now (id, at) g) j,
    get-delete id j g.recent,
    get-delete id j g.stamped,
    eq_iff id j,
  )
