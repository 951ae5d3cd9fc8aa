-- ===== src/ExitGate/Accounting.antt =====
-- How often the gate of extension/src/exit-notify-gate.ts notifies, over a history of calls.
use pi_better_subagents.Prelude.{
  ℕ, ◌+◌, ◌≤◌, ◌≡◌, refl, Bool, true, false, not, none, List, [], ◌∷◌, String, ◌==ₛ◌, eq_iff,
  if◌then◌else◌, is_some, arith, ◌&&◌,
}
use pi_better_subagents.Prelude.Dict.{
  Dict, get, get-put, get-delete, IsDistinct, put-IsDistinct, delete-IsDistinct,
}
use pi_better_subagents.Prelude.KeySet.{has, add, has-add, has-delete}
use pi_better_subagents.ExitGate.{
  ExitNotifyGate, notify_now, stash, ignore, new, expire, prune_loop, prune, mark, on_exit,
}
use pi_better_subagents.ExitGate.Prune.{is_old, prune_loop-get, prune_loop-notify}

-- A call of the gate, with the time of the call.
pub data Call (T : Type 0) : Type 0 where
  marks : ℕ → String → Call T
  exits : ℕ → String → T → Bool → Call T

abbrev pub to_ℕ : Bool → ℕ
to_ℕ true = 1
to_ℕ false = 0

module _ {T : Type 0} where
  expire-IsDistinct :
      (now : ℕ) (entry : String × ℕ) (g : ExitNotifyGate T)
      → IsDistinct g.stamped
      → IsDistinct (expire now entry g).stamped
  unfolding expire
  expire-IsDistinct now (id, at) g d = ground (arith, delete-IsDistinct id g.stamped d)

  prune_loop-IsDistinct :
      (now : ℕ) (es : Dict ℕ) (g : ExitNotifyGate T)
      → IsDistinct g.stamped
      → IsDistinct (prune_loop now es g).stamped
  unfolding prune_loop
  prune_loop-IsDistinct now [] g d = d
  prune_loop-IsDistinct now (entry ∷ es) g d =
      prune_loop-IsDistinct now es (expire now entry g) (expire-IsDistinct now entry g d)

  pub prune-IsDistinct :
      (now : ℕ) (g : ExitNotifyGate T) → IsDistinct g.stamped → IsDistinct (prune now g).stamped
  unfolding prune
  prune-IsDistinct now g d = prune_loop-IsDistinct now g.stamped g d

  pub prune-notify : (now : ℕ) (g : ExitNotifyGate T) → (prune now g).notify ≡ g.notify
  unfolding prune
  prune-notify now g = (prune_loop-notify now g.stamped g).0

  pub prune-ttl : (now : ℕ) (g : ExitNotifyGate T) → (prune now g).ttl_ms ≡ g.ttl_ms
  unfolding prune
  prune-ttl now g = (prune_loop-notify now g.stamped g).1

  pub prune-recent :
      (now : ℕ) (g : ExitNotifyGate T) (j : String)
      → IsDistinct g.stamped
      → get j (prune now g).recent
        ≡ (if is_old g.ttl_ms now (get j g.stamped) then none else get j g.recent)
  unfolding prune
  prune-recent now g j d = (prune_loop-get g.ttl_ms now g.stamped g j refl d).0

  pub prune-stamped :
      (now : ℕ) (g : ExitNotifyGate T) (j : String)
      → IsDistinct g.stamped
      → get j (prune now g).stamped
        ≡ (if is_old g.ttl_ms now (get j g.stamped) then none else get j g.stamped)
  unfolding prune
  prune-stamped now g j d = (prune_loop-get g.ttl_ms now g.stamped g j refl d).1

  -- A call, and whether it asks for a notice at once.
  unfoldable pub step : ExitNotifyGate T → Call T → ExitNotifyGate T × Bool
  step g (marks now id) = let r = mark now id g in (r.0, is_some r.1)
  step g (exits now id event monitor) =
      let r = on_exit now id event monitor g in
      (r.0, (elim r.1 [ notify_now ↦ true | stash ↦ false | ignore ↦ false ]))

  pub step-IsDistinct :
      (g : ExitNotifyGate T) (c : Call T) → IsDistinct g.stamped → IsDistinct (step g c).0.stamped
  unfolding step mark on_exit
  step-IsDistinct g (marks now id) d =
      ground (arith, prune-IsDistinct now g d, delete-IsDistinct id (prune now g).stamped)
  step-IsDistinct g (exits now id event monitor) d =
      ground (arith, prune-IsDistinct now g d, put-IsDistinct id now (prune now g).stamped)

  abbrev pub about : String → Call T → Bool
  about j (marks now id) = id ==ₛ j
  about j (exits now id event monitor) = id ==ₛ j

  abbrev pub is_mark : Call T → Bool
  is_mark (marks now id) = true
  is_mark (exits now id event monitor) = false

  abbrev pub is_exit : Call T → Bool
  is_exit (marks now id) = false
  is_exit (exits now id event monitor) = not monitor

  -- A notice for the task takes the mark or brings none.
  step-notify :
      (g : ExitNotifyGate T) (c : Call T) (j : String)
      → to_ℕ (about j c && (step g c).1) + to_ℕ (has j (step g c).0.notify)
        ≤ to_ℕ (has j g.notify) + to_ℕ (about j c && is_mark c)
  unfolding step mark on_exit
  step-notify g (marks now id) j = ground (
    arith,
    prune-notify now g,
    has-add id j (prune now g).notify,
    has-delete id j (add id (prune now g).notify),
  )
  step-notify g (exits now id event monitor) j =
      ground (arith, prune-notify now g, eq_iff id j, has-delete id j (prune now g).notify)

  step-recent :
      (g : ExitNotifyGate T) (c : Call T) (j : String)
      → IsDistinct g.stamped
      → to_ℕ (about j c && (step g c).1) + to_ℕ (is_some (get j (step g c).0.recent))
        ≤ to_ℕ (is_some (get j g.recent)) + to_ℕ (about j c && is_exit c)
  unfolding step mark on_exit
  step-recent g (marks now id) j d =
      ground (arith, prune-recent now g j d, eq_iff id j, get-delete id j (prune now g).recent)
  step-recent g (exits now id event monitor) j d =
      ground (arith, prune-recent now g j d, eq_iff id j, get-put id j event (prune now g).recent)

  -- How often a task is notified, marked, and seen to exit, over a history of calls.
  pub notices : String → ExitNotifyGate T → List (Call T) → ℕ
  notices j g [] = 0
  notices j g (c ∷ cs) = to_ℕ (about j c && (step g c).1) + notices j (step g c).0 cs

  abbrev pub mark_count : String → List (Call T) → ℕ
  mark_count j [] = 0
  mark_count j (c ∷ cs) = to_ℕ (about j c && is_mark c) + mark_count j cs

  abbrev pub exit_count : String → List (Call T) → ℕ
  exit_count j [] = 0
  exit_count j (c ∷ cs) = to_ℕ (about j c && is_exit c) + exit_count j cs

  notices-le :
      (j : String) (g : ExitNotifyGate T) (cs : List (Call T))
      → IsDistinct g.stamped
      → (notices j g cs ≤ to_ℕ (has j g.notify) + mark_count j cs)
        × (notices j g cs ≤ to_ℕ (is_some (get j g.recent)) + exit_count j cs)
  unfolding notices
  notices-le j g [] d = (omega arith, omega arith)
  notices-le j g (c ∷ cs) d =
      let rest = notices-le j (step g c).0 cs (step-IsDistinct g c d) in
      (omega (arith, rest.0, step-notify g c j), omega (arith, rest.1, step-recent g c j d))

  -- Over any history of a new gate a task is notified at most as often as it is marked, and at
  -- most as often as an exit of it is seen that is not a monitor's.
  pub notices-new :
      (ttl : ℕ) (j : String) (cs : List (Call T))
      → (notices j (new ttl) cs ≤ mark_count j cs) × (notices j (new ttl) cs ≤ exit_count j cs)
  unfolding new has get
  notices-new ttl j cs =
      let le = notices-le j (new ttl) cs tt in (omega (arith, le.0), omega (arith, le.1))
