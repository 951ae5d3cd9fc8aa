-- ===== src/ExitGate.antt =====
-- extension/src/exit-notify-gate.ts: an exit event and the mark that asks for its notice may come
-- in either order. `now` is the clock at the call; a time before the epoch is avoided by moving
-- the time to live to the other side of the comparison.
pub mod Prune
pub mod Accounting
pub mod Delivery
use pi_better_subagents.Prelude.{
  ℕ, ◌+◌, Bool, true, false, Option, none, some, List, [], ◌∷◌, String, ltb, if◌then◌else◌,
}
use pi_better_subagents.Prelude.Dict.{Dict, get, put, delete}
use pi_better_subagents.Prelude.KeySet.{KeySet}
use pi_better_subagents.Prelude.KeySet

pub record ExitNotifyGate (T : Type 0) : Type 0 where
  pub notify : KeySet
  pub recent : Dict T
  pub ttl_ms : ℕ
  pub stamped : Dict ℕ

pub data Verdict : Type 0 where
  notify_now stash ignore : Verdict

module _ {T : Type 0} where
  unfoldable pub new : ℕ → ExitNotifyGate T
  new ttl = record { notify = []; recent = []; ttl_ms = ttl; stamped = [] }

  -- One round of the loop of `prune`.
  unfoldable pub expire : ℕ → String × ℕ → ExitNotifyGate T → ExitNotifyGate T
  expire now (id, at) g =
      if ltb (at + g.ttl_ms) now
      then record g { stamped = delete id g.stamped; recent = delete id g.recent }
      else g

  unfoldable pub prune_loop : ℕ → Dict ℕ → ExitNotifyGate T → ExitNotifyGate T
  prune_loop now [] g = g
  prune_loop now (entry ∷ entries) g = prune_loop now entries (expire now entry g)

  unfoldable pub prune : ℕ → ExitNotifyGate T → ExitNotifyGate T
  unfolding prune_loop expire
  prune now g = prune_loop now g.stamped g

  unfoldable pub mark : ℕ → String → ExitNotifyGate T → ExitNotifyGate T × Option T
  mark now id g =
      let g' = prune now g in
      elim (get id g'.recent) [
        | none ↦ (record g' { notify = KeySet.add id g'.notify }, none)
        | some prior ↦ (
          record g' {
            notify = KeySet.delete id (KeySet.add id g'.notify);
            recent = delete id g'.recent;
            stamped = delete id g'.stamped;
          },
          some prior,
        )
      ]

  unfoldable pub on_exit : ℕ → String → T → Bool → ExitNotifyGate T → ExitNotifyGate T × Verdict
  on_exit now id event is_monitor g =
      if is_monitor
      then (g, ignore)
      else (let g' = prune now g in
          if KeySet.has id g'.notify
          then (record g' { notify = KeySet.delete id g'.notify }, notify_now)
          else (
            record g' { recent = put id event g'.recent; stamped = put id now g'.stamped },
            stash,
          ))
