-- ===== src/ExitGate/Delivery.antt =====
-- An exit and its mark in the gate of extension/src/exit-notify-gate.ts, in either order.
use pi_better_subagents.Prelude.{
  ℕ, ◌+◌, ◌≤◌, ◌≡◌, true, false, none, some, List, [], ◌∷◌, String, eq_refl, ◌∙◌, All, arith,
}
use pi_better_subagents.Prelude.Dict.{get, get-put, get-delete, IsDistinct}
use pi_better_subagents.Prelude.KeySet.{has, add, has-add, has-delete}
use pi_better_subagents.ExitGate.{ExitNotifyGate, notify_now, stash, prune, mark, on_exit}
use pi_better_subagents.ExitGate.Accounting.{
  Call, marks, exits, about, step, step-IsDistinct, prune-recent, prune-stamped, prune-notify,
  prune-ttl,
}

module _ {T : Type 0} where
  -- The gate after a history of calls.
  pub after : ExitNotifyGate T → List (Call T) → ExitNotifyGate T
  after g [] = g
  after g (c ∷ cs) = after (step g c).0 cs

  abbrev pub time : Call T → ℕ
  time (marks now id) = now
  time (exits now id event monitor) = now

  -- The calls between: none is about the task, none is later than the limit.
  abbrev pub Between : String → ℕ → List (Call T) → Type 0
  Between id limit cs = All (λ c. (about id c ≡ false) × (time c ≤ limit)) cs

  abbrev pub Others : String → List (Call T) → Type 0
  Others id cs = All (λ c. about id c ≡ false) cs

  -- An exit that is kept for a mark.
  abbrev IsStashed : String → T → ℕ → ExitNotifyGate T → Type 0
  IsStashed id event at g =
      (get id g.recent ≡ some event) × (get id g.stamped ≡ some at) × IsDistinct g.stamped

  step-IsStashed :
      (id : String) (event : T) (at : ℕ) (g : ExitNotifyGate T) (c : Call T)
      → about id c ≡ false
      → time c ≤ at + g.ttl_ms
      → IsStashed id event at g
      → (get id (step g c).0.recent ≡ some event)
        × (get id (step g c).0.stamped ≡ some at)
        × ((step g c).0.ttl_ms ≡ g.ttl_ms)
  unfolding step mark on_exit
  step-IsStashed id event at g (marks now k) other h (r, s, d) = ground (
    arith,
    prune-recent now g id d,
    prune-stamped now g id d,
    prune-ttl now g,
    get-delete k id (prune now g).recent,
    get-delete k id (prune now g).stamped,
  )
  step-IsStashed id event at g (exits now k e monitor) other h (r, s, d) = ground (
    arith,
    prune-recent now g id d,
    prune-stamped now g id d,
    prune-ttl now g,
    get-put k id e (prune now g).recent,
    get-put k id now (prune now g).stamped,
  )

  after-IsStashed :
      (id : String) (event : T) (at ttl : ℕ) (g : ExitNotifyGate T) (cs : List (Call T))
      → g.ttl_ms ≡ ttl
      → Between id (at + ttl) cs
      → IsStashed id event at g
      → IsStashed id event at (after g cs) × ((after g cs).ttl_ms ≡ ttl)
  unfolding after
  after-IsStashed id event at ttl g [] e tt' st = (st, e)
  after-IsStashed id event at ttl g (c ∷ cs) e ((other, h), rest) st =
      let (r, s, t) = step-IsStashed id event at g c other (omega arith) st in
      after-IsStashed id event at ttl (step g c).0 cs (t ∙ e) rest (r, s, step-IsDistinct g c st.2)

  mark_of_IsStashed :
      (id : String) (event : T) (at now : ℕ) (g : ExitNotifyGate T)
      → now ≤ at + g.ttl_ms
      → IsStashed id event at g
      → (mark now id g).1 ≡ some event
  unfolding mark
  mark_of_IsStashed id event at now g h (r, s, d) = ground (arith, prune-recent now g id d)

  on_exit-IsStashed :
      (id : String) (event : T) (at : ℕ) (g : ExitNotifyGate T)
      → IsDistinct g.stamped
      → (on_exit at id event false g).1 ≡ stash
      → (get id (on_exit at id event false g).0.recent ≡ some event)
        × (get id (on_exit at id event false g).0.stamped ≡ some at)
        × ((on_exit at id event false g).0.ttl_ms ≡ g.ttl_ms)
  unfolding on_exit
  on_exit-IsStashed id event at g d e = ground (
    arith,
    prune-ttl at g,
    eq_refl id,
    get-put id id event (prune at g).recent,
    get-put id id at (prune at g).stamped,
  )

  -- The late mark finds the exit: when an exit was stashed and the mark comes within the time to
  -- live, after any calls about other tasks within that time, the mark returns the very event.
  pub mark-on_exit :
      (id : String) (event : T) (at now : ℕ) (g : ExitNotifyGate T) (cs : List (Call T))
      → IsDistinct g.stamped
      → (on_exit at id event false g).1 ≡ stash
      → Between id (at + g.ttl_ms) cs
      → now ≤ at + g.ttl_ms
      → (mark now id (after (on_exit at id event false g).0 cs)).1 ≡ some event
  mark-on_exit id event at now g cs d e between h =
      let (r, s, t) = on_exit-IsStashed id event at g d e in
      let distinct = step-IsDistinct g (exits at id event false) d in
      let (st, ttl) =
        after-IsStashed id event at g.ttl_ms (on_exit at id event false g).0 cs t between
          (r, s, unfold step in distinct) in
      mark_of_IsStashed id event at now (after (on_exit at id event false g).0 cs) (omega arith) st

  step-has :
      (id : String) (g : ExitNotifyGate T) (c : Call T)
      → about id c ≡ false
      → has id g.notify ≡ true
      → has id (step g c).0.notify ≡ true
  unfolding step mark on_exit
  step-has id g (marks now k) other h = ground (
    arith,
    prune-notify now g,
    has-add k id (prune now g).notify,
    has-delete k id (add k (prune now g).notify),
  )
  step-has id g (exits now k e monitor) other h =
      ground (arith, prune-notify now g, has-delete k id (prune now g).notify)

  after-has :
      (id : String) (g : ExitNotifyGate T) (cs : List (Call T))
      → Others id cs
      → has id g.notify ≡ true
      → has id (after g cs).notify ≡ true
  unfolding after
  after-has id g [] others h = h
  after-has id g (c ∷ cs) (other, others) h =
      after-has id (step g c).0 cs others (step-has id g c other h)

  mark-has :
      (now : ℕ) (id : String) (g : ExitNotifyGate T)
      → (mark now id g).1 ≡ none
      → has id (mark now id g).0.notify ≡ true
  unfolding mark
  mark-has now id g e = ground (arith, eq_refl id, has-add id id (prune now g).notify)

  on_exit_of_has :
      (now : ℕ) (id : String) (event : T) (g : ExitNotifyGate T)
      → has id g.notify ≡ true
      → (on_exit now id event false g).1 ≡ notify_now
  unfolding on_exit
  on_exit_of_has now id event g h = ground (arith, prune-notify now g)

  -- The late exit finds the mark: when a mark returned nothing, the task's exit is notified at
  -- once, however much later it comes and whatever other tasks do between.
  pub on_exit-mark :
      (id : String) (event : T) (at now : ℕ) (g : ExitNotifyGate T) (cs : List (Call T))
      → (mark at id g).1 ≡ none
      → Others id cs
      → (on_exit now id event false (after (mark at id g).0 cs)).1 ≡ notify_now
  on_exit-mark id event at now g cs e others =
      on_exit_of_has now id event (after (mark at id g).0 cs)
        (after-has id (mark at id g).0 cs others (mark-has at id g e))
