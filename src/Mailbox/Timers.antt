-- ===== src/Mailbox/Timers.antt =====
-- The timers of extension/src/comms/mailbox.ts, over a history of calls.
use pi_better_subagents.Prelude.{
  ℕ, ◌≡◌, refl, sym, ap, ◌∙◌, false, not, Bool-cases, inl, inr, if_cases, Option-cases, subst, All,
  All-map, All-append, eq_refl, ◌++◌, Option, none, some, List, [], ◌∷◌, String, ◌==ₛ◌, eq_iff,
  ◌==◌, arith,
}
use pi_better_subagents.Prelude.Dict.{
  Dict, get, has, put, delete, get-put, get-delete, IsDistinct, put-IsDistinct, delete-IsDistinct,
}
use pi_better_subagents.Mailbox.{
  Mailbox, Waiter, clear_timer, clear_timers, find_timer, append, begin_decision, time_out,
  resolve_decision, dispose, answer, decision_timeout_message,
}
use pi_better_subagents.Mailbox.Rings.{
  Call, appends, begins, fires, resolves, answers, disposes, after_begin, step,
}

-- A timer that is set is that of a waiter that is there.
abbrev pub IsOwn : Dict Waiter → ℕ × String → Type 0
IsOwn ws t = (w : Waiter) × (get t.1 ws ≡ some w) × (w.promise ≡ t.0)

pub record IsSound (m : Mailbox) : Type 0 where
  pub distinct : IsDistinct m.waiters
  pub own : All (IsOwn m.waiters) m.timers

All-clear_timer {κ μ} :
    (P : ℕ × String → Type κ) (Q : ℕ × String → Type μ) (p : ℕ) (ts : List (ℕ × String))
    → ((t : ℕ × String) → P t → (t.0 == p) ≡ false → Q t)
    → All P ts
    → All Q (clear_timer p ts)
All-clear_timer P Q p [] f h = tt
All-clear_timer P Q p (t ∷ ts) f (h, hs) =
    let rest = All-clear_timer P Q p ts f hs in
    if_cases (All Q) (not (t.0 == p)) (λ other. (f t h (ground (arith, other)), rest))
      (λ same. rest)

-- Without a waiter and its timer.
delete-IsOwn :
    (k : String) (w : Waiter) (ws : Dict Waiter) (ts : List (ℕ × String))
    → get k ws ≡ some w
    → All (IsOwn ws) ts
    → All (IsOwn (delete k ws)) (clear_timer w.promise ts)
delete-IsOwn k w ws ts e = All-clear_timer (IsOwn ws) (IsOwn (delete k ws)) w.promise ts kept
  where
    kept : (t : ℕ × String) → IsOwn ws t → (t.0 == w.promise) ≡ false → IsOwn (delete k ws) t
    kept t (v, g, q) other = elim (Bool-cases (k ==ₛ t.1)) [
      | inl same ↦
          let name : k ≡ t.1 = ground (arith, eq_iff k t.1, same) in
          let found : some w ≡ some v = sym e ∙ ap (λ j. get j ws) name ∙ g in
          let equal : w.promise ≡ v.promise = ground (arith, found) in
          absurd (ground (arith, equal, q, other))
      | inr apart ↦ (v, get-delete k t.1 ws ∙ ground (arith, apart, g), q)
    ]

clear_timers-IsOwn :
    (ws : Dict Waiter) (ts : List (ℕ × String))
    → All (IsOwn ws) ts
    → All (IsOwn []) (clear_timers ws ts)
unfolding get
clear_timers-IsOwn [] ts h = h
clear_timers-IsOwn ((j, v) ∷ ws) ts h =
    clear_timers-IsOwn ws (clear_timer v.promise ts)
      (All-clear_timer (IsOwn ((j, v) ∷ ws)) (IsOwn ws) v.promise ts kept h)
  where
    kept : (t : ℕ × String) → IsOwn ((j, v) ∷ ws) t → (t.0 == v.promise) ≡ false → IsOwn ws t
    kept t (w, g, q) other = (w, ground (arith, eq_iff j t.1, g, q, other), q)

put-IsOwn :
    (k : String) (w : Waiter) (ws : Dict Waiter) (ts : List (ℕ × String))
    → get k ws ≡ none
    → All (IsOwn ws) ts
    → All (IsOwn (put k w ws)) (ts ++ (w.promise, k) ∷ [])
put-IsOwn k w ws ts e h =
    All-append (IsOwn (put k w ws)) ts ((w.promise, k) ∷ []) (All-map ts kept h)
      ((w, get-put k k w ws ∙ ground (arith, eq_refl k), refl), tt)
  where
    kept : (t : ℕ × String) → IsOwn ws t → IsOwn (put k w ws) t
    kept t (v, g, q) = (v, get-put k t.1 w ws ∙ ground (arith, eq_iff k t.1, e, g), q)

-- A timer that fires finds its own waiter.
find_timer-IsOwn :
    (p : ℕ) (k : String) (ws : Dict Waiter) (ts : List (ℕ × String))
    → find_timer p ts ≡ some k
    → All (IsOwn ws) ts
    → IsOwn ws (p, k)
find_timer-IsOwn p k ws [] e h = absurd (ground (arith, e))
find_timer-IsOwn p k ws (t ∷ ts) e ((w, g, q), hs) =
    if_cases (λ (o : Option String). o ≡ some k → IsOwn ws (p, k)) (t.0 == p)
      (λ same f.
        let name : t.1 ≡ k = ground (arith, f) in
        (w, ap (λ j. get j ws) (sym name) ∙ g, ground (arith, q, same)))
      (λ other f. find_timer-IsOwn p k ws ts f hs) e

-- A timer that fires: it is not set, or it is that of a waiter that is there.
pub time_out_cases {ℓ} :
    (P : Mailbox × List (ℕ × String) → Type ℓ) (m : Mailbox) (p : ℕ)
    → IsSound m
    → P (m, [])
    → ((k : String) (w : Waiter)
        → get k m.waiters ≡ some w
        → w.promise ≡ p
        → P (
          record m { waiters = delete k m.waiters; timers = clear_timer p m.timers },
          (p, decision_timeout_message) ∷ [],
        ))
    → P (time_out m p)
unfolding time_out
time_out_cases P m p s idle fired = elim (Option-cases (find_timer p m.timers)) [
  | inl e ↦ rw (e, time_out) idle
  | inr (k, e) ↦
      let (w, g, q) = find_timer-IsOwn p k m.waiters m.timers e s.own in
      rw (e, g, time_out) (fired k w g q)
]

begin-IsSound :
    (m : Mailbox) (now : ℕ) (child_id name message : String)
    → IsSound m
    → IsSound (after_begin m (begin_decision m now child_id name message))
unfolding begin_decision
begin-IsSound m now child_id name message s =
    let w : Waiter = record {
      name = name;
      message = message;
      since_ms = now;
      promise = m.next_promise;
    } in
    if_cases (λ o. IsSound (after_begin m o)) (has child_id m.waiters) (λ taken. s)
      (λ free. record {
        distinct = put-IsDistinct child_id w m.waiters s.distinct;
        own = put-IsOwn child_id w m.waiters m.timers (ground (arith, free)) s.own;
      })

resolve-IsSound :
    (m : Mailbox) (child_id text : String)
    → IsSound m
    → IsSound (resolve_decision m child_id text).0
unfolding resolve_decision
resolve-IsSound m child_id text s = elim (Option-cases (get child_id m.waiters)) [
  | inl e ↦ rw (e, resolve_decision) s
  | inr (w, e) ↦
      rw (e, resolve_decision)
        (record {
          distinct = delete-IsDistinct child_id m.waiters s.distinct;
          own = delete-IsOwn child_id w m.waiters m.timers e s.own;
        })
]

pub step-IsSound : (m : Mailbox) (c : Call) → IsSound m → IsSound (step m c)
unfolding step append answer dispose
step-IsSound m (appends now run_id from to kind message) s = record {
  distinct = s.distinct;
  own = s.own;
}
step-IsSound m (begins now child_id name message) s = begin-IsSound m now child_id name message s
step-IsSound m (fires promise) s =
    time_out_cases (λ r. IsSound r.0) m promise s s
      (λ k w g q. record {
        distinct = delete-IsDistinct k m.waiters s.distinct;
        own =
            subst (λ p. All (IsOwn (delete k m.waiters)) (clear_timer p m.timers)) q
              (delete-IsOwn k w m.waiters m.timers g s.own);
      })
step-IsSound m (resolves child_id text) s = resolve-IsSound m child_id text s
step-IsSound m (answers ref text) s = record { distinct = s.distinct; own = s.own }
step-IsSound m disposes s = record {
  distinct = tt;
  own = clear_timers-IsOwn m.waiters m.timers s.own;
}
