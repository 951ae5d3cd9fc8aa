-- ===== src/Runner/Generations.antt =====
-- How a generation of a child of extension/src/subagent/runner.ts begins: a retry, a new turn, the
-- first one.
use pi_better_subagents.Prelude.{
  ℕ, suc, ◌≤◌, ◌<◌, ◌≡◌, refl, sym, ◌∙◌, Bool, true, false, not, ◌&&◌, List, [], ◌∷◌, ◌++◌, String,
  All, All-append, if_cases, arith,
}
use pi_better_subagents.Runner.{Options, Prompt, user, Admission, ChildHandle, new}
use pi_better_subagents.Runner.Begin.{renew, begin_generation, launch}
use pi_better_subagents.Runner.Lifecycle.{begin_turn}
use pi_better_subagents.Runner.Turns.{core, IsOrderly, AreOrdered, resume_count}
use pi_better_subagents.Runner.Steps.{admitted-IsOrderly}

AreOrdered-weaken : (g : ℕ) (queue : List Admission) → AreOrdered g queue → AreOrdered (suc g) queue
AreOrdered-weaken g [] h = tt
AreOrdered-weaken g (a ∷ later) (le, before, h) = (omega arith, before, AreOrdered-weaken g later h)

All-earlier-snoc :
    (g : ℕ) (prompt : Prompt) (first : Bool) (a : Admission) (later : List Admission)
    → a.gen ≤ g
    → All (λ b. a.gen < b.gen) later
    → All
        (λ b. a.gen < b.gen)
        (later ++ record { gen = suc g; prompt = prompt; first = first } ∷ [])
All-earlier-snoc g prompt first a later le h = All-append _ later _ h (omega arith, tt)

AreOrdered-snoc :
    (g : ℕ) (prompt : Prompt) (first : Bool) (queue : List Admission)
    → AreOrdered g queue
    → AreOrdered (suc g) (queue ++ record { gen = suc g; prompt = prompt; first = first } ∷ [])
AreOrdered-snoc g prompt first [] h = (omega arith, tt, tt)
AreOrdered-snoc g prompt first (a ∷ later) (le, before, h) = (
  omega arith,
  All-earlier-snoc g prompt first a later le before,
  AreOrdered-snoc g prompt first later h,
)

module _ (o : Options) where
  begin-IsOrderly :
      (now : ℕ) (prompt : Prompt) (first reuse : Bool) (said : String) (c : ChildHandle)
      → AreOrdered c.generation c.admissions
      → (reuse ≡ false → c.holds_slot ≡ false)
      → IsOrderly (renew now c)
      → IsOrderly (begin_generation o now prompt first reuse said c)
  unfolding begin_generation renew core
  begin-IsOrderly now prompt first reuse said c queue free s =
      let gen = suc c.generation in
      let k = s.sound in
      if_cases IsOrderly (o.has_acquire && not reuse)
        (λ asks. record {
          sound = record {
            ends = k.ends;
            once = k.once;
            slots = k.slots;
            free = k.free;
            alone = λ x. ground arith;
            ordered = AreOrdered-snoc c.generation prompt first c.admissions queue;
            quiet = k.quiet;
            resuming = k.resuming;
            single = k.single;
          };
        })
        (λ goes. admitted-IsOrderly o now gen prompt first reuse said (renew now c) s)

  -- A retry keeps the turn, and the slot.
  pub retry-IsOrderly :
      (now : ℕ) (prompt : Prompt) (said : String) (c : ChildHandle)
      → c.settled_flag ≡ false
      → IsOrderly c
      → IsOrderly (begin_generation o now prompt false true said c)
  unfolding renew core
  retry-IsOrderly now prompt said c e s =
      let k = s.sound in
      begin-IsOrderly now prompt false true said c k.ordered (λ x. ground arith)
        (record {
          sound = record {
            ends = refl;
            once = λ p. ground (arith, k.once p);
            slots = k.slots;
            free = λ x. ground arith;
            alone = k.alone;
            ordered = AreOrdered-weaken c.generation c.admissions k.ordered;
            quiet = λ x. ground arith;
            resuming = λ x. sym e ∙ k.resuming x;
            single = k.single;
          };
        })

  -- A new turn has a promise of its own.
  pub begin_turn-IsOrderly :
      (now : ℕ) (message said : String) (c : ChildHandle)
      → c.settled_flag ≡ true
      → resume_count c.waits ≡ 0
      → IsOrderly c
      → IsOrderly (begin_turn o now message said c)
  unfolding begin_turn renew core
  begin_turn-IsOrderly now message said c e alone s =
      let k = s.sound in
      let c' : ChildHandle = record c {
        stall_attempts = 0;
        run_started_at = now;
        turn = suc c.turn;
      } in
      begin-IsOrderly now (user message) false false said c' k.ordered (λ x. k.free e)
        (record {
          sound = record {
            ends = refl;
            once = λ p. ground (arith, k.once p);
            slots = k.slots;
            free = λ x. ground arith;
            alone = k.alone;
            ordered = AreOrdered-weaken c.generation c.admissions k.ordered;
            quiet = λ x. ground arith;
            resuming = λ x. absurd (omega (arith, alone));
            single = k.single;
          };
        })

  pub launch-IsOrderly :
      (now : ℕ) (prompt said : String) → IsOrderly (launch o now prompt said (new now))
  unfolding launch renew core new
  launch-IsOrderly now prompt said =
      begin-IsOrderly now (user prompt) true false said (new now) tt (λ x. refl)
        (record {
          sound = record {
            ends = refl;
            once = λ p. ground arith;
            slots = omega arith;
            free = λ x. refl;
            alone = λ x. refl;
            ordered = tt;
            quiet = λ x. ground arith;
            resuming = λ x. absurd (omega arith);
            single = omega arith;
          };
        })
