-- ===== src/Runner/History.antt =====
-- A child of extension/src/subagent/runner.ts over a history of calls, answers and timers.
use pi_better_subagents.Prelude.{
  ℕ, zero, suc, ◌+◌, ◌≡◌, refl, sym, ◌∙◌, Bool, true, false, not, ◌&&◌, ◌||◌, Option, none, some,
  List, [], ◌∷◌, ◌++◌, String, get_elem?, count_if, ◌==◌, is_some, if◌then◌else◌, if_cases, if_both,
  arith,
}
use pi_better_subagents.Subagent.{ResultStatus, is_terminal}
use pi_better_subagents.Runner.{
  Options, Session, Wait, retry_wait, resume_wait, ChildHandle, ended, partial_text, after_stall,
  new,
}
use pi_better_subagents.Runner.Activity.{
  on_tool_start, on_tool_end, on_other_event, pause_stall, resume_stall,
}
use pi_better_subagents.Runner.Begin.{on_admission, on_created, launch}
use pi_better_subagents.Runner.Lifecycle.{
  HandleError, on_prompt_end, on_idle, on_prompt_error, fire_timeout, fire_stall, fire_retry,
  end_wait, resume, interrupt, dispose,
}
use pi_better_subagents.Runner.Turns.{
  core, IsOrderly, is_resume, resume_count, resume_count-snoc, to_ℕ, expected, resolve_count,
  settle-IsOrderly,
}
use pi_better_subagents.Runner.Generations.{retry-IsOrderly, begin_turn-IsOrderly, launch-IsOrderly}
use pi_better_subagents.Runner.Steps.{on_admission-IsOrderly}
use pi_better_subagents.Runner.Callbacks.{
  on_created-IsOrderly, on_prompt_end-IsOrderly, on_idle-IsOrderly, on_prompt_error-IsOrderly,
  fire_timeout-IsOrderly, fire_stall-IsOrderly, fire_retry-IsOrderly, interrupt-IsOrderly,
  dispose-IsOrderly, on_tool_start-IsOrderly, on_tool_end-IsOrderly, on_other_event-IsOrderly,
  pause_stall-IsOrderly, resume_stall-IsOrderly,
}

-- A call, an answer of the environment, an event of the session, or a timer.
pub data Event : Type 0 where
  answers : (now : ℕ) (denied : Option String) (said : String) → Event
  creates : (now : ℕ) → Option Session → (error said : String) → Event
  prompt_ends : (gen : ℕ) → Event
  idles : (now gen : ℕ) (failure : Option String) (said : String) → Event
  prompt_fails : (now gen : ℕ) (error said : String) → Event
  timeouts stalls retries : (now : ℕ) (said : String) → Event
  wait_ends : (now n : ℕ) (ok : Bool) (said : String) → Event
  resumes : (now : ℕ) (message said : String) → Event
  interrupts : (now : ℕ) (said : String) → Event
  disposes tool_ends others unpauses : (now : ℕ) → Event
  tool_starts pauses : Event

-- A list without one of its places.
abbrev pub remove_at {ℓ} : {A : Type ℓ} → List A → ℕ → List A
remove_at [] n = []
remove_at (x ∷ xs) zero = xs
remove_at (x ∷ xs) (suc n) = x ∷ remove_at xs n

count_if-remove_at {ℓ} :
    {A : Type ℓ} (p : A → Bool) (xs : List A) (n : ℕ) (x : A)
    → get_elem? xs n ≡ some x
    → count_if p xs ≡ count_if p (remove_at xs n) + (if p x then 1 else 0)
count_if-remove_at p [] n x e = ground arith
count_if-remove_at p (y ∷ xs) zero x e = ground arith
count_if-remove_at p (y ∷ xs) (suc n) x e = ground (arith, count_if-remove_at p xs n x e)

module _ (o : Options) where
  -- The wait at a place of the list is over.
  unfoldable pub finish_wait :
      (now n : ℕ) → (ok : Bool) → (said : String) → ChildHandle → ChildHandle
  unfolding end_wait
  finish_wait now n ok said c = elim (get_elem? c.waits n) [
    | none ↦ c
    | some w ↦ (end_wait o now ok said w (record c { waits = remove_at c.waits n })).0
  ]

  unfoldable pub step : ChildHandle → Event → ChildHandle
  step c (answers now denied said) = on_admission o now denied said c
  step c (creates now session error said) = on_created o now session error said c
  step c (prompt_ends gen) = on_prompt_end o gen c
  step c (idles now gen failure said) = on_idle o now gen failure said c
  step c (prompt_fails now gen error said) = on_prompt_error o now gen error said c
  step c (timeouts now said) = fire_timeout o now said c
  step c (stalls now said) = fire_stall o now said c
  step c (retries now said) = fire_retry o now said c
  step c (wait_ends now n ok said) = finish_wait now n ok said c
  step c (resumes now message said) = (resume o now message said c).0
  step c (interrupts now said) = interrupt o now said c
  step c (disposes now) = dispose o now c
  step c (tool_ends now) = on_tool_end o now c
  step c (others now) = on_other_event o now c
  step c (unpauses now) = resume_stall o now c
  step c tool_starts = on_tool_start o c
  step c pauses = pause_stall o c

  unfoldable pub run : ChildHandle → List Event → ChildHandle
  run c [] = c
  run c (e ∷ es) = run (step c e) es

  -- No `resume` is called while another one waits for an abort.
  abbrev pub IsAlone : ChildHandle → Event → Type 0
  IsAlone c (resumes now message said) = resume_count c.waits ≡ 0
  IsAlone c _ = Unit

  unfoldable pub AreAlone : ChildHandle → List Event → Type 0
  AreAlone c [] = Unit
  AreAlone c (e ∷ es) = IsAlone c e × AreAlone (step c e) es

  -- A handle without one of its waits.
  remove-IsOrderly :
      (n : ℕ) (w : Wait) (c : ChildHandle)
      → get_elem? c.waits n ≡ some w
      → IsOrderly c
      → IsOrderly (record c { waits = remove_at c.waits n })
  unfolding core
  remove-IsOrderly n w c e s =
      let k = s.sound in
      let less = count_if-remove_at is_resume c.waits n w e in
      record {
        sound = record {
          ends = k.ends;
          once = k.once;
          slots = k.slots;
          free = k.free;
          alone = k.alone;
          ordered = k.ordered;
          quiet = k.quiet;
          resuming = λ x. k.resuming (omega (arith, less));
          single = omega (arith, less, k.single);
        };
      }

  end_wait-IsOrderly :
      (now : ℕ) (ok : Bool) (said : String) (w : Wait) (c : ChildHandle)
      → (is_resume w ≡ true → (c.settled_flag ≡ true) × (resume_count c.waits ≡ 0))
      → IsOrderly c
      → IsOrderly (end_wait o now ok said w c).0
  unfolding end_wait
  end_wait-IsOrderly now ok said (retry_wait gen) c h s =
      if_both (λ (x : ChildHandle × Option HandleError). IsOrderly x.0) (not ok)
        (settle-IsOrderly now gen (ended ResultStatus.failed (partial_text said c) (some "stalled"))
          c s)
        (if_cases (λ (x : ChildHandle × Option HandleError). IsOrderly x.0)
          (c.settled_flag || c.disposed || not (gen == c.generation)) (λ over. s)
          (λ live. retry-IsOrderly o now (after_stall o.stall_ms) said c (ground arith) s))
  end_wait-IsOrderly now ok said (resume_wait message) c h s =
      if_both (λ (x : ChildHandle × Option HandleError). IsOrderly x.0) (not ok) s
        (if_both (λ (x : ChildHandle × Option HandleError). IsOrderly x.0) c.disposed s
          (begin_turn-IsOrderly o now message said c (h refl).0 (h refl).1 s))

  finish_wait-IsOrderly :
      (now n : ℕ) (ok : Bool) (said : String) (c : ChildHandle)
      → IsOrderly c
      → IsOrderly (finish_wait now n ok said c)
  unfolding finish_wait core
  finish_wait-IsOrderly now n ok said c s = by_cases (get_elem? c.waits n) refl
    where
      by_cases :
          (found : Option Wait)
          → get_elem? c.waits n ≡ found
          → IsOrderly (elim found [
            | none ↦ c
            | some w ↦ (end_wait o now ok said w (record c { waits = remove_at c.waits n })).0
          ])
      by_cases none e = s
      by_cases (some w) e =
          let less = count_if-remove_at is_resume c.waits n w e in
          end_wait-IsOrderly now ok said w (record c { waits = remove_at c.waits n })
            (λ r. (s.sound.resuming (ground (arith, less)), ground (arith, less, s.sound.single)))
            (remove-IsOrderly n w c e s)

  asked-IsOrderly :
      (message : String) (c : ChildHandle)
      → c.settled_flag ≡ true
      → resume_count c.waits ≡ 0
      → IsOrderly c
      → IsOrderly (record c { aborting = false; waits = c.waits ++ resume_wait message ∷ [] })
  unfolding core
  asked-IsOrderly message c e alone s =
      let k = s.sound in
      record {
        sound = record {
          ends = k.ends;
          once = k.once;
          slots = k.slots;
          free = k.free;
          alone = k.alone;
          ordered = k.ordered;
          quiet = k.quiet;
          resuming = λ x. e;
          single = omega (arith, resume_count-snoc c.waits (resume_wait message), alone);
        };
      }

  resume-IsOrderly :
      (now : ℕ) (message said : String) (c : ChildHandle)
      → resume_count c.waits ≡ 0
      → IsOrderly c
      → IsOrderly (resume o now message said c).0
  unfolding resume core
  resume-IsOrderly now message said c alone s =
      if_cases (λ (x : ChildHandle × Option HandleError). IsOrderly x.0)
        (not (is_terminal c.status)) (λ active. s)
        (λ over.
          let e : c.settled_flag ≡ true = sym s.sound.ends ∙ ground arith in
          if_both (λ (x : ChildHandle × Option HandleError). IsOrderly x.0) c.disposed s
            (if_both (λ (x : ChildHandle × Option HandleError). IsOrderly x.0)
              (not (is_some c.session)) s
              (if_both (λ (x : ChildHandle × Option HandleError). IsOrderly x.0) c.aborting
                (asked-IsOrderly message c e alone s)
                (begin_turn-IsOrderly o now message said c e alone s))))

  step-IsOrderly : (c : ChildHandle) (e : Event) → IsAlone c e → IsOrderly c → IsOrderly (step c e)
  unfolding step
  step-IsOrderly c (answers now denied said) h s = on_admission-IsOrderly o now denied said c s
  step-IsOrderly c (creates now session error said) h s =
      on_created-IsOrderly o now session error said c s
  step-IsOrderly c (prompt_ends gen) h s = on_prompt_end-IsOrderly o gen c s
  step-IsOrderly c (idles now gen failure said) h s = on_idle-IsOrderly o now gen failure said c s
  step-IsOrderly c (prompt_fails now gen error said) h s =
      on_prompt_error-IsOrderly o now gen error said c s
  step-IsOrderly c (timeouts now said) h s = fire_timeout-IsOrderly o now said c s
  step-IsOrderly c (stalls now said) h s = fire_stall-IsOrderly o now said c s
  step-IsOrderly c (retries now said) h s = fire_retry-IsOrderly o now said c s
  step-IsOrderly c (wait_ends now n ok said) h s = finish_wait-IsOrderly now n ok said c s
  step-IsOrderly c (resumes now message said) h s = resume-IsOrderly now message said c h s
  step-IsOrderly c (interrupts now said) h s = interrupt-IsOrderly o now said c s
  step-IsOrderly c (disposes now) h s = dispose-IsOrderly o now c s
  step-IsOrderly c (tool_ends now) h s = on_tool_end-IsOrderly o now c s
  step-IsOrderly c (others now) h s = on_other_event-IsOrderly o now c s
  step-IsOrderly c (unpauses now) h s = resume_stall-IsOrderly o now c s
  step-IsOrderly c tool_starts h s = on_tool_start-IsOrderly o c s
  step-IsOrderly c pauses h s = pause_stall-IsOrderly o c s

  run-IsOrderly :
      (c : ChildHandle) (es : List Event) → AreAlone c es → IsOrderly c → IsOrderly (run c es)
  unfolding run AreAlone
  run-IsOrderly c [] h s = s
  run-IsOrderly c (e ∷ es) (h, hs) s = run-IsOrderly (step c e) es hs (step-IsOrderly c e h s)

-- Over any history of a child that is launched, in which the admission hook answers in the order of
-- asking and no `resume` is called while another one waits for an abort: the promise of every turn before the current one was resolved exactly once,
-- and that of the current turn exactly once if the child is settled, and else not yet; the child is
-- settled exactly when its status is a terminal one.
pub run-resolved :
    (o : Options) (start : ℕ) (prompt said : String) (es : List Event) (p : ℕ)
    → AreAlone o (launch o start prompt said (new start)) es
    → (resolve_count p (run o (launch o start prompt said (new start)) es).resolved
        ≡ expected p (core (run o (launch o start prompt said (new start)) es)))
      × (is_terminal (run o (launch o start prompt said (new start)) es).status
          ≡ (run o (launch o start prompt said (new start)) es).settled_flag)
unfolding core
run-resolved o start prompt said es p h =
    let s = run-IsOrderly o _ es h (launch-IsOrderly o start prompt said) in
    (s.sound.once p, s.sound.ends)

-- Over any history of a child that is launched, in which the admission hook answers in the order of
-- asking and no `resume` is called while another one waits for an abort: every slot that was granted was given back exactly once, but for one that the
-- child holds; and a child that is settled holds no slot and has no timer scope, in which its
-- timeout, stall and retry timers are set.
pub run-released :
    (o : Options) (start : ℕ) (prompt said : String) (es : List Event)
    → AreAlone o (launch o start prompt said (new start)) es
    → (let c = run o (launch o start prompt said (new start)) es in
        (c.granted ≡ c.released + to_ℕ c.holds_slot)
        × ((c.settled_flag && (c.holds_slot || is_some c.timer_scope)) ≡ false))
unfolding core
run-released o start prompt said es h =
    let s = run-IsOrderly o _ es h (launch-IsOrderly o start prompt said) in
    (s.sound.slots, ground (arith, s.sound.free, s.sound.quiet))
