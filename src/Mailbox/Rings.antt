-- ===== src/Mailbox/Rings.antt =====
-- The logs of all runs of extension/src/comms/mailbox.ts, over a history of calls.
use pi_better_subagents.Prelude.{
  ℕ, ◌-◌, ◌≡◌, refl, sym, ap, ◌∙◌, Option, none, some, List, [], ◌∷◌, ◌++◌, String, ◌==ₛ◌, eq_iff,
  length, min, ◌==◌, if◌then◌else◌, Bool-cases, inl, inr, arith,
}
use pi_better_subagents.Prelude.Dict.{get, get-put, get-map_values}
use pi_better_subagents.Mailbox.{
  Kind, MailboxEntry, Mailbox, new, ring_or_empty, append, log, begin_decision, time_out,
  resolve_decision, dispose, answer, set_answer,
}
use pi_better_subagents.Mailbox.Ring.{
  last_n, last_n-snoc, last_n-last_n, drop_all, push_ring-last_n, last_n-set_answer,
}

-- A call, or the firing of a timeout.
pub data Call : Type 0 where
  appends : (now : ℕ) → (run_id from to : String) → Kind → String → Call
  begins : (now : ℕ) → (child_id name message : String) → Call
  fires : (promise : ℕ) → Call
  resolves : (child_id text : String) → Call
  answers : ℕ → String → Call
  disposes : Call

abbrev pub after_begin : Mailbox → Option (Mailbox × ℕ) → Mailbox
after_begin m none = m
after_begin m (some (m', promise)) = m'

unfoldable pub step : Mailbox → Call → Mailbox
step m (appends now run_id from to kind message) = (append m now run_id from to kind message).0
step m (begins now child_id name message) =
    after_begin m (begin_decision m now child_id name message)
step m (fires promise) = (time_out m promise).0
step m (resolves child_id text) = (resolve_decision m child_id text).0
step m (answers ref text) = answer m ref text
step m disposes = (dispose m).0

unfoldable pub run : Mailbox → List Call → Mailbox
run m [] = m
run m (c ∷ cs) = run (step m c) cs

-- Every entry that was ever appended to a run, with the replies that were set on it.
recorded_step : String → List MailboxEntry → Mailbox → Call → List MailboxEntry
recorded_step run_id es m (appends now r from to kind message) =
    if r ==ₛ run_id then es ++ (append m now r from to kind message).1 ∷ [] else es
recorded_step run_id es m (begins now child_id name message) = es
recorded_step run_id es m (fires promise) = es
recorded_step run_id es m (resolves child_id text) = es
recorded_step run_id es m (answers ref text) = set_answer ref text es
recorded_step run_id es m disposes = es

pub recorded : String → List MailboxEntry → Mailbox → List Call → List MailboxEntry
recorded run_id es m [] = es
recorded run_id es m (c ∷ cs) = recorded run_id (recorded_step run_id es m c) (step m c) cs

-- The ring of a run holds the last entries of what was recorded.
abbrev Keeps : String → List MailboxEntry → Mailbox → Type 0
Keeps run_id es m = ring_or_empty (get run_id m.rings) ≡ last_n m.capacity es

step-capacity : (m : Mailbox) (c : Call) → (step m c).capacity ≡ m.capacity
unfolding step append begin_decision time_out resolve_decision answer dispose
step-capacity m (appends now run_id from to kind message) = refl
step-capacity m (begins now child_id name message) = ground arith
step-capacity m (fires promise) = ground arith
step-capacity m (resolves child_id text) = ground arith
step-capacity m (answers ref text) = refl
step-capacity m disposes = refl

append-Keeps :
    (m : Mailbox) (now : ℕ) (r run_id from to : String) (kind : Kind) (message : String)
    → (es : List MailboxEntry) → Keeps run_id es m
    → Keeps run_id
        (recorded_step run_id es m (appends now r from to kind message))
        (append m now r from to kind message).0
unfolding append recorded_step
append-Keeps m now r run_id from to kind message es k = elim (Bool-cases (r ==ₛ run_id)) [
  | inl same ↦
      rw (get-put r run_id, same)
        (push_ring-last_n m.capacity (ring_or_empty (get r m.rings))
            (append m now r from to kind message).1
          ∙ ap (λ ring. last_n m.capacity (ring ++ (append m now r from to kind message).1 ∷ []))
              (ap (λ j. ring_or_empty (get j m.rings)) ((eq_iff r run_id).0 same) ∙ k)
          ∙ last_n-snoc m.capacity es (append m now r from to kind message).1)
  | inr other ↦ rw (get-put r run_id, other) k
]

ring_or_empty-map :
    (ref : ℕ) (text : String) (o : Option (List MailboxEntry))
    → ring_or_empty (elim o [ none ↦ none | some ring ↦ some (set_answer ref text ring) ])
      ≡ set_answer ref text (ring_or_empty o)
unfolding set_answer
ring_or_empty-map ref text none = refl
ring_or_empty-map ref text (some ring) = refl

answer-Keeps :
    (m : Mailbox) (run_id : String) (ref : ℕ) (text : String) (es : List MailboxEntry)
    → Keeps run_id es m
    → Keeps run_id (set_answer ref text es) (answer m ref text)
unfolding answer
answer-Keeps m run_id ref text es k = rw (get-map_values (set_answer ref text) run_id m.rings) (
    ring_or_empty-map ref text (get run_id m.rings)
    ∙ ap (set_answer ref text) k
    ∙ last_n-set_answer m.capacity ref text es)

step-Keeps :
    (m : Mailbox) (c : Call) (run_id : String) (es : List MailboxEntry)
    → Keeps run_id es m
    → Keeps run_id (recorded_step run_id es m c) (step m c)
unfolding step recorded_step begin_decision time_out resolve_decision dispose
step-Keeps m (appends now r from to kind message) run_id es k =
    append-Keeps m now r run_id from to kind message es k
step-Keeps m (begins now child_id name message) run_id es k = ground arith
step-Keeps m (fires promise) run_id es k = ground arith
step-Keeps m (resolves child_id text) run_id es k = ground arith
step-Keeps m (answers ref text) run_id es k = answer-Keeps m run_id ref text es k
step-Keeps m disposes run_id es k = k

run-Keeps :
    (m : Mailbox) (cs : List Call) (run_id : String) (es : List MailboxEntry)
    → Keeps run_id es m
    → Keeps run_id (recorded run_id es m cs) (run m cs)
unfolding run recorded
run-Keeps m [] run_id es k = k
run-Keeps m (c ∷ cs) run_id es k =
    run-Keeps (step m c) cs run_id (recorded_step run_id es m c) (step-Keeps m c run_id es k)

run-capacity : (m : Mailbox) (cs : List Call) → (run m cs).capacity ≡ m.capacity
unfolding run
run-capacity m [] = refl
run-capacity m (c ∷ cs) = run-capacity (step m c) cs ∙ step-capacity m c

log-last_n :
    (m : Mailbox) (run_id : String) (limit : ℕ) (es : List MailboxEntry)
    → Keeps run_id es m
    → log m run_id limit ≡ last_n (min limit m.capacity) es
unfolding log
log-last_n m run_id limit es k = elim (Bool-cases (limit == 0)) [
  | inl z ↦
      let none_left : min limit m.capacity ≡ 0 = ground arith in
      rw (z, none_left) (sym (drop_all (length es - 0) es (omega arith)))
  | inr nz ↦ rw nz (ap (last_n limit) k ∙ last_n-last_n limit m.capacity es)
]

-- Over any history of a new mailbox, the log of a run is the end of what was appended to that run,
-- with the replies set since: as many entries as the limit and the capacity both allow. What
-- happens to other runs, to decisions and to their timeouts does not show.
pub log-run :
    (capacity : ℕ) (cs : List Call) (run_id : String) (limit : ℕ)
    → log (run (new capacity) cs) run_id limit
      ≡ last_n (min limit capacity) (recorded run_id [] (new capacity) cs)
log-run capacity cs run_id limit =
    let m = run (new capacity) cs in
    let same : m.capacity ≡ capacity = run-capacity (new capacity) cs ∙ unfold new in refl in
    log-last_n m run_id limit _ (
      run-Keeps (new capacity) cs run_id []
        (unfold new get in sym (drop_all (0 - capacity) [] (omega arith))))
    ∙ ap (λ n. last_n (min limit n) (recorded run_id [] (new capacity) cs)) same
