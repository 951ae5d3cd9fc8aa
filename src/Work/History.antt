-- ===== src/Work/History.antt =====
-- The work index of extension/src/work-index.ts over a history of its operations.
use pi_better_subagents.Prelude.{
  ℕ, ◌+◌, ◌≤◌, ◌≡◌, refl, subst, ◌∙◌, true, ◌||◌, Option, none, some, List, [], ◌∷◌, String, ◌==ₛ◌,
  count_if, All, leb, if◌then◌else◌, arith,
}
use pi_better_subagents.Prelude.Dict.{get, put, get-put}
use pi_better_subagents.Work.{
  WorkItem, ItemPatch, WorkIndex, new, values, is_active, ended, prune, upsert, patch, list,
  apply_patch,
}
use pi_better_subagents.Work.Retention.{
  is_finished, IsSound, prune-bound, prune-fresh, prune-live, prune-IsSound, put-IsSound,
  get-IsKeyed,
}

pub data Event : Type 0 where
  upserts : (now : ℕ) → WorkItem → Event
  patches : (now : ℕ) (id : String) → ItemPatch → Event
  lists : (now : ℕ) → Event

unfoldable pub step : WorkIndex → Event → WorkIndex
step ix (upserts now x) = upsert now x ix
step ix (patches now id p) = (patch now id p ix).0
step ix (lists now) = (list now ix).0

unfoldable pub run : WorkIndex → List Event → WorkIndex
run ix [] = ix
run ix (e ∷ es) = run (step ix e) es

pub record IsKept (cap retain : ℕ) (ix : WorkIndex) : Type 0 where
  pub sound : IsSound ix
  pub capped : ix.finished_cap ≡ cap
  pub window : ix.retain_ms ≡ retain
  pub bound : count_if is_finished (values ix.items) ≤ cap

prune-IsKept :
    (cap retain now : ℕ) (ix : WorkIndex)
    → ix.finished_cap ≡ cap
    → ix.retain_ms ≡ retain
    → IsSound ix
    → IsKept cap retain (prune now ix)
unfolding prune
prune-IsKept cap retain now ix e w s = record {
  sound = prune-IsSound now ix s;
  capped = e;
  window = w;
  bound = omega (arith, e, prune-bound now ix s);
}

patch-IsKept :
    (cap retain now : ℕ) (id : String) (p : ItemPatch) (ix : WorkIndex)
    → IsKept cap retain ix
    → IsKept cap retain (patch now id p ix).0
unfolding patch
patch-IsKept cap retain now id p ix s = by_cases (get id ix.items) refl
  where
    by_cases :
        (found : Option WorkItem)
        → get id ix.items ≡ found
        → (let left : WorkIndex × Option WorkItem = elim found [
          | none ↦ (ix, none)
          | some cur ↦ (
            prune now (record ix { items = put id (apply_patch p cur) ix.items }),
            some (apply_patch p cur),
          )
        ] in
            IsKept cap retain left.0)
    by_cases none e = s
    by_cases (some cur) e =
        let next = apply_patch p cur in
        prune-IsKept cap retain now (record ix { items = put id next ix.items }) s.capped s.window
          (put-IsSound id next ix (get-IsKeyed id cur ix.items e s.sound.keyed) s.sound)

step-IsKept :
    (cap retain : ℕ) (ix : WorkIndex) (e : Event)
    → IsKept cap retain ix
    → IsKept cap retain (step ix e)
unfolding step upsert list
step-IsKept cap retain ix (upserts now x) s =
    prune-IsKept cap retain now (record ix { items = put x.id x ix.items }) s.capped s.window
      (put-IsSound x.id x ix refl s.sound)
step-IsKept cap retain ix (patches now id p) s = patch-IsKept cap retain now id p ix s
step-IsKept cap retain ix (lists now) s = prune-IsKept cap retain now ix s.capped s.window s.sound

pub run-IsKept :
    (cap retain : ℕ) (ix : WorkIndex) (es : List Event)
    → IsKept cap retain ix
    → IsKept cap retain (run ix es)
unfolding run
run-IsKept cap retain ix [] s = s
run-IsKept cap retain ix (e ∷ es) s =
    run-IsKept cap retain (step ix e) es (step-IsKept cap retain ix e s)

pub new-IsKept : (retain cap : ℕ) → IsKept cap retain (new retain cap)
new-IsKept retain cap = record {
  sound = record { distinct = tt; keyed = tt };
  capped = refl;
  window = refl;
  bound = ground arith;
}

-- After any history of insertions, patches and listings the index has no more finished items than
-- its cap.
pub run-bounded :
    (retain cap : ℕ) (es : List Event)
    → count_if is_finished (values (run (new retain cap) es).items) ≤ cap
run-bounded retain cap es =
    (run-IsKept cap retain (new retain cap) es (new-IsKept retain cap)).bound

-- At any point of such a history, every item is still there after an insertion that is live, be it
-- the inserted one or another one, and nothing is left that ended longer ago than the retain time.
pub upsert-live :
    (retain cap : ℕ) (es : List Event) (now : ℕ) (x : WorkItem) (id : String) (y : WorkItem)
    → (if x.id ==ₛ id then some x else get id (run (new retain cap) es).items) ≡ some y
    → is_active y ≡ true
    → (get id (upsert now x (run (new retain cap) es)).items ≡ some y)
      × All
          (λ z. (is_active z || leb now (ended z + retain)) ≡ true)
          (values (upsert now x (run (new retain cap) es)).items)
unfolding upsert
upsert-live retain cap es now x id y e live =
    let before = run (new retain cap) es in
    let kept = run-IsKept cap retain (new retain cap) es (new-IsKept retain cap) in
    let given : WorkIndex = record before { items = put x.id x before.items } in
    let given_sound : IsSound given = put-IsSound x.id x before refl kept.sound in
    (
      prune-live now given id y given_sound (get-put x.id id x before.items ∙ e) live,
      subst
          (λ r.
            All (λ z. (is_active z || leb now (ended z + r)) ≡ true)
              (values (prune now given).items))
          kept.window (prune-fresh now given given_sound),
    )
