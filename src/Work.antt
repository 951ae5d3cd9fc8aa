-- ===== src/Work.antt =====
-- The index of background work of extension/src/work-index.ts: the items that the fleet line and the
-- task lists show, how finished ones are dropped, and how the live ones are counted.
--
-- An item has the fields that the index reads; those that are only displayed are left out, and so
-- are the listeners. `now` is what the clock reads.
pub mod Ages
pub mod Counting
pub mod History
pub mod Items
pub mod Retention
use pi_better_subagents.Prelude.{
  ℕ, ◌+◌, ◌-◌, Bool, true, false, not, ◌&&◌, ◌||◌, Option, none, some, List, [], ◌∷◌, ◌++◌, String,
  ◌==ₛ◌, length, take, keep, count_if, leb, ltb, if◌then◌else◌,
}
use pi_better_subagents.Prelude.Dict.{Dict, get, put, delete}

pub data WorkKind : Type 0 where
  shell monitor agent : WorkKind

pub record WorkItem : Type 0 where
  pub id : String
  pub kind : WorkKind
  pub status : String
  pub started_at : ℕ
  pub ended_at : Option ℕ
  pub counts_as_worker : Bool

-- `Partial<WorkItem>`, less the id and the kind, which a patch leaves alone. A patch can leave the end
-- as it is, set it, or clear it.
pub record ItemPatch : Type 0 where
  pub status : Option String
  pub started_at : Option ℕ
  pub ended_at : Option (Option ℕ)
  pub counts_as_worker : Option Bool

pub record WorkCounts : Type 0 where
  pub workers : ℕ
  pub subagents : ℕ
  pub monitors : ℕ

pub record WorkIndex : Type 0 where
  pub items : Dict WorkItem
  pub retain_ms : ℕ
  pub finished_cap : ℕ

abbrev pub work_retain_ms : ℕ
work_retain_ms = 600000

abbrev pub work_finished_cap : ℕ
work_finished_cap = 50

abbrev pub new : (retain_ms finished_cap : ℕ) → WorkIndex
new retain cap = record { items = []; retain_ms = retain; finished_cap = cap }

abbrev pub is_active_status : String → Bool
is_active_status status = (status ==ₛ "pending") || (status ==ₛ "running")

abbrev pub is_active : WorkItem → Bool
is_active x = is_active_status x.status

-- `item.endedAt ?? item.startedAt`.
abbrev pub ended : WorkItem → ℕ
ended x = elim x.ended_at [ none ↦ x.started_at | some t ↦ t ]

abbrev pub is_expired : (now retain_ms : ℕ) → WorkItem → Bool
is_expired now retain x = ltb (ended x + retain) now

abbrev pub values {ℓ} : {V : Type ℓ} → Dict V → List V
values [] = []
values ((k, v) ∷ m) = v ∷ values m

-- `Array.prototype.sort`, which is stable; `before a b` when the comparison is not positive.
abbrev pub insert {ℓ} : {A : Type ℓ} → (A → A → Bool) → A → List A → List A
insert before x [] = x ∷ []
insert before x (y ∷ ys) =
    let rest = insert before x ys in if before x y then x ∷ y ∷ ys else y ∷ rest

abbrev pub sort {ℓ} : {A : Type ℓ} → (A → A → Bool) → List A → List A
sort before [] = []
sort before (x ∷ xs) = insert before x (sort before xs)

abbrev pub earlier_started : WorkItem → WorkItem → Bool
earlier_started a b = leb a.started_at b.started_at

abbrev pub earlier_ended : WorkItem → WorkItem → Bool
earlier_ended a b = leb (ended a) (ended b)

abbrev pub later_ended : WorkItem → WorkItem → Bool
later_ended a b = leb (ended b) (ended a)

abbrev pub delete_all : List WorkItem → Dict WorkItem → Dict WorkItem
delete_all [] m = m
delete_all (x ∷ xs) m = delete_all xs (delete x.id m)

-- The finished items that are past the retain window, and those that are not.
abbrev pub expired_items : (now : ℕ) → WorkIndex → List WorkItem
expired_items now ix =
    keep (λ x. not (is_active x) && is_expired now ix.retain_ms x) (values ix.items)

abbrev pub finished_items : (now : ℕ) → WorkIndex → List WorkItem
finished_items now ix =
    keep (λ x. not (is_active x) && not (is_expired now ix.retain_ms x)) (values ix.items)

-- The oldest finished items over the cap: none when there are no more than the cap.
abbrev pub surplus_items : (now : ℕ) → WorkIndex → List WorkItem
surplus_items now ix =
    let finished = finished_items now ix in
    if leb (length finished) ix.finished_cap
    then []
    else take (length finished - ix.finished_cap) (sort earlier_ended finished)

unfoldable pub prune : (now : ℕ) → WorkIndex → WorkIndex
prune now ix = record ix {
  items = delete_all (surplus_items now ix) (delete_all (expired_items now ix) ix.items);
}

unfoldable pub upsert : (now : ℕ) → WorkItem → WorkIndex → WorkIndex
unfolding prune
upsert now x ix = prune now (record ix { items = put x.id x ix.items })

abbrev pub or_else {ℓ} : {A : Type ℓ} → Option A → A → A
or_else none a = a
or_else (some b) a = b

-- `{ ...cur, ...patch, id: cur.id, kind: cur.kind }`
abbrev pub apply_patch : ItemPatch → WorkItem → WorkItem
apply_patch p x = record x {
  status = or_else p.status x.status;
  started_at = or_else p.started_at x.started_at;
  ended_at = or_else p.ended_at x.ended_at;
  counts_as_worker = or_else p.counts_as_worker x.counts_as_worker;
}

unfoldable pub patch : (now : ℕ) (id : String) → ItemPatch → WorkIndex → WorkIndex × Option WorkItem
unfolding prune
patch now id p ix = elim (get id ix.items) [
  | none ↦ (ix, none)
  | some cur ↦ (
    prune now (record ix { items = put id (apply_patch p cur) ix.items }),
    some (apply_patch p cur),
  )
]

-- `list`, with the index it leaves.
unfoldable pub list : (now : ℕ) → WorkIndex → WorkIndex × List WorkItem
unfolding prune
list now ix =
    let pruned = prune now ix in
    let items = values pruned.items in
    (
      pruned,
      sort earlier_started (keep is_active items)
          ++ take ix.finished_cap (sort later_ended (keep (λ x. not (is_active x)) items)),
    )

-- A row that the manager says has ended.
abbrev pub is_stale : WorkIndex → String × String → Bool
is_stale ix (task_id, status) =
    if status ==ₛ "running"
    then false
    else elim (get task_id ix.items) [ none ↦ false | some row ↦ is_work row.kind && is_active row ]
  where
    is_work : WorkKind → Bool
    is_work agent = false
    is_work shell = true
    is_work monitor = true

-- `staleLive`, for tasks of which the id and the status are read.
unfoldable pub stale_live : WorkIndex → List (String × String) → List (String × String)
stale_live ix tasks = keep (is_stale ix) tasks

abbrev pub is_worker : WorkItem → Bool
is_worker x = of_kind x.kind
  where
    of_kind : WorkKind → Bool
    of_kind shell = x.counts_as_worker && (x.status ==ₛ "running")
    of_kind monitor = false
    of_kind agent = false

abbrev pub is_subagent : WorkItem → Bool
is_subagent x = of_kind x.kind
  where
    of_kind : WorkKind → Bool
    of_kind agent = true
    of_kind shell = false
    of_kind monitor = false

abbrev pub is_monitor : WorkItem → Bool
is_monitor x = of_kind x.kind
  where
    of_kind : WorkKind → Bool
    of_kind monitor = x.status ==ₛ "running"
    of_kind shell = false
    of_kind agent = false

-- `counts`: what the loop over the list adds up.
abbrev pub count_up : List WorkItem → WorkCounts
count_up [] = record { workers = 0; subagents = 0; monitors = 0 }
count_up (x ∷ xs) =
    let c = count_up xs in
    if not (is_active x)
    then c
    else if is_worker x
    then record c { workers = c.workers + 1 }
    else if is_subagent x
    then record c { subagents = c.subagents + 1 }
    else if is_monitor x
    then record c { monitors = c.monitors + 1 }
    else c

unfoldable pub counts : (now : ℕ) → WorkIndex → WorkIndex × WorkCounts
unfolding list
counts now ix = let listed = list now ix in (listed.0, count_up listed.1)
