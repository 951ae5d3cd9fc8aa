-- ===== src/Work/Retention.antt =====
-- What `prune` of extension/src/work-index.ts leaves: finished items within the cap and the window,
-- and every live item.
use pi_better_subagents.Prelude.{
  ℕ, zero, suc, ◌+◌, ◌-◌, ◌≤◌, ◌≡◌, refl, ap, Bool, true, false, not, ◌&&◌, ◌||◌, some, List, [],
  ◌∷◌, ◌++◌, String, eq_iff, eq_refl, length, take, drop, count_if, count_if-append, length-drop,
  count_if-le, All, All-map, All-take, All-map, if◌then◌else◌, if_both, leb, arith,
}
use pi_better_subagents.Prelude.Dict.{Dict, get, put, IsDistinct, put-IsDistinct}
use pi_better_subagents.Work.{
  WorkItem, WorkIndex, values, sort, delete_all, is_active, is_expired, ended, earlier_ended,
  expired_items, finished_items, surplus_items, prune,
}
use pi_better_subagents.Work.Items.{
  count_if-sort, length-sort, All-sort, All-kept, count_if-keep, count_if-le_of, count_if-zero,
  is_in, IsKeyed, put-IsKeyed, delete_all-IsKeyed, delete_all-IsDistinct, get-delete_all,
  count-delete_all, All-delete_all, keep-covers, get-values,
}

abbrev pub is_finished : WorkItem → Bool
is_finished x = not (is_active x)

pub record IsSound (ix : WorkIndex) : Type 0 where
  pub distinct : IsDistinct ix.items
  pub keyed : IsKeyed ix.items

take-drop {ℓ} : {A : Type ℓ} (n : ℕ) (xs : List A) → take n xs ++ drop n xs ≡ xs
take-drop zero xs = refl
take-drop (suc n) [] = refl
take-drop (suc n) (x ∷ xs) = ap (λ ys. x ∷ ys) (take-drop n xs)

-- Every item of a list is in it.
All-is_in : (xs : List WorkItem) → All (λ x. is_in x.id xs ≡ true) xs
All-is_in [] = tt
All-is_in (x ∷ xs) =
    (ground (arith, eq_refl x.id), All-map xs (λ y e. ground (arith, e)) (All-is_in xs))

-- Without its first items a list has no more than the others.
count-not_in :
    (n : ℕ) (xs : List WorkItem) → count_if (λ x. not (is_in x.id (take n xs))) xs ≤ length xs - n
count-not_in n xs =
    let front = take n xs in
    let q : WorkItem → Bool = λ x. not (is_in x.id front) in
    let none_left =
      count_if-zero q front (All-map front (λ x e. ground (arith, e)) (All-is_in front)) in
    omega (
      arith,
      none_left,
      count_if-append q front (drop n xs),
      ap (count_if q) (take-drop n xs),
      count_if-le q (drop n xs),
      length-drop n xs,
    )

surplus-bound :
    (now : ℕ) (ix : WorkIndex)
    → count_if (λ x. not (is_in x.id (surplus_items now ix))) (finished_items now ix)
      ≤ ix.finished_cap
surplus-bound now ix = by_cases (leb (length finished) ix.finished_cap) refl
  where
    finished : List WorkItem
    finished = finished_items now ix

    ordered : List WorkItem
    ordered = sort earlier_ended finished

    over : ℕ
    over = length finished - ix.finished_cap

    by_cases :
        (b : Bool)
        → leb (length finished) ix.finished_cap ≡ b
        → count_if (λ x. not (is_in x.id (if b then [] else take over ordered))) finished
          ≤ ix.finished_cap
    by_cases true e =
        ground (arith, e, count_if-le (λ (x : WorkItem). not (is_in x.id [])) finished)
    by_cases false e = ground (
      arith,
      e,
      count-not_in over ordered,
      length-sort earlier_ended finished,
      count_if-sort earlier_ended (λ x. not (is_in x.id (take over ordered))) finished,
    )

-- At most the cap of finished items are left.
pub prune-bound :
    (now : ℕ) (ix : WorkIndex)
    → IsSound ix
    → count_if is_finished (values (prune now ix).items) ≤ ix.finished_cap
unfolding prune
prune-bound now ix s =
    let expired = expired_items now ix in
    let surplus = surplus_items now ix in
    let live = delete_all expired ix.items in
    let p : WorkItem → Bool = λ x. is_finished x && not (is_in x.id surplus) in
    let left : WorkItem → Bool = λ x. not (is_in x.id surplus) in
    let fresh : WorkItem → Bool = λ x. is_finished x && not (is_expired now ix.retain_ms x) in
    omega (
      arith,
      count-delete_all is_finished surplus live (delete_all-IsKeyed expired ix.items s.keyed),
      count-delete_all p expired ix.items s.keyed,
      count_if-le_of (λ x. p x && not (is_in x.id expired)) (λ x. fresh x && left x)
          (values ix.items)
          (All-map (values ix.items) (λ x f e. ground (arith, f, e))
            (keep-covers (λ x. is_finished x && is_expired now ix.retain_ms x) (values ix.items))),
      count_if-keep left fresh (values ix.items),
      surplus-bound now ix,
    )

-- What is left is within the window.
pub prune-fresh :
    (now : ℕ) (ix : WorkIndex)
    → IsSound ix
    → All
        (λ x. (is_active x || leb now (ended x + ix.retain_ms)) ≡ true)
        (values (prune now ix).items)
unfolding prune
prune-fresh now ix s =
    let expired = expired_items now ix in
    let live = delete_all expired ix.items in
    let q : WorkItem → Bool = λ x. is_finished x && is_expired now ix.retain_ms x in
    All-map (values (prune now ix).items) (λ x h. ground (arith, h.0.0, h.0.1))
      (All-delete_all _ (surplus_items now ix) live (delete_all-IsKeyed expired ix.items s.keyed)
        (All-delete_all _ expired ix.items s.keyed (keep-covers q (values ix.items))))

-- A live item is not among finished ones.
pub not_in_finished :
    (id : String) (x : WorkItem) (m : Dict WorkItem) (ds : List WorkItem)
    → get id m ≡ some x
    → is_active x ≡ true
    → All (λ y. (get y.id m ≡ some y) × (is_finished y ≡ true)) ds
    → is_in id ds ≡ false
not_in_finished id x m [] e live h = refl
not_in_finished id x m (d ∷ ds) e live (h, hs) =
    ground (arith, not_in_finished id x m ds e live hs, eq_iff d.id id, e, live, h)

-- A finished item of the map.
abbrev pub IsOver : Dict WorkItem → WorkItem → Type 0
IsOver m y = (get y.id m ≡ some y) × (is_finished y ≡ true)

pub expired-IsOver :
    (now : ℕ) (ix : WorkIndex) → IsSound ix → All (IsOver ix.items) (expired_items now ix)
expired-IsOver now ix s =
    All-map (expired_items now ix) (λ y h. (h.0, ground (arith, h.1)))
      (All-kept _ _ (values ix.items) (get-values ix.items s.distinct s.keyed))

pub surplus-IsOver :
    (now : ℕ) (ix : WorkIndex) → IsSound ix → All (IsOver ix.items) (surplus_items now ix)
surplus-IsOver now ix s =
    let finished : All (IsOver ix.items) (finished_items now ix) =
      All-map (finished_items now ix) (λ y h. (h.0, ground (arith, h.1)))
        (All-kept _ _ (values ix.items) (get-values ix.items s.distinct s.keyed)) in
    if_both (All (IsOver ix.items)) (leb (length (finished_items now ix)) ix.finished_cap) tt (
      All-take (IsOver ix.items) _ _
        (All-sort (IsOver ix.items) earlier_ended (finished_items now ix) finished))

-- Every live item stays as it is.
pub prune-live :
    (now : ℕ) (ix : WorkIndex) (id : String) (x : WorkItem)
    → IsSound ix
    → get id ix.items ≡ some x
    → is_active x ≡ true
    → get id (prune now ix).items ≡ some x
unfolding prune
prune-live now ix id x s e live = ground (
  arith,
  get-delete_all id (surplus_items now ix) (delete_all (expired_items now ix) ix.items),
  get-delete_all id (expired_items now ix) ix.items,
  not_in_finished id x ix.items (expired_items now ix) e live (expired-IsOver now ix s),
  not_in_finished id x ix.items (surplus_items now ix) e live (surplus-IsOver now ix s),
  e,
)

pub prune-IsSound : (now : ℕ) (ix : WorkIndex) → IsSound ix → IsSound (prune now ix)
unfolding prune
prune-IsSound now ix s =
    let expired = expired_items now ix in
    let surplus = surplus_items now ix in
    record {
      distinct =
          delete_all-IsDistinct surplus (delete_all expired ix.items)
            (delete_all-IsDistinct expired ix.items s.distinct);
      keyed =
          delete_all-IsKeyed surplus (delete_all expired ix.items)
            (delete_all-IsKeyed expired ix.items s.keyed);
    }

pub put-IsSound :
    (k : String) (x : WorkItem) (ix : WorkIndex)
    → k ≡ x.id
    → IsSound ix
    → IsSound (record ix { items = put k x ix.items })
put-IsSound k x ix e s = record {
  distinct = put-IsDistinct k x ix.items s.distinct;
  keyed = put-IsKeyed k x ix.items e s.keyed;
}

pub get-IsKeyed :
    (id : String) (x : WorkItem) (m : Dict WorkItem) → get id m ≡ some x → IsKeyed m → id ≡ x.id
unfolding get
get-IsKeyed id x [] e h = absurd (ground (arith, e))
get-IsKeyed id x ((j, y) ∷ m) e (h, hs) =
    ground (arith, eq_iff j id, e, h, λ (f : get id m ≡ some x). get-IsKeyed id x m f hs)
