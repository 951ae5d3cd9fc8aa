-- ===== src/Work/Items.antt =====
-- The map of the work index: lists in another order, and the items that a deletion leaves.
use pi_better_subagents.Prelude.{
  suc, ◌≤◌, ◌≡◌, refl, ap, ◌∙◌, Bool, true, false, not, ◌&&◌, ◌||◌, none, some, List, [], ◌∷◌,
  String, ◌==ₛ◌, eq_iff, eq_refl, length, keep, count_if, All, All-map, if◌then◌else◌, arith,
}
use pi_better_subagents.Prelude.Dict.{
  Dict, get, put, delete, get-delete, IsDistinct, delete-IsDistinct,
}
use pi_better_subagents.Work.{WorkItem, values, insert, sort, delete_all}

module _ {ℓ} {A : Type ℓ} where
  pub count_if-sort :
      (before : A → A → Bool) (p : A → Bool) (xs : List A)
      → count_if p (sort before xs) ≡ count_if p xs
  count_if-sort before p [] = refl
  count_if-sort before p (x ∷ xs) =
      ground (arith, count_if-insert x (sort before xs), count_if-sort before p xs)
    where
      count_if-insert :
          (x : A) (ys : List A)
          → count_if p (insert before x ys) ≡ (if p x then suc (count_if p ys) else count_if p ys)
      count_if-insert x [] = refl
      count_if-insert x (y ∷ ys) = ground (arith, count_if-insert x ys)

  pub length-sort : (before : A → A → Bool) (xs : List A) → length (sort before xs) ≡ length xs
  length-sort before [] = refl
  length-sort before (x ∷ xs) = length-insert x (sort before xs) ∙ ap suc (length-sort before xs)
    where
      length-insert : (x : A) (ys : List A) → length (insert before x ys) ≡ suc (length ys)
      length-insert x [] = refl
      length-insert x (y ∷ ys) = ground (arith, length-insert x ys)

  pub All-sort {κ} :
      (P : A → Type κ) (before : A → A → Bool) (xs : List A) → All P xs → All P (sort before xs)
  All-sort P before [] h = tt
  All-sort P before (x ∷ xs) (h, hs) = All-insert x (sort before xs) h (All-sort P before xs hs)
    where
      All-insert : (x : A) (ys : List A) → P x → All P ys → All P (insert before x ys)
      All-insert x [] hx h = (hx, tt)
      All-insert x (y ∷ ys) hx (hy, h) = ground (arith, All-insert x ys hx h)

  -- What `filter` keeps passes its test.
  pub All-kept {κ} :
      (P : A → Type κ) (q : A → Bool) (xs : List A)
      → All P xs
      → All (λ x. P x × (q x ≡ true)) (keep q xs)
  All-kept P q [] h = tt
  All-kept P q (x ∷ xs) (h, hs) = ground (arith, All-kept P q xs hs)

  pub count_if-keep :
      (p q : A → Bool) (xs : List A) → count_if p (keep q xs) ≡ count_if (λ x. q x && p x) xs
  count_if-keep p q [] = refl
  count_if-keep p q (x ∷ xs) = ground (arith, count_if-keep p q xs)

  -- A test that holds where the other one does counts no fewer.
  pub count_if-le_of :
      (p q : A → Bool) (xs : List A)
      → All (λ x. p x ≡ true → q x ≡ true) xs
      → count_if p xs ≤ count_if q xs
  count_if-le_of p q [] h = ground arith
  count_if-le_of p q (x ∷ xs) (h, hs) = ground (arith, count_if-le_of p q xs hs, h)

  pub count_if-zero : (p : A → Bool) (xs : List A) → All (λ x. p x ≡ false) xs → count_if p xs ≡ 0
  count_if-zero p [] h = refl
  count_if-zero p (x ∷ xs) (h, hs) = ground (arith, count_if-zero p xs hs, h)

-- Is there an item with this id?
abbrev pub is_in : String → List WorkItem → Bool
is_in id [] = false
is_in id (x ∷ xs) = (x.id ==ₛ id) || is_in id xs

-- Every item stands under its own id.
abbrev pub IsKeyed : Dict WorkItem → Type 0
IsKeyed m = All (λ e. e.0 ≡ e.1.id) m

pub put-IsKeyed :
    (k : String) (x : WorkItem) (m : Dict WorkItem) → k ≡ x.id → IsKeyed m → IsKeyed (put k x m)
unfolding put
put-IsKeyed k x [] e h = (e, tt)
put-IsKeyed k x ((j, y) ∷ m) e (h, hs) = ground (arith, put-IsKeyed k x m e hs)

pub delete-IsKeyed : (k : String) (m : Dict WorkItem) → IsKeyed m → IsKeyed (delete k m)
unfolding delete
delete-IsKeyed k [] h = tt
delete-IsKeyed k ((j, y) ∷ m) (h, hs) = ground (arith, delete-IsKeyed k m hs)

pub delete_all-IsKeyed :
    (ds : List WorkItem) (m : Dict WorkItem) → IsKeyed m → IsKeyed (delete_all ds m)
delete_all-IsKeyed [] m h = h
delete_all-IsKeyed (x ∷ ds) m h = delete_all-IsKeyed ds (delete x.id m) (delete-IsKeyed x.id m h)

pub delete_all-IsDistinct :
    (ds : List WorkItem) (m : Dict WorkItem) → IsDistinct m → IsDistinct (delete_all ds m)
delete_all-IsDistinct [] m h = h
delete_all-IsDistinct (x ∷ ds) m h =
    delete_all-IsDistinct ds (delete x.id m) (delete-IsDistinct x.id m h)

pub get-delete_all :
    (id : String) (ds : List WorkItem) (m : Dict WorkItem)
    → get id (delete_all ds m) ≡ (if is_in id ds then none else get id m)
get-delete_all id [] m = refl
get-delete_all id (x ∷ ds) m =
    ground (arith, get-delete_all id ds (delete x.id m), get-delete x.id id m)

pub count_if-ext {ℓ} :
    {A : Type ℓ} (p q : A → Bool) (xs : List A)
    → ((x : A) → p x ≡ q x)
    → count_if p xs ≡ count_if q xs
count_if-ext p q [] h = refl
count_if-ext p q (x ∷ xs) h = ground (arith, h x, count_if-ext p q xs h)

count-delete :
    (p : WorkItem → Bool) (k : String) (m : Dict WorkItem)
    → IsKeyed m
    → count_if p (values (delete k m)) ≡ count_if (λ x. p x && not (k ==ₛ x.id)) (values m)
unfolding delete
count-delete p k [] h = refl
count-delete p k ((j, y) ∷ m) (h, hs) =
    ground (arith, count-delete p k m hs, eq_iff j k, eq_iff k y.id)

pub count-delete_all :
    (p : WorkItem → Bool) (ds : List WorkItem) (m : Dict WorkItem)
    → IsKeyed m
    → count_if p (values (delete_all ds m)) ≡ count_if (λ x. p x && not (is_in x.id ds)) (values m)
count-delete_all p [] m h = count_if-ext p _ (values m) (λ x. ground arith)
count-delete_all p (d ∷ ds) m h =
    count-delete_all p ds (delete d.id m) (delete-IsKeyed d.id m h)
    ∙ count-delete (λ x. p x && not (is_in x.id ds)) d.id m h
    ∙ count_if-ext _ _ (values m) (λ x. ground arith)

-- An item that a deletion leaves is none of the deleted ones.
pub All-delete_all {κ} :
    (P : WorkItem → Type κ) (ds : List WorkItem) (m : Dict WorkItem)
    → IsKeyed m
    → All P (values m)
    → All (λ x. P x × (is_in x.id ds ≡ false)) (values (delete_all ds m))
unfolding delete
All-delete_all P [] m h hp = All-map (values m) (λ x h. (h, refl)) hp
All-delete_all P (d ∷ ds) m h hp =
    All-map (values (delete_all ds (delete d.id m))) (λ x h. (h.0.0, ground (arith, h.1, h.0.1)))
      (All-delete_all (λ x. P x × ((d.id ==ₛ x.id) ≡ false)) ds (delete d.id m)
        (delete-IsKeyed d.id m h) (deleted m h hp))
  where
    deleted :
        (m : Dict WorkItem)
        → IsKeyed m
        → All P (values m)
        → All (λ x. P x × ((d.id ==ₛ x.id) ≡ false)) (values (delete d.id m))
    deleted [] h hp = tt
    deleted ((j, y) ∷ m) (h, hs) (hp, hps) =
        ground (arith, deleted m hs hps, eq_iff j d.id, eq_iff d.id y.id, h, hp)

-- The kept items cover those that pass the test.
pub keep-covers :
    (q : WorkItem → Bool) (xs : List WorkItem)
    → All (λ x. q x ≡ true → is_in x.id (keep q xs) ≡ true) xs
keep-covers q [] = tt
keep-covers q (x ∷ xs) = (
  λ e. ground (arith, e, eq_refl x.id),
  All-map xs (λ y f e. ground (arith, f e)) (keep-covers q xs),
)

-- An item of the map is what its id finds.
pub get-values :
    (m : Dict WorkItem) → IsDistinct m → IsKeyed m → All (λ x. get x.id m ≡ some x) (values m)
unfolding get
get-values [] d h = tt
get-values ((j, y) ∷ m) (d, ds) (h, hs) =
    (ground (arith, eq_iff j y.id, h), All-map (values m) (λ x e. later x e) (get-values m ds hs))
  where
    later : (x : WorkItem) → get x.id m ≡ some x → get x.id ((j, y) ∷ m) ≡ some x
    later x e = ground (arith, eq_iff j x.id, d, e)
