-- ===== src/Batching/Window/History.antt =====
-- The verdict of `SaturationWindow` of extension/src/monitor-batching.ts and its history of
-- samples.
use pi_better_subagents.Prelude.{
  ℕ, ◌+◌, ◌≤◌, ◌≡◌, refl, ap, ◌∙◌, Bool, true, not, List, [], ◌∷◌, ◌++◌, All, keep, ltb, arith,
  append_assoc, append-nil,
}
use pi_better_subagents.Batching.Window.{
  Sample, SaturationWindow, new, drop_old, prune, record_sample, verdict, is_saturated,
}

-- The samples come in the order of their times, none before `t`.
abbrev pub IsSorted : ℕ → List Sample → Type 0
IsSorted t [] = Unit
IsSorted t (s ∷ ss) = (t ≤ s.at) × IsSorted s.at ss

-- Within the window at a time.
abbrev pub is_live : ℕ → ℕ → Sample → Bool
is_live window now s = not (ltb (s.at + window) now)

keep_all :
    (window now t : ℕ) (ss : List Sample)
    → now ≤ t + window
    → IsSorted t ss
    → keep (is_live window now) ss ≡ ss
keep_all window now t [] h sorted = refl
keep_all window now t (s ∷ ss) h (le, sorted) =
    ground (arith, keep_all window now s.at ss (omega arith) sorted)

drop_old-keep :
    (window now t : ℕ) (ss : List Sample)
    → IsSorted t ss
    → drop_old window now ss ≡ keep (is_live window now) ss
unfolding drop_old
drop_old-keep window now t [] sorted = refl
drop_old-keep window now t (s ∷ ss) (le, sorted) = ground (
  arith,
  drop_old-keep window now s.at ss sorted,
  λ (h : now ≤ s.at + window). keep_all window now s.at ss h sorted,
)

IsSorted-weaken : (t u : ℕ) (ss : List Sample) → t ≤ u → IsSorted u ss → IsSorted t ss
IsSorted-weaken t u [] h sorted = tt
IsSorted-weaken t u (s ∷ ss) h (le, sorted) = (omega arith, sorted)

IsSorted-keep :
    (p : Sample → Bool) (t : ℕ) (ss : List Sample) → IsSorted t ss → IsSorted t (keep p ss)
IsSorted-keep p t [] sorted = tt
IsSorted-keep p t (s ∷ ss) (le, sorted) =
    let rest = IsSorted-keep p s.at ss sorted in
    ground (arith, rest, IsSorted-weaken t s.at (keep p ss))

-- A later look drops what an earlier look drops.
keep-keep :
    (window before now : ℕ) (ss : List Sample)
    → before ≤ now
    → keep (is_live window now) (keep (is_live window before) ss) ≡ keep (is_live window now) ss
keep-keep window before now [] h = refl
keep-keep window before now (s ∷ ss) h = ground (arith, keep-keep window before now ss h)

keep-append {ℓ} :
    {A : Type ℓ} (p : A → Bool) (xs ys : List A) → keep p (xs ++ ys) ≡ keep p xs ++ keep p ys
keep-append p [] ys = refl
keep-append p (x ∷ xs) ys = ground (arith, keep-append p xs ys)

-- Every sample is recorded at its own time.
abbrev pub record_all : SaturationWindow → List Sample → SaturationWindow
record_all w [] = w
record_all w (s ∷ ss) = record_all (record_sample w s.dropped s.at) ss

abbrev pub latest : ℕ → List Sample → ℕ
latest t [] = t
latest t (s ∷ ss) = latest s.at ss

IsSorted-snoc :
    (u t : ℕ) (s : Sample) (ss : List Sample)
    → IsSorted u ss
    → All (λ x. x.at ≤ t) ss
    → u ≤ s.at
    → t ≤ s.at
    → IsSorted u (ss ++ s ∷ [])
IsSorted-snoc u t s [] sorted below le h = (le, tt)
IsSorted-snoc u t s (x ∷ ss) (le', sorted) (b, below) le h =
    (le', IsSorted-snoc x.at t s ss sorted below (omega arith) h)

All-le-snoc :
    (t : ℕ) (s : Sample) (ss : List Sample)
    → All (λ x. x.at ≤ t) ss
    → t ≤ s.at
    → All (λ x. x.at ≤ s.at) (ss ++ s ∷ [])
All-le-snoc t s [] below h = (omega arith, tt)
All-le-snoc t s (x ∷ ss) (b, below) h = (omega arith, All-le-snoc t s ss below h)

-- Looking at a sorted list of retained samples again is looking at the history.
drop_old-history :
    (window before now : ℕ) (hist : List Sample)
    → before ≤ now
    → IsSorted 0 hist
    → drop_old window now (keep (is_live window before) hist) ≡ keep (is_live window now) hist
drop_old-history window before now hist h sorted =
    drop_old-keep window now 0 _ (IsSorted-keep (is_live window before) 0 hist sorted)
    ∙ keep-keep window before now hist h

record_sample-history :
    (w : SaturationWindow) (t : ℕ) (hist : List Sample) (s : Sample)
    → w.samples ≡ keep (is_live w.window_ms t) hist
    → IsSorted 0 hist
    → t ≤ s.at
    → record_sample w s.dropped s.at
      ≡ record w { samples = keep (is_live w.window_ms s.at) (hist ++ s ∷ []) }
unfolding record_sample prune
record_sample-history w t hist s e sorted h = ground (
  arith,
  ap (drop_old w.window_ms s.at) e,
  drop_old-history w.window_ms t s.at hist h sorted,
  keep-append (is_live w.window_ms s.at) hist (s ∷ []),
)

record_all-history :
    (w : SaturationWindow) (t : ℕ) (hist ss : List Sample)
    → w.samples ≡ keep (is_live w.window_ms t) hist
    → IsSorted 0 hist
    → All (λ x. x.at ≤ t) hist
    → IsSorted t ss
    → record_all w ss ≡ record w { samples = keep (is_live w.window_ms (latest t ss)) (hist ++ ss) }
record_all-history w t hist [] e sorted below later =
    rw (append-nil hist) (λ i. record w { samples = e i })
record_all-history w t hist (s ∷ ss) e sorted below (h, later) =
    let hist' = hist ++ s ∷ [] in
    ap (λ v. record_all v ss) (record_sample-history w t hist s e sorted h)
    ∙ record_all-history (record w { samples = keep (is_live w.window_ms s.at) hist' }) s.at hist'
        ss refl (IsSorted-snoc 0 t s hist sorted below (omega arith) h)
        (All-le-snoc t s hist below h) later
    ∙ rw (append_assoc hist (s ∷ []) ss) refl

-- The verdict reads only the settings and the given samples.
verdict-settings :
    (w : SaturationWindow) (now : ℕ) (kept ss : List Sample)
    → verdict (record w { samples = kept }) now ss ≡ verdict w now ss
unfolding verdict
verdict-settings w now kept [] = refl
verdict-settings w now kept (s ∷ ss) = refl

is_saturated_of_kept :
    (w : SaturationWindow) (before now : ℕ) (hist : List Sample)
    → before ≤ now
    → IsSorted 0 hist
    → w.samples ≡ keep (is_live w.window_ms before) hist
    → (is_saturated w now).1 ≡ verdict w now (keep (is_live w.window_ms now) hist)
unfolding is_saturated prune
is_saturated_of_kept w before now hist h sorted e =
    ap (λ ss. verdict (record w { samples = ss }) now ss)
      (ap (drop_old w.window_ms now) e ∙ drop_old-history w.window_ms before now hist h sorted)
    ∙ verdict-settings w now (drop_old w.window_ms now w.samples)
        (keep (is_live w.window_ms now) hist)

-- Pruning does not change the verdict: when samples were recorded in the order of their times,
-- `is_saturated` answers as if the window kept every sample and looked, at `now`, at those of the
-- whole history that are not older than the window.
pub is_saturated-history :
    (window num den minimum : ℕ) (ss : List Sample) (now : ℕ)
    → IsSorted 0 ss
    → latest 0 ss ≤ now
    → (is_saturated (record_all (new window num den minimum) ss) now).1
      ≡ verdict (new window num den minimum) now (keep (is_live window now) ss)
unfolding new
is_saturated-history window num den minimum ss now sorted h =
    let w = new window num den minimum in
    let kept = keep (is_live window (latest 0 ss)) ss in
    ap (λ v. (is_saturated v now).1) (record_all-history w 0 [] ss refl tt tt sorted)
    ∙ is_saturated_of_kept (record w { samples = kept }) (latest 0 ss) now ss h sorted refl
    ∙ verdict-settings w now kept (keep (is_live window now) ss)

drop_old-head :
    (window now : ℕ) (ss : List Sample) (first : Sample) (rest : List Sample)
    → drop_old window now ss ≡ first ∷ rest
    → now ≤ first.at + window
unfolding drop_old
drop_old-head window now [] first rest e = cc
drop_old-head window now (s ∷ ss) first rest e =
    ground (arith, drop_old-head window now ss first rest)

verdict-old :
    (w : SaturationWindow) (now : ℕ) (ss : List Sample)
    → verdict w now ss ≡ true
    → (first : Sample) × (rest : List Sample) × (ss ≡ first ∷ rest) × (first.at + w.window_ms ≤ now)
unfolding verdict
verdict-old w now [] e = cc
verdict-old w now (s ∷ ss) e = (s, ss, refl, ground arith)

-- A window calls itself saturated only at an instant that lies exactly the length of the window
-- after the oldest retained sample.
pub is_saturated-exact :
    (w : SaturationWindow) (now : ℕ)
    → (is_saturated w now).1 ≡ true
    → (first : Sample) × (rest : List Sample) × ((is_saturated w now).0.samples ≡ first ∷ rest)
      × (first.at + w.window_ms ≡ now)
unfolding is_saturated prune
is_saturated-exact w now e =
    let (first, rest, same, old) =
      verdict-old (prune w now) now (drop_old w.window_ms now w.samples) e in
    (first, rest, same, omega (arith, old, drop_old-head w.window_ms now w.samples first rest same))
