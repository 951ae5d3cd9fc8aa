-- ===== src/Batching/Window.antt =====
-- `SaturationWindow` of extension/src/monitor-batching.ts. Times are milliseconds; the ratio, a
-- float in the source, is the fraction `ratio_num / ratio_den`. A time before the epoch, as
-- `now - windowMs` may be, is avoided by moving the window to the other side of the comparison.
pub mod History
use pi_better_subagents.Prelude.{
  ℕ, ◌+◌, ◌*◌, Bool, true, false, not, List, [], ◌∷◌, ◌++◌, length, count_if, ltb, leb,
  if◌then◌else◌,
}

pub record Sample : Type 0 where
  pub at : ℕ
  pub dropped : Bool

pub record SaturationWindow : Type 0 where
  pub window_ms : ℕ
  pub ratio_num : ℕ
  pub ratio_den : ℕ
  pub minimum_batches : ℕ
  pub samples : List Sample

unfoldable pub new : ℕ → ℕ → ℕ → ℕ → SaturationWindow
new window num den minimum = record {
  window_ms = window;
  ratio_num = num;
  ratio_den = den;
  minimum_batches = minimum;
  samples = [];
}

-- The loop of `prune` and its `slice`: samples older than the window go, up to the first that
-- is not.
unfoldable pub drop_old : ℕ → ℕ → List Sample → List Sample
drop_old window now [] = []
drop_old window now (s ∷ ss) =
    let rest = drop_old window now ss in if ltb (s.at + window) now then rest else s ∷ ss

unfoldable pub prune : SaturationWindow → ℕ → SaturationWindow
unfolding drop_old
prune w now = record w { samples = drop_old w.window_ms now w.samples }

unfoldable pub record_sample : SaturationWindow → Bool → ℕ → SaturationWindow
unfolding prune
record_sample w dropped at =
    let w' = prune w at in
    record w' { samples = w'.samples ++ record { at = at; dropped = dropped } ∷ [] }

-- The verdict on the samples that `prune` retains.
unfoldable pub verdict : SaturationWindow → ℕ → List Sample → Bool
verdict w now [] = false
verdict w now (first ∷ rest) =
    let samples = first ∷ rest in
    if ltb (length samples) w.minimum_batches
    then false
    else if ltb now (first.at + w.window_ms)
    then false
    else leb (w.ratio_num * length samples) (count_if (λ s. s.dropped) samples * w.ratio_den)

unfoldable pub is_saturated : SaturationWindow → ℕ → SaturationWindow × Bool
unfolding prune verdict
is_saturated w now = let w' = prune w now in (w', verdict w' now w'.samples)
