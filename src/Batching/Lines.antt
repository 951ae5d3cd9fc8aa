-- ===== src/Batching/Lines.antt =====
-- The string operations of extension/src/monitor-batching.ts, over UTF-16 code units.
-- `split` is `String.prototype.split("\n")` with its last part apart, as `parts.pop()` takes it.
pub mod Laws
use pi_better_subagents.Prelude.{
  ℕ, ◌-◌, Bool, List, [], ◌∷◌, ◌++◌, length, drop, ◌==◌, if◌then◌else◌,
}

abbrev pub Text : Type 0
Text = List ℕ

abbrev pub newline : ℕ
newline = 10

abbrev pub ellipsis : ℕ
ellipsis = 8230

pub split_from : Text → Text → List Text × Text
split_from cur [] = ([], cur)
split_from cur (c ∷ s) =
    let closed = split_from [] s in
    let longer = split_from (cur ++ c ∷ []) s in
    if c == newline then (cur ∷ closed.0, closed.1) else longer

unfoldable pub split : Text → List Text × Text
unfolding split_from
split s = split_from [] s

-- `Array.prototype.join("\n")`.
unfoldable pub join : List Text → Text
join [] = []
join (x ∷ []) = x
join (x ∷ y ∷ r) = x ++ newline ∷ join (y ∷ r)

-- `text.slice(-(max - 1))`: the last `max - 1` units. `slice(-0)` is the whole text and, for
-- `max` 0, `slice(1)` drops one unit.
unfoldable pub slice_tail : ℕ → Text → Text
slice_tail max text =
    if max == 0 then drop 1 text else if max == 1 then text else drop (length text - (max - 1)) text
