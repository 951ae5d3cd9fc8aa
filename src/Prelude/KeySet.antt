-- ===== src/Prelude/KeySet.antt =====
-- A JavaScript `Set` of strings, in insertion order.
use Prim.Native.String.{String}
use mathlib.Core.Path.{◌≡◌, refl}
use mathlib.Core.Bool.{Bool, true, false}
use mathlib.Core.List.{List, [], ◌∷◌}
use native.Mathlib.Omega.{arith}
use text.Mathlib.Text.{◌==◌}
use text.Mathlib.TextEquality.{eq_iff}
use pi_better_subagents.Prelude.Tests.{if◌then◌else◌}

abbrev pub KeySet : Type 0
KeySet = List String

unfoldable pub has : String → KeySet → Bool
has k [] = false
has k (j ∷ s) = if j == k then true else has k s

unfoldable pub add : String → KeySet → KeySet
add k [] = k ∷ []
add k (j ∷ s) = if j == k then j ∷ s else j ∷ add k s

unfoldable pub delete : String → KeySet → KeySet
delete k [] = []
delete k (j ∷ s) = let rest = delete k s in if j == k then rest else j ∷ rest

pub has-add : (k j : String) (s : KeySet) → has j (add k s) ≡ (if k == j then true else has j s)
unfolding has add
has-add k j [] = refl
has-add k j (i ∷ s) = ground (arith, eq_iff k j, eq_iff i k, eq_iff i j, has-add k j s)

pub has-delete :
    (k j : String) (s : KeySet) → has j (delete k s) ≡ (if k == j then false else has j s)
unfolding has delete
has-delete k j [] = ground arith
has-delete k j (i ∷ s) = ground (arith, eq_iff k j, eq_iff i k, eq_iff i j, has-delete k j s)
