-- ===== src/Shared/Sets.antt =====
-- `Set<string>` as the list of its members in insertion order.
use Prim.Native.String.{String}
use mathlib.Core.Path.{◌≡◌}
use mathlib.Core.Bool.{Bool, false, ◌||◌}
use mathlib.Core.List.{List, [], ◌∷◌}
use native.Mathlib.Omega.{arith}
use text.Mathlib.Text.{◌==◌}
use text.Mathlib.TextEquality.{eq_iff}
use agent_life.Shared.Tests.{if◌then◌else◌}

unfoldable pub has : String → List String → Bool
has k [] = false
has k (x ∷ xs) = x == k || has k xs

unfoldable pub add : String → List String → List String
add k [] = k ∷ []
add k (x ∷ xs) = if x == k then x ∷ xs else x ∷ add k xs

-- `new Set(values)`.
unfoldable pub of_list : List String → List String
unfolding add
of_list values = onto [] values
  where
    onto : List String → List String → List String
    onto members [] = members
    onto members (v ∷ vs) = onto (add v members) vs

pub has-add : (k j : String) (xs : List String) → has j (add k xs) ≡ ((k == j) || has j xs)
unfolding has add
has-add k j [] = ground arith
has-add k j (x ∷ xs) = ground (arith, has-add k j xs, eq_iff x k)
