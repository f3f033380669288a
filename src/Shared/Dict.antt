-- ===== src/Shared/Dict.antt =====
-- `Map<string, V>` as an association list in insertion order: `set` keeps a key's place, and the
-- iteration of a `Map` is the order of the list.
use Prim.Native.String.{String}
use mathlib.Core.Path.{◌≡◌, refl, subst}
use mathlib.Core.Logic.{inl, inr}
use mathlib.Core.Option.{Option, none, some}
use mathlib.Core.List.{List, [], ◌∷◌}
use native.Mathlib.Omega.{arith}
use text.Mathlib.Text.{◌==◌}
use text.Mathlib.TextEquality.{eq_iff}
use agent_life.Shared.Tests.{if◌then◌else◌, Bool-cases}
use agent_life.Shared.Lists.{length}
use Prim.Native.Nat.{suc}

module _ {ℓ} {V : Type ℓ} where
  unfoldable pub get : String → List (String × V) → Option V
  get k [] = none
  get k ((j, v) ∷ m) = if j == k then some v else get k m

  unfoldable pub set : String → V → List (String × V) → List (String × V)
  set k v [] = (k, v) ∷ []
  set k v ((j, w) ∷ m) = if j == k then (k, v) ∷ m else (j, w) ∷ set k v m

  pub get-set :
      (k j : String) (v : V) (m : List (String × V))
      → get j (set k v m) ≡ (if k == j then some v else get j m)
  unfolding get set
  get-set k j v [] = refl
  get-set k j v ((i, w) ∷ m) = ground (arith, eq_iff k j, eq_iff i k, eq_iff i j, get-set k j v m)

-- A property of every entry, by key and value, is read by `get` and kept by `set`.
module _ {ℓ κ} {V : Type ℓ} (P : String → V → Type κ) where
  abbrev pub Entries : List (String × V) → Type κ
  Entries [] = Unit
  Entries ((k, v) ∷ m) = P k v × Entries m

  pub Entries-get :
      (k : String) (m : List (String × V)) {v : V} → Entries m → get k m ≡ some v → P k v
  unfolding get
  Entries-get k [] h e = absurd (ground arith)
  Entries-get k ((j, w) ∷ m) {v} (p, h) e = elim (Bool-cases (j == k)) [
    | inl hit ↦ subst (λ x. P x v) ((eq_iff j k).0 hit) (subst (P j) (ground arith) p)
    | inr miss ↦ Entries-get k m h (ground arith)
  ]

  pub Entries-set :
      (k : String) (v : V) (m : List (String × V)) → Entries m → P k v → Entries (set k v m)
  unfolding set
  Entries-set k v [] h p = (p, tt)
  Entries-set k v ((j, w) ∷ m) (q, h) p = elim (Bool-cases (j == k)) [
    | inl hit ↦ rw (hit, set) (p, h)
    | inr miss ↦ rw (miss, set) (q, Entries-set k v m h p)
  ]

-- The keys of a `Map` are distinct.
module _ {ℓ} {V : Type ℓ} where
  abbrev pub Distinct : List (String × V) → Type ℓ
  Distinct [] = Unit
  Distinct ((k, _) ∷ m) = (get k m ≡ none) × Distinct m

  unfoldable pub remove : String → List (String × V) → List (String × V)
  remove k [] = []
  remove k ((j, w) ∷ m) = if j == k then m else (j, w) ∷ remove k m

  pub get-remove :
      (k j : String) (m : List (String × V))
      → Distinct m
      → get j (remove k m) ≡ (if k == j then none else get j m)
  unfolding get remove
  get-remove k j [] d = ground arith
  get-remove k j ((i, w) ∷ m) (free, d) =
      ground (arith, eq_iff k j, eq_iff i k, eq_iff i j, get-remove k j m d)

  pub length-remove :
      (k : String) (m : List (String × V)) {v : V}
      → get k m ≡ some v
      → length m ≡ suc (length (remove k m))
  unfolding get remove
  length-remove k [] h = absurd (ground arith)
  length-remove k ((j, w) ∷ m) {v} h = ground (arith, length-remove k m {v = v})

  pub Distinct-remove : (k : String) (m : List (String × V)) → Distinct m → Distinct (remove k m)
  unfolding remove
  Distinct-remove k [] d = tt
  Distinct-remove k ((j, w) ∷ m) (free, d) = elim (Bool-cases (j == k)) [
    | inl hit ↦ rw (hit, remove) d
    | inr miss ↦
        rw (miss, remove) (ground (arith, get-remove k j m d, eq_iff k j), Distinct-remove k m d)
  ]

  pub Distinct-set :
      (k : String) (v : V) (m : List (String × V)) → Distinct m → Distinct (set k v m)
  unfolding get set
  Distinct-set k v [] d = (refl, tt)
  Distinct-set k v ((j, w) ∷ m) (free, d) = elim (Bool-cases (j == k)) [
    | inl hit ↦ rw (hit, set) (ground (arith, eq_iff j k), d)
    | inr miss ↦
        rw (miss, set)
          (ground (arith, get-set k j v m, eq_iff k j, eq_iff j k), Distinct-set k v m d)
  ]
