-- ===== src/Authorization/Snapshots.antt =====
-- The comparison of revision snapshots, against equality of the maps that they carry.
use agent_life.Shared.{
  ℕ, ◌≡◌, ◌↔◌, refl, sym, ◌∙◌, String, true, none, some, List, [], ◌∷◌, arith, eq_iff, eq_refl,
  length,
}
use agent_life.Shared.Dict.{get, Distinct, remove, get-remove, length-remove, Distinct-remove}
use agent_life.Authorization.{RevisionSnapshot}
use agent_life.Authorization.Step.{all_revisions, revisions_equal}

abbrev Scopes : Type 0
Scopes = List (String × ℕ)

all_revisions-remove :
    (k : String) (l r : Scopes)
    → Distinct r
    → get k l ≡ none
    → all_revisions l r ≡ true
    → all_revisions l (remove k r) ≡ true
unfolding get
all_revisions-remove k [] r d free h = refl
all_revisions-remove k ((j, n) ∷ l) r d free h =
    ground (arith, get-remove k j r d, eq_iff k j, eq_iff j k, all_revisions-remove k l r d)

-- With as many entries, a map whose entries all stand in another one is that map.
all_revisions-get :
    (l r : Scopes) (j : String)
    → Distinct l
    → Distinct r
    → length l ≡ length r
    → all_revisions l r ≡ true
    → get j l ≡ get j r
unfolding get
all_revisions-get [] [] j _ _ n h = refl
all_revisions-get [] (_ ∷ _) j _ _ n h = absurd (ground arith)
all_revisions-get ((k, v) ∷ l) r j (free, d) d' n h =
    let found : get k r ≡ some v = ground arith in
    let rest =
      all_revisions-get l (remove k r) j d (Distinct-remove k r d')
        (ground (arith, length-remove k r found))
        (all_revisions-remove k l r d' free (ground arith)) in
    ground (arith, rest, found, get-remove k j r d', eq_iff k j)

get-all_revisions :
    (l r : Scopes)
    → Distinct l
    → ((j : String) (v : ℕ) → get j l ≡ some v → get j r ≡ some v)
    → all_revisions l r ≡ true
unfolding get
get-all_revisions [] r _ h = refl
get-all_revisions ((k, v) ∷ l) r (free, d) h =
    let here : get k r ≡ some v = h k v (ground (arith, eq_refl k)) in
    let rest = get-all_revisions l r d (λ j w e. h j w (ground (arith, eq_iff k j))) in ground arith

same_length :
    (l r : Scopes)
    → Distinct l
    → Distinct r
    → ((j : String) → get j l ≡ get j r)
    → length l ≡ length r
unfolding get
same_length [] [] _ _ h = refl
same_length [] ((k, v) ∷ r) _ _ h = absurd (ground (arith, h k, eq_refl k))
same_length ((k, v) ∷ l) r (free, d) d' h =
    let found : get k r ≡ some v = ground (arith, h k, eq_refl k) in
    let rest =
      same_length l (remove k r) d (Distinct-remove k r d')
        (λ j. ground (arith, h j, get-remove k j r d', eq_iff k j)) in
    ground (arith, length-remove k r found)

module _ (l r : RevisionSnapshot) where
  -- Two snapshots whose maps have distinct keys are equal to `revisionsEqual` exactly if they agree
  -- in pairing generation and epoch, and map every scope to the same revision.
  pub revisions_equal_iff :
      Distinct l.scope_revisions
      → Distinct r.scope_revisions
      → (revisions_equal l r ≡ true) ↔ (
          (l.pairing_generation ≡ r.pairing_generation)
          × (l.authorization_epoch ≡ r.authorization_epoch)
          × ((scope : String) → get scope l.scope_revisions ≡ get scope r.scope_revisions))
  unfolding revisions_equal
  revisions_equal_iff d d' = (
    λ h. (
      ground arith,
      ground arith,
      λ j.
          all_revisions-get l.scope_revisions r.scope_revisions j d d' (ground arith)
            (ground arith),
    ),
    λ (generation, epoch, same).
        let n = same_length l.scope_revisions r.scope_revisions d d' same in
        let every =
          get-all_revisions l.scope_revisions r.scope_revisions d (λ j v e. sym (same j) ∙ e) in
        ground arith,
  )
