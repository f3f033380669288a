-- ===== src/Versions/Sorting.antt =====
-- The sort and the choice of its first version.
use agent_life.Shared.{
  ◌≡◌, inl, inr, refl, subst, arith, String, Bool, true, false, List, [], ◌∷◌, All, Result, ok, err,
  Bool-cases, eq_iff, eq_refl, str_eq, if◌then◌else◌,
}
use agent_life.Shared.Sets.{has}
use agent_life.Versions.{
  ProtocolVersion, VersionRegistryEntry, compare_protocol_versions, is_above, parse_all, canonicals,
  common, place, sort_onto, first_canonical, highest_common, parse_protocol_version, parse_parts,
}

-- `v` is not above `w`.
abbrev pub NotAbove : ProtocolVersion → ProtocolVersion → Type 0
NotAbove w v = is_above (compare_protocol_versions v w) ≡ false

NotAbove-trans : (u v w : ProtocolVersion) → NotAbove u v → NotAbove v w → NotAbove u w
unfolding compare_protocol_versions
NotAbove-trans u v w h k = ground arith

NotAbove-refl : (v : ProtocolVersion) → NotAbove v v
unfolding compare_protocol_versions
NotAbove-refl v = ground arith

above-NotAbove :
    (v w : ProtocolVersion) → is_above (compare_protocol_versions v w) ≡ true → NotAbove v w
unfolding compare_protocol_versions
above-NotAbove v w h = ground arith

-- The head of the sorted list, as versions are placed.
abbrev top : ProtocolVersion → List ProtocolVersion → ProtocolVersion
top h [] = h
top h (v ∷ vs) = top (if is_above (compare_protocol_versions v h) then v else h) vs

sort_onto-top :
    (h : ProtocolVersion) (ws vs : List ProtocolVersion)
    → first_canonical (sort_onto (h ∷ ws) vs) ≡ ok (top h vs).canonical
unfolding sort_onto first_canonical place
sort_onto-top h ws [] = refl
sort_onto-top h ws (v ∷ vs) = elim (Bool-cases (is_above (compare_protocol_versions v h))) [
  | inl higher ↦ rw (higher, place, top) (sort_onto-top v (h ∷ ws) vs)
  | inr lower ↦ rw (lower, place, top) (sort_onto-top h (place v ws) vs)
]

-- The new head is above neither the old one nor the version placed.
head-NotAbove :
    (h v : ProtocolVersion)
    → (let new = if is_above (compare_protocol_versions v h) then v else h in
        NotAbove new h × NotAbove new v)
head-NotAbove h v = elim (Bool-cases (is_above (compare_protocol_versions v h))) [
  | inl higher ↦ rw higher (above-NotAbove v h higher, NotAbove-refl v)
  | inr lower ↦ rw lower (NotAbove-refl h, lower)
]

top-NotAbove : (h : ProtocolVersion) (vs : List ProtocolVersion) → NotAbove (top h vs) h
top-NotAbove h [] = NotAbove-refl h
top-NotAbove h (v ∷ vs) =
    let new = if is_above (compare_protocol_versions v h) then v else h in
    NotAbove-trans (top new vs) new h (top-NotAbove new vs) (head-NotAbove h v).0

top-All : (h : ProtocolVersion) (vs : List ProtocolVersion) → All (NotAbove (top h vs)) vs
top-All h [] = tt
top-All h (v ∷ vs) =
    let new = if is_above (compare_protocol_versions v h) then v else h in
    (NotAbove-trans (top new vs) new v (top-NotAbove new vs) (head-NotAbove h v).1, top-All new vs)

-- The head is one of the versions.
top-keeps :
    (P : ProtocolVersion → Type 0) (h : ProtocolVersion) (vs : List ProtocolVersion)
    → P h
    → All P vs
    → P (top h vs)
top-keeps P h [] p ps = p
top-keeps P h (v ∷ vs) p (q, ps) =
    top-keeps P (if is_above (compare_protocol_versions v h) then v else h) vs
      (either (is_above (compare_protocol_versions v h))) ps
  where
    either : (b : Bool) → P (if b then v else h)
    either true = q
    either false = p

pub parse_protocol_version-canonical :
    (input : String) {v : ProtocolVersion}
    → parse_protocol_version input ≡ ok v
    → v.canonical ≡ input
unfolding parse_protocol_version parse_parts
parse_protocol_version-canonical input h = ground arith

canonicals-parse_all :
    (vs : List String) (ps : List ProtocolVersion) → parse_all vs ≡ ok ps → canonicals ps ≡ vs
unfolding parse_all canonicals
canonicals-parse_all [] [] h = refl
canonicals-parse_all [] (p ∷ ps) h = absurd (ground arith)
canonicals-parse_all (v ∷ vs) [] h = absurd (ground arith)
canonicals-parse_all (v ∷ vs) (p ∷ ps) h =
    let rest = canonicals-parse_all vs ps (ground arith) in
    let first = parse_protocol_version-canonical v {v = p} (ground arith) in ground arith

-- A version that was parsed from one of these texts.
abbrev From : List String → ProtocolVersion → Type 0
From texts p = (parse_protocol_version p.canonical ≡ ok p) × (has p.canonical texts ≡ true)

parse_all-From :
    (texts vs : List String) (ps : List ProtocolVersion)
    → ((x : String) → has x vs ≡ true → has x texts ≡ true)
    → parse_all vs ≡ ok ps
    → All (From texts) ps
unfolding parse_all has
parse_all-From texts vs [] sub h = tt
parse_all-From texts [] (p ∷ ps) sub h = absurd (ground arith)
parse_all-From texts (v ∷ vs) (p ∷ ps) sub h =
    let first = parse_protocol_version-canonical v {v = p} (ground arith) in
    (
      (ground arith, ground (arith, sub v, eq_refl v)),
      parse_all-From texts vs ps (λ x e. sub x (ground arith)) (ground arith),
    )

parse_all-has :
    (P : ProtocolVersion → Type 0) (vs : List String) (ps : List ProtocolVersion) (x : String)
    (v : ProtocolVersion)
    → parse_all vs ≡ ok ps
    → has x vs ≡ true
    → parse_protocol_version x ≡ ok v
    → All P ps
    → P v
unfolding parse_all has
parse_all-has P [] ps x v h at e all = absurd (ground arith)
parse_all-has P (w ∷ vs) [] x v h at e all = absurd (ground arith)
parse_all-has P (w ∷ vs) (p ∷ ps) x v h at e (q, qs) = elim (Bool-cases (str_eq w x)) [
  | inl here ↦ subst P (ground (arith, eq_iff w x)) q
  | inr there ↦ parse_all-has P vs ps x v (ground arith) (ground arith) e qs
]

-- A text that stands for a version among the texts, above which none of them is.
abbrev pub Highest : List String → String → Type 0
Highest texts selected =
    (p : ProtocolVersion) × (parse_protocol_version selected ≡ ok p)
    × (has selected texts ≡ true)
    × ((x : String) (v : ProtocolVersion)
        → has x texts ≡ true
        → parse_protocol_version x ≡ ok v
        → is_above (compare_protocol_versions v p) ≡ false)

chosen-Highest :
    (texts : List String) (cs : List ProtocolVersion) (selected : String)
    → parse_all texts ≡ ok cs
    → first_canonical (sort_onto [] cs) ≡ ok selected
    → Highest texts selected
unfolding first_canonical sort_onto place
chosen-Highest texts [] selected h e = absurd (ground arith)
chosen-Highest texts (c ∷ cs) selected h e =
    let t = top c cs in
    let (first, others) = parse_all-From texts texts (c ∷ cs) (λ x a. a) h in
    let (parsed, at) = top-keeps (From texts) c cs first others in
    let is : t.canonical ≡ selected = ground (arith, sort_onto-top c [] cs) in
    (
      t,
      subst (λ x. parse_protocol_version x ≡ ok t) is parsed,
      subst (λ x. has x texts ≡ true) is at,
      λ x v there e'.
          parse_all-has (NotAbove t) texts (c ∷ cs) x v h there e'
            (top-NotAbove c cs, top-All c cs),
    )

-- The selected version is well-formed and among the versions that are negotiable in the registry and
-- offered, none of which is higher.
pub highest_common-Highest :
    (offers : List String) (registry : List VersionRegistryEntry) (selected : String)
    → highest_common offers registry ≡ ok selected
    → Highest (common offers registry) selected
unfolding highest_common
highest_common-Highest offers registry selected h = by_offers (parse_all offers) refl
  where
    by_candidates :
        (os : List ProtocolVersion) (y : Result (List ProtocolVersion))
        → parse_all offers ≡ ok os
        → parse_all (common (canonicals os) registry) ≡ y
        → Highest (common offers registry) selected
    by_candidates os (err _) e e' = absurd (ground arith)
    by_candidates os (ok cs) e e' =
        subst (λ o. Highest (common o registry) selected) (canonicals-parse_all offers os e)
          (chosen-Highest (common (canonicals os) registry) cs selected e' (ground arith))

    by_offers :
        (x : Result (List ProtocolVersion))
        → parse_all offers ≡ x
        → Highest (common offers registry) selected
    by_offers (err _) e = absurd (ground arith)
    by_offers (ok os) e = by_candidates os (parse_all (common (canonicals os) registry)) e refl
