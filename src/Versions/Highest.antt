-- ===== src/Versions/Highest.antt =====
-- The selected version is common to both sides, and no common version is higher.
use agent_life.Shared.{
  ℕ, ◌≡◌, ◌≤◌, ◌<◌, ◌⊎◌, ◌&&◌, sym, Any, inl, inr, subst, arith, String, true, List, [], ◌∷◌, ok,
  Bool-cases, eq_iff, str_eq,
}
use agent_life.Shared.Sets.{has}
use agent_life.Versions.{
  ProtocolVersion, VersionRegistryEntry, compare_protocol_versions, common, parse_protocol_version,
  ConnectHello, ConnectWelcome, VerifiedNegotiation, LockedVersionRegistry, verify_welcome,
}
use agent_life.Versions.Sorting.{NotAbove, Highest, highest_common-Highest}
use agent_life.Versions.Reading.{Reads, parse_protocol_version-Reads}

-- The entry of the registry by which a version is negotiable.
pub record Negotiable (version : String) (e : VersionRegistryEntry) : Type 0 where
  pub same_version : e.version ≡ version
  pub is_negotiable : e.negotiable ≡ true

has-common :
    (x : String) (offers : List String) (registry : List VersionRegistryEntry)
    → has x (common offers registry) ≡ true
    → (has x offers ≡ true) × Any (Negotiable x) registry
unfolding has common
has-common x offers [] h = absurd (ground arith)
has-common x offers (e ∷ es) h =
    elim (Bool-cases (e.negotiable && has e.version offers && str_eq e.version x)) [
      | inl here ↦
          let same : e.version ≡ x = (eq_iff e.version x).0 (ground arith) in
          (
            subst (λ v. has v offers ≡ true) same (ground arith),
            inl (record { same_version = same; is_negotiable = ground arith }),
          )
      | inr there ↦ let (offered, n) = has-common x offers es (ground arith) in (offered, inr n)
    ]

common-has :
    (x : String) (offers : List String) (registry : List VersionRegistryEntry)
    → has x offers ≡ true
    → Any (Negotiable x) registry
    → has x (common offers registry) ≡ true
unfolding has common
common-has x offers [] h n = absurd n
common-has x offers (e ∷ es) h (inl n) =
    let offered : has e.version offers ≡ true =
      subst (λ v. has v offers ≡ true) (sym n.same_version) h in
    ground (arith, n.is_negotiable, offered, (eq_iff e.version x).1 n.same_version)
common-has x offers (e ∷ es) h (inr n) = ground (arith, common-has x offers es h n)

-- The numbers of `v` do not come after those of `w`.
abbrev pub AtMost : ProtocolVersion → ProtocolVersion → Type 0
AtMost w v = (v.major < w.major) ⊎ ((v.major ≡ w.major) × (v.minor ≤ w.minor))

NotAbove-AtMost : (w v : ProtocolVersion) → NotAbove w v → AtMost w v
unfolding compare_protocol_versions
NotAbove-AtMost w v h = ground arith

-- A version that both sides have, and at most which all such versions are, by major and minor number.
pub record HighestCommon (offers : List String) (registry : List VersionRegistryEntry)
    (selected : String) : Type 0 where
  pub version : ProtocolVersion
  pub parses : parse_protocol_version selected ≡ ok version
  pub reads : Reads selected version
  pub offered : has selected offers ≡ true
  pub negotiable : Any (Negotiable selected) registry
  pub highest :
      (x : String) (v : ProtocolVersion)
      → has x offers ≡ true
      → Any (Negotiable x) registry
      → parse_protocol_version x ≡ ok v
      → AtMost version v

Highest-HighestCommon :
    (offers : List String) (registry : List VersionRegistryEntry) (selected : String)
    → Highest (common offers registry) selected
    → HighestCommon offers registry selected
Highest-HighestCommon offers registry selected (p, parsed, at, top_is) =
    let (offered, negotiable) = has-common selected offers registry at in
    record {
      version = p;
      parses = parsed;
      reads = parse_protocol_version-Reads selected p parsed;
      offered = offered;
      negotiable = negotiable;
      highest = λ x v o n e. NotAbove-AtMost p v (top_is x v (common-has x offers registry o n) e);
    }

-- A welcome is accepted only under the locked registry, with the digest of the offer, the client's
-- nonce, and a version that was offered and is negotiable in the registry, such that no other such
-- version has a higher major number, or the same one and a higher minor number. It is the negotiated
-- one, and its text is its major and its minor number in decimal digits, with a dot between.
pub verify_welcome-Highest :
    (offer_digest : ConnectHello → String) (locked : ℕ) (welcome : ConnectWelcome)
    (hello : ConnectHello) (registry : LockedVersionRegistry) (n : VerifiedNegotiation)
    → verify_welcome offer_digest locked welcome hello registry ≡ ok n
    → HighestCommon hello.supported_versions registry.versions n.selected
      × (registry.object ≡ locked)
      × (welcome.selected_protocol ≡ n.selected)
      × (welcome.client_offer_digest ≡ offer_digest hello)
      × (welcome.client_nonce ≡ hello.client_nonce)
unfolding verify_welcome
verify_welcome-Highest offer_digest locked welcome hello registry n h = (
  Highest-HighestCommon hello.supported_versions registry.versions n.selected
      (highest_common-Highest hello.supported_versions registry.versions n.selected (ground arith)),
  ground arith,
  ground (arith, eq_iff welcome.selected_protocol n.selected),
  ground (arith, eq_iff welcome.client_offer_digest (offer_digest hello)),
  ground (arith, eq_iff welcome.client_nonce hello.client_nonce),
)
