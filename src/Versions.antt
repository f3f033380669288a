-- ===== src/Versions.antt =====
-- protocol/src/version-negotiation.ts: protocol versions and the highest common one. The digest of
-- the offer, by canonicalize and node:crypto, is an argument; a text is compared by its characters.
mod Reading
mod Sorting
pub mod Highest
mod Tests
use agent_life.Shared.{
  ℕ, ◌+◌, ◌*◌, String, Bool, true, false, not, ◌&&◌, ◌||◌, ◌==◌, ltb, leb, Option, none, some, List,
  [], ◌∷◌, ◌++◌, str_eq, Result, ok, err, ◌>>=◌, ◌>>◌, require, if◌then◌else◌, version_unsupported,
  integrity_failed, auth_binding_mismatch,
}
use agent_life.Shared.Int.{u64_max}
use agent_life.Shared.Text.{codes, is_decimal, decimal_value}
use agent_life.Shared.Sets.{has}

pub record ProtocolVersion : Type 0 where
  pub major : ℕ
  pub minor : ℕ
  pub canonical : String

pub record VersionRegistryEntry : Type 0 where
  pub version : String
  pub negotiable : Bool

-- The characters before and after the first dot.
unfoldable pub split_dot : List ℕ → List ℕ → Option (List ℕ × List ℕ)
split_dot before [] = none
split_dot before (c ∷ cs) =
    if c == b'.' then some (before, cs) else split_dot (before ++ (c ∷ [])) cs

unfoldable pub parse_parts : String → Option (List ℕ × List ℕ) → Result ProtocolVersion
unfolding decimal_value
parse_parts input none = err version_unsupported
parse_parts input (some (a, b)) = do
  require (is_decimal a && is_decimal b) version_unsupported
  require (leb (decimal_value 0 a) u64_max && leb (decimal_value 0 b) u64_max) version_unsupported
  ok record { major = decimal_value 0 a; minor = decimal_value 0 b; canonical = input }

unfoldable pub parse_protocol_version : String → Result ProtocolVersion
unfolding parse_parts split_dot
parse_protocol_version input = parse_parts input (split_dot [] (codes input))

pub data Comparison : Type 0 where
  below same above : Comparison

unfoldable pub compare_protocol_versions : ProtocolVersion → ProtocolVersion → Comparison
compare_protocol_versions a b =
    if ltb a.major b.major || (a.major == b.major && ltb a.minor b.minor)
    then below
    else if ltb b.major a.major || (a.major == b.major && ltb b.minor a.minor)
    then above
    else same

abbrev pub is_above : Comparison → Bool
is_above above = true
is_above _ = false

unfoldable pub parse_all : List String → Result (List ProtocolVersion)
parse_all [] = ok []
parse_all (v ∷ vs) = do version ← parse_protocol_version v; rest ← parse_all vs; ok (version ∷ rest)

unfoldable pub canonicals : List ProtocolVersion → List String
canonicals [] = []
canonicals (v ∷ vs) = v.canonical ∷ canonicals vs

-- The versions of the registry that are negotiable and offered.
unfoldable pub common : List String → List VersionRegistryEntry → List String
common offered [] = []
common offered (e ∷ es) =
    if e.negotiable && has e.version offered
    then e.version ∷ common offered es
    else common offered es

-- `sort` is stable, from the highest version down.
unfoldable pub place : ProtocolVersion → List ProtocolVersion → List ProtocolVersion
place v [] = v ∷ []
place v (w ∷ ws) = if is_above (compare_protocol_versions v w) then v ∷ w ∷ ws else w ∷ place v ws

unfoldable pub sort_onto : List ProtocolVersion → List ProtocolVersion → List ProtocolVersion
unfolding place
sort_onto sorted [] = sorted
sort_onto sorted (v ∷ vs) = sort_onto (place v sorted) vs

unfoldable pub first_canonical : List ProtocolVersion → Result String
first_canonical [] = err version_unsupported
first_canonical (v ∷ vs) = ok v.canonical

unfoldable pub highest_common : List String → List VersionRegistryEntry → Result String
unfolding sort_onto first_canonical
highest_common offers registry = do
  offered ← parse_all offers
  candidates ← parse_all (common (canonicals offered) registry)
  first_canonical (sort_onto [] candidates)

pub record ConnectHello : Type 0 where
  pub supported_versions : List String
  pub client_nonce : String

-- The P-256 keys, each as a text.
pub record CommandKeySet : Type 0 where
  pub current : String
  pub next : Option String

pub record ConnectWelcome : Type 0 where
  pub client_offer_digest : String
  pub client_nonce : String
  pub selected_protocol : String
  pub bridge_nonce : String
  pub bridge_time : String
  pub command_key_set : CommandKeySet
  pub connection_generation : String

pub record VersionSelection : Type 0 where
  pub selected : String
  pub client_offer_digest : String

pub record VerifiedNegotiation : Type 0 where
  pub selected : String
  pub client_offer_digest : String
  pub client_nonce : String
  pub bridge_nonce : String
  pub bridge_time : String
  pub command_key_set : CommandKeySet
  pub connection_generation : String

-- A registry, which is an object.
pub record LockedVersionRegistry : Type 0 where
  pub object : ℕ
  pub versions : List VersionRegistryEntry

-- `offer_digest` is the digest of the canonical bytes of a hello's payload; `locked` is the object of the
-- registry that the module loads.
module _ (offer_digest : ConnectHello → String) (locked : ℕ) where
  unfoldable pub select_highest_common_version :
      ConnectHello → LockedVersionRegistry → Result VersionSelection
  select_highest_common_version hello registry = do
    require (registry.object == locked) version_unsupported
    selected ← highest_common hello.supported_versions registry.versions
    ok record { selected = selected; client_offer_digest = offer_digest hello }

  unfoldable pub verify_welcome :
      ConnectWelcome → ConnectHello → LockedVersionRegistry → Result VerifiedNegotiation
  unfolding select_highest_common_version
  verify_welcome welcome hello registry = do
    selection ← select_highest_common_version hello registry
    require (str_eq welcome.client_offer_digest selection.client_offer_digest) integrity_failed
    require (str_eq welcome.client_nonce hello.client_nonce) auth_binding_mismatch
    require (str_eq welcome.selected_protocol selection.selected) version_unsupported
    ok record {
      selected = selection.selected;
      client_offer_digest = selection.client_offer_digest;
      client_nonce = hello.client_nonce;
      bridge_nonce = welcome.bridge_nonce;
      bridge_time = welcome.bridge_time;
      command_key_set = welcome.command_key_set;
      connection_generation = welcome.connection_generation;
    }
