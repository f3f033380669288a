-- ===== src/Capabilities.antt =====
-- protocol/src/capability-manifest.ts: the registry of capabilities, which is an argument, and filters.
pub mod Registry
pub mod Manifest
pub mod Effective
mod Tests
use agent_life.Shared.{
  ℕ, ◌+◌, String, Bool, true, false, not, ◌&&◌, ◌||◌, ◌==◌, leb, ltb, Option, none, some, List, [],
  ◌∷◌, length, all, any, str_eq, Result, ok, err, schema_invalid, scope_denied, if◌then◌else◌,
}
use agent_life.Shared.Text.{codes}

pub data CapabilityFilterSchema : Type 0 where
  no_filter capability_specific_v1 : CapabilityFilterSchema

pub data CapabilityRisk : Type 0 where
  l0 l1 l2 l3 l4 : CapabilityRisk

pub data CapabilitySensitivity : Type 0 where
  metadata content : CapabilitySensitivity

pub data CapabilityOfflinePolicy : Type 0 where
  wait_read fail_offline : CapabilityOfflinePolicy

pub data CapabilityApproval : Type 0 where
  continuous per_operation per_operation_on_device : CapabilityApproval

pub record CapabilityDefinition : Type 0 where
  pub scope : String
  pub filter_schema : CapabilityFilterSchema
  pub risk_floor : CapabilityRisk
  pub sensitivity : CapabilitySensitivity
  pub offline_policy : CapabilityOfflinePolicy
  pub minimum_approval : CapabilityApproval
  pub allowed_backends : List String
  pub invariant_ids : List String

-- A scope pattern: a character, or a name in angle brackets, which stands for `[^.]+`.
pub data Token : Type 0 where
  character : ℕ → Token
  hole : Token

-- `/<[^>]+>/`: the end of a name after an opening bracket, if it has one.
close_name : ℕ → List ℕ → Option (List ℕ)
close_name seen [] = none
close_name seen (c ∷ cs) =
    if c == b'>' then (if ltb 0 seen then some cs else none) else close_name (seen + 1) cs

-- `fuel` of the length is enough: each turn takes a character or more.
tokens : ℕ → List ℕ → List Token
unfolding close_name
tokens ℕ.zero cs = []
tokens (ℕ.suc fuel) [] = []
tokens (ℕ.suc fuel) (c ∷ cs) = elim (c == b'<') [
  | true ↦ elim (close_name 0 cs) [
    | none ↦ character c ∷ tokens fuel cs
    | some rest ↦ hole ∷ tokens fuel rest
  ]
  | false ↦ character c ∷ tokens fuel cs
]

tokens_match : List Token → List ℕ → Bool
tokens_match [] [] = true
tokens_match [] (_ ∷ _) = false
tokens_match (_ ∷ _) [] = false
tokens_match (character d ∷ ts) (c ∷ cs) = d == c && tokens_match ts cs
tokens_match (hole ∷ ts) (c ∷ cs) =
    not (c == b'.') && (tokens_match ts cs || tokens_match (hole ∷ ts) cs)

unfoldable pub pattern_matches : String → String → Bool
unfolding tokens tokens_match
pattern_matches pattern scope =
    let cs = codes pattern in tokens_match (tokens (length cs) cs) (codes scope)

unfoldable pub find_first :
    (CapabilityDefinition → Bool) → List CapabilityDefinition → Option CapabilityDefinition
find_first test [] = none
find_first test (d ∷ ds) = if test d then some d else find_first test ds

unfoldable pub or_first :
    Option CapabilityDefinition → Option CapabilityDefinition → Option CapabilityDefinition
or_first (some d) other = some d
or_first none other = other

unfoldable pub resolve : List CapabilityDefinition → String → Option CapabilityDefinition
unfolding find_first or_first pattern_matches
resolve registry scope = or_first (find_first (λ d. str_eq d.scope scope) registry) (
    find_first (λ d. any (λ c. c == b'<') (codes d.scope) && pattern_matches d.scope scope)
      registry)

-- A filter as JSON: `{ kind: "all" }`, a selector of packages and fields, or another value; `absent` is
-- undefined.
pub data Filter : Type 0 where
  absent all_records other_value : Filter
  selector : Option (List String) → Option (List String) → Filter

-- Order by code points, as `codePointCompare` and the text order of the two lists.
unfoldable pub before_codes : List ℕ → List ℕ → Bool
before_codes [] [] = false
before_codes [] (_ ∷ _) = true
before_codes (_ ∷ _) [] = false
before_codes (c ∷ cs) (d ∷ ds) =
    let rest = before_codes cs ds in if ltb c d then true else if c == d then rest else false

sorted_from : String → List String → Bool
unfolding before_codes
sorted_from previous [] = true
sorted_from previous (current ∷ rest) =
    before_codes (codes previous) (codes current) && sorted_from current rest

unfoldable pub sorted_unique_strings : List String → Bool
unfolding sorted_from
sorted_unique_strings [] = true
sorted_unique_strings (value ∷ values) = sorted_from value values

is_alphanumeric : ℕ → Bool
is_alphanumeric c =
    (leb b'A' c && leb c b'Z') || (leb b'a' c && leb c b'z') || (leb b'0' c && leb c b'9')

-- `/^[A-Za-z0-9][A-Za-z0-9._-]{0,254}$/`.
package_name : List ℕ → Bool
unfolding is_alphanumeric
package_name [] = false
package_name (c ∷ cs) =
    is_alphanumeric c
    && leb (length cs) 254
    && all (λ d. is_alphanumeric d || d == b'.' || d == b'_' || d == b'-') cs

valid_packages : Option (List String) → Bool
unfolding package_name
valid_packages none = true
valid_packages (some packages) =
    sorted_unique_strings packages
    && leb 1 (length packages)
    && all (λ p. package_name (codes p)) packages

valid_fields : String → Option (List String) → Bool
valid_fields scope none = true
valid_fields scope (some fields) =
    sorted_unique_strings fields
    && leb 1 (length fields)
    && leb (length fields) 2
    && all (λ f. str_eq f "metadata" || str_eq f "content") fields
    && not (str_eq scope "notifications.metadata" && any (λ f. str_eq f "content") fields)

has_selector : Option (List String) → Option (List String) → Bool
has_selector none none = false
has_selector _ _ = true

unfoldable pub validate_notification_filter : String → Filter → Bool
unfolding valid_packages valid_fields has_selector
validate_notification_filter scope (selector packages fields) =
    has_selector packages fields && valid_packages packages && valid_fields scope fields
validate_notification_filter scope _ = false

abbrev pub is_absent : Filter → Bool
is_absent absent = true
is_absent _ = false

unfoldable pub validate_by : String → Filter → CapabilityFilterSchema → Result Filter
validate_by scope filter no_filter = if is_absent filter then ok filter else err schema_invalid
validate_by scope filter capability_specific_v1 =
    if validate_notification_filter scope filter then ok filter else err schema_invalid

unfoldable pub validate_resolved : String → Filter → Option CapabilityDefinition → Result Filter
unfolding validate_by
validate_resolved scope filter none = err scope_denied
validate_resolved scope filter (some d) = validate_by scope filter d.filter_schema

unfoldable pub validate_capability_filter :
    List CapabilityDefinition → String → Filter → Result Filter
unfolding validate_resolved
validate_capability_filter registry scope filter =
    validate_resolved scope filter (resolve registry scope)
