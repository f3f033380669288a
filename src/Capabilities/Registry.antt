-- ===== src/Capabilities/Registry.antt =====
-- `registryDocument`: the checks of the registry, whose document is read by its types. `none` is the
-- error CAPABILITY_REGISTRY_INVALID.
use agent_life.Shared.{
  ℕ, ◌≡◌, refl, String, Bool, true, false, not, ◌&&◌, ◌||◌, ◌==◌, leb, Option, none, some, List, [],
  ◌∷◌, length, all, All, str_eq, eq_refl, if◌then◌else◌, arith,
}
use agent_life.Shared.Text.{codes}
use agent_life.Shared.Sets.{has, add, has-add}
use agent_life.Capabilities.{
  CapabilityDefinition, CapabilityFilterSchema, no_filter, capability_specific_v1, find_first,
  or_first, resolve,
}

pub record CapabilityRegistryDocument : Type 0 where
  pub schema : String
  pub registry_id : String
  pub protocol_version : String
  pub registry_version : String
  pub capabilities : List CapabilityDefinition

scope_character : ℕ → Bool
scope_character c =
    (leb b'a' c && leb c b'z')
    || (leb b'0' c && leb c b'9')
    || c == b'.'
    || c == b'_'
    || c == b'<'
    || c == b'>'
    || c == b'-'

-- `/^[a-z][a-z0-9._<>-]{0,127}$/`.
scope_pattern : List ℕ → Bool
unfolding scope_character
scope_pattern [] = false
scope_pattern (c ∷ cs) = leb b'a' c && leb c b'z' && leb (length cs) 127 && all scope_character cs

abbrev forbidden_scopes : List String
forbidden_scopes = "shell.root" ∷ "shell.exec" ∷ "exec" ∷ "generic.exec" ∷ "script" ∷ []

begins : List ℕ → List ℕ → Bool
begins [] cs = true
begins (_ ∷ _) [] = false
begins (d ∷ ds) (c ∷ cs) = c == d && begins ds cs

abbrev is_specific : CapabilityFilterSchema → Bool
is_specific no_filter = false
is_specific capability_specific_v1 = true

unfoldable pub definition_valid : List String → CapabilityDefinition → Bool
unfolding scope_pattern begins
definition_valid seen d =
    let cs = codes d.scope in
    scope_pattern cs
    && not (has d.scope forbidden_scopes)
    && not (begins (codes "shell.root.") cs)
    && not (has d.scope seen)
    && not (begins (codes "notifications.") cs && not (is_specific d.filter_schema))

-- The loop over the definitions, with the scopes seen before.
unfoldable pub definitions_valid : List String → List CapabilityDefinition → Bool
unfolding definition_valid
definitions_valid seen [] = true
definitions_valid seen (d ∷ ds) =
    let rest = definitions_valid (add d.scope seen) ds in
    if definition_valid seen d then rest else false

unfoldable pub registry_document : CapabilityRegistryDocument → Option CapabilityRegistryDocument
unfolding definitions_valid
registry_document d =
    if not (
      str_eq d.schema "urn:open-android-intelligence:protocol:v1:capability-registry"
      && str_eq d.registry_id "urn:open-android-intelligence:protocol:v1:registry:capabilities"
      && str_eq d.protocol_version "1.0"
      && str_eq d.registry_version "1.0"
      && not (length d.capabilities == 0))
    then none
    else if definitions_valid [] d.capabilities
    then some d
    else none

-- A scope that was not seen, by which a definition is found.
Own : List String → List CapabilityDefinition → CapabilityDefinition → Type 0
Own seen ds d = (has d.scope seen ≡ false) × (find_first (λ e. str_eq e.scope d.scope) ds ≡ some d)

Own-cons :
    (seen : List String) (d : CapabilityDefinition) (ds part : List CapabilityDefinition)
    → All (Own (add d.scope seen) ds) part
    → All (Own seen (d ∷ ds)) part
unfolding Own find_first
Own-cons seen d ds [] _ = tt
Own-cons seen d ds (e ∷ part) ((free, found), h) = (
  (ground (arith, has-add d.scope e.scope seen), ground (arith, has-add d.scope e.scope seen)),
  Own-cons seen d ds part h,
)

definitions_valid-Own :
    (seen : List String) (ds : List CapabilityDefinition)
    → definitions_valid seen ds ≡ true
    → All (Own seen ds) ds
unfolding definitions_valid definition_valid Own find_first
definitions_valid-Own seen [] h = tt
definitions_valid-Own seen (d ∷ ds) h = (
  (ground arith, ground (arith, eq_refl d.scope)),
  Own-cons seen d ds ds (definitions_valid-Own (add d.scope seen) ds (ground arith)),
)

resolves :
    (seen : List String) (ds part : List CapabilityDefinition)
    → All (Own seen ds) part
    → All (λ d. resolve ds d.scope ≡ some d) part
unfolding Own resolve or_first
resolves seen ds [] _ = tt
resolves seen ds (d ∷ part) ((_, found), h) = (rw found refl, resolves seen ds part h)

-- In a registry that is accepted, each definition is what its own scope resolves to, also where a
-- pattern of another definition matches the scope.
pub registry_document-resolve :
    (d d' : CapabilityRegistryDocument)
    → registry_document d ≡ some d'
    → All (λ e. resolve d.capabilities e.scope ≡ some e) d.capabilities
unfolding registry_document
registry_document-resolve d d' h =
    resolves [] d.capabilities d.capabilities
      (definitions_valid-Own [] d.capabilities (ground arith))
