-- ===== src/Capabilities/Manifest.antt =====
-- `validateScopeCeiling` and `effectiveCapabilities`: what the scopes of a ceiling, and the entries of
-- a device's manifest, allow against the registry.
use agent_life.Shared.{
  String, Bool, true, false, not, ◌&&◌, ◌||◌, List, [], ◌∷◌, str_eq, is_none, if◌then◌else◌,
}
use agent_life.Shared.Text.{codes}
use agent_life.Shared.Sets.{has, add}
use agent_life.Capabilities.Registry.{CapabilityRegistryDocument}
use agent_life.Capabilities.{CapabilityDefinition, resolve, before_codes}

pub record CapabilityManifestEntry : Type 0 where
  pub scope : String
  pub schema_supported : Bool
  pub backend_available : Bool
  pub system_permission : Bool
  pub local_consent : Bool
  pub agent_scope_allowed : Bool

pub record CapabilityManifest : Type 0 where
  pub registry_version : String
  pub tenant_id : String
  pub human_principal_id : String
  pub device_id : String
  pub capabilities : List CapabilityManifestEntry

pub record CapabilityBinding : Type 0 where
  pub tenant_id : String
  pub human_principal_id : String
  pub device_id : String

-- The loop over the scopes, with those seen before.
unfoldable pub scopes_valid : List CapabilityDefinition → List String → List String → Bool
scopes_valid registry seen [] = true
scopes_valid registry seen (scope ∷ scopes) =
    let rest = scopes_valid registry (add scope seen) scopes in
    if has scope seen || is_none (resolve registry scope) then false else rest

unfoldable pub validate_scope_ceiling : List CapabilityDefinition → List String → Bool
unfolding scopes_valid
validate_scope_ceiling registry scopes = scopes_valid registry [] scopes

unfoldable pub entry_allowed : List CapabilityDefinition → CapabilityManifestEntry → Bool
entry_allowed registry e =
    e.schema_supported
    && e.backend_available
    && e.system_permission
    && e.local_consent
    && e.agent_scope_allowed
    && not (is_none (resolve registry e.scope))

unfoldable pub allowed_scopes :
    List CapabilityDefinition → List CapabilityManifestEntry → List String
allowed_scopes registry [] = []
allowed_scopes registry (e ∷ es) =
    let rest = allowed_scopes registry es in
    if entry_allowed registry e then e.scope ∷ rest else rest

-- `sort(codePointCompare)`, which is stable, by insertion from the last scope to the first.
unfoldable pub insert_scope : String → List String → List String
insert_scope scope [] = scope ∷ []
insert_scope scope (other ∷ scopes) =
    let rest = insert_scope scope scopes in
    if before_codes (codes other) (codes scope) then other ∷ rest else scope ∷ other ∷ scopes

unfoldable pub sort_scopes : List String → List String
unfolding insert_scope
sort_scopes [] = []
sort_scopes (scope ∷ scopes) = insert_scope scope (sort_scopes scopes)

unfoldable pub manifest_matches :
    CapabilityManifest → CapabilityBinding → CapabilityRegistryDocument → Bool
manifest_matches manifest binding registry =
    str_eq manifest.registry_version registry.registry_version
    && str_eq manifest.tenant_id binding.tenant_id
    && str_eq manifest.human_principal_id binding.human_principal_id
    && str_eq manifest.device_id binding.device_id

unfoldable pub effective_capabilities :
    CapabilityManifest → CapabilityBinding → CapabilityRegistryDocument → List String
unfolding manifest_matches allowed_scopes sort_scopes
effective_capabilities manifest binding registry =
    if not (manifest_matches manifest binding registry)
    then []
    else sort_scopes (allowed_scopes registry.capabilities manifest.capabilities)
