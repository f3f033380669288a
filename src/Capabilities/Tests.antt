-- ===== src/Capabilities/Tests.antt =====
-- Samples of manifests and ceilings, and the theorem at one.
use agent_life.Shared.{◌↔◌, Any, some, none, ◌≡◌, refl, true, false, [], ◌∷◌}
use agent_life.Shared.Text.{codes}
use agent_life.Shared.Sets.{has, add}
use agent_life.Capabilities.{
  CapabilitySensitivity, CapabilityOfflinePolicy, CapabilityDefinition, no_filter, l0, continuous,
  resolve, before_codes,
}
use agent_life.Capabilities.Registry.{CapabilityRegistryDocument, registry_document}
use agent_life.Capabilities.Manifest.{
  CapabilityManifestEntry, CapabilityManifest, CapabilityBinding, entry_allowed,
  effective_capabilities, validate_scope_ceiling,
}
use agent_life.Capabilities.Effective.{sorted, Gives, Fits, effective_capabilities-sorted}

abbrev status : CapabilityDefinition
status = record {
  scope = "device.status";
  filter_schema = no_filter;
  risk_floor = l0;
  sensitivity = CapabilitySensitivity.metadata;
  offline_policy = CapabilityOfflinePolicy.wait_read;
  minimum_approval = continuous;
  allowed_backends = "B0" ∷ [];
  invariant_ids = [];
}

abbrev ping : CapabilityDefinition
ping = record status { scope = "device.ping" }

abbrev registry : CapabilityRegistryDocument
registry = record {
  schema = "urn:open-android-intelligence:protocol:v1:capability-registry";
  registry_id = "urn:open-android-intelligence:protocol:v1:registry:capabilities";
  protocol_version = "1.0";
  registry_version = "1.0";
  capabilities = status ∷ ping ∷ [];
}

valid_registry : registry_document registry ≡ some registry
unfolding registry_document has add codes
valid_registry = refl

root_shell :
    registry_document
      (record registry { capabilities = record ping { scope = "shell.root.sh" } ∷ [] })
    ≡ none
unfolding registry_document has add codes
root_shell = refl

abbrev granted : CapabilityManifestEntry
granted = record {
  scope = "device.status";
  schema_supported = true;
  backend_available = true;
  system_permission = true;
  local_consent = true;
  agent_scope_allowed = true;
}

abbrev manifest : CapabilityManifest
manifest = record {
  registry_version = "1.0";
  tenant_id = "tenant";
  human_principal_id = "human";
  device_id = "device";
  capabilities =
      granted
      ∷ record granted { scope = "device.ping" }
      ∷ record granted { scope = "device.reboot" }
      ∷ record granted { scope = "device.ping"; local_consent = false }
      ∷ [];
}

abbrev binding : CapabilityBinding
binding = record { tenant_id = "tenant"; human_principal_id = "human"; device_id = "device" }

sorted_sample :
    effective_capabilities manifest binding registry ≡ ("device.ping" ∷ "device.status" ∷ [])
unfolding effective_capabilities resolve before_codes codes entry_allowed
sorted_sample = refl

other_device :
    effective_capabilities manifest (record binding { device_id = "another" }) registry ≡ []
unfolding effective_capabilities
other_device = refl

doubled : validate_scope_ceiling registry.capabilities ("device.ping" ∷ "device.ping" ∷ []) ≡ false
unfolding validate_scope_ceiling resolve has add codes
doubled = refl

effective_capabilities-sorted_example :
    (sorted (effective_capabilities manifest binding registry) ≡ true)
    × ((has "device.status" (effective_capabilities manifest binding registry) ≡ true) ↔ (
        Fits manifest binding registry
        × Any (Gives registry.capabilities "device.status") manifest.capabilities))
effective_capabilities-sorted_example =
    effective_capabilities-sorted manifest binding registry "device.status"
