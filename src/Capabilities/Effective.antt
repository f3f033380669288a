-- ===== src/Capabilities/Effective.antt =====
-- The effective capabilities of a device, and the scopes of a valid ceiling.
use agent_life.Shared.{
  ℕ, ◌≡◌, ◌≢◌, ◌↔◌, ◌∙◌, ap, sym, subst, refl, Any, Option, none, some, is_none, inl, inr,
  Bool-cases, eq_iff, String, Bool, true, false, not, ◌&&◌, ◌||◌, List, [], ◌∷◌, str_eq, arith,
}
use agent_life.Shared.Text.{codes}
use agent_life.Shared.Sets.{has}
use agent_life.Capabilities.{CapabilityDefinition, resolve, before_codes}
use agent_life.Capabilities.Registry.{CapabilityRegistryDocument}
use agent_life.Capabilities.Manifest.{
  CapabilityManifestEntry, CapabilityManifest, CapabilityBinding, entry_allowed, allowed_scopes,
  insert_scope, sort_scopes, manifest_matches, effective_capabilities,
}

before_codes_asymm : (cs ds : List ℕ) → before_codes cs ds ≡ true → before_codes ds cs ≡ false
unfolding before_codes
before_codes_asymm [] [] h = absurd (ground arith)
before_codes_asymm [] (_ ∷ _) h = refl
before_codes_asymm (_ ∷ _) [] h = absurd (ground arith)
before_codes_asymm (c ∷ cs) (d ∷ ds) h = ground (arith, before_codes_asymm cs ds)

-- No scope stands before a smaller one that follows it at once.
abbrev pub sorted : List String → Bool
sorted [] = true
sorted (s ∷ []) = true
sorted (s ∷ t ∷ ts) = not (before_codes (codes t) (codes s)) && sorted (t ∷ ts)

insert_scope-sorted :
    (s : String) (ts : List String) → sorted ts ≡ true → sorted (insert_scope s ts) ≡ true
unfolding insert_scope
insert_scope-sorted s [] h = refl
insert_scope-sorted s (t ∷ []) h = ground (arith, before_codes_asymm (codes t) (codes s))
insert_scope-sorted s (t ∷ u ∷ us) h =
    ground (arith, insert_scope-sorted s (u ∷ us), before_codes_asymm (codes t) (codes s))

sort_scopes-sorted : (ts : List String) → sorted (sort_scopes ts) ≡ true
unfolding sort_scopes
sort_scopes-sorted [] = refl
sort_scopes-sorted (t ∷ ts) = insert_scope-sorted t (sort_scopes ts) (sort_scopes-sorted ts)

has-insert_scope :
    (s t : String) (ts : List String) → has t (insert_scope s ts) ≡ (str_eq s t || has t ts)
unfolding has insert_scope
has-insert_scope s t [] = refl
has-insert_scope s t (u ∷ us) = ground (arith, has-insert_scope s t us)

has-sort_scopes : (t : String) (ts : List String) → has t (sort_scopes ts) ≡ has t ts
unfolding has sort_scopes
has-sort_scopes t [] = refl
has-sort_scopes t (s ∷ ts) =
    has-insert_scope s t (sort_scopes ts) ∙ ground (arith, has-sort_scopes t ts)

-- An entry that gives a scope.
pub record Gives (registry : List CapabilityDefinition) (s : String) (e : CapabilityManifestEntry)
    : Type 0 where
  pub same_scope : e.scope ≡ s
  pub supported : e.schema_supported ≡ true
  pub available : e.backend_available ≡ true
  pub permitted : e.system_permission ≡ true
  pub consented : e.local_consent ≡ true
  pub agent_allowed : e.agent_scope_allowed ≡ true
  pub registered : resolve registry s ≢ none

allowed-Gives :
    (registry : List CapabilityDefinition) (s : String) (e : CapabilityManifestEntry)
    → entry_allowed registry e ≡ true
    → e.scope ≡ s
    → Gives registry s e
unfolding entry_allowed
allowed-Gives registry s e h same = record {
  same_scope = same;
  supported = ground arith;
  available = ground arith;
  permitted = ground arith;
  consented = ground arith;
  agent_allowed = ground arith;
  registered =
      λ none_is. unknown (ap (λ x. is_none (resolve registry x)) same ∙ ap is_none none_is);
}
  where
    unknown : is_none (resolve registry e.scope) ≡ true → ⊥
    unknown k = ground arith

Gives-allowed :
    (registry : List CapabilityDefinition) (s : String) (e : CapabilityManifestEntry)
    → Gives registry s e
    → entry_allowed registry e ≡ true
unfolding entry_allowed
Gives-allowed registry s e g =
    let found =
      known (resolve registry e.scope)
        (subst (λ x. resolve registry x ≢ none) (sym g.same_scope) g.registered) in
    ground (arith, found, g.supported, g.available, g.permitted, g.consented, g.agent_allowed)
  where
    known : (o : Option CapabilityDefinition) → o ≢ none → is_none o ≡ false
    known none h = absurd (h refl)
    known (some d) h = refl

has-Gives :
    (registry : List CapabilityDefinition) (s : String) (es : List CapabilityManifestEntry)
    → has s (allowed_scopes registry es) ≡ true
    → Any (Gives registry s) es
unfolding has allowed_scopes
has-Gives registry s [] h = absurd (ground arith)
has-Gives registry s (e ∷ es) h = elim (Bool-cases (entry_allowed registry e && str_eq e.scope s)) [
  | inl given ↦ inl (allowed-Gives registry s e (ground arith) (ground (arith, eq_iff e.scope s)))
  | inr other ↦ inr (has-Gives registry s es (ground arith))
]

Gives-has :
    (registry : List CapabilityDefinition) (s : String) (es : List CapabilityManifestEntry)
    → Any (Gives registry s) es
    → has s (allowed_scopes registry es) ≡ true
unfolding has allowed_scopes
Gives-has registry s [] h = absurd h
Gives-has registry s (e ∷ es) (inl g) =
    ground (arith, Gives-allowed registry s e g, (eq_iff e.scope s).1 g.same_scope)
Gives-has registry s (e ∷ es) (inr h) = ground (arith, Gives-has registry s es h)

-- A manifest of the registry's version for the tenant, human and device of the binding.
pub record Fits (manifest : CapabilityManifest) (binding : CapabilityBinding)
    (registry : CapabilityRegistryDocument) : Type 0 where
  pub same_version : manifest.registry_version ≡ registry.registry_version
  pub same_tenant : manifest.tenant_id ≡ binding.tenant_id
  pub same_human : manifest.human_principal_id ≡ binding.human_principal_id
  pub same_device : manifest.device_id ≡ binding.device_id

matches-Fits :
    (manifest : CapabilityManifest) (binding : CapabilityBinding)
    (registry : CapabilityRegistryDocument)
    → (manifest_matches manifest binding registry ≡ true) ↔ Fits manifest binding registry
unfolding manifest_matches
matches-Fits m b r = (
  λ h. record {
    same_version = (eq_iff m.registry_version r.registry_version).0 (ground arith);
    same_tenant = (eq_iff m.tenant_id b.tenant_id).0 (ground arith);
    same_human = (eq_iff m.human_principal_id b.human_principal_id).0 (ground arith);
    same_device = (eq_iff m.device_id b.device_id).0 (ground arith);
  },
  λ f. ground (
    arith,
    (eq_iff m.registry_version r.registry_version).1 f.same_version,
    (eq_iff m.tenant_id b.tenant_id).1 f.same_tenant,
    (eq_iff m.human_principal_id b.human_principal_id).1 f.same_human,
    (eq_iff m.device_id b.device_id).1 f.same_device,
  ),
)

effective-has :
    (m : CapabilityManifest) (b : CapabilityBinding) (r : CapabilityRegistryDocument) (s : String)
    → has s (effective_capabilities m b r)
      ≡ (manifest_matches m b r && has s (allowed_scopes r.capabilities m.capabilities))
unfolding effective_capabilities has
effective-has m b r s =
    ground (arith, has-sort_scopes s (allowed_scopes r.capabilities m.capabilities))

effective-sorted :
    (m : CapabilityManifest) (b : CapabilityBinding) (r : CapabilityRegistryDocument)
    → sorted (effective_capabilities m b r) ≡ true
unfolding effective_capabilities
effective-sorted m b r =
    ground (arith, sort_scopes-sorted (allowed_scopes r.capabilities m.capabilities))

-- The effective capabilities are sorted, and a scope is among them exactly if the manifest is of the
-- registry's version and of the binding's tenant, human and device, and has an entry for the scope
-- whose schema, backend, permission, consent and agent scope all hold, and the registry knows it.
pub effective_capabilities-sorted :
    (manifest : CapabilityManifest) (binding : CapabilityBinding)
    (registry : CapabilityRegistryDocument) (s : String)
    → (sorted (effective_capabilities manifest binding registry) ≡ true)
      × ((has s (effective_capabilities manifest binding registry) ≡ true) ↔ (
          Fits manifest binding registry
          × Any (Gives registry.capabilities s) manifest.capabilities))
effective_capabilities-sorted manifest binding registry s =
    let (to_fits, from_fits) = matches-Fits manifest binding registry in
    let allowed = has s (allowed_scopes registry.capabilities manifest.capabilities) in
    (
      effective-sorted manifest binding registry,
      (
        λ h.
            let both : manifest_matches manifest binding registry && allowed ≡ true =
              sym (effective-has manifest binding registry s) ∙ h in
            (
              to_fits (left (manifest_matches manifest binding registry) allowed both),
              has-Gives registry.capabilities s manifest.capabilities
                  (right (manifest_matches manifest binding registry) allowed both),
            ),
        λ (f, g).
            effective-has manifest binding registry s
            ∙ ap (λ b. b && allowed) (from_fits f)
            ∙ Gives-has registry.capabilities s manifest.capabilities g,
      ),
    )
  where
    left : (a b : Bool) → (a && b) ≡ true → a ≡ true
    left a b h = ground arith

    right : (a b : Bool) → (a && b) ≡ true → b ≡ true
    right a b h = ground arith
