-- ===== src/Access/Gate.antt =====
-- `createEnvelopeAuthorizationGate`: which envelopes an authorised scope lets through. A member of a
-- payload is read as `??` and `typeof` read it.
use agent_life.Shared.{
  ◌≡◌, refl, String, Bool, true, false, not, ◌&&◌, ◌||◌, Option, none, some, List, [], ◌∷◌, all,
  str_eq, is_none, if◌then◌else◌, Result, ok, err, arith,
}
use agent_life.Shared.Sets.{has, add, has-add}
use agent_life.Capabilities.{
  CapabilityDefinition, resolve, Filter, absent, validate_capability_filter,
}
use agent_life.Capabilities.Manifest.{CapabilityBinding, scopes_valid, validate_scope_ceiling}

pub data GateDenial : Type 0 where
  pairing_inactive scope_denied : GateDenial

pub data GateDecision : Type 0 where
  pass : GateDecision
  deny : GateDenial → GateDecision

-- What the gate reads of the authenticated context: the device of a context of the kind "device".
pub record BindingContext : Type 0 where
  pub tenant_id : String
  pub human_principal_id : String
  pub device_id : Option String

pub data Member : Type 0 where
  nullish other_member : Member
  text : String → Member

-- The members of a payload that is an object.
pub record GatePayload : Type 0 where
  pub capability : Member
  pub scope : Member
  pub required_scope : Member
  pub filter : Filter

pub record EnvelopeAuthorizationState : Type 0 where
  pub scope_ceiling : List String
  pub registry : List CapabilityDefinition
  pub binding : Option CapabilityBinding
  pub active_pairing : Option Bool

abbrev pub nullish_or : Member → Member → Member
nullish_or nullish m = m
nullish_or other_member _ = other_member
nullish_or (text s) _ = text s

abbrev explicit : Option GatePayload → Member
explicit none = nullish
explicit (some p) = nullish_or (nullish_or p.capability p.scope) p.required_scope

by_message_type : String → Option String
by_message_type message_type =
    if str_eq message_type "device_ping" || str_eq message_type "device_presence"
    then some "device.status"
    else none

abbrev text_or : Option String → Member → Option String
text_or other (text s) = some s
text_or other _ = other

unfoldable pub requested_scope : String → Option GatePayload → Option String
unfolding by_message_type
requested_scope message_type payload = text_or (by_message_type message_type) (explicit payload)

abbrev same_device : Option String → String → Bool
same_device none device_id = true
same_device (some d) device_id = str_eq d device_id

abbrev pub context_matches : BindingContext → Option CapabilityBinding → Bool
context_matches c none = true
context_matches c (some b) =
    str_eq c.tenant_id b.tenant_id
    && str_eq c.human_principal_id b.human_principal_id
    && same_device c.device_id b.device_id

abbrev pub is_false : Option Bool → Bool
is_false (some false) = true
is_false _ = false

abbrev filter_of : Option GatePayload → Filter
filter_of none = absent
filter_of (some p) = p.filter

abbrev pub is_ok : Result Filter → Bool
is_ok (ok _) = true
is_ok (err _) = false

unfoldable pub scope_passes : EnvelopeAuthorizationState → Filter → Option String → GateDecision
scope_passes state filter none = deny scope_denied
scope_passes state filter (some scope) =
    if is_none (resolve state.registry scope) || not (has scope state.scope_ceiling)
    then deny scope_denied
    else if not (is_ok (validate_capability_filter state.registry scope filter))
    then deny scope_denied
    else pass

unfoldable pub evaluate_gate :
    EnvelopeAuthorizationState → String → Option GatePayload → BindingContext → GateDecision
unfolding requested_scope scope_passes
evaluate_gate state message_type payload context =
    if is_false state.active_pairing
    then deny pairing_inactive
    else if not (context_matches context state.binding)
    then deny pairing_inactive
    else if not (validate_scope_ceiling state.registry state.scope_ceiling)
    then deny scope_denied
    else scope_passes state (filter_of payload) (requested_scope message_type payload)

-- The scopes are known and pairwise different, and none of them was seen.
abbrev unseen : List String → List String → Bool
unseen seen [] = true
unseen seen (s ∷ scopes) = not (has s seen) && unseen seen scopes

abbrev distinct : List String → Bool
distinct [] = true
distinct (s ∷ scopes) = unseen (s ∷ []) scopes && distinct scopes

abbrev all_known : List CapabilityDefinition → List String → Bool
all_known registry scopes = all (λ s. not (is_none (resolve registry s))) scopes

unseen-add :
    (s : String) (seen scopes : List String)
    → unseen (add s seen) scopes ≡ (unseen seen scopes && unseen (s ∷ []) scopes)
unfolding has
unseen-add s seen [] = refl
unseen-add s seen (t ∷ scopes) = ground (arith, has-add s t seen, unseen-add s seen scopes)

scopes_valid-distinct :
    (registry : List CapabilityDefinition) (seen scopes : List String)
    → scopes_valid registry seen scopes
      ≡ (all_known registry scopes && unseen seen scopes && distinct scopes)
unfolding scopes_valid
scopes_valid-distinct registry seen [] = refl
scopes_valid-distinct registry seen (s ∷ scopes) =
    ground (arith, scopes_valid-distinct registry (add s seen) scopes, unseen-add s seen scopes)

unseen-[] : (scopes : List String) → unseen [] scopes ≡ true
unfolding has
unseen-[] [] = refl
unseen-[] (s ∷ scopes) = unseen-[] scopes

-- The ceiling of a gate counts as valid exactly if its scopes are known and pairwise different.
ceiling-distinct :
    (registry : List CapabilityDefinition) (scopes : List String)
    → validate_scope_ceiling registry scopes ≡ (all_known registry scopes && distinct scopes)
unfolding validate_scope_ceiling
ceiling-distinct registry scopes =
    ground (arith, scopes_valid-distinct registry [] scopes, unseen-[] scopes)

-- What holds of a message that passes.
pub record Passed (state : EnvelopeAuthorizationState) (filter : Filter) (o : Option String)
    : Type 0 where
  pub requested : String
  pub is_requested : o ≡ some requested
  pub in_ceiling : has requested state.scope_ceiling ≡ true
  pub is_known : is_none (resolve state.registry requested) ≡ false
  pub filter_valid : is_ok (validate_capability_filter state.registry requested filter) ≡ true

scope-Passed :
    (state : EnvelopeAuthorizationState) (filter : Filter) (o : Option String)
    → scope_passes state filter o ≡ pass
    → Passed state filter o
unfolding scope_passes
scope-Passed state filter none h = absurd (ground arith)
scope-Passed state filter (some scope) h = record {
  requested = scope;
  is_requested = refl;
  in_ceiling = ground arith;
  is_known = ground arith;
  filter_valid = ground arith;
}

-- A message passes only in a pairing that is not inactive, in a context of the gate's binding, under a
-- ceiling of scopes that are known and pairwise different, and for a scope of that ceiling that is
-- known, with a filter that is valid for it.
pub gate-Passed :
    (state : EnvelopeAuthorizationState) (message_type : String) (payload : Option GatePayload)
    (context : BindingContext)
    → evaluate_gate state message_type payload context ≡ pass
    → (is_false state.active_pairing ≡ false)
      × (context_matches context state.binding ≡ true)
      × (all_known state.registry state.scope_ceiling ≡ true)
      × (distinct state.scope_ceiling ≡ true)
      × Passed state (filter_of payload) (requested_scope message_type payload)
unfolding evaluate_gate
gate-Passed state message_type payload context h =
    let valid = ceiling-distinct state.registry state.scope_ceiling in
    let (active, matches, ceiling, passes) : (is_false state.active_pairing ≡ false)
        × (context_matches context state.binding ≡ true)
        × (validate_scope_ceiling state.registry state.scope_ceiling ≡ true)
        × (scope_passes state (filter_of payload) (requested_scope message_type payload) ≡ pass) =
      guards (is_false state.active_pairing) (context_matches context state.binding)
        (validate_scope_ceiling state.registry state.scope_ceiling)
        (scope_passes state (filter_of payload) (requested_scope message_type payload)) h in
    (
      active,
      matches,
      ground (arith, valid, ceiling),
      ground (arith, valid, ceiling),
      scope-Passed state (filter_of payload) (requested_scope message_type payload) passes,
    )
  where
    guards :
        (a b c : Bool) (d : GateDecision)
        → (if a
            then deny pairing_inactive
            else if not b
            then deny pairing_inactive
            else if not c
            then deny scope_denied
            else d)
          ≡ pass
        → (a ≡ false) × (b ≡ true) × (c ≡ true) × (d ≡ pass)
    guards a b c d e = ground arith
