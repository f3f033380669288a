-- ===== src/Access/Stale.antt =====
-- Access to a device over its revisions.
use agent_life.Shared.{
  ℕ, ◌≡◌, ◌≢◌, sym, ◌∙◌, ap, inl, inr, String, true, false, ◌&&◌, ◌==◌, Option, none, some, List,
  ok, arith,
}
use agent_life.Capabilities.{CapabilityDefinition, resolve}
use agent_life.Authorization.{RevisionState, RevisionEvent}
use agent_life.Authorization.Step.{apply_revision_event}
use agent_life.Authorization.Order.{Later, apply_revision_event-Later, history, history-Later}
use agent_life.Access.{
  immutable_map, AccessRevision, DeviceAccessInput, allowed, revision_for, same_revision,
  revision_matches, access_resolved, evaluate_device_access,
}

-- The snapshot of a state, whose map is an `ImmutableMap`.
abbrev pub access_revision : RevisionState → AccessRevision
access_revision s = record {
  pairing_generation = s.pairing_generation;
  authorization_epoch = s.authorization_epoch;
  scope_revisions = immutable_map s.scope_revisions;
}

-- Between snapshots, the revisions of scopes do not count.
scopes_ignored :
    (s s' : RevisionState) (capability : String)
    → revision_matches (access_revision s) (access_revision s') capability ≡ (
        s.pairing_generation == s'.pairing_generation
        && s.authorization_epoch == s'.authorization_epoch)
unfolding revision_matches revision_for same_revision
scopes_ignored s s' capability = ground arith

Later-revision_matches :
    (s s' : RevisionState) (capability : String)
    → Later s s'
    → revision_matches (access_revision s) (access_revision s') capability ≡ false
Later-revision_matches s s' capability (inl l) = scopes_ignored s s' capability ∙ ground arith
Later-revision_matches s s' capability (inr (_, l)) = scopes_ignored s s' capability ∙ ground arith

resolved-matches :
    (input : DeviceAccessInput) (o : Option CapabilityDefinition)
    → access_resolved input o ≡ allowed
    → revision_matches input.required_revision input.current.revision input.capability ≡ true
unfolding access_resolved
resolved-matches input none h = absurd (ground arith)
resolved-matches input (some c) h = ground arith

access-matches :
    (input : DeviceAccessInput)
    → evaluate_device_access input ≡ allowed
    → revision_matches input.required_revision input.current.revision input.capability ≡ true
unfolding evaluate_device_access
access-matches input h =
    resolved-matches input (resolve input.registry input.capability) (ground arith)

-- An access that requires the revision from before an accepted event is never allowed afterwards,
-- whatever events follow, accepted or rejected, and whatever the rest of its input is.
pub stale_access :
    (authenticated : List ℕ) (s s' : RevisionState) (e : RevisionEvent)
    (es : List (List ℕ × RevisionEvent)) (input : DeviceAccessInput)
    → apply_revision_event authenticated s e ≡ ok s'
    → input.required_revision ≡ access_revision s
    → input.current.revision ≡ access_revision (history s' es)
    → evaluate_device_access input ≢ allowed
stale_access authenticated s s' e es input accepted required current h =
    let later = history-Later s s' es (apply_revision_event-Later s authenticated e accepted) in
    let matches : revision_matches (access_revision s) (access_revision (history s' es))
          input.capability
        ≡ true =
      sym (ap (λ r. revision_matches r (access_revision (history s' es)) input.capability) required)
      ∙ sym (ap (λ r. revision_matches input.required_revision r input.capability) current)
      ∙ access-matches input h in
    true_or_false (sym matches ∙ Later-revision_matches s (history s' es) input.capability later)
  where
    true_or_false : true ≡ false → ⊥
    true_or_false e = ground arith
