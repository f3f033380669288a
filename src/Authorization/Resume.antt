-- ===== src/Authorization/Resume.antt =====
-- A transition that a local user authenticated resumes a device once.
use agent_life.Shared.{
  ℕ, ◌≡◌, ◌⊎◌, inl, inr, refl, String, true, false, List, [], ◌∷◌, ◌<◌, arith, Result, ok, err,
  eq_iff, eq_refl, auth_failed, any, ◌==◌, ◌+◌, ◌≤◌,
}
use agent_life.Shared.Int.{ℤ, u64_max}
use agent_life.Shared.Sets.{has, has-add}
use agent_life.Authorization.{
  DeviceLifecycle, active, paused, revoked, LocalUserTransition, RotationActivationFact,
  RevisionEvent, new_pairing, pause, emergency_stop, system_permission_change,
  backend_credential_change, resume, scope_policy_revoke, scope_policy_regrant,
  bridge_command_key_activated, RevisionState, ensure_u64, next,
}
use agent_life.Authorization.Step.{
  apply_revision_event, apply_new_pairing, apply_resume, apply_stop, apply_scope_policy,
  apply_key_activation, apply_change,
}
use agent_life.Authorization.Order.{after, history}

-- A transition of generation `g` under this id is refused: its pairing is over, or it was used.
abbrev Spent : String → ℕ → RevisionState → Type 0
Spent t g s =
    (g < s.pairing_generation)
    ⊎ ((g ≡ s.pairing_generation) × (has t s.used_local_transition_ids ≡ true))

module _ (t : String) (g : ℕ) (s : RevisionState) {s' : RevisionState} where
  apply_new_pairing-Spent :
      (generation : ℤ) → apply_new_pairing s generation ≡ ok s' → Spent t g s → Spent t g s'
  unfolding apply_new_pairing ensure_u64
  apply_new_pairing-Spent generation h spent = inl (ground arith)

  apply_resume-Spent :
      (authenticated : List ℕ) (fact : LocalUserTransition)
      → apply_resume authenticated s fact ≡ ok s'
      → Spent t g s
      → Spent t g s'
  unfolding apply_resume next
  apply_resume-Spent authenticated fact h (inl old) = inl (ground arith)
  apply_resume-Spent authenticated fact h (inr (here, used)) =
      inr (ground arith, ground (arith, has-add fact.transition_id t s.used_local_transition_ids))

  apply_stop-Spent : (l : DeviceLifecycle) → apply_stop s l ≡ ok s' → Spent t g s → Spent t g s'
  unfolding apply_stop next
  apply_stop-Spent l h spent = ground arith

  apply_scope_policy-Spent :
      (c : String) → apply_scope_policy s c ≡ ok s' → Spent t g s → Spent t g s'
  unfolding apply_scope_policy next
  apply_scope_policy-Spent c h spent = ground arith

  apply_key_activation-Spent :
      (fact : RotationActivationFact)
      → apply_key_activation s fact ≡ ok s'
      → Spent t g s
      → Spent t g s'
  unfolding apply_key_activation next
  apply_key_activation-Spent fact h spent = ground arith

  apply_change-Spent : apply_change s ≡ ok s' → Spent t g s → Spent t g s'
  unfolding apply_change next
  apply_change-Spent h spent = ground arith

  apply_revision_event-Spent :
      (authenticated : List ℕ) (e : RevisionEvent)
      → apply_revision_event authenticated s e ≡ ok s'
      → Spent t g s
      → Spent t g s'
  unfolding apply_revision_event
  apply_revision_event-Spent a (new_pairing n) h spent = apply_new_pairing-Spent n h spent
  apply_revision_event-Spent a (resume fact) h spent = apply_resume-Spent a fact h spent
  apply_revision_event-Spent a pause h spent = apply_stop-Spent paused h spent
  apply_revision_event-Spent a emergency_stop h spent = apply_stop-Spent revoked h spent
  apply_revision_event-Spent a (scope_policy_revoke c) h spent = apply_scope_policy-Spent c h spent
  apply_revision_event-Spent a (scope_policy_regrant c) h spent = apply_scope_policy-Spent c h spent
  apply_revision_event-Spent a (bridge_command_key_activated fact) h spent =
      apply_key_activation-Spent fact h spent
  apply_revision_event-Spent a system_permission_change h spent = apply_change-Spent h spent
  apply_revision_event-Spent a backend_credential_change h spent = apply_change-Spent h spent

history-Spent :
    (t : String) (g : ℕ) (s : RevisionState) (es : List (List ℕ × RevisionEvent))
    → Spent t g s
    → Spent t g (history s es)
unfolding history
history-Spent t g s [] spent = spent
history-Spent t g s ((a, e) ∷ es) spent =
    history-Spent t g (after s (apply_revision_event a s e)) es
      (kept (apply_revision_event a s e) refl)
  where
    kept : (x : Result RevisionState) → apply_revision_event a s e ≡ x → Spent t g (after s x)
    kept (err _) h = spent
    kept (ok s') h = apply_revision_event-Spent t g s a e h spent

accepted-Spent :
    (authenticated : List ℕ) (s s' : RevisionState) (fact : LocalUserTransition)
    → apply_revision_event authenticated s (resume fact) ≡ ok s'
    → Spent fact.transition_id fact.pairing_generation s'
unfolding apply_revision_event apply_resume next
accepted-Spent authenticated s s' fact h = inr (
  ground arith,
  ground (
    arith,
    has-add fact.transition_id fact.transition_id s.used_local_transition_ids,
    eq_refl fact.transition_id,
  ),
)

Spent-rejected :
    (authenticated : List ℕ) (s : RevisionState) (fact : LocalUserTransition)
    → Spent fact.transition_id fact.pairing_generation s
    → apply_revision_event authenticated s (resume fact) ≡ err auth_failed
unfolding apply_revision_event apply_resume
Spent-rejected authenticated s fact (inl old) = ground arith
Spent-rejected authenticated s fact (inr (here, used)) = ground arith

-- After a transition resumed the device, any transition with its id and pairing generation is
-- refused with AUTH_FAILED, whatever events come in between.
pub resume_once :
    (authenticated authenticated' : List ℕ) (s s' : RevisionState)
    (fact again : LocalUserTransition) (es : List (List ℕ × RevisionEvent))
    → apply_revision_event authenticated s (resume fact) ≡ ok s'
    → again.transition_id ≡ fact.transition_id
    → again.pairing_generation ≡ fact.pairing_generation
    → apply_revision_event authenticated' (history s' es) (resume again) ≡ err auth_failed
resume_once a a' s s' fact again es h same_id same_generation =
    let spent =
      history-Spent fact.transition_id fact.pairing_generation s' es
        (accepted-Spent a s s' fact h) in
    Spent-rejected a' (history s' es) again (ground arith)

-- A pause and a resume make a revoked device active in the same pairing, when the transition is
-- authenticated, is for the device and its pairing, was not used, and the epoch is not exhausted.
pub revoked_resumes :
    (authenticated : List ℕ) (s : RevisionState) (fact : LocalUserTransition)
    → s.lifecycle ≡ revoked
    → any (λ o. o == fact.object) authenticated ≡ true
    → fact.device_id ≡ s.device_id
    → fact.pairing_generation ≡ s.pairing_generation
    → has fact.transition_id s.used_local_transition_ids ≡ false
    → s.authorization_epoch + 2 ≤ u64_max
    → let s' = history s ((authenticated, pause) ∷ (authenticated, resume fact) ∷ []) in
      (s'.lifecycle ≡ active)
      × (s'.active_pairing ≡ true)
      × (s'.pairing_generation ≡ s.pairing_generation)
unfolding history apply_revision_event apply_stop apply_resume next u64_max
revoked_resumes authenticated s fact r minted device pairing fresh room = (
  ground (arith, eq_iff fact.device_id s.device_id),
  ground (arith, eq_iff fact.device_id s.device_id),
  ground (arith, eq_iff fact.device_id s.device_id),
)
