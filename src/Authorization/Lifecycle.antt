-- ===== src/Authorization/Lifecycle.antt =====
-- What events do to the lifecycle, the bounds and the rest of the state.
use agent_life.Shared.{
  ℕ, suc, ◌≡◌, ◌≢◌, refl, String, true, false, none, List, [], ◌∷◌, ◌≤◌, arith, Result, ok, err,
  eq_iff, any, ◌==◌, sym, subst,
}
use agent_life.Shared.Int.{ℤ, pos, negsuc, u64_max}
use agent_life.Shared.Dict.{get, set, Entries, Entries-set}
use agent_life.Authorization.{
  DeviceLifecycle, active, paused, revoked, is_active, LocalUserTransition, RotationActivationFact,
  RevisionEvent, new_pairing, pause, emergency_stop, system_permission_change,
  backend_credential_change, resume, scope_policy_revoke, scope_policy_regrant,
  bridge_command_key_activated, RevisionState, ensure_u64, next, or_else, RevisionStateInput,
  create_authorization_revision_state, clone_scope_revisions, clone_entries, map_or_object,
  immutable_map, absent, ScopeRevisionInput,
}
use agent_life.Authorization.Step.{
  apply_revision_event, apply_new_pairing, apply_resume, apply_stop, apply_scope_policy,
  apply_key_activation, apply_change,
}
use agent_life.Authorization.Order.{after, history}

-- What makes a device that is not active become active.
pub data Reactivation (authenticated : List ℕ) (s : RevisionState) : RevisionEvent → Type 0 where
  by_new_pairing :
      s.lifecycle ≡ revoked
      → Reactivation authenticated s (new_pairing (pos (suc s.pairing_generation)))
  by_resume :
      (fact : LocalUserTransition)
      → s.lifecycle ≡ paused
      → any (λ o. o == fact.object) authenticated ≡ true
      → fact.device_id ≡ s.device_id
      → fact.pairing_generation ≡ s.pairing_generation
      → Reactivation authenticated s (resume fact)

module _ (authenticated : List ℕ) (s : RevisionState) {s' : RevisionState} where
  apply_new_pairing-generation :
      (g : ℤ)
      → apply_new_pairing s g ≡ ok s'
      → (g ≡ pos (suc s.pairing_generation)) × (s.lifecycle ≡ revoked)
  unfolding apply_new_pairing ensure_u64
  apply_new_pairing-generation g h = (ground arith, ground arith)

  resumes :
      (fact : LocalUserTransition)
      → apply_resume authenticated s fact ≡ ok s'
      → Reactivation authenticated s (resume fact)
  unfolding apply_resume
  resumes fact h =
      by_resume fact (ground arith) (ground arith)
        (ground (arith, eq_iff fact.device_id s.device_id)) (ground arith)

  -- A device that is not active becomes active only by the next pairing after a revocation, or by a
  -- transition that was authenticated for it in its pairing while it was paused.
  pub reactivation :
      (e : RevisionEvent)
      → apply_revision_event authenticated s e ≡ ok s'
      → s.lifecycle ≢ active
      → s'.lifecycle ≡ active
      → Reactivation authenticated s e
  unfolding apply_revision_event apply_stop apply_scope_policy apply_key_activation apply_change
      next
  reactivation (new_pairing g) h before now =
      let (same, was) = apply_new_pairing-generation g h in
      subst (λ n. Reactivation authenticated s (new_pairing n)) (sym same) (by_new_pairing was)
  reactivation (resume fact) h before now = resumes fact h
  reactivation pause h before now = absurd (ground arith)
  reactivation emergency_stop h before now = absurd (ground arith)
  reactivation (scope_policy_revoke c) h before now = absurd (ground arith)
  reactivation (scope_policy_regrant c) h before now = absurd (ground arith)
  reactivation (bridge_command_key_activated fact) h before now = absurd (ground arith)
  reactivation system_permission_change h before now = absurd (ground arith)
  reactivation backend_credential_change h before now = absurd (ground arith)

abbrev pub Bounded : String → ℕ → Type 0
Bounded scope revision = revision ≤ u64_max

moved :
    (a : List (String × ℕ)) {b : List (String × ℕ)} → Entries Bounded a → a ≡ b → Entries Bounded b
moved a h e = subst (Entries Bounded) e h

-- The pairing is active exactly in the lifecycle `active`, and every number fits 64 bits.
pub record Valid (s : RevisionState) : Type 0 where
  pub pairing : s.active_pairing ≡ is_active s.lifecycle
  pub generation : s.pairing_generation ≤ u64_max
  pub epoch : s.authorization_epoch ≤ u64_max
  pub scopes : Entries Bounded s.scope_revisions

module _ (s : RevisionState) {s' : RevisionState} where
  apply_new_pairing-Valid : (g : ℤ) → apply_new_pairing s g ≡ ok s' → Valid s → Valid s'
  unfolding apply_new_pairing ensure_u64 u64_max
  apply_new_pairing-Valid g h v = record {
    pairing = ground arith;
    generation = ground arith;
    epoch = ground arith;
    scopes = moved [] tt (ground arith);
  }

  apply_resume-Valid :
      (a : List ℕ) (fact : LocalUserTransition) → apply_resume a s fact ≡ ok s' → Valid s → Valid s'
  unfolding apply_resume next u64_max
  apply_resume-Valid a fact h v = record {
    pairing = ground arith;
    generation = ground (arith, v.generation);
    epoch = ground arith;
    scopes = moved s.scope_revisions v.scopes (ground arith);
  }

  apply_stop-Valid :
      (l : DeviceLifecycle) → is_active l ≡ false → apply_stop s l ≡ ok s' → Valid s → Valid s'
  unfolding apply_stop next u64_max
  apply_stop-Valid l inactive h v = record {
    pairing = ground arith;
    generation = ground (arith, v.generation);
    epoch = ground arith;
    scopes = moved s.scope_revisions v.scopes (ground arith);
  }

  apply_scope_policy-Valid : (c : String) → apply_scope_policy s c ≡ ok s' → Valid s → Valid s'
  unfolding apply_scope_policy next u64_max
  apply_scope_policy-Valid c h v =
      let revision = suc (or_else (get c s.scope_revisions) 0) in
      record {
        pairing = ground (arith, v.pairing);
        generation = ground (arith, v.generation);
        epoch = ground arith;
        scopes =
            moved (set c revision s.scope_revisions)
              (Entries-set Bounded c revision s.scope_revisions v.scopes (ground arith))
              (ground arith);
      }

  apply_key_activation-Valid :
      (fact : RotationActivationFact) → apply_key_activation s fact ≡ ok s' → Valid s → Valid s'
  unfolding apply_key_activation next u64_max
  apply_key_activation-Valid fact h v = record {
    pairing = ground (arith, v.pairing);
    generation = ground (arith, v.generation);
    epoch = ground arith;
    scopes = moved s.scope_revisions v.scopes (ground arith);
  }

  apply_change-Valid : apply_change s ≡ ok s' → Valid s → Valid s'
  unfolding apply_change next u64_max
  apply_change-Valid h v = record {
    pairing = ground (arith, v.pairing);
    generation = ground (arith, v.generation);
    epoch = ground arith;
    scopes = moved s.scope_revisions v.scopes (ground arith);
  }

  pub apply_revision_event-Valid :
      (authenticated : List ℕ) (e : RevisionEvent)
      → apply_revision_event authenticated s e ≡ ok s'
      → Valid s
      → Valid s'
  unfolding apply_revision_event
  apply_revision_event-Valid a (new_pairing g) h v = apply_new_pairing-Valid g h v
  apply_revision_event-Valid a (resume fact) h v = apply_resume-Valid a fact h v
  apply_revision_event-Valid a pause h v = apply_stop-Valid paused refl h v
  apply_revision_event-Valid a emergency_stop h v = apply_stop-Valid revoked refl h v
  apply_revision_event-Valid a (scope_policy_revoke c) h v = apply_scope_policy-Valid c h v
  apply_revision_event-Valid a (scope_policy_regrant c) h v = apply_scope_policy-Valid c h v
  apply_revision_event-Valid a (bridge_command_key_activated fact) h v =
      apply_key_activation-Valid fact h v
  apply_revision_event-Valid a system_permission_change h v = apply_change-Valid h v
  apply_revision_event-Valid a backend_credential_change h v = apply_change-Valid h v

history-Valid :
    (s : RevisionState) (es : List (List ℕ × RevisionEvent)) → Valid s → Valid (history s es)
unfolding history
history-Valid s [] v = v
history-Valid s ((a, e) ∷ es) v =
    history-Valid (after s (apply_revision_event a s e)) es (kept (apply_revision_event a s e) refl)
  where
    kept : (x : Result RevisionState) → apply_revision_event a s e ≡ x → Valid (after s x)
    kept (err _) h = v
    kept (ok s') h = apply_revision_event-Valid s a e h v

clone_entries-Bounded :
    (result : List (String × ℕ)) (entries : List (String × ℤ)) {scopes : List (String × ℕ)}
    → clone_entries result entries ≡ ok scopes
    → Entries Bounded result
    → Entries Bounded scopes
unfolding clone_entries ensure_u64
clone_entries-Bounded result [] h b = moved result b (ground arith)
clone_entries-Bounded result ((scope, pos n) ∷ rest) h b =
    clone_entries-Bounded (set scope n result) rest (ground arith)
      (Entries-set Bounded scope n result b (ground arith))
clone_entries-Bounded result ((scope, negsuc n) ∷ rest) h b = absurd (ground arith)

clone_scope_revisions-Bounded :
    (input : ScopeRevisionInput) {scopes : List (String × ℕ)}
    → clone_scope_revisions input ≡ ok scopes
    → Entries Bounded scopes
unfolding clone_scope_revisions
clone_scope_revisions-Bounded (map_or_object entries) h = clone_entries-Bounded [] entries h tt
clone_scope_revisions-Bounded (immutable_map _) h = moved [] tt (ground arith)
clone_scope_revisions-Bounded absent h = moved [] tt (ground arith)

created-Valid :
    (input : RevisionStateInput) {s : RevisionState}
    → input.active_pairing ≡ none
    → create_authorization_revision_state input ≡ ok s
    → Valid s
unfolding create_authorization_revision_state ensure_u64 u64_max
created-Valid input default h = record {
  pairing = ground arith;
  generation = ground arith;
  epoch = ground arith;
  scopes = clone_scope_revisions-Bounded input.scope_revisions (ground arith);
}

-- A state that was created with the default pairing flag has, after any events, an active pairing
-- exactly in the lifecycle `active`, and generation, epoch and scope revisions of 64 bits.
pub created_history-Valid :
    (input : RevisionStateInput) (s : RevisionState) (es : List (List ℕ × RevisionEvent))
    → input.active_pairing ≡ none
    → create_authorization_revision_state input ≡ ok s
    → Valid (history s es)
created_history-Valid input s es default h = history-Valid s es (created-Valid input default h)

-- Creating a state from the scope revisions of a snapshot or of another state, an immutable map,
-- loses every one of them.
immutable_map_lost :
    (input : RevisionStateInput) (scopes : List (String × ℕ)) (s : RevisionState)
    → input.scope_revisions ≡ immutable_map scopes
    → create_authorization_revision_state input ≡ ok s
    → s.scope_revisions ≡ []
unfolding create_authorization_revision_state clone_scope_revisions ensure_u64
immutable_map_lost input scopes s h e = ground arith
