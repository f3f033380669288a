-- ===== src/Authorization/Order.antt =====
-- How an accepted event moves a revision, and histories of events.
use agent_life.Shared.{
  ℕ, suc, ◌≡◌, ◌⊎◌, inl, inr, refl, String, false, List, [], ◌∷◌, ◌<◌, ◌≤◌, sym, arith, Result, ok,
  err,
}
use agent_life.Shared.Int.{ℤ, u64_max}
use agent_life.Authorization.{
  DeviceLifecycle, active, paused, revoked, LocalUserTransition, RotationActivationFact,
  RevisionEvent, new_pairing, pause, emergency_stop, system_permission_change,
  backend_credential_change, resume, scope_policy_revoke, scope_policy_regrant,
  bridge_command_key_activated, RevisionState, ensure_u64, next,
}
use agent_life.Authorization.Step.{
  apply_revision_event, apply_new_pairing, apply_resume, apply_stop, apply_scope_policy,
  apply_key_activation, apply_change, revision_snapshot, revisions_equal,
}

-- The pairing generation comes first, then the authorization epoch.
abbrev pub Later : RevisionState → RevisionState → Type 0
Later s s' =
    (s.pairing_generation < s'.pairing_generation)
    ⊎ ((s.pairing_generation ≡ s'.pairing_generation)
        × (s.authorization_epoch < s'.authorization_epoch))

pub next_lem : (n : ℕ) {m : ℕ} → next n ≡ ok m → (m ≡ suc n) × (m ≤ u64_max)
unfolding next u64_max
next_lem n h = ground arith

-- An event moves a state to a new pairing after a revocation, or by one epoch within the pairing.
pub record NewPairing (s s' : RevisionState) : Type 0 where
  pub was_revoked : s.lifecycle ≡ revoked
  pub generation : s'.pairing_generation ≡ suc s.pairing_generation
  pub bound : s'.pairing_generation ≤ u64_max
  pub epoch : s'.authorization_epoch ≡ 0
  pub now_active : s'.lifecycle ≡ active

pub record NextEpoch (s s' : RevisionState) : Type 0 where
  pub generation : s'.pairing_generation ≡ s.pairing_generation
  pub epoch : s'.authorization_epoch ≡ suc s.authorization_epoch
  pub bound : s'.authorization_epoch ≤ u64_max

apply_new_pairing-NewPairing :
    (s : RevisionState) (g : ℤ) {s' : RevisionState}
    → apply_new_pairing s g ≡ ok s'
    → NewPairing s s'
unfolding apply_new_pairing ensure_u64 u64_max
apply_new_pairing-NewPairing s g h = record {
  was_revoked = ground arith;
  generation = ground arith;
  bound = ground arith;
  epoch = ground arith;
  now_active = ground arith;
}

module _ (s : RevisionState) {s' : RevisionState} where
  apply_resume-NextEpoch :
      (authenticated : List ℕ) (fact : LocalUserTransition)
      → apply_resume authenticated s fact ≡ ok s'
      → NextEpoch s s'
  unfolding apply_resume next u64_max
  apply_resume-NextEpoch authenticated fact h = record {
    generation = ground arith;
    epoch = ground arith;
    bound = ground arith;
  }

  apply_stop-NextEpoch : (l : DeviceLifecycle) → apply_stop s l ≡ ok s' → NextEpoch s s'
  unfolding apply_stop next u64_max
  apply_stop-NextEpoch l h = record {
    generation = ground arith;
    epoch = ground arith;
    bound = ground arith;
  }

  apply_scope_policy-NextEpoch : (c : String) → apply_scope_policy s c ≡ ok s' → NextEpoch s s'
  unfolding apply_scope_policy next u64_max
  apply_scope_policy-NextEpoch c h = record {
    generation = ground arith;
    epoch = ground arith;
    bound = ground arith;
  }

  apply_key_activation-NextEpoch :
      (fact : RotationActivationFact) → apply_key_activation s fact ≡ ok s' → NextEpoch s s'
  unfolding apply_key_activation next u64_max
  apply_key_activation-NextEpoch fact h = record {
    generation = ground arith;
    epoch = ground arith;
    bound = ground arith;
  }

  apply_change-NextEpoch : apply_change s ≡ ok s' → NextEpoch s s'
  unfolding apply_change next u64_max
  apply_change-NextEpoch h = record {
    generation = ground arith;
    epoch = ground arith;
    bound = ground arith;
  }

  -- An accepted event starts the next pairing at epoch 0, which only a new pairing of a revoked
  -- device does, or stays in the pairing and moves to the next epoch; both fit 64 bits.
  pub apply_revision_event-moves :
      (authenticated : List ℕ) (e : RevisionEvent)
      → apply_revision_event authenticated s e ≡ ok s'
      → NewPairing s s' ⊎ NextEpoch s s'
  unfolding apply_revision_event
  apply_revision_event-moves a (new_pairing g) h = inl (apply_new_pairing-NewPairing s g h)
  apply_revision_event-moves a (resume fact) h = inr (apply_resume-NextEpoch a fact h)
  apply_revision_event-moves a pause h = inr (apply_stop-NextEpoch paused h)
  apply_revision_event-moves a emergency_stop h = inr (apply_stop-NextEpoch revoked h)
  apply_revision_event-moves a (scope_policy_revoke c) h = inr (apply_scope_policy-NextEpoch c h)
  apply_revision_event-moves a (scope_policy_regrant c) h = inr (apply_scope_policy-NextEpoch c h)
  apply_revision_event-moves a (bridge_command_key_activated fact) h =
      inr (apply_key_activation-NextEpoch fact h)
  apply_revision_event-moves a system_permission_change h = inr (apply_change-NextEpoch h)
  apply_revision_event-moves a backend_credential_change h = inr (apply_change-NextEpoch h)

  pub apply_revision_event-Later :
      (authenticated : List ℕ) (e : RevisionEvent)
      → apply_revision_event authenticated s e ≡ ok s'
      → Later s s'
  apply_revision_event-Later a e h = elim (apply_revision_event-moves a e h) [
    | inl n ↦ inl (omega (arith, n.generation))
    | inr n ↦ inr (sym n.generation, omega (arith, n.epoch))
  ]

-- A rejected event leaves the state that its caller holds.
abbrev pub after : RevisionState → Result RevisionState → RevisionState
after s (err _) = s
after s (ok s') = s'

-- A history of events, each with the transitions that were authenticated by then.
unfoldable pub history : RevisionState → List (List ℕ × RevisionEvent) → RevisionState
history s [] = s
history s ((authenticated, e) ∷ es) = history (after s (apply_revision_event authenticated s e)) es

after-Later :
    (s first : RevisionState) (a : List ℕ) (e : RevisionEvent) (x : Result RevisionState)
    → apply_revision_event a first e ≡ x
    → Later s first
    → Later s (after first x)
after-Later s first a e (err _) h l = l
after-Later s first a e (ok s') h l = let m = apply_revision_event-Later first a e h in ground arith

pub history-Later :
    (s first : RevisionState) (es : List (List ℕ × RevisionEvent))
    → Later s first
    → Later s (history first es)
unfolding history
history-Later s first [] l = l
history-Later s first ((a, e) ∷ es) l =
    history-Later s (after first (apply_revision_event a first e)) es
      (after-Later s first a e (apply_revision_event a first e) refl l)

Later-revisions_equal :
    (s s' : RevisionState)
    → Later s s'
    → (revisions_equal (revision_snapshot s) (revision_snapshot s') ≡ false)
      × (revisions_equal (revision_snapshot s') (revision_snapshot s) ≡ false)
unfolding revisions_equal revision_snapshot
Later-revisions_equal s s' (inl l) = (ground arith, ground arith)
Later-revisions_equal s s' (inr (_, l)) = (ground arith, ground arith)

-- A snapshot that was taken before an event was accepted never equals one taken after it, whatever
-- events follow, accepted or rejected.
pub stale_forever :
    (authenticated : List ℕ) (s s' : RevisionState) (e : RevisionEvent)
    (es : List (List ℕ × RevisionEvent))
    → apply_revision_event authenticated s e ≡ ok s'
    → (revisions_equal (revision_snapshot s) (revision_snapshot (history s' es)) ≡ false)
      × (revisions_equal (revision_snapshot (history s' es)) (revision_snapshot s) ≡ false)
stale_forever a s s' e es h =
    Later-revisions_equal s (history s' es)
      (history-Later s s' es (apply_revision_event-Later s a e h))
