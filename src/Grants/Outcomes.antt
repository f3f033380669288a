-- ===== src/Grants/Outcomes.antt =====
-- What an update may do to the store, and runs of calls.
use agent_life.Shared.{
  ◌<◌, String, Bool, true, false, not, ◌==◌, ltb, ◌≡◌, ◌⊎◌, refl, sym, ◌∙◌, ap, inl, inr, Option,
  none, some, List, [], ◌∷◌, is_none, Result, ok, err, Bool-cases, arith,
}
use agent_life.Shared.Dict.{get, set}
use agent_life.Grants.{
  DataQueryGrantState, same_key, is_digest, create_data_query_grant_state, in_u64,
}
use agent_life.Grants.Update.{is_replay_claim_reference, ReplayBoundGrantUpdate}
use agent_life.Grants.Store.{
  GrantAckOutboxEnvelope, GrantStore, Applied, applied, same, not_authentic, not_in_order, Digests,
  proposal_key, ack_for, bind, keep_ack, apply_same, apply_next, next_state, apply_onto,
  prior_state, fits_replay, fits_proposal, apply_bridge_update_atomically, mark_ack_sent,
}

pub data Call : Type 0 where
  apply_call : ReplayBoundGrantUpdate → Call
  sent_call : String → Call

abbrev pub answer : Result Applied → Option Applied
answer (ok a) = some a
answer (err _) = none

-- The id of the acknowledgement of an accepted update.
abbrev pub accepted : Option Applied → Option String
accepted (some (applied state id)) = some id
accepted (some (same state id)) = some id
accepted _ = none

abbrev store_or : GrantStore → Result GrantStore → GrantStore
store_or s (ok s') = s'
store_or s (err _) = s

module _ (digests : Digests) where
  unfoldable pub step : GrantStore → Call → GrantStore × Option Applied
  step s (apply_call b) = let r = apply_bridge_update_atomically digests s b in (r.0, answer (r.1))
  step s (sent_call id) = (store_or s (mark_ack_sent s id), none)

  unfoldable pub run : GrantStore → List Call → GrantStore
  run s [] = s
  run s (call ∷ calls) = run ((step s call).0) calls

  -- An accepted update: its row and proposal were bound to each other or free, its acknowledgement is
  -- in the outbox, and the grant is as it was or has a higher revision.
  pub record Accepted (s : GrantStore) (b : ReplayBoundGrantUpdate) (id : String) (s' : GrantStore)
      : Type 0 where
    pub state : DataQueryGrantState
    pub fits_row :
        fits_replay digests b.replay (get (proposal_key digests b.update) s.replay_by_proposal)
        ≡ true
    pub fits_binding :
        fits_proposal digests
          (proposal_key digests b.update)
          (get b.replay.claim_id s.proposal_by_replay_claim)
        ≡ true
    pub rows :
        s'.replay_by_proposal ≡ set (proposal_key digests b.update) b.replay s.replay_by_proposal
    pub bindings :
        s'.proposal_by_replay_claim
        ≡ set b.replay.claim_id (proposal_key digests b.update) s.proposal_by_replay_claim
    pub sent_kept : s'.sent ≡ s.sent
    pub id_is : id ≡ (ack_for digests s b.update state).outbox_id
    pub outbox_is :
        (s'.outbox ≡ set id (ack_for digests s b.update state) s.outbox)
        ⊎ ((s'.outbox ≡ s.outbox) × (is_none (get id s.outbox) ≡ false))
    pub states_are :
        (s'.states ≡ s.states)
        ⊎ ((s'.states ≡ set (digests.storage_key b.update.key) state s.states)
            × ((prior : DataQueryGrantState)
                → get (digests.storage_key b.update.key) s.states ≡ some prior
                → (prior.grant_revision < state.grant_revision) × (state.key ≡ prior.key))
            × (state.bridge_effective_state ≡ b.update.proposed_state)
            × (same_key state.key b.update.key ≡ true))

  unfoldable pub Outcome : GrantStore → ReplayBoundGrantUpdate → GrantStore → Option String → Type 0
  Outcome s b s' none = s' ≡ s
  Outcome s b s' (some id) = Accepted s b id s'

  unfoldable Answered : GrantStore → ReplayBoundGrantUpdate → GrantStore × Result Applied → Type 0
  Answered s b r = Outcome s b (r.0) (accepted (answer (r.1)))

  refused-Answered :
      (s : GrantStore) (b : ReplayBoundGrantUpdate) (r : Result Applied)
      → accepted (answer r) ≡ none
      → Answered s b (s, r)
  unfolding Answered Outcome
  refused-Answered s b r h = rw h refl

  next_state-values :
      (b : ReplayBoundGrantUpdate) (prior : DataQueryGrantState) {next : DataQueryGrantState}
      → next_state digests b prior ≡ ok next
      → (next.key ≡ prior.key)
        × (next.grant_revision ≡ b.update.grant_revision)
        × (next.bridge_effective_state ≡ b.update.proposed_state)
  unfolding next_state create_data_query_grant_state in_u64
  next_state-values b prior h = (ground arith, ground arith, ground arith)

  apply_next-Answered :
      (s : GrantStore) (b : ReplayBoundGrantUpdate) (prior : DataQueryGrantState)
      (r : Result DataQueryGrantState)
      → next_state digests b prior ≡ r
      → fits_replay digests b.replay (get (proposal_key digests b.update) s.replay_by_proposal)
        ≡ true
      → fits_proposal digests
          (proposal_key digests b.update)
          (get b.replay.claim_id s.proposal_by_replay_claim)
        ≡ true
      → ltb prior.grant_revision b.update.grant_revision ≡ true
      → same_key prior.key b.update.key ≡ true
      → ((old : DataQueryGrantState)
          → get (digests.storage_key b.update.key) s.states ≡ some old
          → old ≡ prior)
      → Answered s b (apply_next digests s b r)
  unfolding apply_next
  apply_next-Answered s b prior (err thrown) e fr fp newer alike old =
      refused-Answered s b (err thrown) refl
  apply_next-Answered s b prior (ok next) e fr fp newer alike old =
      let (key_is, revision_is, bridge_is) = next_state-values b prior e in
      unfold Answered Outcome bind in
      record {
        state = next;
        fits_row = fr;
        fits_binding = fp;
        rows = refl;
        bindings = refl;
        sent_kept = refl;
        id_is = refl;
        outbox_is = inl refl;
        states_are = inr (
          refl,
          λ was h.
              let is_prior = old was h in
              (ground (arith, is_prior), key_is ∙ ap DataQueryGrantState.key (sym is_prior)),
          bridge_is,
          ap (λ k. same_key k b.update.key) key_is ∙ alike,
        );
      }

  keep_ack-outbox :
      (s : GrantStore) (ack : GrantAckOutboxEnvelope) (o : Bool)
      → is_none (get ack.outbox_id s.outbox) ≡ o
      → ((keep_ack digests ack s).outbox ≡ set ack.outbox_id ack s.outbox)
        ⊎ (((keep_ack digests ack s).outbox ≡ s.outbox)
            × (is_none (get ack.outbox_id s.outbox) ≡ false))
  keep_ack-outbox s ack true e = rw e (inl refl)
  keep_ack-outbox s ack false e = rw e (inr (refl, refl))

  apply_same-Answered :
      (s : GrantStore) (b : ReplayBoundGrantUpdate) (prior : DataQueryGrantState)
      → fits_replay digests b.replay (get (proposal_key digests b.update) s.replay_by_proposal)
        ≡ true
      → fits_proposal digests
          (proposal_key digests b.update)
          (get b.replay.claim_id s.proposal_by_replay_claim)
        ≡ true
      → Answered s b (apply_same digests s b prior)
  unfolding apply_same
  apply_same-Answered s b prior fr fp =
      let ack = ack_for digests s b.update prior in
      unfold Answered Outcome bind in
      record {
        state = prior;
        fits_row = fr;
        fits_binding = fp;
        rows = ground arith;
        bindings = ground arith;
        sent_kept = ground arith;
        id_is = refl;
        outbox_is = keep_ack-outbox s ack (is_none (get ack.outbox_id s.outbox)) refl;
        states_are = inl (ground arith);
      }

  abbrev Fits : GrantStore → ReplayBoundGrantUpdate → Type 0
  Fits s b =
      (fits_replay digests b.replay (get (proposal_key digests b.update) s.replay_by_proposal)
        ≡ true)
      × (fits_proposal digests (proposal_key digests b.update)
            (get b.replay.claim_id s.proposal_by_replay_claim)
          ≡ true)

  apply_known-Answered :
      (s : GrantStore) (b : ReplayBoundGrantUpdate) (prior : DataQueryGrantState)
      → Fits s b
      → ((old : DataQueryGrantState)
          → get (digests.storage_key b.update.key) s.states ≡ some old
          → old ≡ prior)
      → Answered s b (apply_onto digests s b (ok prior))
  unfolding apply_onto
  apply_known-Answered s b prior (fr, fp) old =
      elim (Bool-cases (not (same_key prior.key b.update.key))) [
        | inl other ↦ rw (other, apply_onto) (refused-Answered s b (ok not_authentic) refl)
        | inr key ↦ elim (Bool-cases (ltb b.update.grant_revision prior.grant_revision)) [
          | inl older ↦ rw (key, older, apply_onto) (refused-Answered s b (ok not_in_order) refl)
          | inr newer ↦ elim (Bool-cases (b.update.grant_revision == prior.grant_revision)) [
            | inl equal ↦
                elim (Bool-cases (is_digest prior.last_proposal_digest b.update.proposal_digest)) [
                  | inl repeated ↦
                      rw (key, newer, equal, repeated, apply_onto)
                        (apply_same-Answered s b prior fr fp)
                  | inr different ↦
                      rw (key, newer, equal, different, apply_onto)
                        (refused-Answered s b (ok not_in_order) refl)
                ]
            | inr unequal ↦
                rw (key, newer, unequal, apply_onto)
                  (apply_next-Answered s b prior (next_state digests b prior) refl fr fp
                    (ground arith) (ground arith) old)
          ]
        ]
      ]

  apply_onto-Answered :
      (s : GrantStore) (b : ReplayBoundGrantUpdate) (r : Result DataQueryGrantState)
      → prior_state digests b.update.key (get (digests.storage_key b.update.key) s.states) ≡ r
      → Fits s b
      → Answered s b (apply_onto digests s b r)
  unfolding apply_onto
  apply_onto-Answered s b (err thrown) e fits = refused-Answered s b (err thrown) refl
  apply_onto-Answered s b (ok prior) e fits =
      apply_known-Answered s b prior fits (λ old h. was_prior old h)
    where
      ok_injective : (x y : DataQueryGrantState) → ok x ≡ ok y → x ≡ y
      ok_injective x y h = ground arith

      was_prior :
          (old : DataQueryGrantState)
          → get (digests.storage_key b.update.key) s.states ≡ some old
          → old ≡ prior
      was_prior old h = ok_injective old prior (sym (ap (prior_state digests b.update.key) h) ∙ e)

  pub apply-Outcome :
      (s : GrantStore) (b : ReplayBoundGrantUpdate)
      → (let r = apply_bridge_update_atomically digests s b in
          Outcome s b (r.0) (accepted (answer (r.1))))
  unfolding apply_bridge_update_atomically Answered
  apply-Outcome s b =
      let fr =
        fits_replay digests b.replay (get (proposal_key digests b.update) s.replay_by_proposal) in
      let fp =
        fits_proposal digests (proposal_key digests b.update)
          (get b.replay.claim_id s.proposal_by_replay_claim) in
      elim (Bool-cases (not (is_replay_claim_reference b.replay))) [
        | inl forged ↦
            rw (forged, apply_bridge_update_atomically)
              (refused-Answered s b (ok not_authentic) refl)
        | inr real ↦ elim (Bool-cases (not fr)) [
          | inl other_row ↦
              rw (real, other_row, apply_bridge_update_atomically)
                (refused-Answered s b (ok not_authentic) refl)
          | inr row ↦ elim (Bool-cases (not fp)) [
            | inl other ↦
                rw (real, row, other, apply_bridge_update_atomically)
                  (refused-Answered s b (ok not_authentic) refl)
            | inr bound ↦
                rw (real, row, bound, apply_bridge_update_atomically)
                  (apply_onto-Answered s b
                    (prior_state digests b.update.key
                      (get (digests.storage_key b.update.key) s.states))
                    refl (ground arith, ground arith))
          ]
        ]
      ]
