-- ===== src/Grants/Store.antt =====
-- MemoryDataQueryGrantStore. The storage key of a grant and the id of an acknowledgement, digests of
-- canonical bytes, are parameters, and an acknowledgement stands for its bytes by its values.
use agent_life.Shared.{
  ℕ, String, Bool, true, not, ◌&&◌, ◌==◌, ltb, Option, none, some, List, [], ◌∷◌, str_eq, is_none,
  Result, ok, err, ◌>>=◌, not_found, if◌then◌else◌,
}
use agent_life.Shared.Int.{pos}
use agent_life.Shared.Text.{append}
use agent_life.Shared.Dict.{get, set}
use agent_life.Shared.Sets.{has, add}
use agent_life.Grants.{
  DataQueryGrantKey, BridgeGrantState, DataQueryGrantState, VerifiedGrantUpdate, same_key, NewGrant,
  ui_of, is_digest, create_data_query_grant_state,
}
use agent_life.Grants.Update.{
  ReplayClaimReference, is_replay_claim_reference, ReplayBoundGrantUpdate,
}

pub record GrantAckOutboxEnvelope : Type 0 where
  pub outbox_id : String
  pub grant_key : DataQueryGrantKey
  pub grant_revision : ℕ
  pub proposal_digest : String
  pub bridge_effective_state : BridgeGrantState

pub record GrantStore : Type 0 where
  pub states : List (String × DataQueryGrantState)
  pub outbox : List (String × GrantAckOutboxEnvelope)
  pub sent : List String
  pub replay_by_proposal : List (String × ReplayClaimReference)
  pub proposal_by_replay_claim : List (String × String)

abbrev pub empty_store : GrantStore
empty_store = record {
  states = [];
  outbox = [];
  sent = [];
  replay_by_proposal = [];
  proposal_by_replay_claim = [];
}

pub data Applied : Type 0 where
  applied same : DataQueryGrantState → String → Applied
  not_authentic not_in_order : Applied

-- The digests of canonical bytes: of a grant key, and of an acknowledgement by key, revision, proposal
-- and state.
pub record Digests : Type 0 where
  pub storage_key : DataQueryGrantKey → String
  pub ack_id : DataQueryGrantKey → ℕ → String → BridgeGrantState → String

module _ (digests : Digests) where
  unfoldable pub proposal_key : VerifiedGrantUpdate → String
  proposal_key u = append (digests.storage_key u.key) (append "\0" u.proposal_digest)

  initial_states :
      List NewGrant
      → List (String × DataQueryGrantState)
      → Result (List (String × DataQueryGrantState))
  initial_states [] states = ok states
  initial_states (new ∷ news) states =
      create_data_query_grant_state new
      >>= (λ state. initial_states news (set (digests.storage_key new.key) state states))

  -- The constructor.
  unfoldable pub create_store : List NewGrant → Result GrantStore
  unfolding initial_states
  create_store news =
      initial_states news [] >>= (λ states. ok (record empty_store { states = states }))

  unfoldable pub new_ack : VerifiedGrantUpdate → DataQueryGrantState → GrantAckOutboxEnvelope
  new_ack u state = record {
    outbox_id =
        digests.ack_id state.key state.grant_revision u.proposal_digest
          state.bridge_effective_state;
    grant_key = state.key;
    grant_revision = state.grant_revision;
    proposal_digest = u.proposal_digest;
    bridge_effective_state = state.bridge_effective_state;
  }

  unfoldable pub ack_or :
      GrantAckOutboxEnvelope → Option GrantAckOutboxEnvelope → GrantAckOutboxEnvelope
  ack_or fresh none = fresh
  ack_or fresh (some existing) = existing

  unfoldable pub ack_for :
      GrantStore → VerifiedGrantUpdate → DataQueryGrantState → GrantAckOutboxEnvelope
  unfolding new_ack ack_or
  ack_for s u state = let fresh = new_ack u state in ack_or fresh (get fresh.outbox_id s.outbox)

  -- The two maps that bind a proposal and the row of its message.
  unfoldable pub bind : String → ReplayClaimReference → GrantStore → GrantStore
  bind proposal replay s = record s {
    replay_by_proposal = set proposal replay s.replay_by_proposal;
    proposal_by_replay_claim = set replay.claim_id proposal s.proposal_by_replay_claim;
  }

  abbrev pub keep_ack : GrantAckOutboxEnvelope → GrantStore → GrantStore
  keep_ack ack s =
      if is_none (get ack.outbox_id s.outbox)
      then record s { outbox = set ack.outbox_id ack s.outbox }
      else s

  unfoldable pub apply_same :
      GrantStore → ReplayBoundGrantUpdate → DataQueryGrantState → GrantStore × Result Applied
  unfolding ack_for bind proposal_key
  apply_same s b prior =
      let ack = ack_for s b.update prior in
      (bind (proposal_key b.update) b.replay (keep_ack ack s), ok (same prior ack.outbox_id))

  unfoldable pub apply_next :
      GrantStore → ReplayBoundGrantUpdate → Result DataQueryGrantState → GrantStore × Result Applied
  unfolding ack_for bind proposal_key
  apply_next s b (err thrown) = (s, err thrown)
  apply_next s b (ok next) =
      let ack = ack_for s b.update next in
      (
        bind (proposal_key b.update) b.replay (record s {
          outbox = set ack.outbox_id ack s.outbox;
          states = set (digests.storage_key b.update.key) next s.states;
        }),
        ok (applied next ack.outbox_id),
      )

  unfoldable pub next_state :
      ReplayBoundGrantUpdate → DataQueryGrantState → Result DataQueryGrantState
  next_state b prior = create_data_query_grant_state (record {
    key = prior.key;
    grant_revision = some (pos b.update.grant_revision);
    bridge_effective_state = some b.update.proposed_state;
    device_ui_state = some (ui_of b.update.proposed_state);
    last_proposal_digest = some b.update.proposal_digest;
  })

  unfoldable pub apply_onto :
      GrantStore → ReplayBoundGrantUpdate → Result DataQueryGrantState → GrantStore × Result Applied
  unfolding apply_same apply_next next_state
  apply_onto s b (err thrown) = (s, err thrown)
  apply_onto s b (ok prior) =
      let u = b.update in
      if not (same_key prior.key u.key)
      then (s, ok not_authentic)
      else if ltb u.grant_revision prior.grant_revision
      then (s, ok not_in_order)
      else if u.grant_revision == prior.grant_revision
      then (if is_digest prior.last_proposal_digest u.proposal_digest
          then apply_same s b prior
          else (s, ok not_in_order))
      else apply_next s b (next_state b prior)

  abbrev pub prior_state :
      DataQueryGrantKey → Option DataQueryGrantState → Result DataQueryGrantState
  prior_state key none = create_data_query_grant_state (record {
    key = key;
    grant_revision = none;
    bridge_effective_state = none;
    device_ui_state = none;
    last_proposal_digest = none;
  })
  prior_state key (some state) = ok state

  -- The row that the proposal was bound to, if any, is the row of this update.
  unfoldable pub fits_replay : ReplayClaimReference → Option ReplayClaimReference → Bool
  fits_replay replay none = true
  fits_replay replay (some prior) =
      str_eq prior.claim_id replay.claim_id
      && str_eq prior.message_id replay.message_id
      && str_eq prior.envelope_digest replay.envelope_digest

  unfoldable pub fits_proposal : String → Option String → Bool
  fits_proposal proposal none = true
  fits_proposal proposal (some prior) = str_eq prior proposal

  unfoldable pub apply_bridge_update_atomically :
      GrantStore → ReplayBoundGrantUpdate → GrantStore × Result Applied
  unfolding apply_onto fits_replay fits_proposal proposal_key
  apply_bridge_update_atomically s b =
      let proposal = proposal_key b.update in
      if not (is_replay_claim_reference b.replay)
      then (s, ok not_authentic)
      else if not (fits_replay b.replay (get proposal s.replay_by_proposal))
      then (s, ok not_authentic)
      else if not (fits_proposal proposal (get b.replay.claim_id s.proposal_by_replay_claim))
      then (s, ok not_authentic)
      else apply_onto s b
          (prior_state b.update.key (get (digests.storage_key b.update.key) s.states))

  unfoldable pub load_grant_replay_association :
      GrantStore → DataQueryGrantKey → String → Option ReplayClaimReference
  load_grant_replay_association s key digest =
      get (append (digests.storage_key key) (append "\0" digest)) s.replay_by_proposal

  unfoldable pub load : GrantStore → DataQueryGrantKey → Option DataQueryGrantState
  load s key = get (digests.storage_key key) s.states

unfoldable pub load_ack_outbox : GrantStore → String → Option GrantAckOutboxEnvelope
load_ack_outbox s id = get id s.outbox

unfoldable pub mark_ack_sent : GrantStore → String → Result GrantStore
mark_ack_sent s id =
    if is_none (get id s.outbox) then err not_found else ok (record s { sent = add id s.sent })

unfoldable pub unsent :
    List (String × GrantAckOutboxEnvelope) → List String → List GrantAckOutboxEnvelope
unsent [] sent = []
unsent ((id, envelope) ∷ outbox) sent =
    if has id sent then unsent outbox sent else envelope ∷ unsent outbox sent

-- What the iteration yields while the store stays as it is.
unfoldable pub recover_unsent_acks : GrantStore → List GrantAckOutboxEnvelope
unfolding unsent
recover_unsent_acks s = unsent s.outbox s.sent
