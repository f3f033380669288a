-- ===== src/Grants/Authority.antt =====
-- Signed updates from their frame to the store.
use agent_life.Shared.{
  ℕ, ◌<◌, ◌==◌, String, true, any, ◌≡◌, ◌⊎◌, refl, sym, ◌∙◌, subst, inl, inr, Option, none, some,
  List, [], ◌∷◌, eq_iff, Result, ok, err, ◌>>=◌, arith,
}
use agent_life.Shared.Digests.{equal_digest_trans, equal_digest_sym}
use agent_life.Shared.Dict.{get, set, Entries, Entries-get, Entries-set}
use agent_life.Grants.{
  DataQueryGrantKey, effective, GrantExpansionAuthority, DataQueryGrantState, VerifiedGrantUpdate,
  same_key,
}
use agent_life.Grants.Update.{
  UpdateFrame, Hashes, verify_data_query_grant_update, may_expand, ReplayClaimReference,
  attach_grant_replay_association, ReplayBoundGrantUpdate,
}
use agent_life.Grants.Store.{GrantStore, empty_store, Digests, load, apply_bridge_update_atomically}
use agent_life.Grants.Outcomes.{Accepted, Outcome, apply-Outcome}

same_key_trans :
    (a b c : DataQueryGrantKey) → same_key a b ≡ true → same_key c b ≡ true → same_key a c ≡ true
unfolding same_key
same_key_trans a b c h k = ground (
  arith,
  eq_iff a.tenant_id b.tenant_id,
  eq_iff c.tenant_id b.tenant_id,
  eq_iff a.tenant_id c.tenant_id,
  eq_iff a.human_principal_id b.human_principal_id,
  eq_iff c.human_principal_id b.human_principal_id,
  eq_iff a.human_principal_id c.human_principal_id,
  eq_iff a.device_id b.device_id,
  eq_iff c.device_id b.device_id,
  eq_iff a.device_id c.device_id,
  eq_iff a.capability b.capability,
  eq_iff c.capability b.capability,
  eq_iff a.capability c.capability,
  equal_digest_sym c.filter_hash b.filter_hash,
  equal_digest_trans a.filter_hash b.filter_hash c.filter_hash,
)

module _ (hashes : Hashes) (digests : Digests) where
  -- A frame as it comes: the authorities minted so far, the authority that goes with it, and the replay
  -- row of its message.
  pub record Message : Type 0 where
    pub authorities : List ℕ
    pub frame : UpdateFrame
    pub expansion : Option GrantExpansionAuthority
    pub replay : ReplayClaimReference

  bound_update : Message → Result ReplayBoundGrantUpdate
  bound_update m =
      verify_data_query_grant_update hashes m.authorities m.frame m.expansion
      >>= (λ u. attach_grant_replay_association u m.replay)

  abbrev apply_bound : GrantStore → Result ReplayBoundGrantUpdate → GrantStore
  apply_bound s (err _) = s
  apply_bound s (ok b) = (apply_bridge_update_atomically digests s b).0

  -- The store after messages, the newest first; a refused message leaves it as it is.
  unfoldable pub after_messages : List Message → GrantStore
  unfolding bound_update
  after_messages [] = empty_store
  after_messages (m ∷ ms) = apply_bound (after_messages ms) (bound_update m)

  abbrev pub Came : Message → List Message → Type 0
  Came m [] = ⊥
  Came m (x ∷ xs) = (x ≡ m) ⊎ Came m xs

  -- One of the messages brought an authority for the key that was minted before.
  pub record Authorised (key : DataQueryGrantKey) (ms : List Message) : Type 0 where
    pub message : Message
    pub came : Came message ms
    pub authority : GrantExpansionAuthority
    pub brought : message.expansion ≡ some authority
    pub minted : any (λ o. o == authority.object) message.authorities ≡ true
    pub for_key : same_key authority.key key ≡ true

  verified-may_expand :
      (m : Message) (u : VerifiedGrantUpdate)
      → verify_data_query_grant_update hashes m.authorities m.frame m.expansion ≡ ok u
      → may_expand m.authorities u.key u.proposed_state m.expansion ≡ true
  unfolding verify_data_query_grant_update
  verified-may_expand m u h = ground arith

  attached-update :
      (u : VerifiedGrantUpdate) (r : ReplayClaimReference) (b : ReplayBoundGrantUpdate)
      → attach_grant_replay_association u r ≡ ok b
      → b.update ≡ u
  unfolding attach_grant_replay_association
  attached-update u r b h = ground arith

  bound-may_expand :
      (m : Message) (b : ReplayBoundGrantUpdate) (r : Result VerifiedGrantUpdate)
      → verify_data_query_grant_update hashes m.authorities m.frame m.expansion ≡ r
      → (r >>= (λ u. attach_grant_replay_association u m.replay)) ≡ ok b
      → may_expand m.authorities b.update.key b.update.proposed_state m.expansion ≡ true
  bound-may_expand m b (err _) e h = absurd (ground arith)
  bound-may_expand m b (ok u) e h =
      subst (λ v. may_expand m.authorities v.key v.proposed_state m.expansion ≡ true)
        (sym (attached-update u m.replay b h)) (verified-may_expand m u e)

  expanded :
      (authorities : List ℕ) (key : DataQueryGrantKey) (o : Option GrantExpansionAuthority)
      → may_expand authorities key effective o ≡ true
      → (e : GrantExpansionAuthority) × (o ≡ some e)
        × (any (λ x. x == e.object) authorities ≡ true)
        × (same_key e.key key ≡ true)
  unfolding may_expand
  expanded authorities key none h = absurd (ground arith)
  expanded authorities key (some e) h = (e, refl, ground arith, ground arith)

  Authorised-more :
      (key : DataQueryGrantKey) (m : Message) (ms : List Message)
      → Authorised key ms
      → Authorised key (m ∷ ms)
  Authorised-more key m ms a = record {
    message = a.message;
    came = inr a.came;
    authority = a.authority;
    brought = a.brought;
    minted = a.minted;
    for_key = a.for_key;
  }

  abbrev Backed : List Message → String → DataQueryGrantState → Type 0
  Backed ms place st = st.bridge_effective_state ≡ effective → Authorised st.key ms

  Backed-more :
      (m : Message) (ms : List Message) (states : List (String × DataQueryGrantState))
      → Entries (Backed ms) states
      → Entries (Backed (m ∷ ms)) states
  Backed-more m ms [] h = tt
  Backed-more m ms ((place, st) ∷ states) (b, h) =
      ((λ e. Authorised-more st.key m ms (b e)), Backed-more m ms states h)

  new-Backed :
      (m : Message) (ms : List Message) (b : ReplayBoundGrantUpdate) (st : DataQueryGrantState)
      (place : String)
      → may_expand m.authorities b.update.key b.update.proposed_state m.expansion ≡ true
      → st.bridge_effective_state ≡ b.update.proposed_state
      → same_key st.key b.update.key ≡ true
      → Backed (m ∷ ms) place st
  new-Backed m ms b st place h bridge alike e =
      let (authority, brought, minted, for_key) = expanded m.authorities b.update.key m.expansion (
        subst (λ s. may_expand m.authorities b.update.key s m.expansion ≡ true) (sym bridge ∙ e)
          h) in
      record {
        message = m;
        came = inl refl;
        authority = authority;
        brought = brought;
        minted = minted;
        for_key = same_key_trans authority.key b.update.key st.key for_key alike;
      }

  Accepted-Backed :
      (m : Message) (ms : List Message) (s s' : GrantStore) (b : ReplayBoundGrantUpdate)
      (id : String)
      → may_expand m.authorities b.update.key b.update.proposed_state m.expansion ≡ true
      → Accepted digests s b id s'
      → Entries (Backed (m ∷ ms)) s.states
      → Entries (Backed (m ∷ ms)) s'.states
  Accepted-Backed m ms s s' b id may a h = go a.states_are
    where
      go :
          (s'.states ≡ s.states)
            ⊎ ((s'.states ≡ set (digests.storage_key b.update.key) a.state s.states)
                × ((prior : DataQueryGrantState)
                    → get (digests.storage_key b.update.key) s.states ≡ some prior
                    → (prior.grant_revision < a.state.grant_revision) × (a.state.key ≡ prior.key))
                × (a.state.bridge_effective_state ≡ b.update.proposed_state)
                × (same_key a.state.key b.update.key ≡ true))
          → Entries (Backed (m ∷ ms)) s'.states
      go (inl same) = subst (Entries (Backed (m ∷ ms))) (sym same) h
      go (inr (e, _, bridge, alike)) = subst (Entries (Backed (m ∷ ms))) (sym e) (
          Entries-set (Backed (m ∷ ms)) (digests.storage_key b.update.key) a.state s.states h
            (new-Backed m ms b a.state (digests.storage_key b.update.key) may bridge alike))

  Outcome-Backed :
      (m : Message) (ms : List Message) (s s' : GrantStore) (b : ReplayBoundGrantUpdate)
      (o : Option String)
      → may_expand m.authorities b.update.key b.update.proposed_state m.expansion ≡ true
      → Outcome digests s b s' o
      → Entries (Backed (m ∷ ms)) s.states
      → Entries (Backed (m ∷ ms)) s'.states
  unfolding Outcome
  Outcome-Backed m ms s s' b none may same h =
      subst (λ r. Entries (Backed (m ∷ ms)) r.states) (sym same) h
  Outcome-Backed m ms s s' b (some id) may a h = Accepted-Backed m ms s s' b id may a h

  bound-Backed :
      (m : Message) (ms : List Message) (s : GrantStore) (r : Result ReplayBoundGrantUpdate)
      → bound_update m ≡ r
      → Entries (Backed (m ∷ ms)) s.states
      → Entries (Backed (m ∷ ms)) (apply_bound s r).states
  bound-Backed m ms s (err _) e h = h
  bound-Backed m ms s (ok b) e h =
      Outcome-Backed m ms s _ b _
        (bound-may_expand m b
          (verify_data_query_grant_update hashes m.authorities m.frame m.expansion) refl
          (unfold bound_update in e))
        (apply-Outcome digests s b) h

  after_messages-Backed : (ms : List Message) → Entries (Backed ms) (after_messages ms).states
  unfolding after_messages
  after_messages-Backed [] = tt
  after_messages-Backed (m ∷ ms) =
      bound-Backed m ms (after_messages ms) (bound_update m) refl
        (Backed-more m ms (after_messages ms).states (after_messages-Backed ms))

  -- In a store that began empty and got its updates from frames that verify and are bound to their
  -- replay rows, a grant is effective only if one of the frames came with an expansion authority that
  -- was minted before, for the grant's own key: tenant, human, device, capability and filter.
  pub effective-Authorised :
      (ms : List Message) (key : DataQueryGrantKey) {st : DataQueryGrantState}
      → load digests (after_messages ms) key ≡ some st
      → st.bridge_effective_state ≡ effective
      → Authorised st.key ms
  unfolding load
  effective-Authorised ms key found e =
      Entries-get (Backed ms) (digests.storage_key key) (after_messages ms).states
        (after_messages-Backed ms) found e
