-- ===== src/Grants/Device.antt =====
-- Runs of `reduceDataQueryGrant` from a new grant.
use agent_life.Shared.{
  String, true, not, ◌&&◌, ◌==◌, ltb, ◌≡◌, ◌⊎◌, refl, sym, ◌∙◌, inl, inr, Option, none, some, List,
  [], ◌∷◌, Result, ok, err, Bool-cases, arith,
}
use agent_life.Shared.Digests.{equal_digest}
use agent_life.Grants.{
  BridgeGrantState, effective, revoked, DeviceGrantUiState, ui_effective, grant_pending_ack,
  revoked_pending_ack, ui_revoked, DataQueryGrantState, VerifiedGrantUpdate, VerifiedGrantAck,
  same_key, GrantEvent, update, ack, is_digest, pending_for, answers, expected, is_state, ui_of,
  reduce_update, reduce_ack, reduce_data_query_grant,
}

abbrev state_or : DataQueryGrantState → Result DataQueryGrantState → DataQueryGrantState
state_or state (ok next) = next
state_or state (err _) = state

-- The grant after events, the newest first; an event that is refused leaves it as it is.
unfoldable pub after : DataQueryGrantState → List GrantEvent → DataQueryGrantState
after state [] = state
after state (e ∷ es) = state_or (after state es) (reduce_data_query_grant (after state es) e)

abbrev pub Among : GrantEvent → List GrantEvent → Type 0
Among e [] = ⊥
Among e (x ∷ xs) = (x ≡ e) ⊎ Among e xs

-- A proposal of the state among the events.
pub record Proposed (state : BridgeGrantState) (es : List GrantEvent) : Type 0 where
  pub proposal : VerifiedGrantUpdate
  pub proposal_came : Among (update proposal) es
  pub proposes : proposal.proposed_state ≡ state

-- A proposal and an acknowledgement of it, by digest and revision, among the events.
pub record Acknowledged (state : BridgeGrantState) (es : List GrantEvent) : Type 0 where
  pub proposed : Proposed state es
  pub answer : VerifiedGrantAck
  pub answer_came : Among (ack answer) es
  pub answers_state : answer.bridge_effective_state ≡ state
  pub same_revision : answer.grant_revision ≡ proposed.proposal.grant_revision
  pub same_digest : equal_digest answer.proposal_digest proposed.proposal.proposal_digest ≡ true

-- A pending state has its proposal.
record Waiting (state : BridgeGrantState) (st : DataQueryGrantState) (es : List GrantEvent)
    : Type 0 where
  proposed : Proposed state es
  at_revision : proposed.proposal.grant_revision ≡ st.grant_revision
  at_digest : st.last_proposal_digest ≡ some proposed.proposal.proposal_digest

unfoldable Explained : DataQueryGrantState → List GrantEvent → DeviceGrantUiState → Type 0
Explained st es grant_pending_ack = Waiting effective st es
Explained st es revoked_pending_ack = Waiting revoked st es
Explained st es ui_effective = st.bridge_effective_state ≡ effective
Explained st es ui_revoked = st.bridge_effective_state ≡ revoked

record Tracked (st : DataQueryGrantState) (es : List GrantEvent) : Type 0 where
  ui : Explained st es st.device_ui_state
  bridge : st.bridge_effective_state ≡ effective → Acknowledged effective es

Waiting-more :
    (state : BridgeGrantState) (st : DataQueryGrantState) (e : GrantEvent) (es : List GrantEvent)
    → Waiting state st es
    → Waiting state st (e ∷ es)
Waiting-more state st e es w = record {
  proposed = record {
    proposal = w.proposed.proposal;
    proposal_came = inr w.proposed.proposal_came;
    proposes = w.proposed.proposes;
  };
  at_revision = w.at_revision;
  at_digest = w.at_digest;
}

Explained-more :
    (st : DataQueryGrantState) (e : GrantEvent) (es : List GrantEvent) (ui : DeviceGrantUiState)
    → Explained st es ui
    → Explained st (e ∷ es) ui
unfolding Explained
Explained-more st e es grant_pending_ack h = Waiting-more effective st e es h
Explained-more st e es revoked_pending_ack h = Waiting-more revoked st e es h
Explained-more st e es ui_effective h = h
Explained-more st e es ui_revoked h = h

Acknowledged-more :
    (state : BridgeGrantState) (e : GrantEvent) (es : List GrantEvent)
    → Acknowledged state es
    → Acknowledged state (e ∷ es)
Acknowledged-more state e es a = record {
  proposed = record {
    proposal = a.proposed.proposal;
    proposal_came = inr a.proposed.proposal_came;
    proposes = a.proposed.proposes;
  };
  answer = a.answer;
  answer_came = inr a.answer_came;
  answers_state = a.answers_state;
  same_revision = a.same_revision;
  same_digest = a.same_digest;
}

Tracked-more :
    (st : DataQueryGrantState) (e : GrantEvent) (es : List GrantEvent)
    → Tracked st es
    → Tracked st (e ∷ es)
Tracked-more st e es t = record {
  ui = Explained-more st e es st.device_ui_state t.ui;
  bridge = λ h. Acknowledged-more effective e es (t.bridge h);
}

-- A newer proposal makes the grant wait for its acknowledgement.
proposed-Explained :
    (st : DataQueryGrantState) (u : VerifiedGrantUpdate) (es : List GrantEvent)
    (state : BridgeGrantState)
    → u.proposed_state ≡ state
    → Explained
        (record st {
          grant_revision = u.grant_revision;
          device_ui_state = pending_for state;
          last_proposal_digest = some u.proposal_digest;
        })
        (update u ∷ es)
        (pending_for state)
unfolding Explained
proposed-Explained st u es effective e = record {
  proposed = record { proposal = u; proposal_came = inl refl; proposes = e };
  at_revision = refl;
  at_digest = refl;
}
proposed-Explained st u es revoked e = record {
  proposed = record { proposal = u; proposal_came = inl refl; proposes = e };
  at_revision = refl;
  at_digest = refl;
}

Tracked-update :
    (st : DataQueryGrantState) (u : VerifiedGrantUpdate) (es : List GrantEvent)
    → Tracked st es
    → Tracked (state_or st (reduce_update st u)) (update u ∷ es)
unfolding reduce_update
Tracked-update st u es t = elim (Bool-cases (not (same_key u.key st.key))) [
  | inl other ↦ rw (other, reduce_update) (Tracked-more st (update u) es t)
  | inr key ↦ elim (Bool-cases (ltb u.grant_revision st.grant_revision)) [
    | inl older ↦ rw (key, older, reduce_update) (Tracked-more st (update u) es t)
    | inr newer ↦ elim (Bool-cases (u.grant_revision == st.grant_revision)) [
      | inl equal ↦ elim (Bool-cases (is_digest st.last_proposal_digest u.proposal_digest)) [
        | inl repeated ↦
            rw (key, newer, equal, repeated, reduce_update) (Tracked-more st (update u) es t)
        | inr different ↦
            rw (key, newer, equal, different, reduce_update) (Tracked-more st (update u) es t)
      ]
      | inr unequal ↦
          rw (key, newer, unequal, reduce_update)
            (record {
              ui = proposed-Explained st u es u.proposed_state refl;
              bridge = λ h. Acknowledged-more effective (update u) es (t.bridge h);
            })
    ]
  ]
]

settled-Explained :
    (st : DataQueryGrantState) (es : List GrantEvent) (state : BridgeGrantState)
    → Explained
        (record st {
          bridge_effective_state = state;
          device_ui_state = ui_of state;
          last_proposal_digest = none;
        })
        es
        (ui_of state)
unfolding Explained
settled-Explained st es effective = refl
settled-Explained st es revoked = refl

answers-some :
    (a : VerifiedGrantAck) (o : Option String) (text : String)
    → o ≡ some text
    → answers a o ≡ true
    → equal_digest a.proposal_digest text ≡ true
answers-some a none text e h = absurd (ground arith)
answers-some a (some last) text e h = ground arith

acknowledged :
    (st : DataQueryGrantState) (a : VerifiedGrantAck) (es : List GrantEvent)
    (ui : DeviceGrantUiState)
    → Explained st es ui
    → answers a st.last_proposal_digest ≡ true
    → a.grant_revision ≡ st.grant_revision
    → is_state (expected ui) a.bridge_effective_state ≡ true
    → a.bridge_effective_state ≡ effective
    → Acknowledged effective (ack a ∷ es)
unfolding Explained expected
acknowledged st a es grant_pending_ack w h r m e = record {
  proposed = record {
    proposal = w.proposed.proposal;
    proposal_came = inr w.proposed.proposal_came;
    proposes = w.proposed.proposes;
  };
  answer = a;
  answer_came = inl refl;
  answers_state = e;
  same_revision = r ∙ sym w.at_revision;
  same_digest =
      answers-some a st.last_proposal_digest w.proposed.proposal.proposal_digest w.at_digest h;
}
acknowledged st a es revoked_pending_ack w h r m e =
    absurd (not_revoked a.bridge_effective_state m e)
  where
    not_revoked : (s : BridgeGrantState) → is_state (some revoked) s ≡ true → s ≡ effective → ⊥
    not_revoked effective m e = ground arith
    not_revoked revoked m e = ground arith
acknowledged st a es ui_effective w h r m e = absurd (ground arith)
acknowledged st a es ui_revoked w h r m e = absurd (ground arith)

Tracked-ack :
    (st : DataQueryGrantState) (a : VerifiedGrantAck) (es : List GrantEvent)
    → Tracked st es
    → Tracked (state_or st (reduce_ack st a)) (ack a ∷ es)
unfolding reduce_ack
Tracked-ack st a es t =
    elim (Bool-cases (not (same_key a.key st.key && answers a st.last_proposal_digest))) [
      | inl other ↦ rw (other, reduce_ack) (Tracked-more st (ack a) es t)
      | inr key ↦ elim (Bool-cases (not (a.grant_revision == st.grant_revision))) [
        | inl unequal ↦ rw (key, unequal, reduce_ack) (Tracked-more st (ack a) es t)
        | inr equal ↦
            elim (Bool-cases (is_state (expected st.device_ui_state) a.bridge_effective_state)) [
              | inl awaited ↦
                  rw (key, equal, awaited, reduce_ack)
                    (record {
                      ui = settled-Explained st (ack a ∷ es) a.bridge_effective_state;
                      bridge = λ h.
                          acknowledged st a es st.device_ui_state t.ui (ground arith) (ground arith)
                            awaited h;
                    })
              | inr unexpected ↦
                  rw (key, equal, unexpected, reduce_ack) (Tracked-more st (ack a) es t)
            ]
      ]
    ]

step-Tracked :
    (st : DataQueryGrantState) (e : GrantEvent) (es : List GrantEvent)
    → Tracked st es
    → Tracked (state_or st (reduce_data_query_grant st e)) (e ∷ es)
unfolding reduce_data_query_grant
step-Tracked st (update u) es t = Tracked-update st u es t
step-Tracked st (ack a) es t = Tracked-ack st a es t

after-Tracked :
    (st : DataQueryGrantState) (es : List GrantEvent) → Tracked st [] → Tracked (after st es) es
unfolding after
after-Tracked st [] t = t
after-Tracked st (e ∷ es) t = step-Tracked (after st es) e es (after-Tracked st es t)

new-Tracked :
    (st : DataQueryGrantState)
    → st.bridge_effective_state ≡ revoked
    → st.device_ui_state ≡ ui_revoked
    → Tracked st []
unfolding Explained
new-Tracked st b u = record { ui = rw u b; bridge = λ h. absurd (ground arith) }

shown :
    (st : DataQueryGrantState) (es : List GrantEvent) (ui : DeviceGrantUiState)
    → Explained st es ui
    → ui ≡ ui_effective
    → st.bridge_effective_state ≡ effective
unfolding Explained
shown st es grant_pending_ack w e = absurd (ground arith)
shown st es revoked_pending_ack w e = absurd (ground arith)
shown st es ui_effective w e = w
shown st es ui_revoked w e = absurd (ground arith)

-- From a revoked grant, whatever updates and acknowledgements come: the device shows a grant as
-- effective only if the bridge's state is effective, and that only if an update that proposed it and
-- an acknowledgement of the same digest and revision are among the events.
pub effective-Acknowledged :
    (st : DataQueryGrantState) (es : List GrantEvent)
    → st.bridge_effective_state ≡ revoked
    → st.device_ui_state ≡ ui_revoked
    → ((after st es).device_ui_state ≡ ui_effective
        → (after st es).bridge_effective_state ≡ effective)
      × ((after st es).bridge_effective_state ≡ effective → Acknowledged effective es)
effective-Acknowledged st es b u =
    let t = after-Tracked st es (new-Tracked st b u) in
    (shown (after st es) es (after st es).device_ui_state t.ui, t.bridge)
