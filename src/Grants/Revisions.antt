-- ===== src/Grants/Revisions.antt =====
-- The revision of a grant only goes up.
use agent_life.Shared.{
  ◌<◌, String, true, ◌≡◌, ◌⊎◌, refl, sym, ◌∙◌, ap, subst, inl, inr, Option, none, some, List, [],
  ◌∷◌, str_eq, eq_iff, Bool-cases, arith,
}
use agent_life.Shared.Dict.{get, set, get-set}
use agent_life.Grants.{same_key, DataQueryGrantKey, DataQueryGrantState}
use agent_life.Grants.Update.{ReplayBoundGrantUpdate}
use agent_life.Grants.Store.{GrantStore, Digests, load, mark_ack_sent}
use agent_life.Grants.Outcomes.{
  Call, apply_call, sent_call, step, run, Accepted, Outcome, apply-Outcome,
}

-- A grant stays, or goes to a higher revision under its own key, and is never lost.
abbrev pub Forward : Option DataQueryGrantState → Option DataQueryGrantState → Type 0
Forward none o = Unit
Forward (some state) none = ⊥
Forward (some state) (some state') =
    (state' ≡ state) ⊎ ((state.grant_revision < state'.grant_revision) × (state'.key ≡ state.key))

Forward-refl : (o : Option DataQueryGrantState) → Forward o o
Forward-refl none = tt
Forward-refl (some state) = inl refl

Forward-trans : (a b c : Option DataQueryGrantState) → Forward a b → Forward b c → Forward a c
Forward-trans none b c h k = tt
Forward-trans (some x) none c h k = absurd h
Forward-trans (some x) (some y) none h k = absurd k
Forward-trans (some x) (some y) (some z) (inl e) k = subst (λ w. Forward (some w) (some z)) e k
Forward-trans (some x) (some y) (some z) (inr h) (inl e) =
    subst (λ w. Forward (some x) (some w)) (sym e) (inr h)
Forward-trans (some x) (some y) (some z) (inr (less, key)) (inr (more, key')) =
    inr (omega arith, key' ∙ key)

module _ (digests : Digests) (place : String) where
  set-Forward :
      (old : Option DataQueryGrantState) (state : DataQueryGrantState)
      → ((prior : DataQueryGrantState)
          → old ≡ some prior
          → (prior.grant_revision < state.grant_revision) × (state.key ≡ prior.key))
      → Forward old (some state)
  set-Forward none state h = tt
  set-Forward (some prior) state h = inr (h prior refl)

  Accepted-Forward :
      (s s' : GrantStore) (b : ReplayBoundGrantUpdate) (id : String)
      → Accepted digests s b id s'
      → Forward (get place s.states) (get place s'.states)
  Accepted-Forward s s' b id a = go a.states_are
    where
      go :
          (s'.states ≡ s.states)
            ⊎ ((s'.states ≡ set (digests.storage_key b.update.key) a.state s.states)
                × ((prior : DataQueryGrantState)
                    → get (digests.storage_key b.update.key) s.states ≡ some prior
                    → (prior.grant_revision < a.state.grant_revision) × (a.state.key ≡ prior.key))
                × (a.state.bridge_effective_state ≡ b.update.proposed_state)
                × (same_key a.state.key b.update.key ≡ true))
          → Forward (get place s.states) (get place s'.states)
      go (inl same) = rw same (Forward-refl (get place s.states))
      go (inr (e, newer, _, _)) =
          elim (Bool-cases (str_eq (digests.storage_key b.update.key) place)) [
            | inl hit ↦
                let at = (eq_iff (digests.storage_key b.update.key) place).0 hit in
                let read : get place s'.states ≡ some a.state =
                  ap (get place) e
                  ∙ get-set (digests.storage_key b.update.key) place a.state s.states
                  ∙ rw hit refl in
                subst (Forward (get place s.states)) (sym read) (
                  set-Forward (get place s.states) a.state
                    (λ prior h. newer prior (ap (λ k. get k s.states) at ∙ h)))
            | inr miss ↦
                let read : get place s'.states ≡ get place s.states =
                  ap (get place) e
                  ∙ get-set (digests.storage_key b.update.key) place a.state s.states
                  ∙ rw miss refl in
                subst (Forward (get place s.states)) (sym read) (Forward-refl (get place s.states))
          ]

  Outcome-Forward :
      (s s' : GrantStore) (b : ReplayBoundGrantUpdate) (o : Option String)
      → Outcome digests s b s' o
      → Forward (get place s.states) (get place s'.states)
  unfolding Outcome
  Outcome-Forward s s' b none same = rw same (Forward-refl (get place s.states))
  Outcome-Forward s s' b (some id) a = Accepted-Forward s s' b id a

  sent-states :
      (s : GrantStore) (id : String) → ((step digests s (sent_call id)).0).states ≡ s.states
  unfolding step mark_ack_sent
  sent-states s id = ground arith

  step-Forward :
      (s : GrantStore) (call : Call)
      → Forward (get place s.states) (get place ((step digests s call).0.states))
  step-Forward s (apply_call b) =
      unfold step in (Outcome-Forward s _ b _ (apply-Outcome digests s b))
  step-Forward s (sent_call id) = rw (sent-states s id) (Forward-refl (get place s.states))

  run-states :
      (s : GrantStore) (calls : List Call)
      → Forward (get place s.states) (get place (run digests s calls).states)
  unfolding run
  run-states s [] = Forward-refl (get place s.states)
  run-states s (call ∷ calls) =
      Forward-trans (get place s.states) _ _ (step-Forward s call)
        (run-states ((step digests s call).0) calls)

-- Whatever calls come, a grant of the store stays as it is, or is replaced by one of the same key with
-- a higher revision, and is never lost.
pub run-Forward :
    (digests : Digests) (s : GrantStore) (calls : List Call) (key : DataQueryGrantKey)
    → Forward (load digests s key) (load digests (run digests s calls) key)
unfolding load
run-Forward digests s calls key = run-states digests (digests.storage_key key) s calls
