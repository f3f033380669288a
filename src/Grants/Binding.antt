-- ===== src/Grants/Binding.antt =====
-- An accepted proposal and the replay row of its message are bound to each other for good.
use agent_life.Shared.{
  String, true, ◌≡◌, ◌↔◌, refl, sym, ◌∙◌, ap, subst, inl, inr, Option, none, some, List, [], ◌∷◌,
  str_eq, eq_iff, Bool-cases, is_none, arith,
}
use agent_life.Shared.Dict.{get, get-set}
use agent_life.Grants.Update.{ReplayClaimReference, ReplayBoundGrantUpdate}
use agent_life.Grants.Store.{
  GrantStore, Digests, proposal_key, fits_replay, fits_proposal, mark_ack_sent,
}
use agent_life.Grants.Outcomes.{
  Call, apply_call, sent_call, accepted, step, run, Accepted, Outcome, apply-Outcome,
}

-- The proposal has a row of this claim id, and the claim id has this proposal.
pub record Bound (proposal claim : String) (s : GrantStore) : Type 0 where
  pub row : ReplayClaimReference
  pub has_row : get proposal s.replay_by_proposal ≡ some row
  pub same_claim : row.claim_id ≡ claim
  pub has_proposal : get claim s.proposal_by_replay_claim ≡ some proposal

module _ (digests : Digests) where
  row-fits :
      (row replay : ReplayClaimReference) (o : Option ReplayClaimReference)
      → o ≡ some row
      → fits_replay digests replay o ≡ true
      → replay.claim_id ≡ row.claim_id
  unfolding fits_replay
  row-fits row replay none e h = absurd (ground arith)
  row-fits row replay (some other) e h = ground (arith, eq_iff other.claim_id replay.claim_id)

  proposal-fits :
      (proposal other : String) (o : Option String)
      → o ≡ some other
      → fits_proposal digests proposal o ≡ true
      → proposal ≡ other
  unfolding fits_proposal
  proposal-fits proposal other none e h = absurd (ground arith)
  proposal-fits proposal other (some prior) e h = ground (arith, eq_iff prior proposal)

  Accepted-new :
      (s s' : GrantStore) (b : ReplayBoundGrantUpdate) (id : String)
      → Accepted digests s b id s'
      → Bound (proposal_key digests b.update) b.replay.claim_id s'
  Accepted-new s s' b id a =
      let proposal = proposal_key digests b.update in
      record {
        row = b.replay;
        has_row =
            ap (get proposal) a.rows
            ∙ get-set proposal proposal b.replay s.replay_by_proposal
            ∙ rw ((eq_iff proposal proposal).1 refl) refl;
        same_claim = refl;
        has_proposal =
            ap (get b.replay.claim_id) a.bindings
            ∙ get-set b.replay.claim_id b.replay.claim_id proposal s.proposal_by_replay_claim
            ∙ rw ((eq_iff b.replay.claim_id b.replay.claim_id).1 refl) refl;
      }

  module _ (proposal claim : String) where
    row-kept :
        (s s' : GrantStore) (b : ReplayBoundGrantUpdate) (id : String)
        → Accepted digests s b id s'
        → Bound proposal claim s
        → (row : ReplayClaimReference) × (get proposal s'.replay_by_proposal ≡ some row)
          × (row.claim_id ≡ claim)
    row-kept s s' b id a h = elim (Bool-cases (str_eq (proposal_key digests b.update) proposal)) [
      | inl hit ↦
          let at = (eq_iff (proposal_key digests b.update) proposal).0 hit in
          (
            b.replay,
            ap (get proposal) a.rows
                ∙ get-set (proposal_key digests b.update) proposal b.replay s.replay_by_proposal
                ∙ rw hit refl,
            row-fits h.row b.replay (get (proposal_key digests b.update) s.replay_by_proposal)
                  (ap (λ k. get k s.replay_by_proposal) at ∙ h.has_row) a.fits_row
                ∙ h.same_claim,
          )
      | inr miss ↦ (
        h.row,
        ap (get proposal) a.rows
            ∙ get-set (proposal_key digests b.update) proposal b.replay s.replay_by_proposal
            ∙ rw miss h.has_row,
        h.same_claim,
      )
    ]

    proposal-kept :
        (s s' : GrantStore) (b : ReplayBoundGrantUpdate) (id : String)
        → Accepted digests s b id s'
        → Bound proposal claim s
        → get claim s'.proposal_by_replay_claim ≡ some proposal
    proposal-kept s s' b id a h = elim (Bool-cases (str_eq b.replay.claim_id claim)) [
      | inl hit ↦
          let at = (eq_iff b.replay.claim_id claim).0 hit in
          let same =
            proposal-fits (proposal_key digests b.update) proposal
              (get b.replay.claim_id s.proposal_by_replay_claim)
              (ap (λ k. get k s.proposal_by_replay_claim) at ∙ h.has_proposal) a.fits_binding in
          ap (get claim) a.bindings
          ∙ get-set b.replay.claim_id claim (proposal_key digests b.update)
              s.proposal_by_replay_claim
          ∙ rw hit (ap some same)
      | inr miss ↦
          ap (get claim) a.bindings
          ∙ get-set b.replay.claim_id claim (proposal_key digests b.update)
              s.proposal_by_replay_claim
          ∙ rw miss h.has_proposal
    ]

    Outcome-Bound :
        (s s' : GrantStore) (b : ReplayBoundGrantUpdate) (o : Option String)
        → Outcome digests s b s' o
        → Bound proposal claim s
        → Bound proposal claim s'
    unfolding Outcome
    Outcome-Bound s s' b none same h = subst (Bound proposal claim) (sym same) h
    Outcome-Bound s s' b (some id) a h =
        let (row, has_row, same_claim) = row-kept s s' b id a h in
        record {
          row = row;
          has_row = has_row;
          same_claim = same_claim;
          has_proposal = proposal-kept s s' b id a h;
        }

    sent-Bound :
        (s : GrantStore) (id : String)
        → Bound proposal claim s
        → Bound proposal claim ((step digests s (sent_call id)).0)
    unfolding step mark_ack_sent
    sent-Bound s id h = elim (Bool-cases (is_none (get id s.outbox))) [
      | inl unknown ↦ rw (unknown, mark_ack_sent) h
      | inr known ↦
          rw (known, mark_ack_sent)
            (record {
              row = h.row;
              has_row = h.has_row;
              same_claim = h.same_claim;
              has_proposal = h.has_proposal;
            })
    ]

    step-Bound :
        (s : GrantStore) (call : Call)
        → Bound proposal claim s
        → Bound proposal claim ((step digests s call).0)
    step-Bound s (apply_call b) h =
        unfold step in (Outcome-Bound s _ b _ (apply-Outcome digests s b) h)
    step-Bound s (sent_call id) h = sent-Bound s id h

    run-Bound :
        (s : GrantStore) (calls : List Call)
        → Bound proposal claim s
        → Bound proposal claim (run digests s calls)
    unfolding run
    run-Bound s [] h = h
    run-Bound s (call ∷ calls) h = run-Bound ((step digests s call).0) calls (step-Bound s call h)

  Outcome-Accepted :
      (s s' : GrantStore) (b : ReplayBoundGrantUpdate) (o : Option String) {id : String}
      → o ≡ some id
      → Outcome digests s b s' o
      → Accepted digests s b id s'
  unfolding Outcome
  Outcome-Accepted s s' b none e h = absurd (ground arith)
  Outcome-Accepted s s' b (some other) {id} e h =
      subst (λ i. Accepted digests s b i s') (same_id other id e) h
    where
      same_id : (x y : String) → some x ≡ some y → x ≡ y
      same_id x y e = ground arith

  pub step-Accepted :
      (s : GrantStore) (b : ReplayBoundGrantUpdate) {id : String}
      → accepted ((step digests s (apply_call b)).1) ≡ some id
      → Accepted digests s b id ((step digests s (apply_call b)).0)
  unfolding step
  step-Accepted s b h = Outcome-Accepted s _ b _ h (apply-Outcome digests s b)

  -- Two updates that a store accepts, whatever calls come between them, have the same replay claim
  -- exactly if they have the same proposal of the same grant: a claim authorises one proposal, and a
  -- proposal is taken from one message.
  pub one_claim_per_proposal :
      (s : GrantStore) (calls : List Call) (one two : ReplayBoundGrantUpdate) {id id' : String}
      → accepted ((step digests s (apply_call one)).1) ≡ some id
      → accepted (
          (step digests
            (run digests ((step digests s (apply_call one)).0) calls)
            (apply_call two)).1)
        ≡ some id'
      → (one.replay.claim_id ≡ two.replay.claim_id)
        ↔ (proposal_key digests one.update ≡ proposal_key digests two.update)
  one_claim_per_proposal s calls one two h k =
      let s' = (step digests s (apply_call one)).0 in
      let first : Bound (proposal_key digests one.update) one.replay.claim_id s' =
        Accepted-new s s' one _ (step-Accepted s one h) in
      let bound = run-Bound (proposal_key digests one.update) one.replay.claim_id s' calls first in
      let a = step-Accepted (run digests s' calls) two k in
      (
        (λ same. sym (
            proposal-fits (proposal_key digests two.update) (proposal_key digests one.update)
              (get two.replay.claim_id (run digests s' calls).proposal_by_replay_claim)
              (ap (λ c. get c (run digests s' calls).proposal_by_replay_claim) (sym same)
                ∙ bound.has_proposal)
              a.fits_binding)),
        (λ same. sym (
            row-fits bound.row two.replay
              (get (proposal_key digests two.update) (run digests s' calls).replay_by_proposal)
              (ap (λ p. get p (run digests s' calls).replay_by_proposal) (sym same) ∙ bound.has_row)
              a.fits_row
            ∙ bound.same_claim)),
      )
