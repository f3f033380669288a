-- ===== src/Artifacts/Proofs.antt =====
-- The tickets that a client can hold, from their issue on.
use agent_life.Shared.{
  ℕ, ◌≡◌, ◌⊎◌, subst, sym, ap, refl, String, Bool, true, false, List, [], ◌∷◌, All, map, str_eq,
  arith, inl, inr,
}
use agent_life.Shared.Text.{same_codes}
use agent_life.Artifacts.{
  lower_case, Checked, accepted, failed, ArtifactInput, ArtifactTicket, ArtifactProof,
  ArtifactReceipt, is_issued, new_ticket, parse_input, issue_artifact_ticket,
}
use agent_life.Artifacts.Tickets.{
  strip_artifact_id, deliver, verify_artifact_proof, commit_artifact_message,
  interrupt_artifact_ticket, reclaim_orphan_ticket,
}
use agent_life.Artifacts.Receipts.{accepted_part, all_proved, commit_artifact_message-accepted}

module _ (verify : ArtifactTicket → ArtifactProof → Bool) where
  -- Every ticket that the functions return, and every one that they returned before; the committed
  -- form of a ticket counts whether or not its message was committed.
  pub data Held : ArtifactTicket → Type 0 where
    issues :
        (input : ArtifactInput) (now_ms : ℕ) (id : String) {t : ArtifactTicket}
        → issue_artifact_ticket input now_ms id ≡ accepted t
        → Held t
    verifies :
        (t : ArtifactTicket) (proof : ArtifactProof) {t' : ArtifactTicket}
        → Held t
        → verify_artifact_proof t proof verify ≡ accepted t'
        → Held t'
    interrupts :
        (t : ArtifactTicket) {t' : ArtifactTicket}
        → Held t
        → interrupt_artifact_ticket t ≡ accepted t'
        → Held t'
    reclaims :
        (t : ArtifactTicket) (now_ms : ℕ) {t' : ArtifactTicket}
        → Held t
        → reclaim_orphan_ticket t now_ms ≡ accepted t'
        → Held t'
    delivers : (t : ArtifactTicket) (now_ms : ℕ) → Held t → Held (deliver now_ms t)

  -- The verifier accepted a proof for the ticket as it was issued.
  pub record Proved (t : ArtifactTicket) : Type 0 where
    pub checked : ArtifactTicket
    pub proof : ArtifactProof
    pub accepts : verify checked proof ≡ true
    pub was_issued : is_issued checked.status ≡ true
    pub same_id : checked.ticket_id ≡ t.ticket_id
    pub same_digest : checked.sha256 ≡ t.sha256
    pub same_size : checked.byte_size ≡ t.byte_size
    pub names_ticket : str_eq proof.ticket_id t.ticket_id ≡ true
    pub names_digest : same_codes (map lower_case proof.sha256) t.sha256 ≡ true

  abbrev Sound : ArtifactTicket → Type 0
  Sound t = t.proof_brand ≡ true → Proved t

  new_ticket-brand :
      (now_ms : ℕ) (id : String) (c : Checked ArtifactInput) (t : ArtifactTicket)
      → new_ticket now_ms id c ≡ accepted t
      → t.proof_brand ≡ false
  unfolding new_ticket
  new_ticket-brand now_ms id (accepted p) t e = ground arith
  new_ticket-brand now_ms id (failed c) t e = ground arith

  issue-brand :
      (input : ArtifactInput) (now_ms : ℕ) (id : String) (t : ArtifactTicket)
      → issue_artifact_ticket input now_ms id ≡ accepted t
      → t.proof_brand ≡ false
  unfolding issue_artifact_ticket
  issue-brand input now_ms id t e = ground (arith, new_ticket-brand now_ms id (parse_input input) t)

  interrupt-brand :
      (t t' : ArtifactTicket) → interrupt_artifact_ticket t ≡ accepted t' → t'.proof_brand ≡ false
  unfolding interrupt_artifact_ticket
  interrupt-brand t t' e = ground arith

  reclaim-brand :
      (t t' : ArtifactTicket) (now_ms : ℕ)
      → reclaim_orphan_ticket t now_ms ≡ accepted t'
      → (t' ≡ t) ⊎ (t'.proof_brand ≡ false)
  unfolding reclaim_orphan_ticket
  reclaim-brand t t' now_ms e = ground arith

  verify-Proved :
      (t t' : ArtifactTicket) (proof : ArtifactProof)
      → verify_artifact_proof t proof verify ≡ accepted t'
      → Proved t'
  unfolding verify_artifact_proof
  verify-Proved t t' proof e = record {
    checked = strip_artifact_id t;
    proof = proof;
    accepts = ground arith;
    was_issued = ground arith;
    same_id = ground arith;
    same_digest = ground arith;
    same_size = ground arith;
    names_ticket = ground arith;
    names_digest = ground arith;
  }

  unbranded : (t : ArtifactTicket) → t.proof_brand ≡ false → Sound t
  unbranded t e h = absurd (ground arith)

  Held-Sound : (t : ArtifactTicket) → Held t → Sound t
  Held-Sound t (issues input now_ms id e) = unbranded t (issue-brand input now_ms id t e)
  Held-Sound t (verifies o proof _ e) = λ _. verify-Proved o t proof e
  Held-Sound t (interrupts o _ e) = unbranded t (interrupt-brand o t e)
  Held-Sound t (reclaims o now_ms h e) = elim (reclaim-brand o t now_ms e) [
    | inl same ↦ subst Sound (sym same) (Held-Sound o h)
    | inr e ↦ unbranded t e
  ]
  Held-Sound t (delivers o now_ms _) = unbranded (deliver now_ms o) refl

  all_proved-Proved :
      (ts : List ArtifactTicket) → All Held ts → all_proved ts ≡ true → All Proved ts
  all_proved-Proved [] _ _ = tt
  all_proved-Proved (t ∷ ts) (h, hs) e =
      (Held-Sound t h (ground arith), all_proved-Proved ts hs (ground arith))

  -- Of tickets that a client can hold, a message is committed only with those for which the verifier
  -- accepted, while they were issued, a proof that names their id and digest.
  pub committed-Proved :
      (message_id : String) (tickets : List ArtifactTicket) (now_ms : ℕ) (r : ArtifactReceipt)
      → All Held tickets
      → commit_artifact_message message_id tickets now_ms ≡ accepted r
      → All Proved tickets
  committed-Proved message_id tickets now_ms r held e = all_proved-Proved tickets held (
      ground
        (arith, ap accepted_part e, commit_artifact_message-accepted message_id tickets now_ms))
