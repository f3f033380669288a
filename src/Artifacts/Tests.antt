-- ===== src/Artifacts/Tests.antt =====
-- Samples of tickets, and the theorems at them.
use agent_life.Shared.{◌≡◌, refl, Bool, true, false, none, some, [], ◌∷◌, All, str_eq}
use agent_life.Artifacts.{
  accepted, failed, ArtifactInput, ArtifactTicket, ArtifactProof, issued, proof_verified,
  orphan_reclaimed, audio_duration_invalid, photo_picker, artifact_id_pattern,
  issue_artifact_ticket, ticket_not_proof_verified, duplicate_ticket,
}
use agent_life.Artifacts.Tickets.{
  verify_artifact_proof, commit_artifact_message, commit_tickets, deliver,
  interrupt_artifact_ticket, reclaim_orphan_ticket,
}
use agent_life.Artifacts.Receipts.{accepted_part, receipt_of, commit_artifact_message-accepted}
use agent_life.Artifacts.Proofs.{issues, verifies, Proved, committed-Proved}
use agent_life.Shared.Text.{codes}
use agent_life.Shared.Sets.{has, add}

abbrev input : ArtifactInput
input = record {
  selection = record { source = photo_picker; selection_id = "picked.1" };
  media_type = "audio/mp4";
  byte_size = 10485760;
  duration_ms = some 120000;
  sha256 = codes "ABCDEF0123456789ABCDEF0123456789ABCDEF0123456789ABCDEF0123456789";
}

abbrev issued_ticket : ArtifactTicket
issued_ticket = record {
  ticket_id = "ticket-1";
  status = issued;
  selection = input.selection;
  media_type = input.media_type;
  byte_size = input.byte_size;
  duration_ms = input.duration_ms;
  sha256 = codes "abcdef0123456789abcdef0123456789abcdef0123456789abcdef0123456789";
  issued_at = 1000;
  proof_verified_at = none;
  committed_at = none;
  local_copy_deletion_allowed = none;
  artifact_id = none;
  proof_brand = false;
}

abbrev verified_ticket : ArtifactTicket
verified_ticket = record issued_ticket {
  status = proof_verified;
  proof_verified_at = some 1000;
  proof_brand = true;
}

abbrev sample_proof : ArtifactProof
sample_proof = record { ticket_id = "ticket-1"; sha256 = input.sha256; proof = "signed" }

abbrev verifier : ArtifactTicket → ArtifactProof → Bool
verifier t proof = str_eq proof.proof "signed"

issue_sample : issue_artifact_ticket input 1000 "ticket-1" ≡ accepted issued_ticket
unfolding issue_artifact_ticket artifact_id_pattern has codes
issue_sample = refl

long_audio :
    issue_artifact_ticket (record input { duration_ms = some 120001 }) 1000 "ticket-1"
    ≡ failed audio_duration_invalid
unfolding issue_artifact_ticket artifact_id_pattern has codes
long_audio = refl

verify_sample : verify_artifact_proof issued_ticket sample_proof verifier ≡ accepted verified_ticket
unfolding verify_artifact_proof codes
verify_sample = refl

commit_sample :
    commit_artifact_message "message" (verified_ticket ∷ []) 5000
    ≡ accepted (receipt_of "message" 5000 (deliver 5000 verified_ticket ∷ []))
unfolding commit_artifact_message commit_tickets artifact_id_pattern has codes
commit_sample = refl

twice :
    commit_artifact_message "message" (verified_ticket ∷ verified_ticket ∷ []) 5000
    ≡ failed duplicate_ticket
unfolding commit_artifact_message commit_tickets artifact_id_pattern has add codes
twice = refl

interrupt_issued : interrupt_artifact_ticket issued_ticket ≡ failed ticket_not_proof_verified
unfolding interrupt_artifact_ticket
interrupt_issued = refl

-- The issue at 1000 is old after a day.
not_yet_orphan : reclaim_orphan_ticket verified_ticket 86400999 ≡ accepted verified_ticket
unfolding reclaim_orphan_ticket
not_yet_orphan = refl

orphan :
    reclaim_orphan_ticket verified_ticket 86401000
    ≡ accepted (record verified_ticket {
      status = orphan_reclaimed;
      local_copy_deletion_allowed = some true;
      proof_brand = false;
    })
unfolding reclaim_orphan_ticket
orphan = refl

commit_artifact_message-accepted_example :
    accepted_part (commit_artifact_message "message" (verified_ticket ∷ []) 5000)
    ≡ some (receipt_of "message" 5000 (deliver 5000 verified_ticket ∷ []))
unfolding artifact_id_pattern has codes
commit_artifact_message-accepted_example =
    commit_artifact_message-accepted "message" (verified_ticket ∷ []) 5000

committed-Proved_example : All (Proved verifier) (verified_ticket ∷ [])
committed-Proved_example =
    committed-Proved verifier "message" (verified_ticket ∷ []) 5000
      (receipt_of "message" 5000 (deliver 5000 verified_ticket ∷ []))
      (
        verifies issued_ticket sample_proof (issues input 1000 "ticket-1" issue_sample)
            verify_sample,
        tt,
      )
      commit_sample
