-- ===== src/Artifacts/Tickets.antt =====
-- What becomes of a ticket after its issue: `verifyArtifactProof`, `commitArtifactMessage`,
-- `interruptArtifactTicket` and `reclaimOrphanTicket`.
use agent_life.Shared.{
  ℕ, ◌+◌, String, Bool, true, false, not, ◌&&◌, ◌==◌, ltb, none, some, List, [], ◌∷◌, length, map,
  str_eq, is_none, if◌then◌else◌,
}
use agent_life.Shared.Sets.{has, add}
use agent_life.Shared.Text.{codes, same_codes}
use agent_life.Artifacts.{
  max_files, max_message_bytes, orphan_reclaim_after_ms, is_safe, artifact_id_pattern, lower_case,
  Checked, accepted, failed, ArtifactTicket, ArtifactProof, ArtifactReceipt, proof_verified,
  upload_interrupted, message_committed, orphan_reclaimed, is_issued, is_verified,
  ArtifactTicketStatus, timestamp_invalid, message_id_invalid, message_artifact_count_invalid,
  message_artifact_count_exceeded, new_ticket_required, proof_not_verified, duplicate_ticket,
  artifact_invalid, message_artifact_bytes_exceeded, ticket_not_proof_verified, ticket_not_issued,
  proof_ticket_mismatch, proof_digest_mismatch, proof_invalid, proof_rejected,
}

-- A copy without the artifact id, and so without the brand.
abbrev pub strip_artifact_id : ArtifactTicket → ArtifactTicket
strip_artifact_id t = record t { artifact_id = none; proof_brand = false }

unfoldable pub verify_artifact_proof :
    ArtifactTicket
    → ArtifactProof
    → (ArtifactTicket → ArtifactProof → Bool)
    → Checked ArtifactTicket
unfolding lower_case same_codes
verify_artifact_proof ticket proof verify =
    let sanitized = strip_artifact_id ticket in
    if not (is_issued ticket.status)
    then failed ticket_not_issued
    else if not (str_eq proof.ticket_id sanitized.ticket_id)
    then failed proof_ticket_mismatch
    else if not (same_codes (map lower_case proof.sha256) sanitized.sha256)
    then failed proof_digest_mismatch
    else if ltb (length (codes proof.proof)) 1
    then failed proof_invalid
    else if not (verify sanitized proof)
    then failed proof_rejected
    else accepted (record sanitized {
      status = proof_verified;
      proof_verified_at = some ticket.issued_at;
      proof_brand = true;
    })

-- The ticket of a committed message, a copy without the brand.
abbrev pub deliver : ℕ → ArtifactTicket → ArtifactTicket
deliver now_ms t = record t {
  status = message_committed;
  artifact_id = some t.ticket_id;
  committed_at = some now_ms;
  local_copy_deletion_allowed = some true;
  proof_brand = false;
}

abbrev pub also : ArtifactTicket → Checked (List ArtifactTicket) → Checked (List ArtifactTicket)
also t (failed code) = failed code
also t (accepted ts) = accepted (t ∷ ts)

-- `tickets.map`, with the ids and the bytes of the tickets before.
unfoldable pub commit_tickets :
    ℕ → List String → ℕ → List ArtifactTicket → Checked (List ArtifactTicket)
commit_tickets now_ms ids total [] = accepted []
commit_tickets now_ms ids total (t ∷ ts) =
    let rest = commit_tickets now_ms (add t.ticket_id ids) (total + t.byte_size) ts in
    if not (is_verified t.status)
    then failed new_ticket_required
    else if not t.proof_brand
    then failed proof_not_verified
    else if has t.ticket_id ids
    then failed duplicate_ticket
    else if not (is_safe t.byte_size)
    then failed artifact_invalid
    else if ltb max_message_bytes (total + t.byte_size)
    then failed message_artifact_bytes_exceeded
    else also (deliver now_ms t) rest

unfoldable pub receipt : String → ℕ → Checked (List ArtifactTicket) → Checked ArtifactReceipt
receipt message_id now_ms (failed code) = failed code
receipt message_id now_ms (accepted ts) =
    accepted (record { message_id = message_id; tickets = ts; committed_at = now_ms })

unfoldable pub commit_artifact_message : String → List ArtifactTicket → ℕ → Checked ArtifactReceipt
unfolding receipt
commit_artifact_message message_id tickets now_ms =
    if not (is_safe now_ms)
    then failed timestamp_invalid
    else if not (artifact_id_pattern message_id)
    then failed message_id_invalid
    else if length tickets == 0
    then failed message_artifact_count_invalid
    else if ltb max_files (length tickets)
    then failed message_artifact_count_exceeded
    else receipt message_id now_ms (commit_tickets now_ms [] 0 tickets)

unfoldable pub interrupt_artifact_ticket : ArtifactTicket → Checked ArtifactTicket
interrupt_artifact_ticket t =
    if not (is_verified t.status)
    then failed ticket_not_proof_verified
    else accepted
        (record t { status = upload_interrupted; artifact_id = none; proof_brand = false })

abbrev is_committed : ArtifactTicketStatus → Bool
is_committed message_committed = true
is_committed _ = false

abbrev is_reclaimed : ArtifactTicketStatus → Bool
is_reclaimed orphan_reclaimed = true
is_reclaimed _ = false

unfoldable pub reclaim_orphan_ticket : ArtifactTicket → ℕ → Checked ArtifactTicket
reclaim_orphan_ticket t now_ms =
    let recent = ltb now_ms (t.issued_at + orphan_reclaim_after_ms) in
    if not (is_safe now_ms)
    then failed timestamp_invalid
    else if is_committed t.status
    then accepted t
    else if is_reclaimed t.status
    then accepted (strip_artifact_id t)
    else if recent && is_verified t.status && is_none t.artifact_id && t.proof_brand
    then accepted t
    else if recent
    then accepted (strip_artifact_id t)
    else accepted (record t {
      status = orphan_reclaimed;
      local_copy_deletion_allowed = some true;
      artifact_id = none;
      proof_brand = false;
    })
