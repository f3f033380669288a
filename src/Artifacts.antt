-- ===== src/Artifacts.antt =====
-- artifact-contract/src/artifact-ticket.ts: the tickets of files that go with a message. The number of
-- a clock, a size or a duration is a natural number, as every ticket that the code issues has. The
-- brand of a verified ticket, which no copy of the ticket has, is a field.
pub mod Tickets
pub mod Receipts
pub mod Proofs
mod Tests
use agent_life.Shared.{
  ℕ, ◌+◌, String, Bool, true, false, not, ◌&&◌, ◌||◌, ◌==◌, leb, ltb, Option, none, some, List, [],
  ◌∷◌, length, all, map, str_eq, is_none, if◌then◌else◌,
}
use agent_life.Shared.Sets.{has, add}
use agent_life.Shared.Text.{codes, same_codes}

abbrev pub max_files : ℕ
max_files = 4

abbrev pub max_single_bytes : ℕ
max_single_bytes = 26214400

abbrev pub max_audio_bytes : ℕ
max_audio_bytes = 10485760

abbrev pub max_audio_duration_ms : ℕ
max_audio_duration_ms = 120000

abbrev pub max_message_bytes : ℕ
max_message_bytes = 52428800

abbrev pub orphan_reclaim_after_ms : ℕ
orphan_reclaim_after_ms = 86400000

-- `Number.isSafeInteger` of a natural number.
abbrev pub is_safe : ℕ → Bool
is_safe n = leb n 9007199254740991

abbrev media_types : List String
media_types =
    "image/jpeg" ∷ "image/png" ∷ "image/webp" ∷ "application/pdf" ∷ "text/plain" ∷ "audio/mp4" ∷ []

in_range : ℕ → ℕ → ℕ → Bool
in_range low high c = leb low c && leb c high

is_hex : ℕ → Bool
unfolding in_range
is_hex c = in_range b'A' b'F' c || in_range b'a' b'f' c || in_range b'0' b'9' c

-- `SHA256`, over code points.
is_sha256 : List ℕ → Bool
unfolding is_hex
is_sha256 cs = length cs == 64 && all is_hex cs

is_id_character : ℕ → Bool
unfolding in_range
is_id_character c =
    in_range b'A' b'Z' c
    || in_range b'a' b'z' c
    || in_range b'0' b'9' c
    || c == b'.'
    || c == b'_'
    || c == b'~'
    || c == b'-'

-- `ID`.
unfoldable pub artifact_id_pattern : String → Bool
unfolding is_id_character
artifact_id_pattern s =
    let cs = codes s in leb 1 (length cs) && leb (length cs) 128 && all is_id_character cs

-- `toLowerCase` of a character that is compared with, or is, a hexadecimal digit.
unfoldable pub lower_case : ℕ → ℕ
unfolding in_range
lower_case c = if in_range b'A' b'Z' c then c + 32 else c

pub data ArtifactErrorCode : Type 0 where
  timestamp_invalid selection_invalid media_type_not_allowed audio_duration_invalid
        artifact_too_large digest_required ticket_id_invalid ticket_not_issued :
      ArtifactErrorCode
  proof_ticket_mismatch proof_digest_mismatch proof_invalid proof_rejected message_id_invalid
        message_artifact_count_invalid message_artifact_count_exceeded new_ticket_required :
      ArtifactErrorCode
  proof_not_verified duplicate_ticket artifact_invalid message_artifact_bytes_exceeded
        ticket_not_proof_verified :
      ArtifactErrorCode

-- What a function of the file returns, or the code of the error it throws.
pub data Checked {ℓ} (T : Type ℓ) : Type ℓ where
  accepted : T → Checked T
  failed : ArtifactErrorCode → Checked T

pub data ArtifactSource : Type 0 where
  photo_picker saf : ArtifactSource

pub record ArtifactSelection : Type 0 where
  pub source : ArtifactSource
  pub selection_id : String

pub data ArtifactTicketStatus : Type 0 where
  issued proof_verified upload_interrupted message_committed orphan_reclaimed : ArtifactTicketStatus

pub record ArtifactInput : Type 0 where
  pub selection : ArtifactSelection
  pub media_type : String
  pub byte_size : ℕ
  pub duration_ms : Option ℕ
  pub sha256 : List ℕ

pub record ArtifactTicket : Type 0 where
  pub ticket_id : String
  pub status : ArtifactTicketStatus
  pub selection : ArtifactSelection
  pub media_type : String
  pub byte_size : ℕ
  pub duration_ms : Option ℕ
  pub sha256 : List ℕ
  pub issued_at : ℕ
  pub proof_verified_at : Option ℕ
  pub committed_at : Option ℕ
  pub local_copy_deletion_allowed : Option Bool
  pub artifact_id : Option String
  pub proof_brand : Bool

pub record ArtifactProof : Type 0 where
  pub ticket_id : String
  pub sha256 : List ℕ
  pub proof : String

pub record ArtifactReceipt : Type 0 where
  pub message_id : String
  pub tickets : List ArtifactTicket
  pub committed_at : ℕ

abbrev pub is_issued : ArtifactTicketStatus → Bool
is_issued issued = true
is_issued _ = false

abbrev pub is_verified : ArtifactTicketStatus → Bool
is_verified proof_verified = true
is_verified _ = false

abbrev duration_valid : Option ℕ → Bool
duration_valid none = false
duration_valid (some d) = is_safe d && leb 1 d && leb d max_audio_duration_ms

unfoldable pub parse_input : ArtifactInput → Checked ArtifactInput
unfolding is_sha256 lower_case
parse_input input =
    let audio = str_eq input.media_type "audio/mp4" in
    if not (artifact_id_pattern input.selection.selection_id)
    then failed selection_invalid
    else if not (has input.media_type media_types)
    then failed media_type_not_allowed
    else if audio && not (duration_valid input.duration_ms)
    then failed audio_duration_invalid
    else if not audio && not (is_none input.duration_ms)
    then failed audio_duration_invalid
    else if not (
        is_safe input.byte_size
        && leb input.byte_size (if audio then max_audio_bytes else max_single_bytes))
    then failed artifact_too_large
    else if not (is_sha256 input.sha256)
    then failed digest_required
    else accepted (record input { sha256 = map lower_case input.sha256 })

-- The ticket of a parsed input, whose id is `next_ticket_id()`.
unfoldable pub new_ticket : ℕ → String → Checked ArtifactInput → Checked ArtifactTicket
new_ticket now_ms ticket_id (failed code) = failed code
new_ticket now_ms ticket_id (accepted parsed) =
    if not (artifact_id_pattern ticket_id)
    then failed ticket_id_invalid
    else accepted (record {
      ticket_id = ticket_id;
      status = issued;
      selection = parsed.selection;
      media_type = parsed.media_type;
      byte_size = parsed.byte_size;
      duration_ms = parsed.duration_ms;
      sha256 = parsed.sha256;
      issued_at = now_ms;
      proof_verified_at = none;
      committed_at = none;
      local_copy_deletion_allowed = none;
      artifact_id = none;
      proof_brand = false;
    })

unfoldable pub issue_artifact_ticket : ArtifactInput → ℕ → String → Checked ArtifactTicket
unfolding parse_input new_ticket
issue_artifact_ticket input now_ms next_ticket_id =
    if not (is_safe now_ms)
    then failed timestamp_invalid
    else new_ticket now_ms next_ticket_id (parse_input input)
