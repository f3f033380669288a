-- ===== src/Artifacts/Receipts.antt =====
-- Which messages are committed, and with which tickets.
use agent_life.Shared.{
  ℕ, ◌+◌, ◌≡◌, ◌∙◌, sym, ap, refl, String, Bool, true, false, not, ◌&&◌, leb, Option, none, some,
  List, [], ◌∷◌, length, map, if◌then◌else◌, Bool-cases, arith, inl, inr,
}
use agent_life.Shared.Sets.{has, add, has-add}
use agent_life.Artifacts.{
  max_files, max_message_bytes, is_safe, artifact_id_pattern, Checked, accepted, failed,
  ArtifactTicket, ArtifactReceipt, is_verified,
}
use agent_life.Artifacts.Tickets.{deliver, also, commit_tickets, receipt, commit_artifact_message}

abbrev pub accepted_part {ℓ} : {T : Type ℓ} → Checked T → Option T
accepted_part (accepted x) = some x
accepted_part (failed _) = none

-- The tickets that a verifier accepted.
abbrev pub all_proved : List ArtifactTicket → Bool
all_proved [] = true
all_proved (t ∷ ts) = is_verified t.status && t.proof_brand && all_proved ts

abbrev none_named : List String → List ArtifactTicket → Bool
none_named ids [] = true
none_named ids (t ∷ ts) = not (has t.ticket_id ids) && none_named ids ts

abbrev pub distinct : List ArtifactTicket → Bool
distinct [] = true
distinct (t ∷ ts) = none_named (t.ticket_id ∷ []) ts && distinct ts

abbrev pub total_bytes : List ArtifactTicket → ℕ
total_bytes [] = 0
total_bytes (t ∷ ts) = t.byte_size + total_bytes ts

none_named-add :
    (k : String) (ids : List String) (ts : List ArtifactTicket)
    → none_named (add k ids) ts ≡ (none_named ids ts && none_named (k ∷ []) ts)
unfolding has
none_named-add k ids [] = refl
none_named-add k ids (t ∷ ts) = ground (arith, has-add k t.ticket_id ids, none_named-add k ids ts)

-- What `commit_tickets` asks of the tickets, after tickets with these ids and bytes.
abbrev fit : List String → ℕ → List ArtifactTicket → Bool
fit ids total ts =
    all_proved ts
    && none_named ids ts
    && distinct ts
    && leb (total + total_bytes ts) max_message_bytes

abbrev with_first : ArtifactTicket → Option (List ArtifactTicket) → Option (List ArtifactTicket)
with_first t none = none
with_first t (some ts) = some (t ∷ ts)

also-some :
    (now_ms : ℕ) (t : ArtifactTicket) (ts : List ArtifactTicket) (c : Checked (List ArtifactTicket))
    (b : Bool)
    → accepted_part c ≡ (if b then some (map (deliver now_ms) ts) else none)
    → accepted_part (also (deliver now_ms t) c)
      ≡ (if b then some (map (deliver now_ms) (t ∷ ts)) else none)
also-some now_ms t ts (accepted us) true h = ap (with_first (deliver now_ms t)) h
also-some now_ms t ts (accepted us) false h = ap (with_first (deliver now_ms t)) h
also-some now_ms t ts (failed _) true h = ap (with_first (deliver now_ms t)) h
also-some now_ms t ts (failed _) false h = refl

abbrev proceeds : List String → ℕ → ArtifactTicket → Bool
proceeds ids total t =
    is_verified t.status
    && t.proof_brand
    && not (has t.ticket_id ids)
    && leb (total + t.byte_size) max_message_bytes

fit-cons :
    (ids : List String) (total : ℕ) (t : ArtifactTicket) (ts : List ArtifactTicket)
    → fit ids total (t ∷ ts)
      ≡ (proceeds ids total t && fit (add t.ticket_id ids) (total + t.byte_size) ts)
fit-cons ids total t ts = ground (arith, none_named-add t.ticket_id ids ts, total_larger)
  where
    total_larger : leb (total + (t.byte_size + total_bytes ts)) max_message_bytes ≡ (
        leb (total + t.byte_size) max_message_bytes
        && leb (total + t.byte_size + total_bytes ts) max_message_bytes)
    total_larger = ground arith

proceeds-commit_tickets :
    (now_ms : ℕ) (ids : List String) (total : ℕ) (t : ArtifactTicket) (ts : List ArtifactTicket)
    → accepted_part (commit_tickets now_ms ids total (t ∷ ts)) ≡ (
        if proceeds ids total t
        then accepted_part (
            also
              (deliver now_ms t)
              (commit_tickets now_ms (add t.ticket_id ids) (total + t.byte_size) ts))
        else none)
unfolding commit_tickets
proceeds-commit_tickets now_ms ids total t ts = ground arith

commit_tickets-fit :
    (now_ms : ℕ) (ids : List String) (total : ℕ) (ts : List ArtifactTicket)
    → leb total max_message_bytes ≡ true
    → accepted_part (commit_tickets now_ms ids total ts)
      ≡ (if fit ids total ts then some (map (deliver now_ms) ts) else none)
unfolding commit_tickets
commit_tickets-fit now_ms ids total [] h = ground arith
commit_tickets-fit now_ms ids total (t ∷ ts) h = elim (Bool-cases (proceeds ids total t)) [
  | inl p ↦
      let id = t.ticket_id in
      let total' = total + t.byte_size in
      let rest = commit_tickets now_ms (add id ids) total' ts in
      let ih = commit_tickets-fit now_ms (add id ids) total' ts (ground arith) in
      let step = also-some now_ms t ts rest (fit (add id ids) total' ts) ih in
      proceeds-commit_tickets now_ms ids total t ts
      ∙ ap (λ b. if b then accepted_part (also (deliver now_ms t) rest) else none) p
      ∙ step
      ∙ ap
          (λ b.
            if b && fit (add id ids) total' ts then some (map (deliver now_ms) (t ∷ ts)) else none)
          (sym p)
      ∙ ap (λ b. if b then some (map (deliver now_ms) (t ∷ ts)) else none)
          (sym (fit-cons ids total t ts))
  | inr p ↦
      let id = t.ticket_id in
      let total' = total + t.byte_size in
      proceeds-commit_tickets now_ms ids total t ts
      ∙ ap
          (λ b.
            if b
            then accepted_part
                (also (deliver now_ms t) (commit_tickets now_ms (add id ids) total' ts))
            else none)
          p
      ∙ ap
          (λ b.
            if b && fit (add id ids) total' ts then some (map (deliver now_ms) (t ∷ ts)) else none)
          (sym p)
      ∙ ap (λ b. if b then some (map (deliver now_ms) (t ∷ ts)) else none)
          (sym (fit-cons ids total t ts))
]

none_named-[] : (ts : List ArtifactTicket) → none_named [] ts ≡ true
unfolding has
none_named-[] [] = refl
none_named-[] (t ∷ ts) = none_named-[] ts

abbrev pub receipt_of : String → ℕ → List ArtifactTicket → ArtifactReceipt
receipt_of message_id now_ms ts = record {
  message_id = message_id;
  tickets = ts;
  committed_at = now_ms;
}

abbrev in_receipt : String → ℕ → Option (List ArtifactTicket) → Option ArtifactReceipt
in_receipt message_id now_ms none = none
in_receipt message_id now_ms (some ts) = some (receipt_of message_id now_ms ts)

receipt-in_receipt :
    (message_id : String) (now_ms : ℕ) (c : Checked (List ArtifactTicket))
    → accepted_part (receipt message_id now_ms c) ≡ in_receipt message_id now_ms (accepted_part c)
unfolding receipt
receipt-in_receipt message_id now_ms (accepted ts) = refl
receipt-in_receipt message_id now_ms (failed code) = refl

in_receipt-if :
    (message_id : String) (now_ms : ℕ) (ts : List ArtifactTicket) (b : Bool)
    → in_receipt message_id now_ms (if b then some ts else none)
      ≡ (if b then some (receipt_of message_id now_ms ts) else none)
in_receipt-if message_id now_ms ts true = refl
in_receipt-if message_id now_ms ts false = refl

receipt-fit :
    (message_id : String) (now_ms : ℕ) (tickets : List ArtifactTicket)
    → accepted_part (receipt message_id now_ms (commit_tickets now_ms [] 0 tickets)) ≡ (
        if fit [] 0 tickets
        then some (receipt_of message_id now_ms (map (deliver now_ms) tickets))
        else none)
receipt-fit message_id now_ms tickets =
    receipt-in_receipt message_id now_ms (commit_tickets now_ms [] 0 tickets)
    ∙ ap (in_receipt message_id now_ms) (commit_tickets-fit now_ms [] 0 tickets refl)
    ∙ in_receipt-if message_id now_ms (map (deliver now_ms) tickets) (fit [] 0 tickets)

-- A message is committed exactly if the clock and its id are valid, it has one to four tickets, each
-- verified by a verifier and not used up since, no two with the same id, of at most 50 MiB together; its
-- receipt has the committed form of each ticket, in their order.
pub commit_artifact_message-accepted :
    (message_id : String) (tickets : List ArtifactTicket) (now_ms : ℕ)
    → accepted_part (commit_artifact_message message_id tickets now_ms) ≡ (
        if is_safe now_ms
          && artifact_id_pattern message_id
          && leb 1 (length tickets)
          && leb (length tickets) max_files
          && all_proved tickets
          && distinct tickets
          && leb (total_bytes tickets) max_message_bytes
        then some (receipt_of message_id now_ms (map (deliver now_ms) tickets))
        else none)
unfolding commit_artifact_message
commit_artifact_message-accepted message_id tickets now_ms =
    ground (arith, receipt-fit message_id now_ms tickets, none_named-[] tickets)
