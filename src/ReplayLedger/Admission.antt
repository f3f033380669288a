-- ===== src/ReplayLedger/Admission.antt =====
-- What `admit` and `restorePending` may do to the ledger.
use agent_life.Shared.{
  ℕ, String, not, ◌||◌, ◌≡◌, ◌⊎◌, Bool, false, refl, inl, inr, Option, none, some, is_none,
  Bool-cases, Result, ok, err, arith,
}
use agent_life.Shared.Int.{ℤ, pos, negsuc, exceeds, is_negative}
use agent_life.Shared.Dict.{get}
use agent_life.Replay.{ReplayWindowState, ReplayDecision, accept, reject, accept_sequence}
use agent_life.Shared.Digests.{opaque_id}
use agent_life.ReplayLedger.{
  ReplaySpace, replay_space_key, ReplayClaim, LedgerRow, ReplayLedger, window_of, capacity_of,
}
use agent_life.ReplayLedger.Preview.{
  Outside, Envelope, Header, read_header, preview_claim, PreviewOf, preview_claim-PreviewOf,
}
use agent_life.ReplayLedger.Admit.{
  Decision, Compaction, admit, store_row, admit_header, admit_message, admit_window, admit_room,
  admit_preview, make_room, admit_known, over_capacity,
}
use agent_life.ReplayLedger.Restore.{ClaimSnapshot, restored_claim, restore_window, restore_pending}
use agent_life.ReplayLedger.Calls.{admitted_claim, restored}
use agent_life.ReplayLedger.Compact.{compact}

-- The ledger as it is, or after one compaction of the space.
unfoldable pub Roomy : ReplaySpace → ReplayLedger → ReplayLedger → Type 0
Roomy space l l' =
    (l' ≡ l)
    ⊎ ((now : Option ℕ) × (can_remove : String → Bool) × (l' ≡ (compact l space now can_remove).0))

-- What it takes to put a claim in: a new message id, a new claim id, a sequence number that the window
-- accepts, and room in the space.
pub record Stored (l : ReplayLedger) (space : ReplaySpace) (retained : ℤ) (claim : ReplayClaim)
    (l' : ReplayLedger) : Type 0 where
  pub room : ReplayLedger
  pub window : ReplayWindowState
  pub roomy : Roomy space l room
  pub home : claim.space ≡ space
  pub free : get claim.message_id l.rows ≡ none
  pub new_id : get claim.claim_id l.claim_ids ≡ none
  pub number :
      accept_sequence (window_of (replay_space_key space) l) (pos claim.sequence) ≡ accept window
  pub fits : over_capacity (capacity_of (replay_space_key space) room) retained ≡ false
  pub result : l' ≡ store_row (replay_space_key space) window claim retained room

unfoldable pub Outcome : ReplayLedger → ReplaySpace → ℤ → ReplayLedger → Option ReplayClaim → Type 0
Outcome l space retained l' none = Roomy space l l'
Outcome l space retained l' (some claim) = Stored l space retained claim l'

unchanged-Outcome :
    (l : ReplayLedger) (space : ReplaySpace) (retained : ℤ) → Outcome l space retained l none
unfolding Outcome Roomy
unchanged-Outcome l space retained = inl refl

module _ (env : Outside) where
  restore_window-Outcome :
      (l : ReplayLedger) (c : ClaimSnapshot) (retained : ℤ) (number : ℤ) (d : ReplayDecision)
      → get c.message_id l.rows ≡ none
      → get c.claim_id l.claim_ids ≡ none
      → c.sequence ≡ number
      → accept_sequence (window_of (replay_space_key c.space) l) number ≡ d
      → (let r =
            restore_window (replay_space_key c.space) (restored_claim l.objects c) retained l d in
          Outcome l c.space retained (r.0) (restored (r.1)))
  unfolding restore_window restored_claim
  restore_window-Outcome l c retained number reject free new same e =
      unchanged-Outcome l c.space retained
  restore_window-Outcome l c retained (negsuc n) (accept w) free new same e =
      unfold accept_sequence in absurd (ground arith)
  restore_window-Outcome l c retained (pos n) (accept w) free new same e =
      elim (Bool-cases (over_capacity (capacity_of (replay_space_key c.space) l) retained)) [
        | inl over ↦ rw (over, restore_window) (unchanged-Outcome l c.space retained)
        | inr room ↦ rw (room, restore_window) (restored_Stored room)
      ]
    where
      restored_Stored :
          over_capacity (capacity_of (replay_space_key c.space) l) retained ≡ false
          → Outcome l c.space retained
              (store_row (replay_space_key c.space) w (restored_claim l.objects c) retained l)
              (some (restored_claim l.objects c))
      restored_Stored room =
          unfold Outcome in
          record {
            room = l;
            window = w;
            roomy = unfold Roomy in (inl refl);
            home = unfold restored_claim in refl;
            free = unfold restored_claim in free;
            new_id = unfold restored_claim in new;
            number = unfold restored_claim in (rw same e);
            fits = room;
            result = refl;
          }

  pub restore_pending-Outcome :
      (l : ReplayLedger) (c : ClaimSnapshot) (retained : ℤ)
      → (let r = restore_pending l c retained in Outcome l c.space retained (r.0) (restored (r.1)))
  unfolding restore_pending
  restore_pending-Outcome l c retained = elim (Bool-cases (not (opaque_id c.claim_id))) [
    | inl bad ↦ rw (bad, restore_pending) (unchanged-Outcome l c.space retained)
    | inr fine ↦
        elim (Bool-cases
          (not (is_none (get c.message_id l.rows)) || not (is_none (get c.claim_id l.claim_ids)))) [
            | inl known ↦ rw (fine, known, restore_pending) (unchanged-Outcome l c.space retained)
            | inr new ↦
                rw (fine, new, restore_pending)
                  (restore_window-Outcome l c retained c.sequence
                    (accept_sequence (window_of (replay_space_key c.space) l) c.sequence)
                    (ground arith) (ground arith) refl refl)
          ]
  ]

  -- What an answer of admit did.
  unfoldable pub Admitted : ReplayLedger → ReplaySpace → ℤ → ReplayLedger × Result Decision → Type 0
  Admitted l space retained r = Outcome l space retained (r.0) (admitted_claim (r.1))

  refused-Admitted :
      (l l' : ReplayLedger) (space : ReplaySpace) (retained : ℤ) (d : Result Decision)
      → admitted_claim d ≡ none
      → Roomy space l l'
      → Admitted l space retained (l', d)
  unfolding Admitted Outcome
  refused-Admitted l l' space retained d none_in roomy = rw none_in roomy

  unchanged-Admitted :
      (l : ReplayLedger) (space : ReplaySpace) (retained : ℤ) (d : Result Decision)
      → admitted_claim d ≡ none
      → Admitted l space retained (l, d)
  unfolding Roomy
  unchanged-Admitted l space retained d none_in =
      refused-Admitted l l space retained d none_in (inl refl)

  admit_preview-Admitted :
      (space : ReplaySpace) (h : Header) (claim_id : String) (retained : ℤ) (w : ReplayWindowState)
      (l l' : ReplayLedger) (preview : Result (Option ReplayClaim))
      → ((claim : ReplayClaim) → preview ≡ ok (some claim) → PreviewOf env space h claim)
      → get h.message_id l.rows ≡ none
      → get claim_id l.claim_ids ≡ none
      → accept_sequence (window_of (replay_space_key space) l) (pos h.sequence) ≡ accept w
      → over_capacity (capacity_of (replay_space_key space) l') retained ≡ false
      → Roomy space l l'
      → Admitted l space retained
          (admit_preview (replay_space_key space) claim_id retained w l' preview)
  unfolding admit_preview
  admit_preview-Admitted space h claim_id retained w l l' (err thrown) of_h free new e fits roomy =
      refused-Admitted l l' space retained (err thrown) refl roomy
  admit_preview-Admitted space h claim_id retained w l l' (ok none) of_h free new e fits roomy =
      refused-Admitted l l' space retained _ refl roomy
  admit_preview-Admitted space h claim_id retained w l l' (ok (some claim)) of_h free new e fits
        roomy =
      let taken = of_h claim refl in
      unfold Admitted Outcome in
      record {
        room = l';
        window = w;
        roomy = roomy;
        home = taken.same_space;
        free = rw taken.same_message free;
        new_id = new;
        number = rw taken.same_sequence e;
        fits = fits;
        result = refl;
      }

  make_room-Roomy :
      (space : ReplaySpace) (at : String) (now : Option ℕ) (c : Compaction) (retained : ℤ)
      (l : ReplayLedger)
      → Roomy space l (make_room env space at now c retained l)
  unfolding make_room Roomy
  make_room-Roomy space at now c retained l =
      elim (Bool-cases (over_capacity (capacity_of at l) retained)) [
        | inl over ↦ rw (over, make_room) (inr (_, _, refl))
        | inr room ↦ rw (room, make_room) (inl refl)
      ]

  admit_room-Admitted :
      (space : ReplaySpace) (e : Envelope) (h : Header) (admitted_at claim_id : String)
      (retained : ℤ) (w : ReplayWindowState) (l l' : ReplayLedger)
      → read_header e ≡ some h
      → get h.message_id l.rows ≡ none
      → get claim_id l.claim_ids ≡ none
      → accept_sequence (window_of (replay_space_key space) l) (pos h.sequence) ≡ accept w
      → Roomy space l l'
      → Admitted l space retained
          (admit_room env space (replay_space_key space) e admitted_at claim_id retained w l')
  unfolding admit_room
  admit_room-Admitted space e h admitted_at claim_id retained w l l' r free new a roomy =
      elim (Bool-cases (over_capacity (capacity_of (replay_space_key space) l') retained)) [
        | inl over ↦ rw (over, admit_room) (refused-Admitted l l' space retained _ refl roomy)
        | inr room ↦
            rw (room, admit_room)
              (admit_preview-Admitted space h claim_id retained w l l'
                (preview_claim env space e admitted_at)
                (λ claim p. preview_claim-PreviewOf env space e h admitted_at r p) free new a room
                roomy)
      ]

  admit_window-Admitted :
      (space : ReplaySpace) (e : Envelope) (h : Header) (admitted_at claim_id : String)
      (retained : ℤ) (c : Compaction) (l : ReplayLedger) (d : ReplayDecision)
      → read_header e ≡ some h
      → get h.message_id l.rows ≡ none
      → accept_sequence (window_of (replay_space_key space) l) (pos h.sequence) ≡ d
      → Admitted l space retained
          (admit_window env space (replay_space_key space) e admitted_at claim_id retained c l d)
  unfolding admit_window
  admit_window-Admitted space e h admitted_at claim_id retained c l reject r free a =
      unchanged-Admitted l space retained _ refl
  admit_window-Admitted space e h admitted_at claim_id retained c l (accept w) r free a =
      elim (Bool-cases (is_negative retained || exceeds retained 9007199254740991)) [
        | inl bad ↦ rw (bad, admit_window) (unchanged-Admitted l space retained _ refl)
        | inr fine ↦ elim (Bool-cases (not (opaque_id claim_id))) [
          | inl bad ↦ rw (fine, bad, admit_window) (unchanged-Admitted l space retained _ refl)
          | inr id ↦ elim (Bool-cases (not (is_none (get claim_id l.claim_ids)))) [
            | inl taken ↦
                rw (fine, id, taken, admit_window) (unchanged-Admitted l space retained _ refl)
            | inr new ↦
                rw (fine, id, new, admit_window)
                  (admit_room-Admitted space e h admitted_at claim_id retained w l _ r free
                    (ground arith) a
                    (make_room-Roomy space (replay_space_key space) (env.date_parse admitted_at) c
                      retained l))
          ]
        ]
      ]

  known-none :
      (l : ReplayLedger) (at : String) (e : Envelope) (row : LedgerRow)
      → admitted_claim (ok (admit_known l at e row)) ≡ none
  unfolding admit_known
  known-none l at e row = ground arith

  admit_message-Admitted :
      (space : ReplaySpace) (e : Envelope) (h : Header) (admitted_at claim_id : String)
      (retained : ℤ) (c : Compaction) (l : ReplayLedger) (known : Option LedgerRow)
      → read_header e ≡ some h
      → get h.message_id l.rows ≡ known
      → Admitted l space retained
          (admit_message env space e admitted_at claim_id retained c l h known)
  unfolding admit_message
  admit_message-Admitted space e h admitted_at claim_id retained c l none r known =
      admit_window-Admitted space e h admitted_at claim_id retained c l
        (accept_sequence (window_of (replay_space_key space) l) (pos h.sequence)) r known refl
  admit_message-Admitted space e h admitted_at claim_id retained c l (some row) r known =
      unchanged-Admitted l space retained (ok (admit_known l (replay_space_key space) e row))
        (known-none l (replay_space_key space) e row)

  admit_header-Admitted :
      (space : ReplaySpace) (e : Envelope) (admitted_at claim_id : String) (retained : ℤ)
      (c : Compaction) (l : ReplayLedger) (header : Option Header)
      → read_header e ≡ header
      → Admitted l space retained
          (admit_header env space e admitted_at claim_id retained c l header)
  unfolding admit_header
  admit_header-Admitted space e admitted_at claim_id retained c l none r =
      unchanged-Admitted l space retained _ refl
  admit_header-Admitted space e admitted_at claim_id retained c l (some h) r =
      admit_message-Admitted space e h admitted_at claim_id retained c l (get h.message_id l.rows) r
        refl

  pub admit-Outcome :
      (l : ReplayLedger) (space : ReplaySpace) (e : Envelope) (admitted_at claim_id : String)
      (retained : ℤ) (c : Compaction)
      → (let r = admit env l space e admitted_at claim_id retained c in
          Outcome l space retained (r.0) (admitted_claim (r.1)))
  unfolding admit Admitted
  admit-Outcome l space e admitted_at claim_id retained c =
      admit_header-Admitted space e admitted_at claim_id retained c l (read_header e) refl
