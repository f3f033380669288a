-- ===== src/ReplayLedger/Admit.antt =====
-- `admit` of DeterministicReplayLedger; the next claim id is an argument.
use agent_life.Shared.{
  ℕ, suc, String, Bool, false, not, ◌||◌, Option, none, some, List, ◌∷◌, str_eq, is_none, Result,
  ok, err, if◌then◌else◌, integrity_failed,
}
use agent_life.Shared.Int.{ℤ, pos, ◌+ℤ◌, exceeds, is_negative}
use agent_life.Shared.Dict.{get, set}
use agent_life.Replay.{ReplayWindowState, ReplayDecision, accept, reject, accept_sequence}
use agent_life.Shared.Digests.{opaque_id}
use agent_life.ReplayLedger.{
  ReplaySpace, replay_space_key, pending, ReplayClaim, LedgerRow, Capacity, ReplayLedger,
  max_rows_per_space, max_retained_bytes_per_space, window_of, capacity_of, is_pending, in_space,
}
use agent_life.ReplayLedger.Compact.{compact}
use agent_life.ReplayLedger.Preview.{Outside, Envelope, Header, read_header, preview_claim}

pub data Denial : Type 0 where
  message_id_conflict claim_id_conflict is_still_pending window_rejected capacity_exhausted : Denial

pub data Decision : Type 0 where
  accepted : ReplayClaim → Decision
  duplicate : ReplayClaim → Option (List ℕ) → Decision
  rejected : Denial → Decision

-- Number.MAX_SAFE_INTEGER.
abbrev max_safe_integer : ℕ
max_safe_integer = 9007199254740991

pub record Compaction : Type 0 where
  pub now : Option (Option ℕ)
  pub can_remove : Option (String → Bool)

unfoldable pub over_capacity : Capacity → ℤ → Bool
over_capacity c retained =
    exceeds (c.rows +ℤ pos 1) max_rows_per_space
    || exceeds (c.retained_bytes +ℤ retained) max_retained_bytes_per_space

-- The four maps and the window with a new row.
unfoldable pub store_row :
    String → ReplayWindowState → ReplayClaim → ℤ → ReplayLedger → ReplayLedger
store_row key window claim retained l =
    let c = capacity_of key l in
    record {
      windows = set key window l.windows;
      capacities =
          set key (record { rows = c.rows +ℤ pos 1; retained_bytes = c.retained_bytes +ℤ retained })
            l.capacities;
      rows =
          set claim.message_id
            (record { claim = claim; status = pending; receipt = none; retained_bytes = retained })
            l.rows;
      claim_ids = set claim.claim_id claim.message_id l.claim_ids;
      claims = (claim.object, claim.message_id) ∷ l.claims;
      objects = suc l.objects;
    }

abbrev default_now : Option ℕ → Option (Option ℕ) → Option ℕ
default_now admitted none = admitted
default_now admitted (some now) = now

abbrev default_remove : Option (String → Bool) → String → Bool
default_remove none = λ _. false
default_remove (some can_remove) = can_remove

-- A message id that has a row.
unfoldable pub admit_known : ReplayLedger → String → Envelope → LedgerRow → Decision
admit_known l key e row =
    if not (str_eq row.claim.envelope_digest e.envelope_digest) || not (in_space key row)
    then rejected message_id_conflict
    else if is_pending row.status
    then rejected is_still_pending
    else duplicate row.claim row.receipt

unfoldable pub admit_preview :
    String
    → String
    → ℤ
    → ReplayWindowState
    → ReplayLedger
    → Result (Option ReplayClaim)
    → ReplayLedger × Result Decision
admit_preview key claim_id retained window l (err thrown) = (l, err thrown)
admit_preview key claim_id retained window l (ok none) = (l, ok (rejected window_rejected))
admit_preview key claim_id retained window l (ok (some preview)) =
    let claim = record preview { object = l.objects; claim_id = claim_id } in
    (store_row key window claim retained l, ok (accepted claim))

module _ (env : Outside) where
  -- Admission-triggered compaction.
  unfoldable pub make_room :
      ReplaySpace → String → Option ℕ → Compaction → ℤ → ReplayLedger → ReplayLedger
  unfolding over_capacity
  make_room space key admitted c retained l =
      if over_capacity (capacity_of key l) retained
      then (compact l space (default_now admitted c.now) (default_remove c.can_remove)).0
      else l

  unfoldable pub admit_room :
      ReplaySpace
      → String
      → Envelope
      → String
      → String
      → ℤ
      → ReplayWindowState
      → ReplayLedger
      → ReplayLedger × Result Decision
  unfolding over_capacity admit_preview
  admit_room space key e admitted_at claim_id retained window l =
      if over_capacity (capacity_of key l) retained
      then (l, ok (rejected capacity_exhausted))
      else admit_preview key claim_id retained window l (preview_claim env space e admitted_at)

  unfoldable pub admit_window :
      ReplaySpace
      → String
      → Envelope
      → String
      → String
      → ℤ
      → Compaction
      → ReplayLedger
      → ReplayDecision
      → ReplayLedger × Result Decision
  unfolding make_room
  admit_window space key e admitted_at claim_id retained c l reject =
      (l, ok (rejected window_rejected))
  admit_window space key e admitted_at claim_id retained c l (accept window) =
      if is_negative retained || exceeds retained max_safe_integer
      then (l, ok (rejected capacity_exhausted))
      else if not (opaque_id claim_id)
      then (l, err integrity_failed)
      else if not (is_none (get claim_id l.claim_ids))
      then (l, ok (rejected claim_id_conflict))
      else admit_room space key e admitted_at claim_id retained window
          (make_room space key (env.date_parse admitted_at) c retained l)

  unfoldable pub admit_message :
      ReplaySpace
      → Envelope
      → String
      → String
      → ℤ
      → Compaction
      → ReplayLedger
      → Header
      → Option LedgerRow
      → ReplayLedger × Result Decision
  unfolding admit_known
  admit_message space e admitted_at claim_id retained c l h (some row) =
      (l, ok (admit_known l (replay_space_key space) e row))
  admit_message space e admitted_at claim_id retained c l h none =
      let key = replay_space_key space in
      admit_window space key e admitted_at claim_id retained c l
        (accept_sequence (window_of key l) (pos h.sequence))

  unfoldable pub admit_header :
      ReplaySpace
      → Envelope
      → String
      → String
      → ℤ
      → Compaction
      → ReplayLedger
      → Option Header
      → ReplayLedger × Result Decision
  unfolding admit_message
  admit_header space e admitted_at claim_id retained c l none = (l, ok (rejected window_rejected))
  admit_header space e admitted_at claim_id retained c l (some h) =
      admit_message space e admitted_at claim_id retained c l h (get h.message_id l.rows)

  unfoldable pub admit :
      ReplayLedger
      → ReplaySpace
      → Envelope
      → String
      → String
      → ℤ
      → Compaction
      → ReplayLedger × Result Decision
  unfolding admit_header
  admit l space e admitted_at claim_id retained c =
      admit_header space e admitted_at claim_id retained c l (read_header e)
