-- ===== src/Gateway/Machines.antt =====
-- Runs of the tables: how long they are, and that what ends a run is final.
use agent_life.Shared.{
  ℕ, ◌+◌, ◌≡◌, ◌<◌, ◌≤◌, ◌⊎◌, inl, inr, refl, Bool, true, false, List, [], ◌∷◌, length, any, arith,
  Result, ok, err, ◌>>=◌,
}
use agent_life.Gateway.{
  AttachmentState, created, uploading, verified, delivered, acknowledged, attachment_failed,
  attachment_expired, deleted, AttachmentEvent, next_attachment_state, DeviceRequestState, pending,
  claimed, cancel_requested, cancelled, expired, DeviceRequestEvent, claim, cancel, expire,
  result_succeeded, result_failed, result_denied, result_cancelled, result_outcome_unknown,
  recover_outcome_unknown, next_device_request_state, GenerationState, idle, streaming,
  generation_cancel_requested, GenerationEvent, chunk, request_cancel, next_generation_state,
}

module _ {S E : Type 0} (next : S → E → Result S) where
  -- A run of events, refused as a whole at the first event that is refused.
  unfoldable pub run : S → List E → Result S
  run s [] = ok s
  run s (e ∷ es) = next s e >>= (λ s'. run s' es)

  -- With a rank that every event lowers, a run is at most as long as the rank of its start.
  run-rank :
      (rank : S → ℕ)
      → ((s : S) (e : E) (s' : S) → next s e ≡ ok s' → rank s' < rank s)
      → (s : S) (es : List E) (s' : S) → run s es ≡ ok s'
      → length es + rank s' ≤ rank s
  unfolding run
  run-rank rank lowers s [] s' h = ground arith
  run-rank rank lowers s (e ∷ es) s' h = by_next (next s e) refl (λ t. run-rank rank lowers t es s')
    where
      by_next :
          (x : Result S)
          → next s e ≡ x
          → ((t : S) → run t es ≡ ok s' → length es + rank s' ≤ rank t)
          → length (e ∷ es) + rank s' ≤ rank s
      by_next (err f) x rest = absurd (ground arith)
      by_next (ok t) x rest = omega (arith, lowers s e t x, rest t (ground arith))

  -- What every event keeps holds after a run.
  run-keeps :
      (P : S → Bool)
      → ((s : S) (e : E) (s' : S) → P s ≡ true → next s e ≡ ok s' → P s' ≡ true)
      → (bad : E → Bool)
      → ((s : S) (e : E) (s' : S) → P s ≡ true → next s e ≡ ok s' → bad e ≡ false)
      → (s : S) (es : List E) (s' : S) → P s ≡ true
      → run s es ≡ ok s'
      → any bad es ≡ false
  unfolding run
  run-keeps P keeps bad never s [] s' p h = refl
  run-keeps P keeps bad never s (e ∷ es) s' p h =
      by_next (next s e) refl (λ t. run-keeps P keeps bad never t es s')
    where
      by_next :
          (x : Result S)
          → next s e ≡ x
          → ((t : S) → P t ≡ true → run t es ≡ ok s' → any bad es ≡ false)
          → any bad (e ∷ es) ≡ false
      by_next (err f) x rest = absurd (ground arith)
      by_next (ok t) x rest =
          ground (arith, never s e t p x, rest t (keeps s e t p x) (ground arith))

abbrev attachment_rank : AttachmentState → ℕ
attachment_rank created = 5
attachment_rank uploading = 4
attachment_rank verified = 3
attachment_rank delivered = 2
attachment_rank acknowledged = 1
attachment_rank attachment_failed = 1
attachment_rank attachment_expired = 1
attachment_rank deleted = 0

attachment_lowers :
    (s : AttachmentState) (e : AttachmentEvent) (s' : AttachmentState)
    → next_attachment_state s e ≡ ok s'
    → attachment_rank s' < attachment_rank s
unfolding next_attachment_state
attachment_lowers s e s' h = ground arith

abbrev pub request_rank : DeviceRequestState → ℕ
request_rank pending = 3
request_rank claimed = 2
request_rank cancel_requested = 1
request_rank _ = 0

pub request_lowers :
    (s : DeviceRequestState) (e : DeviceRequestEvent) (s' : DeviceRequestState)
    → next_device_request_state s e ≡ ok s'
    → request_rank s' < request_rank s
unfolding next_device_request_state
request_lowers s e s' h = ground arith

-- An attachment takes at most five events from its creation, and a device request at most three.
pub runs_end :
    (es : List AttachmentEvent) (s : AttachmentState) (rs : List DeviceRequestEvent)
    (r : DeviceRequestState)
    → run next_attachment_state created es ≡ ok s
    → run next_device_request_state pending rs ≡ ok r
    → (length es ≤ 5) × (length rs ≤ 3)
runs_end es s rs r h k = (
  omega (arith, run-rank next_attachment_state attachment_rank attachment_lowers created es s h),
  omega (arith, run-rank next_device_request_state request_rank request_lowers pending rs r k),
)

abbrev pub is_claim : DeviceRequestEvent → Bool
is_claim claim = true
is_claim _ = false

abbrev past_pending : DeviceRequestState → Bool
past_pending pending = false
past_pending _ = true

past_pending-keeps :
    (s : DeviceRequestState) (e : DeviceRequestEvent) (s' : DeviceRequestState)
    → past_pending s ≡ true
    → next_device_request_state s e ≡ ok s'
    → past_pending s' ≡ true
unfolding next_device_request_state
past_pending-keeps s e s' p h = ground arith

past_pending-claim :
    (s : DeviceRequestState) (e : DeviceRequestEvent) (s' : DeviceRequestState)
    → past_pending s ≡ true
    → next_device_request_state s e ≡ ok s'
    → is_claim e ≡ false
unfolding next_device_request_state
past_pending-claim s e s' p h = ground arith

-- A pending device request is claimed by its first event and by no later one, or it is cancelled or
-- expires by its only event.
claimed_first :
    (e : DeviceRequestEvent) (es : List DeviceRequestEvent) (r : DeviceRequestState)
    → run next_device_request_state pending (e ∷ es) ≡ ok r
    → ((e ≡ claim) × (any is_claim es ≡ false)) ⊎ ((es ≡ []) × ((r ≡ cancelled) ⊎ (r ≡ expired)))
unfolding run next_device_request_state
claimed_first claim es r h = inl (
  refl,
  run-keeps next_device_request_state past_pending past_pending-keeps is_claim past_pending-claim
      claimed es r refl (ground arith),
)
claimed_first cancel [] r h = inr (refl, inl (ground arith))
claimed_first expire [] r h = inr (refl, inr (ground arith))
claimed_first cancel (e ∷ es) r h = absurd (ground arith)
claimed_first expire (e ∷ es) r h = absurd (ground arith)
claimed_first result_succeeded es r h = absurd (ground arith)
claimed_first result_failed es r h = absurd (ground arith)
claimed_first result_denied es r h = absurd (ground arith)
claimed_first result_cancelled es r h = absurd (ground arith)
claimed_first result_outcome_unknown es r h = absurd (ground arith)
claimed_first recover_outcome_unknown es r h = absurd (ground arith)

abbrev is_chunk : GenerationEvent → Bool
is_chunk chunk = true
is_chunk _ = false

abbrev silent : GenerationState → Bool
silent idle = false
silent streaming = false
silent _ = true

silent-keeps :
    (s : GenerationState) (e : GenerationEvent) (s' : GenerationState)
    → silent s ≡ true
    → next_generation_state s e ≡ ok s'
    → silent s' ≡ true
unfolding next_generation_state
silent-keeps s e s' p h = ground arith

silent-chunk :
    (s : GenerationState) (e : GenerationEvent) (s' : GenerationState)
    → silent s ≡ true
    → next_generation_state s e ≡ ok s'
    → is_chunk e ≡ false
unfolding next_generation_state
silent-chunk s e s' p h = ground arith

-- Once a streaming generation was asked to cancel, no chunk is accepted any more.
no_chunk_after_cancel :
    (es : List GenerationEvent) (g : GenerationState)
    → run next_generation_state streaming (request_cancel ∷ es) ≡ ok g
    → any is_chunk es ≡ false
unfolding run next_generation_state
no_chunk_after_cancel es g h =
    run-keeps next_generation_state silent silent-keeps is_chunk silent-chunk
      generation_cancel_requested es g refl (ground arith)
