-- ===== src/Gateway.antt =====
-- gateway-contract/src/state-machines.ts: the tables of attachments, device requests and generations.
-- A value that is no state or event cannot be given; an entry that is missing throws.
mod Batch
pub mod Machines
pub mod Store
pub mod Requests
pub mod Results
pub mod Moves
pub mod Claims
pub mod Histories
pub mod Recovery
pub mod Receipts
pub mod Calls
mod Tests
mod Samples
use agent_life.Shared.{
  ℕ, Bool, true, false, not, ◌&&◌, ◌||◌, String, List, [], ◌∷◌, length, leb, ltb, ◌==◌, str_eq, map,
  Result, ok, err, ◌>>=◌, ◌>>◌, require, schema_invalid, invalid_state_transition,
}
use agent_life.Shared.Sets.{of_list}

pub data AttachmentState : Type 0 where
  created uploading verified delivered acknowledged attachment_failed : AttachmentState
  attachment_expired deleted : AttachmentState

pub data AttachmentEvent : Type 0 where
  begin_upload verify deliver acknowledge fail_attachment expire_attachment cleanup :
      AttachmentEvent

pub data DeviceRequestState : Type 0 where
  pending claimed cancel_requested succeeded failed denied cancelled expired : DeviceRequestState
  outcome_unknown : DeviceRequestState

pub data DeviceRequestEvent : Type 0 where
  claim cancel expire result_succeeded result_failed result_denied : DeviceRequestEvent
  result_cancelled result_outcome_unknown recover_outcome_unknown : DeviceRequestEvent

pub data DeviceRequestRisk : Type 0 where
  read sync write high_privilege_ephemeral : DeviceRequestRisk

pub data GenerationState : Type 0 where
  idle streaming completed generation_cancel_requested generation_cancelled generation_failed
        generation_outcome_unknown :
      GenerationState

pub data GenerationEvent : Type 0 where
  start chunk complete request_cancel cancelled_event fail timeout_outcome_unknown : GenerationEvent

unfoldable pub next_attachment_state : AttachmentState → AttachmentEvent → Result AttachmentState
next_attachment_state created begin_upload = ok uploading
next_attachment_state created fail_attachment = ok attachment_failed
next_attachment_state created expire_attachment = ok attachment_expired
next_attachment_state uploading verify = ok verified
next_attachment_state uploading fail_attachment = ok attachment_failed
next_attachment_state uploading expire_attachment = ok attachment_expired
next_attachment_state verified deliver = ok delivered
next_attachment_state verified fail_attachment = ok attachment_failed
next_attachment_state verified expire_attachment = ok attachment_expired
next_attachment_state delivered acknowledge = ok acknowledged
next_attachment_state delivered expire_attachment = ok attachment_expired
next_attachment_state acknowledged cleanup = ok deleted
next_attachment_state attachment_failed cleanup = ok deleted
next_attachment_state attachment_expired cleanup = ok deleted
next_attachment_state _ _ = err invalid_state_transition

-- The results of `claimed` and of `cancel_requested`.
unfoldable pub conclude_request : DeviceRequestEvent → Result DeviceRequestState
conclude_request expire = ok outcome_unknown
conclude_request result_succeeded = ok succeeded
conclude_request result_failed = ok failed
conclude_request result_denied = ok denied
conclude_request result_cancelled = ok cancelled
conclude_request result_outcome_unknown = ok outcome_unknown
conclude_request recover_outcome_unknown = ok outcome_unknown
conclude_request _ = err invalid_state_transition

unfoldable pub next_device_request_state :
    DeviceRequestState → DeviceRequestEvent → Result DeviceRequestState
unfolding conclude_request
next_device_request_state pending claim = ok claimed
next_device_request_state pending cancel = ok cancelled
next_device_request_state pending expire = ok expired
next_device_request_state claimed cancel = ok cancel_requested
next_device_request_state claimed event = conclude_request event
next_device_request_state cancel_requested event = conclude_request event
next_device_request_state _ _ = err invalid_state_transition

-- In seconds.
unfoldable pub maximum_device_request_queue_seconds : DeviceRequestRisk → ℕ
maximum_device_request_queue_seconds read = 86400
maximum_device_request_queue_seconds sync = 86400
maximum_device_request_queue_seconds write = 900
maximum_device_request_queue_seconds high_privilege_ephemeral = 0

unfoldable pub next_generation_state : GenerationState → GenerationEvent → Result GenerationState
next_generation_state idle start = ok streaming
next_generation_state streaming chunk = ok streaming
next_generation_state streaming complete = ok completed
next_generation_state streaming request_cancel = ok generation_cancel_requested
next_generation_state streaming fail = ok generation_failed
next_generation_state streaming timeout_outcome_unknown = ok generation_outcome_unknown
next_generation_state generation_cancel_requested cancelled_event = ok generation_cancelled
next_generation_state generation_cancel_requested complete = ok completed
next_generation_state generation_cancel_requested fail = ok generation_failed
next_generation_state generation_cancel_requested timeout_outcome_unknown =
    ok generation_outcome_unknown
next_generation_state _ _ = err invalid_state_transition
