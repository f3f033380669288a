-- ===== src/Gateway/Tests.antt =====
-- Sample runs, and the theorems at them.
use agent_life.Shared.{◌≡◌, ◌≤◌, refl, List, [], ◌∷◌, length, ok}
use agent_life.Gateway.{
  created, deleted, begin_upload, verify, deliver, acknowledge, cleanup, next_attachment_state,
  AttachmentEvent, pending, succeeded, claim, cancel, result_succeeded, next_device_request_state,
  conclude_request, DeviceRequestEvent, streaming, generation_cancelled, request_cancel,
  cancelled_event, next_generation_state, GenerationEvent,
}
use agent_life.Gateway.Machines.{run, runs_end}

abbrev upload : List AttachmentEvent
upload = begin_upload ∷ verify ∷ deliver ∷ acknowledge ∷ cleanup ∷ []

upload_runs : run next_attachment_state created upload ≡ ok deleted
unfolding run next_attachment_state
upload_runs = refl

abbrev finish : List DeviceRequestEvent
finish = cancel ∷ result_succeeded ∷ []

finish_runs : run next_device_request_state pending (claim ∷ finish) ≡ ok succeeded
unfolding run next_device_request_state conclude_request
finish_runs = refl

runs_end_example : (length upload ≤ 5) × (length (claim ∷ finish) ≤ 3)
runs_end_example = runs_end upload deleted (claim ∷ finish) succeeded upload_runs finish_runs

abbrev stop : List GenerationEvent
stop = cancelled_event ∷ []

stop_runs : run next_generation_state streaming (request_cancel ∷ stop) ≡ ok generation_cancelled
unfolding run next_generation_state
stop_runs = refl
