-- ===== src/Tests/Errors.antt =====
-- Failed requests of AAL/ResultProcessor.cpp on concrete states.
use hardware_rockchip_camera.Base.{ℕ, ◌+◌, ◌≡◌, ◌≢◌, refl, true, List, [], ◌∷◌, some, arith}
use hardware_rockchip_camera.Base.Signed.{pos}
use hardware_rockchip_camera.Results.State.{
  RequestState, init_state, is_input_buffer, get_partial_result_buffer, Event, request_error,
  metadata, buffer, dec_out_buffers, request_returned, Processor, find_state,
}
use hardware_rockchip_camera.Results.Returns.{return_pending_buffers}
use hardware_rockchip_camera.Results.Handlers.{handle_metadata_done}
use hardware_rockchip_camera.Results.Accounts.{Returns}
use hardware_rockchip_camera.Results.Errors.{
  errors, Outstanding, error_before_last_buffer, metadata_last-log,
}
use hardware_rockchip_camera.Tests.Flow.{after, request, frame, fresh, filled, first_of}

abbrev failing : Processor
failing = let p = fresh in record p { partial_result_count = 1; request_has_error = λ _. true }

abbrev one_left : RequestState
one_left =
    let s = init_state 100 (request 4) in
    record s { partial_result_returned = 1; pending_buffers = frame ∷ [] }

one_open : one_left.buffers_returned ≢ one_left.buffers_to_return
unfolding init_state
one_open = omega arith

all_left : Outstanding failing one_left 1
unfolding init_state
all_left = refl

error_before_last_buffer_example :
    (log : List Event) × ((return_pending_buffers failing one_left).0.log
      ≡ dec_out_buffers frame.owner
        ∷ buffer one_left.req_id frame true (is_input_buffer one_left.request frame)
        ∷ request_error one_left.request.id
        ∷ log)
    × ((id : ℕ) → errors id log ≡ errors id failing.log)
error_before_last_buffer_example =
    error_before_last_buffer failing one_left [] frame refl one_open all_left refl

abbrev last_metadata : RequestState
last_metadata = first_of filled.requests_in_transit

filled_found : find_state 0 filled.requests_in_transit ≡ some last_metadata
unfolding after
filled_found = refl

filled_empty : last_metadata.pending_buffers ≡ []
unfolding after
filled_empty = refl

filled_buffers : last_metadata.buffers_returned ≡ last_metadata.buffers_to_return
unfolding after
filled_buffers = refl

filled_metadata : last_metadata.partial_result_returned + 1 ≡ filled.partial_result_count
unfolding after
filled_metadata = refl

metadata_last-log_example :
    Returns
      (λ r.
        r.0.log
        ≡ request_returned 0
          ∷ metadata last_metadata.req_id 1 (get_partial_result_buffer last_metadata.request 0)
          ∷ filled.log)
      (handle_metadata_done 1 filled (request 0) (pos 0))
metadata_last-log_example =
    metadata_last-log 1 0 filled (request 0) last_metadata filled_found filled_empty filled_buffers
      filled_metadata
