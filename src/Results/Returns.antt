-- ===== src/Results/Returns.antt =====
-- AAL/ResultProcessor.cpp: what the handlers of the message thread return to the client. The struct behind a `RequestState_t*`
-- is threaded through the calls and written back to the map before anything else reads it there.
use hardware_rockchip_camera.Base.{
  ℕ, zero, suc, ◌+◌, Bool, true, false, ◌&&◌, List, [], ◌∷◌, Option, none, some, ◌==◌,
  if◌then◌else◌,
}
use hardware_rockchip_camera.Status.{Status}
use hardware_rockchip_camera.Pool.Items.{release_item}
use hardware_rockchip_camera.Results.State.{
  Buffer, Request, is_input_buffer, get_partial_result_buffer, RequestState, Event, shutter,
  request_error, metadata, buffer, dec_out_buffers, request_returned, Processor, Outcome, done,
  fault, find_state, put_state, erase_state, insert_pending,
}

abbrev pub emit : Event → Processor → Processor
emit e p = record p { log = e ∷ p.log }

abbrev pub commit : Processor → RequestState → Processor
commit p s = record p { requests_in_transit = put_state s p.requests_in_transit }

unfoldable pub return_shutter_done : Processor → RequestState → Processor × RequestState
return_shutter_done p s = if s.is_shutter_done then (p, s) else (
  record p { next_request_id = s.next_req_id; log = shutter s.req_id s.shutter_time ∷ p.log },
  record s { is_shutter_done = true },
)

-- numMetaLeft + numBufLeft == 1, written without the differences, which are `int`s.
abbrev pub is_last_result : Processor → RequestState → Bool
is_last_result p s =
    p.partial_result_count + s.buffers_to_return
    == s.partial_result_returned + s.buffers_returned + 1

unfoldable pub process_capture_result : Processor → RequestState → Event → Processor
process_capture_result p s result =
    if is_last_result p s && p.request_has_error s.request.id
    then emit result (emit (request_error s.request.id) p)
    else emit result p

-- One round of the loop of `returnPendingBuffers`.
unfoldable pub return_buffer : Processor → RequestState → Buffer → Processor × RequestState
unfolding process_capture_result
return_buffer p s b =
    let is_error = if p.request_has_error s.request.id then true else b.is_error in
    let result = buffer s.req_id b is_error (is_input_buffer s.request b) in
    (
      emit (dec_out_buffers b.owner) (process_capture_result p s result),
      record s { buffers_returned = s.buffers_returned + 1 },
    )

unfoldable pub return_buffers : Processor → RequestState → List Buffer → Processor × RequestState
return_buffers p s [] = (p, s)
return_buffers p s (b ∷ bs) = let (p', s') = return_buffer p s b in return_buffers p' s' bs

unfoldable pub return_pending_buffers : Processor → RequestState → Processor × RequestState
return_pending_buffers p s =
    if s.buffers_returned == s.buffers_to_return
    then (p, s)
    else let (p', s') = return_buffers p s s.pending_buffers in
      (p', record s' { pending_buffers = [] })

-- The metadata of the previous request is still to come. Request 0 has none before it.
unfoldable pub must_wait : Processor → RequestState → Bool
must_wait p s = elim s.req_id [
  | zero ↦ false
  | suc k ↦ elim (find_state k p.requests_in_transit) [
    | none ↦ false
    | some previous ↦ previous.partial_result_returned == 0
  ]
]

-- pendingPartialResults[0] and the dereference of it.
unfoldable pub return_partial :
    Processor → RequestState → List (Option ℕ) → Outcome (Processor × RequestState)
return_partial p s [] = fault
return_partial p s (none ∷ _) = fault
return_partial p s (some settings ∷ _) = done (
  emit (metadata s.req_id p.partial_result_count (some settings)) p,
  record s {
    partial_result_returned = s.partial_result_returned + 1;
    pending_partial_results = [];
  },
)

unfoldable pub return_pending_partials :
    Processor → RequestState → Outcome (Processor × RequestState)
return_pending_partials p s =
    if must_wait p s
    then done (
      record p {
        requests_pending_meta_return = insert_pending s.req_id p.requests_pending_meta_return;
      },
      s,
    )
    else return_partial p s s.pending_partial_results

unfoldable pub return_result : Processor → RequestState → ℕ → Processor × RequestState
return_result p s index = (
  emit (metadata s.req_id (index + 1) (get_partial_result_buffer s.request index)) p,
  record s { partial_result_returned = s.partial_result_returned + 1 },
)

recycle_found : Processor → ℕ → RequestState → Processor × Status
recycle_found p id s =
    let (pool, status) = release_item p.req_state_pool s.slot in
    (
      record p {
        req_state_pool = pool;
        requests_in_transit = erase_state id p.requests_in_transit;
        log = request_returned id ∷ p.log;
      },
      status,
    )

unfoldable pub recycle_request : Processor → Request → Outcome (Processor × Status)
unfolding recycle_found
recycle_request p req = elim (find_state req.id p.requests_in_transit) [
  | none ↦ fault
  | some s ↦ done (recycle_found p req.id s)
]

unfoldable pub all_metadata_done : Processor → RequestState → Bool
all_metadata_done p s = s.partial_result_returned == p.partial_result_count

unfoldable pub all_buffers_done : RequestState → Bool
all_buffers_done s = s.buffers_returned == s.buffers_to_return

-- The end of each handler: the request is recycled once all its results are returned.
unfoldable pub finish : Processor → RequestState → Request → Status → Outcome (Processor × Status)
unfolding all_metadata_done all_buffers_done
finish p s req status =
    if all_buffers_done s && all_metadata_done p s
    then recycle_request (commit p s) req
    else done (commit p s, status)
