-- ===== src/Tests/Handlers.antt =====
-- Single handlers of AAL/ResultProcessor.cpp on concrete states.
use hardware_rockchip_camera.Base.{
  ◌+◌, ◌≡◌, refl, ◌≢◌, true, false, [], ◌∷◌, none, some, arith, length,
}
use hardware_rockchip_camera.Base.Signed.{negsuc}
use hardware_rockchip_camera.Status.{ok}
use hardware_rockchip_camera.Pool.Items.Owned.{Owns}
use hardware_rockchip_camera.Results.State.{
  RequestState, Processor, out_of_fuel, find_state, init_state,
}
use hardware_rockchip_camera.Results.Returns.{must_wait, return_pending_buffers}
use hardware_rockchip_camera.Results.Handlers.{
  shutter_done, metadata_done, register_request, handle, handle_register_request,
  handle_message_exit, return_stored_partials,
}
use hardware_rockchip_camera.Results.Accounts.{Returns}
use hardware_rockchip_camera.Results.Transit.{Ascending}
use hardware_rockchip_camera.Results.Invariant.{InvAfter}
use hardware_rockchip_camera.Results.Reach.{handle-Inv}
use hardware_rockchip_camera.Results.Guarantees.{
  Registers, handle_register_request-Registers, sent, rev_onto, return_pending_buffers_in_order,
  return_stored_partials_stuck,
}
use hardware_rockchip_camera.Results.Exit.{returned_onto, handle_message_exit_ends}
use hardware_rockchip_camera.Tests.Flow.{totals, one_partial, fresh, fresh-Inv, request, frame}
use hardware_rockchip_camera.Tests.Flow.{fresh_request, registered, registered-Inv, after}

handle-Inv_example :
    Returns (InvAfter totals 1 one_partial) (handle 1 fresh (register_request (request 0)))
handle-Inv_example =
    handle-Inv totals 1 one_partial 0 fresh (register_request (request 0)) fresh-Inv fresh_request

not_there : find_state 0 fresh.requests_in_transit ≡ none
unfolding after
not_there = refl

handle_register_request-Registers_example :
    Registers fresh (request 0) (handle_register_request fresh (request 0))
handle_register_request-Registers_example =
    handle_register_request-Registers totals 1 fresh (request 0) fresh-Inv not_there

handle_message_exit_ends_example :
    Returns
      (λ r.
        (r.0.requests_in_transit ≡ [])
        × Owns r.0.req_state_pool []
        × (r.0.log ≡ returned_onto registered.requests_in_transit registered.log)
        × (r.0.thread_running ≡ false)
        × (r.1 ≡ ok))
      (handle_message_exit registered)
handle_message_exit_ends_example = handle_message_exit_ends totals 1 registered registered-Inv

abbrev with_two : RequestState
with_two =
    let s = init_state 100 (request 4) in
    record s {
      buffers_to_return = 2;
      pending_buffers = frame ∷ record { address = 10; is_error = true; owner = 3 } ∷ [];
    }

two_open : with_two.buffers_returned ≢ with_two.buffers_to_return
unfolding init_state
two_open = omega arith

return_pending_buffers_in_order_example :
    (sent (return_pending_buffers fresh with_two).0.log
      ≡ rev_onto with_two.pending_buffers (sent fresh.log))
    × ((return_pending_buffers fresh with_two).1.pending_buffers ≡ [])
    × ((return_pending_buffers fresh with_two).1.buffers_returned
        ≡ with_two.buffers_returned + length with_two.pending_buffers)
return_pending_buffers_in_order_example = return_pending_buffers_in_order fresh with_two two_open

-- Three requests in transit with their shutter done, of which the last has its settings.
abbrev three : Processor
three =
    after
      (after
        (after
          (after (after (after fresh (register_request (request 0))) (register_request (request 1)))
            (register_request (request 2)))
          (shutter_done (request 0) 4))
        (shutter_done (request 1) 5))
      (shutter_done (request 2) 6)

-- Its request 2 waits for request 1.
abbrev waiting : Processor
waiting = after three (metadata_done (request 2) (negsuc 0))

abbrev state_2 : RequestState
state_2 =
    let s = init_state 102 (request 2) in
    record s {
      is_shutter_done = true;
      shutter_received = false;
      shutter_time = 6;
      pending_partial_results = some 42 ∷ [];
    }

waiting_list : waiting.requests_pending_meta_return ≡ 2 ∷ []
unfolding after
waiting_list = refl

waiting_found : find_state 2 waiting.requests_in_transit ≡ some state_2
unfolding after
waiting_found = refl

waiting_waits : must_wait waiting state_2 ≡ true
unfolding after
waiting_waits = refl

waiting_open : state_2.partial_result_returned ≢ waiting.partial_result_count
unfolding after
waiting_open = omega arith

waiting_Ascending : Ascending 0 waiting.requests_in_transit
unfolding after
waiting_Ascending = (omega arith, (omega arith, (omega arith, tt)))

return_stored_partials_stuck_example : return_stored_partials 50 waiting ok ≡ out_of_fuel
return_stored_partials_stuck_example =
    return_stored_partials_stuck 50 2 [] waiting state_2 ok waiting_list waiting_Ascending
      waiting_found waiting_waits waiting_open

-- The metadata of request 0 then makes the thread run that loop.
metadata_0_hangs : handle 20 waiting (metadata_done (request 0) (negsuc 0)) ≡ out_of_fuel
unfolding after
metadata_0_hangs = refl
