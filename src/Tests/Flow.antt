-- ===== src/Tests/Flow.antt =====
-- A request's way through ResultProcessor (AAL/ResultProcessor.cpp).
use hardware_rockchip_camera.Base.{
  ℕ, ◌+◌, ◌<◌, ◌≤◌, ◌≡◌, refl, ◌⊎◌, inl, true, false, List, [], ◌∷◌, Option, none, some, arith,
}
use hardware_rockchip_camera.Base.Signed.{pos}
use hardware_rockchip_camera.Status.{ok}
use hardware_rockchip_camera.Pool.Items.{init, acquire_item, release_item}
use hardware_rockchip_camera.Results.Returns.{return_pending_partials, return_partial}
use hardware_rockchip_camera.Results.State.{insert_pending, get_settings}
use hardware_rockchip_camera.Results.Handlers.{settings_found, stored_found}
use hardware_rockchip_camera.Results.State.{
  insert_state, put_state, erase_state, init_state, is_input_buffer,
}
use hardware_rockchip_camera.Results.State.{
  Buffer, Request, RequestState, Processor, construct, done, fault, out_of_fuel, find_state,
}
use hardware_rockchip_camera.Results.Returns.{
  must_wait, return_pending_buffers, return_shutter_done, finish, return_buffers, return_buffer,
  process_capture_result, return_result, recycle_request,
}
use hardware_rockchip_camera.Results.Handlers.{
  Message, shutter_done, metadata_done, buffer_done, register_request, handle,
  handle_register_request, handle_shutter_done, shutter_found, handle_buffer_done, buffer_found,
  handle_metadata_done, metadata_found, result_found, return_stored_partials,
}
use hardware_rockchip_camera.Results.Accounts.{shutters, results, buffers, returns, tally, Inv}
use hardware_rockchip_camera.Results.Reach.{Ready, Orderly, Reach, Reach-Inv, construct-Inv}
use hardware_rockchip_camera.Results.Guarantees.{returned-IsComplete}

abbrev pub totals : ℕ → ℕ
totals _ = 1

abbrev pub one_partial : 0 < 1
one_partial = omega arith

abbrev pub fresh : Processor
fresh = construct 100

pub fresh-Inv : Inv totals 1 fresh
fresh-Inv = construct-Inv totals 1 one_partial 100 (omega arith)

abbrev pub request : ℕ → Request
request id = record {
  id = id;
  num_output_bufs = 1;
  num_input_bufs = 0;
  input_buffer = none;
  partial_result_buffers = 7 ∷ [];
  initialized = true;
  settings = 40 + id;
}

abbrev pub frame : Buffer
frame = record { address = 9; is_error = false; owner = 3 }

-- The state after a message; with all that a run of the handlers unfolds.
unfoldable pub after : Processor → Message → Processor
unfolding construct init acquire_item release_item find_state insert_state put_state erase_state
    init_state is_input_buffer return_shutter_done return_pending_buffers return_buffers
    return_buffer process_capture_result return_result finish recycle_request handle
    handle_register_request handle_shutter_done shutter_found handle_buffer_done buffer_found
    handle_metadata_done metadata_found result_found must_wait settings_found
    return_pending_partials return_partial insert_pending get_settings return_stored_partials
    stored_found
after p m = elim (handle 1 p m) [ done (q, _) ↦ q | fault ↦ p | out_of_fuel ↦ p ]

abbrev pub registered : Processor
registered = after fresh (register_request (request 0))

abbrev shuttered : Processor
shuttered = after registered (shutter_done (request 0) 5)

abbrev pub filled : Processor
filled = after shuttered (buffer_done (request 0) frame)

abbrev finished : Processor
finished = after filled (metadata_done (request 0) (pos 0))

stored_none :
    (o : Option RequestState) (P : Type 0) (t s : RequestState)
    → o ≡ some t
    → t.pending_partial_results ≡ []
    → o ≡ some s
    → (s.pending_partial_results ≡ []) ⊎ P
stored_none o P t s e h f = inl (ground arith)

abbrev pub first_of : List RequestState → RequestState
first_of [] = init_state 0 (request 0)
first_of (s ∷ _) = s

Ready-none :
    (p : Processor) (id : ℕ)
    → find_state id p.requests_in_transit ≡ some (first_of p.requests_in_transit)
    → (first_of p.requests_in_transit).pending_partial_results ≡ []
    → Ready totals 1 one_partial p id
Ready-none p id e h s f = stored_none _ _ (first_of p.requests_in_transit) s e h f

pub fresh_request : Orderly totals 1 one_partial fresh (register_request (request 0))
unfolding construct
fresh_request e = record {
  unheard = elim [ shutters ↦ refl | results ↦ refl | buffers ↦ refl | returns ↦ refl ];
  buffer_count = refl;
  partial_count = refl;
}

ran_registered : Reach totals 1 one_partial fresh registered
unfolding after
ran_registered =
    Reach.next (register_request (request 0)) 0 (registered, ok) Reach.here fresh_request refl

pub registered-Inv : Inv totals 1 registered
registered-Inv = Reach-Inv totals 1 one_partial fresh-Inv ran_registered

ran_shuttered : Reach totals 1 one_partial fresh shuttered
unfolding after
ran_shuttered =
    Reach.next (shutter_done (request 0) 5) 0 (shuttered, ok) ran_registered
      (Ready-none registered 0 refl refl) refl

ran_filled : Reach totals 1 one_partial fresh filled
unfolding after
ran_filled =
    Reach.next (buffer_done (request 0) frame) 0 (filled, ok) ran_shuttered
      (Ready-none shuttered 0 refl refl) refl

ran_finished : Reach totals 1 one_partial fresh finished
unfolding after
ran_finished =
    Reach.next (metadata_done (request 0) (pos 0)) 0 (finished, ok) ran_filled
      (Ready-none filled 0 refl refl, λ s e. tt) refl

returned_once : tally returns 0 finished.log ≡ 1
unfolding after
returned_once = refl

returned-IsComplete_example :
    (tally returns 0 finished.log ≡ 1)
    × (tally buffers 0 finished.log ≡ 1)
    × (tally results 0 finished.log ≡ 1)
    × (tally shutters 0 finished.log ≤ 1)
returned-IsComplete_example =
    returned-IsComplete totals 1 100 one_partial finished (omega arith) ran_finished 0
      (omega (arith, returned_once))
