-- ===== src/Results/Handlers.antt =====
-- AAL/ResultProcessor.cpp: the handlers of the message thread. The struct behind a `RequestState_t*`
-- is threaded through the calls and written back to the map before anything else reads it there.
use hardware_rockchip_camera.Base.{
  ℕ, zero, suc, Bool, true, false, not, List, [], ◌∷◌, ◌++◌, Option, none, some, ◌==◌,
  if◌then◌else◌, length, ◌⊎◌, inl, inr,
}
use hardware_rockchip_camera.Base.Signed.{ℤ, pos, negsuc}
use hardware_rockchip_camera.Status.{Status, ok, bad_value}
use hardware_rockchip_camera.Pool.Items.{ItemPool, acquire_item}
use hardware_rockchip_camera.Results.Returns.{
  emit, commit, return_shutter_done, return_pending_buffers, return_pending_partials, return_result,
  recycle_request, all_metadata_done, finish,
}
use hardware_rockchip_camera.Results.State.{
  Buffer, Request, get_settings, RequestState, init_state, device_error, Processor, Outcome, done,
  fault, out_of_fuel, ◌>>=◌, find_state, insert_state,
}

unfoldable pub register_acquired :
    Processor → Request → ItemPool × Option ℕ × Status → Outcome (Processor × Status)
register_acquired p req (pool, some slot, ok) = done (
  record p {
    req_state_pool = pool;
    requests_in_transit = insert_state (init_state slot req) p.requests_in_transit;
    partial_result_count =
        if p.partial_result_count == 0
        then length req.partial_result_buffers
        else p.partial_result_count;
  },
  ok,
)
register_acquired p req (pool, none, ok) = fault
register_acquired p req (pool, _, status) = done (record p { req_state_pool = pool }, status)

unfoldable pub handle_register_request : Processor → Request → Outcome (Processor × Status)
unfolding register_acquired
handle_register_request p req = elim (find_state req.id p.requests_in_transit) [
  | some _ ↦ done (p, ok)
  | none ↦ register_acquired p req (acquire_item p.req_state_pool false)
]

unfoldable pub return_partials_if :
    Bool → Processor → RequestState → Outcome (Processor × RequestState)
return_partials_if false p s = done (p, s)
return_partials_if true p s = return_pending_partials p s

unfoldable pub return_buffers_if_any :
    Processor → RequestState → List Buffer → Processor × RequestState
return_buffers_if_any p s [] = (p, s)
return_buffers_if_any p s (_ ∷ _) = return_pending_buffers p s

unfoldable pub all_meta_received : Processor → RequestState → Bool
all_meta_received p s = length s.pending_partial_results == p.partial_result_count

unfoldable pub shutter_found : Processor → Request → ℕ → RequestState → Outcome (Processor × Status)
unfolding return_partials_if return_buffers_if_any all_meta_received
shutter_found p req time s = do
  let s = record s {
    shutter_time = time;
    shutter_received = if p.next_request_id == req.id then s.shutter_received else true;
  }
  let (p, s) = return_shutter_done p s
  let (p, s) = return_buffers_if_any p s s.pending_buffers
  (p, s) ← return_partials_if (all_meta_received p s) p s
  finish p s req ok

unfoldable pub handle_shutter_done : Processor → Request → ℕ → Outcome (Processor × Status)
unfolding shutter_found
handle_shutter_done p req time = elim (find_state req.id p.requests_in_transit) [
  | none ↦ done (p, bad_value)
  | some s ↦ shutter_found p req time s
]

unfoldable pub buffer_found :
    Processor → Request → Buffer → RequestState → Outcome (Processor × Status)
unfolding return_partials_if
buffer_found p req b s =
    let s = record s { pending_buffers = s.pending_buffers ++ b ∷ [] } in
    let finishing = do
      let (p, s) = return_pending_buffers p s
      (p, s) ← return_partials_if (not (length s.pending_partial_results == 0)) p s
      finish p s req ok
    in if s.is_shutter_done then finishing else done (commit p s, ok)

unfoldable pub handle_buffer_done : Processor → Request → Buffer → Outcome (Processor × Status)
unfolding buffer_found
handle_buffer_done p req b = elim (find_state req.id p.requests_in_transit) [
  | none ↦ done (p, bad_value)
  | some s ↦ buffer_found p req b s
]

abbrev pop_front : List ℕ → List ℕ
pop_front [] = []
pop_front (_ ∷ rest) = rest

unfoldable pub pop_pending : Processor → Processor
pop_pending p = record p { requests_pending_meta_return = pop_front p.requests_pending_meta_return }

-- The body of the loop for a front that is in transit.
unfoldable pub stored_found : Processor → RequestState → Status → Outcome (Processor × Status)
unfolding pop_pending
stored_found p s status = do
  (p, s) ← return_pending_partials p s
  (p, status) ← finish p s s.request status
  done (pop_pending p, status)

-- One round: `inl` leaves the function with a result, `inr` goes on.
unfoldable pub stored_round :
    Processor → List ℕ → Status → Outcome ((Processor × Status) ⊎ (Processor × Status))
unfolding stored_found
stored_round p [] status = done (inl (p, status))
stored_round p (id ∷ _) status = elim (find_state id p.requests_in_transit) [
  | none ↦ done (inl (pop_pending p, bad_value))
  | some s ↦ stored_found p s status >>= λ r. done (inr r)
]

unfoldable pub return_stored_partials : ℕ → Processor → Status → Outcome (Processor × Status)
unfolding stored_round
return_stored_partials zero p status = out_of_fuel
return_stored_partials (suc fuel) p status =
    stored_round p p.requests_pending_meta_return status
    >>= elim [ inl r ↦ done r | inr (p', status') ↦ return_stored_partials fuel p' status' ]

-- A result that comes in its own buffer is returned at once.
unfoldable pub result_found : Processor → Request → ℕ → RequestState → Outcome (Processor × Status)
result_found p req index s = let (p, s) = return_result p s index in finish p s req ok

unfoldable pub store_settings : RequestState → Request → RequestState
store_settings s req = record s {
  pending_partial_results = s.pending_partial_results ++ get_settings req ∷ [];
}

unfoldable pub then_stored : ℕ → Bool → Processor × Status → Outcome (Processor × Status)
then_stored fuel false r = done r
then_stored fuel true (p, status) = do (p, _) ← return_stored_partials fuel p ok; done (p, status)

unfoldable pub settings_found :
    ℕ → Processor → Request → RequestState → Outcome (Processor × Status)
unfolding store_settings return_partials_if then_stored
settings_found fuel p req s =
    let s = store_settings s req in
    let returning = do
      (p, s) ← return_partials_if (all_meta_received p s) p s
      let all_done = all_metadata_done p s
      r ← finish p s req ok
      then_stored fuel all_done r
    in if s.is_shutter_done then returning else done (commit p s, ok)

unfoldable pub metadata_found :
    ℕ → Processor → Request → ℤ → RequestState → Outcome (Processor × Status)
unfolding result_found settings_found
metadata_found fuel p req (pos index) s = result_found p req index s
metadata_found fuel p req (negsuc _) s = settings_found fuel p req s

unfoldable pub handle_metadata_done : ℕ → Processor → Request → ℤ → Outcome (Processor × Status)
unfolding metadata_found return_buffers_if_any
handle_metadata_done fuel p req index = elim (find_state req.id p.requests_in_transit) [
  | none ↦ done (p, bad_value)
  | some s ↦
      let (p', s') = return_buffers_if_any p s s.pending_buffers in
      metadata_found fuel p' req index s'
]

unfoldable pub handle_device_error : Processor → Processor
handle_device_error p = emit device_error p

-- The loop of `handleMessageExit`.
unfoldable pub exit_round : Processor → List RequestState → Outcome (Processor ⊎ Processor)
exit_round p [] = done (inl p)
exit_round p (s ∷ _) = recycle_request p s.request >>= λ r. done (inr r.0)

unfoldable pub recycle_all : ℕ → Processor → Outcome Processor
unfolding exit_round
recycle_all zero p = out_of_fuel
recycle_all (suc fuel) p =
    exit_round p p.requests_in_transit >>= elim [ inl p' ↦ done p' | inr p' ↦ recycle_all fuel p' ]

unfoldable pub handle_message_exit : Processor → Outcome (Processor × Status)
handle_message_exit p = do
  p ← recycle_all (suc (length p.requests_in_transit)) p
  done (record p { thread_running = false }, ok)

pub data Message : Type 0 where
  exit_thread : Message
  shutter_done : Request → ℕ → Message
  metadata_done : Request → ℤ → Message
  buffer_done : Request → Buffer → Message
  register_request : Request → Message
  device_failed : Message

-- The switch of `messageThreadLoop`. The fuel is that of `return_stored_partials`.
unfoldable pub handle : ℕ → Processor → Message → Outcome (Processor × Status)
handle fuel p exit_thread = handle_message_exit p
handle fuel p (shutter_done req time) = handle_shutter_done p req time
handle fuel p (metadata_done req index) = handle_metadata_done fuel p req index
handle fuel p (buffer_done req b) = handle_buffer_done p req b
handle fuel p (register_request req) = handle_register_request p req
handle fuel p device_failed = done (handle_device_error p, ok)
