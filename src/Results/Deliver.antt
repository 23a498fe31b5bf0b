-- ===== src/Results/Deliver.antt =====
-- The return functions of AAL/ResultProcessor.cpp keep the accounts of the request they work on.
use hardware_rockchip_camera.Base.{
  ℕ, ◌+◌, refl, ◌≢◌, inl, inr, Bool, true, ◌&&◌, List, [], ◌∷◌, Option, none, some, arith, ◌==◌,
  All, if_rule,
}
use hardware_rockchip_camera.Results.State.{
  Buffer, RequestState, Event, shutter, metadata, buffer, request_returned, request_error,
  dec_out_buffers, Processor,
}
use hardware_rockchip_camera.Results.Returns.{
  emit, return_shutter_done, is_last_result, return_buffer, return_buffers, return_pending_buffers,
  must_wait, return_partial, return_pending_partials, return_result,
}
use hardware_rockchip_camera.Results.Accounts.{
  shutters, results, buffers, returns, IsPresent, Returns, Open, Elsewhere, Open-step, IsOpen,
}

module _ (id : ℕ) (log : List Event) where
  shutter_log : (t : ℕ) → Elsewhere id log (shutter id t ∷ log)
  shutter_log t shutters j h = ground arith
  shutter_log t _ j h = ground arith

  metadata_log : (n : ℕ) (m : Option ℕ) → Elsewhere id log (metadata id n m ∷ log)
  metadata_log n m shutters j h = ground arith
  metadata_log n m results j h = ground arith
  metadata_log n m _ j h = ground arith

  buffer_log :
      (n : ℕ) (b : Buffer) (x y : Bool)
      → Elsewhere id log (dec_out_buffers n ∷ buffer id b x y ∷ log)
  buffer_log n b x y shutters j h = ground arith
  buffer_log n b x y results j h = ground arith
  buffer_log n b x y buffers j h = ground arith
  buffer_log n b x y returns j h = ground arith

  buffer_error_log :
      (m n : ℕ) (b : Buffer) (x y : Bool)
      → Elsewhere id log (dec_out_buffers n ∷ buffer id b x y ∷ request_error m ∷ log)
  buffer_error_log m n b x y shutters j h = ground arith
  buffer_error_log m n b x y results j h = ground arith
  buffer_error_log m n b x y buffers j h = ground arith
  buffer_error_log m n b x y returns j h = ground arith

  pub returned_log : Elsewhere id log (request_returned id ∷ log)
  returned_log shutters j h = ground arith
  returned_log results j h = ground arith
  returned_log buffers j h = ground arith
  returned_log returns j h = ground arith

module _ (total : ℕ → ℕ) (partials id : ℕ) where
  pub return_shutter_done-Open :
      (p : Processor) (s : RequestState)
      → Open total partials id p s
      → IsOpen total partials id (return_shutter_done p s)
  unfolding return_shutter_done must_wait
  return_shutter_done-Open p s o =
      if_rule (IsOpen total partials id) s.is_shutter_done _ _ (λ d. o)
        (λ d.
          Open-step total partials id p s (record s { is_shutter_done = true }) _ s.next_req_id o
            refl refl (shutter_log s.req_id p.log s.shutter_time) (ground (arith, o.mine))
            o.in_order)

  -- One buffer is told once, whether or not an error is reported before it.
  pub return_buffer-Open :
      (p : Processor) (s : RequestState) (b : Buffer)
      → Open total partials id p s
      → IsOpen total partials id (return_buffer p s b)
  unfolding return_buffer must_wait
  return_buffer-Open p s b o =
      if_rule (λ q. Open total partials id (emit (dec_out_buffers b.owner) q) told)
        (is_last_result p s && p.request_has_error s.request.id) _ _
        (λ _.
          Open-step total partials id p s told _ p.next_request_id o refl refl
            (buffer_error_log s.req_id p.log s.request.id b.owner b _ _) (ground (arith, o.mine))
            o.in_order)
        (λ _.
          Open-step total partials id p s told _ p.next_request_id o refl refl
            (buffer_log s.req_id p.log b.owner b _ _) (ground (arith, o.mine)) o.in_order)
    where
      told : RequestState
      told = record s { buffers_returned = s.buffers_returned + 1 }

  pub return_buffers-Open :
      (bs : List Buffer) (p : Processor) (s : RequestState)
      → Open total partials id p s
      → IsOpen total partials id (return_buffers p s bs)
  unfolding return_buffers
  return_buffers-Open [] p s o = o
  return_buffers-Open (b ∷ bs) p s o =
      return_buffers-Open bs (return_buffer p s b).0 (return_buffer p s b).1
        (return_buffer-Open p s b o)

  clear_buffers-Open :
      (p : Processor) (s : RequestState)
      → Open total partials id p s
      → IsOpen total partials id (p, record s { pending_buffers = [] })
  unfolding must_wait
  clear_buffers-Open p s o =
      Open-step total partials id p s (record s { pending_buffers = [] }) p.log p.next_request_id o
        refl refl (λ k j h. refl) (ground (arith, o.mine)) o.in_order

  pub return_pending_buffers-Open :
      (p : Processor) (s : RequestState)
      → Open total partials id p s
      → IsOpen total partials id (return_pending_buffers p s)
  unfolding return_pending_buffers
  return_pending_buffers-Open p s o =
      if_rule (IsOpen total partials id) (s.buffers_returned == s.buffers_to_return) _ _ (λ d. o)
        (λ d. clear_buffers-Open _ _ (return_buffers-Open s.pending_buffers p s o))

  pub return_result-Open :
      (p : Processor) (s : RequestState) (index : ℕ)
      → Open total partials id p s
      → IsOpen total partials id (return_result p s index)
  unfolding return_result must_wait
  return_result-Open p s index o =
      Open-step total partials id p s
        (record s { partial_result_returned = s.partial_result_returned + 1 }) _ p.next_request_id o
        refl refl (metadata_log s.req_id p.log (index + 1) _) (ground (arith, o.mine)) o.in_order

  return_partial-Open :
      (p : Processor) (s : RequestState) (xs : List (Option ℕ))
      → xs ≢ []
      → All IsPresent xs
      → Open total partials id p s
      → Returns (IsOpen total partials id) (return_partial p s xs)
  unfolding return_partial must_wait
  return_partial-Open p s [] h a o = h refl
  return_partial-Open p s (none ∷ xs) h a o = a.0 refl
  return_partial-Open p s (some m ∷ xs) h a o =
      Open-step total partials id p s
        (record s {
          partial_result_returned = s.partial_result_returned + 1;
          pending_partial_results = [];
        })
        _ p.next_request_id o refl refl
        (metadata_log s.req_id p.log p.partial_result_count (some m)) (ground (arith, o.mine))
        (inl refl)

  pub return_pending_partials-Open :
      (p : Processor) (s : RequestState)
      → Open total partials id p s
      → s.pending_partial_results ≢ []
      → Returns (IsOpen total partials id) (return_pending_partials p s)
  unfolding return_pending_partials
  return_pending_partials-Open p s o h = elim o.in_order [
    | inl e ↦ absurd (h e)
    | inr e ↦
        rw (e, return_pending_partials)
          (return_partial-Open p s s.pending_partial_results h o.mine.settings_there o)
  ]
