-- ===== src/Results/Guarantees.antt =====
-- What ResultProcessor (AAL/ResultProcessor.cpp) guarantees its client and RequestThread.
use hardware_rockchip_camera.Base.{
  ℕ, zero, suc, ◌+◌, ◌≤◌, ◌<◌, ◌≡◌, refl, sym, ap, ◌∙◌, ◌≢◌, ◌⊎◌, inl, inr, true, List, [], ◌∷◌,
  none, some, arith, length, subst,
}
use hardware_rockchip_camera.Status.{Status, ok, invalid_operation}
use hardware_rockchip_camera.Pool.Items.Owned.{acquire_item-Owns}
use hardware_rockchip_camera.Results.State.{
  Buffer, Request, RequestState, init_state, Event, construct, shutter, metadata, buffer,
  dec_out_buffers, request_error, device_error, request_returned, Processor, Outcome, done,
  out_of_fuel, find_state, put_state, insert_state, insert_pending,
}
use hardware_rockchip_camera.Results.Returns.{
  must_wait, return_buffer, return_buffers, return_pending_buffers, return_pending_partials, finish,
}
use hardware_rockchip_camera.Results.Handlers.{
  handle_register_request, register_acquired, return_stored_partials, stored_round, stored_found,
  pop_pending,
}
use hardware_rockchip_camera.Results.Transit.{Ascending, slots, find-key, put-find, length-slots}
use hardware_rockchip_camera.Results.Accounts.{shutters, results, buffers, returns, tally, Inv}
use hardware_rockchip_camera.Results.Reach.{Reach, Reach-Inv, construct-Inv}

-- In every state that a constructed processor reaches by orderly messages, a request that was given
-- back to RequestThread was given back once, and the client has got as many buffers and as many partial
-- results of it as it has, and one shutter notification at most.
pub returned-IsComplete :
    (total : ℕ → ℕ) (partials base : ℕ) (some_partials : 0 < partials) (p : Processor)
    → base ≢ 0
    → Reach total partials some_partials (construct base) p
    → (id : ℕ) → 0 < tally returns id p.log
    → (tally returns id p.log ≡ 1)
      × (tally buffers id p.log ≡ total id)
      × (tally results id p.log ≡ partials)
      × (tally shutters id p.log ≤ 1)
returned-IsComplete total partials base h p b r =
    (Reach-Inv total partials h (construct-Inv total partials h base b) r).delivered

abbrev pub Registers : Processor → Request → Outcome (Processor × Status) → Type 0
Registers p req o =
    ((length p.requests_in_transit ≡ p.req_state_pool.pool_size)
      × (o ≡ done (p, invalid_operation)))
    ⊎ ((length p.requests_in_transit < p.req_state_pool.pool_size)
        × ((q : Processor) × (slot : ℕ) × (o ≡ done (q, ok))
            × (q.requests_in_transit ≡ insert_state (init_state slot req) p.requests_in_transit)
            × (q.log ≡ p.log)))

-- A request that is not in transit is registered exactly while fewer requests are in transit than the
-- pool has states, and else refused with INVALID_OPERATION and nothing changed.
pub handle_register_request-Registers :
    (total : ℕ → ℕ) (partials : ℕ) (p : Processor) (req : Request)
    → Inv total partials p
    → find_state req.id p.requests_in_transit ≡ none
    → Registers p req (handle_register_request p req)
unfolding handle_register_request
handle_register_request-Registers total partials p req v e =
    rw (e, handle_register_request)
      (elim (acquire_item-Owns p.req_state_pool (slots p.requests_in_transit) v.owns) [
        | inl (full, r) ↦
            subst (λ t. Registers p req (register_acquired p req t)) (sym r)
              (inl (sym (length-slots p.requests_in_transit) ∙ full, refl))
        | inr (room, (x, q, r, w, _)) ↦
            subst (λ t. Registers p req (register_acquired p req t)) (sym r)
              (inr (
                subst (λ n. n < p.req_state_pool.pool_size) (length-slots p.requests_in_transit)
                    room,
                (_, x, refl, refl, refl),
              ))
      ])

-- The buffers that went to the client, newest first.
abbrev pub sent : List Event → List Buffer
sent [] = []
sent (buffer _ b _ _ ∷ es) = b ∷ sent es
sent (shutter _ _ ∷ es) = sent es
sent (request_error _ ∷ es) = sent es
sent (device_error ∷ es) = sent es
sent (metadata _ _ _ ∷ es) = sent es
sent (dec_out_buffers _ ∷ es) = sent es
sent (request_returned _ ∷ es) = sent es

abbrev pub rev_onto : List Buffer → List Buffer → List Buffer
rev_onto [] ys = ys
rev_onto (x ∷ xs) ys = rev_onto xs (x ∷ ys)

sent-return_buffer :
    (p : Processor) (s : RequestState) (b : Buffer)
    → sent (return_buffer p s b).0.log ≡ b ∷ sent p.log
unfolding return_buffer
sent-return_buffer p s b = ground arith

counted-return_buffer :
    (p : Processor) (s : RequestState) (b : Buffer)
    → (return_buffer p s b).1.buffers_returned ≡ s.buffers_returned + 1
unfolding return_buffer
counted-return_buffer p s b = refl

sent-return_buffers :
    (bs : List Buffer) (p : Processor) (s : RequestState)
    → (sent (return_buffers p s bs).0.log ≡ rev_onto bs (sent p.log))
      × ((return_buffers p s bs).1.buffers_returned ≡ s.buffers_returned + length bs)
unfolding return_buffers
sent-return_buffers [] p s = (refl, omega arith)
sent-return_buffers (b ∷ bs) p s =
    let (e, n) = sent-return_buffers bs (return_buffer p s b).0 (return_buffer p s b).1 in
    (e ∙ ap (rev_onto bs) (sent-return_buffer p s b), omega (arith, n, counted-return_buffer p s b))

-- Unless all buffers of the request were returned before, the stored buffers go to the client in the
-- order in which they came, each once, and none is stored any more.
pub return_pending_buffers_in_order :
    (p : Processor) (s : RequestState)
    → s.buffers_returned ≢ s.buffers_to_return
    → (sent (return_pending_buffers p s).0.log ≡ rev_onto s.pending_buffers (sent p.log))
      × ((return_pending_buffers p s).1.pending_buffers ≡ [])
      × ((return_pending_buffers p s).1.buffers_returned
          ≡ s.buffers_returned + length s.pending_buffers)
unfolding return_pending_buffers
return_pending_buffers_in_order p s h = ground (arith, sent-return_buffers s.pending_buffers p s)

-- A stored request whose predecessor has had no result is put back in front of itself.
insert-front : (id : ℕ) (is : List ℕ) → insert_pending id (id ∷ is) ≡ id ∷ id ∷ is
unfolding insert_pending
insert-front id is = ground arith

stuck_found :
    (id : ℕ) (ids : List ℕ) (p : Processor) (s : RequestState) (status : Status)
    → p.requests_pending_meta_return ≡ id ∷ ids
    → s.req_id ≡ id
    → put_state s p.requests_in_transit ≡ p.requests_in_transit
    → must_wait p s ≡ true
    → s.partial_result_returned ≢ p.partial_result_count
    → stored_found p s status ≡ done (p, status)
unfolding stored_found return_pending_partials finish pop_pending
stuck_found id ids p s status q k u w h = ground (arith, insert-front id ids)

-- With the requests in transit in ascending order, the loop of returnStoredPartials never ends once the first stored request is still to wait for the
-- request before it and is not complete: no number of rounds is enough.
pub return_stored_partials_stuck :
    (fuel id : ℕ) (ids : List ℕ) (p : Processor) (s : RequestState) (status : Status)
    → p.requests_pending_meta_return ≡ id ∷ ids
    → Ascending 0 p.requests_in_transit
    → find_state id p.requests_in_transit ≡ some s
    → must_wait p s ≡ true
    → s.partial_result_returned ≢ p.partial_result_count
    → return_stored_partials fuel p status ≡ out_of_fuel
unfolding return_stored_partials
return_stored_partials_stuck zero id ids p s status q a e w h = refl
return_stored_partials_stuck (suc fuel) id ids p s status q a e w h =
    rw (q, e, stored_round)
      (rw
        (stuck_found id ids p s status q (find-key id p.requests_in_transit s e)
          (put-find id 0 p.requests_in_transit s a e) w h)
        (return_stored_partials_stuck fuel id ids p s status q a e w h))
