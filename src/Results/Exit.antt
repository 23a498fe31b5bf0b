-- ===== src/Results/Exit.antt =====
-- The end of the message thread (AAL/ResultProcessor.cpp, handleMessageExit).
use hardware_rockchip_camera.Base.{
  ℕ, suc, ◌≡◌, refl, false, List, [], ◌∷◌, some, arith, length, All, All-mono,
}
use hardware_rockchip_camera.Status.{Status, ok}
use hardware_rockchip_camera.Pool.Items.{ItemPool, release_item}
use hardware_rockchip_camera.Pool.Items.Owned.{Owns, release_item-Owns}
use hardware_rockchip_camera.Results.State.{
  RequestState, Event, request_returned, Processor, done, find_state, erase_state,
}
use hardware_rockchip_camera.Results.Returns.{recycle_request}
use hardware_rockchip_camera.Results.Handlers.{exit_round, recycle_all, handle_message_exit}
use hardware_rockchip_camera.Results.Transit.{Ascending, slots, erase_below}
use hardware_rockchip_camera.Results.Accounts.{Returns, Returns-bind, Returns-mono, Inv}

abbrev Own : RequestState → Type 0
Own s = s.request.id ≡ s.req_id

-- The log after the states were recycled in this order.
abbrev pub returned_onto : List RequestState → List Event → List Event
returned_onto [] log = log
returned_onto (s ∷ ss) log = returned_onto ss (request_returned s.req_id ∷ log)

record Emptied (ss : List RequestState) (log : List Event) (p : Processor) : Type 0 where
  pub none_left : p.requests_in_transit ≡ []
  pub all_free : Owns p.req_state_pool []
  pub told : p.log ≡ returned_onto ss log

find-head :
    (s : RequestState) (ss : List RequestState) (id : ℕ)
    → id ≡ s.req_id
    → find_state id (s ∷ ss) ≡ some s
unfolding find_state
find-head s ss id e = ground arith

erase-head :
    (s : RequestState) (ss : List RequestState) (id : ℕ)
    → id ≡ s.req_id
    → Ascending (suc s.req_id) ss
    → erase_state id (s ∷ ss) ≡ ss
unfolding erase_state
erase-head s ss id e a = ground (arith, erase_below id (suc s.req_id) ss a)

abbrev recycled : Processor → List RequestState → ItemPool → ℕ → Processor
recycled p ss q id = record p {
  req_state_pool = q;
  requests_in_transit = ss;
  log = request_returned id ∷ p.log;
}

recycle_head :
    (p : Processor) (s : RequestState) (ss : List RequestState) (q : ItemPool)
    → p.requests_in_transit ≡ s ∷ ss
    → Own s
    → Ascending (suc s.req_id) ss
    → release_item p.req_state_pool s.slot ≡ (q, ok)
    → recycle_request p s.request ≡ done (recycled p ss q s.req_id, ok)
unfolding recycle_request
recycle_head p s ss q t o a r =
    ground (arith, find-head s ss s.request.id o, erase-head s ss s.request.id o a)

recycle_all-nil :
    (fuel : ℕ) (p : Processor) → p.requests_in_transit ≡ [] → recycle_all (suc fuel) p ≡ done p
unfolding recycle_all exit_round
recycle_all-nil fuel p t = ground (arith, t)

recycle_all-cons :
    (fuel : ℕ) (p p' : Processor) (s : RequestState) (ss : List RequestState) (status : Status)
    → p.requests_in_transit ≡ s ∷ ss
    → recycle_request p s.request ≡ done (p', status)
    → recycle_all (suc fuel) p ≡ recycle_all fuel p'
unfolding recycle_all
recycle_all-cons fuel p p' s ss status t r = rw (t, exit_round) (rw r)

recycle_all-Emptied :
    (ss : List RequestState) (lo : ℕ) (p : Processor)
    → p.requests_in_transit ≡ ss
    → Ascending lo ss
    → Owns p.req_state_pool (slots ss)
    → All Own ss
    → Returns (Emptied ss p.log) (recycle_all (suc (length ss)) p)
recycle_all-Emptied [] lo p t a o w =
    rw (recycle_all-nil 0 p t) (record { none_left = t; all_free = o; told = refl })
recycle_all-Emptied (s ∷ ss) lo p t a o w =
    let (q, r, owns, _, _) = release_item-Owns p.req_state_pool [] (slots ss) s.slot o in
    rw
      (recycle_all-cons (suc (length ss)) p (recycled p ss q s.req_id) s ss ok t
        (recycle_head p s ss q t w.0 a.1 r))
      (Returns-mono (Emptied ss (recycled p ss q s.req_id).log) (Emptied (s ∷ ss) p.log) _
        (λ x e. record { none_left = e.none_left; all_free = e.all_free; told = e.told })
        (recycle_all-Emptied ss (suc s.req_id) (recycled p ss q s.req_id) refl a.1 owns w.1))

-- From a state that keeps the accounts the exit message ends the loop, gives every request in transit
-- back to RequestThread once and in ascending order, returns every state to the pool and stops the
-- thread.
pub handle_message_exit_ends :
    (total : ℕ → ℕ) (partials : ℕ) (p : Processor)
    → Inv total partials p
    → Returns
        (λ r.
          (r.0.requests_in_transit ≡ [])
          × Owns r.0.req_state_pool []
          × (r.0.log ≡ returned_onto p.requests_in_transit p.log)
          × (r.0.thread_running ≡ false)
          × (r.1 ≡ ok))
        (handle_message_exit p)
unfolding handle_message_exit
handle_message_exit_ends total partials p v =
    Returns-bind (Emptied p.requests_in_transit p.log) _
      (recycle_all (suc (length p.requests_in_transit)) p) _
      (recycle_all-Emptied p.requests_in_transit 0 p refl v.ascending v.owns
        (All-mono _ Own p.requests_in_transit (λ s a. a.own_request) v.accounted))
      (λ q e. (e.none_left, e.all_free, e.told, refl, refl))
