-- ===== src/Results/Reach.antt =====
-- All histories of messages that AAL/ResultProcessor.cpp handles.
use hardware_rockchip_camera.Base.{
  ℕ, suc, ◌<◌, ◌≡◌, refl, ◌≢◌, ◌⊎◌, inl, inr, Bool, false, [], none, some, arith, Option-cases,
  subst,
}
use hardware_rockchip_camera.Status.{Status}
use hardware_rockchip_camera.Results.State.{RequestState, Processor, done, find_state}
use hardware_rockchip_camera.Results.Returns.{must_wait}
use hardware_rockchip_camera.Results.Handlers.{
  handle_shutter_done, handle_buffer_done, handle_metadata_done,
}
use hardware_rockchip_camera.Results.Accounts.{Returns, Inv}
use hardware_rockchip_camera.Results.Recycle.{enter-Open}
use hardware_rockchip_camera.Results.State.{construct}
use hardware_rockchip_camera.Pool.Items.{empty_pool}
use hardware_rockchip_camera.Pool.Items.Owned.{init-Owns}
use hardware_rockchip_camera.Results.Handlers.{
  handle_register_request, handle_device_error, handle, Message, exit_thread, shutter_done,
  metadata_done, buffer_done, register_request, device_failed,
}
use hardware_rockchip_camera.Results.Invariant.{
  InvAfter, buffers_if_any-Open, shutter_found-Inv, buffer_found-Inv,
}
use hardware_rockchip_camera.Results.Metadata.{
  MetadataReady, buffers_if_any-must_wait, MetadataReady-resp, metadata_found-Inv,
}
use hardware_rockchip_camera.Results.Register.{IsFresh, register_acquired-Inv, device_error-Inv}

module _ (total : ℕ → ℕ) (partials : ℕ) (some_partials : 0 < partials) where
  -- What the pipeline and the client do: a new request is fresh, results arrive for a request whose
  -- stored settings need not wait for those of the request before it.
  abbrev pub Ready : Processor → ℕ → Type 0
  Ready p id =
      (s : RequestState)
      → find_state id p.requests_in_transit ≡ some s
      → (s.pending_partial_results ≡ []) ⊎ (must_wait p s ≡ false)

  abbrev pub Orderly : Processor → Message → Type 0
  Orderly p exit_thread = ⊥
  Orderly p (shutter_done req time) = Ready p req.id
  Orderly p (metadata_done req index) =
      Ready p req.id
      × ((s : RequestState)
          → find_state req.id p.requests_in_transit ≡ some s
          → MetadataReady p req index s)
  Orderly p (buffer_done req b) = Ready p req.id
  Orderly p (register_request req) =
      (find_state req.id p.requests_in_transit ≡ none) → IsFresh total partials p req
  Orderly p device_failed = Unit {0}

  -- In a state that keeps the accounts (the counters of each request agree with what the client got, the pool holds exactly the free states, and no request is stored in mRequestsPendingMetaReturn to wait for one before it), every message but the exit message that is orderly (a new request is fresh, a result arrives for a request that has no stored settings or whose settings need not wait for those of the request before it, and settings arrive only for a request that is initialised and whose settings need not wait) is handled to the end, without a fault and with one round of fuel, and the accounts are kept.
  pub handle-Inv :
      (k : ℕ) (p : Processor) (m : Message)
      → Inv total partials p
      → Orderly p m
      → Returns (InvAfter total partials some_partials) (handle (suc k) p m)
  unfolding handle handle_shutter_done handle_buffer_done handle_metadata_done
      handle_register_request handle_device_error
  handle-Inv k p exit_thread v h = absurd h
  handle-Inv k p device_failed v h = device_error-Inv total partials some_partials p v
  handle-Inv k p (shutter_done req time) v h =
      elim (Option-cases (find_state req.id p.requests_in_transit)) [
        | inl e ↦ rw (e, handle_shutter_done) v
        | inr (s, e) ↦
            rw (e, handle_shutter_done)
              (shutter_found-Inv total partials some_partials req.id p req time s refl
                (enter-Open total partials p req.id s v e (h s e)))
      ]
  handle-Inv k p (buffer_done req b) v h =
      elim (Option-cases (find_state req.id p.requests_in_transit)) [
        | inl e ↦ rw (e, handle_buffer_done) v
        | inr (s, e) ↦
            rw (e, handle_buffer_done)
              (buffer_found-Inv total partials some_partials req.id p req b s refl
                (enter-Open total partials p req.id s v e (h s e)))
      ]
  handle-Inv k p (metadata_done req index) v h =
      elim (Option-cases (find_state req.id p.requests_in_transit)) [
        | inl e ↦ rw (e, handle_metadata_done) v
        | inr (s, e) ↦
            rw (e, handle_metadata_done)
              (metadata_found-Inv total partials some_partials req.id k _ req index _ refl
                (MetadataReady-resp p _ req index s _
                  (buffers_if_any-must_wait s.pending_buffers p s) (h.1 s e))
                (buffers_if_any-Open total partials some_partials req.id s.pending_buffers p s
                  (enter-Open total partials p req.id s v e (h.0 s e))))
      ]
  handle-Inv k p (register_request req) v h =
      elim (Option-cases (find_state req.id p.requests_in_transit)) [
        | inl e ↦
            rw (e, handle_register_request)
              (register_acquired-Inv total partials some_partials p req v e (h e))
        | inr (s, e) ↦ rw (e, handle_register_request) v
      ]

  -- The states that a thread comes to, from one that keeps the accounts, by orderly messages.
  pub data Reach (start : Processor) : Processor → Type 0 where
    here : Reach start start
    next :
        {p : Processor} (m : Message) (k : ℕ) (r : Processor × Status)
        → Reach start p
        → Orderly p m
        → handle (suc k) p m ≡ done r
        → Reach start r.0
    -- a pipeline thread marks requests as failed
    set_error :
        {p : Processor} (flags : ℕ → Bool)
        → Reach start p
        → Reach start (record p { request_has_error = flags })

  pub Reach-Inv :
      {start p : Processor} → Inv total partials start → Reach start p → Inv total partials p
  Reach-Inv v here = v
  Reach-Inv v (next {p} m k r h o e) =
      subst (Returns (InvAfter total partials some_partials)) e (handle-Inv k p m (Reach-Inv v h) o)
  Reach-Inv v (set_error {p} flags h) =
      let w = Reach-Inv v h in
      record {
        ascending = w.ascending;
        owns = w.owns;
        accounted = w.accounted;
        delivered = w.delivered;
        counting = w.counting;
        none_waits = w.none_waits;
      }

  -- A constructed processor keeps the accounts.
  pub construct-Inv : (base : ℕ) → base ≢ 0 → Inv total partials (construct base)
  unfolding construct
  construct-Inv base h = record {
    ascending = tt;
    owns = init-Owns empty_pool base 10 h (inr refl);
    accounted = tt;
    delivered = λ id more. ground arith;
    counting = inr (refl, refl);
    none_waits = refl;
  }
