-- ===== src/Results/Invariant.antt =====
-- The handlers of AAL/ResultProcessor.cpp keep the accounts, over every history that an orderly
-- camera pipeline can produce.
use hardware_rockchip_camera.Base.{
  ℕ, ◌<◌, ◌≡◌, refl, ◌≢◌, Bool, true, false, not, List, [], ◌∷◌, ◌++◌, arith, ◌==◌, if◌then◌else◌,
  length, if_rule,
}
use hardware_rockchip_camera.Status.{Status, ok}
use hardware_rockchip_camera.Results.State.{Buffer, Request, RequestState, Processor}
use hardware_rockchip_camera.Results.Returns.{
  must_wait, return_shutter_done, return_pending_buffers,
}
use hardware_rockchip_camera.Results.Handlers.{
  return_partials_if, return_buffers_if_any, all_meta_received, shutter_found, buffer_found,
}
use hardware_rockchip_camera.Results.Accounts.{Returns, Returns-bind, Inv, Open, IsOpen, Open-step}
use hardware_rockchip_camera.Results.Deliver.{
  return_shutter_done-Open, return_pending_buffers-Open, return_pending_partials-Open,
}
use hardware_rockchip_camera.Results.Recycle.{commit-Inv, finish-Inv}

module _ (total : ℕ → ℕ) (partials : ℕ) (some_partials : 0 < partials) where
  abbrev pub InvAfter : Processor × Status → Type 0
  InvAfter r = Inv total partials r.0

  module _ (id : ℕ) where
    pub partials_if-Open :
        (b : Bool) (p : Processor) (s : RequestState)
        → Open total partials id p s
        → (b ≡ true → s.pending_partial_results ≢ [])
        → Returns (IsOpen total partials id) (return_partials_if b p s)
    unfolding return_partials_if
    partials_if-Open false p s o h = o
    partials_if-Open true p s o h = return_pending_partials-Open total partials id p s o (h refl)

    pub received-ne-nil :
        (p : Processor) (s : RequestState)
        → Open total partials id p s
        → all_meta_received p s ≡ true
        → s.pending_partial_results ≢ []
    unfolding all_meta_received
    received-ne-nil p s o h e = ground (arith, o.counting)

    pub buffers_if_any-Open :
        (xs : List Buffer) (p : Processor) (s : RequestState)
        → Open total partials id p s
        → IsOpen total partials id (return_buffers_if_any p s xs)
    unfolding return_buffers_if_any
    buffers_if_any-Open [] p s o = o
    buffers_if_any-Open (_ ∷ _) p s o = return_pending_buffers-Open total partials id p s o

    timed-Open :
        (time : ℕ) (b : Bool) (p : Processor) (s : RequestState)
        → Open total partials id p s
        → Open total partials id p (record s { shutter_time = time; shutter_received = b })
    unfolding must_wait
    timed-Open time b p s o =
        Open-step total partials id p s _ p.log p.next_request_id o refl refl (λ k j h. refl)
          (ground (arith, o.mine)) o.in_order

    queued-Open :
        (bs : List Buffer) (p : Processor) (s : RequestState)
        → Open total partials id p s
        → Open total partials id p (record s { pending_buffers = bs })
    unfolding must_wait
    queued-Open bs p s o =
        Open-step total partials id p s _ p.log p.next_request_id o refl refl (λ k j h. refl)
          (ground (arith, o.mine)) o.in_order

    pub shutter_found-Inv :
        (p : Processor) (req : Request) (time : ℕ) (s : RequestState)
        → req.id ≡ id
        → Open total partials id p s
        → Returns InvAfter (shutter_found p req time s)
    unfolding shutter_found
    shutter_found-Inv p req time s e o =
        Returns-bind (IsOpen total partials id) InvAfter
          (return_partials_if (all_meta_received r.0 r.1) r.0 r.1) _
          (partials_if-Open _ r.0 r.1 open_r (received-ne-nil r.0 r.1 open_r))
          (λ a oa. finish-Inv total partials id a.0 a.1 oa req ok e)
      where
        s1 : RequestState
        s1 = record s {
          shutter_time = time;
          shutter_received = if p.next_request_id == req.id then s.shutter_received else true;
        }

        q : Processor × RequestState
        q = return_shutter_done p s1

        r : Processor × RequestState
        r = return_buffers_if_any q.0 q.1 q.1.pending_buffers

        open_r : IsOpen total partials id r
        open_r =
            buffers_if_any-Open q.1.pending_buffers q.0 q.1
              (return_shutter_done-Open total partials id p s1 (timed-Open time _ p s o))

    pub buffer_found-Inv :
        (p : Processor) (req : Request) (b : Buffer) (s : RequestState)
        → req.id ≡ id
        → Open total partials id p s
        → Returns InvAfter (buffer_found p req b s)
    unfolding buffer_found
    buffer_found-Inv p req b s e o =
        if_rule (Returns InvAfter) s.is_shutter_done _ _
          (λ _.
            Returns-bind (IsOpen total partials id) InvAfter
              (return_partials_if (not (length q.1.pending_partial_results == 0)) q.0 q.1) _
              (partials_if-Open _ q.0 q.1 open_q (λ h z. ground arith))
              (λ a oa. finish-Inv total partials id a.0 a.1 oa req ok e))
          (λ _. commit-Inv total partials id p s1 (queued-Open _ p s o))
      where
        s1 : RequestState
        s1 = record s { pending_buffers = s.pending_buffers ++ b ∷ [] }

        q : Processor × RequestState
        q = return_pending_buffers p s1

        open_q : IsOpen total partials id q
        open_q = return_pending_buffers-Open total partials id p s1 (queued-Open _ p s o)
