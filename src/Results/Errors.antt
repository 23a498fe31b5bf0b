-- ===== src/Results/Errors.antt =====
-- Where AAL/ResultProcessor.cpp reports that a request failed.
use hardware_rockchip_camera.Base.{
  ℕ, suc, ◌+◌, ◌<◌, ◌≡◌, refl, sym, ap, ◌∙◌, ◌≢◌, true, ◌&&◌, List, [], ◌∷◌, ◌++◌, some, arith,
  ◌==◌, if◌then◌else◌, length, subst,
}
use hardware_rockchip_camera.Base.Signed.{pos}
use hardware_rockchip_camera.Status.{Status, ok}
use hardware_rockchip_camera.Results.State.{
  Buffer, Request, RequestState, is_input_buffer, get_partial_result_buffer, Event, request_error,
  metadata, buffer, dec_out_buffers, request_returned, Processor, done, find_state, put_state,
}
use hardware_rockchip_camera.Results.Returns.{
  return_buffer, return_buffers, return_pending_buffers, finish, recycle_request, return_result,
  all_buffers_done, all_metadata_done, commit,
}
use hardware_rockchip_camera.Results.Handlers.{
  handle_metadata_done, metadata_found, result_found, return_buffers_if_any,
}
use hardware_rockchip_camera.Results.Accounts.{Returns}
use hardware_rockchip_camera.Results.Transit.{find-key, find-put_self}

-- How often the client was told that request `id` failed.
abbrev pub errors : ℕ → List Event → ℕ
errors id [] = 0
errors id (request_error n ∷ es) = (if n == id then 1 else 0) + errors id es
errors id (_ ∷ es) = errors id es

-- The results that the client has not got yet.
abbrev pub Outstanding : Processor → RequestState → ℕ → Type 0
Outstanding p s k =
    p.partial_result_count + s.buffers_to_return
    ≡ s.partial_result_returned + s.buffers_returned + k

record Quiet (p : Processor) (s : RequestState) (k : ℕ) (r : Processor × RequestState)
    : Type 0 where
  pub no_errors : (id : ℕ) → errors id r.0.log ≡ errors id p.log
  pub outstanding : Outstanding r.0 r.1 k
  pub same_flags : r.0.request_has_error ≡ p.request_has_error
  pub same_request : r.1.request ≡ s.request
  pub same_id : r.1.req_id ≡ s.req_id

return_buffer-Quiet :
    (p : Processor) (s : RequestState) (b : Buffer) (k : ℕ)
    → 0 < k
    → Outstanding p s (suc k)
    → Quiet p s k (return_buffer p s b)
unfolding return_buffer
return_buffer-Quiet p s b k h o = record {
  no_errors = λ id. ground arith;
  outstanding = ground arith;
  same_flags = ground arith;
  same_request = ground arith;
  same_id = ground arith;
}

return_buffers-Quiet :
    (bs : List Buffer) (p : Processor) (s : RequestState) (k : ℕ)
    → 0 < k
    → Outstanding p s (length bs + k)
    → Quiet p s k (return_buffers p s bs)
unfolding return_buffers
return_buffers-Quiet [] p s k h o = record {
  no_errors = λ id. refl;
  outstanding = ground arith;
  same_flags = refl;
  same_request = refl;
  same_id = refl;
}
return_buffers-Quiet (b ∷ bs) p s k h o =
    let first = return_buffer-Quiet p s b (length bs + k) (omega arith) (omega arith) in
    let rest = return_buffers-Quiet bs _ _ k h first.outstanding in
    record {
      no_errors = λ id. rest.no_errors id ∙ first.no_errors id;
      outstanding = rest.outstanding;
      same_flags = rest.same_flags ∙ first.same_flags;
      same_request = rest.same_request ∙ first.same_request;
      same_id = rest.same_id ∙ first.same_id;
    }

return_buffers-snoc :
    (bs : List Buffer) (b : Buffer) (p : Processor) (s : RequestState)
    → return_buffers p s (bs ++ b ∷ [])
      ≡ return_buffer (return_buffers p s bs).0 (return_buffers p s bs).1 b
unfolding return_buffers
return_buffers-snoc [] b p s = refl
return_buffers-snoc (c ∷ bs) b p s = return_buffers-snoc bs b _ _

last_told :
    (p q : Processor) (s t : RequestState) (b : Buffer)
    → Quiet p s 1 (q, t)
    → p.request_has_error s.request.id ≡ true
    → (return_buffer q t b).0.log
      ≡ dec_out_buffers b.owner
        ∷ buffer s.req_id b true (is_input_buffer s.request b)
        ∷ request_error s.request.id
        ∷ q.log
unfolding return_buffer
last_told p q s t b w h = ground (arith, w.outstanding, w.same_flags, w.same_request, w.same_id)

pending_log :
    (p : Processor) (s : RequestState) (bs : List Buffer)
    → s.pending_buffers ≡ bs
    → s.buffers_returned ≢ s.buffers_to_return
    → (return_pending_buffers p s).0.log ≡ (return_buffers p s bs).0.log
unfolding return_pending_buffers
pending_log p s bs e h = ground arith

-- Where the stored buffers are all that the client of a failed request still has to get, one at least,
-- the client is told of the error once, right before the last of them, which goes out with the error
-- status.
pub error_before_last_buffer :
    (p : Processor) (s : RequestState) (bs : List Buffer) (b : Buffer)
    → s.pending_buffers ≡ bs ++ b ∷ []
    → s.buffers_returned ≢ s.buffers_to_return
    → Outstanding p s (length bs + 1)
    → p.request_has_error s.request.id ≡ true
    → (log : List Event) × ((return_pending_buffers p s).0.log
        ≡ dec_out_buffers b.owner
          ∷ buffer s.req_id b true (is_input_buffer s.request b)
          ∷ request_error s.request.id
          ∷ log)
      × ((id : ℕ) → errors id log ≡ errors id p.log)
error_before_last_buffer p s bs b e h o f =
    let w = return_buffers-Quiet bs p s 1 (omega arith) o in
    (
      (return_buffers p s bs).0.log,
      pending_log p s (bs ++ b ∷ []) e h
          ∙ ap (λ (r : Processor × RequestState). r.0.log) (return_buffers-snoc bs b p s)
          ∙ last_told p _ s _ b w f,
      w.no_errors,
    )

recycled_log :
    (p : Processor) (s : RequestState) (req : Request)
    → find_state req.id p.requests_in_transit ≡ some s
    → Returns (λ r. r.0.log ≡ request_returned req.id ∷ p.log) (recycle_request p req)
unfolding recycle_request
recycled_log p s req e = rw (e, recycle_request) refl

all_done :
    (p : Processor) (s : RequestState)
    → s.buffers_returned ≡ s.buffers_to_return
    → s.partial_result_returned ≡ p.partial_result_count
    → (all_buffers_done s && all_metadata_done p s) ≡ true
unfolding all_buffers_done all_metadata_done
all_done p s h k = ground arith

finished_log :
    (p : Processor) (s t : RequestState) (req : Request) (status : Status)
    → find_state s.req_id p.requests_in_transit ≡ some t
    → req.id ≡ s.req_id
    → s.buffers_returned ≡ s.buffers_to_return
    → s.partial_result_returned ≡ p.partial_result_count
    → Returns (λ r. r.0.log ≡ request_returned req.id ∷ p.log) (finish p s req status)
unfolding finish
finished_log p s t req status e q h k =
    subst
      (λ b.
        Returns (λ r. r.0.log ≡ request_returned req.id ∷ p.log)
          (if b then recycle_request (commit p s) req else done (commit p s, status)))
      (sym (all_done p s h k))
      (recycled_log (commit p s) s req
        (ap (λ n. find_state n (put_state s p.requests_in_transit)) q ∙ find-put_self s t _ e))

-- Where the last result of a request is metadata in a buffer of its own, the client gets it and the
-- request is given back, and no error is reported, whatever the request's error flag says.
pub metadata_last-log :
    (fuel index : ℕ) (p : Processor) (req : Request) (s : RequestState)
    → find_state req.id p.requests_in_transit ≡ some s
    → s.pending_buffers ≡ []
    → s.buffers_returned ≡ s.buffers_to_return
    → s.partial_result_returned + 1 ≡ p.partial_result_count
    → Returns
        (λ r.
          r.0.log
          ≡ request_returned req.id
            ∷ metadata s.req_id (index + 1) (get_partial_result_buffer s.request index)
            ∷ p.log)
        (handle_metadata_done fuel p req (pos index))
unfolding handle_metadata_done metadata_found result_found return_result return_buffers_if_any
metadata_last-log fuel index p req s e f h k =
    rw (e, f, handle_metadata_done)
      (finished_log _ _ s req ok
        (ap (λ n. find_state n p.requests_in_transit) (find-key req.id p.requests_in_transit s e)
          ∙ e)
        (sym (find-key req.id p.requests_in_transit s e)) h k)
