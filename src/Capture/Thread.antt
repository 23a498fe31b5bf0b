-- ===== src/Capture/Thread.antt =====
-- AAL/RequestThread.cpp and .h: capture requests on their way to the hardware. What other objects
-- answer stands in `Answers`; requests are addresses of items of mRequestsPool.
pub mod Loop
pub mod Configure
pub mod Accounts
pub mod Fences
pub mod Held
pub mod Recycle
pub mod Books
pub mod Blocking
pub mod Replies
pub mod Return
pub mod Told
pub mod Process
use hardware_rockchip_camera.Base.{
  ℕ, zero, suc, ◌+◌, ◌-◌, Bool, true, false, ◌&&◌, ◌||◌, not, List, [], ◌∷◌, ◌++◌, Option, none,
  some, ◌==◌, leb, if◌then◌else◌, length,
}
use hardware_rockchip_camera.Base.Signed.{ℤ, pos, ◌+ℤ◌, ◌-ℤ◌, eqb_ℤ}
use hardware_rockchip_camera.Status.{Status, ok, bad_value, unknown_error, no_memory, is_ok}
use hardware_rockchip_camera.Pool.Items.{ItemPool, acquire_item, release_item}
use hardware_rockchip_camera.Capture.Stream.{Heap, CameraStream, on_stream, update, process_request}
use hardware_rockchip_camera.Capture.Request.{
  Camera3Request, CameraBuffer, CaptureRequest, Init, crashed, returned, init, de_init, find_buffer,
  get_output_streams, get_input_streams, is_any_buf_active, wait_all_bufs_signaled,
}

-- RequestBlockAction, the values that mBlockAction takes besides REQBLK_NONBLOCKING, which is none.
pub data BlockAction : Type 0 where
  wait_all_previous wait_one wait_all_and_fence : BlockAction

-- What ICameraHw::processRequest, and so captureRequest, answers: NO_ERROR, a blocking action, or
-- an error.
pub data Capture : Type 0 where
  accepted : Capture
  blocked : BlockAction → Capture
  failed : Status → Capture

pub record RequestThread : Type 0 where
  pub requests_pool : ItemPool
  pub requests_in_hal : ℤ
  pub flushing : Bool
  pub waiting_request : Option ℕ
  pub block_action : Option BlockAction
  pub last_settings : Option ℕ
  pub active_request : List ℕ
  pub pipeline_depth : ℕ
  pub streams : List ℕ
  pub local_streams : List ℕ
  pub stream_seq_no : ℕ
  pub heap : Heap
  pub requests : ℕ → Camera3Request

-- The answers of ResultProcessor::registerRequest, of the producer of a stream, of the hardware, of
-- the wait on a fence, of the buffer manager and of initPartialResultBuffers.
pub record Answers : Type 0 where
  pub register_request : ℕ → Status
  pub produce : ℕ → ℕ → Status
  pub hardware : ℕ → ℤ → Capture
  pub fence_wait : CameraBuffer → ℤ
  pub register_buffer : ℕ → ℤ
  pub init_partial : ℕ → Status

pub set_request : ℕ → (Camera3Request → Camera3Request) → RequestThread → RequestThread
unfolding update
set_request x f t = record t { requests = update x f t.requests }

-- request->deInit() and mRequestsPool.releaseItem(request)
unfoldable pub release_request : ℕ → RequestThread → RequestThread
unfolding set_request
release_request x t = record (set_request x de_init t) {
  requests_pool = (release_item t.requests_pool x).0;
}

has_buffer : Option CameraBuffer → Bool
has_buffer none = false
has_buffer (some b) = true

-- stream->processRequest(request)
unfoldable pub process_on : Answers → ℕ → ℕ → RequestThread → RequestThread × Status
unfolding has_buffer
process_on a x s t =
    let found = has_buffer (find_buffer s (t.requests x)) in
    let run = process_request x found (a.produce s x) in
    (record t { heap = on_stream s (λ c. (run c).0) t.heap }, (run (t.heap.streams s)).1)

unfoldable pub process_outputs : Answers → ℕ → List ℕ → RequestThread → RequestThread
process_outputs a x [] t = t
process_outputs a x (s ∷ ss) t = process_outputs a x ss (process_on a x s t).0

unfoldable pub process_inputs : Answers → ℕ → List ℕ → RequestThread → RequestThread
process_inputs a x [] t = t
process_inputs a x (s ∷ ss) t =
    let (t', status) = process_on a x s t in
    let rest = process_inputs a x ss t' in if is_ok status then rest else t'

unfoldable pub streams_processed : Answers → ℕ → Option (List ℕ) → RequestThread → RequestThread
streams_processed a x none t = t
streams_processed a x (some ss) t = process_inputs a x ss t

unfoldable pub hardware_asked :
    Answers → ℕ → Option (List ℕ) → RequestThread → RequestThread × Capture
unfolding streams_processed
hardware_asked a x none t = (t, failed bad_value)
hardware_asked a x (some out) t =
    let t1 = process_outputs a x out t in
    let t2 = streams_processed a x (get_input_streams (t1.requests x)) t1 in
    (t2, a.hardware x t2.requests_in_hal)

unfoldable pub capture_request : Answers → ℕ → RequestThread → RequestThread × Capture
unfolding hardware_asked
capture_request a x t =
    if is_ok (a.register_request x)
    then hardware_asked a x (get_output_streams (t.requests x)) t
    else (t, failed (a.register_request x))

-- The comparison is one of 32-bit signed numbers.
unfoldable pub are_under_max : Heap → List ℕ → Bool
are_under_max h [] = true
are_under_max h (s ∷ ss) =
    let stream = h.streams s in
    if eqb_ℤ stream.output_buffers_in_hal (pos (h.stream3s stream.stream3).max_buffers)
    then false
    else are_under_max h ss

unfoldable pub are_all_streams_under_max_buffers : RequestThread → Bool
unfolding are_under_max
are_all_streams_under_max_buffers t = are_under_max t.heap t.local_streams

-- mRequestsInHAL--, and the request given back, under the label badRequest.
unfoldable pub bad_request : ℕ → RequestThread → RequestThread
unfolding release_request
bad_request x t =
    let t' = release_request x t in record t' { requests_in_hal = t'.requests_in_hal -ℤ pos 1 }

pub data Handled : Type 0 where
  went_through_null : Handled
  handled : RequestThread → Status → Handled

captured : ℕ → RequestThread × Capture → Handled
captured x (t, blocked action) =
    handled (record t { waiting_request = some x; block_action = some action }) ok
captured x (t, failed status) = handled (bad_request x t) unknown_error
captured x (t, accepted) =
    handled
      (if are_all_streams_under_max_buffers t then t else record t { block_action = some wait_one })
      ok

initialised : Answers → ℕ → RequestThread → Init → Handled
unfolding set_request captured
initialised a x t crashed = went_through_null
initialised a x t (returned h r status) =
    let t' = record (set_request x (λ _. r) t) { heap = h } in
    if is_ok status then captured x (capture_request a x t') else handled (bad_request x t') status

unfoldable pub take_settings : CaptureRequest → RequestThread → Option ℕ
take_settings req t = elim req.settings [ none ↦ t.last_settings | some s ↦ some s ]

-- The settings of a repeating request may be missing, but not those of the first.
with_settings : Answers → CaptureRequest → ℕ → RequestThread → Option ℕ → Handled
unfolding initialised
with_settings a req x t none = handled (bad_request x t) bad_value
with_settings a req x t (some s) =
    initialised a x (record t { last_settings = some s })
      (init a.register_buffer (a.init_partial x) true req (some s) t.heap (t.requests x))

acquired : Answers → CaptureRequest → RequestThread → ItemPool × Option ℕ × Status → Handled
unfolding with_settings take_settings
acquired a req t (p, none, status) = handled (record t { requests_pool = p }) status
acquired a req t (p, some x, status) =
    with_settings a req x
      (record t { requests_pool = p; requests_in_hal = t.requests_in_hal +ℤ pos 1 })
      (take_settings req t)

unfoldable pub handle_process_capture_request : Answers → CaptureRequest → RequestThread → Handled
unfolding acquired
handle_process_capture_request a req t = acquired a req t (acquire_item t.requests_pool false)

wait_on : Answers → ℕ → RequestThread → RequestThread
unfolding set_request
wait_on a x t = set_request x (λ r. (wait_all_bufs_signaled a.fence_wait r).0) t

drain_all : Answers → List ℕ → RequestThread → RequestThread
unfolding wait_on
drain_all a [] t = t
drain_all a (x ∷ xs) t = drain_all a xs (release_request x (wait_on a x t))

unfoldable pub wait_requests_drain : Answers → RequestThread → RequestThread
unfolding drain_all
wait_requests_drain a t = record (drain_all a t.active_request t) { active_request = [] }

-- mActiveRequest.size() >= mPipelineDepth - 1, which is never so at depth 0.
is_beyond_depth : ℕ → ℕ → Bool
is_beyond_depth n zero = false
is_beyond_depth n (suc d) = leb d n

wait_on_front : Answers → List ℕ → RequestThread → RequestThread
unfolding wait_on
wait_on_front a [] t = t
wait_on_front a (x ∷ xs) t = wait_on a x t

-- The last loop of recycleRequest: the requests that stay, and the state without the others.
unfoldable pub sweep : List ℕ → RequestThread → List ℕ × RequestThread
sweep [] t = ([], t)
sweep (x ∷ xs) t =
    let is_active = is_any_buf_active (t.requests x) in
    let (rest, t') = sweep xs (if is_active then t else release_request x t) in
    (if is_active then x ∷ rest else rest, t')

keep_active : Answers → ℕ → RequestThread → RequestThread
unfolding is_beyond_depth wait_on_front
keep_active a x t =
    let active = t.active_request ++ x ∷ [] in
    let t' = record t { active_request = active } in
    if is_beyond_depth (length active) t.pipeline_depth then wait_on_front a active t' else t'

swept : List ℕ × RequestThread → RequestThread
swept (active, t) = record t { active_request = active }

unfoldable pub recycle_request : Answers → ℕ → RequestThread → RequestThread
unfolding keep_active swept sweep
recycle_request a x t =
    let t' = if is_any_buf_active (t.requests x) then keep_active a x t else release_request x t in
    swept (sweep t'.active_request t')
