-- ===== src/Capture/Request.antt =====
-- AAL/Camera3Request.cpp and .h: a capture request as the HAL keeps it, with the wrapping of its
-- buffers (psl/rkisp1/CameraBuffer.cpp). The accesses under a lock are steps. Settings are numbers.
use mathlib.Core.Option
pub mod Order
pub mod Counts
pub mod Outcomes
use hardware_rockchip_camera.Base.{
  ℕ, zero, suc, ◌+◌, Bool, true, false, ◌&&◌, ◌||◌, List, [], ◌∷◌, ◌++◌, Option, none, some, ◌==◌,
  ltb, if◌then◌else◌, length,
}
use hardware_rockchip_camera.Base.Signed.{ℤ, pos, negsuc, eqb_ℤ}
use hardware_rockchip_camera.Status.{Status, ok, bad_value, unknown_error, no_init, is_ok}
use hardware_rockchip_camera.Capture.Stream.{
  Heap, on_stream, inc_out_buffers_in_hal, area, stream3_of,
}

-- camera3_stream_buffer: the address of its stream and its gralloc handle; 0 is nullptr.
pub record StreamBuffer : Type 0 where
  pub stream : ℕ
  pub handle : ℕ

-- camera3_capture_request
pub record CaptureRequest : Type 0 where
  pub frame_number : ℕ
  pub settings : Option ℕ
  pub input_buffer : Option StreamBuffer
  pub output_buffers : List StreamBuffer

-- The fields of CameraBuffer that requests read: mOwner, mRequestID, mRegistered, and whether the
-- release fence has not been signalled yet.
pub record CameraBuffer : Type 0 where
  pub owner : ℕ
  pub request_id : ℕ
  pub registered : Bool
  pub fence_active : Bool

pub record Camera3Request : Type 0 where
  pub initialized : Bool
  pub request_id : ℕ
  pub out_buffers : List StreamBuffer
  pub in_buffers : List StreamBuffer
  pub in_streams : List ℕ
  pub out_streams : List ℕ
  pub output_buffers : List CameraBuffer
  pub input_buffer : Option CameraBuffer
  pub buffers_per_format : List (ℕ × ℕ)
  pub settings : Option ℕ
  pub error : Bool
  pub metadata_filled : Bool

unfoldable pub de_init : Camera3Request → Camera3Request
de_init r = record r {
  initialized = false;
  out_buffers = [];
  in_buffers = [];
  in_streams = [];
  out_streams = [];
  output_buffers = [];
  input_buffer = none;
  buffers_per_format = [];
  settings = none;
}

wrapped : ℕ → ℕ → Bool → CameraBuffer
wrapped s id registered = record {
  owner = s;
  request_id = id;
  registered = registered;
  fence_active = true;
}

unfoldable pub wrap : (ℕ → ℤ) → ℕ → ℕ → ℕ → CameraBuffer × Status
unfolding wrapped
wrap register id handle s =
    if handle == 0
    then (wrapped s id false, bad_value)
    else if eqb_ℤ (register handle) (pos 0)
    then (wrapped s id true, ok)
    else (wrapped s id false, unknown_error)

-- CameraBuffer::init of a buffer of the client. `register` answers the buffer manager's Register.
-- A stream without `priv` is the call of a method through nullptr, the result none.
unfoldable pub buffer_init : (ℕ → ℤ) → Heap → ℕ → StreamBuffer → Option (CameraBuffer × Status)
unfolding wrap
buffer_init register h id b = Option.map (wrap register id b.handle) (h.stream3s b.stream).priv

-- mBuffersPerFormat, with one more buffer of a format.
unfoldable pub count_format : ℕ → List (ℕ × ℕ) → List (ℕ × ℕ)
count_format f [] = (f, 1) ∷ []
count_format f ((g, n) ∷ rest) =
    let counted = count_format f rest in if g == f then (g, n + 1) ∷ rest else (g, n) ∷ counted

unfoldable pub get_buffer_count_of_format : ℕ → List (ℕ × ℕ) → ℕ
get_buffer_count_of_format f [] = 0
get_buffer_count_of_format f ((g, n) ∷ rest) =
    let later = get_buffer_count_of_format f rest in if g == f then n else later

-- One round of a loop that inserts into mOutStreams: larger streams come first, and of equal ones
-- the older.
unfoldable pub insert_stream : Heap → ℕ → List ℕ → List ℕ
unfolding area
insert_stream h s [] = s ∷ []
insert_stream h s (t ∷ ts) =
    let rest = insert_stream h s ts in
    if t == s
    then t ∷ ts
    else if ltb (area h t) (area h s)
    then s ∷ t ∷ ts
    else if (area h s == area h t) && ltb (h.streams s).seq_no (h.streams t).seq_no
    then s ∷ t ∷ ts
    else t ∷ rest

unfoldable pub check_output_streams : Heap → List StreamBuffer → List ℕ → List ℕ × Status
unfolding insert_stream
check_output_streams h [] out = (out, ok)
check_output_streams h (b ∷ bs) out = elim (h.stream3s b.stream).priv [
  | none ↦ (out, bad_value)
  | some s ↦ check_output_streams h bs (insert_stream h s out)
]

-- CAMERA3_STREAM_OUTPUT, INPUT and BIDIRECTIONAL of the platform's header.
abbrev pub stream_output : ℕ
stream_output = 0

abbrev pub stream_input : ℕ
stream_input = 1

abbrev pub stream_bidirectional : ℕ
stream_bidirectional = 2

unfoldable pub check_input_streams : Heap → Option StreamBuffer → List ℕ → List ℕ × Status
check_input_streams h none streams = (streams, ok)
check_input_streams h (some b) streams =
    let stream = h.stream3s b.stream in
    if (stream.stream_type == stream_input) || (stream.stream_type == stream_bidirectional)
    then elim stream.priv [ none ↦ (streams, bad_value) | some s ↦ (streams ++ s ∷ [], ok) ]
    else (streams, bad_value)

-- A call of init returns or goes through nullptr.
pub data Init : Type 0 where
  crashed : Init
  returned : Heap → Camera3Request → Status → Init

-- The end of a round of the loop over the output buffers.
unfoldable pub add_output :
    Heap → StreamBuffer → CameraBuffer → Camera3Request → Heap × Camera3Request
unfolding count_format
add_output h b c r = (
  on_stream c.owner inc_out_buffers_in_hal h,
  record r {
    output_buffers = r.output_buffers ++ c ∷ [];
    buffers_per_format = count_format (h.stream3s b.stream).format r.buffers_per_format;
    out_buffers = r.out_buffers ++ b ∷ [];
  },
)

unfoldable pub init_outputs : (ℕ → ℤ) → ℕ → List StreamBuffer → Heap → Camera3Request → Init
unfolding buffer_init add_output
init_outputs register id [] h r = returned h r ok
init_outputs register id (b ∷ bs) h r = elim (buffer_init register h id b) [
  | none ↦ crashed
  | some (c, status) ↦
      let (h', r') = add_output h b c r in
      let rest = init_outputs register id bs h' r' in
      if is_ok status then rest else returned h (de_init r) bad_value
]

-- The input buffer is a new CameraBuffer, since deInit drops the last one; its request id stays 0.
unfoldable pub init_input : (ℕ → ℤ) → Option StreamBuffer → Heap → Camera3Request → Init
unfolding buffer_init
init_input register none h r = returned h r ok
init_input register (some b) h r = elim (buffer_init register h 0 b) [
  | none ↦ crashed
  | some (c, status) ↦
      if is_ok status
      then returned h (record r { input_buffer = some c; in_buffers = r.in_buffers ++ b ∷ [] }) ok
      else returned h (de_init r) bad_value
]

unfoldable pub check_streams : CaptureRequest → Option ℕ → Heap → Camera3Request → Init
unfolding check_output_streams check_input_streams
check_streams req settings h r =
    let (in_streams, in_status) = check_input_streams h req.input_buffer r.in_streams in
    let (out_streams, out_status) = check_output_streams h req.output_buffers r.out_streams in
    if is_ok in_status && is_ok out_status
    then returned h
        (record r {
          in_streams = in_streams;
          out_streams = out_streams;
          request_id = req.frame_number;
          settings = settings;
          initialized = true;
          error = false;
          metadata_filled = false;
        })
        ok
    else returned h (de_init r) bad_value

then_init : Init → (Heap → Camera3Request → Init) → Init
then_init crashed f = crashed
then_init (returned h r status) f =
    let next = f h r in if is_ok status then next else returned h r status

abbrev pub max_number_output_streams : ℕ
max_number_output_streams = 8

-- `partial` is what initPartialResultBuffers returns, see Capture/Request/Partial. A null callback
-- is `has_callback` false.
unfoldable pub init :
    (ℕ → ℤ) → Status → Bool → CaptureRequest → Option ℕ → Heap → Camera3Request → Init
unfolding then_init init_outputs init_input check_streams
init register partial has_callback req settings h r =
    if has_callback
    then if is_ok partial
      then if ltb max_number_output_streams (length req.output_buffers)
        then returned h (de_init r) bad_value
        else then_init (init_outputs register req.frame_number req.output_buffers h (de_init r))
            (λ h1 r1.
              then_init (init_input register req.input_buffer h1 r1)
                (λ h2 r2. check_streams req settings h2 r2))
      else returned h (de_init r) no_init
    else returned h r bad_value

unfoldable pub get_id : Camera3Request → ℤ
get_id r = if r.initialized then pos r.request_id else negsuc 0

unfoldable pub get_number_output_bufs : Camera3Request → ℕ
get_number_output_bufs r = if r.initialized then length r.out_buffers else 0

unfoldable pub get_number_input_bufs : Camera3Request → ℕ
get_number_input_bufs r = if r.initialized then length r.in_buffers else 0

unfoldable pub get_output_streams : Camera3Request → Option (List ℕ)
get_output_streams r = if r.initialized then some r.out_streams else none

unfoldable pub get_input_streams : Camera3Request → Option (List ℕ)
get_input_streams r = if r.initialized then some r.in_streams else none

unfoldable pub any_fence_active : List CameraBuffer → Bool
any_fence_active [] = false
any_fence_active (b ∷ bs) = b.fence_active || any_fence_active bs

unfoldable pub is_any_buf_active : Camera3Request → Bool
unfolding any_fence_active
is_any_buf_active r = any_fence_active r.output_buffers

owned_by : ℕ → List CameraBuffer → Option CameraBuffer
owned_by s [] = none
owned_by s (b ∷ bs) = let rest = owned_by s bs in if b.owner == s then some b else rest

unfoldable pub find_buffer : ℕ → Camera3Request → Option CameraBuffer
unfolding owned_by
find_buffer s r = elim (owned_by s r.output_buffers) [
  | some b ↦ some b
  | none ↦ elim r.input_buffer [ none ↦ none | some b ↦ if b.owner == s then some b else none ]
]

-- `wait` answers the wait on a buffer's fence; one that returns 0 saw the fence signalled. The loop
-- ends at the first failure.
unfoldable pub wait_fences : (CameraBuffer → ℤ) → List CameraBuffer → List CameraBuffer × ℤ
wait_fences wait [] = ([], pos 0)
wait_fences wait (b ∷ bs) =
    let (rest, ret) = wait_fences wait bs in
    if eqb_ℤ (wait b) (pos 0)
    then (record b { fence_active = false } ∷ rest, ret)
    else (b ∷ bs, wait b)

fences_waited : Camera3Request → List CameraBuffer × ℤ → Camera3Request × ℤ
fences_waited r (bufs, ret) = (record r { output_buffers = bufs }, ret)

unfoldable pub wait_all_bufs_signaled : (CameraBuffer → ℤ) → Camera3Request → Camera3Request × ℤ
unfolding fences_waited wait_fences
wait_all_bufs_signaled wait r = fences_waited r (wait_fences wait r.output_buffers)
