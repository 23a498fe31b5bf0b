-- ===== src/Capture/Stream.antt =====
-- AAL/CameraStream.cpp and .h. Objects are addresses; `Heap` holds what stands at an address. The
-- frame counter and the frame rate serve the logs alone.
use hardware_rockchip_camera.Base.{
  ℕ, ◌*◌, ◌/◌, ◌%◌, ◌^◌, Bool, false, ◌&&◌, ◌||◌, not, List, [], ◌∷◌, ◌++◌, Option, none, some,
  ◌==◌, if◌then◌else◌,
}
use hardware_rockchip_camera.Base.Signed.{ℤ, pos, ◌+ℤ◌, ◌-ℤ◌, eqb_ℤ}
use hardware_rockchip_camera.Status.{Status, ok, bad_value, no_memory, unknown_error}

-- The fields of camera3_stream_t that are read. `priv` is the address of a CameraStream.
pub record Stream3 : Type 0 where
  pub stream_type : ℕ
  pub width : ℕ
  pub height : ℕ
  pub format : ℕ
  pub usage : ℕ
  pub max_buffers : ℕ
  pub priv : Option ℕ

pub data StreamType : Type 0 where
  preview capture video zsl : StreamType

-- `mStream3` is an address. `has_producer` says whether mProducer is set; mStreamType has no value
-- before configure.
pub record CameraStream : Type 0 where
  pub active : Bool
  pub seq_no : ℕ
  pub stream_type : Option StreamType
  pub output_buffers_in_hal : ℤ
  pub stream3 : ℕ
  pub pending_requests : List ℕ
  pub has_producer : Bool

-- `new CameraStream(seqNo, stream, callback)`
unfoldable pub new_stream : ℕ → ℕ → CameraStream
new_stream seq_no stream3 = record {
  active = false;
  seq_no = seq_no;
  stream_type = none;
  output_buffers_in_hal = pos 0;
  stream3 = stream3;
  pending_requests = [];
  has_producer = false;
}

unfoldable pub set_active : Bool → CameraStream → CameraStream
set_active active s = record s { active = active }

unfoldable pub inc_out_buffers_in_hal : CameraStream → CameraStream
inc_out_buffers_in_hal s = record s { output_buffers_in_hal = s.output_buffers_in_hal +ℤ pos 1 }

unfoldable pub dec_out_buffers_in_hal : CameraStream → CameraStream
dec_out_buffers_in_hal s = record s { output_buffers_in_hal = s.output_buffers_in_hal -ℤ pos 1 }

-- A write to the object at an address.
unfoldable pub update {ℓ} : {A : Type ℓ} → ℕ → (A → A) → (ℕ → A) → ℕ → A
update a f heap x = if x == a then f (heap x) else heap x

pub record Heap : Type 0 where
  pub stream3s : ℕ → Stream3
  pub streams : ℕ → CameraStream

unfoldable pub on_stream : ℕ → (CameraStream → CameraStream) → Heap → Heap
on_stream a f h = record h { streams = update a f h.streams }

unfoldable pub stream3_of : Heap → ℕ → Stream3
stream3_of h s = h.stream3s (h.streams s).stream3

-- width() * height(); no overflow is modelled.
unfoldable pub area : Heap → ℕ → ℕ
unfolding stream3_of
area h s = (stream3_of h s).width * (stream3_of h s).height

-- The loop of captureDone over mPendingRequests: the list without the first request whose id is
-- `id`, and that request, for which bufferDone is called. `get_id` is Camera3Request::getId.
unfoldable pub take_pending : (ℕ → ℤ) → ℤ → List ℕ → List ℕ × Option ℕ
take_pending get_id id [] = ([], none)
take_pending get_id id (r ∷ rs) =
    let (rest, found) = take_pending get_id id rs in
    if eqb_ℤ id (get_id r) then (rs, some r) else (r ∷ rest, found)

pending_taken : CameraStream → List ℕ × Option ℕ → CameraStream × Option ℕ
pending_taken s (rest, found) = (record s { pending_requests = rest }, found)

-- `request_id` is none where the buffer is nullptr.
unfoldable pub capture_done : (ℕ → ℤ) → Option ℤ → CameraStream → CameraStream × Option ℕ
unfolding pending_taken
capture_done get_id none s = (s, none)
capture_done get_id (some id) s = pending_taken s (take_pending get_id id s.pending_requests)

-- `found` says whether request->findBuffer(this) is a buffer, `answer` is what the producer's
-- capture returns.
unfoldable pub process_request : ℕ → Bool → Status → CameraStream → CameraStream × Status
process_request request found answer s = if not s.has_producer then (s, bad_value) else (
  record s { pending_requests = s.pending_requests ++ request ∷ [] },
  if found then answer else no_memory,
)

-- The gralloc usage bits, and HAL_PIXEL_FORMAT_BLOB, of the platform's headers.
abbrev pub usage_hw_texture : ℕ
usage_hw_texture = 8

abbrev pub usage_hw_render : ℕ
usage_hw_render = 9

abbrev pub usage_hw_composer : ℕ
usage_hw_composer = 11

abbrev pub usage_hw_camera_write : ℕ
usage_hw_camera_write = 17

abbrev pub usage_hw_camera_read : ℕ
usage_hw_camera_read = 18

abbrev pub format_blob : ℕ
format_blob = 33

-- CHECK_FLAG for a flag of one bit.
unfoldable pub check_flag : ℕ → ℕ → Bool
check_flag x bit = x / 2 ^ bit % 2 == 1

-- GRALLOC_USAGE_HW_CAMERA_ZSL is the two bits of a camera that reads and writes.
unfoldable pub choose_type : Stream3 → StreamType
unfolding check_flag
choose_type s =
    let display =
      check_flag s.usage usage_hw_composer
      || check_flag s.usage usage_hw_texture
      || check_flag s.usage usage_hw_render in
    let is_zsl =
      check_flag s.usage usage_hw_camera_write && check_flag s.usage usage_hw_camera_read in
    if s.format == format_blob
    then capture
    else if is_zsl
    then zsl
    else if display
    then preview
    else video

-- FrameInfo as the producer's query fills it in.
pub record ProducerFrame : Type 0 where
  pub width : ℤ
  pub height : ℤ
  pub format : ℤ

unfoldable pub configure : Heap → ProducerFrame → CameraStream → CameraStream × Status
unfolding choose_type
configure h info s =
    let s3 = h.stream3s s.stream3 in
    if not s.has_producer then (s, bad_value) else (
      record s { stream_type = some (choose_type s3) },
      if eqb_ℤ info.width (pos s3.width)
            && eqb_ℤ info.height (pos s3.height)
            && eqb_ℤ info.format (pos s3.format)
          then ok
          else unknown_error,
    )
