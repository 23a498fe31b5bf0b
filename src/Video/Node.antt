-- ===== src/Video/Node.antt =====
-- V4L2VideoNode of common/v4l2dev/v4l2videonode.cpp: the states of a device node and its streaming
-- operations. What an ioctl returns is an argument; below 0 it is a failure.
pub mod Formats
pub mod Pools
pub mod Present
pub mod States
pub mod History
pub mod Shown
use hardware_rockchip_camera.Base.{
  ℕ, zero, suc, ◌+◌, ◌-◌, ◌%◌, ◌^◌, Bool, true, false, ◌&&◌, ◌||◌, not, List, [], ◌∷◌, ◌++◌, Option,
  none, some, ◌==◌, leb, ltb, if◌then◌else◌, length, get_elem?, set,
}
use hardware_rockchip_camera.Base.Signed.{ℤ, pos, negsuc, ◌+ℤ◌, ◌-ℤ◌, is_negative}
use hardware_rockchip_camera.Status.{
  Status, ok, bad_value, bad_type, bad_index, invalid_operation, unknown_error, dead_object,
}
use hardware_rockchip_camera.PixelFormat.{PixelFormat, bytes_to_pixels, frame_size}
use hardware_rockchip_camera.Video.Buffer.{
  BufType, V4L2Buffer, video_capture, video_capture_mplane, video_output, video_output_mplane,
  meta_capture, meta_output, set_type, cleared_buffer,
}

pub data VideoNodeState : Type 0 where
  closed opened configured prepared started error : VideoNodeState

abbrev pub is_closed : VideoNodeState → Bool
is_closed closed = true
is_closed _ = false

abbrev pub is_opened : VideoNodeState → Bool
is_opened opened = true
is_opened _ = false

abbrev pub is_configured : VideoNodeState → Bool
is_configured configured = true
is_configured _ = false

abbrev pub is_prepared : VideoNodeState → Bool
is_prepared prepared = true
is_prepared _ = false

abbrev pub is_started : VideoNodeState → Bool
is_started started = true
is_started _ = false

-- The parts of FrameInfo that the node keeps.
pub record FrameInfo : Type 0 where
  pub format : PixelFormat
  pub width : ℕ
  pub height : ℕ
  pub stride : ℕ
  pub size : ℕ

pub record V4L2BufferInfo : Type 0 where
  pub user_data : ℕ
  pub length : ℕ
  pub width : ℕ
  pub height : ℕ
  pub format : PixelFormat
  pub cache_flags : ℕ
  pub vbuffer : V4L2Buffer

-- `is_open` says that mFd is not -1.
pub record V4L2VideoNode : Type 0 where
  pub is_open : Bool
  pub state : VideoNodeState
  pub config : FrameInfo
  pub buffers_in_device : ℤ
  pub frame_counter : ℕ
  pub initial_skips : ℕ
  pub set_buffer_pool : List V4L2BufferInfo
  pub buffer_pool : List V4L2BufferInfo
  pub buf_type : BufType
  pub memory_type : ℕ

-- The bits of `v4l2_capability.capabilities` that `open` tests.
pub record Capabilities : Type 0 where
  pub has_video_capture : Bool
  pub has_video_capture_mplane : Bool
  pub has_video_output : Bool
  pub has_video_output_mplane : Bool
  pub has_meta_capture : Bool
  pub has_meta_output : Bool

-- The answers of the operating system while a node is opened: stat, the test for a character device,
-- open, and VIDIOC_QUERYCAP.
pub record OpenAnswers : Type 0 where
  pub stat_fails : Bool
  pub is_chr : Bool
  pub open_fails : Bool
  pub querycap : ℤ
  pub capabilities : Capabilities

-- V4L2DeviceBase::open, which takes a device that is open already for a success.
base_open : V4L2VideoNode → OpenAnswers → V4L2VideoNode × Status
base_open n a =
    if n.is_open
    then (n, ok)
    else if a.stat_fails
    then (n, unknown_error)
    else if not a.is_chr
    then (n, unknown_error)
    else if a.open_fails
    then (n, unknown_error)
    else (record n { is_open = true }, ok)

unfoldable pub query_cap : V4L2VideoNode → ℤ → Status
query_cap n ret =
    if not (is_opened n.state)
    then invalid_operation
    else if is_negative ret
    then unknown_error
    else ok

buffer_type : Capabilities → Option BufType
buffer_type c =
    if c.has_video_capture
    then some video_capture
    else if c.has_video_capture_mplane
    then some video_capture_mplane
    else if c.has_video_output
    then some video_output
    else if c.has_video_output_mplane
    then some video_output_mplane
    else if c.has_meta_capture
    then some meta_capture
    else if c.has_meta_output
    then some meta_output
    else none

with_buffer_type : V4L2VideoNode → Option BufType → V4L2VideoNode × Status
with_buffer_type n none = (n, dead_object)
with_buffer_type n (some t) = (record n { buf_type = t; buffers_in_device = pos 0 }, ok)

open_queried : V4L2VideoNode → OpenAnswers → Status → V4L2VideoNode × Status
unfolding buffer_type with_buffer_type
open_queried n a ok = with_buffer_type n (buffer_type a.capabilities)
open_queried n a status = (n, status)

open_based : OpenAnswers → V4L2VideoNode × Status → V4L2VideoNode × Status
unfolding open_queried query_cap
open_based a (n, ok) =
    let n = record n { state = opened } in open_queried n a (query_cap n a.querycap)
open_based a (n, status) = (n, status)

unfoldable pub open_node : V4L2VideoNode → OpenAnswers → V4L2VideoNode × Status
unfolding base_open open_based
open_node n a = open_based a (base_open n a)

-- `requestBuffers`: the number of buffers that the driver grants, or its error. VIDIOC_REQBUFS
-- answers with a return code and a count.
unfoldable pub request_buffers : V4L2VideoNode → ℤ → ℕ → ℤ
request_buffers n ret count =
    if is_closed n.state then pos 0 else if is_negative ret then ret else pos count

unfoldable pub destroy_buffer_pool : V4L2VideoNode → V4L2VideoNode
destroy_buffer_pool n = record n { buffer_pool = [] }

stop_prepared : V4L2VideoNode → Bool → ℤ → V4L2VideoNode × ℤ
unfolding destroy_buffer_pool
stop_prepared n keep_buffers ret =
    if is_prepared n.state
    then if keep_buffers
      then (n, ret)
      else (record (destroy_buffer_pool n) { state = configured }, ret)
    else (n, negsuc 0)

-- `streamoff` is the answer to VIDIOC_STREAMOFF.
unfoldable pub stop : V4L2VideoNode → Bool → ℤ → V4L2VideoNode × ℤ
unfolding stop_prepared
stop n keep_buffers streamoff =
    if is_started n.state
    then if is_negative streamoff
      then (n, streamoff)
      else stop_prepared (record n { state = prepared }) keep_buffers streamoff
    else stop_prepared n keep_buffers (pos 0)

unfoldable pub start : V4L2VideoNode → ℕ → ℤ → V4L2VideoNode × ℤ
start n initial_skips streamon =
    if not (is_prepared n.state)
    then (n, negsuc 0)
    else if is_negative streamon
    then (n, streamon)
    else (record n { frame_counter = 0; state = started; initial_skips = initial_skips }, streamon)

base_close : V4L2VideoNode → ℤ → V4L2VideoNode × Status
base_close n ret =
    if not n.is_open
    then (n, invalid_operation)
    else if is_negative ret
    then (n, unknown_error)
    else (record n { is_open = false }, ok)

close_based : V4L2VideoNode × Status → V4L2VideoNode × Status
close_based (n, ok) = (record n { state = closed; buffers_in_device = pos 0 }, ok)
close_based (n, status) = (record n { buffers_in_device = pos 0 }, status)

abbrev is_nil {ℓ} : {A : Type ℓ} → List A → Bool
is_nil [] = true
is_nil (_ ∷ _) = false

unfoldable pub close_node : V4L2VideoNode → ℤ → ℤ → V4L2VideoNode × Status
unfolding base_close close_based destroy_buffer_pool
close_node n streamoff ret =
    let n = if is_started n.state then (stop n false streamoff).0 else n in
    let n = if is_nil n.buffer_pool then n else destroy_buffer_pool n in
    close_based (base_close n ret)
