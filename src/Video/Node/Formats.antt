-- ===== src/Video/Node/Formats.antt =====
-- The formats of V4L2VideoNode (common/v4l2dev/v4l2videonode.cpp) and the calls that only check the state.
use hardware_rockchip_camera.Base.{ℕ, Bool, ◌||◌, not, [], if◌then◌else◌}
use hardware_rockchip_camera.Base.Signed.{ℤ, is_negative}
use hardware_rockchip_camera.Status.{Status, ok, invalid_operation, unknown_error}
use hardware_rockchip_camera.PixelFormat.{PixelFormat, bytes_to_pixels, frame_size}
use hardware_rockchip_camera.Video.Node.{
  VideoNodeState, configured, is_closed, is_opened, is_configured, is_prepared, V4L2VideoNode,
}

-- The format that VIDIOC_S_FMT leaves behind.
pub record DriverFormat : Type 0 where
  pub pixelformat : PixelFormat
  pub width : ℕ
  pub height : ℕ
  pub bytesperline : ℕ
  pub sizeimage : ℕ

can_set_format : VideoNodeState → Bool
can_set_format s = is_opened s || is_configured s || is_prepared s

unfoldable pub set_pix_format : V4L2VideoNode → ℤ → DriverFormat → V4L2VideoNode × Status
unfolding can_set_format
set_pix_format n ret f =
    if not (can_set_format n.state)
    then (n, invalid_operation)
    else if is_negative ret
    then (n, unknown_error)
    else let stride = bytes_to_pixels f.pixelformat f.bytesperline in
      (
        record n {
          config = record {
            format = f.pixelformat;
            width = f.width;
            height = f.height;
            stride = stride;
            size = frame_size f.pixelformat stride f.height;
          };
          state = configured;
          set_buffer_pool = [];
        },
        ok,
      )

unfoldable pub set_meta_format : V4L2VideoNode → ℤ → DriverFormat → V4L2VideoNode × Status
unfolding can_set_format
set_meta_format n ret f =
    if not (can_set_format n.state)
    then (n, invalid_operation)
    else if is_negative ret
    then (n, unknown_error)
    else let info = n.config in
      (
        record n {
          config = record info { format = f.pixelformat; size = f.sizeimage };
          state = configured;
          set_buffer_pool = [];
        },
        ok,
      )

unfoldable pub set_selection : V4L2VideoNode → ℤ → Status
set_selection n ret =
    if not (is_opened n.state || is_configured n.state)
    then invalid_operation
    else if is_negative ret
    then unknown_error
    else ok

-- What `enumerateInputs`, `setInput` and `setParameter` share: any state but closed, and an ioctl.
unfoldable pub set_input : V4L2VideoNode → ℤ → Status
set_input n ret =
    if is_closed n.state then invalid_operation else if is_negative ret then unknown_error else ok
