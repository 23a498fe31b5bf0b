-- ===== src/PixelFormat.antt =====
-- common/Camera3V4l2Format.cpp: what the code knows of the V4L2 pixel formats. The kernel's headers
-- are taken to define all the formats that the table lists under an #ifdef.
pub mod Sizes
use hardware_rockchip_camera.Base.{ℕ, suc, ◌+◌, ◌*◌, ◌/◌, Bool, true, false, if◌then◌else◌}

-- The constants V4L2_PIX_FMT_*; `unlisted` is any other fourcc.
pub data PixelFormat : Type 0 where
  nv12 yuv420 yvu420 yuv422p yuv444 yuyv420_v32 nv21 nv16 yuyv uyvy : PixelFormat
  sbggr16 sbggr8 sgbrg8 sgrbg8 srggb8 sbggr10 sgbrg10 sgrbg10 srggb10 : PixelFormat
  sbggr10p sgbrg10p sgrbg10p srggb10p cio2_srggb10 : PixelFormat
  sbggr12 sgbrg12 sgrbg12 srggb12 sgrbg12v32 rgb32 rgb565 jpeg mjpeg : PixelFormat
  unlisted : ℕ → PixelFormat

pub record CameraFormatBridge : Type 0 where
  pub depth : ℕ
  pub planar : Bool
  pub bayer : Bool

abbrev planar_yuv : ℕ → CameraFormatBridge
planar_yuv depth = record { depth = depth; planar = true; bayer = false }

abbrev packed : ℕ → CameraFormatBridge
packed depth = record { depth = depth; planar = false; bayer = false }

abbrev raw : ℕ → CameraFormatBridge
raw depth = record { depth = depth; planar = false; bayer = true }

-- The table, and NV12 for a format that it does not list.
unfoldable pub get_camera_format_bridge : PixelFormat → CameraFormatBridge
get_camera_format_bridge nv12 = planar_yuv 12
get_camera_format_bridge yuv420 = planar_yuv 12
get_camera_format_bridge yvu420 = planar_yuv 12
get_camera_format_bridge yuv422p = planar_yuv 16
get_camera_format_bridge yuv444 = packed 24
get_camera_format_bridge yuyv420_v32 = planar_yuv 24
get_camera_format_bridge nv21 = planar_yuv 12
get_camera_format_bridge nv16 = planar_yuv 16
get_camera_format_bridge yuyv = packed 16
get_camera_format_bridge uyvy = packed 16
get_camera_format_bridge sbggr16 = raw 16
get_camera_format_bridge sbggr8 = raw 8
get_camera_format_bridge sgbrg8 = raw 8
get_camera_format_bridge sgrbg8 = raw 8
get_camera_format_bridge srggb8 = raw 8
get_camera_format_bridge sbggr10 = raw 16
get_camera_format_bridge sgbrg10 = raw 16
get_camera_format_bridge sgrbg10 = raw 16
get_camera_format_bridge srggb10 = raw 16
get_camera_format_bridge sbggr10p = raw 12
get_camera_format_bridge sgbrg10p = raw 12
get_camera_format_bridge sgrbg10p = raw 12
get_camera_format_bridge srggb10p = raw 12
get_camera_format_bridge cio2_srggb10 = raw 12
get_camera_format_bridge sbggr12 = raw 16
get_camera_format_bridge sgbrg12 = raw 16
get_camera_format_bridge sgrbg12 = raw 16
get_camera_format_bridge srggb12 = raw 16
get_camera_format_bridge sgrbg12v32 = raw 16
get_camera_format_bridge rgb32 = raw 32
get_camera_format_bridge rgb565 = raw 16
get_camera_format_bridge jpeg = packed 8
get_camera_format_bridge mjpeg = packed 8
get_camera_format_bridge (unlisted _) = planar_yuv 12

unfoldable pub is_bayer_format : PixelFormat → Bool
unfolding get_camera_format_bridge
is_bayer_format f = (get_camera_format_bridge f).bayer

-- ((x) + 7) & ~7
abbrev pub align8 : ℕ → ℕ
align8 x = (x + 7) / 8 * 8

unfoldable pub pixels_to_bytes : PixelFormat → ℕ → ℕ
unfolding get_camera_format_bridge
pixels_to_bytes f pixels =
    let afb = get_camera_format_bridge f in
    if afb.planar then pixels else align8 (afb.depth * pixels) / 8

unfoldable pub bytes_to_pixels : PixelFormat → ℕ → ℕ
unfolding get_camera_format_bridge
bytes_to_pixels f bytes =
    let afb = get_camera_format_bridge f in if afb.planar then bytes else bytes * 8 / afb.depth

is_jpeg : PixelFormat → Bool
is_jpeg jpeg = true
is_jpeg _ = false

unfoldable pub frame_size : PixelFormat → ℕ → ℕ → ℕ
unfolding get_camera_format_bridge is_jpeg
frame_size f width height =
    if is_jpeg f then width else height * align8 ((get_camera_format_bridge f).depth * width) / 8
