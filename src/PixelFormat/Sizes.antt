-- ===== src/PixelFormat/Sizes.antt =====
-- The conversions of common/Camera3V4l2Format.cpp between pixels and bytes.
use hardware_rockchip_camera.Base.{ℕ, ◌≡◌, refl, arith}
use hardware_rockchip_camera.PixelFormat.{PixelFormat, nv12, pixels_to_bytes, bytes_to_pixels}

-- A line of pixels, stored in whole bytes, holds just as many pixels, in every format.
pub bytes_to_pixels-pixels_to_bytes :
    (f : PixelFormat) (pixels : ℕ) → bytes_to_pixels f (pixels_to_bytes f pixels) ≡ pixels
unfolding bytes_to_pixels pixels_to_bytes
bytes_to_pixels-pixels_to_bytes nv12 pixels = refl
bytes_to_pixels-pixels_to_bytes _ pixels = omega arith
