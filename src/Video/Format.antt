-- ===== src/Video/Format.antt =====
-- V4L2Format of common/v4l2dev/v4l2videonode.cpp, the wrapper of `struct v4l2_format`. Its union is
-- kept as its three members, of which the type picks one; the bytes that they share are not
-- modelled, so that a format must be filled in again when setType moves it to another member.
pub mod Access
use hardware_rockchip_camera.Base.{
  ℕ, zero, suc, Bool, true, false, ◌&&◌, ◌||◌, not, List, [], ◌∷◌, Option, none, some, ◌==◌, ltb,
  leb, if◌then◌else◌, get_elem?, set,
}
use hardware_rockchip_camera.Video.Buffer.{
  BufType, Read, field, bad_type, no_plane, is_valid, is_meta, is_multiplanar,
}

-- struct v4l2_plane_pix_format
pub record PlaneFormat : Type 0 where
  pub bytesperline : ℕ
  pub sizeimage : ℕ

-- struct v4l2_pix_format
pub record PixFormat : Type 0 where
  pub width : ℕ
  pub height : ℕ
  pub pixelformat : ℕ
  pub field : ℕ
  pub bytesperline : ℕ
  pub sizeimage : ℕ

-- struct v4l2_pix_format_mplane; the array `plane_fmt` has VIDEO_MAX_PLANES entries, which are 8.
pub record PixFormatMplane : Type 0 where
  pub width : ℕ
  pub height : ℕ
  pub pixelformat : ℕ
  pub field : ℕ
  pub num_planes : ℕ
  pub plane_fmt : ℕ → PlaneFormat

abbrev pub video_max_planes : ℕ
video_max_planes = 8

-- struct v4l2_meta_format
pub record MetaFormat : Type 0 where
  pub dataformat : ℕ
  pub buffersize : ℕ

pub record V4L2Format : Type 0 where
  pub type : BufType
  pub pix : PixFormat
  pub pix_mp : PixFormatMplane
  pub meta : MetaFormat

-- The shape of the getters: BAD_VALUE for an invalid type, else a field of the type's member.
read_member : (MetaFormat → ℕ) → (PixFormatMplane → ℕ) → (PixFormat → ℕ) → V4L2Format → Read
read_member f g h v =
    if not (is_valid v.type)
    then bad_type
    else if is_meta v.type
    then field (f v.meta)
    else if is_multiplanar v.type
    then field (g v.pix_mp)
    else field (h v.pix)

-- The shape of the setters.
write_member :
    (MetaFormat → MetaFormat)
    → (PixFormatMplane → PixFormatMplane)
    → (PixFormat → PixFormat)
    → V4L2Format
    → V4L2Format
write_member f g h v =
    if not (is_valid v.type)
    then v
    else if is_meta v.type
    then record v { meta = f v.meta }
    else if is_multiplanar v.type
    then record v { pix_mp = g v.pix_mp }
    else record v { pix = h v.pix }

unfoldable pub set_type : BufType → V4L2Format → V4L2Format
set_type type v =
    if not (is_valid type)
    then v
    else let v' = record v { type = type } in
      if is_multiplanar type then record v' { pix_mp = record v'.pix_mp { num_planes = 1 } } else v'

unfoldable pub width : V4L2Format → Read
unfolding read_member
width = read_member (λ m. m.buffersize) (λ p. p.width) (λ p. p.width)

unfoldable pub set_width : ℕ → V4L2Format → V4L2Format
unfolding write_member
set_width n = write_member (λ m. m) (λ p. record p { width = n }) (λ p. record p { width = n })

unfoldable pub height : V4L2Format → Read
unfolding read_member
height = read_member (λ m. 1) (λ p. p.height) (λ p. p.height)

unfoldable pub set_height : ℕ → V4L2Format → V4L2Format
unfolding write_member
set_height n = write_member (λ m. m) (λ p. record p { height = n }) (λ p. record p { height = n })

unfoldable pub pixelformat : V4L2Format → Read
unfolding read_member
pixelformat = read_member (λ m. m.dataformat) (λ p. p.pixelformat) (λ p. p.pixelformat)

unfoldable pub set_pixelformat : ℕ → V4L2Format → V4L2Format
unfolding write_member
set_pixelformat n =
    write_member (λ m. record m { dataformat = n }) (λ p. record p { pixelformat = n })
      (λ p. record p { pixelformat = n })

-- V4L2_FIELD_NONE of the kernel's header.
abbrev pub field_none : ℕ
field_none = 1

unfoldable pub get_field : V4L2Format → Read
unfolding read_member
get_field = read_member (λ m. field_none) (λ p. p.field) (λ p. p.field)

unfoldable pub set_field : ℕ → V4L2Format → V4L2Format
unfolding write_member
set_field n = write_member (λ m. m) (λ p. record p { field = n }) (λ p. record p { field = n })

-- A getter takes plane 0 for a plane that the format does not have.
shown_plane : PixFormatMplane → ℕ → PlaneFormat
shown_plane p plane = if leb p.num_planes plane then p.plane_fmt 0 else p.plane_fmt plane

put_plane : (PlaneFormat → PlaneFormat) → ℕ → PixFormatMplane → PixFormatMplane
put_plane f plane p = record p {
  plane_fmt = λ i. if i == plane then f (p.plane_fmt i) else p.plane_fmt i;
}

unfoldable pub bytesperline : ℕ → V4L2Format → Read
unfolding read_member shown_plane
bytesperline plane =
    read_member (λ m. m.buffersize) (λ p. (shown_plane p plane).bytesperline) (λ p. p.bytesperline)

-- The setter does not look at num_planes. A plane that the array does not have, 8 or more, is none.
unfoldable pub set_bytesperline : ℕ → ℕ → V4L2Format → Option V4L2Format
unfolding write_member put_plane
set_bytesperline n plane v =
    if is_multiplanar v.type && leb video_max_planes plane
    then none
    else some (
        write_member (λ m. m) (put_plane (λ q. record q { bytesperline = n }) plane)
          (λ p. record p { bytesperline = n }) v)

unfoldable pub sizeimage : ℕ → V4L2Format → Read
unfolding read_member shown_plane
sizeimage plane =
    read_member (λ m. m.buffersize) (λ p. (shown_plane p plane).sizeimage) (λ p. p.sizeimage)

unfoldable pub set_sizeimage : ℕ → ℕ → V4L2Format → Option V4L2Format
unfolding write_member put_plane
set_sizeimage n plane v =
    if is_multiplanar v.type && leb video_max_planes plane
    then none
    else some (
        write_member (λ m. record m { buffersize = n })
          (put_plane (λ q. record q { sizeimage = n }) plane) (λ p. record p { sizeimage = n }) v)
