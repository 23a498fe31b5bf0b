-- ===== src/Video/Buffer.antt =====
-- V4L2Buffer of common/v4l2dev/v4l2videonode.cpp, the wrapper of `struct v4l2_buffer`. A field of 32
-- bits holds a number below 2 ^ 32. The union `m` of a buffer or a plane is its eight bytes, as one
-- little-endian number (for a multi-planar buffer it is the address of the plane array, which the
-- code never reads back, and is left alone); a file descriptor is the word that stands for it.
pub mod Accessors
use hardware_rockchip_camera.Base.{
  ℕ, zero, suc, ◌+◌, ◌-◌, ◌%◌, ◌^◌, Bool, true, false, ◌&&◌, ◌||◌, not, List, [], ◌∷◌, Option, none,
  some, ◌==◌, leb, if◌then◌else◌, length as list_length, get_elem?, set, replicate,
}

-- enum v4l2_buf_type; `unset` is the 0 of a cleared struct, `other` a type of the kernel that the code
-- does not accept.
pub data BufType : Type 0 where
  unset video_capture video_output video_capture_mplane video_output_mplane : BufType
  meta_capture meta_output other : BufType

-- V4L2_TYPE_IS_VALID
abbrev pub is_valid : BufType → Bool
is_valid unset = false
is_valid other = false
is_valid _ = true

-- V4L2_TYPE_IS_META
abbrev pub is_meta : BufType → Bool
is_meta meta_capture = true
is_meta meta_output = true
is_meta _ = false

-- V4L2_TYPE_IS_MULTIPLANAR, of the kernel's header: the two multi-planar video types.
abbrev pub is_multiplanar : BufType → Bool
is_multiplanar video_capture_mplane = true
is_multiplanar video_output_mplane = true
is_multiplanar _ = false

pub record Plane : Type 0 where
  pub bytesused : ℕ
  pub length : ℕ
  pub m : ℕ

abbrev pub cleared_plane : Plane
cleared_plane = record { bytesused = 0; length = 0; m = 0 }

pub record V4L2Buffer : Type 0 where
  pub index : ℕ
  pub type : BufType
  pub flags : ℕ
  pub memory : ℕ
  pub bytesused : ℕ
  pub length : ℕ
  pub m : ℕ
  pub planes : List Plane

-- operator= of V4L2Buffer leaves the planes alone where the source is not multi-planar.
unfoldable pub assign : V4L2Buffer → V4L2Buffer → V4L2Buffer
assign dst src = record src { planes = if is_multiplanar src.type then src.planes else dst.planes }

pub cleared_buffer : V4L2Buffer
cleared_buffer = record {
  index = 0;
  type = unset;
  flags = 0;
  memory = 0;
  bytesused = 0;
  length = 0;
  m = 0;
  planes = [];
}

-- What a getter returns: a field, BAD_VALUE for an invalid type, or its default for a plane that the
-- buffer does not have.
pub data Read : Type 0 where
  field : ℕ → Read
  bad_type : Read
  no_plane : Read

-- The test of each accessor: a single-planar buffer has plane 0, a multi-planar one those of `planes`.
abbrev pub lacks_plane : V4L2Buffer → ℕ → Bool
lacks_plane b plane =
    if is_multiplanar b.type then leb (list_length b.planes) plane else not (plane == 0)

plane_field : (Plane → ℕ) → Option Plane → Read
plane_field f none = no_plane
plane_field f (some p) = field (f p)

read_field : (V4L2Buffer → ℕ) → (Plane → ℕ) → V4L2Buffer → ℕ → Read
unfolding plane_field
read_field f g b plane =
    if not (is_valid b.type)
    then bad_type
    else if lacks_plane b plane
    then no_plane
    else if is_multiplanar b.type
    then plane_field g (get_elem? b.planes plane)
    else field (f b)

update_plane : (Plane → Plane) → List Plane → ℕ → List Plane
update_plane f [] i = []
update_plane f (p ∷ ps) zero = f p ∷ ps
update_plane f (p ∷ ps) (suc i) = p ∷ update_plane f ps i

write_field : (V4L2Buffer → V4L2Buffer) → (Plane → Plane) → V4L2Buffer → ℕ → V4L2Buffer
unfolding update_plane
write_field f g b plane =
    if not (is_valid b.type)
    then b
    else if lacks_plane b plane
    then b
    else if is_multiplanar b.type
    then record b { planes = update_plane g b.planes plane }
    else f b

-- The low four bytes of a union.
abbrev pub low_word : ℕ → ℕ
low_word m = m % 2 ^ 32

abbrev pub with_low_word : ℕ → ℕ → ℕ
with_low_word m v = m - low_word m + v

unfoldable pub offset : V4L2Buffer → ℕ → Read
unfolding read_field
offset = read_field (λ b. low_word b.m) (λ p. low_word p.m)

unfoldable pub set_offset : V4L2Buffer → ℕ → ℕ → V4L2Buffer
unfolding write_field
set_offset b v plane =
    write_field (λ b. record b { m = with_low_word b.m v })
      (λ p. record p { m = with_low_word p.m v }) b plane

unfoldable pub userptr : V4L2Buffer → ℕ → Read
unfolding read_field
userptr = read_field (λ b. b.m) (λ p. p.m)

unfoldable pub set_userptr : V4L2Buffer → ℕ → ℕ → V4L2Buffer
unfolding write_field
set_userptr b v plane = write_field (λ b. record b { m = v }) (λ p. record p { m = v }) b plane

unfoldable pub fd : V4L2Buffer → ℕ → Read
unfolding read_field
fd = read_field (λ b. low_word b.m) (λ p. low_word p.m)

unfoldable pub set_fd : V4L2Buffer → ℕ → ℕ → V4L2Buffer
unfolding write_field
set_fd b v plane =
    write_field (λ b. record b { m = with_low_word b.m v })
      (λ p. record p { m = with_low_word p.m v }) b plane

unfoldable pub bytesused : V4L2Buffer → ℕ → Read
unfolding read_field
bytesused = read_field (λ b. b.bytesused) (λ p. p.bytesused)

unfoldable pub set_bytesused : V4L2Buffer → ℕ → ℕ → V4L2Buffer
unfolding write_field
set_bytesused b v plane =
    write_field (λ b. record b { bytesused = v }) (λ p. record p { bytesused = v }) b plane

unfoldable pub length : V4L2Buffer → ℕ → Read
unfolding read_field
length = read_field (λ b. b.length) (λ p. p.length)

unfoldable pub set_length : V4L2Buffer → ℕ → ℕ → V4L2Buffer
unfolding write_field
set_length b v plane =
    write_field (λ b. record b { length = v }) (λ p. record p { length = v }) b plane

unfoldable pub get_num_planes : V4L2Buffer → Read
get_num_planes b =
    if not (is_valid b.type)
    then bad_type
    else if is_multiplanar b.type
    then field (list_length b.planes)
    else field 1

unfoldable pub set_num_planes : V4L2Buffer → ℕ → V4L2Buffer
set_num_planes b n =
    if not (is_valid b.type) then b else if not (is_multiplanar b.type) then b else record b {
      planes = if n == list_length b.planes then b.planes else replicate n cleared_plane;
      length = n;
    }

unfoldable pub set_type : V4L2Buffer → BufType → V4L2Buffer
unfolding set_num_planes
set_type b type =
    if not (is_valid type)
    then b
    else let b' = record b { type = type } in
      if is_multiplanar type then set_num_planes b' 1 else b'
