-- ===== src/Video/Format/Access.antt =====
-- The accessors of V4L2Format (common/v4l2dev/v4l2videonode.cpp) agree with one another.
use mathlib.Core.Option.{map}
use hardware_rockchip_camera.Base.{
  ap, ◌∙◌, ℕ, ◌<◌, ◌≡◌, refl, inl, inr, true, false, some, leb, ◌&&◌, arith, Bool-cases,
}
use hardware_rockchip_camera.Video.Buffer.{field, is_valid, is_meta, is_multiplanar}
use hardware_rockchip_camera.Video.Format.{
  V4L2Format, MetaFormat, PixFormat, PixFormatMplane, PlaneFormat, read_member, write_member,
  shown_plane, put_plane, width, set_width, height, set_height, pixelformat, set_pixelformat,
  get_field, set_field, bytesperline, set_bytesperline, sizeimage, set_sizeimage,
}

-- What a setter stores is read back, member by member.
module _ (n : ℕ) (f : MetaFormat → ℕ) (g : PixFormatMplane → ℕ) (h : PixFormat → ℕ)
    (f' : MetaFormat → MetaFormat) (g' : PixFormatMplane → PixFormatMplane)
    (h' : PixFormat → PixFormat) where
  read_written :
      (v : V4L2Format)
      → is_valid v.type ≡ true
      → (is_meta v.type ≡ true → f (f' v.meta) ≡ n)
      → (is_multiplanar v.type ≡ true → g (g' v.pix_mp) ≡ n)
      → h (h' v.pix) ≡ n
      → read_member f g h (write_member f' g' h' v) ≡ field n
  unfolding read_member write_member
  read_written v ok a b c = elim (Bool-cases (is_meta v.type)) [
    | inl m ↦ let a' = a m in ground arith
    | inr m ↦ elim (Bool-cases (is_multiplanar v.type)) [
      | inl p ↦ let b' = b p in ground arith
      | inr p ↦ ground arith
    ]
  ]

-- The plane is one of the format's, and of the array.
pub record HasPlane (v : V4L2Format) (plane : ℕ) : Type 0 where
  pub in_format : is_multiplanar v.type ≡ true → plane < v.pix_mp.num_planes
  pub in_array : plane < 8

shown_put :
    (f : PlaneFormat → PlaneFormat) (plane : ℕ) (p : PixFormatMplane)
    → plane < p.num_planes
    → shown_plane (put_plane f plane p) plane ≡ f (p.plane_fmt plane)
unfolding shown_plane put_plane
shown_put f plane p l = ground arith

module _ (v : V4L2Format) (n plane : ℕ) (ok : is_valid v.type ≡ true)
    (video : is_meta v.type ≡ false) (has : HasPlane v plane) where
  not_meta : {A : Type 0} → is_meta v.type ≡ true → A
  not_meta e = absurd (ground arith)

  in_array_test : (is_multiplanar v.type && leb 8 plane) ≡ false
  in_array_test = let room = has.in_array in ground arith

  -- A setter of a plane's field and its getter.
  module _ (f : MetaFormat → ℕ) (put : MetaFormat → MetaFormat) (get : PlaneFormat → ℕ)
      (set_plane : PlaneFormat → PlaneFormat) (stored : (q : PlaneFormat) → get (set_plane q) ≡ n)
      (get_pix : PixFormat → ℕ) (set_pix : PixFormat → PixFormat)
      (kept : (q : PixFormat) → get_pix (set_pix q) ≡ n) where
    plane_back :
        read_member f
          (λ p. get (shown_plane p plane))
          get_pix
          (write_member put (put_plane set_plane plane) set_pix v)
        ≡ field n
    plane_back =
        read_written n f (λ p. get (shown_plane p plane)) get_pix put (put_plane set_plane plane)
          set_pix v ok (λ e. not_meta e)
          (λ e. ap get (shown_put set_plane plane v.pix_mp (has.in_format e)) ∙ stored _)
          (kept v.pix)

-- In a format of a valid type that is not meta, each field is read back as it was set, and so are those of a plane that the format has.
pub format_round_trip :
    (v : V4L2Format) (n plane : ℕ)
    → is_valid v.type ≡ true
    → is_meta v.type ≡ false
    → HasPlane v plane
    → (width (set_width n v) ≡ field n)
      × (height (set_height n v) ≡ field n)
      × (pixelformat (set_pixelformat n v) ≡ field n)
      × (get_field (set_field n v) ≡ field n)
      × (map (bytesperline plane) (set_bytesperline n plane v) ≡ some (field n))
      × (map (sizeimage plane) (set_sizeimage n plane v) ≡ some (field n))
unfolding set_width width set_height height set_pixelformat pixelformat set_field get_field
    set_bytesperline bytesperline set_sizeimage sizeimage
format_round_trip v n plane ok video has = (
  ground arith,
  ground arith,
  ground arith,
  ground arith,
  rw (in_array_test v n plane ok video has) (
      ap some (
        plane_back v n plane ok video has (λ m. m.buffersize) (λ m. m) (λ q. q.bytesperline)
          (λ q. record q { bytesperline = n }) (λ q. refl) (λ p. p.bytesperline)
          (λ p. record p { bytesperline = n }) (λ p. refl))),
  rw (in_array_test v n plane ok video has) (
      ap some (
        plane_back v n plane ok video has (λ m. m.buffersize) (λ m. record m { buffersize = n })
          (λ q. q.sizeimage) (λ q. record q { sizeimage = n }) (λ q. refl) (λ p. p.sizeimage)
          (λ p. record p { sizeimage = n }) (λ p. refl))),
)

-- A meta format keeps what the setters of width, height, field and line length are given to itself.
pub meta_refuses :
    (v : V4L2Format) (n plane : ℕ)
    → is_meta v.type ≡ true
    → (set_width n v ≡ v)
      × (set_height n v ≡ v)
      × (set_field n v ≡ v)
      × (set_bytesperline n plane v ≡ some v)
      × (map (sizeimage plane) (set_sizeimage n plane v) ≡ some (field n))
      × (map width (set_sizeimage n plane v) ≡ some (field n))
unfolding set_width width set_height set_field set_bytesperline set_sizeimage sizeimage
meta_refuses v n plane e = ground arith
