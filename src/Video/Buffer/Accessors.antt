-- ===== src/Video/Buffer/Accessors.antt =====
-- The accessors of V4L2Buffer (common/v4l2dev/v4l2videonode.cpp) agree with one another.
use hardware_rockchip_camera.Base.{
  ℕ, zero, suc, ◌^◌, ◌<◌, ◌≡◌, refl, ap, ◌⊎◌, inl, inr, true, false, List, [], ◌∷◌, arith,
  if◌then◌else◌, get_elem?, Bool-cases,
}
use hardware_rockchip_camera.Base.{length as list_length}
use hardware_rockchip_camera.Video.Buffer.{
  V4L2Buffer, Plane, field, bad_type, no_plane, is_valid, is_multiplanar, lacks_plane, plane_field,
  read_field, write_field, update_plane, low_word, with_low_word, offset, set_offset, userptr,
  set_userptr, fd, set_fd, bytesused, set_bytesused, length, set_length,
}

length-update_plane :
    (f : Plane → Plane) (ps : List Plane) (i : ℕ)
    → list_length (update_plane f ps i) ≡ list_length ps
unfolding update_plane
length-update_plane f [] i = refl
length-update_plane f (p ∷ ps) zero = refl
length-update_plane f (p ∷ ps) (suc i) = ap suc (length-update_plane f ps i)

updated-plane_field :
    (f : Plane → Plane) (g : Plane → ℕ) (v : ℕ) (ps : List Plane) (i : ℕ)
    → ((p : Plane) → g (f p) ≡ v)
    → i < list_length ps
    → plane_field g (get_elem? (update_plane f ps i) i) ≡ field v
unfolding update_plane plane_field
updated-plane_field f g v [] i h l = elim l [ ]
updated-plane_field f g v (p ∷ ps) zero h l = ap field (h p)
updated-plane_field f g v (p ∷ ps) (suc i) h l = updated-plane_field f g v ps i h (omega arith)

module _ (v : ℕ) (get : V4L2Buffer → ℕ) (get_plane : Plane → ℕ) (put : V4L2Buffer → V4L2Buffer)
    (put_plane : Plane → Plane) where
  read-write :
      (b : V4L2Buffer) (plane : ℕ)
      → get (put b) ≡ v
      → (put b).type ≡ b.type
      → ((p : Plane) → get_plane (put_plane p) ≡ v)
      → is_valid b.type ≡ true
      → lacks_plane b plane ≡ false
      → read_field get get_plane (write_field put put_plane b plane) plane ≡ field v
  unfolding read_field write_field
  read-write b plane e t h ok has = elim (Bool-cases (is_multiplanar b.type)) [
    | inl mp ↦ ground (
      arith,
      length-update_plane put_plane b.planes plane,
      updated-plane_field put_plane get_plane v b.planes plane h (ground arith),
    )
    | inr sp ↦ ground arith
  ]

word_kept : (m v : ℕ) → v < 2 ^ 32 → low_word (with_low_word m v) ≡ v
word_kept m v h = omega arith

-- At a plane that a buffer of a valid type has, each getter returns the 32-bit
-- value that its setter stored there.
pub accessors_round_trip :
    (b : V4L2Buffer) (v plane : ℕ)
    → is_valid b.type ≡ true
    → lacks_plane b plane ≡ false
    → v < 2 ^ 32
    → (offset (set_offset b v plane) plane ≡ field v)
      × (userptr (set_userptr b v plane) plane ≡ field v)
      × (fd (set_fd b v plane) plane ≡ field v)
      × (bytesused (set_bytesused b v plane) plane ≡ field v)
      × (length (set_length b v plane) plane ≡ field v)
unfolding offset set_offset userptr set_userptr fd set_fd bytesused set_bytesused length set_length
accessors_round_trip b v plane ok has h = (
  read-write v (λ r. low_word r.m) (λ r. low_word r.m) (λ r. record r { m = with_low_word r.m v })
      (λ r. record r { m = with_low_word r.m v }) b plane (word_kept b.m v h) refl
      (λ p. word_kept p.m v h) ok has,
  read-write v (λ r. r.m) (λ r. r.m) (λ r. record r { m = v }) (λ r. record r { m = v }) b plane
      refl refl (λ p. refl) ok has,
  read-write v (λ r. low_word r.m) (λ r. low_word r.m) (λ r. record r { m = with_low_word r.m v })
      (λ r. record r { m = with_low_word r.m v }) b plane (word_kept b.m v h) refl
      (λ p. word_kept p.m v h) ok has,
  read-write v (λ r. r.bytesused) (λ r. r.bytesused) (λ r. record r { bytesused = v })
      (λ r. record r { bytesused = v }) b plane refl refl (λ p. refl) ok has,
  read-write v (λ r. r.length) (λ r. r.length) (λ r. record r { length = v })
      (λ r. record r { length = v }) b plane refl refl (λ p. refl) ok has,
)

-- Where the type is not valid or the plane is not there, no setter changes the buffer and no getter
-- returns a field.
pub accessors_refuse :
    (b : V4L2Buffer) (v plane : ℕ)
    → (is_valid b.type ≡ false) ⊎ ((is_valid b.type ≡ true) × (lacks_plane b plane ≡ true))
    → let answer = if is_valid b.type then no_plane else bad_type in
      (set_offset b v plane ≡ b)
      × (set_userptr b v plane ≡ b)
      × (set_fd b v plane ≡ b)
      × (set_bytesused b v plane ≡ b)
      × (set_length b v plane ≡ b)
      × (offset b plane ≡ answer)
      × (userptr b plane ≡ answer)
      × (fd b plane ≡ answer)
      × (bytesused b plane ≡ answer)
      × (length b plane ≡ answer)
unfolding offset set_offset userptr set_userptr fd set_fd bytesused set_bytesused length set_length
accessors_refuse b v plane (inl bad) =
    simp bad (refl, refl, refl, refl, refl, refl, refl, refl, refl, refl)
accessors_refuse b v plane (inr (ok, lacks)) =
    simp (ok, lacks) (refl, refl, refl, refl, refl, refl, refl, refl, refl, refl)
