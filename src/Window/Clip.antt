-- ===== src/Window/Clip.antt =====
-- `_intersect` and `clip` of common/CameraWindow.cpp compute intersections.
use hardware_rockchip_camera.Base.{◌≡◌, true, arith}
use hardware_rockchip_camera.Base.Signed.{ℤ, ◌≤ℤ◌, ◌<ℤ◌, ◌-ℤ◌}
use hardware_rockchip_camera.Window.{
  Range, CameraWindow, is_empty, is_valid, intersect, init_corners, clip, clip_to,
}

-- The half-open interval of a range.
abbrev pub In : ℤ → Range → Type 0
In a r = (r.start ≤ℤ a) × (a <ℤ r.stop)

abbrev pub Proper : Range → Type 0
Proper r = r.start <ℤ r.stop

-- A number lies in the intersection of two ranges that are not empty exactly when it lies in both.
pub intersect_lem :
    (r1 r2 : Range)
    → Proper r1
    → Proper r2
    → (a : ℤ)
    → (In a (intersect r1 r2) → In a r1 × In a r2) × (In a r1 × In a r2 → In a (intersect r1 r2))
unfolding intersect
intersect_lem r1 r2 h k a = ground arith

intersect_ordered :
    (r1 r2 : Range) → Proper r1 → Proper r2 → (intersect r1 r2).start ≤ℤ (intersect r1 r2).stop
unfolding intersect
intersect_ordered r1 r2 h k = ground arith

abbrev pub columns : CameraWindow → Range
columns w = record { start = w.x_left; stop = w.x_right }

abbrev pub rows : CameraWindow → Range
rows w = record { start = w.y_top; stop = w.y_bottom }

abbrev pub Inside : ℤ → ℤ → CameraWindow → Type 0
Inside x y w = In x (columns w) × In y (rows w)

-- Every field of the result, for the two ranges that `clip` computes.
clip_to-Inside :
    (w : CameraWindow) (xs ys : Range) (x y : ℤ)
    → xs.start ≤ℤ xs.stop
    → ys.start ≤ℤ ys.stop
    → (Inside x y (clip_to w xs ys) → In x xs × In y ys)
      × (In x xs × In y ys → Inside x y (clip_to w xs ys))
unfolding clip_to is_empty init_corners
clip_to-Inside w xs ys x y h k = ground arith

valid-Proper : (w : CameraWindow) → is_valid w ≡ true → Proper (columns w) × Proper (rows w)
unfolding is_valid
valid-Proper w h = ground arith

-- The clipped window of two valid windows holds exactly the points that both hold.
pub clip-Inside :
    (w region : CameraWindow)
    → is_valid w ≡ true
    → is_valid region ≡ true
    → (x y : ℤ)
    → (Inside x y (clip w region) → Inside x y w × Inside x y region)
      × (Inside x y w × Inside x y region → Inside x y (clip w region))
unfolding clip
clip-Inside w region h k x y =
    let (wx, wy) = valid-Proper w h in
    let (rx, ry) = valid-Proper region k in
    let xs = intersect (columns w) (columns region) in
    let ys = intersect (rows w) (rows region) in
    let both =
      clip_to-Inside w xs ys x y (intersect_ordered _ _ wx rx) (intersect_ordered _ _ wy ry) in
    let (x_in, x_out) = intersect_lem (columns w) (columns region) wx rx x in
    let (y_in, y_out) = intersect_lem (rows w) (rows region) wy ry y in
    (
      λ i. (
        ((x_in (both.0 i).0).0, (y_in (both.0 i).1).0),
        ((x_in (both.0 i).0).1, (y_in (both.0 i).1).1),
      ),
      λ i. both.1 (x_out (i.0.0, i.1.0), y_out (i.0.1, i.1.1)),
    )

abbrev pub IsConsistent : CameraWindow → Type 0
IsConsistent w = (w.width ≡ w.x_right -ℤ w.x_left) × (w.height ≡ w.y_bottom -ℤ w.y_top)

clip_to-valid :
    (w : CameraWindow) (xs ys : Range)
    → IsConsistent (clip_to w xs ys) × ((clip_to w xs ys).weight ≡ w.weight)
unfolding clip_to init_corners
clip_to-valid w xs ys = ground arith

-- Clipping keeps the weight, and the size of the result is that of its corners.
pub clip-IsConsistent :
    (w region : CameraWindow) → IsConsistent (clip w region) × ((clip w region).weight ≡ w.weight)
unfolding clip
clip-IsConsistent w region = clip_to-valid w _ _
