-- ===== src/Window.antt =====
-- common/CameraWindow.h and common/CameraWindow.cpp: weighted rectangles of a camera frame.
-- `scale`, which multiplies by floats, is left out.
pub mod Clip
use hardware_rockchip_camera.Base.{Bool, true, false, ◌&&◌, ◌||◌, if◌then◌else◌, List, [], ◌∷◌}
use hardware_rockchip_camera.Base.Signed.{ℤ, pos, ◌+ℤ◌, ◌-ℤ◌, half, leb_ℤ, ltb_ℤ, eqb_ℤ}

pub record Range : Type 0 where
  pub start : ℤ
  pub stop : ℤ

pub record Coordinate : Type 0 where
  pub x : ℤ
  pub y : ℤ

pub record CameraWindow : Type 0 where
  pub x_left : ℤ
  pub x_right : ℤ
  pub y_top : ℤ
  pub y_bottom : ℤ
  pub weight : ℤ
  pub width : ℤ
  pub height : ℤ
  pub center : Coordinate

unfoldable pub is_empty : Range → Bool
is_empty r = eqb_ℤ r.start r.stop

calculate_center : CameraWindow → CameraWindow
calculate_center w = record w {
  center = record { x = w.x_left +ℤ half w.width; y = w.y_top +ℤ half w.height };
}

-- `init(topLeft, bottomRight, aWeight)`
unfoldable pub init_corners : CameraWindow → Coordinate → Coordinate → ℤ → CameraWindow
unfolding calculate_center
init_corners w top_left bottom_right weight = calculate_center (record w {
  x_left = top_left.x;
  y_top = top_left.y;
  x_right = bottom_right.x;
  y_bottom = bottom_right.y;
  weight = weight;
  width = bottom_right.x -ℤ top_left.x;
  height = bottom_right.y -ℤ top_left.y;
})

-- `init(topLeft, width, height, aWeight)`
unfoldable pub init_size : CameraWindow → Coordinate → ℤ → ℤ → ℤ → CameraWindow
unfolding calculate_center
init_size w top_left width height weight = calculate_center (record w {
  x_left = top_left.x;
  y_top = top_left.y;
  width = width;
  height = height;
  x_right = top_left.x +ℤ width;
  y_bottom = top_left.y +ℤ height;
  weight = weight;
})

-- `init(aWeight)`
unfoldable pub init_weight : CameraWindow → ℤ → CameraWindow
unfolding calculate_center
init_weight w weight = calculate_center (record w {
  weight = weight;
  x_left = pos 0;
  y_top = pos 0;
  x_right = pos 0;
  y_bottom = pos 0;
  width = pos 0;
  height = pos 0;
})

unfoldable pub is_valid : CameraWindow → Bool
is_valid w =
    leb_ℤ (pos 0) w.x_left
    && leb_ℤ (pos 0) w.y_top
    && ltb_ℤ w.x_left w.x_right
    && ltb_ℤ w.y_top w.y_bottom

unfoldable pub intersect : Range → Range → Range
intersect r1 r2 =
    if (ltb_ℤ r1.start r2.start && leb_ℤ r1.stop r2.start)
      || (ltb_ℤ r2.start r1.start && leb_ℤ r2.stop r1.start)
    then record { start = pos 0; stop = pos 0 }
    else if leb_ℤ r1.start r2.start && leb_ℤ r1.stop r2.stop
    then record { start = r2.start; stop = r1.stop }
    else if leb_ℤ r2.start r1.start && leb_ℤ r2.stop r1.stop
    then record { start = r1.start; stop = r2.stop }
    else if leb_ℤ r1.start r2.start && leb_ℤ r2.stop r1.stop
    then r2
    else r1

unfoldable pub clip_to : CameraWindow → Range → Range → CameraWindow
clip_to w x_range y_range =
    if is_empty x_range || is_empty y_range
    then init_corners w (record { x = pos 0; y = pos 0 }) (record { x = pos 0; y = pos 0 }) w.weight
    else init_corners w (record { x = x_range.start; y = y_range.start })
        (record { x = x_range.stop; y = y_range.stop }) w.weight

unfoldable pub clip : CameraWindow → CameraWindow → CameraWindow
unfolding clip_to
clip w region =
    clip_to w
      (intersect (record { start = w.x_left; stop = w.x_right })
        (record { start = region.x_left; stop = region.x_right }))
      (intersect (record { start = w.y_top; stop = w.y_bottom })
        (record { start = region.y_top; stop = region.y_bottom }))

-- The array of five numbers that the Android metadata holds.
unfoldable pub metering_rectangle : CameraWindow → List ℤ
metering_rectangle w = w.x_left ∷ w.y_top ∷ w.x_right ∷ w.y_bottom ∷ w.weight ∷ []
