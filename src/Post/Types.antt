-- ===== src/Post/Types.antt =====
-- The process types of the streams, in PostProcessPipeLine::prepare_internal of
-- psl/rkisp1/workers/PostProcessPipeline.cpp. A set of types is the list of its shifts.
use hardware_rockchip_camera.Base.{
  ℕ, ◌*◌, ◌%◌, ◌^◌, Bool, true, false, not, ◌&&◌, ◌||◌, List, [], ◌∷◌, ◌++◌, ◌==◌, ltb,
  if◌then◌else◌, length, map,
}

-- The formats that the code tells apart.
pub data StreamFormat : Type 0 where
  raw16 raw10 raw12 raw_opaque blob implementation_defined other_format : StreamFormat

-- A camera3_stream_t, with the degrees of its rotation.
pub record PostStream : Type 0 where
  pub address : ℕ
  pub format : StreamFormat
  pub stream_width : ℕ
  pub stream_height : ℕ
  pub is_output_stream : Bool
  pub rotation : ℕ

-- Whether the input's format is raw, its size, whether the tuning server tunes, whether the camera
-- has a digital zoom above 1, whether CHROME_BOARD is defined, and whether
-- MIRROR_HANDLING_FOR_FRONT_CAMERA is and the camera faces the front; and the address of mUvc.
pub record PrepareAnswers : Type 0 where
  pub raw_input : Bool
  pub in_width : ℕ
  pub in_height : ℕ
  pub tuning_mode : Bool
  pub zooms : Bool
  pub chrome_board : Bool
  pub mirrors : Bool
  pub uvc : ℕ

unfoldable pub is_raw_stream : StreamFormat → Bool
is_raw_stream raw16 = true
is_raw_stream raw10 = true
is_raw_stream raw12 = true
is_raw_stream raw_opaque = true
is_raw_stream _ = false

unfoldable pub is_blob : StreamFormat → Bool
is_blob blob = true
is_blob _ = false

unfoldable pub is_implementation_defined : StreamFormat → Bool
is_implementation_defined implementation_defined = true
is_implementation_defined _ = false

unfoldable pub get_rotation_degrees : PrepareAnswers → PostStream → ℕ
get_rotation_degrees a s =
    if s.is_output_stream && a.chrome_board && (s.rotation == 90 || s.rotation == 270)
    then s.rotation
    else 0

unfoldable pub no_types : List ℕ → Bool
no_types [] = true
no_types (i ∷ is) = false

unfoldable pub only_if : Bool → ℕ → List ℕ
only_if true i = i ∷ []
only_if false i = []

-- Products of uint32_t and int wrap around.
unfoldable pub is_scaled : PrepareAnswers → PostStream → Bool
is_scaled a s = not (s.stream_width * s.stream_height % 2 ^ 32 == a.in_width * a.in_height % 2 ^ 32)

unfoldable pub own_types : PrepareAnswers → PostStream → List ℕ
unfolding is_blob is_scaled only_if
own_types a s = only_if (is_blob s.format) 18 ++ only_if (is_scaled a s) 17

unfoldable pub mirrored : Bool → List ℕ → List ℕ
unfolding no_types
mirrored mirrors types = if mirrors && no_types types then 19 ∷ [] else types

unfoldable pub tuned : PrepareAnswers → PostStream → List (ℕ × List ℕ)
unfolding is_implementation_defined
tuned a s =
    if a.tuning_mode && is_implementation_defined s.format then (a.uvc, 20 ∷ []) ∷ [] else []

-- The entries of streams_post_proc for a stream.
unfoldable pub stream_entries : PrepareAnswers → PostStream → List (ℕ × List ℕ)
unfolding is_raw_stream own_types mirrored tuned
stream_entries a s =
    if is_raw_stream s.format
    then (s.address, 21 ∷ []) ∷ []
    else if a.raw_input
    then (s.address, 22 ∷ []) ∷ []
    else tuned a s ++ (s.address, mirrored a.mirrors (own_types a s)) ∷ []

-- What a stream adds to common_process_type.
unfoldable pub common_types_of : PrepareAnswers → PostStream → List ℕ
unfolding is_raw_stream get_rotation_degrees only_if
common_types_of a s =
    if is_raw_stream s.format || a.raw_input
    then []
    else only_if (not (get_rotation_degrees a s == 0)) 3 ++ only_if a.zooms 5

unfoldable pub all_entries : PrepareAnswers → List PostStream → List (ℕ × List ℕ)
unfolding stream_entries
all_entries a [] = []
all_entries a (s ∷ ss) = stream_entries a s ++ all_entries a ss

unfoldable pub common_types : PrepareAnswers → List PostStream → List ℕ
unfolding common_types_of
common_types a [] = []
common_types a (s ∷ ss) = common_types_of a s ++ common_types a ss

-- & ~NO_NEED_INTERNAL_BUFFER_PROCESS_TYPES
unfoldable pub buffer_needed : List ℕ → List ℕ
buffer_needed [] = []
buffer_needed (i ∷ is) = let rest = buffer_needed is in if i == 1 || i == 19 then rest else i ∷ rest

unfoldable pub copy_if_none : ℕ × List ℕ → ℕ × List ℕ
unfolding no_types
copy_if_none (s, types) = (s, if no_types types then 19 ∷ [] else types)

unfoldable pub needs_copy : List (ℕ × List ℕ) → List ℕ → Bool
unfolding no_types buffer_needed
needs_copy entries common =
    ltb 1 (length entries) || (length entries == 1 && no_types (buffer_needed common))

unfoldable pub copies_added : List (ℕ × List ℕ) → List ℕ → List (ℕ × List ℕ)
unfolding copy_if_none needs_copy
copies_added entries common =
    if needs_copy entries common then map copy_if_none entries else entries

unfoldable pub all_types : List (ℕ × List ℕ) → List ℕ
all_types [] = []
all_types ((s, types) ∷ entries) = types ++ all_types entries
