-- ===== src/Post/Links.antt =====
-- PostProcessPipeLine::prepare_internal of psl/rkisp1/workers/PostProcessPipeline.cpp: how the
-- units that the streams need are linked. A unit's address is the number of units that were made before it; unit->prepare, which allocates
-- buffers, is not modelled.
pub mod Served
pub mod Prepared
pub mod Complete
pub mod Frames
use hardware_rockchip_camera.Base.{
  ℕ, zero, suc, ◌+◌, ◌*◌, ◌%◌, ◌^◌, Bool, true, false, not, ◌&&◌, ◌||◌, List, [], ◌∷◌, ◌++◌, Option,
  none, some, ◌==◌, ltb, if◌then◌else◌, length, map,
}
use hardware_rockchip_camera.Status.{Status, ok, unknown_error}
use hardware_rockchip_camera.Post.Unit.{
  PostProcBufType, internal, previous, external, PostProcessUnit, construct_unit,
}
use hardware_rockchip_camera.Post.Sync.{set_entry}
use hardware_rockchip_camera.Post.Types.{
  StreamFormat, PostStream, PrepareAnswers, no_types, is_raw_stream, is_blob,
  is_implementation_defined, get_rotation_degrees, only_if, is_scaled, own_types, mirrored, tuned,
  stream_entries, common_types_of, all_entries, common_types, buffer_needed, copy_if_none,
  needs_copy, copies_added, all_types,
}

-- A listener that is attached to a unit: another unit or mOutputBuffersHandler.
pub data Listener : Type 0 where
  next_unit : ℕ → Listener
  outputs : Listener

pub record Links : Type 0 where
  pub made : ℕ
  pub unit_at : ℕ → PostProcessUnit
  pub listeners_of : ℕ → List Listener
  pub first_units : List ℕ
  pub middle_units : List ℕ
  pub last_units : List ℕ
  pub stream_units : ℕ → Option ℕ
  pub may_need_sync : Bool

pub data ProcessUnitLevel : Type 0 where
  first_level middle_level last_level : ProcessUnitLevel

attach_listener : ℕ → Listener → Links → Links
unfolding set_entry
attach_listener n x l = record l {
  listeners_of = set_entry n (l.listeners_of n ++ x ∷ []) l.listeners_of;
}

push_level : ProcessUnitLevel → ℕ → Links → Links
push_level first_level n l = record l { first_units = l.first_units ++ n ∷ [] }
push_level middle_level n l = record l { middle_units = l.middle_units ++ n ∷ [] }
push_level last_level n l = record l { last_units = l.last_units ++ n ∷ [] }

link_post_proc_unit : ℕ → Option ℕ → ProcessUnitLevel → Links → Links × Status
unfolding attach_listener push_level
link_post_proc_unit from (some m) level l =
    (push_level level from (attach_listener m (next_unit from) l), ok)
link_post_proc_unit from none first_level l = (push_level first_level from l, ok)
link_post_proc_unit from none middle_level l = (l, unknown_error)
link_post_proc_unit from none last_level l = (l, unknown_error)

make_unit : PostProcBufType → Links → Links
unfolding set_entry
make_unit t l = record l {
  made = suc l.made;
  unit_at = set_entry l.made (construct_unit t) l.unit_at;
}

level_of : Bool → Option ℕ → ProcessUnitLevel
level_of is_last none = first_level
level_of true (some m) = last_level
level_of false (some m) = middle_level

serve_stream : ℕ → ℕ → Links → Links
unfolding attach_listener set_entry
serve_stream n s l =
    let l' = attach_listener n outputs l in
    record l' { stream_units = set_entry s (some n) l'.stream_units }

-- A new unit behind the unit `to`, the last one of the stream `s` or not.
pub add_unit : PostProcBufType → Bool → Option ℕ → ℕ → Links → Links
unfolding make_unit link_post_proc_unit level_of serve_stream
add_unit t is_last to s l =
    let l' = (link_post_proc_unit l.made to (level_of is_last to) (make_unit t l)).0 in
    if is_last then serve_stream l.made s l' else l'

has : ℕ → List ℕ → Bool
has i [] = false
has i (j ∷ js) = let rest = has i js in i == j || rest

is_last : Option ℕ → ℕ → Bool
is_last none i = false
is_last (some j) i = j == i

-- The last of the shifts that the types have.
pub find_last : List ℕ → List ℕ → Option ℕ → Option ℕ
unfolding has
find_last types [] found = found
find_last types (i ∷ is) found = find_last types is (if has i types then some i else found)

abbrev pub common_shifts : List ℕ
common_shifts = 1 ∷ 2 ∷ 3 ∷ 4 ∷ 5 ∷ 6 ∷ 7 ∷ 8 ∷ 9 ∷ 10 ∷ 11 ∷ 12 ∷ 13 ∷ 14 ∷ 15 ∷ []

abbrev pub stream_shifts : List ℕ
stream_shifts = 17 ∷ 18 ∷ 19 ∷ 20 ∷ 21 ∷ 22 ∷ 23 ∷ 24 ∷ 25 ∷ 26 ∷ 27 ∷ 28 ∷ 29 ∷ 30 ∷ 31 ∷ []

ends_with : Bool → PostProcBufType
ends_with true = external
ends_with false = internal

-- The switch of the common units makes one for the shifts 1 to 5; face detection stands by itself.
common_step : List ℕ → Option ℕ → ℕ → ℕ → Links × Option ℕ → Links × Option ℕ
unfolding has is_last add_unit ends_with
common_step types last s i (l, main) =
    if has i types && ltb i 6
    then (if i == 1
        then (add_unit previous (is_last last i) none s l, main)
        else (add_unit (ends_with (is_last last i)) (is_last last i) main s l, some l.made))
    else (l, main)

link_common : List ℕ → Option ℕ → ℕ → List ℕ → Links × Option ℕ → Links × Option ℕ
unfolding common_step
link_common types last s [] r = r
link_common types last s (i ∷ is) r = link_common types last s is (common_step types last s i r)

-- UVC and Raw have their own types of buffers.
stream_buf_type : ℕ → Bool → PostProcBufType
unfolding ends_with
stream_buf_type i last = if i == 20 then internal else if i == 21 then previous else ends_with last

-- The switch of the stream units makes one for the shifts 17 to 22.
stream_step : List ℕ → Option ℕ → ℕ → ℕ → Links × Option ℕ → Links × Option ℕ
unfolding has is_last add_unit stream_buf_type
stream_step types last s i (l, main) =
    if has i types && ltb i 23
    then (add_unit (stream_buf_type i (is_last last i)) (is_last last i) main s l, some l.made)
    else (l, main)

pub link_stream : List ℕ → Option ℕ → ℕ → List ℕ → Links × Option ℕ → Links × Option ℕ
unfolding stream_step
link_stream types last s [] r = r
link_stream types last s (i ∷ is) r = link_stream types last s is (stream_step types last s i r)

pub link_streams : Option ℕ → List (ℕ × List ℕ) → Links → Links
unfolding link_stream find_last
link_streams main [] l = l
link_streams main ((s, types) ∷ entries) l =
    link_streams main entries
      (link_stream types (find_last types stream_shifts none) s stream_shifts (l, main)).0

last_common : List (ℕ × List ℕ) → List ℕ → Option ℕ
unfolding find_last all_types no_types
last_common entries common =
    if no_types (all_types entries) then find_last common common_shifts none else none

link_all : List (ℕ × List ℕ) → List ℕ → ℕ → Links → Links
unfolding link_common link_streams last_common
link_all entries common s l =
    let r = link_common common (last_common entries common) s common_shifts (l, none) in
    link_streams r.1 entries r.0

first_needs : List (ℕ × List ℕ) → Bool
unfolding buffer_needed no_types
first_needs [] = false
first_needs ((s, types) ∷ entries) = not (no_types (buffer_needed types))

link_prepared : List (ℕ × List ℕ) → List ℕ → ℕ → Bool → Links → Links × Bool
unfolding link_all first_needs
link_prepared entries common s syncs l = (
  link_all entries common s (record l { may_need_sync = syncs }),
  not (no_types (buffer_needed common)) || first_needs entries,
)

-- The links and needpostprocess. Without a stream the code reads the first entry of an empty vector.
unfoldable pub prepare_internal : PrepareAnswers → List PostStream → Links → Option (Links × Bool)
unfolding all_entries common_types copies_added link_prepared
prepare_internal a [] l = none
prepare_internal a (s ∷ ss) l =
    let common = common_types a (s ∷ ss) in
    some (
      link_prepared (copies_added (all_entries a (s ∷ ss)) common) common s.address
        (ltb 1 (length (s ∷ ss))) l)
