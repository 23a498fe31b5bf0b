-- ===== src/Tests/Links.antt =====
-- Linked units on concrete input (psl/rkisp1/workers/PostProcessPipeline.cpp).
use hardware_rockchip_camera.Base.{
  ◌≡◌, ◌≢◌, refl, inl, inr, Bool, true, false, [], ◌∷◌, Option, none, some, ◌==◌, if◌then◌else◌,
  All, arith,
}
use hardware_rockchip_camera.Base.Signed.{pos}
use hardware_rockchip_camera.Post.Unit.{PostProcBuffer, UnitAnswers, internal, construct_unit}
use hardware_rockchip_camera.Post.Pipeline.{
  PostProcessPipeline, FrameAnswers, handle_process_frame, add_sync, notify_units,
}
use hardware_rockchip_camera.Post.Pipeline.Given.{hand}
use hardware_rockchip_camera.Post.Pipeline.Outputs.{units_of}
use hardware_rockchip_camera.Post.Types.{
  PostStream, PrepareAnswers, blob, implementation_defined, is_raw_stream,
}
use hardware_rockchip_camera.Post.Links.{Links, prepare_internal}
use hardware_rockchip_camera.Post.Links.Prepared.{NotRaw}
use hardware_rockchip_camera.Post.Links.Complete.{Prepares, prepare_internal-Prepares}
use hardware_rockchip_camera.Post.Links.Frames.{prepared_frames_go_on}

abbrev preview : PostStream
preview = record {
  address = 10;
  format = implementation_defined;
  stream_width = 1920;
  stream_height = 1080;
  is_output_stream = true;
  rotation = 0;
}

abbrev jpeg : PostStream
jpeg = record {
  address = 20;
  format = blob;
  stream_width = 640;
  stream_height = 480;
  is_output_stream = true;
  rotation = 0;
}

abbrev full_size : PrepareAnswers
full_size = record {
  raw_input = false;
  in_width = 1920;
  in_height = 1080;
  tuning_mode = false;
  zooms = true;
  chrome_board = false;
  mirrors = false;
  uvc = 99;
}

abbrev no_links : Links
no_links = record {
  made = 0;
  unit_at = λ n. construct_unit internal;
  listeners_of = λ n. [];
  first_units = [];
  middle_units = [];
  last_units = [];
  stream_units = λ s. none;
  may_need_sync = false;
}

NotRaw-streams : All NotRaw (preview ∷ jpeg ∷ [])
unfolding is_raw_stream
NotRaw-streams = (refl, (refl, tt))

apart_from_uvc : All (λ t. t.address ≢ 99) (preview ∷ jpeg ∷ [])
apart_from_uvc = ((λ e. omega (arith, e)), ((λ e. omega (arith, e)), tt))

prepare_internal-Prepares_example :
    Prepares (preview ∷ jpeg ∷ []) (prepare_internal full_size (preview ∷ jpeg ∷ []) no_links)
prepare_internal-Prepares_example =
    prepare_internal-Prepares full_size preview (jpeg ∷ []) no_links NotRaw-streams apart_from_uvc

abbrev links_of : Option (Links × Bool) → Links
links_of none = no_links
links_of (some (l, needs)) = l

abbrev two_streams : Links
two_streams = links_of (prepare_internal full_size (preview ∷ jpeg ∷ []) no_links)

prepare_internal-two_streams :
    prepare_internal full_size (preview ∷ jpeg ∷ []) no_links ≡ some (two_streams, true)
unfolding prepare_internal
prepare_internal-two_streams = refl

-- The zoom stands first; a copy, and behind an internal scaler the encoder, end the streams.
two_streams_levels :
    (two_streams.first_units ≡ 0 ∷ [])
    × (two_streams.middle_units ≡ 2 ∷ [])
    × (two_streams.last_units ≡ 1 ∷ 3 ∷ [])
    × (two_streams.stream_units 20 ≡ some 3)
unfolding prepare_internal
two_streams_levels = (refl, refl, refl, refl)

abbrev running_pipeline : PostProcessPipeline
running_pipeline = record {
  units = two_streams.unit_at;
  first_level = two_streams.first_units;
  stream_units = two_streams.stream_units;
  handler = record {
    may_need_sync = two_streams.may_need_sync;
    item_of = λ c. none;
    items = λ i. record { sync_buffers = []; sync_nums = pos 0 };
    told = [];
  };
}

abbrev jpeg_buffer : PostProcBuffer
jpeg_buffer = record { cambuf = 200; request_id = 3 }

abbrev preview_buffer : PostProcBuffer
preview_buffer = record { cambuf = 103; request_id = 3 }

abbrev owners : FrameAnswers
owners = record {
  stream_of = λ o. some (if o.cambuf == 200 then 20 else 10);
  has_handle = true;
  sync_item = 9;
}

abbrev no_errors : UnitAnswers
no_errors = record {
  process_frame = λ b o s. pos 0;
  listeners = λ n. pos 0;
  fence_signaled = λ o. true;
  internal_buffer = λ s. none;
}

prepared_frames_go_on_example :
    handle_process_frame no_errors owners preview_buffer 3
      (preview_buffer ∷ jpeg_buffer ∷ [])
      running_pipeline
    ≡ notify_units no_errors preview_buffer 3 two_streams.first_units (
        add_sync owners preview_buffer (preview_buffer ∷ jpeg_buffer ∷ []) (
          hand
            (units_of owners running_pipeline)
            (preview_buffer ∷ jpeg_buffer ∷ [])
            running_pipeline))
prepared_frames_go_on_example =
    prepared_frames_go_on full_size preview (jpeg ∷ []) no_links two_streams true no_errors owners
      preview_buffer 3 (preview_buffer ∷ jpeg_buffer ∷ []) running_pipeline NotRaw-streams
      apart_from_uvc prepare_internal-two_streams
      (record { same_streams = refl; same_types = λ n. refl }) (inl refl, (inr (inl refl), tt))
