-- ===== src/Tests/Devices.antt =====
-- Polling and formats on concrete input (common/PollerThread.cpp, common/v4l2dev).
use hardware_rockchip_camera.Base.{ℕ, ◌≡◌, refl, true, List, [], ◌∷◌, some, arith}
use hardware_rockchip_camera.Base.Signed.{pos}
use hardware_rockchip_camera.Poller.{PollAnswer, poll_devices, split_devices, has_event, is_flushed}
use hardware_rockchip_camera.Video.Buffer.{video_output_mplane, field}
use hardware_rockchip_camera.Video.Format.{
  V4L2Format, width, set_width, height, set_height, pixelformat, set_pixelformat, get_field,
  set_field, bytesperline, set_bytesperline, sizeimage, set_sizeimage,
}
use hardware_rockchip_camera.Video.Format.Access.{format_round_trip}
use mathlib.Core.Option.{map}

-- The second of two devices has data (POLLIN).
abbrev second_ready : PollAnswer
second_ready = record { ret = pos 1; revents = λ i. i; flush_revents = 0 }

abbrev two_devices : List ℕ
two_devices = 30 ∷ 31 ∷ []

second_is_active :
    poll_devices two_devices [] [] true 3 second_ready
    ≡ record { active = 31 ∷ []; inactive = 30 ∷ []; ret = pos 1 }
unfolding poll_devices split_devices has_event is_flushed
second_is_active = refl

abbrev timeout : PollAnswer
timeout = record { ret = pos 0; revents = λ i. 0; flush_revents = 0 }

-- The lists of the poll before are still there after a timeout.
lists_are_stale :
    poll_devices two_devices (30 ∷ []) (31 ∷ []) true 3 timeout
    ≡ record { active = 30 ∷ []; inactive = 31 ∷ []; ret = pos 0 }
unfolding poll_devices
lists_are_stale = refl

abbrev two_planes : V4L2Format
two_planes = record {
  type = video_output_mplane;
  pix = record {
    width = 0;
    height = 0;
    pixelformat = 0;
    field = 0;
    bytesperline = 0;
    sizeimage = 0;
  };
  pix_mp = record {
    width = 640;
    height = 480;
    pixelformat = 5;
    field = 1;
    num_planes = 2;
    plane_fmt = λ i. record { bytesperline = 640; sizeimage = 307200 };
  };
  meta = record { dataformat = 0; buffersize = 0 };
}

format_round_trip_example :
    (width (set_width 800 two_planes) ≡ field 800)
    × (height (set_height 800 two_planes) ≡ field 800)
    × (pixelformat (set_pixelformat 800 two_planes) ≡ field 800)
    × (get_field (set_field 800 two_planes) ≡ field 800)
    × (map (bytesperline 1) (set_bytesperline 800 1 two_planes) ≡ some (field 800))
    × (map (sizeimage 1) (set_sizeimage 800 1 two_planes) ≡ some (field 800))
format_round_trip_example =
    format_round_trip two_planes 800 1 refl refl
      (record { in_format = λ e. omega arith; in_array = omega arith })
