-- ===== src/Tests/Nodes.antt =====
-- V4L2VideoNode (common/v4l2dev/v4l2videonode.cpp) on concrete inputs.
use hardware_rockchip_camera.Base.{
  ℕ, ◌+◌, ◌%◌, ◌^◌, ◌≡◌, refl, true, false, List, [], ◌∷◌, some, arith,
}
use hardware_rockchip_camera.Base.Signed.{ℤ, pos, ◌+ℤ◌}
use hardware_rockchip_camera.Status.{Status, bad_index}
use hardware_rockchip_camera.PixelFormat.{nv12}
use hardware_rockchip_camera.Video.Buffer.{
  V4L2Buffer, video_capture, video_capture_mplane, cleared_buffer,
}
use hardware_rockchip_camera.Video.Node.{
  VideoNodeState, configured, prepared, started, V4L2VideoNode, V4L2BufferInfo, FrameInfo, start,
  stop, request_buffers,
}
use hardware_rockchip_camera.Video.Node.Pools.{failed, put_frame, grab_frame, new_buffer}
use hardware_rockchip_camera.Video.Node.Present.{Driver, set_buffer_pool_vector, create_buffer_pool}
use hardware_rockchip_camera.Video.Node.States.{
  Operation, set_vector, start_it, stop_it, put_it, run, Keeps, IsSound, run-Keeps,
}
use hardware_rockchip_camera.Video.Node.History.{run_all, stop_keeps_count, grab_frame-put_frame}
use hardware_rockchip_camera.Video.Node.Shown.{
  forget_node, forget_result, create_buffer_pool-forget,
}

-- A driver that takes every buffer as it is shown.
abbrev willing : Driver
willing _ b = record { ret = pos 0; filled = b }

abbrev frame_info : FrameInfo
frame_info = record { format = nv12; width = 64; height = 48; stride = 64; size = 4608 }

abbrev node : VideoNodeState → V4L2VideoNode
node state = record {
  is_open = true;
  state = state;
  config = frame_info;
  buffers_in_device = pos 0;
  frame_counter = 0;
  initial_skips = 0;
  set_buffer_pool = [];
  buffer_pool = [];
  buf_type = video_capture;
  memory_type = 1;
}

abbrev info : ℕ → V4L2BufferInfo
info address = record {
  user_data = address;
  length = 4608;
  width = 64;
  height = 48;
  format = nv12;
  cache_flags = 0;
  vbuffer = cleared_buffer;
}

-- A node that streams from a pool of two buffers.
abbrev streaming : V4L2VideoNode
streaming = let n = node started in record n { buffer_pool = info 10 ∷ info 20 ∷ [] }

-- A node whose client gave two addresses.
abbrev given : V4L2VideoNode
given = let n = node prepared in record n { set_buffer_pool = info 10 ∷ info 20 ∷ [] }

abbrev two_buffers : List V4L2Buffer
two_buffers = cleared_buffer ∷ cleared_buffer ∷ []

-- A node for buffers with several planes.
abbrev mplane_node : VideoNodeState → V4L2VideoNode
mplane_node state = let n = node state in record n { buf_type = video_capture_mplane }

-- A driver that tells the length of the first plane.
abbrev telling : Driver
telling i b = record {
  ret = pos 0;
  filled = record b { planes = record { bytesused = 0; length = 100 + i; m = 7 } ∷ [] };
}

abbrev presented_node : V4L2VideoNode
presented_node = (set_buffer_pool_vector (node configured) two_buffers true 1 (pos 0) 2 willing).0

abbrev presented_mplane : V4L2VideoNode × Status × List V4L2Buffer
presented_mplane =
    set_buffer_pool_vector (mplane_node configured) two_buffers true 1 (pos 0) 2 telling

create_buffer_pool-forget_example :
    create_buffer_pool (forget_node given) 2 (pos 0) 2 willing
    ≡ forget_result (create_buffer_pool given 2 (pos 0) 2 willing)
create_buffer_pool-forget_example = create_buffer_pool-forget given 2 (pos 0) 2 willing

abbrev begun : V4L2VideoNode
begun = (start given 0 (pos 0)).0

begins : run (start_it 0 (pos 0)) given ≡ some begun
unfolding run
begins = refl

begun_started : begun.state ≡ started
unfolding start
begun_started = refl

run-Keeps_example : Keeps (start_it 0 (pos 0)) given begun
run-Keeps_example = run-Keeps (start_it 0 (pos 0)) given begun begins

abbrev calls : List Operation
calls =
    set_vector two_buffers true 1 (pos 0) 2 willing
    ∷ start_it 0 (pos 0)
    ∷ put_it 1 (pos 0)
    ∷ stop_it false (pos 0)
    ∷ []

abbrev at_end : V4L2VideoNode
at_end = (stop (put_frame (start presented_node 0 (pos 0)).0 1 (pos 0)).0 false (pos 0)).0

calls_end : run_all calls (node configured) ≡ some at_end
unfolding run_all run
calls_end = refl

-- The pool is gone, and a buffer still counts as being in the device.
count_left : (at_end.buffer_pool ≡ []) × (at_end.buffers_in_device ≡ pos 1)
unfolding set_buffer_pool_vector new_buffer request_buffers start stop put_frame ◌+ℤ◌
count_left = (refl, refl)

node-IsSound : IsSound (node configured)
node-IsSound = record { file_open = refl; counter = omega arith }

stop_keeps_count_example :
    let stopped = (stop streaming false (pos 0)).0 in
    (stopped.state ≡ configured)
    × (stopped.buffers_in_device ≡ pos 0)
    × ((index : ℕ) (ret : ℤ) → put_frame stopped index ret ≡ (stopped, failed bad_index))
stop_keeps_count_example = stop_keeps_count streaming (pos 0) refl refl

grab_frame-put_frame_example :
    let (m, result) = grab_frame (put_frame streaming 1 (pos 0)).0 false (pos 0) 0 in
    (result ≡ pos 0)
    × (m.buffers_in_device ≡ pos 0)
    × (m.frame_counter ≡ 1 % 2 ^ 31)
    × (m.buffer_pool ≡ streaming.buffer_pool)
grab_frame-put_frame_example =
    grab_frame-put_frame streaming 1 0 0 0 refl (omega arith) (omega arith)
