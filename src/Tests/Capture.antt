-- ===== src/Tests/Capture.antt =====
-- Capture requests on concrete input (AAL/RequestThread.cpp, AAL/Camera3Request.cpp).
use mathlib.Core.List.Perm
use hardware_rockchip_camera.Base.{
  ℕ, ◌+◌, ◌≡◌, refl, inr, true, false, List, [], ◌∷◌, ◌++◌, Option, none, some, arith,
}
use hardware_rockchip_camera.Base.Signed.{ℤ, pos}
use hardware_rockchip_camera.Status.{Status, ok}
use hardware_rockchip_camera.Pool.Items.{ItemPool, empty_pool, addresses}
use hardware_rockchip_camera.Pool.Items.{init as init_pool}
use hardware_rockchip_camera.Pool.Items.Owned.{init-Owns}
use hardware_rockchip_camera.Capture.Stream.{Heap, area, stream3_of}
use hardware_rockchip_camera.Capture.Request.{
  StreamBuffer, CaptureRequest, Camera3Request, insert_stream, check_output_streams, init,
  is_any_buf_active,
}
use hardware_rockchip_camera.Capture.Request.Order.{Listed, priv_streams, output_streams_sorted}
use hardware_rockchip_camera.Capture.Request.Outcomes.{Outcome, init-Outcome}
use hardware_rockchip_camera.Capture.Thread.{
  BlockAction, wait_all_previous, RequestThread, Answers, accepted,
  are_all_streams_under_max_buffers, handle_process_capture_request, recycle_request,
}
use hardware_rockchip_camera.Capture.Thread.Loop.{
  handle_return_request, check_blocked, uncount, flush_done,
}
use hardware_rockchip_camera.Capture.Thread.Books.{Books}
use hardware_rockchip_camera.Capture.Thread.Process.{
  IsConfigured, Processed, handle_process_capture_request-Processed,
}
use hardware_rockchip_camera.Capture.Thread.Replies.{Sends, Tells}
use hardware_rockchip_camera.Capture.Thread.Fences.{AllHold}
use hardware_rockchip_camera.Capture.Thread.Held.{KeepsHolding}
use hardware_rockchip_camera.Capture.Thread.Return.{handle_return_request-Books}
use hardware_rockchip_camera.Capture.Thread.Configure.{HwAnswers, handle_configure_streams}
use hardware_rockchip_camera.Capture.Thread.Configure.InStep.{
  InStep, Configured, handle_configure_streams-Configured,
}
use hardware_rockchip_camera.Capture.Hal.{all_set, listed_streams, configure_streams}
use hardware_rockchip_camera.Capture.Hal.Configured.{Answered, configure_streams-Answered}
use hardware_rockchip_camera.Capture.Thread.Told.{run_returns, blocked_caller_is_told}

-- The stream at the address n is the n-th and n pixels wide.
abbrev heap : Heap
heap = record {
  stream3s = λ n. record {
    stream_type = 0;
    width = n;
    height = 10;
    format = 34;
    usage = 0;
    max_buffers = 4;
    priv = some n;
  };
  streams = λ n. record {
    active = true;
    seq_no = n;
    stream_type = none;
    output_buffers_in_hal = pos 0;
    stream3 = n;
    pending_requests = [];
    has_producer = true;
  };
}

abbrev frame : ℕ → StreamBuffer
frame n = record { stream = n; handle = 50 + n }

abbrev three_frames : List StreamBuffer
three_frames = frame 2 ∷ frame 7 ∷ frame 2 ∷ []

largest_first : check_output_streams heap three_frames [] ≡ (7 ∷ 2 ∷ [], ok)
unfolding check_output_streams insert_stream area stream3_of
largest_first = refl

output_streams_sorted_example :
    Listed heap three_frames [] (check_output_streams heap three_frames [])
output_streams_sorted_example = output_streams_sorted heap three_frames (λ s t e. e)

abbrev idle_request : Camera3Request
idle_request = record {
  initialized = false;
  request_id = 0;
  out_buffers = [];
  in_buffers = [];
  in_streams = [];
  out_streams = [];
  output_buffers = [];
  input_buffer = none;
  buffers_per_format = [];
  settings = none;
  error = false;
  metadata_filled = false;
}

abbrev still : CaptureRequest
still = record {
  frame_number = 5;
  settings = some 40;
  input_buffer = none;
  output_buffers = three_frames;
}

abbrev registers : ℕ → ℤ
registers n = pos 0

init-Outcome_example :
    Outcome heap still true idle_request (init registers ok true still (some 40) heap idle_request)
init-Outcome_example = init-Outcome registers ok true still (some 40) heap idle_request

abbrev answers : Answers
answers = record {
  register_request = λ x. ok;
  produce = λ s x. ok;
  hardware = λ x n. accepted;
  fence_wait = λ b. pos 0;
  register_buffer = registers;
  init_partial = λ x. ok;
}

abbrev thread : ItemPool → ℤ → Option ℕ → Option BlockAction → RequestThread
thread pool number waiting block = record {
  requests_pool = pool;
  requests_in_hal = number;
  flushing = false;
  waiting_request = waiting;
  block_action = block;
  last_settings = none;
  active_request = [];
  pipeline_depth = 4;
  streams = 2 ∷ 7 ∷ [];
  local_streams = 2 ∷ 7 ∷ [];
  stream_seq_no = 8;
  heap = heap;
  requests = λ x. idle_request;
}

abbrev idle : RequestThread
idle = thread (init_pool empty_pool 100 2) (pos 0) none none

idle-Books : Books idle []
idle-Books = record {
  owns = init-Owns empty_pool 100 2 (λ e. omega (arith, e)) (inr refl);
  counted = refl;
  parked = λ e. refl;
}

still-IsConfigured : IsConfigured heap still
unfolding priv_streams
still-IsConfigured = record { outputs = λ e. cc; input = λ b e. cc }

handle_process_capture_request-Processed_example :
    Processed [] (handle_process_capture_request answers still idle)
handle_process_capture_request-Processed_example =
    handle_process_capture_request-Processed answers still idle [] idle-Books refl
      still-IsConfigured

-- Request 100 is with the hardware, and request 101 waits for it.
abbrev all_out : ItemPool
all_out = record { allocated_items = 100; pool_size = 2; items_in_pool = []; initialized = true }

abbrev waiting : RequestThread
waiting = thread all_out (pos 2) (some 101) (some wait_all_previous)

waiting-Books : Books waiting (100 ∷ [])
unfolding addresses
waiting-Books = record {
  owns = record { allocated = λ e. omega (arith, e); all_there = Perm.rfl };
  counted = refl;
  parked = λ e. cc;
}

-- Request 100 is with the hardware, and request 101 is kept: both hold a fence.
abbrev fenced : RequestThread
fenced =
    let t = thread all_out (pos 1) none none in
    record t {
      active_request = 101 ∷ [];
      requests = λ x. record idle_request {
        output_buffers =
            record { owner = 2; request_id = 1; registered = true; fence_active = true } ∷ [];
      };
    }

fenced-Books : Books fenced (100 ∷ [])
unfolding addresses
fenced-Books = record {
  owns = record { allocated = λ e. omega (arith, e); all_there = Perm.rfl };
  counted = refl;
  parked = λ e. refl;
}

handle_return_request-Books_example :
    (extra : List ℕ) × Sends fenced (handle_return_request answers 100 fenced).0 extra
    × Books (handle_return_request answers 100 fenced).0 ([] ++ extra)
    × AllHold (handle_return_request answers 100 fenced).0
    × KeepsHolding fenced 100 (handle_return_request answers 100 fenced).0
handle_return_request-Books_example =
    handle_return_request-Books answers 100 [] [] fenced fenced-Books

-- Both are kept.
kept_both : (handle_return_request answers 100 fenced).0.active_request ≡ 101 ∷ 100 ∷ []
unfolding handle_return_request recycle_request is_any_buf_active check_blocked uncount flush_done
kept_both = refl

has_room :
    are_all_streams_under_max_buffers (record (run_returns answers [] waiting).0 { heap = heap })
    ≡ true
unfolding are_all_streams_under_max_buffers run_returns
has_room = refl

blocked_caller_is_told_example :
    (status : Status) × Tells status (run_returns answers ((100, heap) ∷ []) waiting).1
blocked_caller_is_told_example =
    blocked_caller_is_told answers [] 100 heap waiting wait_all_previous (λ w k e. cc) waiting-Books
      refl has_room

abbrev hw_answers : HwAnswers
hw_answers = record { config_streams = ok; bind_streams = ok; allocate = λ n. 100 + n }

idle-InStep : InStep idle
idle-InStep = record {
  aligned = (refl, (refl, tt));
  distinct = ((λ e. omega (arith, e), tt), (tt, tt));
}

-- Stream 7 is not listed and is deleted.
handle_configure_streams-Configured_example :
    Configured hw_answers idle (2 ∷ []) (handle_configure_streams answers hw_answers (2 ∷ []) idle)
handle_configure_streams-Configured_example =
    handle_configure_streams-Configured answers hw_answers (2 ∷ []) idle idle-InStep

abbrev pointers : Option (Option (List (Option ℕ)))
pointers = some (some (some 2 ∷ some 7 ∷ []))

configure_streams-Answered_example :
    Answered hw_answers idle pointers (configure_streams answers hw_answers pointers idle)
configure_streams-Answered_example =
    configure_streams-Answered answers hw_answers pointers idle idle-InStep

null_stream : listed_streams (some (some (some 2 ∷ none ∷ []))) ≡ none
unfolding listed_streams all_set
null_stream = refl
