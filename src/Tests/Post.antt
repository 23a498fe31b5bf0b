-- ===== src/Tests/Post.antt =====
-- A post-processing unit on concrete input (psl/rkisp1/workers/PostProcessPipeline.cpp).
use hardware_rockchip_camera.Base.{
  ℕ, ◌+◌, ◌≡◌, refl, inl, inr, true, false, ◌==◌, if◌then◌else◌, All, List, [], ◌∷◌, ◌++◌, none,
  some, map, arith,
}
use hardware_rockchip_camera.Base.Signed.{pos}
use hardware_rockchip_camera.Post.Unit.{
  PostProcBuffer, PostProcBufType, internal, previous, external, PostProcessUnit, UnitAnswers,
  frame, output, round, construct_unit, unit_event, unit_events, notify_new_frame, set_process_sync,
  is_drained, process_round, start_unit,
}
use hardware_rockchip_camera.Post.Unit.Deliver.{AllDelivered, rounds, rounds-AllDelivered}
use hardware_rockchip_camera.Post.Unit.Forward.{passed, Ends, rounds-Ends}
use hardware_rockchip_camera.Post.Unit.Skipped.{IsStuck, skipped_buffer_blocks}
use hardware_rockchip_camera.Post.Pipeline.{
  PostProcessPipeline, FrameAnswers, handle_process_frame, add_sync,
}
use hardware_rockchip_camera.Post.Pipeline.Given.{takes_all, hand, for_unit, unit_of}
use hardware_rockchip_camera.Post.Pipeline.Outputs.{Known, units_of}
use hardware_rockchip_camera.Post.Pipeline.Outcome.{refused_frame_blocks}
use hardware_rockchip_camera.Post.Pipeline.Heard.{Outcome, handle_process_frame-Outcome}
use hardware_rockchip_camera.Post.Unit.Deliver.{Distinct}
use hardware_rockchip_camera.Post.Sync.{
  OutputBuffersHandler, Output, is_output, add_sync_buffers_if_need, handle_outputs,
}
use hardware_rockchip_camera.Post.Sync.Together.{notices_of, sync_buffers_go_together}

abbrev buffer : ℕ → PostProcBuffer
buffer n = record { cambuf = 100 + n; request_id = n }

abbrev unit_answers : UnitAnswers
unit_answers = record {
  process_frame = λ b o s. pos 0;
  listeners = λ n. pos 0;
  fence_signaled = λ o. true;
  internal_buffer = λ s. some (buffer (50 + s));
}

abbrev unit_with :
    PostProcBufType → List (PostProcBuffer × ℕ) → List PostProcBuffer → PostProcessUnit
unit_with t ins outs = record {
  buf_type = t;
  enable = true;
  sync_process = false;
  thread_running = true;
  in_buffers = ins;
  out_buffers = outs;
  cur_in = none;
  cur_settings = none;
  cur_out = none;
  notices = [];
}

abbrev three_frames : List (PostProcBuffer × ℕ)
three_frames = (buffer 3, 3) ∷ (buffer 4, 4) ∷ (buffer 5, 5) ∷ []

abbrev filling : PostProcessUnit
filling = unit_with external three_frames (buffer 3 ∷ buffer 5 ∷ [])

rounds-AllDelivered_example : AllDelivered filling (rounds unit_answers 3 filling)
rounds-AllDelivered_example =
    rounds-AllDelivered unit_answers filling (λ b o s. refl)
      (record { fills_streams = refl; running = refl; no_output = refl })
      (
        (λ e. omega (arith, e), (λ e. omega (arith, e), tt)),
        ((λ e. omega (arith, e), tt), (tt, tt)),
      )
      (inl (refl, inr (inl (refl, tt))))

abbrev passing_unit : PostProcessUnit
passing_unit = unit_with internal three_frames []

rounds-Ends_example :
    Ends
      ([] ++ map (passed unit_answers internal) three_frames)
      (rounds unit_answers 3 passing_unit)
rounds-Ends_example =
    rounds-Ends unit_answers passing_unit (λ b o s. refl)
      (record { not_external = inl refl; running = refl; no_output = refl })

-- The frame of request 2 never came.
abbrev stuck_unit : PostProcessUnit
stuck_unit = unit_with external ((buffer 3, 3) ∷ []) (buffer 2 ∷ buffer 3 ∷ [])

skipped_buffer_blocks_example :
    IsStuck (buffer 2) (
      unit_events unit_answers
        (round ∷ output (buffer 4) ∷ frame (buffer 4) 4 (pos 0) ∷ round ∷ [])
        stuck_unit)
    × ((unit_events unit_answers
          (round ∷ output (buffer 4) ∷ frame (buffer 4) 4 (pos 0) ∷ round ∷ [])
          stuck_unit).notices
        ≡ [])
skipped_buffer_blocks_example =
    skipped_buffer_blocks unit_answers (buffer 2)
      (round ∷ output (buffer 4) ∷ frame (buffer 4) 4 (pos 0) ∷ round ∷ []) stuck_unit
      (record {
        unit_ready = record { fills_streams = refl; running = refl; no_output = refl };
        enabled = refl;
        asynchronous = refl;
        behind = buffer 3 ∷ [];
        first = refl;
        unmatched = (λ e. omega (arith, e), tt);
      })
      (tt, (tt, (λ e. omega (arith, e), (tt, tt))))

-- A unit that took a frame of a later request is never drained.
not_drained : is_drained (unit_event unit_answers round stuck_unit) ≡ false
unfolding is_drained unit_event process_round
not_drained = refl

-- A frame for a synchronous unit leaves its caller waiting.
synchronous_waits :
    notify_new_frame unit_answers
      (buffer 3)
      3
      (pos 0)
      (set_process_sync true (start_unit (construct_unit internal)))
    ≡ none
unfolding notify_new_frame set_process_sync start_unit construct_unit
synchronous_waits = refl

abbrev syncing : OutputBuffersHandler
syncing = record {
  may_need_sync = true;
  item_of = λ c. none;
  items = λ i. record { sync_buffers = []; sync_nums = pos 0 };
  told = [];
}

abbrev two_outputs : List PostProcBuffer
two_outputs = buffer 1 ∷ buffer 2 ∷ []

abbrev done_with : ℕ → Output
done_with n = record { buffer = buffer n; settings = some 7; err = pos 0 }

is_output-two :
    (is_output (buffer 1) two_outputs ≡ true) × (is_output (buffer 2) two_outputs ≡ true)
unfolding is_output
is_output-two = (refl, refl)

-- The second buffer is done first.
sync_buffers_go_together_example :
    let h' = add_sync_buffers_if_need 9 true (buffer 1) two_outputs syncing in
    ((handle_outputs (done_with 2 ∷ []) h').told ≡ [])
    × ((handle_outputs ((done_with 2 ∷ []) ++ done_with 1 ∷ []) h').told
        ≡ [] ++ notices_of (done_with 1) two_outputs)
sync_buffers_go_together_example =
    sync_buffers_go_together 9 (buffer 1) two_outputs syncing refl (omega arith) is_output-two.0
      (done_with 2 ∷ []) (done_with 1) (((λ e. omega (arith, e)), tt), (tt, tt))
      (is_output-two.1, (is_output-two.0, tt)) refl

-- A unit that copies, for stream 10, and the Raw unit, for stream 20.
abbrev two_units : ℕ → PostProcessUnit
two_units n = if n == 2 then unit_with previous [] [] else unit_with external [] []

abbrev raw_and_copy : PostProcessPipeline
raw_and_copy = record {
  units = two_units;
  first_level = 1 ∷ 2 ∷ [];
  stream_units = λ s. some (if s == 20 then 2 else 1);
  handler = syncing;
}

abbrev raw_buffer : PostProcBuffer
raw_buffer = record { cambuf = 200; request_id = 3 }

abbrev frame_answers : FrameAnswers
frame_answers = record {
  stream_of = λ o. some (if o.cambuf == 200 then 20 else 10);
  has_handle = true;
  sync_item = 9;
}

abbrev frame_outputs : List PostProcBuffer
frame_outputs = buffer 3 ∷ raw_buffer ∷ []

Known-frame_outputs : All (Known frame_answers raw_and_copy) frame_outputs
Known-frame_outputs = (inr (10, 1, refl, refl), (inr (20, 2, refl, refl), tt))

first_apart : Distinct (1 ∷ 2 ∷ [])
first_apart = ((λ e. omega (arith, e), tt), (tt, tt))

abbrev two_copies : PostProcessPipeline
two_copies = let p = raw_and_copy in record p { units = λ n. unit_with external [] [] }

Known-two_copies : All (Known frame_answers two_copies) frame_outputs
Known-two_copies = (inr (10, 1, refl, refl), (inr (20, 2, refl, refl), tt))

-- Both units take their buffers.
handle_process_frame-Outcome_example :
    let queued = hand (units_of frame_answers two_copies) frame_outputs two_copies in
    Outcome unit_answers raw_buffer 3
      (takes_all (units_of frame_answers two_copies) two_copies.units frame_outputs)
      queued
      (add_sync frame_answers raw_buffer frame_outputs queued)
      (handle_process_frame unit_answers frame_answers raw_buffer 3 frame_outputs two_copies)
handle_process_frame-Outcome_example =
    handle_process_frame-Outcome unit_answers frame_answers raw_buffer 3 frame_outputs two_copies
      Known-two_copies first_apart

raw_refused : takes_all (units_of frame_answers raw_and_copy) two_units frame_outputs ≡ false
unfolding takes_all unit_of
raw_refused = refl

copied : for_unit (units_of frame_answers raw_and_copy) 1 frame_outputs ≡ buffer 3 ∷ []
unfolding for_unit unit_of
copied = refl

-- The frame of request 4 comes later.
refused_frame_blocks_example :
    (handle_process_frame unit_answers frame_answers raw_buffer 3 frame_outputs raw_and_copy
      ≡ some (hand (units_of frame_answers raw_and_copy) frame_outputs raw_and_copy, false))
    × (let u = (hand (units_of frame_answers raw_and_copy) frame_outputs raw_and_copy).units 1 in
        IsStuck (buffer 3) (unit_events unit_answers (frame (buffer 4) 4 (pos 0) ∷ round ∷ []) u)
        × ((unit_events unit_answers (frame (buffer 4) 4 (pos 0) ∷ round ∷ []) u).notices ≡ []))
refused_frame_blocks_example =
    refused_frame_blocks unit_answers frame_answers raw_buffer 3 frame_outputs raw_and_copy
      Known-frame_outputs 1 (buffer 3) [] (frame (buffer 4) 4 (pos 0) ∷ round ∷ []) raw_refused
      copied
      (record {
        unit_ready = record { fills_streams = refl; running = refl; no_output = refl };
        enabled = refl;
        asynchronous = refl;
        no_outputs = refl;
        unmatched = tt;
      })
      ((λ e. omega (arith, e)), (tt, tt))
