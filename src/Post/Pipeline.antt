-- ===== src/Post/Pipeline.antt =====
-- PostProcessPipeLine of psl/rkisp1/workers/PostProcessPipeline.cpp and .h: a frame with its output
-- buffers on the way to the units. Units and streams go by their addresses. A result of none is a
-- call through nullptr, or a thread that waits for a synchronous unit. Statuses are joined by |, and
-- the flag in a result tells whether all of them are OK.
pub mod Given
pub mod Outputs
pub mod Outcome
pub mod Heard
use mathlib.Core.Option
use hardware_rockchip_camera.Base.{
  ℕ, Bool, true, false, ◌&&◌, List, [], ◌∷◌, Option, none, some, ◌==◌, if◌then◌else◌,
}
use hardware_rockchip_camera.Base.Signed.{ℤ, pos, eqb_ℤ}
use hardware_rockchip_camera.Status.{Status, is_ok}
use hardware_rockchip_camera.Post.Unit.{
  PostProcBuffer, PostProcessUnit, UnitAnswers, add_output_buffer, notify_new_frame, start_unit,
}
use hardware_rockchip_camera.Post.Sync.{OutputBuffersHandler, add_sync_buffers_if_need, set_entry}

-- mPostProcUnits by address, the first level of mPostProcUnitArray, mStreamToProcUnitMap and
-- mOutputBuffersHandler.
pub record PostProcessPipeline : Type 0 where
  pub units : ℕ → PostProcessUnit
  pub first_level : List ℕ
  pub stream_units : ℕ → Option ℕ
  pub handler : OutputBuffersHandler

set_unit : ℕ → PostProcessUnit → PostProcessPipeline → PostProcessPipeline
unfolding set_entry
set_unit n u p = record p { units = set_entry n u p.units }

-- What the calls see of a frame's buffers: the stream of a buffer's owner (none without a buffer or
-- an owner's stream), whether the frame's buffer has a handle, and the address of a new syncItem.
pub record FrameAnswers : Type 0 where
  pub stream_of : PostProcBuffer → Option ℕ
  pub has_handle : Bool
  pub sync_item : ℕ

output_added : ℕ → PostProcessPipeline → PostProcessUnit × Status → PostProcessPipeline × Bool
unfolding set_unit
output_added n p (u, status) = (set_unit n u p, is_ok status)

output_to : PostProcBuffer → PostProcessPipeline → Option ℕ → Option (PostProcessPipeline × Bool)
unfolding output_added
output_to o p none = none
output_to o p (some n) = some (output_added n p (add_output_buffer o (p.units n)))

add_one_output :
    Option ℕ → PostProcBuffer → PostProcessPipeline → Option (PostProcessPipeline × Bool)
unfolding output_to
add_one_output none o p = some (p, true)
add_one_output (some s) o p = output_to o p (p.stream_units s)

pub add_output_buffers :
    FrameAnswers → List PostProcBuffer → PostProcessPipeline → Option (PostProcessPipeline × Bool)
unfolding add_one_output
add_output_buffers f [] p = some (p, true)
add_output_buffers f (o ∷ os) p = elim (add_one_output (f.stream_of o) o p) [
  | none ↦ none
  | some (p', fine) ↦ Option.map (λ r. (r.0, fine && r.1)) (add_output_buffers f os p')
]

-- The frame goes to each unit of the first level.
pub notify_units :
    UnitAnswers
    → PostProcBuffer
    → ℕ
    → List ℕ
    → PostProcessPipeline
    → Option (PostProcessPipeline × Bool)
unfolding set_unit
notify_units a b s [] p = some (p, true)
notify_units a b s (n ∷ ns) p = elim (notify_new_frame a b s (pos 0) (p.units n)) [
  | none ↦ none
  | some (u, status) ↦
      Option.map (λ r. (r.0, eqb_ℤ status (pos 0) && r.1)) (notify_units a b s ns (set_unit n u p))
]

pub add_sync :
    FrameAnswers → PostProcBuffer → List PostProcBuffer → PostProcessPipeline → PostProcessPipeline
add_sync f b outs p = record p {
  handler = add_sync_buffers_if_need f.sync_item f.has_handle b outs p.handler;
}

pub frame_for :
    UnitAnswers
    → FrameAnswers
    → PostProcBuffer
    → ℕ
    → List PostProcBuffer
    → PostProcessPipeline × Bool
    → Option (PostProcessPipeline × Bool)
unfolding add_sync
frame_for a f b s outs (p, true) = notify_units a b s p.first_level (add_sync f b outs p)
frame_for a f b s outs (p, false) = some (p, false)

-- handleProcessFrame, with the settings' request `s`.
pub handle_process_frame :
    UnitAnswers
    → FrameAnswers
    → PostProcBuffer
    → ℕ
    → List PostProcBuffer
    → PostProcessPipeline
    → Option (PostProcessPipeline × Bool)
unfolding frame_for
handle_process_frame a f b s outs p = elim (add_output_buffers f outs p) [
  | none ↦ none
  | some r ↦ frame_for a f b s outs r
]
