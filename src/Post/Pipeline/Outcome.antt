-- ===== src/Post/Pipeline/Outcome.antt =====
-- What comes of a frame with output buffers (psl/rkisp1/workers/PostProcessPipeline.cpp).

use hardware_rockchip_camera.Base.{
  subst, sym, ap, ◌∙◌, ℕ, ◌≡◌, ◌≢◌, refl, Bool, true, false, List, [], ◌∷◌, Option, none, some, All,
  if◌then◌else◌,
}
use hardware_rockchip_camera.Post.Unit.{
  PostProcBuffer, PostProcessUnit, UnitAnswers, UnitEvent, unit_events,
}
use hardware_rockchip_camera.Post.Unit.Deliver.{IsReady, frame_requests}
use hardware_rockchip_camera.Post.Unit.Skipped.{IsStuck, Misses, skipped_buffer_blocks}
use hardware_rockchip_camera.Post.Pipeline.{
  PostProcessPipeline, FrameAnswers, frame_for, handle_process_frame, add_sync, notify_units,
}
use hardware_rockchip_camera.Post.Pipeline.Given.{for_unit, takes_all, hand}
use hardware_rockchip_camera.Post.Pipeline.Outputs.{
  units_of, Known, add_output_buffers-hand, hand-first,
}

-- A unit with no output buffer and no frame of a request.
pub record Idles (request : ℕ) (u : PostProcessUnit) : Type 0 where
  pub unit_ready : IsReady u
  pub enabled : u.enable ≡ true
  pub asynchronous : u.sync_process ≡ false
  pub no_outputs : u.out_buffers ≡ []
  pub unmatched : All (λ t. t ≢ request) (frame_requests u.in_buffers)

Idles-Stuck :
    (o : PostProcBuffer) (behind : List PostProcBuffer) (u : PostProcessUnit)
    → Idles o.request_id u
    → IsStuck o (record u { out_buffers = o ∷ behind })
Idles-Stuck o behind u k = record {
  unit_ready = record {
    fills_streams = k.unit_ready.fills_streams;
    running = k.unit_ready.running;
    no_output = k.unit_ready.no_output;
  };
  enabled = k.enabled;
  asynchronous = k.asynchronous;
  behind = behind;
  first = refl;
  unmatched = k.unmatched;
}

module _ (a : UnitAnswers) (f : FrameAnswers) (b : PostProcBuffer) (s : ℕ)
    (outs : List PostProcBuffer) where
  frame_for-if :
      (t : Bool) (p : PostProcessPipeline)
      → frame_for a f b s outs (p, t)
        ≡ (if t then notify_units a b s p.first_level (add_sync f b outs p) else some (p, false))
  unfolding frame_for
  frame_for-if true p = refl
  frame_for-if false p = refl

module _ (a : UnitAnswers) (f : FrameAnswers) (b : PostProcBuffer) (s : ℕ)
    (outs : List PostProcBuffer) (p : PostProcessPipeline) (known : All (Known f p) outs) where
  -- Where each stream of the output buffers has a unit, each buffer is queued at the unit of its stream, if that unit takes buffers, in the order of the frame's; the frame goes to the units of the first level when all of these units take buffers, and to no unit otherwise.
  pub handle_process_frame-hand : handle_process_frame a f b s outs p ≡ (
      if takes_all (units_of f p) p.units outs
      then notify_units a b s p.first_level (add_sync f b outs (hand (units_of f p) outs p))
      else some (hand (units_of f p) outs p, false))
  unfolding handle_process_frame hand
  handle_process_frame-hand =
      ap
        (λ (r : Option (PostProcessPipeline × Bool)).
          elim r as (λ _. Option (PostProcessPipeline × Bool)) [
            | none ↦ none
            | some q ↦ frame_for a f b s outs q
          ])
        (add_output_buffers-hand f outs p known)
      ∙ frame_for-if a f b s outs (takes_all (units_of f p) p.units outs)
          (hand (units_of f p) outs p)

  -- Where each stream of a frame's output buffers has a unit and one of these units takes no buffers, the frame goes to no unit, but each other unit keeps the buffers; and a unit that was ready, without output buffers and frames of the request, hands over no buffer any more, whatever happens to it, unless it gets a frame of that request.
  pub refused_frame_blocks :
      (n : ℕ) (o : PostProcBuffer) (behind : List PostProcBuffer) (es : List UnitEvent)
      → takes_all (units_of f p) p.units outs ≡ false
      → for_unit (units_of f p) n outs ≡ o ∷ behind
      → Idles o.request_id (p.units n)
      → All (Misses o) es
      → (handle_process_frame a f b s outs p ≡ some (hand (units_of f p) outs p, false))
        × (let u = (hand (units_of f p) outs p).units n in
            IsStuck o (unit_events a es u) × ((unit_events a es u).notices ≡ (p.units n).notices))
  refused_frame_blocks n o behind es refused mine k misses =
      let gets : (hand (units_of f p) outs p).units n
          ≡ record (p.units n) { out_buffers = o ∷ behind } =
        hand-first (units_of f p) outs p n k.unit_ready.fills_streams k.no_outputs
        ∙ (λ i. record (p.units n) { out_buffers = mine i }) in
      (
        handle_process_frame-hand ∙ rw refused refl,
        subst
            (λ u.
              IsStuck o (unit_events a es u) × ((unit_events a es u).notices ≡ (p.units n).notices))
            (sym gets)
            (skipped_buffer_blocks a o es (record (p.units n) { out_buffers = o ∷ behind })
              (Idles-Stuck o behind (p.units n) k) misses),
      )
