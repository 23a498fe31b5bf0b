-- ===== src/Post/Links/Frames.antt =====
-- Frames after prepare_internal (psl/rkisp1/workers/PostProcessPipeline.cpp).
use hardware_rockchip_camera.Base.{
  subst, ap, ◌∙◌, ℕ, ◌≡◌, ◌≢◌, refl, ◌⊎◌, inl, inr, Bool, true, false, ◌&&◌, List, [], ◌∷◌, some,
  All, if◌then◌else◌,
}
use hardware_rockchip_camera.Post.Unit.{PostProcBuffer, UnitAnswers, is_external}
use hardware_rockchip_camera.Post.Pipeline.{
  PostProcessPipeline, FrameAnswers, handle_process_frame, add_sync, notify_units,
}
use hardware_rockchip_camera.Post.Pipeline.Given.{accepts, takes_all, hand}
use hardware_rockchip_camera.Post.Pipeline.Outputs.{Known, units_of, units_of-some}
use hardware_rockchip_camera.Post.Pipeline.Outcome.{handle_process_frame-hand}
use hardware_rockchip_camera.Post.Types.{PostStream, PrepareAnswers}
use hardware_rockchip_camera.Post.Links.{Links, prepare_internal}
use hardware_rockchip_camera.Post.Links.Prepared.{NotRaw}
use hardware_rockchip_camera.Post.Links.Complete.{ServesAll, Prepares, prepare_internal-Prepares}

-- The buffer belongs to one of the streams.
abbrev pub BelongsTo : FrameAnswers → List PostStream → PostProcBuffer → Type 0
BelongsTo f [] o = ⊥
BelongsTo f (t ∷ ss) o = (f.stream_of o ≡ some t.address) ⊎ BelongsTo f ss o

-- A pipeline with the units of the links, which have been started and have worked.
pub record Runs (l : Links) (p : PostProcessPipeline) : Type 0 where
  pub same_streams : p.stream_units ≡ l.stream_units
  pub same_types : (n : ℕ) → (p.units n).buf_type ≡ (l.unit_at n).buf_type

module _ (f : FrameAnswers) (l : Links) (p : PostProcessPipeline) (runs : Runs l p) where
  buffer_goes :
      (ss : List PostStream) (o : PostProcBuffer)
      → ServesAll ss l
      → BelongsTo f ss o
      → Known f p o × (accepts (units_of f p o) p.units ≡ true)
  unfolding accepts
  buffer_goes [] o k none_there = elim none_there [ ]
  buffer_goes (t ∷ ss) o k (inl e) =
      let there : p.stream_units t.address ≡ some k.0.unit =
        ap (λ g. g t.address) runs.same_streams ∙ k.0.found in
      (
        inr (t.address, k.0.unit, e, there),
        ap (λ q. accepts q p.units) (units_of-some f o p t.address k.0.unit e there)
            ∙ ap is_external (runs.same_types k.0.unit ∙ k.0.takes),
      )
  buffer_goes (t ∷ ss) o k (inr rest) = buffer_goes ss o k.1 rest

  buffers_go :
      (ss : List PostStream) (outs : List PostProcBuffer)
      → ServesAll ss l
      → All (BelongsTo f ss) outs
      → All (Known f p) outs × (takes_all (units_of f p) p.units outs ≡ true)
  unfolding takes_all
  buffers_go ss [] k h = (tt, refl)
  buffers_go ss (o ∷ outs) k h =
      let (known, taken) = buffer_goes ss o k h.0 in
      let (all_known, all_taken) = buffers_go ss outs k h.1 in
      ((known, all_known), ap (λ b. b && takes_all (units_of f p) p.units outs) taken ∙ all_taken)

-- Once prepare_internal returned for streams of which none is raw and none is mUvc, and the pipeline runs the units that it linked, a frame with output buffers of these streams is never refused: its buffers are queued at the units of their streams, and it goes to the units of the first level.
pub prepared_frames_go_on :
    (c : PrepareAnswers) (s : PostStream) (ss : List PostStream) (l l' : Links) (needs : Bool)
    (a : UnitAnswers) (f : FrameAnswers) (b : PostProcBuffer) (settings : ℕ)
    (outs : List PostProcBuffer) (p : PostProcessPipeline)
    → All NotRaw (s ∷ ss)
    → All (λ t. t.address ≢ c.uvc) (s ∷ ss)
    → prepare_internal c (s ∷ ss) l ≡ some (l', needs)
    → Runs l' p
    → All (BelongsTo f (s ∷ ss)) outs
    → handle_process_frame a f b settings outs p
      ≡ notify_units a b settings p.first_level (add_sync f b outs (hand (units_of f p) outs p))
prepared_frames_go_on c s ss l l' needs a f b settings outs p raw apart e runs h =
    let k : ServesAll (s ∷ ss) l' =
      subst (Prepares (s ∷ ss)) e (prepare_internal-Prepares c s ss l raw apart) in
    let (known, taken) = buffers_go f l' p runs (s ∷ ss) outs k h in
    handle_process_frame-hand a f b settings outs p known
    ∙ ap
        (λ t.
          if t
          then notify_units a b settings p.first_level
              (add_sync f b outs (hand (units_of f p) outs p))
          else some (hand (units_of f p) outs p, false))
        taken
