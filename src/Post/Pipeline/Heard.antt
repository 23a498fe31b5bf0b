-- ===== src/Post/Pipeline/Heard.antt =====
-- The frame on its way to the units of the first level
-- (psl/rkisp1/workers/PostProcessPipeline.cpp).
use mathlib.Core.Option
use hardware_rockchip_camera.Base.{
  subst, sym, ap, ◌∙◌, ℕ, ◌≡◌, ◌≢◌, refl, ◌⊎◌, inl, inr, Bool, true, false, ◌&&◌, List, [], ◌∷◌,
  Option, none, some, All, Bool-cases, if◌then◌else◌, ne-==, ==-refl,
}
use hardware_rockchip_camera.Base.Signed.{ℤ, pos, eqb_ℤ}
use hardware_rockchip_camera.Post.Unit.{
  PostProcBuffer, PostProcessUnit, UnitAnswers, notify_new_frame,
}
use hardware_rockchip_camera.Post.Unit.Deliver.{Distinct}
use hardware_rockchip_camera.Post.Sync.{set_entry}
use hardware_rockchip_camera.Post.Pipeline.{
  PostProcessPipeline, FrameAnswers, set_unit, notify_units, add_sync, handle_process_frame,
}
use hardware_rockchip_camera.Post.Pipeline.Given.{takes_all, hand}
use hardware_rockchip_camera.Post.Pipeline.Outputs.{units_of, Known}
use hardware_rockchip_camera.Post.Pipeline.Outcome.{handle_process_frame-hand}

module _ (a : UnitAnswers) (b : PostProcBuffer) (s : ℕ) where
  -- What a unit makes of the frame.
  abbrev heard : PostProcessUnit → Option (PostProcessUnit × ℤ)
  heard u = notify_new_frame a b s (pos 0) u

  -- The unit at `n` got the frame with a status that is OK or not.
  abbrev Hears : (ℕ → PostProcessUnit) → (ℕ → PostProcessUnit) → ℕ → Bool → Type 0
  Hears units units' n fine =
      (status : ℤ) × (heard (units n) ≡ some (units' n, status)) × (fine ≡ eqb_ℤ status (pos 0))

  -- Each of the units got the frame, and `fine` tells whether all statuses are OK.
  abbrev AllHear : (ℕ → PostProcessUnit) → (ℕ → PostProcessUnit) → List ℕ → Bool → Type 0
  AllHear units units' [] fine = fine ≡ true
  AllHear units units' (n ∷ ns) fine =
      (one : Bool) × (rest : Bool) × Hears units units' n one
      × AllHear units units' ns rest
      × (fine ≡ (one && rest))

  -- One of the units makes its caller wait.
  abbrev SomeWaits : (ℕ → PostProcessUnit) → List ℕ → Type 0
  SomeWaits units [] = ⊥
  SomeWaits units (n ∷ ns) = (heard (units n) ≡ none) ⊎ SomeWaits units ns

  -- The frame went to each of the units in `ns`, and nothing else changed.
  abbrev pub FrameHeard :
      List ℕ → PostProcessPipeline → Option (PostProcessPipeline × Bool) → Type 0
  FrameHeard ns p none = SomeWaits p.units ns
  FrameHeard ns p (some (p', fine)) =
      AllHear p.units p'.units ns fine
      × ((m : ℕ) → All (λ n. n ≢ m) ns → p'.units m ≡ p.units m)
      × (p' ≡ record p { units = p'.units })

  other_unit :
      (n m : ℕ) (u : PostProcessUnit) (units : ℕ → PostProcessUnit)
      → m ≢ n
      → set_entry n u units m ≡ units m
  unfolding set_entry
  other_unit n m u units apart = ap (λ t. if t then u else units m) (ne-== m n apart)

  this_unit :
      (n : ℕ) (u : PostProcessUnit) (units : ℕ → PostProcessUnit) → set_entry n u units n ≡ u
  unfolding set_entry
  this_unit n u units = ap (λ t. if t then u else units n) (==-refl n)

  SomeWaits-other :
      (n : ℕ) (u : PostProcessUnit) (units : ℕ → PostProcessUnit) (ns : List ℕ)
      → All (λ m. m ≢ n) ns
      → SomeWaits (set_entry n u units) ns
      → SomeWaits units ns
  SomeWaits-other n u units [] apart w = w
  SomeWaits-other n u units (m ∷ ns) apart (inl e) =
      inl (ap heard (sym (other_unit n m u units apart.0)) ∙ e)
  SomeWaits-other n u units (m ∷ ns) apart (inr w) = inr (SomeWaits-other n u units ns apart.1 w)

  AllHear-other :
      (n : ℕ) (u : PostProcessUnit) (units units' : ℕ → PostProcessUnit) (ns : List ℕ) (fine : Bool)
      → All (λ m. m ≢ n) ns
      → AllHear (set_entry n u units) units' ns fine
      → AllHear units units' ns fine
  AllHear-other n u units units' [] fine apart h = h
  AllHear-other n u units units' (m ∷ ns) fine apart (one, rest, (status, e, same), h, both) = (
    one,
    rest,
    (status, ap heard (sym (other_unit n m u units apart.0)) ∙ e, same),
    AllHear-other n u units units' ns rest apart.1 h,
    both,
  )

  module _ (n : ℕ) (ns : List ℕ) (p : PostProcessPipeline) (apart : All (λ m. m ≢ n) ns) where
    rest_heard :
        (u : PostProcessUnit) (status : ℤ)
        → heard (p.units n) ≡ some (u, status)
        → (r : Option (PostProcessPipeline × Bool)) → FrameHeard ns (set_unit n u p) r
        → FrameHeard (n ∷ ns) p (Option.map (λ t. (t.0, eqb_ℤ status (pos 0) && t.1)) r)
    unfolding set_unit
    rest_heard u status e none w = inr (SomeWaits-other n u p.units ns apart w)
    rest_heard u status e (some (p', fine)) (h, kept, same) =
        let mine : p'.units n ≡ u = kept n apart ∙ this_unit n u p.units in
        (
          (
            eqb_ℤ status (pos 0),
            fine,
            (status, e ∙ ap (λ v. some (v, status)) (sym mine), refl),
            AllHear-other n u p.units p'.units ns fine apart h,
            refl,
          ),
          (λ m others. kept m others.1 ∙ other_unit n m u p.units (λ k. others.0 (sym k))),
          same,
        )

    first_heard :
        (o : Option (PostProcessUnit × ℤ))
        → heard (p.units n) ≡ o
        → ((q : PostProcessPipeline) → FrameHeard ns q (notify_units a b s ns q))
        → FrameHeard (n ∷ ns) p (elim o as (λ _. Option (PostProcessPipeline × Bool)) [
          | none ↦ none
          | some (u, status) ↦
              Option.map
                (λ r. (r.0, eqb_ℤ status (pos 0) && r.1))
                (notify_units a b s ns (set_unit n u p))
        ])
    first_heard none e more = inl e
    first_heard (some (u, status)) e more =
        rest_heard u status e (notify_units a b s ns (set_unit n u p)) (more (set_unit n u p))

  notify_units-FrameHeard :
      (ns : List ℕ) (p : PostProcessPipeline)
      → Distinct ns
      → FrameHeard ns p (notify_units a b s ns p)
  unfolding notify_units
  notify_units-FrameHeard [] p d = (refl, (λ m others. refl), refl)
  notify_units-FrameHeard (n ∷ ns) p d =
      first_heard n ns p d.0 (heard (p.units n)) refl (λ q. notify_units-FrameHeard ns q d.1)

-- What handleProcessFrame leads to, with the buffers queued in `q`: no unit gets the frame, or each unit of the first level.
abbrev pub Outcome :
    UnitAnswers
    → PostProcBuffer
    → ℕ
    → Bool
    → PostProcessPipeline
    → PostProcessPipeline
    → Option (PostProcessPipeline × Bool)
    → Type 0
Outcome a b s taken queued synced r =
    ((taken ≡ false) × (r ≡ some (queued, false)))
    ⊎ ((taken ≡ true) × FrameHeard a b s queued.first_level synced r)

-- Where each stream of the output buffers has a unit and no unit stands twice in the first level, each buffer is queued at the unit of its stream, if that unit takes buffers, in the order of the frame's. When one of these units takes no buffers, nothing else happens and the result is an error. Otherwise each unit of the first level gets the frame by notifyNewFrame, one that makes its caller wait makes the pipeline wait, nothing else but mOutputBuffersHandler changes, and the result is OK exactly when all the units' statuses are 0.
pub handle_process_frame-Outcome :
    (a : UnitAnswers) (f : FrameAnswers) (b : PostProcBuffer) (s : ℕ) (outs : List PostProcBuffer)
    (p : PostProcessPipeline)
    → All (Known f p) outs
    → Distinct p.first_level
    → let queued = hand (units_of f p) outs p in
      Outcome a b s
        (takes_all (units_of f p) p.units outs)
        queued
        (add_sync f b outs queued)
        (handle_process_frame a f b s outs p)
unfolding hand add_sync
handle_process_frame-Outcome a f b s outs p known distinct =
    let queued = hand (units_of f p) outs p in
    let synced = add_sync f b outs queued in
    elim (Bool-cases (takes_all (units_of f p) p.units outs)) [
      | inl e ↦ inr (
        e,
        subst (FrameHeard a b s p.first_level synced)
            (sym (
              handle_process_frame-hand a f b s outs p known
              ∙ ap
                  (λ t. if t then notify_units a b s p.first_level synced else some (queued, false))
                  e))
            (notify_units-FrameHeard a b s p.first_level synced distinct),
      )
      | inr e ↦ inl (
        e,
        handle_process_frame-hand a f b s outs p known
            ∙ ap (λ t. if t then notify_units a b s p.first_level synced else some (queued, false))
                e,
      )
    ]
