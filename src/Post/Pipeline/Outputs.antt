-- ===== src/Post/Pipeline/Outputs.antt =====
-- Where the output buffers of a frame go (psl/rkisp1/workers/PostProcessPipeline.cpp).
use mathlib.Core.Option
use std.Path.{fun_ext}
use hardware_rockchip_camera.Base.{
  subst, sym, ap, ◌∙◌, ℕ, ◌≡◌, refl, ◌⊎◌, inl, inr, Bool, true, ◌&&◌, List, [], ◌∷◌, ◌++◌, Option,
  none, some, All, ◌==◌, if◌then◌else◌, Bool-cases, ==-eq,
}
use hardware_rockchip_camera.Post.Unit.{
  PostProcBuffer, external, is_external, PostProcessUnit, add_output_buffer,
}
use hardware_rockchip_camera.Post.Sync.{set_entry}
use hardware_rockchip_camera.Post.Pipeline.{
  PostProcessPipeline, set_unit, FrameAnswers, output_added, output_to, add_one_output,
  add_output_buffers,
}
use hardware_rockchip_camera.Post.Pipeline.Given.{
  unit_for, unit_of, goes_to, only_for, for_unit, with_outputs, given, accepts, takes_all, hand,
  given-takes, given-nil, given-given, given-buf_type, only_for-append, add_output_buffer-takes,
  add_output_buffer-refuses,
}

output_added-given :
    (n : ℕ) (o : PostProcBuffer) (p : PostProcessPipeline)
    → output_added n p (add_output_buffer o (p.units n))
      ≡ (set_unit n (given (o ∷ []) (p.units n)) p, is_external (p.units n).buf_type)
unfolding output_added
output_added-given n o p = elim (Bool-cases (is_external (p.units n).buf_type)) [
  | inl e ↦
      ap (output_added n p) (add_output_buffer-takes o (p.units n) e)
      ∙ ap (λ t. (set_unit n (given (o ∷ []) (p.units n)) p, t)) (sym e)
  | inr e ↦
      ap (output_added n p) (add_output_buffer-refuses o (p.units n) e)
      ∙ ap (λ t. (set_unit n (given (o ∷ []) (p.units n)) p, t)) (sym e)
]

-- A buffer whose stream has a unit, or that has no stream.
abbrev pub Known : FrameAnswers → PostProcessPipeline → PostProcBuffer → Type 0
Known f p o =
    (f.stream_of o ≡ none)
    ⊎ ((s : ℕ) × (n : ℕ) × (f.stream_of o ≡ some s) × (p.stream_units s ≡ some n))

-- The units of a frame's buffers.
abbrev pub units_of : FrameAnswers → PostProcessPipeline → PostProcBuffer → Option ℕ
units_of f p = unit_of f.stream_of p.stream_units

only_for-given :
    (q : Option ℕ) (o : PostProcBuffer) (u : PostProcessUnit) (m : ℕ)
    → q ≡ none
    → given (only_for (goes_to q m) o []) u ≡ u
unfolding goes_to only_for
only_for-given q o u m e =
    subst (λ r. given (only_for (goes_to r m) o []) u ≡ u) (sym e) (given-nil u)

hand-none :
    (d : PostProcBuffer → Option ℕ) (o : PostProcBuffer) (p : PostProcessPipeline)
    → d o ≡ none
    → hand d (o ∷ []) p ≡ p
unfolding hand
hand-none d o p e =
    λ i. record p { units = fun_ext (λ m. only_for-given (d o) o (p.units m) m e) i }

given-set_entry :
    (o : PostProcBuffer) (units : ℕ → PostProcessUnit) (n m : ℕ)
    → given (only_for (goes_to (some n) m) o []) (units m)
      ≡ set_entry n (given (o ∷ []) (units n)) units m
unfolding goes_to only_for set_entry
given-set_entry o units n m = elim (Bool-cases (m == n)) [
  | inl e ↦
      ap (λ t. given (only_for t o []) (units m)) e
      ∙ ap (λ k. given (o ∷ []) (units k)) (==-eq m n e)
      ∙ sym (ap (λ t. if t then given (o ∷ []) (units n) else units m) e)
  | inr e ↦
      ap (λ t. given (only_for t o []) (units m)) e
      ∙ given-nil (units m)
      ∙ sym (ap (λ t. if t then given (o ∷ []) (units n) else units m) e)
]

hand-some :
    (d : PostProcBuffer → Option ℕ) (o : PostProcBuffer) (p : PostProcessPipeline) (n : ℕ)
    → d o ≡ some n
    → hand d (o ∷ []) p ≡ set_unit n (given (o ∷ []) (p.units n)) p
unfolding hand set_unit
hand-some d o p n e = λ i. record p {
  units =
      fun_ext
        (λ m.
          ap (λ q. given (only_for (goes_to q m) o []) (p.units m)) e
          ∙ given-set_entry o p.units n m)
        i;
}

units_of-none :
    (f : FrameAnswers) (o : PostProcBuffer) (p : PostProcessPipeline)
    → f.stream_of o ≡ none
    → units_of f p o ≡ none
unfolding unit_of unit_for
units_of-none f o p e = ap (unit_for p.stream_units) e

pub units_of-some :
    (f : FrameAnswers) (o : PostProcBuffer) (p : PostProcessPipeline) (s n : ℕ)
    → f.stream_of o ≡ some s
    → p.stream_units s ≡ some n
    → units_of f p o ≡ some n
unfolding unit_of unit_for
units_of-some f o p s n e e' = ap (unit_for p.stream_units) e ∙ e'

add_one_output-hand :
    (f : FrameAnswers) (o : PostProcBuffer) (p : PostProcessPipeline)
    → Known f p o
    → add_one_output (f.stream_of o) o p
      ≡ some (hand (units_of f p) (o ∷ []) p, accepts (units_of f p o) p.units)
unfolding add_one_output accepts
add_one_output-hand f o p (inl e) =
    let nowhere : units_of f p o ≡ none = units_of-none f o p e in
    ap (λ q. add_one_output q o p) e
    ∙ ap (λ p'. some (p', true)) (sym (hand-none (units_of f p) o p nowhere))
    ∙ ap (λ q. some (hand (units_of f p) (o ∷ []) p, accepts q p.units)) (sym nowhere)
add_one_output-hand f o p (inr (s, n, e, e')) =
    let there : units_of f p o ≡ some n = units_of-some f o p s n e e' in
    ap (λ q. add_one_output q o p) e
    ∙ ap (output_to o p) e'
    ∙ ap some (output_added-given n o p)
    ∙ ap (λ p'. some (p', is_external (p.units n).buf_type))
        (sym (hand-some (units_of f p) o p n there))
    ∙ ap (λ q. some (hand (units_of f p) (o ∷ []) p, accepts q p.units)) (sym there)

hand-hand :
    (d : PostProcBuffer → Option ℕ) (o : PostProcBuffer) (os : List PostProcBuffer)
    (p : PostProcessPipeline)
    → hand d os (hand d (o ∷ []) p) ≡ hand d (o ∷ os) p
unfolding hand
hand-hand d o os p = λ i. record p {
  units =
      fun_ext
        (λ m.
          given-given (for_unit d m (o ∷ [])) (for_unit d m os) (p.units m)
          ∙ ap (λ bs. given bs (p.units m))
              (sym (only_for-append (goes_to (d o) m) o (for_unit d m os))))
        i;
}

accepts-hand :
    (d : PostProcBuffer → Option ℕ) (bs : List PostProcBuffer) (p : PostProcessPipeline)
    (q : Option ℕ)
    → accepts q (hand d bs p).units ≡ accepts q p.units
unfolding hand accepts
accepts-hand d bs p none = refl
accepts-hand d bs p (some n) = ap is_external (given-buf_type (for_unit d n bs) (p.units n))

takes_all-hand :
    (d : PostProcBuffer → Option ℕ) (bs os : List PostProcBuffer) (p : PostProcessPipeline)
    → takes_all d (hand d bs p).units os ≡ takes_all d p.units os
unfolding takes_all
takes_all-hand d bs [] p = refl
takes_all-hand d bs (o ∷ os) p = rw (accepts-hand d bs p (d o), takes_all-hand d bs os p) refl

hand-nil : (d : PostProcBuffer → Option ℕ) (p : PostProcessPipeline) → hand d [] p ≡ p
unfolding hand
hand-nil d p = λ i. record p { units = fun_ext (λ m. given-nil (p.units m)) i }

Known-hand :
    (f : FrameAnswers) (d : PostProcBuffer → Option ℕ) (bs os : List PostProcBuffer)
    (p : PostProcessPipeline)
    → All (Known f p) os
    → All (Known f (hand d bs p)) os
unfolding hand
Known-hand f d bs [] p k = tt
Known-hand f d bs (o ∷ os) p k = (k.0, Known-hand f d bs os p k.1)

-- Each buffer goes to the unit of its stream.
pub add_output_buffers-hand :
    (f : FrameAnswers) (os : List PostProcBuffer) (p : PostProcessPipeline)
    → All (Known f p) os
    → add_output_buffers f os p
      ≡ some (hand (units_of f p) os p, takes_all (units_of f p) p.units os)
unfolding add_output_buffers takes_all hand
add_output_buffers-hand f [] p k = ap (λ p'. some (p', true)) (sym (hand-nil (units_of f p) p))
add_output_buffers-hand f (o ∷ os) p k =
    let d : PostProcBuffer → Option ℕ = units_of f p in
    let fine : Bool = accepts (d o) p.units in
    ap
      (λ (r : Option (PostProcessPipeline × Bool)).
        elim r as (λ _. Option (PostProcessPipeline × Bool)) [
          | none ↦ none
          | some (p', taken) ↦ Option.map (λ t. (t.0, taken && t.1)) (add_output_buffers f os p')
        ])
      (add_one_output-hand f o p k.0)
    ∙ ap (Option.map (λ t. (t.0, fine && t.1)))
        (add_output_buffers-hand f os (hand d (o ∷ []) p) (Known-hand f d (o ∷ []) os p k.1))
    ∙ ap (λ p'. some (p', fine && takes_all d (hand d (o ∷ []) p).units os)) (hand-hand d o os p)
    ∙ ap (λ t. some (hand d (o ∷ os) p, fine && t)) (takes_all-hand d (o ∷ []) os p)

-- What a unit without output buffers gets of a frame.
pub hand-first :
    (d : PostProcBuffer → Option ℕ) (outs : List PostProcBuffer) (p : PostProcessPipeline) (n : ℕ)
    → (p.units n).buf_type ≡ external
    → (p.units n).out_buffers ≡ []
    → (hand d outs p).units n ≡ record (p.units n) { out_buffers = for_unit d n outs }
unfolding hand with_outputs
hand-first d outs p n e none_yet =
    given-takes (for_unit d n outs) (p.units n) (ap is_external e)
    ∙ (λ i. record (p.units n) { out_buffers = none_yet i ++ for_unit d n outs })
