-- ===== src/Post/Pipeline/Given.antt =====
-- A unit that is given output buffers (psl/rkisp1/workers/PostProcessPipeline.cpp).

use mathlib.Core.List.{append-nil, append_assoc}
use hardware_rockchip_camera.Base.{
  sym, ap, ◌∙◌, ℕ, ◌≡◌, refl, inl, inr, Bool, true, false, ◌&&◌, List, [], ◌∷◌, ◌++◌, Option, none,
  some, ◌==◌, if◌then◌else◌, Bool-cases, if_rule,
}
use hardware_rockchip_camera.Status.{ok, unknown_error}
use hardware_rockchip_camera.Post.Unit.{
  PostProcBuffer, is_external, PostProcessUnit, add_output_buffer,
}
use hardware_rockchip_camera.Post.Pipeline.{PostProcessPipeline}

unfoldable pub unit_for : (ℕ → Option ℕ) → Option ℕ → Option ℕ
unit_for stream_units none = none
unit_for stream_units (some s) = stream_units s

-- The unit of a buffer, through its stream.
unfoldable pub unit_of : (PostProcBuffer → Option ℕ) → (ℕ → Option ℕ) → PostProcBuffer → Option ℕ
unfolding unit_for
unit_of stream_of stream_units o = unit_for stream_units (stream_of o)

unfoldable pub goes_to : Option ℕ → ℕ → Bool
goes_to none n = false
goes_to (some m) n = n == m

unfoldable pub only_for : Bool → PostProcBuffer → List PostProcBuffer → List PostProcBuffer
only_for true o os = o ∷ os
only_for false o os = os

-- The buffers of a unit, in order.
unfoldable pub for_unit :
    (PostProcBuffer → Option ℕ) → ℕ → List PostProcBuffer → List PostProcBuffer
unfolding goes_to only_for
for_unit d n [] = []
for_unit d n (o ∷ os) = only_for (goes_to (d o) n) o (for_unit d n os)

unfoldable pub with_outputs : List PostProcBuffer → PostProcessUnit → PostProcessUnit
with_outputs bs u = record u { out_buffers = u.out_buffers ++ bs }

-- A unit that was given buffers: one that has its own buffers does not take them.
unfoldable pub given : List PostProcBuffer → PostProcessUnit → PostProcessUnit
unfolding with_outputs
given bs u = if is_external u.buf_type then with_outputs bs u else u

unfoldable pub accepts : Option ℕ → (ℕ → PostProcessUnit) → Bool
accepts none units = true
accepts (some n) units = is_external (units n).buf_type

unfoldable pub takes_all :
    (PostProcBuffer → Option ℕ) → (ℕ → PostProcessUnit) → List PostProcBuffer → Bool
unfolding accepts
takes_all d units [] = true
takes_all d units (o ∷ os) = accepts (d o) units && takes_all d units os

-- The units after the buffers.
unfoldable pub hand :
    (PostProcBuffer → Option ℕ) → List PostProcBuffer → PostProcessPipeline → PostProcessPipeline
unfolding for_unit given
hand d bs p = record p { units = λ n. given (for_unit d n bs) (p.units n) }

pub given-takes :
    (bs : List PostProcBuffer) (u : PostProcessUnit)
    → is_external u.buf_type ≡ true
    → given bs u ≡ with_outputs bs u
unfolding given
given-takes bs u e = ap (λ t. if t then with_outputs bs u else u) e

given-refuses :
    (bs : List PostProcBuffer) (u : PostProcessUnit)
    → is_external u.buf_type ≡ false
    → given bs u ≡ u
unfolding given
given-refuses bs u e = ap (λ t. if t then with_outputs bs u else u) e

pub given-nil : (u : PostProcessUnit) → given [] u ≡ u
unfolding with_outputs
given-nil u = elim (Bool-cases (is_external u.buf_type)) [
  | inl e ↦ given-takes [] u e ∙ (λ i. record u { out_buffers = append-nil u.out_buffers i })
  | inr e ↦ given-refuses [] u e
]

pub given-given :
    (bs cs : List PostProcBuffer) (u : PostProcessUnit) → given cs (given bs u) ≡ given (bs ++ cs) u
unfolding with_outputs
given-given bs cs u = elim (Bool-cases (is_external u.buf_type)) [
  | inl e ↦
      ap (given cs) (given-takes bs u e)
      ∙ given-takes cs (with_outputs bs u) e
      ∙ (λ i. record u { out_buffers = append_assoc u.out_buffers bs cs i })
      ∙ sym (given-takes (bs ++ cs) u e)
  | inr e ↦
      ap (given cs) (given-refuses bs u e)
      ∙ given-refuses cs u e
      ∙ sym (given-refuses (bs ++ cs) u e)
]

pub given-buf_type :
    (bs : List PostProcBuffer) (u : PostProcessUnit) → (given bs u).buf_type ≡ u.buf_type
unfolding given with_outputs
given-buf_type bs u =
    if_rule (λ v. v.buf_type ≡ u.buf_type) (is_external u.buf_type) (with_outputs bs u) u
      (λ _. refl) (λ _. refl)

pub only_for-append :
    (t : Bool) (o : PostProcBuffer) (os : List PostProcBuffer)
    → only_for t o os ≡ only_for t o [] ++ os
unfolding only_for
only_for-append true o os = refl
only_for-append false o os = refl

pub add_output_buffer-takes :
    (o : PostProcBuffer) (u : PostProcessUnit)
    → is_external u.buf_type ≡ true
    → add_output_buffer o u ≡ (given (o ∷ []) u, ok)
unfolding add_output_buffer with_outputs
add_output_buffer-takes o u e =
    ap (λ t. if t then (with_outputs (o ∷ []) u, ok) else (u, unknown_error)) e
    ∙ ap (λ v. (v, ok)) (sym (given-takes (o ∷ []) u e))

pub add_output_buffer-refuses :
    (o : PostProcBuffer) (u : PostProcessUnit)
    → is_external u.buf_type ≡ false
    → add_output_buffer o u ≡ (given (o ∷ []) u, unknown_error)
unfolding add_output_buffer with_outputs
add_output_buffer-refuses o u e =
    ap (λ t. if t then (with_outputs (o ∷ []) u, ok) else (u, unknown_error)) e
    ∙ ap (λ v. (v, unknown_error)) (sym (given-refuses (o ∷ []) u e))
