-- ===== src/Capture/Request/Outcomes.antt =====
-- Every outcome of Camera3Request::init (AAL/Camera3Request.cpp).
use mathlib.Core.List.{append-nil}
use hardware_rockchip_camera.Base.{
  subst, sym, ap, ◌∙◌, ℕ, ◌≤◌, ◌≡◌, refl, ◌⊎◌, inl, inr, List, [], ◌∷◌, ◌++◌, Option, none, some,
  arith, Bool, true, false, Option-cases, ltb, if◌then◌else◌, if_rule, length, ◌&&◌,
}
use hardware_rockchip_camera.Base.Signed.{ℤ, pos}
use hardware_rockchip_camera.Status.{Status, ok, bad_value, is_ok}
use hardware_rockchip_camera.Capture.Stream.{Heap}
use hardware_rockchip_camera.Capture.Request.Order.{priv_streams}
use hardware_rockchip_camera.Capture.Request.Counts.{
  CountsUp, CountsUpPart, CountsUp-none, Taken, OutputsDone, init_outputs-Done,
}
use hardware_rockchip_camera.Capture.Request.{
  StreamBuffer, CaptureRequest, CameraBuffer, Camera3Request, Init, crashed, returned, buffer_init,
  wrap, check_input_streams, check_output_streams, init_input, check_streams, then_init, init,
  de_init, get_id,
}

-- What a request holds once init has accepted it.
pub record Accepted (h : Heap) (req : CaptureRequest) (h' : Heap) (r' : Camera3Request)
    : Type 0 where
  pub counted : CountsUp h req.output_buffers h'
  pub in_bounds : length req.output_buffers ≤ 8
  pub has_id : get_id r' ≡ pos req.frame_number
  pub takes_buffers : r'.out_buffers ≡ req.output_buffers
  pub orders_streams : check_output_streams h' req.output_buffers [] ≡ (r'.out_streams, ok)

abbrev pub Outcome : Heap → CaptureRequest → Bool → Camera3Request → Init → Type 0
Outcome h req has_callback r crashed =
    (priv_streams h.stream3s req.output_buffers ≡ none)
    ⊎ ((b : StreamBuffer) × (req.input_buffer ≡ some b) × ((h.stream3s b.stream).priv ≡ none))
Outcome h req has_callback r (returned h' r' status) =
    ((status ≡ ok) × Accepted h req h' r')
    ⊎ ((is_ok status ≡ false)
        × ((r'.initialized ≡ false) ⊎ ((has_callback ≡ false) × (r' ≡ r)))
        × CountsUpPart h req.output_buffers h')

is_ok-true : (s : Status) → is_ok s ≡ true → s ≡ ok
is_ok-true s e = ground arith

is_ok_pair : (p : List ℕ × Status) → is_ok p.1 ≡ true → p ≡ (p.0, ok)
is_ok_pair (out, s) e = ap (λ t. (out, t)) (is_ok-true s e)

module _ (req : CaptureRequest) (settings : Option ℕ) (h : Heap) (r : Camera3Request) where
  abbrev Checks : Init → Type 0
  Checks i =
      (i ≡ returned h (de_init r) bad_value)
      ⊎ ((r' : Camera3Request) × (check_output_streams h req.output_buffers r.out_streams
            ≡ (r'.out_streams, ok))
          × (i ≡ returned h r' ok)
          × (get_id r' ≡ pos req.frame_number)
          × (r'.out_buffers ≡ r.out_buffers))

  check_streams-Checks : Checks (check_streams req settings h r)
  unfolding check_streams get_id
  check_streams-Checks =
      if_rule Checks
        (is_ok (check_input_streams h req.input_buffer r.in_streams).1
          && is_ok (check_output_streams h req.output_buffers r.out_streams).1)
        _ _ (λ e. inr (_, is_ok_pair _ (ground arith), refl, refl, refl)) (λ _. inl refl)

  abbrev Inputs : Init → Type 0
  Inputs i =
      (i ≡ returned h (de_init r) bad_value)
      ⊎ ((i ≡ crashed)
          × ((b : StreamBuffer) × (req.input_buffer ≡ some b)
              × ((h.stream3s b.stream).priv ≡ none)))
      ⊎ ((r' : Camera3Request) × (i ≡ returned h r' ok)
          × (r'.out_streams ≡ r.out_streams)
          × (r'.out_buffers ≡ r.out_buffers))

  abbrev input_added : StreamBuffer → CameraBuffer × Status → Init
  input_added b (c, status) =
      if is_ok status
      then returned h (record r { input_buffer = some c; in_buffers = r.in_buffers ++ b ∷ [] }) ok
      else returned h (de_init r) bad_value

  input_added-Inputs : (b : StreamBuffer) (w : CameraBuffer × Status) → Inputs (input_added b w)
  input_added-Inputs b (c, status) =
      if_rule Inputs (is_ok status) _ _ (λ _. inr (inr (_, refl, refl, refl))) (λ _. inl refl)

  init_input-Inputs :
      (register : ℕ → ℤ) (input : Option StreamBuffer)
      → req.input_buffer ≡ input
      → Inputs (init_input register input h r)
  unfolding init_input
  init_input-Inputs register none e = inr (inr (r, refl, refl, refl))
  init_input-Inputs register (some b) e = elim (Option-cases (h.stream3s b.stream).priv) [
    | inl n ↦ inr (inl (rw (n, init_input, buffer_init) refl, (b, e, n)))
    | inr (s, p) ↦
        subst Inputs (sym (rw (p, init_input, buffer_init) refl))
          (input_added-Inputs b (wrap register 0 b.handle s))
  ]

module _ (req : CaptureRequest) (settings : Option ℕ) (h : Heap) (r : Camera3Request) where
  abbrev Rest : Init → Type 0
  Rest i =
      ((i ≡ crashed)
        × ((b : StreamBuffer) × (req.input_buffer ≡ some b) × ((h.stream3s b.stream).priv ≡ none)))
      ⊎ ((r' : Camera3Request) × (i ≡ returned h r' bad_value) × (r'.initialized ≡ false))
      ⊎ ((r' : Camera3Request) × (i ≡ returned h r' ok)
          × (check_output_streams h req.output_buffers r.out_streams ≡ (r'.out_streams, ok))
          × (get_id r' ≡ pos req.frame_number)
          × (r'.out_buffers ≡ r.out_buffers))

  checked-Rest :
      (r1 : Camera3Request) (i : Init)
      → r1.out_streams ≡ r.out_streams
      → r1.out_buffers ≡ r.out_buffers
      → ((i ≡ returned h (de_init r1) bad_value)
          ⊎ ((r' : Camera3Request) × (check_output_streams h req.output_buffers r1.out_streams
                ≡ (r'.out_streams, ok))
              × (i ≡ returned h r' ok)
              × (get_id r' ≡ pos req.frame_number)
              × (r'.out_buffers ≡ r1.out_buffers)))
      → Rest i
  unfolding de_init
  checked-Rest r1 i os ob (inl e) = inr (inl (de_init r1, e, refl))
  checked-Rest r1 i os ob (inr (r', c, e, id, o)) = inr (inr (r', e, rw (sym os) c, id, o ∙ ob))

  input-Rest :
      (i : Init)
      → Inputs req settings h r i
      → Rest (then_init i (λ h2 r2. check_streams req settings h2 r2))
  unfolding then_init de_init
  input-Rest i (inl e) = rw e (inr (inl (de_init r, refl, refl)))
  input-Rest i (inr (inl (e, m))) = rw e (inl (refl, m))
  input-Rest i (inr (inr (r1, e, os, ob))) =
      rw e (checked-Rest r1 _ os ob (check_streams-Checks req settings h r1))

  init_input-Rest :
      (register : ℕ → ℤ)
      → Rest (
          then_init
            (init_input register req.input_buffer h r)
            (λ h2 r2. check_streams req settings h2 r2))
  init_input-Rest register =
      input-Rest _ (init_input-Inputs req settings h r register req.input_buffer refl)

module _ (req : CaptureRequest) (settings : Option ℕ) (h : Heap) (r : Camera3Request) where
  rest-Outcome :
      (has_callback : Bool) (h1 : Heap) (r1 : Camera3Request) (i : Init)
      → length req.output_buffers ≤ 8
      → CountsUp h req.output_buffers h1
      → Taken req.output_buffers (de_init r) r1
      → Rest req settings h1 r1 i
      → Outcome h req has_callback r i
  unfolding de_init
  rest-Outcome cb h1 r1 i room up taken (inl (e, (b, q, n))) =
      rw e (inr (b, q, subst (λ f. (f b.stream).priv ≡ none) up.same_streams n))
  rest-Outcome cb h1 r1 i room up taken (inr (inl (r', e, n))) =
      rw e (inr (refl, inl n, (req.output_buffers, [], sym (append-nil req.output_buffers), up)))
  rest-Outcome cb h1 r1 i room up taken (inr (inr (r', e, c, id, ob))) = rw e (
      inl (
        refl,
        record {
          counted = up;
          in_bounds = room;
          has_id = id;
          takes_buffers = ob ∙ taken.out_taken;
          orders_streams =
              subst (λ xs. check_output_streams h1 req.output_buffers xs ≡ (r'.out_streams, ok))
                taken.same_out_streams c;
        },
      ))

  outputs-Outcome :
      (register : ℕ → ℤ) (has_callback : Bool) (i : Init)
      → length req.output_buffers ≤ 8
      → OutputsDone h req.output_buffers (de_init r) i
      → Outcome h req has_callback r (
          then_init i (λ h1 r1.
            then_init
              (init_input register req.input_buffer h1 r1)
              (λ h2 r2. check_streams req settings h2 r2)))
  unfolding then_init
  outputs-Outcome register cb crashed room d = inl d
  outputs-Outcome register cb (returned h1 r1 status) room (inl (e, up, taken)) =
      rw e (rest-Outcome cb h1 r1 _ room up taken (init_input-Rest req settings h1 r1 register))
  outputs-Outcome register cb (returned h1 r1 status) room (inr (e, n, part)) =
      rw e (inr (refl, inl n, part))

-- Whatever init is given, a call that goes through nullptr had a buffer whose stream has no CameraStream; an accepted request is initialised with its frame number, has at most 8 output buffers, holds them in their order with the list of streams that checkOutputStreams builds, and raised the counter of each stream by the number of its buffers; a refused one is not initialised, unless the callback was missing and nothing changed, and has raised the counters for the first of its buffers, up to some point.
pub init-Outcome :
    (register : ℕ → ℤ) (partial : Status) (has_callback : Bool) (req : CaptureRequest)
    (settings : Option ℕ) (h : Heap) (r : Camera3Request)
    → Outcome h req has_callback r (init register partial has_callback req settings h r)
unfolding init de_init
init-Outcome register partial has_callback req settings h r =
    if_rule (Outcome h req has_callback r) has_callback _ _
      (λ _.
        if_rule (Outcome h req has_callback r) (is_ok partial) _ _
          (λ _.
            if_rule (Outcome h req has_callback r) (ltb 8 (length req.output_buffers)) _ _
              (λ _. inr (refl, inl refl, none_counted))
              (λ e.
                outputs-Outcome req settings h r register has_callback _ (ground (arith, e))
                  (init_outputs-Done register req.frame_number req.output_buffers h (de_init r))))
          (λ _. inr (refl, inl refl, none_counted)))
      (λ e. inr (refl, inr (e, refl), none_counted))
  where
    none_counted : CountsUpPart h req.output_buffers h
    none_counted = ([], req.output_buffers, refl, CountsUp-none h)
