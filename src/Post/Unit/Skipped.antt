-- ===== src/Post/Unit/Skipped.antt =====
-- A unit whose first output buffer belongs to a request without a frame
-- (psl/rkisp1/workers/PostProcessPipeline.cpp).
use hardware_rockchip_camera.Base.{
  subst, sym, ap, ◌∙◌, ℕ, ◌≡◌, ◌≢◌, refl, true, false, List, [], ◌∷◌, ◌++◌, Option, some, All,
  All-append,
}
use hardware_rockchip_camera.Base.Signed.{ℤ}
use hardware_rockchip_camera.Post.Unit.{
  PostProcBuffer, PostProcessUnit, UnitAnswers, UnitEvent, frame, output, round, unit_event,
  unit_events, notify_new_frame, add_output_buffer, process_round,
}
use hardware_rockchip_camera.Post.Unit.Deliver.{
  IsReady, frame_requests, ready, IsReady-ready, round-miss,
}

-- The first output buffer is `o`, and no queued frame is of its request.
pub record IsStuck (o : PostProcBuffer) (u : PostProcessUnit) : Type 0 where
  pub unit_ready : IsReady u
  pub enabled : u.enable ≡ true
  pub asynchronous : u.sync_process ≡ false
  pub behind : List PostProcBuffer
  pub first : u.out_buffers ≡ o ∷ behind
  pub unmatched : All (λ t. t ≢ o.request_id) (frame_requests u.in_buffers)

abbrev pub Misses : PostProcBuffer → UnitEvent → Type 0
Misses o (frame b s err) = s ≢ o.request_id
Misses o (output b) = Unit
Misses o round = Unit

abbrev StuckStill : PostProcBuffer → PostProcessUnit → PostProcessUnit → Type 0
StuckStill o u u' = IsStuck o u' × (u'.notices ≡ u.notices)

frame_requests-append :
    (xs : List (PostProcBuffer × ℕ)) (b : PostProcBuffer) (s : ℕ)
    → frame_requests (xs ++ (b, s) ∷ []) ≡ frame_requests xs ++ s ∷ []
frame_requests-append [] b s = refl
frame_requests-append ((c, t) ∷ xs) b s = ap (λ ys. t ∷ ys) (frame_requests-append xs b s)

module _ (a : UnitAnswers) (o : PostProcBuffer) (u : PostProcessUnit) (k : IsStuck o u) where
  still-IsReady :
      (ins : List (PostProcBuffer × ℕ)) (outs : List PostProcBuffer)
      → IsReady (record u { in_buffers = ins; out_buffers = outs })
  still-IsReady ins outs = record {
    fills_streams = k.unit_ready.fills_streams;
    running = k.unit_ready.running;
    no_output = k.unit_ready.no_output;
  }

  frame_queued :
      (b : PostProcBuffer) (s : ℕ) (err : ℤ)
      → unit_event a (frame b s err) u ≡ record u { in_buffers = u.in_buffers ++ (b, s) ∷ [] }
  unfolding unit_event notify_new_frame
  frame_queued b s err = rw (k.unit_ready.running, k.enabled, k.asynchronous) refl

  frame-Stuck :
      (b : PostProcBuffer) (s : ℕ) (err : ℤ)
      → s ≢ o.request_id
      → StuckStill o u (unit_event a (frame b s err) u)
  frame-Stuck b s err n = subst (StuckStill o u) (sym (frame_queued b s err)) (
    record {
      unit_ready = still-IsReady (u.in_buffers ++ (b, s) ∷ []) u.out_buffers;
      enabled = k.enabled;
      asynchronous = k.asynchronous;
      behind = k.behind;
      first = k.first;
      unmatched =
          subst (All (λ t. t ≢ o.request_id)) (sym (frame_requests-append u.in_buffers b s)) (
            All-append (λ t. t ≢ o.request_id) (frame_requests u.in_buffers) (s ∷ []) k.unmatched
              (n, tt));
    },
    refl,
  )

  output_queued :
      (b : PostProcBuffer)
      → unit_event a (output b) u ≡ record u { out_buffers = u.out_buffers ++ b ∷ [] }
  unfolding unit_event add_output_buffer
  output_queued b = rw k.unit_ready.fills_streams refl

  output-Stuck : (b : PostProcBuffer) → StuckStill o u (unit_event a (output b) u)
  output-Stuck b = subst (StuckStill o u) (sym (output_queued b)) (
    record {
      unit_ready = still-IsReady u.in_buffers (u.out_buffers ++ b ∷ []);
      enabled = k.enabled;
      asynchronous = k.asynchronous;
      behind = k.behind ++ b ∷ [];
      first = ap (λ os. os ++ b ∷ []) k.first;
      unmatched = k.unmatched;
    },
    refl,
  )

  ready-Stuck :
      (ins : List (PostProcBuffer × ℕ)) (ci : Option PostProcBuffer) (cs : Option ℕ)
      → All (λ t. t ≢ o.request_id) (frame_requests ins)
      → StuckStill o u (ready u ins (o ∷ k.behind) ci cs u.notices)
  ready-Stuck ins ci cs n = (
    record {
      unit_ready = record { fills_streams = refl; running = refl; no_output = refl };
      enabled = k.enabled;
      asynchronous = k.asynchronous;
      behind = k.behind;
      first = refl;
      unmatched = n;
    },
    refl,
  )

  round_of_ready :
      (ins : List (PostProcBuffer × ℕ)) (ci : Option PostProcBuffer) (cs : Option ℕ)
      → All (λ t. t ≢ o.request_id) (frame_requests ins)
      → StuckStill o u (unit_event a round (ready u ins (o ∷ k.behind) ci cs u.notices))
  unfolding unit_event process_round
  round_of_ready [] ci cs n = ready-Stuck [] ci cs tt
  round_of_ready ((b, s) ∷ ins) ci cs n =
      subst (StuckStill o u) (sym (round-miss a u b s ins ci cs u.notices o k.behind n.0))
        (ready-Stuck ins (some b) (some s) n.1)

  round-Stuck : StuckStill o u (unit_event a round u)
  round-Stuck =
      subst (λ w. StuckStill o u (unit_event a round w))
        (sym (
          IsReady-ready u k.unit_ready
          ∙ ap (λ os. ready u u.in_buffers os u.cur_in u.cur_settings u.notices) k.first))
        (round_of_ready u.in_buffers u.cur_in u.cur_settings k.unmatched)

event-Stuck :
    (a : UnitAnswers) (o : PostProcBuffer) (e : UnitEvent) (u : PostProcessUnit)
    → IsStuck o u
    → Misses o e
    → StuckStill o u (unit_event a e u)
event-Stuck a o (frame b s err) u k n = frame-Stuck a o u k b s err n
event-Stuck a o (output b) u k n = output-Stuck a o u k b
event-Stuck a o round u k n = round-Stuck a o u k

-- Once the first output buffer of an enabled and asynchronous unit that is ready belongs to a request without a frame in the queue, and no later frame is of that request, the unit hands over no buffer any more, whatever frames and buffers come and however often its thread runs, and the buffer stays first.
pub skipped_buffer_blocks :
    (a : UnitAnswers) (o : PostProcBuffer) (es : List UnitEvent) (u : PostProcessUnit)
    → IsStuck o u
    → All (Misses o) es
    → IsStuck o (unit_events a es u) × ((unit_events a es u).notices ≡ u.notices)
unfolding unit_events
skipped_buffer_blocks a o [] u k m = (k, refl)
skipped_buffer_blocks a o (e ∷ es) u k m =
    let (k', same) = event-Stuck a o e u k m.0 in
    let (k'', all_same) = skipped_buffer_blocks a o es (unit_event a e u) k' m.1 in
    (k'', all_same ∙ same)
