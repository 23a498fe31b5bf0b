-- ===== src/Capture/Thread/Blocking.antt =====
-- A caller that RequestThread (AAL/RequestThread.cpp) blocks, and when it is told.
use hardware_rockchip_camera.Base.{
  subst, sym, ap, ◌∙◌, ℕ, ◌≡◌, refl, ◌⊎◌, inl, inr, List, ◌++◌, Option, none, some, if_rule,
}
use hardware_rockchip_camera.Status.{Status, is_ok}
use hardware_rockchip_camera.Capture.Thread.{
  BlockAction, wait_all_and_fence, wait_all_previous, wait_one, RequestThread, Answers, Capture,
  accepted, blocked, failed, capture_request, hardware_asked, process_outputs, recycle_request,
  wait_requests_drain, are_all_streams_under_max_buffers,
}
use hardware_rockchip_camera.Capture.Request.{get_output_streams, get_input_streams}
use hardware_rockchip_camera.Capture.Thread.Accounts.{
  Heaped, capture_request-Heaped, are_under_max-same, process_outputs-Heaped,
  streams_processed-Heaped,
}
use hardware_rockchip_camera.Capture.Thread.Recycle.{Pooled, wait_requests_drain-Pooled}
use hardware_rockchip_camera.Capture.Thread.Loop.{uncount, retried, retry}
use hardware_rockchip_camera.Capture.Thread.Books.{
  Books, waiting_list, Books-Pooled, Books-Heaped, Freed, retried-Retried, failed-Pooled,
}

-- The blocking action is as it was, and so is the answer on the room in the streams.
pub record Steady (t t' : RequestThread) : Type 0 where
  pub same_block : t'.block_action ≡ t.block_action
  pub same_room : are_all_streams_under_max_buffers t' ≡ are_all_streams_under_max_buffers t
  pub same_number : t'.requests_in_hal ≡ t.requests_in_hal
  pub same_waiting : t'.waiting_request ≡ t.waiting_request

Steady-refl : (t : RequestThread) → Steady t t
Steady-refl t = record {
  same_block = refl;
  same_room = refl;
  same_number = refl;
  same_waiting = refl;
}

pub Steady-trans : (t u v : RequestThread) → Steady t u → Steady u v → Steady t v
Steady-trans t u v p q = record {
  same_block = q.same_block ∙ p.same_block;
  same_room = q.same_room ∙ p.same_room;
  same_number = q.same_number ∙ p.same_number;
  same_waiting = q.same_waiting ∙ p.same_waiting;
}

pub Steady-Pooled : (held : List ℕ) (t t' : RequestThread) → Pooled held t t' → Steady t t'
unfolding are_all_streams_under_max_buffers
Steady-Pooled held t t' (q, ac, r, e, o) =
    subst (Steady t) (sym e)
      (record { same_block = refl; same_room = refl; same_number = refl; same_waiting = refl })

Steady-Heaped : (t t' : RequestThread) → Heaped t t' → Steady t t'
unfolding are_all_streams_under_max_buffers
Steady-Heaped t t' (h, e, c) = subst (Steady t) (sym e) (record {
  same_block = refl;
  same_room = are_under_max-same t.heap h t.local_streams c;
  same_number = refl;
  same_waiting = refl;
})

-- captureRequest blocks only where the hardware does.
asked_blocked :
    (a : Answers) (x : ℕ) (o : Option (List ℕ)) (t : RequestThread) (k : BlockAction)
    → (hardware_asked a x o t).1 ≡ blocked k
    → a.hardware x t.requests_in_hal ≡ blocked k
unfolding hardware_asked
asked_blocked a x none t k e = cc
asked_blocked a x (some out) t k e =
    let t1 = process_outputs a x out t in
    let s1 = Steady-Heaped t t1 (process_outputs-Heaped a x out t) in
    let s2 =
      Steady-Heaped t1 _ (streams_processed-Heaped a x (get_input_streams (t1.requests x)) t1) in
    ap (a.hardware x) (sym (s2.same_number ∙ s1.same_number)) ∙ e

capture_blocked :
    (a : Answers) (x : ℕ) (t : RequestThread) (k : BlockAction)
    → (capture_request a x t).1 ≡ blocked k
    → a.hardware x t.requests_in_hal ≡ blocked k
unfolding capture_request
capture_blocked a x t k =
    if_rule
      (λ (r : RequestThread × Capture).
        r.1 ≡ blocked k → a.hardware x t.requests_in_hal ≡ blocked k)
      (is_ok (a.register_request x)) _ _
      (λ _. asked_blocked a x (get_output_streams (t.requests x)) t k) (λ _ e. cc)

-- The waiting request has been sent again.
pub record Sent (a : Answers) (hal : List ℕ) (w : ℕ) (t : RequestThread)
    (s : RequestThread × Status) : Type 0 where
  pub outcome :
      ((k : BlockAction) × (a.hardware w t.requests_in_hal ≡ blocked k)
        × (s.0.waiting_request ≡ some w)
        × Books s.0 hal)
      ⊎ Freed hal w s.0
  pub still_blocked : s.0.block_action ≡ t.block_action
  pub as_roomy : are_all_streams_under_max_buffers s.0 ≡ are_all_streams_under_max_buffers t

module _ (a : Answers) (hal : List ℕ) (w : ℕ) where
  retried-Steady :
      (r : RequestThread × Capture)
      → Books r.0 hal
      → r.0.waiting_request ≡ some w
      → ((retried a w r).0.block_action ≡ r.0.block_action)
        × (are_all_streams_under_max_buffers (retried a w r).0
            ≡ are_all_streams_under_max_buffers r.0)
  unfolding retried are_all_streams_under_max_buffers uncount
  retried-Steady (t, blocked k) b e = (refl, refl)
  retried-Steady (t, accepted) b e = (refl, refl)
  retried-Steady (t, failed status) b e =
      let steady = Steady-Pooled hal t (recycle_request a w t) (failed-Pooled t hal w b e a) in
      (steady.same_block, steady.same_room)

  captured-Sent :
      (t u : RequestThread)
      → Steady t u
      → Books u hal
      → t.waiting_request ≡ some w
      → Sent a hal w t (retried a w (capture_request a w u))
  captured-Sent t u s b e =
      let r = capture_request a w u in
      let heaped = capture_request-Heaped a w u in
      let steady = Steady-trans t u r.0 s (Steady-Heaped u r.0 heaped) in
      let books = Books-Heaped u r.0 hal b heaped in
      let waits = steady.same_waiting ∙ e in
      let kept = retried-Steady r books waits in
      record {
        outcome = elim (retried-Retried a hal w r books waits) [
          | inl (k, answer, waiting, bs) ↦ inl (
            k,
            ap (a.hardware w) (sym s.same_number) ∙ capture_blocked a w u k answer,
            waiting,
            bs,
          )
          | inr freed ↦ inr freed
        ];
        still_blocked = kept.0 ∙ steady.same_block;
        as_roomy = kept.1 ∙ steady.same_room;
      }

  pub retry-Sent :
      (action : BlockAction) (t : RequestThread)
      → Books t hal
      → t.waiting_request ≡ some w
      → Sent a hal w t (retry a action w t)
  unfolding retry
  retry-Sent wait_all_and_fence t b e =
      let drained =
        (wait_requests_drain-Pooled a (hal ++ waiting_list t.waiting_request) t b.owns).0 in
      captured-Sent t (wait_requests_drain a t)
        (Steady-Pooled (hal ++ waiting_list t.waiting_request) t _ drained)
        (Books-Pooled t _ hal b drained) e
  retry-Sent wait_all_previous t b e = captured-Sent t t (Steady-refl t) b e
  retry-Sent wait_one t b e = captured-Sent t t (Steady-refl t) b e
