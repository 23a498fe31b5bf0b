-- ===== src/Capture/Thread/Accounts.antt =====
-- Where the requests of RequestThread (AAL/RequestThread.cpp) are: what its helpers do to the pool.
use mathlib.Core.List.{perm_middle}
use mathlib.Core.List.Perm
use hardware_rockchip_camera.Base.{
  subst, ap, ◌∙◌, ℕ, ◌≡◌, refl, List, [], ◌∷◌, ◌++◌, Option, none, some, Bool, if_rule, ◌==◌, arith,
}
use hardware_rockchip_camera.Status.{Status, is_ok}
use hardware_rockchip_camera.Pool.Items.{ItemPool}
use hardware_rockchip_camera.Pool.Items.Owned.{Owns}
use hardware_rockchip_camera.Capture.Stream.{Heap, CameraStream, on_stream, update, process_request}
use hardware_rockchip_camera.Capture.Request.{get_output_streams}
use hardware_rockchip_camera.Capture.Thread.{
  RequestThread, Answers, Capture, process_on, process_outputs, process_inputs, streams_processed,
  hardware_asked, capture_request, are_under_max,
}

pub Owns-middle :
    (p : ItemPool) (x : ℕ) (xs ys : List ℕ) → Owns p (xs ++ x ∷ ys) → Owns p (x ∷ xs ++ ys)
Owns-middle p x xs ys o = record {
  allocated = o.allocated;
  all_there =
      Perm.trans (Perm.append_left p.items_in_pool (Perm.symm (perm_middle xs ys))) o.all_there;
}

pub Owns-front :
    (p : ItemPool) (x : ℕ) (xs ys : List ℕ) → Owns p (x ∷ xs ++ ys) → Owns p (xs ++ x ∷ ys)
Owns-front p x xs ys o = record {
  allocated = o.allocated;
  all_there = Perm.trans (Perm.append_left p.items_in_pool (perm_middle xs ys)) o.all_there;
}

-- The counters and the sizes of the streams are as they were.
pub record SameCounts (h h' : Heap) : Type 0 where
  pub same_stream3s : h'.stream3s ≡ h.stream3s
  pub same_counts :
      (s : ℕ) → (h'.streams s).output_buffers_in_hal ≡ (h.streams s).output_buffers_in_hal
  pub same_stream3 : (s : ℕ) → (h'.streams s).stream3 ≡ (h.streams s).stream3

SameCounts-trans : (h i j : Heap) → SameCounts h i → SameCounts i j → SameCounts h j
SameCounts-trans h i j p q = record {
  same_stream3s = q.same_stream3s ∙ p.same_stream3s;
  same_counts = λ s. q.same_counts s ∙ p.same_counts s;
  same_stream3 = λ s. q.same_stream3 s ∙ p.same_stream3 s;
}

SameCounts-refl : (h : Heap) → SameCounts h h
SameCounts-refl h = record {
  same_stream3s = refl;
  same_counts = λ s. refl;
  same_stream3 = λ s. refl;
}

pub are_under_max-same :
    (h h' : Heap) (ss : List ℕ) → SameCounts h h' → are_under_max h' ss ≡ are_under_max h ss
unfolding are_under_max
are_under_max-same h h' [] c = refl
are_under_max-same h h' (s ∷ ss) c =
    rw (c.same_counts s, c.same_stream3 s, c.same_stream3s, are_under_max-same h h' ss c) refl

-- Only the streams have changed, and not their counters.
abbrev pub Heaped : RequestThread → RequestThread → Type 0
Heaped t t' = (h : Heap) × (t' ≡ record t { heap = h }) × SameCounts t.heap h

Heaped-refl : (t : RequestThread) → Heaped t t
Heaped-refl t = (t.heap, refl, SameCounts-refl t.heap)

Heaped-trans : (t u v : RequestThread) → Heaped t u → Heaped u v → Heaped t v
Heaped-trans t u v (h, e, c) (h', e', c') = (
  h',
  e' ∙ ap {A = RequestThread} (λ w. record w { heap = h' }) e,
  SameCounts-trans t.heap h h' c (subst (λ w. SameCounts w.heap h') e c'),
)

process_request-counts :
    (x : ℕ) (found : Bool) (answer : Status) (s : CameraStream)
    → ((process_request x found answer s).0.output_buffers_in_hal ≡ s.output_buffers_in_hal)
      × ((process_request x found answer s).0.stream3 ≡ s.stream3)
unfolding process_request
process_request-counts x found answer s = ground arith

on_stream-SameCounts :
    (h : Heap) (s : ℕ) (f : CameraStream → CameraStream)
    → ((c : CameraStream)
        → ((f c).output_buffers_in_hal ≡ c.output_buffers_in_hal) × ((f c).stream3 ≡ c.stream3))
    → SameCounts h (on_stream s f h)
unfolding on_stream update
on_stream-SameCounts h s f k = record {
  same_stream3s = refl;
  same_counts = λ x.
      if_rule (λ (c : CameraStream). c.output_buffers_in_hal ≡ (h.streams x).output_buffers_in_hal)
        (x == s) _ _ (λ _. (k (h.streams x)).0) (λ _. refl);
  same_stream3 = λ x.
      if_rule (λ (c : CameraStream). c.stream3 ≡ (h.streams x).stream3) (x == s) _ _
        (λ _. (k (h.streams x)).1) (λ _. refl);
}

module _ (a : Answers) (x : ℕ) where
  process_on-Heaped : (s : ℕ) (t : RequestThread) → Heaped t (process_on a x s t).0
  unfolding process_on
  process_on-Heaped s t =
      (_, refl, on_stream-SameCounts t.heap s _ (λ c. process_request-counts x _ _ c))

  pub process_outputs-Heaped :
      (ss : List ℕ) (t : RequestThread) → Heaped t (process_outputs a x ss t)
  unfolding process_outputs
  process_outputs-Heaped [] t = Heaped-refl t
  process_outputs-Heaped (s ∷ ss) t =
      Heaped-trans t _ _ (process_on-Heaped s t) (process_outputs-Heaped ss (process_on a x s t).0)

  process_inputs-Heaped : (ss : List ℕ) (t : RequestThread) → Heaped t (process_inputs a x ss t)
  unfolding process_inputs
  process_inputs-Heaped [] t = Heaped-refl t
  process_inputs-Heaped (s ∷ ss) t =
      let t' = (process_on a x s t).0 in
      let rest = process_inputs-Heaped ss t' in
      if_rule (Heaped t) (is_ok (process_on a x s t).1) _ _
        (λ _. Heaped-trans t t' _ (process_on-Heaped s t) rest) (λ _. process_on-Heaped s t)

  pub streams_processed-Heaped :
      (o : Option (List ℕ)) (t : RequestThread) → Heaped t (streams_processed a x o t)
  unfolding streams_processed
  streams_processed-Heaped none t = Heaped-refl t
  streams_processed-Heaped (some ss) t = process_inputs-Heaped ss t

  pub hardware_asked-Heaped :
      (o : Option (List ℕ)) (t : RequestThread) → Heaped t (hardware_asked a x o t).0
  unfolding hardware_asked
  hardware_asked-Heaped none t = Heaped-refl t
  hardware_asked-Heaped (some out) t =
      Heaped-trans t _ _ (process_outputs-Heaped out t) (streams_processed-Heaped _ _)

  pub capture_request-Heaped : (t : RequestThread) → Heaped t (capture_request a x t).0
  unfolding capture_request
  capture_request-Heaped t =
      if_rule (λ (r : RequestThread × Capture). Heaped t r.0) (is_ok (a.register_request x)) _ _
        (λ _. hardware_asked-Heaped (get_output_streams (t.requests x)) t) (λ _. Heaped-refl t)
