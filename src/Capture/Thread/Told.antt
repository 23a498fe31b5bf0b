-- ===== src/Capture/Thread/Told.antt =====
-- A caller that processCaptureRequest of AAL/RequestThread.cpp blocks is told in the end.
use mathlib.Core.List.{append_assoc}
use hardware_rockchip_camera.Base.{
  subst, sym, ◌∙◌, ℕ, ◌≡◌, ◌≢◌, refl, inl, inr, List, [], ◌∷◌, ◌++◌, some, true, false,
}
use hardware_rockchip_camera.Base.Signed.{pos}
use hardware_rockchip_camera.Status.{Status}
use hardware_rockchip_camera.Capture.Stream.{Heap}
use hardware_rockchip_camera.Capture.Thread.{
  BlockAction, RequestThread, Answers, blocked, are_all_streams_under_max_buffers,
}
use hardware_rockchip_camera.Capture.Thread.Loop.{Reply, handle_return_request}
use hardware_rockchip_camera.Capture.Thread.Books.{Books}
use hardware_rockchip_camera.Capture.Thread.Replies.{none_or_some, Tells, Checked}
use hardware_rockchip_camera.Capture.Thread.Return.{return_blocked-Checked}

-- A request that the hardware returns, with the streams as other threads left them.
abbrev pub returns_with : Answers → ℕ → Heap → RequestThread → RequestThread × List Reply
returns_with a x h t = handle_return_request a x (record t { heap = h })

unfoldable pub run_returns : Answers → List (ℕ × Heap) → RequestThread → RequestThread × List Reply
run_returns a [] t = (t, [])
run_returns a ((x, h) ∷ es) t =
    let (t1, first) = returns_with a x h t in
    let (t2, rest) = run_returns a es t1 in (t2, first ++ rest)

abbrev pub requests_of : List (ℕ × Heap) → List ℕ
requests_of [] = []
requests_of ((x, h) ∷ es) = x ∷ requests_of es

Tells-left : (status : Status) (rs ss : List Reply) → Tells status rs → Tells status (rs ++ ss)
Tells-left status [] ss e = absurd e
Tells-left status (r ∷ rs) ss (inl e) = inl e
Tells-left status (r ∷ rs) ss (inr e) = inr (Tells-left status rs ss e)

Tells-right : (status : Status) (rs ss : List Reply) → Tells status ss → Tells status (rs ++ ss)
Tells-right status [] ss e = e
Tells-right status (r ∷ rs) ss e = inr (Tells-right status rs ss e)

true-false : true ≡ false → ⊥
true-false e = cc

placed :
    (t : RequestThread) (h : Heap) (hal : List ℕ) → Books t hal → Books (record t { heap = h }) hal
placed t h hal b = record { owns = b.owns; counted = b.counted; parked = b.parked }

module _ (a : Answers) (x : ℕ) (h : Heap)
    (takes_one : (w : ℕ) (k : BlockAction) → a.hardware w (pos 1) ≢ blocked k) where
  Promise : List (ℕ × Heap) → RequestThread → Type 0
  Promise es t =
      are_all_streams_under_max_buffers (record (run_returns a es t).0 { heap = h }) ≡ true
      → (status : Status) × Tells status (run_returns a (es ++ (x, h) ∷ []) t).1

  last-Tells :
      (t : RequestThread) (extra : List ℕ) (r : RequestThread × List Reply)
      → Checked a extra t r
      → are_all_streams_under_max_buffers t ≡ true
      → ((w : ℕ) → t.waiting_request ≡ some w → extra ≡ [])
      → (status : Status) × Tells status r.1
  last-Tells t extra r c room alone = elim c.outcome [
    | inl (status, tells, _, _) ↦ (status, tells)
    | inr (_, inl (_, full)) ↦ absurd (true-false (sym room ∙ full))
    | inr (_, inr (w, _, old, _, stuck)) ↦
        let (k, e) = stuck (alone w old) in absurd (takes_one w k e)
  ]

  -- The state after one of the earlier returns.
  Promise-cons :
      (y : ℕ) (g : Heap) (es : List (ℕ × Heap)) (t : RequestThread)
      → Promise es (returns_with a y g t).0
      → Promise ((y, g) ∷ es) t
  unfolding Promise run_returns
  Promise-cons y g es t p room =
      let (status, tells) = p room in (status, Tells-right status (returns_with a y g t).1 _ tells)

  promise :
      (es : List (ℕ × Heap)) (extra : List ℕ) (t : RequestThread) (action : BlockAction)
      → Books t (requests_of es ++ x ∷ extra)
      → t.block_action ≡ some action
      → ((w : ℕ) → t.waiting_request ≡ some w → extra ≡ [])
      → Promise es t
  unfolding Promise run_returns
  promise [] extra t action b e alone room =
      let c =
        return_blocked-Checked a x [] extra (record t { heap = h }) (placed t h _ b) action e in
      let (status, tells) = last-Tells (record t { heap = h }) extra _ c room alone in
      (status, Tells-left status _ [] tells)
  promise ((y, g) ∷ es) extra t action b e alone room =
      let t' = record t { heap = g } in
      let later = requests_of es ++ x ∷ extra in
      let c = return_blocked-Checked a y [] later t' (placed t g _ b) action e in
      let r = returns_with a y g t in
      let books = subst (Books r.0) (append_assoc (requests_of es) (x ∷ extra) c.extra) c.books in
      elim c.outcome [
        | inl (status, tells, _, _) ↦ (status, Tells-left status r.1 _ tells)
        | inr (same, inl (n, _)) ↦
            Promise-cons y g es t
              (promise es (extra ++ c.extra) r.0 action books (same ∙ e)
                (λ w e'. absurd (none_or_some r.0.waiting_request w n e')))
              room
        | inr (same, inr (w, _, old, no_more, _)) ↦
            Promise-cons y g es t
              (promise es (extra ++ c.extra) r.0 action books (same ∙ e)
                (λ v e'. rw (alone w old, no_more) refl))
              room
      ]

-- With the hardware never blocking a request that is alone, a caller that is blocked is told once all requests at the hardware have been returned, in any order, and the streams have room at the last return, whatever the streams' counters are before.
pub blocked_caller_is_told :
    (a : Answers) (es : List (ℕ × Heap)) (x : ℕ) (h : Heap) (t : RequestThread)
    (action : BlockAction)
    → ((w : ℕ) (k : BlockAction) → a.hardware w (pos 1) ≢ blocked k)
    → Books t (requests_of es ++ x ∷ [])
    → t.block_action ≡ some action
    → are_all_streams_under_max_buffers (record (run_returns a es t).0 { heap = h }) ≡ true
    → (status : Status) × Tells status (run_returns a (es ++ (x, h) ∷ []) t).1
unfolding Promise
blocked_caller_is_told a es x h t action takes_one b e room =
    promise a x h takes_one es [] t action b e (λ w _. refl) room
