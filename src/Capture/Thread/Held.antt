-- ===== src/Capture/Thread/Held.antt =====
-- The requests that RequestThread (AAL/RequestThread.cpp) keeps after handleReturnRequest.
use hardware_rockchip_camera.Base.{
  subst, sym, ap, ◌∙◌, ℕ, zero, suc, ◌+◌, ◌<◌, ◌≤◌, ◌≡◌, refl, ◌⊎◌, inl, inr, Bool, true, false,
  ◌&&◌, List, [], ◌∷◌, ◌++◌, Option, none, some, All, length, length-append, Bool-cases,
  Option-cases, if_rule, if◌then◌else◌, arith,
}
use hardware_rockchip_camera.Base.Signed.{pos, eqb_ℤ}
use hardware_rockchip_camera.Status.{Status}
use hardware_rockchip_camera.Capture.Request.{Camera3Request, is_any_buf_active}
use hardware_rockchip_camera.Capture.Thread.{
  BlockAction, wait_all_and_fence, wait_all_previous, wait_one, RequestThread, Answers, Capture,
  accepted, blocked, failed, capture_request, release_request, sweep, swept, keep_active,
  recycle_request, is_beyond_depth, wait_requests_drain, wait_on_front,
}
use hardware_rockchip_camera.Capture.Thread.Accounts.{Heaped, capture_request-Heaped}
use hardware_rockchip_camera.Capture.Thread.Fences.{
  HoldsFence, AllHold, Kept, Kept-same, inactive_lacks, release_keeps, release_lacks, sweep-Kept,
  recycle_holds,
}
use hardware_rockchip_camera.Capture.Thread.Loop.{
  Reply, uncount, retried, retry, is_due, retry_waiting, told, reply_if_free, check_blocked,
  flush_done, handle_return_request,
}

AllHold-Heaped : (t t' : RequestThread) → Heaped t t' → AllHold t → AllHold t'
AllHold-Heaped t t' (h, e, c) k = subst AllHold (sym e) k

retried_holds :
    (a : Answers) (w : ℕ) (r : RequestThread × Capture) → AllHold r.0 → AllHold (retried a w r).0
unfolding retried uncount
retried_holds a w (t, blocked k) h = h
retried_holds a w (t, accepted) h = h
retried_holds a w (t, failed status) h = recycle_holds a w t

captured_holds :
    (a : Answers) (w : ℕ) (t : RequestThread)
    → AllHold t
    → AllHold (retried a w (capture_request a w t)).0
captured_holds a w t h =
    retried_holds a w (capture_request a w t) (AllHold-Heaped t _ (capture_request-Heaped a w t) h)

retry_holds :
    (a : Answers) (action : BlockAction) (w : ℕ) (t : RequestThread)
    → AllHold t
    → AllHold (retry a action w t).0
unfolding retry wait_requests_drain
retry_holds a wait_all_and_fence w t h = captured_holds a w (wait_requests_drain a t) tt
retry_holds a wait_all_previous w t h = captured_holds a w t h
retry_holds a wait_one w t h = captured_holds a w t h

retry_waiting_holds :
    (a : Answers) (action : BlockAction) (o : Option ℕ) (t : RequestThread)
    → AllHold t
    → AllHold (retry_waiting a action o t).0
unfolding retry_waiting
retry_waiting_holds a action none t h = h
retry_waiting_holds a action (some w) t h =
    if_rule (λ (r : RequestThread × Status). AllHold r.0) (is_due action t.requests_in_hal) _ _
      (λ _. retry_holds a action w t h) (λ _. h)

told_holds :
    (o : Option ℕ) (free : Bool) (s : RequestThread × Status)
    → AllHold s.0
    → AllHold (told o free s).0
unfolding told
told_holds (some w) free s h = h
told_holds none true s h = h
told_holds none false s h = h

check_holds :
    (a : Answers) (o : Option BlockAction) (t : RequestThread)
    → AllHold t
    → AllHold (check_blocked a o t).0
unfolding check_blocked reply_if_free
check_holds a none t h = h
check_holds a (some action) t h =
    let s = retry_waiting a action t.waiting_request t in
    told_holds s.0.waiting_request _ s (retry_waiting_holds a action t.waiting_request t h)

flush_done_requests :
    (r : RequestThread × List Reply)
    → ((flush_done r).0.requests ≡ r.0.requests)
      × ((flush_done r).0.active_request ≡ r.0.active_request)
unfolding flush_done
flush_done_requests (t, replies) =
    if_rule
      (λ (s : RequestThread × List Reply).
        (s.0.requests ≡ t.requests) × (s.0.active_request ≡ t.active_request))
      (t.flushing && eqb_ℤ t.requests_in_hal (pos 0)) _ _ (λ _. (refl, refl)) (λ _. (refl, refl))

flush_done_holds : (r : RequestThread × List Reply) → AllHold r.0 → AllHold (flush_done r).0
flush_done_holds r h =
    let (requests, active) = flush_done_requests r in
    subst (λ ys. All (λ y. HoldsFence ((flush_done r).0.requests y)) ys) (sym active)
      (subst (λ (f : ℕ → Camera3Request). All (λ y. HoldsFence (f y)) r.0.active_request)
        (sym requests) h)

pub handle_return_request_holds :
    (a : Answers) (x : ℕ) (t : RequestThread) → AllHold (handle_return_request a x t).0
unfolding handle_return_request uncount
handle_return_request_holds a x t =
    let t' = uncount (recycle_request a x t) in
    flush_done_holds (check_blocked a t'.block_action t')
      (check_holds a t'.block_action t' (recycle_holds a x t))

-- The pipeline has no depth for one more request that is kept.
abbrev pub IsFull : RequestThread → Type 0
IsFull t = (0 < t.pipeline_depth) × (t.pipeline_depth ≤ length t.active_request + 2)

beyond : (n d : ℕ) → is_beyond_depth (n + 1) d ≡ true → (0 < d) × (d ≤ n + 2)
unfolding is_beyond_depth
beyond n zero e = absurd (cc)
beyond n (suc d) e = ground arith

Kept-last :
    (r : ℕ → Camera3Request) (xs ys : List ℕ) (x : ℕ)
    → (HoldsFence (r x) → ⊥)
    → Kept r xs ys
    → Kept r (xs ++ x ∷ []) ys
Kept-last r [] ys x n k = inr (n, k)
Kept-last r (y ∷ xs) ys x n (inl (h, (zs, e, k))) = inl (h, (zs, e, Kept-last r xs zs x n k))
Kept-last r (y ∷ xs) ys x n (inr (m, k)) = inr (m, Kept-last r xs ys x n k)

module _ (a : Answers) (x : ℕ) (t : RequestThread)
    (depth : is_beyond_depth (length t.active_request + 1) t.pipeline_depth ≡ false) where
  keep_active-room : keep_active a x t ≡ record t { active_request = t.active_request ++ x ∷ [] }
  unfolding keep_active
  keep_active-room =
      let active = t.active_request ++ x ∷ [] in
      let room : is_beyond_depth (length active) t.pipeline_depth ≡ false =
        ap (λ n. is_beyond_depth n t.pipeline_depth) (length-append t.active_request (x ∷ []))
        ∙ depth in
      ap
        (λ b.
          if b
          then wait_on_front a active (record t { active_request = active })
          else record t { active_request = active })
        room

  recycle-Kept : Kept t.requests (t.active_request ++ x ∷ []) (recycle_request a x t).active_request
  unfolding recycle_request swept release_request
  recycle-Kept =
      if_rule
        (λ (u : RequestThread).
          Kept t.requests (t.active_request ++ x ∷ []) (sweep u.active_request u).0)
        (is_any_buf_active (t.requests x)) _ _
        (λ _.
          subst
            (λ (u : RequestThread).
              Kept t.requests (t.active_request ++ x ∷ []) (sweep u.active_request u).0)
            (sym keep_active-room)
            (sweep-Kept (t.active_request ++ x ∷ [])
              (record t { active_request = t.active_request ++ x ∷ [] })))
        (λ e.
          let lacks = inactive_lacks (t.requests x) e in
          let released = release_request x t in
          Kept-last t.requests t.active_request (sweep t.active_request released).0 x lacks (
            Kept-same released.requests t.requests t.active_request
              (sweep t.active_request released).0 (λ y. release_lacks x y t lacks)
              (λ y. release_keeps x y t lacks) (sweep-Kept t.active_request released)))

  -- With no blocked caller nothing else happens to the kept requests.
  unblocked-Kept :
      (recycle_request a x t).block_action ≡ none
      → Kept t.requests (t.active_request ++ x ∷ []) (handle_return_request a x t).0.active_request
  unfolding handle_return_request check_blocked uncount
  unblocked-Kept e =
      let t' = uncount (recycle_request a x t) in
      subst (Kept t.requests (t.active_request ++ x ∷ []))
        (sym (
          (flush_done_requests (check_blocked a t'.block_action t')).1
          ∙ ap (λ o. (check_blocked a o t').0.active_request) e))
        recycle-Kept

-- Which requests are kept, unless a caller is blocked or the pipeline is full.
abbrev pub KeepsHolding : RequestThread → ℕ → RequestThread → Type 0
KeepsHolding t x t' =
    ((action : BlockAction) × (t.block_action ≡ some action))
    ⊎ (IsFull t ⊎ Kept t.requests (t.active_request ++ x ∷ []) t'.active_request)

pub handle_return_request-KeepsHolding :
    (a : Answers) (x : ℕ) (t : RequestThread)
    → (recycle_request a x t).block_action ≡ t.block_action
    → KeepsHolding t x (handle_return_request a x t).0
handle_return_request-KeepsHolding a x t same =
    let room = Bool-cases (is_beyond_depth (length t.active_request + 1) t.pipeline_depth) in
    elim (Option-cases t.block_action) [
      | inl e ↦ inr (elim room [
        | inl full ↦ inl (beyond (length t.active_request) t.pipeline_depth full)
        | inr depth ↦ inr (unblocked-Kept a x t depth (same ∙ e))
      ])
      | inr (action, e) ↦ inl (action, e)
    ]
