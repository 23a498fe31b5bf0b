-- ===== src/Capture/Thread/Return.antt =====
-- handleReturnRequest of AAL/RequestThread.cpp: the books and the reply to a blocked caller.
use mathlib.Core.List.{append-nil}
use hardware_rockchip_camera.Base.{
  subst, sym, ◌∙◌, ℕ, ◌≡◌, refl, inl, inr, List, [], ◌∷◌, ◌++◌, none, some, Option-cases, if_rule,
  ◌&&◌,
}
use hardware_rockchip_camera.Base.Signed.{pos, eqb_ℤ}
use hardware_rockchip_camera.Capture.Thread.{
  BlockAction, RequestThread, Answers, recycle_request, are_all_streams_under_max_buffers,
}
use hardware_rockchip_camera.Capture.Thread.Loop.{
  Reply, uncount, check_blocked, flush_done, handle_return_request,
}
use hardware_rockchip_camera.Capture.Thread.Fences.{AllHold}
use hardware_rockchip_camera.Capture.Thread.Held.{
  KeepsHolding, handle_return_request_holds, handle_return_request-KeepsHolding,
}
use hardware_rockchip_camera.Capture.Thread.Books.{Books, uncount-Books, recycled-Pooled}
use hardware_rockchip_camera.Capture.Thread.Blocking.{Steady, Steady-Pooled}
use hardware_rockchip_camera.Capture.Thread.Replies.{Sends, Checked, check_blocked-Checked}

flush_done-Checked :
    (a : Answers) (hal : List ℕ) (t : RequestThread) (r : RequestThread × List Reply)
    → Checked a hal t r
    → Checked a hal t (flush_done r)
unfolding flush_done are_all_streams_under_max_buffers
flush_done-Checked a hal t r c =
    if_rule (Checked a hal t) (r.0.flushing && eqb_ℤ r.0.requests_in_hal (pos 0)) _ _
      (λ _. record {
        extra = c.extra;
        sends = elim c.sends [ inl none_more ↦ inl none_more | inr sent ↦ inr sent ];
        books = record { owns = c.books.owns; counted = c.books.counted; parked = c.books.parked };
        outcome = elim c.outcome [
          | inl (status, tells, block, waits) ↦ inl (status, inr tells, block, waits)
          | inr (block, quiet) ↦ inr (block, quiet)
        ];
      })
      (λ _. c)

Checked-Steady :
    (a : Answers) (hal : List ℕ) (t t' : RequestThread) (r : RequestThread × List Reply)
    → t'.block_action ≡ t.block_action
    → are_all_streams_under_max_buffers t' ≡ are_all_streams_under_max_buffers t
    → t'.waiting_request ≡ t.waiting_request
    → Checked a hal t' r
    → Checked a hal t r
Checked-Steady a hal t t' r block room waiting c = record {
  extra = c.extra;
  sends = elim c.sends [
    | inl none_more ↦ inl none_more
    | inr (w, old, free, e) ↦ inr (w, sym waiting ∙ old, free, e)
  ];
  books = c.books;
  outcome = elim c.outcome [
    | inl reply ↦ inl reply
    | inr (same, inl (n, full)) ↦ inr (same ∙ block, inl (n, sym room ∙ full))
    | inr (same, inr (w, e, old, none_more, alone)) ↦
        inr (same ∙ block, inr (w, e, sym waiting ∙ old, none_more, alone))
  ];
}

module _ (a : Answers) (x : ℕ) (before after : List ℕ) (t : RequestThread)
    (b : Books t (before ++ x ∷ after)) where
  returned_Steady : Steady t (recycle_request a x t)
  returned_Steady = Steady-Pooled _ t (recycle_request a x t) (recycled-Pooled a x before after t b)

  -- A return while a caller is blocked.
  pub return_blocked-Checked :
      (action : BlockAction)
      → t.block_action ≡ some action
      → Checked a (before ++ after) t (handle_return_request a x t)
  unfolding handle_return_request uncount are_all_streams_under_max_buffers
  return_blocked-Checked action e =
      let t' = uncount (recycle_request a x t) in
      let steady = returned_Steady in
      let books = uncount-Books a x before after t b in
      let checked = check_blocked-Checked a (before ++ after) t' action books in
      flush_done-Checked a (before ++ after) t (check_blocked a t'.block_action t') (
        Checked-Steady a (before ++ after) t t' (check_blocked a t'.block_action t')
          steady.same_block steady.same_room steady.same_waiting
          (subst (λ o. Checked a (before ++ after) t' (check_blocked a o t'))
            (sym (steady.same_block ∙ e)) checked))

  flush_done-Books :
      (r : RequestThread × List Reply) (hal : List ℕ) → Books r.0 hal → Books (flush_done r).0 hal
  unfolding flush_done
  flush_done-Books r hal c =
      if_rule (λ (s : RequestThread × List Reply). Books s.0 hal)
        (r.0.flushing && eqb_ℤ r.0.requests_in_hal (pos 0)) _ _
        (λ _. record { owns = c.owns; counted = c.counted; parked = c.parked }) (λ _. c)

  return_free-Books :
      t.block_action ≡ none → Books (handle_return_request a x t).0 (before ++ after)
  unfolding handle_return_request check_blocked uncount
  return_free-Books e =
      let t' = uncount (recycle_request a x t) in
      flush_done-Books (check_blocked a t'.block_action t') (before ++ after) (
        subst (λ o. Books (check_blocked a o t').0 (before ++ after))
          (sym (returned_Steady.same_block ∙ e)) (uncount-Books a x before after t b))

  -- When the hardware returns a request, the books still balance: all that is out of the pool is with the hardware, waiting or kept, mRequestsInHAL counts the requests with the hardware and the waiting one, and a waiting request that was sent is with the hardware. Each request that is kept holds a fence that is not signalled. Unless a caller is blocked or the pipeline has no depth for one more, the requests kept are those that hold such a fence, of the ones kept before and the returned one, in order.
  pub handle_return_request-Books :
      (extra : List ℕ) × Sends t (handle_return_request a x t).0 extra
      × Books (handle_return_request a x t).0 ((before ++ after) ++ extra)
      × AllHold (handle_return_request a x t).0
      × KeepsHolding t x (handle_return_request a x t).0
  handle_return_request-Books =
      let holds = handle_return_request_holds a x t in
      let kept = handle_return_request-KeepsHolding a x t returned_Steady.same_block in
      elim (Option-cases t.block_action) [
        | inl e ↦ (
          [],
          inl refl,
          subst (Books _) (sym (append-nil (before ++ after))) (return_free-Books e),
          holds,
          kept,
        )
        | inr (action, e) ↦
            let c = return_blocked-Checked action e in (c.extra, c.sends, c.books, holds, kept)
      ]
