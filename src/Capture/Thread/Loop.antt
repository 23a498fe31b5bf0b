-- ===== src/Capture/Thread/Loop.antt =====
-- handleReturnRequest, flush and the message loop of AAL/RequestThread.cpp.
use hardware_rockchip_camera.Base.{
  ℕ, Bool, true, false, ◌&&◌, List, [], ◌∷◌, Option, none, some, if◌then◌else◌,
}
use hardware_rockchip_camera.Base.Signed.{ℤ, pos, ◌-ℤ◌, eqb_ℤ}
use hardware_rockchip_camera.Status.{Status, ok, no_init}
use hardware_rockchip_camera.Capture.Thread.{
  BlockAction, wait_all_previous, wait_one, wait_all_and_fence, Capture, accepted, blocked, failed,
  RequestThread, Answers, capture_request, recycle_request, wait_requests_drain,
  are_all_streams_under_max_buffers,
}

-- What the loop tells a sender: the reply to processCaptureRequest or to flush.
pub data Reply : Type 0 where
  capture_reply : Status → Reply
  flush_reply : Status → Reply

unfoldable pub uncount : RequestThread → RequestThread
uncount t = record t { requests_in_hal = t.requests_in_hal -ℤ pos 1 }

unfoldable pub retried : Answers → ℕ → RequestThread × Capture → RequestThread × Status
retried a w (t, blocked action) = (t, ok)
retried a w (t, accepted) = (record t { waiting_request = none }, ok)
retried a w (t, failed status) =
    (record (uncount (recycle_request a w t)) { waiting_request = none }, status)

-- The blocked request is sent again; mBlockAction stays what it was.
unfoldable pub retry : Answers → BlockAction → ℕ → RequestThread → RequestThread × Status
unfolding retried uncount
retry a wait_all_and_fence w t = retried a w (capture_request a w (wait_requests_drain a t))
retry a _ w t = retried a w (capture_request a w t)

unfoldable pub is_due : BlockAction → ℤ → Bool
is_due wait_one n = true
is_due wait_all_previous n = eqb_ℤ n (pos 1)
is_due wait_all_and_fence n = eqb_ℤ n (pos 1)

unfoldable pub retry_waiting :
    Answers → BlockAction → Option ℕ → RequestThread → RequestThread × Status
unfolding is_due retry
retry_waiting a action none t = (t, ok)
retry_waiting a action (some w) t =
    if is_due action t.requests_in_hal then retry a action w t else (t, ok)

-- The caller of processCaptureRequest is told once no request waits and the streams have room.
unfoldable pub told : Option ℕ → Bool → RequestThread × Status → RequestThread × List Reply
told (some w) free (t, status) = (t, [])
told none free (t, status) =
    if free then (record t { block_action = none }, capture_reply status ∷ []) else (t, [])

unfoldable pub reply_if_free : RequestThread × Status → RequestThread × List Reply
unfolding told
reply_if_free s = told s.0.waiting_request (are_all_streams_under_max_buffers s.0) s

unfoldable pub check_blocked :
    Answers → Option BlockAction → RequestThread → RequestThread × List Reply
unfolding retry_waiting reply_if_free
check_blocked a none t = (t, [])
check_blocked a (some action) t = reply_if_free (retry_waiting a action t.waiting_request t)

unfoldable pub flush_done : RequestThread × List Reply → RequestThread × List Reply
flush_done (t, replies) =
    if t.flushing && eqb_ℤ t.requests_in_hal (pos 0)
    then (record t { flushing = false }, flush_reply ok ∷ replies)
    else (t, replies)

unfoldable pub handle_return_request : Answers → ℕ → RequestThread → RequestThread × List Reply
unfolding check_blocked flush_done
handle_return_request a x t =
    let t' = uncount (recycle_request a x t) in flush_done (check_blocked a t'.block_action t')

-- MESSAGE_ID_EXIT ends the loop.
unfoldable pub handle_exit : RequestThread → RequestThread × List Reply
handle_exit t = elim t.block_action [
  | none ↦ (t, [])
  | some action ↦ (record t { block_action = none }, capture_reply no_init ∷ [])
]
