-- ===== src/Video/Node/History.antt =====
-- Histories of calls of a V4L2VideoNode (common/v4l2dev/v4l2videonode.cpp).
use hardware_rockchip_camera.Base.{
  ℕ, ◌+◌, ◌%◌, ◌^◌, ◌<◌, ◌≡◌, refl, ◌⊎◌, inl, inr, false, List, [], ◌∷◌, Option, none, some, arith,
  Option-cases, length,
}
use hardware_rockchip_camera.Base.Signed.{ℤ, pos, ◌+ℤ◌, ◌-ℤ◌, is_negative}
use hardware_rockchip_camera.Status.{bad_index}
use hardware_rockchip_camera.Video.Node.{configured, prepared, started, V4L2VideoNode, stop}
use hardware_rockchip_camera.Video.Node.Pools.{next_frame, failed, grab_frame, put_frame}
use hardware_rockchip_camera.Video.Node.States.{Operation, start_it, run, run-Keeps, IsSound}

unfoldable pub run_all : List Operation → V4L2VideoNode → Option V4L2VideoNode
run_all [] n = some n
run_all (op ∷ ops) n = elim (run op n) [ none ↦ none | some n' ↦ run_all ops n' ]

-- After any history of calls that return, the file is open exactly in the states after DEVICE_CLOSED,
-- and the frame counter is not negative as an `int`, if this was so at first.
pub run_all-IsSound :
    (ops : List Operation) (n n' : V4L2VideoNode) → IsSound n → run_all ops n ≡ some n' → IsSound n'
unfolding run_all
run_all-IsSound [] n n' h e = ground arith
run_all-IsSound (op ∷ ops) n n' h e = elim (Option-cases (run op n)) [
  | inl q ↦ absurd (ground arith)
  | inr (m, q) ↦ run_all-IsSound ops m n' ((run-Keeps op n m q).1 h) (ground arith)
]

-- The operation is a call of `start`.
abbrev pub IsStart : Operation → Type 0
IsStart (start_it _ _) = Unit {0}
IsStart _ = ⊥

-- A node that streams after a call streamed before it, or the call was `start` on a prepared node.
pub run_starts :
    (op : Operation) (n n' : V4L2VideoNode)
    → run op n ≡ some n'
    → n'.state ≡ started
    → (n.state ≡ started) ⊎ (IsStart op × (n.state ≡ prepared))
run_starts op n n' e s = ground (arith, (run-Keeps op n n' e).0)

-- Stopping a stream without keeping its buffers, where VIDIOC_STREAMOFF succeeds, leaves the node configured and every index out of
-- range, while mBuffersInDevice keeps counting the buffers that were queued.
pub stop_keeps_count :
    (n : V4L2VideoNode) (streamoff : ℤ)
    → n.state ≡ started
    → is_negative streamoff ≡ false
    → let stopped = (stop n false streamoff).0 in
      (stopped.state ≡ configured)
      × (stopped.buffers_in_device ≡ n.buffers_in_device)
      × ((index : ℕ) (ret : ℤ) → put_frame stopped index ret ≡ (stopped, failed bad_index))
unfolding stop put_frame
stop_keeps_count n streamoff h e = ground arith

add_sub_one : (a : ℤ) → a +ℤ pos 1 -ℤ pos 1 ≡ a
unfolding ◌+ℤ◌ ◌-ℤ◌
add_sub_one a = ground arith

put_accepted :
    (n : V4L2VideoNode) (index r : ℕ)
    → index < length n.buffer_pool
    → (put_frame n index (pos r)).0 ≡ record n { buffers_in_device = n.buffers_in_device +ℤ pos 1 }
unfolding put_frame
put_accepted n index r l = ground arith

grab_accepted :
    (n : V4L2VideoNode) (index r : ℕ)
    → n.state ≡ started
    → grab_frame n false (pos r) index ≡ (
      record n {
        buffers_in_device = n.buffers_in_device -ℤ pos 1;
        frame_counter = next_frame n.frame_counter;
      },
      pos index,
    )
unfolding grab_frame
grab_accepted n index r h = ground arith

-- On a streaming node, queueing a buffer of the pool and taking one back, where the driver accepts both,
-- leaves the pool and mBuffersInDevice as they were; the frame counter goes up by one, and from
-- 2 ^ 31 - 1 to 0.
pub grab_frame-put_frame :
    (n : V4L2VideoNode) (index index' : ℕ) (r r' : ℕ)
    → n.state ≡ started
    → index < length n.buffer_pool
    → n.frame_counter < 2 ^ 31
    → let (m, result) = grab_frame (put_frame n index (pos r)).0 false (pos r') index' in
      (result ≡ pos index')
      × (m.buffers_in_device ≡ n.buffers_in_device)
      × (m.frame_counter ≡ (n.frame_counter + 1) % 2 ^ 31)
      × (m.buffer_pool ≡ n.buffer_pool)
grab_frame-put_frame n index index' r r' h l c = rw (put_accepted n index r l) (
    rw (grab_accepted (record n { buffers_in_device = n.buffers_in_device +ℤ pos 1 }) index' r' h)
      (refl, add_sub_one n.buffers_in_device, omega arith, refl))
