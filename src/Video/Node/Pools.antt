-- ===== src/Video/Node/Pools.antt =====
-- The buffer pools of V4L2VideoNode (common/v4l2dev/v4l2videonode.cpp) and the flow of buffers.
use hardware_rockchip_camera.Base.{
  ℕ, zero, suc, ◌+◌, ◌%◌, ◌^◌, Bool, not, List, [], ◌∷◌, leb, if◌then◌else◌, length,
}
use hardware_rockchip_camera.Base.Signed.{ℤ, pos, negsuc, ◌+ℤ◌, ◌-ℤ◌, is_negative}
use hardware_rockchip_camera.Status.{Status, ok, bad_index, unknown_error}
use hardware_rockchip_camera.Video.Buffer.{
  V4L2Buffer, assign, Read, field, bad_type, no_plane, set_type,
}
use hardware_rockchip_camera.Video.Buffer.{length as buffer_length}
use hardware_rockchip_camera.Video.Node.{V4L2VideoNode, V4L2BufferInfo, is_started}

-- V4L2_MEMORY_USERPTR and V4L2_MEMORY_MMAP of the kernel's header.
abbrev pub memory_mmap : ℕ
memory_mmap = 1

abbrev pub memory_userptr : ℕ
memory_userptr = 2

-- The pool is an array of buffers.
unfoldable pub queue_flags : V4L2VideoNode → V4L2BufferInfo → V4L2Buffer
queue_flags n info =
    let vbuffer = info.vbuffer in
    set_type (record vbuffer { flags = info.cache_flags; memory = n.memory_type }) n.buf_type

-- `qbuf`; `ret` answers VIDIOC_QBUF.
unfoldable pub qbuf : V4L2VideoNode → ℤ → V4L2VideoNode × ℤ
qbuf n ret =
    if is_negative ret
    then (n, ret)
    else (record n { buffers_in_device = n.buffers_in_device +ℤ pos 1 }, ret)

unfoldable pub dqbuf : V4L2VideoNode → ℤ → V4L2VideoNode × ℤ
dqbuf n ret =
    if is_negative ret
    then (n, ret)
    else (record n { buffers_in_device = n.buffers_in_device -ℤ pos 1 }, ret)

-- mFrameCounter++ and & INT_MAX, on a counter of 32 bits.
abbrev pub next_frame : ℕ → ℕ
next_frame c = (c + 1) % 2 ^ 32 % 2 ^ 31

grabbed : V4L2VideoNode × ℤ → ℕ → V4L2VideoNode × ℤ
grabbed (n, ret) index =
    if is_negative ret
    then (n, ret)
    else (record n { frame_counter = next_frame n.frame_counter }, pos index)

-- `ret` answers VIDIOC_DQBUF, which names the buffer `index`.
unfoldable pub grab_frame : V4L2VideoNode → Bool → ℤ → ℕ → V4L2VideoNode × ℤ
unfolding grabbed dqbuf
grab_frame n buf_is_null ret index =
    if not (is_started n.state)
    then (n, negsuc 0)
    else if buf_is_null
    then (n, negsuc 0)
    else grabbed (dqbuf n ret) index

-- What `putFrame(unsigned int)` returns: a code of the driver, or BAD_INDEX.
pub data PutResult : Type 0 where
  driver_code : ℤ → PutResult
  failed : Status → PutResult

unfoldable pub put_frame : V4L2VideoNode → ℕ → ℤ → V4L2VideoNode × PutResult
unfolding qbuf
put_frame n index ret =
    if leb (length n.buffer_pool) index
    then (n, failed bad_index)
    else let (n', r) = qbuf n ret in (n', driver_code r)

update_buffer : List V4L2BufferInfo → ℕ → V4L2Buffer → List V4L2BufferInfo
unfolding assign
update_buffer [] i b = []
update_buffer (x ∷ xs) zero b = record x { vbuffer = assign x.vbuffer b } ∷ xs
update_buffer (x ∷ xs) (suc i) b = x ∷ update_buffer xs i b

put_status : V4L2VideoNode × PutResult → V4L2VideoNode × Status
put_status (n, driver_code (pos _)) = (n, ok)
put_status (n, driver_code (negsuc _)) = (n, unknown_error)
put_status (n, failed _) = (n, unknown_error)

-- `putFrame(const V4L2Buffer &)`
unfoldable pub put_buffer : V4L2VideoNode → V4L2Buffer → ℤ → V4L2VideoNode × Status
unfolding put_status update_buffer put_frame
put_buffer n buf ret =
    if leb (length n.buffer_pool) buf.index
    then (n, bad_index)
    else put_status (
        put_frame (record n { buffer_pool = update_buffer n.buffer_pool buf.index buf }) buf.index
          ret)

-- What VIDIOC_QUERYBUF answers: its code, and the buffer as the driver fills it in.
pub record QueryAnswer : Type 0 where
  pub ret : ℤ
  pub filled : V4L2Buffer

-- The word of 32 bits that a getter returns: BAD_VALUE is -22.
abbrev pub read_word : Read → ℕ
read_word (field n) = n
read_word bad_type = 4294967274
read_word no_plane = 0

-- The address that userptr returns: BAD_VALUE as an unsigned long of 64 bits.
abbrev pub read_address : Read → ℕ
read_address (field n) = n
read_address bad_type = 18446744073709551594
read_address no_plane = 0

-- The buffer that `newBuffer` presents to VIDIOC_QUERYBUF.
unfoldable pub presented : V4L2VideoNode → ℕ → ℕ → V4L2Buffer → V4L2Buffer
presented n index mem_type b =
    let typed = set_type (record b { flags = 0; memory = mem_type }) n.buf_type in
    record typed { index = index }

-- On success the buffer is as the driver filled it. For V4L2_MEMORY_USERPTR the code then calls
-- `vbuf.userptr(data)`, which is the getter and stores nothing.
unfoldable pub new_buffer :
    V4L2VideoNode → ℕ → ℕ → V4L2BufferInfo → (V4L2Buffer → QueryAnswer) → V4L2BufferInfo × ℤ
unfolding presented
new_buffer n index mem_type info query =
    let shown = presented n index mem_type info.vbuffer in
    let answer = query shown in
    if is_negative answer.ret then (record info { vbuffer = shown }, answer.ret) else (
      record info { vbuffer = answer.filled; length = read_word (buffer_length answer.filled 0) },
      answer.ret,
    )
