-- ===== src/Video/Node/Present.antt =====
-- The two `setBufferPool` and `createBufferPool` of common/v4l2dev/v4l2videonode.cpp.
use hardware_rockchip_camera.Base.{
  ℕ, zero, suc, Bool, true, false, ◌&&◌, ◌||◌, not, List, [], ◌∷◌, Option, none, some, ◌==◌, ltb,
  if◌then◌else◌, length,
}
use hardware_rockchip_camera.Base.Signed.{ℤ, pos, negsuc, is_negative}
use hardware_rockchip_camera.Status.{
  Status, ok, bad_value, bad_type, invalid_operation, unknown_error,
}
use hardware_rockchip_camera.PixelFormat.{PixelFormat}
use hardware_rockchip_camera.Video.Buffer.{V4L2Buffer, assign, userptr, cleared_buffer}
use hardware_rockchip_camera.Video.Node.{
  V4L2VideoNode, V4L2BufferInfo, FrameInfo, prepared, error, is_configured, is_prepared,
  request_buffers,
}
use hardware_rockchip_camera.Video.Node.Pools.{
  memory_userptr, QueryAnswer, new_buffer, read_address,
}

-- V4L2_BUF_FLAG_NO_CACHE_INVALIDATE | V4L2_BUF_FLAG_NO_CACHE_CLEAN of the kernel's header.
abbrev no_cache_flags : ℕ
no_cache_flags = 0x1800

-- The answer to VIDIOC_QUERYBUF for each index.
abbrev pub Driver : Type 0
Driver = ℕ → V4L2Buffer → QueryAnswer

-- `b` is the client's buffer.
unfoldable pub with_address : ℕ → V4L2Buffer → V4L2BufferInfo → V4L2BufferInfo
with_address mem_type b info =
    if mem_type == memory_userptr
    then record info { user_data = read_address (userptr b 0) }
    else info

-- What the loop of `setBufferPool` leaves: the entries of mBufferPool, the client's pool, and whether
-- every query succeeded.
pub record Presenting : Type 0 where
  pub infos : List V4L2BufferInfo
  pub client_pool : List V4L2Buffer
  pub queried : Bool

-- The info that `newBuffer` gets for the client's buffer `b`.
unfoldable pub info_of : ℕ → V4L2BufferInfo → V4L2Buffer → V4L2BufferInfo
unfolding with_address assign
info_of mem_type vinfo b =
    with_address mem_type b (record vinfo { vbuffer = assign vinfo.vbuffer b })

-- The loop of `setBufferPool(std::vector<V4L2Buffer> &, bool, int)` from index `i` on, which keeps
-- one `vinfo` for all buffers and writes each back to the client's pool.
unfoldable pub present_all :
    V4L2VideoNode → ℕ → Driver → ℕ → V4L2BufferInfo → List V4L2Buffer → Presenting
unfolding info_of assign
present_all n mem_type driver i vinfo [] = record { infos = []; client_pool = []; queried = true }
present_all n mem_type driver i vinfo (b ∷ bs) =
    let (info, ret) = new_buffer n i mem_type (info_of mem_type vinfo b) (driver i) in
    let rest = present_all n mem_type driver (suc i) info bs in
    if is_negative ret
    then record { infos = []; client_pool = b ∷ bs; queried = false }
    else record {
      infos = info ∷ rest.infos;
      client_pool = assign b info.vbuffer ∷ rest.client_pool;
      queried = rest.queried;
    }

unfoldable pub template : V4L2VideoNode → Bool → V4L2BufferInfo
template n cached = record {
  user_data = 0;
  length = n.config.size;
  width = n.config.stride;
  height = n.config.height;
  format = n.config.format;
  cache_flags = if cached then 0 else no_cache_flags;
  vbuffer = cleared_buffer;
}

-- The node, the status and the client's pool.
unfoldable pub presented_pool :
    V4L2VideoNode → ℕ → Presenting → V4L2VideoNode × Status × List V4L2Buffer
presented_pool n mem_type l =
    if l.queried
    then (
      record n { buffer_pool = l.infos; memory_type = mem_type; state = prepared },
      ok,
      l.client_pool,
    )
    else (record n { buffer_pool = []; state = error }, unknown_error, l.client_pool)

unfoldable pub is_positive : ℤ → Bool
is_positive (pos n) = ltb 0 n
is_positive (negsuc n) = false

unfoldable pub set_buffer_pool_vector :
    V4L2VideoNode
    → List V4L2Buffer
    → Bool
    → ℕ
    → ℤ
    → ℕ
    → Driver
    → V4L2VideoNode × Status × List V4L2Buffer
unfolding template presented_pool is_positive present_all
set_buffer_pool_vector n pool cached mem_type ret count driver =
    if not (is_configured n.state)
    then (n, invalid_operation, pool)
    else let n = record n { buffer_pool = [] } in
      if not (is_positive (request_buffers n ret count))
      then (n, unknown_error, pool)
      else presented_pool n mem_type (present_all n mem_type driver 0 (template n cached) pool)

-- The comparison of a pool's description with the node's configuration.
same_config : (PixelFormat → PixelFormat → Bool) → FrameInfo → FrameInfo → Bool
same_config same_format a b =
    a.width == b.width
    && a.height == b.height
    && a.stride == b.stride
    && same_format a.format b.format

-- The addresses `pool[0]`, ..., `pool[poolSize - 1]`.
unfoldable pub pool_infos : FrameInfo → Bool → List ℕ → List V4L2BufferInfo
pool_infos f cached [] = []
pool_infos f cached (a ∷ more) =
    record {
      user_data = a;
      length = f.size;
      width = f.stride;
      height = f.height;
      format = f.format;
      cache_flags = if cached then 0 else no_cache_flags;
      vbuffer = cleared_buffer;
    }
    ∷ pool_infos f cached more

unfoldable pub set_buffer_pool_addresses :
    (PixelFormat → PixelFormat → Bool)
    → V4L2VideoNode
    → Option (List ℕ)
    → Option FrameInfo
    → Bool
    → V4L2VideoNode × Status
unfolding same_config pool_infos
set_buffer_pool_addresses same_format n pool frame_info cached =
    if not (is_configured n.state || is_prepared n.state)
    then (n, invalid_operation)
    else elim pool [
      | none ↦ (n, bad_type)
      | some addresses ↦ elim frame_info [
        | none ↦ (n, bad_type)
        | some f ↦ if not (same_config same_format f n.config) then (n, bad_value) else (
          record n { set_buffer_pool = pool_infos f cached addresses; state = prepared },
          ok,
        )
      ]
    ]

-- What the loop of `createBufferPool` leaves: mSetBufferPool, whose entries `newBuffer` gets by
-- reference, the copies in mBufferPool, and the code of the last query.
pub record Loop : Type 0 where
  pub set_pool : List V4L2BufferInfo
  pub active : List V4L2BufferInfo
  pub last : ℤ

abbrev pub prefixed : V4L2BufferInfo → Loop → Loop
prefixed info l = record l { set_pool = info ∷ l.set_pool; active = info ∷ l.active }

-- `none` is a read behind the end of mSetBufferPool, for which `at` throws.
unfoldable pub create_all : V4L2VideoNode → Driver → ℕ → ℕ → List V4L2BufferInfo → Option Loop
create_all n driver i zero infos = some (record { set_pool = infos; active = []; last = pos 0 })
create_all n driver i (suc k) [] = none
create_all n driver i (suc k) (x ∷ xs) =
    let (info, ret) = new_buffer n i memory_userptr x (driver i) in
    let rest = create_all n driver (suc i) k xs in
    if is_negative ret
    then some (record { set_pool = info ∷ xs; active = []; last = ret })
    else elim rest [ none ↦ none | some l ↦ some (prefixed info l) ]

unfoldable pub created : V4L2VideoNode → Option Loop → Option (V4L2VideoNode × ℤ)
created n none = none
created n (some l) = some (
  record n {
    set_buffer_pool = l.set_pool;
    buffer_pool = if is_negative l.last then [] else l.active;
  },
  l.last,
)

unfoldable pub granted : ℤ → ℕ
granted (pos k) = k
granted (negsuc _) = 0

unfoldable pub create_buffer_pool : V4L2VideoNode → ℕ → ℤ → ℕ → Driver → Option (V4L2VideoNode × ℤ)
unfolding created is_positive granted create_all
create_buffer_pool n buffer_count ret count driver =
    if not (is_prepared n.state)
    then some (n, negsuc 0)
    else if ltb (length n.set_buffer_pool) buffer_count
    then some (n, negsuc 0)
    else let num_buffers = request_buffers n ret count in
      if not (is_positive num_buffers)
      then some (n, negsuc 0)
      else created n (create_all n driver 0 (granted num_buffers) n.set_buffer_pool)
