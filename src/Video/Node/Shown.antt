-- ===== src/Video/Node/Shown.antt =====
-- What V4L2VideoNode (common/v4l2dev/v4l2videonode.cpp) shows to the driver of the buffers in its pools.
use hardware_rockchip_camera.Base.{
  ℕ, zero, suc, ◌≡◌, refl, ap, ◌⊎◌, true, false, List, [], ◌∷◌, Option, none, some, arith, length,
}
use hardware_rockchip_camera.Base.Signed.{ℤ, is_negative}
use hardware_rockchip_camera.Video.Buffer.{V4L2Buffer, is_multiplanar}
use hardware_rockchip_camera.Video.Node.{V4L2VideoNode, V4L2BufferInfo, request_buffers}
use hardware_rockchip_camera.Video.Node.Pools.{QueryAnswer, presented, new_buffer, memory_userptr}
use hardware_rockchip_camera.Video.Node.Present.{
  Driver, Loop, create_all, created, create_buffer_pool, granted,
}

-- The buffer `r` is `src`, but has the planes of `dst` where `src` is not multi-planar.
abbrev pub Takes : V4L2Buffer → V4L2Buffer → V4L2Buffer → Type 0
Takes dst src r =
    (record r { planes = [] } ≡ record src { planes = [] })
    × (((is_multiplanar src.type ≡ true) × (r.planes ≡ src.planes))
        ⊎ ((is_multiplanar src.type ≡ false) × (r.planes ≡ dst.planes)))

-- The driver is shown `v` under the index `i`, and fills it in as `info` has it.
abbrev pub ShownAs : V4L2VideoNode → ℕ → Driver → ℕ → V4L2Buffer → V4L2BufferInfo → Type 0
ShownAs n mem_type driver i v info =
    let shown = presented n i mem_type v in
    (shown.index ≡ i)
    × (shown.memory ≡ mem_type)
    × (shown.flags ≡ 0)
    × (is_negative (driver i shown).ret ≡ false)
    × ((driver i shown).filled ≡ info.vbuffer)

-- The buffers `bs` of the client, the infos of the pool, and the client's buffers afterwards; `prev`
-- is the buffer before the first of them.
abbrev pub Presented :
    V4L2VideoNode
    → ℕ
    → Driver
    → ℕ
    → V4L2Buffer
    → List V4L2Buffer
    → List V4L2BufferInfo
    → List V4L2Buffer
    → Type 0
Presented n mem_type driver i prev [] [] [] = Unit {0}
Presented n mem_type driver i prev [] [] (_ ∷ _) = ⊥
Presented n mem_type driver i prev [] (_ ∷ _) cs = ⊥
Presented n mem_type driver i prev (_ ∷ _) [] cs = ⊥
Presented n mem_type driver i prev (_ ∷ _) (_ ∷ _) [] = ⊥
Presented n mem_type driver i prev (b ∷ bs) (info ∷ infos) (c ∷ cs) =
    ((v : V4L2Buffer) × Takes prev b v × ShownAs n mem_type driver i v info)
    × Takes b info.vbuffer c
    × Presented n mem_type driver (suc i) info.vbuffer bs infos cs

-- The client's addresses struck out.
abbrev pub forget : V4L2BufferInfo → V4L2BufferInfo
forget info = record info { user_data = 0 }

abbrev pub forget_all : List V4L2BufferInfo → List V4L2BufferInfo
forget_all [] = []
forget_all (x ∷ xs) = forget x ∷ forget_all xs

abbrev pub forget_node : V4L2VideoNode → V4L2VideoNode
forget_node n = record n {
  set_buffer_pool = forget_all n.set_buffer_pool;
  buffer_pool = forget_all n.buffer_pool;
}

abbrev forget_loop : Option Loop → Option Loop
forget_loop none = none
forget_loop (some l) =
    some (record l { set_pool = forget_all l.set_pool; active = forget_all l.active })

abbrev pub forget_result : Option (V4L2VideoNode × ℤ) → Option (V4L2VideoNode × ℤ)
forget_result none = none
forget_result (some (n, r)) = some (forget_node n, r)

forget-new_buffer :
    (n : V4L2VideoNode) (i : ℕ) (x : V4L2BufferInfo) (d : V4L2Buffer → QueryAnswer)
    → new_buffer (forget_node n) i memory_userptr (forget x) d
      ≡ (forget (new_buffer n i memory_userptr x d).0, (new_buffer n i memory_userptr x d).1)
unfolding new_buffer
forget-new_buffer n i x d = ground arith

forget-create_all :
    (n : V4L2VideoNode) (d : Driver) (i k : ℕ) (xs : List V4L2BufferInfo)
    → create_all (forget_node n) d i k (forget_all xs) ≡ forget_loop (create_all n d i k xs)
unfolding create_all
forget-create_all n d i zero xs = refl
forget-create_all n d i (suc k) [] = refl
forget-create_all n d i (suc k) (x ∷ xs) =
    ground (arith, forget-new_buffer n i x (d i), forget-create_all n d (suc i) k xs)

length-forget_all : (xs : List V4L2BufferInfo) → length (forget_all xs) ≡ length xs
length-forget_all [] = refl
length-forget_all (x ∷ xs) = ap suc (length-forget_all xs)

forget-created :
    (n : V4L2VideoNode) (o : Option Loop)
    → created (forget_node n) (forget_loop o) ≡ forget_result (created n o)
unfolding created
forget-created n none = refl
forget-created n (some l) = ground arith

-- `createBufferPool` makes no use of the addresses that the client gave for its buffers: with all of
-- them struck out it returns the same code, and the same node but for the addresses, so that the driver
-- is shown the same buffers.
pub create_buffer_pool-forget :
    (n : V4L2VideoNode) (buffer_count : ℕ) (ret : ℤ) (count : ℕ) (d : Driver)
    → create_buffer_pool (forget_node n) buffer_count ret count d
      ≡ forget_result (create_buffer_pool n buffer_count ret count d)
unfolding create_buffer_pool request_buffers
create_buffer_pool-forget n buffer_count ret count d = ground (
  arith,
  length-forget_all n.set_buffer_pool,
  forget-create_all n d 0 (granted (request_buffers n ret count)) n.set_buffer_pool,
  forget-created n,
)
