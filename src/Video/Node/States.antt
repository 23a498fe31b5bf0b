-- ===== src/Video/Node/States.antt =====
-- The state machine of V4L2VideoNode (common/v4l2dev/v4l2videonode.cpp) as a whole.
use hardware_rockchip_camera.Base.{
  if◌then◌else◌, ℕ, ◌<◌, ◌^◌, ◌≡◌, ◌⊎◌, Bool, true, false, not, List, Option, none, some, arith,
  subst,
}
use hardware_rockchip_camera.Base.Signed.{ℤ}
use hardware_rockchip_camera.PixelFormat.{PixelFormat}
use hardware_rockchip_camera.Video.Buffer.{V4L2Buffer}
use hardware_rockchip_camera.Video.Node.{
  VideoNodeState, closed, opened, configured, prepared, started, error, is_closed, V4L2VideoNode,
  FrameInfo, OpenAnswers, open_node, close_node, is_nil, destroy_buffer_pool, close_based,
  base_close, is_started, start, stop,
}
use hardware_rockchip_camera.Video.Node.Formats.{DriverFormat, set_pix_format, set_meta_format}
use hardware_rockchip_camera.Video.Node.Pools.{grab_frame, put_frame, put_buffer}
use hardware_rockchip_camera.Video.Node.Present.{
  Driver, set_buffer_pool_vector, set_buffer_pool_addresses, create_buffer_pool,
}

-- The operations that change a node, with what the operating system answers to each.
pub data Operation : Type 0 where
  open_it : OpenAnswers → Operation
  close_it : ℤ → ℤ → Operation
  set_pix_it set_meta_it : ℤ → DriverFormat → Operation
  set_addresses :
      (PixelFormat → PixelFormat → Bool) → Option (List ℕ) → Option FrameInfo → Bool → Operation
  set_vector : List V4L2Buffer → Bool → ℕ → ℤ → ℕ → Driver → Operation
  create_pool : ℕ → ℤ → ℕ → Driver → Operation
  start_it : ℕ → ℤ → Operation
  stop_it : Bool → ℤ → Operation
  grab_it : Bool → ℤ → ℕ → Operation
  put_it : ℕ → ℤ → Operation
  put_buffer_it : V4L2Buffer → ℤ → Operation

-- What the operation may do to the state where it does not leave it as it is.
abbrev pub Edge : Operation → VideoNodeState → VideoNodeState → Type 0
Edge (open_it _) s s' = s' ≡ opened
Edge (close_it _ _) s s' = (s' ≡ closed) ⊎ ((s ≡ started) × (s' ≡ configured))
Edge (set_pix_it _ _) s s' = ((s ≡ opened) ⊎ (s ≡ prepared)) × (s' ≡ configured)
Edge (set_meta_it _ _) s s' = ((s ≡ opened) ⊎ (s ≡ prepared)) × (s' ≡ configured)
Edge (set_addresses _ _ _ _) s s' = (s ≡ configured) × (s' ≡ prepared)
Edge (set_vector _ _ _ _ _ _) s s' = (s ≡ configured) × ((s' ≡ prepared) ⊎ (s' ≡ error))
Edge (create_pool _ _ _ _) s s' = ⊥
Edge (start_it _ _) s s' = (s ≡ prepared) × (s' ≡ started)
Edge (stop_it false _) s s' = ((s ≡ prepared) ⊎ (s ≡ started)) × (s' ≡ configured)
Edge (stop_it true _) s s' = (s ≡ started) × (s' ≡ prepared)
Edge (grab_it _ _ _) s s' = ⊥
Edge (put_it _ _) s s' = ⊥
Edge (put_buffer_it _ _) s s' = ⊥

-- The file is open exactly in the states after DEVICE_CLOSED, and the counter is an `int` that is not
-- negative.
pub record IsSound (n : V4L2VideoNode) : Type 0 where
  pub file_open : n.is_open ≡ not (is_closed n.state)
  pub counter : n.frame_counter < 2 ^ 31

abbrev pub Keeps : Operation → V4L2VideoNode → V4L2VideoNode → Type 0
Keeps op n n' = ((n'.state ≡ n.state) ⊎ Edge op n.state n'.state) × (IsSound n → IsSound n')

-- One call; `none` where `createBufferPool` throws.
unfoldable pub run : Operation → V4L2VideoNode → Option V4L2VideoNode
run (open_it a) n = some (open_node n a).0
run (close_it streamoff ret) n = some (close_node n streamoff ret).0
run (set_pix_it ret f) n = some (set_pix_format n ret f).0
run (set_meta_it ret f) n = some (set_meta_format n ret f).0
run (set_addresses same pool f cached) n = some (set_buffer_pool_addresses same n pool f cached).0
run (set_vector pool cached mem ret count d) n =
    some (set_buffer_pool_vector n pool cached mem ret count d).0
run (create_pool k ret count d) n = elim (create_buffer_pool n k ret count d) [
  | none ↦ none
  | some r ↦ some r.0
]
run (start_it skips ret) n = some (start n skips ret).0
run (stop_it keep ret) n = some (stop n keep ret).0
run (grab_it b ret index) n = some (grab_frame n b ret index).0
run (put_it index ret) n = some (put_frame n index ret).0
run (put_buffer_it b ret) n = some (put_buffer n b ret).0

start-Keeps : (n : V4L2VideoNode) (k : ℕ) (r : ℤ) → Keeps (start_it k r) n (start n k r).0
unfolding start
start-Keeps n k r = ground arith

stop-Keeps : (n : V4L2VideoNode) (b : Bool) (r : ℤ) → Keeps (stop_it b r) n (stop n b r).0
unfolding stop
stop-Keeps n true r = ground arith
stop-Keeps n false r = ground arith

open-Keeps : (n : V4L2VideoNode) (a : OpenAnswers) → Keeps (open_it a) n (open_node n a).0
unfolding open_node
open-Keeps n a = ground arith

abbrev SameFile : V4L2VideoNode → V4L2VideoNode → Type 0
SameFile n m = (m.is_open ≡ n.is_open) × (m.frame_counter ≡ n.frame_counter)

stopped : V4L2VideoNode → ℤ → V4L2VideoNode
stopped n streamoff = if is_started n.state then (stop n false streamoff).0 else n

stopped_lem :
    (n : V4L2VideoNode) (streamoff : ℤ)
    → let m = stopped n streamoff in
      SameFile n m × ((m.state ≡ n.state) ⊎ ((n.state ≡ started) × (m.state ≡ configured)))
unfolding stopped stop
stopped_lem n streamoff = ground arith

emptied : V4L2VideoNode → V4L2VideoNode
emptied n = if is_nil n.buffer_pool then n else destroy_buffer_pool n

emptied_lem : (n : V4L2VideoNode) → SameFile n (emptied n) × ((emptied n).state ≡ n.state)
unfolding emptied destroy_buffer_pool
emptied_lem n = ground arith

closed_lem :
    (n : V4L2VideoNode) (ret : ℤ)
    → let m = (close_based (base_close n ret)).0 in
      (m.frame_counter ≡ n.frame_counter)
      × (((m.is_open ≡ n.is_open) × (m.state ≡ n.state))
          ⊎ ((m.is_open ≡ false) × (m.state ≡ closed)))
unfolding close_based base_close
closed_lem n ret = ground arith

closes :
    (n m m' m'' : V4L2VideoNode) (streamoff ret : ℤ)
    → SameFile n m × ((m.state ≡ n.state) ⊎ ((n.state ≡ started) × (m.state ≡ configured)))
    → SameFile m m' × (m'.state ≡ m.state)
    → (m''.frame_counter ≡ m'.frame_counter)
      × (((m''.is_open ≡ m'.is_open) × (m''.state ≡ m'.state))
          ⊎ ((m''.is_open ≡ false) × (m''.state ≡ closed)))
    → Keeps (close_it streamoff ret) n m''
closes n m m' m'' streamoff ret a b c = ground arith

close-Keeps :
    (n : V4L2VideoNode) (streamoff ret : ℤ)
    → Keeps (close_it streamoff ret) n (close_node n streamoff ret).0
unfolding close_node stopped emptied
close-Keeps n streamoff ret =
    closes n (stopped n streamoff) (emptied (stopped n streamoff)) (close_node n streamoff ret).0
      streamoff ret (stopped_lem n streamoff) (emptied_lem (stopped n streamoff))
      (closed_lem (emptied (stopped n streamoff)) ret)

set_pix-Keeps :
    (n : V4L2VideoNode) (ret : ℤ) (f : DriverFormat)
    → Keeps (set_pix_it ret f) n (set_pix_format n ret f).0
unfolding set_pix_format
set_pix-Keeps n ret f = ground arith

set_meta-Keeps :
    (n : V4L2VideoNode) (ret : ℤ) (f : DriverFormat)
    → Keeps (set_meta_it ret f) n (set_meta_format n ret f).0
unfolding set_meta_format
set_meta-Keeps n ret f = ground arith

addresses-Keeps :
    (n : V4L2VideoNode) (same : PixelFormat → PixelFormat → Bool) (pool : Option (List ℕ))
    (f : Option FrameInfo) (cached : Bool)
    → Keeps (set_addresses same pool f cached) n (set_buffer_pool_addresses same n pool f cached).0
unfolding set_buffer_pool_addresses
addresses-Keeps n same pool f cached = ground arith

grab-Keeps :
    (n : V4L2VideoNode) (b : Bool) (ret : ℤ) (index : ℕ)
    → Keeps (grab_it b ret index) n (grab_frame n b ret index).0
unfolding grab_frame
grab-Keeps n b ret index = ground arith

put-Keeps :
    (n : V4L2VideoNode) (index : ℕ) (ret : ℤ) → Keeps (put_it index ret) n (put_frame n index ret).0
unfolding put_frame
put-Keeps n index ret = ground arith

put_buffer-Keeps :
    (n : V4L2VideoNode) (b : V4L2Buffer) (ret : ℤ)
    → Keeps (put_buffer_it b ret) n (put_buffer n b ret).0
unfolding put_buffer put_frame
put_buffer-Keeps n b ret = ground arith

vector-Keeps :
    (n : V4L2VideoNode) (pool : List V4L2Buffer) (cached : Bool) (mem : ℕ) (ret : ℤ) (count : ℕ)
    (d : Driver)
    → Keeps
        (set_vector pool cached mem ret count d)
        n
        (set_buffer_pool_vector n pool cached mem ret count d).0
unfolding set_buffer_pool_vector
vector-Keeps n pool cached mem ret count d = ground arith

create-Keeps :
    (n n' : V4L2VideoNode) (k : ℕ) (ret : ℤ) (count : ℕ) (d : Driver)
    → run (create_pool k ret count d) n ≡ some n'
    → Keeps (create_pool k ret count d) n n'
unfolding run create_buffer_pool
create-Keeps n n' k ret count d e = ground arith

some_inj {ℓ} : {A : Type ℓ} (P : A → Type 0) (a b : A) → some a ≡ some b → P a → P b
some_inj P a b e h = subst (λ o. elim o [ none ↦ P a | some c ↦ P c ]) e h

-- A call that returns leaves the state as it is or follows the edge of its operation, and a node that
-- is sound stays so.
pub run-Keeps : (op : Operation) (n n' : V4L2VideoNode) → run op n ≡ some n' → Keeps op n n'
unfolding run
run-Keeps (open_it a) n n' e = some_inj (Keeps (open_it a) n) _ n' e (open-Keeps n a)
run-Keeps (close_it s r) n n' e = some_inj (Keeps (close_it s r) n) _ n' e (close-Keeps n s r)
run-Keeps (set_pix_it r f) n n' e = some_inj (Keeps (set_pix_it r f) n) _ n' e (set_pix-Keeps n r f)
run-Keeps (set_meta_it r f) n n' e =
    some_inj (Keeps (set_meta_it r f) n) _ n' e (set_meta-Keeps n r f)
run-Keeps (set_addresses same pool f c) n n' e =
    some_inj (Keeps (set_addresses same pool f c) n) _ n' e (addresses-Keeps n same pool f c)
run-Keeps (set_vector pool c m r k d) n n' e =
    some_inj (Keeps (set_vector pool c m r k d) n) _ n' e (vector-Keeps n pool c m r k d)
run-Keeps (create_pool k r c d) n n' e = create-Keeps n n' k r c d e
run-Keeps (start_it k r) n n' e = some_inj (Keeps (start_it k r) n) _ n' e (start-Keeps n k r)
run-Keeps (stop_it b r) n n' e = some_inj (Keeps (stop_it b r) n) _ n' e (stop-Keeps n b r)
run-Keeps (grab_it b r i) n n' e = some_inj (Keeps (grab_it b r i) n) _ n' e (grab-Keeps n b r i)
run-Keeps (put_it i r) n n' e = some_inj (Keeps (put_it i r) n) _ n' e (put-Keeps n i r)
run-Keeps (put_buffer_it b r) n n' e =
    some_inj (Keeps (put_buffer_it b r) n) _ n' e (put_buffer-Keeps n b r)
