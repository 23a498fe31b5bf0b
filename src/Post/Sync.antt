-- ===== src/Post/Sync.antt =====
-- PostProcessPipeLine::OutputBuffersHandler of psl/rkisp1/workers/PostProcessPipeline.cpp: buffers
-- that go back to the listener of the pipeline together. Items and CameraBuffers go by address.
pub mod Together
use hardware_rockchip_camera.Base.{
  ℕ, zero, suc, Bool, true, false, ◌&&◌, ◌||◌, List, [], ◌∷◌, ◌++◌, Option, none, some, ◌==◌, ltb,
  if◌then◌else◌, length,
}
use hardware_rockchip_camera.Base.Signed.{ℤ, pos, ◌-ℤ◌, eqb_ℤ}
use hardware_rockchip_camera.Post.Unit.{PostProcBuffer, Notice}

-- syncItem
pub record SyncItem : Type 0 where
  pub sync_buffers : List PostProcBuffer
  pub sync_nums : ℤ

-- mMayNeedSyncStreamsOutput, mCamBufToSyncItemMap with its items, and the calls of notifyNewFrame of
-- the pipeline's listener, the oldest first.
pub record OutputBuffersHandler : Type 0 where
  pub may_need_sync : Bool
  pub item_of : ℕ → Option ℕ
  pub items : ℕ → SyncItem
  pub told : List Notice

unfoldable pub set_entry {ℓ} : {A : Type ℓ} → ℕ → A → (ℕ → A) → ℕ → A
set_entry k v f x = if x == k then v else f x

tell : Option ℕ → ℤ → PostProcBuffer → OutputBuffersHandler → OutputBuffersHandler
tell settings err b h = record h {
  told = h.told ++ record { buffer = some b; settings = settings; err = err } ∷ [];
}

tell_all : Option ℕ → ℤ → List PostProcBuffer → OutputBuffersHandler → OutputBuffersHandler
unfolding tell
tell_all settings err [] h = h
tell_all settings err (b ∷ bs) h = tell_all settings err bs (tell settings err b h)

-- A buffer of the item `n` is done.
count_down : ℕ → SyncItem → OutputBuffersHandler → OutputBuffersHandler
unfolding set_entry
count_down n item h = record h {
  items = set_entry n (record item { sync_nums = item.sync_nums -ℤ pos 1 }) h.items;
}

erase_entry : ℕ → OutputBuffersHandler → OutputBuffersHandler
unfolding set_entry
erase_entry c h = record h { item_of = set_entry c none h.item_of }

tell_if_last : Option ℕ → ℤ → SyncItem → OutputBuffersHandler → OutputBuffersHandler
unfolding tell_all
tell_if_last settings err item h =
    if eqb_ℤ item.sync_nums (pos 0) then tell_all settings err item.sync_buffers h else h

one_of_item : Option ℕ → ℤ → ℕ → OutputBuffersHandler → OutputBuffersHandler
unfolding count_down tell_if_last
one_of_item settings err n h =
    let h' = count_down n (h.items n) h in tell_if_last settings err (h'.items n) h'

handle_found :
    PostProcBuffer → Option ℕ → ℤ → Option ℕ → OutputBuffersHandler → OutputBuffersHandler
unfolding one_of_item erase_entry tell
handle_found b settings err none h = tell settings err b h
handle_found b settings err (some n) h = erase_entry b.cambuf (one_of_item settings err n h)

-- notifyNewFrame of the handler.
unfoldable pub handle_output :
    PostProcBuffer → Option ℕ → ℤ → OutputBuffersHandler → OutputBuffersHandler
unfolding handle_found tell
handle_output b settings err h =
    if h.may_need_sync
    then handle_found b settings err (h.item_of b.cambuf) h
    else tell settings err b h

-- Whether the frame's own buffer is one of the output buffers.
unfoldable pub is_output : PostProcBuffer → List PostProcBuffer → Bool
is_output b [] = false
is_output b (o ∷ os) = let rest = is_output b os in o.cambuf == b.cambuf || rest

enter_all : ℕ → List PostProcBuffer → (ℕ → Option ℕ) → ℕ → Option ℕ
unfolding set_entry
enter_all n [] f = f
enter_all n (o ∷ os) f = enter_all n os (set_entry o.cambuf (some n) f)

-- `n` is the address of the new item, and `has_handle` whether the frame's buffer has a handle.
unfoldable pub add_sync_buffers_if_need :
    ℕ → Bool → PostProcBuffer → List PostProcBuffer → OutputBuffersHandler → OutputBuffersHandler
unfolding is_output enter_all set_entry
add_sync_buffers_if_need n has_handle b outs h =
    if h.may_need_sync && ltb 1 (length outs) && has_handle && is_output b outs
    then record h {
      item_of = enter_all n outs h.item_of;
      items = set_entry n (record { sync_buffers = outs; sync_nums = pos (length outs) }) h.items;
    }
    else h

-- An output buffer that a last unit of a stream is done with.
pub record Output : Type 0 where
  pub buffer : PostProcBuffer
  pub settings : Option ℕ
  pub err : ℤ

unfoldable pub handle_outputs : List Output → OutputBuffersHandler → OutputBuffersHandler
unfolding handle_output
handle_outputs [] h = h
handle_outputs (o ∷ os) h = handle_outputs os (handle_output o.buffer o.settings o.err h)
