-- ===== src/Tests/Parts.antt =====
-- The parts under common/ on concrete inputs.
use mathlib.Core.List.{perm_middle}
use hardware_rockchip_camera.Base.{
  ℕ, ◌<◌, ◌≡◌, refl, inr, ◌≢◌, true, false, [], ◌∷◌, ◌++◌, none, some, arith, set,
}
use hardware_rockchip_camera.Base.Signed.{pos, negsuc}
use hardware_rockchip_camera.Status.{ok, bad_index, would_block}
use hardware_rockchip_camera.Pool.Items.{ItemPool, empty_pool, init, acquire_item, release_item}
use hardware_rockchip_camera.Pool.Items.Owned.{
  Owns, Acquires, init-Owns, acquire_item-Owns, release_item-Owns,
}
use hardware_rockchip_camera.Window.{CameraWindow, Range, is_valid, clip}
use hardware_rockchip_camera.Window.Clip.{Inside, clip-Inside}
use hardware_rockchip_camera.Messages.{MessageQueue, waits, send, reply, woken}
use hardware_rockchip_camera.Messages.Reply.{reply_in_range, send_blocks_until_reply}
use hardware_rockchip_camera.Video.Buffer.{V4L2Buffer, video_capture_mplane, cleared_plane}

abbrev pool : ItemPool
pool = init empty_pool 100 3

pool-Owns : Owns pool []
pool-Owns = init-Owns empty_pool 100 3 (omega arith) (inr refl)

acquire_item-Owns_example : Acquires pool [] (acquire_item pool false)
acquire_item-Owns_example = acquire_item-Owns pool [] pool-Owns

-- The pool after an item went out.
abbrev taken : ItemPool
taken = (acquire_item pool false).0

taken-Owns : Owns taken (100 ∷ [])
unfolding init acquire_item
taken-Owns = record { allocated = omega arith; all_there = perm_middle (101 ∷ 102 ∷ []) [] }

release_item-Owns_example :
    (q : ItemPool) × (release_item taken 100 ≡ (q, ok))
    × Owns q []
    × (q.items_in_pool ≡ taken.items_in_pool ++ 100 ∷ [])
    × (q.pool_size ≡ taken.pool_size)
release_item-Owns_example = release_item-Owns taken [] [] 100 taken-Owns

abbrev window : ℕ → ℕ → CameraWindow
window a b = record {
  x_left = pos a;
  x_right = pos b;
  y_top = pos a;
  y_bottom = pos b;
  weight = pos 1;
  width = pos 10;
  height = pos 10;
  center = record { x = pos 0; y = pos 0 };
}

window_valid : (is_valid (window 0 10) ≡ true) × (is_valid (window 5 15) ≡ true)
unfolding is_valid
window_valid = (refl, refl)

clip-Inside_example :
    let clipped = clip (window 0 10) (window 5 15) in
    (Inside (pos 7) (pos 5) clipped
      → Inside (pos 7) (pos 5) (window 0 10) × Inside (pos 7) (pos 5) (window 5 15))
    × (Inside (pos 7) (pos 5) (window 0 10) × Inside (pos 7) (pos 5) (window 5 15)
        → Inside (pos 7) (pos 5) clipped)
clip-Inside_example =
    clip-Inside (window 0 10) (window 5 15) window_valid.0 window_valid.1 (pos 7) (pos 5)

abbrev low : Range
low = record { start = negsuc 3; stop = pos 6 }

abbrev high : Range
high = record { start = pos 2; stop = pos 9 }

abbrev queue : MessageQueue ℕ
queue = record { messages = 8 ∷ 7 ∷ []; num_reply = 2; reply_status = ok ∷ ok ∷ [] }

reply_in_range_example :
    (1 < 2
      → reply queue (pos 1) ok ≡ some (record queue { reply_status = set queue.reply_status 1 ok }))
    × (◌≡◌ {A = ℕ} 1 2 → reply queue (pos 1) ok ≡ none)
    × (2 < 1 → reply queue (pos 1) ok ≡ some queue)
reply_in_range_example = reply_in_range queue 1 ok refl

ok_answers : ok ≢ would_block
ok_answers e = cc

one_two : ◌≢◌ {A = ℕ} 0 1
one_two e = omega arith

send_blocks_until_reply_example :
    let (sent, result) = send queue 9 (pos 1) in
    (result ≡ waits 1)
    × (woken sent 1 ≡ none)
    × ((q' : MessageQueue ℕ) × (reply sent (pos 0) bad_index ≡ some q') × (woken q' 1 ≡ none))
    × ((q' : MessageQueue ℕ) × (reply sent (pos 1) ok ≡ some q') × (woken q' 1 ≡ some ok))
send_blocks_until_reply_example =
    send_blocks_until_reply queue 9 1 0 ok bad_index refl (omega arith) (omega arith) one_two
      ok_answers

abbrev two_planes : V4L2Buffer
two_planes = record {
  index = 3;
  type = video_capture_mplane;
  flags = 0;
  memory = 1;
  bytesused = 0;
  length = 2;
  m = 0;
  planes = cleared_plane ∷ cleared_plane ∷ [];
}
