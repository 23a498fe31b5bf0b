-- ===== src/Capture/Hal.antt =====
-- Camera3HAL::configure_streams of AAL/Camera3HAL.cpp, on RequestThread: the call waits until the
-- message thread has handled the message, and gets its status.
pub mod Configured
use mathlib.Core.Option
use hardware_rockchip_camera.Base.{ℕ, List, [], ◌∷◌, Option, none, some, if◌then◌else◌}
use hardware_rockchip_camera.Base.Signed.{ℤ, pos, negsuc}
use hardware_rockchip_camera.Status.{Status, is_ok}
use hardware_rockchip_camera.Capture.Thread.{RequestThread, Answers}
use hardware_rockchip_camera.Capture.Thread.Configure.{HwAnswers, handle_configure_streams}

-- -EINVAL
abbrev pub einval : ℤ
einval = negsuc 21

-- The streams of an array of pointers, or none where one is nullptr.
unfoldable pub all_set : List (Option ℕ) → Option (List ℕ)
all_set [] = some []
all_set (none ∷ ps) = none
all_set (some s ∷ ps) = Option.map (λ ss. s ∷ ss) (all_set ps)

-- The streams of a camera3_stream_configuration_t. The outer Option is the pointer to it, the inner
-- one its pointer to the array.
unfoldable pub listed_streams : Option (Option (List (Option ℕ))) → Option (List ℕ)
unfolding all_set
listed_streams none = none
listed_streams (some none) = none
listed_streams (some (some [])) = none
listed_streams (some (some (p ∷ ps))) = all_set (p ∷ ps)

unfoldable pub configure_code : Status → ℤ
configure_code status = if is_ok status then pos 0 else einval

with_code : RequestThread × Status → RequestThread × ℤ
unfolding configure_code
with_code (t, status) = (t, configure_code status)

unfoldable pub configure_listed :
    Answers → HwAnswers → RequestThread → Option (List ℕ) → Option (RequestThread × ℤ)
unfolding with_code
configure_listed a hw t none = some (t, einval)
configure_listed a hw t (some list) = Option.map with_code (handle_configure_streams a hw list t)

unfoldable pub configure_streams :
    Answers
    → HwAnswers
    → Option (Option (List (Option ℕ)))
    → RequestThread
    → Option (RequestThread × ℤ)
unfolding configure_listed listed_streams
configure_streams a hw list t = configure_listed a hw t (listed_streams list)
