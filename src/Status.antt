-- ===== src/Status.antt =====
-- The status_t codes that the modelled code returns (utils/Errors.h, and the request-blocking codes
-- of AAL/ICameraHw.h). `ok` is OK and NO_ERROR, which are one number.
use hardware_rockchip_camera.Base.{Bool, true, false}

pub data Status : Type 0 where
  ok bad_value bad_type bad_index invalid_operation unknown_error no_init would_block : Status
  no_memory dead_object : Status

abbrev pub is_ok : Status → Bool
is_ok ok = true
is_ok _ = false
