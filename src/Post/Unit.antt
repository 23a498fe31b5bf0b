-- ===== src/Post/Unit.antt =====
-- PostProcessUnit of psl/rkisp1/workers/PostProcessPipeline.cpp and .h: the queues of a unit, the
-- rounds of its thread and what its listeners are told. A round of the thread and a call of a client
-- are steps, since both share no more than the queues, which the lock protects.
pub mod Deliver
pub mod Forward
pub mod Skipped
use mathlib.Core.Option
use hardware_rockchip_camera.Base.{
  ℕ, zero, suc, Bool, true, false, not, ◌&&◌, List, [], ◌∷◌, ◌++◌, Option, none, some, ◌==◌,
  if◌then◌else◌,
}
use hardware_rockchip_camera.Base.Signed.{ℤ, pos, negsuc, eqb_ℤ}
use hardware_rockchip_camera.Status.{Status, ok, unknown_error}

-- A buffer, by the address of its CameraBuffer and the id of its request.
pub record PostProcBuffer : Type 0 where
  pub cambuf : ℕ
  pub request_id : ℕ

-- kPostProcBufTypeInt, kPostProcBufTypePre and kPostProcBufTypeExt.
pub data PostProcBufType : Type 0 where
  internal previous external : PostProcBufType

-- The arguments of a call of notifyListeners; settings are the id of their request.
pub record Notice : Type 0 where
  pub buffer : Option PostProcBuffer
  pub settings : Option ℕ
  pub err : ℤ

-- `notices` holds the calls of notifyListeners, the oldest first.
pub record PostProcessUnit : Type 0 where
  pub buf_type : PostProcBufType
  pub enable : Bool
  pub sync_process : Bool
  pub thread_running : Bool
  pub in_buffers : List (PostProcBuffer × ℕ)
  pub out_buffers : List PostProcBuffer
  pub cur_in : Option PostProcBuffer
  pub cur_settings : Option ℕ
  pub cur_out : Option PostProcBuffer
  pub notices : List Notice

-- What processFrame and the listeners return, whether waitOnAcquireFence succeeds, and the buffer
-- that the internal pool leaves in mCurPostProcBufOut for the frame of a request.
pub record UnitAnswers : Type 0 where
  pub process_frame : PostProcBuffer → PostProcBuffer → Option ℕ → ℤ
  pub listeners : Notice → ℤ
  pub fence_signaled : PostProcBuffer → Bool
  pub internal_buffer : ℕ → Option PostProcBuffer

-- STATUS_NEED_NEXT_INPUT_FRAME is -EAGAIN.
abbrev pub need_next_input_frame : ℤ
need_next_input_frame = negsuc 10

-- STATUS_FORWRAD_TO_NEXT_UNIT
abbrev pub forward_to_next_unit : ℤ
forward_to_next_unit = pos 1

unfoldable pub construct_unit : PostProcBufType → PostProcessUnit
construct_unit buf_type = record {
  buf_type = buf_type;
  enable = true;
  sync_process = false;
  thread_running = false;
  in_buffers = [];
  out_buffers = [];
  cur_in = none;
  cur_settings = none;
  cur_out = none;
  notices = [];
}

unfoldable pub notify_listeners : UnitAnswers → Notice → PostProcessUnit → PostProcessUnit × ℤ
notify_listeners a n u = (record u { notices = u.notices ++ n ∷ [] }, a.listeners n)

cleared : PostProcessUnit → PostProcessUnit
cleared u = record u { cur_in = none; cur_settings = none; cur_out = none }

relayed : PostProcessUnit × ℤ → PostProcessUnit × ℤ
unfolding cleared
relayed (u, status) = (cleared u, status)

abbrev pub is_external : PostProcBufType → Bool
is_external internal = false
is_external previous = false
is_external external = true

relay_output : UnitAnswers → ℤ → PostProcessUnit → Option PostProcBuffer → PostProcessUnit × ℤ
unfolding notify_listeners
relay_output a err u none = (u, pos 0)
relay_output a err u (some o) =
    notify_listeners a (record { buffer = some o; settings = u.cur_settings; err = err }) u

unfoldable pub relay_to_next_proc_unit : UnitAnswers → ℤ → PostProcessUnit → PostProcessUnit × ℤ
unfolding relay_output relayed notify_listeners
relay_to_next_proc_unit a err u =
    if eqb_ℤ err need_next_input_frame
    then (record u { cur_in = none; cur_settings = none }, err)
    else if eqb_ℤ err forward_to_next_unit && not (is_external u.buf_type)
    then relayed
        (notify_listeners a (record { buffer = u.cur_in; settings = u.cur_settings; err = err }) u)
    else relayed (relay_output a err u u.cur_out)

relay_without_output : UnitAnswers → Option PostProcBuffer → PostProcessUnit → PostProcessUnit
unfolding relay_to_next_proc_unit
relay_without_output a none u = (relay_to_next_proc_unit a forward_to_next_unit u).0
relay_without_output a (some o) u = u

-- The end of prepareProcess.
relay_if_no_output : UnitAnswers → PostProcessUnit → PostProcessUnit
unfolding relay_without_output
relay_if_no_output a u = relay_without_output a u.cur_out u

-- The first output buffer is of the frame's request.
wait_on_output : UnitAnswers → PostProcBuffer → PostProcessUnit → PostProcessUnit
unfolding relay_to_next_proc_unit
wait_on_output a o u = if a.fence_signaled o then u else (relay_to_next_proc_unit a (pos 0) u).0

take_output : UnitAnswers → ℕ → List PostProcBuffer → PostProcessUnit → PostProcessUnit
unfolding relay_if_no_output wait_on_output
take_output a s [] u = relay_if_no_output a u
take_output a s (o ∷ os) u =
    if s == o.request_id
    then relay_if_no_output a (wait_on_output a o (record u { cur_out = some o; out_buffers = os }))
    else u

choose_output : UnitAnswers → ℕ → PostProcBufType → PostProcessUnit → PostProcessUnit
unfolding relay_if_no_output take_output
choose_output a s internal u = relay_if_no_output a (record u { cur_out = a.internal_buffer s })
choose_output a s previous u = relay_if_no_output a (record u { cur_out = u.cur_in })
choose_output a s external u = take_output a s u.out_buffers u

-- prepareProcess with the first frame of mInBufferPool.
take_frame :
    UnitAnswers → PostProcBuffer × ℕ → List (PostProcBuffer × ℕ) → PostProcessUnit → PostProcessUnit
unfolding choose_output
take_frame a (b, s) rest u =
    let u' = record u { cur_in = some b; cur_settings = some s; in_buffers = rest } in
    elim u.cur_out [ none ↦ choose_output a s u.buf_type u' | some o ↦ u' ]

prepare_running : UnitAnswers → List (PostProcBuffer × ℕ) → PostProcessUnit → Option PostProcessUnit
unfolding take_frame
prepare_running a [] u = none
prepare_running a (i ∷ rest) u = some (take_frame a i rest u)

-- The result none: the thread waits for a frame.
unfoldable pub prepare_process : UnitAnswers → PostProcessUnit → Option PostProcessUnit
unfolding prepare_running
prepare_process a u = if u.thread_running then prepare_running a u.in_buffers u else some u

process_with :
    UnitAnswers
    → ℤ
    → Option PostProcBuffer
    → Option PostProcBuffer
    → PostProcessUnit
    → PostProcessUnit × ℤ
unfolding relay_to_next_proc_unit
process_with a status (some b) (some o) u =
    relay_to_next_proc_unit a (a.process_frame b o u.cur_settings) u
process_with a status (some b) none u = (u, status)
process_with a status none o u = (u, status)

process_current : UnitAnswers → ℤ → PostProcessUnit → PostProcessUnit × ℤ
unfolding process_with
process_current a status u = process_with a status u.cur_in u.cur_out u

-- A round of the loop of doProcess.
unfoldable pub process_round : UnitAnswers → ℤ → PostProcessUnit → Option (PostProcessUnit × ℤ)
unfolding prepare_process process_current
process_round a status u = Option.map (process_current a status) (prepare_process a u)

-- The loop takes a frame in each round, and with no frame it waits or ends.
do_rounds : UnitAnswers → List (PostProcBuffer × ℕ) → ℤ → PostProcessUnit → Option PostProcessUnit
unfolding process_round
do_rounds a [] status u = Option.map (λ r. r.0) (process_round a status u)
do_rounds a (i ∷ rest) status u = elim (process_round a status u) [
  | none ↦ none
  | some (u', status') ↦
      let next = do_rounds a rest status' u' in
      if u'.thread_running && eqb_ℤ status' need_next_input_frame then next else some u'
]

unfoldable pub do_process : UnitAnswers → PostProcessUnit → Option (PostProcessUnit × ℤ)
unfolding do_rounds
do_process a u = Option.map (λ u'. (u', pos 0)) (do_rounds a u.in_buffers (pos 0) u)

-- The result none: the caller waits.
unfoldable pub notify_new_frame :
    UnitAnswers → PostProcBuffer → ℕ → ℤ → PostProcessUnit → Option (PostProcessUnit × ℤ)
unfolding notify_listeners do_process
notify_new_frame a b s err u =
    if not u.thread_running
    then some (u, pos 0)
    else if not u.enable
    then some (notify_listeners a (record { buffer = some b; settings = some s; err = err }) u)
    else if u.sync_process
    then do_process a u
    else some (record u { in_buffers = u.in_buffers ++ (b, s) ∷ [] }, pos 0)

unfoldable pub add_output_buffer : PostProcBuffer → PostProcessUnit → PostProcessUnit × Status
add_output_buffer o u =
    if is_external u.buf_type
    then (record u { out_buffers = u.out_buffers ++ o ∷ [] }, ok)
    else (u, unknown_error)

flush_outputs : UnitAnswers → List PostProcBuffer → PostProcessUnit → PostProcessUnit
unfolding notify_listeners
flush_outputs a [] u = u
flush_outputs a (o ∷ os) u =
    flush_outputs a os
      (notify_listeners a (record { buffer = some o; settings = none; err = negsuc 0 }) u).0

unfoldable pub flush_unit : UnitAnswers → PostProcessUnit → PostProcessUnit
unfolding flush_outputs cleared
flush_unit a u =
    let u' = flush_outputs a u.out_buffers (record u { in_buffers = [] }) in
    cleared (record u' { out_buffers = [] })

unfoldable pub set_enable : Bool → PostProcessUnit → PostProcessUnit
set_enable enable u = record u { enable = enable }

unfoldable pub set_process_sync : Bool → PostProcessUnit → PostProcessUnit
set_process_sync sync u = record u { sync_process = sync }

unfoldable pub start_unit : PostProcessUnit → PostProcessUnit
start_unit u = record u { thread_running = true }

unfoldable pub stop_unit : PostProcessUnit → PostProcessUnit
stop_unit u = record u { thread_running = false }

is_none : Option PostProcBuffer → Bool
is_none none = true
is_none (some o) = false

no_frame : List (PostProcBuffer × ℕ) → Bool
no_frame [] = true
no_frame (i ∷ rest) = false

-- What drain waits for, 500 ms at most.
unfoldable pub is_drained : PostProcessUnit → Bool
unfolding is_none no_frame
is_drained u = no_frame u.in_buffers && is_none u.cur_in && is_none u.cur_out

-- What happens to a unit: a frame from the unit before it, an output buffer, a round of its thread.
pub data UnitEvent : Type 0 where
  frame : PostProcBuffer → ℕ → ℤ → UnitEvent
  output : PostProcBuffer → UnitEvent
  round : UnitEvent

waited : PostProcessUnit → Option (PostProcessUnit × ℤ) → PostProcessUnit
waited u none = u
waited u (some (u', status)) = u'

-- A thread or a caller that waits changes nothing.
unfoldable pub unit_event : UnitAnswers → UnitEvent → PostProcessUnit → PostProcessUnit
unfolding waited notify_new_frame process_round add_output_buffer
unit_event a (frame b s err) u = waited u (notify_new_frame a b s err u)
unit_event a (output o) u = (add_output_buffer o u).0
unit_event a round u = waited u (process_round a (pos 0) u)

unfoldable pub unit_events : UnitAnswers → List UnitEvent → PostProcessUnit → PostProcessUnit
unfolding unit_event
unit_events a [] u = u
unit_events a (e ∷ es) u = unit_events a es (unit_event a e u)
