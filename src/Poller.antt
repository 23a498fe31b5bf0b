-- ===== src/Poller.antt =====
-- PollerThread (common/PollerThread.cpp) and V4L2DeviceBase::pollDevices
-- (common/v4l2dev/v4l2devicebase.cpp). Devices are addresses; what poll answers is an argument.
pub mod Outcomes
use Prim.Native.Nat.{bit_and}
use hardware_rockchip_camera.Base.{
  ℕ, suc, Bool, true, false, ◌&&◌, ◌||◌, not, List, [], ◌∷◌, Option, none, some, ◌==◌,
  if◌then◌else◌, length,
}
use hardware_rockchip_camera.Base.Signed.{ℤ, pos, negsuc, leb_ℤ}
use hardware_rockchip_camera.Status.{Status, ok, bad_value, no_init, would_block, is_ok}

-- POLLIN, POLLPRI and POLLERR of the system's header.
abbrev pub pollin : ℕ
pollin = 1

abbrev pub pollpri : ℕ
pollpri = 2

abbrev pub pollerr : ℕ
pollerr = 8

-- revents & events
unfoldable pub has_event : ℕ → ℕ → Bool
has_event revents events = not (bit_and revents events == 0)

-- What poll returns, and the `revents` it leaves: those of the devices, by index, and of the pipe.
pub record PollAnswer : Type 0 where
  pub ret : ℤ
  pub revents : ℕ → ℕ
  pub flush_revents : ℕ

-- The devices with and without data, and what pollDevices returns.
pub record Polled : Type 0 where
  pub active : List ℕ
  pub inactive : List ℕ
  pub ret : ℤ

-- The loop over the devices from index `i` on, which ends at the first one with POLLERR.
unfoldable pub split_devices : PollAnswer → ℕ → ℕ → List ℕ → Polled
split_devices a events i [] = record { active = []; inactive = []; ret = a.ret }
split_devices a events i (d ∷ ds) =
    let rest = split_devices a events (suc i) ds in
    if has_event (a.revents i) pollerr
    then record { active = []; inactive = []; ret = negsuc 0 }
    else if has_event (a.revents i) events
    then record rest { active = d ∷ rest.active }
    else record rest { inactive = d ∷ rest.inactive }

unfoldable pub is_flushed : Bool → PollAnswer → Bool
is_flushed flush_fd a =
    flush_fd && (has_event a.flush_revents pollin || has_event a.flush_revents pollpri)

-- `flush_fd` says whether flushFd is not -1. The lists stay as they were where poll times out or
-- fails.
unfoldable pub poll_devices : List ℕ → List ℕ → List ℕ → Bool → ℕ → PollAnswer → Polled
unfolding split_devices is_flushed
poll_devices devices active inactive flush_fd events a =
    if leb_ℤ a.ret (pos 0)
    then record { active = active; inactive = inactive; ret = a.ret }
    else if is_flushed flush_fd a
    then record { active = []; inactive = []; ret = a.ret }
    else split_devices a events 0 devices

-- `flush_fd` says whether the pipe is open.
pub record PollerThread : Type 0 where
  pub polling_devices : List ℕ
  pub active_devices : List ℕ
  pub inactive_devices : List ℕ
  pub flush_fd : Bool
  pub events : ℕ
  pub has_listener : Bool
  pub thread_running : Bool

-- IPollEventListener::PollEventMessage
pub record PollEvent : Type 0 where
  pub is_error : Bool
  pub req_id : ℕ
  pub active : List ℕ
  pub inactive : List ℕ
  pub polled : List ℕ
  pub poll_status : ℤ

-- What the listener returns, and the devices to poll, which it may change.
pub record ListenerAnswer : Type 0 where
  pub status : Status
  pub polling : List ℕ

-- The pipe's two calls answer below 0 for a failure.
unfoldable pub handle_init : ℤ → ℤ → List ℕ → Bool → ℕ → PollerThread → PollerThread × Status
handle_init pipe_ret fcntl_ret devices has_observer events p =
    if leb_ℤ pipe_ret (negsuc 0)
    then (record p { flush_fd = false }, no_init)
    else let opened = record p { flush_fd = true } in
      if leb_ℤ fcntl_ret (negsuc 0)
      then (opened, no_init)
      else if (length devices == 0) || not has_observer
      then (opened, bad_value)
      else (record opened { polling_devices = devices; events = events; has_listener = true }, ok)

notify : PollerThread → ListenerAnswer → PollerThread × Status
notify p answer =
    if p.has_listener
    then (record p { polling_devices = answer.polling }, answer.status)
    else (p, bad_value)

event_of : PollerThread → ℕ → ℤ → PollEvent
event_of p req_id ret = record {
  is_error = leb_ℤ ret (pos 0);
  req_id = req_id;
  active = p.active_devices;
  inactive = p.inactive_devices;
  polled = p.polling_devices;
  poll_status = ret;
}

with_polled : PollerThread → Polled → PollerThread
with_polled p r = record p { active_devices = r.active; inactive_devices = r.inactive }

-- One round of handlePollRequest: the state, the message for the listener and the status.
unfoldable pub poll_round :
    ℕ → PollAnswer × ListenerAnswer → PollerThread → PollerThread × PollEvent × Status
unfolding notify event_of with_polled
poll_round req_id (a, answer) p =
    let r =
      poll_devices p.polling_devices p.active_devices p.inactive_devices p.flush_fd p.events a in
    let p' = with_polled p r in
    let (p'', status) = notify p' answer in (p'', event_of p' req_id r.ret, status)

-- The end of a loop of rounds, or none where the given answers do not end it. -EAGAIN is the number
-- of WOULD_BLOCK.
abbrev pub Loop : Type 0
Loop = Option (PollerThread × List PollEvent × Status)

then_more : PollEvent → Loop → Loop
then_more e none = none
then_more e (some (p, events, status)) = some (p, e ∷ events, status)

unfoldable pub is_again : Status → Bool
is_again would_block = true
is_again _ = false

unfoldable pub poll_rounds : ℕ → List (PollAnswer × ListenerAnswer) → PollerThread → Loop
unfolding then_more poll_round is_again
poll_rounds req_id [] p = none
poll_rounds req_id (r ∷ rs) p =
    let (p', e, status) = poll_round req_id r p in
    let rest = poll_rounds req_id rs p' in
    if is_again status then then_more e rest else some (p', e ∷ [], status)

-- A request with no devices is told as an error; the listener could not change its devices.
unfoldable pub handle_poll_request :
    ℕ → List ℕ → List (PollAnswer × ListenerAnswer) → Status → PollerThread → Loop
unfolding poll_rounds
handle_poll_request req_id [] rounds answer p = some (
  p,
  record {
    is_error = true;
    req_id = req_id;
    active = [];
    inactive = [];
    polled = [];
    poll_status = pos 0;
  }
      ∷ [],
  if p.has_listener then answer else bad_value,
)
handle_poll_request req_id (d ∷ ds) rounds answer p =
    poll_rounds req_id rounds (record p { polling_devices = d ∷ ds })

unfoldable pub handle_flush : Bool → PollerThread → PollerThread
handle_flush clear p =
    if clear
    then record p { polling_devices = []; active_devices = []; inactive_devices = [] }
    else p

unfoldable pub handle_message_exit : PollerThread → PollerThread × Status
handle_message_exit p = (record p { thread_running = false }, ok)
