-- ===== src/Capture/Thread/Configure.antt =====
-- handleConfigureStreams and deleteStreams of AAL/RequestThread.cpp. A result of none is a call
-- through nullptr or an erase behind the end of mLocalStreams.
pub mod Aligned
pub mod Unfit
pub mod InStep
use mathlib.Core.Option
use hardware_rockchip_camera.Base.{
  ℕ, zero, suc, ◌+◌, Bool, true, false, not, List, [], ◌∷◌, ◌++◌, Option, none, some, ◌==◌, ltb,
  if◌then◌else◌,
}
use hardware_rockchip_camera.Status.{Status, ok, bad_value, is_ok}
use hardware_rockchip_camera.Capture.Stream.{
  Heap, Stream3, CameraStream, new_stream, set_active, on_stream, update,
}
use hardware_rockchip_camera.Capture.Request.{stream_output, stream_input, stream_bidirectional}
use hardware_rockchip_camera.Capture.Thread.{RequestThread, Answers, wait_requests_drain}

-- The answers of ICameraHw::configStreams and bindStreams, and the addresses that `new CameraStream`
-- returns, by the number of the stream.
pub record HwAnswers : Type 0 where
  pub config_streams : Status
  pub bind_streams : Status
  pub allocate : ℕ → ℕ

-- How many input and output streams a type counts for, or none for an unknown one.
unfoldable pub counts_of : ℕ → Option (ℕ × ℕ)
counts_of type =
    if type == stream_output
    then some (0, 1)
    else if type == stream_input
    then some (1, 0)
    else if type == stream_bidirectional
    then some (1, 1)
    else none

-- The number of output streams, or none where a type is unknown or there are two input streams.
unfoldable pub count_streams : Heap → List ℕ → ℕ → ℕ → Option ℕ
unfolding counts_of
count_streams h [] ins outs = some outs
count_streams h (s ∷ ss) ins outs = elim (counts_of (h.stream3s s).stream_type) [
  | none ↦ none
  | some (i, o) ↦ if ltb 1 (ins + i) then none else count_streams h ss (ins + i) (outs + o)
]

unfoldable pub mark : Bool → Heap → ℕ → Option Heap
mark active h s = Option.map (λ c. on_stream c (set_active active) h) (h.stream3s s).priv

unfoldable pub mark_all_inactive : List ℕ → Heap → Option Heap
unfolding mark
mark_all_inactive [] h = some h
mark_all_inactive (s ∷ ss) h = elim (mark false h s) [
  | none ↦ none
  | some h' ↦ mark_all_inactive ss h'
]

set_priv : Option ℕ → Stream3 → Stream3
set_priv p s = record s { priv = p }

-- A stream that the HAL does not know gets a CameraStream.
create_stream : (ℕ → ℕ) → ℕ → RequestThread → RequestThread
unfolding set_priv
create_stream allocate s t =
    let c = allocate t.stream_seq_no in
    let h = t.heap in
    record t {
      streams = t.streams ++ s ∷ [];
      local_streams = t.local_streams ++ c ∷ [];
      stream_seq_no = t.stream_seq_no + 1;
      heap = record {
        stream3s = update s (set_priv (some c)) h.stream3s;
        streams = update c (λ _. set_active true (new_stream t.stream_seq_no s)) h.streams;
      };
    }

add_stream : (ℕ → ℕ) → ℕ → RequestThread → RequestThread
unfolding create_stream
add_stream allocate s t = elim (t.heap.stream3s s).priv [
  | none ↦ create_stream allocate s t
  | some c ↦ record t { heap = on_stream c (set_active true) t.heap }
]

unfoldable pub add_streams : (ℕ → ℕ) → List ℕ → RequestThread → RequestThread
unfolding add_stream
add_streams allocate [] t = t
add_streams allocate (s ∷ ss) t = add_streams allocate ss (add_stream allocate s t)

-- Whether the loop of deleteStreams deletes a stream.
unfoldable pub is_deleted : Bool → Heap → ℕ → Option Bool
is_deleted false h s = some true
is_deleted true h s = Option.map (λ c. not (h.streams c).active) (h.stream3s s).priv

clear_priv : ℕ → Heap → Heap
unfolding set_priv
clear_priv s h = record h { stream3s = update s (set_priv none) h.stream3s }

keep_one : ℕ → ℕ → List ℕ × List ℕ × Heap → List ℕ × List ℕ × Heap
keep_one s l (ss, ls, h) = (s ∷ ss, l ∷ ls, h)

-- The loop over mStreams; both vectors lose the entry of the same index.
unfoldable pub delete_loop : Bool → List ℕ → List ℕ → Heap → Option (List ℕ × List ℕ × Heap)
unfolding is_deleted clear_priv keep_one
delete_loop only_inactive [] ls h = some ([], ls, h)
delete_loop only_inactive (s ∷ ss) [] h = none
delete_loop only_inactive (s ∷ ss) (l ∷ ls) h = elim (is_deleted only_inactive h s) [
  | none ↦ none
  | some true ↦ delete_loop only_inactive ss ls (clear_priv s h)
  | some false ↦ Option.map (keep_one s l) (delete_loop only_inactive ss ls h)
]

with_streams : RequestThread → List ℕ × List ℕ × Heap → RequestThread
with_streams t (ss, ls, h) = record t { streams = ss; local_streams = ls; heap = h }

unfoldable pub delete_streams : Bool → RequestThread → Option RequestThread
unfolding delete_loop with_streams
delete_streams only_inactive t =
    Option.map (with_streams t) (delete_loop only_inactive t.streams t.local_streams t.heap)

-- After the inactive streams were deleted.
configure_hw : Answers → HwAnswers → RequestThread → Option (RequestThread × Status)
configure_hw a hw t =
    let t' = wait_requests_drain a t in
    if is_ok hw.config_streams
    then some (t', hw.bind_streams)
    else Option.map (λ u. (u, hw.config_streams)) (delete_streams false t')

accepted_streams :
    Answers → HwAnswers → List ℕ → RequestThread → Option Heap → Option (RequestThread × Status)
unfolding configure_hw
accepted_streams a hw list t none = none
accepted_streams a hw list t (some h) =
    elim (delete_streams true (add_streams hw.allocate list (record t { heap = h }))) [
      | none ↦ none
      | some t' ↦ configure_hw a hw t'
    ]

checked_streams :
    Answers → HwAnswers → List ℕ → RequestThread → Option ℕ → Option (RequestThread × Status)
unfolding accepted_streams
checked_streams a hw list t none = some (t, bad_value)
checked_streams a hw list t (some zero) = some (t, bad_value)
checked_streams a hw list t (some (suc n)) =
    accepted_streams a hw list t (mark_all_inactive t.streams t.heap)

unfoldable pub handle_configure_streams :
    Answers → HwAnswers → List ℕ → RequestThread → Option (RequestThread × Status)
unfolding checked_streams
handle_configure_streams a hw list t =
    let t' = record t { last_settings = none; waiting_request = none } in
    checked_streams a hw list t' (count_streams t.heap list 0 0)
