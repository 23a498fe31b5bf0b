-- ===== src/Results/State.antt =====
-- AAL/ResultProcessor.h and the parts of AAL/Camera3Request that ResultProcessor reads.
use hardware_rockchip_camera.Base.{
  ℕ, ◌+◌, Bool, true, false, List, [], ◌∷◌, Option, none, some, ◌==◌, ltb, if◌then◌else◌, get_elem?,
}
use hardware_rockchip_camera.Pool.Items.{ItemPool, empty_pool, init}

-- A CameraBuffer: its address, its status flag and the stream that owns it.
pub record Buffer : Type 0 where
  pub address : ℕ
  pub is_error : Bool
  pub owner : ℕ

-- A Camera3Request. Metadata buffers are addresses. `mError`, which other threads set at any time,
-- stands in the processor's state, by request.
pub record Request : Type 0 where
  pub id : ℕ
  pub num_output_bufs : ℕ
  pub num_input_bufs : ℕ
  pub input_buffer : Option ℕ
  pub partial_result_buffers : List ℕ
  pub initialized : Bool
  pub settings : ℕ

unfoldable pub is_input_buffer : Request → Buffer → Bool
is_input_buffer r b = elim r.input_buffer [ none ↦ false | some a ↦ b.address == a ]

unfoldable pub get_partial_result_buffer : Request → ℕ → Option ℕ
get_partial_result_buffer r index = get_elem? r.partial_result_buffers index

-- nullptr while the request is not initialised.
unfoldable pub get_settings : Request → Option ℕ
get_settings r = if r.initialized then some r.settings else none

-- `slot` is the address of the struct in mReqStatePool.
pub record RequestState : Type 0 where
  pub slot : ℕ
  pub req_id : ℕ
  pub next_req_id : ℕ
  pub request : Request
  pub is_shutter_done : Bool
  pub shutter_received : Bool
  pub shutter_time : ℕ
  pub partial_result_returned : ℕ
  pub pending_partial_results : List (Option ℕ)
  pub buffers_returned : ℕ
  pub buffers_to_return : ℕ
  pub pending_buffers : List Buffer

unfoldable pub init_state : ℕ → Request → RequestState
init_state slot req = record {
  slot = slot;
  req_id = req.id;
  next_req_id = req.id + 1;
  request = req;
  is_shutter_done = false;
  shutter_received = false;
  shutter_time = 0;
  partial_result_returned = 0;
  pending_partial_results = [];
  buffers_returned = 0;
  buffers_to_return = req.num_output_bufs + req.num_input_bufs;
  pending_buffers = [];
}

-- What leaves ResultProcessor: the callbacks `notify` and `process_capture_result`, the calls of
-- `decOutBuffersInHal` on a stream and of RequestThread::returnRequest.
pub data Event : Type 0 where
  shutter : ℕ → ℕ → Event
  request_error : ℕ → Event
  device_error : Event
  metadata : ℕ → ℕ → Option ℕ → Event
  buffer : ℕ → Buffer → Bool → Bool → Event
  dec_out_buffers : ℕ → Event
  request_returned : ℕ → Event

pub record Processor : Type 0 where
  pub req_state_pool : ItemPool
  pub requests_in_transit : List RequestState
  pub partial_result_count : ℕ
  pub next_request_id : ℕ
  pub requests_pending_meta_return : List ℕ
  pub thread_running : Bool
  pub request_has_error : ℕ → Bool
  -- newest first
  pub log : List Event

-- The constructor; `base` is the address of the array that the pool allocates.
unfoldable pub construct : ℕ → Processor
construct base = record {
  req_state_pool = init empty_pool base 10;
  requests_in_transit = [];
  partial_result_count = 0;
  next_request_id = 0;
  requests_pending_meta_return = [];
  thread_running = true;
  request_has_error = λ _. false;
  log = [];
}

-- A step may read a vector out of range, dereference nullptr or miss a key of the map (`fault`); a
-- loop on fuel may not be over (`out_of_fuel`).
pub data Outcome {ℓ} (A : Type ℓ) : Type ℓ where
  done : A → Outcome A
  fault : Outcome A
  out_of_fuel : Outcome A

infixl 5 ◌>>=◌
abbrev pub ◌>>=◌ {ℓ κ} : {A : Type ℓ} {B : Type κ} → Outcome A → (A → Outcome B) → Outcome B
done a >>= f = f a
fault >>= f = fault
out_of_fuel >>= f = out_of_fuel

-- The map mRequestsInTransit: its values, in the order of their key, which is `req_id`.
unfoldable pub find_state : ℕ → List RequestState → Option RequestState
find_state id [] = none
find_state id (s ∷ ss) = if s.req_id == id then some s else find_state id ss

unfoldable pub insert_state : RequestState → List RequestState → List RequestState
insert_state t [] = t ∷ []
insert_state t (s ∷ ss) = if ltb s.req_id t.req_id then s ∷ insert_state t ss else t ∷ s ∷ ss

unfoldable pub put_state : RequestState → List RequestState → List RequestState
put_state t [] = []
put_state t (s ∷ ss) = (if s.req_id == t.req_id then t else s) ∷ put_state t ss

unfoldable pub erase_state : ℕ → List RequestState → List RequestState
erase_state id [] = []
erase_state id (s ∷ ss) = let rest = erase_state id ss in if s.req_id == id then rest else s ∷ rest

-- mRequestsPendingMetaReturn is kept in increasing order.
unfoldable pub insert_pending : ℕ → List ℕ → List ℕ
insert_pending id [] = id ∷ []
insert_pending id (i ∷ is) = if ltb i id then i ∷ insert_pending id is else id ∷ i ∷ is
